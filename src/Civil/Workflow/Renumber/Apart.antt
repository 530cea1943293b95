-- ===== src/Civil/Workflow/Renumber/Apart.antt =====
-- workflow.py: the numbers of the points after `renumber_points`.
use screen2xyz_civil_plan_di.Prelude.{
  ℕ, suc, ◌≡◌, refl, sym, ◌∙◌, ap, String, Option, true, false, not, ◌||◌, List, [], ◌∷◌, map,
  length, is_empty, arith, All, All-map, str_eq, eq_iff, Bool-cases, inl, inr,
}
use screen2xyz_civil_plan_di.Prelude.Int.{ℤ, pos}
use screen2xyz_civil_plan_di.Civil.Json.{int, str, list}
use screen2xyz_civil_plan_di.Civil.Model.{CivilPoint, mem_id, unique_ids}
use screen2xyz_civil_plan_di.Civil.Workflow.{
  workflow_error, Fault, Runtime, Desk, Action, gets, require, ◌>>=◌, ◌>>◌, update_point,
}
use screen2xyz_civil_plan_di.Civil.Workflow.Triple.{
  OnPoints, Post, Triple, ◌⟫◌, Triple-or_raise, Triple-require, Triple-clock, Triple-audit,
}
use screen2xyz_civil_plan_di.Civil.Workflow.Gate.Writes.{Triple-write, Triple-mark_stale}
use screen2xyz_civil_plan_di.Civil.Workflow.Renumber.{
  settings, is_among, has_repeats, numbers_from, is_taken, assign, renumber_points,
}
use screen2xyz_civil_plan_di.Civil.Workflow.Renumber.Writes.{Triple-selected, Triple-chosen}

length-numbers_from :
    (prefix : String) (padding start : ℕ) (ids : List String)
    → length (numbers_from prefix padding start ids) ≡ length ids
unfolding numbers_from
length-numbers_from prefix padding start [] = refl
length-numbers_from prefix padding start (id ∷ ids) =
    ap suc (length-numbers_from prefix padding (suc start) ids)

module _ {F : Type 0} where
  -- Two points with one number have none.
  abbrev pub AreApart : CivilPoint F → CivilPoint F → Type 0
  AreApart p q = p.point_number ≡ q.point_number → p.point_number ≡ ""

  -- No two points have the same number, but for those without one.
  abbrev pub HasUniqueNumbers : List (CivilPoint F) → Type 0
  HasUniqueNumbers [] = Unit
  HasUniqueNumbers (p ∷ ps) = All (AreApart p) ps × HasUniqueNumbers ps

  abbrev renumbered : String → String → CivilPoint F → CivilPoint F
  renumbered t n p = record p { point_number = n; updated_at = t }

  -- While the points `ids` still wait for the numbers `ns`: the others are apart, and have none of those.
  abbrev IsFree : List String → List String → CivilPoint F → Type 0
  IsFree ids ns p =
      is_among p.id ids ≡ false → is_among p.point_number ns ≡ true → p.point_number ≡ ""

  abbrev AreSettled : List String → CivilPoint F → CivilPoint F → Type 0
  AreSettled ids p q = is_among p.id ids ≡ false → is_among q.id ids ≡ false → AreApart p q

  abbrev Settled : List String → List (CivilPoint F) → Type 0
  Settled ids [] = Unit
  Settled ids (p ∷ ps) = All (AreSettled ids p) ps × Settled ids ps

  abbrev Progress : List String → List String → OnPoints F
  Progress ids ns ps = (unique_ids ps ≡ true) × All (IsFree ids ns) ps × Settled ids ps

  module _ (id n t : String) (ids ns : List String) where
    keep-IsFree :
        (p : CivilPoint F) → str_eq p.id id ≡ false → IsFree (id ∷ ids) (n ∷ ns) p → IsFree ids ns p
    keep-IsFree p e h a b = h (ground (arith, e, a)) (ground (arith, b))

    keep-AreSettled :
        (p q : CivilPoint F)
        → str_eq p.id id ≡ false
        → str_eq q.id id ≡ false
        → AreSettled (id ∷ ids) p q
        → AreSettled ids p q
    keep-AreSettled p q e f h a b = h (ground (arith, e, a)) (ground (arith, f, b))

    left-AreSettled :
        (p q : CivilPoint F)
        → str_eq q.id id ≡ false
        → IsFree (id ∷ ids) (n ∷ ns) q
        → AreSettled ids (renumbered t n p) q
    left-AreSettled p q e h a b same =
        same ∙ h (ground (arith, e, b)) (ground (arith, (eq_iff q.point_number n).1 (sym same)))

    right-AreSettled :
        (p q : CivilPoint F)
        → str_eq p.id id ≡ false
        → IsFree (id ∷ ids) (n ∷ ns) p
        → AreSettled ids p (renumbered t n q)
    right-AreSettled p q e h a b same =
        h (ground (arith, e, a)) (ground (arith, (eq_iff p.point_number n).1 same))

    new-IsFree : is_among n ns ≡ false → (p : CivilPoint F) → IsFree ids ns (renumbered t n p)
    new-IsFree h p a b = ground (arith, h, b)

    -- The points of other ids
    All-others :
        {P Q : CivilPoint F → Type 0}
        → ((q : CivilPoint F) → str_eq q.id id ≡ false → P q → Q q)
        → (ps : List (CivilPoint F)) → mem_id id ps ≡ false
        → All P ps
        → All Q ps
    All-others f [] m h = tt
    All-others f (p ∷ ps) m h =
        (f p (ground (arith, m)) h.0, All-others f ps (ground (arith, m)) h.1)

    All-update_point :
        {P Q : CivilPoint F → Type 0}
        → ((q : CivilPoint F) → P q → Q (renumbered t n q))
        → ((q : CivilPoint F) → str_eq q.id id ≡ false → P q → Q q)
        → (ps : List (CivilPoint F)) → unique_ids ps ≡ true
        → All P ps
        → All Q (update_point id (renumbered t n) ps)
    unfolding update_point unique_ids
    All-update_point f g [] u h = tt
    All-update_point f g (p ∷ ps) u h = elim (Bool-cases (str_eq p.id id)) [
      | inl e ↦ rw e (
        f p h.0,
        All-others g ps (ground (arith, u, ap (λ i. mem_id i ps) ((eq_iff p.id id).0 e))) h.1,
      )
      | inr e ↦ rw e (g p e h.0, All-update_point f g ps (ground (arith, u)) h.1)
    ]

    Settled-update_point :
        (ps : List (CivilPoint F))
        → unique_ids ps ≡ true
        → All (IsFree (id ∷ ids) (n ∷ ns)) ps
        → Settled (id ∷ ids) ps
        → Settled ids (update_point id (renumbered t n) ps)
    unfolding update_point unique_ids
    Settled-update_point [] u h s = tt
    Settled-update_point (p ∷ ps) u h s = elim (Bool-cases (str_eq p.id id)) [
      | inl e ↦
          let new : mem_id id ps ≡ false =
            ground (arith, u, ap (λ i. mem_id i ps) ((eq_iff p.id id).0 e)) in
          rw e (All-others (left-AreSettled p) ps new h.1, Settled-others ps new s.1)
      | inr e ↦
          let rest : unique_ids ps ≡ true = ground (arith, u) in
          rw e (
            All-update_point (λ q k. right-AreSettled p q e h.0)
                (λ q f k. keep-AreSettled p q e f k) ps rest s.0,
            Settled-update_point ps rest h.1 s.1,
          )
    ]
      where
        Settled-others :
            (ps : List (CivilPoint F))
            → mem_id id ps ≡ false
            → Settled (id ∷ ids) ps
            → Settled ids ps
        Settled-others [] m s = tt
        Settled-others (q ∷ qs) m s = (
          All-others (λ r f k. keep-AreSettled q r (ground (arith, m)) f k) qs (ground (arith, m))
              s.0,
          Settled-others qs (ground (arith, m)) s.1,
        )

    mem_id-update_point :
        (i : String) (ps : List (CivilPoint F))
        → mem_id i (update_point id (renumbered t n) ps) ≡ mem_id i ps
    unfolding update_point
    mem_id-update_point i [] = refl
    mem_id-update_point i (p ∷ ps) = ground (arith, mem_id-update_point i ps)

    unique_ids-update_point :
        (ps : List (CivilPoint F))
        → unique_ids (update_point id (renumbered t n) ps) ≡ unique_ids ps
    unfolding update_point unique_ids
    unique_ids-update_point [] = refl
    unique_ids-update_point (p ∷ ps) =
        ground (arith, unique_ids-update_point ps, mem_id-update_point p.id ps)

    progress-update_point :
        is_among n ns ≡ false
        → (ps : List (CivilPoint F)) → Progress (id ∷ ids) (n ∷ ns) ps
        → Progress ids ns (update_point id (renumbered t n) ps)
    progress-update_point new ps h = (
      unique_ids-update_point ps ∙ h.0,
      All-update_point (λ q k. new-IsFree new q) keep-IsFree ps h.0 h.1,
      Settled-update_point ps h.0 h.1 h.2,
    )

  Settled-start :
      (ids : List String) (ps : List (CivilPoint F)) → HasUniqueNumbers ps → Settled ids ps
  Settled-start ids [] h = tt
  Settled-start ids (p ∷ ps) h = (All-map (λ q k a b. k) ps h.0, Settled-start ids ps h.1)

  Settled-end : (ps : List (CivilPoint F)) → Settled [] ps → HasUniqueNumbers ps
  Settled-end [] h = tt
  Settled-end (p ∷ ps) h = (All-map (λ q k. k refl refl) ps h.0, Settled-end ps h.1)

  IsFree-start :
      (ids ns : List String) (ps : List (CivilPoint F))
      → is_taken ids ns ps ≡ false
      → All (IsFree ids ns) ps
  unfolding is_taken
  IsFree-start ids ns [] h = tt
  IsFree-start ids ns (p ∷ ps) h = (
    λ a b. (eq_iff p.point_number "").0 (ground (arith, h, a, b)),
    IsFree-start ids ns ps (ground (arith, h)),
  )

  abbrev IsNumbered : OnPoints F
  IsNumbered ps = (unique_ids ps ≡ true) × HasUniqueNumbers ps

  assign-HasUniqueNumbers :
      (t : String) (ids ns : List String)
      → length ns ≡ length ids
      → has_repeats ns ≡ false
      → Triple (Progress ids ns) HasUniqueNumbers (assign t ids ns)
  unfolding assign has_repeats
  assign-HasUniqueNumbers t (id ∷ ids) (n ∷ ns) same new =
      Triple-write id (renumbered t n) (progress-update_point id n t ids ns (ground (arith, new)))
      ⟫ λ _. assign-HasUniqueNumbers t ids ns (omega (arith, same)) (ground (arith, new))
  assign-HasUniqueNumbers t [] [] same new = record { at = λ d h. Settled-end d.project.points h.2 }
  assign-HasUniqueNumbers t [] (n ∷ ns) same new = absurd (omega (arith, same))
  assign-HasUniqueNumbers t (id ∷ ids) [] same new = absurd (omega (arith, same))

  Triple-free :
      {A : Type 0} {L : OnPoints F} (ids ns : List String) (e : Fault) (m : Action F A)
      → (has_repeats ns ≡ false → Triple (Progress ids ns) L m)
      → Triple IsNumbered L (
          gets (λ p. is_taken ids ns p.points) >>= λ taken.
          require (not (has_repeats ns || taken)) e >> m)
  Triple-free ids ns e m h = record {
    at = λ d k. elim (Bool-cases (has_repeats ns || is_taken ids ns d.project.points)) [
      | inl refused ↦ rw refused tt
      | inr passed ↦ rw passed (
          (h (ground (arith, passed))).at d (
            k.0,
            IsFree-start ids ns d.project.points (ground (arith, passed)),
            Settled-start ids d.project.points k.1,
          ))
    ];
  }

module _ (rt : Runtime) where
  open rt use {fl, format}
  open fl use {F}

  renumber_points-HasUniqueNumbers :
      (point_ids : Option (List String)) (prefix : String) (start padding : ℤ)
      → Triple IsNumbered HasUniqueNumbers (renumber_points rt point_ids prefix start padding)
  unfolding renumber_points
  renumber_points-HasUniqueNumbers point_ids prefix start padding =
      Triple-or_raise workflow_error (settings start padding) ⟫ λ set.
      Triple-chosen point_ids ⟫ λ points.
      Triple-require (not (is_empty points)) workflow_error (λ some_points.
        let ids = map (λ p. p.id) points in
        let ns = numbers_from prefix set.1 set.0 ids in
        Triple-free ids ns workflow_error _ (λ distinct. Triple-clock rt ⟫ λ t.
        assign-HasUniqueNumbers t ids ns (length-numbers_from prefix set.1 set.0 ids) distinct
        ⟫ λ _. Triple-mark_stale ⟫ λ _.
            Triple-audit rt "POINTS_RENUMBERED"
              (format "Renumbered {} Point Cart rows." (int (pos (length points)) ∷ []))
              (("point_ids", list (map str ids))
                ∷ ("prefix", str prefix)
                ∷ ("start", int start)
                ∷ ("padding", int padding)
                ∷ [])
            ⟫ λ _. Triple-selected ids))

  -- Where the ids of the points are unique, no two points have the same number, but for those without
  -- one, and `renumber_points` succeeds, no two points have the same number after it, but for those
  -- without one.
  pub numbers_stay_unique :
      (point_ids : Option (List String)) (prefix : String) (start padding : ℤ) (d : Desk F)
      → unique_ids d.project.points ≡ true
      → HasUniqueNumbers d.project.points
      → Post HasUniqueNumbers (renumber_points rt point_ids prefix start padding d)
  numbers_stay_unique point_ids prefix start padding d u h =
      (renumber_points-HasUniqueNumbers point_ids prefix start padding).at d (u, h)
