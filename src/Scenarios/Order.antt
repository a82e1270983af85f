-- ===== src/Scenarios/Order.antt =====
-- pkg/synth/scenario.go: ActiveScenarios as a stable sort, and ResolveTraffic on its result.
use motel.Prelude.{
  ◌≡◌, refl, ◌∙◌, List, [], ◌∷◌, ◌++◌, Option, none, some, filterb, arith, All, inl, inr,
  Bool-cases,
}
use motel.Prelude.Int.{ℤ, leb_ℤ, ◌≤ℤ◌}
use motel.Platform.{Platform}
use motel.Topology.Types.{Scenario}
use motel.Scenarios.{
  is_active, place, sort_stable, active_scenarios, traffic_after, resolve_traffic, same_ℤ,
}

module _ (p : Platform) where
  open p use {fl}
  open fl use {F}

  -- Ascending priorities.
  abbrev pub IsSorted : List (Scenario p) → Type 0
  IsSorted [] = Unit
  IsSorted (x ∷ xs) = All (λ y. x.priority ≤ℤ y.priority) xs × IsSorted xs

  abbrev pub of_priority : ℤ → List (Scenario p) → List (Scenario p)
  of_priority q = filterb (λ sc. same_ℤ sc.priority q)

  place-below :
      (b : ℤ) (sc : Scenario p) (xs : List (Scenario p))
      → b ≤ℤ sc.priority
      → All (λ (y : Scenario p). b ≤ℤ y.priority) xs
      → All (λ (y : Scenario p). b ≤ℤ y.priority) (place p sc xs)
  unfolding place
  place-below b sc [] h al = (h, tt)
  place-below b sc (x ∷ xs) h al = ground (arith, place-below b sc xs h al.1)

  All-raise :
      (a b : ℤ) (xs : List (Scenario p))
      → a ≤ℤ b
      → All (λ (y : Scenario p). b ≤ℤ y.priority) xs
      → All (λ (y : Scenario p). a ≤ℤ y.priority) xs
  All-raise a b [] h al = tt
  All-raise a b (x ∷ xs) h al = (omega arith, All-raise a b xs h al.1)

  place-IsSorted :
      (sc : Scenario p) (xs : List (Scenario p)) → IsSorted xs → IsSorted (place p sc xs)
  unfolding place
  place-IsSorted sc [] h = (tt, tt)
  place-IsSorted sc (x ∷ xs) h = elim (Bool-cases (leb_ℤ sc.priority x.priority)) [
    | inl e ↦
        let le : sc.priority ≤ℤ x.priority = ground arith in
        rw (e, place) ((le, All-raise sc.priority x.priority xs le h.0), h)
    | inr e ↦
        rw (e, place) (place-below x.priority sc xs (ground arith) h.0, place-IsSorted sc xs h.1)
  ]

  sort_stable-IsSorted : (xs : List (Scenario p)) → IsSorted (sort_stable p xs)
  unfolding sort_stable
  sort_stable-IsSorted [] = tt
  sort_stable-IsSorted (x ∷ xs) = place-IsSorted x (sort_stable p xs) (sort_stable-IsSorted xs)

  of_priority-place :
      (q : ℤ) (sc : Scenario p) (xs : List (Scenario p))
      → of_priority q (place p sc xs) ≡ of_priority q (sc ∷ xs)
  unfolding place
  of_priority-place q sc [] = refl
  of_priority-place q sc (x ∷ xs) = ground (arith, of_priority-place q sc xs)

  of_priority-sort_stable :
      (q : ℤ) (xs : List (Scenario p)) → of_priority q (sort_stable p xs) ≡ of_priority q xs
  unfolding sort_stable
  of_priority-sort_stable q [] = refl
  of_priority-sort_stable q (x ∷ xs) =
      of_priority-place q x (sort_stable p xs) ∙ ground (arith, of_priority-sort_stable q xs)

  -- The active scenarios are in ascending order of priority, and those of each priority are the
  -- scenarios whose window contains the time, in the order of the configuration.
  pub active_scenarios-IsSorted :
      (scenarios : List (Scenario p)) (elapsed q : ℤ)
      → IsSorted (active_scenarios p scenarios elapsed)
        × (of_priority q (active_scenarios p scenarios elapsed)
            ≡ of_priority q (filterb (is_active p elapsed) scenarios))
  unfolding active_scenarios
  active_scenarios-IsSorted scenarios elapsed q = (
    sort_stable-IsSorted (filterb (is_active p elapsed) scenarios),
    of_priority-sort_stable q (filterb (is_active p elapsed) scenarios),
  )

  traffic_after-append :
      (xs ys : List (Scenario p)) (result : Option (ℤ → F))
      → traffic_after p result (xs ++ ys) ≡ traffic_after p (traffic_after p result xs) ys
  unfolding traffic_after
  traffic_after-append [] ys result = refl
  traffic_after-append (x ∷ xs) ys result =
      traffic_after-append xs ys (elim x.traffic [ some t ↦ some t | none ↦ result ])

  traffic_after-none :
      (result : Option (ℤ → F)) (ys : List (Scenario p))
      → All (λ (sc : Scenario p). sc.traffic ≡ none) ys
      → traffic_after p result ys ≡ result
  unfolding traffic_after
  traffic_after-none result [] h = refl
  traffic_after-none result (y ∷ ys) h = rw (h.0, traffic_after) (traffic_after-none result ys h.1)

  -- The traffic is that of the last scenario with a pattern of its own, which among the active
  -- ones is of the highest priority that has one.
  pub resolve_traffic-last :
      (xs ys : List (Scenario p)) (sc : Scenario p) (t : ℤ → F)
      → IsSorted (xs ++ sc ∷ ys)
      → sc.traffic ≡ some t
      → All (λ (y : Scenario p). y.traffic ≡ none) ys
      → (resolve_traffic p (xs ++ sc ∷ ys) ≡ some t)
        × All (λ (x : Scenario p). x.priority ≤ℤ sc.priority) xs
  unfolding resolve_traffic traffic_after
  resolve_traffic-last xs ys sc t s e h = (
    traffic_after-append xs (sc ∷ ys) none
        ∙ rw (e, traffic_after) (traffic_after-none (some t) ys h),
    before xs s,
  )
    where
      All-head :
          (b : ℤ) (xs : List (Scenario p))
          → All (λ (y : Scenario p). b ≤ℤ y.priority) (xs ++ sc ∷ ys)
          → b ≤ℤ sc.priority
      All-head b [] al = al.0
      All-head b (x ∷ xs) al = All-head b xs al.1

      before :
          (xs : List (Scenario p))
          → IsSorted (xs ++ sc ∷ ys)
          → All (λ (x : Scenario p). x.priority ≤ℤ sc.priority) xs
      before [] s = tt
      before (x ∷ xs) s = (All-head x.priority xs s.0, before xs s.1)
