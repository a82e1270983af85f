-- ===== src/Scenarios/Tests.antt =====
-- Two scenarios that overlap, the later one of the higher priority.
use motel.Prelude.{
  str_eq, if◌then◌else◌, Bool, lookup, IsMap, List, true, false, inr, ◌≡◌, refl, [], ◌∷◌, ◌++◌,
  Option, some, none, filterb, arith, All, String,
}
use motel.Prelude.Int.{ℤ, pos, ◌≤ℤ◌}
use motel.Topology.Types.{Scenario, Override, Call}
use motel.Scenarios.{sort_stable, active_scenarios, is_active, resolve_traffic}
use motel.Scenarios.Order.{IsSorted, of_priority, active_scenarios-IsSorted, resolve_traffic-last}
use motel.Scenarios.Resolve.{
  resolve_overrides, merge_override, lookup-resolve_overrides, resolve_overrides-RateIs, RateIs,
}
use motel.Scenarios.Sets.{key_of_active}
use motel.Fixture.{counting, store_call}

abbrev scenario_of : String → ℤ → ℤ → Option (ℤ → ℤ) → Scenario counting
scenario_of name start priority traffic = record {
  name = name;
  start = start;
  end = pos 100;
  priority = priority;
  overrides = [];
  traffic = traffic;
}

abbrev flat_rate : ℤ → ℤ
flat_rate t = pos 5000

abbrev outage : Scenario counting
outage = scenario_of "outage" (pos 10) (pos 2) (some flat_rate)

abbrev drift : Scenario counting
drift = scenario_of "drift" (pos 0) (pos 1) none

active_scenarios-IsSorted_example :
    IsSorted counting (active_scenarios counting (outage ∷ drift ∷ []) (pos 20))
    × (of_priority counting (pos 2) (active_scenarios counting (outage ∷ drift ∷ []) (pos 20))
        ≡ of_priority counting
            (pos 2)
            (filterb (is_active counting (pos 20)) (outage ∷ drift ∷ [])))
active_scenarios-IsSorted_example =
    active_scenarios-IsSorted counting (outage ∷ drift ∷ []) (pos 20) (pos 2)

resolve_traffic-last_example :
    (resolve_traffic counting ((drift ∷ []) ++ outage ∷ []) ≡ some flat_rate)
    × All (λ (x : Scenario counting). x.priority ≤ℤ pos 2) (drift ∷ [])
resolve_traffic-last_example =
    resolve_traffic-last counting (drift ∷ []) [] outage flat_rate ((omega arith, tt), (tt, tt))
      refl tt

-- A slow store, then an outage of it, then a store that calls itself.
abbrev override_of : Bool → ℤ → List (Call counting) → Override counting
override_of has_rate rate calls = record {
  duration = record { mean = pos 0; std_dev = pos 0 };
  error_rate = rate;
  has_error_rate = has_rate;
  attributes = [];
  add_calls = calls;
  remove_calls = [];
  metrics = [];
  add_logs = [];
  disable_logs = false;
}

abbrev changing : String → String → Override counting → Scenario counting
changing name ref ov = record {
  name = name;
  start = pos 0;
  end = pos 100;
  priority = pos 0;
  overrides = (ref, ov) ∷ [];
  traffic = none;
}

abbrev failing : Scenario counting
failing = changing "failing" "store.read" (override_of true (pos 500) [])

abbrev calling : Scenario counting
calling = changing "calling" "store.read" (override_of false (pos 0) (store_call ∷ []))

abbrev one_map : (ref : String) (ov : Override counting) → IsMap ((ref, ov) ∷ [])
unfolding lookup
one_map ref ov = (refl, tt)

lookup-resolve_overrides_example :
    lookup "store.read" (resolve_overrides counting (failing ∷ calling ∷ []))
    ≡ some (
        merge_override counting
          (override_of true (pos 500) [])
          (override_of false (pos 0) (store_call ∷ [])))
unfolding lookup
lookup-resolve_overrides_example =
    lookup-resolve_overrides counting "store.read" (failing ∷ calling ∷ []) (
      one_map "store.read" (override_of true (pos 500) []),
      (one_map "store.read" (override_of false (pos 0) (store_call ∷ [])), tt),
    )

resolve_overrides-RateIs_example :
    RateIs counting
      (pos 500)
      (lookup "store.read" (resolve_overrides counting (drift ∷ failing ∷ calling ∷ [])))
unfolding lookup
resolve_overrides-RateIs_example =
    resolve_overrides-RateIs counting "store.read" (drift ∷ []) (calling ∷ []) failing
      (override_of true (pos 500) [])
      (
        tt,
        (
          one_map "store.read" (override_of true (pos 500) []),
          (one_map "store.read" (override_of false (pos 0) (store_call ∷ [])), tt),
        ),
      )
      refl refl (inr (override_of false (pos 0) (store_call ∷ []), refl, refl), tt)

-- The scenarios that a key stands for.
abbrev decode : String → List (Scenario counting)
decode key =
    if str_eq key "outage"
    then outage ∷ []
    else if str_eq key "drift"
    then drift ∷ []
    else if str_eq key "drift\0outage"
    then drift ∷ outage ∷ []
    else []

both : List (Scenario counting)
both = outage ∷ drift ∷ []

Decoded : List (Scenario counting) → Type 0
Decoded active =
    decode (key_of_active counting (sort_stable counting active)) ≡ sort_stable counting active
