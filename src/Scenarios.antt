-- ===== src/Scenarios.antt =====
-- pkg/synth/scenario.go and engine.go: which scenarios are active at a time, in which order, and
-- whose traffic counts.
pub mod Order
pub mod Resolve
pub mod Sets
mod Tests
use motel.Prelude.{
  Bool, ◌&&◌, str_eq, List, [], ◌∷◌, Option, none, some, if◌then◌else◌, filterb, true, false,
}
use motel.Prelude.Int.{ℤ, leb_ℤ, ltb_ℤ}
use motel.Platform.{Platform}
use motel.Topology.Types.{Scenario}

abbrev pub same_ℤ : ℤ → ℤ → Bool
same_ℤ a b = leb_ℤ a b && leb_ℤ b a

module _ (p : Platform) where
  open p use {fl}
  open fl use {F}

  -- The activation window: its start counts, its end does not.
  unfoldable pub is_active : ℤ → Scenario p → Bool
  is_active elapsed sc = leb_ℤ sc.start elapsed && ltb_ℤ elapsed sc.end

  -- A stable sort by priority: an element goes before those of its own priority.
  unfoldable pub place : Scenario p → List (Scenario p) → List (Scenario p)
  place sc [] = sc ∷ []
  place sc (x ∷ xs) =
      let later = x ∷ place sc xs in if leb_ℤ sc.priority x.priority then sc ∷ x ∷ xs else later

  unfoldable pub sort_stable : List (Scenario p) → List (Scenario p)
  unfolding place
  sort_stable [] = []
  sort_stable (sc ∷ scs) = place sc (sort_stable scs)

  unfoldable pub active_scenarios : List (Scenario p) → ℤ → List (Scenario p)
  unfolding is_active sort_stable
  active_scenarios scenarios elapsed = sort_stable (filterb (is_active elapsed) scenarios)

  -- The loop of ResolveTraffic, with the result so far.
  unfoldable pub traffic_after : Option (ℤ → F) → List (Scenario p) → Option (ℤ → F)
  traffic_after result [] = result
  traffic_after result (sc ∷ scs) =
      traffic_after (elim sc.traffic [ some t ↦ some t | none ↦ result ]) scs

  unfoldable pub resolve_traffic : List (Scenario p) → Option (ℤ → F)
  unfolding traffic_after
  resolve_traffic active = traffic_after none active

  unfoldable pub active_scenarios_equal : List (Scenario p) → List (Scenario p) → Bool
  active_scenarios_equal [] [] = true
  active_scenarios_equal [] (y ∷ ys) = false
  active_scenarios_equal (x ∷ xs) [] = false
  active_scenarios_equal (x ∷ xs) (y ∷ ys) =
      str_eq x.name y.name
      && same_ℤ x.start y.start
      && same_ℤ x.end y.end
      && same_ℤ x.priority y.priority
      && active_scenarios_equal xs ys
