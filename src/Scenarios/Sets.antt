-- ===== src/Scenarios/Sets.antt =====
-- pkg/synth/check.go, ScenarioSets: the combinations of scenarios that are active together, taken at
-- the boundaries of their windows.
pub mod Coverage
use Prim.Native.String
use motel.Prelude.{
  ℕ, ◌≡◌, ◌≢◌, refl, sym, subst, ap, ◌∙◌, ◌↔◌, Bool, true, false, not, ◌&&◌, ◌||◌, String, str_eq,
  eq_iff, List, [], ◌∷◌, ◌++◌, map, Option, none, some, Dict, if◌then◌else◌, filterb, arith, All,
  Any, inl, inr, ◌⊎◌, Bool-cases,
}
use motel.Prelude.Int.{ℤ, leb_ℤ, ltb_ℤ, ◌≤ℤ◌}
use motel.Platform.{Platform}
use motel.Topology.Types.{Override, Scenario}
use motel.Scenarios.{active_scenarios, is_active, sort_stable}
use motel.Scenarios.Resolve.{resolve_overrides}

-- strings.Join with a zero byte between.
unfoldable pub join_names : List String → String
join_names [] = ""
join_names (x ∷ []) = x
join_names (x ∷ y ∷ ys) = String.◌++◌ x (String.◌++◌ "\0" (join_names (y ∷ ys)))

-- slices.Sort and slices.Compact on durations.
unfoldable pub place_time : ℤ → List ℤ → List ℤ
place_time t [] = t ∷ []
place_time t (x ∷ xs) = let later = x ∷ place_time t xs in if leb_ℤ t x then t ∷ x ∷ xs else later

unfoldable pub sort_times : List ℤ → List ℤ
unfolding place_time
sort_times [] = []
sort_times (t ∷ ts) = place_time t (sort_times ts)

abbrev same_time : ℤ → ℤ → Bool
same_time a b = leb_ℤ a b && leb_ℤ b a

unfoldable pub compact : List ℤ → List ℤ
compact [] = []
compact (t ∷ []) = t ∷ []
compact (t ∷ u ∷ ts) = let rest = compact (u ∷ ts) in if same_time t u then rest else t ∷ rest

abbrev pub contains_text : String → List String → Bool
contains_text s [] = false
contains_text s (x ∷ xs) = str_eq x s || contains_text s xs

module _ (p : Platform) where
  pub record ScenarioSet : Type 0 where
    pub names : List String
    pub overrides : Dict (Override p)

  unfoldable pub boundaries_of : List (Scenario p) → List ℤ
  boundaries_of [] = []
  boundaries_of (sc ∷ scs) = sc.start ∷ sc.end ∷ boundaries_of scs

  abbrev pub names_of : List (Scenario p) → List String
  names_of = map (λ sc. sc.name)

  abbrev pub key_of_active : List (Scenario p) → String
  key_of_active active = join_names (names_of active)

  abbrev pub set_of : List (Scenario p) → ScenarioSet
  set_of active = record { names = names_of active; overrides = resolve_overrides p active }

  -- Nothing is active, or the combination was seen before.
  unfoldable pub is_skipped : List (Scenario p) → List String → Bool
  is_skipped [] seen = true
  is_skipped (sc ∷ active) seen = contains_text (key_of_active (sc ∷ active)) seen

  -- The loop over the boundaries, with the keys that were seen.
  unfoldable pub sets_at : List (Scenario p) → List String → List ℤ → List ScenarioSet
  unfolding is_skipped
  sets_at scenarios seen [] = []
  sets_at scenarios seen (t ∷ ts) =
      let active = active_scenarios p scenarios t in
      elim (is_skipped active seen) [
        | true ↦ sets_at scenarios seen ts
        | false ↦ set_of active ∷ sets_at scenarios (key_of_active active ∷ seen) ts
      ]

  abbrev pub baseline : ScenarioSet
  baseline = record { names = []; overrides = [] }

  unfoldable pub scenario_sets : List (Scenario p) → List ScenarioSet
  unfolding boundaries_of sets_at sort_times compact
  scenario_sets scenarios =
      baseline ∷ sets_at scenarios ("" ∷ []) (compact (sort_times (boundaries_of scenarios)))
