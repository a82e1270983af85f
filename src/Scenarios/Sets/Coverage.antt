-- ===== src/Scenarios/Sets/Coverage.antt =====
-- pkg/synth/check.go, ScenarioSets: the boundaries of the windows are enough times to look at.
use motel.Prelude.{◌≡◌, refl, true, String, List, [], ◌∷◌, All, Any, inl, inr, ◌⊎◌, map, sym, ap}
use motel.Prelude.Int.{ℤ, ◌≤ℤ◌}
use motel.Platform.{Platform}
use motel.Topology.Types.{Scenario}
use motel.Scenarios.{active_scenarios}
use motel.Scenarios.Resolve.{resolve_overrides}
use motel.Scenarios.Sets.{join_names, contains_text, ScenarioSet, key_of_active, is_skipped}

abbrev Has : ℤ → List ℤ → Type 0
Has b ts = Any (λ x. b ≡ x) ts

-- A boundary that stands for a time: the last one that is not after it.
pub record IsLatest (t b : ℤ) (ts : List ℤ) : Type 0 where
  pub listed : Has b ts
  pub past : b ≤ℤ t
  pub last : All (λ x. x ≤ℤ t → x ≤ℤ b) ts

module _ (p : Platform) where
  module _ (scenarios : List (Scenario p)) where
    -- A set of the scenarios that are active at some time, with the given joined names.
    pub record IsSetOf (key : String) (s : ScenarioSet p) : Type 0 where
      pub at : ℤ
      pub names : s.names ≡ map (λ (sc : Scenario p). sc.name) (active_scenarios p scenarios at)
      pub overrides : s.overrides ≡ resolve_overrides p (active_scenarios p scenarios at)
      pub joined : join_names s.names ≡ key

    -- A key was seen before, is empty, or is that of a set to come.
    abbrev Known : String → List String → List (ScenarioSet p) → Type 0
    Known key seen sets = (key ≡ "") ⊎ ((contains_text key seen ≡ true) ⊎ Any (IsSetOf key) sets)

    skipped :
        (active : List (Scenario p)) (seen : List String) (sets : List (ScenarioSet p))
        → is_skipped p active seen ≡ true
        → Known (key_of_active p active) seen sets
    unfolding is_skipped join_names
    skipped [] seen sets h = inl refl
    skipped (sc ∷ active) seen sets h = inr (inl h)

    -- The joined names tell the combinations apart that occur, and from the empty one. Validation
    -- does not ask for it: names may be empty or equal.
    pub record AreTold : Type 0 where
      pub apart :
          (s t : ℤ)
          → key_of_active p (active_scenarios p scenarios s)
            ≡ key_of_active p (active_scenarios p scenarios t)
          → active_scenarios p scenarios s ≡ active_scenarios p scenarios t
      pub idle :
          (t : ℤ)
          → key_of_active p (active_scenarios p scenarios t) ≡ ""
          → active_scenarios p scenarios t ≡ []

    -- Among the sets there is the one of the given scenarios.
    abbrev pub Covers : List (Scenario p) → List (ScenarioSet p) → Type 0
    Covers active = Any (λ s.
        (s.names ≡ map (λ (sc : Scenario p). sc.name) active)
        × (s.overrides ≡ resolve_overrides p active))

    idle :
        (t : ℤ)
        → AreTold
        → key_of_active p (active_scenarios p scenarios t) ≡ ""
        → ([] ≡ map (λ (sc : Scenario p). sc.name) (active_scenarios p scenarios t))
          × ([] ≡ resolve_overrides p (active_scenarios p scenarios t))
    unfolding resolve_overrides
    idle t a e =
        let q = sym (a.idle t e) in
        (ap (map (λ (sc : Scenario p). sc.name)) q, ap (resolve_overrides p) q)
