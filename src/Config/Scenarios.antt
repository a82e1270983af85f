-- ===== src/Config/Scenarios.antt =====
-- pkg/synth/scenario.go: BuildScenarios, and the search for cycles in the calls that a scenario
-- changes. References are texts; the map of states is a list of the references that are being
-- visited and one of those that were.
pub mod Patterns
pub mod Accepted
pub mod Built
mod Tests
use motel.Prelude.{
  ℕ, zero, suc, Bool, true, false, not, ◌||◌, String, str_eq, List, [], ◌∷◌, ◌++◌, Option, none,
  some, Dict, lookup, insert, if◌then◌else◌, filterb, map,
}
use motel.Prelude.Int.{ℤ, pos, ◌+ℤ◌, wrap_64}
use motel.Prelude.Results.{Result, ok, failed, ◌>>=◌, ◌>>◌, demand, blame, collect}
use motel.Platform.{Platform}
use motel.Topology.Types.{
  Distribution, FloatDistribution, LogDefinition, Call, Override, Scenario, Topology,
}
use motel.Topology.Attributes.{new_attributes}
use motel.Topology.Baggage.{sorted_keys}
use motel.Topology.Calls.{is_set, is_empty, has_call_changes}
use motel.Topology.Roots.{all_operations}
use motel.Traffic.{TrafficError, TrafficConfig, TrafficPattern, new_traffic_pattern, traffic_rate}
use motel.Traffic
use motel.Config.{CallConfig, resolve_call}
use motel.Config.Distributions.{parse_distribution, parse_float_distribution}
use motel.Config.Types.{
  Library, Calls, LogOverrideConfig, OverrideConfig, ScenarioConfig, TrafficSection, plain,
  with_overlay,
}
use motel.Config.Parts.{given}
use motel.Config.Tables.{ConfigError}
use motel.Config.Sections.{parse_offset, parse_length}
use motel.Config.Validate.{base_of}
use motel.Config.Build.{
  BuildError, text_error, unresolved_call, add_generators, build_error_rate, resolve_log,
}
use motel.Config.Build.Passes.{resolve_one_call}

pub data ScenarioError : Type 0 where
  section_error : ConfigError → ScenarioError
  build_error : BuildError → ScenarioError
  traffic_error : TrafficError → ScenarioError
  cyclic_calls : String → ScenarioError
  no_answer : ScenarioError

-- The visited references, a reference that is on a cycle, or no answer.
pub data RefVisit : Type 0 where
  visited : List String → RefVisit
  cycle_at : String → RefVisit
  out_of_fuel : RefVisit

unfoldable pub contains_ref : String → List String → Bool
contains_ref ref [] = false
contains_ref ref (r ∷ rs) = str_eq r ref || contains_ref ref rs

abbrev pub targets_at : Dict (List String) → String → List String
targets_at adj ref = elim (lookup ref adj) [ none ↦ [] | some targets ↦ targets ]

unfoldable pub visit_targets :
    (String → List String → RefVisit) → List String → List String → RefVisit
visit_targets visit [] done = visited done
visit_targets visit (t ∷ ts) done = elim (visit t done) [
  | visited done' ↦ visit_targets visit ts done'
  | cycle_at ref ↦ cycle_at ref
  | out_of_fuel ↦ out_of_fuel
]

abbrev pub close_ref : String → RefVisit → RefVisit
close_ref ref (visited done) = visited (ref ∷ done)
close_ref ref (cycle_at r) = cycle_at r
close_ref ref out_of_fuel = out_of_fuel

unfoldable pub visit_ref : Dict (List String) → ℕ → List String → String → List String → RefVisit
unfolding visit_targets contains_ref
visit_ref adj zero path ref done = out_of_fuel
visit_ref adj (suc fuel) path ref done =
    let below = visit_targets (visit_ref adj fuel (ref ∷ path)) (targets_at adj ref) done in
    elim (contains_ref ref path) [
      | true ↦ cycle_at ref
      | false ↦ elim (contains_ref ref done) [ true ↦ visited done | false ↦ close_ref ref below ]
    ]

unfoldable pub visit_refs : Dict (List String) → ℕ → List String → List String → RefVisit
unfolding visit_ref
visit_refs adj fuel [] done = visited done
visit_refs adj fuel (ref ∷ refs) done = elim (contains_ref ref done) [
  | true ↦ visit_refs adj fuel refs done
  | false ↦ elim (visit_ref adj fuel [] ref done) [
    | visited done' ↦ visit_refs adj fuel refs done'
    | cycle_at r ↦ cycle_at r
    | out_of_fuel ↦ out_of_fuel
  ]
]

module _ (p : Platform) (topo : Topology p) where
  abbrev target_refs : List (Call p) → List String
  target_refs calls = map (λ (c : Call p). (topo.operation c.operation).ref) calls

  -- The references that each reference calls; an operation without calls has no entry.
  unfoldable pub base_edges : List ℕ → Dict (List String) → Dict (List String)
  base_edges [] adj = adj
  base_edges (op ∷ ops) adj = base_edges ops (
      if is_empty (topo.operation op).calls
      then adj
      else insert (topo.operation op).ref
          (targets_at adj (topo.operation op).ref ++ target_refs (topo.operation op).calls) adj)

  -- The removals of an override, and then its additions.
  unfoldable pub without_removed : String → Override p → Dict (List String) → Dict (List String)
  without_removed ref ov adj =
      if is_empty ov.remove_calls
      then adj
      else insert ref (filterb (λ t. not (is_set t ov.remove_calls)) (targets_at adj ref)) adj

  unfoldable pub with_added : String → Override p → Dict (List String) → Dict (List String)
  with_added ref ov adj =
      if is_empty ov.add_calls
      then adj
      else insert ref (targets_at adj ref ++ target_refs ov.add_calls) adj

  unfoldable pub changed_edges : Dict (Override p) → Dict (List String) → Dict (List String)
  unfolding without_removed with_added
  changed_edges [] adj = adj
  changed_edges ((ref, ov) ∷ overrides) adj =
      changed_edges overrides
        (if has_call_changes p ov then with_added ref ov (without_removed ref ov adj) else adj)

  unfoldable pub any_changes : Dict (Override p) → Bool
  any_changes [] = false
  any_changes ((ref, ov) ∷ overrides) = has_call_changes p ov || any_changes overrides

  unfoldable pub validate_scenario_cycles : ℕ → Dict (Override p) → RefVisit
  unfolding base_edges changed_edges any_changes visit_refs
  validate_scenario_cycles fuel overrides =
      let adj = changed_edges overrides (base_edges (all_operations p topo) []) in
      if any_changes overrides then visit_refs adj fuel (sorted_keys adj) [] else visited []

module _ (p : Platform) (lib : Library p) (topo : Topology p) where
  open p use {fl}
  open fl use {F, lit}
  open lib use {parse_duration, parse_float, sin, pi, hours, seconds}

  unfoldable pub override_duration : String → Result BuildError Distribution
  override_duration text =
      if given text
      then blame text_error (parse_distribution parse_duration text)
      else ok (record { mean = pos 0; std_dev = pos 0 })

  unfoldable pub removed_targets : List String → Dict Bool → Dict Bool
  removed_targets [] removed = removed
  removed_targets (t ∷ ts) removed = removed_targets ts (insert t true removed)

  unfoldable pub metric_value : String × String → Result BuildError (String × FloatDistribution p)
  metric_value (name, text) =
      blame text_error (parse_float_distribution p parse_float text) >>= λ d. ok (name, d)

  unfoldable pub added_logs :
      Option (LogOverrideConfig p lib) → Result BuildError (List (LogDefinition p))
  added_logs none = ok []
  added_logs (some lo) = collect (resolve_log p lib) lo.add

  abbrev disables_logs : Option (LogOverrideConfig p lib) → Bool
  disables_logs none = false
  disables_logs (some lo) = lo.disable

  unfoldable pub build_override :
      String × OverrideConfig p lib → Result BuildError (String × Override p)
  unfolding override_duration removed_targets metric_value added_logs
  build_override (ref, ov) = do
    duration ← override_duration ov.duration
    error_rate ← build_error_rate p lib ov.error_rate
    gens ← add_generators p lib [] ov.attributes
    calls ← collect (resolve_one_call p lib topo) ov.add_calls
    metrics ← collect metric_value ov.metrics
    logs ← added_logs ov.logs
    ok (
      ref,
      record {
        duration = duration;
        error_rate = error_rate;
        has_error_rate = given ov.error_rate;
        attributes = new_attributes p gens;
        add_calls = calls;
        remove_calls = removed_targets ov.remove_calls [];
        metrics = metrics;
        add_logs = logs;
        disable_logs = disables_logs ov.logs;
      },
    )

  -- The overlay of an overlay is not read.
  abbrev pub traffic_config_of :
      TrafficSection p lib → TrafficConfig fl sin pi hours seconds parse_duration
  traffic_config_of (plain tc) = record { base = tc; overlay = none }
  traffic_config_of (with_overlay tc o) = record { base = tc; overlay = some (base_of p lib o) }

  abbrev pub pattern_or :
      Traffic.Result (TrafficPattern fl sin pi hours seconds parse_duration)
      → Result ScenarioError (Option (ℤ → F))
  pattern_or (Traffic.ok pattern) =
      ok (some (traffic_rate fl sin pi hours seconds parse_duration pattern))
  pattern_or (Traffic.failed e) = failed (traffic_error e)

  unfoldable pub scenario_traffic :
      Option (TrafficSection p lib) → Result ScenarioError (Option (ℤ → F))
  scenario_traffic none = ok none
  scenario_traffic (some t) =
      pattern_or (new_traffic_pattern fl sin pi hours seconds parse_duration (traffic_config_of t))

  unfoldable pub accept_cycles : Scenario p → RefVisit → Result ScenarioError (Scenario p)
  accept_cycles sc (visited done) = ok sc
  accept_cycles sc (cycle_at ref) = failed (cyclic_calls ref)
  accept_cycles sc out_of_fuel = failed no_answer

  -- A scenario before its calls are searched for cycles.
  unfoldable pub resolve_scenario : ScenarioConfig p lib → Result ScenarioError (Scenario p)
  unfolding build_override scenario_traffic
  resolve_scenario cfg = do
    start ← blame section_error (parse_offset p lib cfg.start)
    length ← blame section_error (parse_length p lib cfg.duration)
    overrides ← blame build_error (collect build_override cfg.override)
    traffic ← scenario_traffic cfg.traffic
    ok (record {
      name = cfg.name;
      start = start;
      end = wrap_64 (start +ℤ length);
      priority = cfg.priority;
      overrides = overrides;
      traffic = traffic;
    })

  unfoldable pub build_scenario : ℕ → ScenarioConfig p lib → Result ScenarioError (Scenario p)
  unfolding resolve_scenario accept_cycles
  build_scenario fuel cfg = do
    sc ← resolve_scenario cfg
    accept_cycles sc (validate_scenario_cycles p topo fuel sc.overrides)

  unfoldable pub build_scenarios :
      ℕ → List (ScenarioConfig p lib) → Result ScenarioError (List (Scenario p))
  unfolding build_scenario
  build_scenarios fuel cfgs = collect (build_scenario fuel) cfgs
