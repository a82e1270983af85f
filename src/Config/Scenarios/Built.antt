-- ===== src/Config/Scenarios/Built.antt =====
-- pkg/synth/config.go, topology.go and scenario.go together: the scenarios of an accepted
-- configuration on the topology that is built of it.
use motel.Prelude.{
  ℕ, ◌≡◌, refl, subst, ◌⊎◌, inl, inr, true, false, not, String, str_eq, [], Option, Dict, All,
  All-map, arith,
}
use motel.Prelude.Results.{ok, failed, reject, >>-ok, >>=-ok, each-All}
use motel.Platform.{Platform}
use motel.Topology.Types.{Topology, Scenario}
use motel.Topology.Calls.{is_set}
use motel.Topology.Cycles.{
  Visit, visited as all_visited, cycle_detected, out_of_fuel as search_out_of_fuel, detect_cycles,
}
use motel.Topology.Roots.{find_roots}
use motel.Topology.Generators.{is_nonempty}
use motel.Config.Types.{Library, ScenarioConfig, Config}
use motel.Config.Parts.{given}
use motel.Config.Tables.{unknown_mode, no_services, no_rate, note_services}
use motel.Config.Operations.{validate_operations}
use motel.Config.Sections.{validate_traffic_config, validate_scenario}
use motel.Config.Validate.{no_tables, base_of, validate_model, validate_config}
use motel.Config.Build.Accepted.{AreAccepted, known-Named, HaveNoDot}
use motel.Config.Build.Names.{
  AreDistinct, IsFound, Named-resolves, build_services-IsAt, topology_of-IsFound,
}
use motel.Config.Build.Passes.{
  Nodes, build_services, resolve_services, topology_of, link_topology, after_search, build_topology,
}
use motel.Config.Scenarios.{
  RefVisit, visited, cycle_at, out_of_fuel, cyclic_calls, no_answer, accept_cycles,
  resolve_scenario, build_scenario, validate_scenario_cycles,
}
use motel.Config.Scenarios.Accepted.{resolve_scenario-Made}

module _ (p : Platform) (lib : Library p) (resolver : Option (String → Option (Dict p.Gen))) where
  open lib use {parse_duration}

  -- A topology that is built has the services of the configuration.
  after_search-ok :
      (linked topo : Topology p) (v : Visit)
      → after_search p lib resolver linked v ≡ ok topo
      → record linked { roots = find_roots p linked } ≡ topo
  unfolding after_search
  after_search-ok linked topo (all_visited done) h = cc
  after_search-ok linked topo (cycle_detected op) h = cc
  after_search-ok linked topo search_out_of_fuel h = cc

  build_topology-IsFound :
      (cfg : Config p lib) (fuel : ℕ) (topo : Topology p)
      → AreDistinct p lib cfg.services
      → build_topology p lib resolver fuel cfg ≡ ok topo
      → All (IsFound p lib topo) cfg.services
  unfolding build_topology link_topology IsFound
  build_topology-IsFound cfg fuel topo distinct h =
      let svcs = cfg.services in
      let (linked, made, done) = >>=-ok (link_topology p lib resolver cfg) _ h in
      let (nodes, built, h1) = >>=-ok (build_services p lib resolver 0 0 svcs) _ made in
      let (operations, _, same) =
        >>=-ok
          (resolve_services p lib resolver (topology_of p lib svcs nodes) svcs nodes.operations) _
          h1 in
      let final : Nodes p lib = record { services = nodes.services; operations = operations } in
      let found =
        topology_of-IsFound p lib svcs final
          (build_services-IsAt p lib resolver 0 0 svcs [] nodes distinct built) in
      let first : topology_of p lib svcs final ≡ linked = cc in
      let with_roots = after_search-ok linked topo (detect_cycles p linked fuel) done in
      let linked_found = subst (λ (t : Topology p). All (IsFound p lib t) svcs) first found in
      subst (λ (t : Topology p). All (IsFound p lib t) svcs) with_roots linked_found

  -- The scenarios that the validation has accepted, with the tables of the configuration.
  validate_model-scenarios :
      (cfg : Config p lib)
      → validate_model p lib cfg ≡ ok tt
      → (a : AreAccepted p lib cfg) × All
          (λ sc. validate_scenario p lib a.tables sc ≡ ok tt)
          cfg.scenarios
  unfolding validate_model
  validate_model-scenarios cfg h =
      let (_, h1) = >>-ok (reject (given cfg.mode) unknown_mode) _ h in
      let (_, h2) = >>-ok (reject (not (is_nonempty cfg.services)) no_services) _ h1 in
      let (_, h3) = >>-ok (reject (str_eq (base_of p lib cfg.traffic).rate "") no_rate) _ h2 in
      let (t, noted, h4) = >>=-ok (note_services p lib cfg.services (no_tables p lib)) _ h3 in
      let (operations, h5) = >>-ok (validate_operations p lib t.known_ops cfg.services) _ h4 in
      let (_, scenarios) = >>-ok (validate_traffic_config p lib cfg.traffic false) _ h5 in
      (
        record { tables = t; noted = noted; operations = operations },
        each-All (validate_scenario p lib t) cfg.scenarios scenarios,
      )

  -- What becomes of a scenario.
  pub IsBuiltUnlessCyclic : Topology p → ℕ → ScenarioConfig p lib → Type 0
  IsBuiltUnlessCyclic topo fuel cfg =
      (sc : Scenario p) × (resolve_scenario p lib topo cfg ≡ ok sc)
      × ((build_scenario p lib topo fuel cfg ≡ ok sc)
          ⊎ (((ref : String) × (validate_scenario_cycles p topo fuel sc.overrides ≡ cycle_at ref)
                × (build_scenario p lib topo fuel cfg ≡ failed (cyclic_calls ref)))
              ⊎ ((validate_scenario_cycles p topo fuel sc.overrides ≡ out_of_fuel)
                  × (build_scenario p lib topo fuel cfg ≡ failed no_answer))))

  accept_cycles-cases :
      (topo : Topology p) (fuel : ℕ) (cfg : ScenarioConfig p lib) (sc : Scenario p) (v : RefVisit)
      → validate_scenario_cycles p topo fuel sc.overrides ≡ v
      → resolve_scenario p lib topo cfg ≡ ok sc
      → IsBuiltUnlessCyclic topo fuel cfg
  unfolding IsBuiltUnlessCyclic build_scenario accept_cycles
  accept_cycles-cases topo fuel cfg sc (visited done) e made =
      (sc, made, inl (rw (build_scenario, made, e) refl))
  accept_cycles-cases topo fuel cfg sc (cycle_at ref) e made =
      (sc, made, inr (inl (ref, e, rw (build_scenario, made, e) refl)))
  accept_cycles-cases topo fuel cfg sc out_of_fuel e made =
      (sc, made, inr (inr (e, rw (build_scenario, made, e) refl)))

  -- If ValidateConfig accepts a configuration that is not for a replay and whose services have
  -- different names without dots, then on a topology that BuildTopology makes of it every scenario
  -- resolves: its times, durations, rates, attributes, added calls, metrics, logs and traffic. It is
  -- built, unless the search finds a cycle in the calls that it changes or has too little fuel.
  pub build_scenario-cases :
      (cfg : Config p lib) (fuel : ℕ) (topo : Topology p)
      → str_eq cfg.mode "replay" ≡ false
      → validate_config p lib cfg ≡ ok tt
      → AreDistinct p lib cfg.services
      → HaveNoDot p lib cfg.services
      → build_topology p lib resolver fuel cfg ≡ ok topo
      → All (IsBuiltUnlessCyclic topo fuel) cfg.scenarios
  unfolding validate_config
  build_scenario-cases cfg fuel topo model h distinct dotless built =
      let checked : validate_model p lib cfg ≡ ok tt = ground (arith, h, model) in
      let (a, scenarios) = validate_model-scenarios cfg checked in
      let found = build_topology-IsFound cfg fuel topo distinct built in
      let resolves = λ (ref : String) (k : is_set ref a.tables.known_ops ≡ true).
        Named-resolves p lib topo cfg.services ref found dotless (known-Named p lib cfg a ref k) in
      All-map
        (λ (sc : ScenarioConfig p lib) (accepted : validate_scenario p lib a.tables sc ≡ ok tt).
          let (made, e) =
            resolve_scenario-Made p lib topo a.tables.known_ops resolves a.tables sc refl
              accepted in
          accept_cycles-cases topo fuel sc made
            (validate_scenario_cycles p topo fuel made.overrides) refl e)
        cfg.scenarios scenarios
