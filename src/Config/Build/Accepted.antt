-- ===== src/Config/Build/Accepted.antt =====
-- pkg/synth/config.go and topology.go: a configuration that ValidateConfig accepts is built, unless its
-- calls are cyclic.
use motel.Prelude.{
  ℕ, ◌≡◌, refl, ◌⊎◌, inl, inr, Bool, true, false, not, String, str_eq, List, [], Option, Dict,
  lookup, All, All-map, arith,
}
use motel.Prelude.Results.{ok, failed, reject, each, >>-ok, >>=-ok, each-All, Made, >>=-Made}
use motel.Platform.{Platform}
use motel.Topology.Types.{Topology}
use motel.Topology.Calls.{is_set}
use motel.Topology.Cycles.{Visit, visited, cycle_detected, out_of_fuel, detect_cycles}
use motel.Topology.Roots.{find_roots}
use motel.Topology.Generators.{is_nonempty}
use motel.Config.{contains_dot}
use motel.Config.Types.{Library, ServiceConfig, Config}
use motel.Config.Parts.{given}
use motel.Config.Tables.{unknown_mode, no_services, no_rate, Tables, note_services}
use motel.Config.Operations.{validate_operation, validate_operations}
use motel.Config.Validate.{no_tables, base_of, validate_model, validate_config}
use motel.Config.Build.{cyclic, no_answer}
use motel.Config.Build.Known.{Named, note_services-checked}
use motel.Config.Build.First.{Accepted, validate_operation-Accepted, Domains, build_services-Made}
use motel.Config.Build.Second.{resolve_services-Made}
use motel.Config.Build.Names.{AreDistinct, Named-resolves, build_services-IsAt, topology_of-IsFound}
use motel.Config.Build.Passes.{topology_of, link_topology, after_search, build_topology}

module _ (p : Platform) (lib : Library p) where
  open lib use {parse_duration}

  validate_operations-Accepted :
      (known : Dict Bool) (svcs : List (ServiceConfig p lib))
      → validate_operations p lib known svcs ≡ ok tt
      → All (λ (svc : ServiceConfig p lib). All (Accepted p lib known svc.name) svc.operations) svcs
  unfolding validate_operations
  validate_operations-Accepted known svcs h =
      All-map
        (λ (svc : ServiceConfig p lib)
            (checked : each (validate_operation p lib known svc.name) svc.operations ≡ ok tt).
          All-map (validate_operation-Accepted p lib known svc.name) svc.operations
            (each-All (validate_operation p lib known svc.name) svc.operations checked))
        svcs
        (each-All
          (λ (svc : ServiceConfig p lib).
            each (validate_operation p lib known svc.name) svc.operations)
          svcs h)

  -- What the validation has seen of the services.
  pub record AreAccepted (cfg : Config p lib) : Type 0 where
    pub tables : Tables p lib
    pub noted : note_services p lib cfg.services (no_tables p lib) ≡ ok tables
    pub operations : validate_operations p lib tables.known_ops cfg.services ≡ ok tt

  validate_model-AreAccepted :
      (cfg : Config p lib) → validate_model p lib cfg ≡ ok tt → AreAccepted cfg
  unfolding validate_model
  validate_model-AreAccepted cfg h =
      let (_, h1) = >>-ok (reject (given cfg.mode) unknown_mode) _ h in
      let (_, h2) = >>-ok (reject (not (is_nonempty cfg.services)) no_services) _ h1 in
      let (_, h3) = >>-ok (reject (str_eq (base_of p lib cfg.traffic).rate "") no_rate) _ h2 in
      let (t, noted, h4) = >>=-ok (note_services p lib cfg.services (no_tables p lib)) _ h3 in
      let (operations, _) = >>-ok (validate_operations p lib t.known_ops cfg.services) _ h4 in
      record { tables = t; noted = noted; operations = operations }

  abbrev pub HaveNoDot : List (ServiceConfig p lib) → Type 0
  HaveNoDot = All (λ (svc : ServiceConfig p lib). contains_dot svc.name ≡ false)

  -- The names that the first loop knows are those of the configuration.
  pub known-Named :
      (cfg : Config p lib) (a : AreAccepted cfg) (ref : String)
      → is_set ref a.tables.known_ops ≡ true
      → Named p lib cfg.services ref
  unfolding is_set lookup
  known-Named cfg a ref h =
      let (_, adds) = note_services-checked p lib cfg.services (no_tables p lib) a.tables a.noted in
      elim (adds ref h) [ inl before ↦ absurd (cc) | inr new ↦ new ]

  module _ (resolver : Option (String → Option (Dict p.Gen))) where
    link_topology-Made :
        (cfg : Config p lib)
        → AreAccepted cfg
        → AreDistinct p lib cfg.services
        → HaveNoDot cfg.services
        → All (λ (svc : ServiceConfig p lib). Domains p lib resolver svc.operations) cfg.services
        → Made (link_topology p lib resolver cfg)
    unfolding link_topology
    link_topology-Made cfg a distinct dotless domains =
        let svcs = cfg.services in
        let known = a.tables.known_ops in
        let (checked, _) = note_services-checked p lib svcs (no_tables p lib) a.tables a.noted in
        let accepted = validate_operations-Accepted known svcs a.operations in
        >>=-Made _ _ (build_services-Made p lib resolver known 0 0 svcs accepted checked domains)
          λ nodes made.
            let topo = topology_of p lib svcs nodes in
            let found =
              topology_of-IsFound p lib svcs nodes
                (build_services-IsAt p lib resolver 0 0 svcs [] nodes distinct made) in
            let resolves = λ (ref : String) (h : is_set ref known ≡ true).
              Named-resolves p lib topo svcs ref found dotless (known-Named cfg a ref h) in
            >>=-Made _ _
              (resolve_services-Made p lib resolver topo known resolves svcs nodes.operations found
                accepted)
              λ _ _. (_, refl)

    after_search-cases :
        (topo : Topology p) (v : Visit)
        → (after_search p lib resolver topo v ≡ ok (record topo { roots = find_roots p topo }))
          ⊎ (((op : ℕ) × (v ≡ cycle_detected op)
                × (after_search p lib resolver topo v ≡ failed (cyclic op)))
              ⊎ ((v ≡ out_of_fuel) × (after_search p lib resolver topo v ≡ failed no_answer)))
    unfolding after_search
    after_search-cases topo (visited done) = inl refl
    after_search-cases topo (cycle_detected op) = inr (inl (op, refl, refl))
    after_search-cases topo out_of_fuel = inr (inr (refl, refl))

    -- If ValidateConfig accepts a configuration that is not for a replay, its services have different
    -- names without dots, and the domain of each operation is known or left out, then BuildTopology
    -- makes and links all services and operations: every duration, rate, attribute, metric, log,
    -- event, link and call resolves. Its result is that graph with its roots, unless the search for
    -- cycles finds one in it or has too little fuel.
    pub build_topology-cases :
        (cfg : Config p lib) (fuel : ℕ)
        → str_eq cfg.mode "replay" ≡ false
        → validate_config p lib cfg ≡ ok tt
        → AreDistinct p lib cfg.services
        → HaveNoDot cfg.services
        → All (λ (svc : ServiceConfig p lib). Domains p lib resolver svc.operations) cfg.services
        → (topo : Topology p) × (link_topology p lib resolver cfg ≡ ok topo)
          × ((build_topology p lib resolver fuel cfg
                ≡ ok (record topo { roots = find_roots p topo }))
              ⊎ (((op : ℕ) × (detect_cycles p topo fuel ≡ cycle_detected op)
                    × (build_topology p lib resolver fuel cfg ≡ failed (cyclic op)))
                  ⊎ ((detect_cycles p topo fuel ≡ out_of_fuel)
                      × (build_topology p lib resolver fuel cfg ≡ failed no_answer))))
    unfolding validate_config build_topology
    build_topology-cases cfg fuel model h distinct dotless domains =
        let checked : validate_model p lib cfg ≡ ok tt = ground (arith, h, model) in
        let accepted = validate_model-AreAccepted cfg checked in
        let (topo, linked) = link_topology-Made cfg accepted distinct dotless domains in
        (
          topo,
          linked,
          rw (build_topology, linked) (after_search-cases topo (detect_cycles p topo fuel)),
        )
