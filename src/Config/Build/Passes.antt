-- ===== src/Config/Build/Passes.antt =====
-- pkg/synth/topology.go, BuildTopology: the two passes over the configuration, the search for cycles
-- and the roots. A resolver gives its own map to each operation.
use motel.Prelude.{
  ℕ, suc, ◌+◌, false, String, List, [], ◌∷◌, ◌++◌, Option, none, some, Dict, lookup, if◌then◌else◌,
  length, get_or, set, map,
}
use motel.Prelude.Int.{pos, pos_part}
use motel.Prelude.Results.{Result, ok, failed, ◌>>=◌, demand, blame, collect}
use motel.Platform.{Platform}
use motel.Topology.Types.{Link, Call, Operation, Service, Topology}
use motel.Topology.Attributes.{new_attributes}
use motel.Topology.Baggage.{merge_declared_baggage}
use motel.Topology.Cycles.{Visit, visited, cycle_detected, out_of_fuel, detect_cycles}
use motel.Topology.Roots.{find_roots}
use motel.Config.{CallConfig, resolve_call, resolve_ref}
use motel.Config.Distributions.{parse_distribution}
use motel.Config.Types.{Library, LinkConfig, OperationConfig, ServiceConfig, Config}
use motel.Config.Parts.{given}
use motel.Config.Tables.{ref_of}
use motel.Config.Build.{
  BuildError, text_error, no_resolver, unknown_domain, unresolved_link, unresolved_call,
  nil_operation, cyclic, no_answer, name_table, add_generators, resolve_metric, resolve_log,
  build_event, build_error_rate, shows_baggage, resolved_backpressure, resolved_circuit_breaker,
}

module _ (p : Platform) (lib : Library p) where
  open p use {fl}
  open fl use {lit}

  -- What the first pass has made.
  pub record Nodes : Type 0 where
    pub services : List (Service p)
    pub operations : List (Operation p)

  abbrev pub operation_names : ServiceConfig p lib → List String
  operation_names svc = map (λ (op : OperationConfig p lib). op.name) svc.operations

  -- What no reference leads to.
  abbrev pub no_service : Service p
  no_service = record {
    name = "";
    operations = [];
    resource_attributes = [];
    attributes = [];
    baggage = [];
    metrics = [];
    logs = [];
  }

  abbrev pub no_operation : Operation p
  no_operation = record {
    service = 0;
    name = "";
    ref = "";
    duration = record { mean = pos 0; std_dev = pos 0 };
    error_rate = lit 0 1;
    calls = [];
    call_style = "";
    attributes = [];
    baggage = [];
    baggage_as_attributes = false;
    events = [];
    links = [];
    metrics = [];
    logs = [];
    queue_depth = 0;
    backpressure = none;
    circuit_breaker = none;
  }

  abbrev pub service_names : List (ServiceConfig p lib) → List String
  service_names svcs = map (λ (svc : ServiceConfig p lib). svc.name) svcs

  abbrev pub topology_of : List (ServiceConfig p lib) → Nodes → Topology p
  topology_of svcs nodes = record {
    services = name_table 0 (service_names svcs) [];
    roots = [];
    service = λ i. get_or nodes.services i no_service;
    operation = λ i. get_or nodes.operations i no_operation;
  }

  unfoldable pub resolve_one_call :
      Topology p → CallConfig p lib.parse_duration → Result BuildError (Call p)
  resolve_one_call topo c = demand (resolve_call p lib.parse_duration topo c) unresolved_call

module _ (p : Platform) (lib : Library p) (resolver : Option (String → Option (Dict p.Gen))) where
  open p use {fl, Gen}
  open fl use {F, lit}
  open lib use {parse_duration}

  unfoldable pub domain_generators : String → Result BuildError (Dict Gen)
  domain_generators domain =
      if given domain
      then (do resolve ← demand resolver no_resolver; demand (resolve domain) unknown_domain)
      else ok []

  unfoldable pub build_operation :
      ℕ → ServiceConfig p lib → OperationConfig p lib → Result BuildError (Operation p)
  unfolding domain_generators
  build_operation number svc op = do
    duration ← blame text_error (parse_distribution parse_duration op.duration)
    error_rate ← build_error_rate p lib op.error_rate
    base ← domain_generators op.domain
    gens ← add_generators p lib base op.attributes
    metrics ← collect (resolve_metric p lib) op.metrics
    logs ← collect (resolve_log p lib) op.logs
    events ← collect (build_event p lib) op.events
    ok (record {
      service = number;
      name = op.name;
      ref = ref_of svc.name op.name;
      duration = duration;
      error_rate = error_rate;
      calls = [];
      call_style = op.call_style;
      attributes = new_attributes p gens;
      baggage = merge_declared_baggage svc.baggage op.baggage;
      baggage_as_attributes =
          shows_baggage p lib svc.baggage_as_attributes op.baggage_as_attributes;
      events = events;
      links = [];
      metrics = metrics;
      logs = logs;
      queue_depth = pos_part op.queue_depth;
      backpressure = resolved_backpressure p lib op.backpressure;
      circuit_breaker = resolved_circuit_breaker p lib op.circuit_breaker;
    })

  -- A service, and its operations, the first of which has the number `first`.
  unfoldable pub build_service :
      ℕ → ℕ → ServiceConfig p lib → Result BuildError (Service p × List (Operation p))
  unfolding build_operation name_table
  build_service number first svc = do
    metrics ← collect (resolve_metric p lib) svc.metrics
    logs ← collect (resolve_log p lib) svc.logs
    operations ← collect (build_operation number svc) svc.operations
    ok (
      record {
        name = svc.name;
        operations = name_table first (operation_names p lib svc) [];
        resource_attributes = svc.resource_attributes;
        attributes = svc.attributes;
        baggage = svc.baggage;
        metrics = metrics;
        logs = logs;
      },
      operations,
    )

  abbrev with_built : Service p × List (Operation p) → Nodes p lib → Nodes p lib
  with_built built rest = record {
    services = built.0 ∷ rest.services;
    operations = built.1 ++ rest.operations;
  }

  -- The first pass, from a service number and an operation number on.
  unfoldable pub build_services :
      ℕ → ℕ → List (ServiceConfig p lib) → Result BuildError (Nodes p lib)
  unfolding build_service
  build_services number first [] = ok (record { services = []; operations = [] })
  build_services number first (svc ∷ svcs) =
      let rest = build_services (suc number) (first + length svc.operations) svcs in
      do built ← build_service number first svc; nodes ← rest; ok (with_built built nodes)

  module _ (topo : Topology p) where
    unfoldable pub resolve_link : LinkConfig p lib → Result BuildError (Link p)
    resolve_link link = do
      target ← demand (resolve_ref p parse_duration topo link.ref) unresolved_link
      gens ← add_generators p lib [] link.attributes
      ok (record { operation = target; attributes = new_attributes p gens })

    -- The number of an operation that the first pass has made.
    unfoldable pub own_number : String → String → Option ℕ
    own_number service operation = elim (lookup service topo.services) [
      | none ↦ none
      | some svc ↦ lookup operation (topo.service svc).operations
    ]

    unfoldable pub resolve_operation :
        String → OperationConfig p lib → List (Operation p) → Result BuildError (List (Operation p))
    unfolding resolve_link resolve_one_call own_number
    resolve_operation service op operations = do
      number ← demand (own_number service op.name) nil_operation
      links ← collect resolve_link op.links
      calls ← collect (resolve_one_call p lib topo) op.calls
      let old = get_or operations number (no_operation p lib)
      ok (
          set operations number
            (record old { links = old.links ++ links; calls = old.calls ++ calls }))

    unfoldable pub resolve_operations :
        String
        → List (OperationConfig p lib)
        → List (Operation p)
        → Result BuildError (List (Operation p))
    unfolding resolve_operation
    resolve_operations service [] operations = ok operations
    resolve_operations service (op ∷ ops) operations =
        resolve_operation service op operations >>= λ rest. resolve_operations service ops rest

    -- The second pass; what a reference leads to does not depend on what it has done so far.
    unfoldable pub resolve_services :
        List (ServiceConfig p lib) → List (Operation p) → Result BuildError (List (Operation p))
    unfolding resolve_operations
    resolve_services [] operations = ok operations
    resolve_services (svc ∷ svcs) operations =
        resolve_operations svc.name svc.operations operations >>= λ rest. resolve_services svcs rest

  unfoldable pub link_topology : Config p lib → Result BuildError (Topology p)
  unfolding build_services resolve_services
  link_topology cfg = do
    nodes ← build_services 0 0 cfg.services
    let topo = topology_of p lib cfg.services nodes
    operations ← resolve_services topo cfg.services nodes.operations
    ok (
        topology_of p lib cfg.services
          (record { services = nodes.services; operations = operations }))

  unfoldable pub after_search : Topology p → Visit → Result BuildError (Topology p)
  after_search topo (visited done) = ok (record topo { roots = find_roots p topo })
  after_search topo (cycle_detected op) = failed (cyclic op)
  after_search topo out_of_fuel = failed no_answer

  -- The fuel is for the search for cycles.
  unfoldable pub build_topology : ℕ → Config p lib → Result BuildError (Topology p)
  unfolding link_topology after_search
  build_topology fuel cfg = do
    topo ← link_topology cfg
    after_search topo (detect_cycles p topo fuel)
