-- ===== src/Config/Build.antt =====
-- pkg/synth/topology.go, BuildTopology: the services and operations of a configuration, then their
-- links and calls, the search for cycles, and the roots. Services and operations are numbered in
-- their order. What the maps of the source hold is built by insertion, as there.
pub mod Passes
pub mod Names
pub mod Known
pub mod CallsMade
pub mod First
pub mod Second
pub mod Accepted
mod Tests
pub mod Parts
use motel.Prelude.{
  ℕ, suc, ◌+◌, Bool, true, false, ◌&&◌, String, str_eq, List, [], ◌∷◌, ◌++◌, Option, none, some,
  Dict, lookup, insert, if◌then◌else◌, length, get_or, set, map,
}
use motel.Prelude.Int.{ℤ, pos, pos_part}
use motel.Prelude.Results.{Result, ok, failed, ◌>>=◌, ◌>>◌, reject, demand, blame, collect}
use motel.Platform.{Platform}
use motel.Topology.Types.{
  Distribution, FloatDistribution, MetricDefinition, LogDefinition, Event, Link, Call, Operation,
  Service, Topology, ResolvedBackpressure, ResolvedCircuitBreaker,
}
use motel.Topology.Attributes.{new_attributes}
use motel.Topology.Baggage.{merge_declared_baggage}
use motel.Topology.Cycles.{Visit, visited, cycle_detected, out_of_fuel, detect_cycles}
use motel.Topology.Roots.{find_roots}
use motel.Topology.Generators.{
  GeneratorError, is_some, AttributeValueConfig, new_attribute_generator,
}
use motel.Config.{optional_duration, resolve_call, resolve_ref}
use motel.Config.Distributions.{
  TextError, parse_distribution, parse_float_distribution, parse_error_rate,
}
use motel.Config.Types.{
  Library, AttributeConfigs, Calls, MetricConfig, LogConfig, EventConfig, LinkConfig,
  BackpressureConfig, CircuitBreakerConfig, OperationConfig, ServiceConfig, Config,
}
use motel.Config.Parts.{given, severity_of}
use motel.Config.Tables.{ref_of}

pub data BuildError : Type 0 where
  text_error : TextError → BuildError
  generator_error : GeneratorError → BuildError
  bad_walk bad_interval gauge_without_value bad_severity bad_delay : BuildError
  no_resolver unknown_domain unresolved_link unresolved_call nil_operation : BuildError
  cyclic : ℕ → BuildError
  no_answer : BuildError

-- The numbers of names, counted from the first.
unfoldable pub name_table : ℕ → List String → Dict ℕ → Dict ℕ
name_table first [] table = table
name_table first (name ∷ names) table = name_table (suc first) names (insert name first table)

module _ (p : Platform) (lib : Library p) where
  open p use {fl, Gen}
  open fl use {F, lit}
  open lib use {parse_duration, parse_float, sprint_value, as_gen}

  -- The generators of the attributes, written over those that are there.
  unfoldable pub add_generators : Dict Gen → AttributeConfigs p lib → Result BuildError (Dict Gen)
  add_generators gens [] = ok gens
  add_generators gens (entry ∷ entries) =
      blame generator_error (new_attribute_generator p sprint_value entry.1) >>= λ gen.
      add_generators (insert entry.0 (as_gen gen) gens) entries

  abbrev pub optional : String → BuildError → Result BuildError ℤ
  optional text reason = demand (optional_duration p parse_duration text) reason

  unfoldable pub optional_value : String → Result BuildError (Option (FloatDistribution p))
  optional_value text =
      if given text
      then (do d ← blame text_error (parse_float_distribution p parse_float text); ok (some d))
      else ok none

  unfoldable pub resolve_metric : MetricConfig p lib → Result BuildError (MetricDefinition p)
  unfolding optional_value add_generators
  resolve_metric mc = do
    walk ← optional mc.walk bad_walk
    interval ← optional mc.interval bad_interval
    value ← optional_value mc.value
    reject (str_eq mc.type "gauge" && str_eq mc.value "") gauge_without_value
    gens ← add_generators [] mc.attributes
    ok (record {
      name = mc.name;
      type = mc.type;
      unit = mc.unit;
      value = value;
      interval = interval;
      walk = walk;
      min = mc.min;
      max = mc.max;
      errors_only = mc.errors_only;
      attributes = new_attributes p gens;
    })

  abbrev or_one : Option F → F
  or_one none = lit 1 1
  or_one (some x) = x

  unfoldable pub resolve_log : LogConfig p lib → Result BuildError (LogDefinition p)
  unfolding add_generators
  resolve_log lc = do
    severity ← demand (severity_of lc.severity) bad_severity
    delay ← optional lc.delay bad_delay
    gens ← add_generators [] lc.attributes
    ok (record {
      severity = severity;
      body = lc.body;
      condition = lc.condition;
      probability = or_one lc.probability;
      at_end = str_eq lc.anchor "end";
      delay = delay;
      attributes = new_attributes p gens;
    })

  unfoldable pub build_event : EventConfig p lib → Result BuildError (Event p)
  unfolding add_generators
  build_event evt = do
    delay ← optional evt.delay bad_delay
    gens ← add_generators [] evt.attributes
    ok (record { name = evt.name; delay = delay; attributes = new_attributes p gens })

  -- `d, _ := time.ParseDuration(text)`, where a text that does not parse gives 0.
  abbrev or_zero : Option ℤ → ℤ
  or_zero none = pos 0
  or_zero (some d) = d

  abbrev rate_or_zero : String → F
  rate_or_zero text =
      if given text
      then elim (parse_error_rate p parse_float text) [ ok x ↦ x | failed e ↦ lit 0 1 ]
      else lit 0 1

  unfoldable pub resolved_backpressure :
      Option (BackpressureConfig p lib) → Option (ResolvedBackpressure p)
  resolved_backpressure none = none
  resolved_backpressure (some bp) = some (record {
    latency_threshold = or_zero (parse_duration bp.latency_threshold);
    duration_multiplier = bp.duration_multiplier;
    error_rate_add = rate_or_zero bp.error_rate_add;
  })

  unfoldable pub resolved_circuit_breaker :
      Option (CircuitBreakerConfig p lib) → Option (ResolvedCircuitBreaker p)
  resolved_circuit_breaker none = none
  resolved_circuit_breaker (some cb) = some (record {
    failure_threshold = pos_part cb.failure_threshold;
    window = or_zero (parse_duration cb.window);
    cooldown = or_zero (parse_duration cb.cooldown);
  })

  unfoldable pub build_error_rate : String → Result BuildError F
  build_error_rate text =
      if given text then blame text_error (parse_error_rate p parse_float text) else ok (lit 0 1)

  -- The operation's choice, else the service's, else no.
  unfoldable pub shows_baggage : Option Bool → Option Bool → Bool
  shows_baggage service (some b) = b
  shows_baggage (some b) none = b
  shows_baggage none none = false
