-- ===== src/Config/Tables.antt =====
-- pkg/synth/config.go, ValidateConfig: the errors, and the tables of names that its first loop fills.
-- An error keeps its kind and drops its text.
use Prim.Native.String
use motel.Prelude.{
  Bool, true, not, ◌||◌, String, str_eq, List, [], ◌∷◌, Option, none, some, Dict, lookup, insert,
}
use motel.Prelude.Results.{Result, Checked, ok, failed, ◌>>=◌, ◌>>◌, reject, blame, each}
use motel.Platform.{Platform}
use motel.Topology.Calls.{is_set}
use motel.Topology.Generators.{is_nonempty}
use motel.Traffic.{TrafficError}
use motel.Config.{CallError}
use motel.Config.Distributions.{TextError}
use motel.Config.Types.{Library, Calls, MetricConfig, OperationConfig, ServiceConfig}
use motel.Config.Parts.{PartError, validate_metric_config, validate_log_config, validate_baggage}

pub data ConfigError : Type 0 where
  part_error : PartError → ConfigError
  text_error : TextError → ConfigError
  call_error : CallError → ConfigError
  traffic_error : TrafficError → ConfigError
  no_recording unknown_mode no_services no_rate no_operations : ConfigError
  empty_resource_key reserved_resource_key duplicate_metric : ConfigError
  bad_call_style event_name_required negative_queue_depth : ConfigError
  no_latency_threshold bad_latency_threshold negative_multiplier : ConfigError
  threshold_not_positive no_window bad_window no_cooldown bad_cooldown : ConfigError
  empty_link link_without_dot unknown_link link_to_itself duplicate_link : ConfigError
  bursty_fields diurnal_fields segment_fields nested_overlay : ConfigError
  offset_required bad_offset negative_offset bad_duration duration_not_positive : ConfigError
  unknown_override service_override metric_not_defined metric_span_derived value_required :
      ConfigError

abbrev pub is_reserved : String → Bool
is_reserved k = str_eq k "service.name" || str_eq k "motel.version"

abbrev pub ref_of : String → String → String
ref_of service operation = String.◌++◌ service (String.◌++◌ "." operation)

abbrev pub refuse : Option CallError → Checked ConfigError
refuse none = ok tt
refuse (some e) = failed (call_error e)

unfoldable pub check_resource_keys : Dict String → Checked ConfigError
check_resource_keys = each (λ (entry : String × String). do
  reject (str_eq entry.0 "") empty_resource_key
  reject (is_reserved entry.0) reserved_resource_key)

module _ (p : Platform) (lib : Library p) where
  open p use {fl}
  open fl use {F, lt, le, lit}
  open lib use {parse_duration, parse_float, sin, pi, hours, seconds}

  -- The tables for the references of a configuration: the operations and services, the targets that
  -- an operation calls, and the metrics by the reference of their service or operation.
  pub record Tables : Type 0 where
    pub known_ops : Dict Bool
    pub known_services : Dict Bool
    pub op_calls : Dict (Dict Bool)
    pub metrics_by_scope : Dict (Dict (MetricConfig p lib))

  abbrev pub scope_metrics : String → Tables → Dict (MetricConfig p lib)
  scope_metrics scope t = elim (lookup scope t.metrics_by_scope) [ none ↦ [] | some m ↦ m ]

  abbrev pub with_metric : String → MetricConfig p lib → Tables → Tables
  with_metric scope mc t = record t {
    metrics_by_scope = insert scope (insert mc.name mc (scope_metrics scope t)) t.metrics_by_scope;
  }

  -- The loop over the metrics of a scope, with the names of the service's metrics so far.
  unfoldable pub note_metrics :
      String
      → List (MetricConfig p lib)
      → Dict Bool
      → Tables
      → Result ConfigError (Dict Bool × Tables)
  note_metrics scope [] names t = ok (names, t)
  note_metrics scope (mc ∷ mcs) names t =
      let rest = note_metrics scope mcs (insert mc.name true names) (with_metric scope mc t) in
      do
        blame part_error (validate_metric_config p lib mc)
        reject (is_set mc.name names) duplicate_metric
        rest

  unfoldable pub call_targets : Calls p lib → Dict Bool → Dict Bool
  call_targets [] targets = targets
  call_targets (c ∷ calls) targets = call_targets calls (insert c.target true targets)

  abbrev pub with_operation : String → Calls p lib → Tables → Tables
  with_operation ref calls t = record t {
    known_ops = insert ref true t.known_ops;
    op_calls = insert ref (call_targets calls []) t.op_calls;
  }

  -- The loop over the operations of a service.
  unfoldable pub note_operations :
      String → List (OperationConfig p lib) → Dict Bool → Tables → Result ConfigError Tables
  unfolding note_metrics call_targets
  note_operations service [] names t = ok t
  note_operations service (op ∷ ops) names t = do
    each (λ lc. blame part_error (validate_log_config p lib lc)) op.logs
    noted ← note_metrics (ref_of service op.name) op.metrics names t
    note_operations service ops noted.0 (with_operation (ref_of service op.name) op.calls noted.1)

  abbrev pub with_service : String → Tables → Tables
  with_service name t = record t { known_services = insert name true t.known_services }

  unfoldable pub note_service : ServiceConfig p lib → Tables → Result ConfigError Tables
  unfolding note_operations check_resource_keys
  note_service svc t = do
    reject (not (is_nonempty svc.operations)) no_operations
    check_resource_keys svc.resource_attributes
    blame part_error (validate_baggage p lib svc.baggage)
    noted ← note_metrics svc.name svc.metrics [] (with_service svc.name t)
    each (λ lc. blame part_error (validate_log_config p lib lc)) svc.logs
    note_operations svc.name svc.operations noted.0 noted.1

  unfoldable pub note_services : List (ServiceConfig p lib) → Tables → Result ConfigError Tables
  unfolding note_service
  note_services [] t = ok t
  note_services (svc ∷ svcs) t = note_service svc t >>= λ t'. note_services svcs t'
