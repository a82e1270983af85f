-- ===== src/Config/Operations.antt =====
-- pkg/synth/config.go, ValidateConfig: the loop over the operations.
use motel.Prelude.{
  Bool, true, not, ◌||◌, String, str_eq, List, [], ◌∷◌, Option, none, some, Dict, insert,
  if◌then◌else◌,
}
use motel.Prelude.Int.{pos, leb_ℤ, ltb_ℤ}
use motel.Prelude.Results.{Checked, ok, ◌>>◌, reject, demand, blame, unit_of, each}
use motel.Platform.{Platform}
use motel.Topology.Calls.{is_set}
use motel.Config.{contains_dot, validate_calls}
use motel.Config.Distributions.{parse_distribution, parse_error_rate}
use motel.Config.Types.{
  Library, EventConfig, LinkConfig, BackpressureConfig, CircuitBreakerConfig, OperationConfig,
  ServiceConfig,
}
use motel.Config.Parts.{given, check_attributes, check_text, duration_negative, validate_baggage}
use motel.Config.Tables.{
  ConfigError, part_error, text_error, refuse, ref_of, bad_call_style, event_name_required,
  negative_queue_depth, no_latency_threshold, bad_latency_threshold, negative_multiplier,
  threshold_not_positive, no_window, bad_window, no_cooldown, bad_cooldown, empty_link,
  link_without_dot, unknown_link, link_to_itself, duplicate_link,
}

module _ (p : Platform) (lib : Library p) where
  open p use {fl}
  open fl use {F, lt, lit}
  open lib use {parse_duration, parse_float}

  unfoldable pub check_error_rate : String → Checked ConfigError
  check_error_rate text =
      if given text then unit_of (blame text_error (parse_error_rate p parse_float text)) else ok tt

  unfoldable pub check_event : EventConfig p lib → Checked ConfigError
  check_event evt = do
    reject (str_eq evt.name "") event_name_required
    blame part_error (check_text p lib evt.delay (λ d. ltb_ℤ d (pos 0)) duration_negative)
    blame part_error (check_attributes p lib evt.attributes)

  unfoldable pub check_backpressure : Option (BackpressureConfig p lib) → Checked ConfigError
  unfolding check_error_rate
  check_backpressure none = ok tt
  check_backpressure (some bp) = do
    reject (str_eq bp.latency_threshold "") no_latency_threshold
    unit_of (demand (parse_duration bp.latency_threshold) bad_latency_threshold)
    reject (lt bp.duration_multiplier (lit 0 1)) negative_multiplier
    check_error_rate bp.error_rate_add

  unfoldable pub check_circuit_breaker : Option (CircuitBreakerConfig p lib) → Checked ConfigError
  check_circuit_breaker none = ok tt
  check_circuit_breaker (some cb) = do
    reject (leb_ℤ cb.failure_threshold (pos 0)) threshold_not_positive
    reject (str_eq cb.window "") no_window
    unit_of (demand (parse_duration cb.window) bad_window)
    reject (str_eq cb.cooldown "") no_cooldown
    unit_of (demand (parse_duration cb.cooldown) bad_cooldown)

  -- The loop over the links of an operation, with the references seen so far.
  unfoldable pub check_links :
      Dict Bool → String → List (LinkConfig p lib) → Dict Bool → Checked ConfigError
  check_links known_ops ref [] seen = ok tt
  check_links known_ops ref (link ∷ links) seen =
      let rest = check_links known_ops ref links (insert link.ref true seen) in
      do
        reject (str_eq link.ref "") empty_link
        reject (not (contains_dot link.ref)) link_without_dot
        reject (not (is_set link.ref known_ops)) unknown_link
        reject (str_eq link.ref ref) link_to_itself
        reject (is_set link.ref seen) duplicate_link
        blame part_error (check_attributes p lib link.attributes)
        rest

  abbrev pub is_call_style : String → Bool
  is_call_style style = str_eq style "" || str_eq style "parallel" || str_eq style "sequential"

  unfoldable pub validate_operation :
      Dict Bool → String → OperationConfig p lib → Checked ConfigError
  unfolding check_error_rate check_event check_backpressure check_circuit_breaker check_links
  validate_operation known_ops service op = do
    unit_of (blame text_error (parse_distribution parse_duration op.duration))
    check_error_rate op.error_rate
    reject (not (is_call_style op.call_style)) bad_call_style
    blame part_error (check_attributes p lib op.attributes)
    blame part_error (validate_baggage p lib op.baggage)
    each check_event op.events
    reject (ltb_ℤ op.queue_depth (pos 0)) negative_queue_depth
    check_backpressure op.backpressure
    check_circuit_breaker op.circuit_breaker
    check_links known_ops (ref_of service op.name) op.links []
    refuse (validate_calls p parse_duration known_ops op.calls)

  unfoldable pub validate_operations : Dict Bool → List (ServiceConfig p lib) → Checked ConfigError
  unfolding validate_operation
  validate_operations known_ops svcs =
      each
        (λ (svc : ServiceConfig p lib). each (validate_operation known_ops svc.name) svc.operations)
        svcs
