-- ===== src/Config/Sections.antt =====
-- pkg/synth/config.go, ValidateConfig: the traffic section and the scenarios.
use motel.Prelude.{
  Bool, true, false, not, ◌&&◌, ◌||◌, String, str_eq, [], Option, none, some, Dict, lookup,
  if◌then◌else◌,
}
use motel.Prelude.Int.{ℤ, pos, leb_ℤ, ltb_ℤ}
use motel.Prelude.Results.{
  Result, Checked, ok, failed, ◌>>=◌, ◌>>◌, reject, demand, blame, unit_of, each,
}
use motel.Platform.{Platform}
use motel.Topology.Calls.{is_set}
use motel.Topology.Generators.{is_nonempty}
use motel.Traffic.{BaseConfig, new_base_pattern}
use motel.Traffic
use motel.Config.{validate_call_changes}
use motel.Config.Text.{trim_space, strip_prefix}
use motel.Config.Distributions.{parse_distribution, parse_float_distribution}
use motel.Config.Types.{
  Library, MetricConfig, TrafficSection, plain, with_overlay, OverrideConfig, ScenarioConfig,
}
use motel.Config.Parts.{given, check_attributes, validate_log_overrides}
use motel.Config.Tables.{
  ConfigError, part_error, text_error, traffic_error, refuse, Tables, scope_metrics, bursty_fields,
  diurnal_fields, segment_fields, nested_overlay, offset_required, bad_offset, negative_offset,
  bad_duration, duration_not_positive, unknown_override, service_override, metric_not_defined,
  metric_span_derived, value_required,
}
use motel.Config.Operations.{check_error_rate}

module _ (p : Platform) (lib : Library p) where
  open p use {fl}
  open fl use {F, le, lit}
  open lib use {parse_duration, parse_float, sin, pi, hours, seconds}

  abbrev pub Base : Type 0
  Base = BaseConfig fl sin pi hours seconds parse_duration

  -- x != 0, which holds of a NaN.
  abbrev is_set_number : F → Bool
  is_set_number x = not (le x (lit 0 1) && le (lit 0 1) x)

  abbrev pub has_bursty_fields : Base → Bool
  has_bursty_fields tc =
      is_set_number tc.burst_multiplier || given tc.burst_interval || given tc.burst_duration

  abbrev pub has_diurnal_fields : Base → Bool
  has_diurnal_fields tc =
      is_set_number tc.peak_multiplier || is_set_number tc.trough_multiplier || given tc.period

  abbrev pub pattern_checked :
      Traffic.Result (Traffic.Pattern fl sin pi hours seconds parse_duration) → Checked ConfigError
  pattern_checked (Traffic.ok made) = ok tt
  pattern_checked (Traffic.failed e) = failed (traffic_error e)

  unfoldable pub check_base : Base → Checked ConfigError
  check_base tc = do
    reject (has_bursty_fields tc && not (str_eq tc.pattern "bursty")) bursty_fields
    reject (has_diurnal_fields tc && not (str_eq tc.pattern "diurnal")) diurnal_fields
    reject (is_nonempty tc.segments && not (str_eq tc.pattern "custom")) segment_fields
    pattern_checked (new_base_pattern fl sin pi hours seconds parse_duration tc)

  unfoldable pub validate_traffic_config : TrafficSection p lib → Bool → Checked ConfigError
  unfolding check_base
  validate_traffic_config (plain tc) is_overlay = check_base tc
  validate_traffic_config (with_overlay tc overlay) is_overlay =
      let rest = validate_traffic_config overlay true in
      do check_base tc; reject is_overlay nested_overlay; rest

  unfoldable pub strip_plus : String → String
  unfolding strip_prefix
  strip_plus s = elim (strip_prefix "+" s) [ none ↦ s | some rest ↦ rest ]

  unfoldable pub parse_offset : String → Result ConfigError ℤ
  unfolding trim_space strip_plus
  parse_offset text = do
    reject (str_eq (trim_space text) "") offset_required
    d ← demand (parse_duration (strip_plus (trim_space text))) bad_offset
    reject (ltb_ℤ d (pos 0)) negative_offset
    ok d

  unfoldable pub parse_length : String → Result ConfigError ℤ
  parse_length text = do
    d ← demand (parse_duration text) bad_duration
    reject (leb_ℤ d (pos 0)) duration_not_positive
    ok d

  unfoldable pub validate_metric_overrides :
      Dict (MetricConfig p lib) → Dict String → Checked ConfigError
  validate_metric_overrides defined = each (λ (entry : String × String). do
    base ← demand (lookup entry.0 defined) metric_not_defined
    reject (str_eq base.value "") metric_span_derived
    reject (str_eq entry.1 "") value_required
    unit_of (blame text_error (parse_float_distribution p parse_float entry.1)))

  abbrev pub changes_operation : OverrideConfig p lib → Bool
  changes_operation ov =
      given ov.duration
      || given ov.error_rate
      || is_nonempty ov.attributes
      || is_nonempty ov.add_calls
      || is_nonempty ov.remove_calls

  -- What is not a known operation must be a service, with overrides of metrics and logs only.
  unfoldable pub check_scope : Tables p lib → String → OverrideConfig p lib → Checked ConfigError
  check_scope t ref ov = if is_set ref t.known_ops then ok tt else (do
    reject (not (is_set ref t.known_services)) unknown_override
    reject (changes_operation ov) service_override)

  abbrev pub calls_at : Tables p lib → String → Dict Bool
  calls_at t ref = elim (lookup ref t.op_calls) [ none ↦ [] | some targets ↦ targets ]

  unfoldable pub validate_override :
      Tables p lib → String × OverrideConfig p lib → Checked ConfigError
  unfolding check_scope validate_metric_overrides
  validate_override t (ref, ov) = do
    check_scope t ref ov
    validate_metric_overrides (scope_metrics p lib ref t) ov.metrics
    blame part_error (validate_log_overrides p lib ov.logs)
    (if given ov.duration
        then unit_of (blame text_error (parse_distribution parse_duration ov.duration))
        else ok tt)
    check_error_rate p lib ov.error_rate
    blame part_error (check_attributes p lib ov.attributes)
    refuse (
        validate_call_changes p parse_duration t.known_ops (calls_at t ref) ov.add_calls
          ov.remove_calls)

  unfoldable pub check_traffic : Option (TrafficSection p lib) → Checked ConfigError
  unfolding validate_traffic_config
  check_traffic none = ok tt
  check_traffic (some tc) = validate_traffic_config tc false

  unfoldable pub validate_scenario : Tables p lib → ScenarioConfig p lib → Checked ConfigError
  unfolding parse_offset parse_length validate_override check_traffic
  validate_scenario t sc = do
    unit_of (parse_offset sc.start)
    unit_of (parse_length sc.duration)
    each (validate_override t) sc.override
    check_traffic sc.traffic
