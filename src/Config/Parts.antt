-- ===== src/Config/Parts.antt =====
-- pkg/synth/config.go: the validation of metrics, logs, baggage and attributes, wherever they stand.
use motel.Prelude.{
  Bool, false, not, ◌&&◌, ◌||◌, String, str_eq, List, [], ◌∷◌, Option, none, some, Dict,
  if◌then◌else◌,
}
use motel.Prelude.Int.{ℤ, pos, leb_ℤ, ltb_ℤ}
use motel.Prelude.Results.{Checked, ok, ◌>>=◌, ◌>>◌, reject, demand, blame, unit_of, each}
use motel.Platform.{Platform}
use motel.Topology.Baggage.{sorted_keys, value_at}
use motel.Topology.Generators.{
  GeneratorError, is_some, is_nonempty, is_static_attribute_config, new_attribute_generator,
  AttributeValueConfig,
}
use motel.Config.Text.{is_upper_case_of}
use motel.Config.Distributions.{TextError, parse_float_distribution}
use motel.Config.Types.{Library, AttributeConfigs, MetricConfig, LogConfig, LogOverrideConfig}

pub data PartError : Type 0 where
  attribute_error : GeneratorError → PartError
  name_required bad_type bad_value gauge_without_value : PartError
  interval_of_gauge interval_without_value interval_with_errors_only : PartError
  bad_duration duration_not_positive duration_negative : PartError
  walk_without_gauge bounds_without_gauge min_not_below_max errors_only_without_counter : PartError
  varying_attribute : PartError
  severity_required bad_severity body_required bad_condition bad_probability bad_anchor : PartError
  empty_log_override : PartError
  empty_baggage_key bad_baggage_key bad_baggage_value : PartError

abbrev pub given : String → Bool
given text = not (str_eq text "")

unfoldable pub is_metric_type : String → Bool
is_metric_type t =
    str_eq t "counter" || str_eq t "updowncounter" || str_eq t "histogram" || str_eq t "gauge"

-- The severity that the text spells in upper or lower case.
unfoldable pub severity_among : List String → String → Option String
unfolding is_upper_case_of
severity_among [] text = none
severity_among (name ∷ names) text =
    if is_upper_case_of name text then some name else severity_among names text

unfoldable pub severity_of : String → Option String
unfolding severity_among
severity_of = severity_among ("TRACE" ∷ "DEBUG" ∷ "INFO" ∷ "WARN" ∷ "ERROR" ∷ "FATAL" ∷ [])

module _ (p : Platform) (lib : Library p) where
  open p use {fl, new_member_raw}
  open fl use {F, lt, lit}
  open lib use {parse_duration, parse_float, new_member, sprint_value}

  unfoldable pub check_attributes : AttributeConfigs p lib → Checked PartError
  check_attributes attributes =
      each
        (λ (entry : String × AttributeValueConfig p).
          unit_of (blame attribute_error (new_attribute_generator p sprint_value entry.1)))
        attributes

  -- A duration that is given must parse and must not fail the test.
  unfoldable pub check_text : String → (ℤ → Bool) → PartError → Checked PartError
  check_text text bad reason =
      if given text
      then (demand (parse_duration text) bad_duration >>= λ d. reject (bad d) reason)
      else ok tt

  unfoldable pub check_interval : MetricConfig p lib → Checked PartError
  unfolding check_text
  check_interval mc =
      if given mc.interval
      then (do
        reject (str_eq mc.type "gauge") interval_of_gauge
        reject (str_eq mc.value "") interval_without_value
        reject mc.errors_only interval_with_errors_only
        check_text mc.interval (λ d. leb_ℤ d (pos 0)) duration_not_positive)
      else ok tt

  unfoldable pub check_walk : MetricConfig p lib → Checked PartError
  unfolding check_text
  check_walk mc =
      if given mc.walk
      then (do
        reject (not (str_eq mc.type "gauge")) walk_without_gauge
        check_text mc.walk (λ d. leb_ℤ d (pos 0)) duration_not_positive)
      else ok tt

  -- Both bounds are there, and the lower one is not below the upper one.
  abbrev pub is_crossed : Option F → Option F → Bool
  is_crossed none b = false
  is_crossed (some a) none = false
  is_crossed (some a) (some b) = fl.le b a

  unfoldable pub check_bounds : MetricConfig p lib → Checked PartError
  check_bounds mc = do
    reject ((is_some mc.min || is_some mc.max) && not (str_eq mc.type "gauge")) bounds_without_gauge
    reject (is_crossed mc.min mc.max) min_not_below_max

  -- The attributes of a counter that a span's start and end both change.
  unfoldable pub check_static : MetricConfig p lib → Checked PartError
  check_static mc =
      if str_eq mc.type "updowncounter" && str_eq mc.value ""
      then each
          (λ (entry : String × AttributeValueConfig p).
            reject (not (is_static_attribute_config p entry.1)) varying_attribute)
          mc.attributes
      else ok tt

  unfoldable pub check_value : String → Checked PartError
  check_value text =
      if given text
      then unit_of
          (blame (λ (e : TextError). bad_value) (parse_float_distribution p parse_float text))
      else ok tt

  unfoldable pub validate_metric_config : MetricConfig p lib → Checked PartError
  unfolding check_value check_interval check_walk check_bounds check_static check_attributes
  validate_metric_config mc = do
    reject (str_eq mc.name "") name_required
    reject (not (is_metric_type mc.type)) bad_type
    check_value mc.value
    reject (str_eq mc.type "gauge" && str_eq mc.value "") gauge_without_value
    check_interval mc
    check_walk mc
    check_bounds mc
    reject (mc.errors_only && not (str_eq mc.type "counter")) errors_only_without_counter
    check_static mc
    check_attributes mc.attributes

  abbrev pub is_log_condition : String → Bool
  is_log_condition c = str_eq c "" || str_eq c "error" || str_eq c "success" || str_eq c "slow"

  abbrev pub is_outside : Option F → Bool
  is_outside none = false
  is_outside (some x) = lt x (lit 0 1) || lt (lit 1 1) x

  unfoldable pub validate_log_config : LogConfig p lib → Checked PartError
  unfolding check_text check_attributes
  validate_log_config lc = do
    reject (str_eq lc.severity "") severity_required
    reject (not (is_some (severity_of lc.severity))) bad_severity
    reject (str_eq lc.body "") body_required
    reject (not (is_log_condition lc.condition)) bad_condition
    reject (is_outside lc.probability) bad_probability
    reject (not (str_eq lc.anchor "" || str_eq lc.anchor "start" || str_eq lc.anchor "end"))
        bad_anchor
    check_text lc.delay (λ d. ltb_ℤ d (pos 0)) duration_negative
    check_attributes lc.attributes

  unfoldable pub validate_log_overrides : Option (LogOverrideConfig p lib) → Checked PartError
  unfolding validate_log_config
  validate_log_overrides none = ok tt
  validate_log_overrides (some lo) = do
    reject (not (is_nonempty lo.add) && not lo.disable) empty_log_override
    each validate_log_config lo.add

  unfoldable pub validate_baggage : Dict String → Checked PartError
  validate_baggage bag =
      each
        (λ (k : String). do
          reject (str_eq k "") empty_baggage_key
          reject (not (new_member k)) bad_baggage_key
          reject (not (is_some (new_member_raw k (value_at bag k)))) bad_baggage_value)
        (sorted_keys bag)
