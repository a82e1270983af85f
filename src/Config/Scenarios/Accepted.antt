-- ===== src/Config/Scenarios/Accepted.antt =====
-- pkg/synth/config.go and scenario.go: the scenarios of a configuration that ValidateConfig accepts are
-- built, unless their calls are cyclic.
use motel.Prelude.{
  ℕ, ◌≡◌, refl, sym, ap, ◌∙◌, inl, inr, Bool, true, not, ◌&&◌, String, str_eq, List, [], ◌∷◌,
  Option, none, some, Dict, lookup, All, All-map, arith, Bool-cases, Option-cases, if◌then◌else◌,
}
use motel.Prelude.Results.{
  ok, reject, demand, blame, unit_of, each, >>-ok, >>=-ok, blame-ok, unit_of-ok, each-All, Made,
  >>=-Made, blame-Made, collect-total,
}
use motel.Platform.{Platform}
use motel.Topology.Types.{Topology}
use motel.Topology.Calls.{is_set}
use motel.Topology.Generators.{is_nonempty}
use motel.Config.{CallConfig, resolve_ref, validate_calls, validate_call_changes}
use motel.Config.Distributions.{parse_distribution, parse_float_distribution}
use motel.Config.Types.{Library, MetricConfig, LogOverrideConfig, OverrideConfig, ScenarioConfig}
use motel.Config.Parts.{
  given, check_attributes, empty_log_override, validate_log_config, validate_log_overrides,
}
use motel.Config.Tables.{
  part_error, text_error, Tables, scope_metrics, metric_not_defined, metric_span_derived,
  value_required,
}
use motel.Config.Operations.{check_error_rate}
use motel.Config.Sections.{
  parse_offset, parse_length, validate_metric_overrides, check_scope, calls_at, validate_override,
  validate_scenario,
}
use motel.Config.Build.{text_error as build_text_error}
use motel.Config.Build.Parts.{check_attributes-total, resolve_log-Made}
use motel.Config.Build.CallsMade.{calls-Made}
use motel.Config.Build.First.{refuse-none, build_error_rate-Made}
use motel.Config.Scenarios.{
  override_duration, metric_value, added_logs, build_override, resolve_scenario, section_error,
  build_error,
}
use motel.Config.Scenarios.Patterns.{scenario_traffic-Made}

module _ (p : Platform) (lib : Library p) (topo : Topology p) where
  open lib use {parse_duration, parse_float}

  override_duration-Made :
      (text : String)
      → (if given text
          then unit_of (blame text_error (parse_distribution parse_duration text))
          else ok tt)
        ≡ ok tt
      → Made (override_duration p lib topo text)
  unfolding override_duration
  override_duration-Made text h = elim (Bool-cases (given text)) [
    | inr q ↦ rw q (_, refl)
    | inl q ↦
        let parsed = blame text_error (parse_distribution parse_duration text) in
        let h' : unit_of parsed ≡ ok tt = ground (arith, h, q) in
        let (d, e) = unit_of-ok parsed h' in
        rw q (blame-Made build_text_error _ (d, blame-ok text_error _ e))
  ]

  metric_value-Made :
      (defined : Dict (MetricConfig p lib)) (overrides : Dict String)
      → validate_metric_overrides p lib defined overrides ≡ ok tt
      → All (λ entry. Made (metric_value p lib topo entry)) overrides
  unfolding validate_metric_overrides each metric_value
  metric_value-Made defined [] h = tt
  metric_value-Made defined ((name, text) ∷ overrides) h =
      let (first, rest) = >>-ok _ (each _ overrides) h in
      let (base, _, h1) = >>=-ok (demand (lookup name defined) metric_not_defined) _ first in
      let (_, h2) = >>-ok (reject (str_eq base.value "") metric_span_derived) _ h1 in
      let (_, h3) = >>-ok (reject (str_eq text "") value_required) _ h2 in
      let (d, e) = unit_of-ok (blame text_error (parse_float_distribution p parse_float text)) h3 in
      (
        >>=-Made _ _ (blame-Made build_text_error _ (d, blame-ok text_error _ e)) λ _ _. (_, refl),
        metric_value-Made defined overrides rest,
      )

  added_logs-Made :
      (lo : Option (LogOverrideConfig p lib))
      → validate_log_overrides p lib lo ≡ ok tt
      → Made (added_logs p lib topo lo)
  unfolding validate_log_overrides added_logs
  added_logs-Made none h = ([], refl)
  added_logs-Made (some lo) h =
      let (_, checked) =
        >>-ok (reject (not (is_nonempty lo.add) && not lo.disable) empty_log_override) _ h in
      collect-total _ _ (
        All-map (resolve_log-Made p lib) lo.add
          (each-All (validate_log_config p lib) lo.add checked))

  module _ (known : Dict Bool)
      (resolves : (ref : String)
        → is_set ref known ≡ true
        → (op : ℕ) × (resolve_ref p parse_duration topo ref ≡ some op)) where
    validate_call_changes-calls :
        (callers : Dict Bool) (calls : List (CallConfig p parse_duration)) (removed : List String)
        → validate_call_changes p parse_duration known callers calls removed ≡ none
        → validate_calls p parse_duration known calls ≡ none
    unfolding validate_call_changes
    validate_call_changes-calls callers calls removed h =
        elim (Option-cases (validate_calls p parse_duration known calls)) [
          | inl q ↦ q
          | inr (e, q) ↦ absurd (ground (arith, h, q))
        ]

    build_override-Made :
        (t : Tables p lib) (entry : String × OverrideConfig p lib)
        → t.known_ops ≡ known
        → validate_override p lib t entry ≡ ok tt
        → Made (build_override p lib topo entry)
    unfolding validate_override build_override
    build_override-Made t (ref, ov) same h =
        let (_, h1) = >>-ok (check_scope p lib t ref ov) _ h in
        let (metrics, h2) =
          >>-ok (validate_metric_overrides p lib (scope_metrics p lib ref t) ov.metrics) _ h1 in
        let (logs, h3) = >>-ok (blame part_error (validate_log_overrides p lib ov.logs)) _ h2 in
        let (duration, h4) = >>-ok _ _ h3 in
        let (error_rate, h5) = >>-ok (check_error_rate p lib ov.error_rate) _ h4 in
        let (attributes, changes) =
          >>-ok (blame part_error (check_attributes p lib ov.attributes)) _ h5 in
        let calls =
          validate_call_changes-calls (calls_at p lib t ref) ov.add_calls ov.remove_calls (
            ap
              (λ (k : Dict Bool).
                validate_call_changes p parse_duration k (calls_at p lib t ref) ov.add_calls
                  ov.remove_calls)
              (sym same)
            ∙ refuse-none p lib _ changes) in
        >>=-Made _ _ (override_duration-Made ov.duration duration) λ _ _.
          >>=-Made _ _ (build_error_rate-Made p lib ov.error_rate error_rate) λ _ _.
            >>=-Made _ _
              (check_attributes-total p lib [] ov.attributes (blame-ok part_error _ attributes))
              λ _ _.
                >>=-Made _ _
                  (collect-total _ _ (calls-Made p lib topo known resolves ov.add_calls calls))
                  λ _ _.
                    >>=-Made _ _
                      (collect-total _ _
                        (metric_value-Made (scope_metrics p lib ref t) ov.metrics metrics))
                      λ _ _.
                        >>=-Made _ _ (added_logs-Made ov.logs (blame-ok part_error _ logs))
                          λ _ _. (_, refl)

    pub resolve_scenario-Made :
        (t : Tables p lib) (sc : ScenarioConfig p lib)
        → t.known_ops ≡ known
        → validate_scenario p lib t sc ≡ ok tt
        → Made (resolve_scenario p lib topo sc)
    unfolding validate_scenario resolve_scenario
    resolve_scenario-Made t sc same h =
        let (start, h1) = >>-ok (unit_of (parse_offset p lib sc.start)) _ h in
        let (length, h2) = >>-ok (unit_of (parse_length p lib sc.duration)) _ h1 in
        let (overrides, traffic) = >>-ok (each (validate_override p lib t) sc.override) _ h2 in
        let built =
          All-map
            (λ (entry : String × OverrideConfig p lib)
                (checked : validate_override p lib t entry ≡ ok tt).
              build_override-Made t entry same checked)
            sc.override (each-All (validate_override p lib t) sc.override overrides) in
        >>=-Made _ _ (blame-Made section_error _ (unit_of-ok _ start)) λ _ _.
          >>=-Made _ _ (blame-Made section_error _ (unit_of-ok _ length)) λ _ _.
            >>=-Made _ _ (blame-Made build_error _ (collect-total _ _ built)) λ _ _.
              >>=-Made _ _ (scenario_traffic-Made p lib topo sc.traffic traffic) λ _ _. (_, refl)
