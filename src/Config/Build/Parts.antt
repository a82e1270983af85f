-- ===== src/Config/Build/Parts.antt =====
-- pkg/synth/config.go and topology.go: the metrics, logs and events that the validation accepts
-- resolve.
use motel.Prelude.{
  ◌≡◌, refl, Bool, false, not, ◌&&◌, ◌||◌, String, str_eq, [], ◌∷◌, Option, none, some, Dict,
  insert, All, arith, Bool-cases, Option-cases, inl, inr, if◌then◌else◌,
}
use motel.Prelude.Int.{ℤ, pos, leb_ℤ, ltb_ℤ}
use motel.Prelude.Results.{
  Checked, ok, reject, blame, unit_of, >>-ok, reject-ok, unit_of-ok, blame-ok, each-All, Made,
  >>=-Made, >>-Made, blame-Made, demand-Made, reject-pass,
}
use motel.Platform.{Platform}
use motel.Topology.Generators.{is_some, AttributeValueConfig, new_attribute_generator}
use motel.Config.{optional_duration}
use motel.Config.Distributions.{parse_float_distribution, TextError}
use motel.Config.Types.{Library, AttributeConfigs, MetricConfig, LogConfig, EventConfig}
use motel.Config.Parts.{
  PartError, attribute_error, bad_value, given, severity_of, check_attributes, check_text,
  check_value, check_interval, check_walk, check_bounds, check_static, validate_metric_config,
  validate_log_config, name_required, bad_type, gauge_without_value, errors_only_without_counter,
  severity_required, bad_severity, body_required, bad_condition, bad_probability, bad_anchor,
  duration_negative, duration_not_positive, interval_of_gauge, interval_without_value,
  interval_with_errors_only, walk_without_gauge, is_metric_type, is_outside, is_log_condition,
}
use motel.Config.Tables.{part_error, event_name_required}
use motel.Config.Operations.{check_event}
use motel.Config.Build.{
  add_generators, optional_value, resolve_metric, resolve_log, build_event, text_error, bad_delay,
  bad_walk, bad_interval, bad_severity as no_severity,
}

module _ (p : Platform) (lib : Library p) where
  open p use {fl, Gen}
  open fl use {F}
  open lib use {parse_duration, parse_float, sprint_value, as_gen}

  add_generators-total :
      (gens : Dict Gen) (attributes : AttributeConfigs p lib)
      → All
          (λ (entry : String × AttributeValueConfig p).
            unit_of (blame attribute_error (new_attribute_generator p sprint_value entry.1))
            ≡ ok tt)
          attributes
      → Made (add_generators p lib gens attributes)
  unfolding add_generators
  add_generators-total gens [] h = (gens, refl)
  add_generators-total gens (entry ∷ entries) h =
      let (gen, e) =
        unit_of-ok (blame attribute_error (new_attribute_generator p sprint_value entry.1)) h.0 in
      let made = blame-ok attribute_error (new_attribute_generator p sprint_value entry.1) e in
      let (all, f) = add_generators-total (insert entry.0 (as_gen gen) gens) entries h.1 in
      (all, rw (add_generators, made) f)

  pub check_attributes-total :
      (gens : Dict Gen) (attributes : AttributeConfigs p lib)
      → check_attributes p lib attributes ≡ ok tt
      → Made (add_generators p lib gens attributes)
  unfolding check_attributes
  check_attributes-total gens attributes h =
      add_generators-total gens attributes (each-All _ attributes h)

  pub check_text-total :
      (text : String) (bad : ℤ → Bool) (reason : PartError)
      → check_text p lib text bad reason ≡ ok tt
      → (d : ℤ) × (optional_duration p parse_duration text ≡ some d)
  unfolding check_text optional_duration
  check_text-total text bad reason h = elim (Bool-cases (given text)) [
    | inr q ↦ (pos 0, rw q refl)
    | inl q ↦ elim (Option-cases (parse_duration text)) [
      | inr (d, e) ↦ (d, rw q e)
      | inl e ↦ absurd (ground (arith, h, q, e))
    ]
  ]

  pub check_event-Made :
      (evt : EventConfig p lib) → check_event p lib evt ≡ ok tt → Made (build_event p lib evt)
  unfolding check_event build_event
  check_event-Made evt h =
      let late : ℤ → Bool = λ d. ltb_ℤ d (pos 0) in
      let (_, h1) = >>-ok (reject (str_eq evt.name "") event_name_required) _ h in
      let (timed, h2) =
        >>-ok (blame part_error (check_text p lib evt.delay late duration_negative)) _ h1 in
      let delay = check_text-total evt.delay late duration_negative (blame-ok part_error _ timed) in
      >>=-Made _ _ (demand-Made _ bad_delay delay) λ _ _.
        >>=-Made _ _ (check_attributes-total [] evt.attributes (blame-ok part_error _ h2))
          λ _ _. (_, refl)

  check_value-Made :
      (text : String) → check_value p lib text ≡ ok tt → Made (optional_value p lib text)
  unfolding check_value optional_value
  check_value-Made text h = elim (Bool-cases (given text)) [
    | inr q ↦ rw q (none, refl)
    | inl q ↦
        let parsed : Checked PartError =
          unit_of
            (blame (λ (e : TextError). bad_value) (parse_float_distribution p parse_float text)) in
        let h' : parsed ≡ ok tt = ground (arith, h, q) in
        let (d, e) =
          unit_of-ok
            (blame (λ (e : TextError). bad_value) (parse_float_distribution p parse_float text))
            h' in
        rw q (
          >>=-Made _ _ (blame-Made text_error _ (d, blame-ok (λ (e : TextError). bad_value) _ e))
            λ _ _. (_, refl))
  ]

  -- A duration that is only given where it was checked.
  optional-given :
      (text : String) (bad : ℤ → Bool) (reason : PartError) (checked : Checked PartError)
      → (if given text then checked else ok tt) ≡ ok tt
      → (checked ≡ ok tt → check_text p lib text bad reason ≡ ok tt)
      → (d : ℤ) × (optional_duration p parse_duration text ≡ some d)
  unfolding optional_duration
  optional-given text bad reason checked h k = elim (Bool-cases (given text)) [
    | inr q ↦ (pos 0, rw q refl)
    | inl q ↦ check_text-total text bad reason (k (ground (arith, h, q)))
  ]

  check_interval-optional :
      (mc : MetricConfig p lib)
      → check_interval p lib mc ≡ ok tt
      → (d : ℤ) × (optional_duration p parse_duration mc.interval ≡ some d)
  unfolding check_interval
  check_interval-optional mc h =
      optional-given mc.interval (λ d. leb_ℤ d (pos 0)) duration_not_positive _ h
        λ k.
          let (_, k1) = >>-ok (reject (str_eq mc.type "gauge") interval_of_gauge) _ k in
          let (_, k2) = >>-ok (reject (str_eq mc.value "") interval_without_value) _ k1 in
          (>>-ok (reject mc.errors_only interval_with_errors_only) _ k2).1

  check_walk-optional :
      (mc : MetricConfig p lib)
      → check_walk p lib mc ≡ ok tt
      → (d : ℤ) × (optional_duration p parse_duration mc.walk ≡ some d)
  unfolding check_walk
  check_walk-optional mc h =
      optional-given mc.walk (λ d. leb_ℤ d (pos 0)) duration_not_positive _ h
        λ k. (>>-ok (reject (not (str_eq mc.type "gauge")) walk_without_gauge) _ k).1

  pub resolve_metric-Made :
      (mc : MetricConfig p lib)
      → validate_metric_config p lib mc ≡ ok tt
      → Made (resolve_metric p lib mc)
  unfolding validate_metric_config resolve_metric
  resolve_metric-Made mc h =
      let (_, h1) = >>-ok (reject (str_eq mc.name "") name_required) _ h in
      let (_, h2) = >>-ok (reject (not (is_metric_type mc.type)) bad_type) _ h1 in
      let (value, h3) = >>-ok (check_value p lib mc.value) _ h2 in
      let (gauge, h4) =
        >>-ok (reject (str_eq mc.type "gauge" && str_eq mc.value "") gauge_without_value) _ h3 in
      let (interval, h5) = >>-ok (check_interval p lib mc) _ h4 in
      let (walk, h6) = >>-ok (check_walk p lib mc) _ h5 in
      let (_, h7) = >>-ok (check_bounds p lib mc) _ h6 in
      let (_, h8) =
        >>-ok
          (reject (mc.errors_only && not (str_eq mc.type "counter")) errors_only_without_counter) _
          h7 in
      let (_, attributes) = >>-ok (check_static p lib mc) _ h8 in
      >>=-Made _ _ (demand-Made _ bad_walk (check_walk-optional mc walk)) λ _ _.
        >>=-Made _ _ (demand-Made _ bad_interval (check_interval-optional mc interval)) λ _ _.
          >>=-Made _ _ (check_value-Made mc.value value) λ _ _.
            >>-Made _ _ (reject-pass _ _ (reject-ok _ gauge_without_value gauge))
              (>>=-Made _ _ (check_attributes-total [] mc.attributes attributes) λ _ _. (_, refl))

  some_of : {A : Type 0} (o : Option A) → not (is_some o) ≡ false → (a : A) × (o ≡ some a)
  some_of none h = cc
  some_of (some a) h = (a, refl)

  pub resolve_log-Made :
      (lc : LogConfig p lib) → validate_log_config p lib lc ≡ ok tt → Made (resolve_log p lib lc)
  unfolding validate_log_config resolve_log
  resolve_log-Made lc h =
      let late : ℤ → Bool = λ d. ltb_ℤ d (pos 0) in
      let (_, h1) = >>-ok (reject (str_eq lc.severity "") severity_required) _ h in
      let (severity, h2) =
        >>-ok (reject (not (is_some (severity_of lc.severity))) bad_severity) _ h1 in
      let (_, h3) = >>-ok (reject (str_eq lc.body "") body_required) _ h2 in
      let (_, h4) = >>-ok (reject (not (is_log_condition p lib lc.condition)) bad_condition) _ h3 in
      let (_, h5) = >>-ok (reject (is_outside p lib lc.probability) bad_probability) _ h4 in
      let (_, h6) =
        >>-ok
          (reject (not (str_eq lc.anchor "" || str_eq lc.anchor "start" || str_eq lc.anchor "end"))
            bad_anchor)
          _ h5 in
      let (timed, attributes) = >>-ok (check_text p lib lc.delay late duration_negative) _ h6 in
      >>=-Made _ _ (demand-Made _ no_severity (some_of _ (reject-ok _ bad_severity severity)))
        λ _ _.
          >>=-Made _ _
            (demand-Made _ bad_delay (check_text-total lc.delay late duration_negative timed))
            λ _ _.
              >>=-Made _ _ (check_attributes-total [] lc.attributes attributes) λ _ _. (_, refl)
