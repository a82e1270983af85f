-- ===== src/Config/Scenarios/Patterns.antt =====
-- pkg/synth/config.go and traffic.go: a traffic section that the validation accepts makes a pattern.
use motel.Prelude.{
  ◌≡◌, refl, ◌⊎◌, inl, inr, true, false, not, ◌&&◌, str_eq, Option, none, some, arith,
}
use motel.Prelude.Int.{pos}
use motel.Prelude.Results.{ok, reject, >>-ok, Made}
use motel.Platform.{Platform}
use motel.Topology.Types.{Topology}
use motel.Topology.Generators.{is_nonempty}
use motel.Rate.{Rate, RateError, RateResult, parse_rate}
use motel.Rate
use motel.Traffic.{
  TrafficPattern, Pattern, new_base_pattern, new_traffic_pattern, rate_or, bad_rate,
}
use motel.Traffic
use motel.Config.Types.{Library, TrafficSection, plain, with_overlay}
use motel.Config.Tables.{bursty_fields, diurnal_fields, segment_fields}
use motel.Config.Sections.{
  Base, has_bursty_fields, has_diurnal_fields, pattern_checked, check_base, validate_traffic_config,
  check_traffic,
}
use motel.Config.Validate.{base_of}
use motel.Config.Scenarios.{traffic_config_of, pattern_or, scenario_traffic}

module _ (p : Platform) (lib : Library p) where
  open p use {fl}
  open fl use {div, of_int}
  open lib use {parse_duration, parse_float, sin, pi, hours, seconds}

  check_base-pattern :
      (tc : Base p lib)
      → check_base p lib tc ≡ ok tt
      → (made : Pattern fl sin pi hours seconds parse_duration) × (new_base_pattern fl sin pi hours
            seconds parse_duration tc
          ≡ Traffic.ok made)
  unfolding check_base
  check_base-pattern tc h =
      let (_, h1) =
        >>-ok
          (reject (has_bursty_fields p lib tc && not (str_eq tc.pattern "bursty")) bursty_fields) _
          h in
      let (_, h2) =
        >>-ok
          (reject (has_diurnal_fields p lib tc && not (str_eq tc.pattern "diurnal")) diurnal_fields)
          _ h1 in
      let (_, h3) =
        >>-ok (reject (is_nonempty tc.segments && not (str_eq tc.pattern "custom")) segment_fields)
          _ h2 in
      made_of _ h3
    where
      made_of :
          (r : Traffic.Result (Pattern fl sin pi hours seconds parse_duration))
          → pattern_checked p lib r ≡ ok tt
          → (made : Pattern fl sin pi hours seconds parse_duration) × (r ≡ Traffic.ok made)
      made_of (Traffic.ok made) h = (made, refl)
      made_of (Traffic.failed e) h = cc

  rate-ok :
      (tc : Base p lib) (made : Pattern fl sin pi hours seconds parse_duration)
      → new_base_pattern fl sin pi hours seconds parse_duration tc ≡ Traffic.ok made
      → (r : Rate) × (parse_rate tc.rate ≡ Rate.ok r)
  unfolding new_base_pattern
  rate-ok tc made h = elim (RateResult-cases (parse_rate tc.rate)) [
    | inl found ↦ found
    | inr (e, q) ↦ absurd (ground (arith, h, q))
  ]
    where
      RateResult-cases :
          (r : RateResult Rate)
          → ((v : Rate) × (r ≡ Rate.ok v)) ⊎ ((e : RateError) × (r ≡ Rate.failed e))
      RateResult-cases (Rate.ok v) = inl (v, refl)
      RateResult-cases (Rate.failed e) = inr (e, refl)

  overlay-checked :
      (o : TrafficSection p lib)
      → validate_traffic_config p lib o true ≡ ok tt
      → check_base p lib (base_of p lib o) ≡ ok tt
  unfolding validate_traffic_config
  overlay-checked (plain tc) h = h
  overlay-checked (with_overlay tc o) h = (>>-ok (check_base p lib tc) _ h).0

  abbrev Patterned : Traffic.Result (TrafficPattern fl sin pi hours seconds parse_duration) → Type 0
  Patterned r =
      (made : TrafficPattern fl sin pi hours seconds parse_duration) × (r ≡ Traffic.ok made)

  section-Patterned :
      (topo : Topology p) (t : TrafficSection p lib)
      → validate_traffic_config p lib t false ≡ ok tt
      → Patterned (
          new_traffic_pattern fl sin pi hours seconds parse_duration
            (traffic_config_of p lib topo t))
  unfolding validate_traffic_config new_traffic_pattern
  section-Patterned topo (plain tc) h =
      let (made, e) = check_base-pattern tc h in
      (Traffic.simple made, rw (new_traffic_pattern, e) refl)
  section-Patterned topo (with_overlay tc o) h =
      let (base, rest) = >>-ok (check_base p lib tc) _ h in
      let (made, e) = check_base-pattern tc base in
      let (over, f) = check_base-pattern (base_of p lib o) (overlay-checked o rest) in
      let (r, q) = rate-ok (base_of p lib o) over f in
      (
        Traffic.composite made over (div (of_int (pos r.count)) (seconds r.period)),
        rw (new_traffic_pattern, e, f, q) refl,
      )

  pub scenario_traffic-Made :
      (topo : Topology p) (t : Option (TrafficSection p lib))
      → check_traffic p lib t ≡ ok tt
      → Made (scenario_traffic p lib topo t)
  unfolding check_traffic scenario_traffic
  scenario_traffic-Made topo none h = (none, refl)
  scenario_traffic-Made topo (some t) h = pattern_made _ (section-Patterned topo t h)
    where
      pattern_made :
          (r : Traffic.Result (TrafficPattern fl sin pi hours seconds parse_duration))
          → Patterned r
          → Made (pattern_or p lib topo r)
      pattern_made (Traffic.ok made) h = (_, refl)
      pattern_made (Traffic.failed e) h = cc (h.1)
