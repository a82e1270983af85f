-- ===== src/Traffic.antt =====
-- pkg/synth/traffic.go: the patterns of arrival rates, and how they are made from a configuration.
-- The overlay of an overlay is never read by the code, so a configuration has one level of overlay.
-- The float64 operations beyond those of the platform and time.ParseDuration are parameters.
pub mod Segments
pub mod Bursts
mod Tests
use motel.Prelude.{
  ◌≡◌, refl, ℕ, ◌+◌, ◌%◌, Bool, true, false, not, ◌&&◌, ◌||◌, String, str_eq, List, [], ◌∷◌, Option,
  none, some, if◌then◌else◌,
}
use motel.Prelude.Int.{ℤ, pos, negsuc, sub_ℕ, ltb_ℤ, leb_ℤ}
use motel.Platform.{Float64}
use motel.Rate.{Rate, RateError, RateResult, parse_rate}
use motel.Rate

-- The remainder of int64, with the sign of the dividend.
unfoldable pub rem : ℤ → ℕ → ℤ
rem (pos a) b = pos (a % b)
rem (negsuc a) b = sub_ℕ 0 ((a + 1) % b)

pub data TrafficError : Type 0 where
  bad_rate : RateError → TrafficError
  unknown_pattern : String → TrafficError
  bad_duration not_positive negative_multiplier burst_too_long : String → TrafficError
  peak_below_trough no_segments duplicate_until : TrafficError
  bad_until : ℕ → TrafficError
  bad_segment_rate : ℕ → RateError → TrafficError
  in_overlay : TrafficError → TrafficError

-- A made pattern, or the reason why there is none.
pub data Result {ℓ} (A : Type ℓ) : Type ℓ where
  failed : TrafficError → Result A
  ok : A → Result A

infixl 5 ◌>>=◌ ◌>>◌
abbrev pub ◌>>=◌ {ℓ κ} : {A : Type ℓ} {B : Type κ} → Result A → (A → Result B) → Result B
failed reason >>= next = failed reason
ok made >>= next = next made

-- A test of the configuration, and what follows it.
abbrev pub ensure : Bool → TrafficError → Result (Unit {0})
ensure holds reason = if holds then ok tt else failed reason

abbrev pub ◌>>◌ {ℓ} : {A : Type ℓ} → Result (Unit {0}) → Result A → Result A
failed reason >> rest = failed reason
ok _ >> rest = rest

pub ensure-ok {ℓ} :
    {A : Type ℓ} (holds : Bool) (reason : TrafficError) (rest : Result A) (made : A)
    → (ensure holds reason >> rest) ≡ ok made
    → (holds ≡ true) × (rest ≡ ok made)
ensure-ok false reason rest made e = cc
ensure-ok true reason rest made e = (refl, e)

abbrev pub rate_or : (RateError → TrafficError) → RateResult Rate → Result Rate
rate_or f (Rate.ok r) = ok r
rate_or f (Rate.failed e) = failed (f e)

module _ (fl : Float64) (sin : fl.F → fl.F) (pi : fl.F) (hours seconds : ℤ → fl.F)
    (parse_duration : String → Option ℤ) where
  open fl use {F, lt, le, add, sub, mul, div, lit, of_int}

  pub record SegmentConfig : Type 0 where
    pub until : String
    pub rate : String

  pub record BaseConfig : Type 0 where
    pub rate : String
    pub pattern : String
    pub peak_multiplier : F
    pub trough_multiplier : F
    pub period : String
    pub burst_multiplier : F
    pub burst_interval : String
    pub burst_duration : String
    pub segments : List SegmentConfig

  pub record TrafficConfig : Type 0 where
    pub base : BaseConfig
    pub overlay : Option BaseConfig

  pub record Segment : Type 0 where
    pub until : ℤ
    pub rate : F

  pub record Bursty : Type 0 where
    pub base_rate : F
    pub burst_multiplier : F
    pub burst_interval : ℤ
    pub burst_duration : ℤ

  pub record Diurnal : Type 0 where
    pub base_rate : F
    pub peak_multiplier : F
    pub trough_multiplier : F
    pub period : ℤ

  pub data Pattern : Type 0 where
    uniform : F → Pattern
    diurnal : Diurnal → Pattern
    bursty : Bursty → Pattern
    custom : F → List Segment → Pattern

  pub data TrafficPattern : Type 0 where
    simple : Pattern → TrafficPattern
    composite : Pattern → Pattern → F → TrafficPattern

  -- x != 0, which holds of a NaN.
  abbrev is_nonzero : F → Bool
  is_nonzero x = not (le x (lit 0 1) && le (lit 0 1) x)

  abbrev is_positive : ℤ → Bool
  is_positive z = ltb_ℤ (pos 0) z

  abbrev magnitude : ℤ → ℕ
  magnitude (pos n) = n
  magnitude (negsuc n) = n + 1

  unfoldable pub diurnal_rate : Diurnal → ℤ → F
  diurnal_rate p elapsed =
      let mid = div (add p.peak_multiplier p.trough_multiplier) (lit 2 1) in
      let amplitude = div (sub p.peak_multiplier p.trough_multiplier) (lit 2 1) in
      let period_hours = hours p.period in
      let phase = sub (hours elapsed) (div period_hours (lit 4 1)) in
      let factor =
        add mid (mul amplitude (sin (div (mul (mul (lit 2 1) pi) phase) period_hours))) in
      mul p.base_rate factor

  unfoldable pub bursty_rate : Bursty → ℤ → F
  bursty_rate p elapsed =
      if ltb_ℤ (rem elapsed (magnitude p.burst_interval)) p.burst_duration
      then mul p.base_rate p.burst_multiplier
      else p.base_rate

  unfoldable pub custom_rate : F → List Segment → ℤ → F
  custom_rate base [] elapsed = base
  custom_rate base (s ∷ ss) elapsed =
      if ltb_ℤ elapsed s.until then s.rate else custom_rate base ss elapsed

  unfoldable pub pattern_rate : Pattern → ℤ → F
  unfolding diurnal_rate bursty_rate custom_rate
  pattern_rate (uniform base) elapsed = base
  pattern_rate (diurnal p) elapsed = diurnal_rate p elapsed
  pattern_rate (bursty p) elapsed = bursty_rate p elapsed
  pattern_rate (custom base ss) elapsed = custom_rate base ss elapsed

  unfoldable pub traffic_rate : TrafficPattern → ℤ → F
  unfolding pattern_rate
  traffic_rate (simple p) elapsed = pattern_rate p elapsed
  traffic_rate (composite base overlay overlay_base) elapsed =
      if not (is_nonzero overlay_base)
      then pattern_rate base elapsed
      else mul (pattern_rate base elapsed) (div (pattern_rate overlay elapsed) overlay_base)

  -- float64(rate.Count()) / rate.Period().Seconds()
  abbrev per_second : Rate → F
  per_second r = div (of_int (pos r.count)) (seconds r.period)

  -- An optional duration with its default.
  unfoldable pub duration_or : String → ℤ → String → Result ℤ
  duration_or name default text =
      if str_eq text ""
      then ok default
      else elim (parse_duration text) [ some d ↦ ok d | none ↦ failed (bad_duration name) ]

  unfoldable pub multiplier_or : String → F → F → Result F
  multiplier_or name default x =
      if is_nonzero x
      then if lt x (lit 0 1) then failed (negative_multiplier name) else ok x
      else ok default

  unfoldable pub new_bursty_pattern : F → BaseConfig → Result Bursty
  unfolding duration_or multiplier_or
  new_bursty_pattern base cfg = do
    multiplier ← multiplier_or "burst_multiplier" (lit 5 1) cfg.burst_multiplier
    interval ← duration_or "burst_interval" (pos 300000000000) cfg.burst_interval
    ensure (is_positive interval) (not_positive "burst_interval")
    duration ← duration_or "burst_duration" (pos 30000000000) cfg.burst_duration
    ensure (is_positive duration) (not_positive "burst_duration")
    ensure (ltb_ℤ duration interval) (burst_too_long "burst_duration")
    ok (record {
      base_rate = base;
      burst_multiplier = multiplier;
      burst_interval = interval;
      burst_duration = duration;
    })

  unfoldable pub new_diurnal_pattern : F → BaseConfig → Result Diurnal
  unfolding duration_or multiplier_or
  new_diurnal_pattern base cfg = do
    peak ← multiplier_or "peak_multiplier" (lit 3 2) cfg.peak_multiplier
    trough ← multiplier_or "trough_multiplier" (lit 1 2) cfg.trough_multiplier
    ensure (not (lt peak trough)) peak_below_trough
    period ← duration_or "period" (pos 86400000000000) cfg.period
    ensure (is_positive period) (not_positive "period")
    ok (record {
      base_rate = base;
      peak_multiplier = peak;
      trough_multiplier = trough;
      period = period;
    })

  -- The segments in their order, with the index of the first.
  unfoldable pub parse_segments : ℕ → List SegmentConfig → Result (List Segment)
  parse_segments i [] = ok []
  parse_segments i (sc ∷ scs) =
      let rest = parse_segments (i + 1) scs in
      elim (parse_duration sc.until) [
        | none ↦ failed (bad_until i)
        | some until ↦ rate_or (bad_segment_rate i) (parse_rate sc.rate) >>= λ r.
            rest >>= λ ss. ok (record { until = until; rate = per_second r } ∷ ss)
      ]

  unfoldable pub place_segment : Segment → List Segment → List Segment
  place_segment s [] = s ∷ []
  place_segment s (x ∷ xs) =
      let later = x ∷ place_segment s xs in if leb_ℤ s.until x.until then s ∷ x ∷ xs else later

  unfoldable pub sort_segments : List Segment → List Segment
  unfolding place_segment
  sort_segments [] = []
  sort_segments (s ∷ ss) = place_segment s (sort_segments ss)

  abbrev same_until : ℤ → ℤ → Bool
  same_until a b = leb_ℤ a b && leb_ℤ b a

  unfoldable pub has_duplicate : List Segment → Bool
  has_duplicate [] = false
  has_duplicate (s ∷ []) = false
  has_duplicate (s ∷ t ∷ ss) = same_until t.until s.until || has_duplicate (t ∷ ss)

  abbrev pub has_segments : List SegmentConfig → Bool
  has_segments [] = false
  has_segments (x ∷ xs) = true

  unfoldable pub new_custom_pattern : F → BaseConfig → Result (List Segment)
  unfolding parse_segments sort_segments has_duplicate
  new_custom_pattern base cfg = do
    ensure (has_segments cfg.segments) no_segments
    segments ← parse_segments 0 cfg.segments
    ensure (not (has_duplicate (sort_segments segments))) duplicate_until
    ok (sort_segments segments)

  unfoldable pub new_base_pattern : BaseConfig → Result Pattern
  unfolding new_bursty_pattern new_diurnal_pattern new_custom_pattern
  new_base_pattern cfg = rate_or bad_rate (parse_rate cfg.rate) >>= λ r.
      if str_eq cfg.pattern "" || str_eq cfg.pattern "uniform"
      then ok (uniform (per_second r))
      else if str_eq cfg.pattern "diurnal"
      then (new_diurnal_pattern (per_second r) cfg >>= λ p. ok (diurnal p))
      else if str_eq cfg.pattern "bursty"
      then (new_bursty_pattern (per_second r) cfg >>= λ p. ok (bursty p))
      else if str_eq cfg.pattern "custom"
      then (new_custom_pattern (per_second r) cfg >>= λ ss. ok (custom (per_second r) ss))
      else failed (unknown_pattern cfg.pattern)

  unfoldable pub overlaid : Result Pattern → Result Pattern
  overlaid (ok p) = ok p
  overlaid (failed e) = failed (in_overlay e)

  unfoldable pub new_traffic_pattern : TrafficConfig → Result TrafficPattern
  unfolding new_base_pattern overlaid
  new_traffic_pattern cfg = new_base_pattern cfg.base >>= λ base. elim cfg.overlay [
    | none ↦ ok (simple base)
    | some o ↦ overlaid (new_base_pattern o) >>= λ overlay.
        rate_or (λ e. in_overlay (bad_rate e)) (parse_rate o.rate) >>= λ r.
        ok (composite base overlay (per_second r))
  ]
