-- ===== src/Config/Distributions.antt =====
-- pkg/synth/distribution.go and config.go: the texts of durations, values and rates with a spread.
-- strconv.ParseFloat, time.ParseDuration and the way a duration is printed are parameters.
pub mod RoundTrip
pub mod Bounds
mod Tests
use Prim.Native.String
use motel.Prelude.{
  ◌≡◌, refl, Bool, true, false, ◌&&◌, ◌||◌, String, str_eq, Option, none, some, if◌then◌else◌,
  arith, Option-cases, inl, inr,
}
use motel.Prelude.Int.{ℤ, pos, leb_ℤ, ltb_ℤ, ◌≤ℤ◌}
use motel.Prelude.Results.{
  Result, ok, failed, ◌>>=◌, ◌>>◌, reject, demand, reject-ok, >>-ok, >>=-ok,
}
use motel.Platform.{Platform}
use motel.Topology.Types.{Distribution, FloatDistribution}
use motel.Config.Text.{trim_space, cut_at, cut_percent}

pub data TextError : Type 0 where
  is_required bad_mean mean_not_positive bad_std_dev negative_std_dev : TextError
  bad_error_rate error_rate_outside : TextError

-- The two texts around the sign, if there is one of its two spellings.
unfoldable pub mean_and_spread : String → Option (String × String)
unfolding trim_space cut_at
mean_and_spread s = elim (cut_at "+/-" s) [
  | some parts ↦ some (trim_space parts.0, trim_space parts.1)
  | none ↦ elim (cut_at "±" s) [
    | some parts ↦ some (trim_space parts.0, trim_space parts.1)
    | none ↦ none
  ]
]

module _ (parse_duration : String → Option ℤ) where
  unfoldable pub parse_mean : String → Result TextError ℤ
  parse_mean s = do
    mean ← demand (parse_duration s) bad_mean
    reject (leb_ℤ mean (pos 0)) mean_not_positive
    ok mean

  unfoldable pub parse_spread : String → Result TextError ℤ
  parse_spread s = do
    std_dev ← demand (parse_duration s) bad_std_dev
    reject (ltb_ℤ std_dev (pos 0)) negative_std_dev
    ok std_dev

  -- With the two texts around the sign, or the whole text.
  unfoldable pub distribution_of : String → Option (String × String) → Result TextError Distribution
  distribution_of s (some parts) = do
    mean ← parse_mean parts.0
    std_dev ← parse_spread parts.1
    ok (record { mean = mean; std_dev = std_dev })
  distribution_of s none = do
    mean ← parse_mean (trim_space s)
    ok (record { mean = mean; std_dev = pos 0 })

  unfoldable pub parse_distribution : String → Result TextError Distribution
  unfolding distribution_of
  parse_distribution text = do
    reject (str_eq (trim_space text) "") is_required
    distribution_of (trim_space text) (mean_and_spread (trim_space text))

module _ (print_duration : ℤ → String) where
  -- Distribution.String.
  unfoldable pub distribution_text : Distribution → String
  distribution_text d =
      if leb_ℤ d.std_dev (pos 0) && leb_ℤ (pos 0) d.std_dev
      then print_duration d.mean
      else String.◌++◌ (print_duration d.mean) (String.◌++◌ " +/- " (print_duration d.std_dev))

module _ (p : Platform) (parse_float : String → Option p.fl.F) where
  open p use {fl}
  open fl use {F, lt, lit, div}

  unfoldable pub parse_float_distribution : String → Result TextError (FloatDistribution p)
  parse_float_distribution text =
      let s = trim_space text in
      do
        reject (str_eq s "") is_required
        elim (mean_and_spread s) [
          | some parts ↦ do
            mean ← demand (parse_float parts.0) bad_mean
            std_dev ← demand (parse_float parts.1) bad_std_dev
            reject (lt std_dev (lit 0 1)) negative_std_dev
            ok (record { mean = mean; std_dev = std_dev })
          | none ↦ do
            mean ← demand (parse_float (trim_space s)) bad_mean
            ok (record { mean = mean; std_dev = lit 0 1 })
        ]

  -- A percentage, or a number from 0 to 1.
  unfoldable pub parse_error_rate : String → Result TextError F
  unfolding trim_space cut_percent
  parse_error_rate text = elim (cut_percent (trim_space text)) [
    | some percent ↦ do
      v ← demand (parse_float (trim_space percent)) bad_error_rate
      reject (lt v (lit 0 1) || lt (lit 100 1) v) error_rate_outside
      ok (div v (lit 100 1))
    | none ↦ do
      v ← demand (parse_float (trim_space text)) bad_error_rate
      reject (lt v (lit 0 1) || lt (lit 1 1) v) error_rate_outside
      ok v
  ]
