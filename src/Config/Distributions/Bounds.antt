-- ===== src/Config/Distributions/Bounds.antt =====
-- pkg/synth/distribution.go and config.go: what the engine relies on in a parsed distribution or rate.
use motel.Prelude.{◌≡◌, false, String, str_eq, Option, none, some, arith}
use motel.Prelude.Int.{ℤ, pos, leb_ℤ, ltb_ℤ, ◌≤ℤ◌}
use motel.Prelude.Results.{ok, reject, demand, >>-ok, >>=-ok, reject-ok}
use motel.Topology.Types.{Distribution}
use motel.Config.Text.{trim_space}
use motel.Config.Distributions.{
  bad_mean, mean_not_positive, bad_std_dev, negative_std_dev, is_required, mean_and_spread,
  parse_mean, parse_spread, parse_distribution, distribution_of,
}

module _ (parse_duration : String → Option ℤ) where
  parse_mean-positive :
      (text : String) (mean : ℤ)
      → parse_mean parse_duration text ≡ ok mean
      → leb_ℤ mean (pos 0) ≡ false
  unfolding parse_mean
  parse_mean-positive text mean h =
      let (z, _, rest) = >>=-ok (demand (parse_duration text) bad_mean) _ h in
      let (small, same) = >>-ok (reject (leb_ℤ z (pos 0)) mean_not_positive) _ rest in
      let positive = reject-ok (leb_ℤ z (pos 0)) mean_not_positive small in
      ground (arith, same, positive)

  parse_spread-nonneg :
      (text : String) (z : ℤ) → parse_spread parse_duration text ≡ ok z → pos 0 ≤ℤ z
  unfolding parse_spread
  parse_spread-nonneg text z h =
      let (x, _, rest) = >>=-ok (demand (parse_duration text) bad_std_dev) _ h in
      let (small, same) = >>-ok (reject (ltb_ℤ x (pos 0)) negative_std_dev) _ rest in
      let nonneg = reject-ok (ltb_ℤ x (pos 0)) negative_std_dev small in
      ground (arith, same, nonneg)

  distribution_of-IsUsable :
      (s : String) (parts : Option (String × String)) (d : Distribution)
      → distribution_of parse_duration s parts ≡ ok d
      → (leb_ℤ d.mean (pos 0) ≡ false) × (pos 0 ≤ℤ d.std_dev)
  unfolding distribution_of
  distribution_of-IsUsable s (some parts) d h =
      let (mean, m, rest) = >>=-ok (parse_mean parse_duration parts.0) _ h in
      let (z, v, same) = >>=-ok (parse_spread parse_duration parts.1) _ rest in
      let positive = parse_mean-positive parts.0 mean m in
      let nonneg = parse_spread-nonneg parts.1 z v in
      (ground (arith, same, positive), ground (arith, same, nonneg))
  distribution_of-IsUsable s none d h =
      let (mean, m, same) = >>=-ok (parse_mean parse_duration (trim_space s)) _ h in
      let positive = parse_mean-positive (trim_space s) mean m in
      (ground (arith, same, positive), ground (arith, same))

  -- A text that parses to a distribution gives a positive mean and a spread that is not negative.
  pub parse_distribution-IsUsable :
      (text : String) (d : Distribution)
      → parse_distribution parse_duration text ≡ ok d
      → (leb_ℤ d.mean (pos 0) ≡ false) × (pos 0 ≤ℤ d.std_dev)
  unfolding parse_distribution
  parse_distribution-IsUsable text d h =
      let (_, rest) = >>-ok (reject (str_eq (trim_space text) "") is_required) _ h in
      distribution_of-IsUsable (trim_space text) (mean_and_spread (trim_space text)) d rest
