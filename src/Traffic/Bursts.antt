-- ===== src/Traffic/Bursts.antt =====
-- pkg/synth/traffic.go: which bursts a configuration may have, and when they happen.
use motel.Prelude.{ℕ, ◌+◌, ◌*◌, ◌%◌, ◌<◌, ◌≡◌, true, String, Option, ltb, if◌then◌else◌, arith}
use motel.Prelude.Int.{ℤ, pos, ltb_ℤ}
use native.Mathlib.Nat.{mul-add-mod_self_right}
use motel.Platform.{Float64}
use motel.Traffic.{BaseConfig, ok, Bursty, bursty_rate, rem, new_bursty_pattern}

module _ (fl : Float64) (sin : fl.F → fl.F) (pi : fl.F) (hours seconds : ℤ → fl.F)
    (parse_duration : String → Option ℤ) where
  open fl use {F, mul}

  -- An accepted bursty pattern keeps the base rate, and its bursts are of positive length and
  -- shorter than the interval between them.
  new_bursty_pattern_bounds :
      (base : F) (cfg : BaseConfig fl sin pi hours seconds parse_duration)
      (b : Bursty fl sin pi hours seconds parse_duration)
      → new_bursty_pattern fl sin pi hours seconds parse_duration base cfg ≡ ok b
      → (b.base_rate ≡ base)
        × (ltb_ℤ (pos 0) b.burst_duration ≡ true)
        × (ltb_ℤ b.burst_duration b.burst_interval ≡ true)
  unfolding new_bursty_pattern
  new_bursty_pattern_bounds base cfg b h = ground arith

  -- For an accepted bursty pattern the rate repeats: in every interval it is the burst rate for the length of a burst,
  -- and then the base rate to the end of the interval.
  pub bursty_rate-cycle :
      (base : F) (cfg : BaseConfig fl sin pi hours seconds parse_duration)
      (b : Bursty fl sin pi hours seconds parse_duration) (interval duration cycle at : ℕ)
      → new_bursty_pattern fl sin pi hours seconds parse_duration base cfg ≡ ok b
      → b.burst_interval ≡ pos interval
      → b.burst_duration ≡ pos duration
      → at < interval
      → bursty_rate fl sin pi hours seconds parse_duration b (pos (cycle * interval + at))
        ≡ (if ltb at duration then mul base b.burst_multiplier else base)
  unfolding bursty_rate rem
  bursty_rate-cycle base cfg b interval duration cycle at h i d l =
      let position : (cycle * interval + at) % interval ≡ at =
        grind (arith, mul-add-mod_self_right) in
      rw (i, d, (new_bursty_pattern_bounds base cfg b h).0, position) (ground arith)
