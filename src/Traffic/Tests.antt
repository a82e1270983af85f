-- ===== src/Traffic/Tests.antt =====
-- A bursty pattern with the default interval, and a custom pattern configured out of order. The
-- parser of durations knows three texts.
use motel.Prelude.{
  ◌+◌, ◌*◌, ◌≡◌, refl, String, str_eq, List, [], ◌∷◌, Option, none, some, if◌then◌else◌, arith,
}
use motel.Prelude.Int.{ℤ, pos, quot, ◌*ℤ◌}
use motel.Rate.{parse_rate}
use motel.Traffic.{
  BaseConfig, Bursty, Segment, ok, bursty_rate, new_bursty_pattern, new_custom_pattern, custom_rate,
  parse_segments,
}
use motel.Traffic.Segments.{custom_rate-nearest, nearest, rate_at}
use motel.Traffic.Bursts.{bursty_rate-cycle}
use motel.Fixture.{thousandths}

abbrev flat : ℤ → ℤ
flat x = pos 0

abbrev whole_seconds : ℤ → ℤ
whole_seconds d = quot d (pos 1000000)

abbrev durations : String → Option ℤ
durations s =
    if str_eq s "10s"
    then some (pos 10000000000)
    else if str_eq s "1m"
    then some (pos 60000000000)
    else none

abbrev config : BaseConfig thousandths flat (pos 3142) whole_seconds whole_seconds durations
config = record {
  rate = "10/s";
  pattern = "bursty";
  peak_multiplier = pos 0;
  trough_multiplier = pos 0;
  period = "";
  burst_multiplier = pos 0;
  burst_interval = "1m";
  burst_duration = "10s";
  segments = record { until = "1m"; rate = "20/s" } ∷ record { until = "10s"; rate = "30/s" } ∷ [];
}

abbrev burst : Bursty thousandths flat (pos 3142) whole_seconds whole_seconds durations
burst = record {
  base_rate = pos 10000;
  burst_multiplier = pos 5000;
  burst_interval = pos 60000000000;
  burst_duration = pos 10000000000;
}

burst_accepted :
    new_bursty_pattern thousandths flat
      (pos 3142)
      whole_seconds
      whole_seconds
      durations
      (pos 10000)
      config
    ≡ ok burst
unfolding new_bursty_pattern
burst_accepted = refl

bursty_rate-cycle_example :
    bursty_rate thousandths flat
      (pos 3142)
      whole_seconds
      whole_seconds
      durations
      burst
      (pos (3 * 60000000000 + 500))
    ≡ thousandths.mul (pos 10000) (pos 5000)
bursty_rate-cycle_example =
    bursty_rate-cycle thousandths flat (pos 3142) whole_seconds whole_seconds durations (pos 10000)
      config burst 60000000000 10000000000 3 500 burst_accepted refl refl (omega arith)

abbrev ordered : List (Segment thousandths flat (pos 3142) whole_seconds whole_seconds durations)
ordered =
    record { until = pos 10000000000; rate = pos 30000 }
    ∷ record { until = pos 60000000000; rate = pos 20000 }
    ∷ []

custom_accepted :
    new_custom_pattern thousandths flat
      (pos 3142)
      whole_seconds
      whole_seconds
      durations
      (pos 10000)
      config
    ≡ ok ordered
unfolding new_custom_pattern parse_rate quot ◌*ℤ◌
custom_accepted = refl

custom_rate-nearest_example :
    (parsed : List (Segment thousandths flat (pos 3142) whole_seconds whole_seconds durations))
    × (parse_segments thousandths flat
          (pos 3142)
          whole_seconds
          whole_seconds
          durations
          0
          config.segments
        ≡ ok parsed)
    × (custom_rate thousandths flat
          (pos 3142)
          whole_seconds
          whole_seconds
          durations
          (pos 10000)
          ordered
          (pos 500)
        ≡ rate_at thousandths flat (pos 3142) whole_seconds whole_seconds durations (pos 10000) (
            nearest thousandths flat
              (pos 3142)
              whole_seconds
              whole_seconds
              durations
              (pos 500)
              parsed))
custom_rate-nearest_example =
    custom_rate-nearest thousandths flat (pos 3142) whole_seconds whole_seconds durations
      (pos 10000) config ordered (pos 500) custom_accepted
