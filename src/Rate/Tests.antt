-- ===== src/Rate/Tests.antt =====
-- Rates as users write them.
use motel.Prelude.{◌≡◌, refl, arith}
use motel.Prelude.Int.{pos}
use motel.Rate.{
  ok, failed, bad_format, too_large, not_positive, codes, parse_rate, parse_rate_codes,
}
use motel.Rate.RoundTrip.{rate_text, parse_rate_codes-text, IsInRange, parse_rate_codes-IsInRange}

ten_per_minute : parse_rate "10/Min" ≡ ok (record { count = 10; period = pos 60000000000 })
unfolding parse_rate
ten_per_minute = refl

rejected :
    (parse_rate "10" ≡ failed bad_format)
    × (parse_rate "10001/s" ≡ failed too_large)
    × (parse_rate "-3/s" ≡ failed not_positive)
unfolding parse_rate
rejected = (refl, refl, refl)

parse_rate_codes-text_example :
    parse_rate_codes (rate_text 250 (codes "sec"))
    ≡ ok (record { count = 250; period = pos 1000000000 })
unfolding parse_rate
parse_rate_codes-text_example =
    parse_rate_codes-text 250 (codes "sec") (pos 1000000000) (omega arith) (omega arith)
      (refl, (refl, (refl, tt))) refl

parse_rate_codes-IsInRange_example : IsInRange (record { count = 10; period = pos 60000000000 })
unfolding parse_rate
parse_rate_codes-IsInRange_example =
    parse_rate_codes-IsInRange (codes "10/min") (record { count = 10; period = pos 60000000000 })
      refl
