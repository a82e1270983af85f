-- ===== src/Config/Distributions/Tests.antt =====
-- Distributions as users write them, and a way to print durations that is parsed again.
use Prim.Native.Char.{code}
use motel.Prelude.{
  ℕ, zero, suc, ◌≡◌, refl, true, false, String, Option, none, some, str_eq, if◌then◌else◌, arith,
  ◌==◌,
}
use motel.Prelude.Int.{ℤ, pos, negsuc, leb_ℤ, ◌≤ℤ◌}
use motel.Prelude.Results.{ok, failed}
use motel.Config.Text.{trim_space, is_empty, is_space}
use motel.Config.Distributions.{
  mean_not_positive, parse_mean, parse_spread, mean_and_spread, parse_distribution,
  distribution_text,
}
use motel.Config.Distributions.RoundTrip.{is_plain, parse_distribution-text}
use motel.Config.Distributions.Bounds.{parse_distribution-IsUsable}

abbrev milliseconds : String → Option ℤ
milliseconds text =
    if str_eq text "30ms"
    then some (pos 30)
    else if str_eq text "10ms"
    then some (pos 10)
    else if str_eq text "-1ms"
    then some (negsuc 0)
    else none

spread :
    (parse_distribution milliseconds " 30ms +/- 10ms "
      ≡ ok (record { mean = pos 30; std_dev = pos 10 }))
    × (parse_distribution milliseconds "30ms ± 10ms"
        ≡ ok (record { mean = pos 30; std_dev = pos 10 }))
    × (parse_distribution milliseconds "-1ms" ≡ failed mean_not_positive)
unfolding parse_distribution trim_space mean_and_spread parse_mean parse_spread
spread = (refl, refl, refl)

parse_distribution-IsUsable_example : (leb_ℤ (pos 30) (pos 0) ≡ false) × (pos 0 ≤ℤ pos 10)
parse_distribution-IsUsable_example =
    parse_distribution-IsUsable milliseconds " 30ms +/- 10ms "
      (record { mean = pos 30; std_dev = pos 10 }) (spread.0)

-- One stroke more than the number, after a sign for the negative ones.
strokes : ℕ → String
strokes zero = "i"
strokes (suc n) = String.◌∷◌ "i" (strokes n)

count_strokes : String → Option ℕ
count_strokes String.[] = none
count_strokes (String.◌∷◌ c s) = elim (count_strokes s) [ none ↦ some 0 | some n ↦ some (suc n) ]

print : ℤ → String
unfolding strokes
print (pos n) = strokes n
print (negsuc n) = String.◌∷◌ "-" (strokes n)

parse : String → Option ℤ
unfolding count_strokes
parse String.[] = none
parse (String.◌∷◌ c s) =
    if code c == b'-'
    then elim (count_strokes s) [ none ↦ none | some n ↦ some (negsuc n) ]
    else elim (count_strokes s) [ none ↦ some (pos 0) | some n ↦ some (pos (suc n)) ]

count_strokes-strokes : (n : ℕ) → count_strokes (strokes n) ≡ some n
unfolding count_strokes strokes
count_strokes-strokes zero = refl
count_strokes-strokes (suc n) = rw (count_strokes-strokes n) refl

parse-print : (z : ℤ) → parse (print z) ≡ some z
unfolding parse print
parse-print (pos zero) = refl
parse-print (pos (suc n)) = rw (count_strokes-strokes n) refl
parse-print (negsuc n) = rw (count_strokes-strokes n) refl

print-full : (z : ℤ) → is_empty (print z) ≡ false
unfolding print
print-full (pos zero) = refl
print-full (pos (suc n)) = refl
print-full (negsuc n) = refl

strokes-plain : (n : ℕ) → is_plain (strokes n) ≡ true
unfolding strokes is_space
strokes-plain zero = refl
strokes-plain (suc n) = strokes-plain n

print-plain : (z : ℤ) → is_plain (print z) ≡ true
unfolding print is_space
print-plain (pos n) = strokes-plain n
print-plain (negsuc n) = strokes-plain n

parse_distribution-text_example :
    parse_distribution parse (distribution_text print (record { mean = pos 3; std_dev = pos 2 }))
    ≡ ok (record { mean = pos 3; std_dev = pos 2 })
parse_distribution-text_example =
    parse_distribution-text parse print (record { mean = pos 3; std_dev = pos 2 })
      (λ z i. parse-print z) (λ z i. print-full z) (λ z i. print-plain z) refl (omega arith)
      (omega arith, omega arith) (omega arith, omega arith)
