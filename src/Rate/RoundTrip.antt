-- ===== src/Rate/RoundTrip.antt =====
-- pkg/synth/rate.go: what is printed as a rate parses to it, and what parses is in range.
use motel.Prelude.{
  ℕ, zero, suc, ◌+◌, ◌/◌, ◌%◌, ◌≤◌, ◌<◌, ◌≡◌, refl, sym, ap, ◌∙◌, true, false, List, [], ◌∷◌, ◌++◌,
  Option, none, some, ltb, ◌==◌, if◌then◌else◌, All, arith, ◌⊎◌, Bool-cases, inl, inr,
}
use motel.Prelude.Int.{ℤ, pos, negsuc, two_63}
use motel.Rate.{
  Rate, ok, split, is_digit, decimal, digits_value, atoi, parse_rate_period, max_rate_count,
  rate_of, rate_of_parts, parse_rate_codes,
}

-- Decimal digits, in front of what follows.
unfoldable pub digits : ℕ → ℕ → List ℕ → List ℕ
digits zero n rest = (n % 10 + b'0') ∷ rest
digits (suc fuel) n rest =
    let more = digits fuel (n / 10) ((n % 10 + b'0') ∷ rest) in
    if ltb n 10 then (n + b'0') ∷ rest else more

decimal-digits :
    (fuel n : ℕ) (rest : List ℕ) → n ≤ fuel → decimal 0 (digits fuel n rest) ≡ decimal n rest
unfolding decimal digits
decimal-digits zero n rest h = ground arith
decimal-digits (suc fuel) n rest h = elim (Bool-cases (ltb n 10)) [
  | inl e ↦ rw (e, digits) (ground arith)
  | inr e ↦
      rw (e, digits)
        (decimal-digits fuel (n / 10) ((n % 10 + b'0') ∷ rest) (ground arith) ∙ ground arith)
]

abbrev pub AllDigits : List ℕ → Type 0
AllDigits = All (λ c. is_digit c ≡ true)

-- The digits of a number are there, and are digits.
digits-AllDigits :
    (fuel n : ℕ) (rest : List ℕ)
    → n ≤ fuel
    → AllDigits rest
    → (c : ℕ) × (cs : List ℕ) × (digits fuel n rest ≡ c ∷ cs) × AllDigits (c ∷ cs)
unfolding digits
digits-AllDigits zero n rest h all = (n % 10 + b'0', rest, refl, (ground arith, all))
digits-AllDigits (suc fuel) n rest h all = elim (Bool-cases (ltb n 10)) [
  | inl e ↦ (n + b'0', rest, rw (e, digits) refl, (ground arith, all))
  | inr e ↦
      let (c, cs, q, d) =
        digits-AllDigits fuel (n / 10) ((n % 10 + b'0') ∷ rest) (ground arith)
          (ground arith, all) in
      (c, cs, rw (e, digits) q, d)
]

split-append : (xs ys : List ℕ) → AllDigits xs → split (xs ++ (b'/' ∷ ys)) ≡ xs ∷ split ys
unfolding split
split-append [] ys h = refl
split-append (x ∷ xs) ys h = ground (arith, split-append xs ys h.1)

abbrev pub NoSlash : List ℕ → Type 0
NoSlash = All (λ c. (c == b'/') ≡ false)

split_one : (ys : List ℕ) → NoSlash ys → split ys ≡ ys ∷ []
unfolding split
split_one [] h = refl
split_one (y ∷ ys) h = ground (arith, split_one ys h.1)

atoi_digits :
    (c : ℕ) (cs : List ℕ) (n : ℕ)
    → is_digit c ≡ true
    → decimal 0 (c ∷ cs) ≡ some n
    → n < two_63
    → atoi (c ∷ cs) ≡ some (pos n)
unfolding atoi digits_value
atoi_digits c cs n d e h = rw e (ground arith)

-- What is printed of a count and a unit.
abbrev pub rate_text : ℕ → List ℕ → List ℕ
rate_text n unit = digits n n [] ++ (b'/' ∷ unit)

parts_of_text :
    (n : ℕ) (unit : List ℕ)
    → NoSlash unit
    → n < two_63
    → parse_rate_codes (rate_text n unit) ≡ rate_of (some (pos n)) unit
unfolding parse_rate_codes rate_of_parts
parts_of_text n unit u h =
    let (c, cs, e, d) = digits-AllDigits n n [] (omega arith) tt in
    let value : decimal 0 (c ∷ cs) ≡ some n =
      ap (decimal 0) (sym e) ∙ decimal-digits n n [] (omega arith) in
    rw (e, split-append (c ∷ cs) unit d, split_one unit u, atoi_digits c cs n d.0 value h) refl

-- Printing and parsing: a count from 1 to the maximum, in decimal, a slash, and any text without a
-- slash that is accepted as a unit, parse to that count and the period of the unit.
pub parse_rate_codes-text :
    (n : ℕ) (unit : List ℕ) (period : ℤ)
    → 0 < n
    → n ≤ max_rate_count
    → NoSlash unit
    → parse_rate_period unit ≡ ok period
    → parse_rate_codes (rate_text n unit) ≡ ok (record { count = n; period = period })
unfolding rate_of
parse_rate_codes-text n unit period low high u e =
    parts_of_text n unit u (omega arith) ∙ rw e (ground arith)

-- The periods that a unit may stand for: a second, a minute or an hour.
abbrev pub IsPeriod : ℤ → Type 0
IsPeriod z = (z ≡ pos 1000000000) ⊎ (z ≡ pos 60000000000) ⊎ (z ≡ pos 3600000000000)

parse_rate_period-IsPeriod : (unit : List ℕ) (z : ℤ) → parse_rate_period unit ≡ ok z → IsPeriod z
unfolding parse_rate_period
parse_rate_period-IsPeriod unit z e = ground arith

abbrev pub IsInRange : Rate → Type 0
IsInRange r = (0 < r.count) × (r.count ≤ max_rate_count) × IsPeriod r.period

with_count-IsInRange :
    (n : ℕ) (unit : List ℕ) (r : Rate)
    → 0 < n
    → n ≤ max_rate_count
    → rate_of (some (pos n)) unit ≡ ok r
    → IsInRange r
unfolding rate_of
with_count-IsInRange n unit r low high e = ground (arith, parse_rate_period-IsPeriod unit r.period)

rate_of-IsInRange : (o : Option ℤ) (unit : List ℕ) (r : Rate) → rate_of o unit ≡ ok r → IsInRange r
unfolding rate_of
rate_of-IsInRange none unit r e = cc
rate_of-IsInRange (some (negsuc n)) unit r e = cc
rate_of-IsInRange (some (pos n)) unit r e =
    ground (arith, with_count-IsInRange n unit r, parse_rate_period-IsPeriod unit r.period)

rate_of_parts-IsInRange :
    (parts : List (List ℕ)) (r : Rate) → rate_of_parts parts ≡ ok r → IsInRange r
unfolding rate_of_parts
rate_of_parts-IsInRange [] r e = cc
rate_of_parts-IsInRange (count ∷ []) r e = cc
rate_of_parts-IsInRange (count ∷ unit ∷ []) r e = rate_of-IsInRange (atoi count) unit r e
rate_of_parts-IsInRange (count ∷ unit ∷ more ∷ rest) r e = cc

-- Whatever text is accepted, its rate has a count from 1 to the maximum, and the period is a second,
-- a minute or an hour.
pub parse_rate_codes-IsInRange : (cs : List ℕ) (r : Rate) → parse_rate_codes cs ≡ ok r → IsInRange r
unfolding parse_rate_codes
parse_rate_codes-IsInRange [] r e = cc
parse_rate_codes-IsInRange (c ∷ cs) r e = rate_of_parts-IsInRange (split (c ∷ cs)) r e
