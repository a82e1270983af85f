-- ===== src/Rate.antt =====
-- pkg/synth/rate.go: rates such as "10/s". Texts are lists of code points; what the code uses of
-- strings.Split, strconv.Atoi and strings.ToLower is written out.
pub mod RoundTrip
mod Tests
use Prim.Native.Char.{code}
use Prim.Native.String
use motel.Prelude.{
  ℕ, zero, suc, ◌+◌, ◌-◌, ◌*◌, Bool, true, false, ◌&&◌, ◌||◌, String, List, [], ◌∷◌, ◌++◌, Option,
  none, some, ltb, leb, ◌==◌, if◌then◌else◌,
}
use motel.Prelude.Int.{ℤ, pos, negsuc, leb_ℤ, ltb_ℤ, ◌-ℤ◌, two_63}

-- The errors of ParseRate, in the order of its tests.
pub data RateError : Type 0 where
  required bad_format bad_count not_positive too_large bad_unit : RateError

pub data RateResult (A : Type 0) : Type 0 where
  ok : A → RateResult A
  failed : RateError → RateResult A

pub record Rate : Type 0 where
  pub count : ℕ
  pub period : ℤ

abbrev pub codes : String → List ℕ
codes String.[] = []
codes (String.◌∷◌ c s) = code c ∷ codes s

-- strings.Split at a slash.
abbrev push : ℕ → List (List ℕ) → List (List ℕ)
push c [] = (c ∷ []) ∷ []
push c (part ∷ parts) = (c ∷ part) ∷ parts

unfoldable pub split : List ℕ → List (List ℕ)
split [] = [] ∷ []
split (c ∷ cs) = let parts = split cs in if c == b'/' then [] ∷ parts else push c parts

abbrev pub is_digit : ℕ → Bool
is_digit c = leb b'0' c && leb c b'9'

-- The value of a run of digits after the value `acc`.
unfoldable pub decimal : ℕ → List ℕ → Option ℕ
decimal acc [] = some acc
decimal acc (c ∷ cs) =
    let rest = decimal (acc * 10 + (c - b'0')) cs in if is_digit c then rest else none

unfoldable pub digits_value : List ℕ → Option ℕ
unfolding decimal
digits_value [] = none
digits_value (c ∷ cs) = decimal 0 (c ∷ cs)

abbrev negated : Option ℕ → Option ℤ
negated none = none
negated (some zero) = some (pos 0)
negated (some (suc n)) = if ltb n two_63 then some (negsuc n) else none

abbrev positive : Option ℕ → Option ℤ
positive none = none
positive (some n) = if ltb n two_63 then some (pos n) else none

-- strconv.Atoi: an optional sign, digits, and the range of int64.
unfoldable pub atoi : List ℕ → Option ℤ
unfolding digits_value
atoi [] = none
atoi (c ∷ cs) =
    if c == b'-'
    then negated (digits_value cs)
    else if c == b'+'
    then positive (digits_value cs)
    else positive (digits_value (c ∷ cs))

-- strings.ToLower on the code points whose lower case is an ASCII letter: A to Z, the dotted I and
-- the Kelvin sign. All others stay outside ASCII.
unfoldable pub to_lower : ℕ → ℕ
to_lower c =
    if leb b'A' c && leb c b'Z'
    then c + 32
    else if c == 304
    then b'i'
    else if c == 8490
    then b'k'
    else c

unfoldable pub lower_all : List ℕ → List ℕ
unfolding to_lower
lower_all [] = []
lower_all (c ∷ cs) = to_lower c ∷ lower_all cs

unfoldable pub same_codes : List ℕ → List ℕ → Bool
same_codes [] [] = true
same_codes [] (y ∷ ys) = false
same_codes (x ∷ xs) [] = false
same_codes (x ∷ xs) (y ∷ ys) = x == y && same_codes xs ys

unfoldable pub one_of : List ℕ → List String → Bool
unfolding same_codes
one_of cs [] = false
one_of cs (s ∷ ss) = same_codes cs (codes s) || one_of cs ss

abbrev pub second_names : List String
second_names = "s" ∷ "sec" ∷ "second" ∷ "seconds" ∷ []

abbrev pub minute_names : List String
minute_names = "m" ∷ "min" ∷ "minute" ∷ "minutes" ∷ []

abbrev pub hour_names : List String
hour_names = "h" ∷ "hour" ∷ "hours" ∷ []

unfoldable pub parse_rate_period : List ℕ → RateResult ℤ
unfolding lower_all one_of
parse_rate_period unit =
    let u = lower_all unit in
    if one_of u second_names
    then ok (pos 1000000000)
    else if one_of u minute_names
    then ok (pos 60000000000)
    else if one_of u hour_names
    then ok (pos 3600000000000)
    else failed bad_unit

abbrev pub max_rate_count : ℕ
max_rate_count = 10000

abbrev with_count : ℕ → RateResult ℤ → RateResult Rate
with_count n (ok period) = ok (record { count = n; period = period })
with_count n (failed e) = failed e

-- The tests of the count, and then the unit.
unfoldable pub rate_of : Option ℤ → List ℕ → RateResult Rate
unfolding parse_rate_period
rate_of none unit = failed bad_count
rate_of (some (negsuc n)) unit = failed not_positive
rate_of (some (pos n)) unit =
    if n == 0
    then failed not_positive
    else if ltb max_rate_count n
    then failed too_large
    else with_count n (parse_rate_period unit)

unfoldable pub rate_of_parts : List (List ℕ) → RateResult Rate
unfolding atoi rate_of
rate_of_parts (count ∷ unit ∷ []) = rate_of (atoi count) unit
rate_of_parts _ = failed bad_format

unfoldable pub parse_rate_codes : List ℕ → RateResult Rate
unfolding split rate_of_parts
parse_rate_codes [] = failed required
parse_rate_codes (c ∷ cs) = rate_of_parts (split (c ∷ cs))

unfoldable pub parse_rate : String → RateResult Rate
unfolding parse_rate_codes
parse_rate s = parse_rate_codes (codes s)
