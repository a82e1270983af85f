-- ===== src/Config/Text.antt =====
-- What pkg/synth/config.go and distribution.go use of the package strings.
use Prim.Native.Char.{Char, code}
use motel.Prelude.{
  ℕ, ◌-◌, Bool, true, false, ◌&&◌, ◌||◌, String, Option, none, some, leb, ◌==◌, if◌then◌else◌,
}

-- unicode.IsSpace.
unfoldable pub is_space : ℕ → Bool
is_space c =
    leb 9 c && leb c 13
    || c == 32
    || c == 133
    || c == 160
    || c == 5760
    || leb 8192 c && leb c 8202
    || c == 8232
    || c == 8233
    || c == 8239
    || c == 8287
    || c == 12288

unfoldable pub trim_left : String → String
unfolding is_space
trim_left String.[] = ""
trim_left (String.◌∷◌ c s) = if is_space (code c) then trim_left s else String.◌∷◌ c s

abbrev pub is_empty : String → Bool
is_empty String.[] = true
is_empty (String.◌∷◌ c s) = false

unfoldable pub trim_right : String → String
unfolding is_space
trim_right String.[] = ""
trim_right (String.◌∷◌ c s) =
    let rest = trim_right s in if is_space (code c) && is_empty rest then "" else String.◌∷◌ c rest

-- strings.TrimSpace.
unfoldable pub trim_space : String → String
unfolding trim_left trim_right
trim_space s = trim_left (trim_right s)

-- The rest after a prefix.
unfoldable pub strip_prefix : String → String → Option String
strip_prefix String.[] s = some s
strip_prefix (String.◌∷◌ x xs) String.[] = none
strip_prefix (String.◌∷◌ x xs) (String.◌∷◌ y ys) =
    if code x == code y then strip_prefix xs ys else none

abbrev pub prepended : Char → Option (String × String) → Option (String × String)
prepended c none = none
prepended c (some parts) = some (String.◌∷◌ c parts.0, parts.1)

-- strings.SplitN into two parts at a separator that is not empty.
unfoldable pub cut_at : String → String → Option (String × String)
unfolding strip_prefix
cut_at sep String.[] = none
cut_at sep (String.◌∷◌ c s) =
    let rest = cut_at sep s in
    elim (strip_prefix sep (String.◌∷◌ c s)) as (λ _. Option (String × String)) [
      | some after ↦ some ("", after)
      | none ↦ prepended c rest
    ]

-- strings.CutSuffix with "%".
unfoldable pub cut_percent : String → Option String
cut_percent String.[] = none
cut_percent (String.◌∷◌ c s) =
    let rest = cut_percent s in
    if code c == b'%' && is_empty s
    then some ""
    else elim rest as (λ _. Option String) [ none ↦ none | some t ↦ some (String.◌∷◌ c t) ]

-- strings.ToUpper on the code points whose upper case is an ASCII letter: a to z, the dotless i and
-- the long s. All others stay outside ASCII or are no letters.
unfoldable pub to_upper : ℕ → ℕ
to_upper c =
    if leb b'a' c && leb c b'z'
    then c - 32
    else if c == 305
    then b'I'
    else if c == 383
    then b'S'
    else c

-- Is this the name in upper case?
unfoldable pub is_upper_case_of : String → String → Bool
unfolding to_upper
is_upper_case_of String.[] String.[] = true
is_upper_case_of String.[] (String.◌∷◌ c s) = false
is_upper_case_of (String.◌∷◌ c s) String.[] = false
is_upper_case_of (String.◌∷◌ x xs) (String.◌∷◌ y ys) =
    code x == to_upper (code y) && is_upper_case_of xs ys
