-- ===== src/Config/Distributions/RoundTrip.antt =====
-- pkg/synth/distribution.go: a distribution that is printed is parsed again.
use Prim.Native.Char.{Char, code}
use Prim.Native.String
use Prim.Native.String.append
use motel.Prelude.{
  ℕ, ◌≡◌, refl, sym, ap, ◌∙◌, Bool, true, false, not, ◌&&◌, ◌||◌, String, str_eq, eq_iff, Option,
  none, some, arith, Bool-cases, inl, inr, ◌==◌,
}
use motel.Prelude.Int.{ℤ, pos, leb_ℤ, ltb_ℤ, ◌≤ℤ◌, IsInt64}
use motel.Prelude.Results.{ok}
use motel.Topology.Types.{Distribution}
use motel.Config.Text.{trim_space, trim_left, trim_right, is_space, is_empty, cut_at, strip_prefix}
use motel.Config.Distributions.{
  mean_and_spread, parse_mean, parse_spread, parse_distribution, distribution_text,
}

-- A character that no printed duration has: white space and the signs of a spread.
abbrev pub is_foreign : ℕ → Bool
is_foreign c = is_space c || c == b'+' || c == 177

abbrev pub is_plain : String → Bool
is_plain String.[] = true
is_plain (String.◌∷◌ c s) = not (is_foreign (code c)) && is_plain s

and-false : (b : Bool) → (b && false) ≡ false
and-false true = refl
and-false false = refl

apart : (a b : ℕ) → is_foreign a ≡ true → is_foreign b ≡ false → (a == b) ≡ false
apart a b f g = elim (Bool-cases (a == b)) [
  | inr differ ↦ differ
  | inl same ↦ let e : a ≡ b = ground (arith, same) in let clash = ap is_foreign e in cc
]

trim_left-plain :
    (s t : String)
    → is_empty s ≡ false
    → is_plain s ≡ true
    → trim_left (String.◌++◌ s t) ≡ String.◌++◌ s t
unfolding trim_left
trim_left-plain String.[] t n h = cc
trim_left-plain (String.◌∷◌ c s) t n h =
    let inside : is_space (code c) ≡ false = ground (arith, h) in
    ap trim_left (append.cons c s t) ∙ rw (trim_left, inside) (sym (append.cons c s t))

trim_right-plain : (s : String) → is_plain s ≡ true → trim_right s ≡ s
unfolding trim_right
trim_right-plain String.[] h = refl
trim_right-plain (String.◌∷◌ c s) h =
    let inside : is_space (code c) ≡ false = ground (arith, h) in
    let rest = trim_right-plain s (ground (arith, h)) in rw (inside, rest) refl

append-empty : (s : String) → String.◌++◌ s "" ≡ s
append-empty String.[] = append.nil ""
append-empty (String.◌∷◌ c s) = append.cons c s "" ∙ ap (String.◌∷◌ c) (append-empty s)

trim_space-plain : (s : String) → is_plain s ≡ true → trim_space s ≡ s
unfolding trim_space
trim_space-plain String.[] h = refl
trim_space-plain (String.◌∷◌ c s) h =
    ap trim_left (trim_right-plain (String.◌∷◌ c s) h)
    ∙ ap trim_left (sym (append-empty (String.◌∷◌ c s)))
    ∙ trim_left-plain (String.◌∷◌ c s) "" refl h
    ∙ append-empty (String.◌∷◌ c s)

abbrev plus : String → String → String
plus s t = String.◌++◌ s t

nonempty-append : (s t : String) → is_empty t ≡ false → is_empty (plus s t) ≡ false
nonempty-append String.[] t h = ap is_empty (append.nil t) ∙ h
nonempty-append (String.◌∷◌ c s) t h = ap is_empty (append.cons c s t)

trim_right-append :
    (s t : String) → is_empty t ≡ false → trim_right t ≡ t → trim_right (plus s t) ≡ plus s t
unfolding trim_right
trim_right-append String.[] t n h = ap trim_right (append.nil t) ∙ h ∙ sym (append.nil t)
trim_right-append (String.◌∷◌ c s) t n h =
    let rest = trim_right-append s t n h in
    ap trim_right (append.cons c s t)
    ∙ rw (trim_right, rest, nonempty-append s t n)
        (rw (and-false (is_space (code c))) (sym (append.cons c s t)))

trim_right-space : (s : String) → is_plain s ≡ true → trim_right (plus s " ") ≡ s
unfolding trim_right
trim_right-space String.[] h = ap trim_right (append.nil " ")
trim_right-space (String.◌∷◌ c s) h =
    let inside : is_space (code c) ≡ false = ground (arith, h) in
    let rest = trim_right-space s (ground (arith, h)) in
    ap trim_right (append.cons c s " ") ∙ rw (trim_right, inside, rest) refl

-- A separator that begins with a foreign character is not in a plain text.
cut_at-none :
    (x : Char) (xs s : String)
    → is_foreign (code x) ≡ true
    → is_plain s ≡ true
    → cut_at (String.◌∷◌ x xs) s ≡ none
unfolding cut_at strip_prefix
cut_at-none x xs String.[] f h = refl
cut_at-none x xs (String.◌∷◌ c s) f h =
    let rest = cut_at-none x xs s f (ground (arith, h)) in
    let differ : (code x == code c) ≡ false = apart (code x) (code c) f (ground (arith, h)) in
    rw (cut_at, strip_prefix, differ, rest) refl

cut_at-plain :
    (x : Char) (xs s t a b : String)
    → is_foreign (code x) ≡ true
    → is_plain s ≡ true
    → cut_at (String.◌∷◌ x xs) t ≡ some (a, b)
    → cut_at (String.◌∷◌ x xs) (plus s t) ≡ some (plus s a, b)
unfolding cut_at strip_prefix
cut_at-plain x xs String.[] t a b f h found =
    ap (cut_at (String.◌∷◌ x xs)) (append.nil t)
    ∙ found
    ∙ ap (λ (u : String). some (u, b)) (sym (append.nil a))
cut_at-plain x xs (String.◌∷◌ c s) t a b f h found =
    let rest = cut_at-plain x xs s t a b f (ground (arith, h)) found in
    let differ : (code x == code c) ≡ false = apart (code x) (code c) f (ground (arith, h)) in
    ap (cut_at (String.◌∷◌ x xs)) (append.cons c s t)
    ∙ rw (cut_at, strip_prefix, differ, rest)
        (ap (λ (u : String). some (u, b)) (sym (append.cons c s a)))

spaced : (s : String) → plus " " s ≡ String.◌∷◌ " " s
spaced s = append.cons " " "" s ∙ ap (String.◌∷◌ " ") (append.nil s)

opened :
    (s : String)
    → plus " +/- " s
      ≡ String.◌∷◌ " " (String.◌∷◌ "+" (String.◌∷◌ "/" (String.◌∷◌ "-" (String.◌∷◌ " " s))))
opened s =
    append.cons " " "+/- " s
    ∙ ap (String.◌∷◌ " ") (
        append.cons "+" "/- " s
        ∙ ap (String.◌∷◌ "+") (
            append.cons "/" "- " s
            ∙ ap (String.◌∷◌ "/") (append.cons "-" " " s ∙ ap (String.◌∷◌ "-") (spaced s))))

-- The printed sign between a text before it and one after it.
cut_at-sign : (s : String) → cut_at "+/-" (plus " +/- " s) ≡ some (" ", plus " " s)
unfolding cut_at strip_prefix
cut_at-sign s = ap (cut_at "+/-") (opened s) ∙ ap (λ (u : String). some (" ", u)) (sym (spaced s))

sign-trimmed :
    (s : String)
    → is_empty s ≡ false
    → is_plain s ≡ true
    → trim_right (plus " +/- " s) ≡ plus " +/- " s
sign-trimmed s n h = trim_right-append " +/- " s n (trim_right-plain s h)

space-trimmed : (s : String) → is_empty s ≡ false → is_plain s ≡ true → trim_space (plus " " s) ≡ s
unfolding trim_space trim_left
space-trimmed s n h =
    ap trim_left (trim_right-append " " s n (trim_right-plain s h))
    ∙ ap trim_left (spaced s)
    ∙ ap trim_left (sym (append-empty s))
    ∙ trim_left-plain s "" n h
    ∙ append-empty s

full-str_eq : (s : String) → is_empty s ≡ false → str_eq s "" ≡ false
full-str_eq s n = elim (Bool-cases (str_eq s "")) [
  | inr differ ↦ differ
  | inl same ↦ let e = ap is_empty ((eq_iff s "").0 same) in cc
]

space-after : (s : String) → is_plain s ≡ true → trim_space (plus s " ") ≡ s
unfolding trim_space
space-after s p = ap trim_left (trim_right-space s p) ∙ left s p
  where
    left : (s : String) → is_plain s ≡ true → trim_left s ≡ s
    left String.[] p = refl
    left (String.◌∷◌ c s) p =
        ap trim_left (sym (append-empty (String.◌∷◌ c s)))
        ∙ trim_left-plain (String.◌∷◌ c s) "" refl p
        ∙ append-empty (String.◌∷◌ c s)

trimmed :
    (a b : String)
    → is_empty a ≡ false
    → is_plain a ≡ true
    → is_empty b ≡ false
    → is_plain b ≡ true
    → trim_space (plus a (plus " +/- " b)) ≡ plus a (plus " +/- " b)
unfolding trim_space
trimmed a b n p n' p' =
    ap trim_left
      (trim_right-append a (plus " +/- " b) (ap is_empty (opened b)) (sign-trimmed b n' p'))
    ∙ trim_left-plain a (plus " +/- " b) n p

-- The texts around the sign, trimmed.
mean_and_spread-text :
    (a b : String)
    → is_plain a ≡ true
    → is_empty b ≡ false
    → is_plain b ≡ true
    → mean_and_spread (plus a (plus " +/- " b)) ≡ some (a, b)
unfolding mean_and_spread
mean_and_spread-text a b p n q =
    let cut : cut_at "+/-" (plus a (plus " +/- " b)) ≡ some (plus a " ", plus " " b) =
      cut_at-plain "+" "/-" a (plus " +/- " b) " " (plus " " b) refl p (cut_at-sign b) in
    let left : trim_space (plus a " ") ≡ a = space-after a p in
    rw (mean_and_spread, cut, left, space-trimmed b n q) refl

mean_and_spread-plain : (a : String) → is_plain a ≡ true → mean_and_spread a ≡ none
unfolding mean_and_spread
mean_and_spread-plain a p =
    rw (mean_and_spread, cut_at-none "+" "/-" a refl p, cut_at-none "±" "" a refl p) refl

module _ (parse : String → Option ℤ) where
  parse_mean-ok :
      (a : String) (mean : ℤ)
      → parse a ≡ some mean
      → leb_ℤ mean (pos 0) ≡ false
      → parse_mean parse a ≡ ok mean
  unfolding parse_mean
  parse_mean-ok a mean e h = rw (parse_mean, e, h) refl

  parse_spread-ok :
      (a : String) (z : ℤ) → parse a ≡ some z → pos 0 ≤ℤ z → parse_spread parse a ≡ ok z
  unfolding parse_spread
  parse_spread-ok a z e h =
      let small : ltb_ℤ z (pos 0) ≡ false = ground arith in rw (parse_spread, e, small) refl

  parse_fixed :
      (a : String) (mean : ℤ)
      → is_empty a ≡ false
      → is_plain a ≡ true
      → parse a ≡ some mean
      → leb_ℤ mean (pos 0) ≡ false
      → parse_distribution parse a ≡ ok (record { mean = mean; std_dev = pos 0 })
  unfolding parse_distribution
  parse_fixed a mean n p e h =
      rw
        (
          parse_distribution,
          trim_space-plain a p,
          full-str_eq a n,
          mean_and_spread-plain a p,
          trim_space-plain a p,
          parse_mean-ok a mean e h,
        )
        refl

  parse_spread_text :
      (a b : String) (mean z : ℤ)
      → is_empty a ≡ false
      → is_plain a ≡ true
      → parse a ≡ some mean
      → leb_ℤ mean (pos 0) ≡ false
      → is_empty b ≡ false
      → is_plain b ≡ true
      → parse b ≡ some z
      → pos 0 ≤ℤ z
      → parse_distribution parse (plus a (plus " +/- " b))
        ≡ ok (record { mean = mean; std_dev = z })
  unfolding parse_distribution
  parse_spread_text a b mean z n p e h n' p' e' h' =
      let whole = plus a (plus " +/- " b) in
      rw
        (
          parse_distribution,
          trimmed a b n p n' p',
          full-str_eq whole (nonempty-append a (plus " +/- " b) (ap is_empty (opened b))),
          mean_and_spread-text a b p n' p',
          parse_mean-ok a mean e h,
          parse_spread-ok b z e' h',
        )
        refl

-- Where durations of int64 print as plain texts, which are not empty and parse to them again, the
-- text of a distribution with a positive mean and a spread that is not negative, both of int64,
-- parses to the distribution.
pub parse_distribution-text :
    (parse_duration : String → Option ℤ) (print_duration : ℤ → String) (d : Distribution)
    → ((z : ℤ) → IsInt64 z → parse_duration (print_duration z) ≡ some z)
    → ((z : ℤ) → IsInt64 z → is_empty (print_duration z) ≡ false)
    → ((z : ℤ) → IsInt64 z → is_plain (print_duration z) ≡ true)
    → leb_ℤ d.mean (pos 0) ≡ false
    → pos 0 ≤ℤ d.std_dev
    → IsInt64 d.mean
    → IsInt64 d.std_dev
    → parse_distribution parse_duration (distribution_text print_duration d) ≡ ok d
unfolding distribution_text
parse_distribution-text parse print d again full plain m s i j =
    elim (Bool-cases (leb_ℤ d.std_dev (pos 0))) [
      | inl fixed ↦
          let none_left : d.std_dev ≡ pos 0 = ground (arith, fixed, s) in
          ap (parse_distribution parse) (ground (arith, fixed, s))
          ∙ parse_fixed parse (print d.mean) d.mean (full d.mean i) (plain d.mean i)
              (again d.mean i) m
          ∙ cc
      | inr spread ↦
          ap (parse_distribution parse) (rw (distribution_text, spread) refl)
          ∙ parse_spread_text parse (print d.mean) (print d.std_dev) d.mean d.std_dev
              (full d.mean i) (plain d.mean i) (again d.mean i) m (full d.std_dev j)
              (plain d.std_dev j) (again d.std_dev j) s
    ]
