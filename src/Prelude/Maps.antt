-- ===== src/Prelude/Maps.antt =====
-- Go maps with string keys as association lists. A lookup finds the first entry; an insertion
-- replaces it, or adds one at the end. A `range` over a map visits the list's order, which
-- stands for one of the orders that Go may choose.
use Prim.Native.String.{String}
use text.Mathlib.Text.{◌==◌ as str_eq}
use text.Mathlib.TextEquality.{eq_iff}
use mathlib.Core.Path.{◌≡◌, refl, ap, sym, subst, ◌∙◌}
use mathlib.Core.Bool.{Bool, true, false}
use mathlib.Core.List.{List, [], ◌∷◌}
use mathlib.Core.Option.{Option, none, some, none-ne-some, some-injective}
use mathlib.Core.Logic.{inl, inr}
use native.Mathlib.Omega.{arith}
use motel.Prelude.Tests.{if◌then◌else◌, Bool-cases}

abbrev pub Dict {ℓ} : Type ℓ → Type ℓ
Dict V = List (String × V)

module _ {ℓ} {V : Type ℓ} where
  unfoldable pub lookup : String → Dict V → Option V
  lookup wanted [] = none
  lookup wanted (entry ∷ entries) =
      if str_eq entry.0 wanted then some entry.1 else lookup wanted entries

  unfoldable pub insert : String → V → Dict V → Dict V
  insert key value [] = (key, value) ∷ []
  insert key value (entry ∷ entries) =
      let kept = entry ∷ insert key value entries in
      if str_eq entry.0 key then (entry.0, value) ∷ entries else kept

  -- An insertion at a key is seen at that key and nowhere else.
  pub lookup-insert :
      (entries : Dict V) (key wanted : String) (value : V)
      → lookup wanted (insert key value entries)
        ≡ (if str_eq key wanted then some value else lookup wanted entries)
  unfolding insert lookup
  lookup-insert [] key wanted value = refl
  lookup-insert (entry ∷ entries) key wanted value = ground (
    arith,
    lookup-insert entries key wanted value,
    eq_iff entry.0 wanted,
    eq_iff entry.0 key,
    eq_iff key wanted,
  )

  -- The keys of a Go map are distinct.
  abbrev pub IsMap : Dict V → Type ℓ
  IsMap [] = Unit
  IsMap (entry ∷ entries) = (lookup entry.0 entries ≡ none) × IsMap entries

  pub insert-IsMap :
      (entries : Dict V) (key : String) (value : V)
      → IsMap entries
      → IsMap (insert key value entries)
  unfolding insert lookup
  insert-IsMap [] key value h = (refl, tt)
  insert-IsMap (entry ∷ entries) key value h =
      let rest = insert-IsMap entries key value h.1 in
      let other = lookup-insert entries key entry.0 value in
      ground (arith, eq_iff entry.0 key, eq_iff key entry.0, other)

  abbrev pub has : String → Dict V → Bool
  has k m = elim (lookup k m) [ some v ↦ true | none ↦ false ]

  -- Every value satisfies the predicate.
  abbrev pub AllValues {κ} : (V → Type κ) → Dict V → Type κ
  AllValues P [] = Unit
  AllValues P (entry ∷ entries) = P entry.1 × AllValues P entries

  pub insert-AllValues {κ} :
      (P : V → Type κ) (entries : Dict V) (key : String) (value : V)
      → P value
      → AllValues P entries
      → AllValues P (insert key value entries)
  unfolding insert
  insert-AllValues P [] key value h k = (h, tt)
  insert-AllValues P (entry ∷ entries) key value h k =
      let rest = insert-AllValues P entries key value h k.1 in
      elim (str_eq entry.0 key)
        as (λ b.
          AllValues P
            (if b then (entry.0, value) ∷ entries else entry ∷ insert key value entries)) [
              | true ↦ (h, k.1)
              | false ↦ (k.0, rest)
            ]

  pub lookup-AllValues {κ} :
      (P : V → Type κ) (entries : Dict V) (key : String) (value : V)
      → AllValues P entries
      → lookup key entries ≡ some value
      → P value
  unfolding lookup
  lookup-AllValues P [] key value h e = absurd (none-ne-some value e)
  lookup-AllValues P (entry ∷ entries) key value h e = elim (Bool-cases (str_eq entry.0 key)) [
    | inl q ↦ subst P (some-injective entry.1 value (ground (arith, q, e))) h.0
    | inr q ↦ lookup-AllValues P entries key value h.1 (ground (arith, q, e))
  ]

-- `for k, w := range entries { m[k] = join(m[k], w) }`.
unfoldable pub update_all {ℓ κ} :
    {V : Type ℓ} {W : Type κ} → (Option V → W → V) → Dict W → Dict V → Dict V
update_all join [] m = m
update_all join ((k, w) ∷ entries) m = update_all join entries (insert k (join (lookup k m) w) m)

abbrev pub joined {ℓ κ} :
    {V : Type ℓ} {W : Type κ} → (Option V → W → V) → Option V → Option W → Option V
joined join old none = old
joined join old (some w) = some (join old w)

-- The keys are updated independently.
pub lookup-update_all {ℓ κ} :
    {V : Type ℓ} {W : Type κ} (join : Option V → W → V) (key : String) (entries : Dict W)
    (m : Dict V)
    → IsMap entries
    → lookup key (update_all join entries m) ≡ joined join (lookup key m) (lookup key entries)
unfolding update_all lookup
lookup-update_all join key [] m h = refl
lookup-update_all join key ((k, w) ∷ entries) m h =
    let rest = lookup-update_all join key entries (insert k (join (lookup k m) w) m) h.1 in
    let there = lookup-insert m k key (join (lookup k m) w) in
    elim (Bool-cases (str_eq k key)) [
      | inl q ↦
          let e = (eq_iff k key).0 q in
          let gone = sym (ap (λ x. lookup x entries) e) ∙ h.0 in
          let mine = there ∙ rw q refl in
          rw q (
            rest
            ∙ ap (joined join (lookup key (insert k (join (lookup k m) w) m))) gone
            ∙ mine
            ∙ ap (λ x. some (join (lookup x m) w)) e)
      | inr q ↦ rw q (rest ∙ ap (λ o. joined join o (lookup key entries)) (there ∙ rw q refl))
    ]
