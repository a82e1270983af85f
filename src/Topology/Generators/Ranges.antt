-- ===== src/Topology/Generators/Ranges.antt =====
-- pkg/synth/attributes.go, RangeValue: the arithmetic of uint64 gives a value of the range.
use motel.Prelude.{
  ℕ, ◌+◌, ◌-◌, ◌<◌, ◌≡◌, ◌⊎◌, inl, inr, refl, String, [], ◌∷◌, none, some, ◌==◌, arith, Bool-cases,
}
use motel.Prelude.Int.{ℤ, pos, negsuc, pos_part, neg_part, ltb_ℤ, ◌≤ℤ◌, two_63, IsInt64}
use motel.Prelude.Results.{ok, >>-ok, reject-ok, reject}
use motel.Platform.{Platform, any_int64}
use motel.Topology.Generators.{
  range_span, value_in, reversed_range, Generator, range_value, new_range, generate_value,
}

-- A range has more than 2^64 - 1 values only if it holds every int64.
range_span-eq :
    (lo hi : ℤ)
    → IsInt64 lo
    → IsInt64 hi
    → lo ≤ℤ hi
    → (range_span lo hi ≡ 0) × (lo ≡ negsuc (two_63 - 1)) × (hi ≡ pos (two_63 - 1))
      ⊎ (pos_part hi + neg_part lo + 1 ≡ range_span lo hi + neg_part hi + pos_part lo)
unfolding range_span
range_span-eq lo hi l h le = ground arith

value_in_bounds :
    (lo hi : ℤ) (k : ℕ)
    → IsInt64 lo
    → IsInt64 hi
    → lo ≤ℤ hi
    → k < range_span lo hi
    → (lo ≤ℤ value_in lo k) × (value_in lo k ≤ℤ hi)
unfolding value_in range_span
value_in_bounds lo hi k l h le small = ground arith

-- The range of all int64, whose length is 0 in uint64.
abbrev pub IsEveryInt64 : ℤ → ℤ → Type 0
IsEveryInt64 lo hi = (lo ≡ negsuc (two_63 - 1)) × (hi ≡ pos (two_63 - 1))

module _ (p : Platform) (uint64_n : ℕ → p.Rng → ℕ × p.Rng) (numbered : String → ℤ → String) where
  open p use {Rng}

  -- A range of two int64 that is accepted makes a generator. If rand.Uint64N keeps below its bound,
  -- the generator panics on every draw where the range is that of all int64, and elsewhere gives an
  -- int64 of the range on every draw and keeps itself.
  pub new_range-InRange :
      (lo hi : ℤ) (gen : Generator p)
      → IsInt64 lo
      → IsInt64 hi
      → ((n : ℕ) (g : Rng) → 0 < n → (uint64_n n g).0 < n)
      → new_range p (lo ∷ hi ∷ []) ≡ ok gen
      → (IsEveryInt64 lo hi × ((g : Rng) → generate_value p uint64_n numbered gen g ≡ none))
        ⊎ ((g : Rng)
            → (v : ℤ) × (generate_value p uint64_n numbered gen g
                ≡ some (any_int64 v, gen, (uint64_n (range_span lo hi) g).1))
              × (lo ≤ℤ v)
              × (v ≤ℤ hi))
  unfolding new_range generate_value
  new_range-InRange lo hi gen l h law made =
      let (ordered, same) = >>-ok (reject (ltb_ℤ hi lo) reversed_range) _ made in
      let le : lo ≤ℤ hi = ground (arith, reject-ok (ltb_ℤ hi lo) reversed_range ordered) in
      let e : gen ≡ range_value lo hi = cc in
      elim (Bool-cases (range_span lo hi == 0)) [
        | inl z ↦
            inl (ground (arith, range_span-eq lo hi l h le, z), λ g. rw (e, generate_value, z) refl)
        | inr n ↦ inr (λ g.
            let small : (uint64_n (range_span lo hi) g).0 < range_span lo hi =
              law (range_span lo hi) g (ground (arith, n)) in
            let bounds = value_in_bounds lo hi (uint64_n (range_span lo hi) g).0 l h le small in
            (
              value_in lo (uint64_n (range_span lo hi) g).0,
              rw (e, generate_value, n) refl,
              bounds.0,
              bounds.1,
            ))
      ]
