-- ===== src/Topology/Generators/Tests.antt =====
-- Generators that are made and run.
use motel.Prelude.{
  ℕ, suc, ◌-◌, ◌≡◌, ◌<◌, ◌⊎◌, refl, String, List, [], ◌∷◌, none, some, if◌then◌else◌, ltb, arith,
}
use motel.Prelude.Int.{ℤ, pos, negsuc, ◌≤ℤ◌, two_63}
use motel.Prelude.Results.{ok}
use motel.Platform.{Any, any_int64, any_string}
use motel.Topology.Generators.{WeightedChoice, range_value, range_span, new_range, generate_value}
use motel.Topology.Generators.Ranges.{IsEveryInt64, new_range-InRange}
use motel.Fixture.{counting}

-- A draw below the bound.
abbrev clipped : ℕ → ℕ → ℕ × ℕ
clipped n g = (if ltb g n then g else n - 1, suc g)

abbrev numbered : String → ℤ → String
numbered pattern n = pattern

minus_two_to_three :
    generate_value counting clipped numbered (range_value (negsuc 1) (pos 3)) 4
    ≡ some (any_int64 (pos 2), range_value (negsuc 1) (pos 3), 5)
unfolding generate_value
minus_two_to_three = refl

-- The range of all int64 is accepted, and its first draw panics.
every_int64 :
    (new_range counting (negsuc (two_63 - 1) ∷ pos (two_63 - 1) ∷ [])
      ≡ ok (range_value (negsuc (two_63 - 1)) (pos (two_63 - 1))))
    × (generate_value counting clipped numbered
          (range_value (negsuc (two_63 - 1)) (pos (two_63 - 1)))
          4
        ≡ none)
unfolding new_range generate_value
every_int64 = (refl, refl)

clipped-lt : (n g : ℕ) → 0 < n → (clipped n g).0 < n
clipped-lt n g h = ground arith

new_range-InRange_example :
    (IsEveryInt64 (negsuc 1) (pos 3)
      × ((g : ℕ)
          → generate_value counting clipped numbered (range_value (negsuc 1) (pos 3)) g ≡ none))
    ⊎ ((g : ℕ)
        → (v : ℤ) × (generate_value counting clipped numbered (range_value (negsuc 1) (pos 3)) g
            ≡ some (
              any_int64 v,
              range_value (negsuc 1) (pos 3),
              (clipped (range_span (negsuc 1) (pos 3)) g).1,
            ))
          × (negsuc 1 ≤ℤ v)
          × (v ≤ℤ pos 3))
unfolding new_range
new_range-InRange_example =
    new_range-InRange counting clipped numbered (negsuc 1) (pos 3) (range_value (negsuc 1) (pos 3))
      (omega arith) (omega arith) clipped-lt refl

abbrev colours : List (Any ℤ Unit × ℤ)
colours = (any_string "red", pos 2) ∷ (any_string "blue", pos 3) ∷ []

abbrev colour_choice : WeightedChoice counting
colour_choice = record {
  choices = any_string "red" ∷ any_string "blue" ∷ [];
  cumul_weights = pos 2 ∷ pos 5 ∷ [];
  total_weight = pos 5;
}
