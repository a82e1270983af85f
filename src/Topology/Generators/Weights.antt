-- ===== src/Topology/Generators/Weights.antt =====
-- pkg/synth/attributes.go, WeightedChoice: a draw picks the entry in whose share of the total weight
-- it falls.
use motel.Prelude.{ℕ, ◌+◌, ◌-◌, List, [], ◌∷◌, Option, none, some, if◌then◌else◌, ltb}
use motel.Prelude.Int.{ℤ, pos_part}
use motel.Platform.{Platform}
use motel.Topology.Generators.{Value}

module _ (p : Platform) where
  -- The sum of the weights.
  abbrev pub weight_sum : List (Value p × ℤ) → ℕ
  weight_sum [] = 0
  weight_sum (e ∷ es) = pos_part e.1 + weight_sum es

  -- The entry in whose share the draw falls, the shares laid end to end.
  abbrev pub share_of : ℕ → List (Value p × ℤ) → Option (Value p)
  share_of r [] = none
  share_of r (e ∷ es) = if ltb r (pos_part e.1) then some e.0 else share_of (r - pos_part e.1) es
