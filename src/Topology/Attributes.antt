-- ===== src/Topology/Attributes.antt =====
-- pkg/synth/attributes.go: merging key-sorted attributes, and typed values (engine.go).
use Prim.Native.String.{compare}
use Prim.Native.Nat.{Ordering}
use motel.Prelude.{String, str_eq, List, [], ◌∷◌, Option, none, some, Dict, lookup, if◌then◌else◌}
use motel.Platform.{
  Platform, Any, any_string, any_bool, any_int, any_int64, any_float64, other, string_value,
  bool_value, int_value, float_value, KeyValue,
}
use motel.Topology.Types.{Attribute}
use motel.Topology.Baggage.{sorted_keys}

module _ (p : Platform) where
  open p use {fl, Rng, Gen, Other, sprint, generate}
  open fl use {F}

  -- The loop of `Merge` with the two tails appended: at equal keys the second list wins.
  unfoldable pub merge : List (Attribute p) → List (Attribute p) → List (Attribute p)
  merge [] over = over
  merge (a ∷ rest) [] = a ∷ rest
  merge (a ∷ rest) (o ∷ os) = elim (compare a.key o.key) [
    | Ordering.lt ↦ a ∷ merge rest (o ∷ os)
    | Ordering.gt ↦ o ∷ merge (a ∷ rest) os
    | Ordering.eq ↦ o ∷ merge rest os
  ]

  unfoldable pub typed_attribute : String → Any F Other → KeyValue F
  typed_attribute k (any_string v) = record { key = k; value = string_value v }
  typed_attribute k (any_bool v) = record { key = k; value = bool_value v }
  typed_attribute k (any_int v) = record { key = k; value = int_value v }
  typed_attribute k (any_int64 v) = record { key = k; value = int_value v }
  typed_attribute k (any_float64 v) = record { key = k; value = float_value v }
  typed_attribute k (other v) = record { key = k; value = string_value (sprint v) }

  -- Draws a value for each attribute, in order.
  unfoldable pub attribute_key_values : List (Attribute p) → Rng → List (KeyValue F) × Rng
  unfolding typed_attribute
  attribute_key_values [] g = ([], g)
  attribute_key_values (a ∷ rest) g =
      let (v, g') = generate a.gen g in
      let (kvs, g'') = attribute_key_values rest g' in (typed_attribute a.key v ∷ kvs, g'')

  -- The value generator of a key.
  unfoldable pub get : List (Attribute p) → String → Option Gen
  get [] key = none
  get (a ∷ rest) key = if str_eq a.key key then some a.gen else get rest key

  attributes_of : Dict Gen → List String → List (Attribute p)
  attributes_of m [] = []
  attributes_of m (k ∷ ks) =
      let rest = attributes_of m ks in
      elim (lookup k m) [ some gen ↦ record { key = k; gen = gen } ∷ rest | none ↦ rest ]

  unfoldable pub new_attributes : Dict Gen → List (Attribute p)
  unfolding attributes_of
  new_attributes m = attributes_of m (sorted_keys m)
