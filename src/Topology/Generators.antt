-- ===== src/Topology/Generators.antt =====
-- pkg/synth/attributes.go: the generators of attribute values, and how they are made from a
-- configuration. fmt.Sprint and rand.Uint64N are parameters.
pub mod Ranges
pub mod Weights
mod Tests
use Prim.Native.String.{compare}
use Prim.Native.Nat.{Ordering}
use motel.Prelude.{
  ℕ, ◌+◌, ◌-◌, ◌%◌, Bool, true, false, not, ◌&&◌, ◌||◌, String, str_eq, List, [], ◌∷◌, Option, none,
  some, if◌then◌else◌, ◌==◌, length, get_elem?,
}
use motel.Prelude.Int.{ℤ, pos, negsuc, pos_part, ltb_ℤ, leb_ℤ, ◌+ℤ◌, wrap_64, two_64, of_bits}
use motel.Prelude.Results.{Result, ok, failed, ◌>>=◌, ◌>>◌, reject}
use motel.Platform.{Platform, Any, any_string, any_bool, any_int64, any_float64}

pub data GeneratorError : Type 0 where
  not_one_field bad_probability bad_range_length reversed_range negative_stddev : GeneratorError
  no_values bad_weight : GeneratorError

abbrev pub count_if : Bool → ℕ
count_if b = if b then 1 else 0

abbrev pub is_some {ℓ} : {A : Type ℓ} → Option A → Bool
is_some none = false
is_some (some a) = true

abbrev pub is_nonempty {ℓ} : {A : Type ℓ} → List A → Bool
is_nonempty [] = false
is_nonempty (x ∷ xs) = true

-- uint64(z): the low 64 bits.
abbrev pub bits : ℤ → ℕ
bits (pos n) = n % two_64
bits (negsuc n) = two_64 - 1 - n % two_64

-- The length of a range in uint64 arithmetic, which is 0 for the range of all int64.
unfoldable pub range_span : ℤ → ℤ → ℕ
range_span lo hi = (bits hi + two_64 - bits lo + 1) % two_64

-- The value at an offset into a range.
unfoldable pub value_in : ℤ → ℕ → ℤ
value_in lo k = of_bits ((bits lo + k) % two_64)

module _ (p : Platform) where
  open p use {fl, Rng, Other, float_64, norm_float_64, int_n}
  open fl use {F, lt, lit, add, mul}

  abbrev pub Value : Type 0
  Value = Any F Other

  pub record DistributionConfig : Type 0 where
    pub mean : F
    pub std_dev : F

  pub record AttributeValueConfig : Type 0 where
    pub value : Option Value
    pub values : List (Value × ℤ)
    pub sequence : String
    pub probability : Option F
    pub range : List ℤ
    pub distribution : Option DistributionConfig

  pub record WeightedChoice : Type 0 where
    pub choices : List Value
    pub cumul_weights : List ℤ
    pub total_weight : ℤ

  -- The implementations of AttributeGenerator. A sequence carries its counter.
  pub data Generator : Type 0 where
    static_value : Value → Generator
    weighted_choice : WeightedChoice → Generator
    sequence_value : String → ℤ → Generator
    bool_value : F → Generator
    range_value : ℤ → ℤ → Generator
    normal_value : F → F → Generator

  unfoldable pub is_static_attribute_config : AttributeValueConfig → Bool
  is_static_attribute_config cfg =
      is_some cfg.value
      && not (is_nonempty cfg.values)
      && str_eq cfg.sequence ""
      && not (is_some cfg.probability)
      && not (is_nonempty cfg.range)
      && not (is_some cfg.distribution)

  -- How many of the fields are set.
  unfoldable pub fields_set : AttributeValueConfig → ℕ
  fields_set cfg =
      count_if (is_some cfg.value)
      + count_if (is_nonempty cfg.values)
      + count_if (not (str_eq cfg.sequence ""))
      + count_if (is_some cfg.probability)
      + count_if (is_nonempty cfg.range)
      + count_if (is_some cfg.distribution)

  unfoldable pub new_range : List ℤ → Result GeneratorError Generator
  new_range (lo ∷ hi ∷ []) = do reject (ltb_ℤ hi lo) reversed_range; ok (range_value lo hi)
  new_range _ = failed bad_range_length

  module _ (sprint : Value → String) where
    -- A sort of the entries by their printed keys.
    unfoldable pub place_entry : Value × ℤ → List (Value × ℤ) → List (Value × ℤ)
    place_entry e [] = e ∷ []
    place_entry e (x ∷ xs) =
        let later = x ∷ place_entry e xs in
        elim (compare (sprint e.0) (sprint x.0)) [ Ordering.gt ↦ later | _ ↦ e ∷ x ∷ xs ]

    unfoldable pub sort_entries : List (Value × ℤ) → List (Value × ℤ)
    unfolding place_entry
    sort_entries [] = []
    sort_entries (e ∷ es) = place_entry e (sort_entries es)

    -- The loop over the sorted entries, with the total so far.
    unfoldable pub cumulate : ℤ → List (Value × ℤ) → Result GeneratorError WeightedChoice
    cumulate total [] = ok (record { choices = []; cumul_weights = []; total_weight = total })
    cumulate total (e ∷ es) =
        let rest = cumulate (wrap_64 (total +ℤ e.1)) es in
        do
          reject (leb_ℤ e.1 (pos 0)) bad_weight
          w ← rest
          ok (record {
            choices = e.0 ∷ w.choices;
            cumul_weights = wrap_64 (total +ℤ e.1) ∷ w.cumul_weights;
            total_weight = w.total_weight;
          })

    unfoldable pub new_weighted_choice : List (Value × ℤ) → Result GeneratorError WeightedChoice
    unfolding cumulate sort_entries
    new_weighted_choice values = do
      reject (not (is_nonempty values)) no_values
      cumulate (pos 0) (sort_entries values)

    -- The fields are read in the source's order: value, sequence, probability, range,
    -- distribution, and values last.
    unfoldable pub made_from : AttributeValueConfig → Result GeneratorError Generator
    unfolding new_range new_weighted_choice
    made_from cfg = elim cfg.value [
      | some v ↦ ok (static_value v)
      | none ↦
          if not (str_eq cfg.sequence "")
          then ok (sequence_value cfg.sequence (pos 0))
          else elim cfg.probability [
            | some x ↦ (do
              reject (lt x (lit 0 1) || lt (lit 1 1) x) bad_probability
              ok (bool_value x))
            | none ↦ if is_nonempty cfg.range then new_range cfg.range else elim cfg.distribution [
              | some d ↦ (do
                reject (lt d.std_dev (lit 0 1)) negative_stddev
                ok (normal_value d.mean d.std_dev))
              | none ↦ (do w ← new_weighted_choice cfg.values; ok (weighted_choice w))
            ]
          ]
    ]

    unfoldable pub new_attribute_generator : AttributeValueConfig → Result GeneratorError Generator
    unfolding fields_set made_from
    new_attribute_generator cfg = do reject (not (fields_set cfg == 1)) not_one_field; made_from cfg

  -- The first choice whose cumulative weight is above the draw, or the last choice.
  unfoldable pub choice_at : ℕ → List ℤ → List Value → Option Value
  choice_at r [] choices = none
  choice_at r (w ∷ ws) [] = none
  choice_at r (w ∷ ws) (c ∷ cs) = if ltb_ℤ (pos r) w then some c else choice_at r ws cs

  unfoldable pub pick : ℕ → WeightedChoice → Option Value
  unfolding choice_at
  pick r w = elim (choice_at r w.cumul_weights w.choices) [
    | some c ↦ some c
    | none ↦ get_elem? w.choices (length w.choices - 1)
  ]

  -- Generate, with the generator after it; `none` is a panic. `uint64_n` is rand.Uint64N, which
  -- panics at 0, and `numbered` puts a number for {n} into a pattern.
  module _ (uint64_n : ℕ → Rng → ℕ × Rng) (numbered : String → ℤ → String) where
    unfoldable pub generate_value : Generator → Rng → Option (Value × Generator × Rng)
    unfolding pick range_span value_in
    generate_value (static_value v) g = some (v, static_value v, g)
    generate_value (weighted_choice w) g =
        let (r, g') = int_n (pos_part w.total_weight) g in
        elim (pick r w) [ none ↦ none | some v ↦ some (v, weighted_choice w, g') ]
    generate_value (sequence_value pattern n) g =
        let n' = wrap_64 (n +ℤ pos 1) in
        some (any_string (numbered pattern n'), sequence_value pattern n', g)
    generate_value (bool_value x) g =
        let (r, g') = float_64 g in some (any_bool (lt r x), bool_value x, g')
    generate_value (range_value lo hi) g =
        let (k, g') = uint64_n (range_span lo hi) g in
        if range_span lo hi == 0
        then none
        else some (any_int64 (value_in lo k), range_value lo hi, g')
    generate_value (normal_value mean std_dev) g =
        let (x, g') = norm_float_64 g in
        some (any_float64 (add mean (mul x std_dev)), normal_value mean std_dev, g')
