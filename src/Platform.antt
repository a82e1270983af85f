-- ===== src/Platform.antt =====
-- What the generator takes from outside its own code: float64 arithmetic, the random source, the
-- attribute generators behind their interface, and the OpenTelemetry tracer and baggage packages.
-- Laws are stated here by name and asked for by the theorems that need them.
use motel.Prelude.{ℕ, ◌≡◌, Bool, false, String, List, Option}
use motel.Prelude.Int.{ℤ}

-- float64 with the operations that the source applies. `lit n d` is the constant n / d;
-- `min_of` is the builtin min;
-- `of_int` and `to_int` are the conversions float64(d) and time.Duration(x).
pub record Float64 : Type 1 where
  pub F : Type 0
  pub lt : F → F → Bool
  pub le : F → F → Bool
  pub add : F → F → F
  pub sub : F → F → F
  pub mul : F → F → F
  pub div : F → F → F
  pub min_of : F → F → F
  pub lit : ℕ → ℕ → F
  pub of_int : ℤ → F
  pub to_int : F → ℤ

-- What IEEE 754 says of the order at the constants that the code compares with.
pub record IsOrdered (fl : Float64) : Type 0 where
  pub lt_irrefl : (x : fl.F) → fl.lt x x ≡ false
  pub one_lt_ten : fl.lt (fl.lit 10 1) (fl.lit 1 1) ≡ false
  pub zero_lt_one : fl.le (fl.lit 1 1) (fl.lit 0 1) ≡ false
  pub zero_lt_ten : fl.le (fl.lit 10 1) (fl.lit 0 1) ≡ false

-- The values of an attribute: attribute.String, Bool, Int and Int64, Float64, StringSlice.
pub data AttributeValue (F : Type 0) : Type 0 where
  string_value : String → AttributeValue F
  bool_value : Bool → AttributeValue F
  int_value : ℤ → AttributeValue F
  float_value : F → AttributeValue F
  strings_value : List String → AttributeValue F

-- A Go value of type `any`, as a generator returns it; `other` is any type beyond the five.
pub data Any (F Other : Type 0) : Type 0 where
  any_string : String → Any F Other
  any_bool : Bool → Any F Other
  any_int : ℤ → Any F Other
  any_int64 : ℤ → Any F Other
  any_float64 : F → Any F Other
  other : Other → Any F Other

pub data SpanKind : Type 0 where
  span_kind_server span_kind_producer span_kind_consumer span_kind_internal span_kind_client :
      SpanKind

pub record KeyValue (F : Type 0) : Type 0 where
  pub key : String
  pub value : AttributeValue F

pub record Platform : Type 1 where
  pub fl : Float64
  -- math/rand/v2, and the attribute generators' own counters with it.
  pub Rng : Type 0
  pub float_64 : Rng → fl.F × Rng
  pub norm_float_64 : Rng → fl.F × Rng
  pub int_n : ℕ → Rng → ℕ × Rng
  -- The interface AttributeGenerator.
  pub Gen : Type 0
  pub Other : Type 0
  pub sprint : Other → String
  pub generate : Gen → Rng → Any fl.F Other × Rng
  -- go.opentelemetry.io/otel/trace: `start_span` is Tracer.Start for a service's tracer, from the
  -- parent's span context.
  pub Provider : Type 0
  pub SpanContext : Type 0
  pub start_span :
      String
      → Option SpanContext
      → String
      → ℤ
      → SpanKind
      → List (KeyValue fl.F)
      → List (SpanContext × List (KeyValue fl.F))
      → Provider
      → SpanContext × Provider
  -- go.opentelemetry.io/otel/baggage.
  pub Bag : Type 0
  pub Member : Type 0
  pub new_member_raw : String → String → Option Member
  pub new_bag : List Member → Bag
  pub members : Bag → List Member
  pub member_key : Member → String
  pub member_value : Member → String
