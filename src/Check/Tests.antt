-- ===== src/Check/Tests.antt =====
-- MaxSpans on the topology of the fixture.
use motel.Prelude.{
  ℕ, zero, suc, ◌≤◌, ◌⊎◌, ◌↔◌, ◌≡◌, refl, String, [], ◌∷◌, some, none, lookup, arith,
}
use motel.Prelude.Int.{pos, negsuc, quot, wrap_64, ◌-ℤ◌, ◌*ℤ◌, ◌+ℤ◌}
use motel.Topology.Calls.{ref_of, effective_calls}
use motel.Check.Spans.{max_spans_with, recall, add_call, fan_for_call, clamp}
use motel.Check.Spans.Exact.{max_spans_exact, Attains}
use motel.Check.FanOut
use motel.Check.FanOut.{children, AllListed, AnyListed, max_fan_out_with, max_fan_out_with-worst}
use motel.Topology.Acyclic.{callees}
use motel.Check.Depth.{max_depth_with}
use motel.Check.Thresholds.{CheckThresholds, validate, AreNonNegative, validate-IsNonNegative}
use motel.Fixture.{counting, shop, height, most, shop-IsRanked, shop-IsWorst, shop-IsBounded}

max_spans_exact_example :
    (ref : String) × (max_spans_with counting shop [] 2 ≡ some (pos 5, ref))
    × Attains counting shop [] height most shop-IsRanked shop-IsWorst (0 ∷ []) 5 ref 0 ""
max_spans_exact_example =
    max_spans_exact counting shop [] height most shop-IsRanked shop-IsWorst 2 shop-IsBounded
      (omega arith, tt)

-- The gateway, and twice two attempts of the store.
shop_max_spans : max_spans_with counting shop [] 2 ≡ some (pos 5, "gateway.get")
unfolding max_spans_with recall effective_calls lookup add_call clamp quot wrap_64 ◌-ℤ◌ fan_for_call
    ◌*ℤ◌ ◌+ℤ◌
shop_max_spans = refl

-- Too little fuel is reported as such.
shop_shallow : max_spans_with counting shop [] 1 ≡ none
unfolding max_spans_with recall effective_calls lookup
shop_shallow = refl

shop-IsRoomy : (op : ℕ) → FanOut.IsRoomy counting shop [] (callees counting shop [] op)
unfolding effective_calls lookup
shop-IsRoomy zero = record { small = ((omega arith, omega arith), tt); total = omega arith }
shop-IsRoomy (suc n) = record { small = tt; total = omega arith }

max_fan_out_with-worst_example :
    (m : ℕ) × ((max_fan_out_with counting shop []).0 ≡ pos m)
    × AllListed counting shop [] (λ op. children counting shop [] (callees counting shop [] op) ≤ m)
    × (((m ≡ 0) × ((max_fan_out_with counting shop []).1 ≡ ""))
        ⊎ AnyListed counting shop [] (λ op.
          (children counting shop [] (callees counting shop [] op) ≡ m)
          × (ref_of counting shop op ≡ (max_fan_out_with counting shop []).1)))
max_fan_out_with-worst_example = max_fan_out_with-worst counting shop [] shop-IsRoomy

abbrev some_limits : CheckThresholds
some_limits = record {
  max_depth = none;
  max_fan_out = none;
  max_spans = some (pos 5);
  p50_depth = none;
  p95_depth = none;
  p99_depth = none;
  p50_fan_out = none;
  p95_fan_out = none;
  p99_fan_out = some (negsuc 0);
  p50_spans = none;
  p95_spans = none;
  p99_spans = none;
}

validate-IsNonNegative_example : (validate some_limits ≡ none) ↔ AreNonNegative some_limits
validate-IsNonNegative_example = validate-IsNonNegative some_limits

negative_p99 : validate some_limits ≡ some "checks.p99_fan_out must be non-negative"
unfolding validate
negative_p99 = refl

shop_max_depth :
    max_depth_with counting shop [] 2
    ≡ some (record { depth = 1; path = "gateway.get" ∷ "store.read" ∷ [] })
unfolding max_depth_with recall effective_calls lookup
shop_max_depth = refl
