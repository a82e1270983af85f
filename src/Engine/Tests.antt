-- ===== src/Engine/Tests.antt =====
-- Runs of walkTrace on the topology of the fixture.
use motel.Prelude.{
  length, ℕ, ◌+◌, ◌*◌, ◌≤◌, ◌≡◌, refl, [], false, String, Option, some, none, lookup, arith, inl,
  min,
}
use motel.Prelude.Int.{pos}
use motel.Check.Spans.{max_spans_cap, max_spans_with}
use motel.Swarm.{forced_choice}
use motel.Topology.Calls.{effective_calls, effective_error_rate}
use motel.Topology.Attributes.{attribute_key_values}
use motel.Engine.World.{Outcome, sample}
use motel.Engine.Loops.{
  gate, run_calls, active_calls, skipped, fires, attempts, own_error, effective_attributes,
  effective_duration, leave,
}
use motel.Engine.Walk.{walk_trace}
use motel.Engine.Budget.{walk_trace_within_limit, walk_trace-max_spans}
use motel.Engine.Plan.{plan_trace}
use motel.Engine.PlanTotals.{plan_trace_within_limit}
use motel.Fixture.{
  counting, shop, shop_engine, start_world, start_ctx, height, most, shop-IsRanked, shop-IsWorst,
  shop-IsBounded,
}

walk_trace_within_limit_example :
    (o : Outcome counting) × (walk_trace counting shop_engine
        (pos 0)
        []
        []
        11
        start_ctx
        0
        none
        (pos 0)
        false
        false
        start_world
      ≡ some o)
    × (o.world.span_count ≤ 10)
    × (o.world.stats.spans + 0 ≡ 0 + o.world.span_count)
    × (0 ≤ o.world.span_count)
    × (0 ≤ o.world.stats.errors)
    × (o.world.stats.errors + 0 ≤ 0 + o.world.stats.spans)
walk_trace_within_limit_example =
    walk_trace_within_limit counting shop_engine [] (pos 0) [] 11 start_ctx 0 none (pos 0) false
      false start_world (omega arith) (omega arith)

walk_trace-max_spans_example :
    (m : ℕ) × (ref : String) × (o : Outcome counting) × (max_spans_with counting shop [] 2
      ≡ some (pos m, ref))
    × (walk_trace counting shop_engine
          (pos 0)
          []
          []
          11
          start_ctx
          0
          none
          (pos 0)
          false
          false
          start_world
        ≡ some o)
    × (min max_spans_cap o.world.span_count ≤ m)
walk_trace-max_spans_example =
    walk_trace-max_spans counting shop_engine [] (pos 0) [] 11 start_ctx 0 none (pos 0) false false
      start_world height most 2 shop-IsRanked shop-IsWorst shop-IsBounded (omega arith, tt)
      (inl refl) refl (omega arith)

-- The spans, the errors and the retries of a result, as the digits of a number.
abbrev summary : Option (Outcome counting) → ℕ
summary (some o) = o.world.span_count * 100 + o.world.stats.errors * 10 + o.world.stats.retries
summary none = 0

-- The store always fails, so every call is retried once, and the gateway fails with it.
shop_summary :
    summary (
      walk_trace counting shop_engine
        (pos 0)
        []
        []
        11
        start_ctx
        0
        none
        (pos 0)
        false
        false
        start_world)
    ≡ 552
unfolding walk_trace gate run_calls active_calls effective_calls lookup skipped fires attempts
    forced_choice own_error effective_error_rate attribute_key_values effective_attributes sample
    effective_duration leave
shop_summary = refl

plan_trace_within_limit_example :
    (o : Outcome counting) × (plan_trace counting shop_engine
        (pos 0)
        []
        []
        11
        0
        none
        none
        (pos 0)
        false
        false
        start_world
      ≡ some o)
    × (0 ≤ o.world.span_count)
    × (o.world.span_count ≤ 10)
    × (length o.world.plans + 0 ≡ 0 + o.world.span_count)
plan_trace_within_limit_example =
    plan_trace_within_limit counting shop_engine (pos 0) [] [] 11 0 none none (pos 0) false false
      start_world (omega arith) (omega arith)
