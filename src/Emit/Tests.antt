-- ===== src/Emit/Tests.antt =====
-- A trace of two spans, the second inside the first, and a planned trace, each replayed to its end.
use motel.Prelude.{
  ℕ, zero, suc, ◌≡◌, ◌<◌, refl, true, false, String, List, [], ◌∷◌, Option, none, some, get_elem?,
  length, arith, All, lookup,
}
use motel.Prelude.Int.{ℤ, pos, negsuc, quot, ltb_ℤ, ◌*ℤ◌, ◌≤ℤ◌}
use motel.Platform.{span_kind_server, IsOrdered}
use motel.State.{no_reason}
use motel.Topology.Calls.{effective_calls}
use motel.Engine.World.{SpanPlan, Outcome, sample}
use motel.Engine.Loops.{effective_duration, scaled}
use motel.Engine.Plan.{plan_trace}
use motel.Engine.Nested.{IsWaited}
use motel.Engine.Planned.{IsTimely, IsDuration}
use motel.Emit.{Emitting, emit_trace}
use motel.Emit.Nested.{IsNested}
use motel.Emit.Replay.{AreEnded, Opens, emit_trace-AreEnded}
use motel.Emit.Planned.{emit_trace-plan_trace}
use motel.Fixture.{thousandths, counting, shop_engine, one_ms, start_world, start_ctx}

abbrev planned : ℕ → Option ℕ → String → ℤ → ℤ → SpanPlan counting
planned index parent operation start end = record {
  index = index;
  parent_index = parent;
  service = "shop";
  operation = operation;
  ref = operation;
  kind = span_kind_server;
  start_time = start;
  end_time = end;
  start_attrs = [];
  attrs = [];
  is_error = false;
  scenarios = [];
  rejected = false;
  rejection_reason = no_reason;
  link_refs = [];
  baggage = [];
}

abbrev outer : SpanPlan counting
outer = planned 0 none "get" (pos 0) (pos 10)

abbrev inner : SpanPlan counting
inner = planned 1 (some 0) "read" (pos 0) (pos 10)

abbrev two_plans : List (SpanPlan counting)
two_plans = outer ∷ inner ∷ []

two_plans-IsNested : IsNested counting two_plans
two_plans-IsNested = record { lasts = lasts; inside = inside }
  where
    lasts :
        (i : ℕ) (s : SpanPlan counting)
        → get_elem? two_plans i ≡ some s
        → s.start_time ≤ℤ s.end_time
    lasts zero s e = ground (arith, e)
    lasts (suc zero) s e = ground (arith, e)
    lasts (suc (suc i)) s e = ground (arith, e)

    inside :
        (i j : ℕ) (s : SpanPlan counting)
        → get_elem? two_plans i ≡ some s
        → s.parent_index ≡ some j
        → (t : SpanPlan counting) × (get_elem? two_plans j ≡ some t)
          × (j < i)
          × (t.start_time ≤ℤ s.start_time)
          × (s.start_time ≤ℤ t.end_time)
    inside zero j s e r = ground (arith, e, r)
    inside (suc zero) zero s e r =
        (outer, refl, ground (arith, e, r), ground (arith, e, r), ground (arith, e, r))
    inside (suc zero) (suc j) s e r = ground (arith, e, r)
    inside (suc (suc i)) j s e r = ground (arith, e, r)

-- Cancelled before its third event.
abbrev third : ℕ → Option ℤ
third (suc (suc n)) = some (pos 4)
third n = none

emit_trace-AreEnded_example :
    (v : Emitting counting) × (emit_trace counting two_plans true start_ctx third 0 none ≡ some v)
    × AreEnded counting two_plans true start_ctx v
    × (((k : ℕ) → third k ≡ none) → length v.opened ≡ 2)
emit_trace-AreEnded_example =
    emit_trace-AreEnded counting two_plans true start_ctx third 0 none two_plans-IsNested

thousandths-IsOrdered : IsOrdered thousandths
thousandths-IsOrdered = record {
  lt_irrefl = λ x. ground arith;
  one_lt_ten = refl;
  zero_lt_one = refl;
  zero_lt_ten = refl;
}

-- The shop's durations are a millisecond, or that times the factor of the backpressure.
scaled-IsDuration :
    (m : ℤ) (g : ℕ)
    → ltb_ℤ (pos 1000) m ≡ true
    → ltb_ℤ (pos 10000) m ≡ false
    → IsDuration (sample counting (scaled counting one_ms m) g).0
unfolding quot ◌*ℤ◌ sample
scaled-IsDuration (pos n) g a b = ground arith
scaled-IsDuration (negsuc n) g a b = ground arith

shop-IsTimely : IsTimely counting shop_engine []
unfolding effective_duration effective_calls lookup sample
shop-IsTimely = record { drawn = drawn; slowed = slowed; waited = waited }
  where
    drawn :
        (op g : ℕ)
        → IsDuration (sample counting (effective_duration counting shop_engine op []) g).0
    drawn zero g = ground arith
    drawn (suc op) g = ground arith

    slowed :
        (op : ℕ) (m : ℤ) (g : ℕ)
        → ltb_ℤ (pos 1000) m ≡ true
        → ltb_ℤ (pos 10000) m ≡ false
        → IsDuration
            (sample counting
              (scaled counting (effective_duration counting shop_engine op []) m)
              g).0
    slowed zero m g a b = scaled-IsDuration m g a b
    slowed (suc op) m g a b = scaled-IsDuration m g a b

    waited :
        (op : ℕ)
        → All
            (IsWaited counting shop_engine)
            (effective_calls counting (shop_engine.topology) op [])
    waited zero = ((omega arith, λ e. ground (arith, e)), tt)
    waited (suc op) = tt

emit_trace-plan_trace_example :
    (o : Outcome counting) × (plan_trace counting shop_engine
        (pos 0)
        []
        []
        11
        0
        none
        none
        (pos 0)
        false
        false
        start_world
      ≡ some o)
    × (v : Emitting counting) × (emit_trace counting o.world.plans true start_ctx third 0 none
        ≡ some v)
    × AreEnded counting o.world.plans true start_ctx v
    × Opens counting o.world.plans true start_ctx third v (length o.world.plans)
emit_trace-plan_trace_example =
    emit_trace-plan_trace counting shop_engine (pos 0) [] [] 11 0 (pos 0) false false start_world
      true start_ctx third 0 none thousandths-IsOrdered shop-IsTimely refl (omega arith)
      (omega arith)
