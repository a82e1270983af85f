-- ===== src/Engine/Totals.antt =====
-- walkTrace terminates within the span limit and keeps its counts.
use motel.Prelude.{
  ℕ, zero, suc, ◌+◌, ◌*◌, ◌≤◌, ◌<◌, ◌≡◌, refl, Bool, true, false, ◌||◌, String, List, [], ◌∷◌,
  Option, some, Dict, arith, if◌then◌else◌, Bool-cases, inl, inr, All, max, leb, lt_of_leb,
}
use motel.Prelude.Int.{ℤ}
use motel.Platform.{Platform}
use motel.Topology.Types.{Distribution, Override, Call}
use motel.Topology.Calls.{effective_error_rate}
use motel.Topology.Acyclic.{callees}
use motel.Check.Spans.Exact.{runs, sum_calls, IsWorst}
use motel.Engine.World.{World, Engine, Ctx, Outcome, Result}
use motel.Engine.Loops.{
  effective_duration, effective_attributes, Verdict, refused, passes, gate, ActiveCall,
  active_calls, skipped, fires, attempts,
}
use motel.Engine.Spans.{begin_span, end_span, emit_rejection_span}
use motel.Engine.Walk.{
  draw_calls, is_sequential, before_calls, end_of, start_of_calls, walk_verdict, walk_trace,
}
use motel.Engine.Rules.{Walks, attempts_keeps, run_calls_keeps, total_cost}
use motel.Engine.Counts.{
  Same, gate-Same, begin_span-Same, CountsOne, end_span-CountsOne, emit_rejection_span-CountsOne,
}
use motel.Engine.Grows.{Grows, HasFuel, Grows-same, Grows-after, Grows-IsKept}

module _ (p : Platform) (eng : Engine p) where
  open p use {fl}
  open fl use {F}

  module _ (overrides : Dict (Override p)) (worst : ℕ → ℕ) where
    abbrev call_cost : ActiveCall p → ℕ
    call_cost a = suc a.call.retries * worst a.call.operation

    abbrev all_calls : List (Call p) → ℕ
    all_calls = sum_calls p eng.topology overrides worst

    cost_of_choice :
        (b : Bool) (c : Call p) (i : ℕ) (rest : List (ActiveCall p)) (n : ℕ)
        → total_cost call_cost rest ≤ n
        → total_cost call_cost (if b then record { call = c; choice_index = i } ∷ rest else rest)
          ≤ runs c * worst c.operation + n
    cost_of_choice true c i rest n h = grind arith
    cost_of_choice false c i rest n h = omega arith

    -- The chosen calls cost no more than all calls.
    active_calls-cost :
        (op : ℕ) (failed : Bool) (i : ℕ) (cs : List (Call p)) (g : p.Rng)
        → total_cost call_cost (active_calls p eng op failed i cs g).0 ≤ all_calls cs
    unfolding active_calls
    active_calls-cost op failed i [] g = omega arith
    active_calls-cost op failed i (c ∷ cs) g = elim (Bool-cases (skipped p c failed)) [
      | inl e ↦ rw (e, active_calls) (omega (arith, active_calls-cost op failed (suc i) cs g))
      | inr e ↦
          let (fire, g') = fires p eng op i c g in
          rw (e, active_calls)
            (cost_of_choice fire c i (active_calls p eng op failed (suc i) cs g').0 (all_calls cs)
              (active_calls-cost op failed (suc i) cs g'))
    ]

    abbrev pub Bounded : Type 0
    Bounded = IsWorst p eng.topology overrides worst

    -- From the admission to the end of a span, with its own count already made.
    record Finishes (op : ℕ) (u v : World p) : Type 0 where
      rises : u.span_count ≤ v.span_count
      limited : v.span_count ≤ max eng.span_limit u.span_count
      bounded : Bounded → suc v.span_count ≤ u.span_count + worst op
      spans : v.stats.spans + u.span_count ≡ u.stats.spans + v.span_count + 1
      errors : v.stats.errors + u.stats.spans ≤ u.stats.errors + v.stats.spans
      errors_rise : u.stats.errors ≤ v.stats.errors

    worst_pos : (op : ℕ) → Bounded → 0 < worst op
    worst_pos op b = omega (arith, b.equation op)

    ends_one :
        (op : ℕ) (b : Bool) (cost : ℕ) (u t v : World p)
        → (Bounded → suc cost ≤ worst op)
        → Grows p eng Bounded cost u t
        → CountsOne p t v b
        → Finishes op u v
    ends_one op true cost u t v h g c = record {
      rises = omega (arith, c.count);
      limited = omega (arith, c.count);
      bounded = λ k. omega (arith, c.count, g.bounded k, h k);
      spans = omega (arith, c.count, c.spans);
      errors = omega (arith, c.errors, c.spans);
      errors_rise = omega (arith, c.errors);
    }
    ends_one op false cost u t v h g c = record {
      rises = omega (arith, c.count);
      limited = omega (arith, c.count);
      bounded = λ k. omega (arith, c.count, g.bounded k, h k);
      spans = omega (arith, c.count, c.spans);
      errors = omega (arith, c.errors, c.spans);
      errors_rise = omega (arith, c.errors);
    }

    draw_calls-cost :
        (op : ℕ) (d : Distribution) (rate : F) (g : p.Rng)
        → total_cost call_cost (draw_calls p eng op overrides d rate g).calls
          ≤ all_calls (callees p eng.topology overrides op)
    unfolding draw_calls
    draw_calls-cost op d rate g = active_calls-cost op _ 0 (callees p eng.topology overrides op) _

    calls_cost :
        Bounded
        → (op : ℕ) (failed : Bool) (calls : List (ActiveCall p))
        → total_cost call_cost calls ≤ all_calls (callees p eng.topology overrides op)
        → suc (total_cost call_cost calls) ≤ worst op
    calls_cost b op failed calls h = omega (arith, b.equation op)

    module _ (elapsed : ℤ) (names : List String) (fuel : ℕ) where
      abbrev Child : Type 0
      Child = Ctx p → ActiveCall p → ℤ → World p → Result p

      abbrev ChildGrows : Child → Type 0
      ChildGrows child =
          (ctx : Ctx p) (a : ActiveCall p) (at : ℤ) (w : World p)
          → HasFuel p eng fuel w
          → (o : Outcome p) × (child ctx a at w ≡ some o)
            × Grows p eng Bounded (worst a.call.operation) w o.world

      attempts-All :
          (child : Child) (ctx : Ctx p) (op : ℕ) (calls : List (ActiveCall p))
          → ChildGrows child
          → All
              (λ a.
                Walks p eng
                  (HasFuel p eng fuel)
                  (Grows p eng Bounded)
                  (Grows-IsKept p eng Bounded fuel)
                  (call_cost a)
                  (attempts p eng op a (child ctx a) a.call.retries))
              calls
      attempts-All child ctx op [] h = tt
      attempts-All child ctx op (a ∷ rest) h = (
        attempts_keeps p eng (HasFuel p eng fuel) (Grows p eng Bounded)
            (Grows-IsKept p eng Bounded fuel) op a (child ctx a) (worst a.call.operation) (h ctx a)
            a.call.retries,
        attempts-All child ctx op rest h,
      )

      walk_verdict_grows :
          (child : Child) (ctx : Ctx p) (op : ℕ) (parent : Option ℕ) (start : ℤ)
          (is_async is_producer : Bool) (v : Verdict p) (w : World p)
          → ChildGrows child
          → HasFuel p eng fuel w
          → (o : Outcome p) × (walk_verdict p eng elapsed overrides names child ctx op parent start
                is_async is_producer v w
              ≡ some o)
            × Finishes op w o.world
      unfolding walk_verdict
      walk_verdict_grows child ctx op parent start is_async is_producer (refused r) w h q = (
        emit_rejection_span p eng ctx op parent start r names is_async is_producer w,
        refl,
        ends_one op true 0 w w _ (λ b. worst_pos op b)
            (Grows-same p eng (record { count = refl; spans = refl; errors = refl; plans = refl }))
            (emit_rejection_span-CountsOne p eng ctx op parent start r names is_async is_producer
              w),
      )
      walk_verdict_grows child ctx op parent start is_async is_producer (passes d r) w h q =
          let attrs = effective_attributes p eng op overrides in
          let st = begin_span p eng ctx op parent start attrs names is_async is_producer w in
          let same = begin_span-Same p eng ctx op parent start attrs names is_async is_producer w in
          let dr = draw_calls p eng op overrides d r (st.world).rng in
          let u = start_of_calls p dr st in
          let first : Same p w u = record {
            count = same.count;
            spans = same.spans;
            errors = same.errors;
            plans = same.plans;
          } in
          let (s, e, g) =
            run_calls_keeps p eng (HasFuel p eng fuel) (Grows p eng Bounded)
              (Grows-IsKept p eng Bounded fuel) (is_sequential p eng op)
              (λ active. attempts p eng op active (child (st.ctx) active) active.call.retries)
              call_cost (dr.calls) (attempts-All child (st.ctx) op (dr.calls) h)
              (before_calls p dr start u)
              (omega (arith, first.count, q.0), omega (arith, first.count, q.1)) in
          let at = end_of p dr s in
          let failed = dr.failed || s.any_failed in
          (
            record {
              at = at;
              failed = failed;
              world =
                  end_span p eng op parent start elapsed at failed names is_async is_producer st
                    s.world;
            },
            rw e refl,
            ends_one op failed (total_cost call_cost (dr.calls)) w s.world _
                (λ b. calls_cost b op dr.failed dr.calls (draw_calls-cost op d r (st.world).rng))
                (Grows-after p eng (total_cost call_cost (dr.calls)) first g)
                (end_span-CountsOne p eng op parent start elapsed at failed names is_async
                  is_producer st s.world),
          )

    -- A finished span, seen from before its own count was made.
    Grows-own :
        (op : ℕ) {w u v : World p}
        → u.span_count ≡ w.span_count + 1
        → u.stats.spans ≡ w.stats.spans
        → u.stats.errors ≡ w.stats.errors
        → w.span_count < eng.span_limit
        → Finishes op u v
        → Grows p eng Bounded (worst op) w v
    Grows-own op c s e l f = record {
      rises = omega arith;
      limited = omega arith;
      bounded = λ b. omega (arith, f.bounded b);
      spans = omega arith;
      errors = omega arith;
      errors_rise = omega arith;
    }

    Grows-full : (op : ℕ) (w : World p) → Grows p eng Bounded (worst op) w w
    Grows-full op w = record {
      rises = omega arith;
      limited = omega arith;
      bounded = λ b. omega arith;
      spans = omega arith;
      errors = omega arith;
      errors_rise = omega arith;
    }

    module _ (elapsed : ℤ) (names : List String) where
      -- A walk whose fuel exceeds the room that is left under the span limit returns, and keeps the
      -- counts.
      pub walk_trace_grows :
          (fuel : ℕ) (ctx : Ctx p) (op : ℕ) (parent : Option ℕ) (start : ℤ)
          (is_async is_producer : Bool) (w : World p)
          → HasFuel p eng fuel w
          → (o : Outcome p) × (walk_trace p eng elapsed overrides names fuel ctx op parent start
                is_async is_producer w
              ≡ some o)
            × Grows p eng Bounded (worst op) w o.world
      unfolding walk_trace
      walk_trace_grows zero ctx op parent start is_async is_producer w q =
          absurd (omega (arith, q.0, q.1))
      walk_trace_grows (suc fuel) ctx op parent start is_async is_producer w q =
          elim (Bool-cases (leb eng.span_limit w.span_count)) [
            | inl e ↦
                rw (e, walk_trace)
                  (record { at = start; failed = false; world = w }, refl, Grows-full op w)
            | inr e ↦
                let u = record w { span_count = w.span_count + 1 } in
                let below : w.span_count < eng.span_limit =
                  lt_of_leb eng.span_limit w.span_count e in
                let passed =
                  gate p eng op start elapsed (effective_duration p eng op overrides)
                    (effective_error_rate p eng.topology op overrides) u in
                let same =
                  gate-Same p eng op start elapsed (effective_duration p eng op overrides)
                    (effective_error_rate p eng.topology op overrides) u in
                let (o, eq, f) =
                  walk_verdict_grows elapsed names fuel
                    (λ ctx' a at v.
                      walk_trace p eng elapsed overrides names fuel ctx' a.call.operation (some op)
                        at a.call.async a.call.producer v)
                    ctx op parent start is_async is_producer (passed.verdict) (passed.world)
                    (λ ctx' a at v h.
                      walk_trace_grows fuel ctx' a.call.operation (some op) at a.call.async
                        a.call.producer v h)
                    (omega (arith, same.count, q.0), omega (arith, same.count, below)) in
                rw (e, walk_trace) (o, eq, Grows-own op same.count same.spans same.errors below f)
          ]
