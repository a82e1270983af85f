-- ===== src/Engine/PlanTotals.antt =====
-- planTrace of pkg/synth/plan.go terminates within the span limit, with one plan for each span.
use motel.Prelude.{
  ℕ, zero, suc, ◌+◌, ◌≤◌, ◌<◌, ◌≡◌, refl, ap, Bool, false, ◌||◌, String, List, [], ◌∷◌, Option,
  some, Dict, arith, length, length-append, length-set, get_elem?, Bool-cases, Option-cases, inl,
  inr, All, leb, lt_of_leb, max,
}
use motel.Prelude.Int.{ℤ}
use motel.Platform.{Platform}
use motel.Topology.Types.{Distribution, Override, Attribute}
use motel.Topology.Calls.{effective_calls, effective_error_rate}
use motel.State.{Reason}
use motel.Engine.World.{World, Engine, Outcome, Result, SpanPlan, time_sub}
use motel.Engine.Loops.{
  Verdict, refused, passes, gate, ActiveCall, active_calls, attempts, Progress, effective_duration,
  effective_attributes,
}
use motel.Engine.Walk.{is_sequential}
use motel.Engine.Plan.{
  plan_rejection_span, begin_plan, Planned, fill, finish_plan, plan_end, before_plan_calls,
  plan_verdict, plan_trace,
}
use motel.Engine.Rules.{IsKept, Walks, attempts_keeps, run_calls_keeps}
use motel.Engine.Counts.{Same, notify-Same, gate-Same, leave-Same}

module _ (p : Platform) (eng : Engine p) where
  open p use {fl}
  open fl use {F}

  -- What planning does to the span count and to the plans.
  pub record Plans (u v : World p) : Type 0 where
    pub rises : u.span_count ≤ v.span_count
    pub limited : v.span_count ≤ max eng.span_limit u.span_count
    pub plans : length v.plans + u.span_count ≡ length u.plans + v.span_count

  abbrev HasRoom : ℕ → World p → Type 0
  HasRoom fuel w = (eng.span_limit < w.span_count + fuel) × (w.span_count ≤ eng.span_limit)

  length-plans : (u v : World p) → v.plans ≡ u.plans → length v.plans ≡ length u.plans
  length-plans u v e = ap length e

  Plans-same : {u v : World p} → Same p u v → Plans u v
  Plans-same {u = u} {v = v} s = record {
    rises = omega (arith, s.count);
    limited = omega (arith, s.count);
    plans = omega (arith, s.count, length-plans u v s.plans);
  }

  Plans-trans : {u v w : World p} → Plans u v → Plans v w → Plans u w
  Plans-trans a b = record { rises = omega arith; limited = omega arith; plans = omega arith }

  refl-Same : (w : World p) → Same p w w
  refl-Same w = record { count = refl; spans = refl; errors = refl; plans = refl }

  Plans-IsKept : (fuel : ℕ) → IsKept p eng (HasRoom fuel) (λ cost. Plans)
  Plans-IsKept fuel = record {
    stays = λ w. Plans-same (refl-Same w);
    chains = λ a b u v w x y. Plans-trans x y;
    widens = λ a b u v h x. x;
    carries = λ a u v x h. (omega (arith, h.0), omega (arith, h.1));
    notes = λ w e. Plans-same (notify-Same p eng e w);
    timeouts = λ w. Plans-same (record { count = refl; spans = refl; errors = refl; plans = refl });
    retries = λ w. Plans-same (record { count = refl; spans = refl; errors = refl; plans = refl });
  }

  length-fill :
      (index : ℕ) (at : ℤ) (is_error : Bool) (plans : List (SpanPlan p))
      → length (fill p index at is_error plans) ≡ length plans
  unfolding fill
  length-fill index at is_error plans = elim (Option-cases (get_elem? plans index)) [
    | inl e ↦ rw (e, fill) refl
    | inr (s, e) ↦ rw (e, fill) (length-set plans index _)
  ]

  -- From the admission to the end of a plan, with its own count already made.
  record Adds (u v : World p) : Type 0 where
    rises : u.span_count ≤ v.span_count
    limited : v.span_count ≤ max eng.span_limit u.span_count
    plans : length v.plans + u.span_count ≡ length u.plans + v.span_count + 1

  plan_rejection_span-Adds :
      (op : ℕ) (parent index : Option ℕ) (start : ℤ) (r : Reason) (names : List String)
      (is_async is_producer : Bool) (w : World p)
      → Adds w
          (plan_rejection_span p eng op parent index start r names is_async is_producer w).world
  unfolding plan_rejection_span
  plan_rejection_span-Adds op parent index start r names is_async is_producer w = record {
    rises = omega arith;
    limited = omega arith;
    plans = omega (arith, length-append w.plans (_ ∷ []));
  }

  begin_plan-Adds :
      (op : ℕ) (parent index : Option ℕ) (start : ℤ) (d : Distribution) (rate : F)
      (attrs : List (Attribute p)) (names : List String) (is_async is_producer : Bool) (w : World p)
      → Adds w
          (begin_plan p eng op parent index start d rate attrs names is_async is_producer w).world
  unfolding begin_plan
  begin_plan-Adds op parent index start d rate attrs names is_async is_producer w = record {
    rises = omega arith;
    limited = omega arith;
    plans = omega (arith, length-append w.plans (_ ∷ []));
  }

  abbrev Child : Type 0
  Child = ℕ → ActiveCall p → ℤ → World p → Result p

  abbrev ChildPlans : ℕ → Child → Type 0
  ChildPlans fuel child =
      (i : ℕ) (a : ActiveCall p) (at : ℤ) (w : World p)
      → HasRoom fuel w
      → (o : Outcome p) × (child i a at w ≡ some o) × Plans w o.world

  attempts-All :
      (fuel : ℕ) (child : Child) (i op : ℕ) (calls : List (ActiveCall p))
      → ChildPlans fuel child
      → All
          (λ a.
            Walks p eng
              (HasRoom fuel)
              (λ cost. Plans)
              (Plans-IsKept fuel)
              0
              (attempts p eng op a (child i a) a.call.retries))
          calls
  attempts-All fuel child i op [] h = tt
  attempts-All fuel child i op (a ∷ rest) h = (
    attempts_keeps p eng (HasRoom fuel) (λ cost. Plans) (Plans-IsKept fuel) op a (child i a) 0
        (h i a) a.call.retries,
    attempts-All fuel child i op rest h,
  )

  finish_plan-Plans :
      (op : ℕ) (start elapsed : ℤ) (index : ℕ) (d : Planned p) (s : Progress p)
      → (o : Outcome p) × (finish_plan p eng op start elapsed index d (some s) ≡ some o)
        × Plans s.world o.world
  unfolding finish_plan
  finish_plan-Plans op start elapsed index d s =
      let at = plan_end p d s in
      let is_error = d.failed || s.any_failed in
      let v = record (s.world) { plans = fill p index at is_error (s.world).plans } in
      let filled : Plans s.world v = record {
        rises = omega arith;
        limited = omega arith;
        plans = omega (arith, length-fill index at is_error (s.world).plans);
      } in
      (
        _,
        refl,
        Plans-trans filled
            (Plans-same (leave-Same p eng op elapsed (time_sub at start) is_error v)),
      )

  Adds-after : {u v w : World p} → Adds u v → Plans v w → Adds u w
  Adds-after a b = record { rises = omega arith; limited = omega arith; plans = omega arith }

  -- A finished plan, seen from before its own count was made.
  Plans-own :
      {w u v : World p}
      → u.span_count ≡ w.span_count + 1
      → u.plans ≡ w.plans
      → w.span_count < eng.span_limit
      → Adds u v
      → Plans w v
  Plans-own {w = w} {u = u} c e l a = record {
    rises = omega arith;
    limited = omega arith;
    plans = omega (arith, length-plans w u e);
  }

  module _ (elapsed : ℤ) (overrides : Dict (Override p)) (names : List String) where
    plan_verdict-Adds :
        (fuel : ℕ) (child : Child) (index op : ℕ) (parent parent_index : Option ℕ) (start : ℤ)
        (is_async is_producer : Bool) (v : Verdict p) (w : World p)
        → ChildPlans fuel child
        → HasRoom fuel w
        → (o : Outcome p) × (plan_verdict p eng elapsed overrides names child index op parent
              parent_index start is_async is_producer v w
            ≡ some o)
          × Adds w o.world
    unfolding plan_verdict
    plan_verdict-Adds fuel child index op parent parent_index start is_async is_producer (refused r)
          w h q =
        (
          _,
          refl,
          plan_rejection_span-Adds op parent parent_index start r names is_async is_producer w,
        )
    plan_verdict-Adds fuel child index op parent parent_index start is_async is_producer
          (passes dur r) w h q =
        let attrs = effective_attributes p eng op overrides in
        let d =
          begin_plan p eng op parent parent_index start dur r attrs names is_async is_producer w in
        let first =
          begin_plan-Adds op parent parent_index start dur r attrs names is_async is_producer w in
        let chosen =
          active_calls p eng op (d.failed) 0 (effective_calls p eng.topology op overrides)
            (d.world).rng in
        let drawn : Same p (d.world) (before_plan_calls p d start (chosen.1)).world = record {
          count = refl;
          spans = refl;
          errors = refl;
          plans = refl;
        } in
        let (s, e, g) =
          run_calls_keeps p eng (HasRoom fuel) (λ cost. Plans) (Plans-IsKept fuel)
            (is_sequential p eng op)
            (λ active. attempts p eng op active (child index active) active.call.retries) (λ a. 0)
            (chosen.0) (attempts-All fuel child index op (chosen.0) h)
            (before_plan_calls p d start (chosen.1))
            (omega (arith, first.limited, first.rises, q.0), omega (arith, first.limited, q.1)) in
        let (o, e', g') = finish_plan-Plans op start elapsed index d s in
        (o, rw e e', Adds-after (Adds-after first (Plans-trans (Plans-same drawn) g)) g')

    -- A plan made from a world within the span limit, with fuel for one more span than the limit
    -- leaves room for, is finished. It ends within the limit, and there is exactly one more plan
    -- for each span that was counted.
    pub plan_trace_within_limit :
        (fuel op : ℕ) (parent parent_index : Option ℕ) (start : ℤ) (is_async is_producer : Bool)
        (w : World p)
        → w.span_count ≤ eng.span_limit
        → eng.span_limit < w.span_count + fuel
        → (o : Outcome p) × (plan_trace p eng elapsed overrides names fuel op parent parent_index
              start is_async is_producer w
            ≡ some o)
          × (w.span_count ≤ o.world.span_count)
          × (o.world.span_count ≤ eng.span_limit)
          × (length o.world.plans + w.span_count ≡ length w.plans + o.world.span_count)
    unfolding plan_trace
    plan_trace_within_limit zero op parent parent_index start is_async is_producer w l f =
        absurd (omega (arith, l, f))
    plan_trace_within_limit (suc fuel) op parent parent_index start is_async is_producer w l f =
        elim (Bool-cases (leb eng.span_limit w.span_count)) [
          | inl e ↦
              rw (e, plan_trace)
                (record { at = start; failed = false; world = w }, refl, omega arith, l, refl)
          | inr e ↦
              let u = record w { span_count = w.span_count + 1 } in
              let below : w.span_count < eng.span_limit = lt_of_leb eng.span_limit w.span_count e in
              let d = effective_duration p eng op overrides in
              let r = effective_error_rate p eng.topology op overrides in
              let passed = gate p eng op start elapsed d r u in
              let same = gate-Same p eng op start elapsed d r u in
              let (o, eq, a) =
                plan_verdict-Adds fuel
                  (λ index active at v.
                    plan_trace p eng elapsed overrides names fuel active.call.operation (some op)
                      (some index) at active.call.async active.call.producer v)
                  (length w.plans) op parent parent_index start is_async is_producer
                  (passed.verdict) (passed.world)
                  (λ i a at v h.
                    let (o, e, x, y, z) =
                      plan_trace_within_limit fuel a.call.operation (some op) (some i) at
                        a.call.async a.call.producer v h.1 h.0 in
                    (o, e, record { rises = x; limited = omega (arith, y); plans = z }))
                  (omega (arith, same.count, l, f), omega (arith, same.count, below)) in
              let own : Plans w o.world = Plans-own same.count same.plans below a in
              rw (e, plan_trace) (o, eq, own.rises, omega (arith, own.limited, below), own.plans)
        ]
