-- ===== src/Emit/Planned.antt =====
-- pkg/synth/plan.go and emit.go: a trace that planTrace plans, replayed by emitTrace.
use motel.Prelude.{
  ℕ, ◌+◌, ◌≤◌, ◌<◌, ◌≡◌, subst, Bool, String, List, [], Option, none, some, Dict, length,
}
use motel.Prelude.Int.{ℤ}
use motel.Platform.{Platform, IsOrdered}
use motel.Topology.Types.{Override}
use motel.Engine.World.{World, Engine, Ctx, Registry, Outcome}
use motel.Engine.Plan.{plan_trace}
use motel.Engine.PlanTotals.{plan_trace_within_limit}
use motel.Engine.Windows.{Grown, Grown-IsNested}
use motel.Engine.Planned.{IsTimely, plan_trace-Grown}
use motel.Emit.{Emitting, emit_trace}
use motel.Emit.Replay.{AreEnded, Opens, emit_trace-AreEnded}

module _ (p : Platform) (eng : Engine p) (elapsed : ℤ) (overrides : Dict (Override p))
    (names : List String) where
  open p use {Provider}

  -- Where drawn durations are non-negative int64 values, also where backpressure multiplied the mean
  -- by a factor above 1 and up to 10, where float64 orders 1 and 10, backoffs are not negative, and
  -- async calls have no retries, a trace that is planned from a world without plans and within the span limit,
  -- with fuel for one more span than the limit leaves room for, is planned and is replayed to the
  -- end: every span that is started is ended exactly once and counted once, whether and whenever
  -- the context is done; where it never is, every plan has its span.
  pub emit_trace-plan_trace :
      (fuel op : ℕ) (start : ℤ) (is_async is_producer : Bool) (w : World p) (observed : Bool)
      (ctx : Ctx p) (cancel : ℕ → Option ℤ) (provider : Provider) (registry : Option (Registry p))
      → IsOrdered p.fl
      → IsTimely p eng overrides
      → w.plans ≡ []
      → w.span_count ≤ eng.span_limit
      → eng.span_limit < w.span_count + fuel
      → (o : Outcome p) × (plan_trace p eng elapsed overrides names fuel op none none start is_async
            is_producer w
          ≡ some o)
        × (v : Emitting p) × (emit_trace p o.world.plans observed ctx cancel provider registry
            ≡ some v)
        × AreEnded p o.world.plans observed ctx v
        × Opens p o.world.plans observed ctx cancel v (length o.world.plans)
  emit_trace-plan_trace fuel op start is_async is_producer w observed ctx cancel provider registry
        ord t q l f =
      let (o, e, _, _, _) =
        plan_trace_within_limit p eng elapsed overrides names fuel op none none start is_async
          is_producer w l f in
      let (after, grown) =
        plan_trace-Grown p eng elapsed overrides names ord t fuel op none none start is_async
          is_producer w o e in
      let (v, run, all_ended, opened) =
        emit_trace-AreEnded p o.world.plans observed ctx cancel provider registry (
          Grown-IsNested p start start o.world.plans
            (subst (λ us. Grown p none start start us o.world.plans) q grown)) in
      (o, e, v, run, all_ended, opened)
