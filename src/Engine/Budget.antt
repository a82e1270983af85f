-- ===== src/Engine/Budget.antt =====
-- pkg/synth/engine.go, walkTrace, against the span limit and against MaxSpans of pkg/synth/check.go.
use motel.Prelude.{
  ℕ, ◌+◌, ◌≤◌, ◌<◌, ◌≡◌, Bool, String, List, [], ◌∷◌, Option, some, Dict, arith, All, Any, min, inl,
  inr, subst,
}
use motel.Prelude.Int.{ℤ, pos}
use motel.Platform.{Platform}
use motel.Topology.Types.{Override}
use motel.Topology.Acyclic.{IsRanked}
use motel.Check.Spans.{max_spans_cap, max_spans_with}
use motel.Check.Spans.Exact.{IsWorst, IsBounded, max_spans_exact, max_worst}
use motel.Engine.World.{World, Engine, Ctx, Outcome}
use motel.Engine.Walk.{walk_trace}
use motel.Engine.Totals.{walk_trace_grows}

module _ (p : Platform) (eng : Engine p) (overrides : Dict (Override p)) (elapsed : ℤ)
    (names : List String) (fuel : ℕ) (ctx : Ctx p) (op : ℕ) (parent : Option ℕ) (start : ℤ)
    (is_async is_producer : Bool) (w : World p) where
  -- A walk from a world within the span limit, with fuel for one more span than the limit leaves
  -- room for, returns. It ends within the limit, the counter of spans of the statistics rises by
  -- as much as the span count of the trace, and the counter of errors by no more than that.
  pub walk_trace_within_limit :
      w.span_count ≤ eng.span_limit
      → eng.span_limit < w.span_count + fuel
      → (o : Outcome p) × (walk_trace p eng elapsed overrides names fuel ctx op parent start
            is_async is_producer w
          ≡ some o)
        × (o.world.span_count ≤ eng.span_limit)
        × (o.world.stats.spans + w.span_count ≡ w.stats.spans + o.world.span_count)
        × (w.span_count ≤ o.world.span_count)
        × (w.stats.errors ≤ o.world.stats.errors)
        × (o.world.stats.errors + w.stats.spans ≤ w.stats.errors + o.world.stats.spans)
  walk_trace_within_limit l f =
      let (o, e, g) =
        walk_trace_grows p eng overrides (λ _. 0) elapsed names fuel ctx op parent start is_async
          is_producer w (f, l) in
      (o, e, omega (arith, g.limited), g.spans, g.rises, g.errors_rise, g.errors)

  module _ (rank worst : ℕ → ℕ) (ranked : IsRanked p eng.topology overrides rank)
      (is_worst : IsWorst p eng.topology overrides worst) where
    abbrev highest : List ℕ → ℕ
    highest = max_worst p eng.topology overrides rank worst ranked is_worst

    member_max_worst : (roots : List ℕ) → Any (λ r. r ≡ op) roots → worst op ≤ highest roots
    member_max_worst [] h = absurd h
    member_max_worst (r ∷ rs) (inl e) =
        subst (λ (r' : ℕ). worst r' ≤ highest (r ∷ rs)) e (omega arith)
    member_max_worst (r ∷ rs) (inr h) = omega (arith, member_max_worst rs h)

  -- In a ranked topology with counts and retries below 2 ^ 30, a walk from a root with no span
  -- counted yet makes no more spans than `MaxSpans` says for the same overrides, unless that is
  -- the cap, at which it stands for any larger number. Both return, given fuel above the ranks of
  -- the roots and above the span limit.
  pub walk_trace-max_spans :
      (rank worst : ℕ → ℕ) (depth : ℕ)
      → IsRanked p eng.topology overrides rank
      → IsWorst p eng.topology overrides worst
      → IsBounded p eng.topology overrides
      → All (λ r. rank r < depth) eng.topology.roots
      → Any (λ r. r ≡ op) eng.topology.roots
      → w.span_count ≡ 0
      → eng.span_limit < fuel
      → (m : ℕ) × (ref : String) × (o : Outcome p) × (max_spans_with p eng.topology overrides depth
          ≡ some (pos m, ref))
        × (walk_trace p eng elapsed overrides names fuel ctx op parent start is_async is_producer w
            ≡ some o)
        × (min max_spans_cap o.world.span_count ≤ m)
  walk_trace-max_spans rank worst depth ranked is_worst bounded ranks root none_yet enough =
      let (ref, found, from) =
        max_spans_exact p eng.topology overrides rank worst ranked is_worst depth bounded ranks in
      let (o, e, g) =
        walk_trace_grows p eng overrides worst elapsed names fuel ctx op parent start is_async
          is_producer w (omega (arith, none_yet), omega (arith, none_yet)) in
      (
        min max_spans_cap (highest rank worst ranked is_worst eng.topology.roots),
        ref,
        o,
        found,
        e,
        omega (
          arith,
          none_yet,
          g.bounded is_worst,
          member_max_worst rank worst ranked is_worst eng.topology.roots root,
        ),
      )
