-- ===== src/Engine/Walk.antt =====
-- pkg/synth/engine.go: walkTrace, with executeCall. The fuel bounds the depth of the recursion; more
-- than the room that the span limit leaves is always enough.
use motel.Prelude.{
  ℕ, zero, suc, ◌+◌, Bool, true, false, ◌||◌, String, str_eq, List, Option, none, some, Dict, leb,
}
use motel.Prelude.Int.{ℤ, ◌+ℤ◌, half}
use motel.Platform.{Platform}
use motel.Topology.Types.{Distribution, Override}
use motel.Topology.Calls.{effective_calls, effective_error_rate}
use motel.State.{since}
use motel.Engine.World.{World, Engine, Ctx, Result, sample}
use motel.Engine.Loops.{
  op_of, effective_duration, effective_attributes, Verdict, refused, passes, gate, own_error,
  ActiveCall, active_calls, attempts, Progress, run_calls,
}
use motel.Engine.Spans.{Started, begin_span, end_span, emit_rejection_span}

module _ (p : Platform) where
  open p use {fl, Rng}
  open fl use {F}

  -- The span's own error, its duration, and the calls that are made, in the order of the draws.
  pub record Drawn : Type 0 where
    pub failed : Bool
    pub duration : ℤ
    pub calls : List (ActiveCall p)
    pub rng : Rng

  unfoldable pub draw_calls : Engine p → ℕ → Dict (Override p) → Distribution → F → Rng → Drawn
  draw_calls eng op overrides duration rate g =
      let (failed, g1) = own_error p eng op rate g in
      let (own, g2) = sample p duration g1 in
      let (calls, g3) =
        active_calls p eng op failed 0 (effective_calls p eng.topology op overrides) g2 in
      record { failed = failed; duration = own; calls = calls; rng = g3 }

  abbrev pub is_sequential : Engine p → ℕ → Bool
  is_sequential eng op = str_eq (op_of p eng op).call_style "sequential"

  abbrev pub before_calls : Drawn → ℤ → World p → Progress p
  before_calls d start w = record {
    latest = start +ℤ half d.duration;
    any_failed = false;
    next = start +ℤ half d.duration;
    world = w;
  }

  -- The end of a span: the latest end of a call, and the second half of the own duration.
  abbrev pub end_of : Drawn → Progress p → ℤ
  end_of d s = s.latest +ℤ since d.duration (half d.duration)

  unfoldable pub finish_walk :
      Engine p
      → ℕ
      → Option ℕ
      → ℤ
      → ℤ
      → List String
      → Bool
      → Bool
      → Started p
      → Drawn
      → Option (Progress p)
      → Result p
  unfolding end_span
  finish_walk eng op parent start elapsed names is_async is_producer st d none = none
  finish_walk eng op parent start elapsed names is_async is_producer st d (some s) = some (record {
    at = end_of d s;
    failed = d.failed || s.any_failed;
    world =
        end_span p eng op parent start elapsed (end_of d s) (d.failed || s.any_failed) names
          is_async is_producer st s.world;
  })

  abbrev pub start_of_calls : Drawn → Started p → World p
  start_of_calls d st = record (st.world) { rng = d.rng }

  module _ (eng : Engine p) (elapsed : ℤ) (overrides : Dict (Override p))
      (names : List String) where
    -- What follows the admission; `child` walks a callee of the operation.
    unfoldable pub walk_verdict :
        (Ctx p → ActiveCall p → ℤ → World p → Result p)
        → Ctx p
        → ℕ
        → Option ℕ
        → ℤ
        → Bool
        → Bool
        → Verdict p
        → World p
        → Result p
    unfolding finish_walk begin_span draw_calls emit_rejection_span
    walk_verdict child ctx op parent start is_async is_producer (refused reason) w =
        some (emit_rejection_span p eng ctx op parent start reason names is_async is_producer w)
    walk_verdict child ctx op parent start is_async is_producer (passes duration rate) w =
        let st =
          begin_span p eng ctx op parent start (effective_attributes p eng op overrides) names
            is_async is_producer w in
        let d = draw_calls eng op overrides duration rate (st.world).rng in
        finish_walk eng op parent start elapsed names is_async is_producer st d (
          run_calls p (is_sequential eng op)
            (λ active. attempts p eng op active (child (st.ctx) active) active.call.retries)
            (d.calls) (before_calls d start (start_of_calls d st)))

    unfoldable pub walk_trace : ℕ → Ctx p → ℕ → Option ℕ → ℤ → Bool → Bool → World p → Result p
    unfolding walk_verdict
    walk_trace zero ctx op parent start is_async is_producer w = none
    walk_trace (suc fuel) ctx op parent start is_async is_producer w =
        elim (leb eng.span_limit w.span_count) [
          | true ↦ some (record { at = start; failed = false; world = w })
          | false ↦
              let passed =
                gate p eng op start elapsed (effective_duration p eng op overrides)
                  (effective_error_rate p eng.topology op overrides)
                  (record w { span_count = w.span_count + 1 }) in
              walk_verdict
                (λ below active at v.
                  walk_trace fuel below active.call.operation (some op) at active.call.async
                    active.call.producer v)
                ctx op parent start is_async is_producer (passed.verdict) (passed.world)
        ]
