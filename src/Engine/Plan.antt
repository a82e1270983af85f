-- ===== src/Engine/Plan.antt =====
-- pkg/synth/plan.go: planTrace, with executePlanCall and planRejectionSpan. The fuel is that of
-- walkTrace.
use motel.Prelude.{
  ℕ, zero, suc, ◌+◌, Bool, true, false, ◌||◌, String, List, [], ◌∷◌, ◌++◌, Option, none, some, Dict,
  leb, length, get_elem?, set,
}
use motel.Prelude.Int.{ℤ, pos, ◌+ℤ◌, half}
use motel.Platform.{Platform}
use motel.Topology.Types.{Distribution, Override, Attribute, Link}
use motel.Topology.Calls.{effective_calls, effective_error_rate, span_kind_for}
use motel.Topology.Attributes.{attribute_key_values}
use motel.Topology.Baggage.{overlay_baggage_map}
use motel.State.{Reason, no_reason, since}
use motel.Engine.World.{LinkRef, SpanPlan, World, Engine, Outcome, Result, sample, time_sub}
use motel.Engine.Loops.{
  op_of, service_name, effective_duration, effective_attributes, Verdict, refused, passes, gate,
  leave, own_error, ActiveCall, active_calls, attempts, Progress, run_calls,
}
use motel.Engine.Spans.{rejection_duration, start_attrs, rejected_start_attrs, span_attrs}
use motel.Engine.Walk.{is_sequential}

module _ (p : Platform) where
  open p use {fl, Rng}
  open fl use {F}

  abbrev pub append_plan : SpanPlan p → World p → World p
  append_plan s w = record w { plans = w.plans ++ s ∷ [] }

  unfoldable pub plan_rejection_span :
      Engine p
      → ℕ
      → Option ℕ
      → Option ℕ
      → ℤ
      → Reason
      → List String
      → Bool
      → Bool
      → World p
      → Outcome p
  plan_rejection_span eng op parent parent_index start reason names is_async is_producer w =
      let at = start +ℤ rejection_duration in
      record {
        at = at;
        failed = true;
        world =
            append_plan
              (record {
                index = length w.plans;
                parent_index = parent_index;
                service = service_name p eng op;
                operation = (op_of p eng op).name;
                ref = (op_of p eng op).ref;
                kind = span_kind_for p eng.topology op parent is_async is_producer;
                start_time = start;
                end_time = at;
                start_attrs = rejected_start_attrs p eng op reason names;
                attrs = [];
                is_error = true;
                scenarios = names;
                rejected = true;
                rejection_reason = reason;
                link_refs = [];
                baggage = [];
              })
              w;
      }

  -- The baggage of the parent's plan.
  unfoldable pub inherited_baggage : Option ℕ → List (SpanPlan p) → Dict String
  inherited_baggage none plans = []
  inherited_baggage (some i) plans = elim (get_elem? plans i) [ some s ↦ s.baggage | none ↦ [] ]

  -- A reference for each link, with values drawn for its attributes.
  unfoldable pub link_refs_of : Engine p → List (Link p) → Rng → List (LinkRef p) × Rng
  link_refs_of eng [] g = ([], g)
  link_refs_of eng (l ∷ ls) g =
      let (kvs, g') = attribute_key_values p l.attributes g in
      let (rest, g'') = link_refs_of eng ls g' in
      (record { ref = (op_of p eng l.operation).ref; attributes = kvs } ∷ rest, g'')

  -- Everything that is drawn before the calls are chosen, and the placeholder of the plan.
  pub record Planned : Type 0 where
    pub failed : Bool
    pub duration : ℤ
    pub world : World p

  unfoldable pub begin_plan :
      Engine p
      → ℕ
      → Option ℕ
      → Option ℕ
      → ℤ
      → Distribution
      → F
      → List (Attribute p)
      → List String
      → Bool
      → Bool
      → World p
      → Planned
  unfolding inherited_baggage link_refs_of
  begin_plan eng op parent parent_index start duration rate attrs names is_async is_producer w =
      let o = op_of p eng op in
      let merged = overlay_baggage_map (inherited_baggage parent_index w.plans) o.baggage in
      let (drawn, g1) = attribute_key_values p attrs w.rng in
      let (failed, g2) = own_error p eng op rate g1 in
      let (own, g3) = sample p duration g2 in
      let (links, g4) = link_refs_of eng o.links g3 in
      record {
        failed = failed;
        duration = own;
        world =
            append_plan
              (record {
                index = length w.plans;
                parent_index = parent_index;
                service = service_name p eng op;
                operation = o.name;
                ref = o.ref;
                kind = span_kind_for p eng.topology op parent is_async is_producer;
                start_time = start;
                end_time = pos 0;
                start_attrs = start_attrs p eng op names;
                attrs = span_attrs p eng op merged drawn;
                is_error = false;
                scenarios = names;
                rejected = false;
                rejection_reason = no_reason;
                link_refs = links;
                baggage = merged;
              })
              (record w { rng = g4 });
      }

  -- The deferred fields of a plan.
  unfoldable pub fill : ℕ → ℤ → Bool → List (SpanPlan p) → List (SpanPlan p)
  fill index at is_error plans = elim (get_elem? plans index) [
    | some s ↦ set plans index (record s { end_time = at; is_error = is_error })
    | none ↦ plans
  ]

  abbrev pub plan_end : Planned → Progress p → ℤ
  plan_end d s = s.latest +ℤ since d.duration (half d.duration)

  unfoldable pub finish_plan : Engine p → ℕ → ℤ → ℤ → ℕ → Planned → Option (Progress p) → Result p
  unfolding fill
  finish_plan eng op start elapsed index d none = none
  finish_plan eng op start elapsed index d (some s) =
      let at = plan_end d s in
      let is_error = d.failed || s.any_failed in
      let w = s.world in
      some (record {
        at = at;
        failed = is_error;
        world =
            leave p eng op elapsed (time_sub at start) is_error
              (record w { plans = fill index at is_error w.plans });
      })

  abbrev pub before_plan_calls : Planned → ℤ → Rng → Progress p
  before_plan_calls d start g = record {
    latest = start +ℤ half d.duration;
    any_failed = false;
    next = start +ℤ half d.duration;
    world = record (d.world) { rng = g };
  }

  module _ (eng : Engine p) (elapsed : ℤ) (overrides : Dict (Override p))
      (names : List String) where
    -- What follows the admission; `child` plans a callee of the operation at this plan's index.
    unfoldable pub plan_verdict :
        (ℕ → ActiveCall p → ℤ → World p → Result p)
        → ℕ
        → ℕ
        → Option ℕ
        → Option ℕ
        → ℤ
        → Bool
        → Bool
        → Verdict p
        → World p
        → Result p
    unfolding finish_plan begin_plan plan_rejection_span
    plan_verdict child index op parent parent_index start is_async is_producer (refused reason) w =
        some
          (plan_rejection_span eng op parent parent_index start reason names is_async is_producer w)
    plan_verdict child index op parent parent_index start is_async is_producer
          (passes duration rate) w =
        let d =
          begin_plan eng op parent parent_index start duration rate
            (effective_attributes p eng op overrides) names is_async is_producer w in
        let (calls, g) =
          active_calls p eng op (d.failed) 0 (effective_calls p eng.topology op overrides)
            (d.world).rng in
        finish_plan eng op start elapsed index d (
          run_calls p (is_sequential p eng op)
            (λ active. attempts p eng op active (child index active) active.call.retries) calls
            (before_plan_calls d start g))

    unfoldable pub plan_trace : ℕ → ℕ → Option ℕ → Option ℕ → ℤ → Bool → Bool → World p → Result p
    unfolding plan_verdict
    plan_trace zero op parent parent_index start is_async is_producer w = none
    plan_trace (suc fuel) op parent parent_index start is_async is_producer w =
        elim (leb eng.span_limit w.span_count) [
          | true ↦ some (record { at = start; failed = false; world = w })
          | false ↦
              let passed =
                gate p eng op start elapsed (effective_duration p eng op overrides)
                  (effective_error_rate p eng.topology op overrides)
                  (record w { span_count = w.span_count + 1 }) in
              plan_verdict
                (λ index active at v.
                  plan_trace fuel active.call.operation (some op) (some index) at active.call.async
                    active.call.producer v)
                (length w.plans) op parent parent_index start is_async is_producer (passed.verdict)
                (passed.world)
        ]
