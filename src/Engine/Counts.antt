-- ===== src/Engine/Counts.antt =====
-- Which parts of a trace touch the counters of spans, and by how much.
use motel.Prelude.{
  ℕ, ◌+◌, ◌≡◌, refl, ◌∙◌, Bool, true, false, String, List, [], ◌∷◌, Option, arith, if◌then◌else◌,
  Option-cases, inl, inr,
}
use motel.Prelude.Int.{ℤ, ◌+ℤ◌}
use motel.Topology.Baggage.{overlay_baggage_map, baggage_to_map}
use motel.Topology.Attributes.{attribute_key_values}
use motel.Platform.{Platform}
use motel.Topology.Types.{Distribution, Event, Attribute}
use motel.State.{
  OperationState, Admission, Reason, reason_queue_full, reason_circuit_open, no_reason, admit,
}
use motel.Engine.World.{
  World, Engine, Ctx, Emission, attributes_set, emit, notify, event_added, time_sub,
}
use motel.Engine.Loops.{count_rejection, gate_state, gate, leave, get_state, put_state, op_of}
use motel.Engine.Spans.{
  span_attrs, open_span, add_events, begin_span, end_record, end_span, emit_rejection_span, Started,
}

module _ (p : Platform) where
  open p use {fl, SpanContext}
  open fl use {F}

  -- The counters that only a span's end changes, and the plans.
  pub record Same (u v : World p) : Type 0 where
    pub count : v.span_count ≡ u.span_count
    pub spans : v.stats.spans ≡ u.stats.spans
    pub errors : v.stats.errors ≡ u.stats.errors
    pub plans : v.plans ≡ u.plans

  pub Same-trans : {u v w : World p} → Same u v → Same v w → Same u w
  Same-trans a b = record {
    count = b.count ∙ a.count;
    spans = b.spans ∙ a.spans;
    errors = b.errors ∙ a.errors;
    plans = b.plans ∙ a.plans;
  }

  pub notify-Same : (eng : Engine p) (e : Emission p) (w : World p) → Same w (notify p eng e w)
  notify-Same eng e w = ground arith

  pub count_rejection-Same :
      (eng : Engine p) (op : ℕ) (start : ℤ) (r : Reason) (w : World p)
      → Same w (count_rejection p eng op start r w)
  unfolding count_rejection
  count_rejection-Same eng op start reason_queue_full w = ground arith
  count_rejection-Same eng op start reason_circuit_open w = ground arith
  count_rejection-Same eng op start no_reason w = ground arith

  gate_state-Same :
      (eng : Engine p) (op : ℕ) (start : ℤ) (d : Distribution) (rate : F) (w : World p)
      (sa : OperationState fl × Admission fl)
      → Same w (gate_state p eng op start d rate w sa).world
  unfolding gate_state
  gate_state-Same eng op start d rate w (s, a) =
      ground
        (arith, count_rejection-Same eng op start a.reason (put_state p (op_of p eng op).ref s w))

  pub gate-Same :
      (eng : Engine p) (op : ℕ) (start elapsed : ℤ) (d : Distribution) (rate : F) (w : World p)
      → Same w (gate p eng op start elapsed d rate w).world
  unfolding gate
  gate-Same eng op start elapsed d rate w =
      elim (Option-cases (get_state p w (op_of p eng op).ref)) [
        | inl e ↦ ground arith
        | inr (s, e) ↦ ground (arith, gate_state-Same eng op start d rate w (admit fl s elapsed))
      ]

  pub leave-Same :
      (eng : Engine p) (op : ℕ) (elapsed latency : ℤ) (failed : Bool) (w : World p)
      → Same w (leave p eng op elapsed latency failed w)
  unfolding leave
  leave-Same eng op elapsed latency failed w = ground arith

  pub add_events-Same :
      (sc : SpanContext) (start : ℤ) (es : List (Event p)) (w : World p)
      → Same w (add_events p sc start es w)
  unfolding add_events
  add_events-Same sc start [] w = ground arith
  add_events-Same sc start (e ∷ es) w =
      let (kvs, g) = attribute_key_values p e.attributes w.rng in
      let v = emit p (event_added sc e.name (start +ℤ e.delay) kvs) (record w { rng = g }) in
      let rest = add_events-Same sc start es v in
      record { count = rest.count; spans = rest.spans; errors = rest.errors; plans = rest.plans }

  open_span-Same :
      (eng : Engine p) (ctx : Ctx p) (op : ℕ) (parent : Option ℕ) (start : ℤ) (names : List String)
      (is_async is_producer : Bool) (w : World p)
      → Same w (open_span p eng ctx op parent start names is_async is_producer w).world
  unfolding open_span
  open_span-Same eng ctx op parent start names is_async is_producer w = ground arith

  pub begin_span-Same :
      (eng : Engine p) (ctx : Ctx p) (op : ℕ) (parent : Option ℕ) (start : ℤ)
      (attrs : List (Attribute p)) (names : List String) (is_async is_producer : Bool) (w : World p)
      → Same w (begin_span p eng ctx op parent start attrs names is_async is_producer w).world
  unfolding begin_span
  begin_span-Same eng ctx op parent start attrs names is_async is_producer w =
      let merged = overlay_baggage_map (baggage_to_map p ctx.bag) (op_of p eng op).baggage in
      let opened = open_span p eng ctx op parent start names is_async is_producer w in
      let drawn = attribute_key_values p attrs (opened.world).rng in
      let v =
        emit p (attributes_set opened.span (span_attrs p eng op merged drawn.0))
          (record (opened.world) { rng = drawn.1 }) in
      let first = open_span-Same eng ctx op parent start names is_async is_producer w in
      let rest = add_events-Same opened.span start (op_of p eng op).events v in
      record {
        count = rest.count ∙ first.count;
        spans = rest.spans ∙ first.spans;
        errors = rest.errors ∙ first.errors;
        plans = rest.plans ∙ first.plans;
      }

  -- A span's end counts one span, and one error if the span failed.
  pub record CountsOne (u v : World p) (is_error : Bool) : Type 0 where
    pub count : v.span_count ≡ u.span_count
    pub spans : v.stats.spans ≡ u.stats.spans + 1
    pub errors : v.stats.errors ≡ (if is_error then u.stats.errors + 1 else u.stats.errors)
    pub plans : v.plans ≡ u.plans

  CountsOne-Same : {u v w : World p} {b : Bool} → CountsOne u v b → Same v w → CountsOne u w b
  CountsOne-Same a b = record {
    count = b.count ∙ a.count;
    spans = b.spans ∙ a.spans;
    errors = b.errors ∙ a.errors;
    plans = b.plans ∙ a.plans;
  }

  end_record-CountsOne :
      (is_error : Bool) (sc : SpanContext) (at : ℤ) (w : World p)
      → CountsOne w (end_record p is_error sc at w) is_error
  unfolding end_record
  end_record-CountsOne true sc at w = record {
    count = refl;
    spans = refl;
    errors = refl;
    plans = refl;
  }
  end_record-CountsOne false sc at w = record {
    count = refl;
    spans = refl;
    errors = refl;
    plans = refl;
  }

  pub end_span-CountsOne :
      (eng : Engine p) (op : ℕ) (parent : Option ℕ) (start elapsed at : ℤ) (is_error : Bool)
      (names : List String) (is_async is_producer : Bool) (st : Started p) (w : World p)
      → CountsOne w
          (end_span p eng op parent start elapsed at is_error names is_async is_producer st w)
          is_error
  unfolding end_span
  end_span-CountsOne eng op parent start elapsed at is_error names is_async is_producer st w =
      let v = end_record p is_error st.span at w in
      let marked = end_record-CountsOne is_error st.span at w in
      let left = leave-Same eng op elapsed (time_sub at start) is_error v in ground arith

  pub emit_rejection_span-CountsOne :
      (eng : Engine p) (ctx : Ctx p) (op : ℕ) (parent : Option ℕ) (start : ℤ) (r : Reason)
      (names : List String) (is_async is_producer : Bool) (w : World p)
      → CountsOne w
          (emit_rejection_span p eng ctx op parent start r names is_async is_producer w).world
          true
  unfolding emit_rejection_span
  emit_rejection_span-CountsOne eng ctx op parent start r names is_async is_producer w =
      ground arith
