-- ===== src/Engine/Spans.antt =====
-- pkg/synth/engine.go: the span of a call in walkTrace, its start, its attributes, events and links,
-- and its end, with emitRejectionSpan for a call that is refused.
use Prim.Native.String
use motel.Prelude.{
  ℕ, ◌+◌, Bool, true, String, List, [], ◌∷◌, ◌++◌, map, Option, none, some, Dict, if◌then◌else◌,
}
use motel.Prelude.Int.{ℤ, pos, ◌+ℤ◌}
use motel.Platform.{Platform, KeyValue, string_value, bool_value, strings_value}
use motel.Topology.Types.{Attribute, Event, Link}
use motel.Topology.Calls.{span_kind_for}
use motel.Topology.Attributes.{attribute_key_values}
use motel.Topology.Baggage.{
  overlay_baggage_map, baggage_attributes_from_map, build_baggage, baggage_to_map,
}
use motel.State.{Reason, no_reason, reason_queue_full, reason_circuit_open}
use motel.Engine.World.{
  attributes_set, event_added, status_error, error_recorded, span_ended, start_observed,
  span_observed, Registry, store, load, World, Engine, Ctx, Outcome, emit, notify, time_sub,
}
use motel.Engine.Loops.{op_of, service_name, leave}

-- The rejection reasons as the source spells them.
unfoldable pub reason_text : Reason → String
reason_text no_reason = ""
reason_text reason_queue_full = "queue_full"
reason_text reason_circuit_open = "circuit_open"

-- 1 * time.Millisecond
abbrev pub rejection_duration : ℤ
rejection_duration = pos 1000000

module _ (p : Platform) where
  open p use {fl, Rng, SpanContext, Bag, start_span}
  open fl use {F}

  abbrev pub strings_attr : String → String → KeyValue F
  strings_attr k v = record { key = k; value = string_value v }

  abbrev pub scenario_attrs : Engine p → List String → List (KeyValue F)
  scenario_attrs eng names =
      if eng.label_scenarios
      then record { key = "synth.scenarios"; value = strings_value names } ∷ []
      else []

  -- The attributes that a span starts with.
  unfoldable pub start_attrs : Engine p → ℕ → List String → List (KeyValue F)
  start_attrs eng op names =
      strings_attr "synth.service" (service_name p eng op)
      ∷ strings_attr "synth.operation" (op_of p eng op).name
      ∷ scenario_attrs eng names

  unfoldable pub rejection_attrs : Reason → List (KeyValue F)
  unfolding reason_text
  rejection_attrs reason =
      record { key = "synth.rejected"; value = bool_value true }
      ∷ strings_attr "synth.rejection_reason" (reason_text reason)
      ∷ []

  unfoldable pub rejected_start_attrs : Engine p → ℕ → Reason → List String → List (KeyValue F)
  unfolding rejection_attrs
  rejected_start_attrs eng op reason names =
      strings_attr "synth.service" (service_name p eng op)
      ∷ strings_attr "synth.operation" (op_of p eng op).name
      ∷ (rejection_attrs reason ++ scenario_attrs eng names)

  -- The service and operation names of a parent, empty for a root.
  unfoldable pub parent_names : Engine p → Option ℕ → String × String
  parent_names eng none = ("", "")
  parent_names eng (some parent) = (service_name p eng parent, (op_of p eng parent).name)

  -- The links whose target has a span context, each with values drawn for its attributes.
  unfoldable pub span_links :
      Engine p → Registry p → List (Link p) → Rng → List (SpanContext × List (KeyValue F)) × Rng
  span_links eng r [] g = ([], g)
  span_links eng r (l ∷ ls) g = elim (load p r (op_of p eng l.operation).ref) [
    | some sc ↦
        let (kvs, g') = attribute_key_values p l.attributes g in
        let (rest, g'') = span_links eng r ls g' in ((sc, kvs) ∷ rest, g'')
    | none ↦ span_links eng r ls g
  ]

  unfoldable pub links_of : Engine p → ℕ → World p → List (SpanContext × List (KeyValue F)) × Rng
  unfolding span_links
  links_of eng op w = elim w.registry [
    | some r ↦ span_links eng r (op_of p eng op).links w.rng
    | none ↦ ([], w.rng)
  ]

  -- The events of a span, each with values drawn for its attributes.
  unfoldable pub add_events : SpanContext → ℤ → List (Event p) → World p → World p
  add_events sc start [] w = w
  add_events sc start (e ∷ es) w =
      let (kvs, g) = attribute_key_values p e.attributes w.rng in
      add_events sc start es
        (emit p (event_added sc e.name (start +ℤ e.delay) kvs) (record w { rng = g }))

  -- A span that was started: what its descendants and its end need.
  pub record Started : Type 0 where
    pub ctx : Ctx p
    pub span : SpanContext
    pub attrs : List (KeyValue F)
    pub world : World p

  pub record Opened : Type 0 where
    pub span : SpanContext
    pub world : World p

  -- The start of a span with its links, and its registration as a link target.
  unfoldable pub open_span :
      Engine p → Ctx p → ℕ → Option ℕ → ℤ → List String → Bool → Bool → World p → Opened
  unfolding start_attrs links_of
  open_span eng ctx op parent start names is_async is_producer w =
      let o = op_of p eng op in
      let (links, g) = links_of eng op w in
      let (sc, provider) =
        start_span (service_name p eng op) ctx.span o.name start
          (span_kind_for p eng.topology op parent is_async is_producer) (start_attrs eng op names)
          links w.provider in
      record {
        span = sc;
        world = notify p eng (start_observed (service_name p eng op) o.name) (record w {
          rng = g;
          provider = provider;
          registry = elim w.registry [ some r ↦ some (store p r o.ref sc) | none ↦ none ];
        });
      }

  -- The attributes of a span: the service's, the drawn ones, and the baggage where it is shown.
  unfoldable pub span_attrs : Engine p → ℕ → Dict String → List (KeyValue F) → List (KeyValue F)
  span_attrs eng op merged drawn =
      let o = op_of p eng op in
      map (λ (kv : String × String). strings_attr kv.0 kv.1)
        (eng.topology.service o.service).attributes
      ++ (drawn ++ (if o.baggage_as_attributes then baggage_attributes_from_map p merged else []))

  -- From the baggage to the events of a span.
  unfoldable pub begin_span :
      Engine p
      → Ctx p
      → ℕ
      → Option ℕ
      → ℤ
      → List (Attribute p)
      → List String
      → Bool
      → Bool
      → World p
      → Started
  unfolding open_span span_attrs add_events
  begin_span eng ctx op parent start attrs names is_async is_producer w =
      let o = op_of p eng op in
      let merged = overlay_baggage_map (baggage_to_map p ctx.bag) o.baggage in
      let bag : Bag = elim o.baggage [ [] ↦ ctx.bag | _ ∷ _ ↦ build_baggage p merged ] in
      let opened = open_span eng ctx op parent start names is_async is_producer w in
      let (drawn, g) = attribute_key_values p attrs (opened.world).rng in
      let kvs = span_attrs eng op merged drawn in
      record {
        ctx = record { span = some opened.span; bag = bag };
        span = opened.span;
        attrs = kvs;
        world =
            add_events opened.span start o.events
              (emit p (attributes_set opened.span kvs) (record (opened.world) { rng = g }));
      }

  abbrev pub count_span : Bool → World p → World p
  count_span is_error w = record w {
    stats = record w.stats {
      errors = if is_error then w.stats.errors + 1 else w.stats.errors;
      spans = w.stats.spans + 1;
    };
  }

  -- The status of a failed span, the counters, and the end.
  unfoldable pub end_record : Bool → SpanContext → ℤ → World p → World p
  end_record is_error sc at w =
      let marked =
        if is_error
        then emit p (error_recorded sc "synthetic error" at)
            (emit p (status_error sc "synthetic error") w)
        else w in
      emit p (span_ended sc at) (count_span is_error marked)

  -- The end of a span: status, counters, the operation's state, and the observers.
  unfoldable pub end_span :
      Engine p
      → ℕ
      → Option ℕ
      → ℤ
      → ℤ
      → ℤ
      → Bool
      → List String
      → Bool
      → Bool
      → Started
      → World p
      → World p
  unfolding end_record
  end_span eng op parent start elapsed at is_error names is_async is_producer st w =
      let ended = end_record is_error st.span at w in
      let (parent_service, parent_operation) = parent_names eng parent in
      notify p eng
        (span_observed (record {
          service = service_name p eng op;
          operation = (op_of p eng op).name;
          parent_service = parent_service;
          parent_operation = parent_operation;
          timestamp = start;
          duration = time_sub at start;
          is_error = is_error;
          kind = span_kind_for p eng.topology op parent is_async is_producer;
          attrs = st.attrs;
          scenarios = names;
          span_context = st.span;
        }))
        (leave p eng op elapsed (time_sub at start) is_error ended)

  unfoldable pub emit_rejection_span :
      Engine p → Ctx p → ℕ → Option ℕ → ℤ → Reason → List String → Bool → Bool → World p → Outcome p
  unfolding rejected_start_attrs reason_text
  emit_rejection_span eng ctx op parent start reason names is_async is_producer w =
      let at = start +ℤ rejection_duration in
      let kind = span_kind_for p eng.topology op parent is_async is_producer in
      let (sc, provider) =
        start_span (service_name p eng op) ctx.span (op_of p eng op).name start kind
          (rejected_start_attrs eng op reason names) [] w.provider in
      let ended = emit p (span_ended sc at) (
        emit p (error_recorded sc (String.◌++◌ "rejected: " (reason_text reason)) at)
          (emit p (status_error sc (reason_text reason)) (record w { provider = provider }))) in
      let (parent_service, parent_operation) = parent_names eng parent in
      record {
        at = at;
        failed = true;
        world =
            notify p eng
              (span_observed (record {
                service = service_name p eng op;
                operation = (op_of p eng op).name;
                parent_service = parent_service;
                parent_operation = parent_operation;
                timestamp = start;
                duration = rejection_duration;
                is_error = true;
                kind = kind;
                attrs = rejection_attrs reason;
                scenarios = names;
                span_context = sc;
              }))
              (notify p eng (start_observed (service_name p eng op) (op_of p eng op).name)
                (count_span true ended));
      }
