-- ===== src/Emit.antt =====
-- pkg/synth/emit.go: a planned trace is replayed at wall-clock times. Waiting for the time of an
-- event is not modelled; that the context is done when an event is due is an argument. A realtime
-- trace has its own record of what it changes.
pub mod Events
pub mod Live
pub mod Nested
pub mod Timed
pub mod Ends
pub mod Steps
pub mod Replay
pub mod Planned
mod Tests
use Prim.Native.String
use motel.Prelude.{
  ℕ, zero, suc, ◌+◌, Bool, true, false, String, List, [], ◌∷◌, ◌++◌, Option, none, some, Dict,
  if◌then◌else◌, leb, length, get_elem?, set,
}
use motel.Prelude.Int.{ℤ, ltb_ℤ}
use motel.Platform.{Platform, KeyValue}
use motel.Topology.Baggage.{build_baggage}
use motel.Engine.World.{
  Emission, attributes_set, status_error, error_recorded, span_ended, start_observed, span_observed,
  SpanInfo, LinkRef, SpanPlan, Registry, store, load, Ctx, time_sub,
}
use motel.Engine.Spans.{reason_text}

-- A scheduled start or end.
pub record SpanEvent : Type 0 where
  pub sim_time : ℤ
  pub index : ℕ
  pub is_end : Bool

-- Among the events of one time starts go before ends, starts go upwards and ends downwards.
abbrev pub tie : Bool → ℕ → Bool → ℕ → Bool
tie true i true j = leb j i
tie true i false j = false
tie false i true j = true
tie false i false j = leb i j

-- The comparison of the sort, as `not greater`.
unfoldable pub goes_first : SpanEvent → SpanEvent → Bool
goes_first a b =
    if ltb_ℤ a.sim_time b.sim_time
    then true
    else if ltb_ℤ b.sim_time a.sim_time
    then false
    else tie a.is_end a.index b.is_end b.index

unfoldable pub place_event : SpanEvent → List SpanEvent → List SpanEvent
place_event e [] = e ∷ []
place_event e (x ∷ xs) =
    let later = x ∷ place_event e xs in if goes_first e x then e ∷ x ∷ xs else later

unfoldable pub sort_events : List SpanEvent → List SpanEvent
unfolding place_event
sort_events [] = []
sort_events (e ∷ es) = place_event e (sort_events es)

module _ (p : Platform) where
  open p use {fl, SpanContext, Bag, Provider, start_span}
  open fl use {F}

  unfoldable pub events_from : ℕ → List (SpanPlan p) → List SpanEvent
  events_from i [] = []
  events_from i (s ∷ plans) =
      record { sim_time = s.start_time; index = i; is_end = false }
      ∷ record { sim_time = s.end_time; index = i; is_end = true }
      ∷ events_from (suc i) plans

  unfoldable pub build_events : List (SpanPlan p) → List SpanEvent
  unfolding events_from sort_events
  build_events plans = sort_events (events_from 0 plans)

  pub record LiveSpan : Type 0 where
    pub span : SpanContext
    pub ctx : Ctx p

  -- What the emission changes: the open spans by the index of their plan, the tracer, the link
  -- targets, and the counters. `opened` is a history of the spans that the tracer returned.
  pub record Emitting : Type 0 where
    pub live : List (Option LiveSpan)
    pub provider : Provider
    pub registry : Option (Registry p)
    pub output : List (Emission p)
    pub spans : ℕ
    pub errors : ℕ
    pub opened : List SpanContext

  abbrev pub write : Emission p → Emitting → Emitting
  write e w = record w { output = w.output ++ e ∷ [] }

  abbrev pub write_if : Bool → Emission p → Emitting → Emitting
  write_if b e w = record w { output = if b then w.output ++ e ∷ [] else w.output }

  abbrev pub live_at : List (Option LiveSpan) → ℕ → Option LiveSpan
  live_at live i = elim (get_elem? live i) [ some l ↦ l | none ↦ none ]

  unfoldable pub plan_parent_names : List (SpanPlan p) → SpanPlan p → String × String
  plan_parent_names plans plan = elim plan.parent_index [
    | none ↦ ("", "")
    | some j ↦ elim (get_elem? plans j) [ some s ↦ (s.service, s.operation) | none ↦ ("", "") ]
  ]

  -- The links to the targets that have a span context by now.
  unfoldable pub links_of_refs :
      Registry p → List (LinkRef p) → List (SpanContext × List (KeyValue F))
  links_of_refs r [] = []
  links_of_refs r (l ∷ ls) =
      let rest = links_of_refs r ls in
      elim (load p r l.ref) [ some sc ↦ (sc, l.attributes) ∷ rest | none ↦ rest ]

  unfoldable pub plan_links :
      Option (Registry p) → SpanPlan p → List (SpanContext × List (KeyValue F))
  unfolding links_of_refs
  plan_links none plan = []
  plan_links (some r) plan = links_of_refs r plan.link_refs

  -- A rejected span is no link target.
  unfoldable pub remember : Option (Registry p) → SpanPlan p → SpanContext → Option (Registry p)
  remember none plan sc = none
  remember (some r) plan sc = some (if plan.rejected then r else store p r plan.ref sc)

  -- The context of a start: the trace's for a root, the parent's where its span is open, and nil
  -- where it is not.
  unfoldable pub parent_ctx : Ctx p → List (Option LiveSpan) → SpanPlan p → Option (Ctx p)
  parent_ctx ctx live plan = elim plan.parent_index [
    | none ↦ some ctx
    | some j ↦ elim (live_at live j) [ some l ↦ some l.ctx | none ↦ none ]
  ]

  unfoldable pub with_plan_baggage : SpanPlan p → Ctx p → Ctx p
  with_plan_baggage plan ctx = elim plan.baggage [
    | [] ↦ ctx
    | _ ∷ _ ↦ record ctx { bag = build_baggage p plan.baggage }
  ]

  -- The start of a span whose parent's context is known.
  unfoldable pub start_plan : Bool → ℕ → SpanPlan p → Ctx p → Emitting → Emitting
  unfolding plan_links remember with_plan_baggage
  start_plan observed index plan ctx w =
      let parent = with_plan_baggage plan ctx in
      let (sc, provider) =
        start_span plan.service parent.span plan.operation plan.start_time plan.kind
          plan.start_attrs (plan_links w.registry plan) w.provider in
      write_if observed (start_observed plan.service plan.operation) (
        write_if (elim plan.attrs [ [] ↦ false | _ ∷ _ ↦ true ]) (attributes_set sc plan.attrs)
          (record w {
            live =
                set w.live index
                  (some (record { span = sc; ctx = record { span = some sc; bag = parent.bag } }));
            provider = provider;
            registry = remember w.registry plan sc;
            opened = sc ∷ w.opened;
          }))

  -- The information for the observers, with the end as it was.
  unfoldable pub info_of : List (SpanPlan p) → SpanPlan p → SpanContext → ℤ → Bool → SpanInfo p
  unfolding plan_parent_names
  info_of plans plan sc at is_error =
      let (service, operation) = plan_parent_names plans plan in
      record {
        service = plan.service;
        operation = plan.operation;
        parent_service = service;
        parent_operation = operation;
        timestamp = plan.start_time;
        duration = time_sub at plan.start_time;
        is_error = is_error;
        kind = plan.kind;
        attrs = plan.attrs;
        scenarios = plan.scenarios;
        span_context = sc;
      }

  unfoldable pub mark_error : SpanPlan p → SpanContext → Emitting → Emitting
  unfolding reason_text
  mark_error plan sc w =
      let reason = reason_text plan.rejection_reason in
      let status = if plan.rejected then reason else "synthetic error" in
      let text = if plan.rejected then String.◌++◌ "rejected: " reason else "synthetic error" in
      record (write (error_recorded sc text plan.end_time) (write (status_error sc status) w)) {
        errors = w.errors + 1;
      }

  unfoldable pub finish_span :
      List (SpanPlan p) → Bool → SpanPlan p → SpanContext → Emitting → Emitting
  unfolding mark_error info_of
  finish_span plans observed plan sc w =
      let marked = if plan.is_error then mark_error plan sc w else w in
      write_if observed (span_observed (info_of plans plan sc plan.end_time plan.is_error))
        (write (span_ended sc plan.end_time) (record marked { spans = marked.spans + 1 }))

  -- One span that is open when the context is done.
  unfoldable pub cancel_span :
      List (SpanPlan p) → Bool → ℤ → SpanPlan p → SpanContext → Emitting → Emitting
  unfolding info_of
  cancel_span plans observed now plan sc w =
      write_if observed (span_observed (info_of plans plan sc now true)) (
        write (span_ended sc now) (
          write (status_error sc "cancelled")
            (record w { spans = w.spans + 1; errors = w.errors + 1 })))

  -- The open spans against their plans, from the last index down.
  unfoldable pub end_all_open :
      List (SpanPlan p)
      → Bool
      → ℤ
      → List (SpanPlan p)
      → List (Option LiveSpan)
      → Emitting
      → Emitting
  unfolding cancel_span
  end_all_open all observed now (plan ∷ plans) (none ∷ live) w =
      end_all_open all observed now plans live w
  end_all_open all observed now (plan ∷ plans) (some l ∷ live) w =
      cancel_span all observed now plan l.span (end_all_open all observed now plans live w)
  end_all_open all observed now _ _ w = w

  module _ (plans : List (SpanPlan p)) (observed : Bool) (ctx : Ctx p) where
    -- `none` where a parent's context is nil, or an index is out of range.
    unfoldable pub emit_event : SpanEvent → Emitting → Option Emitting
    unfolding start_plan finish_span parent_ctx
    emit_event e w = elim (get_elem? plans e.index) [
      | none ↦ none
      | some plan ↦ elim (e.is_end) [
        | false ↦ elim (parent_ctx ctx w.live plan) [
          | none ↦ none
          | some parent ↦ some (start_plan observed e.index plan parent w)
        ]
        | true ↦ elim (live_at w.live e.index) [
          | none ↦ some w
          | some l ↦
              let w' = finish_span plans observed plan l.span w in
              some (record w' { live = set w'.live e.index none })
        ]
      ]
    ]

    -- `cancel n` is the time at which the context is found done before event n, if it is.
    unfoldable pub emit_events : (ℕ → Option ℤ) → ℕ → List SpanEvent → Emitting → Option Emitting
    unfolding emit_event end_all_open
    emit_events cancel n [] w = some w
    emit_events cancel n (e ∷ es) w = elim (cancel n) [
      | some now ↦ some (end_all_open plans observed now plans w.live w)
      | none ↦ elim (emit_event e w) [ none ↦ none | some w' ↦ emit_events cancel (suc n) es w' ]
    ]

  abbrev pub all_closed : List (SpanPlan p) → List (Option LiveSpan)
  all_closed [] = []
  all_closed (s ∷ plans) = none ∷ all_closed plans

  abbrev pub before_events : List (SpanPlan p) → Provider → Option (Registry p) → Emitting
  before_events plans provider registry = record {
    live = all_closed plans;
    provider = provider;
    registry = registry;
    output = [];
    spans = 0;
    errors = 0;
    opened = [];
  }

  unfoldable pub emit_trace :
      List (SpanPlan p)
      → Bool
      → Ctx p
      → (ℕ → Option ℤ)
      → Provider
      → Option (Registry p)
      → Option Emitting
  unfolding emit_events build_events
  emit_trace plans observed ctx cancel provider registry =
      emit_events plans observed ctx cancel 0 (build_events plans)
        (before_events plans provider registry)
