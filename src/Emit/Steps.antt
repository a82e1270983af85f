-- ===== src/Emit/Steps.antt =====
-- pkg/synth/emit.go, emitTrace: one event in the middle of a replay.
use motel.Prelude.{
  ℕ, suc, ◌+◌, ◌<◌, ◌≡◌, refl, sym, subst, ap, ◌∙◌, Bool, true, false, List, [], ◌∷◌, Option, none,
  some, if◌then◌else◌, length, get_elem?, set, arith, inl, inr, Bool-cases, Option-cases,
}
use motel.Platform.{Platform}
use motel.Engine.World.{SpanPlan, Ctx}
use motel.Emit.{
  SpanEvent, LiveSpan, Emitting, live_at, parent_ctx, start_plan, finish_span, emit_event,
  sort_events, place_event, events_from,
}
use motel.Emit.Events.{left}
use motel.Emit.Live.{StartsWith, EndsOne, start_plan-StartsWith, finish_span-EndsOne}
use motel.Emit.Nested.{IsNested}
use motel.Emit.Timed.{IsTimed, IsTimed-tail, parent_running}
use motel.Emit.Ends.{
  IsLive, IsCounted, ended, get_elem?-lt, start_IsLive, end_IsLive, start_IsCounted, end_IsCounted,
}

-- How many starts are among the events.
abbrev pub starts : List SpanEvent → ℕ
starts [] = 0
starts (e ∷ es) = (if e.is_end then 0 else 1) + starts es

starts-place_event :
    (e : SpanEvent) (es : List SpanEvent) → starts (place_event e es) ≡ starts (e ∷ es)
unfolding place_event
starts-place_event e [] = refl
starts-place_event e (x ∷ xs) = let rest = starts-place_event e xs in ground arith

pub starts-sort_events : (es : List SpanEvent) → starts (sort_events es) ≡ starts es
unfolding sort_events
starts-sort_events [] = refl
starts-sort_events (e ∷ es) =
    starts-place_event e (sort_events es) ∙ (let h = starts-sort_events es in omega arith)

module _ (p : Platform) where
  pub starts-events_from :
      (k : ℕ) (xs : List (SpanPlan p)) → starts (events_from p k xs) ≡ length xs
  unfolding events_from
  starts-events_from k [] = refl
  starts-events_from k (s ∷ xs) = let h = starts-events_from (suc k) xs in omega arith

module _ (p : Platform) (plans : List (SpanPlan p)) (observed : Bool) (ctx : Ctx p) where
  open p use {SpanContext, Provider}

  -- A parent's context is there when its child starts.
  parent_ctx-some :
      (e : SpanEvent) (es : List SpanEvent) (s : SpanPlan p) (live : List (Option (LiveSpan p)))
      → IsNested p plans
      → IsTimed p plans (e ∷ es)
      → IsLive p plans (e ∷ es) live
      → e.is_end ≡ false
      → get_elem? plans e.index ≡ some s
      → (c : Ctx p) × (parent_ctx p ctx live s ≡ some c)
  unfolding parent_ctx
  parent_ctx-some e es s live n h v q at = elim (Option-cases s.parent_index) [
    | inl r ↦ (ctx, rw (r, parent_ctx) refl)
    | inr (j, r) ↦
        let (a, b) = parent_running p plans e es s j n h q at r in
        let (l, live_j) = v.running j a b in (l.ctx, rw (r, parent_ctx, live_j) refl)
  ]

  started_at :
      (e : SpanEvent) (w : Emitting p) (s : SpanPlan p) (c : Ctx p)
      → get_elem? plans e.index ≡ some s
      → e.is_end ≡ false
      → parent_ctx p ctx w.live s ≡ some c
      → emit_event p plans observed ctx e w ≡ some (start_plan p observed e.index s c w)
  unfolding emit_event
  started_at e w s c at q known = rw (at, emit_event, q, known) refl

  ended_at :
      (e : SpanEvent) (w : Emitting p) (s : SpanPlan p) (l : LiveSpan p)
      → get_elem? plans e.index ≡ some s
      → e.is_end ≡ true
      → live_at p w.live e.index ≡ some l
      → emit_event p plans observed ctx e w
        ≡ some (record (finish_span p plans observed s l.span w) {
          live = set (finish_span p plans observed s l.span w).live e.index none;
        })
  unfolding emit_event
  ended_at e w s l at q known = rw (at, emit_event, q, known) refl

  emit_event-start :
      (e : SpanEvent) (es : List SpanEvent) (w : Emitting p)
      → IsNested p plans
      → IsTimed p plans (e ∷ es)
      → IsLive p plans (e ∷ es) w.live
      → e.is_end ≡ false
      → (v : Emitting p) × (l : LiveSpan p) × (emit_event p plans observed ctx e w ≡ some v)
        × StartsWith p w v e.index l
  emit_event-start e es w n h v q =
      let f = h.schedule.fits.0 in
      let (c, known) = parent_ctx-some e es f.plan w.live n h v q f.at in
      let (l, steps) = start_plan-StartsWith p observed e.index f.plan c w in
      (start_plan p observed e.index f.plan c w, l, started_at e w f.plan c f.at q known, steps)

  -- An end finds its span open.
  emit_event-end :
      (e : SpanEvent) (es : List SpanEvent) (w : Emitting p)
      → IsNested p plans
      → IsTimed p plans (e ∷ es)
      → IsLive p plans (e ∷ es) w.live
      → e.is_end ≡ true
      → (v : Emitting p) × (l : LiveSpan p) × (emit_event p plans observed ctx e w
          ≡ some (record v { live = set v.live e.index none }))
        × (live_at p w.live e.index ≡ some l)
        × EndsOne p w v l.span
  emit_event-end e es w n h v q =
      let f = h.schedule.fits.0 in
      let rest = IsTimed-tail p plans e es n h in
      let (gone, other, same_starts) = ended p plans e es e.index h q in
      let a = rest.later e.index in
      let (l, at) =
        v.running e.index (omega (arith, gone refl, same_starts, a)) (ended_here e es h q) in
      (
        finish_span p plans observed f.plan l.span w,
        l,
        ended_at e w f.plan l f.at q at,
        at,
        finish_span-EndsOne p plans observed f.plan l.span w,
      )
    where
      ended_here :
          (e : SpanEvent) (es : List SpanEvent)
          → IsTimed p plans (e ∷ es)
          → e.is_end ≡ true
          → left true e.index (e ∷ es) ≡ 1
      ended_here e es h q = let b = h.once true e.index in ground (arith, b, q)

  -- A plan that is about to start is not open.
  closed_before :
      (e : SpanEvent) (es : List SpanEvent) (live : List (Option (LiveSpan p)))
      → IsLive p plans (e ∷ es) live
      → e.is_end ≡ false
      → live_at p live e.index ≡ none
  closed_before e es live v q = elim (Option-cases (live_at p live e.index)) [
    | inl r ↦ r
    | inr (l, r) ↦ let (a, b) = v.only e.index l r in absurd (ground (arith, a, q))
  ]

  -- One event, in the middle of a replay.
  pub emit_event-keeps :
      (e : SpanEvent) (es : List SpanEvent) (w : Emitting p)
      → IsNested p plans
      → IsTimed p plans (e ∷ es)
      → IsLive p plans (e ∷ es) w.live
      → IsCounted p plans w
      → (v : Emitting p) × (emit_event p plans observed ctx e w ≡ some v)
        × IsLive p plans es v.live
        × IsCounted p plans v
        × (length v.opened ≡ length w.opened + (if e.is_end then 0 else 1))
  emit_event-keeps e es w n h v c =
      let f = h.schedule.fits.0 in
      let small : e.index < length w.live =
        omega (arith, get_elem?-lt p plans plans e.index f.plan f.at, v.size) in
      elim (Bool-cases e.is_end) [
        | inl q ↦
            let (u, l, steps, at, one) = emit_event-end e es w n h v q in
            (
              record u { live = set u.live e.index none },
              steps,
              subst (λ x. IsLive p plans es (set x e.index none)) (sym one.live_then)
                  (end_IsLive p plans e es w.live h q small v),
              end_IsCounted p plans w u e.index l at one c,
              ap length one.opened_then ∙ rw q (omega arith),
            )
        | inr q ↦
            let (u, l, steps, one) = emit_event-start e es w n h v q in
            (
              u,
              steps,
              subst (IsLive p plans es) (sym one.live_then)
                  (start_IsLive p plans e es w.live l h q small v),
              start_IsCounted p plans w u e.index l small (closed_before e es w.live v q) one c,
              ap length one.opened_then ∙ rw q (omega arith),
            )
      ]
