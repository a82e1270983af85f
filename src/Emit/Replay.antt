-- ===== src/Emit/Replay.antt =====
-- pkg/synth/emit.go, emitTrace: every span that a replay starts ends exactly once.
use mathlib.Core.Option.{none-ne-some}
use motel.Prelude.{
  ℕ, zero, suc, ◌+◌, ◌≡◌, refl, sym, ap, ◌∙◌, Bool, true, false, List, [], ◌∷◌, Option, none, some,
  length, arith, inl, inr, Option-cases,
}
use motel.Prelude.Int.{ℤ}
use motel.Platform.{Platform}
use motel.Engine.World.{SpanPlan, Ctx, Registry}
use motel.Emit.{
  SpanEvent, build_events, LiveSpan, Emitting, live_at, emit_events, emit_trace, all_closed,
  before_events, end_all_open, events_from,
}
use motel.Emit.Events.{left-build_events}
use motel.Emit.Live.{count, count_open, count_ended, end_all_open-ends}
use motel.Emit.Nested.{IsNested}
use motel.Emit.Timed.{IsTimed, IsTimed-tail, build_events-IsTimed}
use motel.Emit.Ends.{IsLive, IsCounted}
use motel.Emit.Steps.{starts, starts-sort_events, starts-events_from, emit_event-keeps}

module _ (p : Platform) (plans : List (SpanPlan p)) (observed : Bool) (ctx : Ctx p) where
  open p use {SpanContext, Provider}

  no_open :
      (q : SpanContext → Bool) (live : List (Option (LiveSpan p)))
      → ((i : ℕ) (l : LiveSpan p) → ¬ live_at p live i ≡ some l)
      → count_open p q live ≡ 0
  no_open q [] h = refl
  no_open q (none ∷ live) h = no_open q live (λ i. h (suc i))
  no_open q (some l ∷ live) h = absurd (h 0 l refl)

  -- All spans that were opened are ended, and counted.
  pub record AreEnded (w : Emitting p) : Type 0 where
    pub ends : (q : SpanContext → Bool) → count_ended p q w.output ≡ count p q w.opened
    pub number : w.spans ≡ length w.opened

  length-count : (scs : List SpanContext) → count p (λ _. true) scs ≡ length scs
  length-count [] = refl
  length-count (x ∷ scs) = omega (arith, length-count scs)

  complete_AreEnded : (w : Emitting p) → IsLive p plans [] w.live → IsCounted p plans w → AreEnded w
  complete_AreEnded w v c =
      let closed : (i : ℕ) (l : LiveSpan p) → ¬ live_at p w.live i ≡ some l =
        λ i l at. let gone = v.only i l at in absurd (omega (arith, gone.1)) in
      let ends : (q : SpanContext → Bool) → count_ended p q w.output ≡ count p q w.opened =
        λ q. omega (arith, c.balance q, no_open q w.live closed) in
      record { ends = ends; number = c.counted ∙ ends (λ _. true) ∙ length-count w.opened }

  cancelled_AreEnded :
      (now : ℤ) (w : Emitting p)
      → length w.live ≡ length plans
      → IsCounted p plans w
      → AreEnded (end_all_open p plans observed now plans w.live w)
  cancelled_AreEnded now w size c =
      let s = end_all_open-ends p plans observed now plans w.live w size in
      let ends = λ (q : SpanContext → Bool).
        s.ended_then q ∙ c.balance q ∙ ap (count p q) (sym s.opened_then) in
      record {
        ends = ends;
        number =
            s.spans_then
            ∙ ap (λ n. n + count_open p (λ _. true) w.live) c.counted
            ∙ sym (s.ended_then (λ _. true))
            ∙ ends (λ _. true)
            ∙ length-count _;
      }

  -- Where the context is never done, every plan has its span.
  abbrev pub Opens : (ℕ → Option ℤ) → Emitting p → ℕ → Type 0
  Opens cancel v n = ((k : ℕ) → cancel k ≡ none) → length v.opened ≡ n

  emit_events-AreEnded :
      (cancel : ℕ → Option ℤ) (n : ℕ) (es : List SpanEvent) (w : Emitting p)
      → IsNested p plans
      → IsTimed p plans es
      → IsLive p plans es w.live
      → IsCounted p plans w
      → (v : Emitting p) × (emit_events p plans observed ctx cancel n es w ≡ some v)
        × AreEnded v
        × Opens cancel v (length w.opened + starts es)
  unfolding emit_events
  emit_events-AreEnded cancel n [] w nested h v c =
      (w, refl, complete_AreEnded w v c, λ _. omega arith)
  emit_events-AreEnded cancel n (e ∷ es) w nested h v c = elim (Option-cases (cancel n)) [
    | inr (now, r) ↦ (
      end_all_open p plans observed now plans w.live w,
      rw (r, emit_events) refl,
      cancelled_AreEnded now w v.size c,
      λ never. absurd (none-ne-some now (sym (never n) ∙ r)),
    )
    | inl r ↦
        let (u, steps, v', c', more) = emit_event-keeps p plans observed ctx e es w nested h v c in
        let (x, ends, all_ended, all_opened) =
          emit_events-AreEnded cancel (suc n) es u nested (IsTimed-tail p plans e es nested h) v'
            c' in
        (
          x,
          rw (r, emit_events, steps) ends,
          all_ended,
          λ never. omega (arith, all_opened never, more),
        )
  ]

  all_closed-none :
      (xs : List (SpanPlan p)) (i : ℕ) (l : LiveSpan p) → ¬ live_at p (all_closed p xs) i ≡ some l
  all_closed-none [] i l e = none-ne-some l e
  all_closed-none (s ∷ xs) zero l e = none-ne-some l e
  all_closed-none (s ∷ xs) (suc i) l e = all_closed-none xs i l e

  length-all_closed : (xs : List (SpanPlan p)) → length (all_closed p xs) ≡ length xs
  length-all_closed [] = refl
  length-all_closed (s ∷ xs) = omega (arith, length-all_closed xs)

  count_open-all_closed :
      (q : SpanContext → Bool) (xs : List (SpanPlan p)) → count_open p q (all_closed p xs) ≡ 0
  count_open-all_closed q [] = refl
  count_open-all_closed q (s ∷ xs) = count_open-all_closed q xs

  build_events-IsLive : IsLive p plans (build_events p plans) (all_closed p plans)
  build_events-IsLive = record {
    size = length-all_closed plans;
    running = λ i a b.
        let k = left-build_events p false i plans in
        let l = left-build_events p true i plans in absurd (omega (arith, k, l, a, b));
    only = λ i l at. absurd (all_closed-none plans i l at);
  }

  starts-build_events : starts (build_events p plans) ≡ length plans
  unfolding build_events
  starts-build_events = starts-sort_events (events_from p 0 plans) ∙ starts-events_from p 0 plans

  -- Plans in which every span runs while its parent runs are replayed to the end, no parent's
  -- context is missing, and every span that is started is ended exactly once and counted once,
  -- whether and whenever the context is done; where it never is, every plan has its span.
  pub emit_trace-AreEnded :
      (cancel : ℕ → Option ℤ) (provider : Provider) (registry : Option (Registry p))
      → IsNested p plans
      → (v : Emitting p) × (emit_trace p plans observed ctx cancel provider registry ≡ some v)
        × AreEnded v
        × Opens cancel v (length plans)
  unfolding emit_trace
  emit_trace-AreEnded cancel provider registry nested =
      let (v, run, all_ended, all_opened) =
        emit_events-AreEnded cancel 0 (build_events p plans)
          (before_events p plans provider registry) nested (build_events-IsTimed p plans nested)
          build_events-IsLive
          (record {
            balance = λ q. omega (arith, count_open-all_closed q plans);
            counted = refl;
          }) in
      (v, run, all_ended, λ never. omega (arith, all_opened never, starts-build_events))
