-- ===== src/Emit/Ends.antt =====
-- pkg/synth/emit.go, emitTrace: the whole replay of a nested trace, with and without cancellation.
use mathlib.Core.Option.{none-ne-some}
use motel.Prelude.{
  ℕ, zero, suc, ◌+◌, ◌<◌, ◌≡◌, sym, ap, ◌∙◌, Bool, true, false, List, [], ◌∷◌, Option, none, some,
  length, get_elem?, set, length-set, arith, ◌⊎◌, inl, inr,
}
use motel.Platform.{Platform}
use motel.Engine.World.{SpanPlan}
use motel.Emit.{SpanEvent, LiveSpan, Emitting, live_at}
use motel.Emit.Events.{left}
use motel.Emit.Live.{
  count, count_open, count_ended, count_open-open, count_open-close, live_at-here, live_at-other,
  StartsWith, EndsOne,
}
use motel.Emit.Timed.{IsTimed}

module _ (p : Platform) (plans : List (SpanPlan p)) where
  open p use {SpanContext, Provider}

  -- The open spans are those of the plans that were started and have not ended.
  pub record IsLive (es : List SpanEvent) (live : List (Option (LiveSpan p))) : Type 0 where
    pub size : length live ≡ length plans
    pub running :
        (i : ℕ)
        → left false i es ≡ 0
        → left true i es ≡ 1
        → (l : LiveSpan p) × (live_at p live i ≡ some l)
    pub only :
        (i : ℕ) (l : LiveSpan p)
        → live_at p live i ≡ some l
        → (left false i es ≡ 0) × (left true i es ≡ 1)

  pub get_elem?-lt :
      (xs : List (SpanPlan p)) (i : ℕ) (s : SpanPlan p) → get_elem? xs i ≡ some s → i < length xs
  get_elem?-lt [] i s e = ground (arith, e)
  get_elem?-lt (x ∷ xs) zero s e = omega arith
  get_elem?-lt (x ∷ xs) (suc i) s e = let h = get_elem?-lt xs i s e in omega arith

  -- A start changes the counts of its own plan alone.
  pub started :
      (e : SpanEvent) (es : List SpanEvent) (i : ℕ)
      → IsTimed p plans (e ∷ es)
      → e.is_end ≡ false
      → (e.index ≡ i → (left false i es ≡ 0) × (left true i es ≡ 1))
        × (¬ e.index ≡ i → left false i (e ∷ es) ≡ left false i es)
        × (left true i (e ∷ es) ≡ left true i es)
  started e es i h q =
      let a = h.once false i in
      let b = h.once true i in let c = h.later i in ground (arith, a, b, c, q)

  pub ended :
      (e : SpanEvent) (es : List SpanEvent) (i : ℕ)
      → IsTimed p plans (e ∷ es)
      → e.is_end ≡ true
      → (e.index ≡ i → left true i es ≡ 0)
        × (¬ e.index ≡ i → left true i (e ∷ es) ≡ left true i es)
        × (left false i (e ∷ es) ≡ left false i es)
  ended e es i h q = let b = h.once true i in ground (arith, b, q)

  ≡_cases : (i j : ℕ) → (i ≡ j) ⊎ (¬ i ≡ j)
  ≡_cases i j = omega arith

  pub start_IsLive :
      (e : SpanEvent) (es : List SpanEvent) (live : List (Option (LiveSpan p))) (l : LiveSpan p)
      → IsTimed p plans (e ∷ es)
      → e.is_end ≡ false
      → e.index < length live
      → IsLive (e ∷ es) live
      → IsLive es (set live e.index (some l))
  start_IsLive e es live l h q small v = record {
    size = length-set live e.index (some l) ∙ v.size;
    running = λ i a b.
        let (own, other, ends) = started e es i h q in
        elim (≡_cases e.index i) [
          | inl r ↦ (l, live_at-here p live e.index i (some l) small r)
          | inr n ↦
              let (m, at) = v.running i (other n ∙ a) (ends ∙ b) in
              (m, live_at-other p live e.index i (some l) small n ∙ at)
        ];
    only = λ i m at.
        let (own, other, ends) = started e es i h q in
        elim (≡_cases e.index i) [
          | inl r ↦ own r
          | inr n ↦
              let (a, b) =
                v.only i m (sym (live_at-other p live e.index i (some l) small n) ∙ at) in
              (sym (other n) ∙ a, sym ends ∙ b)
        ];
  }

  pub end_IsLive :
      (e : SpanEvent) (es : List SpanEvent) (live : List (Option (LiveSpan p)))
      → IsTimed p plans (e ∷ es)
      → e.is_end ≡ true
      → e.index < length live
      → IsLive (e ∷ es) live
      → IsLive es (set live e.index none)
  end_IsLive e es live h q small v = record {
    size = length-set live e.index none ∙ v.size;
    running = λ i a b.
        let (own, other, starts) = ended e es i h q in
        elim (≡_cases e.index i) [
          | inl r ↦ absurd (omega (arith, own r, b))
          | inr n ↦
              let (m, at) = v.running i (starts ∙ a) (other n ∙ b) in
              (m, live_at-other p live e.index i none small n ∙ at)
        ];
    only = λ i m at.
        let (own, other, starts) = ended e es i h q in
        elim (≡_cases e.index i) [
          | inl r ↦ absurd (none-ne-some m (sym (live_at-here p live e.index i none small r) ∙ at))
          | inr n ↦
              let (a, b) = v.only i m (sym (live_at-other p live e.index i none small n) ∙ at) in
              (sym starts ∙ a, sym (other n) ∙ b)
        ];
  }

  -- The counters of the spans that were opened, are open, and were ended.
  pub record IsCounted (w : Emitting p) : Type 0 where
    pub balance :
        (q : SpanContext → Bool)
        → count_ended p q w.output + count_open p q w.live ≡ count p q w.opened
    pub counted : w.spans ≡ count_ended p (λ _. true) w.output

  pub start_IsCounted :
      (w v : Emitting p) (i : ℕ) (l : LiveSpan p)
      → i < length w.live
      → live_at p w.live i ≡ none
      → StartsWith p w v i l
      → IsCounted w
      → IsCounted v
  start_IsCounted w v i l small free s c = record {
    balance = λ q.
        let a = s.ended_then q in
        let b = ap (count_open p q) s.live_then ∙ count_open-open p q w.live i l small free in
        let d = ap (count p q) s.opened_then in let e = c.balance q in omega (arith, a, b, d, e);
    counted =
        let a = s.ended_then (λ _. true) in
        let b = s.spans_then in let d = c.counted in omega (arith, a, b, d);
  }

  pub end_IsCounted :
      (w v : Emitting p) (i : ℕ) (l : LiveSpan p)
      → live_at p w.live i ≡ some l
      → EndsOne p w v l.span
      → IsCounted w
      → IsCounted (record v { live = set v.live i none })
  end_IsCounted w v i l at s c = record {
    balance = λ q.
        let a = s.ended_then q in
        let b = ap (λ x. count_open p q (set x i none)) s.live_then in
        let f = count_open-close p q w.live i l at in
        let d = ap (count p q) s.opened_then in let e = c.balance q in omega (arith, a, b, d, e, f);
    counted =
        let a = s.ended_then (λ _. true) in
        let b = s.spans_then in let d = c.counted in omega (arith, a, b, d);
  }
