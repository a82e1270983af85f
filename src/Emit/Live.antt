-- ===== src/Emit/Live.antt =====
-- pkg/synth/emit.go: how each step of the emission changes the open spans and the ends it has sent.
use motel.Prelude.{
  ℕ, zero, suc, ◌+◌, ◌<◌, ◌≡◌, refl, ap, ◌∙◌, Bool, true, false, List, [], ◌∷◌, ◌++◌, Option, none,
  some, if◌then◌else◌, length, set, ◌==◌, ==_iff, arith,
}
use motel.Prelude.Int.{ℤ}
use motel.Platform.{Platform}
use motel.Engine.World.{
  Emission, attributes_set, event_added, status_error, error_recorded, span_ended, start_observed,
  span_observed, plan_event, SpanPlan, Ctx,
}
use motel.Emit.{
  LiveSpan, Emitting, live_at, start_plan, finish_span, cancel_span, end_all_open, mark_error,
}

abbrev pub one_if : Bool → ℕ
one_if b = if b then 1 else 0

module _ (p : Platform) where
  open p use {SpanContext}

  -- How many of the spans pass a test.
  abbrev pub count : (SpanContext → Bool) → List SpanContext → ℕ
  count q [] = 0
  count q (sc ∷ scs) = one_if (q sc) + count q scs

  abbrev pub count_open : (SpanContext → Bool) → List (Option (LiveSpan p)) → ℕ
  count_open q [] = 0
  count_open q (none ∷ live) = count_open q live
  count_open q (some l ∷ live) = one_if (q l.span) + count_open q live

  abbrev pub end_of : (SpanContext → Bool) → Emission p → ℕ
  end_of q (span_ended sc at) = one_if (q sc)
  end_of q (attributes_set sc kvs) = 0
  end_of q (event_added sc n at kvs) = 0
  end_of q (status_error sc s) = 0
  end_of q (error_recorded sc s at) = 0
  end_of q (start_observed s o) = 0
  end_of q (span_observed i) = 0
  end_of q (plan_event k s o at) = 0

  -- How many ends of spans that pass a test were sent.
  abbrev pub count_ended : (SpanContext → Bool) → List (Emission p) → ℕ
  count_ended q [] = 0
  count_ended q (e ∷ es) = end_of q e + count_ended q es

  count_ended-write :
      (q : SpanContext → Bool) (es : List (Emission p)) (e : Emission p)
      → count_ended q (es ++ e ∷ []) ≡ count_ended q es + end_of q e
  count_ended-write q [] e = omega arith
  count_ended-write q (x ∷ es) e = omega (arith, count_ended-write q es e)

  pub count_open-open :
      (q : SpanContext → Bool) (live : List (Option (LiveSpan p))) (i : ℕ) (l : LiveSpan p)
      → i < length live
      → live_at p live i ≡ none
      → count_open q (set live i (some l)) ≡ one_if (q l.span) + count_open q live
  count_open-open q [] i l h e = omega arith
  count_open-open q (none ∷ live) zero l h e = refl
  count_open-open q (some x ∷ live) zero l h e = ground (arith, e)
  count_open-open q (none ∷ live) (suc i) l h e = count_open-open q live i l (omega arith) e
  count_open-open q (some x ∷ live) (suc i) l h e =
      let rest = count_open-open q live i l (omega arith) e in omega arith

  pub count_open-close :
      (q : SpanContext → Bool) (live : List (Option (LiveSpan p))) (i : ℕ) (l : LiveSpan p)
      → live_at p live i ≡ some l
      → one_if (q l.span) + count_open q (set live i none) ≡ count_open q live
  count_open-close q [] i l e = ground (arith, e)
  count_open-close q (none ∷ live) zero l e = ground (arith, e)
  count_open-close q (some x ∷ live) zero l e = ground (arith, e)
  count_open-close q (none ∷ live) (suc i) l e = count_open-close q live i l e
  count_open-close q (some x ∷ live) (suc i) l e =
      let rest = count_open-close q live i l e in omega arith

  ==-ne : (a b : ℕ) → (¬ a ≡ b) → (a == b) ≡ false
  ==-ne a b n = ground arith

  live_at-set :
      (live : List (Option (LiveSpan p))) (i j : ℕ) (v : Option (LiveSpan p))
      → i < length live
      → live_at p (set live i v) j ≡ (if i == j then v else live_at p live j)
  live_at-set [] i j v h = ground arith
  live_at-set (x ∷ live) zero zero v h = refl
  live_at-set (x ∷ live) zero (suc j) v h = ground arith
  live_at-set (x ∷ live) (suc i) zero v h = ground arith
  live_at-set (x ∷ live) (suc i) (suc j) v h =
      let rest = live_at-set live i j v (omega arith) in ground arith

  pub live_at-here :
      (live : List (Option (LiveSpan p))) (i j : ℕ) (v : Option (LiveSpan p))
      → i < length live
      → i ≡ j
      → live_at p (set live i v) j ≡ v
  live_at-here live i j v h e = live_at-set live i j v h ∙ rw ((==_iff i j).1 e) refl

  pub live_at-other :
      (live : List (Option (LiveSpan p))) (i j : ℕ) (v : Option (LiveSpan p))
      → i < length live
      → ¬ i ≡ j
      → live_at p (set live i v) j ≡ live_at p live j
  live_at-other live i j v h n = live_at-set live i j v h ∙ rw (==-ne i j n) refl

  -- What a step leaves of the counters: it opens and ends so many of the spans that pass the test,
  -- and touches the open spans only as the given list says.
  pub record Steps (w v : Emitting p) (live : List (Option (LiveSpan p))) (opens : List SpanContext)
      (ends : (SpanContext → Bool) → ℕ) : Type 0 where
    pub live_then : v.live ≡ live
    pub opened_then : v.opened ≡ opens ++ w.opened
    pub ended_then :
        (q : SpanContext → Bool) → count_ended q v.output ≡ count_ended q w.output + ends q
    pub spans_then : v.spans ≡ w.spans + ends (λ _. true)

  -- The span that a start of a plan opens.
  abbrev pub StartsWith : Emitting p → Emitting p → ℕ → LiveSpan p → Type 0
  StartsWith w v index l = Steps w v (set w.live index (some l)) (l.span ∷ []) (λ q. 0)

  if_same :
      (P : Emitting p → Type 0) (b : Bool) (x y : Emitting p) → P x → P y → P (if b then x else y)
  if_same P true x y h k = h
  if_same P false x y h k = k

  -- A call that ends no span.
  silent :
      (q : SpanContext → Bool) (b : Bool) (es : List (Emission p)) (e : Emission p)
      → end_of q e ≡ 0
      → count_ended q (if b then es ++ e ∷ [] else es) ≡ count_ended q es
  silent q true es e z = let h = count_ended-write q es e in omega (arith, h, z)
  silent q false es e z = refl

  add_zero : (n : ℕ) → n ≡ n + 0
  add_zero n = omega arith

  pub start_plan-StartsWith :
      (observed : Bool) (index : ℕ) (plan : SpanPlan p) (ctx : Ctx p) (w : Emitting p)
      → (l : LiveSpan p) × StartsWith w (start_plan p observed index plan ctx w) index l
  unfolding start_plan
  start_plan-StartsWith observed index plan ctx w = (
    _,
    record {
      live_then = refl;
      opened_then = refl;
      ended_then = λ q.
          silent q observed _ (start_observed plan.service plan.operation) refl
          ∙ silent q _ w.output _ refl
          ∙ add_zero _;
      spans_then = ground arith;
    },
  )

  mark_error-ended :
      (q : SpanContext → Bool) (plan : SpanPlan p) (sc : SpanContext) (w : Emitting p)
      → count_ended q (mark_error p plan sc w).output ≡ count_ended q w.output
  unfolding mark_error
  mark_error-ended q plan sc w = silent q true _ _ refl ∙ silent q true _ _ refl

  -- One span ends.
  abbrev pub EndsOne : Emitting p → Emitting p → SpanContext → Type 0
  EndsOne w v sc = Steps w v w.live [] (λ q. one_if (q sc))

  pub finish_span-EndsOne :
      (plans : List (SpanPlan p)) (observed : Bool) (plan : SpanPlan p) (sc : SpanContext)
      (w : Emitting p)
      → EndsOne w (finish_span p plans observed plan sc w) sc
  unfolding finish_span
  finish_span-EndsOne plans observed plan sc w = record {
    live_then = ground arith;
    opened_then = ground arith;
    ended_then = λ q.
        let marked =
          if_same (λ (v : Emitting p). count_ended q v.output ≡ count_ended q w.output)
            plan.is_error _ _ (mark_error-ended q plan sc w) refl in
        silent q observed _ _ refl ∙ count_ended-write q _ _ ∙ ap (λ n. n + one_if (q sc)) marked;
    spans_then = ground arith;
  }

  cancel_span-EndsOne :
      (plans : List (SpanPlan p)) (observed : Bool) (now : ℤ) (plan : SpanPlan p) (sc : SpanContext)
      (w : Emitting p)
      → EndsOne w (cancel_span p plans observed now plan sc w) sc
  unfolding cancel_span
  cancel_span-EndsOne plans observed now plan sc w = record {
    live_then = refl;
    opened_then = refl;
    ended_then = λ q.
        silent q observed _ _ refl
        ∙ count_ended-write q _ _
        ∙ ap (λ n. n + one_if (q sc)) (silent q true _ _ refl);
    spans_then = ground arith;
  }

  -- Every open span ends when the context is done.
  pub end_all_open-ends :
      (all : List (SpanPlan p)) (observed : Bool) (now : ℤ) (plans : List (SpanPlan p))
      (live : List (Option (LiveSpan p))) (w : Emitting p)
      → length live ≡ length plans
      → Steps w (end_all_open p all observed now plans live w) w.live [] (λ q. count_open q live)
  unfolding end_all_open
  end_all_open-ends all observed now [] [] w e = record {
    live_then = refl;
    opened_then = refl;
    ended_then = λ q. omega arith;
    spans_then = omega arith;
  }
  end_all_open-ends all observed now [] (l ∷ live) w e = absurd (omega (arith, e))
  end_all_open-ends all observed now (s ∷ plans) [] w e = absurd (omega (arith, e))
  end_all_open-ends all observed now (s ∷ plans) (none ∷ live) w e =
      end_all_open-ends all observed now plans live w (omega (arith, e))
  end_all_open-ends all observed now (s ∷ plans) (some l ∷ live) w e =
      let before = end_all_open-ends all observed now plans live w (omega (arith, e)) in
      let one =
        cancel_span-EndsOne all observed now s l.span
          (end_all_open p all observed now plans live w) in
      record {
        live_then = one.live_then ∙ before.live_then;
        opened_then = one.opened_then ∙ before.opened_then;
        ended_then = λ q. omega (arith, one.ended_then q, before.ended_then q);
        spans_then = omega (arith, one.spans_then, before.spans_then);
      }
