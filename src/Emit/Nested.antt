-- ===== src/Emit/Nested.antt =====
-- pkg/synth/emit.go and plan.go: the times of a planned trace that the replay relies on, and what
-- they say of the order of its events.
use mathlib.Core.Option.{some-injective}
use motel.Prelude.{
  ℕ, ◌≤◌, ◌<◌, ◌≡◌, refl, sym, subst, ap, ◌∙◌, Bool, true, false, ◌&&◌, List, [], ◌∷◌, some,
  if◌then◌else◌, get_elem?, ◌==◌, All, arith, inl, inr, Bool-cases,
}
use motel.Prelude.Int.{ℤ, ◌≤ℤ◌}
use motel.Platform.{Platform}
use motel.Engine.World.{SpanPlan}
use motel.Emit.{SpanEvent, goes_first}
use motel.Emit.Events.{Fits, IsSchedule, left, same}

module _ (p : Platform) where
  -- A plan does not end before it starts, and it starts while its parent, which has a lower index,
  -- runs.
  pub record IsNested (plans : List (SpanPlan p)) : Type 0 where
    pub lasts : (i : ℕ) (s : SpanPlan p) → get_elem? plans i ≡ some s → s.start_time ≤ℤ s.end_time
    pub inside :
        (i j : ℕ) (s : SpanPlan p)
        → get_elem? plans i ≡ some s
        → s.parent_index ≡ some j
        → (t : SpanPlan p) × (get_elem? plans j ≡ some t)
          × (j < i)
          × (t.start_time ≤ℤ s.start_time)
          × (s.start_time ≤ℤ t.end_time)

  hit : (a c : Bool) (i j : ℕ) → (same a c && i == j) ≡ true → (c ≡ a) × (i ≡ j)
  hit true true i j h = (refl, ground arith)
  hit true false i j h = ground arith
  hit false true i j h = ground arith
  hit false false i j h = (refl, ground arith)

  -- An event of a plan that is still to come.
  find_event :
      (P : SpanEvent → Type 0) (b : Bool) (i : ℕ) (es : List SpanEvent)
      → All P es
      → 1 ≤ left b i es
      → (e : SpanEvent) × P e × (e.is_end ≡ b) × (e.index ≡ i)
  find_event P b i [] h k = absurd (omega (arith, k))
  find_event P b i (e ∷ es) h k = elim (Bool-cases (same b e.is_end && e.index == i)) [
    | inl q ↦ let (x, y) = hit b e.is_end e.index i q in (e, h.0, x, y)
    | inr q ↦ find_event P b i es h.1 (ground arith)
  ]

  All-both :
      (P Q : SpanEvent → Type 0) (es : List SpanEvent)
      → All P es
      → All Q es
      → All (λ e. P e × Q e) es
  All-both P Q [] h k = tt
  All-both P Q (e ∷ es) h k = ((h.0, k.0), All-both P Q es h.1 k.1)

  -- The time of an event of a known plan.
  pub Fits-time :
      (plans : List (SpanPlan p)) (e : SpanEvent) (s : SpanPlan p)
      → Fits p plans e
      → get_elem? plans e.index ≡ some s
      → e.sim_time ≡ (if e.is_end then s.end_time else s.start_time)
  Fits-time plans e s f at =
      subst (λ (x : SpanPlan p). e.sim_time ≡ (if e.is_end then x.end_time else x.start_time))
        (some-injective f.plan s (sym f.at ∙ at)) f.time

  event_eq :
      (x : SpanEvent) (t : ℤ) (i : ℕ)
      → x.sim_time ≡ t
      → x.index ≡ i
      → x.is_end ≡ false
      → x ≡ record { sim_time = t; index = i; is_end = false }
  event_eq x t i q r n = λ k. record { sim_time = q k; index = r k; is_end = n k }

  -- The start of a plan that is among the events after the first.
  pub start_of :
      (plans : List (SpanPlan p)) (i : ℕ) (s : SpanPlan p) (e : SpanEvent) (es : List SpanEvent)
      → get_elem? plans i ≡ some s
      → IsSchedule p plans (e ∷ es)
      → 1 ≤ left false i es
      → goes_first e (record { sim_time = s.start_time; index = i; is_end = false }) ≡ true
  start_of plans i s e es at h l =
      let (x, (first, f), is_start, here) =
        find_event (λ x. (goes_first e x ≡ true) × Fits p plans x) false i es
          (All-both _ _ es h.in_order.0 h.fits.1) l in
      let time = Fits-time plans x s f (ap (get_elem? plans) here ∙ at) in
      subst (λ v. goes_first e v ≡ true)
        (event_eq x s.start_time i (time ∙ (rw is_start refl)) here is_start) first

  -- No start comes after an end of a plan that lasts until then.
  pub start_after_end :
      (e : SpanEvent) (s t : SpanPlan p) (i : ℕ)
      → goes_first e (record { sim_time = s.start_time; index = i; is_end = false }) ≡ true
      → e.is_end ≡ true
      → e.sim_time ≡ t.end_time
      → ¬ s.start_time ≤ℤ t.end_time
  unfolding goes_first
  start_after_end e s t i g q r h = ground arith

  -- Starts are in the order of their times and indices.
  pub start_after_start :
      (e : SpanEvent) (s t : SpanPlan p) (i : ℕ)
      → goes_first e (record { sim_time = s.start_time; index = i; is_end = false }) ≡ true
      → e.is_end ≡ false
      → e.sim_time ≡ t.start_time
      → s.start_time ≤ℤ t.start_time
      → e.index ≤ i
  unfolding goes_first
  start_after_start e s t i g q r h = ground arith
