-- ===== src/Emit/Timed.antt =====
-- pkg/synth/emit.go: what is true of the events that are still to come, at every point of the replay
-- of a nested trace.
use motel.Prelude.{
  ℕ, ◌≤◌, ◌≡◌, refl, sym, ap, ◌∙◌, Bool, true, false, List, ◌∷◌, some, get_elem?, arith,
}
use motel.Prelude.Int.{◌≤ℤ◌}
use motel.Platform.{Platform}
use motel.Engine.World.{SpanPlan}
use motel.Emit.{SpanEvent, build_events}
use motel.Emit.Events.{IsSchedule, left, build_events-IsSchedule, left-build_events}
use motel.Emit.Nested.{IsNested, start_of, start_after_end, start_after_start, Fits-time}

module _ (p : Platform) (plans : List (SpanPlan p)) where
  pub record IsTimed (es : List SpanEvent) : Type 0 where
    pub schedule : IsSchedule p plans es
    -- No event is there twice.
    pub once : (b : Bool) (i : ℕ) → left b i es ≤ 1
    -- The end of a plan follows its start.
    pub later : (i : ℕ) → left false i es ≤ left true i es
    -- The end of a parent follows the start of its child.
    pub parents :
        (i j : ℕ) (s : SpanPlan p)
        → get_elem? plans i ≡ some s
        → s.parent_index ≡ some j
        → left false i es ≤ left true j es

  tail : {e : SpanEvent} {es : List SpanEvent} → IsSchedule p plans (e ∷ es) → IsSchedule p plans es
  tail h = record { in_order = h.in_order.1; fits = h.fits.1 }

  -- The end of a plan at which a start comes that belongs to the time before.
  no_start :
      (e : SpanEvent) (es : List SpanEvent) (i j : ℕ) (s t : SpanPlan p)
      → IsSchedule p plans (e ∷ es)
      → get_elem? plans i ≡ some s
      → get_elem? plans j ≡ some t
      → s.start_time ≤ℤ t.end_time
      → e.is_end ≡ true
      → e.index ≡ j
      → left false i es ≤ 0
  no_start e es i j s t h at_i at_j k q r =
      let time = Fits-time p plans e t h.fits.0 (ap (get_elem? plans) r ∙ at_j) ∙ rw q refl in
      let late = λ (l : 1 ≤ left false i es).
        start_after_end p e s t i (start_of p plans i s e es at_i h l) q time k in
      omega (arith, late)

  pub IsTimed-tail :
      (e : SpanEvent) (es : List SpanEvent) → IsNested p plans → IsTimed (e ∷ es) → IsTimed es
  IsTimed-tail e es n h = record {
    schedule = tail h.schedule;
    once = λ b i. let k = h.once b i in ground (arith, k);
    later = λ i.
        let own = λ (q : e.is_end ≡ true) (r : e.index ≡ i).
          let f = h.schedule.fits.0 in
          let at = ap (get_elem? plans) (sym r) ∙ f.at in
          no_start e es i i f.plan f.plan h.schedule at at (n.lasts i f.plan at) q r in
        let k = h.later i in ground (arith, own, k);
    parents = λ i j s at_i par.
        let (t, at_j, below, from, until) = n.inside i j s at_i par in
        let child = no_start e es i j s t h.schedule at_i at_j until in
        let k = h.parents i j s at_i par in ground (arith, child, k);
  }

  -- What holds before the first event.
  pub build_events-IsTimed : IsNested p plans → IsTimed (build_events p plans)
  build_events-IsTimed n = record {
    schedule = build_events-IsSchedule p plans;
    once = λ b i. let k = left-build_events p b i plans in ground (arith, k);
    later = λ i.
        let k = left-build_events p false i plans in
        let l = left-build_events p true i plans in omega (arith, k, l);
    parents = λ i j s at_i par.
        let (t, at_j, below, from, until) = n.inside i j s at_i par in
        let k = left-build_events p false i plans in
        let l = left-build_events p true j plans in ground (arith, k, l, below);
  }

  -- When a plan is started its parent was started and has not ended.
  pub parent_running :
      (e : SpanEvent) (es : List SpanEvent) (s : SpanPlan p) (j : ℕ)
      → IsNested p plans
      → IsTimed (e ∷ es)
      → e.is_end ≡ false
      → get_elem? plans e.index ≡ some s
      → s.parent_index ≡ some j
      → (left false j (e ∷ es) ≡ 0) × (left true j (e ∷ es) ≡ 1)
  parent_running e es s j n h q at par =
      let (t, at_j, below, from, until) = n.inside e.index j s at par in
      let time = Fits-time p plans e s h.schedule.fits.0 at ∙ rw q refl in
      let late = λ (l : 1 ≤ left false j es).
        start_after_start p e t s j (start_of p plans j t e es at_j h.schedule l) q time from in
      let k = h.parents e.index j s at par in
      let m = h.once true j in (ground (arith, below, late, q), ground (arith, k, m, q))
