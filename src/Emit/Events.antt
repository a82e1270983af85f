-- ===== src/Emit/Events.antt =====
-- pkg/synth/emit.go, buildEvents: the events are in order, each plan has one start and one end among
-- them, and they carry the plan's times.
use motel.Prelude.{
  ℕ, suc, ◌+◌, ◌≡◌, refl, subst, ap, ◌∙◌, Bool, true, false, ◌&&◌, not, List, [], ◌∷◌, some,
  if◌then◌else◌, leb, ltb, length, get_elem?, ◌==◌, All, arith, inl, inr, Bool-cases,
}
use motel.Platform.{Platform}
use motel.Engine.World.{SpanPlan}
use motel.Emit.{SpanEvent, goes_first, place_event, sort_events, events_from, build_events, tie}

tie_total : (a : Bool) (i : ℕ) (b : Bool) (j : ℕ) → tie a i b j ≡ false → tie b j a i ≡ true
tie_total true i true j h = ground arith
tie_total true i false j h = refl
tie_total false i true j h = ground arith
tie_total false i false j h = ground arith

tie_trans :
    (a : Bool) (i : ℕ) (b : Bool) (j : ℕ) (c : Bool) (k : ℕ)
    → tie a i b j ≡ true
    → tie b j c k ≡ true
    → tie a i c k ≡ true
tie_trans true i true j true k g h = ground arith
tie_trans true i true j false k g h = h
tie_trans true i false j c k g h = ground arith
tie_trans false i b j true k g h = refl
tie_trans false i false j false k g h = ground arith
tie_trans false i true j false k g h = ground arith

goes_first_total : (a b : SpanEvent) → goes_first a b ≡ false → goes_first b a ≡ true
unfolding goes_first
goes_first_total a b h = ground (arith, tie_total a.is_end a.index b.is_end b.index)

goes_first_trans :
    (a b c : SpanEvent) → goes_first a b ≡ true → goes_first b c ≡ true → goes_first a c ≡ true
unfolding goes_first
goes_first_trans a b c g h =
    ground (arith, tie_trans a.is_end a.index b.is_end b.index c.is_end c.index)

-- Every event goes before those that follow it.
abbrev pub IsInOrder : List SpanEvent → Type 0
IsInOrder [] = Unit
IsInOrder (e ∷ es) = All (λ x. goes_first e x ≡ true) es × IsInOrder es

place_event-All {ℓ} :
    (P : SpanEvent → Type ℓ) (e : SpanEvent) (es : List SpanEvent)
    → P e
    → All P es
    → All P (place_event e es)
unfolding place_event
place_event-All P e [] h k = (h, tt)
place_event-All P e (x ∷ xs) h k =
    let rest = place_event-All P e xs h k.1 in
    elim (goes_first e x) as (λ b. All P (if b then e ∷ x ∷ xs else x ∷ place_event e xs)) [
      | true ↦ (h, k)
      | false ↦ (k.0, rest)
    ]

sort_events-All {ℓ} :
    (P : SpanEvent → Type ℓ) (es : List SpanEvent) → All P es → All P (sort_events es)
unfolding sort_events
sort_events-All P [] h = h
sort_events-All P (e ∷ es) h = place_event-All P e (sort_events es) h.0 (sort_events-All P es h.1)

All-goes_first :
    (a b : SpanEvent) (es : List SpanEvent)
    → goes_first a b ≡ true
    → All (λ x. goes_first b x ≡ true) es
    → All (λ x. goes_first a x ≡ true) es
All-goes_first a b [] g h = tt
All-goes_first a b (x ∷ xs) g h = (goes_first_trans a b x g h.0, All-goes_first a b xs g h.1)

place_event-IsInOrder :
    (e : SpanEvent) (es : List SpanEvent) → IsInOrder es → IsInOrder (place_event e es)
unfolding place_event
place_event-IsInOrder e [] h = (tt, tt)
place_event-IsInOrder e (x ∷ xs) h =
    let rest = place_event-IsInOrder e xs h.1 in
    elim (Bool-cases (goes_first e x)) [
      | inl q ↦ rw (q, place_event) ((q, All-goes_first e x xs q h.0), h)
      | inr q ↦
          rw (q, place_event)
            (place_event-All (λ y. goes_first x y ≡ true) e xs (goes_first_total e x q) h.0, rest)
    ]

sort_events-IsInOrder : (es : List SpanEvent) → IsInOrder (sort_events es)
unfolding sort_events
sort_events-IsInOrder [] = tt
sort_events-IsInOrder (e ∷ es) = place_event-IsInOrder e (sort_events es) (sort_events-IsInOrder es)

abbrev pub same : Bool → Bool → Bool
same true b = b
same false b = not b

-- How many starts, or ends, of a plan are among the events.
abbrev pub left : Bool → ℕ → List SpanEvent → ℕ
left b i [] = 0
left b i (e ∷ es) = (if same b e.is_end && e.index == i then 1 else 0) + left b i es

left-place_event :
    (b : Bool) (i : ℕ) (e : SpanEvent) (es : List SpanEvent)
    → left b i (place_event e es) ≡ left b i (e ∷ es)
unfolding place_event
left-place_event b i e [] = refl
left-place_event b i e (x ∷ xs) = let rest = left-place_event b i e xs in ground arith

left-sort_events :
    (b : Bool) (i : ℕ) (es : List SpanEvent) → left b i (sort_events es) ≡ left b i es
unfolding sort_events
left-sort_events b i [] = refl
left-sort_events b i (e ∷ es) =
    left-place_event b i e (sort_events es) ∙ (let h = left-sort_events b i es in omega arith)

module _ (p : Platform) where
  left-events_from :
      (b : Bool) (i k : ℕ) (plans : List (SpanPlan p))
      → left b i (events_from p k plans) ≡ (if leb k i && ltb i (k + length plans) then 1 else 0)
  unfolding events_from
  left-events_from b i k [] = ground arith
  left-events_from true i k (s ∷ plans) =
      let h = left-events_from true i (suc k) plans in ground arith
  left-events_from false i k (s ∷ plans) =
      let h = left-events_from false i (suc k) plans in ground arith

  -- The event is the start or the end of a plan in the list, at the plan's time.
  pub record Fits (plans : List (SpanPlan p)) (e : SpanEvent) : Type 0 where
    pub plan : SpanPlan p
    pub at : get_elem? plans e.index ≡ some plan
    pub time : e.sim_time ≡ (if e.is_end then plan.end_time else plan.start_time)

  events_from-Fits :
      (all : List (SpanPlan p)) (k : ℕ) (plans : List (SpanPlan p))
      → ((i : ℕ) → get_elem? all (i + k) ≡ get_elem? plans i)
      → All (Fits all) (events_from p k plans)
  unfolding events_from
  events_from-Fits all k [] h = tt
  events_from-Fits all k (s ∷ plans) h =
      let at = subst (λ n. get_elem? all n ≡ some s) (omega arith) (h 0) in
      (
        record { plan = s; at = at; time = refl },
        (
          record { plan = s; at = at; time = refl },
          events_from-Fits all (suc k) plans
              (λ i. subst (λ n. get_elem? all n ≡ get_elem? plans i) (omega arith) (h (suc i))),
        ),
      )

  -- What the sort leaves true of the events of a trace.
  pub record IsSchedule (plans : List (SpanPlan p)) (es : List SpanEvent) : Type 0 where
    pub in_order : IsInOrder es
    pub fits : All (Fits plans) es

  pub build_events-IsSchedule :
      (plans : List (SpanPlan p)) → IsSchedule plans (build_events p plans)
  unfolding build_events
  build_events-IsSchedule plans = record {
    in_order = sort_events-IsInOrder (events_from p 0 plans);
    fits =
        sort_events-All (Fits plans) (events_from p 0 plans)
          (events_from-Fits plans 0 plans (λ i. ap (get_elem? plans) (omega arith)));
  }

  pub left-build_events :
      (b : Bool) (i : ℕ) (plans : List (SpanPlan p))
      → left b i (build_events p plans) ≡ (if ltb i (length plans) then 1 else 0)
  unfolding build_events
  left-build_events b i plans =
      let counted = left-events_from b i 0 plans in
      let sorted = left-sort_events b i (events_from p 0 plans) in ground arith
