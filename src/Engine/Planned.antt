-- ===== src/Engine/Planned.antt =====
-- pkg/synth/plan.go: planTrace plans every span inside the window of its parent's.
use mathlib.Core.Option.{some-injective, none-ne-some}
use motel.Prelude.{
  ℕ, zero, suc, ◌+◌, ◌≡◌, refl, sym, subst, ap, ◌∙◌, Bool, true, false, ◌||◌, String, List, [], ◌∷◌,
  ◌++◌, Option, none, some, Dict, arith, length, length-append, get_elem?, set, Bool-cases,
  Option-cases, inl, inr, All, if◌then◌else◌, leb,
}
use motel.Prelude.Int.{ℤ, pos, negsuc, ◌-ℤ◌, ◌≤ℤ◌, ◌+ℤ◌, int_laws, half, wrap_64, IsInt64}
use motel.Platform.{Platform, IsOrdered}
use motel.State.Load.{admit-duration_mult}
use motel.Topology.Types.{Call, Override, Distribution}
use motel.Topology.Calls.{effective_calls, effective_error_rate}
use motel.State.{Reason, OperationState, Admission, since}
use motel.Engine.World.{SpanPlan, World, Engine, Outcome, Result, sample, time_sub}
use motel.Engine.Loops.{
  op_of, get_state, scaled, fires, skipped, ActiveCall, active_calls, Progress, attempts, run_calls,
  Verdict, refused, passes, gate, gate_state, effective_duration, effective_attributes, leave,
}
use motel.Engine.Spans.{rejection_duration}
use motel.Engine.Walk.{is_sequential}
use motel.Engine.Counts.{gate-Same, leave-Same}
use motel.Engine.Plan.{
  plan_rejection_span, begin_plan, Planned, fill, finish_plan, plan_end, before_plan_calls,
  plan_verdict, plan_trace,
}
use motel.Engine.Windows.{get_elem?-end, Grown, Grown-refl, Grown-one, Grown-own}
use motel.Engine.Nested.{IsWaited, Nests, Ran, IsExec, attempts-IsExec, run_calls-Ran}

-- A duration that is drawn.
abbrev pub IsDuration : ℤ → Type 0
IsDuration d = (pos 0 ≤ℤ d) × IsInt64 d

half-nonneg : (d : ℤ) → IsDuration d → pos 0 ≤ℤ half d
unfolding half
half-nonneg (pos n) h = ground arith
half-nonneg (negsuc n) h = ground (arith, h.0)

rest-nonneg : (d : ℤ) → IsDuration d → pos 0 ≤ℤ since d (half d)
unfolding half wrap_64 ◌-ℤ◌
rest-nonneg (pos n) h = ground (arith, h.1.0)
rest-nonneg (negsuc n) h = ground (arith, h.0)

module _ (p : Platform) (eng : Engine p) where
  open p use {fl, Rng}
  open fl use {F, lt, lit}

  IsWaited-if :
      (b : Bool) (c : Call p) (i : ℕ) (rest : List (ActiveCall p))
      → IsWaited p eng c
      → All (λ a. IsWaited p eng a.call) rest
      → All
          (λ (a : ActiveCall p). IsWaited p eng a.call)
          (if b then record { call = c; choice_index = i } ∷ rest else rest)
  IsWaited-if true c i rest h k = (h, k)
  IsWaited-if false c i rest h k = k

  active_calls-All :
      (op : ℕ) (failed : Bool) (i : ℕ) (cs : List (Call p)) (g : Rng)
      → All (IsWaited p eng) cs
      → All (λ a. IsWaited p eng a.call) (active_calls p eng op failed i cs g).0
  unfolding active_calls
  active_calls-All op failed i [] g h = tt
  active_calls-All op failed i (c ∷ cs) g h = elim (Bool-cases (skipped p c failed)) [
    | inl e ↦ rw (e, active_calls) (active_calls-All op failed (suc i) cs g h.1)
    | inr e ↦
        let (fire, g') = fires p eng op i c g in
        rw (e, active_calls)
          (IsWaited-if fire c i (active_calls p eng op failed (suc i) cs g').0 h.0
            (active_calls-All op failed (suc i) cs g' h.1))
  ]

  -- Whatever an admitted request goes on with, a duration is drawn from it.
  abbrev Lasts : Verdict p → Type 0
  Lasts (refused r) = Unit
  Lasts (passes d r) = (g : Rng) → IsDuration (sample p d g).0

  -- What is known of the durations of a distribution that is slowed.
  abbrev Slows : Distribution → Type 0
  Slows d =
      (m : F) (g : Rng)
      → lt (lit 1 1) m ≡ true
      → lt (lit 10 1) m ≡ false
      → IsDuration (sample p (scaled p d m) g).0

  scaled-Lasts :
      (d : Distribution) (m : F) (g : Rng)
      → lt (lit 10 1) m ≡ false
      → IsDuration (sample p d g).0
      → Slows d
      → IsDuration (sample p (scaled p d m) g).0
  scaled-Lasts d m g l h k = elim (Bool-cases (lt (lit 1 1) m)) [
    | inl e ↦ k m g e l
    | inr e ↦
        let same : scaled p d m ≡ d = ground (arith, e) in
        subst (λ (x : Distribution). IsDuration (sample p x g).0) (sym same) h
  ]

  gate_state-Lasts :
      (op : ℕ) (start : ℤ) (d : Distribution) (rate : F) (w : World p) (s : OperationState fl)
      (a : Admission fl)
      → (a.rejected ≡ false → lt (lit 10 1) a.duration_mult ≡ false)
      → ((g : Rng) → IsDuration (sample p d g).0)
      → Slows d
      → Lasts (gate_state p eng op start d rate w (s, a)).verdict
  unfolding gate_state
  gate_state-Lasts op start d rate w s a c h k = elim (Bool-cases a.rejected) [
    | inl e ↦ rw (e, gate_state) tt
    | inr e ↦ rw (e, gate_state) (λ g. scaled-Lasts d a.duration_mult g (c e) (h g) k)
  ]

  gate-Lasts :
      (op : ℕ) (start elapsed : ℤ) (d : Distribution) (rate : F) (w : World p)
      → IsOrdered fl
      → ((g : Rng) → IsDuration (sample p d g).0)
      → Slows d
      → Lasts (gate p eng op start elapsed d rate w).verdict
  unfolding gate
  gate-Lasts op start elapsed d rate w ord h k =
      elim (Option-cases (get_state p w (op_of p eng op).ref)) [
        | inl e ↦ rw (e, gate) h
        | inr (s, e) ↦
            rw (e, gate)
              (gate_state-Lasts op start d rate w _ _ (admit-duration_mult fl ord s elapsed) h k)
      ]

  fill-set :
      (n : ℕ) (at : ℤ) (is_error : Bool) (plans : List (SpanPlan p)) (s : SpanPlan p)
      → get_elem? plans n ≡ some s
      → fill p n at is_error plans ≡ set plans n (record s { end_time = at; is_error = is_error })
  unfolding fill
  fill-set n at is_error plans s e = rw (e, fill) refl

  -- Drawn durations are of int64 and not negative, also where the mean was multiplied by a factor
  -- above 1 and up to 10, and calls are as validation has them.
  pub record IsTimely (overrides : Dict (Override p)) : Type 0 where
    pub drawn :
        (op : ℕ) (g : Rng) → IsDuration (sample p (effective_duration p eng op overrides) g).0
    pub slowed :
        (op : ℕ) (m : F) (g : Rng)
        → lt (lit 1 1) m ≡ true
        → lt (lit 10 1) m ≡ false
        → IsDuration (sample p (scaled p (effective_duration p eng op overrides) m) g).0
    pub waited : (op : ℕ) → All (IsWaited p eng) (effective_calls p eng.topology op overrides)

  module _ (elapsed : ℤ) (overrides : Dict (Override p)) (names : List String) where
    -- The end of a plan, after its calls.
    finish_plan-Grown :
        (op : ℕ) (us : List (SpanPlan p)) (s : SpanPlan p) (d : Planned p) (x : Progress p)
        (o : Outcome p)
        → IsDuration d.duration
        → Ran p eng (length us) (s.start_time +ℤ half d.duration) (us ++ s ∷ []) x
        → finish_plan p eng op s.start_time elapsed (length us) d (some x) ≡ some o
        → (s.start_time ≤ℤ o.at) × Grown p s.parent_index s.start_time s.start_time us o.world.plans
    unfolding finish_plan
    finish_plan-Grown op us s d x o h r eq =
        let start = s.start_time in
        let at = plan_end p d x in
        let is_error = d.failed || x.any_failed in
        let done = record s { end_time = at; is_error = is_error } in
        let v = record (x.world) { plans = fill p (length us) at is_error (x.world).plans } in
        let first : start ≤ℤ start +ℤ half d.duration =
          omega (int_laws, half-nonneg d.duration h) in
        let up : start +ℤ half d.duration ≤ℤ x.latest = omega (arith, r.low, r.high) in
        let last : x.latest ≤ℤ at = omega (int_laws, rest-nonneg d.duration h) in
        let here : get_elem? (x.world).plans (length us) ≡ some s =
          r.grown.kept (length us) (omega (arith, length-append us (s ∷ [])))
          ∙ get_elem?-end us s in
        let same : (leave p eng op elapsed (time_sub at start) is_error v).plans
            ≡ set (x.world).plans (length us) done =
          (leave-Same p eng op elapsed (time_sub at start) is_error v).plans
          ∙ fill-set (length us) at is_error (x.world).plans s here in
        let grown : Grown p s.parent_index start start us (set (x.world).plans (length us) done) =
          Grown-own p s.parent_index start start (start +ℤ half d.duration) x.latest us
            (x.world).plans s done
            (record { of_parent = refl; after = omega arith; before = omega arith })
            (omega (arith, first, up, last)) first last r.grown in
        subst
          (λ (z : Outcome p). (start ≤ℤ z.at) × Grown p s.parent_index start start us z.world.plans)
          (some-injective _ o eq)
          (
            omega (arith, first, up, last),
            subst (Grown p s.parent_index start start us) (sym same) grown,
          )

    abbrev Child : Type 0
    Child = ℕ → ActiveCall p → ℤ → World p → Result p

    attempts-All :
        (child : Child) (k op : ℕ) (calls : List (ActiveCall p))
        → ((a : ActiveCall p) → Nests p eng (some k) (child k a))
        → All (λ a. IsWaited p eng a.call) calls
        → All (λ a. IsExec p eng k a (attempts p eng op a (child k a) a.call.retries)) calls
    attempts-All child k op [] h w = tt
    attempts-All child k op (a ∷ rest) h w =
        (attempts-IsExec p eng k op a (child k a) (h a) w.0, attempts-All child k op rest h w.1)

    plan_rejection_span-Grown :
        (op : ℕ) (parent parent_index : Option ℕ) (start : ℤ) (r : Reason)
        (is_async is_producer : Bool) (w : World p)
        → (start
            ≤ℤ (plan_rejection_span p eng op parent parent_index start r names is_async is_producer
                w).at)
          × Grown p parent_index start start w.plans
              (plan_rejection_span p eng op parent parent_index start r names is_async is_producer
                w).world.plans
    unfolding plan_rejection_span
    plan_rejection_span-Grown op parent parent_index start r is_async is_producer w =
        let later : start ≤ℤ start +ℤ rejection_duration = omega int_laws in
        (
          later,
          Grown-one p parent_index start start w.plans _
              (record { of_parent = refl; after = omega arith; before = omega arith }) later,
        )

    plan_verdict-Grown :
        (child : Child) (op : ℕ) (parent parent_index : Option ℕ) (start : ℤ)
        (is_async is_producer : Bool) (v : Verdict p) (w : World p) (o : Outcome p)
        → ((k : ℕ) (a : ActiveCall p) → Nests p eng (some k) (child k a))
        → Lasts v
        → All (IsWaited p eng) (effective_calls p eng.topology op overrides)
        → plan_verdict p eng elapsed overrides names child
            (length w.plans)
            op
            parent
            parent_index
            start
            is_async
            is_producer
            v
            w
          ≡ some o
        → (start ≤ℤ o.at) × Grown p parent_index start start w.plans o.world.plans
    unfolding plan_verdict begin_plan
    plan_verdict-Grown child op parent parent_index start is_async is_producer (refused r) w o h l c
          e =
        subst
          (λ (z : Outcome p).
            (start ≤ℤ z.at) × Grown p parent_index start start w.plans z.world.plans)
          (some-injective _ o e)
          (plan_rejection_span-Grown op parent parent_index start r is_async is_producer w)
    plan_verdict-Grown child op parent parent_index start is_async is_producer (passes dur r) w o h
          l c e =
        let attrs = effective_attributes p eng op overrides in
        let d =
          begin_plan p eng op parent parent_index start dur r attrs names is_async is_producer w in
        let chosen =
          active_calls p eng op (d.failed) 0 (effective_calls p eng.topology op overrides)
            (d.world).rng in
        let index = length w.plans in
        let exec = λ (a : ActiveCall p). attempts p eng op a (child index a) a.call.retries in
        let s = before_plan_calls p d start (chosen.1) in
        let waited =
          active_calls-All op (d.failed) 0 (effective_calls p eng.topology op overrides)
            (d.world).rng c in
        elim (Option-cases (run_calls p (is_sequential p eng op) exec (chosen.0) s)) [
          | inl q ↦
              let n : plan_verdict p eng elapsed overrides names child index op parent parent_index
                    start is_async is_producer (passes dur r) w
                  ≡ none =
                rw q refl in
              absurd (none-ne-some o (sym n ∙ e))
          | inr (x, q) ↦
              let n : plan_verdict p eng elapsed overrides names child index op parent parent_index
                    start is_async is_producer (passes dur r) w
                  ≡ finish_plan p eng op start elapsed index d (some x) =
                rw q refl in
              let ran =
                run_calls-Ran p eng index (start +ℤ half d.duration) (d.world).plans
                  (is_sequential p eng op) exec (chosen.0)
                  (attempts-All child index op (chosen.0) (h index) waited) s x
                  (record {
                    low = omega arith;
                    high = omega arith;
                    grown =
                        Grown-refl p (some index) (start +ℤ half d.duration)
                          (start +ℤ half d.duration) (d.world).plans;
                  })
                  q in
              finish_plan-Grown op w.plans _ d x o (l _) ran (sym n ∙ e)
        ]

    -- A plan and all that are made below it.
    pub plan_trace-Grown :
        IsOrdered fl
        → IsTimely overrides
        → (fuel op : ℕ) (parent parent_index : Option ℕ) (start : ℤ) (is_async is_producer : Bool)
          (w : World p) (o : Outcome p)
        → plan_trace p eng elapsed overrides names fuel op parent parent_index start is_async
            is_producer w
          ≡ some o
        → (start ≤ℤ o.at) × Grown p parent_index start start w.plans o.world.plans
    unfolding plan_trace
    plan_trace-Grown ord t zero op parent parent_index start is_async is_producer w o e =
        absurd (none-ne-some o e)
    plan_trace-Grown ord t (suc fuel) op parent parent_index start is_async is_producer w o e =
        let d = effective_duration p eng op overrides in
        let r = effective_error_rate p eng.topology op overrides in
        let u = record w { span_count = w.span_count + 1 } in
        let passed = gate p eng op start elapsed d r u in
        let same : passed.world.plans ≡ w.plans = (gate-Same p eng op start elapsed d r u).plans in
        let child = λ (index : ℕ) (active : ActiveCall p) (at : ℤ) (v : World p).
          plan_trace p eng elapsed overrides names fuel active.call.operation (some op) (some index)
            at active.call.async active.call.producer v in
        elim (Bool-cases (leb eng.span_limit w.span_count)) [
          | inl q ↦
              let n : plan_trace p eng elapsed overrides names (suc fuel) op parent parent_index
                    start is_async is_producer w
                  ≡ some (record { at = start; failed = false; world = w }) =
                rw (q, plan_trace) refl in
              subst
                (λ (z : Outcome p).
                  (start ≤ℤ z.at) × Grown p parent_index start start w.plans z.world.plans)
                (some-injective _ o (sym n ∙ e))
                (omega arith, Grown-refl p parent_index start start w.plans)
          | inr q ↦
              let n : plan_trace p eng elapsed overrides names (suc fuel) op parent parent_index
                    start is_async is_producer w
                  ≡ plan_verdict p eng elapsed overrides names child (length w.plans) op parent
                      parent_index start is_async is_producer (passed.verdict) (passed.world) =
                rw (q, plan_trace) refl in
              subst
                (λ (us : List (SpanPlan p)).
                  (start ≤ℤ o.at) × Grown p parent_index start start us o.world.plans)
                same
                (plan_verdict-Grown child op parent parent_index start is_async is_producer
                  (passed.verdict) (passed.world) o
                  (λ k a at v x h.
                    plan_trace-Grown ord t fuel a.call.operation (some op) (some k) at a.call.async
                      a.call.producer v x h)
                  (gate-Lasts op start elapsed d r u ord (t.drawn op) (t.slowed op)) (t.waited op)
                  (subst
                    (λ m.
                      plan_verdict p eng elapsed overrides names child m op parent parent_index
                        start is_async is_producer (passed.verdict) (passed.world)
                      ≡ some o)
                    (ap length (sym same)) (sym n ∙ e)))
        ]
