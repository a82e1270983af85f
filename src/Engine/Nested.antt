-- ===== src/Engine/Nested.antt =====
-- pkg/synth/plan.go: planTrace plans every span inside the window of its parent's.
use mathlib.Core.Option.{some-injective, none-ne-some}
use motel.Prelude.{
  ℕ, zero, suc, ◌≡◌, ◌⊎◌, refl, sym, subst, ◌∙◌, Bool, true, false, List, [], ◌∷◌, Option, none,
  some, arith, Bool-cases, Option-cases, inl, inr, All, max, if◌then◌else◌,
}
use motel.Prelude.Int.{ℤ, pos, ◌≤ℤ◌, ◌+ℤ◌, +ℤ_parts, int_laws, ltb_ℤ}
use motel.Platform.{Platform}
use motel.Topology.Types.{Call}
use motel.Swarm.{forced_choice, retry_activation}
use motel.Engine.World.{SpanPlan, World, Engine, Outcome, Result}
use motel.Engine.Loops.{
  op_of, ActiveCall, Walker, Exec, Progress, attempts, after_attempt, cap_timeout, note_retry,
  merge_call, repeat_call, run_calls,
}
use motel.Engine.Windows.{Grown, Grown-trans, Grown-until}

module _ (p : Platform) (eng : Engine p) where
  -- A call waits before a retry, and an async call has no retries.
  abbrev pub IsWaited : Call p → Type 0
  IsWaited c = (pos 0 ≤ℤ c.retry_backoff) × (c.async ≡ true → c.retries ≡ 0)

  -- A callee does not end before it starts, and its plan starts when it does.
  abbrev pub Nests : Option ℕ → Walker p → Type 0
  Nests parent walk =
      (at : ℤ) (w : World p) (o : Outcome p)
      → walk at w ≡ some o
      → (at ≤ℤ o.at) × Grown p parent at at w.plans o.world.plans

  cap_timeout-at :
      (c : Call p) (at : ℤ) (o : Outcome p) → at ≤ℤ o.at → at ≤ℤ (cap_timeout p eng c at o).at
  unfolding cap_timeout
  cap_timeout-at c at o h = let later = +ℤ_parts at c.timeout in ground (arith, later)

  cap_timeout-plans :
      (c : Call p) (at : ℤ) (o : Outcome p) → (cap_timeout p eng c at o).world.plans ≡ o.world.plans
  unfolding cap_timeout
  cap_timeout-plans c at o = ground arith

  note_retry-plans : (c : Call p) (at : ℤ) (w : World p) → (note_retry p eng c at w).plans ≡ w.plans
  note_retry-plans c at w = ground arith

  if_cases :
      (b : Bool) (x o : Outcome p) (again : Result p)
      → (if b then again else some x) ≡ some o
      → (x ≡ o) ⊎ (again ≡ some o)
  if_cases true x o again h = inr h
  if_cases false x o again h = inl (some-injective x o h)

  after_attempt-cases :
      (x o : Outcome p) (forced : Option Bool) (again : Result p)
      → after_attempt p x forced again ≡ some o
      → (x ≡ o) ⊎ (again ≡ some o)
  unfolding after_attempt
  after_attempt-cases x o (some retry) again h = if_cases retry x o again h
  after_attempt-cases x o none again h = if_cases x.failed x o again h

  module _ (parent : Option ℕ) (op : ℕ) (active : ActiveCall p) (walk : Walker p)
      (child : Nests parent walk) where
    -- The first attempt, as its caller sees it.
    capped_nests :
        (at : ℤ) (w : World p) (x : Outcome p)
        → walk at w ≡ some x
        → (at ≤ℤ (cap_timeout p eng active.call at x).at)
          × Grown p parent at at w.plans (cap_timeout p eng active.call at x).world.plans
    capped_nests at w x e =
        let (a, g) = child at w x e in
        (
          cap_timeout-at active.call at x a,
          subst (Grown p parent at at w.plans) (sym (cap_timeout-plans active.call at x)) g,
        )

    -- Without retries, the plan starts when the call does.
    attempts-once :
        (at : ℤ) (w : World p) (o : Outcome p)
        → attempts p eng op active walk 0 at w ≡ some o
        → (at ≤ℤ o.at) × Grown p parent at at w.plans o.world.plans
    unfolding attempts
    attempts-once at w o h = elim (Option-cases (walk at w)) [
      | inl e ↦
          let q : attempts p eng op active walk 0 at w ≡ none = rw (e, attempts) refl in
          absurd (none-ne-some o (sym q ∙ h))
      | inr (x, e) ↦
          let q : attempts p eng op active walk 0 at w ≡ some (cap_timeout p eng active.call at x) =
            rw (e, attempts) refl in
          subst (λ (v : Outcome p). (at ≤ℤ v.at) × Grown p parent at at w.plans v.world.plans)
            (some-injective _ o (sym q ∙ h)) (capped_nests at w x e)
    ]

    -- With retries, the plans of all attempts start before the last one ends.
    attempts-Grown :
        pos 0 ≤ℤ active.call.retry_backoff
        → (left : ℕ) (at : ℤ) (w : World p) (o : Outcome p)
        → attempts p eng op active walk left at w ≡ some o
        → (at ≤ℤ o.at) × Grown p parent at o.at w.plans o.world.plans
    unfolding attempts
    attempts-Grown b zero at w o h =
        let (a, g) = attempts-once at w o h in
        (a, Grown-until p parent at at o.at w.plans o.world.plans a g)
    attempts-Grown b (suc left) at w o h = elim (Option-cases (walk at w)) [
      | inl e ↦
          let q : attempts p eng op active walk (suc left) at w ≡ none = rw (e, attempts) refl in
          absurd (none-ne-some o (sym q ∙ h))
      | inr (x, e) ↦
          let y = cap_timeout p eng active.call at x in
          let later = y.at +ℤ active.call.retry_backoff in
          let v = note_retry p eng active.call y.at y.world in
          let (a, g) = capped_nests at w x e in
          let noted : Grown p parent at at w.plans v.plans =
            subst (Grown p parent at at w.plans) (sym (note_retry-plans active.call y.at y.world))
              g in
          let up : y.at ≤ℤ later = omega (int_laws, b) in
          let q : attempts p eng op active walk (suc left) at w
              ≡ after_attempt p y
                  (forced_choice eng.decisions retry_activation (op_of p eng op).ref
                    (op_of p eng active.call.operation).ref (pos active.choice_index))
                  (attempts p eng op active walk left later v) =
            rw (e, attempts) refl in
          elim (after_attempt-cases y o _ _ (sym q ∙ h)) [
            | inl r ↦
                subst
                  (λ (v : Outcome p). (at ≤ℤ v.at) × Grown p parent at v.at w.plans v.world.plans) r
                  (a, Grown-until p parent at at y.at w.plans y.world.plans a g)
            | inr r ↦
                let (c, k) = attempts-Grown b left later v o r in
                (
                  omega (arith, a, up, c),
                  Grown-trans p parent at at later o.at w.plans v.plans o.world.plans
                      (omega (arith, a, up)) (omega (arith, a, up, c)) noted k,
                )
          ]
    ]

  -- The loop over the calls, at the plan of the index `k` that began its calls at `lo`: the plans
  -- that were added start before the latest end, and the next call starts in between.
  pub record Ran (k : ℕ) (lo : ℤ) (us : List (SpanPlan p)) (s : Progress p) : Type 0 where
    pub low : lo ≤ℤ s.next
    pub high : s.next ≤ℤ s.latest
    pub grown : Grown p (some k) lo s.latest us s.world.plans

  -- An attempted call that is waited for adds plans until its end; one that is not adds them at its
  -- start.
  pub record IsExec (k : ℕ) (active : ActiveCall p) (run : Walker p) : Type 0 where
    pub waited :
        (at : ℤ) (w : World p) (o : Outcome p)
        → run at w ≡ some o
        → (at ≤ℤ o.at) × Grown p (some k) at o.at w.plans o.world.plans
    pub apart :
        active.call.async ≡ true
        → (at : ℤ) (w : World p) (o : Outcome p) → run at w ≡ some o
        → Grown p (some k) at at w.plans o.world.plans

  pub attempts-IsExec :
      (k op : ℕ) (active : ActiveCall p) (walk : Walker p)
      → Nests (some k) walk
      → IsWaited active.call
      → IsExec k active (attempts p eng op active walk active.call.retries)
  attempts-IsExec k op active walk child h = record {
    waited = attempts-Grown (some k) op active walk child h.0 active.call.retries;
    apart = λ q at w o e.
        (attempts-once (some k) op active walk child at w o
          (subst (λ n. attempts p eng op active walk n at w ≡ some o) (h.1 q) e)).1;
  }

  latest_bounds :
      (a b : ℤ) → (a ≤ℤ (if ltb_ℤ a b then b else a)) × (b ≤ℤ (if ltb_ℤ a b then b else a))
  latest_bounds a b = (ground arith, ground arith)

  merge_call-Ran :
      (k : ℕ) (lo : ℤ) (us : List (SpanPlan p)) (sequential : Bool) (active : ActiveCall p)
      (run : Walker p) (s : Progress p) (o : Outcome p)
      → IsExec k active run
      → Ran k lo us s
      → run s.next s.world ≡ some o
      → Ran k lo us (merge_call p sequential active s o)
  unfolding merge_call
  merge_call-Ran k lo us sequential active run s o x r e = elim (Bool-cases active.call.async) [
    | inl q ↦
        rw (q, merge_call)
          (record {
            low = r.low;
            high = r.high;
            grown =
                Grown-trans p (some k) lo s.latest s.next s.latest us s.world.plans o.world.plans
                  r.low (omega arith) r.grown
                  (Grown-until p (some k) s.next s.next s.latest s.world.plans o.world.plans r.high
                    (x.apart q s.next s.world o e));
          })
    | inr q ↦
        let (a, g) = x.waited s.next s.world o e in
        let m = if ltb_ℤ s.latest o.at then o.at else s.latest in
        let b = latest_bounds s.latest o.at in
        rw (q, merge_call)
          (record {
            low = next_low sequential o.at s.next r.low a;
            high = next_high sequential o.at s.next m b.1 (omega (arith, r.high, b.0));
            grown =
                Grown-trans p (some k) lo s.latest s.next m us s.world.plans o.world.plans r.low
                  (b.0) r.grown
                  (Grown-until p (some k) s.next o.at m s.world.plans o.world.plans (b.1) g);
          })
  ]
    where
      next_low :
          (sequential : Bool) (at next : ℤ)
          → lo ≤ℤ next
          → next ≤ℤ at
          → lo ≤ℤ (if sequential then at else next)
      next_low true at next h k = omega (arith, h, k)
      next_low false at next h k = h

      next_high :
          (sequential : Bool) (at next m : ℤ)
          → at ≤ℤ m
          → next ≤ℤ m
          → (if sequential then at else next) ≤ℤ m
      next_high true at next m h k = h
      next_high false at next m h k = k

  module _ (k : ℕ) (lo : ℤ) (us : List (SpanPlan p)) (sequential : Bool) (exec : Exec p) where
    repeat_call-Ran :
        (active : ActiveCall p)
        → IsExec k active (exec active)
        → (n : ℕ) (s s' : Progress p) → Ran k lo us s
        → repeat_call p sequential exec active n s ≡ some s'
        → Ran k lo us s'
    unfolding repeat_call
    repeat_call-Ran active x zero s s' r h = subst (Ran k lo us) (some-injective s s' h) r
    repeat_call-Ran active x (suc n) s s' r h = elim (Option-cases (exec active s.next s.world)) [
      | inl e ↦
          let q : repeat_call p sequential exec active (suc n) s ≡ none =
            rw (e, repeat_call) refl in
          absurd (none-ne-some s' (sym q ∙ h))
      | inr (o, e) ↦
          let next = merge_call p sequential active s o in
          let q : repeat_call p sequential exec active (suc n) s
              ≡ repeat_call p sequential exec active n next =
            rw (e, repeat_call) refl in
          repeat_call-Ran active x n next s'
            (merge_call-Ran k lo us sequential active (exec active) s o x r e) (sym q ∙ h)
    ]

    pub run_calls-Ran :
        (calls : List (ActiveCall p))
        → All (λ a. IsExec k a (exec a)) calls
        → (s s' : Progress p) → Ran k lo us s
        → run_calls p sequential exec calls s ≡ some s'
        → Ran k lo us s'
    unfolding run_calls
    run_calls-Ran [] x s s' r h = subst (Ran k lo us) (some-injective s s' h) r
    run_calls-Ran (a ∷ rest) x s s' r h =
        elim (Option-cases (repeat_call p sequential exec a (max a.call.count 1) s)) [
          | inl e ↦
              let q : run_calls p sequential exec (a ∷ rest) s ≡ none = rw (e, run_calls) refl in
              absurd (none-ne-some s' (sym q ∙ h))
          | inr (u, e) ↦
              let q : run_calls p sequential exec (a ∷ rest) s
                  ≡ run_calls p sequential exec rest u =
                rw (e, run_calls) refl in
              run_calls-Ran rest x.1 u s' (repeat_call-Ran a x.0 (max a.call.count 1) s u r e)
                (sym q ∙ h)
        ]
