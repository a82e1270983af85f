-- ===== src/Engine/Rules.antt =====
-- The rule of the loops of a trace (Engine/Loops): what every call keeps, the attempts and the
-- loops over the calls keep. A relation between the world before and after has a cost, which adds
-- up; a condition `Pre` on the world before, which the relation carries along, holds at each call.
use motel.Prelude.{
  ℕ, zero, suc, ◌+◌, ◌*◌, ◌≤◌, ◌≡◌, refl, sym, subst, Bool, true, false, List, [], ◌∷◌, Option,
  none, some, arith, All, max, if◌then◌else◌,
}
use motel.Prelude.Int.{ℤ, ◌+ℤ◌}
use motel.Platform.{Platform}
use motel.Engine.World.{World, Engine, Outcome, Result, Emission, notify}
use motel.Engine.Loops.{
  ActiveCall, Walker, Exec, attempts, after_attempt, cap_timeout, add_timeout, add_retry,
  note_retry, Progress, merge_call, repeat_call, run_calls,
}

if_keeps {ℓ κ} :
    {A : Type ℓ} (P : A → Type κ) (b : Bool) (x y : A) → P x → P y → P (if b then x else y)
if_keeps P true x y hx hy = hx
if_keeps P false x y hx hy = hy

-- The cost of the calls, each at its own.
abbrev pub total_cost : {p : Platform} → (ActiveCall p → ℕ) → List (ActiveCall p) → ℕ
total_cost cost [] = 0
total_cost cost (a ∷ rest) = max a.call.count 1 * cost a + total_cost cost rest

module _ (p : Platform) (eng : Engine p) where
  -- The laws of a relation with costs.
  pub record IsKept (Pre : World p → Type 0) (R : ℕ → World p → World p → Type 0) : Type 0 where
    pub stays : (w : World p) → R 0 w w
    pub chains : (a b : ℕ) (u v w : World p) → R a u v → R b v w → R (a + b) u w
    pub widens : (a b : ℕ) (u v : World p) → a ≤ b → R a u v → R b u v
    pub carries : (a : ℕ) (u v : World p) → R a u v → Pre u → Pre v
    pub notes : (w : World p) (e : Emission p) → R 0 w (notify p eng e w)
    pub timeouts : (w : World p) → R 0 w (add_timeout p w)
    pub retries : (w : World p) → R 0 w (add_retry p w)

  module _ (Pre : World p → Type 0) (R : ℕ → World p → World p → Type 0) (k : IsKept Pre R) where
    abbrev pub Returns : ℕ → World p → Result p → Type 0
    Returns cost w r = (o : Outcome p) × (r ≡ some o) × R cost w o.world

    -- A walk that returns at its cost, from every world that meets the condition.
    abbrev pub Walks : ℕ → Walker p → Type 0
    Walks cost walk = (at : ℤ) (w : World p) → Pre w → Returns cost w (walk at w)

    abbrev capped : ActiveCall p → ℤ → Outcome p → Outcome p
    capped active at o = cap_timeout p eng active.call at o

    cap_timeout_keeps :
        (active : ActiveCall p) (cost : ℕ) (at : ℤ) (w : World p) (o : Outcome p)
        → R cost w o.world
        → R cost w (capped active at o).world
    unfolding cap_timeout
    cap_timeout_keeps active cost at w o r =
        if_keeps (λ (x : Outcome p). R cost w x.world) _ _ _
          (after w o.world _ cost r (before o.world _ _ (k.timeouts o.world) (k.notes _ _))) r
      where
        before : (u v x : World p) → R 0 u v → R 0 v x → R 0 u x
        before u v x a b = k.chains 0 0 u v x a b

        after : (u v x : World p) (n : ℕ) → R n u v → R 0 v x → R n u x
        after u v x n a b = k.widens (n + 0) n u x (omega arith) (k.chains n 0 u v x a b)

    note_retry_keeps :
        (active : ActiveCall p) (cost : ℕ) (at : ℤ) (w v : World p)
        → R cost w v
        → R cost w (note_retry p eng active.call at v)
    note_retry_keeps active cost at w v r =
        k.widens (cost + 0) cost w _ (omega arith)
          (k.chains cost 0 w v _ r (k.chains 0 0 v _ _ (k.retries v) (k.notes _ _)))

    after_attempt_keeps :
        (o : Outcome p) (forced : Option Bool) (again : Result p) (cost : ℕ) (w : World p)
        → R cost w o.world
        → Returns cost w again
        → Returns cost w (after_attempt p o forced again)
    unfolding after_attempt
    after_attempt_keeps o (some retry) again cost w r h =
        if_keeps (Returns cost w) retry again (some o) h (o, refl, r)
    after_attempt_keeps o none again cost w r h =
        if_keeps (Returns cost w) o.failed again (some o) h (o, refl, r)

    module _ (parent : ℕ) (active : ActiveCall p) (walk : Walker p) (cost : ℕ)
        (h : Walks cost walk) where
      pub attempts_keeps :
          (left : ℕ) (at : ℤ) (w : World p)
          → Pre w
          → Returns (suc left * cost) w (attempts p eng parent active walk left at w)
      unfolding attempts
      attempts_keeps zero at w q =
          let (o, e, r) = h at w q in
          rw (e, attempts)
            (
              capped active at o,
              refl,
              cap_timeout_keeps active (1 * cost) at w o
                  (k.widens cost (1 * cost) w o.world (omega arith) r),
            )
      attempts_keeps (suc left) at w q =
          let (o, e, r) = h at w q in
          let o' = capped active at o in
          let v = note_retry p eng active.call o'.at o'.world in
          let first = cap_timeout_keeps active cost at w o r in
          let noted = note_retry_keeps active cost o'.at w o'.world first in
          let (o'', e'', r'') =
            attempts_keeps left (o'.at +ℤ active.call.retry_backoff) v
              (k.carries cost w v noted q) in
          rw (e, attempts)
            (after_attempt_keeps o' _ _ (suc (suc left) * cost) w
              (k.widens cost (suc (suc left) * cost) w o'.world (grind arith) first)
              (
                o'',
                e'',
                k.widens (cost + suc left * cost) (suc (suc left) * cost) w o''.world (grind arith)
                    (k.chains cost (suc left * cost) w v o''.world noted r''),
              ))

    abbrev pub Proceeds : ℕ → World p → Option (Progress p) → Type 0
    Proceeds cost w r = (s : Progress p) × (r ≡ some s) × R cost w s.world

    merge_call-world :
        (sequential : Bool) (active : ActiveCall p) (s : Progress p) (o : Outcome p)
        → (merge_call p sequential active s o).world ≡ o.world
    unfolding merge_call
    merge_call-world sequential active s o = ground arith

    module _ (sequential : Bool) (exec : Exec p) where
      repeat_call_keeps :
          (active : ActiveCall p) (cost : ℕ)
          → Walks cost (exec active)
          → (n : ℕ) (s : Progress p) → Pre s.world
          → Proceeds (n * cost) s.world (repeat_call p sequential exec active n s)
      unfolding repeat_call
      repeat_call_keeps active cost h zero s q =
          (s, refl, k.widens 0 (0 * cost) s.world s.world (omega arith) (k.stays s.world))
      repeat_call_keeps active cost h (suc n) s q =
          let (o, e, r) = h s.next s.world q in
          let next = merge_call p sequential active s o in
          let same = merge_call-world sequential active s o in
          let r' : R cost s.world next.world = subst (R cost s.world) (sym same) r in
          let (s', e', r'') =
            repeat_call_keeps active cost h n next (k.carries cost s.world next.world r' q) in
          (
            s',
            rw (e, repeat_call) e',
            k.widens (cost + n * cost) (suc n * cost) s.world s'.world (grind arith)
                (k.chains cost (n * cost) s.world next.world s'.world r' r''),
          )

      pub run_calls_keeps :
          (cost : ActiveCall p → ℕ) (calls : List (ActiveCall p))
          → All (λ a. Walks (cost a) (exec a)) calls
          → (s : Progress p) → Pre s.world
          → Proceeds (total_cost cost calls) s.world (run_calls p sequential exec calls s)
      unfolding run_calls
      run_calls_keeps cost [] h s q = (s, refl, k.stays s.world)
      run_calls_keeps cost (a ∷ rest) h s q =
          let (s', e, r) = repeat_call_keeps a (cost a) h.0 (max a.call.count 1) s q in
          let c = max a.call.count 1 * cost a in
          let (s'', e', r') = run_calls_keeps cost rest h.1 s' (k.carries c s.world s'.world r q) in
          (
            s'',
            rw (e, run_calls) e',
            k.chains c (total_cost cost rest) s.world s'.world s''.world r r',
          )
