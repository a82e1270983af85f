-- ===== src/Check/Spans/Exact.antt =====
-- pkg/synth/check.go, MaxSpans: the search returns the worst case, capped. The worst case is the
-- solution of the recurrence that the doc comment states: an operation's own span, and for each
-- call count times attempts times the worst case of the callee.
use motel.Prelude.{
  ℕ, zero, suc, ◌+◌, ◌-◌, ◌*◌, ◌≤◌, ◌<◌, ◌≡◌, refl, ap, sym, subst, ◌∙◌, ◌⊎◌, inl, inr, false, List,
  [], ◌∷◌, Option, none, some, Dict, ltb, ltb→lt, if◌then◌else◌, max, min, arith, All, Any, String,
  Bool-cases, Option-cases,
}
use motel.Prelude.Int.{ℤ, pos, wrap_64_id, quot, pos_add, pos_mul, pos_sub}
use native.Mathlib.Nat.{div-lt_iff_lt-mul}
use motel.Platform.{Platform}
use motel.Topology.Types.{Topology, Override, Call}
use motel.Topology.Calls.{ref_of}
use motel.Topology.Acyclic.{callees, mem, IsRanked}
use motel.Check.Spans.{
  max_spans_cap, Memo, recall, fan_for_call, add_call, clamp, Search, spans_loop, spans_dfs,
  spans_roots, max_spans_with,
}

-- The worst case number of times that one call makes the callee run.
abbrev pub runs : {p : Platform} → Call p → ℕ
runs c = max c.count 1 * (1 + c.retries)

-- Count and retries leave room for their product in 64 bits.
abbrev pub IsSmall : {p : Platform} → Call p → Type 0
IsSmall c = (c.count < 1073741824) × (c.retries < 1073741824)

runs_bounds :
    {p : Platform} (c : Call p) → IsSmall c → (1 ≤ runs c) × (runs c ≤ 1073741824 * 1073741824)
runs_bounds c h = grind arith

pub fan_for_call-runs : {p : Platform} (c : Call p) → IsSmall c → fan_for_call c ≡ pos (runs c)
unfolding fan_for_call
fan_for_call-runs c h = rw (
  pos_add,
  wrap_64_id (pos (1 + c.retries)) (omega arith),
  pos_mul,
  wrap_64_id (pos (runs c)) (omega (arith, runs_bounds c h)),
)

-- On values in range, the guarded step is the sum, or the break when the sum passes the cap.
add_call_lem :
    (t n child : ℕ)
    → t ≤ max_spans_cap
    → 0 < child
    → child ≤ max_spans_cap
    → add_call (pos t) (pos n) (pos child)
      ≡ (if ltb max_spans_cap (t + n * child) then none else some (pos (t + n * child)))
unfolding add_call quot
add_call_lem t n child h c k =
    rw (pos_sub max_spans_cap t h, wrap_64_id (pos (max_spans_cap - t)) (omega arith), pos_mul)
      (elim (Bool-cases (ltb max_spans_cap (t + n * child))) [
        | inl over ↦ ground (arith, div-lt_iff_lt-mul {k = child} {x = max_spans_cap - t} {y = n} c)
        | inr fits ↦
            rw
              (
                wrap_64_id (pos (n * child)) (ground arith),
                pos_add,
                wrap_64_id (pos (t + n * child)) (ground arith),
              )
              (ground (arith, div-lt_iff_lt-mul {k = child} {x = max_spans_cap - t} {y = n} c))
      ])

module _ (p : Platform) (topo : Topology p) (overrides : Dict (Override p)) where
  -- The sum over the calls of an operation, for a number of spans of each operation.
  abbrev pub sum_calls : (ℕ → ℕ) → List (Call p) → ℕ
  sum_calls worst [] = 0
  sum_calls worst (c ∷ cs) = runs c * worst c.operation + sum_calls worst cs

  -- `worst` solves the recurrence of the worst case.
  pub record IsWorst (worst : ℕ → ℕ) : Type 0 where
    pub equation : (op : ℕ) → worst op ≡ suc (sum_calls worst (callees p topo overrides op))

  pub record IsBounded : Type 0 where
    pub small : (op : ℕ) → All IsSmall (callees p topo overrides op)

  module _ (rank worst : ℕ → ℕ) (ranked : IsRanked p topo overrides rank) (w : IsWorst worst) where
    abbrev pub capped : ℕ → ℕ
    capped n = min max_spans_cap n

    abbrev MemoSound : Memo ℤ → Type 0
    MemoSound = All (λ (e : ℕ × ℤ). e.1 ≡ pos (capped (worst e.0)))

    -- Every operation on the path has a rank that is no lower.
    abbrev Above : ℕ → List ℕ → Type 0
    Above op = All (λ v. rank op ≤ rank v)

    Above-lower : (a b : ℕ) (vs : List ℕ) → rank b ≤ rank a → Above a vs → Above b vs
    Above-lower a b [] h al = tt
    Above-lower a b (v ∷ vs) h al = (omega arith, Above-lower a b vs h al.1)

    Above-not-mem : (a b : ℕ) (vs : List ℕ) → rank b < rank a → Above a vs → mem b vs ≡ false
    Above-not-mem a b [] h al = refl
    Above-not-mem a b (v ∷ vs) h al =
        ground (arith, Above-not-mem a b vs h al.1, λ (e : v ≡ b). ap rank e)

    Exact : Search p topo overrides → ℕ → Type 0
    Exact find op =
        (visited : List ℕ) (memo : Memo ℤ)
        → Above op visited
        → MemoSound memo
        → (memo' : Memo ℤ) × (find op visited memo ≡ some (pos (capped (worst op)), memo'))
          × MemoSound memo'

    recall-MemoSound :
        (op : ℕ) (memo : Memo ℤ) (v : ℤ)
        → MemoSound memo
        → recall op memo ≡ some v
        → v ≡ pos (capped (worst op))
    unfolding recall
    recall-MemoSound op [] v h e = cc
    recall-MemoSound op ((k, u) ∷ memo) v h e =
        ground (arith, recall-MemoSound op memo v h.1, h.0, λ (q : k ≡ op). ap worst q)

    worst_pos : (op : ℕ) → 0 < worst op
    worst_pos op = omega (arith, w.equation op)

    -- The sum so far with one more call, capped: the child's own cap makes no difference.
    capped_sum :
        (t n m rest : ℕ)
        → 0 < t
        → 0 < n
        → 0 < m
        → t ≤ max_spans_cap
        → (max_spans_cap < t + n * capped m → capped (t + (n * m + rest)) ≡ max_spans_cap)
          × (t + n * capped m ≤ max_spans_cap → t + n * capped m ≡ t + n * m)
    capped_sum t n m rest p q r h = (λ over. grind arith, λ fits. grind arith)

    abbrev LoopResult : Option (ℤ × Memo ℤ) → ℕ → Type 0
    LoopResult r total = (memo' : Memo ℤ) × (r ≡ some (pos (capped total), memo')) × MemoSound memo'

    module _ (find : Search p topo overrides) (c : Call p) (cs : List (Call p)) (visited : List ℕ)
        (memo memo' : Memo ℤ) (total child : ℤ) where
      spans_loop_break :
          mem c.operation visited ≡ false
          → find c.operation (c.operation ∷ visited) memo ≡ some (child, memo')
          → add_call total (fan_for_call c) child ≡ none
          → spans_loop p topo overrides find (c ∷ cs) visited memo total
            ≡ some (pos max_spans_cap, memo')
      unfolding spans_loop
      spans_loop_break out found broke = ground arith

      spans_loop_next :
          (total' : ℤ)
          → mem c.operation visited ≡ false
          → find c.operation (c.operation ∷ visited) memo ≡ some (child, memo')
          → add_call total (fan_for_call c) child ≡ some total'
          → spans_loop p topo overrides find (c ∷ cs) visited memo total
            ≡ spans_loop p topo overrides find cs visited memo' total'
      unfolding spans_loop
      spans_loop_next total' out found added = ground arith

    loop-Exact :
        (find : Search p topo overrides) (op : ℕ) (cs : List (Call p)) (visited : List ℕ)
        (memo : Memo ℤ) (t : ℕ)
        → All (λ (c : Call p). rank c.operation < rank op) cs
        → All IsSmall cs
        → All (λ (c : Call p). Exact find c.operation) cs
        → Above op visited
        → MemoSound memo
        → 0 < t
        → t ≤ max_spans_cap
        → LoopResult
            (spans_loop p topo overrides find cs visited memo (pos t))
            (t + sum_calls worst cs)
    unfolding spans_loop Exact
    loop-Exact find op [] visited memo t r s e a m h k = (memo, ground arith, m)
    loop-Exact find op (c ∷ cs) visited memo t r s e a m h k =
        let child = c.operation in
        let above : Above child (child ∷ visited) =
          (omega arith, Above-lower op child visited (omega arith) a) in
        let (memo', found, sound) = e.0 (child ∷ visited) memo above m in
        let n = runs c in
        let step =
          capped_sum t n (worst child) (sum_calls worst cs) h (runs_bounds c s.0).0
            (worst_pos child) k in
        let added =
          add_call_lem t n (capped (worst child)) k (omega (arith, worst_pos child))
            (omega arith) in
        elim (Bool-cases (ltb max_spans_cap (t + n * capped (worst child)))) [
          | inl over ↦ (
            memo',
            spans_loop_break find c cs visited memo memo' (pos t) (pos (capped (worst child)))
                  (Above-not-mem op child visited r.0 a) found
                  (ap (λ f. add_call (pos t) f (pos (capped (worst child))))
                      (fan_for_call-runs c s.0)
                    ∙ added
                    ∙ rw over)
                ∙ ap (λ x. some (pos x, memo')) (sym (step.0 (ltb→lt _ _ over))),
            sound,
          )
          | inr fits ↦
              let total = t + n * capped (worst child) in
              let in_cap : total ≤ max_spans_cap = ground arith in
              let (memo'', rest, sound'') =
                loop-Exact find op cs visited memo' total r.1 s.1 e.1 a sound (omega arith)
                  in_cap in
              (
                memo'',
                spans_loop_next find c cs visited memo memo' (pos t) (pos (capped (worst child)))
                      (pos total) (Above-not-mem op child visited r.0 a) found
                      (ap (λ f. add_call (pos t) f (pos (capped (worst child))))
                          (fan_for_call-runs c s.0)
                        ∙ added
                        ∙ rw fits)
                    ∙ rest
                    ∙ ap (λ x. some (pos (capped x), memo'')) (omega (arith, step.1 in_cap)),
                sound'',
              )
        ]

    calls-Exact :
        (find : Search p topo overrides) (op : ℕ) (cs : List (Call p))
        → ((o : ℕ) → rank o < rank op → Exact find o)
        → All (λ (c : Call p). rank c.operation < rank op) cs
        → All (λ (c : Call p). Exact find c.operation) cs
    calls-Exact find op [] h r = tt
    calls-Exact find op (c ∷ cs) h r = (h c.operation r.0, calls-Exact find op cs h r.1)

    clamp_lem : (n : ℕ) → clamp (pos (capped n)) ≡ pos (capped n)
    unfolding clamp
    clamp_lem n = ground arith

    -- The search of an operation whose rank is below the fuel returns its capped worst case.
    spans_dfs-Exact :
        (fuel op : ℕ) → IsBounded → rank op < fuel → Exact (spans_dfs p topo overrides fuel) op
    unfolding spans_dfs Exact
    spans_dfs-Exact zero op b h visited memo a m = absurd (omega arith)
    spans_dfs-Exact (suc fuel) op b h visited memo a m = elim (Option-cases (recall op memo)) [
      | inl new ↦
          let (memo', found, sound) =
            loop-Exact (spans_dfs p topo overrides fuel) op (callees p topo overrides op) visited
              memo 1 (ranked.falls op) (b.small op)
              (calls-Exact (spans_dfs p topo overrides fuel) op (callees p topo overrides op)
                (λ o l. spans_dfs-Exact fuel o b (omega arith)) (ranked.falls op))
              a m (omega arith) (omega arith) in
          (
            (op, pos (capped (worst op))) ∷ memo',
            ground (arith, w.equation op, clamp_lem (worst op)),
            (refl, sound),
          )
      | inr (v, old) ↦ (memo, ground (arith, recall-MemoSound op memo v m old), m)
    ]

    abbrev pub max_worst : List ℕ → ℕ
    max_worst [] = 0
    max_worst (r ∷ rs) = max (worst r) (max_worst rs)

    -- Where a maximum comes from: the start, or a root.
    abbrev pub Attains : List ℕ → ℕ → String → ℕ → String → Type 0
    Attains roots m ref start ref0 =
        ((m ≡ start) × (ref ≡ ref0))
        ⊎ Any (λ r. (ref_of p topo r ≡ ref) × (capped (worst r) ≡ m)) roots

    Attains-new :
        (r : ℕ) (rs : List ℕ) (m m' : ℕ) (ref ref0 : String) (best : ℕ)
        → m ≡ m'
        → Attains rs m ref (capped (worst r)) (ref_of p topo r)
        → Attains (r ∷ rs) m' ref best ref0
    Attains-new r rs m m' ref ref0 best e (inl (at, same)) = inr (inl (sym same, sym at ∙ e))
    Attains-new r rs m m' ref ref0 best e (inr later) =
        inr (
          inr (subst (λ n. Any (λ r. (ref_of p topo r ≡ ref) × (capped (worst r) ≡ n)) rs) e later))

    Attains-old :
        (r : ℕ) (rs : List ℕ) (m m' : ℕ) (ref ref0 : String) (best : ℕ)
        → m ≡ m'
        → Attains rs m ref best ref0
        → Attains (r ∷ rs) m' ref best ref0
    Attains-old r rs m m' ref ref0 best e (inl (at, same)) = inl (sym e ∙ at, same)
    Attains-old r rs m m' ref ref0 best e (inr later) =
        inr (
          inr (subst (λ n. Any (λ r. (ref_of p topo r ≡ ref) × (capped (worst r) ≡ n)) rs) e later))

    spans_roots_exact :
        (fuel : ℕ) (roots : List ℕ) (memo : Memo ℤ) (best : ℕ) (ref0 : String)
        → IsBounded
        → All (λ r. rank r < fuel) roots
        → MemoSound memo
        → (ref : String) × (spans_roots p topo overrides fuel roots memo (pos best) ref0
            ≡ some (pos (max best (capped (max_worst roots))), ref))
          × Attains roots (max best (capped (max_worst roots))) ref best ref0
    unfolding spans_roots Exact
    spans_roots_exact fuel [] memo best ref0 b h m = (ref0, ground arith, inl (omega arith, refl))
    spans_roots_exact fuel (r ∷ rs) memo best ref0 b h m =
        let (memo', found, sound) =
          spans_dfs-Exact fuel r b h.0 (r ∷ []) memo (omega arith, tt) m in
        elim (Bool-cases (ltb best (capped (worst r)))) [
          | inl more ↦
              let (ref, rest, from) =
                spans_roots_exact fuel rs memo' (capped (worst r)) (ref_of p topo r) b h.1 sound in
              (ref, ground arith, Attains-new r rs _ _ ref ref0 best (ground arith) from)
          | inr less ↦
              let (ref, rest, from) = spans_roots_exact fuel rs memo' best ref0 b h.1 sound in
              (ref, ground arith, Attains-old r rs _ _ ref ref0 best (ground arith) from)
        ]

    -- `MaxSpans` returns, from any fuel above the ranks of the roots, the capped maximum of the
    -- worst cases of the roots, and names a root that has it where there is a root at all. The
    -- graph is ranked, and counts and retries are below 2 ^ 30.
    pub max_spans_exact :
        (fuel : ℕ)
        → IsBounded
        → All (λ r. rank r < fuel) topo.roots
        → (ref : String) × (max_spans_with p topo overrides fuel
            ≡ some (pos (capped (max_worst topo.roots)), ref))
          × Attains topo.roots (capped (max_worst topo.roots)) ref 0 ""
    unfolding max_spans_with
    max_spans_exact fuel b h =
        let (ref, found, from) = spans_roots_exact fuel topo.roots [] 0 "" b h tt in
        let e : max 0 (capped (max_worst topo.roots)) ≡ capped (max_worst topo.roots) =
          omega arith in
        (ref, rw e at found, subst (λ n. Attains topo.roots n ref 0 "") e from)
