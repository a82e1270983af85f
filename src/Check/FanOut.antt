-- ===== src/Check/FanOut.antt =====
-- pkg/synth/check.go, MaxFanOut: the worst case number of direct children of a span, in Go's
-- 64-bit arithmetic.
use motel.Prelude.{
  ℕ, ◌+◌, ◌≤◌, ◌<◌, ap, ◌∙◌, ◌++◌, ◌≡◌, refl, sym, subst, ◌⊎◌, inl, inr, Bool, true, false, String,
  List, [], ◌∷◌, Dict, All, Any, arith, if◌then◌else◌, Bool-cases,
}
use motel.Prelude.Int.{ℤ, pos, ◌+ℤ◌, ltb_ℤ, ◌≤ℤ◌, wrap_64, wrap_64_id, two_63, pos_add, pos_part}
use motel.Platform.{Platform}
use motel.Topology.Types.{Topology, Override, Call}
use motel.Topology.Calls.{ref_of}
use motel.Topology.Acyclic.{callees}
use motel.Topology.Roots.{ids_of, operations_of, all_operations}
use motel.Check.Spans.{fan_for_call}
use motel.Check.Spans.Exact.{runs, IsSmall, fan_for_call-runs}

module _ (p : Platform) (topo : Topology p) (overrides : Dict (Override p)) where
  unfoldable pub fan_loop : ℤ → List (Call p) → ℤ
  fan_loop fan [] = fan
  fan_loop fan (c ∷ cs) = fan_loop (wrap_64 (fan +ℤ fan_for_call c)) cs

  abbrev fan_of : ℕ → ℤ
  fan_of op = fan_loop (pos 0) (callees p topo overrides op)

  -- The loops over services and operations: the maximum so far and the operation that has it.
  unfoldable pub fan_out_loop : List ℕ → ℤ → String → ℤ × String
  fan_out_loop [] best worst = (best, worst)
  fan_out_loop (op ∷ ops) best worst =
      fan_out_loop ops (if ltb_ℤ best (fan_of op) then fan_of op else best)
        (if ltb_ℤ best (fan_of op) then ref_of p topo op else worst)

  unfoldable pub max_fan_out_with : ℤ × String
  unfolding fan_out_loop
  max_fan_out_with = fan_out_loop (all_operations p topo) (pos 0) ""

  -- Where the maximum comes from: the start, or an operation.
  abbrev Attains : List ℕ → ℤ × String → ℤ × String → Type 0
  Attains ops found start = (found ≡ start) ⊎ Any (λ op. found ≡ (fan_of op, ref_of p topo op)) ops

  -- A result of the loop: at least the start and every operation, and one of them.
  abbrev IsMax : List ℕ → ℤ × String → ℤ → String → Type 0
  IsMax ops r best worst =
      (best ≤ℤ r.0) × All (λ op. fan_of op ≤ℤ r.0) ops × Attains ops r (best, worst)

  step_more :
      (op : ℕ) (ops : List ℕ) (best : ℤ) (worst : String) (r : ℤ × String)
      → ltb_ℤ best (fan_of op) ≡ true
      → IsMax ops r (fan_of op) (ref_of p topo op)
      → IsMax (op ∷ ops) r best worst
  step_more op ops best worst r e (above, all, from) = (ground arith, (above, all), inr from)

  keep_from :
      (op : ℕ) (ops : List ℕ) (best : ℤ) (worst : String) (r : ℤ × String)
      → Attains ops r (best, worst)
      → Attains (op ∷ ops) r (best, worst)
  keep_from op ops best worst r (inl e) = inl e
  keep_from op ops best worst r (inr h) = inr (inr h)

  step_less :
      (op : ℕ) (ops : List ℕ) (best : ℤ) (worst : String) (r : ℤ × String)
      → ltb_ℤ best (fan_of op) ≡ false
      → IsMax ops r best worst
      → IsMax (op ∷ ops) r best worst
  step_less op ops best worst r e (above, all, from) =
      (above, (ground arith, all), keep_from op ops best worst r from)

  fan_out_loop-IsMax :
      (ops : List ℕ) (best : ℤ) (worst : String)
      → IsMax ops (fan_out_loop ops best worst) best worst
  unfolding fan_out_loop
  fan_out_loop-IsMax [] best worst = (omega arith, tt, inl refl)
  fan_out_loop-IsMax (op ∷ ops) best worst = elim (Bool-cases (ltb_ℤ best (fan_of op))) [
    | inl e ↦
        subst
          (λ (b : Bool).
            IsMax (op ∷ ops)
              (fan_out_loop ops (if b then fan_of op else best)
                (if b then ref_of p topo op else worst))
              best worst)
          (sym e)
          (step_more op ops best worst _ e (fan_out_loop-IsMax ops (fan_of op) (ref_of p topo op)))
    | inr e ↦
        subst
          (λ (b : Bool).
            IsMax (op ∷ ops)
              (fan_out_loop ops (if b then fan_of op else best)
                (if b then ref_of p topo op else worst))
              best worst)
          (sym e) (step_less op ops best worst _ e (fan_out_loop-IsMax ops best worst))
  ]

  max_fan_out_with-Attains :
      All (λ op. fan_of op ≤ℤ max_fan_out_with.0) (all_operations p topo)
      × Attains (all_operations p topo) max_fan_out_with (pos 0, "")
  unfolding max_fan_out_with
  max_fan_out_with-Attains =
      let (above, all, from) = fan_out_loop-IsMax (all_operations p topo) (pos 0) "" in (all, from)

  -- The worst case number of children that the calls of an operation make: the sum over the calls of
  -- count times attempts.
  abbrev pub children : List (Call p) → ℕ
  children [] = 0
  children (c ∷ cs) = runs c + children cs

  -- Count and retries of each call leave room for their product in 64 bits, and so does the sum.
  pub record IsRoomy (cs : List (Call p)) : Type 0 where
    pub small : All IsSmall cs
    pub total : children cs < two_63

  fan_loop-children :
      (fan : ℕ) (cs : List (Call p))
      → All IsSmall cs
      → fan + children cs < two_63
      → fan_loop (pos fan) cs ≡ pos (fan + children cs)
  unfolding fan_loop
  fan_loop-children fan [] h l = ap pos (omega arith)
  fan_loop-children fan (c ∷ cs) h l =
      rw
        (
          fan_for_call-runs c h.0,
          pos_add,
          wrap_64_id (pos (fan + runs c)) (omega (arith, l), omega arith),
          fan_loop-children (fan + runs c) cs h.1 (omega (arith, l)),
        )
        (ap pos (omega arith))

  -- Every operation that a service lists.
  abbrev pub AllListed : (ℕ → Type 0) → Type 0
  AllListed P =
      All (λ (s : String × ℕ). All (λ (o : String × ℕ). P o.1) (topo.service s.1).operations)
        topo.services

  abbrev pub AnyListed : (ℕ → Type 0) → Type 0
  AnyListed P =
      Any (λ (s : String × ℕ). Any (λ (o : String × ℕ). P o.1) (topo.service s.1).operations)
        topo.services

  ids_of-All : (P : ℕ → Type 0) (m : Dict ℕ) → All P (ids_of m) → All (λ (o : String × ℕ). P o.1) m
  ids_of-All P [] h = tt
  ids_of-All P ((k, id) ∷ m) h = (h.0, ids_of-All P m h.1)

  ids_of-Any : (P : ℕ → Type 0) (m : Dict ℕ) → Any P (ids_of m) → Any (λ (o : String × ℕ). P o.1) m
  ids_of-Any P [] h = absurd h
  ids_of-Any P ((k, id) ∷ m) (inl h) = inl h
  ids_of-Any P ((k, id) ∷ m) (inr h) = inr (ids_of-Any P m h)

  append-All : (P : ℕ → Type 0) (xs ys : List ℕ) → All P (xs ++ ys) → All P xs × All P ys
  append-All P [] ys h = (tt, h)
  append-All P (x ∷ xs) ys h = let (a, b) = append-All P xs ys h.1 in ((h.0, a), b)

  append-Any : (P : ℕ → Type 0) (xs ys : List ℕ) → Any P (xs ++ ys) → Any P xs ⊎ Any P ys
  append-Any P [] ys h = inr h
  append-Any P (x ∷ xs) ys (inl h) = inl (inl h)
  append-Any P (x ∷ xs) ys (inr h) = elim (append-Any P xs ys h) [
    | inl a ↦ inl (inr a)
    | inr b ↦ inr b
  ]

  operations_of-All :
      (P : ℕ → Type 0) (svcs : Dict ℕ)
      → All P (operations_of p topo (ids_of svcs))
      → All (λ (s : String × ℕ). All (λ (o : String × ℕ). P o.1) (topo.service s.1).operations) svcs
  unfolding operations_of
  operations_of-All P [] h = tt
  operations_of-All P ((k, s) ∷ svcs) h =
      let (a, b) = append-All P (ids_of (topo.service s).operations) _ h in
      (ids_of-All P (topo.service s).operations a, operations_of-All P svcs b)

  operations_of-Any :
      (P : ℕ → Type 0) (svcs : Dict ℕ)
      → Any P (operations_of p topo (ids_of svcs))
      → Any (λ (s : String × ℕ). Any (λ (o : String × ℕ). P o.1) (topo.service s.1).operations) svcs
  unfolding operations_of
  operations_of-Any P [] h = absurd h
  operations_of-Any P ((k, s) ∷ svcs) h =
      elim (append-Any P (ids_of (topo.service s).operations) _ h) [
        | inl a ↦ inl (ids_of-Any P (topo.service s).operations a)
        | inr b ↦ inr (operations_of-Any P svcs b)
      ]

  All-mono : {P Q : ℕ → Type 0} → ((x : ℕ) → P x → Q x) → (xs : List ℕ) → All P xs → All Q xs
  All-mono f [] h = tt
  All-mono f (x ∷ xs) h = (f x h.0, All-mono f xs h.1)

  Any-mono : {P Q : ℕ → Type 0} → ((x : ℕ) → P x → Q x) → (xs : List ℕ) → Any P xs → Any Q xs
  Any-mono f [] h = absurd h
  Any-mono f (x ∷ xs) (inl h) = inl (f x h)
  Any-mono f (x ∷ xs) (inr h) = inr (Any-mono f xs h)

  module _ (rooms : (op : ℕ) → IsRoomy (callees p topo overrides op)) where
    abbrev worst : ℕ → ℕ
    worst op = children (callees p topo overrides op)

    fan_of-children : (op : ℕ) → fan_of op ≡ pos (worst op)
    fan_of-children op =
        fan_loop-children 0 (callees p topo overrides op) (rooms op).small
          (omega (arith, (rooms op).total))
        ∙ ap pos (omega arith)

    worst_below : (op m : ℕ) (v : ℤ) → v ≡ pos m → fan_of op ≤ℤ v → worst op ≤ m
    worst_below op m v e h =
        let k : pos (worst op) ≤ℤ pos m =
          subst (λ u. u ≤ℤ pos m) (fan_of-children op) (subst (λ u. fan_of op ≤ℤ u) e h) in
        omega (arith, k)

    value : (ops : List ℕ) (r : ℤ × String) → Attains ops r (pos 0, "") → (m : ℕ) × (r.0 ≡ pos m)
    value ops r (inl e) = (0, ap (λ (v : ℤ × String). v.0) e)
    value [] r (inr h) = absurd h
    value (op ∷ ops) r (inr (inl e)) =
        (worst op, ap (λ (v : ℤ × String). v.0) e ∙ fan_of-children op)
    value (op ∷ ops) r (inr (inr h)) = value ops r (inr h)

    pos-injective : (a b : ℕ) → pos a ≡ pos b → a ≡ b
    pos-injective a b e = ap pos_part e

    from :
        (m : ℕ)
        → max_fan_out_with.0 ≡ pos m
        → Attains (all_operations p topo) max_fan_out_with (pos 0, "")
        → ((m ≡ 0) × (max_fan_out_with.1 ≡ ""))
          ⊎ AnyListed (λ op. (worst op ≡ m) × (ref_of p topo op ≡ max_fan_out_with.1))
    unfolding all_operations
    from m e (inl q) =
        inl (
          pos-injective m 0 (sym e ∙ ap (λ (v : ℤ × String). v.0) q),
          ap (λ (v : ℤ × String). v.1) q,
        )
    from m e (inr h) = inr (
        operations_of-Any _ topo.services (
          Any-mono
            (λ op q. (
              pos-injective (worst op) m
                  (sym (fan_of-children op) ∙ sym (ap (λ (v : ℤ × String). v.0) q) ∙ e),
              sym (ap (λ (v : ℤ × String). v.1) q),
            ))
            (all_operations p topo) h))

    -- Where counts and retries are below 2 ^ 30 and no operation's number of children leaves 64
    -- bits, MaxFanOut is at least the number of children of every operation that a service lists,
    -- the sum over its calls of count (at least one) times attempts, and it is that of a listed operation that it
    -- names, or zero with the empty name.
    pub max_fan_out_with-worst :
        (m : ℕ) × (max_fan_out_with.0 ≡ pos m)
        × AllListed (λ op. children (callees p topo overrides op) ≤ m)
        × (((m ≡ 0) × (max_fan_out_with.1 ≡ ""))
            ⊎ AnyListed (λ op.
              (children (callees p topo overrides op) ≡ m)
              × (ref_of p topo op ≡ max_fan_out_with.1)))
    unfolding all_operations
    max_fan_out_with-worst =
        let (above, attained) = max_fan_out_with-Attains in
        let (m, e) = value (all_operations p topo) max_fan_out_with attained in
        (
          m,
          e,
          operations_of-All _ topo.services (
              All-mono (λ op h. worst_below op m max_fan_out_with.0 e h) (all_operations p topo)
                above),
          from m e attained,
        )
