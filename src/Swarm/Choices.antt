-- ===== src/Swarm/Choices.antt =====
-- pkg/synth/swarm.go: which choice points a run of swarmChoices forces, and to what.
use motel.Prelude.{
  ℕ, suc, ◌+◌, ◌*◌, ◌/◌, ◌%◌, ◌≡◌, refl, sym, subst, ap, ◌∙◌, Bool, true, false, ◌&&◌, String,
  str_eq, eq_iff, List, [], ◌∷◌, some, Any, inr, ◌==◌, get_elem?, arith, Bool-cases, inl,
}
use motel.Prelude.Int.{ℤ, pos, negsuc}
use motel.Platform.{Platform}
use motel.Swarm.{
  ChoiceKind, call_probability, operation_error, retry_activation, ChoiceKey, ChoiceDecisions,
  same_kind, same_int, same_key, lookup_choice, decide_all, direct, swarm_choices,
}

same_kind_refl : (k : ChoiceKind) → same_kind k k ≡ true
same_kind_refl call_probability = refl
same_kind_refl operation_error = refl
same_kind_refl retry_activation = refl

same_int_refl : (z : ℤ) → same_int z z ≡ true
same_int_refl (pos n) = ground arith
same_int_refl (negsuc n) = ground arith

str_eq_refl : (s : String) → str_eq s s ≡ true
str_eq_refl s = (eq_iff s s).1 refl

same_key_refl : (k : ChoiceKey) → same_key k k ≡ true
same_key_refl k =
    rw
      (
        same_kind_refl k.kind,
        str_eq_refl k.operation_ref,
        str_eq_refl k.target_ref,
        same_int_refl k.call_index,
      )
      refl

lookup-head :
    (k : ChoiceKey) (b : Bool) (d : ChoiceDecisions) → lookup_choice k ((k, b) ∷ d) ≡ some b
unfolding lookup_choice
lookup-head k b d = rw (same_key_refl k) refl

lookup-point :
    (k c : ChoiceKey) (b : Bool) (d : ChoiceDecisions)
    → c ≡ k
    → lookup_choice k ((c, b) ∷ d) ≡ some b
lookup-point k c b d e =
    subst (λ c. lookup_choice k ((c, b) ∷ d) ≡ some b) (sym e) (lookup-head k b d)

same_kind→eq : (a b : ChoiceKind) → same_kind a b ≡ true → a ≡ b
same_kind→eq call_probability call_probability h = refl
same_kind→eq call_probability operation_error h = cc
same_kind→eq call_probability retry_activation h = cc
same_kind→eq operation_error call_probability h = cc
same_kind→eq operation_error operation_error h = refl
same_kind→eq operation_error retry_activation h = cc
same_kind→eq retry_activation call_probability h = cc
same_kind→eq retry_activation operation_error h = cc
same_kind→eq retry_activation retry_activation h = refl

same_int→eq : (a b : ℤ) → same_int a b ≡ true → a ≡ b
same_int→eq (pos a) (pos b) h = ground arith
same_int→eq (pos a) (negsuc b) h = cc
same_int→eq (negsuc a) (pos b) h = cc
same_int→eq (negsuc a) (negsuc b) h = ground arith

and_parts : (a b : Bool) → (a && b) ≡ true → (a ≡ true) × (b ≡ true)
and_parts true b h = (refl, h)
and_parts false b h = cc

key_of : ChoiceKind → String → String → ℤ → ChoiceKey
key_of k o t i = record { kind = k; operation_ref = o; target_ref = t; call_index = i }

same_key→eq : (a b : ChoiceKey) → same_key a b ≡ true → a ≡ b
unfolding key_of
same_key→eq a b h =
    let (h1, u) = and_parts _ _ h in
    let (h2, z) = and_parts _ _ h1 in
    let (x, y) = and_parts _ _ h2 in
    ap (λ k. key_of k a.operation_ref a.target_ref a.call_index) (same_kind→eq a.kind b.kind x)
    ∙ ap (λ o. key_of b.kind o a.target_ref a.call_index)
        ((eq_iff a.operation_ref b.operation_ref).0 y)
    ∙ ap (λ t. key_of b.kind b.operation_ref t a.call_index)
        ((eq_iff a.target_ref b.target_ref).0 z)
    ∙ ap (λ i. key_of b.kind b.operation_ref b.target_ref i)
        (same_int→eq a.call_index b.call_index u)

module _ (p : Platform) where
  abbrev decided : (ChoiceKey → Bool) → List ChoiceKey → ChoiceDecisions → ChoiceDecisions
  decided = decide_all p

  -- A key that is decided as `f` says stays so when more points are decided as `f` says.
  lookup-decide_all-kept :
      (f : ChoiceKey → Bool) (k : ChoiceKey) (ks : List ChoiceKey) (d : ChoiceDecisions)
      → lookup_choice k d ≡ some (f k)
      → lookup_choice k (decided f ks d) ≡ some (f k)
  unfolding decide_all lookup_choice
  lookup-decide_all-kept f k [] d h = h
  lookup-decide_all-kept f k (c ∷ ks) d h =
      lookup-decide_all-kept f k ks ((c, f c) ∷ d) (elim (Bool-cases (same_key c k)) [
        | inl e ↦ rw (e, lookup_choice) (ap (λ c. some (f c)) (same_key→eq c k e))
        | inr e ↦ rw (e, lookup_choice) h
      ])

  lookup-decide_all :
      (f : ChoiceKey → Bool) (k : ChoiceKey) (ks : List ChoiceKey) (d : ChoiceDecisions)
      → Any (λ c. c ≡ k) ks
      → lookup_choice k (decided f ks d) ≡ some (f k)
  unfolding decide_all
  lookup-decide_all f k [] d h = absurd h
  lookup-decide_all f k (c ∷ ks) d (inl e) =
      lookup-decide_all-kept f k ks ((c, f c) ∷ d)
        (subst (λ c. lookup_choice k ((c, f c) ∷ d) ≡ some (f k)) (sym e) (lookup-head k (f k) d))
  lookup-decide_all f k (c ∷ ks) d (inr h) = lookup-decide_all f k ks ((c, f c) ∷ d) h

  lookup-direct :
      (points : List ChoiceKey) (i n : ℕ) (k : ChoiceKey) (d : ChoiceDecisions)
      → get_elem? points i ≡ some k
      → n / 2 ≡ i
      → lookup_choice k (direct p points n d) ≡ some (n % 2 == 0)
  unfolding direct
  lookup-direct points i n k d h e = rw (e, direct) (rw (h, direct) (lookup-head k (n % 2 == 0) d))

  lookup-run :
      (points : List ChoiceKey) (i n run : ℕ) (k : ChoiceKey) (g : p.Rng)
      → get_elem? points i ≡ some k
      → n / 2 ≡ i
      → suc (suc (suc n)) ≡ run
      → lookup_choice k (swarm_choices p points run g).0 ≡ some (n % 2 == 0)
  unfolding swarm_choices
  lookup-run [] i n run k g h e r = cc
  lookup-run (c ∷ cs) i n run k g h e r =
      subst (λ run. lookup_choice k (swarm_choices p (c ∷ cs) run g).0 ≡ some (n % 2 == 0)) r
        (lookup-direct (c ∷ cs) i n k _ h e)

  -- Later runs enumerate the points: for the point at index i, run 3 + 2 * i enables it and run
  -- 4 + 2 * i disables it, whatever the random decisions are.
  pub swarm_choices-directed :
      (points : List ChoiceKey) (i : ℕ) (k : ChoiceKey) (g : p.Rng)
      → get_elem? points i ≡ some k
      → (lookup_choice k (swarm_choices p points (3 + 2 * i) g).0 ≡ some true)
        × (lookup_choice k (swarm_choices p points (4 + 2 * i) g).0 ≡ some false)
  swarm_choices-directed points i k g h = (
    lookup-run points i (2 * i) (3 + 2 * i) k g h (omega arith) (omega arith)
        ∙ ap some (ground arith),
    lookup-run points i (suc (2 * i)) (4 + 2 * i) k g h (omega arith) (omega arith)
        ∙ ap some (ground arith),
  )
