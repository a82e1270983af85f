-- ===== src/Topology/Cycles/Accepted.antt =====
-- pkg/synth/topology.go, detectCycles: what is accepted has a rank.
use motel.Prelude.{
  ℕ, zero, suc, ◌≤◌, ◌<◌, ◌≡◌, refl, sym, ap, subst, ◌∙◌, ==_iff, true, false, ◌==◌, List, [], ◌∷◌,
  length, All, if◌then◌else◌, arith, inl, inr, Bool-cases,
}
use motel.Platform.{Platform}
use motel.Topology.Types.{Topology, Call}
use motel.Topology.Acyclic.{mem}
use motel.Topology.Roots.{all_operations}
use motel.Topology.Cycles.{
  Visit, visited, cycle_detected, out_of_fuel, visit_calls, close, visit, visit_all, detect_cycles,
}
use motel.Topology.Cycles.Steps.{
  Visit-cases, visited-injective, not_cycle, not_out, calls_of, All-mono, on_path, seen_before,
  new_one,
}

module _ (p : Platform) (topo : Topology p) where
  -- The callees of an operation were visited before it, and it was visited once.
  abbrev IsFinished : List ℕ → Type 0
  IsFinished [] = Unit
  IsFinished (x ∷ xs) =
      All (λ (c : Call p). mem c.operation xs ≡ true) (calls_of p topo x)
      × (mem x xs ≡ false)
      × IsFinished xs

  abbrev Grows : List ℕ → List ℕ → Type 0
  Grows xs ys = (a : ℕ) → mem a xs ≡ true → mem a ys ≡ true

  abbrev IsApart : List ℕ → List ℕ → Type 0
  IsApart path xs = (a : ℕ) → mem a path ≡ true → mem a xs ≡ false

  -- What a visit leaves of the visited operations.
  pub record Keeps (path before after : List ℕ) : Type 0 where
    pub finished : IsFinished after
    pub grows : Grows before after
    pub apart : IsApart path after

  -- A visit of any operation that answers, answers so.
  abbrev Visits : List ℕ → (ℕ → List ℕ → Visit) → Type 0
  Visits path v =
      (op : ℕ) (before after : List ℕ)
      → IsFinished before
      → IsApart path before
      → v op before ≡ visited after
      → Keeps path before after × (mem op after ≡ true)

  visit_calls-Keeps :
      (path : List ℕ) (v : ℕ → List ℕ → Visit) (calls : List (Call p)) (before after : List ℕ)
      → Visits path v
      → IsFinished before
      → IsApart path before
      → visit_calls p topo v calls before ≡ visited after
      → Keeps path before after × All (λ (c : Call p). mem c.operation after ≡ true) calls
  unfolding visit_calls
  visit_calls-Keeps path v [] before after h f a e =
      let same = visited-injective before after e in
      (
        record {
          finished = subst IsFinished same f;
          grows = subst (Grows before) same (λ x m. m);
          apart = subst (IsApart path) same a;
        },
        tt,
      )
  visit_calls-Keeps path v (c ∷ calls) before after h f a e =
      elim (Visit-cases (v c.operation before)) [
        | inl (d, q) ↦
            let step : visit_calls p topo v (c ∷ calls) before ≡ visit_calls p topo v calls d =
              rw (q, visit_calls) refl in
            let (k, there) = h c.operation before d f a q in
            let (k', all) =
              visit_calls-Keeps path v calls d after h k.finished k.apart (sym step ∙ e) in
            (
              record {
                finished = k'.finished;
                grows = λ x m. k'.grows x (k.grows x m);
                apart = k'.apart;
              },
              (k'.grows c.operation there, all),
            )
        | inr (inl (o, q)) ↦
            let step : visit_calls p topo v (c ∷ calls) before ≡ cycle_detected o =
              rw (q, visit_calls) refl in
            absurd (not_cycle o after (sym step ∙ e))
        | inr (inr q) ↦
            let step : visit_calls p topo v (c ∷ calls) before ≡ out_of_fuel =
              rw (q, visit_calls) refl in
            absurd (not_out after (sym step ∙ e))
      ]

  IsApart-cons :
      (op : ℕ) (path done : List ℕ)
      → mem op done ≡ false
      → IsApart path done
      → IsApart (op ∷ path) done
  IsApart-cons op path done n a x m = elim (Bool-cases (op == x)) [
    | inl q ↦ subst (λ y. mem y done ≡ false) ((==_iff op x).0 q) n
    | inr q ↦ a x (ground (arith, m, q))
  ]

  -- The operation is closed after its calls.
  closes :
      (op : ℕ) (path before below : List ℕ)
      → mem op path ≡ false
      → Keeps (op ∷ path) before below
      → All (λ (c : Call p). mem c.operation below ≡ true) (calls_of p topo op)
      → Keeps path before (op ∷ below) × (mem op (op ∷ below) ≡ true)
  closes op path before below n k all =
      let itself : mem op (op ∷ path) ≡ true = ground arith in
      (
        record {
          finished = (all, k.apart op itself, k.finished);
          grows = λ x m. let g = k.grows x m in ground (arith, g);
          apart = λ x m.
              let g = k.apart x (ground (arith, m)) in
              let other = λ (q : op ≡ x). subst (λ y. mem y path ≡ false) q n in
              ground (arith, g, m, other);
        },
        ground arith,
      )

  visit-Keeps : (fuel : ℕ) (path : List ℕ) → Visits path (visit p topo fuel path)
  unfolding visit
  visit-Keeps zero path op before after f a e = absurd (not_out after e)
  visit-Keeps (suc fuel) path op before after f a e = elim (Bool-cases (mem op path)) [
    | inl q ↦ absurd (not_cycle op after (sym (on_path p topo fuel path op before q) ∙ e))
    | inr q ↦ elim (Bool-cases (mem op before)) [
      | inl r ↦
          let same =
            visited-injective before after (sym (seen_before p topo fuel path op before q r) ∙ e) in
          subst (λ d. Keeps path before d × (mem op d ≡ true)) same
            (record { finished = f; grows = λ x m. m; apart = a }, r)
      | inr r ↦
          let calls =
            visit_calls p topo (visit p topo fuel (op ∷ path)) (calls_of p topo op) before in
          let e' = sym (new_one p topo fuel path op before q r) ∙ e in
          elim (Visit-cases calls) [
            | inl (d, s) ↦
                let same = visited-injective (op ∷ d) after (sym (ap (close p topo op) s) ∙ e') in
                let (k, all) =
                  visit_calls-Keeps (op ∷ path) (visit p topo fuel (op ∷ path)) (calls_of p topo op)
                    before d (visit-Keeps fuel (op ∷ path)) f (IsApart-cons op path before r a) s in
                subst (λ x. Keeps path before x × (mem op x ≡ true)) same
                  (closes op path before d q k all)
            | inr (inl (o, s)) ↦ absurd (not_cycle o after (sym (ap (close p topo op) s) ∙ e'))
            | inr (inr s) ↦ absurd (not_out after (sym (ap (close p topo op) s) ∙ e'))
          ]
    ]
  ]

  -- The number of operations that were visited up to this one.
  abbrev pub rank_in : List ℕ → ℕ → ℕ
  rank_in [] op = 0
  rank_in (x ∷ xs) op = if x == op then suc (length xs) else rank_in xs op

  rank_in-le : (xs : List ℕ) (op : ℕ) → rank_in xs op ≤ length xs
  rank_in-le [] op = omega arith
  rank_in-le (x ∷ xs) op = let h = rank_in-le xs op in ground (arith, h)

  -- A call to a visited operation, of a lower rank.
  abbrev FallsTo : List ℕ → ℕ → Call p → Type 0
  FallsTo xs op c = (rank_in xs c.operation < rank_in xs op) × (mem c.operation xs ≡ true)

  falls_first :
      (x : ℕ) (xs : List ℕ) (c : Call p)
      → mem x xs ≡ false
      → mem c.operation xs ≡ true
      → FallsTo (x ∷ xs) x c
  falls_first x xs c n m =
      let small = rank_in-le xs c.operation in
      let other = λ (q : x ≡ c.operation). subst (λ y. mem y xs ≡ false) q n in
      (ground (arith, small, other, m), ground (arith, m))

  falls_later :
      (x op : ℕ) (xs : List ℕ) (c : Call p)
      → mem x xs ≡ false
      → (x == op) ≡ false
      → FallsTo xs op c
      → FallsTo (x ∷ xs) op c
  falls_later x op xs c n q h =
      let m = h.1 in
      let less = h.0 in
      let other = λ (r : x ≡ c.operation). subst (λ y. mem y xs ≡ false) r n in
      (ground (arith, less, other, m, q), ground (arith, m))

  falls_of :
      (xs : List ℕ)
      → IsFinished xs
      → (op : ℕ) → mem op xs ≡ true
      → All (FallsTo xs op) (calls_of p topo op)
  falls_of [] f op m = ground (arith, m)
  falls_of (x ∷ xs) f op m = elim (Bool-cases (x == op)) [
    | inl q ↦
        subst (λ y. All (FallsTo (x ∷ xs) y) (calls_of p topo y)) ((==_iff x op).0 q)
          (All-mono p topo (λ c h. falls_first x xs c f.1 h) (calls_of p topo x) f.0)
    | inr q ↦
        All-mono p topo (λ c h. falls_later x op xs c f.1 q h) (calls_of p topo op)
          (falls_of xs f.2 op (ground (arith, m, q)))
  ]

  IsApart-nil : (xs : List ℕ) → IsApart [] xs
  IsApart-nil xs a m = ground (arith, m)

  visit_all-IsFinished :
      (fuel : ℕ) (ops before after : List ℕ)
      → IsFinished before
      → visit_all p topo fuel ops before ≡ visited after
      → IsFinished after × Grows before after × Grows ops after
  unfolding visit_all
  visit_all-IsFinished fuel [] before after f e =
      let same = visited-injective before after e in
      (subst IsFinished same f, subst (Grows before) same (λ x m. m), λ x m. ground (arith, m))
  visit_all-IsFinished fuel (op ∷ ops) before after f e = elim (Bool-cases (mem op before)) [
    | inl q ↦
        let step : visit_all p topo fuel (op ∷ ops) before ≡ visit_all p topo fuel ops before =
          rw (q, visit_all) refl in
        let (f', g, h) = visit_all-IsFinished fuel ops before after f (sym step ∙ e) in
        (f', g, grows_cons op ops after (g op q) h)
    | inr q ↦ elim (Visit-cases (visit p topo fuel [] op before)) [
      | inl (d, s) ↦
          let step : visit_all p topo fuel (op ∷ ops) before ≡ visit_all p topo fuel ops d =
            rw (q, visit_all, s) refl in
          let (k, there) = visit-Keeps fuel [] op before d f (IsApart-nil before) s in
          let (f', g, h) = visit_all-IsFinished fuel ops d after k.finished (sym step ∙ e) in
          (f', (λ x m. g x (k.grows x m)), grows_cons op ops after (g op there) h)
      | inr (inl (o, s)) ↦
          let step : visit_all p topo fuel (op ∷ ops) before ≡ cycle_detected o =
            rw (q, visit_all, s) refl in
          absurd (not_cycle o after (sym step ∙ e))
      | inr (inr s) ↦
          let step : visit_all p topo fuel (op ∷ ops) before ≡ out_of_fuel =
            rw (q, visit_all, s) refl in
          absurd (not_out after (sym step ∙ e))
    ]
  ]
    where
      grows_cons :
          (op : ℕ) (ops after : List ℕ)
          → mem op after ≡ true
          → Grows ops after
          → Grows (op ∷ ops) after
      grows_cons op ops after h g x m = elim (Bool-cases (op == x)) [
        | inl q ↦ subst (λ y. mem y after ≡ true) ((==_iff op x).0 q) h
        | inr q ↦ g x (ground (arith, m, q))
      ]

  -- If the search accepts the topology, the order in which it finished the operations is a rank that
  -- falls along every call of every operation, so no chain of calls comes back.
  pub detect_cycles-falls :
      (fuel : ℕ) (done : List ℕ)
      → detect_cycles p topo fuel ≡ visited done
      → (op : ℕ) → mem op (all_operations p topo) ≡ true
      → All (λ (c : Call p). rank_in done c.operation < rank_in done op) (topo.operation op).calls
  unfolding detect_cycles
  detect_cycles-falls fuel done e op m =
      let (f, _, there) = visit_all-IsFinished fuel (all_operations p topo) [] done tt e in
      All-mono p topo (λ c h. h.0) (calls_of p topo op) (falls_of done f op (there op m))
