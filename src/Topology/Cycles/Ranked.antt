-- ===== src/Topology/Cycles/Ranked.antt =====
-- pkg/synth/topology.go, detectCycles: what has a rank is accepted.
use motel.Prelude.{
  ℕ, zero, suc, ◌<◌, ◌≡◌, refl, ap, subst, ◌∙◌, ==_iff, true, ◌==◌, List, [], ◌∷◌, All, arith, inl,
  inr, Bool-cases,
}
use motel.Platform.{Platform}
use motel.Topology.Types.{Topology, Call}
use motel.Topology.Acyclic.{mem}
use motel.Topology.Roots.{all_operations}
use motel.Topology.Cycles.{Visit, visited, visit_calls, close, visit, visit_all, detect_cycles}
use motel.Topology.Cycles.Steps.{calls_of, All-mono, seen_before, new_one}

module _ (p : Platform) (topo : Topology p) where
  module _ (rank : ℕ → ℕ)
      (falls : (op : ℕ)
        → All (λ (c : Call p). rank c.operation < rank op) (topo.operation op).calls) where
    Answers : Visit → Type 0
    Answers r = (d : List ℕ) × (r ≡ visited d)

    visit_calls-Answers :
        (v : ℕ → List ℕ → Visit) (calls : List (Call p)) (before : List ℕ)
        → All (λ (c : Call p). (done : List ℕ) → Answers (v c.operation done)) calls
        → Answers (visit_calls p topo v calls before)
    unfolding visit_calls Answers
    visit_calls-Answers v [] before h = (before, refl)
    visit_calls-Answers v (c ∷ calls) before h =
        let (d, q) = h.0 before in
        let (d', q') = visit_calls-Answers v calls d h.1 in (d', rw (q, visit_calls) q')

    visit-Answers :
        (fuel : ℕ) (path : List ℕ) (op : ℕ) (before : List ℕ)
        → rank op < fuel
        → ((a : ℕ) → mem a path ≡ true → rank op < rank a)
        → Answers (visit p topo fuel path op before)
    unfolding visit Answers
    visit-Answers zero path op before h a = absurd (omega (arith, h))
    visit-Answers (suc fuel) path op before h a = elim (Bool-cases (mem op path)) [
      | inl q ↦ absurd (omega (arith, a op q))
      | inr q ↦ elim (Bool-cases (mem op before)) [
        | inl r ↦ (before, seen_before p topo fuel path op before q r)
        | inr r ↦
            let (d, s) =
              visit_calls-Answers (visit p topo fuel (op ∷ path)) (calls_of p topo op) before (
                All-mono p topo
                  {Q = λ c.
                    (done : List ℕ) → Answers (visit p topo fuel (op ∷ path) c.operation done)}
                  (λ c less done.
                    visit-Answers fuel (op ∷ path) c.operation done (omega (arith, less, h))
                      (above op path c.operation less a))
                  (calls_of p topo op) (falls op)) in
            (op ∷ d, new_one p topo fuel path op before q r ∙ ap (close p topo op) s)
      ]
    ]
      where
        above :
            (op : ℕ) (path : List ℕ) (o : ℕ)
            → rank o < rank op
            → ((a : ℕ) → mem a path ≡ true → rank op < rank a)
            → (a : ℕ) → mem a (op ∷ path) ≡ true
            → rank o < rank a
        above op path o less a x m = elim (Bool-cases (op == x)) [
          | inl q ↦ subst (λ y. rank o < rank y) ((==_iff op x).0 q) less
          | inr q ↦ omega (arith, less, a x (ground (arith, m, q)))
        ]

    visit_all-Answers :
        (fuel : ℕ)
        → ((op : ℕ) → rank op < fuel)
        → (ops before : List ℕ) → Answers (visit_all p topo fuel ops before)
    unfolding visit_all Answers
    visit_all-Answers fuel h [] before = (before, refl)
    visit_all-Answers fuel h (op ∷ ops) before = elim (Bool-cases (mem op before)) [
      | inl q ↦ let (d, e) = visit_all-Answers fuel h ops before in (d, rw (q, visit_all) e)
      | inr q ↦
          let (d, e) = visit-Answers fuel [] op before (h op) (λ a m. ground (arith, m)) in
          let (d', e') = visit_all-Answers fuel h ops d in (d', rw (q, visit_all, e) e')
    ]

    -- A topology that has a rank is accepted, with fuel for every rank.
    pub detect_cycles_accepts :
        (fuel : ℕ)
        → ((op : ℕ) → rank op < fuel)
        → (d : List ℕ) × (detect_cycles p topo fuel ≡ visited d)
    unfolding detect_cycles Answers
    detect_cycles_accepts fuel h = visit_all-Answers fuel h (all_operations p topo) []
