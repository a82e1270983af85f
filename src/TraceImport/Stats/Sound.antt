-- ===== src/TraceImport/Stats/Sound.antt =====
-- pkg/synth/traceimport/stats.go: the counters of an operation fit each other, as the emitted rates,
-- probabilities and counts need.
use mathlib.Core.Option.{none-ne-some, some-injective}
use motel.Prelude.{
  ℕ, ◌+◌, ◌≤◌, ◌≡◌, refl, sym, ap, subst, ◌∙◌, String, List, [], ◌∷◌, Option, none, some, Dict,
  lookup, IsMap, insert-IsMap, AllValues, insert-AllValues, lookup-AllValues, joined,
  lookup-update_all, arith, inl, inr, Option-cases,
}
use motel.Platform.{Float64}
use motel.TraceImport.{Span}
use motel.TraceImport.Stats.{
  SpanNode, span_of, ref_of_span, Folded, CallStats, count_targets, add_target, add_targets,
  Services, ServiceStats, OpStats, get_op, get_service, no_op, record_duration, note_invocation,
  note_node, collect_from_trees, folded_calls,
}
use motel.TraceImport.Stats.Folds.{IsEnough, collect_from_trees-keeps}

-- A target is counted in at least one and in no more of the invocations than there are, and at
-- least once in each.
pub record FitsIn (total : ℕ) (cs : CallStats) : Type 0 where
  pub called : 1 ≤ cs.count
  pub repeated : cs.count ≤ cs.occurrences
  pub within : cs.count ≤ total

count_targets-positive :
    (calls : List SpanNode) (m : Dict ℕ)
    → AllValues (λ k. 1 ≤ k) m
    → AllValues (λ k. 1 ≤ k) (count_targets calls m)
unfolding count_targets
count_targets-positive [] m h = h
count_targets-positive (c ∷ calls) m h = elim (Option-cases (lookup (ref_of_span (span_of c)) m)) [
  | inl e ↦
      rw (e, count_targets)
        (count_targets-positive calls _ (insert-AllValues _ m _ _ (omega arith) h))
  | inr (k, e) ↦
      rw (e, count_targets)
        (count_targets-positive calls _ (insert-AllValues _ m _ _ (omega arith) h))
]

pub count_targets-IsMap :
    (calls : List SpanNode) (m : Dict ℕ) → IsMap m → IsMap (count_targets calls m)
unfolding count_targets
count_targets-IsMap [] m h = h
count_targets-IsMap (c ∷ calls) m h = count_targets-IsMap calls _ (insert-IsMap m _ _ h)

-- The calls of an operation that was invoked so often.
abbrev pub AreFitting : ℕ → Dict CallStats → Type 0
AreFitting total calls =
    (target : String) (cs : CallStats) → lookup target calls ≡ some cs → FitsIn total cs

add_target_fits :
    (total : ℕ) (old : Option CallStats) (k : ℕ) (cs : CallStats)
    → 1 ≤ k
    → ((c : CallStats) → old ≡ some c → FitsIn total c)
    → add_target old k ≡ cs
    → FitsIn (total + 1) cs
add_target_fits total none k cs h f e =
    subst (FitsIn (total + 1)) e
      (record { called = omega arith; repeated = h; within = omega arith })
add_target_fits total (some c) k cs h f e =
    let g = f c refl in
    subst (FitsIn (total + 1)) e (record {
      called = omega arith;
      repeated = omega (arith, g.repeated, h);
      within = omega (arith, g.within);
    })

add_targets-AreFitting :
    (total : ℕ) (per_target : Dict ℕ) (calls : Dict CallStats)
    → IsMap per_target
    → AllValues (λ k. 1 ≤ k) per_target
    → AreFitting total calls
    → AreFitting (total + 1) (add_targets per_target calls)
unfolding add_targets
add_targets-AreFitting total per_target calls h positive f target cs e =
    let there = lookup-update_all add_target target per_target calls h in
    elim (Option-cases (lookup target per_target)) [
      | inl n ↦
          let g = f target cs (sym (there ∙ ap (joined add_target (lookup target calls)) n) ∙ e) in
          record { called = g.called; repeated = g.repeated; within = omega (arith, g.within) }
      | inr (k, n) ↦
          add_target_fits total (lookup target calls) k cs
            (lookup-AllValues (λ x. 1 ≤ x) per_target target k positive n) (f target)
            (some-injective _ cs (sym (there ∙ ap (joined add_target (lookup target calls)) n) ∙ e))
    ]

module _ (fl : Float64) where
  pub record IsSound (o : OpStats fl) : Type 0 where
    pub errors : o.error_count ≤ o.total_count
    pub timed : o.duration_count ≡ o.total_count
    pub calls : AreFitting o.total_count o.calls

  no_op-IsSound : IsSound (no_op fl)
  unfolding lookup
  no_op-IsSound = record {
    errors = omega arith;
    timed = refl;
    calls = λ target cs e. absurd (none-ne-some cs e);
  }

  note_invocation-IsSound :
      (s : Span) (f : Folded) (o : OpStats fl) → IsSound o → IsSound (note_invocation fl s f o)
  unfolding note_invocation record_duration count_targets
  note_invocation-IsSound s f o h = record {
    errors = let k = h.errors in ground (arith, k);
    timed = omega (arith, h.timed);
    calls =
        add_targets-AreFitting o.total_count (count_targets f.calls []) o.calls
          (count_targets-IsMap f.calls [] tt) (count_targets-positive f.calls [] tt) h.calls;
  }

  abbrev pub AreSound : Services fl → Type 0
  AreSound = AllValues (λ (svc : ServiceStats fl). AllValues IsSound svc.ops)

  get_op-IsSound :
      (name : String) (ops : Dict (OpStats fl))
      → AllValues IsSound ops
      → IsSound (get_op fl name ops)
  get_op-IsSound name ops h = elim (Option-cases (lookup name ops)) [
    | inl e ↦ rw (e, get_op) no_op-IsSound
    | inr (o, e) ↦ rw (e, get_op) (lookup-AllValues IsSound ops name o h e)
  ]

  get_service-IsSound :
      (name : String) (v : Services fl) → AreSound v → AllValues IsSound (get_service fl name v).ops
  get_service-IsSound name v h = elim (Option-cases (lookup name v)) [
    | inl e ↦ rw (e, AllValues, get_service) tt
    | inr (svc, e) ↦
        rw (e, AllValues, get_service)
          (lookup-AllValues (λ (x : ServiceStats fl). AllValues IsSound x.ops) v name svc h e)
  ]

  note_node-AreSound :
      (s : Span) (f : Folded) (v : Services fl) → AreSound v → AreSound (note_node fl s f v)
  unfolding note_node
  note_node-AreSound s f v h =
      let svc = get_service fl s.service v in
      let ops = get_service-IsSound s.service v h in
      insert-AllValues (λ (x : ServiceStats fl). AllValues IsSound x.ops) v s.service _
        (insert-AllValues IsSound svc.ops s.operation _
          (note_invocation-IsSound s f (get_op fl s.operation svc.ops)
            (get_op-IsSound s.operation svc.ops ops))
          ops)
        h

  -- The walk over all trees, with enough fuel, returns statistics in which for every operation no
  -- more invocations failed than there were, each was timed, and each target was called in at
  -- least one and at most all of them, and at least once in each that is counted for it.
  pub collect_from_trees-AreSound :
      (fuel : ℕ) (trees : List (List SpanNode))
      → IsEnough fuel trees
      → (v : Services fl) × (collect_from_trees fl fuel trees [] ≡ some v) × AreSound v
  collect_from_trees-AreSound fuel trees h =
      collect_from_trees-keeps fl AreSound
        (λ s kids path v _. note_node-AreSound s (folded_calls kids path) v) fuel trees [] h tt
