-- ===== src/TraceImport/Stats/Folds.antt =====
-- pkg/synth/traceimport/stats.go: what the fold of continuations leaves, and that the walk over a
-- trace ends.
use motel.Prelude.{
  eq_iff, ℕ, zero, suc, ◌+◌, ◌≤◌, ◌≡◌, refl, true, false, String, List, [], ◌∷◌, ◌++◌, Option, some,
  All, arith, inl, inr, Bool-cases,
}
use motel.Platform.{Float64}
use motel.TraceImport.{Span}
use motel.TraceImport.Stats.{
  SpanNode, SpanNodes, span_node, no_nodes, more_nodes, span_of, children_of, ref_of_span,
  contains_string, folded_calls, Services, walk_each, walk_node, note_node, collect_from_trees,
}

All-append {ℓ} :
    {A : Type ℓ} (P : A → Type 0) (xs ys : List A) → All P xs → All P ys → All P (xs ++ ys)
All-append P [] ys h k = k
All-append P (x ∷ xs) ys h k = (h.0, All-append P xs ys h.1 k)

All-mono {ℓ} :
    {A : Type ℓ} {P Q : A → Type 0} → ((x : A) → P x → Q x) → (xs : List A) → All P xs → All Q xs
All-mono f [] h = tt
All-mono f (x ∷ xs) h = (f x h.0, All-mono f xs h.1)

contains_string-end : (xs : List String) (x : String) → contains_string (xs ++ x ∷ []) x ≡ true
unfolding contains_string
contains_string-end [] x = rw ((eq_iff x x).1 refl) refl
contains_string-end (y ∷ xs) x = ground (arith, contains_string-end xs x)

-- No call that is left goes back to an operation on the path.
pub folded_calls-new :
    (kids : SpanNodes) (path : List String)
    → All
        (λ (c : SpanNode). contains_string path (ref_of_span (span_of c)) ≡ false)
        (folded_calls kids path).calls
unfolding folded_calls
folded_calls-new no_nodes path = tt
folded_calls-new (more_nodes (span_node s kids) rest) path =
    let sub = folded_calls-new kids path in
    let others = folded_calls-new rest path in
    elim (Bool-cases (contains_string path (ref_of_span s))) [
      | inl e ↦ rw (e, folded_calls) (All-append _ (folded_calls kids path).calls _ sub others)
      | inr e ↦ rw (e, folded_calls) (e, others)
    ]

-- The number of spans.
abbrev pub size_all : SpanNodes → ℕ
size_all no_nodes = 0
size_all (more_nodes (span_node s kids) rest) = suc (size_all kids + size_all rest)

abbrev pub size : SpanNode → ℕ
size n = suc (size_all (children_of n))

-- A call is below its caller.
folded_calls-smaller :
    (kids : SpanNodes) (path : List String)
    → All (λ (c : SpanNode). size c ≤ size_all kids) (folded_calls kids path).calls
unfolding folded_calls
folded_calls-smaller no_nodes path = tt
folded_calls-smaller (more_nodes (span_node s kids) rest) path =
    let whole = suc (size_all kids + size_all rest) in
    let sub =
      All-mono
        (λ (c : SpanNode) (h : size c ≤ size_all kids).
          le_left (size c) (size_all kids) (size_all rest) h)
        (folded_calls kids path).calls (folded_calls-smaller kids path) in
    let others =
      All-mono
        (λ (c : SpanNode) (h : size c ≤ size_all rest).
          le_right (size c) (size_all kids) (size_all rest) h)
        (folded_calls rest path).calls (folded_calls-smaller rest path) in
    elim (Bool-cases (contains_string path (ref_of_span s))) [
      | inl e ↦ rw (e, folded_calls) (All-append _ (folded_calls kids path).calls _ sub others)
      | inr e ↦ rw (e, folded_calls) (omega arith, others)
    ]
  where
    le_left : (a b c : ℕ) → a ≤ b → a ≤ suc (b + c)
    le_left a b c h = omega arith

    le_right : (a b c : ℕ) → a ≤ c → a ≤ suc (b + c)
    le_right a b c h = omega arith

-- Enough fuel for every tree.
abbrev pub IsEnough : ℕ → List (List SpanNode) → Type 0
IsEnough fuel trees = All (All (λ (n : SpanNode). size n ≤ fuel)) trees

-- What every invocation keeps, a walk keeps; and with the size of the node as fuel it returns.
module _ (fl : Float64) (P : Services fl → Type 0)
    (notes : (s : Span) (kids : SpanNodes) (path : List String) (v : Services fl)
      → contains_string path (ref_of_span s) ≡ true
      → P v
      → P (note_node fl s (folded_calls kids path) v)) where
  abbrev pub Returns : Option (Services fl) → Type 0
  Returns r = (v : Services fl) × (r ≡ some v) × P v

  pub walk_each-keeps :
      (walk : SpanNode → Services fl → Option (Services fl)) (calls : List SpanNode)
      → All (λ (c : SpanNode). (v : Services fl) → P v → Returns (walk c v)) calls
      → (v : Services fl) → P v
      → Returns (walk_each fl walk calls v)
  unfolding walk_each
  walk_each-keeps walk [] h v k = (v, refl, k)
  walk_each-keeps walk (c ∷ calls) h v k =
      let (v', e, k') = h.0 v k in
      let (v'', e', k'') = walk_each-keeps walk calls h.1 v' k' in (v'', rw (e, walk_each) e', k'')

  pub walk_node-keeps :
      (fuel : ℕ) (n : SpanNode) (ancestors : List String) (v : Services fl)
      → size n ≤ fuel
      → P v
      → Returns (walk_node fl fuel n ancestors v)
  unfolding walk_node
  walk_node-keeps zero n ancestors v h k = absurd (omega (arith, h))
  walk_node-keeps (suc fuel) n ancestors v h k =
      let path = ancestors ++ ref_of_span (span_of n) ∷ [] in
      let folded = folded_calls (children_of n) path in
      walk_each-keeps (λ c. walk_node fl fuel c path) folded.calls
        (All-mono
          {Q = λ (c : SpanNode). (u : Services fl) → P u → Returns (walk_node fl fuel c path u)}
          (λ (c : SpanNode) (small : size c ≤ size_all (children_of n)) u.
            walk_node-keeps fuel c path u (omega (arith, small, h)))
          folded.calls (folded_calls-smaller (children_of n) path))
        (note_node fl (span_of n) folded v)
        (notes (span_of n) (children_of n) path v (contains_string-end ancestors _) k)

  pub collect_from_trees-keeps :
      (fuel : ℕ) (trees : List (List SpanNode)) (v : Services fl)
      → IsEnough fuel trees
      → P v
      → Returns (collect_from_trees fl fuel trees v)
  unfolding collect_from_trees
  collect_from_trees-keeps fuel [] v h k = (v, refl, k)
  collect_from_trees-keeps fuel (roots ∷ trees) v h k =
      let (v', e, k') =
        walk_each-keeps (λ c. walk_node fl fuel c []) roots
          (All-mono
            {Q = λ (c : SpanNode). (u : Services fl) → P u → Returns (walk_node fl fuel c [] u)}
            (λ (c : SpanNode) (small : size c ≤ fuel) u. walk_node-keeps fuel c [] u small) roots
            h.0)
          v k in
      let (v'', e', k'') = collect_from_trees-keeps fuel trees v' h.1 k' in
      (v'', rw (e, collect_from_trees) e', k'')
