-- ===== src/TraceImport/Trees/Places.antt =====
-- pkg/synth/traceimport/tree.go, buildTree: where each span of a trace ends up.
use mathlib.Core.List.{append-nil, append_assoc}
use motel.Prelude.{
  ℕ, zero, suc, ◌<◌, ◌≡◌, refl, sym, ap, fun_ext, length-set, ◌∙◌, Bool, true, false, String,
  str_eq, List, [], ◌∷◌, ◌++◌, Option, none, some, Dict, lookup, insert, lookup-insert,
  if◌then◌else◌, ◌==◌, length, get_or, set, arith, inl, inr, Option-cases, Bool-cases,
}
use motel.TraceImport.{Span}
use motel.TraceImport.Trees.{TraceTree, index_nodes, link_node, link_nodes, no_children, build_tree}

-- An independent description: the last place of an ID, the parent of a span, and the places of the
-- spans that pass a test.
abbrev pub last_place : ℕ → String → List Span → Option ℕ → Option ℕ
last_place i id [] found = found
last_place i id (s ∷ spans) found =
    last_place (suc i) id spans (if str_eq s.span_id id then some i else found)

abbrev pub parent_of : List Span → Span → Option ℕ
parent_of spans s = if str_eq s.parent_id "" then none else last_place 0 s.parent_id spans none

abbrev pub places : (Span → Bool) → ℕ → List Span → List ℕ
places q i [] = []
places q i (s ∷ spans) = let rest = places q (suc i) spans in if q s then i ∷ rest else rest

abbrev pub is_none : Option ℕ → Bool
is_none none = true
is_none (some j) = false

abbrev pub is_place : ℕ → Option ℕ → Bool
is_place i none = false
is_place i (some j) = j == i

lookup-index_nodes :
    (i : ℕ) (id : String) (spans : List Span) (nodes : Dict ℕ)
    → lookup id (index_nodes i spans nodes) ≡ last_place i id spans (lookup id nodes)
unfolding index_nodes
lookup-index_nodes i id [] nodes = refl
lookup-index_nodes i id (s ∷ spans) nodes =
    lookup-index_nodes (suc i) id spans (insert s.span_id i nodes)
    ∙ ap (last_place (suc i) id spans) (lookup-insert nodes s.span_id id i)

-- The parent in the map of nodes.
abbrev known_parent : Dict ℕ → Span → Option ℕ
known_parent nodes s = if str_eq s.parent_id "" then none else lookup s.parent_id nodes

-- What one span adds at the end of a list.
abbrev added : ℕ → Bool → List ℕ
added i b = if b then i ∷ [] else []

places-cons :
    (q : Span → Bool) (i : ℕ) (s : Span) (spans : List Span) (xs : List ℕ)
    → (xs ++ added i (q s)) ++ places q (suc i) spans ≡ xs ++ places q i (s ∷ spans)
places-cons q i s spans xs = elim (Bool-cases (q s)) [
  | inl e ↦ rw e (append_assoc xs (i ∷ []) (places q (suc i) spans))
  | inr e ↦ rw e (append_assoc xs [] (places q (suc i) spans))
]

link_node-roots :
    (nodes : Dict ℕ) (i : ℕ) (s : Span) (t : TraceTree)
    → (link_node nodes i s t).roots ≡ t.roots ++ added i (is_none (known_parent nodes s))
unfolding link_node
link_node-roots nodes i s t = let end = append-nil t.roots in ground (arith, end)

link_nodes-roots :
    (nodes : Dict ℕ) (i : ℕ) (spans : List Span) (t : TraceTree)
    → (link_nodes nodes i spans t).roots
      ≡ t.roots ++ places (λ s. is_none (known_parent nodes s)) i spans
unfolding link_nodes
link_nodes-roots nodes i [] t = sym (append-nil t.roots)
link_nodes-roots nodes i (s ∷ spans) t =
    let q : Span → Bool = λ x. is_none (known_parent nodes x) in
    link_nodes-roots nodes (suc i) spans (link_node nodes i s t)
    ∙ ap (λ xs. xs ++ places q (suc i) spans) (link_node-roots nodes i s t)
    ∙ places-cons q i s spans t.roots

get_or-set :
    (xss : List (List ℕ)) (k j : ℕ) (v : List ℕ)
    → j < length xss
    → get_or (set xss k v) j [] ≡ (if k == j then v else get_or xss j [])
get_or-set [] k j v h = absurd (omega (arith, h))
get_or-set (x ∷ xss) zero zero v h = refl
get_or-set (x ∷ xss) zero (suc j) v h = ground arith
get_or-set (x ∷ xss) (suc k) zero v h = ground arith
get_or-set (x ∷ xss) (suc k) (suc j) v h =
    let rest = get_or-set xss k j v (omega (arith, h)) in ground arith

link_node-children :
    (nodes : Dict ℕ) (i j : ℕ) (s : Span) (t : TraceTree)
    → j < length t.children
    → get_or (link_node nodes i s t).children j []
      ≡ get_or t.children j [] ++ added i (is_place j (known_parent nodes s))
unfolding link_node
link_node-children nodes i j s t h =
    let end = append-nil (get_or t.children j []) in
    elim (Bool-cases (str_eq s.parent_id "")) [
      | inl e ↦ rw (e, link_node) (sym end)
      | inr e ↦ elim (Option-cases (lookup s.parent_id nodes)) [
        | inl n ↦ rw (e, link_node, n) (sym end)
        | inr (k, n) ↦
            rw (e, link_node, n)
              (let there = get_or-set t.children k j (get_or t.children k [] ++ i ∷ []) h in
                let same = λ (q : k ≡ j). ap (λ x. get_or t.children x []) q in
                ground (arith, there, end, same))
      ]
    ]

length-link_node-children :
    (nodes : Dict ℕ) (i : ℕ) (s : Span) (t : TraceTree)
    → length (link_node nodes i s t).children ≡ length t.children
unfolding link_node
length-link_node-children nodes i s t = elim (Bool-cases (str_eq s.parent_id "")) [
  | inl e ↦ rw (e, link_node) refl
  | inr e ↦ elim (Option-cases (lookup s.parent_id nodes)) [
    | inl n ↦ rw (e, link_node, n) refl
    | inr (k, n) ↦ rw (e, link_node, n) (length-set t.children k _)
  ]
]

link_nodes-children :
    (nodes : Dict ℕ) (i j : ℕ) (spans : List Span) (t : TraceTree)
    → j < length t.children
    → get_or (link_nodes nodes i spans t).children j []
      ≡ get_or t.children j [] ++ places (λ s. is_place j (known_parent nodes s)) i spans
unfolding link_nodes
link_nodes-children nodes i j [] t h = sym (append-nil (get_or t.children j []))
link_nodes-children nodes i j (s ∷ spans) t h =
    let q : Span → Bool = λ x. is_place j (known_parent nodes x) in
    link_nodes-children nodes (suc i) j spans (link_node nodes i s t)
      (omega (arith, length-link_node-children nodes i s t, h))
    ∙ ap (λ xs. xs ++ places q (suc i) spans) (link_node-children nodes i j s t h)
    ∙ places-cons q i s spans (get_or t.children j [])

known_parent-parent_of :
    (spans : List Span) (s : Span) → known_parent (index_nodes 0 spans []) s ≡ parent_of spans s
unfolding lookup
known_parent-parent_of spans s =
    ap (λ o. if str_eq s.parent_id "" then none else o) (lookup-index_nodes 0 s.parent_id spans [])

no_children-length : (spans : List Span) → length (no_children spans) ≡ length spans
no_children-length [] = refl
no_children-length (s ∷ spans) = omega (arith, no_children-length spans)

no_children-get_or : (spans : List Span) (j : ℕ) → get_or (no_children spans) j [] ≡ []
no_children-get_or [] j = refl
no_children-get_or (s ∷ spans) zero = refl
no_children-get_or (s ∷ spans) (suc j) = no_children-get_or spans j

-- The parent of a span is the last span with its parent's ID. The roots of a tree are the spans that
-- have no parent, and the children of a node are the spans whose parent it is, in both cases each of
-- them once and in the order of the input.
pub build_tree-places :
    (trace_id : String) (spans : List Span)
    → ((build_tree trace_id spans).roots ≡ places (λ s. is_none (parent_of spans s)) 0 spans)
      × ((j : ℕ)
          → j < length spans
          → get_or (build_tree trace_id spans).children j []
            ≡ places (λ s. is_place j (parent_of spans s)) 0 spans)
unfolding build_tree
build_tree-places trace_id spans =
    let nodes = index_nodes 0 spans [] in
    let known = known_parent-parent_of spans in
    (
      link_nodes-roots nodes 0 spans _
          ∙ ap (λ (q : Span → Bool). places q 0 spans) (fun_ext (λ s. ap is_none (known s))),
      λ j h.
          link_nodes-children nodes 0 j spans _ (omega (arith, h, no_children-length spans))
          ∙ ap (λ xs. xs ++ places (λ s. is_place j (known_parent nodes s)) 0 spans)
              (no_children-get_or spans j)
          ∙ ap (λ (q : Span → Bool). places q 0 spans) (fun_ext (λ s. ap (is_place j) (known s))),
    )
