-- ===== src/TraceImport/Trees.antt =====
-- pkg/synth/traceimport/tree.go: the spans of a trace are linked to their parents. A node is known by
-- its place among the spans, and a pointer to it is that place; the warnings are not modelled.
pub mod Places
use mathlib.Core.List.{append-nil, append_assoc}
use motel.Prelude.{
  ℕ, zero, suc, ◌<◌, ◌≡◌, refl, sym, ap, fun_ext, length-set, IsMap, insert-IsMap, ◌∙◌, Bool, true,
  false, String, str_eq, eq_iff, List, [], ◌∷◌, ◌++◌, map, Option, none, some, Dict, lookup, insert,
  lookup-insert, if◌then◌else◌, ◌==◌, length, get_or, set, arith, filterb, inl, inr, Option-cases,
  Bool-cases,
}
use motel.TraceImport.{Span}

-- `children` is by node.
pub record TraceTree : Type 0 where
  pub trace_id : String
  pub roots : List ℕ
  pub children : List (List ℕ)
  pub all_nodes : List Span

-- The nodes by span ID; the last one of an ID wins.
unfoldable pub index_nodes : ℕ → List Span → Dict ℕ → Dict ℕ
index_nodes i [] nodes = nodes
index_nodes i (s ∷ spans) nodes = index_nodes (suc i) spans (insert s.span_id i nodes)

abbrev pub add_root : ℕ → TraceTree → TraceTree
add_root i t = record t { roots = t.roots ++ i ∷ [] }

abbrev pub add_child : ℕ → ℕ → TraceTree → TraceTree
add_child j i t = record t { children = set t.children j (get_or t.children j [] ++ i ∷ []) }

-- A root, a span whose parent is not there, or a child of its parent.
unfoldable pub link_node : Dict ℕ → ℕ → Span → TraceTree → TraceTree
link_node nodes i s t =
    if str_eq s.parent_id ""
    then add_root i t
    else elim (lookup s.parent_id nodes) [ none ↦ add_root i t | some j ↦ add_child j i t ]

unfoldable pub link_nodes : Dict ℕ → ℕ → List Span → TraceTree → TraceTree
unfolding link_node
link_nodes nodes i [] t = t
link_nodes nodes i (s ∷ spans) t = link_nodes nodes (suc i) spans (link_node nodes i s t)

abbrev pub no_children : List Span → List (List ℕ)
no_children [] = []
no_children (s ∷ spans) = [] ∷ no_children spans

unfoldable pub build_tree : String → List Span → TraceTree
unfolding link_nodes index_nodes
build_tree trace_id spans =
    link_nodes (index_nodes 0 spans []) 0 spans
      (record { trace_id = trace_id; roots = []; children = no_children spans; all_nodes = spans })

-- `byTrace[id]`, nil where there is none.
abbrev pub spans_of : String → Dict (List Span) → List Span
spans_of id by_trace = elim (lookup id by_trace) [ some spans ↦ spans | none ↦ [] ]

-- The spans by trace.
unfoldable pub group_spans : List Span → Dict (List Span) → Dict (List Span)
group_spans [] by_trace = by_trace
group_spans (s ∷ spans) by_trace =
    group_spans spans (insert s.trace_id (spans_of s.trace_id by_trace ++ s ∷ []) by_trace)

unfoldable pub build_trees : List Span → List TraceTree
unfolding group_spans build_tree
build_trees spans =
    map (λ (entry : String × List Span). build_tree entry.0 entry.1) (group_spans spans [])
