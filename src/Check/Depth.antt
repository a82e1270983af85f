-- ===== src/Check/Depth.antt =====
-- pkg/synth/check.go, MaxDepth: the longest path from a root, by a depth-first search with a memo.
-- The fuel bounds the depth of the search.
use motel.Prelude.{
  ℕ, zero, suc, ◌+◌, String, true, false, List, [], ◌∷◌, Option, none, some, Dict, ltb,
  if◌then◌else◌, ◌||◌,
}
use motel.Platform.{Platform}
use motel.Topology.Types.{Topology, Override, Call}
use motel.Topology.Calls.{ref_of, is_empty}
use motel.Topology.Acyclic.{callees, mem}
use motel.Check.Spans.{Memo, recall}

pub record DepthResult : Type 0 where
  pub depth : ℕ
  pub path : List String

module _ (p : Platform) (topo : Topology p) (overrides : Dict (Override p)) where
  abbrev pub DepthSearch : Type 0
  DepthSearch = ℕ → List ℕ → Memo DepthResult → Option (DepthResult × Memo DepthResult)

  -- The better of the best so far and a child.
  unfoldable pub deepen : ℕ → DepthResult → DepthResult → DepthResult
  deepen op best child =
      if ltb best.depth (child.depth + 1)
      then record { depth = child.depth + 1; path = ref_of p topo op ∷ child.path }
      else best

  unfoldable pub depth_loop :
      DepthSearch
      → ℕ
      → List (Call p)
      → List ℕ
      → Memo DepthResult
      → DepthResult
      → Option (DepthResult × Memo DepthResult)
  unfolding deepen
  depth_loop search op [] visited memo best = some (best, memo)
  depth_loop search op (c ∷ cs) visited memo best = elim (mem c.operation visited) [
    | true ↦ depth_loop search op cs visited memo best
    | false ↦ elim (search c.operation (c.operation ∷ visited) memo) [
      | none ↦ none
      | some (child, memo') ↦ depth_loop search op cs visited memo' (deepen op best child)
    ]
  ]

  unfoldable pub depth_dfs : ℕ → DepthSearch
  unfolding depth_loop
  depth_dfs zero op visited memo = none
  depth_dfs (suc fuel) op visited memo = elim (recall op memo) [
    | some r ↦ some (r, memo)
    | none ↦
        elim (depth_loop (depth_dfs fuel) op (callees p topo overrides op) visited memo
          (record { depth = 0; path = ref_of p topo op ∷ [] })) [
            | none ↦ none
            | some (best, memo') ↦ some (best, (op, best) ∷ memo')
          ]
  ]

  -- The loop over the roots; the empty path stands for the source's nil.
  unfoldable pub depth_roots : ℕ → List ℕ → Memo DepthResult → DepthResult → Option DepthResult
  unfolding depth_dfs
  depth_roots fuel [] memo best = some best
  depth_roots fuel (r ∷ rs) memo best = elim (depth_dfs fuel r (r ∷ []) memo) [
    | none ↦ none
    | some (found, memo') ↦
        depth_roots fuel rs memo'
          (if ltb best.depth found.depth || is_empty best.path then found else best)
  ]

  unfoldable pub max_depth_with : ℕ → Option DepthResult
  unfolding depth_roots
  max_depth_with fuel = depth_roots fuel topo.roots [] (record { depth = 0; path = [] })
