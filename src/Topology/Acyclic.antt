-- ===== src/Topology/Acyclic.antt =====
-- The call graph under a set of overrides, and what makes it acyclic: a rank that falls along
-- every call. BuildTopology and BuildScenarios reject the graphs that have none.
use motel.Prelude.{ℕ, ◌<◌, Bool, List, [], ◌∷◌, Dict, ◌==◌, ◌||◌, false, All}
use motel.Platform.{Platform}
use motel.Topology.Types.{Topology, Override, Call}
use motel.Topology.Calls.{effective_calls}

abbrev pub mem : ℕ → List ℕ → Bool
mem a [] = false
mem a (x ∷ xs) = x == a || mem a xs

module _ (p : Platform) (topo : Topology p) (overrides : Dict (Override p)) where
  abbrev pub callees : ℕ → List (Call p)
  callees op = effective_calls p topo op overrides

  pub record IsRanked (rank : ℕ → ℕ) : Type 0 where
    pub falls : (op : ℕ) → All (λ (c : Call p). rank c.operation < rank op) (callees op)
