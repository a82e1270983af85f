-- ===== src/Topology/Cycles.antt =====
-- pkg/synth/topology.go, detectCycles: a depth-first search over the calls of all operations. The map
-- of states is a list of the operations that are being visited and one of those that were, the last
-- one first. The recursion is on fuel; more than the largest rank is enough on a graph that has one.
pub mod Steps
pub mod Accepted
pub mod Ranked
use motel.Prelude.{ℕ, zero, suc, Bool, true, false, List, [], ◌∷◌}
use motel.Platform.{Platform}
use motel.Topology.Types.{Topology, Call}
use motel.Topology.Acyclic.{mem}
use motel.Topology.Roots.{all_operations}

-- The visited operations, an operation that is on a cycle, or no answer.
pub data Visit : Type 0 where
  visited : List ℕ → Visit
  cycle_detected : ℕ → Visit
  out_of_fuel : Visit

module _ (p : Platform) (topo : Topology p) where
  -- The loop over the calls; `visit` takes an operation and the visited ones.
  unfoldable pub visit_calls : (ℕ → List ℕ → Visit) → List (Call p) → List ℕ → Visit
  visit_calls visit [] done = visited done
  visit_calls visit (c ∷ calls) done = elim (visit c.operation done) [
    | visited done' ↦ visit_calls visit calls done'
    | cycle_detected op ↦ cycle_detected op
    | out_of_fuel ↦ out_of_fuel
  ]

  -- An operation after its calls.
  abbrev pub close : ℕ → Visit → Visit
  close op (visited done) = visited (op ∷ done)
  close op (cycle_detected o) = cycle_detected o
  close op out_of_fuel = out_of_fuel

  unfoldable pub visit : ℕ → List ℕ → ℕ → List ℕ → Visit
  unfolding visit_calls
  visit zero path op done = out_of_fuel
  visit (suc fuel) path op done =
      let below = visit_calls (visit fuel (op ∷ path)) (topo.operation op).calls done in
      elim (mem op path) [
        | true ↦ cycle_detected op
        | false ↦ elim (mem op done) [ true ↦ visited done | false ↦ close op below ]
      ]

  -- The loop over the operations; a visited one is skipped.
  unfoldable pub visit_all : ℕ → List ℕ → List ℕ → Visit
  unfolding visit
  visit_all fuel [] done = visited done
  visit_all fuel (op ∷ ops) done = elim (mem op done) [
    | true ↦ visit_all fuel ops done
    | false ↦ elim (visit fuel [] op done) [
      | visited done' ↦ visit_all fuel ops done'
      | cycle_detected o ↦ cycle_detected o
      | out_of_fuel ↦ out_of_fuel
    ]
  ]

  unfoldable pub detect_cycles : ℕ → Visit
  unfolding visit_all all_operations
  detect_cycles fuel = visit_all fuel (all_operations p topo) []
