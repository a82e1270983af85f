-- ===== src/Check/Spans.antt =====
-- pkg/synth/check.go: the worst case number of spans of a trace, by a depth-first search with a
-- memo. Integers are Go's int, 64 bits wide. The fuel bounds the depth of the search; for a ranked
-- graph any fuel above the rank of the operation is enough, as the results say.
pub mod Exact
use motel.Prelude.{
  ℕ, zero, suc, ◌+◌, ◌≤◌, ◌<◌, ◌≡◌, Bool, true, false, ◌&&◌, String, List, [], ◌∷◌, Option, none,
  some, Dict, ◌==◌, if◌then◌else◌, max,
}
use motel.Prelude.Int.{ℤ, pos, ◌+ℤ◌, ◌-ℤ◌, ◌*ℤ◌, ltb_ℤ, wrap_64, quot}
use motel.Platform.{Platform}
use motel.Topology.Types.{Topology, Override, Call}
use motel.Topology.Calls.{ref_of}
use motel.Topology.Acyclic.{callees, mem}

-- math.MaxInt32
abbrev pub max_spans_cap : ℕ
max_spans_cap = 2147483647

-- The memo of the search, latest entry first.
abbrev pub Memo {ℓ} : Type ℓ → Type ℓ
Memo V = List (ℕ × V)

unfoldable pub recall {ℓ} : {V : Type ℓ} → ℕ → Memo V → Option V
recall op [] = none
recall op ((k, v) ∷ m) = if k == op then some v else recall op m

-- count * attempts
unfoldable pub fan_for_call : {p : Platform} → Call p → ℤ
fan_for_call c = wrap_64 (pos (max c.count 1) *ℤ wrap_64 (pos 1 +ℤ pos c.retries))

-- One round of the loop after the child was searched; `none` is the break at the cap.
unfoldable pub add_call : ℤ → ℤ → ℤ → Option ℤ
add_call total fan child =
    if ltb_ℤ (pos 0) child && ltb_ℤ (quot (wrap_64 (pos max_spans_cap -ℤ total)) child) fan
    then none
    else some (wrap_64 (total +ℤ wrap_64 (fan *ℤ child)))

unfoldable pub clamp : ℤ → ℤ
clamp total = if ltb_ℤ (pos max_spans_cap) total then pos max_spans_cap else total

module _ (p : Platform) (topo : Topology p) (overrides : Dict (Override p)) where
  abbrev pub Search : Type 0
  Search = ℕ → List ℕ → Memo ℤ → Option (ℤ × Memo ℤ)

  -- The loop over the calls; `visited` holds the operations on the path.
  unfoldable pub spans_loop : Search → List (Call p) → List ℕ → Memo ℤ → ℤ → Option (ℤ × Memo ℤ)
  spans_loop search [] visited memo total = some (total, memo)
  spans_loop search (c ∷ cs) visited memo total = elim (mem c.operation visited) [
    | true ↦ spans_loop search cs visited memo total
    | false ↦ elim (search c.operation (c.operation ∷ visited) memo) [
      | none ↦ none
      | some (child, memo') ↦ elim (add_call total (fan_for_call c) child) [
        | none ↦ some (pos max_spans_cap, memo')
        | some total' ↦ spans_loop search cs visited memo' total'
      ]
    ]
  ]

  unfoldable pub spans_dfs : ℕ → ℕ → List ℕ → Memo ℤ → Option (ℤ × Memo ℤ)
  unfolding spans_loop
  spans_dfs zero op visited memo = none
  spans_dfs (suc fuel) op visited memo = elim (recall op memo) [
    | some v ↦ some (v, memo)
    | none ↦ elim (spans_loop (spans_dfs fuel) (callees p topo overrides op) visited memo (pos 1)) [
      | none ↦ none
      | some (total, memo') ↦ some (clamp total, (op, clamp total) ∷ memo')
    ]
  ]

  -- The loop over the roots: the maximum so far and the root that has it.
  unfoldable pub spans_roots : ℕ → List ℕ → Memo ℤ → ℤ → String → Option (ℤ × String)
  unfolding spans_dfs
  spans_roots fuel [] memo best worst = some (best, worst)
  spans_roots fuel (r ∷ rs) memo best worst = elim (spans_dfs fuel r (r ∷ []) memo) [
    | none ↦ none
    | some (n, memo') ↦
        spans_roots fuel rs memo' (if ltb_ℤ best n then n else best)
          (if ltb_ℤ best n then ref_of p topo r else worst)
  ]

  unfoldable pub max_spans_with : ℕ → Option (ℤ × String)
  unfolding spans_roots
  max_spans_with fuel = spans_roots fuel topo.roots [] (pos 0) ""
