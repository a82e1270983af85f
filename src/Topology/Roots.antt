-- ===== src/Topology/Roots.antt =====
-- pkg/synth/topology.go, findRoots: the operations that no operation calls, sorted by service and
-- name. The set of called operations is a list of ids.
use Prim.Native.String.{compare}
use Prim.Native.Nat.{Ordering}
use motel.Prelude.{
  ℕ, ◌≡◌, refl, ap, ◌↔◌, ◌==◌, Bool, true, false, not, ◌||◌, List, [], ◌∷◌, ◌++◌, Dict, filterb,
  Any, arith, if◌then◌else◌,
}
use motel.Platform.{Platform}
use motel.Topology.Types.{Topology, Call}
use motel.Topology.Acyclic.{mem}

abbrev pub ids_of : Dict ℕ → List ℕ
ids_of [] = []
ids_of ((k, id) ∷ m) = id ∷ ids_of m

module _ (p : Platform) (topo : Topology p) where
  -- The operations in the order of the nested loops over services and operations.
  unfoldable pub operations_of : List ℕ → List ℕ
  operations_of [] = []
  operations_of (svc ∷ svcs) = ids_of (topo.service svc).operations ++ operations_of svcs

  unfoldable pub all_operations : List ℕ
  unfolding operations_of
  all_operations = operations_of (ids_of topo.services)

  abbrev pub targets_of : List (Call p) → List ℕ
  targets_of [] = []
  targets_of (c ∷ cs) = c.operation ∷ targets_of cs

  unfoldable pub called_by : List ℕ → List ℕ
  called_by [] = []
  called_by (op ∷ ops) = targets_of (topo.operation op).calls ++ called_by ops

  -- The comparison by service name, then by operation name.
  unfoldable pub goes_before : ℕ → ℕ → Bool
  goes_before a b =
      elim (compare (topo.service (topo.operation a).service).name
        (topo.service (topo.operation b).service).name) [
          | Ordering.lt ↦ true
          | Ordering.gt ↦ false
          | Ordering.eq ↦ elim (compare (topo.operation a).name (topo.operation b).name) [
            | Ordering.gt ↦ false
            | _ ↦ true
          ]
        ]

  unfoldable pub place_root : ℕ → List ℕ → List ℕ
  place_root r [] = r ∷ []
  place_root r (x ∷ xs) =
      let later = x ∷ place_root r xs in if goes_before r x then r ∷ x ∷ xs else later

  unfoldable pub sort_roots : List ℕ → List ℕ
  unfolding place_root
  sort_roots [] = []
  sort_roots (r ∷ rs) = place_root r (sort_roots rs)

  unfoldable pub find_roots : List ℕ
  unfolding all_operations called_by sort_roots
  find_roots = sort_roots (filterb (λ op. not (mem op (called_by all_operations))) all_operations)

  -- Some operation of the list has a call of the given one.
  abbrev pub IsCalled : ℕ → List ℕ → Type 0
  IsCalled op = Any (λ o. Any (λ (c : Call p). c.operation ≡ op) (topo.operation o).calls)

  mem-place_root : (op r : ℕ) (xs : List ℕ) → mem op (place_root r xs) ≡ (r == op || mem op xs)
  unfolding place_root
  mem-place_root op r [] = refl
  mem-place_root op r (x ∷ xs) = ground (arith, mem-place_root op r xs)

  mem-sort_roots : (op : ℕ) (xs : List ℕ) → mem op (sort_roots xs) ≡ mem op xs
  unfolding sort_roots
  mem-sort_roots op [] = refl
  mem-sort_roots op (x ∷ xs) =
      ground (arith, mem-place_root op x (sort_roots xs), mem-sort_roots op xs)

  mem-filterb :
      (op : ℕ) (f : ℕ → Bool) (xs : List ℕ)
      → (mem op (filterb f xs) ≡ true) ↔ ((f op ≡ true) × (mem op xs ≡ true))
  mem-filterb op f [] = ground arith
  mem-filterb op f (x ∷ xs) = ground (arith, mem-filterb op f xs, λ (e : x ≡ op). ap f e)

  mem-append : (op : ℕ) (xs ys : List ℕ) → mem op (xs ++ ys) ≡ (mem op xs || mem op ys)
  mem-append op [] ys = refl
  mem-append op (x ∷ xs) ys = ground (arith, mem-append op xs ys)

  mem-targets_of :
      (op : ℕ) (cs : List (Call p))
      → (mem op (targets_of cs) ≡ true) ↔ Any (λ (c : Call p). c.operation ≡ op) cs
  mem-targets_of op [] = ground arith
  mem-targets_of op (c ∷ cs) = ground (arith, mem-targets_of op cs)

  mem-called_by : (op : ℕ) (ops : List ℕ) → (mem op (called_by ops) ≡ true) ↔ IsCalled op ops
  unfolding called_by
  mem-called_by op [] = ground arith
  mem-called_by op (o ∷ ops) = ground (
    arith,
    mem-append op (targets_of (topo.operation o).calls) (called_by ops),
    mem-targets_of op (topo.operation o).calls,
    mem-called_by op ops,
  )

  -- An operation is a root exactly when it is an operation of the topology and none of the
  -- topology's operations calls it.
  pub mem-find_roots :
      (op : ℕ)
      → (mem op find_roots ≡ true) ↔ ((mem op all_operations ≡ true) × ¬ IsCalled op all_operations)
  unfolding find_roots
  mem-find_roots op = ground (
    arith,
    mem-sort_roots op (filterb (λ op. not (mem op (called_by all_operations))) all_operations),
    mem-filterb op (λ op. not (mem op (called_by all_operations))) all_operations,
    mem-called_by op all_operations,
  )
