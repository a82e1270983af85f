-- ===== src/Topology/Calls.antt =====
-- pkg/synth/engine.go, swarm.go and scenario.go: the calls, the error rate and the span kind of an
-- operation under the active overrides.
use motel.Prelude.{
  ℕ, String, Bool, true, false, not, ◌||◌, List, [], ◌∷◌, ◌++◌, Option, none, some, Dict, lookup,
  ◌==◌, if◌then◌else◌, filterb,
}
use motel.Platform.{
  Platform, SpanKind, span_kind_server, span_kind_producer, span_kind_consumer, span_kind_internal,
  span_kind_client,
}
use motel.Topology.Types.{Call, Override, Topology}

abbrev pub is_empty {ℓ} : {A : Type ℓ} → List A → Bool
is_empty [] = true
is_empty (x ∷ xs) = false

-- `m[k]` on a map[string]bool.
unfoldable pub is_set : String → Dict Bool → Bool
is_set k m = elim (lookup k m) [ some b ↦ b | none ↦ false ]

module _ (p : Platform) where
  open p use {fl}
  open fl use {F}

  unfoldable pub has_call_changes : Override p → Bool
  has_call_changes o = not (is_empty o.add_calls) || not (is_empty o.remove_calls)

  module _ (topo : Topology p) where
    abbrev pub ref_of : ℕ → String
    ref_of id = (topo.operation id).ref

    -- The calls of an operation under one override.
    unfoldable pub changed_calls : List (Call p) → Override p → List (Call p)
    unfolding is_set
    changed_calls calls ov =
        filterb (λ c. not (is_set (ref_of c.operation) ov.remove_calls)) calls ++ ov.add_calls

    unfoldable pub effective_calls : ℕ → Dict (Override p) → List (Call p)
    unfolding changed_calls has_call_changes
    effective_calls op overrides = elim (lookup (ref_of op) overrides) [
      | some ov ↦
          if has_call_changes ov
          then changed_calls (topo.operation op).calls ov
          else (topo.operation op).calls
      | none ↦ (topo.operation op).calls
    ]

    unfoldable pub effective_error_rate : ℕ → Dict (Override p) → F
    effective_error_rate op overrides = elim (lookup (ref_of op) overrides) [
      | some ov ↦ if ov.has_error_rate then ov.error_rate else (topo.operation op).error_rate
      | none ↦ (topo.operation op).error_rate
    ]

    contains : List ℕ → ℕ → Bool
    contains [] op = false
    contains (r ∷ rs) op = r == op || contains rs op

    unfoldable pub is_root : ℕ → Bool
    unfolding contains
    is_root op = contains topo.roots op

    abbrev same_service : Option ℕ → ℕ → Bool
    same_service none op = false
    same_service (some parent) op = (topo.operation parent).service == (topo.operation op).service

    unfoldable pub span_kind_for : ℕ → Option ℕ → Bool → Bool → SpanKind
    unfolding is_root
    span_kind_for op parent is_async is_producer =
        if is_root op
        then span_kind_server
        else if is_producer
        then span_kind_producer
        else if is_async
        then span_kind_consumer
        else if same_service parent op
        then span_kind_internal
        else span_kind_client
