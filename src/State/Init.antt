-- ===== src/State/Init.antt =====
-- pkg/synth/state.go, NewSimulationState: which operations have a state, and how it starts.
use motel.Prelude.{
  ℕ, ◌≡◌, true, false, [], ◌∷◌, Option, none, some, Dict, insert, String, ◌==◌, ◌&&◌, arith,
  if◌then◌else◌, Bool,
}
use Prim.Native.String
use motel.Prelude.Int.{pos}
use motel.Platform.{Platform}
use motel.Topology.Types.{Topology, Operation, ResolvedBackpressure, ResolvedCircuitBreaker}
use motel.State.{OperationState, circuit_closed, admit}
use motel.State.Breaker.{IsSound, admit-IsSound, enter-IsSound, exit-IsSound}
use motel.State.Load.{Reach, Step, rejects, enters, exits, here, next, InBounds, Reach-InBounds}

module _ (p : Platform) where
  open p use {fl}
  open fl use {lit}

  -- A new OperationState of Go, with the queue depth set.
  abbrev pub blank_state : Operation p → OperationState fl
  blank_state op = record {
    active_requests = 0;
    max_queue_depth = op.queue_depth;
    backpressure_threshold = pos 0;
    duration_multiplier = lit 0 1;
    error_rate_add = lit 0 1;
    recent_latency = pos 0;
    backpressure_active = false;
    failure_window = [];
    circuit = circuit_closed;
    opened_at = pos 0;
    cooldown = pos 0;
    failure_threshold = 0;
    window_duration = pos 0;
  }

  unfoldable pub with_breaker :
      Option (ResolvedCircuitBreaker p) → OperationState fl → OperationState fl
  with_breaker none s = s
  with_breaker (some b) s = record s {
    failure_threshold = b.failure_threshold;
    window_duration = b.window;
    cooldown = b.cooldown;
  }

  unfoldable pub with_backpressure :
      Option (ResolvedBackpressure p) → OperationState fl → OperationState fl
  with_backpressure none s = s
  with_backpressure (some b) s = record s {
    backpressure_threshold = b.latency_threshold;
    duration_multiplier = b.duration_multiplier;
    error_rate_add = b.error_rate_add;
  }

  abbrev is_none {ℓ} : {A : Type ℓ} → Option A → Bool
  is_none none = true
  is_none (some x) = false

  -- The state of an operation, if it has a queue depth, a backpressure or a breaker.
  unfoldable pub new_operation_state : Operation p → Option (OperationState fl)
  unfolding with_breaker with_backpressure
  new_operation_state op =
      if op.queue_depth == 0 && is_none op.backpressure && is_none op.circuit_breaker
      then none
      else some
          (with_backpressure op.backpressure (with_breaker op.circuit_breaker (blank_state op)))

  module _ (topo : Topology p) where
    add_states : String → Dict ℕ → Dict (OperationState fl) → Dict (OperationState fl)
    unfolding new_operation_state
    add_states svc [] states = states
    add_states svc ((k, op) ∷ ops) states =
        let o = topo.operation op in
        add_states svc ops (elim (new_operation_state o) [
          | some s ↦ insert (String.◌++◌ svc (String.◌++◌ "." o.name)) s states
          | none ↦ states
        ])

    add_services : Dict ℕ → Dict (OperationState fl) → Dict (OperationState fl)
    unfolding add_states
    add_services [] states = states
    add_services ((k, svc) ∷ svcs) states =
        let s = topo.service svc in add_services svcs (add_states s.name s.operations states)

    unfoldable pub new_simulation_state : Dict (OperationState fl)
    unfolding add_services
    new_simulation_state = add_services topo.services []

  new_operation_state-IsSound :
      (op : Operation p) (s : OperationState fl)
      → new_operation_state op ≡ some s
      → IsSound fl s × InBounds fl s
  unfolding new_operation_state with_breaker with_backpressure
  new_operation_state-IsSound op s e = ground arith

  Step-IsSound : {s t : OperationState fl} → Step fl s t → IsSound fl s → IsSound fl t
  Step-IsSound {s = s} (rejects elapsed h) b = admit-IsSound fl s elapsed b
  Step-IsSound {s = s} (enters elapsed h) b =
      enter-IsSound fl (admit fl s elapsed).0 (admit-IsSound fl s elapsed b)
  Step-IsSound {s = s} (exits elapsed latency failed) b = exit-IsSound fl s elapsed latency failed b

  Reach-IsSound : {s t : OperationState fl} → IsSound fl s → Reach fl s t → IsSound fl t
  Reach-IsSound b here = b
  Reach-IsSound b (next r st) = Step-IsSound st (Reach-IsSound b r)

  -- From the state that NewSimulationState makes for an operation, every sequence of admissions,
  -- entries and exits keeps the invariant of the breaker and the bound of the queue.
  pub new_operation_state-Reach :
      (op : Operation p) (s t : OperationState fl)
      → new_operation_state op ≡ some s
      → Reach fl s t
      → IsSound fl t × InBounds fl t
  new_operation_state-Reach op s t e r =
      let (sound, bounds) = new_operation_state-IsSound op s e in
      (Reach-IsSound sound r, Reach-InBounds fl bounds r)
