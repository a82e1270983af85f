-- ===== src/State/Tests.antt =====
-- Runs of one operation's state with a breaker that opens at the second failure within a second,
-- and with a queue of one request.
use motel.Prelude.{some, ◌+◌, ◌≤◌, ◌≡◌, refl, ◌↔◌, inr, true, false, [], ◌∷◌, length, arith}
use motel.Prelude.Int.{ℤ, pos, ◌+ℤ◌, ◌-ℤ◌, wrap_64}
use motel.State.{
  OperationState, circuit_closed, circuit_open, admit, enter, exit, leave_queue, prune,
  track_latency, record_failure, trip, probe, smooth, admitted,
}
use motel.State.Breaker.{Reaches, Transition, exit-Transition, IsSound, recent_failures, recovers}
use motel.State.Window.{Finish, failures, recent, finish, finishes, breaker_refines_history}
use motel.State.Load.{exits, Reach, enters, next, here, InBounds}
use motel.State.Init.{
  with_breaker, with_backpressure, blank_state, new_operation_state, new_operation_state-Reach,
}
use motel.Topology.Types.{Operation}
use motel.Fixture.{thousandths, counting, operation_at}

abbrev second : ℤ
second = pos 1000000000

abbrev idle : OperationState thousandths
idle = record {
  active_requests = 0;
  max_queue_depth = 1;
  backpressure_threshold = pos 1000;
  duration_multiplier = pos 20000;
  error_rate_add = pos 100;
  recent_latency = pos 0;
  backpressure_active = true;
  failure_window = [];
  circuit = circuit_closed;
  opened_at = pos 0;
  cooldown = pos 5000;
  failure_threshold = 2;
  window_duration = second;
}

abbrev opened : OperationState thousandths
opened = record idle { circuit = circuit_open; opened_at = pos 100 }

recovers_example :
    ((admit thousandths opened (pos 6000)).1.rejected ≡ false)
    × ((exit thousandths
          (enter thousandths (admit thousandths opened (pos 6000)).0)
          (pos 6000)
          (pos 7)
          false).circuit
        ≡ circuit_closed)
    × ((exit thousandths
          (enter thousandths (admit thousandths opened (pos 6000)).0)
          (pos 6000)
          (pos 7)
          false).failure_window
        ≡ [])
unfolding ◌+ℤ◌
recovers_example =
    recovers thousandths opened (pos 6000) (pos 7) refl (omega arith, omega arith) (omega arith)
      (omega arith) (omega arith) (inr (omega arith))

abbrev entered : OperationState thousandths
entered = enter thousandths (admit thousandths idle (pos 0)).0

idle_enters : Reach thousandths idle entered
unfolding admit admitted
idle_enters = next here (enters (pos 0) refl)

-- One failure stays below the threshold; a second within the window opens the circuit.
abbrev first_failure : Finish
first_failure = record { at = pos 100; latency = pos 7; failed = true }

abbrev second_failure : Finish
second_failure = record { at = pos 200; latency = pos 9; failed = true }

first_stays_closed : (finish thousandths 2 second idle first_failure).circuit ≡ circuit_closed
unfolding finish exit probe trip record_failure prune track_latency leave_queue
first_stays_closed = refl

second_opens :
    (finishes thousandths 2 second idle (first_failure ∷ second_failure ∷ [])).circuit
    ≡ circuit_open
unfolding finishes finish exit probe trip record_failure prune track_latency leave_queue smooth
    wrap_64 ◌-ℤ◌
second_opens = refl

breaker_refines_history_example :
    ((finishes thousandths 2 second idle (first_failure ∷ second_failure ∷ [])).circuit
      ≡ circuit_open)
    ↔ (2 ≤ length (recent (pos 200) second (failures (first_failure ∷ second_failure ∷ []))))
breaker_refines_history_example =
    breaker_refines_history thousandths 2 second (first_failure ∷ []) second_failure idle (pos 0)
      refl refl refl refl (omega arith) refl (omega arith, omega arith) (omega arith)
      ((omega arith, (omega arith, omega arith), (omega arith, (omega arith, omega arith), tt)))
      (first_stays_closed, tt)

exit-Transition_example :
    Transition thousandths
      (Reaches thousandths 2 (length (recent_failures thousandths idle (pos 100)) + 1))
      (pos 100)
      true
      idle
      (exit thousandths idle (pos 100) (pos 7) true)
exit-Transition_example = exit-Transition thousandths idle (pos 100) (pos 7) true

-- An operation with a breaker.
abbrev guarded : Operation counting
guarded = record (operation_at 0) {
  queue_depth = 1;
  circuit_breaker = some (record { failure_threshold = 2; window = second; cooldown = pos 5000 });
}

abbrev fresh : OperationState thousandths
fresh = with_breaker counting guarded.circuit_breaker (blank_state counting guarded)

new_operation_state-Reach_example :
    IsSound thousandths (exit thousandths fresh (pos 100) (pos 7) true)
    × InBounds thousandths (exit thousandths fresh (pos 100) (pos 7) true)
unfolding new_operation_state with_backpressure
new_operation_state-Reach_example =
    new_operation_state-Reach counting guarded fresh (exit thousandths fresh (pos 100) (pos 7) true)
      refl (next here (exits (pos 100) (pos 7) true))
