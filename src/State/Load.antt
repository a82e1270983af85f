-- ===== src/State/Load.antt =====
-- pkg/synth/state.go: the queue depth and the backpressure multiplier.
use motel.Prelude.{◌-◌, ◌≤◌, ◌≡◌, ◌⊎◌, Bool, true, false, arith}
use motel.Prelude.Int.{ℤ}
use motel.Platform.{Float64, IsOrdered}
use motel.State.{
  OperationState, capped_multiplier, admitted, admit, enter, exit, leave_queue, prune,
  track_latency, record_failure, trip, probe,
}

module _ (fl : Float64) where
  open fl use {F, lt, le, lit}

  -- The multiplier of an admission is at most 10.
  pub admit-duration_mult :
      IsOrdered fl
      → (s : OperationState fl) (elapsed : ℤ) → (admit fl s elapsed).1.rejected ≡ false
      → lt (lit 10 1) (admit fl s elapsed).1.duration_mult ≡ false
  unfolding admit admitted capped_multiplier
  admit-duration_mult o s elapsed h = ground (arith, h, o.lt_irrefl (lit 10 1), o.one_lt_ten)

  -- The part of a state that `Admit` and `Exit` may not touch.
  abbrev pub SameQueue : OperationState fl → OperationState fl → Type 0
  SameQueue s t = (t.active_requests ≡ s.active_requests) × (t.max_queue_depth ≡ s.max_queue_depth)

  pub admit-SameQueue : (s : OperationState fl) (elapsed : ℤ) → SameQueue s (admit fl s elapsed).0
  unfolding admit
  admit-SameQueue s elapsed = ground arith

  track_latency-SameQueue :
      (s : OperationState fl) (latency : ℤ) → SameQueue s (track_latency fl s latency)
  unfolding track_latency
  track_latency-SameQueue s latency = ground arith

  prune-SameQueue : (s : OperationState fl) (elapsed : ℤ) → SameQueue s (prune fl s elapsed)
  unfolding prune
  prune-SameQueue s elapsed = ground arith

  record_failure-SameQueue :
      (s : OperationState fl) (elapsed : ℤ) (failed : Bool)
      → SameQueue s (record_failure fl s elapsed failed)
  unfolding record_failure
  record_failure-SameQueue s elapsed failed = ground arith

  trip-SameQueue : (s : OperationState fl) (elapsed : ℤ) → SameQueue s (trip fl s elapsed)
  unfolding trip
  trip-SameQueue s elapsed = ground arith

  probe-SameQueue :
      (s : OperationState fl) (elapsed : ℤ) (failed : Bool)
      → SameQueue s (probe fl s elapsed failed)
  unfolding probe
  probe-SameQueue s elapsed failed = ground arith

  leave_queue-active_requests :
      (s : OperationState fl)
      → ((leave_queue fl s).active_requests ≡ s.active_requests - 1)
        × ((leave_queue fl s).max_queue_depth ≡ s.max_queue_depth)
  unfolding leave_queue
  leave_queue-active_requests s = ground arith

  -- An exit frees one place of the queue, and never more places than are taken.
  pub exit-active_requests :
      (s : OperationState fl) (elapsed latency : ℤ) (failed : Bool)
      → ((exit fl s elapsed latency failed).active_requests ≡ s.active_requests - 1)
        × ((exit fl s elapsed latency failed).max_queue_depth ≡ s.max_queue_depth)
  unfolding exit
  exit-active_requests s elapsed latency failed =
      let left = track_latency fl (leave_queue fl s) latency in
      let pruned = prune fl left elapsed in
      let counted = record_failure fl pruned elapsed failed in
      omega (
        arith,
        leave_queue-active_requests s,
        track_latency-SameQueue (leave_queue fl s) latency,
        prune-SameQueue left elapsed,
        record_failure-SameQueue pruned elapsed failed,
        trip-SameQueue counted elapsed,
        probe-SameQueue (trip fl counted elapsed) elapsed failed,
      )

  -- What a caller may do with an operation: admit a request and enter if it is accepted, or
  -- finish one.
  pub data Step (s : OperationState fl) : OperationState fl → Type 0 where
    rejects : (elapsed : ℤ) → (admit fl s elapsed).1.rejected ≡ true → Step s (admit fl s elapsed).0
    enters :
        (elapsed : ℤ)
        → (admit fl s elapsed).1.rejected ≡ false
        → Step s (enter fl (admit fl s elapsed).0)
    exits : (elapsed latency : ℤ) (failed : Bool) → Step s (exit fl s elapsed latency failed)

  pub data Reach (s : OperationState fl) : OperationState fl → Type 0 where
    here : Reach s s
    next : {t u : OperationState fl} → Reach s t → Step t u → Reach s u

  abbrev pub InBounds : OperationState fl → Type 0
  InBounds s = (s.max_queue_depth ≡ 0) ⊎ (s.active_requests ≤ s.max_queue_depth)

  enters-InBounds :
      (s : OperationState fl) (elapsed : ℤ)
      → (admit fl s elapsed).1.rejected ≡ false
      → InBounds s
      → InBounds (enter fl (admit fl s elapsed).0)
  unfolding admit enter admitted
  enters-InBounds s elapsed h b = ground arith

  Step-InBounds : {s t : OperationState fl} → Step s t → InBounds s → InBounds t
  Step-InBounds {s = s} (rejects elapsed h) b = ground (arith, admit-SameQueue s elapsed)
  Step-InBounds {s = s} (enters elapsed h) b = enters-InBounds s elapsed h b
  Step-InBounds {s = s} (exits elapsed latency failed) b =
      ground (arith, exit-active_requests s elapsed latency failed)

  -- Whatever the order of admissions and exits, a bounded queue never holds more requests than
  -- its depth.
  pub Reach-InBounds : {s t : OperationState fl} → InBounds s → Reach s t → InBounds t
  Reach-InBounds b here = b
  Reach-InBounds b (next r st) = Step-InBounds st (Reach-InBounds b r)
