-- ===== src/State/Breaker.antt =====
-- pkg/synth/state.go: what `Admit` and `Exit` do to the circuit breaker.
use motel.Prelude.{
  ℕ, ◌+◌, ◌≤◌, ◌<◌, ◌≡◌, sym, ◌∙◌, ◌↔◌, ◌⊎◌, Bool, true, false, ◌&&◌, List, [], ◌∷◌, arith, ltb,
  le→leb, if◌then◌else◌, length, filterb, length-filterb-le, length-append,
}
use motel.Prelude.Int.{
  ℤ, pos, ◌+ℤ◌, ◌-ℤ◌, ◌≤ℤ◌, ltb_ℤ, leb_ℤ, IsInt64, wrap_64_id, IsInt64-sub, +ℤ_parts, -ℤ_parts,
}
use motel.Platform.{Float64}
use motel.State.{
  circuit_closed, circuit_open, circuit_half_open, OperationState, is_closed, since, admit, enter,
  exit, leave_queue, track_latency, prune, record_failure, trip, probe, admitted,
}

module _ (fl : Float64) where
  -- What holds of an operation between two calls: the window holds no more failures than the
  -- threshold, fewer while the circuit is closed, and only a breaker with a threshold opens.
  pub record IsSound (s : OperationState fl) : Type 0 where
    pub short : length s.failure_window ≤ s.failure_threshold
    pub ready :
        is_closed s.circuit ≡ true
        → (s.failure_threshold ≡ 0) ⊎ (length s.failure_window < s.failure_threshold)
    pub armed : is_closed s.circuit ≡ false → 0 < s.failure_threshold

  -- The failures of the window that are still recent at a given time.
  abbrev pub recent_failures : OperationState fl → ℤ → List ℤ
  recent_failures s elapsed =
      if ltb_ℤ (pos 0) s.window_duration
      then filterb (λ at. leb_ℤ (since elapsed s.window_duration) at) s.failure_window
      else s.failure_window

  pub length-recent_failures :
      (s : OperationState fl) (elapsed : ℤ)
      → length (recent_failures s elapsed) ≤ length s.failure_window
  length-recent_failures s elapsed =
      ground (
        arith,
        length-filterb-le (λ at. leb_ℤ (since elapsed s.window_duration) at) s.failure_window,
      )

  pub admit-IsSound :
      (s : OperationState fl) (elapsed : ℤ) → IsSound s → IsSound (admit fl s elapsed).0
  unfolding admit
  admit-IsSound s elapsed h = ground arith

  pub enter-IsSound : (s : OperationState fl) → IsSound s → IsSound (enter fl s)
  unfolding enter
  enter-IsSound s h = ground arith

  -- Until `trip`, the stages of `Exit` keep the bound on the window and leave the circuit alone.
  record IsBounded (s : OperationState fl) : Type 0 where
    within : length s.failure_window ≤ s.failure_threshold
    threshold : is_closed s.circuit ≡ false → 0 < s.failure_threshold

  track_latency-IsBounded :
      (s : OperationState fl) (latency : ℤ)
      → IsBounded s
      → IsBounded (track_latency fl (leave_queue fl s) latency)
  unfolding track_latency leave_queue
  track_latency-IsBounded s latency h = ground arith

  prune-IsBounded :
      (s : OperationState fl) (elapsed : ℤ) → IsBounded s → IsBounded (prune fl s elapsed)
  unfolding prune
  prune-IsBounded s elapsed h = ground (arith, length-recent_failures s elapsed)

  record_failure-IsBounded :
      (s : OperationState fl) (elapsed : ℤ) (failed : Bool)
      → IsBounded s
      → IsBounded (record_failure fl s elapsed failed)
  unfolding record_failure
  record_failure-IsBounded s elapsed failed h =
      ground (arith, length-append s.failure_window (elapsed ∷ []))

  trip-IsSound : (s : OperationState fl) (elapsed : ℤ) → IsBounded s → IsSound (trip fl s elapsed)
  unfolding trip
  trip-IsSound s elapsed h = ground arith

  probe-IsSound :
      (s : OperationState fl) (elapsed : ℤ) (failed : Bool)
      → IsSound s
      → IsSound (probe fl s elapsed failed)
  unfolding probe
  probe-IsSound s elapsed failed h = ground arith

  -- Every call of `Exit` keeps the invariant, on each of its branches.
  pub exit-IsSound :
      (s : OperationState fl) (elapsed latency : ℤ) (failed : Bool)
      → IsSound s
      → IsSound (exit fl s elapsed latency failed)
  unfolding exit
  exit-IsSound s elapsed latency failed h =
      let left = track_latency fl (leave_queue fl s) latency in
      let counted = record_failure fl (prune fl left elapsed) elapsed failed in
      let start : IsBounded s = record { within = h.short; threshold = h.armed } in
      probe-IsSound (trip fl counted elapsed) elapsed failed (
        trip-IsSound counted elapsed (
          record_failure-IsBounded (prune fl left elapsed) elapsed failed
            (prune-IsBounded left elapsed (track_latency-IsBounded s latency start))))

  abbrev pub count_if : Bool → ℕ
  count_if true = 1
  count_if false = 0

  length-record_failure :
      (s : OperationState fl) (elapsed : ℤ) (failed : Bool)
      → length (record_failure fl s elapsed failed).failure_window ≡ (
          if ltb 0 s.failure_threshold
            && failed
            && ltb (length s.failure_window) s.failure_threshold
          then length s.failure_window + 1
          else length s.failure_window)
  unfolding record_failure
  length-record_failure s elapsed failed =
      ground (arith, length-append s.failure_window (elapsed ∷ []))

  -- The fields that the stages before `trip` leave alone.
  counted : OperationState fl → ℤ → ℤ → Bool → OperationState fl
  counted s elapsed latency failed =
      record_failure fl (prune fl (track_latency fl (leave_queue fl s) latency) elapsed) elapsed
        failed

  counted_lem :
      (s : OperationState fl) (elapsed latency : ℤ) (failed : Bool)
      → ((counted s elapsed latency failed).circuit ≡ s.circuit)
        × ((counted s elapsed latency failed).failure_threshold ≡ s.failure_threshold)
        × ((counted s elapsed latency failed).opened_at ≡ s.opened_at)
        × ((counted s elapsed latency failed).cooldown ≡ s.cooldown)
  unfolding counted record_failure prune track_latency leave_queue
  counted_lem s elapsed latency failed = ground arith

  counted_window :
      (s : OperationState fl) (elapsed latency : ℤ) (failed : Bool)
      → length (counted s elapsed latency failed).failure_window ≡ (
          if ltb 0 s.failure_threshold
            && failed
            && ltb (length (recent_failures s elapsed)) s.failure_threshold
          then length (recent_failures s elapsed) + 1
          else length (recent_failures s elapsed))
  unfolding counted prune track_latency leave_queue
  counted_window s elapsed latency failed = ground (
    arith,
    length-record_failure (prune fl (track_latency fl (leave_queue fl s) latency) elapsed) elapsed
        failed,
  )

  -- The moves of a circuit at an exit, with what each needs; `Reached` says that a threshold is set
  -- and reached.
  pub data Transition (Reached : Type 0) (elapsed : ℤ) (failed : Bool) (s t : OperationState fl)
      : Type 0 where
    endures :
        s.circuit ≡ circuit_closed
        → ¬ Reached
        → t.circuit ≡ circuit_closed
        → t.opened_at ≡ s.opened_at
        → Transition Reached elapsed failed s t
    trips :
        s.circuit ≡ circuit_closed
        → Reached
        → t.circuit ≡ circuit_open
        → t.opened_at ≡ elapsed
        → Transition Reached elapsed failed s t
    waits :
        s.circuit ≡ circuit_open
        → t.circuit ≡ circuit_open
        → t.opened_at ≡ s.opened_at
        → Transition Reached elapsed failed s t
    reopens :
        s.circuit ≡ circuit_half_open
        → failed ≡ true
        → t.circuit ≡ circuit_open
        → t.opened_at ≡ elapsed
        → Transition Reached elapsed failed s t
    closes :
        s.circuit ≡ circuit_half_open
        → failed ≡ false
        → t.circuit ≡ circuit_closed
        → t.failure_window ≡ []
        → Transition Reached elapsed failed s t

  -- The failures of a window reach its threshold.
  abbrev pub Reaches : ℕ → ℕ → Type 0
  Reaches threshold failures = (0 < threshold) × (threshold ≤ failures)

  exit_moves :
      (s : OperationState fl) (elapsed : ℤ) (failed : Bool)
      → Transition
          (Reaches s.failure_threshold (length s.failure_window))
          elapsed
          failed
          s
          (probe fl (trip fl s elapsed) elapsed failed)
  unfolding probe trip
  exit_moves s elapsed failed = grind (arith, endures, trips, waits, reopens, closes)

  relabel :
      {R R' : Type 0} {elapsed : ℤ} {failed : Bool} {s s' t : OperationState fl}
      → (R' ↔ R)
      → (s'.circuit ≡ s.circuit)
        × (s'.failure_threshold ≡ s.failure_threshold)
        × (s'.opened_at ≡ s.opened_at)
        × (s'.cooldown ≡ s.cooldown)
      → Transition R' elapsed failed s' t
      → Transition R elapsed failed s t
  relabel r e (endures c n d o) = endures (sym e.0 ∙ c) (λ k. n (r.1 k)) d (o ∙ e.2)
  relabel r e (trips c h d o) = trips (sym e.0 ∙ c) (r.0 h) d o
  relabel r e (waits c d o) = waits (sym e.0 ∙ c) d (o ∙ e.2)
  relabel r e (reopens c f d o) = reopens (sym e.0 ∙ c) f d o
  relabel r e (closes c f d w) = closes (sym e.0 ∙ c) f d w

  -- Every exit makes a move of the circuit's diagram under exactly the move's guard: a closed circuit
  -- trips if a threshold is set and the failures that are still recent, with the one of this exit,
  -- reach it, and stays closed otherwise; an open one stays open; a half-open one opens again if the
  -- request failed, and closes with an empty window if it succeeded.
  pub exit-Transition :
      (s : OperationState fl) (elapsed latency : ℤ) (failed : Bool)
      → Transition
          (Reaches s.failure_threshold (length (recent_failures s elapsed) + count_if failed))
          elapsed
          failed
          s
          (exit fl s elapsed latency failed)
  unfolding exit counted
  exit-Transition s elapsed latency failed =
      let same = counted_lem s elapsed latency failed in
      relabel (ground (arith, counted_window s elapsed latency failed, same)) same
        (exit_moves (counted s elapsed latency failed) elapsed failed)

  since_elapsed :
      (elapsed opened cooldown : ℤ)
      → IsInt64 elapsed
      → pos 0 ≤ℤ opened
      → pos 0 ≤ℤ cooldown
      → opened +ℤ cooldown ≤ℤ elapsed
      → leb_ℤ cooldown (since elapsed opened) ≡ true
  since_elapsed elapsed opened cooldown range o c h =
      rw
        (wrap_64_id (elapsed -ℤ opened)
          (IsInt64-sub elapsed opened range o (omega (arith, +ℤ_parts))))
        (le→leb _ _ (omega (arith, +ℤ_parts, -ℤ_parts)))

  -- Recovery: once the cooldown has passed, an open breaker whose queue is unbounded or has room
  -- admits a request, where no time is negative or leaves int64, and if that request succeeds the circuit is closed with an empty window.
  pub recovers :
      (s : OperationState fl) (elapsed latency : ℤ)
      → s.circuit ≡ circuit_open
      → IsInt64 elapsed
      → pos 0 ≤ℤ s.opened_at
      → pos 0 ≤ℤ s.cooldown
      → s.opened_at +ℤ s.cooldown ≤ℤ elapsed
      → (s.max_queue_depth ≡ 0) ⊎ (s.active_requests < s.max_queue_depth)
      → ((admit fl s elapsed).1.rejected ≡ false)
        × ((exit fl (enter fl (admit fl s elapsed).0) elapsed latency false).circuit
            ≡ circuit_closed)
        × ((exit fl (enter fl (admit fl s elapsed).0) elapsed latency false).failure_window ≡ [])
  unfolding exit admit enter admitted probe trip counted
  recovers s elapsed latency c range o d h room =
      let passed = since_elapsed elapsed s.opened_at s.cooldown range o d h in
      let t = enter fl (admit fl s elapsed).0 in ground (arith, counted_lem t elapsed latency false)
