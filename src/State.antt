-- ===== src/State.antt =====
-- pkg/synth/state.go: the state of one operation across traces, with its queue depth, its
-- backpressure and its circuit breaker. Methods return the new state. Durations are int64
-- nanoseconds; `ActiveRequests` is a natural number, since `Exit` never leaves it negative.
pub mod Breaker
pub mod Window
pub mod Load
pub mod Init
mod Tests
use motel.Prelude.{
  ℕ, suc, ◌+◌, ◌-◌, Bool, true, false, not, ◌&&◌, List, [], ◌∷◌, ◌++◌, ltb, leb, ◌==◌,
  if◌then◌else◌, length, filterb,
}
use motel.Prelude.Int.{ℤ, pos, ◌-ℤ◌, ltb_ℤ, leb_ℤ, wrap_64}
use motel.Platform.{Float64}

pub data CircuitState : Type 0 where
  circuit_closed circuit_open circuit_half_open : CircuitState

-- The reason strings; `no_reason` is the empty one.
pub data Reason : Type 0 where
  no_reason reason_queue_full reason_circuit_open : Reason

abbrev pub is_open : CircuitState → Bool
is_open circuit_open = true
is_open _ = false

abbrev pub is_closed : CircuitState → Bool
is_closed circuit_closed = true
is_closed _ = false

abbrev pub is_half_open : CircuitState → Bool
is_half_open circuit_half_open = true
is_half_open _ = false

-- `a - b` on time.Duration.
abbrev pub since : ℤ → ℤ → ℤ
since a b = wrap_64 (a -ℤ b)

module _ (fl : Float64) where
  open fl use {F, lt, le, add, mul, lit, of_int, to_int}

  -- A failure record holds only its time, so the window is a list of times.
  pub record OperationState : Type 0 where
    pub active_requests : ℕ
    pub max_queue_depth : ℕ
    pub backpressure_threshold : ℤ
    pub duration_multiplier : F
    pub error_rate_add : F
    pub recent_latency : ℤ
    pub backpressure_active : Bool
    pub failure_window : List ℤ
    pub circuit : CircuitState
    pub opened_at : ℤ
    pub cooldown : ℤ
    pub failure_threshold : ℕ
    pub window_duration : ℤ

  -- The four results of `Admit`.
  pub record Admission : Type 0 where
    pub duration_mult : F
    pub error_add : F
    pub rejected : Bool
    pub reason : Reason

  abbrev pub reject : Reason → Admission
  reject r = record { duration_mult = lit 0 1; error_add = lit 0 1; rejected = true; reason = r }

  -- The multiplier of an operation under backpressure.
  unfoldable pub capped_multiplier : F → F
  capped_multiplier m =
      let positive = if le m (lit 0 1) then lit 1 1 else m in
      if lt (lit 10 1) positive then lit 10 1 else positive

  unfoldable pub admitted : OperationState → Admission
  admitted s = record {
    duration_mult =
        if s.backpressure_active then capped_multiplier s.duration_multiplier else lit 1 1;
    error_add = if s.backpressure_active then s.error_rate_add else lit 0 1;
    rejected = false;
    reason = no_reason;
  }

  -- The switch from open to half-open once the cooldown has passed.
  unfoldable pub cool_down : OperationState → OperationState
  cool_down s = record s { circuit = if is_open s.circuit then circuit_half_open else s.circuit }

  unfoldable pub admit : OperationState → ℤ → OperationState × Admission
  unfolding cool_down
  admit s elapsed =
      if is_open s.circuit && not (leb_ℤ s.cooldown (since elapsed s.opened_at))
      then (s, reject reason_circuit_open)
      else if ltb 0 s.max_queue_depth && leb s.max_queue_depth s.active_requests
      then (cool_down s, reject reason_queue_full)
      else (cool_down s, admitted s)

  unfoldable pub enter : OperationState → OperationState
  enter s = record s { active_requests = s.active_requests + 1 }

  -- The parts of `Exit`, in its order.
  unfoldable pub leave_queue : OperationState → OperationState
  leave_queue s = record s {
    active_requests = if s.active_requests == 0 then 0 else s.active_requests - 1;
  }

  -- The moving average 0.3 * latency + 0.7 * recent.
  unfoldable pub smooth : ℤ → ℤ → ℤ
  smooth latency recent =
      to_int (add (mul (lit 3 10) (of_int latency)) (mul (lit 7 10) (of_int recent)))

  abbrev pub is_zero_ℤ : ℤ → Bool
  is_zero_ℤ z = leb_ℤ z (pos 0) && leb_ℤ (pos 0) z

  unfoldable pub track_latency : OperationState → ℤ → OperationState
  track_latency s latency =
      let recent =
        if is_zero_ℤ s.recent_latency then latency else smooth latency s.recent_latency in
      if ltb_ℤ (pos 0) s.backpressure_threshold
      then record s {
        recent_latency = recent;
        backpressure_active = ltb_ℤ s.backpressure_threshold recent;
      }
      else s

  unfoldable pub prune : OperationState → ℤ → OperationState
  prune s elapsed =
      if ltb_ℤ (pos 0) s.window_duration
      then record s {
        failure_window =
            filterb (λ at. leb_ℤ (since elapsed s.window_duration) at) s.failure_window;
      }
      else s

  unfoldable pub record_failure : OperationState → ℤ → Bool → OperationState
  record_failure s elapsed failed =
      if ltb 0 s.failure_threshold && failed && ltb (length s.failure_window) s.failure_threshold
      then record s { failure_window = s.failure_window ++ elapsed ∷ [] }
      else s

  unfoldable pub trip : OperationState → ℤ → OperationState
  trip s elapsed =
      if ltb 0 s.failure_threshold
        && leb s.failure_threshold (length s.failure_window)
        && is_closed s.circuit
      then record s { circuit = circuit_open; opened_at = elapsed }
      else s

  unfoldable pub probe : OperationState → ℤ → Bool → OperationState
  probe s elapsed failed =
      if is_half_open s.circuit
      then if failed
        then record s { circuit = circuit_open; opened_at = elapsed }
        else record s { circuit = circuit_closed; failure_window = [] }
      else s

  unfoldable pub exit : OperationState → ℤ → ℤ → Bool → OperationState
  exit s elapsed latency failed =
      let left = track_latency (leave_queue s) latency in
      let counted = record_failure (prune left elapsed) elapsed failed in
      probe (trip counted elapsed) elapsed failed
