-- ===== src/State/Window.antt =====
-- pkg/synth/state.go: the failure window of a closed circuit against the full history of failures.
use motel.Prelude.{
  ℕ, ◌≤◌, ◌<◌, ◌≡◌, refl, ap, ◌↔◌, ◌⊎◌, Bool, true, List, [], ◌∷◌, ◌++◌, arith, leb→le, le→leb,
  length-filterb-le, if◌then◌else◌, length, filterb,
}
use motel.Prelude.Int.{
  ℤ, pos, ◌-ℤ◌, ◌≤ℤ◌, ltb_ℤ, leb_ℤ, IsInt64, wrap_64_id, IsInt64-sub_nonneg, -ℤ_parts,
}
use mathlib.Core.List.{append-nil, append_assoc}
use motel.Platform.{Float64}
use motel.State.{
  circuit_closed, circuit_open, OperationState, since, exit, leave_queue, track_latency, prune,
  record_failure, trip, probe,
}

-- One finished request: when it finished, its latency, and whether it failed.
pub record Finish : Type 0 where
  pub at : ℤ
  pub latency : ℤ
  pub failed : Bool

-- The times of all failures, with no bound and nothing dropped.
abbrev pub failures : List Finish → List ℤ
failures [] = []
failures (e ∷ es) = if e.failed then e.at ∷ failures es else failures es

abbrev pub recent : ℤ → ℤ → List ℤ → List ℤ
recent now window = filterb (λ at. leb_ℤ (since now window) at)

pub filterb-append {ℓ} :
    {A : Type ℓ} (p : A → Bool) (xs ys : List A)
    → filterb p (xs ++ ys) ≡ filterb p xs ++ filterb p ys
filterb-append p [] ys = refl
filterb-append p (x ∷ xs) ys = ground (arith, filterb-append p xs ys)

pub filterb-filterb {ℓ} :
    {A : Type ℓ} (p q : A → Bool) (xs : List A)
    → ((x : A) → q x ≡ true → p x ≡ true)
    → filterb q (filterb p xs) ≡ filterb q xs
filterb-filterb p q [] h = refl
filterb-filterb p q (x ∷ xs) h = ground (arith, filterb-filterb p q xs h, h x)

pub failures-append : (xs ys : List Finish) → failures (xs ++ ys) ≡ failures xs ++ failures ys
failures-append [] ys = refl
failures-append (x ∷ xs) ys = ground (arith, failures-append xs ys)

-- A later cutoff is no earlier.
cutoff_mono :
    (now later window at : ℤ)
    → IsInt64 later
    → pos 0 ≤ℤ now
    → now ≤ℤ later
    → pos 0 ≤ℤ window
    → IsInt64 window
    → leb_ℤ (since later window) at ≡ true
    → leb_ℤ (since now window) at ≡ true
cutoff_mono now later window at r p h w v e =
    rw (wrap_64_id (now -ℤ window) (IsInt64-sub_nonneg now window (ground arith) p w v)) (
      le→leb _ _ (
        omega (
          arith,
          -ℤ_parts,
          leb→le _ _ (
              rw
                (wrap_64_id (later -ℤ window)
                  (IsInt64-sub_nonneg later window r (ground arith) w v))
                at e),
        )))

own_cutoff :
    (now window : ℤ)
    → IsInt64 now
    → pos 0 ≤ℤ now
    → pos 0 ≤ℤ window
    → IsInt64 window
    → leb_ℤ (since now window) now ≡ true
own_cutoff now window r p w v =
    rw (wrap_64_id (now -ℤ window) (IsInt64-sub_nonneg now window r p w v))
      (le→leb _ _ (omega (arith, -ℤ_parts)))

module _ (fl : Float64) (threshold : ℕ) (window : ℤ) where
  -- The state agrees with the history of requests that finished so far, up to the time `now`.
  pub record Tracks (s : OperationState fl) (seen : List Finish) (now : ℤ) : Type 0 where
    pub tracked : s.failure_window ≡ recent now window (failures seen)
    pub few : length s.failure_window < s.failure_threshold
    pub closed : s.circuit ≡ circuit_closed
    pub same_threshold : s.failure_threshold ≡ threshold
    pub same_window : s.window_duration ≡ window
    pub started : pos 0 ≤ℤ now

  record Fits : Type 0 where
    positive : ltb_ℤ (pos 0) window ≡ true
    in_range : IsInt64 window

  window_nonneg : Fits → pos 0 ≤ℤ window
  window_nonneg f = ground (arith, f.positive)

  at_nonneg : (now : ℤ) (e : Finish) → pos 0 ≤ℤ now → now ≤ℤ e.at → pos 0 ≤ℤ e.at
  at_nonneg now e p h = ground arith

  unfoldable pub finish : OperationState fl → Finish → OperationState fl
  finish s e = exit fl s e.at e.latency e.failed

  -- The window that `Exit` leaves holds exactly the recent failures of the whole history.
  finish_window :
      (s : OperationState fl) (seen : List Finish) (now : ℤ) (e : Finish)
      → Fits
      → Tracks s seen now
      → IsInt64 e.at
      → now ≤ℤ e.at
      → (record_failure fl
          (prune fl (track_latency fl (leave_queue fl s) e.latency) e.at)
          e.at
          e.failed).failure_window
        ≡ recent e.at window (failures (seen ++ e ∷ []))
  unfolding record_failure prune track_latency leave_queue
  finish_window s seen now e f t r h = ground (
    arith,
    filterb-filterb (λ x. leb_ℤ (since now window) x) (λ x. leb_ℤ (since e.at window) x)
        (failures seen)
        (λ x. cutoff_mono now e.at window x r t.started h (window_nonneg f) f.in_range),
    length-filterb-le (λ x. leb_ℤ (since e.at window) x) s.failure_window,
    failures-append seen (e ∷ []),
    filterb-append (λ x. leb_ℤ (since e.at window) x) (failures seen) (failures (e ∷ [])),
    own_cutoff e.at window r (at_nonneg now e t.started h) (window_nonneg f) f.in_range,
    append-nil (recent e.at window (failures seen)),
  )

  -- From a closed circuit, the stages after the window was counted.
  trip_closed :
      (s : OperationState fl) (at : ℤ) (failed : Bool)
      → s.circuit ≡ circuit_closed
      → ((probe fl (trip fl s at) at failed).failure_window ≡ s.failure_window)
        × ((probe fl (trip fl s at) at failed).failure_threshold ≡ s.failure_threshold)
        × ((probe fl (trip fl s at) at failed).window_duration ≡ s.window_duration)
        × (((probe fl (trip fl s at) at failed).circuit ≡ circuit_open)
            ↔ ((0 < s.failure_threshold) × (s.failure_threshold ≤ length s.failure_window)))
        × (((probe fl (trip fl s at) at failed).circuit ≡ circuit_closed)
            ↔ ((s.failure_threshold ≡ 0) ⊎ (length s.failure_window < s.failure_threshold)))
  unfolding probe trip
  trip_closed s at failed c = ground arith

  counted_fields :
      (s : OperationState fl) (e : Finish)
      → let t =
          record_failure fl
            (prune fl (track_latency fl (leave_queue fl s) e.latency) e.at)
            e.at
            e.failed in
        (t.circuit ≡ s.circuit)
        × (t.failure_threshold ≡ s.failure_threshold)
        × (t.window_duration ≡ s.window_duration)
  unfolding record_failure prune track_latency leave_queue
  counted_fields s e = ground arith

  module _ (s : OperationState fl) (seen : List Finish) (now : ℤ) (e : Finish) (f : Fits)
      (t : Tracks s seen now) (r : IsInt64 e.at) (h : now ≤ℤ e.at) where
    abbrev counted_state : OperationState fl
    counted_state =
        record_failure fl (prune fl (track_latency fl (leave_queue fl s) e.latency) e.at) e.at
          e.failed

    -- The exit opens the circuit exactly when the recent failures of the whole history, this
    -- request included, reach the threshold.
    finish_trips :
        ((finish s e).circuit ≡ circuit_open)
        ↔ (threshold ≤ length (recent e.at window (failures (seen ++ e ∷ []))))
    unfolding finish exit
    finish_trips = ground (
      arith,
      counted_fields s e,
      trip_closed counted_state e.at e.failed,
      ap length (finish_window s seen now e f t r h),
    )

    finish-Tracks :
        (finish s e).circuit ≡ circuit_closed → Tracks (finish s e) (seen ++ e ∷ []) e.at
    unfolding finish exit
    finish-Tracks c = ground (
      arith,
      counted_fields s e,
      trip_closed counted_state e.at e.failed,
      finish_window s seen now e f t r h,
      at_nonneg now e t.started h,
    )

  -- The finishes come in order of time, and their times are int64 values.
  abbrev pub InOrder : ℤ → List Finish → Type 0
  InOrder now [] = Unit
  InOrder now (e ∷ es) = (now ≤ℤ e.at) × IsInt64 e.at × InOrder e.at es

  unfoldable pub finishes : OperationState fl → List Finish → OperationState fl
  finishes s [] = s
  finishes s (e ∷ es) = finishes (finish s e) es

  -- The circuit is closed after each of the finishes.
  abbrev pub StaysClosed : OperationState fl → List Finish → Type 0
  StaysClosed s [] = Unit
  StaysClosed s (e ∷ es) = ((finish s e).circuit ≡ circuit_closed) × StaysClosed (finish s e) es

  abbrev pub last_at : ℤ → List Finish → ℤ
  last_at now [] = now
  last_at now (e ∷ es) = last_at e.at es

  finishes-Tracks :
      (es seen : List Finish) (s : OperationState fl) (now : ℤ)
      → Fits
      → Tracks s seen now
      → InOrder now es
      → StaysClosed s es
      → Tracks (finishes s es) (seen ++ es) (last_at now es)
  unfolding finishes
  finishes-Tracks [] seen s now f t o c = rw (append-nil seen) t
  finishes-Tracks (e ∷ es) seen s now f t o c = rw (← append_assoc seen (e ∷ []) es) (
      finishes-Tracks es (seen ++ e ∷ []) (finish s e) e.at f
        (finish-Tracks s seen now e f t o.1 o.0 c.0) o.2 c.1)

  finishes-append :
      (es : List Finish) (e : Finish) (s : OperationState fl)
      → finishes s (es ++ e ∷ []) ≡ finish (finishes s es) e
  unfolding finishes
  finishes-append [] e s = refl
  finishes-append (x ∷ es) e s = finishes-append es e (finish s x)

  InOrder-append :
      (es : List Finish) (e : Finish) (now : ℤ)
      → InOrder now (es ++ e ∷ [])
      → InOrder now es × (last_at now es ≤ℤ e.at) × IsInt64 e.at
  InOrder-append [] e now o = (tt, o.0, o.1)
  InOrder-append (x ∷ es) e now o =
      let (ordered, last, range) = InOrder-append es e x.at o.2 in
      ((o.0, o.1, ordered), last, range)

  -- The promise of the breaker, over any history: a closed breaker with an empty window that
  -- stayed closed through the requests `es` opens at the next request exactly when the failures
  -- of the whole history within the window, the next request included, reach the threshold. The
  -- times are int64 values in order, and threshold and window are positive.
  pub breaker_refines_history :
      (es : List Finish) (e : Finish) (s : OperationState fl) (now : ℤ)
      → s.circuit ≡ circuit_closed
      → s.failure_window ≡ []
      → s.failure_threshold ≡ threshold
      → s.window_duration ≡ window
      → 0 < threshold
      → ltb_ℤ (pos 0) window ≡ true
      → IsInt64 window
      → pos 0 ≤ℤ now
      → InOrder now (es ++ e ∷ [])
      → StaysClosed s es
      → ((finishes s (es ++ e ∷ [])).circuit ≡ circuit_open)
        ↔ (threshold ≤ length (recent e.at window (failures (es ++ e ∷ []))))
  breaker_refines_history es e s now c w k d h p v n o stays =
      let f : Fits = record { positive = p; in_range = v } in
      let (ordered, last, range) = InOrder-append es e now o in
      let start : Tracks s [] now = record {
        tracked = w;
        few = rw w (omega arith);
        closed = c;
        same_threshold = k;
        same_window = d;
        started = n;
      } in
      rw (finishes-append es e s) (
        finish_trips (finishes s es) es (last_at now es) e f
          (finishes-Tracks es [] s now f start ordered stays) range last)
