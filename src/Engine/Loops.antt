-- ===== src/Engine/Loops.antt =====
-- pkg/synth/engine.go and plan.go: the parts of a trace that walkTrace and planTrace spell in the
-- same words: the admission by the simulation state, the operation's own error and duration, the
-- choice of the calls, the loops over them, and the attempts of one call.
use motel.Prelude.{
  ℕ, zero, suc, ◌+◌, Bool, true, false, not, ◌&&◌, ◌||◌, String, str_eq, List, [], ◌∷◌, Option,
  none, some, Dict, lookup, insert, if◌then◌else◌, max,
}
use motel.Prelude.Int.{ℤ, pos, negsuc, ◌+ℤ◌, ltb_ℤ}
use motel.Platform.{Platform}
use motel.Topology.Types.{Operation, Distribution, Call, Override, Attribute}
use motel.Topology.Attributes.{merge}
use motel.State.{
  OperationState, Admission, Reason, no_reason, reason_queue_full, reason_circuit_open, admit,
  enter, exit,
}
use motel.Swarm.{call_probability, operation_error, retry_activation, forced_choice, is_choice_rate}
use motel.Engine.World.{
  plan_event_timeout, plan_event_retry, plan_event_queue_rejection, plan_event_circuit_breaker_trip,
  plan_event, time_sub, World, Engine, Outcome, Result, notify,
}

module _ (p : Platform) where
  open p use {fl, Rng, float_64}
  open fl use {F, lt, mul, add, lit, of_int, to_int, min_of}

  abbrev pub op_of : Engine p → ℕ → Operation p
  op_of eng op = eng.topology.operation op

  abbrev pub service_name : Engine p → ℕ → String
  service_name eng op = (eng.topology.service (op_of eng op).service).name

  -- The duration of an operation: an override counts if its mean is positive.
  unfoldable pub effective_duration : Engine p → ℕ → Dict (Override p) → Distribution
  effective_duration eng op overrides = elim (lookup (op_of eng op).ref overrides) [
    | some ov ↦ if ltb_ℤ (pos 0) ov.duration.mean then ov.duration else (op_of eng op).duration
    | none ↦ (op_of eng op).duration
  ]

  unfoldable pub effective_attributes : Engine p → ℕ → Dict (Override p) → List (Attribute p)
  effective_attributes eng op overrides = elim (lookup (op_of eng op).ref overrides) [
    | some ov ↦ merge p (op_of eng op).attributes ov.attributes
    | none ↦ (op_of eng op).attributes
  ]

  abbrev pub get_state : World p → String → Option (OperationState fl)
  get_state w ref = elim w.state [ some d ↦ lookup ref d | none ↦ none ]

  abbrev pub put_state : String → OperationState fl → World p → World p
  put_state ref s w = record w {
    state = elim w.state [ some d ↦ some (insert ref s d) | none ↦ none ];
  }

  abbrev pub scaled : Distribution → F → Distribution
  scaled d m = if lt (lit 1 1) m then record d { mean = to_int (mul (of_int d.mean) m) } else d

  -- What the simulation state says of a request: a rejection, or the duration and the error rate
  -- that it goes on with.
  pub data Verdict : Type 0 where
    refused : Reason → Verdict
    passes : Distribution → F → Verdict

  pub record Gate : Type 0 where
    pub verdict : Verdict
    pub world : World p

  -- The counter and the event of a rejection.
  unfoldable pub count_rejection : Engine p → ℕ → ℤ → Reason → World p → World p
  count_rejection eng op start reason_queue_full w =
      notify p eng
        (plan_event plan_event_queue_rejection (service_name eng op) (op_of eng op).name start)
        (record w { stats = record w.stats { queue_rejections = w.stats.queue_rejections + 1 } })
  count_rejection eng op start reason_circuit_open w =
      notify p eng
        (plan_event plan_event_circuit_breaker_trip (service_name eng op) (op_of eng op).name start)
        (record w {
          stats = record w.stats { circuit_breaker_trips = w.stats.circuit_breaker_trips + 1 };
        })
  count_rejection eng op start no_reason w = w

  unfoldable pub gate_state :
      Engine p → ℕ → ℤ → Distribution → F → World p → OperationState fl × Admission fl → Gate
  unfolding count_rejection
  gate_state eng op start duration rate w (s, a) =
      let w' = put_state (op_of eng op).ref s w in
      if a.rejected
      then record { verdict = refused a.reason; world = count_rejection eng op start a.reason w' }
      else record {
        verdict =
            passes (scaled duration a.duration_mult) (min_of (add rate a.error_add) (lit 1 1));
        world = put_state (op_of eng op).ref (enter fl s) w';
      }

  unfoldable pub gate : Engine p → ℕ → ℤ → ℤ → Distribution → F → World p → Gate
  unfolding gate_state
  gate eng op start elapsed duration rate w = elim (get_state w (op_of eng op).ref) [
    | some s ↦ gate_state eng op start duration rate w (admit fl s elapsed)
    | none ↦ record { verdict = passes duration rate; world = w }
  ]

  -- The exit from the operation's state, if it has one.
  unfoldable pub leave : Engine p → ℕ → ℤ → ℤ → Bool → World p → World p
  leave eng op elapsed latency failed w = elim (get_state w (op_of eng op).ref) [
    | some s ↦ put_state (op_of eng op).ref (exit fl s elapsed latency failed) w
    | none ↦ w
  ]

  -- Whether the operation itself fails, drawn only for a positive error rate.
  unfoldable pub own_error : Engine p → ℕ → F → Rng → Bool × Rng
  own_error eng op rate g =
      if lt (lit 0 1) rate
      then elim (forced_choice eng.decisions operation_error (op_of eng op).ref "" (negsuc 0)) [
        | some forced ↦ (forced, g)
        | none ↦ (lt (float_64 g).0 rate, (float_64 g).1)
      ]
      else (false, g)

  pub record ActiveCall : Type 0 where
    pub call : Call p
    pub choice_index : ℕ

  -- Whether a call with a positive probability fires.
  unfoldable pub fires : Engine p → ℕ → ℕ → Call p → Rng → Bool × Rng
  fires eng op i c g =
      if lt (lit 0 1) c.probability
      then elim (if is_choice_rate p c.probability
          then forced_choice eng.decisions call_probability (op_of eng op).ref
              (op_of eng c.operation).ref (pos i)
          else none) [
            | some forced ↦ (forced, g)
            | none ↦ (lt (float_64 g).0 c.probability, (float_64 g).1)
          ]
      else (true, g)

  -- A call's condition against the operation's own error.
  unfoldable pub skipped : Call p → Bool → Bool
  skipped c failed =
      str_eq c.condition "on-error" && not failed || str_eq c.condition "on-success" && failed

  unfoldable pub active_calls :
      Engine p → ℕ → Bool → ℕ → List (Call p) → Rng → List ActiveCall × Rng
  active_calls eng op failed i [] g = ([], g)
  active_calls eng op failed i (c ∷ cs) g = elim (skipped c failed) [
    | true ↦ active_calls eng op failed (suc i) cs g
    | false ↦
        let (fire, g') = fires eng op i c g in
        let (rest, g'') = active_calls eng op failed (suc i) cs g' in
        (if fire then record { call = c; choice_index = i } ∷ rest else rest, g'')
  ]

  -- A callee that runs from a start time.
  abbrev pub Walker : Type 0
  Walker = ℤ → World p → Result p

  abbrev pub add_timeout : World p → World p
  add_timeout w = record w { stats = record w.stats { timeouts = w.stats.timeouts + 1 } }

  abbrev pub add_retry : World p → World p
  add_retry w = record w { stats = record w.stats { retries = w.stats.retries + 1 } }

  -- The caller gives up waiting after the timeout.
  unfoldable pub cap_timeout : Engine p → Call p → ℤ → Outcome p → Outcome p
  cap_timeout eng c start o =
      if ltb_ℤ (pos 0) c.timeout && ltb_ℤ c.timeout (time_sub o.at start)
      then record {
        at = start +ℤ c.timeout;
        failed = true;
        world =
            notify p eng
              (plan_event plan_event_timeout (service_name eng c.operation)
                (op_of eng c.operation).name (start +ℤ c.timeout))
              (add_timeout o.world);
      }
      else o

  abbrev pub note_retry : Engine p → Call p → ℤ → World p → World p
  note_retry eng c at w =
      notify p eng
        (plan_event plan_event_retry (service_name eng c.operation) (op_of eng c.operation).name at)
        (add_retry w)

  -- Whether to return after an attempt that is not the last: a forced choice decides, and
  -- otherwise a failure is retried.
  unfoldable pub after_attempt : Outcome p → Option Bool → Result p → Result p
  after_attempt o (some retry) again = if retry then again else some o
  after_attempt o none again = if o.failed then again else some o

  -- The attempts of one call, with the number of attempts that may follow this one.
  unfoldable pub attempts : Engine p → ℕ → ActiveCall → Walker → ℕ → ℤ → World p → Result p
  unfolding cap_timeout after_attempt
  attempts eng parent active walk zero start w = elim (walk start w) [
    | none ↦ none
    | some o ↦ some (cap_timeout eng active.call start o)
  ]
  attempts eng parent active walk (suc left) start w = elim (walk start w) [
    | none ↦ none
    | some o ↦
        let c = active.call in
        let o' = cap_timeout eng c start o in
        let again =
          attempts eng parent active walk left (o'.at +ℤ c.retry_backoff)
            (note_retry eng c o'.at o'.world) in
        after_attempt o'
          (forced_choice eng.decisions retry_activation (op_of eng parent).ref
            (op_of eng c.operation).ref (pos active.choice_index))
          again
  ]

  abbrev pub Exec : Type 0
  Exec = ActiveCall → ℤ → World p → Result p

  -- The variables of the loop over the calls.
  pub record Progress : Type 0 where
    pub latest : ℤ
    pub any_failed : Bool
    pub next : ℤ
    pub world : World p

  -- The loop body after a call returned; an async call is not waited for.
  unfoldable pub merge_call : Bool → ActiveCall → Progress → Outcome p → Progress
  merge_call sequential active s o =
      if active.call.async then record s { world = o.world } else record {
        latest = if ltb_ℤ s.latest o.at then o.at else s.latest;
        any_failed = s.any_failed || o.failed;
        next = if sequential then o.at else s.next;
        world = o.world;
      }

  -- One active call, as often as its count says.
  unfoldable pub repeat_call : Bool → Exec → ActiveCall → ℕ → Progress → Option Progress
  unfolding merge_call
  repeat_call sequential exec active zero s = some s
  repeat_call sequential exec active (suc n) s = elim (exec active s.next s.world) [
    | none ↦ none
    | some o ↦ repeat_call sequential exec active n (merge_call sequential active s o)
  ]

  unfoldable pub run_calls : Bool → Exec → List ActiveCall → Progress → Option Progress
  unfolding repeat_call
  run_calls sequential exec [] s = some s
  run_calls sequential exec (a ∷ rest) s =
      elim (repeat_call sequential exec a (max a.call.count 1) s) [
        | none ↦ none
        | some s' ↦ run_calls sequential exec rest s'
      ]
