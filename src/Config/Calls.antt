-- ===== src/Config/Calls.antt =====
-- pkg/synth/config.go and topology.go: a call that the validation accepts resolves, and to a call that
-- the engine can rely on.
use motel.Prelude.{
  ℕ, ◌≡◌, refl, Bool, true, false, not, ◌&&◌, ◌||◌, String, Option, none, some, Dict, arith, inl,
  inr, Bool-cases, Option-cases,
}
use motel.Prelude.Int.{ℤ, pos, pos_part, leb_ℤ, ltb_ℤ, ◌≤ℤ◌}
use motel.Platform.{Platform}
use motel.Topology.Types.{Call, Topology}
use motel.Topology.Calls.{is_set}
use motel.Config.{
  no_dot, unknown_target, bad_probability, bad_condition, negative_count, invalid_timeout,
  timeout_not_positive, negative_retries, invalid_backoff, negative_backoff,
  backoff_without_retries, async_retries, async_timeout, producer_and_async, CallError, reject_if,
  CallConfig, is_given, is_condition, check_duration, contains_dot, validate_call_config,
  resolve_ref, optional_duration, resolve_call,
}

module _ (p : Platform) (parse_duration : String → Option ℤ) where
  open p use {fl}
  open fl use {F, lt, lit}

  reject_if-none :
      (b : Bool) (e : CallError) (rest : Option CallError)
      → reject_if b e rest ≡ none
      → (b ≡ false) × (rest ≡ none)
  unfolding reject_if
  reject_if-none b e rest h = ground (arith, h)

  -- A duration that passed its test is parsed, and is not bad.
  Passed : String → (ℤ → Bool) → Type 0
  unfolding optional_duration
  Passed text bad =
      (d : ℤ) × (optional_duration p parse_duration text ≡ some d)
      × ((is_given p parse_duration text ≡ true) → parse_duration text ≡ some d)
      × ((is_given p parse_duration text ≡ true) → bad d ≡ false)
      × ((is_given p parse_duration text ≡ false) → d ≡ pos 0)

  check_duration-Passed :
      (text : String) (invalid : CallError) (bad : ℤ → Bool) (e : CallError)
      (rest : Option CallError)
      → check_duration p parse_duration text invalid bad e rest ≡ none
      → Passed text bad × (rest ≡ none)
  unfolding check_duration Passed optional_duration reject_if
  check_duration-Passed text invalid bad e rest h =
      elim (Bool-cases (is_given p parse_duration text)) [
        | inl q ↦ elim (Option-cases (parse_duration text)) [
          | inl n ↦ ground (arith, h, q, n)
          | inr (d, n) ↦ (
            (d, rw q n, (λ _. n), (λ _. ground (arith, h, q, n)), λ r. ground (arith, q, r)),
            ground (arith, h, q, n),
          )
        ]
        | inr q ↦ (
          (pos 0, rw q refl, (λ r. ground (arith, q, r)), (λ r. ground (arith, q, r)), λ _. refl),
          ground (arith, h, q),
        )
      ]

  -- What the engine relies on in a resolved call.
  pub record IsUsable (c : CallConfig p parse_duration) (call : Call p) : Type 0 where
    pub count : pos call.count ≡ c.count
    pub retries : pos call.retries ≡ c.retries
    pub probability : call.probability ≡ c.probability
    pub condition : call.condition ≡ c.condition
    pub async : call.async ≡ c.async
    pub producer : call.producer ≡ c.producer
    pub given_timeout :
        is_given p parse_duration c.timeout ≡ true
        → (parse_duration c.timeout ≡ some call.timeout) × (leb_ℤ call.timeout (pos 0) ≡ false)
    pub no_timeout : is_given p parse_duration c.timeout ≡ false → call.timeout ≡ pos 0
    pub given_backoff :
        is_given p parse_duration c.retry_backoff ≡ true
        → (parse_duration c.retry_backoff ≡ some call.retry_backoff) × (pos 0 ≤ℤ call.retry_backoff)
    pub no_backoff : is_given p parse_duration c.retry_backoff ≡ false → call.retry_backoff ≡ pos 0
    pub in_range : (lt call.probability (lit 0 1) ≡ false) × (lt (lit 1 1) call.probability ≡ false)
    pub known_condition : is_condition p parse_duration call.condition ≡ true
    pub async_once : call.async ≡ true → (call.retries ≡ 0) × (call.timeout ≡ pos 0)
    pub not_both : (call.producer && call.async) ≡ false
    pub without_retries : call.retries ≡ 0 → call.retry_backoff ≡ pos 0

  usable :
      (c : CallConfig p parse_duration) (op : ℕ) (timeout backoff : ℤ)
      → (lt c.probability (lit 0 1) || lt (lit 1 1) c.probability) ≡ false
      → is_condition p parse_duration c.condition ≡ true
      → ltb_ℤ c.count (pos 0) ≡ false
      → (is_given p parse_duration c.timeout ≡ true → parse_duration c.timeout ≡ some timeout)
      → (is_given p parse_duration c.timeout ≡ true → leb_ℤ timeout (pos 0) ≡ false)
      → (is_given p parse_duration c.timeout ≡ false → timeout ≡ pos 0)
      → ltb_ℤ c.retries (pos 0) ≡ false
      → (is_given p parse_duration c.retry_backoff ≡ true
          → parse_duration c.retry_backoff ≡ some backoff)
      → (is_given p parse_duration c.retry_backoff ≡ true → ltb_ℤ backoff (pos 0) ≡ false)
      → (is_given p parse_duration c.retry_backoff ≡ false → backoff ≡ pos 0)
      → (is_given p parse_duration c.retry_backoff
          && leb_ℤ c.retries (pos 0)
          && leb_ℤ (pos 0) c.retries)
        ≡ false
      → (c.async && ltb_ℤ (pos 0) c.retries) ≡ false
      → (c.async && is_given p parse_duration c.timeout) ≡ false
      → (c.producer && c.async) ≡ false
      → IsUsable c (record {
        operation = op;
        probability = c.probability;
        condition = c.condition;
        count = pos_part c.count;
        timeout = timeout;
        retries = pos_part c.retries;
        retry_backoff = backoff;
        async = c.async;
        producer = c.producer;
      })
  usable c op timeout backoff p0 k0 n0 tp t1 t0 r0 bp b1 b0 br ar at pa = record {
    count = ground (arith, n0);
    retries = ground (arith, r0);
    probability = refl;
    condition = refl;
    async = refl;
    producer = refl;
    given_timeout = λ q. (tp q, t1 q);
    no_timeout = t0;
    given_backoff = λ q. (bp q, ground (arith, b1 q));
    no_backoff = b0;
    in_range = ground (arith, p0);
    known_condition = k0;
    async_once = λ a. (ground (arith, ar, a, r0), ground (arith, at, a, t0));
    not_both = pa;
    without_retries = λ z. ground (arith, z, r0, br, b0);
  }

  -- The target of a call that the validation accepts is a known operation.
  pub validate_call_config-known :
      (known_ops : Dict Bool) (c : CallConfig p parse_duration)
      → validate_call_config p parse_duration known_ops c ≡ none
      → is_set c.target known_ops ≡ true
  unfolding validate_call_config
  validate_call_config-known known_ops c h =
      let (_, h1) = reject_if-none (not (contains_dot c.target)) no_dot _ h in
      let (known, _) = reject_if-none (not (is_set c.target known_ops)) unknown_target _ h1 in
      ground (arith, known)

  -- A call that the validation accepts and whose target is there resolves, to a call of that target
  -- with the configured fields: its count, retries, probability, condition and flags are those of the
  -- configuration, a given timeout or backoff is the parsed one and a missing one is zero. A given
  -- timeout is positive, no backoff is negative and there is none without retries, the probability is
  -- neither below 0 nor above 1, the condition is a known one, an async call has no retry and no
  -- timeout, and no call is both async and a producer's.
  pub validate_call_config-IsUsable :
      (known_ops : Dict Bool) (topo : Topology p) (c : CallConfig p parse_duration) (op : ℕ)
      → validate_call_config p parse_duration known_ops c ≡ none
      → resolve_ref p parse_duration topo c.target ≡ some op
      → (call : Call p) × (resolve_call p parse_duration topo c ≡ some call)
        × (call.operation ≡ op)
        × IsUsable c call
  unfolding validate_call_config resolve_call Passed
  validate_call_config-IsUsable known_ops topo c op h found =
      let given = is_given p parse_duration in
      let (_, h1) = reject_if-none (not (contains_dot c.target)) no_dot _ h in
      let (_, h2) = reject_if-none (not (is_set c.target known_ops)) unknown_target _ h1 in
      let (p0, h3) =
        reject_if-none (lt c.probability (lit 0 1) || lt (lit 1 1) c.probability) bad_probability _
          h2 in
      let (k0, h4) =
        reject_if-none (not (is_condition p parse_duration c.condition)) bad_condition _ h3 in
      let (n0, h5) = reject_if-none (ltb_ℤ c.count (pos 0)) negative_count _ h4 in
      let ((timeout, te, tp, t1, t0), h6) =
        check_duration-Passed c.timeout invalid_timeout (λ d. leb_ℤ d (pos 0)) timeout_not_positive
          _ h5 in
      let (r0, h7) = reject_if-none (ltb_ℤ c.retries (pos 0)) negative_retries _ h6 in
      let ((backoff, be, bp, b1, b0), h8) =
        check_duration-Passed c.retry_backoff invalid_backoff (λ d. ltb_ℤ d (pos 0))
          negative_backoff _ h7 in
      let (br, h9) =
        reject_if-none (given c.retry_backoff && leb_ℤ c.retries (pos 0) && leb_ℤ (pos 0) c.retries)
          backoff_without_retries _ h8 in
      let (ar, h10) = reject_if-none (c.async && ltb_ℤ (pos 0) c.retries) async_retries _ h9 in
      let (at, h11) = reject_if-none (c.async && given c.timeout) async_timeout _ h10 in
      let (pa, _) = reject_if-none (c.producer && c.async) producer_and_async none h11 in
      (
        _,
        rw (found, resolve_call, te, be) refl,
        refl,
        usable c op timeout backoff p0 (ground (arith, k0)) n0 tp t1 t0 r0 bp b1 b0 br ar at pa,
      )
