-- ===== src/Config.antt =====
-- pkg/synth/config.go and topology.go: the calls of a configuration, their validation, and how they
-- are resolved. time.ParseDuration is a parameter. An error keeps its kind and drops its text.
pub mod Text
pub mod Distributions
pub mod Types
pub mod Parts
pub mod Tables
pub mod Operations
pub mod Sections
pub mod Validate
pub mod Build
pub mod Scenarios
pub mod Sample
pub mod Calls
pub mod Refs
mod Tests
use Prim.Native.String
use Prim.Native.Char.{code}
use motel.Prelude.{
  ℕ, Bool, true, false, not, ◌&&◌, ◌||◌, String, str_eq, List, [], ◌∷◌, Option, none, some, Dict,
  lookup, if◌then◌else◌, ◌==◌,
}
use motel.Prelude.Int.{ℤ, pos, pos_part, leb_ℤ, ltb_ℤ}
use motel.Platform.{Platform}
use motel.Topology.Types.{Call, Topology}
use motel.Topology.Calls.{is_set}

pub data CallError : Type 0 where
  no_dot unknown_target bad_probability bad_condition negative_count : CallError
  invalid_timeout timeout_not_positive negative_retries : CallError
  invalid_backoff negative_backoff backoff_without_retries : CallError
  async_retries async_timeout producer_and_async not_called : CallError

-- strings.Cut at the first dot.
unfoldable pub cut : String → Option (String × String)
cut String.[] = none
cut (String.◌∷◌ c s) =
    let rest = cut s in
    if code c == b'.' then some ("", s) else elim rest as (λ _. Option (String × String)) [
      | none ↦ none
      | some parts ↦ some (String.◌∷◌ c parts.0, parts.1)
    ]

-- strings.Contains for a dot.
unfoldable pub contains_dot : String → Bool
contains_dot String.[] = false
contains_dot (String.◌∷◌ c s) = code c == b'.' || contains_dot s

-- An early return.
unfoldable pub reject_if : Bool → CallError → Option CallError → Option CallError
reject_if b e rest = if b then some e else rest

module _ (p : Platform) (parse_duration : String → Option ℤ) where
  open p use {fl}
  open fl use {F, lt, lit}

  pub record CallConfig : Type 0 where
    pub target : String
    pub probability : F
    pub condition : String
    pub count : ℤ
    pub timeout : String
    pub retries : ℤ
    pub retry_backoff : String
    pub async : Bool
    pub producer : Bool

  abbrev pub is_given : String → Bool
  is_given text = not (str_eq text "")

  -- A duration that is given must parse and must not fail the test.
  unfoldable pub check_duration :
      String → CallError → (ℤ → Bool) → CallError → Option CallError → Option CallError
  unfolding reject_if
  check_duration text invalid bad e rest =
      if is_given text
      then elim (parse_duration text) [ none ↦ some invalid | some d ↦ reject_if (bad d) e rest ]
      else rest

  abbrev pub is_condition : String → Bool
  is_condition c = not (is_given c) || str_eq c "on-error" || str_eq c "on-success"

  unfoldable pub validate_call_config : Dict Bool → CallConfig → Option CallError
  unfolding contains_dot is_set check_duration reject_if
  validate_call_config known_ops c = reject_if (not (contains_dot c.target)) no_dot (
      reject_if (not (is_set c.target known_ops)) unknown_target (
        reject_if (lt c.probability (lit 0 1) || lt (lit 1 1) c.probability) bad_probability (
          reject_if (not (is_condition c.condition)) bad_condition (
            reject_if (ltb_ℤ c.count (pos 0)) negative_count (
              check_duration c.timeout invalid_timeout (λ d. leb_ℤ d (pos 0)) timeout_not_positive
                (reject_if (ltb_ℤ c.retries (pos 0)) negative_retries (
                  check_duration c.retry_backoff invalid_backoff (λ d. ltb_ℤ d (pos 0))
                    negative_backoff
                    (reject_if
                      (is_given c.retry_backoff
                        && leb_ℤ c.retries (pos 0)
                        && leb_ℤ (pos 0) c.retries)
                      backoff_without_retries
                      (reject_if (c.async && ltb_ℤ (pos 0) c.retries) async_retries (
                        reject_if (c.async && is_given c.timeout) async_timeout
                          (reject_if (c.producer && c.async) producer_and_async none)))))))))))

  -- The calls of an operation, or those that a scenario adds.
  unfoldable pub validate_calls : Dict Bool → List CallConfig → Option CallError
  unfolding validate_call_config
  validate_calls known_ops [] = none
  validate_calls known_ops (c ∷ calls) =
      let rest = validate_calls known_ops calls in
      elim (validate_call_config known_ops c) [ some e ↦ some e | none ↦ rest ]

  -- The targets that a scenario removes.
  unfoldable pub validate_removals : Dict Bool → Dict Bool → List String → Option CallError
  unfolding contains_dot is_set reject_if
  validate_removals known_ops caller_targets [] = none
  validate_removals known_ops caller_targets (t ∷ targets) =
      let rest = validate_removals known_ops caller_targets targets in
      reject_if (not (contains_dot t)) no_dot (
        reject_if (not (is_set t known_ops)) unknown_target
          (reject_if (not (is_set t caller_targets)) not_called rest))

  unfoldable pub validate_call_changes :
      Dict Bool → Dict Bool → List CallConfig → List String → Option CallError
  unfolding validate_calls validate_removals
  validate_call_changes known_ops caller_targets add_calls remove_calls =
      elim (validate_calls known_ops add_calls) [
        | some e ↦ some e
        | none ↦ validate_removals known_ops caller_targets remove_calls
      ]

  -- The operation that a reference names.
  unfoldable pub resolve_ref : Topology p → String → Option ℕ
  unfolding cut
  resolve_ref topo ref = elim (cut ref) [
    | none ↦ none
    | some parts ↦ elim (lookup parts.0 topo.services) [
      | none ↦ none
      | some svc ↦ lookup parts.1 (topo.service svc).operations
    ]
  ]

  -- A duration that is not given is zero.
  unfoldable pub optional_duration : String → Option ℤ
  optional_duration text = if is_given text then parse_duration text else some (pos 0)

  unfoldable pub resolve_call : Topology p → CallConfig → Option (Call p)
  unfolding resolve_ref optional_duration
  resolve_call topo c = elim (resolve_ref topo c.target) [
    | none ↦ none
    | some op ↦ elim (optional_duration c.timeout) [
      | none ↦ none
      | some timeout ↦ elim (optional_duration c.retry_backoff) [
        | none ↦ none
        | some backoff ↦ some (record {
          operation = op;
          probability = c.probability;
          condition = c.condition;
          count = pos_part c.count;
          timeout = timeout;
          retries = pos_part c.retries;
          retry_backoff = backoff;
          async = c.async;
          producer = c.producer;
        })
      ]
    ]
  ]
