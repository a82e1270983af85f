-- ===== src/Config/Tests.antt =====
-- A retried call with a timeout, configured and resolved.
use motel.Prelude.{
  ◌≡◌, refl, true, false, String, str_eq, [], ◌∷◌, Option, none, some, if◌then◌else◌, lookup,
}
use motel.Prelude.Int.{ℤ, pos}
use motel.Topology.Types.{Call}
use motel.Config.{CallConfig, contains_dot, resolve_call, resolve_ref, validate_call_config}
use motel.Config.Refs.{resolve_ref-append}
use motel.Config.Calls.{IsUsable, validate_call_config-IsUsable}
use motel.Fixture.{counting, shop}

abbrev one_duration : String → Option ℤ
one_duration text = if str_eq text "1s" then some (pos 1000000000) else none

abbrev retried : CallConfig counting one_duration
retried = record {
  target = "store.read";
  probability = pos 500;
  condition = "";
  count = pos 2;
  timeout = "1s";
  retries = pos 3;
  retry_backoff = "1s";
  async = false;
  producer = false;
}

accepted : validate_call_config counting one_duration (("store.read", true) ∷ []) retried ≡ none
unfolding validate_call_config lookup
accepted = refl

found : resolve_ref counting one_duration shop "store.read" ≡ some 1
unfolding resolve_ref lookup
found = refl

validate_call_config-IsUsable_example :
    (call : Call counting) × (resolve_call counting one_duration shop retried ≡ some call)
    × (call.operation ≡ 1)
    × IsUsable counting one_duration retried call
validate_call_config-IsUsable_example =
    validate_call_config-IsUsable counting one_duration (("store.read", true) ∷ []) shop retried 1
      accepted found

resolve_ref-append_example : resolve_ref counting one_duration shop "store.read" ≡ some 1
unfolding lookup contains_dot
resolve_ref-append_example =
    resolve_ref-append counting one_duration shop "store" "read" 1 1 refl refl refl
