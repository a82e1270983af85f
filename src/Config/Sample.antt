-- ===== src/Config/Sample.antt =====
-- A small configuration for the tests: two services, one of which calls the other, and a scenario.
use motel.Prelude.{
  ◌≡◌, refl, lookup, insert, false, true, String, str_eq, List, [], ◌∷◌, Option, none, some,
  if◌then◌else◌,
}
use motel.Prelude.Int.{ℤ, pos}
use motel.Prelude.Results.{ok, each}
use motel.Config.{CallConfig}
use motel.Config.Types.{
  Library, OperationConfig, ServiceConfig, OverrideConfig, ScenarioConfig, Config, plain,
}
use motel.Config.{validate_calls, validate_call_changes}
use motel.Config.Text.{trim_space}
use motel.Config.Distributions.{parse_distribution, parse_mean, mean_and_spread, parse_error_rate}
use motel.Config.Parts.{validate_baggage, check_attributes, validate_log_overrides}
use motel.Config.Tables.{note_services}
use motel.Config.Operations.{validate_operations}
use motel.Config.Sections.{validate_traffic_config, validate_scenario}
use motel.Config.Validate.{validate_config}
use motel.Topology.Baggage.{sorted_keys}
use motel.Traffic.{new_base_pattern}
use motel.Rate.{parse_rate}
use motel.Fixture.{counting}

abbrev pub milliseconds : String → Option ℤ
milliseconds text = if str_eq text "1ms" then some (pos 1000000) else none

abbrev pub numbers : String → Option ℤ
numbers text = if str_eq text "1" then some (pos 1000) else none

abbrev pub library : Library counting
library = record {
  parse_duration = milliseconds;
  parse_float = numbers;
  new_member = λ _. true;
  sprint_value = λ _. "";
  as_gen = λ _. pos 0;
  sin = λ x. x;
  pi = pos 3142;
  hours = λ _. pos 0;
  seconds = λ _. pos 1000;
}

abbrev pub read_call : CallConfig counting milliseconds
read_call = record {
  target = "store.read";
  probability = pos 0;
  condition = "";
  count = pos 0;
  timeout = "1ms";
  retries = pos 1;
  retry_backoff = "";
  async = false;
  producer = false;
}

abbrev pub operation :
    String → List (CallConfig counting milliseconds) → OperationConfig counting library
operation name calls = record {
  name = name;
  domain = "";
  duration = "1ms";
  error_rate = "1";
  calls = calls;
  call_style = "parallel";
  attributes = [];
  baggage = [];
  baggage_as_attributes = none;
  events = [];
  links = [];
  metrics = [];
  logs = [];
  queue_depth = pos 0;
  backpressure = none;
  circuit_breaker = none;
}

abbrev pub service : String → OperationConfig counting library → ServiceConfig counting library
service name op = record {
  name = name;
  resource_attributes = [];
  attributes = [];
  baggage = [];
  baggage_as_attributes = none;
  metrics = [];
  logs = [];
  operations = op ∷ [];
}

abbrev pub failing : OverrideConfig counting library
failing = record {
  duration = "1ms";
  error_rate = "1";
  attributes = [];
  add_calls = [];
  remove_calls = [];
  metrics = [];
  logs = none;
}

abbrev pub cut_off : OverrideConfig counting library
cut_off = record {
  duration = "";
  error_rate = "";
  attributes = [];
  add_calls = [];
  remove_calls = "store.read" ∷ [];
  metrics = [];
  logs = none;
}

-- The store fails, and the gateway stops calling it.
abbrev pub incident : ScenarioConfig counting library
incident = record {
  name = "incident";
  start = "+1ms";
  duration = "1ms";
  priority = pos 0;
  override = ("store.read", failing) ∷ ("gateway.get", cut_off) ∷ [];
  traffic = none;
}

abbrev pub config : List (ServiceConfig counting library) → Config counting library
config services = record {
  version = pos 1;
  mode = "";
  recording = "";
  services = services;
  traffic = plain (record {
    rate = "10/s";
    pattern = "";
    peak_multiplier = pos 0;
    trough_multiplier = pos 0;
    period = "";
    burst_multiplier = pos 0;
    burst_interval = "";
    burst_duration = "";
    segments = [];
  });
  scenarios = incident ∷ [];
}

abbrev pub two_services : Config counting library
two_services = config (
    service "gateway" (operation "get" (read_call ∷ []))
    ∷ service "store" (operation "read" [])
    ∷ [])

pub sample_accepted : validate_config counting library two_services ≡ ok tt
unfolding validate_config each note_services validate_baggage sorted_keys validate_operations
    parse_distribution trim_space mean_and_spread parse_mean parse_error_rate check_attributes
    validate_calls lookup insert validate_traffic_config new_base_pattern parse_rate
    validate_scenario validate_log_overrides validate_call_changes
sample_accepted = refl
