-- ===== src/Config/Types.antt =====
-- pkg/synth/config.go: the configuration after YAML is decoded. A map is an association list.
-- The functions of other packages that the configuration code calls are the fields of a record.
use motel.Prelude.{Bool, String, List, Option, Dict}
use motel.Prelude.Int.{ℤ}
use motel.Platform.{Platform}
use motel.Topology.Generators.{Generator, Value, AttributeValueConfig}
use motel.Traffic.{BaseConfig}
use motel.Config.{CallConfig}

module _ (p : Platform) where
  open p use {fl, Gen}
  open fl use {F}

  -- time.ParseDuration, strconv.ParseFloat, whether baggage.NewMember takes a key, fmt.Sprint of a
  -- value, a generator behind the interface AttributeGenerator, math.Sin and math.Pi, and the hours
  -- and seconds of a duration.
  pub record Library : Type 0 where
    pub parse_duration : String → Option ℤ
    pub parse_float : String → Option F
    pub new_member : String → Bool
    pub sprint_value : Value p → String
    pub as_gen : Generator p → Gen
    pub sin : F → F
    pub pi : F
    pub hours : ℤ → F
    pub seconds : ℤ → F

module _ (p : Platform) (lib : Library p) where
  open p use {fl}
  open fl use {F}
  open lib use {parse_duration, sin, pi, hours, seconds}

  abbrev pub AttributeConfigs : Type 0
  AttributeConfigs = Dict (AttributeValueConfig p)

  abbrev pub Calls : Type 0
  Calls = List (CallConfig p parse_duration)

  pub record BackpressureConfig : Type 0 where
    pub latency_threshold : String
    pub duration_multiplier : F
    pub error_rate_add : String

  pub record CircuitBreakerConfig : Type 0 where
    pub failure_threshold : ℤ
    pub window : String
    pub cooldown : String

  pub record EventConfig : Type 0 where
    pub name : String
    pub delay : String
    pub attributes : AttributeConfigs

  -- `anchor` is the field At.
  pub record LogConfig : Type 0 where
    pub severity : String
    pub body : String
    pub condition : String
    pub probability : Option F
    pub anchor : String
    pub delay : String
    pub attributes : AttributeConfigs

  pub record MetricConfig : Type 0 where
    pub name : String
    pub type : String
    pub unit : String
    pub value : String
    pub interval : String
    pub walk : String
    pub min : Option F
    pub max : Option F
    pub errors_only : Bool
    pub attributes : AttributeConfigs

  pub record LinkConfig : Type 0 where
    pub ref : String
    pub attributes : AttributeConfigs

  pub record OperationConfig : Type 0 where
    pub name : String
    pub domain : String
    pub duration : String
    pub error_rate : String
    pub calls : Calls
    pub call_style : String
    pub attributes : AttributeConfigs
    pub baggage : Dict String
    pub baggage_as_attributes : Option Bool
    pub events : List EventConfig
    pub links : List LinkConfig
    pub metrics : List MetricConfig
    pub logs : List LogConfig
    pub queue_depth : ℤ
    pub backpressure : Option BackpressureConfig
    pub circuit_breaker : Option CircuitBreakerConfig

  pub record ServiceConfig : Type 0 where
    pub name : String
    pub resource_attributes : Dict String
    pub attributes : Dict String
    pub baggage : Dict String
    pub baggage_as_attributes : Option Bool
    pub metrics : List MetricConfig
    pub logs : List LogConfig
    pub operations : List OperationConfig

  -- A traffic section without an overlay, or with one, which is a traffic section itself.
  pub data TrafficSection : Type 0 where
    plain : BaseConfig fl sin pi hours seconds parse_duration → TrafficSection
    with_overlay :
        BaseConfig fl sin pi hours seconds parse_duration → TrafficSection → TrafficSection

  pub record LogOverrideConfig : Type 0 where
    pub add : List LogConfig
    pub disable : Bool

  -- The metrics by name with their values, and the targets of the removed calls.
  pub record OverrideConfig : Type 0 where
    pub duration : String
    pub error_rate : String
    pub attributes : AttributeConfigs
    pub add_calls : Calls
    pub remove_calls : List String
    pub metrics : Dict String
    pub logs : Option LogOverrideConfig

  -- `start` is the field At.
  pub record ScenarioConfig : Type 0 where
    pub name : String
    pub start : String
    pub duration : String
    pub priority : ℤ
    pub override : Dict OverrideConfig
    pub traffic : Option TrafficSection

  pub record Config : Type 0 where
    pub version : ℤ
    pub mode : String
    pub recording : String
    pub services : List ServiceConfig
    pub traffic : TrafficSection
    pub scenarios : List ScenarioConfig
