-- ===== src/Topology/Types.antt =====
-- The types of the resolved service graph: pkg/synth/topology.go, distribution.go, scenario.go.
use motel.Prelude.{ℕ, Bool, String, List, Option, Dict}
use motel.Prelude.Int.{ℤ}
use motel.Platform.{Platform}

pub record Distribution : Type 0 where
  pub mean : ℤ
  pub std_dev : ℤ

module _ (p : Platform) where
  open p use {fl, Gen}
  open fl use {F}

  pub record FloatDistribution : Type 0 where
    pub mean : F
    pub std_dev : F

  -- Attributes are lists of these, sorted by key.
  pub record Attribute : Type 0 where
    pub key : String
    pub gen : Gen

  pub record ResolvedBackpressure : Type 0 where
    pub latency_threshold : ℤ
    pub duration_multiplier : F
    pub error_rate_add : F

  pub record ResolvedCircuitBreaker : Type 0 where
    pub failure_threshold : ℕ
    pub window : ℤ
    pub cooldown : ℤ

  pub record Event : Type 0 where
    pub name : String
    pub delay : ℤ
    pub attributes : List Attribute

  pub record Link : Type 0 where
    pub operation : ℕ
    pub attributes : List Attribute

  pub record MetricDefinition : Type 0 where
    pub name : String
    pub type : String
    pub unit : String
    pub value : Option FloatDistribution
    pub interval : ℤ
    pub walk : ℤ
    pub min : Option F
    pub max : Option F
    pub errors_only : Bool
    pub attributes : List Attribute

  pub record LogDefinition : Type 0 where
    pub severity : String
    pub body : String
    pub condition : String
    pub probability : F
    pub at_end : Bool
    pub delay : ℤ
    pub attributes : List Attribute

  -- Count and Retries are natural numbers: ValidateConfig rejects negative ones.
  pub record Call : Type 0 where
    pub operation : ℕ
    pub probability : F
    pub condition : String
    pub count : ℕ
    pub timeout : ℤ
    pub retries : ℕ
    pub retry_backoff : ℤ
    pub async : Bool
    pub producer : Bool

  pub record Operation : Type 0 where
    pub service : ℕ
    pub name : String
    pub ref : String
    pub duration : Distribution
    pub error_rate : F
    pub calls : List Call
    pub call_style : String
    pub attributes : List Attribute
    pub baggage : Dict String
    pub baggage_as_attributes : Bool
    pub events : List Event
    pub links : List Link
    pub metrics : List MetricDefinition
    pub logs : List LogDefinition
    pub queue_depth : ℕ
    pub backpressure : Option ResolvedBackpressure
    pub circuit_breaker : Option ResolvedCircuitBreaker

  pub record Service : Type 0 where
    pub name : String
    pub operations : Dict ℕ
    pub resource_attributes : Dict String
    pub attributes : Dict String
    pub baggage : Dict String
    pub metrics : List MetricDefinition
    pub logs : List LogDefinition

  pub record Topology : Type 0 where
    pub services : Dict ℕ
    pub roots : List ℕ
    pub service : ℕ → Service
    pub operation : ℕ → Operation

  pub record Override : Type 0 where
    pub duration : Distribution
    pub error_rate : F
    pub has_error_rate : Bool
    pub attributes : List Attribute
    pub add_calls : List Call
    pub remove_calls : Dict Bool
    pub metrics : Dict FloatDistribution
    pub add_logs : List LogDefinition
    pub disable_logs : Bool

  -- The interface TrafficPattern has one method, Rate.
  pub record Scenario : Type 0 where
    pub name : String
    pub start : ℤ
    pub end : ℤ
    pub priority : ℤ
    pub overrides : Dict Override
    pub traffic : Option (ℤ → F)
