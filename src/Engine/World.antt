-- ===== src/Engine/World.antt =====
-- pkg/synth/engine.go, observer.go and plan.go: what a trace generation reads and changes.
use motel.Prelude.{
  ℕ, Bool, ◌&&◌, String, List, [], ◌∷◌, ◌++◌, Option, Dict, lookup, insert, if◌then◌else◌,
}
use motel.Prelude.Int.{ℤ, ◌-ℤ◌, leb_ℤ, saturate_64, pos}
use motel.Platform.{Platform, SpanKind, KeyValue}
use motel.Topology.Types.{Topology, Distribution}
use motel.Topology.Calls.{is_set}
use motel.State.{OperationState, Reason}
use motel.Swarm.{ChoiceDecisions}

-- The counters of `Stats` that the generation itself increments. They are int64 in the source,
-- and a run of 2 ^ 63 spans is out of reach, so they are left unbounded.
pub record Stats : Type 0 where
  pub traces : ℕ
  pub spans : ℕ
  pub errors : ℕ
  pub failed_traces : ℕ
  pub timeouts : ℕ
  pub retries : ℕ
  pub spans_bounded : ℕ
  pub queue_rejections : ℕ
  pub circuit_breaker_trips : ℕ

pub data PlanEventKind : Type 0 where
  plan_event_timeout plan_event_retry plan_event_queue_rejection : PlanEventKind
  plan_event_circuit_breaker_trip : PlanEventKind

-- time.Time.Sub; Time.Add is the sum of integers.
abbrev pub time_sub : ℤ → ℤ → ℤ
time_sub a b = saturate_64 (a -ℤ b)

module _ (p : Platform) where
  open p use {fl, Rng, Provider, SpanContext, Bag, norm_float_64}
  open fl use {F, lt, add, mul, lit, of_int, to_int}

  pub record SpanInfo : Type 0 where
    pub service : String
    pub operation : String
    pub parent_service : String
    pub parent_operation : String
    pub timestamp : ℤ
    pub duration : ℤ
    pub is_error : Bool
    pub kind : SpanKind
    pub attrs : List (KeyValue F)
    pub scenarios : List String
    pub span_context : SpanContext

  -- The calls that a trace makes on its spans and on the observers, in order. An `observed` or
  -- `started` entry stands for the calls of all observers.
  pub data Emission : Type 0 where
    attributes_set : SpanContext → List (KeyValue F) → Emission
    event_added : SpanContext → String → ℤ → List (KeyValue F) → Emission
    status_error : SpanContext → String → Emission
    error_recorded : SpanContext → String → ℤ → Emission
    span_ended : SpanContext → ℤ → Emission
    start_observed : String → String → Emission
    span_observed : SpanInfo → Emission
    plan_event : PlanEventKind → String → String → ℤ → Emission

  pub record LinkRef : Type 0 where
    pub ref : String
    pub attributes : List (KeyValue F)

  -- The IDs of a plan are filled in by the tracer when it is emitted. `parent_index` is none for
  -- the source's -1.
  pub record SpanPlan : Type 0 where
    pub index : ℕ
    pub parent_index : Option ℕ
    pub service : String
    pub operation : String
    pub ref : String
    pub kind : SpanKind
    pub start_time : ℤ
    pub end_time : ℤ
    pub start_attrs : List (KeyValue F)
    pub attrs : List (KeyValue F)
    pub is_error : Bool
    pub scenarios : List String
    pub rejected : Bool
    pub rejection_reason : Reason
    pub link_refs : List LinkRef
    pub baggage : Dict String

  -- The most recent span context of each operation that a link refers to.
  pub record Registry : Type 0 where
    pub targets : Dict Bool
    pub contexts : Dict SpanContext

  unfoldable pub store : Registry → String → SpanContext → Registry
  unfolding is_set
  store r ref sc =
      if is_set ref r.targets then record r { contexts = insert ref sc r.contexts } else r

  unfoldable pub load : Registry → String → Option SpanContext
  load r ref = lookup ref r.contexts

  pub record World : Type 0 where
    pub rng : Rng
    pub state : Option (Dict (OperationState fl))
    pub stats : Stats
    pub span_count : ℕ
    pub registry : Option Registry
    pub provider : Provider
    pub output : List Emission
    pub plans : List SpanPlan

  -- The parts of `Engine` that stay fixed during a trace. `observed` says whether there are
  -- observers, and `decisions` is empty where the source has nil.
  pub record Engine : Type 0 where
    pub topology : Topology p
    pub label_scenarios : Bool
    pub observed : Bool
    pub decisions : ChoiceDecisions
    pub span_limit : ℕ

  -- The context that a call passes down: the parent's span and the baggage.
  pub record Ctx : Type 0 where
    pub span : Option SpanContext
    pub bag : Bag

  -- What a walk returns: the end of the span as its caller sees it, and whether it failed.
  pub record Outcome : Type 0 where
    pub at : ℤ
    pub failed : Bool
    pub world : World

  -- `none`: out of fuel.
  abbrev pub Result : Type 0
  Result = Option Outcome

  -- A draw of the normal distribution, clamped to zero from below.
  unfoldable pub draw : Distribution → F → ℤ
  draw d x =
      let s = add (of_int d.mean) (mul x (of_int d.std_dev)) in
      to_int (if lt s (lit 0 1) then lit 0 1 else s)

  unfoldable pub sample : Distribution → Rng → ℤ × Rng
  unfolding draw
  sample d g =
      if leb_ℤ d.std_dev (pos 0) && leb_ℤ (pos 0) d.std_dev
      then (d.mean, g)
      else (draw d (norm_float_64 g).0, (norm_float_64 g).1)

  abbrev pub emit : Emission → World → World
  emit e w = record w { output = w.output ++ e ∷ [] }

  -- The calls of observers are made only where there are some.
  abbrev pub notify : Engine → Emission → World → World
  notify eng e w = if eng.observed then emit e w else w
