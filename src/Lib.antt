-- ===== src/Lib.antt =====
-- motel generates synthetic traces: a topology of services and operations that call each other is
-- walked once per trace, with durations, errors, retries and timeouts drawn at random, under
-- scenarios that override parts of it and a simulation state that carries queues and circuit
-- breakers from one trace to the next. This library models the generator in pkg/synth.
--
-- Which file models what:
--   Platform            float64, math/rand, attribute generators, and the OpenTelemetry tracer and
--                       baggage packages, as parameters
--   Topology/Types      the resolved graph: pkg/synth/topology.go, distribution.go, scenario.go
--   Topology/Attributes NewAttributes, Merge, Get (pkg/synth/attributes.go), typedAttribute, attributeKeyValues
--   Topology/Baggage    pkg/synth/baggage.go
--   Topology/Calls      effectiveCalls, effectiveErrorRate, isRoot, spanKindFor, HasCallChanges
--   Topology/Roots      findRoots (pkg/synth/topology.go)
--   Topology/Cycles     detectCycles (pkg/synth/topology.go); Steps, Accepted and Ranked below it
--   Topology/Acyclic    the call graph under overrides, and ranks
--   State               Admit, Enter and Exit of pkg/synth/state.go; State/Breaker, State/Window
--                       and State/Load hold what is shown of the breaker, of its window against
--                       the full history, and of the queue and the backpressure; State/Init is
--                       NewSimulationState
--   Check/Spans         MaxSpans of pkg/synth/check.go, in 64-bit arithmetic; Check/Spans/Exact
--                       compares it with the recurrence of its doc comment
--   Check/FanOut        MaxFanOut of pkg/synth/check.go; Check/Depth is MaxDepth
--   Check/Thresholds    the thresholds of pkg/synth/check_assertions.go and their validation
--   Scenarios           ActiveScenarios and ResolveTraffic of pkg/synth/scenario.go, and
--                       activeScenariosEqual of pkg/synth/engine.go; Scenarios/Resolve is
--                       ResolveOverrides,
--                       Scenarios/Sets the ScenarioSets of pkg/synth/check.go
--   Rate                ParseRate of pkg/synth/rate.go, on character codes; Rate/RoundTrip
--   Traffic             pkg/synth/traffic.go: the patterns and NewTrafficPattern; Traffic/Segments
--                       and Traffic/Bursts are about the custom and the bursty pattern
--   Topology/Generators the generators of attribute values (pkg/synth/attributes.go); Ranges and Weights
--                       below it are about ranges and weighted choices
--   Config              the validation and the resolution of calls and references; Config/Calls, Config/Refs
--   Config/Text         what the configuration code uses of the package strings
--   Config/Distributions the texts of pkg/synth/distribution.go and parseErrorRate; RoundTrip and Bounds
--   Config/Types        the types of pkg/synth/config.go, after YAML is decoded
--   Config/Parts        the validation of metrics, logs, baggage and attributes; Config/Tables the first
--                       loop of ValidateConfig, Config/Operations the second one, Config/Sections the
--                       traffic section and the scenarios, Config/Validate the whole
--   Config/Build        BuildTopology of pkg/synth/topology.go; Passes are its two passes, Known, Parts,
--                       CallsMade, First, Names, Second and Accepted follow an accepted configuration through it
--   Config/Scenarios    BuildScenarios and validateScenarioCycles of pkg/synth/scenario.go; Patterns,
--                       Accepted and Built likewise
--   Config/Sample       a small configuration for the tests
--   Emit                pkg/synth/emit.go: emitTrace, buildEvents, finishSpan and endAllOpen, the replay of a
--                       planned trace. Emit/Events, Emit/Nested and Emit/Timed are about the order of
--                       the events, Emit/Live and Emit/Ends about the open spans, Emit/Steps about
--                       one event, Emit/Replay about the whole, and Emit/Planned about the replay
--                       of a trace that Engine/Plan made
--   TraceImport         pkg/synth/traceimport: Trees is tree.go (with Places), Stats is stats.go without the formatting (with Folds, Sound and Others),
--                       Infer is inferServiceAttributes of infer.go
--   Swarm               choice points and swarmChoices of pkg/synth/swarm.go; Swarm/Choices
--   Engine/World        what a trace reads and changes: the random source, the simulation state,
--                       the statistics, the span count, the link registry, the emitted calls
--   Engine/Loops        what walkTrace and planTrace share: admission, own error, choice of the
--                       calls, attempts of a call (executeCall), loops over the calls
--   Engine/Spans        the start, the attributes and the end of a span, and emitRejectionSpan;
--                       Engine/Walk is walkTrace of pkg/synth/engine.go
--   Engine/Plan         planTrace and planRejectionSpan of pkg/synth/plan.go
--   Engine/Rules        a rule for relations with costs over the loops of a trace; Engine/Counts,
--                       Engine/Grows, Engine/Totals and Engine/Budget apply it to the counters, and
--                       Engine/PlanTotals to the plans. Engine/Windows, Engine/Nested and
--                       Engine/Planned are about the times of the plans
--   Fixture             a concrete platform and topology, used by the Tests modules
--
-- How state corresponds: a method that mutates its receiver becomes a function from the old state
-- to the new one. `World` holds all that walkTrace reaches through pointers. Pointers to services
-- and operations are numbers, looked up in the topology. Go maps are association lists; a loop over
-- a map visits the list's order. Errors and missing entries are options.
--
-- Bounds and fuel: durations and times are integers; where Go's int64 could wrap the code's
-- differences are wrapped, and the results ask for values in range. The counters of the statistics
-- are unbounded. The recursion of walkTrace and planTrace is on fuel: each level counts a span
-- before it descends, so fuel above the span limit is enough. The search of MaxSpans is on fuel
-- above the rank of the roots, and so is that of detectCycles; the search in
-- BuildTopology and the one in validateScenarioCycles take the fuel as an argument, and too little of
-- it is a result of its own.
--
-- Not modelled: YAML decoding and the fetching of a source, the run loops with their clock
-- and goroutines, the timer of the realtime emission, metrics, logs, replay, the parsers and the
-- output of the trace import, the semantic convention registry and the command line.
pub mod Prelude
pub mod Platform
pub mod State
pub mod Topology
pub mod Check
pub mod Swarm
pub mod Scenarios
pub mod Rate
pub mod Traffic
pub mod Emit
pub mod TraceImport
pub mod Config
pub mod Engine
pub mod Fixture
