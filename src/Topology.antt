-- ===== src/Topology.antt =====
-- pkg/synth/topology.go, scenario.go, distribution.go, attributes.go: the resolved service graph.
-- Pointers are numbers, and the two functions of a topology are the heap they point into. Maps
-- are association lists. Metric and log definitions of services and operations are read by the
-- observers only, and are left out.
pub mod Types
pub mod Attributes
pub mod Generators
pub mod Baggage
pub mod Calls
pub mod Acyclic
pub mod Roots
pub mod Cycles
mod Tests
