-- ===== src/Engine.antt =====
-- pkg/synth/engine.go, plan.go
pub mod World
pub mod Loops
pub mod Spans
pub mod Walk
pub mod Plan
pub mod Rules
pub mod Counts
pub mod Windows
pub mod Grows
pub mod Totals
pub mod Budget
pub mod PlanTotals
pub mod Nested
pub mod Planned
mod Tests
