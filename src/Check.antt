-- ===== src/Check.antt =====
-- pkg/synth/check.go: the worst cases of a topology and what `motel check` reports of them.
pub mod Spans
pub mod FanOut
pub mod Depth
pub mod Thresholds
mod Tests
