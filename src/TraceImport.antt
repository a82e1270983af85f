-- ===== src/TraceImport.antt =====
-- pkg/synth/traceimport: what is inferred from recorded spans. The parsers of the input formats are
-- not modelled. Times are integers of nanoseconds.
pub mod Infer
pub mod Trees
pub mod Stats
mod Tests
use motel.Prelude.{String, Bool, Dict}
use motel.Prelude.Int.{ℤ}

-- A span of any input format; a root has an empty parent.
pub record Span : Type 0 where
  pub trace_id : String
  pub span_id : String
  pub parent_id : String
  pub service : String
  pub operation : String
  pub start_time : ℤ
  pub end_time : ℤ
  pub is_error : Bool
  pub attributes : Dict String
