-- ===== src/TraceImport/Stats.antt =====
-- pkg/synth/traceimport/stats.go: the statistics of the operations over trace trees. `sort.Slice` is a
-- stable insertion sort here; Go leaves the order of equal start times open. Maps that the source
-- allocates when they are first needed start empty.
pub mod Folds
pub mod Sound
pub mod Others
use Prim.Native.String
use motel.Prelude.{
  ℕ, zero, suc, ◌+◌, ◌≤◌, ◌≡◌, Bool, true, false, not, ◌&&◌, ◌||◌, String, str_eq, List, [], ◌∷◌,
  ◌++◌, Option, none, some, Dict, lookup, insert, update_all, if◌then◌else◌, leb, length, All,
  arith,
}
use motel.Prelude.Int.{ℤ, pos, negsuc, pos_part, leb_ℤ, ltb_ℤ, wrap_64, ◌-ℤ◌}
use motel.Platform.{Float64}
use motel.Engine.World.{time_sub}
use motel.TraceImport.{Span}

-- A span with its children.
mutual
  pub data SpanNode : Type 0 where
    span_node : Span → SpanNodes → SpanNode

  pub data SpanNodes : Type 0 where
    no_nodes : SpanNodes
    more_nodes : SpanNode → SpanNodes → SpanNodes

abbrev pub span_of : SpanNode → Span
span_of (span_node s kids) = s

abbrev pub children_of : SpanNode → SpanNodes
children_of (span_node s kids) = kids

-- "service.operation"
unfoldable pub ref_of_span : Span → String
ref_of_span s = String.◌++◌ s.service (String.◌++◌ "." s.operation)

unfoldable pub contains_string : List String → String → Bool
contains_string [] needle = false
contains_string (s ∷ haystack) needle =
    if str_eq s needle then true else contains_string haystack needle

pub record Folded : Type 0 where
  pub calls : List SpanNode
  pub errored : Bool

-- The calls of a node with the given children, through its continuations.
unfoldable pub folded_calls : SpanNodes → List String → Folded
unfolding contains_string ref_of_span
folded_calls no_nodes path = record { calls = []; errored = false }
folded_calls (more_nodes (span_node s kids) rest) path =
    let sub = folded_calls kids path in
    let others = folded_calls rest path in
    if contains_string path (ref_of_span s)
    then record {
      calls = sub.calls ++ others.calls;
      errored = s.is_error || sub.errored || others.errored;
    }
    else record { calls = span_node s kids ∷ others.calls; errored = others.errored }

pub record CallStats : Type 0 where
  pub count : ℕ
  pub occurrences : ℕ

pub record CallStyleVote : Type 0 where
  pub parallel : ℕ
  pub sequential : ℕ

-- 1 * time.Millisecond
abbrev one_millisecond : ℤ
one_millisecond = pos 1000000

-- Each start is within a millisecond of the first. Negation wraps.
abbrev magnitude : ℤ → ℤ
magnitude diff = if ltb_ℤ diff (pos 0) then wrap_64 (pos 0 -ℤ diff) else diff

abbrev all_near : ℤ → List SpanNode → Bool
all_near first [] = true
all_near first (c ∷ cs) =
    leb_ℤ (magnitude (time_sub (span_of c).start_time first)) one_millisecond && all_near first cs

unfoldable pub are_parallel : List SpanNode → Bool
are_parallel [] = false
are_parallel (c ∷ []) = false
are_parallel (c ∷ d ∷ cs) = all_near (span_of c).start_time (d ∷ cs)

unfoldable pub place_start : SpanNode → List SpanNode → List SpanNode
place_start n [] = n ∷ []
place_start n (x ∷ xs) =
    let later = x ∷ place_start n xs in
    if leb_ℤ (span_of n).start_time (span_of x).start_time then n ∷ x ∷ xs else later

unfoldable pub sort_starts : List SpanNode → List SpanNode
unfolding place_start
sort_starts [] = []
sort_starts (n ∷ ns) = place_start n (sort_starts ns)

-- A gap below -1 ms is an overlap.
abbrev no_overlap : List SpanNode → Bool
no_overlap [] = true
no_overlap (c ∷ []) = true
no_overlap (c ∷ d ∷ cs) =
    leb_ℤ (negsuc 999999) (time_sub (span_of d).start_time (span_of c).end_time)
    && no_overlap (d ∷ cs)

unfoldable pub are_sequential : List SpanNode → Bool
unfolding sort_starts
are_sequential [] = false
are_sequential (c ∷ []) = false
are_sequential (c ∷ d ∷ cs) = no_overlap (sort_starts (c ∷ d ∷ cs))

unfoldable pub cast_vote : List SpanNode → CallStyleVote → CallStyleVote
unfolding are_parallel are_sequential
cast_vote calls v =
    if are_parallel calls
    then record v { parallel = v.parallel + 1 }
    else if are_sequential calls
    then record v { sequential = v.sequential + 1 }
    else record v { parallel = v.parallel + 1 }

-- How often each target is called in one invocation.
unfoldable pub count_targets : List SpanNode → Dict ℕ → Dict ℕ
unfolding ref_of_span
count_targets [] per_target = per_target
count_targets (c ∷ calls) per_target =
    let target = ref_of_span (span_of c) in
    count_targets calls (
      insert target (elim (lookup target per_target) as (λ _. ℕ) [ some k ↦ k + 1 | none ↦ 1 ])
        per_target)

abbrev pub add_target : Option CallStats → ℕ → CallStats
add_target none k = record { count = 1; occurrences = k }
add_target (some cs) k = record { count = cs.count + 1; occurrences = cs.occurrences + k }

unfoldable pub add_targets : Dict ℕ → Dict CallStats → Dict CallStats
unfolding update_all
add_targets per_target calls = update_all add_target per_target calls

module _ (fl : Float64) where
  open fl use {F, add, sub, mul, div, lit, of_int}

  pub record OpStats : Type 0 where
    pub duration_count : ℕ
    pub duration_mean : F
    pub duration_m2 : F
    pub error_count : ℕ
    pub total_count : ℕ
    pub calls : Dict CallStats

  pub record ServiceStats : Type 0 where
    pub ops : Dict OpStats
    pub call_styles : Dict CallStyleVote

  -- The map `Services` of a StatsCollector.
  abbrev pub Services : Type 0
  Services = Dict ServiceStats

  unfoldable pub record_duration : ℤ → ℤ → OpStats → OpStats
  record_duration d weight o =
      if leb_ℤ weight (pos 0)
      then o
      else let next_count = o.duration_count + pos_part weight in
        let delta = sub (of_int d) o.duration_mean in
        let mean =
          add o.duration_mean (div (mul delta (of_int weight)) (of_int (pos next_count))) in
        record o {
          duration_mean = mean;
          duration_m2 = add o.duration_m2 (mul (mul delta (sub (of_int d) mean)) (of_int weight));
          duration_count = next_count;
        }

  abbrev pub no_op : OpStats
  no_op = record {
    duration_count = 0;
    duration_mean = lit 0 1;
    duration_m2 = lit 0 1;
    error_count = 0;
    total_count = 0;
    calls = [];
  }

  abbrev pub get_service : String → Services → ServiceStats
  get_service name services = elim (lookup name services) [
    | some svc ↦ svc
    | none ↦ record { ops = []; call_styles = [] }
  ]

  abbrev pub get_op : String → Dict OpStats → OpStats
  get_op name ops = elim (lookup name ops) [ some op ↦ op | none ↦ no_op ]

  abbrev pub get_call_style : String → Dict CallStyleVote → CallStyleVote
  get_call_style name votes = elim (lookup name votes) [
    | some v ↦ v
    | none ↦ record { parallel = 0; sequential = 0 }
  ]

  -- What one invocation adds to its operation.
  unfoldable pub note_invocation : Span → Folded → OpStats → OpStats
  unfolding record_duration count_targets add_targets
  note_invocation s folded o =
      let timed = record_duration (time_sub s.end_time s.start_time) (pos 1) o in
      record timed {
        total_count = timed.total_count + 1;
        error_count =
            if s.is_error || folded.errored then timed.error_count + 1 else timed.error_count;
        calls = add_targets (count_targets folded.calls []) timed.calls;
      }

  unfoldable pub note_node : Span → Folded → Services → Services
  unfolding note_invocation cast_vote
  note_node s folded services =
      let svc = get_service s.service services in
      let ops =
        insert s.operation (note_invocation s folded (get_op s.operation svc.ops)) svc.ops in
      let styles =
        if leb 2 (length folded.calls)
        then insert s.operation
            (cast_vote folded.calls (get_call_style s.operation svc.call_styles)) svc.call_styles
        else svc.call_styles in
      insert s.service (record { ops = ops; call_styles = styles }) services

  -- The recursion into the calls.
  unfoldable pub walk_each :
      (SpanNode → Services → Option Services) → List SpanNode → Services → Option Services
  walk_each walk [] services = some services
  walk_each walk (c ∷ calls) services = elim (walk c services) [
    | none ↦ none
    | some services' ↦ walk_each walk calls services'
  ]

  -- The fuel bounds the depth; the number of spans below the node is enough.
  unfoldable pub walk_node : ℕ → SpanNode → List String → Services → Option Services
  unfolding note_node walk_each folded_calls ref_of_span
  walk_node zero n ancestors services = none
  walk_node (suc fuel) n ancestors services =
      let path = ancestors ++ ref_of_span (span_of n) ∷ [] in
      let folded = folded_calls (children_of n) path in
      walk_each (λ c. walk_node fuel c path) folded.calls (note_node (span_of n) folded services)

  -- All the roots of a tree, then of all trees.
  unfoldable pub collect_from_trees : ℕ → List (List SpanNode) → Services → Option Services
  unfolding walk_node walk_each
  collect_from_trees fuel [] services = some services
  collect_from_trees fuel (roots ∷ trees) services =
      elim (walk_each (λ c. walk_node fuel c []) roots services) [
        | none ↦ none
        | some services' ↦ collect_from_trees fuel trees services'
      ]
