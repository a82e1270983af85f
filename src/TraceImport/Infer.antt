-- ===== src/TraceImport/Infer.antt =====
-- pkg/synth/traceimport/infer.go, inferServiceAttributes: the attributes that have one value on every
-- span of a service.
pub mod Constant
pub mod Every
use motel.Prelude.{
  ℕ, ◌+◌, Bool, true, false, ◌&&◌, String, str_eq, List, [], ◌∷◌, Option, none, some, Dict, lookup,
  insert, if◌then◌else◌, ◌==◌,
}
use motel.TraceImport.{Span}

-- One attribute of one service, as seen so far.
pub record AttrAccum : Type 0 where
  pub value : String
  pub count : ℕ
  pub constant : Bool

abbrev pub first_seen : String → AttrAccum
first_seen v = record { value = v; count = 1; constant = true }

abbrev pub seen_again : String → AttrAccum → AttrAccum
seen_again v a = record {
  value = a.value;
  count = a.count + 1;
  constant = if str_eq a.value v then a.constant else false;
}

unfoldable pub note_attribute : Dict AttrAccum → String → String → Dict AttrAccum
note_attribute accum k v = elim (lookup k accum) [
  | none ↦ insert k (first_seen v) accum
  | some a ↦ insert k (seen_again v a) accum
]

unfoldable pub note_attributes : Dict AttrAccum → Dict String → Dict AttrAccum
unfolding note_attribute
note_attributes accum [] = accum
note_attributes accum ((k, v) ∷ attrs) = note_attributes (note_attribute accum k v) attrs

-- The two maps of the first loop.
pub record Accums : Type 0 where
  pub svc_accum : Dict (Dict AttrAccum)
  pub svc_counts : Dict ℕ

abbrev pub count_at : String → Dict ℕ → ℕ
count_at svc counts = elim (lookup svc counts) [ some n ↦ n | none ↦ 0 ]

abbrev pub accum_at : String → Dict (Dict AttrAccum) → Dict AttrAccum
accum_at svc accums = elim (lookup svc accums) [ some a ↦ a | none ↦ [] ]

unfoldable pub note_span : Span → Accums → Accums
unfolding note_attributes
note_span s m = record {
  svc_accum =
      insert s.service (note_attributes (accum_at s.service m.svc_accum) s.attributes) m.svc_accum;
  svc_counts = insert s.service (count_at s.service m.svc_counts + 1) m.svc_counts;
}

unfoldable pub note_spans : List Span → Accums → Accums
unfolding note_span
note_spans [] m = m
note_spans (s ∷ spans) m = note_spans spans (note_span s m)

-- The attributes of one service that are constant and on all its spans.
unfoldable pub constant_attributes : ℕ → Dict AttrAccum → Dict String
constant_attributes total [] = []
constant_attributes total ((k, a) ∷ accum) =
    let rest = constant_attributes total accum in
    if a.constant && a.count == total then (k, a.value) ∷ rest else rest

unfoldable pub collect_services : Dict ℕ → Dict (Dict AttrAccum) → Dict (Dict String)
unfolding constant_attributes
collect_services counts [] = []
collect_services counts ((svc, accum) ∷ accums) =
    let rest = collect_services counts accums in
    elim (constant_attributes (count_at svc counts) accum) [
      | [] ↦ rest
      | kv ∷ kvs ↦ (svc, kv ∷ kvs) ∷ rest
    ]

unfoldable pub infer_service_attributes : List Span → Dict (Dict String)
unfolding note_spans collect_services
infer_service_attributes spans =
    let m = note_spans spans (record { svc_accum = []; svc_counts = [] }) in
    collect_services m.svc_counts m.svc_accum
