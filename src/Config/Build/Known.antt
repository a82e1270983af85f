-- ===== src/Config/Build/Known.antt =====
-- pkg/synth/config.go, ValidateConfig: what its first loop has checked, and which references it knows.
use motel.Prelude.{
  ◌≡◌, sym, ap, ◌∙◌, ◌⊎◌, inl, inr, Bool, true, not, String, str_eq, eq_iff, List, [], ◌∷◌, Dict,
  insert, lookup-insert, All, Any, arith, Bool-cases,
}
use motel.Prelude.Results.{ok, reject, blame, each, >>-ok, >>=-ok, blame-ok}
use motel.Platform.{Platform}
use motel.Topology.Calls.{is_set}
use motel.Topology.Generators.{is_nonempty}
use motel.Config.Types.{Library, MetricConfig, LogConfig, OperationConfig, ServiceConfig}
use motel.Config.Parts.{validate_metric_config, validate_log_config, validate_baggage}
use motel.Config.Tables.{
  part_error, no_operations, duplicate_metric, ref_of, Tables, with_metric, with_operation,
  with_service, check_resource_keys, note_metrics, note_operations, note_service, note_services,
}

is_set-insert :
    (known : Dict Bool) (key ref : String)
    → is_set ref (insert key true known) ≡ true
    → (key ≡ ref) ⊎ (is_set ref known ≡ true)
unfolding is_set
is_set-insert known key ref h = elim (Bool-cases (str_eq key ref)) [
  | inl same ↦ inl ((eq_iff key ref).0 same)
  | inr differ ↦ inr (ground (arith, h, differ, lookup-insert known key ref true))
]

module _ (p : Platform) (lib : Library p) where
  abbrev pub MetricsChecked : List (MetricConfig p lib) → Type 0
  MetricsChecked = All (λ mc. validate_metric_config p lib mc ≡ ok tt)

  abbrev pub LogsChecked : List (LogConfig p lib) → Type 0
  LogsChecked = All (λ lc. validate_log_config p lib lc ≡ ok tt)

  pub record OperationChecked (op : OperationConfig p lib) : Type 0 where
    pub metrics : MetricsChecked op.metrics
    pub logs : LogsChecked op.logs

  pub record ServiceChecked (svc : ServiceConfig p lib) : Type 0 where
    pub metrics : MetricsChecked svc.metrics
    pub logs : LogsChecked svc.logs
    pub operations : All OperationChecked svc.operations

  -- The reference of an operation of a service, or of a configuration.
  abbrev pub NamedIn : String → List (OperationConfig p lib) → String → Type 0
  NamedIn service ops ref = Any (λ op. ref_of service op.name ≡ ref) ops

  abbrev pub Named : List (ServiceConfig p lib) → String → Type 0
  Named svcs ref = Any (λ svc. NamedIn svc.name svc.operations ref) svcs

  logs_checked :
      (lcs : List (LogConfig p lib))
      → each (λ lc. blame part_error (validate_log_config p lib lc)) lcs ≡ ok tt
      → LogsChecked lcs
  unfolding each
  logs_checked [] h = tt
  logs_checked (lc ∷ lcs) h =
      let (first, rest) = >>-ok (blame part_error (validate_log_config p lib lc)) _ h in
      (blame-ok part_error _ first, logs_checked lcs rest)

  note_metrics-checked :
      (scope : String) (mcs : List (MetricConfig p lib)) (names : Dict Bool) (t : Tables p lib)
      (r : Dict Bool × Tables p lib)
      → note_metrics p lib scope mcs names t ≡ ok r
      → MetricsChecked mcs × (r.1.known_ops ≡ t.known_ops)
  unfolding note_metrics
  note_metrics-checked scope [] names t r h = (tt, cc)
  note_metrics-checked scope (mc ∷ mcs) names t r h =
      let (first, h1) = >>-ok (blame part_error (validate_metric_config p lib mc)) _ h in
      let (_, h2) = >>-ok (reject (is_set mc.name names) duplicate_metric) _ h1 in
      let (rest, same) =
        note_metrics-checked scope mcs (insert mc.name true names) (with_metric p lib scope mc t) r
          h2 in
      ((blame-ok part_error _ first, rest), same)

  -- What is known after a loop was known before it, or is one of its references.
  abbrev Adds : (String → Type 0) → Tables p lib → Tables p lib → Type 0
  Adds New t t' =
      (ref : String) → is_set ref t'.known_ops ≡ true → (is_set ref t.known_ops ≡ true) ⊎ New ref

  note_operations-checked :
      (service : String) (ops : List (OperationConfig p lib)) (names : Dict Bool)
      (t t' : Tables p lib)
      → note_operations p lib service ops names t ≡ ok t'
      → All OperationChecked ops × Adds (NamedIn service ops) t t'
  unfolding note_operations
  note_operations-checked service [] names t t' h =
      let same : t ≡ t' = cc in
      (tt, λ ref k. inl (ap (λ (u : Tables p lib). is_set ref u.known_ops) same ∙ k))
  note_operations-checked service (op ∷ ops) names t t' h =
      let (logs, h1) =
        >>-ok (each (λ lc. blame part_error (validate_log_config p lib lc)) op.logs) _ h in
      let (noted, m, h2) =
        >>=-ok (note_metrics p lib (ref_of service op.name) op.metrics names t) _ h1 in
      let (metrics, same) =
        note_metrics-checked (ref_of service op.name) op.metrics names t noted m in
      let (checked, adds) =
        note_operations-checked service ops noted.0
          (with_operation p lib (ref_of service op.name) op.calls noted.1) t' h2 in
      (
        (record { metrics = metrics; logs = logs_checked op.logs logs }, checked),
        λ ref k. elim (adds ref k) [
          | inr later ↦ inr (inr later)
          | inl before ↦
              elim (is_set-insert noted.1.known_ops (ref_of service op.name) ref before) [
                | inl this ↦ inr (inl this)
                | inr older ↦ inl (ap (is_set ref) (sym same) ∙ older)
              ]
        ],
      )

  note_service-checked :
      (svc : ServiceConfig p lib) (t t' : Tables p lib)
      → note_service p lib svc t ≡ ok t'
      → ServiceChecked svc × Adds (NamedIn svc.name svc.operations) t t'
  unfolding note_service
  note_service-checked svc t t' h =
      let (_, h1) = >>-ok (reject (not (is_nonempty svc.operations)) no_operations) _ h in
      let (_, h2) = >>-ok (check_resource_keys svc.resource_attributes) _ h1 in
      let (_, h3) = >>-ok (blame part_error (validate_baggage p lib svc.baggage)) _ h2 in
      let (noted, m, h4) =
        >>=-ok (note_metrics p lib svc.name svc.metrics [] (with_service p lib svc.name t)) _ h3 in
      let (metrics, same) =
        note_metrics-checked svc.name svc.metrics [] (with_service p lib svc.name t) noted m in
      let (logs, h5) =
        >>-ok (each (λ lc. blame part_error (validate_log_config p lib lc)) svc.logs) _ h4 in
      let (operations, adds) =
        note_operations-checked svc.name svc.operations noted.0 noted.1 t' h5 in
      (
        record { metrics = metrics; logs = logs_checked svc.logs logs; operations = operations },
        λ ref k. elim (adds ref k) [
          | inr new ↦ inr new
          | inl before ↦ inl (ap (is_set ref) (sym same) ∙ before)
        ],
      )

  pub note_services-checked :
      (svcs : List (ServiceConfig p lib)) (t t' : Tables p lib)
      → note_services p lib svcs t ≡ ok t'
      → All ServiceChecked svcs × Adds (Named svcs) t t'
  unfolding note_services
  note_services-checked [] t t' h =
      let same : t ≡ t' = cc in
      (tt, λ ref k. inl (ap (λ (u : Tables p lib). is_set ref u.known_ops) same ∙ k))
  note_services-checked (svc ∷ svcs) t t' h =
      let (middle, first, rest) = >>=-ok (note_service p lib svc t) _ h in
      let (checked, adds) = note_service-checked svc t middle first in
      let (all, later) = note_services-checked svcs middle t' rest in
      (
        (checked, all),
        λ ref k. elim (later ref k) [
          | inr new ↦ inr (inr new)
          | inl before ↦ elim (adds ref before) [ inl old ↦ inl old | inr new ↦ inr (inl new) ]
        ],
      )
