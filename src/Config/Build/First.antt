-- ===== src/Config/Build/First.antt =====
-- pkg/synth/topology.go, BuildTopology: the first pass succeeds on a configuration that the
-- validation accepts.
use motel.Prelude.{
  ℕ, suc, ◌+◌, ◌≡◌, refl, Bool, not, String, List, [], ◌∷◌, Option, none, some, Dict, All, All-map,
  arith, Bool-cases, inl, inr, length,
}
use motel.Prelude.Int.{pos, ltb_ℤ}
use motel.Prelude.Results.{
  ok, reject, blame, unit_of, each, >>-ok, blame-ok, each-All, unit_of-ok, Made, >>=-Made,
  blame-Made, collect-total,
}
use motel.Platform.{Platform}
use motel.Config.{CallError, validate_calls}
use motel.Config.Distributions.{parse_distribution, parse_error_rate}
use motel.Config.Types.{Library, OperationConfig, ServiceConfig}
use motel.Config.Parts.{given, check_attributes, validate_baggage}
use motel.Config.Tables.{
  part_error, text_error, refuse, ref_of, bad_call_style, negative_queue_depth,
}
use motel.Config.Operations.{
  check_error_rate, check_event, check_backpressure, check_circuit_breaker, check_links,
  is_call_style, validate_operation,
}
use motel.Config.Build.{text_error as build_text_error, build_error_rate}
use motel.Config.Build.Parts.{
  check_attributes-total, check_event-Made, resolve_metric-Made, resolve_log-Made,
}
use motel.Config.Build.Known.{OperationChecked, ServiceChecked}
use motel.Config.Build.Passes.{domain_generators, build_operation, build_service, build_services}

module _ (p : Platform) (lib : Library p) where
  open lib use {parse_duration, parse_float}

  -- What the validation of an operation has seen.
  pub record Accepted (known : Dict Bool) (service : String) (op : OperationConfig p lib)
      : Type 0 where
    pub duration :
        unit_of (blame text_error (parse_distribution parse_duration op.duration)) ≡ ok tt
    pub error_rate : check_error_rate p lib op.error_rate ≡ ok tt
    pub attributes : check_attributes p lib op.attributes ≡ ok tt
    pub events : All (λ evt. check_event p lib evt ≡ ok tt) op.events
    pub links : check_links p lib known (ref_of service op.name) op.links [] ≡ ok tt
    pub calls : validate_calls p parse_duration known op.calls ≡ none

  pub refuse-none : (o : Option CallError) → refuse o ≡ ok tt → o ≡ none
  refuse-none none h = refl
  refuse-none (some e) h = cc

  pub validate_operation-Accepted :
      (known : Dict Bool) (service : String) (op : OperationConfig p lib)
      → validate_operation p lib known service op ≡ ok tt
      → Accepted known service op
  unfolding validate_operation
  validate_operation-Accepted known service op h =
      let (duration, h1) =
        >>-ok (unit_of (blame text_error (parse_distribution parse_duration op.duration))) _ h in
      let (error_rate, h2) = >>-ok (check_error_rate p lib op.error_rate) _ h1 in
      let (_, h3) = >>-ok (reject (not (is_call_style p lib op.call_style)) bad_call_style) _ h2 in
      let (attributes, h4) = >>-ok (blame part_error (check_attributes p lib op.attributes)) _ h3 in
      let (_, h5) = >>-ok (blame part_error (validate_baggage p lib op.baggage)) _ h4 in
      let (events, h6) = >>-ok (each (check_event p lib) op.events) _ h5 in
      let (_, h7) = >>-ok (reject (ltb_ℤ op.queue_depth (pos 0)) negative_queue_depth) _ h6 in
      let (_, h8) = >>-ok (check_backpressure p lib op.backpressure) _ h7 in
      let (_, h9) = >>-ok (check_circuit_breaker p lib op.circuit_breaker) _ h8 in
      let (links, calls) =
        >>-ok (check_links p lib known (ref_of service op.name) op.links []) _ h9 in
      record {
        duration = duration;
        error_rate = error_rate;
        attributes = blame-ok part_error _ attributes;
        events = each-All (check_event p lib) op.events events;
        links = links;
        calls = refuse-none _ calls;
      }

  pub build_error_rate-Made :
      (text : String) → check_error_rate p lib text ≡ ok tt → Made (build_error_rate p lib text)
  unfolding check_error_rate build_error_rate
  build_error_rate-Made text h = elim (Bool-cases (given text)) [
    | inr q ↦ rw q (_, refl)
    | inl q ↦
        let parsed = blame text_error (parse_error_rate p parse_float text) in
        let h' : unit_of parsed ≡ ok tt = ground (arith, h, q) in
        let (d, e) = unit_of-ok parsed h' in
        rw q (blame-Made build_text_error _ (d, blame-ok text_error _ e))
  ]

  module _ (resolver : Option (String → Option (Dict p.Gen))) where
    build_operation-Made :
        (known : Dict Bool) (number : ℕ) (svc : ServiceConfig p lib) (op : OperationConfig p lib)
        → Accepted known svc.name op
        → OperationChecked p lib op
        → Made (domain_generators p lib resolver op.domain)
        → Made (build_operation p lib resolver number svc op)
    unfolding build_operation
    build_operation-Made known number svc op a c d =
        let (dist, e) = unit_of-ok _ a.duration in
        >>=-Made _ _ (blame-Made build_text_error _ (dist, blame-ok text_error _ e)) λ _ _.
          >>=-Made _ _ (build_error_rate-Made op.error_rate a.error_rate) λ _ _.
            >>=-Made _ _ d λ base _.
              >>=-Made _ _ (check_attributes-total p lib base op.attributes a.attributes) λ _ _.
                >>=-Made _ _
                  (collect-total _ _ (All-map (resolve_metric-Made p lib) op.metrics c.metrics))
                  λ _ _.
                    >>=-Made _ _
                      (collect-total _ _ (All-map (resolve_log-Made p lib) op.logs c.logs))
                      λ _ _.
                        >>=-Made _ _
                          (collect-total _ _ (All-map (check_event-Made p lib) op.events a.events))
                          λ _ _. (_, refl)

    abbrev pub Domains : List (OperationConfig p lib) → Type 0
    Domains = All (λ op. Made (domain_generators p lib resolver op.domain))

    operations-Made :
        (known : Dict Bool) (number : ℕ) (svc : ServiceConfig p lib)
        (ops : List (OperationConfig p lib))
        → All (Accepted known svc.name) ops
        → All (OperationChecked p lib) ops
        → Domains ops
        → All (λ op. Made (build_operation p lib resolver number svc op)) ops
    operations-Made known number svc [] a c d = tt
    operations-Made known number svc (op ∷ ops) a c d = (
      build_operation-Made known number svc op a.0 c.0 d.0,
      operations-Made known number svc ops a.1 c.1 d.1,
    )

    build_service-Made :
        (known : Dict Bool) (number first : ℕ) (svc : ServiceConfig p lib)
        → All (Accepted known svc.name) svc.operations
        → ServiceChecked p lib svc
        → Domains svc.operations
        → Made (build_service p lib resolver number first svc)
    unfolding build_service
    build_service-Made known number first svc a c d =
        >>=-Made _ _ (collect-total _ _ (All-map (resolve_metric-Made p lib) svc.metrics c.metrics))
          λ _ _.
            >>=-Made _ _ (collect-total _ _ (All-map (resolve_log-Made p lib) svc.logs c.logs))
              λ _ _.
                >>=-Made _ _
                  (collect-total _ _
                    (operations-Made known number svc svc.operations a c.operations d))
                  λ _ _. (_, refl)

    pub build_services-Made :
        (known : Dict Bool) (number first : ℕ) (svcs : List (ServiceConfig p lib))
        → All (λ svc. All (Accepted known svc.name) svc.operations) svcs
        → All (ServiceChecked p lib) svcs
        → All (λ svc. Domains svc.operations) svcs
        → Made (build_services p lib resolver number first svcs)
    unfolding build_services
    build_services-Made known number first [] a c d = (_, refl)
    build_services-Made known number first (svc ∷ svcs) a c d =
        >>=-Made _ _ (build_service-Made known number first svc a.0 c.0 d.0) λ _ _.
          >>=-Made _ _
            (build_services-Made known (suc number) (first + length svc.operations) svcs a.1 c.1
              d.1)
            λ _ _. (_, refl)
