-- ===== src/TraceImport/Stats/Others.antt =====
-- pkg/synth/traceimport/stats.go: no operation is recorded as one that calls itself.
use Prim.Native.String
use motel.Prelude.{
  ℕ, ◌≡◌, refl, sym, ap, subst, ◌∙◌, true, false, String, str_eq, eq_iff, List, [], ◌∷◌, none, some,
  Dict, lookup, insert, lookup-insert, All, joined, lookup-update_all, arith, inl, inr, Bool-cases,
  Option-cases,
}
use motel.Platform.{Float64}
use motel.TraceImport.{Span}
use motel.TraceImport.Stats.{
  OpStats, SpanNode, SpanNodes, span_of, ref_of_span, contains_string, Folded, folded_calls,
  CallStats, count_targets, add_target, add_targets, Services, ServiceStats, get_op, get_service,
  record_duration, note_invocation, note_node, collect_from_trees,
}
use motel.TraceImport.Stats.Folds.{folded_calls-new, IsEnough, collect_from_trees-keeps}
use motel.TraceImport.Stats.Sound.{count_targets-IsMap}

-- A name on the path is not among the targets that are counted off the path.
count_targets-none :
    (key : String) (path : List String) (calls : List SpanNode) (m : Dict ℕ)
    → contains_string path key ≡ true
    → All (λ (c : SpanNode). contains_string path (ref_of_span (span_of c)) ≡ false) calls
    → lookup key m ≡ none
    → lookup key (count_targets calls m) ≡ none
unfolding count_targets
count_targets-none key path [] m h new e = e
count_targets-none key path (c ∷ calls) m h new e =
    let target = ref_of_span (span_of c) in
    let differ : str_eq target key ≡ false = elim (Bool-cases (str_eq target key)) [
      | inr q ↦ q
      | inl q ↦
          let clash : true ≡ false =
            sym h ∙ ap (contains_string path) (sym ((eq_iff target key).0 q)) ∙ new.0 in
          ground (arith, clash)
    ] in
    count_targets-none key path calls _ h new.1 (lookup-insert m target key _ ∙ rw differ e)

module _ (fl : Float64) where
  -- The calls of an operation of a service.
  abbrev pub calls_of : String → String → Services fl → Dict CallStats
  calls_of service operation v = (get_op fl operation (get_service fl service v).ops).calls

  -- No operation is among its own calls.
  abbrev pub HasNoSelfCall : Services fl → Type 0
  HasNoSelfCall v =
      (service operation : String)
      → lookup (String.◌++◌ service (String.◌++◌ "." operation)) (calls_of service operation v)
        ≡ none

  note_invocation-none :
      (key : String) (s : Span) (f : Folded) (v : Services fl) (path : List String)
      → contains_string path key ≡ true
      → All (λ (c : SpanNode). contains_string path (ref_of_span (span_of c)) ≡ false) f.calls
      → lookup key (calls_of s.service s.operation v) ≡ none
      → lookup key
          (note_invocation fl s f (get_op fl s.operation (get_service fl s.service v).ops)).calls
        ≡ none
  unfolding note_invocation record_duration add_targets lookup
  note_invocation-none key s f v path here new h =
      lookup-update_all add_target key (count_targets f.calls []) (calls_of s.service s.operation v)
        (count_targets-IsMap f.calls [] tt)
      ∙ ap (joined add_target (lookup key (calls_of s.service s.operation v)))
          (count_targets-none key path f.calls [] here new refl)
      ∙ h

  same_name : (x : String) → str_eq x x ≡ true
  same_name x = (eq_iff x x).1 refl

  note_node-other :
      (s : Span) (f : Folded) (v : Services fl) (service : String)
      → str_eq s.service service ≡ false
      → lookup service (note_node fl s f v) ≡ lookup service v
  unfolding note_node
  note_node-other s f v service e = lookup-insert v s.service service _ ∙ rw e refl

  insert_same {ℓ} :
      {V : Type ℓ} (m : Dict V) (key : String) (value : V)
      → lookup key (insert key value m) ≡ some value
  insert_same m key value = lookup-insert m key key value ∙ rw (same_name key) refl

  -- Equal entries have equal calls.
  get_op-eq :
      (operation : String) (a b : Dict (OpStats fl))
      → lookup operation a ≡ lookup operation b
      → get_op fl operation a ≡ get_op fl operation b
  get_op-eq operation a b e = elim (Option-cases (lookup operation b)) [
    | inl n ↦ rw (get_op, e, n) refl
    | inr (o, n) ↦ rw (get_op, e, n) refl
  ]

  get_service-eq :
      (service : String) (v w : Services fl)
      → lookup service v ≡ lookup service w
      → get_service fl service v ≡ get_service fl service w
  get_service-eq service v w e = elim (Option-cases (lookup service w)) [
    | inl n ↦ rw (get_service, e, n) refl
    | inr (o, n) ↦ rw (get_service, e, n) refl
  ]

  get_service-some :
      (service : String) (v : Services fl) (svc : ServiceStats fl)
      → lookup service v ≡ some svc
      → get_service fl service v ≡ svc
  get_service-some service v svc e = rw (get_service, e) refl

  get_op-some :
      (operation : String) (ops : Dict (OpStats fl)) (o : OpStats fl)
      → lookup operation ops ≡ some o
      → get_op fl operation ops ≡ o
  get_op-some operation ops o e = rw (get_op, e) refl

  note_node-own :
      (s : Span) (f : Folded) (v : Services fl)
      → (svc : ServiceStats fl) × (lookup s.service (note_node fl s f v) ≡ some svc)
        × (svc.ops
            ≡ insert s.operation
                (note_invocation fl s f (get_op fl s.operation (get_service fl s.service v).ops))
                (get_service fl s.service v).ops)
  unfolding note_node
  note_node-own s f v = (_, insert_same v s.service _, refl)

  note_node-HasNoSelfCall :
      (s : Span) (kids : SpanNodes) (path : List String) (v : Services fl)
      → contains_string path (ref_of_span s) ≡ true
      → HasNoSelfCall v
      → HasNoSelfCall (note_node fl s (folded_calls kids path) v)
  unfolding ref_of_span
  note_node-HasNoSelfCall s kids path v here h service operation =
      let f = folded_calls kids path in
      let w = note_node fl s f v in
      let svc = get_service fl s.service v in
      let note = note_invocation fl s f (get_op fl s.operation svc.ops) in
      let free =
        λ (x y : String). lookup (String.◌++◌ x (String.◌++◌ "." y)) (calls_of x y w) ≡ none in
      elim (Bool-cases (str_eq s.service service)) [
        | inr e ↦
            let same = get_service-eq service w v (note_node-other s f v service e) in
            ap
              (λ (u : ServiceStats fl).
                lookup (String.◌++◌ service (String.◌++◌ "." operation))
                  (get_op fl operation u.ops).calls)
              same
            ∙ h service operation
        | inl e ↦
            let (new, mine, ops) = note_node-own s f v in
            let all : (get_service fl s.service w).ops ≡ insert s.operation note svc.ops =
              ap (λ (u : ServiceStats fl). u.ops) (get_service-some s.service w new mine) ∙ ops in
            subst (λ (x : String). free x operation) ((eq_iff s.service service).0 e)
              (elim (Bool-cases (str_eq s.operation operation)) [
                | inr k ↦
                    let there : lookup operation (get_service fl s.service w).ops
                        ≡ lookup operation svc.ops =
                      ap (lookup operation) all
                      ∙ lookup-insert svc.ops s.operation operation note
                      ∙ rw k refl in
                    ap
                      (λ (o : OpStats fl).
                        lookup (String.◌++◌ s.service (String.◌++◌ "." operation)) o.calls)
                      (get_op-eq operation (get_service fl s.service w).ops svc.ops there)
                    ∙ h s.service operation
                | inl k ↦
                    let there : lookup s.operation (get_service fl s.service w).ops ≡ some note =
                      ap (lookup s.operation) all ∙ insert_same svc.ops s.operation note in
                    subst (λ (x : String). free s.service x) ((eq_iff s.operation operation).0 k)
                      (ap (λ (o : OpStats fl). lookup (ref_of_span s) o.calls)
                          (get_op-some s.operation (get_service fl s.service w).ops note there)
                        ∙ note_invocation-none (ref_of_span s) s f v path here
                            (folded_calls-new kids path) (h s.service s.operation))
              ])
      ]

  -- The walk over all trees, with enough fuel, returns statistics in which no operation is among its
  -- own calls.
  pub collect_from_trees-HasNoSelfCall :
      (fuel : ℕ) (trees : List (List SpanNode))
      → IsEnough fuel trees
      → (v : Services fl) × (collect_from_trees fl fuel trees [] ≡ some v) × HasNoSelfCall v
  unfolding lookup
  collect_from_trees-HasNoSelfCall fuel trees h =
      collect_from_trees-keeps fl HasNoSelfCall note_node-HasNoSelfCall fuel trees [] h
        (λ service operation. refl)
