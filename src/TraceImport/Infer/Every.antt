-- ===== src/TraceImport/Infer/Every.antt =====
-- pkg/synth/traceimport/infer.go, inferServiceAttributes: the two loops together.
use motel.Prelude.{
  ℕ, ◌+◌, ◌≡◌, refl, sym, ap, subst, ◌∙◌, ◌↔◌, true, ◌&&◌, String, str_eq, eq_iff, List, [], ◌∷◌,
  Option, none, some, Dict, lookup, insert, lookup-insert, IsMap, insert-IsMap, if◌then◌else◌, ◌==◌,
  All, Any, arith, inl, inr, ◌⊎◌, Bool-cases,
}
use motel.TraceImport.{Span}
use motel.TraceImport.Infer.{
  AttrAccum, Accums, count_at, accum_at, note_span, note_spans, constant_attributes,
  collect_services, infer_service_attributes,
}
use motel.TraceImport.Infer.Constant.{
  OfService, at, Passes, IsWithin, IsFresh, after, Passes-after, after-IsWithin, note_span-other,
  note_span-own, note_attributes-IsMap,
}

module _ (svc k v : String) where
  abbrev number : Accums → ℕ
  number m = count_at svc m.svc_counts

  abbrev Passed : Accums → Type 0
  Passed m = Passes v (number m) (at svc k m)

  abbrev Fresh : Accums → Type 0
  Fresh m = IsFresh (number m) (at svc k m)

  abbrev Within : Accums → Type 0
  Within m = IsWithin (number m) (at svc k m)

  -- Every span of the service has the value.
  abbrev pub HasValue : Span → Type 0
  HasValue s = s.service ≡ svc → lookup k s.attributes ≡ some v

  carry :
      (P : ℕ → Option AttrAccum → Type 0) (n n' : ℕ) (o o' : Option AttrAccum)
      → n ≡ n'
      → o ≡ o'
      → P n o
      → P n' o'
  carry P n n' o o' e f h = subst (P n') f (subst (λ x. P x o) e h)

  -- One span, of whatever service.
  note_span-Passed :
      (s : Span) (m : Accums)
      → IsMap s.attributes
      → Within m
      → Within (note_span s m)
        × (Passed (note_span s m) ↔ (HasValue s × (Passed m ⊎ (Fresh m × OfService svc s))))
        × (Fresh (note_span s m) ↔ (Fresh m × ¬ OfService svc s))
  note_span-Passed s m h w = elim (Bool-cases (str_eq s.service svc)) [
    | inl q ↦
        let e = (eq_iff s.service svc).0 q in
        let (a, n) = note_span-own svc k s m h e in
        let (to, from) = Passes-after v (number m) (at svc k m) (lookup k s.attributes) w in
        (
          carry IsWithin _ _ _ _ (sym n) (sym a) (after-IsWithin (number m) (at svc k m) _ w),
          (
            (λ x.
                let (x0, x1) = to (carry (Passes v) _ _ _ _ n a x) in
                ((λ _. x0), elim x1 [ inl y ↦ inl y | inr y ↦ inr (y, e) ])),
            λ x.
                carry (Passes v) _ _ _ _ (sym n) (sym a)
                  (from (x.0 e, elim (x.1) [ inl y ↦ inl y | inr y ↦ inr y.0 ])),
          ),
          (
            (λ x. absurd (
                never (number m) (at svc k m) (lookup k s.attributes)
                  (carry IsFresh _ _ _ _ n a x))),
            λ x. absurd (x.1 e),
          ),
        )
    | inr q ↦
        let other : ¬ OfService svc s =
          λ e. absurd (ground (arith, q, (eq_iff s.service svc).1 e)) in
        let (a, n) = note_span-other svc k s m other in
        (
          carry IsWithin _ _ _ _ (sym n) (sym a) w,
          (
            (λ x. ((λ e. absurd (other e)), inl (carry (Passes v) _ _ _ _ n a x))),
            λ x.
                carry (Passes v) _ _ _ _ (sym n) (sym a)
                  (elim (x.1) [ inl y ↦ y | inr y ↦ absurd (other y.1) ]),
          ),
          (
            (λ x. (carry IsFresh _ _ _ _ n a x, other)),
            λ x. carry IsFresh _ _ _ _ (sym n) (sym a) x.0,
          ),
        )
  ]
    where
      never : (n : ℕ) (o : Option AttrAccum) (w : Option String) → ¬ IsFresh (n + 1) (after o w)
      never n none none h = omega (arith, h)
      never n none (some x) h = h
      never n (some a) none h = h
      never n (some a) (some x) h = h

  own_or_not : (s : Span) → OfService svc s ⊎ (¬ OfService svc s)
  own_or_not s = elim (Bool-cases (str_eq s.service svc)) [
    | inl q ↦ inl ((eq_iff s.service svc).0 q)
    | inr q ↦ inr (λ e. absurd (ground (arith, q, (eq_iff s.service svc).1 e)))
  ]

  note_spans-Passed :
      (spans : List Span) (m : Accums)
      → All (λ (s : Span). IsMap s.attributes) spans
      → Within m
      → Passed (note_spans spans m)
        ↔ (All HasValue spans × (Passed m ⊎ (Fresh m × Any (OfService svc) spans)))
  unfolding note_spans
  note_spans-Passed [] m h w =
      ((λ x. (tt, inl x)), λ x. elim (x.1) [ inl y ↦ y | inr y ↦ absurd y.1 ])
  note_spans-Passed (s ∷ spans) m h w =
      let (w', (to, from), (fresh, refresh)) = note_span-Passed s m h.0 w in
      let (to_rest, from_rest) = note_spans-Passed spans (note_span s m) h.1 w' in
      (
        (λ x.
            let (all, y) = to_rest x in
            elim y [
              | inl passed ↦
                  let (has, z) = to passed in
                  ((has, all), elim z [ inl u ↦ inl u | inr u ↦ inr (u.0, inl u.1) ])
              | inr later ↦
                  let (f, other) = fresh later.0 in
                  (((λ e. absurd (other e)), all), inr (f, inr later.1))
            ]),
        λ x. from_rest (
          x.0.1,
          elim (x.1) [
            | inl passed ↦ inl (from (x.0.0, inl passed))
            | inr first ↦ elim (own_or_not s) [
              | inl own ↦ inl (from (x.0.0, inr (first.0, own)))
              | inr other ↦ inr (
                refresh (first.0, other),
                elim (first.1) [ inl own ↦ absurd (other own) | inr any ↦ any ],
              )
            ]
          ],
        ),
      )

abbrev kept : ℕ → Option AttrAccum → Option String
kept total none = none
kept total (some a) = if a.constant && a.count == total then some a.value else none

lookup-constant_attributes :
    (k : String) (total : ℕ) (accum : Dict AttrAccum)
    → IsMap accum
    → lookup k (constant_attributes total accum) ≡ kept total (lookup k accum)
unfolding constant_attributes lookup
lookup-constant_attributes k total [] h = refl
lookup-constant_attributes k total ((j, a) ∷ accum) h =
    let same = λ (q : str_eq j k ≡ true). ap (λ x. lookup x accum) ((eq_iff j k).0 q) in
    ground (arith, same, h.0, lookup-constant_attributes k total accum h.1)

abbrev pub attributes_at : String → Dict (Dict String) → Dict String
attributes_at svc m = elim (lookup svc m) [ some attrs ↦ attrs | none ↦ [] ]

attributes_at-collect_services :
    (svc : String) (counts : Dict ℕ) (accums : Dict (Dict AttrAccum))
    → IsMap accums
    → attributes_at svc (collect_services counts accums)
      ≡ constant_attributes (count_at svc counts) (accum_at svc accums)
unfolding collect_services lookup constant_attributes
attributes_at-collect_services svc counts [] h = refl
attributes_at-collect_services svc counts ((s, accum) ∷ accums) h =
    let rest = attributes_at-collect_services svc counts accums h.1 in
    let same = λ (q : str_eq s svc ≡ true). ap (λ x. lookup x accums) ((eq_iff s svc).0 q) in
    let counted = λ (q : str_eq s svc ≡ true). ap (λ x. count_at x counts) ((eq_iff s svc).0 q) in
    ground (arith, same, counted, h.0, rest)

-- The maps of the first loop have distinct keys.
pub record AreMaps (m : Accums) : Type 0 where
  pub outer : IsMap m.svc_accum
  pub inner : (svc : String) → IsMap (accum_at svc m.svc_accum)

accum_at-insert-IsMap :
    (svc s : String) (a : Dict AttrAccum) (accums : Dict (Dict AttrAccum))
    → IsMap a
    → IsMap (accum_at svc accums)
    → IsMap (accum_at svc (insert s a accums))
accum_at-insert-IsMap svc s a accums h k = elim (Bool-cases (str_eq s svc)) [
  | inl q ↦ subst IsMap (sym (ground (arith, lookup-insert accums s svc a, q))) h
  | inr q ↦ subst IsMap (sym (ground (arith, lookup-insert accums s svc a, q))) k
]

note_spans-AreMaps : (spans : List Span) (m : Accums) → AreMaps m → AreMaps (note_spans spans m)
unfolding note_spans note_span
note_spans-AreMaps [] m h = h
note_spans-AreMaps (s ∷ spans) m h =
    let own =
      note_attributes-IsMap (accum_at s.service m.svc_accum) s.attributes (h.inner s.service) in
    note_spans-AreMaps spans (note_span s m) (record {
      outer = insert-IsMap m.svc_accum s.service _ h.outer;
      inner = λ svc. accum_at-insert-IsMap svc s.service _ m.svc_accum own (h.inner svc);
    })

abbrev pub no_accums : Accums
no_accums = record { svc_accum = []; svc_counts = [] }

no_accums-AreMaps : AreMaps no_accums
unfolding lookup
no_accums-AreMaps = record { outer = tt; inner = λ svc. tt }

kept-Passes :
    (v : String) (total : ℕ) (o : Option AttrAccum) → (kept total o ≡ some v) ↔ Passes v total o
kept-Passes v total none = ((λ x. ground (arith, x)), λ x. absurd x)
kept-Passes v total (some a) = ((λ x. ground (arith, x)), λ x. ground (arith, x))

-- An attribute is inferred for a service, with a value, exactly if the service has a span and each
-- of its spans has the attribute with that value. The attributes of a span are a map.
pub infer_service_attributes-HasValue :
    (svc k v : String) (spans : List Span)
    → All (λ (s : Span). IsMap s.attributes) spans
    → (lookup k (attributes_at svc (infer_service_attributes spans)) ≡ some v)
      ↔ (All (HasValue svc k v) spans × Any (OfService svc) spans)
unfolding infer_service_attributes lookup
infer_service_attributes-HasValue svc k v spans h =
    let m = note_spans spans no_accums in
    let maps = note_spans-AreMaps spans no_accums no_accums-AreMaps in
    let found =
      ap (lookup k) (attributes_at-collect_services svc m.svc_counts m.svc_accum maps.outer)
      ∙ lookup-constant_attributes k (count_at svc m.svc_counts) (accum_at svc m.svc_accum)
          (maps.inner svc) in
    let (to, from) = kept-Passes v (count_at svc m.svc_counts) (at svc k m) in
    let (all, back) = note_spans-Passed svc k v spans no_accums h tt in
    (
      (λ x.
          let (each, start) = all (to (sym found ∙ x)) in
          (each, elim start [ inl y ↦ absurd y | inr y ↦ y.1 ])),
      λ x. found ∙ from (back (x.0, inr (refl, x.1))),
    )
