-- ===== src/TraceImport/Infer/Constant.antt =====
-- pkg/synth/traceimport/infer.go: an inferred attribute is one that every span of the service has,
-- with one value.
use mathlib.Core.Option.{some-injective}
use motel.Prelude.{
  ℕ, ◌+◌, ◌≤◌, ◌≡◌, refl, sym, ap, subst, ◌∙◌, ◌↔◌, Bool, true, false, String, str_eq, eq_iff, [],
  ◌∷◌, Option, none, some, Dict, lookup, insert, lookup-insert, IsMap, insert-IsMap, if◌then◌else◌,
  arith, inl, inr, ◌⊎◌, Option-cases,
}
use motel.TraceImport.{Span}
use motel.TraceImport.Infer.{
  AttrAccum, first_seen, seen_again, note_attribute, note_attributes, Accums, count_at, accum_at,
  note_span,
}

-- One attribute alone: what a further value, and what a span with or without it, makes of it.
abbrev step : String → Option AttrAccum → AttrAccum
step v none = first_seen v
step v (some a) = seen_again v a

abbrev pub after : Option AttrAccum → Option String → Option AttrAccum
after o none = o
after o (some v) = some (step v o)

lookup-note_attribute :
    (k j v : String) (accum : Dict AttrAccum)
    → lookup k (note_attribute accum j v)
      ≡ (if str_eq j k then some (step v (lookup k accum)) else lookup k accum)
unfolding note_attribute
lookup-note_attribute k j v accum =
    let same = λ (q : str_eq j k ≡ true). ap (λ x. lookup x accum) ((eq_iff j k).0 q) in
    elim (Option-cases (lookup j accum)) [
      | inl e ↦
          rw (e, note_attribute) (ground (arith, same, e, lookup-insert accum j k (first_seen v)))
      | inr (a, e) ↦
          rw (e, note_attribute) (ground (arith, same, e, lookup-insert accum j k (seen_again v a)))
    ]

lookup-note_attributes :
    (k : String) (accum : Dict AttrAccum) (attrs : Dict String)
    → IsMap attrs
    → lookup k (note_attributes accum attrs) ≡ after (lookup k accum) (lookup k attrs)
unfolding note_attributes lookup
lookup-note_attributes k accum [] h = refl
lookup-note_attributes k accum ((j, v) ∷ attrs) h =
    let same = λ (q : str_eq j k ≡ true). ap (λ x. lookup x attrs) ((eq_iff j k).0 q) in
    ground (
      arith,
      same,
      h.0,
      lookup-note_attribute k j v accum,
      lookup-note_attributes k (note_attribute accum j v) attrs h.1,
    )

note_attribute-IsMap :
    (j v : String) (accum : Dict AttrAccum) → IsMap accum → IsMap (note_attribute accum j v)
unfolding note_attribute
note_attribute-IsMap j v accum h = elim (Option-cases (lookup j accum)) [
  | inl e ↦ rw (e, note_attribute) (insert-IsMap accum j (first_seen v) h)
  | inr (a, e) ↦ rw (e, note_attribute) (insert-IsMap accum j (seen_again v a) h)
]

pub note_attributes-IsMap :
    (accum : Dict AttrAccum) (attrs : Dict String)
    → IsMap accum
    → IsMap (note_attributes accum attrs)
unfolding note_attributes
note_attributes-IsMap accum [] h = h
note_attributes-IsMap accum ((k, v) ∷ attrs) h =
    note_attributes-IsMap (note_attribute accum k v) attrs (note_attribute-IsMap k v accum h)

abbrev pub OfService : String → Span → Type 0
OfService svc s = s.service ≡ svc

-- The accumulator of one attribute of one service.
abbrev pub at : String → String → Accums → Option AttrAccum
at svc k m = lookup k (accum_at svc m.svc_accum)

-- The value passes the test at the end: constant, and on as many spans as the service has.
abbrev pub Passes : String → ℕ → Option AttrAccum → Type 0
Passes v n none = ⊥
Passes v n (some a) = (a.constant ≡ true) × (a.count ≡ n) × (a.value ≡ v)

-- No span of the service was seen.
abbrev pub IsFresh : ℕ → Option AttrAccum → Type 0
IsFresh n none = n ≡ 0
IsFresh n (some a) = ⊥

abbrev pub IsWithin : ℕ → Option AttrAccum → Type 0
IsWithin n none = Unit
IsWithin n (some a) = (1 ≤ a.count) × (a.count ≤ n)

pub after-IsWithin :
    (n : ℕ) (o : Option AttrAccum) (w : Option String) → IsWithin n o → IsWithin (n + 1) (after o w)
after-IsWithin n none none h = tt
after-IsWithin n none (some v) h = (omega arith, omega arith)
after-IsWithin n (some a) none h = (h.0, omega (arith, h.1))
after-IsWithin n (some a) (some v) h = (omega arith, omega (arith, h.1))

-- One more span of the service.
pub Passes-after :
    (v : String) (n : ℕ) (o : Option AttrAccum) (w : Option String)
    → IsWithin n o
    → Passes v (n + 1) (after o w) ↔ ((w ≡ some v) × (Passes v n o ⊎ IsFresh n o))
Passes-after v n none none h = ((λ x. absurd x), λ x. ground (arith, x))
Passes-after v n none (some x) h = (
  (λ q. (ap some q.2, inr (omega (arith, q)))),
  λ q. (refl, ground (arith, q), some-injective x v q.0),
)
Passes-after v n (some a) none h = ((λ q. absurd (omega (arith, h.1, q.1))), λ x. ground (arith, x))
Passes-after v n (some a) (some x) h = (
  (λ q.
      let (c, e) = still a.constant a.value x q.0 in
      (ap some (sym e ∙ q.2), inl (c, omega (arith, q.1), q.2))),
  λ q.
      let (e, or) = q in
      elim or [
        | inl (c, m, u) ↦ (
          rw (c, (eq_iff a.value x).1 (u ∙ sym (some-injective x v e))) refl,
          omega (arith, m),
          u,
        )
        | inr f ↦ absurd f
      ],
)
  where
    still :
        (c : Bool) (u x : String) → (if str_eq u x then c else false) ≡ true → (c ≡ true) × (u ≡ x)
    still c u x q = ground (arith, q, eq_iff u x)

count_at-insert :
    (svc key : String) (n : ℕ) (counts : Dict ℕ)
    → count_at svc (insert key n counts) ≡ (if str_eq key svc then n else count_at svc counts)
count_at-insert svc key n counts = ground (arith, lookup-insert counts key svc n)

accum_at-insert :
    (svc key : String) (a : Dict AttrAccum) (m : Dict (Dict AttrAccum))
    → accum_at svc (insert key a m) ≡ (if str_eq key svc then a else accum_at svc m)
accum_at-insert svc key a m = ground (arith, lookup-insert m key svc a)

-- What a span of another service, and one of this service, changes.
pub note_span-other :
    (svc k : String) (s : Span) (m : Accums)
    → ¬ OfService svc s
    → (at svc k (note_span s m) ≡ at svc k m)
      × (count_at svc (note_span s m).svc_counts ≡ count_at svc m.svc_counts)
unfolding note_span
note_span-other svc k s m h =
    let no : str_eq s.service svc ≡ false = differ s.service svc h in
    (
      ap (lookup k) (accum_at-insert svc s.service _ m.svc_accum ∙ rw no refl),
      count_at-insert svc s.service _ m.svc_counts ∙ rw no refl,
    )
  where
    differ : (a b : String) → ¬ a ≡ b → str_eq a b ≡ false
    differ a b n = ground (arith, n, eq_iff a b)

note_span-itself :
    (k : String) (s : Span) (m : Accums)
    → IsMap s.attributes
    → (at s.service k (note_span s m) ≡ after (at s.service k m) (lookup k s.attributes))
      × (count_at s.service (note_span s m).svc_counts ≡ count_at s.service m.svc_counts + 1)
unfolding note_span
note_span-itself k s m h =
    let yes = (eq_iff s.service s.service).1 refl in
    (
      ap (lookup k) (accum_at-insert s.service s.service _ m.svc_accum ∙ rw yes refl)
          ∙ lookup-note_attributes k (accum_at s.service m.svc_accum) s.attributes h,
      count_at-insert s.service s.service _ m.svc_counts ∙ rw yes refl,
    )

pub note_span-own :
    (svc k : String) (s : Span) (m : Accums)
    → IsMap s.attributes
    → OfService svc s
    → (at svc k (note_span s m) ≡ after (at svc k m) (lookup k s.attributes))
      × (count_at svc (note_span s m).svc_counts ≡ count_at svc m.svc_counts + 1)
note_span-own svc k s m h e =
    subst
      (λ x.
        (at x k (note_span s m) ≡ after (at x k m) (lookup k s.attributes))
        × (count_at x (note_span s m).svc_counts ≡ count_at x m.svc_counts + 1))
      e (note_span-itself k s m h)
