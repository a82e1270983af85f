-- ===== src/Scenarios/Resolve.antt =====
-- pkg/synth/scenario.go, ResolveOverrides: the overrides of several active scenarios in one. An
-- empty list stands for a nil map or slice. The result is modelled as it stands when the call
-- returns; that its RemoveCalls map is shared with a scenario, and grows there too, is not.
use motel.Prelude.{
  ◌≡◌, refl, ap, ◌∙◌, true, false, String, str_eq, eq_iff, List, [], ◌∷◌, ◌++◌, Option, none, some,
  Dict, lookup, insert, lookup-insert, IsMap, if◌then◌else◌, arith, All, Option-cases, inl, inr,
  ◌⊎◌,
}
use motel.Prelude.Int.{ltb_ℤ, pos}
use motel.Platform.{Platform}
use motel.Topology.Types.{Override, Scenario, Attribute}
use motel.Topology.Attributes.{merge}

-- maps.Copy
unfoldable pub copy {ℓ} : {V : Type ℓ} → Dict V → Dict V → Dict V
copy base [] = base
copy base ((k, v) ∷ over) = copy (insert k v base) over

module _ (p : Platform) where
  open p use {fl}

  -- A later override over an earlier one: the fields that it sets win or are added.
  unfoldable pub merge_override : Override p → Override p → Override p
  unfolding copy
  merge_override existing ov = record {
    duration = if ltb_ℤ (pos 0) ov.duration.mean then ov.duration else existing.duration;
    error_rate = if ov.has_error_rate then ov.error_rate else existing.error_rate;
    has_error_rate = if ov.has_error_rate then true else existing.has_error_rate;
    attributes = elim (ov.attributes) as (λ _. List (Attribute p)) [
      | [] ↦ existing.attributes
      | _ ∷ _ ↦ merge p existing.attributes ov.attributes
    ];
    add_calls = existing.add_calls ++ ov.add_calls;
    remove_calls = copy existing.remove_calls ov.remove_calls;
    metrics = copy existing.metrics ov.metrics;
    add_logs = existing.add_logs ++ ov.add_logs;
    disable_logs = if ov.disable_logs then true else existing.disable_logs;
  }

  -- One entry of a scenario, against what is merged so far.
  unfoldable pub absorb : String → Override p → Dict (Override p) → Dict (Override p)
  unfolding merge_override
  absorb ref ov merged = elim (lookup ref merged) [
    | none ↦ insert ref ov merged
    | some existing ↦ insert ref (merge_override existing ov) merged
  ]

  unfoldable pub absorb_all : Dict (Override p) → Dict (Override p) → Dict (Override p)
  unfolding absorb
  absorb_all [] merged = merged
  absorb_all ((ref, ov) ∷ overrides) merged = absorb_all overrides (absorb ref ov merged)

  unfoldable pub resolve_from : Dict (Override p) → List (Scenario p) → Dict (Override p)
  unfolding absorb_all
  resolve_from merged [] = merged
  resolve_from merged (sc ∷ active) = resolve_from (absorb_all sc.overrides merged) active

  unfoldable pub resolve_overrides : List (Scenario p) → Dict (Override p)
  unfolding resolve_from
  resolve_overrides active = resolve_from [] active

  -- One reference alone: an override joins what there is.
  abbrev pub join : Option (Override p) → Option (Override p) → Option (Override p)
  join old none = old
  join none (some ov) = some ov
  join (some existing) (some ov) = some (merge_override existing ov)

  -- The override of one reference, over the scenarios in their order.
  abbrev pub combined : String → Option (Override p) → List (Scenario p) → Option (Override p)
  combined ref old [] = old
  combined ref old (sc ∷ active) = combined ref (join old (lookup ref sc.overrides)) active

  lookup-absorb :
      (ref key : String) (ov : Override p) (merged : Dict (Override p))
      → lookup ref (absorb key ov merged)
        ≡ (if str_eq key ref then join (lookup ref merged) (some ov) else lookup ref merged)
  unfolding absorb
  lookup-absorb ref key ov merged =
      let same = λ (q : str_eq key ref ≡ true). ap (λ k. lookup k merged) ((eq_iff key ref).0 q) in
      elim (Option-cases (lookup key merged)) [
        | inl e ↦ rw (e, absorb) (ground (arith, same, lookup-insert merged key ref ov))
        | inr (old, e) ↦
            rw (e, absorb)
              (ground (arith, same, lookup-insert merged key ref (merge_override old ov)))
      ]

  lookup-absorb_all :
      (ref : String) (overrides merged : Dict (Override p))
      → IsMap overrides
      → lookup ref (absorb_all overrides merged) ≡ join (lookup ref merged) (lookup ref overrides)
  unfolding absorb_all lookup
  lookup-absorb_all ref [] merged h = refl
  lookup-absorb_all ref ((key, ov) ∷ overrides) merged h =
      let same =
        λ (q : str_eq key ref ≡ true). ap (λ k. lookup k overrides) ((eq_iff key ref).0 q) in
      ground (
        arith,
        same,
        h.0,
        lookup-absorb ref key ov merged,
        lookup-absorb_all ref overrides (absorb key ov merged) h.1,
      )

  lookup-resolve_from :
      (ref : String) (active : List (Scenario p)) (merged : Dict (Override p))
      → All (λ (sc : Scenario p). IsMap sc.overrides) active
      → lookup ref (resolve_from merged active) ≡ combined ref (lookup ref merged) active
  unfolding resolve_from
  lookup-resolve_from ref [] merged h = refl
  lookup-resolve_from ref (sc ∷ active) merged h =
      lookup-resolve_from ref active (absorb_all sc.overrides merged) h.1
      ∙ ap (λ old. combined ref old active) (lookup-absorb_all ref sc.overrides merged h.0)

  -- References are resolved independently: the override of a reference is the first scenario's that
  -- has one, with the overrides of the same reference in the later scenarios merged over it in
  -- their order, and a reference that no scenario overrides has none. Keys of a map are distinct.
  pub lookup-resolve_overrides :
      (ref : String) (active : List (Scenario p))
      → All (λ (sc : Scenario p). IsMap sc.overrides) active
      → lookup ref (resolve_overrides active) ≡ combined ref none active
  unfolding resolve_overrides lookup
  lookup-resolve_overrides ref active h = lookup-resolve_from ref active [] h

  -- The scenario sets no error rate for the reference.
  abbrev pub SetsNoRate : String → Scenario p → Type 0
  SetsNoRate ref sc =
      (lookup ref sc.overrides ≡ none)
      ⊎ ((ov : Override p) × (lookup ref sc.overrides ≡ some ov) × (ov.has_error_rate ≡ false))

  -- The rate that an optional override sets, if it sets one.
  abbrev pub RateIs : fl.F → Option (Override p) → Type 0
  RateIs r none = ⊥
  RateIs r (some ov) = (ov.has_error_rate ≡ true) × (ov.error_rate ≡ r)

  join_keeps_rate :
      (r : fl.F) (ref : String) (sc : Scenario p) (old : Option (Override p))
      → SetsNoRate ref sc
      → RateIs r old
      → RateIs r (join old (lookup ref sc.overrides))
  unfolding merge_override
  join_keeps_rate r ref sc none n h = absurd h
  join_keeps_rate r ref sc (some ov) (inl e) h = rw e h
  join_keeps_rate r ref sc (some ov) (inr (o, e, q)) h = rw e (ground arith)

  combined_keeps_rate :
      (r : fl.F) (ref : String) (ys : List (Scenario p)) (old : Option (Override p))
      → All (SetsNoRate ref) ys
      → RateIs r old
      → RateIs r (combined ref old ys)
  combined_keeps_rate r ref [] old n h = h
  combined_keeps_rate r ref (y ∷ ys) old n h =
      combined_keeps_rate r ref ys (join old (lookup ref y.overrides)) n.1
        (join_keeps_rate r ref y old n.0 h)

  combined-append :
      (ref : String) (xs ys : List (Scenario p)) (old : Option (Override p))
      → combined ref old (xs ++ ys) ≡ combined ref (combined ref old xs) ys
  combined-append ref [] ys old = refl
  combined-append ref (x ∷ xs) ys old =
      combined-append ref xs ys (join old (lookup ref x.overrides))

  join_sets_rate :
      (old : Option (Override p)) (ov : Override p)
      → ov.has_error_rate ≡ true
      → RateIs ov.error_rate (join old (some ov))
  unfolding merge_override
  join_sets_rate none ov h = (h, refl)
  join_sets_rate (some o) ov h = ground arith

  -- The last scenario that sets an error rate for a reference decides it, whatever the earlier and
  -- later scenarios say about other fields. Keys of a map are distinct.
  pub resolve_overrides-RateIs :
      (ref : String) (xs ys : List (Scenario p)) (sc : Scenario p) (ov : Override p)
      → All (λ (s : Scenario p). IsMap s.overrides) (xs ++ sc ∷ ys)
      → lookup ref sc.overrides ≡ some ov
      → ov.has_error_rate ≡ true
      → All (SetsNoRate ref) ys
      → RateIs ov.error_rate (lookup ref (resolve_overrides (xs ++ sc ∷ ys)))
  resolve_overrides-RateIs ref xs ys sc ov maps e h n =
      rw
        (
          lookup-resolve_overrides ref (xs ++ sc ∷ ys) maps,
          combined-append ref xs (sc ∷ ys) none,
          e,
        )
        (combined_keeps_rate ov.error_rate ref ys _ n (join_sets_rate (combined ref none xs) ov h))
