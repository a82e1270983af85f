-- ===== src/Swarm.antt =====
-- pkg/synth/swarm.go: the choices of a topology that a sampled run may force. A decision map is an
-- association list, latest entry first.
pub mod Choices
mod Tests
use motel.Prelude.{
  ℕ, zero, suc, ◌+◌, ◌-◌, ◌*◌, ◌/◌, ◌%◌, Bool, true, false, not, ◌&&◌, ◌||◌, String, str_eq, List,
  [], ◌∷◌, ◌++◌, Option, none, some, Dict, ltb, leb, ◌==◌, if◌then◌else◌, length, get_elem?,
}
use motel.Prelude.Int.{ℤ, pos, negsuc}
use motel.Platform.{Platform}
use motel.Topology.Types.{Topology, Override, Call, Service}
use motel.Topology.Calls.{effective_calls, effective_error_rate}
use motel.Topology.Baggage.{sorted_keys}
use motel.Prelude.Maps

pub data SampleStrategy : Type 0 where
  sample_strategy_random sample_strategy_swarm : SampleStrategy

pub data ChoiceKind : Type 0 where
  call_probability operation_error retry_activation : ChoiceKind

pub record ChoiceKey : Type 0 where
  pub kind : ChoiceKind
  pub operation_ref : String
  pub target_ref : String
  pub call_index : ℤ

abbrev pub ChoiceDecisions : Type 0
ChoiceDecisions = List (ChoiceKey × Bool)

abbrev pub same_kind : ChoiceKind → ChoiceKind → Bool
same_kind call_probability call_probability = true
same_kind operation_error operation_error = true
same_kind retry_activation retry_activation = true
same_kind _ _ = false

abbrev pub same_int : ℤ → ℤ → Bool
same_int (pos a) (pos b) = a == b
same_int (negsuc a) (negsuc b) = a == b
same_int _ _ = false

abbrev pub same_key : ChoiceKey → ChoiceKey → Bool
same_key a b =
    same_kind a.kind b.kind
    && str_eq a.operation_ref b.operation_ref
    && str_eq a.target_ref b.target_ref
    && same_int a.call_index b.call_index

-- The two results of `lookup` as an option.
unfoldable pub lookup_choice : ChoiceKey → ChoiceDecisions → Option Bool
lookup_choice key [] = none
lookup_choice key ((k, v) ∷ d) = if same_key k key then some v else lookup_choice key d

unfoldable pub forced_choice : ChoiceDecisions → ChoiceKind → String → String → ℤ → Option Bool
unfolding lookup_choice
forced_choice d kind operation_ref target_ref call_index =
    lookup_choice
      (record {
        kind = kind;
        operation_ref = operation_ref;
        target_ref = target_ref;
        call_index = call_index;
      })
      d

module _ (p : Platform) where
  open p use {fl, Rng, float_64, int_n}
  open fl use {F, lt, lit}

  unfoldable pub is_choice_rate : F → Bool
  is_choice_rate rate = lt (lit 0 1) rate && lt rate (lit 1 1)

  module _ (topo : Topology p) (overrides : Dict (Override p)) where
    abbrev point_if : Bool → ChoiceKey → List ChoiceKey
    point_if true k = k ∷ []
    point_if false k = []

    call_points : String → ℕ → List (Call p) → List ChoiceKey
    call_points ref i [] = []
    call_points ref i (c ∷ cs) =
        let target = (topo.operation c.operation).ref in
        let here =
          point_if (is_choice_rate c.probability) (record {
            kind = call_probability;
            operation_ref = ref;
            target_ref = target;
            call_index = pos i;
          })
          ++ point_if (ltb 0 c.retries) (record {
            kind = retry_activation;
            operation_ref = ref;
            target_ref = target;
            call_index = pos i;
          }) in
        here ++ call_points ref (i + 1) cs

    operation_points : ℕ → List ChoiceKey
    unfolding call_points
    operation_points op =
        let ref = (topo.operation op).ref in
        point_if (is_choice_rate (effective_error_rate p topo op overrides)) (record {
          kind = operation_error;
          operation_ref = ref;
          target_ref = "";
          call_index = negsuc 0;
        })
        ++ call_points ref 0 (effective_calls p topo op overrides)

    -- A loop over sorted keys, at the ids that the keys have in a map.
    points_of : (ℕ → List ChoiceKey) → Dict ℕ → List String → List ChoiceKey
    points_of f m [] = []
    points_of f m (k ∷ ks) =
        let rest = points_of f m ks in
        elim (Maps.lookup k m) [ some id ↦ f id ++ rest | none ↦ rest ]

    unfoldable pub enumerate_choice_points : List ChoiceKey
    unfolding points_of operation_points
    enumerate_choice_points =
        points_of
          (λ svc.
            points_of operation_points (topo.service svc).operations
              (sorted_keys (topo.service svc).operations))
          topo.services (sorted_keys topo.services)

  -- One decision for each point, by its key.
  unfoldable pub decide_all :
      (ChoiceKey → Bool) → List ChoiceKey → ChoiceDecisions → ChoiceDecisions
  decide_all f [] d = d
  decide_all f (k ∷ ks) d = decide_all f ks ((k, f k) ∷ d)

  -- The random decisions: each point is fixed with probability 0.35, on an even draw to true.
  unfoldable pub decide_some : List ChoiceKey → ChoiceDecisions → Rng → ChoiceDecisions × Rng
  decide_some [] d g = (d, g)
  decide_some (k ∷ ks) d g =
      let (x, g1) = float_64 g in
      let (n, g2) = int_n 2 g1 in
      if lt x (lit 35 100) then decide_some ks ((k, n == 0) ∷ d) g2 else decide_some ks d g1

  abbrev pub is_operation_error : ChoiceKey → Bool
  is_operation_error k = same_kind k.kind operation_error

  -- The directed choice of run 3 + 2 i (enabled) and 3 + 2 i + 1 (disabled) is point i.
  unfoldable pub direct : List ChoiceKey → ℕ → ChoiceDecisions → ChoiceDecisions
  direct points directed d = elim (get_elem? points (directed / 2)) [
    | some k ↦ (k, directed % 2 == 0) ∷ d
    | none ↦ d
  ]

  unfoldable pub swarm_choices : List ChoiceKey → ℕ → Rng → ChoiceDecisions × Rng
  unfolding decide_all decide_some direct
  swarm_choices [] run g = ([], g)
  swarm_choices (k ∷ ks) zero g = (decide_all (λ _. true) (k ∷ ks) [], g)
  swarm_choices (k ∷ ks) (suc zero) g =
      (decide_all (λ c. not (is_operation_error c)) (k ∷ ks) [], g)
  swarm_choices (k ∷ ks) (suc (suc zero)) g = (decide_all (λ _. false) (k ∷ ks) [], g)
  swarm_choices (k ∷ ks) (suc (suc (suc directed))) g =
      let (d, g') = decide_some (k ∷ ks) [] g in (direct (k ∷ ks) directed d, g')
