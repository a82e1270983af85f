-- ===== src/Config/Build/CallsMade.antt =====
-- pkg/synth/topology.go and scenario.go: the calls that the validation accepts resolve, where the
-- references that it knows do.
use motel.Prelude.{
  ℕ, ◌≡◌, inl, inr, Bool, true, String, List, [], ◌∷◌, none, some, Dict, All, arith, Option-cases,
}
use motel.Prelude.Results.{Made, demand-Made}
use motel.Platform.{Platform}
use motel.Topology.Types.{Topology}
use motel.Topology.Calls.{is_set}
use motel.Config.{CallConfig, resolve_ref, validate_call_config, validate_calls}
use motel.Config.Calls.{validate_call_config-known, validate_call_config-IsUsable}
use motel.Config.Types.{Library}
use motel.Config.Build.{unresolved_call}
use motel.Config.Build.Passes.{resolve_one_call}

module _ (p : Platform) (lib : Library p) (topo : Topology p) (known : Dict Bool)
    (resolves : (ref : String)
      → is_set ref known ≡ true
      → (op : ℕ) × (resolve_ref p lib.parse_duration topo ref ≡ some op)) where
  open lib use {parse_duration}

  pub calls-Made :
      (calls : List (CallConfig p parse_duration))
      → validate_calls p parse_duration known calls ≡ none
      → All (λ c. Made (resolve_one_call p lib topo c)) calls
  unfolding validate_calls resolve_one_call
  calls-Made [] h = tt
  calls-Made (c ∷ calls) h = elim (Option-cases (validate_call_config p parse_duration known c)) [
    | inr (e, q) ↦ absurd (ground (arith, h, q))
    | inl q ↦
        let (op, found) =
          resolves c.target (validate_call_config-known p parse_duration known c q) in
        let (call, made, _, _) =
          validate_call_config-IsUsable p parse_duration known topo c op q found in
        (demand-Made _ unresolved_call (call, made), calls-Made calls (ground (arith, h, q)))
  ]
