-- ===== src/Topology/Cycles/Steps.antt =====
-- pkg/synth/topology.go, detectCycles: what one visit does, case by case.
use motel.Prelude.{ℕ, suc, ◌≡◌, refl, true, false, List, [], ◌∷◌, All, inl, inr, ◌⊎◌}
use motel.Platform.{Platform}
use motel.Topology.Types.{Topology, Call}
use motel.Topology.Acyclic.{mem}
use motel.Topology.Cycles.{Visit, visited, cycle_detected, out_of_fuel, visit_calls, close, visit}

pub Visit-cases :
    (r : Visit)
    → ((d : List ℕ) × (r ≡ visited d)) ⊎ (((o : ℕ) × (r ≡ cycle_detected o)) ⊎ (r ≡ out_of_fuel))
Visit-cases (visited d) = inl (d, refl)
Visit-cases (cycle_detected o) = inr (inl (o, refl))
Visit-cases out_of_fuel = inr (inr refl)

pub visited-injective : (d e : List ℕ) → visited d ≡ visited e → d ≡ e
visited-injective d e h = cc

pub not_cycle : (o : ℕ) (d : List ℕ) → ¬ cycle_detected o ≡ visited d
not_cycle o d h = cc

pub not_out : (d : List ℕ) → ¬ out_of_fuel ≡ visited d
not_out d h = cc

module _ (p : Platform) (topo : Topology p) where
  abbrev pub calls_of : ℕ → List (Call p)
  calls_of op = (topo.operation op).calls

  pub All-mono :
      {P Q : Call p → Type 0}
      → ((c : Call p) → P c → Q c)
      → (calls : List (Call p)) → All P calls
      → All Q calls
  All-mono f [] h = tt
  All-mono f (c ∷ calls) h = (f c h.0, All-mono f calls h.1)

  pub on_path :
      (fuel : ℕ) (path : List ℕ) (op : ℕ) (before : List ℕ)
      → mem op path ≡ true
      → visit p topo (suc fuel) path op before ≡ cycle_detected op
  unfolding visit
  on_path fuel path op before q = rw (q, visit) refl

  pub seen_before :
      (fuel : ℕ) (path : List ℕ) (op : ℕ) (before : List ℕ)
      → mem op path ≡ false
      → mem op before ≡ true
      → visit p topo (suc fuel) path op before ≡ visited before
  unfolding visit
  seen_before fuel path op before q r = rw (q, visit, r) refl

  pub new_one :
      (fuel : ℕ) (path : List ℕ) (op : ℕ) (before : List ℕ)
      → mem op path ≡ false
      → mem op before ≡ false
      → visit p topo (suc fuel) path op before
        ≡ close p topo op (visit_calls p topo (visit p topo fuel (op ∷ path)) (calls_of op) before)
  unfolding visit
  new_one fuel path op before q r = rw (q, visit, r) refl
