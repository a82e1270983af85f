-- ===== src/Topology/Tests.antt =====
-- Declared baggage of a service and one of its operations.
use motel.Prelude.{ℕ, zero, suc, ◌<◌, arith, List, All, ◌↔◌, true, refl, ◌≡◌, [], ◌∷◌, String, Dict}
use motel.Topology.Acyclic.{mem}
use motel.Topology.Roots.{find_roots, all_operations, IsCalled, mem-find_roots}
use motel.Topology.Types.{Call}
use motel.Topology.Cycles.{visited, detect_cycles}
use motel.Topology.Cycles.Accepted.{rank_in, detect_cycles-falls}
use motel.Topology.Cycles.Ranked.{detect_cycles_accepts}
use motel.Fixture.{counting, shop, height}

abbrev of_service : Dict String
of_service = ("tenant", "a") ∷ ("region", "eu") ∷ []

abbrev of_operation : Dict String
of_operation = ("tenant", "b") ∷ []

mem-find_roots_example : (mem 0 (find_roots counting shop) ≡ true) ↔ (
    (mem 0 (all_operations counting shop) ≡ true)
    × ¬ IsCalled counting shop 0 (all_operations counting shop))
mem-find_roots_example = mem-find_roots counting shop 0

shop_roots : find_roots counting shop ≡ 0 ∷ []
unfolding find_roots
shop_roots = refl

shop_accepted : detect_cycles counting shop 2 ≡ visited (0 ∷ 1 ∷ [])
unfolding detect_cycles
shop_accepted = refl

detect_cycles-falls_example :
    All
      (λ (c : Call counting).
        rank_in counting shop (0 ∷ 1 ∷ []) c.operation < rank_in counting shop (0 ∷ 1 ∷ []) 0)
      (shop.operation 0).calls
unfolding all_operations
detect_cycles-falls_example = detect_cycles-falls counting shop 2 (0 ∷ 1 ∷ []) shop_accepted 0 refl

abbrev shop_falls :
    (op : ℕ) → All (λ (c : Call counting). height c.operation < height op) (shop.operation op).calls
shop_falls zero = (omega arith, tt)
shop_falls (suc n) = tt

abbrev height_small : (op : ℕ) → height op < 2
height_small zero = omega arith
height_small (suc n) = omega arith

detect_cycles_accepts_example : (d : List ℕ) × (detect_cycles counting shop 2 ≡ visited d)
detect_cycles_accepts_example = detect_cycles_accepts counting shop height shop_falls 2 height_small
