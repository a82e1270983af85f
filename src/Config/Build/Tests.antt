-- ===== src/Config/Build/Tests.antt =====
-- A configuration of two services, one of which calls the other, validated and built.
use motel.Prelude.{ℕ, ◌≡◌, refl, ◌⊎◌, [], ◌∷◌, none, lookup, insert}
use motel.Prelude.Results.{ok, failed, each, collect}
use motel.Topology.Types.{Topology}
use motel.Topology.Cycles.{cycle_detected, out_of_fuel, detect_cycles}
use motel.Topology.Roots.{find_roots}
use motel.Topology.Baggage.{sorted_keys}
use motel.Traffic.{new_base_pattern}
use motel.Rate.{parse_rate}
use motel.Config.{CallConfig, validate_calls, contains_dot, resolve_call}
use motel.Config.Text.{trim_space}
use motel.Config.Distributions.{parse_distribution, parse_mean, mean_and_spread, parse_error_rate}
use motel.Config.Parts.{validate_baggage, check_attributes}
use motel.Config.Tables.{note_services}
use motel.Config.Operations.{validate_operations}
use motel.Config.Sections.{validate_traffic_config}
use motel.Config.Types.{Config}
use motel.Config.Validate.{validate_config}
use motel.Config.Build.{cyclic, no_answer, unresolved_call, build_error_rate, add_generators}
use motel.Config.Build.Accepted.{build_topology-cases}
use motel.Config.Build.Passes.{link_topology, build_topology, domain_generators}
use motel.Config.Sample.{
  library, milliseconds, read_call, operation, service, config, two_services, sample_accepted,
}
use motel.Fixture.{counting}

build_topology-cases_example :
    (topo : Topology counting) × (link_topology counting library none two_services ≡ ok topo)
    × ((build_topology counting library none 5 two_services
          ≡ ok (record topo { roots = find_roots counting topo }))
        ⊎ (((op : ℕ) × (detect_cycles counting topo 5 ≡ cycle_detected op)
              × (build_topology counting library none 5 two_services ≡ failed (cyclic op)))
            ⊎ ((detect_cycles counting topo 5 ≡ out_of_fuel)
                × (build_topology counting library none 5 two_services ≡ failed no_answer))))
unfolding contains_dot domain_generators
build_topology-cases_example =
    build_topology-cases counting library none two_services 5 refl sample_accepted
      ((refl, tt), (tt, tt)) (refl, (refl, tt)) (((([], refl), tt)), ((([], refl), tt), tt))

-- A service whose name has a dot: the reference of its operation is known to the validation, and is
-- cut at the wrong dot when the topology is built.
abbrev dotted_call : CallConfig counting milliseconds
dotted_call = record read_call { target = "my.store.read" }

abbrev dotted : Config counting library
dotted =
    record (config (
      service "gateway" (operation "get" (dotted_call ∷ []))
      ∷ service "my.store" (operation "read" [])
      ∷ [])) { scenarios = [] }

dotted_service :
    (validate_config counting library dotted ≡ ok tt)
    × (build_topology counting library none 5 dotted ≡ failed unresolved_call)
unfolding validate_config each note_services validate_baggage sorted_keys validate_operations
    parse_distribution trim_space mean_and_spread parse_mean parse_error_rate check_attributes
    validate_calls lookup insert validate_traffic_config new_base_pattern parse_rate build_topology
    collect build_error_rate add_generators resolve_call
dotted_service = (refl, refl)
