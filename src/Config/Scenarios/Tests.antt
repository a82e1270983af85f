-- ===== src/Config/Scenarios/Tests.antt =====
-- The scenario of the sample configuration.
use motel.Prelude.{◌≡◌, refl, [], ◌∷◌, All, none, lookup, insert}
use motel.Prelude.Results.{ok, collect}
use motel.Topology.Types.{Topology}
use motel.Topology.Cycles.{detect_cycles}
use motel.Config.{contains_dot, resolve_call}
use motel.Config.Text.{trim_space}
use motel.Config.Distributions.{parse_distribution, parse_mean, mean_and_spread, parse_error_rate}
use motel.Config.Build.{build_error_rate, add_generators}
use motel.Config.Build.Passes.{build_topology}
use motel.Config.Scenarios.Built.{IsBuiltUnlessCyclic, build_scenario-cases}
use motel.Config.Sample.{library, two_services, incident, sample_accepted}
use motel.Fixture.{counting}

built : (topo : Topology counting) × (build_topology counting library none 5 two_services ≡ ok topo)
unfolding build_topology collect parse_distribution trim_space mean_and_spread parse_mean
    build_error_rate parse_error_rate add_generators lookup insert resolve_call detect_cycles
built = (_, refl)

build_scenario-cases_example :
    All (IsBuiltUnlessCyclic counting library none built.0 5) (incident ∷ [])
unfolding contains_dot
build_scenario-cases_example =
    build_scenario-cases counting library none two_services 5 built.0 refl sample_accepted
      ((refl, tt), (tt, tt)) (refl, (refl, tt)) built.1
