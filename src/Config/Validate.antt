-- ===== src/Config/Validate.antt =====
-- pkg/synth/config.go, ValidateConfig.
use motel.Prelude.{false, not, str_eq, [], if◌then◌else◌}
use motel.Prelude.Results.{Checked, ◌>>=◌, ◌>>◌, reject, each}
use motel.Platform.{Platform}
use motel.Topology.Generators.{is_nonempty}
use motel.Config.Types.{Library, Config, TrafficSection, plain, with_overlay}
use motel.Config.Parts.{given}
use motel.Config.Tables.{
  ConfigError, no_recording, unknown_mode, no_services, no_rate, Tables, note_services,
}
use motel.Config.Operations.{validate_operations}
use motel.Config.Sections.{Base, validate_traffic_config, validate_scenario}

module _ (p : Platform) (lib : Library p) where
  abbrev pub no_tables : Tables p lib
  no_tables = record { known_ops = []; known_services = []; op_calls = []; metrics_by_scope = [] }

  abbrev pub base_of : TrafficSection p lib → Base p lib
  base_of (plain tc) = tc
  base_of (with_overlay tc overlay) = tc

  unfoldable pub validate_replay_config : Config p lib → Checked ConfigError
  validate_replay_config cfg = reject (str_eq cfg.recording "") no_recording

  unfoldable pub validate_model : Config p lib → Checked ConfigError
  validate_model cfg = do
    reject (given cfg.mode) unknown_mode
    reject (not (is_nonempty cfg.services)) no_services
    reject (str_eq (base_of cfg.traffic).rate "") no_rate
    t ← note_services p lib cfg.services no_tables
    validate_operations p lib t.known_ops cfg.services
    validate_traffic_config p lib cfg.traffic false
    each (validate_scenario p lib t) cfg.scenarios

  unfoldable pub validate_config : Config p lib → Checked ConfigError
  unfolding validate_replay_config validate_model
  validate_config cfg =
      if str_eq cfg.mode "replay" then validate_replay_config cfg else validate_model cfg
