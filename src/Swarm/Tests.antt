-- ===== src/Swarm/Tests.antt =====
-- Runs of swarmChoices on two choice points.
use motel.Prelude.{◌≡◌, refl, true, false, List, [], ◌∷◌, some}
use motel.Prelude.Int.{pos, negsuc}
use motel.Swarm.{ChoiceKey, operation_error, retry_activation, lookup_choice, swarm_choices}
use motel.Swarm.Choices.{swarm_choices-directed}
use motel.Fixture.{counting}

abbrev error_point : ChoiceKey
error_point = record {
  kind = operation_error;
  operation_ref = "store.read";
  target_ref = "";
  call_index = negsuc 0;
}

abbrev retry_point : ChoiceKey
retry_point = record {
  kind = retry_activation;
  operation_ref = "gateway.get";
  target_ref = "store.read";
  call_index = pos 0;
}

abbrev points : List ChoiceKey
points = retry_point ∷ error_point ∷ []

swarm_choices-directed_example :
    (lookup_choice error_point (swarm_choices counting points 5 5).0 ≡ some true)
    × (lookup_choice error_point (swarm_choices counting points 6 5).0 ≡ some false)
swarm_choices-directed_example = swarm_choices-directed counting points 1 error_point 5 refl
