-- ===== src/App/Pilot/Tests.antt =====
-- The pilot's next action for a cedant that is set up, and for an allocator.
use nextblock.Base.{codes, ◌≡◌, ◌↔◌, refl, some, Bool, true, false}
use nextblock.App.Pilot.{
  PilotInput, approved, pilot_chain_id, ready, next_action, action_of_roles, derive_active_tracks,
  held_tracks, has_any_role,
}
use nextblock.App.Pilot.Checklist.{compute_checklist}
use nextblock.App.Pilot.Readiness.{IsSetUp, has_track, next_action_lem}

abbrev input : (is_cedant is_allocator : Bool) → PilotInput
input is_cedant is_allocator = record {
  wallet_connected = true;
  chain_id = some pilot_chain_id;
  eth_wei = some 5000000000000000;
  usdc_6 = some 1000000;
  kyb = approved;
  roles = record {
    is_owner = false;
    is_curator = false;
    is_cedant = is_cedant;
    is_committee = false;
    is_sentinel = false;
    is_allocator = is_allocator;
  };
  roles_resolved = true;
}

-- An allocator is sent to the page of a viewer.
routes_run :
    ((next_action (input true false)).cta_route ≡ some (codes "/app/my-company"))
    × ((next_action (input false true)).cta_route ≡ some (codes "/app"))
unfolding next_action action_of_roles derive_active_tracks held_tracks has_any_role
routes_run = (refl, refl)

next_action_lem_example :
    ((next_action (input true false)).severity ≡ ready
      ↔ IsSetUp true (compute_checklist (input true false)))
    × (((next_action (input true false)).severity ≡ ready)
          × ((next_action (input true false)).cta_route ≡ some (codes "/app"))
        ↔ IsSetUp true (compute_checklist (input true false))
          × (has_track (input true false).roles ≡ false))
next_action_lem_example = next_action_lem (input true false)
