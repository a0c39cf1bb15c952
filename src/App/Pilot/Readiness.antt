-- ===== src/App/Pilot/Readiness.antt =====
-- The next action of app/src/lib/pilot/status.ts against its checklist.
use nextblock.Base.{
  ℕ, Text, codes, ◌≡◌, ◌↔◌, ◌⊎◌, refl, sym, ◌∙◌, ◌||◌, arith, List, [], ◌∷◌, Option, none, some,
  Bool, false, eqb, if◌then◌else◌, Option-cases, inl, inr,
}
use nextblock.App.Pilot.{
  RoleFlags, RoleTrack, PilotInput, ready, next_action, action_of_roles, go_to, held_tracks,
  derive_active_tracks,
}
use nextblock.App.Pilot.Checklist.{
  ChecklistState, is_ok, ChecklistItem, ItemKey, wallet, chain, eth, usdc, kyb, role,
  compute_checklist,
}

abbrev place : ItemKey → ℕ
place wallet = 0
place chain = 1
place eth = 2
place usdc = 3
place kyb = 4
place role = 5

-- The state of the item with a key.
abbrev pub state_of : ItemKey → List ChecklistItem → Option ChecklistState
state_of k [] = none
state_of k (item ∷ items) =
    let rest = state_of k items in if eqb (place item.key) (place k) then some item.state else rest

abbrev IsOk : ItemKey → List ChecklistItem → Type 0
IsOk k items = state_of k items ≡ some is_ok

-- All items are done, that of the test USDC only if the wallet is a cedant's.
abbrev pub IsSetUp : (is_cedant : Bool) → List ChecklistItem → Type 0
IsSetUp is_cedant items =
    IsOk wallet items
    × (IsOk chain items
        × (IsOk eth items
            × (((is_cedant ≡ false) ⊎ IsOk usdc items) × (IsOk kyb items × IsOk role items))))

go_to-ready : (tracks : List RoleTrack) → (go_to tracks).severity ≡ ready
go_to-ready [] = refl
go_to-ready (t ∷ tracks) = refl

next_action-ready_iff :
    (i : PilotInput)
    → (next_action i).severity ≡ ready ↔ IsSetUp i.roles.is_cedant (compute_checklist i)
unfolding next_action compute_checklist action_of_roles
next_action-ready_iff i = elim (Option-cases i.eth_wei) [
  | inl e ↦ ground (arith, go_to-ready (derive_active_tracks i.roles))
  | inr (wei, e) ↦ ground (arith, go_to-ready (derive_active_tracks i.roles))
]

-- A role that has a track of its own.
abbrev pub has_track : RoleFlags → Bool
has_track r = r.is_owner || (r.is_curator || (r.is_cedant || (r.is_committee || r.is_sentinel)))

abbrev viewer_route : Option Text
viewer_route = some (codes "/app")

route_of : List RoleTrack → Option Text
route_of tracks = (go_to tracks).cta_route

derived-route :
    (r : RoleFlags) → route_of (derive_active_tracks r) ≡ viewer_route ↔ has_track r ≡ false
unfolding route_of derive_active_tracks held_tracks
derived-route r = ground arith

ready-route :
    (i : PilotInput)
    → (next_action i).severity ≡ ready
    → (next_action i).cta_route ≡ route_of (derive_active_tracks i.roles)
unfolding next_action action_of_roles route_of
ready-route i h = elim (Option-cases i.eth_wei) [
  | inl e ↦ ground arith
  | inr (wei, e) ↦ ground arith
]

-- The next action is to go on exactly when every item of the checklist is done, that of the test USDC
-- only if the wallet is a cedant's; and it is to go on to the page of a viewer exactly when, besides,
-- no role but that of the allocator is held.
pub next_action_lem :
    (i : PilotInput)
    → ((next_action i).severity ≡ ready ↔ IsSetUp i.roles.is_cedant (compute_checklist i))
      × (((next_action i).severity ≡ ready) × ((next_action i).cta_route ≡ some (codes "/app"))
          ↔ IsSetUp i.roles.is_cedant (compute_checklist i) × (has_track i.roles ≡ false))
next_action_lem i =
    let (to, from) = next_action-ready_iff i in
    let route = derived-route i.roles in
    (
      (to, from),
      (
        (λ (h, r). (to h, route.0 (sym (ready-route i h) ∙ r))),
        (λ (s, none_held). (from s, ready-route i (from s) ∙ route.1 none_held)),
      ),
    )
