-- ===== src/App/Pilot.antt =====
-- app/src/lib/pilot/status.ts: the next action and the checklist of the pilot onboarding. Of a message
-- or a detail its case is kept; labels and descriptions that nothing reads are left out.
pub mod Checklist
pub mod Readiness
mod Tests
use nextblock.Base.{
  ℕ, Text, codes, List, [], ◌∷◌, ◌++◌, Option, none, some, Bool, true, false, ◌&&◌, ◌||◌, not, eqb,
  leb, if◌then◌else◌,
}

abbrev pub pilot_chain_id : ℕ
pilot_chain_id = 84532

abbrev pub min_eth_wei : ℕ
min_eth_wei = 5000000000000000

abbrev pub min_usdc_6 : ℕ
min_usdc_6 = 1000000

pub data KybState : Type 0 where
  loading unavailable error_ none_ submitted under_review needs_info approved rejected : KybState

pub record RoleFlags : Type 0 where
  pub is_owner : Bool
  pub is_curator : Bool
  pub is_cedant : Bool
  pub is_committee : Bool
  pub is_sentinel : Bool
  pub is_allocator : Bool

unfoldable pub has_any_role : RoleFlags → Bool
has_any_role r =
    r.is_owner
    || (r.is_curator || (r.is_cedant || (r.is_committee || (r.is_sentinel || r.is_allocator))))

pub data Flag : Type 0 where
  owner curator cedant committee sentinel allocator : Flag

-- `roles[flag]`
abbrev pub flag_of : RoleFlags → Flag → Bool
flag_of r owner = r.is_owner
flag_of r curator = r.is_curator
flag_of r cedant = r.is_cedant
flag_of r committee = r.is_committee
flag_of r sentinel = r.is_sentinel
flag_of r allocator = r.is_allocator

pub record RoleTrack : Type 0 where
  pub label : Text
  pub route : Text
  pub flag : Flag

abbrev pub track : (label route : Text) → Flag → RoleTrack
track label route flag = record { label = label; route = route; flag = flag }

abbrev pub role_tracks : List RoleTrack
role_tracks =
    track (codes "Company / Cedant") (codes "/app/my-company") cedant
    ∷ track (codes "Curator / Underwriting") (codes "/app/syndicates/dashboard") curator
    ∷ track (codes "Asset Manager / Vault Manager") (codes "/app/syndicates/dashboard") curator
    ∷ track (codes "Committee Member") (codes "/app/admin") committee
    ∷ track (codes "Sentinel / Admin") (codes "/app/admin") sentinel
    ∷ track (codes "Protocol Operator") (codes "/app/admin") owner
    ∷ []

abbrev pub viewer_track : RoleTrack
viewer_track = track (codes "B2B Demo Viewer") (codes "/app") owner

unfoldable pub held_tracks : RoleFlags → List RoleTrack → List RoleTrack
held_tracks roles [] = []
held_tracks roles (t ∷ tracks) =
    let rest = held_tracks roles tracks in if flag_of roles t.flag then t ∷ rest else rest

unfoldable pub derive_active_tracks : RoleFlags → List RoleTrack
unfolding held_tracks
derive_active_tracks roles = held_tracks roles role_tracks ++ (viewer_track ∷ [])

abbrev pub is_correct_chain : Option ℕ → Bool
is_correct_chain none = false
is_correct_chain (some id) = eqb id pilot_chain_id

abbrev pub meets : ℕ → Option ℕ → Bool
meets least none = false
meets least (some balance) = leb least balance

pub record PilotInput : Type 0 where
  pub wallet_connected : Bool
  pub chain_id : Option ℕ
  pub eth_wei : Option ℕ
  pub usdc_6 : Option ℕ
  pub kyb : KybState
  pub roles : RoleFlags
  pub roles_resolved : Bool

pub data Severity : Type 0 where
  blocked action ready info : Severity

pub data Message : Type 0 where
  connect switch checking_balances get_eth checking_kyb kyb_offline kyb_failed apply kyb_rejected :
      Message
  kyb_in_review resolving_roles ask_for_role mint_usdc set_up : Message

pub record NextAction : Type 0 where
  pub severity : Severity
  pub message : Message
  pub cta_label : Option Text
  pub cta_route : Option Text
  pub cta_url : Option Text

abbrev pub plain : Severity → Message → NextAction
plain severity message = record {
  severity = severity;
  message = message;
  cta_label = none;
  cta_route = none;
  cta_url = none;
}

-- The first of the tracks; the list always ends with that of a viewer.
abbrev pub go_to : List RoleTrack → NextAction
go_to [] = plain ready set_up
go_to (primary ∷ tracks) = record (plain ready set_up) {
  cta_label = some (codes "Go to " ++ primary.label);
  cta_route = some primary.route;
}

-- The part of nextAction from an approved KYB on.
unfoldable pub action_of_roles : PilotInput → NextAction
unfolding has_any_role derive_active_tracks
action_of_roles i =
    if not i.roles_resolved
    then plain info resolving_roles
    else if not (has_any_role i.roles)
    then plain action ask_for_role
    else if i.roles.is_cedant && not (meets min_usdc_6 i.usdc_6)
    then record (plain action mint_usdc) { cta_label = some (codes "Mint test USDC") }
    else go_to (derive_active_tracks i.roles)

abbrev pub action_of_kyb : KybState → NextAction → NextAction
action_of_kyb loading approved_action = plain info checking_kyb
action_of_kyb unavailable approved_action = plain info kyb_offline
action_of_kyb error_ approved_action = plain info kyb_failed
action_of_kyb none_ approved_action = record (plain action apply) {
  cta_label = some (codes "Apply (KYB)");
  cta_route = some (codes "/app/apply");
}
action_of_kyb submitted approved_action = plain info kyb_in_review
action_of_kyb under_review approved_action = plain info kyb_in_review
action_of_kyb needs_info approved_action = plain info kyb_in_review
action_of_kyb rejected approved_action = plain blocked kyb_rejected
action_of_kyb approved approved_action = approved_action

abbrev pub action_of_eth : Option ℕ → NextAction → NextAction
action_of_eth none rest = plain info checking_balances
action_of_eth (some wei) rest =
    if not (meets min_eth_wei (some wei))
    then record (plain blocked get_eth) {
      cta_label = some (codes "Open ETH faucet");
      cta_url = some (codes "https://portal.cdp.coinbase.com/products/faucet");
    }
    else rest

unfoldable pub next_action : PilotInput → NextAction
unfolding action_of_roles
next_action i =
    if not i.wallet_connected
    then plain blocked connect
    else if not (is_correct_chain i.chain_id)
    then plain blocked switch
    else action_of_eth i.eth_wei (action_of_kyb i.kyb (action_of_roles i))
