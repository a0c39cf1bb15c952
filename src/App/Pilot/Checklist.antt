-- ===== src/App/Pilot/Checklist.antt =====
-- computeChecklist of app/src/lib/pilot/status.ts.
use nextblock.Base.{ℕ, List, [], ◌∷◌, Option, none, some, Bool, not, if◌then◌else◌}
use nextblock.App.Pilot.{
  KybState, loading, unavailable, error_, none_, submitted, under_review, needs_info, approved,
  rejected, has_any_role, is_correct_chain, meets, min_eth_wei, min_usdc_6, PilotInput,
}

pub data ChecklistState : Type 0 where
  is_ok todo pending is_loading not_available : ChecklistState

pub data ItemKey : Type 0 where
  wallet chain eth usdc kyb role : ItemKey

-- `met` says which of its two details an item shows; that of the KYB is its status.
pub data Detail : Type 0 where
  met missing : Detail
  status : KybState → Detail

pub record ChecklistItem : Type 0 where
  pub key : ItemKey
  pub state : ChecklistState
  pub detail : Detail

abbrev detail_of : Bool → Detail
detail_of b = if b then met else missing

abbrev balance_state : (least : ℕ) → Option ℕ → ChecklistState
balance_state least none = is_loading
balance_state least (some balance) = if meets least (some balance) then is_ok else todo

abbrev kyb_state : KybState → ChecklistState
kyb_state loading = is_loading
kyb_state approved = is_ok
kyb_state rejected = todo
kyb_state unavailable = not_available
kyb_state error_ = not_available
kyb_state none_ = todo
kyb_state submitted = pending
kyb_state under_review = pending
kyb_state needs_info = pending

-- The items after that of the wallet are not available without one.
abbrev with_wallet : PilotInput → ChecklistState → ChecklistState
with_wallet i state = if not i.wallet_connected then not_available else state

pub wallet_item : PilotInput → ChecklistItem
wallet_item i = record {
  key = wallet;
  state = if i.wallet_connected then is_ok else todo;
  detail = detail_of i.wallet_connected;
}

pub chain_item : PilotInput → ChecklistItem
chain_item i = record {
  key = chain;
  state = with_wallet i (if is_correct_chain i.chain_id then is_ok else todo);
  detail = detail_of (is_correct_chain i.chain_id);
}

pub eth_item : PilotInput → ChecklistItem
eth_item i = record {
  key = eth;
  state = with_wallet i (balance_state min_eth_wei i.eth_wei);
  detail = detail_of (meets min_eth_wei i.eth_wei);
}

pub usdc_item : PilotInput → ChecklistItem
usdc_item i = record {
  key = usdc;
  state = with_wallet i (balance_state min_usdc_6 i.usdc_6);
  detail = detail_of (meets min_usdc_6 i.usdc_6);
}

pub kyb_item : PilotInput → ChecklistItem
kyb_item i = record { key = kyb; state = with_wallet i (kyb_state i.kyb); detail = status i.kyb }

pub role_item : PilotInput → ChecklistItem
unfolding has_any_role
role_item i = record {
  key = role;
  state =
      with_wallet i
        (if not i.roles_resolved then is_loading else if has_any_role i.roles then is_ok else todo);
  detail = detail_of (has_any_role i.roles);
}

unfoldable pub compute_checklist : PilotInput → List ChecklistItem
unfolding wallet_item chain_item eth_item usdc_item kyb_item role_item
compute_checklist i =
    wallet_item i ∷ chain_item i ∷ eth_item i ∷ usdc_item i ∷ kyb_item i ∷ role_item i ∷ []
