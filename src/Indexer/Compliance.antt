-- ===== src/Indexer/Compliance.antt =====
-- indexer/src/compliance-registry.ts: one row per address with the current gate state.
use nextblock.Base.{ℕ, String, Bool, false, Option, none, some, List, [], ◌∷◌}
use nextblock.Base.Keys.{number_key}
use nextblock.Base.Table.{Table, load, save}
use nextblock.Indexer.Log.{Meta, LogParams, no_params, Feed, log_event}

pub record ComplianceAccount : Type 0 where
  pub whitelisted : Bool
  pub blocked : Bool
  pub jurisdiction : ℕ
  pub kyc_expiry : ℕ
  pub investor_limit : ℕ
  pub approved_venue : Bool
  pub updated_at : ℕ

pub record Store : Type 0 where
  pub accounts : Table ℕ ComplianceAccount
  pub feed : Feed

abbrev pub account_of : ℕ → Option ComplianceAccount → ComplianceAccount
account_of ts none = record {
  whitelisted = false;
  blocked = false;
  jurisdiction = 0;
  kyc_expiry = 0;
  investor_limit = 0;
  approved_venue = false;
  updated_at = ts;
}
account_of ts (some a) = record a { updated_at = ts }

-- `const a = accountOf(addr, ts); …; a.save();`
pub update :
    ℕ
    → ℕ
    → (ComplianceAccount → ComplianceAccount)
    → Table ℕ ComplianceAccount
    → Table ℕ ComplianceAccount
update addr ts f t = save addr (f (account_of ts (load addr t))) t

log_compliance : Meta → String → LogParams → Feed → Feed
log_compliance m name p feed = log_event m "ComplianceRegistry" name p feed

pub handle_whitelist_updated : Meta → (user : ℕ) → Bool → Store → Store
unfolding log_compliance
handle_whitelist_updated m user allowed s = record {
  accounts = update user m.timestamp (λ a. record a { whitelisted = allowed }) s.accounts;
  feed = log_compliance m "WhitelistUpdated" (record no_params { actor = some user }) s.feed;
}

pub handle_blocked_status_updated : Meta → (user : ℕ) → Bool → Store → Store
unfolding log_compliance
handle_blocked_status_updated m user blocked s = record {
  accounts = update user m.timestamp (λ a. record a { blocked = blocked }) s.accounts;
  feed = log_compliance m "BlockedStatusUpdated" (record no_params { actor = some user }) s.feed;
}

pub handle_jurisdiction_updated : Meta → (user code : ℕ) → Store → Store
unfolding log_compliance
handle_jurisdiction_updated m user code s = record {
  accounts = update user m.timestamp (λ a. record a { jurisdiction = code }) s.accounts;
  feed = log_compliance m "JurisdictionUpdated" (record no_params { actor = some user }) s.feed;
}

pub handle_kyc_expiry_updated : Meta → (user expiry : ℕ) → Store → Store
unfolding log_compliance
handle_kyc_expiry_updated m user expiry s = record {
  accounts = update user m.timestamp (λ a. record a { kyc_expiry = expiry }) s.accounts;
  feed = log_compliance m "KycExpiryUpdated" (record no_params { actor = some user }) s.feed;
}

pub handle_investor_limit_updated : Meta → (user limit : ℕ) → Store → Store
unfolding log_compliance
handle_investor_limit_updated m user limit s = record {
  accounts = update user m.timestamp (λ a. record a { investor_limit = limit }) s.accounts;
  feed =
      log_compliance m "InvestorLimitUpdated"
        (record no_params { actor = some user; amount = some limit }) s.feed;
}

pub handle_approved_venue_updated : Meta → (venue : ℕ) → Bool → Store → Store
unfolding log_compliance
handle_approved_venue_updated m venue approved s = record {
  accounts = update venue m.timestamp (λ a. record a { approved_venue = approved }) s.accounts;
  feed = log_compliance m "ApprovedVenueUpdated" (record no_params { actor = some venue }) s.feed;
}

pub data Event : Type 0 where
  whitelist_updated blocked_status_updated : (user : ℕ) → Bool → Event
  jurisdiction_updated : (user code : ℕ) → Event
  kyc_expiry_updated : (user expiry : ℕ) → Event
  investor_limit_updated : (user limit : ℕ) → Event
  approved_venue_updated : (venue : ℕ) → Bool → Event

unfoldable pub handle : Meta → Event → Store → Store
unfolding handle_whitelist_updated handle_blocked_status_updated handle_jurisdiction_updated
    handle_kyc_expiry_updated handle_investor_limit_updated handle_approved_venue_updated
handle m (whitelist_updated user allowed) s = handle_whitelist_updated m user allowed s
handle m (blocked_status_updated user blocked) s = handle_blocked_status_updated m user blocked s
handle m (jurisdiction_updated user code) s = handle_jurisdiction_updated m user code s
handle m (kyc_expiry_updated user expiry) s = handle_kyc_expiry_updated m user expiry s
handle m (investor_limit_updated user limit) s = handle_investor_limit_updated m user limit s
handle m (approved_venue_updated venue approved) s =
    handle_approved_venue_updated m venue approved s

-- The ComplianceRegistry events of one chain, in their order.
unfoldable pub run : List (Meta × Event) → Store → Store
run [] s = s
run ((m, e) ∷ es) s = run es (handle m e s)
