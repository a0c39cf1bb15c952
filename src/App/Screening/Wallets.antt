-- ===== src/App/Screening/Wallets.antt =====
-- app/src/lib/sanctions/wallet-provider.ts: the screening of a wallet's address. The stubs of the
-- providers that are not wired yet throw, which is `none` here.
use nextblock.Base.{
  ℕ, Text, codes, text_eqb, to_lower, includes, List, [], ◌∷◌, Option, none, some, if◌then◌else◌,
}

pub data WalletRiskCode : Type 0 where
  clear match error : WalletRiskCode

pub data WalletRiskSeverity : Type 0 where
  low medium high unknown : WalletRiskSeverity

pub record WalletScreeningMatch : Type 0 where
  pub provider_match_id : Text
  pub category : Text
  pub severity : WalletRiskSeverity
  pub score : Option ℕ

pub record WalletScreeningResult : Type 0 where
  pub provider : Text
  pub result_code : WalletRiskCode
  pub matches : List WalletScreeningMatch

pub data WalletScreeningProvider : Type 0 where
  mock_wallets chainalysis_kyt_stub trm_labs_stub : WalletScreeningProvider

pub record WalletEnv : Type 0 where
  pub wallet_screening_provider : Option Text
  pub wallet_screening_api_key : Option Text

abbrev mock_result : WalletRiskCode → List WalletScreeningMatch → WalletScreeningResult
mock_result result_code matches = record {
  provider = codes "mock";
  result_code = result_code;
  matches = matches;
}

unfoldable pub mock_wallet_screen : (address : Text) → WalletScreeningResult
mock_wallet_screen address =
    if includes (to_lower address) (codes "dead")
    then mock_result match (
        record {
          provider_match_id = codes "mock-wallet-ofac-1";
          category = codes "OFAC-SDN";
          severity = high;
          score = some 97;
        }
        ∷ [])
    else if includes (to_lower address) (codes "beef")
    then mock_result match (
        record {
          provider_match_id = codes "mock-wallet-mixer-1";
          category = codes "mixer";
          severity = medium;
          score = some 74;
        }
        ∷ [])
    else mock_result clear []

unfoldable pub screen_wallet :
    WalletScreeningProvider → (address : Text) → Option WalletScreeningResult
screen_wallet mock_wallets address = some (mock_wallet_screen address)
screen_wallet chainalysis_kyt_stub address = none
screen_wallet trm_labs_stub address = none

-- `if (!key) throw …; return new …Stub();`
abbrev with_key : Option Text → WalletScreeningProvider → Option WalletScreeningProvider
with_key (some (c ∷ t)) provider = some provider
with_key _ provider = none

abbrev selected : Option Text → Text
selected none = codes "mock"
selected (some t) = to_lower t

unfoldable pub get_wallet_screening_provider : WalletEnv → Option WalletScreeningProvider
get_wallet_screening_provider env =
    if text_eqb (selected env.wallet_screening_provider) (codes "chainalysis")
    then with_key env.wallet_screening_api_key chainalysis_kyt_stub
    else if text_eqb (selected env.wallet_screening_provider) (codes "trm")
    then with_key env.wallet_screening_api_key trm_labs_stub
    else some mock_wallets
