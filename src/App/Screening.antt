-- ===== src/App/Screening.antt =====
-- app/src/lib/sanctions/provider.ts: the screening of a name. What `fetch` gives back is an argument.
-- A similarity score is in hundredths, rounded down, which its limits cannot tell from the score
-- itself; `none` stands for a value that is no number. The fields that are kept for audit only (the
-- raw response, the evidence and the text of an error) are left out.
pub mod Wallets
pub mod Codes
use nextblock.Base.{
  ℕ, suc, ◌+◌, Text, codes, print, text_eqb, to_lower, to_upper, includes, List, [], ◌∷◌, ◌++◌,
  Option, none, some, Bool, true, false, ◌&&◌, ◌||◌, leb, between, if◌then◌else◌, Result, ok, err,
}

pub data SanctionsResultCode : Type 0 where
  clear match error : SanctionsResultCode

pub data SanctionsSeverity : Type 0 where
  low medium high unknown : SanctionsSeverity

pub record SanctionsMatch : Type 0 where
  pub provider_match_id : Text
  pub matched_name : Text
  pub sanctions_list : Text
  pub severity : SanctionsSeverity
  pub match_score : Option ℕ

pub record SanctionsScreeningResult : Type 0 where
  pub provider : Text
  pub provider_search_id : Option Text
  pub result_code : SanctionsResultCode
  pub matches : List SanctionsMatch

abbrev pub includes_any : Text → List Text → Bool
includes_any t [] = false
includes_any t (part ∷ parts) = includes t part || includes_any t parts

-- `now` is `Date.now()`.
abbrev mock_result :
    (now : ℕ) → SanctionsResultCode → List SanctionsMatch → SanctionsScreeningResult
mock_result now result_code matches = record {
  provider = codes "mock";
  provider_search_id = some (codes "mock-search-" ++ print now);
  result_code = result_code;
  matches = matches;
}

unfoldable pub mock_screen : (now : ℕ) (name : Text) → SanctionsScreeningResult
mock_screen now name =
    if includes (to_upper name) (codes "__SANCTION__")
    then mock_result now match (
        record {
          provider_match_id = codes "mock-match-sdn-1";
          matched_name = name;
          sanctions_list = codes "OFAC-SDN";
          severity = high;
          match_score = some 95;
        }
        ∷ [])
    else if includes (to_upper name) (codes "__PEP__")
    then mock_result now match (
        record {
          provider_match_id = codes "mock-match-pep-1";
          matched_name = name;
          sanctions_list = codes "PEP";
          severity = medium;
          match_score = some 78;
        }
        ∷ [])
    else mock_result now clear []

pub canonical_list_code : Text → Text
canonical_list_code source_name =
    let n = to_lower source_name in
    if includes_any n (codes "ofac" ∷ codes "sdn" ∷ [])
    then codes "OFAC-SDN"
    else if includes n (codes "eu") && includes_any n (codes "cfsp" ∷ codes "sanction" ∷ [])
    then codes "EU-CFSP"
    else if includes_any n (codes "un" ∷ codes "1267" ∷ [])
    then codes "UN-1267"
    else if includes n (codes "hmt") || includes n (codes "uk") && includes n (codes "sanction")
    then codes "HMT-UK"
    else if includes n (codes "pep")
    then codes "PEP"
    else if includes n (codes "adverse")
    then codes "adverse-media"
    else source_name

pub severity_from_score : Option ℕ → SanctionsSeverity
severity_from_score none = unknown
severity_from_score (some score) =
    if leb 85 score
    then high
    else if leb 65 score
    then medium
    else if leb 40 score
    then low
    else unknown

-- A hit of the response. An id that is there is given by its text; a name that is no text is `none`.
pub record Hit : Type 0 where
  pub id : Option Text
  pub score : Option ℕ
  pub name : Option Text
  pub sources : List (Option Text)
  pub types : List Text

-- `payload.content.data`, with `none` for what is missing on the way.
pub record Payload : Type 0 where
  pub id : Option Text
  pub hits : Option (List Hit)

abbrev or_else {ℓ} : {A : Type ℓ} → A → Option A → A
or_else d none = d
or_else d (some a) = a

abbrev contains : Text → List Text → Bool
contains t [] = false
contains t (u ∷ us) = text_eqb u t || contains t us

abbrev pub list_of_types : List Text → Text
list_of_types types =
    if contains (codes "sanction") types
    then codes "OFAC-SDN"
    else if contains (codes "pep") types
    then codes "PEP"
    else if contains (codes "adverse-media") types
    then codes "adverse-media"
    else codes "other"

pub list_of_hit : List (Option Text) → List Text → Text
list_of_hit (some name ∷ sources) types = canonical_list_code name
list_of_hit _ types = list_of_types types

pub matches_of : (i : ℕ) → List Hit → List SanctionsMatch
matches_of i [] = []
matches_of i (h ∷ hits) =
    record {
      provider_match_id = or_else (codes "idx-" ++ print i) h.id;
      matched_name = or_else (codes "unknown") h.name;
      sanctions_list = list_of_hit h.sources h.types;
      severity = severity_from_score h.score;
      match_score = h.score;
    }
    ∷ matches_of (suc i) hits

abbrev pub code_of_matches : List SanctionsMatch → SanctionsResultCode
code_of_matches [] = clear
code_of_matches (m ∷ matches) = match

unfoldable pub normalize_comply_advantage : Payload → SanctionsScreeningResult
normalize_comply_advantage p =
    let matches = matches_of 0 (or_else [] p.hits) in
    record {
      provider = codes "complyadvantage";
      provider_search_id = p.id;
      result_code = code_of_matches matches;
      matches = matches;
    }

-- What `fetch` and `res.json()` give back. A body that is null, or whose hits are no list, makes the
-- source throw, and is outside the model.
pub data Fetched : Type 0 where
  network_error : Fetched
  response : (status : ℕ) → Option Payload → Fetched

abbrev pub screening_error : SanctionsScreeningResult
screening_error = record {
  provider = codes "complyadvantage";
  provider_search_id = none;
  result_code = error;
  matches = [];
}

unfoldable pub comply_screen : Fetched → SanctionsScreeningResult
comply_screen network_error = screening_error
comply_screen (response status body) =
    if between 200 299 status
    then elim body [ none ↦ screening_error | some payload ↦ normalize_comply_advantage payload ]
    else screening_error

pub record ProviderEnv : Type 0 where
  pub sanctions_provider : Option Text
  pub comply_advantage_api_key : Option Text

pub data SanctionsProvider : Type 0 where
  mock_provider comply_advantage_provider : SanctionsProvider

-- An empty key counts as no key.
abbrev pub has_text : Option Text → Bool
has_text none = false
has_text (some []) = false
has_text (some (c ∷ t)) = true

unfoldable pub get_sanctions_provider : ProviderEnv → Option SanctionsProvider
get_sanctions_provider env =
    if text_eqb (to_lower (or_else (codes "mock") env.sanctions_provider)) (codes "complyadvantage")
    then (if has_text env.comply_advantage_api_key then some comply_advantage_provider else none)
    else some mock_provider

-- `search` is what the provider's service answers to a search for a name, in a country if there is
-- one.
unfoldable pub screen :
    SanctionsProvider
    → (now : ℕ) (name : Text) (country : Option Text) → (search : Text → Option Text → Fetched)
    → SanctionsScreeningResult
screen mock_provider now name country search = mock_screen now name
screen comply_advantage_provider now name country search = comply_screen (search name country)
