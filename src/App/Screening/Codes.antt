-- ===== src/App/Screening/Codes.antt =====
-- Which results the screenings of app/src/lib/sanctions can give.
use nextblock.Base.{
  ℕ, Text, [], ◌∷◌, Option, none, some, true, ◌≡◌, refl, ◌≢◌, ◌↔◌, ◌⊎◌, inl, inr, between, arith,
}
use nextblock.App.Screening.{
  clear, match, SanctionsProvider, mock_provider, comply_advantage_provider, Fetched, network_error,
  response, Payload, screen, mock_screen, comply_screen, normalize_comply_advantage, matches_of,
  code_of_matches,
}
use nextblock.App.Screening.Wallets
use nextblock.App.Screening.Wallets.{WalletScreeningProvider, WalletScreeningResult, mock_wallets}

comply_screen-match :
    (f : Fetched) → (comply_screen f).result_code ≡ match → (comply_screen f).matches ≢ []
unfolding comply_screen normalize_comply_advantage
comply_screen-match network_error h = ground arith
comply_screen-match (response status none) h = ground arith
comply_screen-match (response status (some payload)) h = ground arith

-- A result with the code `match` shows a match.
pub screen-match :
    (p : SanctionsProvider) (now : ℕ) (name : Text) (country : Option Text)
    (search : Text → Option Text → Fetched)
    → (screen p now name country search).result_code ≡ match
    → (screen p now name country search).matches ≢ []
unfolding screen mock_screen
screen-match mock_provider now name country search h = ground arith
screen-match comply_advantage_provider now name country search h =
    comply_screen-match (search name country) h

pub screen_wallet-match :
    (p : WalletScreeningProvider) (address : Text) {r : WalletScreeningResult}
    → Wallets.screen_wallet p address ≡ some r
    → r.result_code ≡ Wallets.match
    → r.matches ≢ []
unfolding Wallets.screen_wallet Wallets.mock_wallet_screen
screen_wallet-match mock_wallets address e h = ground arith
screen_wallet-match _ address e h = cc

-- The response lists no hit, or has no list of hits where the client looks for it.
abbrev pub HasNoHit : Payload → Type 0
HasNoHit p = (p.hits ≡ none) ⊎ (p.hits ≡ some [])

abbrev pub IsAnswer : Fetched → Payload → Type 0
IsAnswer f p = (status : ℕ) × (between 200 299 status ≡ true) × (f ≡ response status (some p))

normalize-clear : (p : Payload) → (normalize_comply_advantage p).result_code ≡ clear → HasNoHit p
unfolding normalize_comply_advantage matches_of
normalize-clear p h =
    elim (p.hits)
        as (λ hits.
          code_of_matches (matches_of 0 (elim hits [ none ↦ [] | some l ↦ l ])) ≡ clear
          → (hits ≡ none) ⊎ (hits ≡ some [])) [
            | none ↦ λ k. inl refl
            | some [] ↦ λ k. inr refl
            | some (hit ∷ hits) ↦ λ k. absurd (ground arith)
          ]
      h

comply_screen-clear :
    (f : Fetched)
    → (comply_screen f).result_code ≡ clear
    → (p : Payload) × IsAnswer f p × HasNoHit p
unfolding comply_screen
comply_screen-clear network_error h = cc
comply_screen-clear (response status none) h = ground arith
comply_screen-clear (response status (some payload)) h =
    (payload, (status, ground arith, refl), normalize-clear payload (ground arith))

clear-comply_screen :
    (f : Fetched)
    → (p : Payload) × IsAnswer f p × HasNoHit p
    → (comply_screen f).result_code ≡ clear
unfolding comply_screen normalize_comply_advantage matches_of
clear-comply_screen f (p, answer, h) = ground arith

-- A screening of a name at the provider is clear exactly when the request is answered with a status
-- from 200 to 299 and JSON that lists no hit, or has no list of hits. A network error, another
-- status or no JSON is never clear.
pub comply_screen-clear_iff :
    (f : Fetched)
    → ((comply_screen f).result_code ≡ clear) ↔ ((p : Payload) × IsAnswer f p × HasNoHit p)
comply_screen-clear_iff f = (comply_screen-clear f, clear-comply_screen f)
