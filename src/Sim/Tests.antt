-- ===== src/Sim/Tests.antt =====
-- The properties of the ledger, the guards and the random stream at concrete books, texts and seeds.
use nextblock.Base.{
  ℕ, zero, suc, Text, List, [], ◌∷◌, false, map, ok, ◌≤◌, ◌≡◌, ◌↔◌, refl, arith, ◌+◌, ◌++◌,
}
use nextblock.Sim.Ledger.{
  ShadowState, Figures, unearned_premium, unearned_loop, unearned_of, total_assets,
  available_buffer, deployed_loop, shares_for_deposit, assets_for_redeem,
}
use nextblock.Sim.Ledger.Pricing.{deposited, redeem-deposit, deposit-IsFair}
use nextblock.Sim.Guards.{
  Signer, redacted_key, redact_loop, match_length, is_prefixed_key, is_key_body,
  assert_distinct_signers, redact, looks_like_key,
}
use nextblock.Sim.Guards.Signers.{assert_distinct_signers_iff, address_key, HasDistinct}
use nextblock.Sim.Guards.Loading.{redact-load_key}
use nextblock.Base.{some}
use nextblock.Sim.Guards.{load_key, load_present, is_well_formed, is_hex_run}
use nextblock.Sim.Guards.Redaction.{redact-IsClean}

-- Two policies over a balance of 1000: at 150 one is half earned and the other not incepted.
abbrev books : ShadowState
books = record {
  balance = 1000;
  total_shares = 800;
  allocated = (7, 300) ∷ [];
  claim_reserve = 50;
  accrued_fees = 10;
  policies =
      record { policy_id = 1; premium = 100; inception = 100; expiry = 200 }
      ∷ record { policy_id = 2; premium = 40; inception = 160; expiry = 260 }
      ∷ [];
}

books_unearned : unearned_premium books 150 ≡ 90
unfolding unearned_premium unearned_loop unearned_of
books_unearned = refl

books_buffer : available_buffer books 150 ≡ 550
unfolding available_buffer deployed_loop total_assets unearned_premium unearned_loop unearned_of
books_buffer = refl

redeem-deposit_example :
    assets_for_redeem
      (deposited books 333 (shares_for_deposit books 333 150 2))
      (shares_for_deposit books 333 150 2)
      150
      2
    ≤ 333
redeem-deposit_example = redeem-deposit books 333 150 2

books_solvent :
    unearned_premium books 150 + books.claim_reserve + books.accrued_fees ≤ books.balance
unfolding unearned_premium unearned_loop unearned_of
books_solvent = omega arith

deposit-IsFair_example :
    assets_for_redeem books 20 150 2
    ≤ assets_for_redeem (deposited books 333 (shares_for_deposit books 333 150 2)) 20 150 2
deposit-IsFair_example = deposit-IsFair books 333 20 150 2 books_solvent

abbrev expected : Figures
expected = record { balance = 1000; total_shares = 800; share_price = 1000000 }

abbrev observed : Figures
observed = record { balance = 1000; total_shares = 800; share_price = 1000101 }

-- "0xaB" and "0xAb" are one address.
abbrev signers : List Signer
signers =
    record { id = 65 ∷ []; address = 48 ∷ 120 ∷ 97 ∷ 66 ∷ [] }
    ∷ record { id = 66 ∷ []; address = 48 ∷ 120 ∷ 65 ∷ 98 ∷ [] }
    ∷ []

assert_distinct_signers_iff_example :
    (assert_distinct_signers signers ≡ ok tt) ↔ HasDistinct (map address_key signers)
assert_distinct_signers_iff_example = assert_distinct_signers_iff signers (refl, (refl, tt))

abbrev digits : ℕ → Text
digits zero = []
digits (suc n) = 97 ∷ digits n

-- "k=0x" with 64 digits, then a full stop.
abbrev leaking : Text
leaking = 107 ∷ 61 ∷ 48 ∷ 120 ∷ (digits 64 ++ (46 ∷ []))

leaking_redacted : redact leaking ≡ 107 ∷ 61 ∷ (redacted_key ++ (46 ∷ []))
unfolding redact redact_loop match_length is_prefixed_key is_key_body
leaking_redacted = refl

redact-IsClean_example :
    (looks_like_key (redact leaking) ≡ false)
    × (looks_like_key leaking ≡ false → redact leaking ≡ leaking)
redact-IsClean_example = redact-IsClean leaking

-- A key with a space before it and no prefix.
loaded : load_key (some (32 ∷ digits 64)) ≡ ok (48 ∷ 120 ∷ digits 64)
unfolding load_key load_present is_well_formed is_hex_run
loaded = refl

redact-load_key_example :
    (load_key (some (48 ∷ 120 ∷ digits 64)) ≡ ok (48 ∷ 120 ∷ digits 64))
    × (redact (48 ∷ 120 ∷ digits 64) ≡ redacted_key)
redact-load_key_example = redact-load_key (some (32 ∷ digits 64)) (48 ∷ 120 ∷ digits 64) loaded
