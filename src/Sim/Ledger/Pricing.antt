-- ===== src/Sim/Ledger/Pricing.antt =====
-- The two conversions of packages/sim/src/shadow/ledger.ts, one after the other.
use nextblock.Base.{ℕ, ◌+◌, ◌*◌, ◌/◌, ◌^◌, ◌≤◌, ◌≡◌, refl, arith}
use nextblock.Base.Division.{pow_pos, div_cross}
use native.Mathlib.Nat.{div-mul-le_self, div-le_of_le-mul, mul-le-mul_left, mul_comm}
use nextblock.Sim.Ledger.{
  ShadowState, unearned_premium, total_assets, shares_for_deposit, assets_for_redeem,
}

-- The vault after a deposit of `assets` that minted `shares`.
abbrev pub deposited : ShadowState → (assets shares : ℕ) → ShadowState
deposited s assets shares = record s {
  balance = s.balance + assets;
  total_shares = s.total_shares + shares;
}

unearned_premium-deposited :
    (s : ShadowState) (a n now : ℕ)
    → unearned_premium (deposited s a n) now ≡ unearned_premium s now
unfolding unearned_premium
unearned_premium-deposited s a n now = refl

total_assets-deposited :
    (s : ShadowState) (a n now : ℕ) → total_assets (deposited s a n) now ≤ total_assets s now + a
unfolding total_assets
total_assets-deposited s a n now = ground (arith, unearned_premium-deposited s a n now)

total_assets-deposited_solvent :
    (s : ShadowState) (a n now : ℕ)
    → unearned_premium s now + s.claim_reserve + s.accrued_fees ≤ s.balance
    → total_assets (deposited s a n) now ≡ total_assets s now + a
unfolding total_assets
total_assets-deposited_solvent s a n now h = ground (arith, unearned_premium-deposited s a n now)

-- n shares that cost at least their part of a out of b + 1 buy back at most a.
buy_back :
    (a n t v b b' : ℕ) → n * (b + 1) ≤ a * (t + v) → b' ≤ b + a → n * (b' + 1) ≤ (t + n + v) * a
buy_back a n t v b b' h hb =
    grind (arith, mul-le-mul_left {m = b' + 1} {n = b + a + 1} n, mul_comm n a)

-- Shares minted for a deposit and redeemed at once return no more than was deposited.
pub redeem-deposit :
    (s : ShadowState) (a now o : ℕ)
    → let n = shares_for_deposit s a now o in assets_for_redeem (deposited s a n) n now o ≤ a
unfolding shares_for_deposit assets_for_redeem
redeem-deposit s a now o =
    let v = 10 ^ o in
    let b = total_assets s now in
    let n = a * (s.total_shares + v) / (b + 1) in
    div-le_of_le-mul (s.total_shares + n + v) (
      buy_back a n s.total_shares v b (total_assets (deposited s a n) now)
        (div-mul-le_self (a * (s.total_shares + v)) (b + 1)) (total_assets-deposited s a n now))

fair :
    (a n t v b x : ℕ)
    → n * (b + 1) ≤ a * (t + v)
    → x * (b + 1) * (t + n + v) ≤ x * (b + a + 1) * (t + v)
fair a n t v b x h = grind (arith, mul-le-mul_left x h)

-- While the balance covers the liabilities, a deposit never lowers what a given number of shares
-- redeems for.
pub deposit-IsFair :
    (s : ShadowState) (a x now o : ℕ)
    → unearned_premium s now + s.claim_reserve + s.accrued_fees ≤ s.balance
    → assets_for_redeem s x now o
      ≤ assets_for_redeem (deposited s a (shares_for_deposit s a now o)) x now o
unfolding shares_for_deposit assets_for_redeem
deposit-IsFair s a x now o h =
    let v = 10 ^ o in
    let b = total_assets s now in
    let n = a * (s.total_shares + v) / (b + 1) in
    let b' = total_assets (deposited s a n) now in
    div_cross (x * (b + 1)) (s.total_shares + v) (x * (b' + 1)) (s.total_shares + n + v)
      (omega (arith, pow_pos o)) (omega (arith, pow_pos o))
      (rw (total_assets-deposited_solvent s a n now h)
        (fair a n s.total_shares v b x (div-mul-le_self (a * (s.total_shares + v)) (b + 1))))
