-- ===== src/Sim/Ledger.antt =====
-- packages/sim/src/shadow/ledger.ts: the independent account of the vault. Amounts, shares and unix
-- seconds are natural numbers; the differences that the source floors at zero are so here.
pub mod Earning
pub mod Pricing
pub mod Compare
use nextblock.Base.{ℕ, ◌+◌, ◌-◌, ◌*◌, ◌/◌, ◌^◌, List, [], ◌∷◌, ◌++◌, ltb, leb, eqb, if◌then◌else◌}

pub record PolicyEntry : Type 0 where
  pub policy_id : ℕ
  pub premium : ℕ
  pub inception : ℕ
  pub expiry : ℕ

-- `allocated` is a Map: its entries in order of insertion.
pub record ShadowState : Type 0 where
  pub balance : ℕ
  pub total_shares : ℕ
  pub allocated : List (ℕ × ℕ)
  pub claim_reserve : ℕ
  pub accrued_fees : ℕ
  pub policies : List PolicyEntry

abbrev pub empty_state : ShadowState
empty_state = record {
  balance = 0;
  total_shares = 0;
  allocated = [];
  claim_reserve = 0;
  accrued_fees = 0;
  policies = [];
}

-- What one round of the loop of `unearnedPremium` adds. The span is positive or the source's is
-- not, since the difference stops at 0.
unfoldable pub unearned_of : ℕ → PolicyEntry → ℕ
unearned_of now p =
    if leb p.expiry now
    then 0
    else if leb now p.inception
    then p.premium
    else let span = p.expiry - p.inception in
      if leb span 0 then 0 else p.premium * (p.expiry - now) / span

unfoldable pub unearned_loop : ℕ → ℕ → List PolicyEntry → ℕ
unearned_loop now total [] = total
unearned_loop now total (p ∷ ps) = unearned_loop now (total + unearned_of now p) ps

unfoldable pub unearned_premium : ShadowState → ℕ → ℕ
unearned_premium s now = unearned_loop now 0 s.policies

unfoldable pub total_assets : ShadowState → ℕ → ℕ
total_assets s now =
    let liabilities = unearned_premium s now + s.claim_reserve + s.accrued_fees in
    if ltb liabilities s.balance then s.balance - liabilities else 0

unfoldable pub deployed_loop : ℕ → List (ℕ × ℕ) → ℕ
deployed_loop deployed [] = deployed
deployed_loop deployed ((id, amount) ∷ entries) = deployed_loop (deployed + amount) entries

unfoldable pub available_buffer : ShadowState → ℕ → ℕ
available_buffer s now =
    let deployed = deployed_loop 0 s.allocated in
    let assets = total_assets s now in if ltb deployed assets then assets - deployed else 0

pub shares_for_deposit : ShadowState → (assets now decimals_offset : ℕ) → ℕ
shares_for_deposit s assets now decimals_offset =
    let virtual_shares = 10 ^ decimals_offset in
    assets * (s.total_shares + virtual_shares) / (total_assets s now + 1)

pub assets_for_redeem : ShadowState → (shares now decimals_offset : ℕ) → ℕ
assets_for_redeem s shares now decimals_offset =
    let virtual_shares = 10 ^ decimals_offset in
    shares * (total_assets s now + 1) / (s.total_shares + virtual_shares)

abbrev pub par : ℕ
par = 1000000

abbrev pub one_bps : ℕ
one_bps = par / 10000

pub share_price : ShadowState → (now share_decimals : ℕ) → ℕ
share_price s now share_decimals =
    if eqb s.total_shares 0 then par else total_assets s now * 10 ^ share_decimals / s.total_shares

pub data Field : Type 0 where
  balance total_shares share_price_field : Field

pub record Divergence : Type 0 where
  pub field : Field
  pub expected : ℕ
  pub observed : ℕ
  pub delta : ℕ

pub record Figures : Type 0 where
  pub balance : ℕ
  pub total_shares : ℕ
  pub share_price : ℕ

-- The absolute difference.
pub abs_diff : ℕ → ℕ → ℕ
abs_diff a b = if ltb a b then b - a else a - b

abbrev diverged : Field → ℕ → ℕ → Divergence
diverged field expected observed = record {
  field = field;
  expected = expected;
  observed = observed;
  delta = abs_diff expected observed;
}

pub compare : Figures → Figures → List Divergence
compare e o =
    (if eqb e.balance o.balance then [] else diverged balance e.balance o.balance ∷ [])
    ++ ((if eqb e.total_shares o.total_shares
          then []
          else diverged total_shares e.total_shares o.total_shares ∷ [])
        ++ (if ltb one_bps (abs_diff e.share_price o.share_price)
            then diverged share_price_field e.share_price o.share_price ∷ []
            else []))
