-- ===== src/Sim/Ledger/Earning.antt =====
-- The earning of premium in packages/sim/src/shadow/ledger.ts.
use nextblock.Base.{ℕ, ◌+◌, ◌*◌, ◌-◌, ◌^◌, ◌≤◌, ◌≡◌, refl, List, [], ◌∷◌, arith, sum_of, All}
use nextblock.Base.Division.{div_mono, mul-div-le}
use native.Mathlib.Nat.{mul-le-mul_left, mul-le-mul_right}
use nextblock.Sim.Ledger.{
  PolicyEntry, ShadowState, unearned_of, unearned_loop, unearned_premium, total_assets, share_price,
}

pub unearned_loop-sum :
    (now total : ℕ) (ps : List PolicyEntry)
    → unearned_loop now total ps ≡ total + sum_of (unearned_of now) ps
unfolding unearned_loop
unearned_loop-sum now total [] = omega arith
unearned_loop-sum now total (p ∷ ps) =
    omega (arith, unearned_loop-sum now (total + unearned_of now p) ps)

unearned_of-le : (now : ℕ) (p : PolicyEntry) → unearned_of now p ≤ p.premium
unfolding unearned_of
unearned_of-le now p =
    ground (arith, mul-div-le p.premium (p.expiry - now) (p.expiry - p.inception))

unearned_of-antitone : (t u : ℕ) (p : PolicyEntry) → t ≤ u → unearned_of u p ≤ unearned_of t p
unfolding unearned_of
unearned_of-antitone t u p h = ground (
  arith,
  mul-div-le p.premium (p.expiry - u) (p.expiry - p.inception),
  div_mono (p.premium * (p.expiry - u)) (p.premium * (p.expiry - t)) (p.expiry - p.inception),
  mul-le-mul_left {m = p.expiry - u} {n = p.expiry - t} p.premium,
)

sum_of-le :
    {A : Type 0} (f g : A → ℕ) (xs : List A) → ((x : A) → f x ≤ g x) → sum_of f xs ≤ sum_of g xs
sum_of-le f g [] h = omega arith
sum_of-le f g (x ∷ xs) h = omega (arith, h x, sum_of-le f g xs h)

-- The unearned premium is never more than the premium written, and it only falls as time passes.
unearned_premium-bounds :
    (s : ShadowState) (t u : ℕ)
    → t ≤ u
    → (unearned_premium s u ≤ unearned_premium s t)
      × (unearned_premium s t ≤ sum_of (λ p. p.premium) s.policies)
unfolding unearned_premium
unearned_premium-bounds s t u h = (
  rw (unearned_loop-sum u 0 s.policies, unearned_loop-sum t 0 s.policies)
      (omega (
        arith,
        sum_of-le (unearned_of u) (unearned_of t) s.policies (λ p. unearned_of-antitone t u p h),
      )),
  rw (unearned_loop-sum t 0 s.policies)
      (omega (arith, sum_of-le (unearned_of t) (λ p. p.premium) s.policies (unearned_of-le t))),
)

unearned_of-expired : (now : ℕ) (p : PolicyEntry) → p.expiry ≤ now → unearned_of now p ≡ 0
unfolding unearned_of
unearned_of-expired now p h = ground arith

unearned_loop-expired :
    (now total : ℕ) (ps : List PolicyEntry)
    → All (λ p. p.expiry ≤ now) ps
    → unearned_loop now total ps ≡ total
unfolding unearned_loop
unearned_loop-expired now total [] h = refl
unearned_loop-expired now total (p ∷ ps) (h, hs) = omega (
  arith,
  unearned_loop-expired now (total + unearned_of now p) ps hs,
  unearned_of-expired now p h,
)

-- Once every policy has expired, nothing is unearned.
unearned_premium-expired :
    (s : ShadowState) (now : ℕ) → All (λ p. p.expiry ≤ now) s.policies → unearned_premium s now ≡ 0
unfolding unearned_premium
unearned_premium-expired s now h = unearned_loop-expired now 0 s.policies h

total_assets_mono : (s : ShadowState) (t u : ℕ) → t ≤ u → total_assets s t ≤ total_assets s u
unfolding total_assets
total_assets_mono s t u h = ground (arith, (unearned_premium-bounds s t u h).0)

-- With no other change, the price of a share never falls as time passes.
share_price_mono : (s : ShadowState) (t u d : ℕ) → t ≤ u → share_price s t d ≤ share_price s u d
unfolding share_price
share_price_mono s t u d h = ground (
  arith,
  div_mono (total_assets s t * 10 ^ d) (total_assets s u * 10 ^ d) s.total_shares
      (mul-le-mul_right (10 ^ d) (total_assets_mono s t u h)),
)
