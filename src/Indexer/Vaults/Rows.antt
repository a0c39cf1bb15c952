-- ===== src/Indexer/Vaults/Rows.antt =====
-- The LP totals of indexer/src/insurance-vault.ts against the deposit and withdrawal rows.
use nextblock.Base.{
  ℕ, ◌+◌, ◌%◌, ◌^◌, ◌≡◌, refl, none, List, [], ◌∷◌, arith, eqb, inl, inr, Bool-cases, if◌then◌else◌,
}
use nextblock.Base.Keys.{number_key}
use nextblock.Base.Table.{Table, load, save, total, weight, total-save, load-save}
use nextblock.Indexer.Entities.{Vault, VaultDeposit, VaultWithdrawal}
use nextblock.Indexer.Log.{Meta, RowId, row_key, event_id}
use nextblock.Indexer.History.{HasDistinctIds, IsUnseen, IsUnseen-save}
use nextblock.Indexer.Vaults.{
  Store, Event, deposit, withdraw, portfolio_allocated, portfolio_deallocated,
  portfolio_premium_recorded, portfolio_claim_reserved, portfolio_claim_reserve_released,
  portfolio_claim_paid, fees_collected, vault_of, update_vault, count_deposit, count_withdrawal,
  deposit_row, withdrawal_row, handle, run,
}

-- A figure of vault `a` after a row of some vault was updated.
pub weight-update_vault :
    (a : ℕ) (m : Meta) (f : Vault → Vault) (t : Table ℕ Vault) (g : Vault → ℕ)
    → weight g (load a (update_vault m f t))
      ≡ (if eqb m.address a then g (f (vault_of m (load m.address t))) else weight g (load a t))
unfolding update_vault
weight-update_vault a m f t g =
    ground (arith, load-save a m.address (f (vault_of m (load m.address t))) t)

-- The figure `g` of every vault is the sum, reduced by `norm`, of what the rows add to that vault.
abbrev Sums :
    {R : Type 0} → (ℕ → ℕ) → (Vault → ℕ) → (ℕ → R → ℕ) → Table ℕ Vault → Table RowId R → Type 0
Sums norm g w vaults rows = (a : ℕ) → weight g (load a vaults) ≡ norm (total (w a) rows)

module _ {R : Type 0} (norm : ℕ → ℕ) (g : Vault → ℕ) (w : ℕ → R → ℕ) (m : Meta) (f : Vault → Vault)
    (vaults : Table ℕ Vault) (rows : Table RowId R) (fresh : g (vault_of m none) ≡ 0) where
  keep-Sums :
      ((v : Vault) → g (f v) ≡ g v)
      → Sums norm g w vaults rows
      → Sums norm g w (update_vault m f vaults) rows
  keep-Sums same h a = ground (
    arith,
    weight-update_vault a m f vaults g,
    same (vault_of m (load m.address vaults)),
    fresh,
    h a,
  )

  -- A new row of the emitting vault adds `d` to it and nothing to the others.
  add-Sums :
      (r : R) (d : ℕ)
      → ((a : ℕ) → w a r ≡ (if eqb m.address a then d else 0))
      → ((v : Vault) (n : ℕ) → g v ≡ norm n → g (f v) ≡ norm (n + d))
      → load (event_id m) rows ≡ none
      → Sums norm g w vaults rows
      → Sums norm g w (update_vault m f vaults) (save (event_id m) r rows)
  add-Sums r d own step new h a = elim (Bool-cases (eqb m.address a)) [
    | inl here ↦ ground (
      arith,
      weight-update_vault a m f vaults g,
      total-save (w a) (event_id m) r rows,
      own a,
      step (vault_of m (load m.address vaults)) (total (w a) rows),
      fresh,
      h a,
    )
    | inr other ↦ ground (
      arith,
      weight-update_vault a m f vaults g,
      total-save (w a) (event_id m) r rows,
      own a,
      h a,
    )
  ]

abbrev plain : ℕ → ℕ
plain n = n

abbrev as_i32 : ℕ → ℕ
as_i32 n = n % 2 ^ 32

pub record Reconciles (vaults : Table ℕ Vault) (deposits : Table RowId VaultDeposit)
    (withdrawals : Table RowId VaultWithdrawal) : Type 0 where
  pub deposited :
      Sums plain
        (λ v. v.total_deposited)
        (λ a r. if eqb r.vault a then r.assets else 0)
        vaults
        deposits
  pub deposit_counts :
      Sums as_i32 (λ v. v.deposit_count) (λ a r. if eqb r.vault a then 1 else 0) vaults deposits
  pub withdrawn :
      Sums plain
        (λ v. v.total_withdrawn)
        (λ a r. if eqb r.vault a then r.assets else 0)
        vaults
        withdrawals
  pub withdrawal_counts :
      Sums as_i32 (λ v. v.withdraw_count) (λ a r. if eqb r.vault a then 1 else 0) vaults withdrawals

module _ (m : Meta) (vaults : Table ℕ Vault) (ds : Table RowId VaultDeposit)
    (ws : Table RowId VaultWithdrawal) (r : Reconciles vaults ds ws) where
  -- An update that leaves the four figures alone keeps the reconciliation.
  keep-Reconciles :
      (f : Vault → Vault)
      → ((v : Vault)
          → ((f v).total_deposited ≡ v.total_deposited)
            × ((f v).deposit_count ≡ v.deposit_count)
            × ((f v).total_withdrawn ≡ v.total_withdrawn)
            × ((f v).withdraw_count ≡ v.withdraw_count))
      → Reconciles (update_vault m f vaults) ds ws
  keep-Reconciles f h = record {
    deposited = keep-Sums plain _ _ m f vaults ds refl (λ v. (h v).0) r.deposited;
    deposit_counts = keep-Sums as_i32 _ _ m f vaults ds refl (λ v. (h v).1) r.deposit_counts;
    withdrawn = keep-Sums plain _ _ m f vaults ws refl (λ v. (h v).2) r.withdrawn;
    withdrawal_counts = keep-Sums as_i32 _ _ m f vaults ws refl (λ v. (h v).3) r.withdrawal_counts;
  }

  deposit-Reconciles :
      (sender owner assets shares : ℕ)
      → load (event_id m) ds ≡ none
      → Reconciles
          (update_vault m (count_deposit assets) vaults)
          (save (event_id m) (deposit_row m sender owner assets shares) ds)
          ws
  deposit-Reconciles sender owner assets shares new =
      let f = count_deposit assets in
      let row = deposit_row m sender owner assets shares in
      record {
        deposited =
            add-Sums plain _ _ m f vaults ds refl row assets (λ a. refl) (λ v n e. omega arith) new
              r.deposited;
        deposit_counts =
            add-Sums as_i32 _ _ m f vaults ds refl row 1 (λ a. refl) (λ v n e. omega arith) new
              r.deposit_counts;
        withdrawn = keep-Sums plain _ _ m f vaults ws refl (λ v. refl) r.withdrawn;
        withdrawal_counts = keep-Sums as_i32 _ _ m f vaults ws refl (λ v. refl) r.withdrawal_counts;
      }

  withdraw-Reconciles :
      (sender receiver owner assets shares : ℕ)
      → load (event_id m) ws ≡ none
      → Reconciles
          (update_vault m (count_withdrawal assets) vaults)
          ds
          (save (event_id m) (withdrawal_row m sender receiver owner assets shares) ws)
  withdraw-Reconciles sender receiver owner assets shares new =
      let f = count_withdrawal assets in
      let row = withdrawal_row m sender receiver owner assets shares in
      record {
        deposited = keep-Sums plain _ _ m f vaults ds refl (λ v. refl) r.deposited;
        deposit_counts = keep-Sums as_i32 _ _ m f vaults ds refl (λ v. refl) r.deposit_counts;
        withdrawn =
            add-Sums plain _ _ m f vaults ws refl row assets (λ a. refl) (λ v n e. omega arith) new
              r.withdrawn;
        withdrawal_counts =
            add-Sums as_i32 _ _ m f vaults ws refl row 1 (λ a. refl) (λ v n e. omega arith) new
              r.withdrawal_counts;
      }

abbrev pub IsReconciled : Store → Type 0
IsReconciled s = Reconciles s.vaults s.deposits s.withdrawals

-- Before a history of InsuranceVault events with distinct ids, whose rows are new to the tables, let
-- each vault's totals be the sums of its rows and its i32 counters the numbers of its rows modulo
-- 2^32. Then this holds after the history.
pub run-IsReconciled :
    (es : List (Meta × Event)) (s : Store)
    → HasDistinctIds es
    → IsUnseen s.deposits es
    → IsUnseen s.withdrawals es
    → IsReconciled s
    → IsReconciled (run es s)
unfolding run handle
run-IsReconciled [] s d u w r = r
run-IsReconciled ((m, deposit sender owner assets shares) ∷ es) s d u w r =
    run-IsReconciled es _ d.1 (IsUnseen-save m _ s.deposits es d.0 u.1) w.1
      (deposit-Reconciles m s.vaults s.deposits s.withdrawals r sender owner assets shares u.0)
run-IsReconciled ((m, withdraw sender receiver owner assets shares) ∷ es) s d u w r =
    run-IsReconciled es _ d.1 u.1 (IsUnseen-save m _ s.withdrawals es d.0 w.1) (
      withdraw-Reconciles m s.vaults s.deposits s.withdrawals r sender receiver owner assets shares
        w.0)
run-IsReconciled ((m, portfolio_allocated portfolio amount) ∷ es) s d u w r =
    run-IsReconciled es _ d.1 u.1 w.1 r
run-IsReconciled ((m, portfolio_deallocated portfolio amount) ∷ es) s d u w r =
    run-IsReconciled es _ d.1 u.1 w.1 r
run-IsReconciled ((m, portfolio_premium_recorded portfolio from amount) ∷ es) s d u w r =
    run-IsReconciled es _ d.1 u.1 w.1
      (keep-Reconciles m s.vaults s.deposits s.withdrawals r _ (λ v. (refl, refl, refl, refl)))
run-IsReconciled ((m, portfolio_claim_reserved portfolio claim amount) ∷ es) s d u w r =
    run-IsReconciled es _ d.1 u.1 w.1
      (keep-Reconciles m s.vaults s.deposits s.withdrawals r _ (λ v. (refl, refl, refl, refl)))
run-IsReconciled ((m, portfolio_claim_reserve_released portfolio claim amount) ∷ es) s d u w r =
    run-IsReconciled es _ d.1 u.1 w.1
      (keep-Reconciles m s.vaults s.deposits s.withdrawals r _ (λ v. (refl, refl, refl, refl)))
run-IsReconciled ((m, portfolio_claim_paid portfolio claim to amount) ∷ es) s d u w r =
    run-IsReconciled es _ d.1 u.1 w.1
      (keep-Reconciles m s.vaults s.deposits s.withdrawals r _ (λ v. (refl, refl, refl, refl)))
run-IsReconciled ((m, fees_collected recipient amount) ∷ es) s d u w r =
    run-IsReconciled es _ d.1 u.1 w.1
      (keep-Reconciles m s.vaults s.deposits s.withdrawals r _ (λ v. (refl, refl, refl, refl)))
