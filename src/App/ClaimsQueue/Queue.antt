-- ===== src/App/ClaimsQueue/Queue.antt =====
-- What app/src/lib/claimsqueue.ts and app/src/lib/notifications/derive.ts derive from a claim.
use nextblock.Base.{ℕ, ◌+◌, ◌<◌, Text, Option, none, some, true, false, ◌≡◌, ◌≢◌, ◌↔◌, ◌⊎◌, arith}
use nextblock.App.ClaimsQueue.{
  ClaimLike, is_settled, claim_age_seconds, is_overdue, derive_claim_timeline, diff_claim_status,
  paid, rejected,
}

-- The timeline is in order: a claim that reached payment reached approval, one that reached approval
-- its assessment and dispute window, and none is both paid and rejected.
derive_claim_timeline-IsOrdered :
    (claim : ClaimLike)
    → let r = derive_claim_timeline claim in
      (r.paid ≡ true → r.approved ≡ true)
      × (r.approved ≡ true → (r.assessed ≡ true) × (r.dispute_window ≡ true))
      × (r.rejected ≡ true → (r.paid ≡ false) × (r.approved ≡ false))
unfolding derive_claim_timeline
derive_claim_timeline-IsOrdered claim = ground arith

-- A claim is overdue exactly when it is neither paid nor rejected and was submitted more than the
-- threshold ago.
is_overdue_iff :
    (claim : ClaimLike) (now threshold : ℕ)
    → (is_overdue claim now threshold ≡ true)
      ↔ ((claim.status ≢ paid) × (claim.status ≢ rejected) × (claim.submitted_at + threshold < now))
unfolding is_overdue is_settled claim_age_seconds
is_overdue_iff claim now threshold = ground arith

-- No notification is drafted exactly when the recipient knows the status, or sees the claim for the
-- first time and it is paid or rejected.
diff_claim_status-none_iff :
    (claim : ClaimLike) (recipient : Text) (last : Option ℕ)
    → (diff_claim_status claim recipient last ≡ none)
      ↔ ((last ≡ some claim.status) ⊎ ((last ≡ none) × (is_settled claim.status ≡ true)))
unfolding diff_claim_status is_settled
diff_claim_status-none_iff claim recipient last = ground arith
