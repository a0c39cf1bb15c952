-- ===== src/App/RateLimit/Retry.antt =====
-- A refused request that waits for `retryAfterSeconds` of app/src/lib/rate-limit.ts.
use nextblock.Base.{
  ℕ, ◌+◌, ◌*◌, ◌≤◌, ◌≡◌, sym, subst, arith, Text, List, [], ◌∷◌, some, true, false, text_key,
  text_eqb, All, inl, inr, Option-cases,
}
use nextblock.Base.Table.{load}
use nextblock.App.RateLimit.{WindowEntry, Windows, sweep, consume, opens, rate_limit_local}
use nextblock.App.RateLimit.Windows.{Request, key_of, answer, consume-opens}
use nextblock.App.RateLimit.Ends.{
  IsDistinct, EndsBy, IsDistinct-EndsBy, save-IsDistinct, save-EndsBy, EndsBy-load,
  sweep-IsDistinct, sweep-EndsBy,
}

consume-IsDistinct :
    (now : ℕ) (k : Text) (limit window_ms : ℕ) (windows : Windows)
    → IsDistinct windows
    → IsDistinct (consume now k limit window_ms windows).1
unfolding consume
consume-IsDistinct now k limit window_ms windows d = elim (Option-cases (load k windows)) [
  | inl e ↦ ground (arith, save-IsDistinct k (opens now window_ms) windows d)
  | inr (entry, e) ↦ ground (
    arith,
    save-IsDistinct k (opens now window_ms) windows d,
    save-IsDistinct k (record entry { count = entry.count + 1 }) windows d,
  )
]

consume-EndsBy :
    (now : ℕ) (j k : Text) (limit window_ms t : ℕ) (windows : Windows)
    → text_eqb j k ≡ false
    → EndsBy k t windows
    → EndsBy k t (consume now j limit window_ms windows).1
unfolding consume
consume-EndsBy now j k limit window_ms t windows other h = elim (Option-cases (load j windows)) [
  | inl e ↦ ground (arith, save-EndsBy j k t (opens now window_ms) windows other h)
  | inr (entry, e) ↦ ground (
    arith,
    save-EndsBy j k t (opens now window_ms) windows other h,
    save-EndsBy j k t (record entry { count = entry.count + 1 }) windows other h,
  )
]

-- A refusal leaves the windows, and names the end of the one that is full.
consume-refused :
    (now : ℕ) (k : Text) (limit window_ms : ℕ) (windows : Windows)
    → (consume now k limit window_ms windows).0.allowed ≡ false
    → ((consume now k limit window_ms windows).1 ≡ windows)
      × ((entry : WindowEntry) × ((load k windows ≡ some entry)
            × (entry.reset_at
                ≤ now + 1000 * (consume now k limit window_ms windows).0.retry_after_seconds)))
unfolding consume
consume-refused now k limit window_ms windows h = elim (Option-cases (load k windows)) [
  | inl e ↦ ground arith
  | inr (entry, e) ↦ (ground arith, (entry, (e, ground arith)))
]

-- The windows after requests.
abbrev pub after : List Request → Windows → Windows
after [] windows = windows
after (r ∷ requests) windows = after requests (answer r windows).1

after-IsDistinct :
    (requests : List Request) (windows : Windows)
    → IsDistinct windows
    → IsDistinct (after requests windows)
unfolding rate_limit_local
after-IsDistinct [] windows d = d
after-IsDistinct (r ∷ requests) windows d = after-IsDistinct requests (answer r windows).1 (
    consume-IsDistinct r.now (key_of r) r.limit r.window_ms (sweep r.now windows)
      (sweep-IsDistinct r.now windows d))

abbrev pub IsOther : Text → Request → Type 0
IsOther k r = text_eqb (key_of r) k ≡ false

after-EndsBy :
    (k : Text) (t : ℕ) (requests : List Request) (windows : Windows)
    → All (IsOther k) requests
    → EndsBy k t windows
    → EndsBy k t (after requests windows)
unfolding rate_limit_local
after-EndsBy k t [] windows others h = h
after-EndsBy k t (r ∷ requests) windows (other, others) h =
    after-EndsBy k t requests (answer r windows).1 others (
      consume-EndsBy r.now (key_of r) k r.limit r.window_ms t (sweep r.now windows) other
        (sweep-EndsBy r.now k t windows h))

-- When a request is refused, after any requests since the start, and its key makes no other request
-- until the time that the answer names, whatever other keys ask, then its next request from that
-- time on is let through.
pub retry_lem :
    (before : List Request) (r : Request) (between : List Request) (again : Request)
    → (answer r (after before [])).0.allowed ≡ false
    → All (IsOther (key_of r)) between
    → key_of again ≡ key_of r
    → r.now + 1000 * (answer r (after before [])).0.retry_after_seconds ≤ again.now
    → (answer again (after between (answer r (after before [])).1)).0.allowed ≡ true
unfolding rate_limit_local
retry_lem before r between again refused others same late =
    let swept = sweep r.now (after before []) in
    let (unchanged, (entry, (at_key, ends))) =
      consume-refused r.now (key_of r) r.limit r.window_ms swept refused in
    let distinct : IsDistinct swept =
      sweep-IsDistinct r.now (after before []) (after-IsDistinct before [] tt) in
    let ends_by =
      after-EndsBy (key_of r) entry.reset_at between (answer r (after before [])).1 others (
        subst (EndsBy (key_of r) entry.reset_at) (sym unchanged)
          (IsDistinct-EndsBy (key_of r) entry swept distinct at_key)) in
    let now_swept = sweep again.now (after between (answer r (after before [])).1) in
    (consume-opens again.now (key_of again) again.limit again.window_ms now_swept (λ w e. ground (
      arith,
      EndsBy-load (key_of r) entry.reset_at now_swept w
          (sweep-EndsBy again.now (key_of r) entry.reset_at _ ends_by)
          (subst (λ k. load k now_swept ≡ some w) same e),
    ))).0
