-- ===== src/App/RateLimit/Windows.antt =====
-- The requests of one key within a window of app/src/lib/rate-limit.ts.
use nextblock.Base.{
  ℕ, ◌+◌, ◌-◌, ◌≤◌, ◌<◌, ◌≡◌, refl, ap, ◌∙◌, subst, ◌&&◌, arith, Text, List, [], ◌∷◌, some, Bool,
  true, false, text_key, text_eqb, text_eqb_iff, leb, if◌then◌else◌, All, Bool-cases, inl, inr,
  Option-cases,
}
use nextblock.Base.Table.{load, save, load-save}
use nextblock.App.RateLimit.{
  WindowEntry, RateLimitResult, Windows, without_expired, sweep, consume, opens, window_key,
  rate_limit_local,
}

load-without_expired :
    (now : ℕ) (k : Text) (entry : WindowEntry) (windows : Windows)
    → now < entry.reset_at
    → load k windows ≡ some entry
    → load k (without_expired now windows) ≡ some entry
unfolding load without_expired
load-without_expired now k entry [] h e = ground arith
load-without_expired now k entry ((j, w) ∷ windows) h e =
    ground (arith, load-without_expired now k entry windows h)

-- A window that is open is not swept.
load-sweep :
    (now : ℕ) (k : Text) (entry : WindowEntry) (windows : Windows)
    → now < entry.reset_at
    → load k windows ≡ some entry
    → load k (sweep now windows) ≡ some entry
unfolding sweep
load-sweep now k entry windows h e = ground (arith, load-without_expired now k entry windows h e)

pub record Request : Type 0 where
  pub now : ℕ
  pub bucket : Text
  pub ip : Text
  pub limit : ℕ
  pub window_ms : ℕ

abbrev pub key_of : Request → Text
key_of r = window_key r.bucket r.ip

abbrev pub answer : Request → Windows → RateLimitResult × Windows
answer r windows = rate_limit_local r.now r.bucket r.ip r.limit r.window_ms windows

abbrev count_if : Bool → ℕ
count_if b = if b then 1 else 0

-- The requests of a key, and those of them that are let through.
abbrev pub asked : Text → List Request → ℕ
asked k [] = 0
asked k (r ∷ requests) = count_if (text_eqb (key_of r) k) + asked k requests

abbrev pub let_through : Text → List Request → Windows → ℕ
let_through k [] windows = 0
let_through k (r ∷ requests) windows =
    count_if (text_eqb (key_of r) k && (answer r windows).0.allowed)
    + let_through k requests (answer r windows).1

-- The requests come before the window of the key ends, and those of the key carry one limit.
abbrev pub IsWithin : (k : Text) (limit reset_at : ℕ) → Request → Type 0
IsWithin k limit reset_at r = (r.now < reset_at) × (key_of r ≡ k → r.limit ≡ limit)

load-save_other :
    (j k : Text) (entry : WindowEntry) (windows : Windows)
    → text_eqb j k ≡ false
    → load k (save j entry windows) ≡ load k windows
load-save_other j k entry windows h = rw (load-save k j entry windows, h) refl

load-save_same :
    (k : Text) (entry : WindowEntry) (windows : Windows)
    → load k (save k entry windows) ≡ some entry
load-save_same k entry windows = ground (arith, load-save k k entry windows, text_eqb_iff k k)

consume-other :
    (now : ℕ) (j k : Text) (limit window_ms : ℕ) (windows : Windows)
    → text_eqb j k ≡ false
    → load k (consume now j limit window_ms windows).1 ≡ load k windows
unfolding consume
consume-other now j k limit window_ms windows h = elim (Option-cases (load j windows)) [
  | inl e ↦ ground (arith, load-save_other j k (opens now window_ms) windows h)
  | inr (entry, e) ↦ ground (
    arith,
    load-save_other j k (opens now window_ms) windows h,
    load-save_other j k (record entry { count = entry.count + 1 }) windows h,
  )
]

module _ (now : ℕ) (k : Text) (limit window_ms : ℕ) (windows : Windows) (entry : WindowEntry)
    (is_there : load k windows ≡ some entry) (is_open : now < entry.reset_at) where
  consume-full :
      limit ≤ entry.count
      → ((consume now k limit window_ms windows).0.allowed ≡ false)
        × (load k (consume now k limit window_ms windows).1 ≡ some entry)
  unfolding consume
  consume-full h = ground arith

  consume-room :
      entry.count < limit
      → ((consume now k limit window_ms windows).0.allowed ≡ true)
        × (load k (consume now k limit window_ms windows).1
            ≡ some (record entry { count = entry.count + 1 }))
  unfolding consume
  consume-room h =
      ground (arith, load-save_same k (record entry { count = entry.count + 1 }) windows)

-- Of n requests for an open window, those that the limit has room for are let through.
let_through_lem :
    (k : Text) (limit : ℕ) (requests : List Request) (windows : Windows) (entry : WindowEntry)
    → load k windows ≡ some entry
    → All (IsWithin k limit entry.reset_at) requests
    → let_through k requests windows
      ≡ (let n = asked k requests in if leb n (limit - entry.count) then n else limit - entry.count)
unfolding rate_limit_local
let_through_lem k limit [] windows entry e h = ground arith
let_through_lem k limit (r ∷ requests) windows entry e ((before, same), rest) =
    let swept = load-sweep r.now k entry windows before e in
    elim (Bool-cases (text_eqb (key_of r) k)) [
      | inr other ↦ ground (
        arith,
        let_through_lem k limit requests (answer r windows).1 entry
            (consume-other r.now (key_of r) k r.limit r.window_ms (sweep r.now windows) other
              ∙ swept)
            rest,
      )
      | inl is_k ↦
          let j = (text_eqb_iff (key_of r) k).0 is_k in
          let at_key = ap (λ t. load t (sweep r.now windows)) j ∙ swept in
          elim (Bool-cases (leb limit entry.count)) [
            | inl full ↦
                let facts =
                  consume-full r.now (key_of r) r.limit r.window_ms (sweep r.now windows) entry
                    at_key before (ground (arith, same j)) in
                ground (
                  arith,
                  facts.0,
                  let_through_lem k limit requests (answer r windows).1 entry
                      (subst (λ t. load t (answer r windows).1 ≡ some entry) j facts.1) rest,
                )
            | inr room ↦
                let more = record entry { count = entry.count + 1 } in
                let facts =
                  consume-room r.now (key_of r) r.limit r.window_ms (sweep r.now windows) entry
                    at_key before (ground (arith, same j)) in
                ground (
                  arith,
                  facts.0,
                  let_through_lem k limit requests (answer r windows).1 more
                      (subst (λ t. load t (answer r windows).1 ≡ some more) j facts.1) rest,
                )
          ]
    ]

pub consume-opens :
    (now : ℕ) (k : Text) (limit window_ms : ℕ) (windows : Windows)
    → ((entry : WindowEntry) → load k windows ≡ some entry → entry.reset_at ≤ now)
    → ((consume now k limit window_ms windows).0.allowed ≡ true)
      × (load k (consume now k limit window_ms windows).1 ≡ some (opens now window_ms))
unfolding consume
consume-opens now k limit window_ms windows h = elim (Option-cases (load k windows)) [
  | inl e ↦ ground (arith, load-save_same k (opens now window_ms) windows)
  | inr (entry, e) ↦ ground (arith, h entry e, load-save_same k (opens now window_ms) windows)
]

-- A request for a key whose window is over after the sweep is let through, and of the n requests for
-- the key until the new window ends, if they carry one limit, the smaller of n and limit - 1 (0 for
-- limit 0) are, whatever the requests for other keys.
pub window_lem :
    (r : Request) (limit : ℕ) (requests : List Request) (windows : Windows)
    → ((entry : WindowEntry)
        → load (key_of r) (sweep r.now windows) ≡ some entry
        → entry.reset_at ≤ r.now)
    → All (IsWithin (key_of r) limit (r.now + r.window_ms)) requests
    → let_through (key_of r) (r ∷ requests) windows
      ≡ 1 + (let n = asked (key_of r) requests in if leb n (limit - 1) then n else limit - 1)
unfolding rate_limit_local
window_lem r limit requests windows over within =
    let facts = consume-opens r.now (key_of r) r.limit r.window_ms (sweep r.now windows) over in
    ground (
      arith,
      facts.0,
      text_eqb_iff (key_of r) (key_of r),
      let_through_lem (key_of r) limit requests (answer r windows).1 (opens r.now r.window_ms)
          facts.1 within,
    )
