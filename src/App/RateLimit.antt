-- ===== src/App/RateLimit.antt =====
-- app/src/lib/rate-limit.ts without a store: the fixed window in memory. Times are milliseconds.
pub mod Windows
pub mod Ends
pub mod Retry
use nextblock.Base.{
  ℕ, ◌+◌, ◌-◌, ◌*◌, ◌/◌, Text, List, [], ◌∷◌, ◌++◌, map, length, Option, none, some, Bool, true,
  false, ltb, leb, eqb, between, to_lower, take, trim, text_key, if◌then◌else◌, ◌||◌, zero, suc,
}
use nextblock.Base.Table.{Table, load, save}

pub record WindowEntry : Type 0 where
  pub count : ℕ
  pub reset_at : ℕ

pub record RateLimitResult : Type 0 where
  pub allowed : Bool
  pub retry_after_seconds : ℕ

abbrev pub Windows : Type 0
Windows = Table Text WindowEntry

pub without_expired : (now : ℕ) → Windows → Windows
without_expired now [] = []
without_expired now ((key, entry) ∷ windows) =
    let rest = without_expired now windows in
    if leb entry.reset_at now then rest else (key, entry) ∷ rest

unfoldable pub sweep : (now : ℕ) → Windows → Windows
sweep now windows = if ltb (length windows) 1024 then windows else without_expired now windows

-- The characters of [a-z0-9:_-].
abbrev is_kept : ℕ → Bool
is_kept c = between 97 122 c || (between 48 58 c || (eqb c 95 || eqb c 45))

unfoldable pub normalize_bucket : Text → Text
normalize_bucket bucket = take 80 (map (λ c. if is_kept c then c else 45) (to_lower bucket))

-- "unknown"
abbrev unknown : Text
unknown = 117 ∷ 110 ∷ 107 ∷ 110 ∷ 111 ∷ 119 ∷ 110 ∷ []

abbrev or_unknown : Text → Text
or_unknown [] = unknown
or_unknown (c ∷ t) = c ∷ t

unfoldable pub normalize_subject : Text → Text
normalize_subject subject = or_unknown (take 200 (trim subject))

unfoldable pub window_key : (bucket ip : Text) → Text
window_key bucket ip = normalize_bucket bucket ++ (58 ∷ normalize_subject ip)

-- `Math.ceil(ms / 1000)`
abbrev pub ceil_seconds : ℕ → ℕ
ceil_seconds ms = (ms + 999) / 1000

abbrev pub allow : RateLimitResult
allow = record { allowed = true; retry_after_seconds = 0 }

abbrev pub opens : (now window_ms : ℕ) → WindowEntry
opens now window_ms = record { count = 1; reset_at = now + window_ms }

unfoldable pub consume :
    (now : ℕ) → Text → (limit window_ms : ℕ) → Windows → RateLimitResult × Windows
consume now key limit window_ms windows = elim (load key windows) [
  | none ↦ (allow, save key (opens now window_ms) windows)
  | some entry ↦
      if leb entry.reset_at now
      then (allow, save key (opens now window_ms) windows)
      else if leb limit entry.count
      then (
        record {
          allowed = false;
          retry_after_seconds =
              let left = ceil_seconds (entry.reset_at - now) in if ltb left 1 then 1 else left;
        },
        windows,
      )
      else (allow, save key (record entry { count = entry.count + 1 }) windows)
]

unfoldable pub rate_limit_local :
    (now : ℕ) (bucket ip : Text) (limit window_ms : ℕ) → Windows → RateLimitResult × Windows
rate_limit_local now bucket ip limit window_ms windows =
    consume now (window_key bucket ip) limit window_ms (sweep now windows)
