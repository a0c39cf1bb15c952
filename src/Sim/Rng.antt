-- ===== src/Sim/Rng.antt =====
-- packages/sim/src/risk/prng.ts: the seeded stream. A 32-bit word is a number below 2 ^ 32, with every
-- wrap-around written out; a draw from [0, 1) is the word that the source multiplies by 2 ^ -32.
pub mod Bounds
use Prim.Native.Nat.{bit_xor, bit_or}
use nextblock.Base.{
  ℕ, ◌+◌, ◌-◌, ◌*◌, ◌/◌, ◌%◌, ◌^◌, [], ◌∷◌, Text, eqb, ltb, if◌then◌else◌, Result, ok, err,
}

abbrev pub word : ℕ → ℕ
word n = n % 2 ^ 32

-- `Math.imul`, up to the sign that the source takes off.
abbrev pub imul : ℕ → ℕ → ℕ
imul a b = word (a * b)

pub hash_loop : ℕ → Text → ℕ
hash_loop h [] = word h
hash_loop h (c ∷ label) = hash_loop (imul (bit_xor h c) 0x01000193) label

pub hash_label : Text → (seed : ℕ) → ℕ
hash_label label seed = hash_loop (bit_xor seed 0x9e3779b9) label

-- One call of the closure of `splitmix32`: the new counter and the word.
pub splitmix32 : ℕ → ℕ × ℕ
splitmix32 counter =
    let a = word (counter + 0x9e3779b9) in
    let t = imul (bit_xor a (a / 2 ^ 16)) 0x21f0aaad in
    let u = imul (bit_xor t (t / 2 ^ 15)) 0x735a2d97 in (a, bit_xor u (u / 2 ^ 15))

pub record Rng : Type 0 where
  pub s0 : ℕ
  pub s1 : ℕ
  pub s2 : ℕ
  pub s3 : ℕ

-- `makeRng` on a seed of 32 bits.
pub make_rng : ℕ → Rng
make_rng seed =
    let (a0, s0) = splitmix32 (word seed) in
    let (a1, s1) = splitmix32 a0 in
    let (a2, s2) = splitmix32 a1 in
    let (a3, s3) = splitmix32 a2 in
    record {
      s0 = if eqb (bit_or (bit_or (bit_or s0 s1) s2) s3) 0 then 1 else s0;
      s1 = s1;
      s2 = s2;
      s3 = s3;
    }

-- `makeRng` on a text.
pub make_named_rng : Text → Rng
make_named_rng seed = make_rng (hash_label seed 0)

pub rotl : ℕ → (k : ℕ) → ℕ
rotl x k = bit_or (word (x * 2 ^ k)) (x / 2 ^ (32 - k))

unfoldable pub next_uint32 : Rng → ℕ × Rng
next_uint32 r =
    let result = imul (rotl (imul r.s1 5) 7) 9 in
    let t = word (r.s1 * 2 ^ 9) in
    let s2 = bit_xor r.s2 r.s0 in
    let s3 = bit_xor r.s3 r.s1 in
    (
      result,
      record { s0 = bit_xor r.s0 s3; s1 = bit_xor r.s1 s2; s2 = bit_xor s2 t; s3 = rotl s3 11 },
    )

pub data EmptyRange : Type 0 where
  empty_range : EmptyRange

-- An integer of [lo, hi]. The product of the source is exact up to 2 ^ 53, so for ranges of up to
-- 2 ^ 21 integers.
unfoldable pub int : (lo hi : ℕ) → Rng → Result EmptyRange (ℕ × Rng)
int lo hi r =
    let (u, rest) = next_uint32 r in
    if ltb hi lo then err empty_range else ok (lo + u * (hi - lo + 1) / 2 ^ 32, rest)

pub fork : Text → Rng → Rng × Rng
fork label r = let (u, rest) = next_uint32 r in (make_rng (hash_label label u), rest)
