-- ===== src/App/OracleNode.antt =====
-- app/src/lib/oracle-node.ts: the canonical serializer. The number type and what JSON.stringify makes
-- of a number are parameters; the hash and the HMAC are calls of other libraries.
pub mod Sorted
pub mod Signature
pub mod Report
mod Tests
use nextblock.Base.{
  ℕ, ◌+◌, ◌-◌, ◌/◌, ◌%◌, Text, codes, text_leb, between, ltb, eqb, List, [], ◌∷◌, ◌++◌, Option,
  none, some, Bool, true, false, ◌&&◌, ◌||◌, not, if◌then◌else◌, Result, ok, err, and_then,
}

-- The values of the source; `undefined` stands with `other`, a bigint, a function or a symbol, for
-- what is no JSON. The fields of an object come in the order of its keys.
mutual
  pub data CanonicalValue (N : Type 0) : Type 0 where
    null undefined other : CanonicalValue N
    text : Text → CanonicalValue N
    boolean : Bool → CanonicalValue N
    number : N → CanonicalValue N
    array : Items N → CanonicalValue N
    object : Fields N → CanonicalValue N

  pub data Items (N : Type 0) : Type 0 where
    nil : Items N
    cons : CanonicalValue N → Items N → Items N

  pub data Fields (N : Type 0) : Type 0 where
    end : Fields N
    field : (key : Text) → CanonicalValue N → Fields N → Fields N

pub data CanonicalError : Type 0 where
  non_finite unsupported : CanonicalError
  undefined_value : (key : Text) → CanonicalError

abbrev pub hex_digit : ℕ → ℕ
hex_digit n = if ltb n 10 then 48 + n else 87 + n

-- `\uXXXX`
abbrev unicode_escape : ℕ → Text
unicode_escape c =
    92
    ∷ 117
    ∷ hex_digit (c / 4096)
    ∷ hex_digit (c / 256 % 16)
    ∷ hex_digit (c / 16 % 16)
    ∷ hex_digit (c % 16)
    ∷ []

-- A code unit that is no surrogate.
json_char : ℕ → Text
json_char c =
    if eqb c 34 || eqb c 92
    then 92 ∷ c ∷ []
    else if eqb c 8
    then codes "\\b"
    else if eqb c 9
    then codes "\\t"
    else if eqb c 10
    then codes "\\n"
    else if eqb c 12
    then codes "\\f"
    else if eqb c 13
    then codes "\\r"
    else if ltb c 32
    then unicode_escape c
    else c ∷ []

abbrev is_high : ℕ → Bool
is_high c = between 55296 56319 c

abbrev is_low : ℕ → Bool
is_low c = between 56320 57343 c

abbrev starts_low : Text → Bool
starts_low [] = false
starts_low (c ∷ t) = is_low c

-- `after_high` says that the unit before is the first half of a pair.
json_chars : (after_high : Bool) → Text → Text
unfolding json_char
json_chars after_high [] = []
json_chars after_high (c ∷ t) =
    (if is_high c
      then (if starts_low t then c ∷ [] else unicode_escape c)
      else if is_low c
      then (if after_high then c ∷ [] else unicode_escape c)
      else json_char c)
    ++ json_chars (is_high c && starts_low t) t

-- `JSON.stringify` of a text.
unfoldable pub json_text : Text → Text
unfolding json_chars
json_text t = 34 ∷ (json_chars false t ++ (34 ∷ []))

abbrev pub Entry : Type 0
Entry = Text × Result CanonicalError Text

-- `Object.keys(value).sort()`, with each key's value at hand.
unfoldable pub insert_entry : Entry → List Entry → List Entry
insert_entry e [] = e ∷ []
insert_entry e (f ∷ entries) =
    let rest = insert_entry e entries in if text_leb e.0 f.0 then e ∷ f ∷ entries else f ∷ rest

unfoldable pub sort_entries : List Entry → List Entry
unfolding insert_entry
sort_entries [] = []
sort_entries (e ∷ entries) = insert_entry e (sort_entries entries)

abbrev comma_before : Text → Text
comma_before [] = []
comma_before (c ∷ t) = 44 ∷ c ∷ t

-- The parts of the object, joined by commas; the first value that has no text throws.
unfoldable pub join_entries : List Entry → Result CanonicalError Text
join_entries [] = ok []
join_entries ((k, v) ∷ entries) =
    let rest = join_entries entries in
    and_then v
      λ part. and_then rest λ parts. ok (json_text k ++ (58 ∷ (part ++ comma_before parts)))

abbrev number_text : Option Text → Result CanonicalError Text
number_text none = err non_finite
number_text (some t) = ok t

abbrev pub wrap : (open_ close : ℕ) → Result CanonicalError Text → Result CanonicalError Text
wrap open_ close r = and_then r λ t. ok (open_ ∷ (t ++ (close ∷ [])))

-- What an object has for a key, from the text of its value.
unfoldable pub field_text :
    {N : Type 0} (key : Text)
    → CanonicalValue N
    → Result CanonicalError Text
    → Result CanonicalError Text
field_text k undefined r = err (undefined_value k)
field_text k v r = r

module _ {N : Type 0} (json_number : N → Option Text) where
  unfoldable mutual
    unfolding sort_entries join_entries

    -- `JSON.stringify` gives none for a number that is not finite.
    pub canonical_json : CanonicalValue N → Result CanonicalError Text
    canonical_json null = ok (codes "null")
    canonical_json undefined = err unsupported
    canonical_json other = err unsupported
    canonical_json (text t) = ok (json_text t)
    canonical_json (boolean b) = ok (if b then codes "true" else codes "false")
    canonical_json (number x) = number_text (json_number x)
    canonical_json (array items) = wrap 91 93 (canonical_items items)
    canonical_json (object fields) = wrap 123 125 (join_entries (sort_entries (entries_of fields)))

    pub canonical_items : Items N → Result CanonicalError Text
    canonical_items nil = ok []
    canonical_items (cons v items) =
        and_then (canonical_json v)
          λ part. and_then (canonical_items items) λ parts. ok (part ++ comma_before parts)

    pub entries_of : Fields N → List Entry
    entries_of end = []
    entries_of (field k v fields) = (k, field_text k v (canonical_json v)) ∷ entries_of fields
