-- ===== src/App/OracleNode/Sorted.antt =====
-- The order of keys in app/src/lib/oracle-node.ts: `Object.keys(value).sort()` forgets it.
use nextblock.Base.{
  ◌≡◌, refl, ap, ◌∙◌, arith, Text, text_eqb, text_eqb_iff, text_leb-total, text_leb_trans,
  text_leb_antisymm, List, [], ◌∷◌, false, Option,
}
use nextblock.App.OracleNode.{
  CanonicalValue, Items, Fields, array, object, nil, cons, end, field, Entry, insert_entry,
  sort_entries, join_entries, canonical_json, canonical_items, entries_of, field_text, wrap,
}

insert_entry-insert_entry :
    (e f : Entry) (entries : List Entry)
    → text_eqb e.0 f.0 ≡ false
    → insert_entry e (insert_entry f entries) ≡ insert_entry f (insert_entry e entries)
unfolding insert_entry
insert_entry-insert_entry e f [] h =
    ground (arith, text_leb-total e.0 f.0, text_leb_antisymm e.0 f.0, text_eqb_iff e.0 f.0)
insert_entry-insert_entry e f (g ∷ entries) h = ground (
  arith,
  text_leb-total e.0 f.0,
  text_leb_antisymm e.0 f.0,
  text_eqb_iff e.0 f.0,
  text_leb_trans e.0 f.0 g.0,
  text_leb_trans f.0 e.0 g.0,
  insert_entry-insert_entry e f entries h,
)

-- Values that differ in the order of keys of their objects, at any depth.
module _ {N : Type 0} where
  mutual
    pub data SameValue : CanonicalValue N → CanonicalValue N → Type 0 where
      same : (v : CanonicalValue N) → SameValue v v
      in_array : {xs ys : Items N} → SameItems xs ys → SameValue (array xs) (array ys)
      in_object : {fs gs : Fields N} → SameFields fs gs → SameValue (object fs) (object gs)

    pub data SameItems : Items N → Items N → Type 0 where
      same_nil : SameItems nil nil
      same_cons :
          {v w : CanonicalValue N} {xs ys : Items N}
          → SameValue v w
          → SameItems xs ys
          → SameItems (cons v xs) (cons w ys)

    pub data SameFields : Fields N → Fields N → Type 0 where
      same_end : SameFields end end
      same_field :
          {v w : CanonicalValue N} {fs gs : Fields N} (k : Text)
          → SameValue v w
          → SameFields fs gs
          → SameFields (field k v fs) (field k w gs)
      swap :
          (j k : Text) (v w : CanonicalValue N) (fs : Fields N)
          → text_eqb j k ≡ false
          → SameFields (field j v (field k w fs)) (field k w (field j v fs))
      then_ : {fs gs hs : Fields N} → SameFields fs gs → SameFields gs hs → SameFields fs hs

module _ {N : Type 0} (json_number : N → Option Text) where
  field_text-same :
      (k : Text) {v w : CanonicalValue N}
      → SameValue v w
      → canonical_json json_number v ≡ canonical_json json_number w
      → field_text k v (canonical_json json_number v)
        ≡ field_text k w (canonical_json json_number w)
  unfolding field_text
  field_text-same k (same v) e = refl
  field_text-same k (in_array s) e = e
  field_text-same k (in_object s) e = e

  mutual
    unfolding canonical_json

    canonical_json-same :
        {v w : CanonicalValue N}
        → SameValue v w
        → canonical_json json_number v ≡ canonical_json json_number w
    canonical_json-same (same v) = refl
    canonical_json-same (in_array s) = ap (wrap 91 93) (canonical_items-same s)
    canonical_json-same (in_object s) = ap (λ es. wrap 123 125 (join_entries es)) (sorted-same s)

    canonical_items-same :
        {xs ys : Items N}
        → SameItems xs ys
        → canonical_items json_number xs ≡ canonical_items json_number ys
    canonical_items-same same_nil = refl
    canonical_items-same (same_cons s t) = rw (canonical_json-same s, canonical_items-same t) refl

    sorted-same :
        {fs gs : Fields N}
        → SameFields fs gs
        → sort_entries (entries_of json_number fs) ≡ sort_entries (entries_of json_number gs)
    sorted-same same_end = refl
    sorted-same (same_field k s t) =
        rw (field_text-same k s (canonical_json-same s), sorted-same t) refl
    sorted-same (swap j k v w fs h) =
        insert_entry-insert_entry (j, field_text j v (canonical_json json_number v))
          (k, field_text k w (canonical_json json_number w))
          (sort_entries (entries_of json_number fs)) h
    sorted-same (then_ s t) = sorted-same s ∙ sorted-same t

  -- Values that differ only in the order of the keys of their objects, at any depth, have the same
  -- canonical text or fail with the same error.
  pub canonical_json-SameValue :
      {v w : CanonicalValue N}
      → SameValue v w
      → canonical_json json_number v ≡ canonical_json json_number w
  canonical_json-SameValue s = canonical_json-same s
