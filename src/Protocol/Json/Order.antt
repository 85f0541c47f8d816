-- ===== src/Protocol/Json/Order.antt =====
-- The canonical text does not depend on the order in which Go ranges over a map.
use gline.Base.{
  ℕ, suc, ℤ, ◌≡◌, ◌≢◌, refl, ap, ◌∙◌, Bytes, bytes_eq, bytes_beq_iff, List, [], ◌∷◌, Map, lookup,
  sort_strings, insert_string, insert_string_comm, Result, arith,
}
use gline.Protocol.Json.{
  Value, Items, Fields, array, object, no_items, item, no_fields, field, keys_of, JsonError, at_key,
  within_depth, members, append_canonical, append_value, append_items, append_fields,
  canonical_json,
}

-- Two values that differ by the order of the fields of objects, at any depth.
mutual
  pub data SameValue : Value → Value → Type 0 where
    same : {v : Value} → SameValue v v
    arrays : {xs ys : Items} → SameItems xs ys → SameValue (array xs) (array ys)
    objects : {fs gs : Fields} → SameFields fs gs → SameValue (object fs) (object gs)

  pub data SameItems : Items → Items → Type 0 where
    done : SameItems no_items no_items
    next :
        {v w : Value} {xs ys : Items}
        → SameValue v w
        → SameItems xs ys
        → SameItems (item v xs) (item w ys)

  pub data SameFields : Fields → Fields → Type 0 where
    all_done : SameFields no_fields no_fields
    next_field :
        {k : Bytes} {v w : Value} {fs gs : Fields}
        → SameValue v w
        → SameFields fs gs
        → SameFields (field k v fs) (field k w gs)
    swap :
        {k j : Bytes} {v w : Value} {fs : Fields}
        → k ≢ j
        → SameFields (field k v (field j w fs)) (field j w (field k v fs))
    chain : {fs gs hs : Fields} → SameFields fs gs → SameFields gs hs → SameFields fs hs

same_keys :
    {fs gs : Fields} → SameFields fs gs → sort_strings (keys_of fs) ≡ sort_strings (keys_of gs)
unfolding sort_strings
same_keys SameFields.all_done = refl
same_keys (SameFields.next_field {k} s t) = ap (insert_string k) (same_keys t)
same_keys (SameFields.swap {k} {j} {fs} ne) = insert_string_comm k j (sort_strings (keys_of fs))
same_keys (SameFields.chain s t) = same_keys s ∙ same_keys t

members-agree :
    (quote : Bytes → Bytes) (m n : Map Bytes (Result JsonError Bytes)) (keys : List Bytes)
    → ((k : Bytes) → lookup k m ≡ lookup k n)
    → members quote m keys ≡ members quote n keys
unfolding members at_key
members-agree quote m n [] h = refl
members-agree quote m n (k ∷ keys) h = ground (arith, h k, members-agree quote m n keys h)

module _ (quote : Bytes → Bytes) (max_depth : ℤ) where
  mutual
    unfolding append_value within_depth lookup

    value_same :
        (depth : ℕ) {v w : Value}
        → SameValue v w
        → append_value quote max_depth depth v ≡ append_value quote max_depth depth w
    value_same depth SameValue.same = refl
    value_same depth (SameValue.arrays s) = ground (arith, items_same (suc depth) s)
    value_same depth (SameValue.objects {fs} {gs} s) = ground (
      arith,
      same_keys s,
      members-agree quote (append_fields quote max_depth (suc depth) fs)
          (append_fields quote max_depth (suc depth) gs) (sort_strings (keys_of gs))
          (λ x. fields_same (suc depth) x s),
    )

    items_same :
        (depth : ℕ) {xs ys : Items}
        → SameItems xs ys
        → append_items quote max_depth depth xs ≡ append_items quote max_depth depth ys
    items_same depth SameItems.done = refl
    items_same depth (SameItems.next s t) = ground (arith, value_same depth s, items_same depth t)

    fields_same :
        (depth : ℕ) {fs gs : Fields} (x : Bytes)
        → SameFields fs gs
        → lookup x (append_fields quote max_depth depth fs)
          ≡ lookup x (append_fields quote max_depth depth gs)
    fields_same depth x SameFields.all_done = refl
    fields_same depth x (SameFields.next_field s t) =
        ground (arith, value_same depth s, fields_same depth x t)
    fields_same depth x (SameFields.swap {k} {j} ne) =
        ground (arith, bytes_beq_iff k x, bytes_beq_iff j x, ne)
    fields_same depth x (SameFields.chain s t) = fields_same depth x s ∙ fields_same depth x t

  -- The canonical text of a value, and whether it has one, does not depend on the order of the fields
  -- of any object in it.
  pub canonical_json_same :
      {v w : Value}
      → SameValue v w
      → canonical_json quote v max_depth ≡ canonical_json quote w max_depth
  unfolding canonical_json append_canonical within_depth
  canonical_json_same s = ground (arith, value_same 0 s)
