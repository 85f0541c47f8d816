-- ===== src/Protocol/Json.antt =====
-- canonicalJSON of internal/protocol/ingestv1/protocol.go: one text for every decoded JSON value.
pub mod Order
use gline.Base.{
  ℕ, suc, ℤ, below, format_int, Bool, true, false, Option, none, some, Bytes, bytes_eq, codes, List,
  [], ◌∷◌, ◌++◌, map, Map, lookup, sort_strings, Result, ok, err, ◌>>=◌, ◌>>◌, reject_if, or_fail,
  map_err, if◌then◌else◌,
}
use gline.Protocol.Numbers.{NumberError, canonical_number}

-- What an `any` may hold. A float32 is a float64, and every integer type is an integer; a float
-- carries the shortest text of strconv.FormatFloat if it is finite.
mutual
  pub data Value : Type 0 where
    null unsupported : Value
    boolean : Bool → Value
    text number : Bytes → Value
    float : Option Bytes → Value
    integer : ℤ → Value
    array : Items → Value
    object : Fields → Value

  pub data Items : Type 0 where
    no_items : Items
    item : Value → Items → Items

  -- A map, in an order that Go leaves open.
  pub data Fields : Type 0 where
    no_fields : Fields
    field : Bytes → Value → Fields → Fields

pub data JsonError : Type 0 where
  too_deep not_finite not_supported : JsonError
  bad_number : NumberError → JsonError

abbrev pub keys_of : Fields → List Bytes
keys_of no_fields = []
keys_of (field k v fs) = k ∷ keys_of fs

-- With a comma before each but the first.
unfoldable pub join_rest : List Bytes → Bytes
join_rest [] = []
join_rest (s ∷ ss) = codes "," ++ (s ++ join_rest ss)

unfoldable pub join : List Bytes → Bytes
unfolding join_rest
join [] = []
join (s ∷ ss) = s ++ join_rest ss

-- typed[key] of a key that the map does not have is nil.
unfoldable pub at_key : Bytes → Map Bytes (Result JsonError Bytes) → Result JsonError Bytes
at_key key encoded = elim (lookup key encoded) [ none ↦ ok (codes "null") | some r ↦ r ]

-- Values deeper than the maximum are refused.
unfoldable pub within_depth : ℤ → ℕ → Result JsonError Bytes → Result JsonError Bytes
within_depth max_depth depth encoded = reject_if (below max_depth depth) too_deep >> encoded

module _ (quote : Bytes → Bytes) where
  -- The loop over the sorted keys.
  unfoldable pub members :
      Map Bytes (Result JsonError Bytes) → List Bytes → Result JsonError (List Bytes)
  unfolding at_key
  members encoded [] = ok []
  members encoded (key ∷ keys) = do
    value ← at_key key encoded
    rest ← members encoded keys
    ok ((quote key ++ (codes ":" ++ value)) ∷ rest)

  module _ (max_depth : ℤ) where
    unfoldable mutual
      -- The switch of appendCanonical.
      pub append_value : ℕ → Value → Result JsonError Bytes
      append_value depth null = ok (codes "null")
      append_value depth unsupported = err not_supported
      append_value depth (boolean b) = ok (if b then codes "true" else codes "false")
      append_value depth (text s) = ok (quote s)
      append_value depth (number raw) = map_err bad_number (canonical_number raw)
      append_value depth (float shown) = or_fail shown not_finite
      append_value depth (integer z) = ok (format_int z)
      append_value depth (array items) = do
        parts ← append_items (suc depth) items
        ok (codes "[" ++ (join parts ++ codes "]"))
      append_value depth (object fs) = do
        parts ← members (append_fields (suc depth) fs) (sort_strings (keys_of fs))
        ok (codes "{" ++ (join parts ++ codes "}"))

      pub append_items : ℕ → Items → Result JsonError (List Bytes)
      append_items depth no_items = ok []
      append_items depth (item v items) = do
        part ← within_depth max_depth depth (append_value depth v)
        rest ← append_items depth items
        ok (part ∷ rest)

      pub append_fields : ℕ → Fields → Map Bytes (Result JsonError Bytes)
      append_fields depth no_fields = []
      append_fields depth (field k v fs) =
          (k, within_depth max_depth depth (append_value depth v)) ∷ append_fields depth fs

  -- appendCanonical
  unfoldable pub append_canonical : ℤ → ℕ → Value → Result JsonError Bytes
  unfolding append_value
  append_canonical max_depth depth v = within_depth max_depth depth (append_value max_depth depth v)

  -- canonicalJSON
  unfoldable pub canonical_json : Value → ℤ → Result JsonError Bytes
  unfolding append_canonical
  canonical_json value max_depth = append_canonical max_depth 0 value
