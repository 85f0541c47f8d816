-- ===== src/Domain/Ids/Uuid.antt =====
-- The shape that validUUID accepts.
use gline.Base.{
  ℕ, zero, suc, ◌+◌, ◌≡◌, refl, true, Bytes, [], ◌∷◌, length, get_elem?, some, arith, if◌then◌else◌,
  nat_beq, codes, valid_utf8, valid_utf8-ascii,
}
use gline.Domain.Ids.{between, is_hex, is_dash_place, uuid_from, valid_uuid}

place :
    (i k : ℕ) (cs : Bytes) (c : ℕ)
    → uuid_from i cs ≡ true
    → get_elem? cs k ≡ some c
    → (if is_dash_place (i + k) then nat_beq c 0x2d else is_hex c) ≡ true
unfolding uuid_from
place i k [] c h e = cc
place i zero (x ∷ cs) c h e = let here : i + zero ≡ i = omega arith in rw here (ground arith)
place i (suc k) (x ∷ cs) c h e =
    let there : i + suc k ≡ suc i + k = omega arith in
    rw there (place (suc i) k cs c (ground arith) e)

-- An identifier that is accepted has 36 bytes: a dash at the places 8, 13, 18 and 23, and a
-- hexadecimal digit at every other.
pub valid_uuid_shape :
    (value : Bytes)
    → valid_uuid value ≡ true
    → (length value ≡ 36)
      × ((k c : ℕ)
          → get_elem? value k ≡ some c
          → (if is_dash_place k then nat_beq c 0x2d else is_hex c) ≡ true)
unfolding valid_uuid
valid_uuid_shape value h = (
  ground arith,
  λ k c e.
      let from_start : 0 + k ≡ k = omega arith in
      rw from_start at (place 0 k value c (ground arith) e),
)

uuid_text : valid_uuid (codes "0a1b2c3d-0000-4fff-8ABC-0123456789ab") ≡ true
unfolding valid_uuid
uuid_text = refl

uuid_from-valid_utf8 : (i : ℕ) (cs : Bytes) → uuid_from i cs ≡ true → valid_utf8 cs ≡ true
unfolding uuid_from is_hex between is_dash_place valid_utf8
uuid_from-valid_utf8 i [] h = refl
uuid_from-valid_utf8 i (c ∷ cs) h =
    valid_utf8-ascii c cs (ground arith) (uuid_from-valid_utf8 (suc i) cs (ground arith))

-- A UUID is 36 bytes of ASCII.
pub valid_uuid-valid_utf8 :
    (value : Bytes) → valid_uuid value ≡ true → (length value ≡ 36) × (valid_utf8 value ≡ true)
unfolding valid_uuid
valid_uuid-valid_utf8 value h = (ground arith, uuid_from-valid_utf8 0 value (ground arith))
