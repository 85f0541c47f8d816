-- ===== src/Domain/Ids.antt =====
-- internal/domain/ids.go: identifiers are texts in the form of a UUID.
pub mod Uuid
use gline.Base.{
  ℕ, zero, suc, Bool, true, ◌&&◌, ◌||◌, Bytes, [], ◌∷◌, length, leb, nat_beq, if◌then◌else◌,
}

abbrev pub Ident : Type 0
Ident = Bytes

between : ℕ → ℕ → ℕ → Bool
between lo hi c = leb lo c && leb c hi

pub is_hex : ℕ → Bool
unfolding between
is_hex c = between 0x30 0x39 c || between 0x61 0x66 c || between 0x41 0x46 c

pub is_dash_place : ℕ → Bool
is_dash_place i = nat_beq i 8 || nat_beq i 13 || nat_beq i 18 || nat_beq i 23

-- The loop of validUUID, from position `i`. (Go ranges over code points; a byte above 0x7f is at
-- the start of one and is refused there.)
uuid_from : ℕ → Bytes → Bool
unfolding is_hex is_dash_place
uuid_from i [] = true
uuid_from i (c ∷ cs) =
    (if is_dash_place i then nat_beq c 0x2d else is_hex c) && uuid_from (suc i) cs

-- validUUID, and the method Valid of each identifier type
unfoldable pub valid_uuid : Bytes → Bool
unfolding uuid_from
valid_uuid value = nat_beq (length value) 36 && uuid_from 0 value
