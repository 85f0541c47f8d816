-- ===== src/Spool/Frame.antt =====
-- frameRecord, parseHeader and recordChecksum of internal/agent/spool/wal.go: the framing of the
-- records, with hash/crc32 (IEEE) and binary.BigEndian written out.
pub mod RoundTrip
use Prim.Native.Nat.{bit_xor}
use gline.Base.{
  ℕ, zero, suc, ◌+◌, ◌-◌, ◌*◌, ◌/◌, ◌%◌, ◌^◌, ◌≡◌, refl, Bytes, List, [], ◌∷◌, ◌++◌, length, take,
  drop, codes, nat_beq, ltb, ◌==◌, bytes_eq, ◌||◌, not, Result, ok, err, if◌then◌else◌, foldl,
}
use gline.Spool.Model.{HeaderError, invalid_magic, unsupported_version, reserved_not_zero}
use gline.Spool.Model.{SpoolError, frame_too_long}

abbrev pub record_header_bytes : ℕ
record_header_bytes = 16

abbrev pub record_version : ℕ
record_version = 1

abbrev pub record_magic : Bytes
record_magic = codes "GLW1"

-- One bit of the reflected polynomial division.
crc_bit : ℕ → ℕ
crc_bit c = if nat_beq (c % 2) 1 then bit_xor (c / 2) 0xedb88320 else c / 2

crc_byte : ℕ → ℕ → ℕ
unfolding crc_bit
crc_byte c b =
    crc_bit (crc_bit (crc_bit (crc_bit (crc_bit (crc_bit (crc_bit (crc_bit (bit_xor c b))))))))

-- crc32.ChecksumIEEE, a uint32.
pub crc32 : Bytes → ℕ
unfolding crc_byte
crc32 bs = bit_xor (foldl crc_byte 0xffffffff bs) 0xffffffff % 2 ^ 32

-- recordChecksum: the kind, then the body.
pub record_checksum : ℕ → Bytes → ℕ
unfolding crc32
record_checksum kind body = crc32 (kind ∷ body)

-- binary.BigEndian.PutUint32
put_be32 : ℕ → Bytes
put_be32 n = (n / 2 ^ 24) ∷ (n / 2 ^ 16 % 256) ∷ (n / 2 ^ 8 % 256) ∷ (n % 256) ∷ []

-- binary.BigEndian.Uint32, of a slice of four bytes
be32 : Bytes → ℕ
be32 (a ∷ b ∷ c ∷ d ∷ []) = ((a * 256 + b) * 256 + c) * 256 + d
be32 _ = 0

byte_at : Bytes → ℕ → ℕ
byte_at [] i = 0
byte_at (b ∷ bs) zero = b
byte_at (b ∷ bs) (suc i) = byte_at bs i

abbrev pub slice : Bytes → ℕ → ℕ → Bytes
slice bs lo hi = take (hi - lo) (drop lo bs)

-- The sixteen bytes in front of a body.
pub header : ℕ → Bytes → Bytes
unfolding put_be32
header kind body =
    record_magic
    ++ (record_version ∷ kind ∷ 0 ∷ 0 ∷ [])
    ++ put_be32 (length body)
    ++ put_be32 (record_checksum kind body)

pub frame : ℕ → Bytes → Bytes
unfolding header
frame kind body = header kind body ++ body

-- frameRecord
unfoldable pub frame_record : ℕ → Bytes → Result SpoolError Bytes
frame_record kind body =
    if ltb (2 ^ 32 - 1) (length body) then err frame_too_long else ok (frame kind body)

pub record Header : Type 0 where
  pub kind : ℕ
  pub length : ℕ
  pub checksum : ℕ

-- parseHeader
pub parse_header : Bytes → Result HeaderError Header
unfolding be32 byte_at
parse_header bs =
    if not (nat_beq (length bs) record_header_bytes) || not (slice bs 0 4 == record_magic)
    then err invalid_magic
    else if not (nat_beq (byte_at bs 4) record_version)
    then err unsupported_version
    else if not (nat_beq (byte_at bs 6) 0) || not (nat_beq (byte_at bs 7) 0)
    then err reserved_not_zero
    else ok (record {
      kind = byte_at bs 5;
      length = be32 (slice bs 8 12);
      checksum = be32 (slice bs 12 16);
    })

-- The check value of CRC-32/ISO-HDLC.
crc32_check : crc32 (codes "123456789") ≡ 0xcbf43926
unfolding crc32
crc32_check = refl
