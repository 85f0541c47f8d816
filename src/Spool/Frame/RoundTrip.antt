-- ===== src/Spool/Frame/RoundTrip.antt =====
-- A header that `frame` wrote is read back by `parse_header`.
use gline.Base.{
  append_assoc, ℕ, ◌+◌, ◌^◌, ◌≡◌, ◌<◌, refl, Bytes, ◌++◌, length, length-append, ok, arith,
  bytes_beq,
}
use gline.Spool.Frame.{header, frame, put_be32, be32, parse_header, record_checksum, crc32}

be32-put_be32 : (n : ℕ) → n < 2 ^ 32 → be32 (put_be32 n) ≡ n
unfolding be32 put_be32
be32-put_be32 n h = omega arith

checksum-lt : (kind : ℕ) (body : Bytes) → record_checksum kind body < 2 ^ 32
unfolding record_checksum crc32
checksum-lt kind body = omega arith

pub length-header : (kind : ℕ) (body : Bytes) → length (header kind body) ≡ 16
unfolding header
length-header kind body = refl

pub length-frame : (kind : ℕ) (body : Bytes) → length (frame kind body) ≡ 16 + length body
unfolding frame
length-frame kind body =
    omega (arith, length-append (header kind body) body, length-header kind body)

-- The header of a record whose body is shorter than 2^32 bytes parses back to the record's kind,
-- to the length of its body and to its checksum.
pub parse_header-header :
    (kind : ℕ) (body : Bytes)
    → length body < 2 ^ 32
    → parse_header (header kind body)
      ≡ ok (record { kind = kind; length = length body; checksum = record_checksum kind body })
unfolding parse_header header be32 bytes_beq
parse_header-header kind body h =
    ground (arith, be32-put_be32 (length body) h, be32-put_be32 _ (checksum-lt kind body))

pub frame_lem : (kind : ℕ) (body : Bytes) → frame kind body ≡ header kind body ++ body
unfolding frame
frame_lem kind body = refl

pub frame-append :
    (kind : ℕ) (body rest : Bytes) → frame kind body ++ rest ≡ header kind body ++ (body ++ rest)
unfolding frame
frame-append kind body rest = append_assoc (header kind body) body rest
