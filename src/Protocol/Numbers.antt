-- ===== src/Protocol/Numbers.antt =====
-- canonicalNumber of internal/protocol/ingestv1/protocol.go.
mod Digits
mod Forms
pub mod Decimals
pub mod Denoted
use gline.Base.{
  ℕ, zero, suc, ◌+◌, ◌-◌, ℤ, pos, negsuc, above, difference, parse_int, format_int, is_digit, Bool,
  true, false, not, ◌&&◌, ◌||◌, Option, none, some, Bytes, codes, List, [], ◌∷◌, ◌++◌, length, take,
  drop, replicate, all, count_byte, cut_byte, ltb, leb, nat_beq, reverse, Result, ok, err, ◌>>=◌,
  ◌>>◌, reject_if, or_fail, if◌then◌else◌,
}

pub data NumberError : Type 0 where
  empty bad_exponent bad_digits : NumberError

-- strings.SplitN(raw, e, 2): the part in front, and the part behind if the byte occurs.
unfoldable pub split_at : ℕ → Bytes → Bytes × Option Bytes
split_at c s =
    let (before, after) = cut_byte c s in
    (before, if ltb 0 (count_byte c s) then some after else none)

-- At the first `e`, or else at the first `E`.
unfoldable pub split_exponent : Bytes → Bytes × Option Bytes
unfolding split_at
split_exponent raw = if ltb 0 (count_byte 0x65 raw) then split_at 0x65 raw else split_at 0x45 raw

unfoldable pub is_large : ℤ → Bool
is_large (pos n) = ltb 100000 n
is_large (negsuc n) = ltb 99999 n

unfoldable pub read_exponent : Option Bytes → Result NumberError ℤ
unfolding is_large
read_exponent none = ok (pos 0)
read_exponent (some s) = do
  parsed ← or_fail (parse_int s) bad_exponent
  reject_if (is_large parsed) bad_exponent
  ok parsed

-- The digits of a mantissa without its dot, and where the dot stood.
unfoldable pub read_mantissa : Bytes → Result NumberError (Bytes × ℕ)
read_mantissa mantissa = do
  reject_if (ltb 1 (count_byte 0x2e mantissa)) bad_digits
  let (before, after) = cut_byte 0x2e mantissa
  let digits = before ++ after
  reject_if (nat_beq (length digits) 0 || not (all is_digit digits)) bad_digits
  ok (digits, length before)

unfoldable pub leading_zeros : Bytes → ℕ
leading_zeros [] = 0
leading_zeros (c ∷ cs) = let rest = leading_zeros cs in if nat_beq c 0x30 then suc rest else 0

-- strings.TrimLeft(digits, "0"), and the loop that drops the zeros at the end.
unfoldable pub trim_left : Bytes → Bytes
unfolding leading_zeros
trim_left s = drop (leading_zeros s) s

unfoldable pub trim_right : Bytes → Bytes
unfolding trim_left
trim_right s = reverse (trim_left (reverse s))

-- dot + exponent - leadingZeroes
unfoldable pub position_of : ℕ → ℤ → ℕ → ℤ
position_of dot (pos e) zeros = difference (dot + e) zeros
position_of dot (negsuc e) zeros = difference dot (suc e + zeros)

unfoldable pub predecessor : ℤ → ℤ
predecessor (pos zero) = negsuc 0
predecessor (pos (suc n)) = pos n
predecessor (negsuc n) = negsuc (suc n)

unfoldable pub print_scientific : ℤ → Bytes → Bytes
unfolding predecessor
print_scientific position digits =
    take 1 digits
    ++ ((if ltb 1 (length digits) then codes "." ++ drop 1 digits else [])
        ++ (codes "e" ++ format_int (predecessor position)))

-- The three forms without a sign: `position` is where the point stands before, in or behind the digits.
unfoldable pub print_unsigned : ℤ → Bytes → Bytes
unfolding print_scientific
print_unsigned (pos zero) digits = codes "0." ++ digits
print_unsigned (pos (suc p)) digits =
    if ltb 21 (suc p)
    then print_scientific (pos (suc p)) digits
    else if leb (length digits) (suc p)
    then digits ++ replicate (suc p - length digits) 0x30
    else take (suc p) digits ++ (codes "." ++ drop (suc p) digits)
print_unsigned (negsuc k) digits =
    if ltb k 5
    then codes "0." ++ (replicate (suc k) 0x30 ++ digits)
    else print_scientific (negsuc k) digits

unfoldable pub print_number : Bool → ℤ → Bytes → Bytes
unfolding print_unsigned
print_number negative position digits =
    if negative then 0x2d ∷ print_unsigned position digits else print_unsigned position digits

-- The significant digits of a number without a sign, and where the point stands. (Without digits other
-- than zeros there are none, whether or not the zeros at the end are dropped first.)
unfoldable pub read_number : Bytes → Result NumberError (Bytes × ℤ)
unfolding split_exponent read_exponent read_mantissa trim_right
read_number raw = do
  let (mantissa, exponent_text) = split_exponent raw
  exponent ← read_exponent exponent_text
  read ← read_mantissa mantissa
  ok (trim_right (trim_left read.0), position_of read.1 exponent (leading_zeros read.0))

-- The number behind its sign.
unfoldable pub canonical_unsigned : Bool → Bytes → Result NumberError Bytes
unfolding print_number read_number
canonical_unsigned negative raw = do
  (digits, position) ← read_number raw
  ok (if nat_beq (length digits) 0 then codes "0" else print_number negative position digits)

-- canonicalNumber
unfoldable pub canonical_number : Bytes → Result NumberError Bytes
unfolding canonical_unsigned
canonical_number [] = err empty
canonical_number (c ∷ cs) =
    if nat_beq c 0x2d then canonical_unsigned true cs else canonical_unsigned false (c ∷ cs)
