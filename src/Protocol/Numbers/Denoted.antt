-- ===== src/Protocol/Numbers/Denoted.antt =====
-- The number that a text denotes, read off its digits.
pub mod Canonical
use gline.Base.{
  ℕ, suc, ◌+◌, ◌<◌, ◌≤◌, ◌≡◌, ◌≢◌, ◌⊎◌, ◌↔◌, inl, inr, refl, sym, ap, ◌∙◌, subst, ℤ, pos, negsuc,
  difference, parse_int, parse_nat, signed, negate, Bool-cases, Bool, true, false, Option, none,
  some, Bytes, [], ◌∷◌, ◌++◌, length, append-nil, reverse, is_digit, all, all-append, count_byte,
  count_byte-append, cut_byte-append, nat_beq, if◌then◌else◌, ok, ◌>>=◌, arith,
}
use gline.Protocol.Numbers.{
  is_large, read_exponent, read_mantissa, read_number, split_exponent, split_at, leading_zeros,
  trim_left, trim_right, position_of, canonical_number,
}
use gline.Protocol.Numbers.Digits.{
  zeros, count-digits, leading_zeros-zeros, trim_left-zeros, trim_right-zeros,
}
use gline.Protocol.Numbers.Forms.{
  read_mantissa-whole, split_exponent-none, split_exponent-some, no_exponent,
}
use gline.Protocol.Numbers.Decimals.{
  Decimal, decimal, in_range, is_plain, decimal_of, decimal_of-plain, canonical_number_read,
}

-- The digits in front of the point and those behind it.
abbrev pub IsMantissa : Bytes → Bytes → Bytes → Type 0
IsMantissa text before after = ((text ≡ before) × (after ≡ [])) ⊎ (text ≡ before ++ 0x2e ∷ after)

-- No exponent, or one behind `e` or `E`.
abbrev pub IsExponent : Bytes → ℤ → Type 0
IsExponent tail e =
    ((tail ≡ []) × (e ≡ pos 0))
    ⊎ ((s : Bytes) × ((tail ≡ 0x65 ∷ s) ⊎ (tail ≡ 0x45 ∷ s)) × (parse_int s ≡ some e))

-- The two sides of a whole number.
abbrev pub up : ℤ → ℕ
up (pos n) = n
up (negsuc n) = 0

abbrev pub down : ℤ → ℕ
down (pos n) = 0
down (negsuc n) = suc n

-- A position p with p + zeros = e + dot.
abbrev pub IsPlace : ℕ → ℕ → ℤ → ℤ → Type 0
IsPlace dot lost e p = up p + (down e + lost) ≡ down p + (up e + dot)

-- A text that does not begin with a zero.
abbrev pub NoZero : Bytes → Type 0
NoZero [] = Unit
NoZero (c ∷ cs) = c ≢ 0x30

-- The text without its sign stands for 0.digits times ten to the power of the place: its digits are
-- these, but for zeros in front and behind.
pub record IsUnsigned (text digits : Bytes) (place : ℤ) : Type 0 where
  pub mantissa : Bytes
  pub tail : Bytes
  pub before : Bytes
  pub after : Bytes
  pub exponent : ℤ
  pub front_zeros : ℕ
  pub back_zeros : ℕ
  pub text_is : text ≡ mantissa ++ tail
  pub mantissa_is : IsMantissa mantissa before after
  pub tail_is : IsExponent tail exponent
  pub bounded : up exponent + down exponent ≤ 100000
  pub are_digits : all is_digit (before ++ after) ≡ true
  pub some_digit : 0 < length (before ++ after)
  pub significant : before ++ after ≡ zeros front_zeros ++ (digits ++ zeros back_zeros)
  pub front : NoZero digits
  pub back : NoZero (reverse digits)
  -- Of only zeros, all stand in front.
  pub empty : (0 < length digits) ⊎ (back_zeros ≡ 0)
  pub placed : IsPlace (length before) front_zeros exponent place

-- The number that a text denotes.
pub record Denotes (raw : Bytes) (d : Decimal) : Type 0 where
  pub negative : Bool
  pub text : Bytes
  pub digits : Bytes
  pub place : ℤ
  pub raw_is : raw ≡ (if negative then 0x2d ∷ text else text)
  pub unsigned : IsUnsigned text digits place
  pub is : d ≡ decimal negative (digits, place)
