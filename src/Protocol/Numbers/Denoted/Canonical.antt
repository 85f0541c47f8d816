-- ===== src/Protocol/Numbers/Denoted/Canonical.antt =====
-- That canonicalNumber tells apart the numbers that texts denote.
use gline.Base.{
  ℕ, ◌+◌, ◌<◌, ◌≤◌, ◌≡◌, ◌⊎◌, ◌↔◌, inl, inr, refl, sym, ap, ◌∙◌, subst, ℤ, pos, negsuc, difference,
  parse_int, parse_nat, signed, negate, Bool-cases, true, false, Option, none, some, Bytes, [], ◌∷◌,
  ◌++◌, length, append-nil, reverse, is_digit, all, all-append, count_byte, count_byte-append,
  cut_byte-append, nat_beq, if◌then◌else◌, ok, ◌>>=◌, arith,
}
use gline.Protocol.Numbers.{
  is_large, read_exponent, read_mantissa, read_number, split_exponent, split_at, leading_zeros,
  trim_left, trim_right, position_of, canonical_number,
}
use gline.Protocol.Numbers.Digits.{
  zeros, count-digits, leading_zeros-zeros, trim_left-zeros, trim_right-zeros,
}
use gline.Protocol.Numbers.Forms.{
  read_mantissa-whole, split_exponent-none, split_exponent-some, no_exponent,
}
use gline.Protocol.Numbers.Decimals.{
  Decimal, decimal, in_range, is_plain, decimal_of, decimal_of-plain, canonical_number_read,
}
use gline.Protocol.Numbers.Denoted.{
  IsMantissa, IsExponent, up, down, IsPlace, NoZero, IsUnsigned, Denotes,
}

position_of-IsPlace : (dot lost : ℕ) (e p : ℤ) → IsPlace dot lost e p → position_of dot e lost ≡ p
unfolding position_of difference
position_of-IsPlace dot lost (pos e) (pos p) h = ground arith
position_of-IsPlace dot lost (pos e) (negsuc p) h = ground arith
position_of-IsPlace dot lost (negsuc e) (pos p) h = ground arith
position_of-IsPlace dot lost (negsuc e) (negsuc p) h = ground arith

leading-NoZero : (ds : Bytes) → NoZero ds → leading_zeros ds ≡ 0
unfolding leading_zeros
leading-NoZero [] h = refl
leading-NoZero (c ∷ cs) h = ground (arith, h)

leading-front :
    (ds : Bytes) (n : ℕ) → NoZero ds → (0 < length ds) ⊎ (n ≡ 0) → leading_zeros (ds ++ zeros n) ≡ 0
unfolding leading_zeros
leading-front [] n h (inl more) = absurd (omega (arith, more))
leading-front [] n h (inr nothing) = ap (λ k. leading_zeros (zeros k)) nothing
leading-front (c ∷ cs) n h e = ground (arith, h)

-- A number that is parsed has no `e`.
signed-plain :
    (sign : ℕ → ℤ) (s : Bytes) (e : ℤ) → signed sign (parse_nat s) ≡ some e → all is_digit s ≡ true
unfolding parse_nat
signed-plain sign [] e h = refl
signed-plain sign (c ∷ cs) e h = ground (arith, h)

parse_int-plain : (s : Bytes) (e : ℤ) → parse_int s ≡ some e → count_byte 0x65 s ≡ 0
unfolding parse_int count_byte
parse_int-plain [] e h = refl
parse_int-plain (c ∷ cs) e h = elim (Bool-cases (nat_beq c 0x2d)) [
  | inl minus ↦ ground (
    arith,
    minus,
    count-digits 0x65 cs refl (signed-plain negate cs e (ground (arith, h, minus))),
  )
  | inr other ↦ elim (Bool-cases (nat_beq c 0x2b)) [
    | inl plus ↦ ground (
      arith,
      plus,
      count-digits 0x65 cs refl (signed-plain pos cs e (ground (arith, h, other, plus))),
    )
    | inr plain ↦
        count-digits 0x65 (c ∷ cs) refl
          (signed-plain pos (c ∷ cs) e (ground (arith, h, other, plain)))
  ]
]

mantissa-count :
    (c : ℕ) (text before after : Bytes)
    → is_digit c ≡ false
    → nat_beq 0x2e c ≡ false
    → IsMantissa text before after
    → all is_digit (before ++ after) ≡ true
    → count_byte c text ≡ 0
mantissa-count c text before after other dot (inl (same, nothing)) digits =
    ap (count_byte c) same
    ∙ count-digits c before other (ground (arith, all-append is_digit before after))
mantissa-count c text before after other dot (inr parts) digits =
    ap (count_byte c) parts ∙ no_exponent c before after other dot digits

read_mantissa-IsMantissa :
    (text before after : Bytes)
    → IsMantissa text before after
    → all is_digit (before ++ after) ≡ true
    → 0 < length (before ++ after)
    → read_mantissa text ≡ ok (before ++ after, length before)
unfolding read_mantissa count_byte
read_mantissa-IsMantissa text before after (inl (same, nothing)) digits more =
    let whole : before ++ after ≡ before = ap (λ a. before ++ a) nothing ∙ append-nil before in
    ap read_mantissa same
    ∙ read_mantissa-whole before (ap (all is_digit) (sym whole) ∙ digits)
        (subst (λ b. 0 < length b) whole more)
    ∙ ap (λ b. ok (b, length before)) (sym whole)
read_mantissa-IsMantissa text before after (inr parts) digits more =
    let (left, right) : (all is_digit before ≡ true) × (all is_digit after ≡ true) =
      ground (arith, all-append is_digit before after) in
    let dots : count_byte 0x2e (before ++ 0x2e ∷ after) ≡ 1 =
      count_byte-append 0x2e before (0x2e ∷ after)
      ∙ ground (arith, count-digits 0x2e before refl left, count-digits 0x2e after refl right) in
    ap read_mantissa parts
    ∙ ground (arith, dots, cut_byte-append 0x2e before after (count-digits 0x2e before refl left))

-- What the text of a mantissa and an exponent is split into.
split_tail :
    (mantissa tail before after : Bytes) (e : ℤ)
    → IsMantissa mantissa before after
    → all is_digit (before ++ after) ≡ true
    → IsExponent tail e
    → is_large e ≡ false
    → (t : Option Bytes) × (split_exponent (mantissa ++ tail) ≡ (mantissa, t))
      × (read_exponent t ≡ ok e)
unfolding split_exponent split_at read_exponent count_byte
split_tail mantissa tail before after e m digits (inl (nothing, zero_is)) small = (
  none,
  ap split_exponent (ap (λ t. mantissa ++ t) nothing ∙ append-nil mantissa)
      ∙ split_exponent-none mantissa (mantissa-count 0x65 mantissa before after refl refl m digits)
          (mantissa-count 0x45 mantissa before after refl refl m digits),
  ap ok (sym zero_is),
)
split_tail mantissa tail before after e m digits (inr (s, inl small_e, parsed)) small = (
  some s,
  ap (λ t. split_exponent (mantissa ++ t)) small_e
      ∙ split_exponent-some mantissa s
          (mantissa-count 0x65 mantissa before after refl refl m digits),
  ground (arith, parsed, small),
)
split_tail mantissa tail before after e m digits (inr (s, inr big_e, parsed)) small =
    let plain : count_byte 0x65 (mantissa ++ 0x45 ∷ s) ≡ 0 =
      count_byte-append 0x65 mantissa (0x45 ∷ s)
      ∙ ground (
        arith,
        mantissa-count 0x65 mantissa before after refl refl m digits,
        parse_int-plain s e parsed,
      ) in
    let none_big = mantissa-count 0x45 mantissa before after refl refl m digits in
    (
      some s,
      ap (λ t. split_exponent (mantissa ++ t)) big_e
          ∙ ground (
            arith,
            plain,
            count_byte-append 0x45 mantissa (0x45 ∷ s),
            cut_byte-append 0x45 mantissa s none_big,
          ),
      ground (arith, parsed, small),
    )

small-exponent : (e : ℤ) → up e + down e ≤ 100000 → is_large e ≡ false
unfolding is_large
small-exponent (pos n) h = ground arith
small-exponent (negsuc n) h = ground arith

read_number-IsUnsigned :
    (text digits : Bytes) (p : ℤ) → IsUnsigned text digits p → read_number text ≡ ok (digits, p)
unfolding read_number
read_number-IsUnsigned text digits p u =
    let (t, split, exponent) =
      split_tail u.mantissa u.tail u.before u.after u.exponent u.mantissa_is u.are_digits u.tail_is
        (small-exponent u.exponent u.bounded) in
    let mantissa =
      read_mantissa-IsMantissa u.mantissa u.before u.after u.mantissa_is u.are_digits
        u.some_digit in
    let front = leading-front digits u.back_zeros u.front u.empty in
    let lost : leading_zeros (u.before ++ u.after) ≡ u.front_zeros =
      ap leading_zeros u.significant
      ∙ leading_zeros-zeros u.front_zeros (digits ++ zeros u.back_zeros) front in
    let kept : trim_right (trim_left (u.before ++ u.after)) ≡ digits =
      ap (λ l. trim_right (trim_left l)) u.significant
      ∙ ap trim_right (trim_left-zeros u.front_zeros (digits ++ zeros u.back_zeros) front)
      ∙ trim_right-zeros u.back_zeros digits (leading-NoZero (reverse digits) u.back) in
    let place : position_of (length u.before) u.exponent (leading_zeros (u.before ++ u.after)) ≡ p =
      ap (position_of (length u.before) u.exponent) lost
      ∙ position_of-IsPlace (length u.before) u.front_zeros u.exponent p u.placed in
    ap read_number u.text_is ∙ ground (arith, split, exponent, mantissa, kept, place)

mantissa-plain :
    (text before after tail : Bytes)
    → IsMantissa text before after
    → all is_digit (before ++ after) ≡ true
    → 0 < length (before ++ after)
    → is_plain (text ++ tail) ≡ true
mantissa-plain text [] after tail (inl (same, nothing)) digits more =
    absurd (omega (arith, more, ap length nothing))
mantissa-plain text (c ∷ cs) after tail (inl (same, nothing)) digits more =
    ap (λ t. is_plain (t ++ tail)) same ∙ ground (arith, digits)
mantissa-plain text [] after tail (inr parts) digits more = ap (λ t. is_plain (t ++ tail)) parts
mantissa-plain text (c ∷ cs) after tail (inr parts) digits more =
    ap (λ t. is_plain (t ++ tail)) parts ∙ ground (arith, digits)

decimal_of-Denotes : (raw : Bytes) (d : Decimal) → Denotes raw d → decimal_of raw ≡ ok d
unfolding decimal_of
decimal_of-Denotes raw d n =
    let u = n.unsigned in
    let read = read_number-IsUnsigned n.text n.digits n.place u in
    let plain : is_plain n.text ≡ true =
      ap is_plain u.text_is
      ∙ mantissa-plain u.mantissa u.before u.after u.tail u.mantissa_is u.are_digits u.some_digit in
    elim (Bool-cases n.negative) [
      | inl minus ↦
          ap decimal_of (n.raw_is ∙ ap (λ b. if b then 0x2d ∷ n.text else n.text) minus)
          ∙ ground (arith, read, ap (λ b. decimal b (n.digits, n.place)) minus, n.is)
      | inr unsigned ↦
          ap decimal_of (n.raw_is ∙ ap (λ b. if b then 0x2d ∷ n.text else n.text) unsigned)
          ∙ decimal_of-plain n.text plain
          ∙ ap (λ m. m >>= λ x. ok (decimal false x)) read
          ∙ ap ok (ap (λ b. decimal b (n.digits, n.place)) (sym unsigned) ∙ sym n.is)
    ]

-- Two texts that denote numbers, as read off their digits, point and exponent without the reader, have
-- the same canonical text exactly if the numbers are the same, where the exponents of the canonical
-- texts are within the bounds: no digit, no power of ten and no sign is lost.
pub canonical_number_iff :
    (raw raw' : Bytes) (d d' : Decimal)
    → Denotes raw d
    → Denotes raw' d'
    → in_range d ≡ true
    → in_range d' ≡ true
    → (canonical_number raw ≡ canonical_number raw') ↔ (d ≡ d')
canonical_number_iff raw raw' d d' n n' r r' =
    canonical_number_read raw raw' d d' (decimal_of-Denotes raw d n) (decimal_of-Denotes raw' d' n')
      r r'
