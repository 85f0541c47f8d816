-- ===== src/Protocol/Numbers/Decimals.antt =====
-- The decimal number that canonicalNumber reads from a text, and that its canonical text gives back.
use gline.Base.{
  ℕ, zero, suc, ◌+◌, ◌-◌, ◌<◌, ◌≡◌, ◌↔◌, refl, sym, ap, ◌∙◌, subst, ℤ, pos, negsuc, Bool, true,
  false, not, ◌&&◌, Bytes, List, [], ◌∷◌, ◌++◌, length, take, replicate, is_digit, all, ltb, leb,
  nat_beq, arith, if◌then◌else◌, if-keeps, Result, ok, err, ◌>>=◌, >>=-eq-ok, ok_inj, codes,
  Bool-cases, inl, inr,
}
use gline.Protocol.Numbers.{
  NumberError, empty, is_large, predecessor, read_mantissa, print_scientific, print_unsigned,
  print_number, read_number, canonical_unsigned, canonical_number, leading_zeros, trim_left,
  trim_right, split_exponent, read_exponent,
}
use gline.Protocol.Numbers.Digits.{IsNormal, trimmed-IsNormal}
use gline.Protocol.Numbers.Forms.{read_number-print}

-- Zero, or a sign, the digits without zeros at the ends, and the power of ten: 0.digits times ten to
-- the power of the position.
pub data Decimal : Type 0 where
  naught : Decimal
  scaled : Bool → Bytes → ℤ → Decimal

abbrev pub decimal : Bool → Bytes × ℤ → Decimal
decimal negative (digits, position) =
    if nat_beq (length digits) 0 then naught else scaled negative digits position

-- The number that is read from a text.
unfoldable pub decimal_of : Bytes → Result NumberError Decimal
decimal_of [] = err empty
decimal_of (c ∷ cs) =
    if nat_beq c 0x2d
    then (read_number cs >>= λ n. ok (decimal true n))
    else (read_number (c ∷ cs) >>= λ n. ok (decimal false n))

-- The exponent that is printed for it can be read.
abbrev pub in_range : Decimal → Bool
in_range naught = true
in_range (scaled negative digits position) = not (is_large (predecessor position))

abbrev print : Decimal → Bytes
print naught = codes "0"
print (scaled negative digits position) = print_number negative position digits

canonical_number-lem : (raw : Bytes) → canonical_number raw ≡ (decimal_of raw >>= λ d. ok (print d))
unfolding canonical_number canonical_unsigned decimal_of
canonical_number-lem [] = refl
canonical_number-lem (c ∷ cs) = ground arith

read_mantissa-digits :
    (m : Bytes) (ds : Bytes) (dot : ℕ) → read_mantissa m ≡ ok (ds, dot) → all is_digit ds ≡ true
unfolding read_mantissa
read_mantissa-digits m ds dot h = ground arith

read_number-IsNormal :
    (raw : Bytes) (ds : Bytes) (p : ℤ) → read_number raw ≡ ok (ds, p) → 0 < length ds → IsNormal ds
unfolding read_number
read_number-IsNormal raw ds p h more =
    let (z, read, rest) = >>=-eq-ok (read_exponent (split_exponent raw).1) _ h in
    let (m, mantissa, made) = >>=-eq-ok (read_mantissa (split_exponent raw).0) _ rest in
    let e = ap (λ n. n.0) (ok_inj made) in
    subst IsNormal e (
      trimmed-IsNormal m.0 (read_mantissa-digits _ m.0 m.1 mantissa)
        (subst (λ l. 0 < length l) (sym e) more))

-- A text that does not begin with a minus.
abbrev pub is_plain : Bytes → Bool
is_plain [] = false
is_plain (c ∷ cs) = not (nat_beq c 0x2d)

print-plain : (ds : Bytes) (n : IsNormal ds) (p : ℤ) → is_plain (print_unsigned p ds) ≡ true
unfolding print_unsigned print_scientific
print-plain [] n p = absurd (omega (arith, n.some_digit))
print-plain (d ∷ ds) n (pos zero) = refl
print-plain (d ∷ ds) n (pos (suc p)) = ground (arith, n.digits)
print-plain (d ∷ ds) n (negsuc k) = ground (arith, n.digits)

pub decimal_of-plain :
    (s : Bytes) → is_plain s ≡ true → decimal_of s ≡ (read_number s >>= λ n. ok (decimal false n))
unfolding decimal_of
decimal_of-plain [] h = cc
decimal_of-plain (c ∷ cs) h = ground arith

print_back :
    (negative : Bool) (ds : Bytes) (p : ℤ) (n : IsNormal ds)
    → is_large (predecessor p) ≡ false
    → decimal_of (print_number negative p ds) ≡ ok (scaled negative ds p)
unfolding decimal_of print_number
print_back true ds p n h = ground (arith, read_number-print ds n p h, n.some_digit)
print_back false ds p n h =
    decimal_of-plain (print_unsigned p ds) (print-plain ds n p)
    ∙ ground (arith, read_number-print ds n p h, n.some_digit)

naught_back : decimal_of (codes "0") ≡ ok naught
unfolding decimal_of read_number split_exponent read_exponent read_mantissa trim_right trim_left
    leading_zeros gline.Base.count_byte gline.Base.cut_byte
naught_back = refl

scaled-read :
    (s : Bytes) (b negative : Bool) (ds : Bytes) (p : ℤ)
    → (read_number s >>= λ n. ok (decimal b n)) ≡ ok (scaled negative ds p)
    → (read_number s ≡ ok (ds, p)) × (0 < length ds)
scaled-read s b negative ds p h = ground arith

decimal_of-IsNormal :
    (raw : Bytes) (negative : Bool) (ds : Bytes) (p : ℤ)
    → decimal_of raw ≡ ok (scaled negative ds p)
    → IsNormal ds
unfolding decimal_of
decimal_of-IsNormal [] negative ds p h = cc
decimal_of-IsNormal (c ∷ cs) negative ds p h = elim (Bool-cases (nat_beq c 0x2d)) [
  | inl minus ↦
      (let (read, more) = scaled-read cs true negative ds p (ground (arith, minus, h)) in
        read_number-IsNormal cs ds p read more)
  | inr plain ↦
      (let (read, more) = scaled-read (c ∷ cs) false negative ds p (ground (arith, plain, h)) in
        read_number-IsNormal (c ∷ cs) ds p read more)
]

-- The canonical text of a number denotes it.
decimal_of-print :
    (raw : Bytes) (d : Decimal)
    → decimal_of raw ≡ ok d
    → in_range d ≡ true
    → decimal_of (print d) ≡ ok d
decimal_of-print raw naught h r = naught_back
decimal_of-print raw (scaled negative ds p) h r =
    print_back negative ds p (decimal_of-IsNormal raw negative ds p h) (ground (arith, r))

-- Texts from which numbers are read, with canonical exponents within the bounds, have the same
-- canonical text exactly if the numbers are the same.
pub canonical_number_read :
    (raw raw' : Bytes) (d d' : Decimal)
    → decimal_of raw ≡ ok d
    → decimal_of raw' ≡ ok d'
    → in_range d ≡ true
    → in_range d' ≡ true
    → (canonical_number raw ≡ canonical_number raw') ↔ (d ≡ d')
canonical_number_read raw raw' d d' h h' r r' =
    let e = canonical_number-lem raw ∙ ap (λ m. m >>= λ x. ok (print x)) h in
    let e' = canonical_number-lem raw' ∙ ap (λ m. m >>= λ x. ok (print x)) h' in
    (
      λ same.
          let texts : print d ≡ print d' = ok_inj (sym e ∙ same ∙ e') in
          ok_inj (
            sym (decimal_of-print raw d h r)
            ∙ ap decimal_of texts
            ∙ decimal_of-print raw' d' h' r'),
      λ same. e ∙ ap (λ x. ok (print x)) same ∙ sym e',
    )
