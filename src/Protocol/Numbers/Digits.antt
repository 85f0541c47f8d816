-- ===== src/Protocol/Numbers/Digits.antt =====
-- Zeros at the ends of sequences of digits.
use gline.Base.{
  ℕ, zero, suc, ◌<◌, ◌≡◌, refl, sym, ap, ◌∙◌, true, false, Bytes, [], ◌∷◌, ◌++◌, length,
  length-append, replicate, drop, append-nil, reverse, is_digit, all, all-append, count_byte, arith,
}
use mathlib.Core.List.{reverse-cons, reverse-append, reverse-reverse}
use gline.Protocol.Numbers.{leading_zeros, trim_left, trim_right}

-- Digits without a zero at either end, at least one.
pub record IsNormal (ds : Bytes) : Type 0 where
  pub digits : all is_digit ds ≡ true
  pub front : leading_zeros ds ≡ 0
  pub back : leading_zeros (reverse ds) ≡ 0
  pub some_digit : 0 < length ds

abbrev pub zeros : ℕ → Bytes
zeros n = replicate n 0x30

pub count-digits :
    (c : ℕ) (ds : Bytes) → is_digit c ≡ false → all is_digit ds ≡ true → count_byte c ds ≡ 0
unfolding count_byte
count-digits c [] other h = refl
count-digits c (d ∷ ds) other h = ground (arith, count-digits c ds other)

pub zeros-are : (n : ℕ) → all is_digit (zeros n) ≡ true
zeros-are zero = refl
zeros-are (suc n) = zeros-are n

leading-zeros : (n : ℕ) (ds : Bytes) → leading_zeros ds ≡ 0 → leading_zeros (zeros n ++ ds) ≡ n
unfolding leading_zeros
leading-zeros zero ds h = h
leading-zeros (suc n) ds h = ap suc (leading-zeros n ds h)

drop-zeros : (n : ℕ) (ds : Bytes) → drop n (zeros n ++ ds) ≡ ds
drop-zeros zero ds = refl
drop-zeros (suc n) ds = drop-zeros n ds

pub leading_zeros-zeros :
    (n : ℕ) (ds : Bytes) → leading_zeros ds ≡ 0 → leading_zeros (zeros n ++ ds) ≡ n
leading_zeros-zeros n ds h = leading-zeros n ds h

pub trim_left-zeros : (n : ℕ) (ds : Bytes) → leading_zeros ds ≡ 0 → trim_left (zeros n ++ ds) ≡ ds
unfolding trim_left
trim_left-zeros n ds h = ap (λ k. drop k (zeros n ++ ds)) (leading-zeros n ds h) ∙ drop-zeros n ds

zeros-snoc : (n : ℕ) → zeros n ++ 0x30 ∷ [] ≡ zeros (suc n)
zeros-snoc zero = refl
zeros-snoc (suc n) = ap (λ l. 0x30 ∷ l) (zeros-snoc n)

reverse-zeros : (n : ℕ) → reverse (zeros n) ≡ zeros n
reverse-zeros zero = refl
reverse-zeros (suc n) =
    reverse-cons 0x30 (zeros n) ∙ ap (λ l. l ++ 0x30 ∷ []) (reverse-zeros n) ∙ zeros-snoc n

pub trim_right-zeros :
    (n : ℕ) (ds : Bytes) → leading_zeros (reverse ds) ≡ 0 → trim_right (ds ++ zeros n) ≡ ds
unfolding trim_right
trim_right-zeros n ds h =
    ap (λ l. reverse (trim_left l))
      (reverse-append ds (zeros n) ∙ ap (λ l. l ++ reverse ds) (reverse-zeros n))
    ∙ ap reverse (trim_left-zeros n (reverse ds) h)
    ∙ reverse-reverse ds

pub trim_right-normal : (ds : Bytes) → leading_zeros (reverse ds) ≡ 0 → trim_right ds ≡ ds
trim_right-normal ds h = ap trim_right (sym (append-nil ds)) ∙ trim_right-zeros 0 ds h

-- A sequence is its leading zeros and what trimming leaves.
parts : (ds : Bytes) → zeros (leading_zeros ds) ++ trim_left ds ≡ ds
unfolding leading_zeros trim_left
parts [] = refl
parts (d ∷ ds) = ground (arith, parts ds)

trim_left-front : (ds : Bytes) → leading_zeros (trim_left ds) ≡ 0
unfolding leading_zeros trim_left
trim_left-front [] = refl
trim_left-front (d ∷ ds) = ground (arith, trim_left-front ds)

parts_back : (ds : Bytes) → trim_right ds ++ zeros (leading_zeros (reverse ds)) ≡ ds
unfolding trim_right
parts_back ds =
    let u = trim_left (reverse ds) in
    let n = leading_zeros (reverse ds) in
    ap (λ l. reverse u ++ l) (sym (reverse-zeros n))
    ∙ sym (reverse-append (zeros n) u)
    ∙ ap reverse (parts (reverse ds))
    ∙ reverse-reverse ds

front-kept :
    (n : ℕ) (ds : Bytes)
    → leading_zeros (ds ++ zeros n) ≡ 0
    → 0 < length (ds ++ zeros n)
    → (leading_zeros ds ≡ 0) × (0 < length ds)
unfolding leading_zeros
front-kept zero [] h more = (refl, more)
front-kept (suc n) [] h more = absurd (omega (arith, h))
front-kept n (d ∷ ds) h more = ground arith

-- What is left of digits that are not all zero.
pub trimmed-IsNormal :
    (ds : Bytes)
    → all is_digit ds ≡ true
    → 0 < length (trim_right (trim_left ds))
    → IsNormal (trim_right (trim_left ds))
unfolding trim_right
trimmed-IsNormal ds digits more =
    let t = trim_left ds in
    let n = leading_zeros (reverse t) in
    let whole = parts_back t in
    let kept =
      front-kept n (trim_right t) (ap leading_zeros whole ∙ trim_left-front ds)
        (ground (arith, length-append (trim_right t) (zeros n))) in
    let left : all is_digit t ≡ true =
      ground (arith, parts ds, all-append is_digit (zeros (leading_zeros ds)) t) in
    record {
      digits = ground (arith, whole, all-append is_digit (trim_right t) (zeros n), left);
      front = kept.0;
      back =
          ap leading_zeros (reverse-reverse (trim_left (reverse t))) ∙ trim_left-front (reverse t);
      some_digit = more;
    }
