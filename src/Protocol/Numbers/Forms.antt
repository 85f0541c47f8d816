-- ===== src/Protocol/Numbers/Forms.antt =====
-- Reading the text that canonicalNumber prints.
use gline.Base.{
  ℕ, zero, suc, ◌+◌, ◌-◌, ◌<◌, ◌≤◌, ◌≡◌, refl, ap, ap₂, ◌∙◌, ℤ, pos, negsuc, difference, format_int,
  parse_int-format_int, true, false, none, some, codes, Bytes, [], ◌∷◌, ◌++◌, length, length-append,
  length-take, take, drop, append-nil, is_digit, all, all-append, count_byte, count_byte-append,
  cut_byte-append, cut_byte-none, ltb, leb, nat_beq, arith, if-keeps, ok,
}
use gline.Protocol.Numbers.{
  split_at, split_exponent, is_large, read_exponent, read_mantissa, leading_zeros, trim_left,
  trim_right, position_of, predecessor, print_scientific, print_unsigned, read_number,
}
use gline.Protocol.Numbers.Digits.{
  IsNormal, zeros, count-digits, zeros-are, leading_zeros-zeros, trim_left-zeros, trim_right-zeros,
  trim_right-normal,
}

-- A mantissa without a dot, and one with a dot.
pub read_mantissa-whole :
    (ds : Bytes) → all is_digit ds ≡ true → 0 < length ds → read_mantissa ds ≡ ok (ds, length ds)
unfolding read_mantissa
read_mantissa-whole ds digits more =
    let dots = count-digits 0x2e ds refl digits in
    ground (arith, dots, cut_byte-none 0x2e ds dots, append-nil ds)

read_mantissa-dot :
    (xs ys : Bytes)
    → all is_digit (xs ++ ys) ≡ true
    → 0 < length xs
    → read_mantissa (xs ++ 0x2e ∷ ys) ≡ ok (xs ++ ys, length xs)
unfolding read_mantissa count_byte
read_mantissa-dot xs ys digits more =
    let (left, right) : (all is_digit xs ≡ true) × (all is_digit ys ≡ true) =
      ground (arith, all-append is_digit xs ys) in
    let dots : count_byte 0x2e (xs ++ 0x2e ∷ ys) ≡ 1 =
      count_byte-append 0x2e xs (0x2e ∷ ys)
      ∙ ground (arith, count-digits 0x2e xs refl left, count-digits 0x2e ys refl right) in
    ground (
      arith,
      dots,
      cut_byte-append 0x2e xs ys (count-digits 0x2e xs refl left),
      length-append xs ys,
    )

-- A text without the bytes of an exponent.
pub split_exponent-none :
    (s : Bytes) → count_byte 0x65 s ≡ 0 → count_byte 0x45 s ≡ 0 → split_exponent s ≡ (s, none)
unfolding split_exponent split_at
split_exponent-none s h k = ground (arith, h, k, cut_byte-none 0x45 s k)

pub split_exponent-some :
    (s t : Bytes) → count_byte 0x65 s ≡ 0 → split_exponent (s ++ 0x65 ∷ t) ≡ (s, some t)
unfolding split_exponent split_at count_byte
split_exponent-some s t h =
    ground (arith, count_byte-append 0x65 s (0x65 ∷ t), cut_byte-append 0x65 s t h)

read_exponent-format : (z : ℤ) → is_large z ≡ false → read_exponent (some (format_int z)) ≡ ok z
unfolding read_exponent
read_exponent-format z h = ground (arith, parse_int-format_int z)

read_whole :
    (ds : Bytes)
    → all is_digit ds ≡ true
    → 0 < length ds
    → read_number ds
      ≡ ok (trim_right (trim_left ds), position_of (length ds) (pos 0) (leading_zeros ds))
unfolding read_number read_exponent
read_whole ds digits more = ground (
  arith,
  read_mantissa-whole ds digits more,
  split_exponent-none ds (count-digits 0x65 ds refl digits) (count-digits 0x45 ds refl digits),
)

pub no_exponent :
    (c : ℕ) (xs ys : Bytes)
    → is_digit c ≡ false
    → nat_beq 0x2e c ≡ false
    → all is_digit (xs ++ ys) ≡ true
    → count_byte c (xs ++ 0x2e ∷ ys) ≡ 0
unfolding count_byte
no_exponent c xs ys other dot digits =
    let (left, right) : (all is_digit xs ≡ true) × (all is_digit ys ≡ true) =
      ground (arith, all-append is_digit xs ys) in
    count_byte-append c xs (0x2e ∷ ys)
    ∙ ground (arith, count-digits c xs other left, count-digits c ys other right, dot)

read_dot :
    (xs ys : Bytes)
    → all is_digit (xs ++ ys) ≡ true
    → 0 < length xs
    → read_number (xs ++ 0x2e ∷ ys)
      ≡ ok (
        trim_right (trim_left (xs ++ ys)),
        position_of (length xs) (pos 0) (leading_zeros (xs ++ ys)),
      )
unfolding read_number read_exponent
read_dot xs ys digits more = ground (
  arith,
  read_mantissa-dot xs ys digits more,
  split_exponent-none (xs ++ 0x2e ∷ ys) (no_exponent 0x65 xs ys refl refl digits)
      (no_exponent 0x45 xs ys refl refl digits),
)

pub front-append :
    (ds ys : Bytes) → leading_zeros ds ≡ 0 → 0 < length ds → leading_zeros (ds ++ ys) ≡ 0
unfolding leading_zeros
front-append [] ys h more = absurd (omega arith)
front-append (d ∷ ds) ys h more = ground arith

length-zeros : (m : ℕ) → length (zeros m) ≡ m
length-zeros zero = refl
length-zeros (suc m) = ap suc (length-zeros m)

take-drop : (k : ℕ) (ds : Bytes) → take k ds ++ drop k ds ≡ ds
take-drop zero ds = refl
take-drop (suc k) [] = refl
take-drop (suc k) (d ∷ ds) = ap (λ l. d ∷ l) (take-drop k ds)

position-whole : (m k : ℕ) → m ≡ k → position_of m (pos 0) 0 ≡ pos k
unfolding position_of difference
position-whole m k e = ground arith

position-predecessor : (p : ℤ) → position_of 1 (predecessor p) 0 ≡ p
unfolding position_of difference predecessor
position-predecessor (pos zero) = refl
position-predecessor (pos (suc n)) = ground arith
position-predecessor (negsuc k) = ground arith

difference-fraction : (k : ℕ) → difference 1 (suc (suc k)) ≡ negsuc k
unfolding difference
difference-fraction k = ground arith

module _ (ds : Bytes) (n : IsNormal ds) where
  trimmed : trim_right (trim_left ds) ≡ ds
  trimmed = ap trim_right (trim_left-zeros 0 ds n.front) ∙ trim_right-normal ds n.back

  -- With zeros behind.
  read_padded : (m : ℕ) → read_number (ds ++ zeros m) ≡ ok (ds, pos (length ds + m))
  read_padded m =
      let front = front-append ds (zeros m) n.front n.some_digit in
      let size = length-append ds (zeros m) in
      read_whole (ds ++ zeros m)
        (ground (arith, all-append is_digit ds (zeros m), n.digits, zeros-are m))
        (omega (arith, size, n.some_digit))
      ∙ ap₂ (λ digits z. ok (digits, z))
          (ap trim_right (trim_left-zeros 0 (ds ++ zeros m) front) ∙ trim_right-zeros m ds n.back)
          (ap (position_of (length (ds ++ zeros m)) (pos 0)) front
            ∙ position-whole _ _ (omega (arith, size, length-zeros m)))

  -- With zeros in front, behind the point.
  read_fraction :
      (k : ℕ) → read_number (codes "0." ++ (zeros k ++ ds)) ≡ ok (ds, difference 1 (suc k))
  unfolding position_of
  read_fraction k =
      read_dot (0x30 ∷ []) (zeros k ++ ds)
        (ground (arith, all-append is_digit (zeros k) ds, n.digits, zeros-are k)) (omega arith)
      ∙ ap₂ (λ digits z. ok (digits, z))
          (ap trim_right (trim_left-zeros (suc k) ds n.front) ∙ trim_right-normal ds n.back)
          (ap (difference 1) (leading_zeros-zeros (suc k) ds n.front))

  -- With the point inside.
  read_inside :
      (p : ℕ)
      → suc p < length ds
      → read_number (take (suc p) ds ++ (codes "." ++ drop (suc p) ds)) ≡ ok (ds, pos (suc p))
  read_inside p h =
      let whole = take-drop (suc p) ds in
      let size : length (take (suc p) ds) ≡ suc p = omega (arith, length-take (suc p) ds) in
      read_dot (take (suc p) ds) (drop (suc p) ds) (ap (all is_digit) whole ∙ n.digits)
        (omega (arith, size))
      ∙ ap₂ (λ digits z. ok (digits, z)) (ap (λ l. trim_right (trim_left l)) whole ∙ trimmed)
          (ap (position_of _ (pos 0)) (ap leading_zeros whole ∙ n.front) ∙ position-whole _ _ size)

  read_exponent-text :
      (s : Bytes) (p : ℤ)
      → is_large (predecessor p) ≡ false
      → count_byte 0x65 s ≡ 0
      → read_mantissa s ≡ ok (ds, 1)
      → read_number (s ++ 0x65 ∷ format_int (predecessor p)) ≡ ok (ds, p)
  unfolding read_number
  read_exponent-text s p h e mantissa = ground (
    arith,
    split_exponent-some s (format_int (predecessor p)) e,
    read_exponent-format (predecessor p) h,
    mantissa,
    trimmed,
    n.front,
    position-predecessor p,
  )

-- With an exponent.
read_scientific :
    (ds : Bytes) (n : IsNormal ds) (p : ℤ)
    → is_large (predecessor p) ≡ false
    → read_number (print_scientific p ds) ≡ ok (ds, p)
unfolding print_scientific
read_scientific [] n p h = absurd (omega (arith, n.some_digit))
read_scientific (d ∷ []) n p h =
    read_exponent-text (d ∷ []) n (d ∷ []) p h (count-digits 0x65 (d ∷ []) refl n.digits)
      (read_mantissa-whole (d ∷ []) n.digits (omega arith))
read_scientific (d ∷ e ∷ es) n p h =
    if-keeps
      (λ fraction.
        read_number (d ∷ (fraction ++ 0x65 ∷ format_int (predecessor p))) ≡ ok (d ∷ e ∷ es, p))
      (ltb 1 (suc (suc (length es)))) (0x2e ∷ e ∷ es) []
      (λ more.
        read_exponent-text (d ∷ e ∷ es) n (d ∷ 0x2e ∷ e ∷ es) p h
          (no_exponent 0x65 (d ∷ []) (e ∷ es) refl refl n.digits)
          (read_mantissa-dot (d ∷ []) (e ∷ es) n.digits (omega arith)))
      (λ one. absurd (ground (arith, one)))

-- Reading a printed number gives it back.
pub read_number-print :
    (ds : Bytes) (n : IsNormal ds) (p : ℤ)
    → is_large (predecessor p) ≡ false
    → read_number (print_unsigned p ds) ≡ ok (ds, p)
unfolding print_unsigned difference
read_number-print ds n (pos zero) h = read_fraction ds n 0
read_number-print ds n (pos (suc p)) h =
    let P : Bytes → Type 0 = λ s. read_number s ≡ ok (ds, pos (suc p)) in
    if-keeps P (ltb 21 (suc p)) _ _ (λ far. read_scientific ds n (pos (suc p)) h)
      (λ near.
        if-keeps P (leb (length ds) (suc p)) _ _
          (λ all_in.
            read_padded ds n (suc p - length ds)
            ∙ ap (λ k. ok (ds, pos k)) (let le : length ds ≤ suc p = ground arith in omega arith))
          (λ inside. read_inside ds n p (ground arith)))
read_number-print ds n (negsuc k) h =
    if-keeps (λ s. read_number s ≡ ok (ds, negsuc k)) (ltb k 5) _ _
      (λ near. read_fraction ds n (suc k) ∙ ap (λ z. ok (ds, z)) (difference-fraction k))
      (λ far. read_scientific ds n (negsuc k) h)
