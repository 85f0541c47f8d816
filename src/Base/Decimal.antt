-- ===== src/Base/Decimal.antt =====
-- Decimal texts: strconv.Itoa, FormatInt and FormatUint, and strconv.Atoi. (Atoi also refuses what does
-- not fit an int; its one caller refuses all that is far smaller.)
use Prim.Native.Nat.{ℕ, zero, suc, ◌+◌, ◌-◌, ◌*◌, ◌/◌, ◌%◌, ◌≤◌, ◌<◌}
use mathlib.Core.Path.{◌≡◌, ◌∙◌, refl, ap}
use mathlib.Core.Bool.{Bool, true, ◌&&◌}
use mathlib.Core.Option.{Option, none, some}
use mathlib.Core.List.{List, [], ◌∷◌, ◌++◌, reverse, reverse-cons, reverse-reverse}
use native.Mathlib.Omega.{arith}
use gline.Base.Tests.{ltb, leb, nat_beq, if◌then◌else◌, if-keeps}
use gline.Base.Lists.{length, length-append, all}
use gline.Base.Text.{Bytes, trim_space, trim_space-visible}
use gline.Base.Int.{ℤ, pos, negsuc}

abbrev pub is_digit : ℕ → Bool
is_digit c = leb 0x30 c && leb c 0x39

-- The digits of a number, on fuel that `format_nat` gives enough of.
unfoldable pub digits_of : ℕ → ℕ → Bytes
digits_of zero n = []
digits_of (suc fuel) n =
    let rest = digits_of fuel (n / 10) in
    if ltb n 10 then (0x30 + n) ∷ [] else rest ++ ((0x30 + n % 10) ∷ [])

unfoldable pub format_nat : ℕ → Bytes
unfolding digits_of
format_nat n = digits_of (suc n) n

-- strconv.Itoa
unfoldable pub format_int : ℤ → Bytes
unfolding format_nat
format_int (pos n) = format_nat n
format_int (negsuc n) = 0x2d ∷ format_nat (suc n)

unfoldable pub digits_value : ℕ → Bytes → ℕ
digits_value n [] = n
digits_value n (c ∷ cs) = digits_value (n * 10 + (c - 0x30)) cs

unfoldable pub parse_nat : Bytes → Option ℕ
unfolding digits_value
parse_nat [] = none
parse_nat (c ∷ cs) = if all is_digit (c ∷ cs) then some (digits_value 0 (c ∷ cs)) else none

abbrev pub negate : ℕ → ℤ
negate zero = pos 0
negate (suc n) = negsuc n

abbrev pub signed : (ℕ → ℤ) → Option ℕ → Option ℤ
signed sign none = none
signed sign (some n) = some (sign n)

-- strconv.Atoi
unfoldable pub parse_int : Bytes → Option ℤ
unfolding parse_nat
parse_int [] = none
parse_int (c ∷ cs) =
    if nat_beq c 0x2d
    then signed negate (parse_nat cs)
    else if nat_beq c 0x2b
    then signed pos (parse_nat cs)
    else signed pos (parse_nat (c ∷ cs))

-- m - n
unfoldable pub difference : ℕ → ℕ → ℤ
difference m n = if ltb m n then negsuc (n - m - 1) else pos (m - n)

pub all-append {ℓ} :
    {A : Type ℓ} (p : A → Bool) (xs ys : List A) → all p (xs ++ ys) ≡ (all p xs && all p ys)
all-append p [] ys = refl
all-append p (x ∷ xs) ys = ground (arith, all-append p xs ys)

value-append :
    (n : ℕ) (xs : Bytes) (c : ℕ)
    → digits_value n (xs ++ c ∷ []) ≡ digits_value n xs * 10 + (c - 0x30)
unfolding digits_value
value-append n [] c = refl
value-append n (x ∷ xs) c = value-append (n * 10 + (x - 0x30)) xs c

digits-value : (fuel n : ℕ) → n < fuel → digits_value 0 (digits_of fuel n) ≡ n
unfolding digits_of digits_value
digits-value zero n h = absurd (omega arith)
digits-value (suc fuel) n h =
    if-keeps (λ s. digits_value 0 s ≡ n) (ltb n 10) _ _ (λ small. omega arith)
      (λ large.
        value-append 0 (digits_of fuel (n / 10)) (0x30 + n % 10)
        ∙ (let ten : 10 ≤ n = ground arith in
            omega (arith, digits-value fuel (n / 10) (omega arith))))

digits-are : (fuel n : ℕ) → all is_digit (digits_of fuel n) ≡ true
unfolding digits_of
digits-are zero n = refl
digits-are (suc fuel) n =
    if-keeps (λ s. all is_digit s ≡ true) (ltb n 10) _ _ (λ small. ground arith)
      (λ large.
        all-append is_digit (digits_of fuel (n / 10)) _ ∙ ground (arith, digits-are fuel (n / 10)))

digits-length : (fuel n : ℕ) → n < fuel → 0 < length (digits_of fuel n)
unfolding digits_of
digits-length zero n h = absurd (omega arith)
digits-length (suc fuel) n h =
    ground (arith, length-append (digits_of fuel (n / 10)) ((0x30 + n % 10) ∷ []))

parse_nat-lem :
    (s : Bytes) → all is_digit s ≡ true → 0 < length s → parse_nat s ≡ some (digits_value 0 s)
unfolding parse_nat
parse_nat-lem [] all_digits h = absurd (omega arith)
parse_nat-lem (c ∷ cs) all_digits h = rw all_digits

-- Reading a number that was printed gives it back.
pub parse_nat-format_nat : (n : ℕ) → parse_nat (format_nat n) ≡ some n
unfolding format_nat
parse_nat-format_nat n =
    parse_nat-lem (digits_of (suc n) n) (digits-are (suc n) n)
      (digits-length (suc n) n (omega arith))
    ∙ ap some (digits-value (suc n) n (omega arith))

parse_int-digit : (s : Bytes) → all is_digit s ≡ true → parse_int s ≡ signed pos (parse_nat s)
unfolding parse_int parse_nat
parse_int-digit [] h = refl
parse_int-digit (c ∷ cs) h = ground arith

pub parse_int-format_int : (z : ℤ) → parse_int (format_int z) ≡ some z
unfolding format_int parse_int format_nat
parse_int-format_int (pos n) =
    parse_int-digit (format_nat n) (digits-are (suc n) n) ∙ ap (signed pos) (parse_nat-format_nat n)
parse_int-format_int (negsuc n) = ap (signed negate) (parse_nat-format_nat (suc n))

all-reverse {ℓ} :
    {A : Type ℓ} (p : A → Bool) (xs : List A) → all p xs ≡ true → all p (reverse xs) ≡ true
all-reverse p [] h = refl
all-reverse p (x ∷ xs) h =
    ap (all p) (reverse-cons x xs)
    ∙ ground (arith, all-append p (reverse xs) (x ∷ []), all-reverse p xs (ground (arith, h)), h)

trim-ends :
    (a : ℕ) (s r : Bytes)
    → reverse (a ∷ s) ≡ r
    → all is_digit (a ∷ s) ≡ true
    → all is_digit r ≡ true
    → trim_space (a ∷ s) ≡ a ∷ s
trim-ends a s [] e h k = absurd (ground (arith, reverse-reverse (a ∷ s), e))
trim-ends a s (b ∷ t) e h k = trim_space-visible a b s t (ground (arith, h)) (ground (arith, k)) e

-- White space is not among digits.
trim_space-digits : (s : Bytes) → all is_digit s ≡ true → trim_space s ≡ s
unfolding trim_space
trim_space-digits [] h = refl
trim_space-digits (a ∷ s) h = trim-ends a s _ refl h (all-reverse is_digit (a ∷ s) h)

pub trim_space-format_nat : (n : ℕ) → trim_space (format_nat n) ≡ format_nat n
unfolding format_nat
trim_space-format_nat n = trim_space-digits (digits_of (suc n) n) (digits-are (suc n) n)

pub length-format_nat : (n : ℕ) → 0 < length (format_nat n)
unfolding format_nat
length-format_nat n = digits-length (suc n) n (omega arith)

pub parse_int-format_nat : (n : ℕ) → parse_int (format_nat n) ≡ some (pos n)
unfolding format_int
parse_int-format_nat n = parse_int-format_int (pos n)
