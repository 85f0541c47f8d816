-- ===== src/Base/Text.antt =====
-- Go strings and byte slices: sequences of bytes, with what the program uses of package strings.
use Prim.Native.Nat.{ℕ}
use Prim.Native.Char.{code}
use Prim.Native.String.{String}
use mathlib.Core.Path.{◌≡◌, ◌∙◌, sym, ap, refl}
use mathlib.Core.Logic.{◌↔◌}
use mathlib.Core.Bool.{Bool, true, false, ◌&&◌, ◌||◌}
use mathlib.Core.List.{List, [], ◌∷◌, reverse, reverse-reverse}
use native.Mathlib.Omega.{arith}
use gline.Base.Tests.{leb, nat_beq, if◌then◌else◌, Eq}

abbrev pub Bytes : Type 0
Bytes = List ℕ

-- The bytes of an ASCII literal.
abbrev pub codes : String → Bytes
codes String.[] = []
codes (String.◌∷◌ c s) = code c ∷ codes s

unfoldable pub bytes_beq : Bytes → Bytes → Bool
bytes_beq [] [] = true
bytes_beq [] (y ∷ ys) = false
bytes_beq (x ∷ xs) [] = false
bytes_beq (x ∷ xs) (y ∷ ys) = nat_beq x y && bytes_beq xs ys

bytes_beq→eq : (a b : Bytes) → bytes_beq a b ≡ true → a ≡ b
unfolding bytes_beq
bytes_beq→eq [] [] h = refl
bytes_beq→eq [] (y ∷ ys) h = cc
bytes_beq→eq (x ∷ xs) [] h = cc
bytes_beq→eq (x ∷ xs) (y ∷ ys) h = ground (arith, bytes_beq→eq xs ys)

bytes_beq_refl : (a : Bytes) → bytes_beq a a ≡ true
unfolding bytes_beq
bytes_beq_refl [] = refl
bytes_beq_refl (x ∷ xs) = ground (arith, bytes_beq_refl xs)

pub bytes_beq_iff : (a b : Bytes) → (bytes_beq a b ≡ true) ↔ (a ≡ b)
bytes_beq_iff a b = (bytes_beq→eq a b, λ p. ground (arith, bytes_beq_refl a))

instance abbrev pub bytes_eq : Eq Bytes
bytes_eq = record { same_key = bytes_beq; beq_iff = bytes_beq_iff }

between : ℕ → ℕ → ℕ → Bool
between lo hi c = leb lo c && leb c hi

-- unicode.IsSpace in UTF-8: one byte, or two, or three.
is_space : ℕ → Bool
unfolding between
is_space c = nat_beq c 0x20 || between 0x09 0x0d c

is_space_pair : ℕ → ℕ → Bool
is_space_pair a b = nat_beq a 0xc2 && (nat_beq b 0x85 || nat_beq b 0xa0)

is_space_triple : ℕ → ℕ → ℕ → Bool
unfolding between
is_space_triple a b c =
    nat_beq a 0xe1 && nat_beq b 0x9a && nat_beq c 0x80
    || nat_beq a 0xe2
      && nat_beq b 0x80
      && (between 0x80 0x8a c || nat_beq c 0xa8 || nat_beq c 0xa9 || nat_beq c 0xaf)
    || nat_beq a 0xe2 && nat_beq b 0x81 && nat_beq c 0x9f
    || nat_beq a 0xe3 && nat_beq b 0x80 && nat_beq c 0x80

-- Drops white space in front; `pair` and `triple` read the bytes in the order of the sequence.
drop_space : (ℕ → ℕ → Bool) → (ℕ → ℕ → ℕ → Bool) → Bytes → Bytes
unfolding is_space
drop_space pair triple [] = []
drop_space pair triple (a ∷ []) = if is_space a then [] else a ∷ []
drop_space pair triple (a ∷ b ∷ []) =
    let one = drop_space pair triple (b ∷ []) in
    if is_space a then one else if pair a b then [] else a ∷ b ∷ []
drop_space pair triple (a ∷ b ∷ c ∷ s) =
    let one = drop_space pair triple (b ∷ c ∷ s) in
    let two = drop_space pair triple (c ∷ s) in
    let three = drop_space pair triple s in
    if is_space a
    then one
    else if pair a b
    then two
    else if triple a b c
    then three
    else a ∷ b ∷ c ∷ s

-- strings.TrimSpace, on valid UTF-8.
unfoldable pub trim_space : Bytes → Bytes
unfolding drop_space is_space_pair is_space_triple
trim_space s = reverse (
    drop_space (λ a b. is_space_pair b a) (λ a b c. is_space_triple c b a)
      (reverse (drop_space is_space_pair is_space_triple s)))

-- strings.TrimSpace(s) == ""
unfoldable pub is_blank : Bytes → Bool
unfolding trim_space bytes_beq
is_blank s = bytes_beq (trim_space s) []

-- No byte below 0x80 is part of white space, but for the six of ASCII.
abbrev pub is_visible : ℕ → Bool
is_visible c = leb 0x21 c && leb c 0x7f

drop_space-visible :
    (pair : ℕ → ℕ → Bool) (triple : ℕ → ℕ → ℕ → Bool) (c : ℕ) (s : Bytes)
    → is_space c ≡ false
    → ((b : ℕ) → pair c b ≡ false)
    → ((b d : ℕ) → triple c b d ≡ false)
    → drop_space pair triple (c ∷ s) ≡ c ∷ s
unfolding drop_space
drop_space-visible pair triple c [] h p t = ground (arith, h)
drop_space-visible pair triple c (b ∷ []) h p t = ground (arith, h, p b)
drop_space-visible pair triple c (b ∷ d ∷ s) h p t = ground (arith, h, p b, t b d)

space-visible : (c : ℕ) → is_visible c ≡ true → is_space c ≡ false
unfolding is_space between
space-visible c h = ground (arith, h)

pair-front : (c d : ℕ) → is_visible c ≡ true → is_space_pair c d ≡ false
unfolding is_space_pair
pair-front c d h = ground (arith, h)

pair-back : (c d : ℕ) → is_visible d ≡ true → is_space_pair c d ≡ false
unfolding is_space_pair
pair-back c d h = ground (arith, h)

triple-front : (c d e : ℕ) → is_visible c ≡ true → is_space_triple c d e ≡ false
unfolding is_space_triple
triple-front c d e h =
    let (one, two, three) : (nat_beq c 0xe1 ≡ false)
        × (nat_beq c 0xe2 ≡ false)
        × (nat_beq c 0xe3 ≡ false) =
      ground (arith, h) in
    rw (one, two, three) refl

dark :
    (p q r s t u v : Bool)
    → (p && q && false
        || r && s && (false && v || false || false || false)
        || r && t && false
        || u && s && false)
      ≡ false
dark p q r s t u v = ground arith

triple-back : (c d e : ℕ) → is_visible e ≡ true → is_space_triple c d e ≡ false
unfolding is_space_triple between
triple-back c d e h =
    let (one, two, three, four, five, six) : (nat_beq e 0x80 ≡ false)
        × (leb 0x80 e ≡ false)
        × (nat_beq e 0xa8 ≡ false)
        × (nat_beq e 0xa9 ≡ false)
        × (nat_beq e 0xaf ≡ false)
        × (nat_beq e 0x9f ≡ false) =
      ground (arith, h) in
    rw (one, two, three, four, five, six)
      (dark (nat_beq c 0xe1) (nat_beq d 0x9a) (nat_beq c 0xe2) (nat_beq d 0x80) (nat_beq d 0x81)
        (nat_beq c 0xe3) (leb e 0x8a))

-- A text that begins and ends with visible bytes of ASCII is trimmed already.
pub trim_space-visible :
    (a b : ℕ) (s t : Bytes)
    → is_visible a ≡ true
    → is_visible b ≡ true
    → reverse (a ∷ s) ≡ b ∷ t
    → trim_space (a ∷ s) ≡ a ∷ s
unfolding trim_space
trim_space-visible a b s t first last ends =
    let front =
      drop_space-visible is_space_pair is_space_triple a s (space-visible a first)
        (λ x. pair-front a x first) (λ x y. triple-front a x y first) in
    let back =
      drop_space-visible (λ x y. is_space_pair y x) (λ x y z. is_space_triple z y x) b t
        (space-visible b last) (λ x. pair-back x b last) (λ x y. triple-back y x b last) in
    ap
      (λ l.
        reverse
          (drop_space (λ x y. is_space_pair y x) (λ x y z. is_space_triple z y x) (reverse l)))
      front
    ∙ ap (λ l. reverse (drop_space (λ x y. is_space_pair y x) (λ x y z. is_space_triple z y x) l))
        ends
    ∙ ap reverse (back ∙ sym ends)
    ∙ reverse-reverse (a ∷ s)

trim_text : trim_space (codes " \t ab c\n") ≡ codes "ab c"
unfolding trim_space
trim_text = refl

blank_text : is_blank (0xc2 ∷ 0xa0 ∷ 0x20 ∷ 0xe3 ∷ 0x80 ∷ 0x80 ∷ []) ≡ true
unfolding is_blank
blank_text = refl
