-- ===== src/Base/Strings.antt =====
-- sort.Strings, strings.Count and strings.Cut on one byte, and utf8.ValidString.
use Prim.Native.Nat.{ℕ, suc, ◌+◌, ◌<◌}
use mathlib.Core.Path.{subst, ◌≡◌, ◌∙◌, refl, sym, ap₂}
use mathlib.Core.Logic.{◌≢◌, inl, inr}
use mathlib.Core.Bool.{Bool, true, false, ◌&&◌, ◌||◌}
use mathlib.Core.List.{List, [], ◌∷◌, ◌++◌}
use native.Mathlib.Omega.{arith}
use gline.Base.Tests.{nat_eq, ltb, leb, nat_beq, if◌then◌else◌, if-keeps, Bool-cases, ◌==◌}
use gline.Base.Text.{Bytes, bytes_eq, bytes_beq_iff}
use gline.Base.Lists.{All, contains}

-- The byte order of Go's strings.
unfoldable pub text_le : Bytes → Bytes → Bool
text_le [] ys = true
text_le (x ∷ xs) [] = false
text_le (x ∷ xs) (y ∷ ys) = let rest = text_le xs ys in ltb x y || nat_beq x y && rest

unfoldable pub insert_string : Bytes → List Bytes → List Bytes
insert_string k [] = k ∷ []
insert_string k (x ∷ xs) =
    let rest = insert_string k xs in if text_le k x then k ∷ x ∷ xs else x ∷ rest

unfoldable pub sort_strings : List Bytes → List Bytes
unfolding insert_string text_le
sort_strings [] = []
sort_strings (k ∷ ks) = insert_string k (sort_strings ks)

unfoldable pub count_byte : ℕ → Bytes → ℕ
count_byte c [] = 0
count_byte c (x ∷ xs) = if nat_beq x c then suc (count_byte c xs) else count_byte c xs

-- Before and behind the first such byte.
unfoldable pub cut_byte : ℕ → Bytes → Bytes × Bytes
cut_byte c [] = ([], [])
cut_byte c (x ∷ xs) =
    let (before, after) = cut_byte c xs in if nat_beq x c then ([], xs) else (x ∷ before, after)

pub count_byte-append :
    (c : ℕ) (xs ys : Bytes) → count_byte c (xs ++ ys) ≡ count_byte c xs + count_byte c ys
unfolding count_byte
count_byte-append c [] ys = omega arith
count_byte-append c (x ∷ xs) ys = ground (arith, count_byte-append c xs ys)

pub cut_byte-append :
    (c : ℕ) (xs ys : Bytes) → count_byte c xs ≡ 0 → cut_byte c (xs ++ c ∷ ys) ≡ (xs, ys)
unfolding count_byte cut_byte
cut_byte-append c [] ys h = ground arith
cut_byte-append c (x ∷ xs) ys h = ground (arith, cut_byte-append c xs ys)

pub cut_byte-back :
    (c : ℕ) (xs : Bytes) → 0 < count_byte c xs → xs ≡ (cut_byte c xs).0 ++ c ∷ (cut_byte c xs).1
unfolding count_byte cut_byte
cut_byte-back c [] h = absurd (omega (arith, h))
cut_byte-back c (x ∷ xs) h = elim (Bool-cases (nat_beq x c)) [
  | inl here ↦ ground (arith, here)
  | inr other ↦ ground (arith, other, cut_byte-back c xs)
]

pub cut_byte-none : (c : ℕ) (xs : Bytes) → count_byte c xs ≡ 0 → cut_byte c xs ≡ (xs, [])
unfolding count_byte cut_byte
cut_byte-none c [] h = refl
cut_byte-none c (x ∷ xs) h = ground (arith, cut_byte-none c xs)

-- A continuation byte, in a range that the first byte may narrow.
is_tail : ℕ → ℕ → ℕ → Bool
is_tail lo hi c = leb lo c && leb c hi

-- utf8.ValidString
unfoldable pub valid_utf8 : Bytes → Bool
unfolding is_tail
valid_utf8 [] = true
valid_utf8 (a ∷ []) = ltb a 0x80
valid_utf8 (a ∷ b ∷ []) =
    let one = valid_utf8 (b ∷ []) in ltb a 0x80 && one || is_tail 0xc2 0xdf a && is_tail 0x80 0xbf b
valid_utf8 (a ∷ b ∷ c ∷ []) =
    let one = valid_utf8 (b ∷ c ∷ []) in
    let two = valid_utf8 (c ∷ []) in
    ltb a 0x80 && one
    || is_tail 0xc2 0xdf a && is_tail 0x80 0xbf b && two
    || is_tail 0xe0 0xef a
      && is_tail (if nat_beq a 0xe0 then 0xa0 else 0x80) (if nat_beq a 0xed then 0x9f else 0xbf) b
      && is_tail 0x80 0xbf c
valid_utf8 (a ∷ b ∷ c ∷ d ∷ s) =
    let one = valid_utf8 (b ∷ c ∷ d ∷ s) in
    let two = valid_utf8 (c ∷ d ∷ s) in
    let three = valid_utf8 (d ∷ s) in
    let four = valid_utf8 s in
    ltb a 0x80 && one
    || is_tail 0xc2 0xdf a && is_tail 0x80 0xbf b && two
    || is_tail 0xe0 0xef a
      && is_tail (if nat_beq a 0xe0 then 0xa0 else 0x80) (if nat_beq a 0xed then 0x9f else 0xbf) b
      && is_tail 0x80 0xbf c
      && three
    || is_tail 0xf0 0xf4 a
      && is_tail (if nat_beq a 0xf0 then 0x90 else 0x80) (if nat_beq a 0xf4 then 0x8f else 0xbf) b
      && is_tail 0x80 0xbf c
      && is_tail 0x80 0xbf d
      && four

pub valid_utf8-ascii :
    (a : ℕ) (s : Bytes) → a < 0x80 → valid_utf8 s ≡ true → valid_utf8 (a ∷ s) ≡ true
unfolding valid_utf8
valid_utf8-ascii a [] h v = ground arith
valid_utf8-ascii a (b ∷ []) h v = ground arith
valid_utf8-ascii a (b ∷ c ∷ []) h v = ground arith
valid_utf8-ascii a (b ∷ c ∷ d ∷ s) h v = ground arith

-- strings.ContainsRune(s, 0)
abbrev pub has_nul : Bytes → Bool
has_nul s = contains 0 s

valid_text :
    valid_utf8 (0x68 ∷ 0xc3 ∷ 0xa9 ∷ 0xe2 ∷ 0x82 ∷ 0xac ∷ 0xf0 ∷ 0x9f ∷ 0x98 ∷ 0x80 ∷ []) ≡ true
unfolding valid_utf8
valid_text = refl

surrogate_text : valid_utf8 (0xed ∷ 0xa0 ∷ 0x80 ∷ []) ≡ false
unfolding valid_utf8
surrogate_text = refl

-- Ascending without repetition.
abbrev pub IsAscending : List Bytes → Type 0
IsAscending [] = Unit {0}
IsAscending (x ∷ xs) = All (λ y. (text_le x y ≡ true) × (x ≢ y)) xs × IsAscending xs

text_le_total : (x y : Bytes) → text_le x y ≡ false → text_le y x ≡ true
unfolding text_le
text_le_total [] ys h = cc
text_le_total (x ∷ xs) [] h = refl
text_le_total (x ∷ xs) (y ∷ ys) h = ground (arith, text_le_total xs ys)

text_le_antisym : (x y : Bytes) → text_le x y ≡ true → text_le y x ≡ true → x ≡ y
unfolding text_le
text_le_antisym [] [] h k = refl
text_le_antisym [] (y ∷ ys) h k = cc
text_le_antisym (x ∷ xs) [] h k = cc
text_le_antisym (x ∷ xs) (y ∷ ys) h k = ground (arith, text_le_antisym xs ys)

text_le_trans : (x y z : Bytes) → text_le x y ≡ true → text_le y z ≡ true → text_le x z ≡ true
unfolding text_le
text_le_trans [] y z h k = refl
text_le_trans (x ∷ xs) [] z h k = cc
text_le_trans (x ∷ xs) (y ∷ ys) [] h k = cc
text_le_trans (x ∷ xs) (y ∷ ys) (z ∷ zs) h k = ground (arith, text_le_trans xs ys zs)

pub insert_string_comm :
    (k j : Bytes) (xs : List Bytes)
    → insert_string k (insert_string j xs) ≡ insert_string j (insert_string k xs)
unfolding insert_string
insert_string_comm k j [] =
    ground (arith, text_le_total k j, text_le_total j k, text_le_antisym k j)
insert_string_comm k j (x ∷ xs) = ground (
  arith,
  text_le_total k j,
  text_le_total j k,
  text_le_antisym k j,
  text_le_trans k j x,
  text_le_trans j k x,
  insert_string_comm k j xs,
)

-- A list without repetition.
abbrev pub IsUnique : List Bytes → Type 0
IsUnique [] = Unit {0}
IsUnique (x ∷ xs) = (contains x xs ≡ false) × IsUnique xs

contains-insert_string :
    (v k : Bytes) (xs : List Bytes) → contains v (insert_string k xs) ≡ (k == v || contains v xs)
unfolding insert_string contains
contains-insert_string v k [] = refl
contains-insert_string v k (x ∷ xs) = ground (arith, contains-insert_string v k xs)

pub contains-sort_strings :
    (v : Bytes) (xs : List Bytes) → contains v (sort_strings xs) ≡ contains v xs
unfolding sort_strings contains
contains-sort_strings v [] = refl
contains-sort_strings v (x ∷ xs) =
    ground (arith, contains-insert_string v x (sort_strings xs), contains-sort_strings v xs)

contains-All {ℓ} :
    (P : Bytes → Type ℓ) (xs : List Bytes) → ((v : Bytes) → contains v xs ≡ true → P v) → All P xs
unfolding contains
contains-All P [] h = tt
contains-All P (x ∷ xs) h =
    (h x (ground (arith, bytes_beq_iff x x)), contains-All P xs (λ v m. h v (ground (arith, m))))

All-contains {ℓ} :
    (P : Bytes → Type ℓ) (xs : List Bytes) → All P xs → (v : Bytes) → contains v xs ≡ true → P v
unfolding contains
All-contains P [] h v m = absurd (ground (arith, m))
All-contains P (x ∷ xs) h v m = elim (Bool-cases (x == v)) [
  | inl same ↦ subst P ((bytes_beq_iff x v).0 same) h.0
  | inr other ↦ All-contains P xs h.1 v (ground (arith, m, other))
]

behind :
    (x k : Bytes) (xs : List Bytes) (v : Bytes)
    → text_le x k ≡ true
    → x ≢ k
    → All (λ y. (text_le x y ≡ true) × (x ≢ y)) xs
    → contains v (insert_string k xs) ≡ true
    → (text_le x v ≡ true) × (x ≢ v)
behind x k xs v le ne a m = elim (Bool-cases (k == v)) [
  | inl same ↦ subst (λ u. (text_le x u ≡ true) × (x ≢ u)) ((bytes_beq_iff k v).0 same) (le, ne)
  | inr other ↦ All-contains _ xs a v (ground (arith, m, other, contains-insert_string v k xs))
]

insert_string-IsAscending :
    (k : Bytes) (xs : List Bytes)
    → contains k xs ≡ false
    → IsAscending xs
    → IsAscending (insert_string k xs)
unfolding insert_string contains
insert_string-IsAscending k [] new a = (tt, tt)
insert_string-IsAscending k (x ∷ xs) new a =
    let differs : x ≢ k = λ e. ground (arith, bytes_beq_iff x k, e, new) in
    if-keeps IsAscending (text_le k x) _ _
      (λ first. (
        (
          (first, λ e. differs (sym e)),
          contains-All _ xs (λ v m.
              let (le, ne) = All-contains _ xs a.0 v m in
              (
                text_le_trans k x v first le,
                λ e. ground (arith, subst (λ u. contains u xs ≡ true) (sym e) m, new),
              )),
        ),
        a,
      ))
      (λ later. (
        contains-All _ (insert_string k xs)
            (λ v m. behind x k xs v (text_le_total k x later) differs a.0 m),
        insert_string-IsAscending k xs (ground (arith, new)) a.1,
      ))

-- Sorting texts that do not repeat.
pub sort_strings-IsAscending : (xs : List Bytes) → IsUnique xs → IsAscending (sort_strings xs)
unfolding sort_strings
sort_strings-IsAscending [] u = tt
sort_strings-IsAscending (x ∷ xs) u =
    insert_string-IsAscending x (sort_strings xs) (contains-sort_strings x xs ∙ u.0)
      (sort_strings-IsAscending xs u.1)

not_behind :
    (x : Bytes) (xs : List Bytes)
    → All (λ y. (text_le x y ≡ true) × (x ≢ y)) xs
    → contains x xs ≡ false
unfolding contains
not_behind x [] a = refl
not_behind x (y ∷ ys) a = ground (arith, not_behind x ys a.1, a.0.1, bytes_beq_iff y x)

heads_eq :
    (x y : Bytes) (xs ys : List Bytes)
    → IsAscending (x ∷ xs)
    → IsAscending (y ∷ ys)
    → contains y (x ∷ xs) ≡ true
    → contains x (y ∷ ys) ≡ true
    → x ≡ y
unfolding contains
heads_eq x y xs ys a b m n = elim (Bool-cases (x == y)) [
  | inl same ↦ (bytes_beq_iff x y).0 same
  | inr other ↦
      text_le_antisym x y (All-contains _ xs a.0 y (ground (arith, m, other))).0
        (All-contains _ ys b.0 x (ground (arith, n, other, bytes_beq_iff x y, bytes_beq_iff y x))).0
]

-- An ascending list is determined by its members.
pub IsAscending-ext :
    (xs ys : List Bytes)
    → IsAscending xs
    → IsAscending ys
    → ((v : Bytes) → contains v xs ≡ contains v ys)
    → xs ≡ ys
unfolding contains
IsAscending-ext [] [] a b h = refl
IsAscending-ext [] (y ∷ ys) a b h = absurd (ground (arith, h y, bytes_beq_iff y y))
IsAscending-ext (x ∷ xs) [] a b h = absurd (ground (arith, h x, bytes_beq_iff x x))
IsAscending-ext (x ∷ xs) (y ∷ ys) a b h =
    let e =
      heads_eq x y xs ys a b (ground (arith, h y, bytes_beq_iff y y))
        (ground (arith, h x, bytes_beq_iff x x)) in
    ap₂ (λ k l. k ∷ l) e
      (IsAscending-ext xs ys a.1 b.1 (λ v. ground (
        arith,
        h v,
        e,
        not_behind x xs a.0,
        not_behind y ys b.0,
        bytes_beq_iff x v,
        bytes_beq_iff y v,
      )))
