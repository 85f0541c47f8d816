-- ===== src/Tests/Cursors.antt =====
-- A codec of cursors in the place of HMAC, base64, JSON and RFC 3339, which keeps the laws that they
-- document: a payload is the lengths and the bytes of its fields.
use gline.Base.{
  ◌*◌, ◌/◌, ◌%◌, ◌<◌, valid_utf8, valid_utf8-ascii, ltb, length-append, some_inj, sym, ℕ, ◌+◌, ◌-◌,
  ◌≡◌, refl, ap, ◌∙◌, ℤ, pos, negsuc, true, Option, none, some, Bytes, [], ◌∷◌, ◌++◌, map, length,
  leb, take, drop, take-append-length, drop-append-length, replicate, count_byte, if◌then◌else◌,
  arith,
}
use gline.Domain.Models.{Time}
use gline.Query.Cursor.{CursorPayload, CursorLib, CursorLaws}

abbrev sign : ℤ → ℕ
sign (pos n) = 0
sign (negsuc n) = 1

abbrev size : ℤ → ℕ
size (pos n) = n
size (negsuc n) = n

abbrev number : ℕ → ℕ → ℤ
number s n = if leb s 0 then pos n else negsuc n

number-back : (z : ℤ) → number (sign z) (size z) ≡ z
number-back (pos n) = refl
number-back (negsuc n) = refl

abbrev sized : Bytes → Bytes → Bytes
sized b rest = length b ∷ (b ++ rest)

abbrev written : CursorPayload → Bytes
written p =
    sign p.version
    ∷ size p.version
    ∷ sign p.id
    ∷ size p.id
    ∷ sized p.project_id (sized p.filter_hash (sized p.observed_at []))

abbrev front : Bytes → Bytes
front [] = []
front (n ∷ b) = take n b

abbrev behind : Bytes → Bytes
behind [] = []
behind (n ∷ b) = drop n b

abbrev read : Bytes → Option CursorPayload
read (v ∷ w ∷ s ∷ n ∷ b) = some (record {
  version = number v w;
  project_id = front b;
  filter_hash = front (behind b);
  observed_at = front (behind (behind b));
  id = number s n;
})
read _ = none

read-written : (p : CursorPayload) → read (written p) ≡ some p
read-written p =
    let last = sized p.observed_at [] in
    let middle = sized p.filter_hash last in
    ground (
      arith,
      number-back p.version,
      number-back p.id,
      take-append-length p.project_id middle,
      drop-append-length p.project_id middle,
      take-append-length p.filter_hash last,
      drop-append-length p.filter_hash last,
      take-append-length p.observed_at [],
    )

abbrev shifted : Bytes → Bytes
shifted b = map (λ c. c + 0x2f) b

abbrev unshifted : Bytes → Bytes
unshifted b = map (λ c. c - 0x2f) b

unshifted-shifted : (b : Bytes) → unshifted (shifted b) ≡ b
unshifted-shifted [] = refl
unshifted-shifted (c ∷ b) = ground (arith, unshifted-shifted b)

length-shifted : (b : Bytes) → length (shifted b) ≡ length b
length-shifted [] = refl
length-shifted (c ∷ b) = omega (arith, length-shifted b)

no_dots : (b : Bytes) → count_byte 0x2e (shifted b) ≡ 0
unfolding count_byte
no_dots [] = refl
no_dots (c ∷ b) = ground (arith, no_dots b)

-- Two letters of sixteen for a byte.
abbrev letters : Bytes → Bytes
letters [] = []
letters (c ∷ cs) = (0x61 + (c / 16) % 16) ∷ (0x61 + c % 16) ∷ letters cs

letters-ascii : (n : ℕ) → 0x61 + n % 16 < 0x80
letters-ascii n = omega arith

length-letters : (b : Bytes) → length (letters b) ≡ 2 * length b
length-letters [] = refl
length-letters (c ∷ b) = omega (arith, length-letters b)

letters-text : (b : Bytes) → valid_utf8 (letters b) ≡ true
unfolding valid_utf8
letters-text [] = refl
letters-text (c ∷ b) =
    valid_utf8-ascii (0x61 + (c / 16) % 16) ((0x61 + c % 16) ∷ letters b) (letters-ascii (c / 16))
      (valid_utf8-ascii (0x61 + c % 16) (letters b) (letters-ascii c) (letters-text b))

length-written :
    (p : CursorPayload)
    → length (written p) ≡ 7 + (length p.project_id + length p.filter_hash + length p.observed_at)
length-written p = omega (
  arith,
  length-append p.project_id (sized p.filter_hash (sized p.observed_at [])),
  length-append p.filter_hash (sized p.observed_at []),
  length-append p.observed_at [],
)

abbrev time_of : Bytes → Option Time
time_of (a ∷ b ∷ []) = some (a * 0x80 + b)
time_of _ = none

abbrev pub toy : CursorLib
toy = record {
  mac = λ secret b. replicate 32 (length secret);
  encode64 = shifted;
  decode64 = λ b. some (unshifted b);
  hex = letters;
  marshal = λ p. some (written p);
  decode = read;
  format_time = λ t. (t / 0x80) ∷ (t % 0x80) ∷ [];
  parse_time = time_of;
  is_formattable = λ t. ltb t 0x4000;
}

time_text : (t : ℕ) → ltb t 0x4000 ≡ true → valid_utf8 ((t / 0x80) ∷ (t % 0x80) ∷ []) ≡ true
unfolding valid_utf8
time_text t f =
    let small : t < 0x4000 = ground arith in
    valid_utf8-ascii (t / 0x80) ((t % 0x80) ∷ []) (omega arith)
      (valid_utf8-ascii (t % 0x80) [] (omega arith) refl)

pub toy_laws : CursorLaws toy
toy_laws = record {
  mac_length = λ secret b. refl;
  back64 = λ b. ap some (unshifted-shifted b);
  length64 = λ b. omega (arith, length-shifted b);
  no_dot = no_dots;
  hex_length = length-letters;
  hex_text = letters-text;
  json_back = λ p b v project filter at id h. ap read (some_inj (sym h)) ∙ read-written p;
  json_length = λ p b v id h.
      let same : length b ≡ length (written p) = ap length (some_inj (sym h)) in
      omega (arith, same, length-written p);
  time_back = λ t f. ap some (omega arith);
  time_text = time_text;
  time_length = λ t f. omega arith;
}
