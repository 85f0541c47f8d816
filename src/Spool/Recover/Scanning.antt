-- ===== src/Spool/Recover/Scanning.antt =====
-- How the scan reads the front of the file: a whole frame is found, a cut one is torn.
use gline.Base.{
  ℕ, suc, ◌+◌, ◌-◌, ◌^◌, ◌≡◌, ◌≤◌, ◌<◌, refl, sym, ap, ◌∙◌, ◌⊎◌, inl, inr, Bytes, [], ◌∷◌, ◌++◌,
  length, take, drop, length-append, length-take, take-append-length, drop-append-length, take_all,
  take-append, ok, arith, nat_beq_refl, lt→ltb, ge→ltb,
}
use native.Mathlib.Decide.{dec_lt}
use gline.Spool.Frame.{Header, parse_header, header, frame, record_checksum}
use gline.Spool.Frame.RoundTrip.{
  length-header, length-frame, frame_lem, frame-append, parse_header-header,
}
use gline.Spool.Recover.{finished, torn, found, scan, scan_body}

-- A body that frameRecord and the configured maximum both accept.
abbrev pub Fits : ℕ → Bytes → Type 0
Fits limit body = (length body ≤ limit) × (length body < 2 ^ 32)

-- What recovery cuts off, or nothing at all.
abbrev pub IsTail : ℕ → Bytes → Type 0
IsTail limit rest = (scan limit rest ≡ finished) ⊎ (scan limit rest ≡ torn)

scan-append :
    (limit : ℕ) (front rest : Bytes) (h : Header)
    → length front ≡ 16
    → parse_header front ≡ ok h
    → scan limit (front ++ rest) ≡ scan_body limit h (front ++ rest)
unfolding scan
scan-append limit [] rest h l p = absurd (omega (arith, l))
scan-append limit (b ∷ bs) rest h l p =
    let cut : take 16 (b ∷ (bs ++ rest)) ≡ b ∷ bs =
      ap (λ n. take n ((b ∷ bs) ++ rest)) (sym l) ∙ take-append-length (b ∷ bs) rest in
    rw (ge→ltb (suc (length (bs ++ rest))) 16 (omega (arith, length-append bs rest, l)))
      (rw cut (rw p))

drop-header : (k : ℕ) (b rest : Bytes) → drop 16 (header k b ++ rest) ≡ rest
drop-header k b rest =
    ap (λ n. drop n (header k b ++ rest)) (sym (length-header k b))
    ∙ drop-append-length (header k b) rest

-- A whole record whose body is within the limit and shorter than 2^32 bytes is found with its kind
-- and body, whatever follows it.
pub scan-frame :
    (limit k : ℕ) (b rest : Bytes) → Fits limit b → scan limit (frame k b ++ rest) ≡ found k b
unfolding scan_body
scan-frame limit k b rest (small, short) = rw (frame-append k b rest) (
    rw
      (scan-append limit (header k b) (b ++ rest) _ (length-header k b)
        (parse_header-header k b short))
      (rw (drop-header k b (b ++ rest), take-append-length b rest)
        (rw (
          ge→ltb limit (length b) small,
          ge→ltb (length (header k b ++ (b ++ rest))) (16 + length b) (
              omega (
                arith,
                length-append (header k b) (b ++ rest),
                length-header k b,
                length-append b rest,
              )),
          nat_beq_refl (record_checksum k b),
        ))))

pub drop-frame : (k : ℕ) (b rest : Bytes) → drop (16 + length b) (frame k b ++ rest) ≡ rest
drop-frame k b rest =
    ap (λ n. drop n (frame k b ++ rest)) (sym (length-frame k b))
    ∙ drop-append-length (frame k b) rest

pub scan-nil : (limit : ℕ) → scan limit [] ≡ finished
unfolding scan
scan-nil limit = refl

scan_short : (limit : ℕ) (bs : Bytes) → length bs < 16 → IsTail limit bs
unfolding scan
scan_short limit [] h = inl refl
scan_short limit (b ∷ bs) h = inr (rw (lt→ltb (suc (length bs)) 16 h))

scan_cut_body :
    (limit k n : ℕ) (b : Bytes)
    → Fits limit b
    → n < length b
    → scan limit (header k b ++ take n b) ≡ torn
unfolding scan_body
scan_cut_body limit k n b (small, short) h =
    rw
      (scan-append limit (header k b) (take n b) _ (length-header k b)
        (parse_header-header k b short))
      (rw (
        ge→ltb limit (length b) small,
        lt→ltb (length (header k b ++ take n b)) (16 + length b) (
            omega
              (arith, length-append (header k b) (take n b), length-header k b, length-take n b)),
      ))

take-frame : (n k : ℕ) (b : Bytes) → 16 ≤ n → take n (frame k b) ≡ header k b ++ take (n - 16) b
take-frame n k b h =
    ap (take n) (frame_lem k b)
    ∙ take-append n (header k b) b
    ∙ ap (λ l. l ++ take (n - length (header k b)) b)
        (take_all n (header k b) (omega (arith, length-header k b)))
    ∙ ap (λ m. header k b ++ take (n - m) b) (length-header k b)

-- A record within the limit of which only a part reached the file is taken for a torn tail or for
-- the end of the file, wherever it was cut.
pub scan_cut :
    (limit k n : ℕ) (b : Bytes)
    → Fits limit b
    → n < length (frame k b)
    → IsTail limit (take n (frame k b))
scan_cut limit k n b fits h = elim (dec_lt n 16) [
  | yes few ↦ scan_short limit (take n (frame k b)) (omega (arith, length-take n (frame k b)))
  | no many ↦ inr (
      rw (take-frame n k b (omega arith))
        (scan_cut_body limit k (n - 16) b fits (omega (arith, length-frame k b))))
]
