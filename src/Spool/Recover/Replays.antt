-- ===== src/Spool/Recover/Replays.antt =====
-- The replay of the records of a file, and what `recover` makes of the file.
use gline.Base.{
  ℕ, zero, suc, ◌+◌, ◌≡◌, ◌<◌, refl, sym, ap, ◌∙◌, Bytes, List, [], ◌∷◌, ◌++◌, length, All,
  length-append, append_assoc, append-nil, ok, ◌>>=◌, >>=-eq-ok, >>=-ok, >>=_assoc, fun_ext, arith,
  inl, inr,
}
use gline.Spool.Model.{Index}
use gline.Spool.Codec.{Json}
use gline.Spool.Frame.{frame}
use gline.Spool.Frame.RoundTrip.{length-frame}
use gline.Spool.Index.{apply_recovered}
use gline.Spool.Recover.{LogRecord, recover_loop, recover, frames, replay}
use gline.Spool.Recover.Scanning.{Fits, IsTail, scan-frame, drop-frame}

abbrev pub AllFit : ℕ → List LogRecord → Type 0
AllFit limit = All (λ r. Fits limit r.body)

-- Cutting records off the front of the file, one frame each.
pub frames-append : (rs ss : List LogRecord) → frames (rs ++ ss) ≡ frames rs ++ frames ss
unfolding frames
frames-append [] ss = refl
frames-append (r ∷ rs) ss =
    ap (λ l. frame r.kind r.body ++ l) (frames-append rs ss)
    ∙ sym (append_assoc (frame r.kind r.body) (frames rs) (frames ss))

pub frames-snoc :
    (rs : List LogRecord) (r : LogRecord) → frames (rs ++ r ∷ []) ≡ frames rs ++ frame r.kind r.body
unfolding frames
frames-snoc rs r =
    frames-append rs (r ∷ []) ∙ ap (λ l. frames rs ++ l) (append-nil (frame r.kind r.body))

module _ (j : Json) where
  pub replay-snoc :
      (rs : List LogRecord) (r : LogRecord) (idx : Index)
      → replay j (rs ++ r ∷ []) idx
        ≡ (replay j rs idx >>= apply_recovered j r.kind r.body (16 + length r.body))
  unfolding replay
  replay-snoc [] r idx = >>=-ok _
  replay-snoc (x ∷ rs) r idx =
      ap (λ f. apply_recovered j x.kind x.body (16 + length x.body) idx >>= f)
        (fun_ext (replay-snoc rs r))
      ∙ sym (>>=_assoc (apply_recovered j x.kind x.body (16 + length x.body) idx) (replay j rs) _)

  module _ (limit : ℕ) where
    loop_tail :
        (fuel offset : ℕ) (rest : Bytes) (idx : Index)
        → IsTail limit rest
        → recover_loop j limit (suc fuel) rest offset idx
          ≡ ok (record { index = idx; end = offset })
    unfolding recover_loop
    loop_tail fuel offset rest idx (inl e) = rw (e, recover_loop)
    loop_tail fuel offset rest idx (inr e) = rw (e, recover_loop)

    loop_frame :
        (fuel offset : ℕ) (r : LogRecord) (rest : Bytes) (idx idx' : Index)
        → Fits limit r.body
        → apply_recovered j r.kind r.body (16 + length r.body) idx ≡ ok idx'
        → recover_loop j limit (suc fuel) (frame r.kind r.body ++ rest) offset idx
          ≡ recover_loop j limit fuel rest (offset + (16 + length r.body)) idx'
    unfolding recover_loop
    loop_frame fuel offset r rest idx idx' fits applied =
        rw (scan-frame limit r.kind r.body rest fits, recover_loop)
          (rw applied (rw (drop-frame r.kind r.body rest)))

    loop_frames :
        (rs : List LogRecord) (fuel offset : ℕ) (tail : Bytes) (idx idx' : Index)
        → AllFit limit rs
        → IsTail limit tail
        → length (frames rs) < fuel
        → replay j rs idx ≡ ok idx'
        → recover_loop j limit fuel (frames rs ++ tail) offset idx
          ≡ ok (record { index = idx'; end = offset + length (frames rs) })
    unfolding frames replay
    loop_frames rs zero offset tail idx idx' fit cut enough done = absurd (omega arith)
    loop_frames [] (suc fuel) offset tail idx idx' fit cut enough done =
        loop_tail fuel offset tail idx cut ∙ ground arith
    loop_frames (r ∷ rs) (suc fuel) offset tail idx idx' fit cut enough done =
        let (mid, applied, more) =
          >>=-eq-ok (apply_recovered j r.kind r.body (16 + length r.body) idx) (replay j rs) done in
        ap (λ l. recover_loop j limit (suc fuel) l offset idx)
          (append_assoc (frame r.kind r.body) (frames rs) tail)
        ∙ loop_frame fuel offset r (frames rs ++ tail) idx mid fit.0 applied
        ∙ loop_frames rs fuel (offset + (16 + length r.body)) tail mid idx' fit.1 cut
            (omega
              (arith, length-append (frame r.kind r.body) (frames rs), length-frame r.kind r.body))
            more
        ∙ ap (λ n. ok (record { index = idx'; end = n }))
            (omega
              (arith, length-append (frame r.kind r.body) (frames rs), length-frame r.kind r.body))

    -- Opening a file that consists of whole records within the limit, whose replay succeeds, and
    -- of a torn tail or none: recovery gives what the replay gives, cuts exactly the tail, and
    -- does not run out of its fuel.
    pub recover-frames :
        (rs : List LogRecord) (tail : Bytes) (idx idx' : Index)
        → AllFit limit rs
        → IsTail limit tail
        → replay j rs idx ≡ ok idx'
        → recover j limit (frames rs ++ tail) idx
          ≡ ok (record { index = idx'; end = length (frames rs) })
    unfolding recover
    recover-frames rs tail idx idx' fit cut done =
        loop_frames rs (suc (length (frames rs ++ tail))) 0 tail idx idx' fit cut
          (omega (arith, length-append (frames rs) tail)) done
        ∙ ap (λ n. ok (record { index = idx'; end = n })) (omega arith)
