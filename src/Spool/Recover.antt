-- ===== src/Spool/Recover.antt =====
-- `recover` of internal/agent/spool/wal.go: the scan of the file when it is opened. Reads of the
-- file are taken to succeed; a failure of the truncation of a torn tail is `Open`'s.
pub mod Scanning
pub mod Replays
use gline.Base.{
  ℕ, zero, suc, ◌+◌, Bytes, List, [], ◌∷◌, ◌++◌, length, take, drop, nat_beq, ltb, not, Result, ok,
  err, ◌>>=◌, if◌then◌else◌,
}
use gline.Spool.Model.{
  Index, RecordError, bad_header, length_exceeds_maximum, checksum_mismatch, SpoolError, corrupt,
  out_of_fuel,
}
use gline.Spool.Codec.{Json}
use gline.Spool.Frame.{Header, parse_header, record_checksum, record_header_bytes, frame}
use gline.Spool.Index.{apply_recovered}

-- What stands at the front of the unread part of the file.
pub data Scan : Type 0 where
  finished torn : Scan
  refused : RecordError → Scan
  found : ℕ → Bytes → Scan

scan_body : ℕ → Header → Bytes → Scan
scan_body limit h rest =
    if ltb limit h.length
    then refused length_exceeds_maximum
    else if ltb (length rest) (record_header_bytes + h.length)
    then torn
    else (let body = take h.length (drop record_header_bytes rest) in
        if not (nat_beq (record_checksum h.kind body) h.checksum)
        then refused checksum_mismatch
        else found h.kind body)

unfoldable pub scan : ℕ → Bytes → Scan
unfolding scan_body
scan limit [] = finished
scan limit (b ∷ bs) =
    if ltb (length (b ∷ bs)) record_header_bytes
    then torn
    else elim (parse_header (take record_header_bytes (b ∷ bs))) [
      | err e ↦ refused (bad_header e)
      | ok h ↦ scan_body limit h (b ∷ bs)
    ]

-- What recovery leaves: the maps, and the length to which the file is cut.
pub record Recovered : Type 0 where
  pub index : Index
  pub end : ℕ

-- A record of the log.
pub record LogRecord : Type 0 where
  pub kind : ℕ
  pub body : Bytes

module _ (j : Json) (limit : ℕ) where
  -- The loop of `recover`; fuel above the length of the unread part is enough.
  unfoldable pub recover_loop : ℕ → Bytes → ℕ → Index → Result SpoolError Recovered
  recover_loop zero rest offset idx = err out_of_fuel
  recover_loop (suc fuel) rest offset idx = elim (scan limit rest) [
    | finished ↦ ok (record { index = idx; end = offset })
    | torn ↦ ok (record { index = idx; end = offset })
    | refused e ↦ err (corrupt offset e)
    | found kind body ↦ elim (apply_recovered j kind body (record_header_bytes + length body) idx) [
      | err e ↦ err (corrupt offset e)
      | ok idx' ↦
          recover_loop fuel (drop (record_header_bytes + length body) rest)
            (offset + (record_header_bytes + length body)) idx'
    ]
  ]

  unfoldable pub recover : Bytes → Index → Result SpoolError Recovered
  unfolding recover_loop
  recover file idx = recover_loop (suc (length file)) file 0 idx

-- The file that a list of records makes, and what applying them one after another gives.
unfoldable pub frames : List LogRecord → Bytes
frames [] = []
frames (r ∷ rs) = frame r.kind r.body ++ frames rs

unfoldable pub replay : Json → List LogRecord → Index → Result RecordError Index
replay j [] idx = ok idx
replay j (r ∷ rs) idx = do
  idx' ← apply_recovered j r.kind r.body (record_header_bytes + length r.body) idx
  replay j rs idx'
