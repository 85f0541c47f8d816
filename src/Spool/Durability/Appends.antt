-- ===== src/Spool/Durability/Appends.antt =====
-- Appending a record and making its change keeps the log durable, and a crash in the middle of the
-- append loses nothing that was acknowledged.
use gline.Base.{
  ℕ, ◌+◌, ◌^◌, ◌≡◌, ◌<◌, sym, ap, ◌∙◌, inl, Bytes, [], ◌∷◌, ◌++◌, length, take, take_all,
  append-nil, All-append, ok, ◌>>=◌, arith, ge→ltb, lt→ltb, ltb, if◌then◌else◌,
}
use native.Mathlib.Decide.{dec_lt}
use gline.Spool.Model.{Index, Wal, empty_index}
use gline.Spool.Codec.{Json}
use gline.Spool.Frame.{frame}
use gline.Spool.File.{
  AppendIo, written, seek_failed, write_failed, sync_failed, append_record, append_then,
}
use gline.Spool.Index.{apply_recovered}
use gline.Spool.Index.Changes.{Change, Allowed, change}
use gline.Spool.Index.Validity.{change-IsValid}
use gline.Spool.Index.Sameness.{Same, Allowed-same, change-Same}
use gline.Spool.Recover.{LogRecord, Recovered, frames, recover}
use gline.Spool.Recover.Scanning.{Fits, IsTail, scan-nil, scan_cut}
use gline.Spool.Recover.Replays.{frames-snoc, replay-snoc, recover-frames}
use gline.Spool.Durability.{IsDurable, IsClean}
use gline.Spool.Durability.Records.{Writes}

abbrev IsFailure : AppendIo → Type 0
IsFailure written = ⊥
IsFailure _ = Unit {0}

append_then-written :
    (w : Wal) (k : ℕ) (b : Bytes) (f : Index → Index)
    → length b < 2 ^ 32
    → ((append_then w k b written f).0.file ≡ w.file ++ frame k b)
      × ((append_then w k b written f).0.index ≡ f w.index)
      × ((append_then w k b written f).0.max_record_bytes ≡ w.max_record_bytes)
unfolding append_then append_record
append_then-written w k b f h = (ground arith, ground arith, ground arith)

append_then-failed :
    (w : Wal) (k : ℕ) (b : Bytes) (io : AppendIo) (f : Index → Index)
    → length b < 2 ^ 32
    → IsClean io
    → IsFailure io
    → ((append_then w k b io f).0.file ≡ w.file)
      × ((append_then w k b io f).0.index ≡ w.index)
      × ((append_then w k b io f).0.max_record_bytes ≡ w.max_record_bytes)
unfolding append_then append_record
append_then-failed w k b written f h clean bad = absurd bad
append_then-failed w k b seek_failed f h clean bad = ground arith
append_then-failed w k b (write_failed n truncated) f h clean bad = ground arith
append_then-failed w k b (sync_failed truncated) f h clean bad = ground arith

module _ (j : Json) (limit : ℕ) where
  -- The log after a record that reached the file whole.
  extend :
      (w : Wal) (d : IsDurable j limit w) (ch : Change) (r : LogRecord) (w' : Wal)
      → Writes j ch r
      → Fits limit r.body
      → Allowed ch w.index
      → w'.file ≡ w.file ++ frame r.kind r.body
      → w'.index ≡ change ch w.index
      → w'.max_record_bytes ≡ w.max_record_bytes
      → IsDurable j limit w'
  extend w d ch r w' writes fits allowed file index same_limit =
      let allowed' = Allowed-same w.index d.replayed d.valid d.valid_replayed d.same ch allowed in
      record {
        limit_kept = same_limit ∙ d.limit_kept;
        limit_short = d.limit_short;
        records = d.records ++ r ∷ [];
        replayed = change ch d.replayed;
        on_disk =
            file ∙ ap (λ f. f ++ frame r.kind r.body) d.on_disk ∙ sym (frames-snoc d.records r);
        fit = All-append _ d.records (r ∷ []) d.fit (fits, tt);
        replays =
            replay-snoc j d.records r empty_index
            ∙ ap (λ m. m >>= apply_recovered j r.kind r.body (16 + length r.body)) d.replays
            ∙ writes.applied d.replayed allowed';
        same = rw index (change-Same w.index d.replayed d.valid d.valid_replayed d.same ch allowed);
        valid = rw index (change-IsValid w.index d.valid ch allowed);
        valid_replayed = change-IsValid d.replayed d.valid_replayed ch allowed';
      }

  -- A log whose file and maps are those of a durable one.
  pub IsDurable-same :
      (w w' : Wal)
      → IsDurable j limit w
      → w'.file ≡ w.file
      → w'.index ≡ w.index
      → w'.max_record_bytes ≡ w.max_record_bytes
      → IsDurable j limit w'
  IsDurable-same w w' d file index same_limit = record {
    limit_kept = same_limit ∙ d.limit_kept;
    limit_short = d.limit_short;
    records = d.records;
    replayed = d.replayed;
    on_disk = file ∙ d.on_disk;
    fit = d.fit;
    replays = d.replays;
    same = rw index d.same;
    valid = rw index d.valid;
    valid_replayed = d.valid_replayed;
  }

  -- Every clean append keeps the log durable, whether or not it succeeds.
  pub append_then-IsDurable :
      (w : Wal) (ch : Change) (r : LogRecord) (io : AppendIo)
      → IsDurable j limit w
      → Writes j ch r
      → Fits limit r.body
      → Allowed ch w.index
      → IsClean io
      → IsDurable j limit (append_then w r.kind r.body io (change ch)).0
  append_then-IsDurable w ch r written d writes fits allowed clean =
      let (file, index, same_limit) = append_then-written w r.kind r.body (change ch) fits.1 in
      extend w d ch r _ writes fits allowed file index same_limit
  append_then-IsDurable w ch r seek_failed d writes fits allowed clean =
      let (file, index, same_limit) =
        append_then-failed w r.kind r.body seek_failed (change ch) fits.1 clean tt in
      IsDurable-same w _ d file index same_limit
  append_then-IsDurable w ch r (write_failed n truncated) d writes fits allowed clean =
      let (file, index, same_limit) =
        append_then-failed w r.kind r.body (write_failed n truncated) (change ch) fits.1 clean tt in
      IsDurable-same w _ d file index same_limit
  append_then-IsDurable w ch r (sync_failed truncated) d writes fits allowed clean =
      let (file, index, same_limit) =
        append_then-failed w r.kind r.body (sync_failed truncated) (change ch) fits.1 clean tt in
      IsDurable-same w _ d file index same_limit

  -- Take a log that is durable: its file consists of records whose replay shows the same batches,
  -- checkpoints and byte count as the maps in memory. Whenever the process stops, also with a torn
  -- tail behind the last whole record, recovery of the file succeeds, with maps that show the
  -- same, and ends exactly behind the last whole record.
  pub recovered_durable :
      (w : Wal) (tail : Bytes)
      → IsDurable j limit w
      → IsTail limit tail
      → (r : Recovered) × (recover j limit (w.file ++ tail) empty_index ≡ ok r)
        × Same w.index r.index
        × (r.end ≡ length w.file)
  recovered_durable w tail d cut = (
    record { index = d.replayed; end = length (frames d.records) },
    ap (λ f. recover j limit (f ++ tail) empty_index) d.on_disk
        ∙ recover-frames j limit d.records tail empty_index d.replayed d.fit cut d.replays,
    d.same,
    ap length (sym d.on_disk),
  )

  -- A crash while a durable log appends a record that writes an allowed change and fits the limit:
  -- after any number of the record's bytes, recovery of the file succeeds, and shows the log
  -- before the call or, once all bytes are there, the log after it.
  pub crash_atomic :
      (w : Wal) (ch : Change) (r : LogRecord) (n : ℕ)
      → IsDurable j limit w
      → Writes j ch r
      → Fits limit r.body
      → Allowed ch w.index
      → (got : Recovered) × (recover j limit (w.file ++ take n (frame r.kind r.body)) empty_index
          ≡ ok got)
        × Same
            (if ltb n (length (frame r.kind r.body)) then w.index else change ch w.index)
            got.index
  crash_atomic w ch r n d writes fits allowed = elim (dec_lt n (length (frame r.kind r.body))) [
    | yes part ↦
        (let (got, opens, same, end) =
            recovered_durable w (take n (frame r.kind r.body)) d
              (scan_cut limit r.kind n r.body fits part) in
          (got, opens, rw (lt→ltb n (length (frame r.kind r.body)) part) same))
    | no whole ↦
        (let (file, index, same_limit) = append_then-written w r.kind r.body (change ch) fits.1 in
          let w' : Wal = (append_then w r.kind r.body written (change ch)).0 in
          let (got, opens, same, end) =
            recovered_durable w' [] (append_then-IsDurable w ch r written d writes fits allowed tt)
              (inl (scan-nil limit)) in
          (
            got,
            ap (λ f. recover j limit f empty_index)
                  (ap (λ b. w.file ++ b) (take_all n (frame r.kind r.body) (omega arith))
                    ∙ sym file
                    ∙ sym (append-nil w'.file))
                ∙ opens,
            rw (ge→ltb n (length (frame r.kind r.body)) (omega arith)) (rw index at same),
          ))
  ]
