-- ===== src/Spool/Compact.antt =====
-- compactLocked of internal/agent/spool/wal.go: the records of the new file, and the swap of files.
use gline.Base.{
  ℕ, ◌^◌, ◌-◌, Bool, not, ◌&&◌, Option, none, some, Bytes, Map, List, [], ◌∷◌, ◌++◌, map,
  sort_strings, length, lookup, bytes_eq, ltb, Result, ok, err, if◌then◌else◌,
}
use gline.Spool.Model.{Checkpoint, Commit, Quarantined, SpoolError, Index, Wal, compact_error}
use gline.Spool.Codec.{Json, encode_commit}
use gline.Spool.Index.{record_commit, record_checkpoint, record_quarantine}
use gline.Spool.Recover.{LogRecord, frames}

-- writeRecord: a body that frameRecord refuses is an error.
writable : ℕ → Option Bytes → Option LogRecord
writable kind none = none
writable kind (some body) =
    if ltb (2 ^ 32 - 1) (length body) then none else some (record { kind = kind; body = body })

encoded : Json → Commit → Option Bytes
encoded j c = elim (encode_commit j c) [ ok body ↦ some body | err e ↦ none ]

-- One failing record fails the whole compaction.
both : Option (List LogRecord) → Option (List LogRecord) → Option (List LogRecord)
both none ys = none
both (some xs) none = none
both (some xs) (some ys) = some (xs ++ ys)

single : Option LogRecord → Option (List LogRecord)
single none = none
single (some r) = some (r ∷ [])

module _ (j : Json) where
  pending_records : Map Bytes Commit → List Bytes → Option (List LogRecord)
  unfolding writable encoded both single
  pending_records m [] = some []
  pending_records m (id ∷ ids) = elim (lookup id m) [
    | none ↦ pending_records m ids
    | some c ↦ both (single (writable record_commit (encoded j c))) (pending_records m ids)
  ]

  quarantine_records : Map Bytes Quarantined → List Bytes → Option (List LogRecord)
  unfolding writable encoded both single
  quarantine_records m [] = some []
  quarantine_records m (id ∷ ids) = elim (lookup id m) [
    | none ↦ quarantine_records m ids
    | some q ↦ both (single (writable record_commit (encoded j q.commit))) (
        both
          (single (
            writable record_quarantine (
              j.marshal_quarantine (record {
                batch_id = id;
                http_code = q.http_code;
                error_code = q.error_code;
                quarantined_at = q.quarantined_at;
              }))))
          (quarantine_records m ids))
  ]

  checkpoint_records : Map Bytes Checkpoint → List Bytes → Option (List LogRecord)
  unfolding writable both single
  checkpoint_records m [] = some []
  checkpoint_records m (key ∷ keys) = elim (lookup key m) [
    | none ↦ checkpoint_records m keys
    | some c ↦
        both (single (writable record_checkpoint (j.marshal_checkpoint c)))
          (checkpoint_records m keys)
  ]

  -- The records of the new file: the pending batches in their order, then the quarantined ones, then
  -- the checkpoints by key.
  unfoldable pub compact_records : Index → Option (List LogRecord)
  unfolding pending_records quarantine_records checkpoint_records sort_strings both
  compact_records idx = both (pending_records idx.pending idx.order) (
      both (quarantine_records idx.quarantined idx.quarantine_order)
        (checkpoint_records idx.checkpoints (sort_strings (map (λ p. p.0) idx.checkpoints))))

-- Where the file system fails: before the old file is touched, while it is moved aside or replaced
-- (it is then put back), or after the swap. The flag tells whether a file could be opened again.
pub data CompactIo : Type 0 where
  prepare_failed : CompactIo
  swap_failed : Bool → CompactIo
  swapped : Bool → Bool → CompactIo

unfoldable pub swap_files : Wal → Bytes → CompactIo → Wal × Result SpoolError (Unit {0})
swap_files w file prepare_failed = (w, err compact_error)
swap_files w file (swap_failed reopened) = (record w { closed = not reopened }, err compact_error)
swap_files w file (swapped reopened seeked) = (
  record w { file = file; closed = not reopened },
  if reopened && seeked then ok tt else err compact_error,
)

-- compactLocked
unfoldable pub compact_locked : Json → Wal → CompactIo → Wal × Result SpoolError (Unit {0})
unfolding swap_files compact_records
compact_locked j w io = elim (compact_records j w.index) [
  | none ↦ (w, err compact_error)
  | some rs ↦ swap_files w (frames rs) io
]
