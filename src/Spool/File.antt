-- ===== src/Spool/File.antt =====
-- appendRecord, rollbackAppend and writeAll of internal/agent/spool/wal.go. The file system's part in
-- an append is an argument: where it fails, how many bytes had reached the file, and whether the
-- rollback's truncation worked.
use gline.Base.{ℕ, Bool, true, Bytes, ◌++◌, take, Result, ok, err, if◌then◌else◌}
use gline.Spool.Model.{SpoolError, Index, Wal, seek_error, append_error, sync_error}
use gline.Spool.Frame.{frame_record}

pub data AppendIo : Type 0 where
  written : AppendIo
  seek_failed : AppendIo
  write_failed : ℕ → Bool → AppendIo
  sync_failed : Bool → AppendIo

-- rollbackAppend: the file is cut to its old length, unless that fails too.
rollback_append : Bool → Bytes → Bytes → SpoolError → Bytes × Result SpoolError (Unit {0})
rollback_append truncated file left cause = (if truncated then file else left, err cause)

write_record : Bytes → Bytes → AppendIo → Bytes × Result SpoolError (Unit {0})
unfolding rollback_append
write_record file rec written = (file ++ rec, ok tt)
write_record file rec seek_failed = (file, err seek_error)
write_record file rec (write_failed n truncated) =
    rollback_append truncated file (file ++ take n rec) append_error
write_record file rec (sync_failed truncated) =
    rollback_append truncated file (file ++ rec) sync_error

-- appendRecord
unfoldable pub append_record : Bytes → ℕ → Bytes → AppendIo → Bytes × Result SpoolError (Unit {0})
unfolding write_record frame_record
append_record file kind body io = elim (frame_record kind body) [
  | err e ↦ (file, err e)
  | ok rec ↦ write_record file rec io
]

settle :
    Wal
    → (Index → Index)
    → Bytes × Result SpoolError (Unit {0})
    → Wal × Result SpoolError (Unit {0})
settle w change (file, ok u) =
    (record w { file = file; index = change w.index; signalled = true }, ok tt)
settle w change (file, err e) = (record w { file = file }, err e)

-- What every operation does once its checks have passed: append the record, and only if that
-- succeeded change the maps and signal.
unfoldable pub append_then :
    Wal → ℕ → Bytes → AppendIo → (Index → Index) → Wal × Result SpoolError (Unit {0})
unfolding settle
append_then w kind body io change = settle w change (append_record w.file kind body io)
