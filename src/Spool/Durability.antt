-- ===== src/Spool/Durability.antt =====
-- The log on disk and the maps in memory: the file is a sequence of records whose replay shows the
-- same batches and checkpoints as the running log.
pub mod Records
pub mod Appends
pub mod Calls
pub mod Histories
use gline.Base.{ℕ, ◌^◌, ◌≡◌, ◌≤◌, ◌<◌, Bool, true, Bytes, List, [], ◌∷◌, ok}
use gline.Spool.Model.{Index, Wal, empty_index}
use gline.Spool.Codec.{Json}
use gline.Spool.File.{AppendIo, written, seek_failed, write_failed, sync_failed}
use gline.Spool.Index.Validity.{IsValid}
use gline.Spool.Index.Sameness.{Same}
use gline.Spool.Recover.{LogRecord, frames, replay}
use gline.Spool.Recover.Replays.{AllFit}

-- The refinement relation between a running log and its file.
pub record IsDurable (j : Json) (limit : ℕ) (w : Wal) : Type 0 where
  pub limit_kept : w.max_record_bytes ≡ limit
  pub limit_short : limit < 2 ^ 32
  pub records : List LogRecord
  pub replayed : Index
  pub on_disk : w.file ≡ frames records
  pub fit : AllFit limit records
  pub replays : replay j records empty_index ≡ ok replayed
  pub same : Same w.index replayed
  pub valid : IsValid w.index
  pub valid_replayed : IsValid replayed

-- An append that either reaches the file whole, or is cut off it again.
abbrev pub IsClean : AppendIo → Type 0
IsClean written = Unit {0}
IsClean seek_failed = Unit {0}
IsClean (write_failed n truncated) = truncated ≡ true
IsClean (sync_failed truncated) = truncated ≡ true
