-- ===== src/Spool/Model.antt =====
-- The data of internal/agent/spool/wal.go, and the checkpoint of internal/agent/source.
use gline.Base.{ℕ, ℤ, Bool, Bytes, Map, List, []}

-- An instant is its distance in nanoseconds from Go's zero time, so 0 is the zero time.
abbrev pub Time : Type 0
Time = ℕ

pub record Checkpoint : Type 0 where
  pub source_key : Bytes
  pub file_identity : Bytes
  pub offset_bytes : ℤ
  pub observed_at : Time

-- `commitRecord` has the same fields under JSON names.
pub record Commit : Type 0 where
  pub batch_id : Bytes
  pub payload : Bytes
  pub checkpoint : Checkpoint

pub record Quarantined : Type 0 where
  pub commit : Commit
  pub http_code : ℤ
  pub error_code : Bytes
  pub quarantined_at : Time

pub record QuarantineRecord : Type 0 where
  pub batch_id : Bytes
  pub http_code : ℤ
  pub error_code : Bytes
  pub quarantined_at : Time

pub record Stats : Type 0 where
  pub used_bytes : ℕ
  pub pending_batches : ℕ
  pub quarantined_batches : ℕ
  pub oldest_pending_at : Time

pub data CommitError : Type 0 where
  empty_batch_id invalid_payload no_envelope batch_id_mismatch : CommitError
  checkpoint_names checkpoint_offset checkpoint_time not_encodable : CommitError

pub data HeaderError : Type 0 where
  invalid_magic unsupported_version reserved_not_zero : HeaderError

-- Why a record of the file is refused when the file is opened.
pub data RecordError : Type 0 where
  bad_header : HeaderError → RecordError
  length_exceeds_maximum checksum_mismatch undecodable unsupported_kind : RecordError
  bad_commit : CommitError → RecordError
  duplicate_commit unknown_ack invalid_quarantine_record : RecordError

pub data SpoolError : Type 0 where
  canceled closed full : SpoolError
  corrupt : ℕ → RecordError → SpoolError
  invalid_commit : CommitError → SpoolError
  record_too_large already_present invalid_quarantine unknown_batch transition_conflict : SpoolError
  frame_too_long seek_error append_error sync_error truncate_error : SpoolError
  compact_error empty_path bad_record_limit open_error out_of_fuel : SpoolError

-- What `WAL` keeps in memory about the records of the file: every field but the file, the limits,
-- `closed` and the channel.
pub record Index : Type 0 where
  pub used_bytes : ℕ
  pub pending : Map Bytes Commit
  pub pending_size : Map Bytes ℕ
  pub order : List Bytes
  pub quarantined : Map Bytes Quarantined
  pub quarantine_order : List Bytes
  pub seen : Map Bytes (Unit {0})
  pub checkpoints : Map Bytes Checkpoint

abbrev pub empty_index : Index
empty_index = record {
  used_bytes = 0;
  pending = [];
  pending_size = [];
  order = [];
  quarantined = [];
  quarantine_order = [];
  seen = [];
  checkpoints = [];
}

-- `signalled` is the buffer of one of the channel `changed`; `file` is the content of the file.
pub record Wal : Type 0 where
  pub file : Bytes
  pub max_bytes : ℕ
  pub max_record_bytes : ℕ
  pub closed : Bool
  pub index : Index
  pub open index use *
  pub signalled : Bool
