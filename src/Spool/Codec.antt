-- ===== src/Spool/Codec.antt =====
-- How encoding/json is used by internal/agent/spool/wal.go, as an interface: the four record bodies,
-- and the checks that `encodeCommit`, `decodeCommit` and `validateCheckpoint` make.
use gline.Base.{
  ◌≡◌, Bool, true, not, Option, some, Bytes, Result, ok, ◌>>=◌, ◌>>◌, reject_if, or_fail, map_err,
  ◌==◌, bytes_eq, ◌||◌, nat_beq, is_blank, below,
}
use gline.Spool.Model.{
  Checkpoint, Commit, QuarantineRecord, CommitError, RecordError, empty_batch_id, invalid_payload,
  no_envelope, batch_id_mismatch, checkpoint_names, checkpoint_offset, checkpoint_time,
  not_encodable, undecodable, bad_commit,
}

-- json.Marshal of each record, `decodeStrict` into each record, json.Valid, and the `batch_id` that
-- json.Unmarshal reads in a payload.
pub record Json : Type 0 where
  pub marshal_commit : Commit → Option Bytes
  pub marshal_ack : Bytes → Option Bytes
  pub marshal_checkpoint : Checkpoint → Option Bytes
  pub marshal_quarantine : QuarantineRecord → Option Bytes
  pub decode_commit_record : Bytes → Option Commit
  pub decode_ack : Bytes → Option Bytes
  pub decode_checkpoint : Bytes → Option Checkpoint
  pub decode_quarantine : Bytes → Option QuarantineRecord
  pub is_valid : Bytes → Bool
  pub batch_id_of : Bytes → Option Bytes
  -- Text that JSON keeps: valid UTF-8.
  pub is_text : Bytes → Bool
  -- A commit whose text is such, whose payload is as json.Marshal writes it, and whose time is UTC.
  pub is_plain : Commit → Bool
  pub is_plain_checkpoint : Checkpoint → Bool

-- What Go documents of Marshal and Decode: what was written is read back.
pub record RoundTrips (j : Json) : Type 0 where
  pub commit_back :
      (c : Commit) (b : Bytes)
      → j.is_plain c ≡ true
      → j.marshal_commit c ≡ some b
      → j.decode_commit_record b ≡ some c
  pub ack_back :
      (id b : Bytes) → j.is_text id ≡ true → j.marshal_ack id ≡ some b → j.decode_ack b ≡ some id
  pub checkpoint_back :
      (c : Checkpoint) (b : Bytes)
      → j.is_plain_checkpoint c ≡ true
      → j.marshal_checkpoint c ≡ some b
      → j.decode_checkpoint b ≡ some c
  pub quarantine_back :
      (q : QuarantineRecord) (b : Bytes)
      → j.is_text q.batch_id ≡ true
      → j.is_text q.error_code ≡ true
      → j.marshal_quarantine q ≡ some b
      → j.decode_quarantine b ≡ some q

-- validateCheckpoint
unfoldable pub validate_checkpoint : Checkpoint → Result CommitError (Unit {0})
validate_checkpoint c = do
  reject_if (is_blank c.source_key || is_blank c.file_identity) checkpoint_names
  reject_if (below c.offset_bytes 0) checkpoint_offset
  reject_if (nat_beq c.observed_at 0) checkpoint_time

module _ (j : Json) where
  -- encodeCommit
  unfoldable pub encode_commit : Commit → Result CommitError Bytes
  encode_commit c = do
    reject_if (is_blank c.batch_id) empty_batch_id
    reject_if (not (j.is_valid c.payload)) invalid_payload
    id ← or_fail (j.batch_id_of c.payload) no_envelope
    reject_if (not (id == c.batch_id)) batch_id_mismatch
    validate_checkpoint c.checkpoint
    or_fail (j.marshal_commit c) not_encodable

  -- decodeCommit
  unfoldable pub decode_commit : Bytes → Result RecordError Commit
  decode_commit body = do
    c ← or_fail (j.decode_commit_record body) undecodable
    encoded ← map_err bad_commit (encode_commit c)
    ok c
