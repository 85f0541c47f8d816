-- ===== src/Spool/Index.antt =====
-- The changes that internal/agent/spool/wal.go makes to its maps, and `applyRecovered`, which makes
-- the same changes for a record that the file holds.
pub mod Changes
pub mod Validity
pub mod Present
pub mod Sameness
use gline.Base.{
  ℕ, ◌+◌, ◌-◌, Bool, Option, none, some, Bytes, Map, List, [], ◌∷◌, ◌++◌, nat_beq, ◌||◌, ◌&&◌, not,
  bytes_eq, lookup, delete, put, has, Result, ok, err, ◌>>=◌, ◌>>◌, reject_if, or_fail, map_err,
  if◌then◌else◌, below,
}
use gline.Spool.Model.{
  Index, Commit, Quarantined, Checkpoint, RecordError, undecodable, unsupported_kind, bad_commit,
  duplicate_commit, unknown_ack, invalid_quarantine_record,
}
use gline.Spool.Codec.{Json, decode_commit, validate_checkpoint}

abbrev pub record_commit : ℕ
record_commit = 1

abbrev pub record_ack : ℕ
record_ack = 2

abbrev pub record_checkpoint : ℕ
record_checkpoint = 3

abbrev pub record_quarantine : ℕ
record_quarantine = 4

-- The map's zero value stands for a missing key.
abbrev pub size_of : Bytes → Index → ℕ
size_of id idx = elim (lookup id idx.pending_size) [ none ↦ 0 | some n ↦ n ]

-- The entries of a map in the order of a list of keys; keys without an entry are passed over.
unfoldable pub present {ℓ} : {V : Type ℓ} → Map Bytes V → List Bytes → List V
present m [] = []
present m (id ∷ ids) = elim (lookup id m) [ none ↦ present m ids | some v ↦ v ∷ present m ids ]

-- applyCommit
unfoldable pub apply_commit : Commit → ℕ → Index → Index
apply_commit c record_bytes idx = record idx {
  pending = put c.batch_id c idx.pending;
  pending_size = put c.batch_id record_bytes idx.pending_size;
  order = idx.order ++ c.batch_id ∷ [];
  seen = put c.batch_id tt idx.seen;
  checkpoints = put c.checkpoint.source_key c.checkpoint idx.checkpoints;
  used_bytes = idx.used_bytes + record_bytes;
}

-- applyQuarantine: the bytes stay counted.
unfoldable pub apply_quarantine : Quarantined → Index → Index
apply_quarantine q idx = record idx {
  pending = delete q.commit.batch_id idx.pending;
  quarantined = put q.commit.batch_id q idx.quarantined;
  quarantine_order = idx.quarantine_order ++ q.commit.batch_id ∷ [];
}

-- removeActive. (`used_bytes` holds every size that is kept: `Spool.Accounting`.)
unfoldable pub remove_active : Bytes → Index → Index
remove_active id idx = record idx {
  pending = delete id idx.pending;
  quarantined = delete id idx.quarantined;
  used_bytes = idx.used_bytes - size_of id idx;
  pending_size = delete id idx.pending_size;
}

-- w.checkpoints[next.SourceKey] = next
unfoldable pub set_checkpoint : Checkpoint → Index → Index
set_checkpoint c idx = record idx { checkpoints = put c.source_key c idx.checkpoints }

abbrev pub is_active : Bytes → Index → Bool
is_active id idx = has id idx.pending || has id idx.quarantined

module _ (j : Json) where
  recover_commit : Bytes → ℕ → Index → Result RecordError Index
  recover_commit body record_bytes idx = do
    c ← decode_commit j body
    reject_if (has c.batch_id idx.seen) duplicate_commit
    ok (apply_commit c record_bytes idx)

  recover_ack : Bytes → Index → Result RecordError Index
  recover_ack body idx = do
    id ← or_fail (j.decode_ack body) undecodable
    reject_if (not (is_active id idx)) unknown_ack
    ok (remove_active id idx)

  recover_checkpoint : Bytes → Index → Result RecordError Index
  recover_checkpoint body idx = do
    c ← or_fail (j.decode_checkpoint body) undecodable
    map_err bad_commit (validate_checkpoint c)
    ok (set_checkpoint c idx)

  recover_quarantine : Bytes → Index → Result RecordError Index
  recover_quarantine body idx = do
    r ← or_fail (j.decode_quarantine body) undecodable
    c ← or_fail (lookup r.batch_id idx.pending) invalid_quarantine_record
    reject_if (below r.http_code 400 || nat_beq r.quarantined_at 0) invalid_quarantine_record
    ok (
        apply_quarantine
          (record {
            commit = c;
            http_code = r.http_code;
            error_code = r.error_code;
            quarantined_at = r.quarantined_at;
          })
          idx)

  -- applyRecovered
  unfoldable pub apply_recovered : ℕ → Bytes → ℕ → Index → Result RecordError Index
  unfolding recover_commit recover_ack recover_checkpoint recover_quarantine
  apply_recovered kind body record_bytes idx =
      if nat_beq kind record_commit
      then recover_commit body record_bytes idx
      else if nat_beq kind record_ack
      then recover_ack body idx
      else if nat_beq kind record_checkpoint
      then recover_checkpoint body idx
      else if nat_beq kind record_quarantine
      then recover_quarantine body idx
      else err unsupported_kind
