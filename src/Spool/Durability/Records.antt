-- ===== src/Spool/Durability/Records.antt =====
-- The record that each method writes replays as the change that it makes of the maps.
use gline.Base.{
  ℕ, ◌+◌, ◌≡◌, true, false, ◌||◌, Option, none, some, Bytes, length, bytes_eq, nat_beq, below, ok,
  or_fail, arith,
}
use gline.Spool.Model.{Index, Commit, Quarantined, QuarantineRecord, Checkpoint}
use gline.Spool.Codec.{Json, RoundTrips, encode_commit, decode_commit, validate_checkpoint}
use gline.Spool.Index.{
  record_commit, record_ack, record_checkpoint, record_quarantine, apply_recovered,
}
use gline.Spool.Index.Changes.{Change, commits, acks, quarantines, moves, Allowed, change}
use gline.Spool.Recover.{LogRecord}

pub record Writes (j : Json) (ch : Change) (r : LogRecord) : Type 0 where
  pub applied :
      (idx : Index)
      → Allowed ch idx
      → apply_recovered j r.kind r.body (16 + length r.body) idx ≡ ok (change ch idx)

abbrev pub log_record : ℕ → Bytes → LogRecord
log_record kind body = record { kind = kind; body = body }

-- What quarantine writes of a batch that it sets aside.
abbrev pub quarantine_record : Quarantined → QuarantineRecord
quarantine_record q = record {
  batch_id = q.commit.batch_id;
  http_code = q.http_code;
  error_code = q.error_code;
  quarantined_at = q.quarantined_at;
}

or_fail-ok {ℓ κ} :
    {E : Type ℓ} {A : Type κ} (o : Option A) (e : E) {a : A} → or_fail o e ≡ ok a → o ≡ some a
or_fail-ok none e h = cc
or_fail-ok (some a) e h = ground arith

module _ (j : Json) (back : RoundTrips j) where
  -- An encoded commit was marshalled from it.
  encode_commit-marshal :
      (c : Commit) (b : Bytes) → encode_commit j c ≡ ok b → j.marshal_commit c ≡ some b
  unfolding encode_commit validate_checkpoint
  encode_commit-marshal c b h = ground arith

  pub commit-Writes :
      (c : Commit) (b : Bytes)
      → j.is_plain c ≡ true
      → encode_commit j c ≡ ok b
      → Writes j (commits c (16 + length b)) (log_record record_commit b)
  unfolding apply_recovered decode_commit
  commit-Writes c b plain h = record {
    applied =
        λ idx new. rw (back.commit_back c b plain (encode_commit-marshal c b h)) (rw h (rw new));
  }

  pub ack-Writes :
      (id b : Bytes)
      → j.is_text id ≡ true
      → j.marshal_ack id ≡ some b
      → Writes j (acks id) (log_record record_ack b)
  unfolding apply_recovered
  ack-Writes id b text h = record {
    applied = λ idx active. rw (back.ack_back id b text h) (rw active);
  }

  pub move-Writes :
      (c : Checkpoint) (b : Bytes)
      → j.is_plain_checkpoint c ≡ true
      → validate_checkpoint c ≡ ok tt
      → j.marshal_checkpoint c ≡ some b
      → Writes j (moves c) (log_record record_checkpoint b)
  unfolding apply_recovered
  move-Writes c b plain valid h = record {
    applied = λ idx u. rw (back.checkpoint_back c b plain h) (rw valid);
  }

  pub quarantine-Writes :
      (q : Quarantined) (b : Bytes)
      → j.is_text q.commit.batch_id ≡ true
      → j.is_text q.error_code ≡ true
      → below q.http_code 400 || nat_beq q.quarantined_at 0 ≡ false
      → j.marshal_quarantine (quarantine_record q) ≡ some b
      → Writes j (quarantines q) (log_record record_quarantine b)
  unfolding apply_recovered
  quarantine-Writes q b id_text code_text valid h = record {
    applied = λ idx waiting.
        rw (back.quarantine_back (quarantine_record q) b id_text code_text h)
          (rw waiting (rw valid));
  }
