-- ===== src/Tests/Spool.antt =====
-- The log at concrete inputs.
use gline.Base.{
  ℕ, ◌≡◌, ◌≤◌, ◌<◌, if◌then◌else◌, has, lookup, is_blank, bytes_eq, refl, inl, true, false, none,
  Bytes, codes, [], ◌∷◌, ◌++◌, pos, length, take, ok, arith, ltb, trim_space, bytes_beq,
}
use gline.Spool.Model.{Commit, Checkpoint, Wal, empty_index}
use gline.Spool.Codec.{validate_checkpoint}
use gline.Spool.File.{written, write_failed}
use gline.Spool.Frame.{frame}
use gline.Spool.Frame.RoundTrip.{length-frame}
use gline.Spool.Index.{record_checkpoint, apply_commit, set_checkpoint}
use gline.Spool.Index.Changes.{commits, moves}
use gline.Spool.Index.Validity.{IsValid-empty}
use gline.Spool.Index.Sameness.{Same, Same-refl}
use gline.Spool.Recover.{LogRecord, Recovered, recover, frames, replay}
use gline.Spool.Recover.Scanning.{Fits, IsTail, scan_cut, scan-nil}
use gline.Spool.Recover.Replays.{recover-frames}
use gline.Spool.Compact.{prepare_failed}
use gline.Spool.Operations.{
  Config, OpenIo, open_wal, opened, positive_or, commit, ack, quarantine, transition,
}
use gline.Spool.Durability.{IsDurable}
use gline.Spool.Durability.Records.{Writes, move-Writes}
use gline.Spool.Durability.Appends.{crash_atomic}
use gline.Spool.Durability.Histories.{Lives, stays, calls, reopen_durable}
use gline.Spool.Durability.Histories
use gline.Spool.Durability.Calls.{
  commit-IsDurable, ack-IsDurable, transition-IsDurable, quarantine-IsDurable,
}
use gline.Spool.Accounting.{IsCounted, IsCounted-empty, change-IsCounted, commit_within_budget}
use gline.Tests.Codec.{plain, plain-RoundTrips}

abbrev checkpoint_3 : Checkpoint
checkpoint_3 = record {
  source_key = codes "s";
  file_identity = codes "f";
  offset_bytes = pos 3;
  observed_at = 5;
}

abbrev batch_1 : Commit
batch_1 = record { batch_id = codes "b1"; payload = codes "b1"; checkpoint = checkpoint_3 }

abbrev log_limit : ℕ
log_limit = 1000

abbrev empty_log : Wal
empty_log = record {
  file = [];
  max_bytes = 5000;
  max_record_bytes = log_limit;
  closed = false;
  index = empty_index;
  signalled = false;
}

empty_log-IsDurable : IsDurable plain log_limit empty_log
unfolding frames replay
empty_log-IsDurable = record {
  limit_kept = refl;
  limit_short = omega arith;
  records = [];
  replayed = empty_index;
  on_disk = refl;
  fit = tt;
  replays = refl;
  same = Same-refl empty_index;
  valid = IsValid-empty;
  valid_replayed = IsValid-empty;
}

abbrev checkpoint_body : Bytes
checkpoint_body = 1 ∷ 0 ∷ 3 ∷ 5 ∷ (codes "s" ++ codes "f")

abbrev batch_2 : Commit
batch_2 = record { batch_id = codes "b2"; payload = codes "b2"; checkpoint = checkpoint_3 }

-- The log after its first batch.
abbrev one_log : Wal
one_log = (commit plain empty_log batch_1 false written).0

one_log-IsDurable : IsDurable plain log_limit one_log
one_log-IsDurable =
    commit-IsDurable plain log_limit plain-RoundTrips empty_log batch_1 false written
      empty_log-IsDurable refl tt

checkpoint_body-Fits : Fits log_limit checkpoint_body
checkpoint_body-Fits = (omega arith, omega arith)

abbrev checkpoint_record : LogRecord
checkpoint_record = record { kind = record_checkpoint; body = checkpoint_body }

checkpoint_record-Writes : Writes plain (moves checkpoint_3) checkpoint_record
unfolding validate_checkpoint is_blank bytes_beq
checkpoint_record-Writes =
    move-Writes plain plain-RoundTrips checkpoint_3 checkpoint_body refl refl refl

long_enough : (n : ℕ) → n ≤ 21 → n < length (frame record_checkpoint checkpoint_body)
long_enough n h = omega (arith, length-frame record_checkpoint checkpoint_body)

torn_checkpoint : IsTail log_limit (take 20 (frame record_checkpoint checkpoint_body))
torn_checkpoint =
    scan_cut log_limit record_checkpoint 20 checkpoint_body checkpoint_body-Fits
      (long_enough 20 (omega arith))

checkpoint_replays :
    replay plain (checkpoint_record ∷ []) empty_index ≡ ok (set_checkpoint checkpoint_3 empty_index)
unfolding replay
checkpoint_replays = rw (checkpoint_record-Writes.applied empty_index tt) refl

nothing_seen : (id : Bytes) → has id empty_index.seen ≡ false
unfolding has lookup
nothing_seen id = refl

commit-IsDurable_example : IsDurable plain log_limit (commit plain one_log batch_2 false written).0
commit-IsDurable_example =
    commit-IsDurable plain log_limit plain-RoundTrips one_log batch_2 false written
      one_log-IsDurable refl tt

ack-IsDurable_example :
    IsDurable plain log_limit
      (ack plain one_log
        (codes "b1")
        false
        (record { append = written; stat_ok = true; compact = prepare_failed })).0
ack-IsDurable_example =
    ack-IsDurable plain log_limit plain-RoundTrips one_log (codes "b1") false
      (record { append = written; stat_ok = true; compact = prepare_failed }) one_log-IsDurable refl
      (λ b e. ground arith) tt tt

transition-IsDurable_example :
    IsDurable plain log_limit (transition plain one_log none checkpoint_3 false written).0
transition-IsDurable_example =
    transition-IsDurable plain log_limit plain-RoundTrips one_log none checkpoint_3 false written
      one_log-IsDurable refl (λ b e. ground arith) tt

bad_trimmed : trim_space (codes "bad") ≡ codes "bad"
unfolding trim_space
bad_trimmed = refl

quarantine-IsDurable_example :
    IsDurable plain log_limit
      (quarantine plain one_log
        (codes "b1")
        (pos 422)
        (codes "bad")
        9
        false
        (write_failed 3 true)).0
quarantine-IsDurable_example =
    quarantine-IsDurable plain log_limit plain-RoundTrips one_log (codes "b1") (pos 422)
      (codes "bad") 9 false (write_failed 3 true) one_log-IsDurable refl refl
      (λ b e. ground (arith, bad_trimmed)) refl

abbrev config : Config
config = record { path = codes "log"; max_bytes = pos 5000; max_record_bytes = pos log_limit }

abbrev works : OpenIo
works = record { prepared = true; truncates = true; seeks = true }

empty_opens : open_wal plain config works [] ≡ ok empty_log
unfolding open_wal opened positive_or is_blank recover gline.Spool.Recover.scan
empty_opens = refl

-- Two batches are committed, and the first is acknowledged.
abbrev two_log : Wal
two_log = (commit plain one_log batch_2 false written).0

abbrev one_acked : Wal
one_acked =
    (ack plain two_log (codes "b1") false
      (record { append = written; stat_ok = true; compact = prepare_failed })).0

acked : Lives plain config plain-RoundTrips empty_log one_acked
unfolding positive_or
acked =
    calls
      (calls (calls stays (Histories.commits batch_1 false written) (refl, tt))
        (Histories.commits batch_2 false written) (refl, tt))
      (Histories.acks (codes "b1") false
        (record { append = written; stat_ok = true; compact = prepare_failed }))
      (refl, (λ b e. ground arith), tt, tt)

reopen_durable_example :
    (again : Wal) × (open_wal plain config works
        (one_acked.file ++ take 20 (frame record_checkpoint checkpoint_body))
      ≡ ok again)
    × Same one_acked.index again.index
    × (again.file ≡ one_acked.file)
unfolding is_blank positive_or
reopen_durable_example =
    reopen_durable plain config plain-RoundTrips works works empty_log one_acked
      (take 20 (frame record_checkpoint checkpoint_body)) refl empty_opens acked torn_checkpoint
      refl refl refl

crash_atomic_example :
    (got : Recovered) × (recover plain log_limit
        (one_log.file ++ take 20 (frame record_checkpoint checkpoint_body))
        empty_index
      ≡ ok got)
    × Same
        (if ltb 20 (length (frame record_checkpoint checkpoint_body))
          then one_log.index
          else set_checkpoint checkpoint_3 one_log.index)
        got.index
crash_atomic_example =
    crash_atomic plain log_limit one_log (moves checkpoint_3) checkpoint_record 20 one_log-IsDurable
      checkpoint_record-Writes checkpoint_body-Fits tt

recover-frames_example :
    recover plain log_limit (frames (checkpoint_record ∷ []) ++ []) empty_index
    ≡ ok (record {
      index = set_checkpoint checkpoint_3 empty_index;
      end = length (frames (checkpoint_record ∷ []));
    })
recover-frames_example =
    recover-frames plain log_limit (checkpoint_record ∷ []) [] empty_index
      (set_checkpoint checkpoint_3 empty_index) (checkpoint_body-Fits, tt)
      (inl (scan-nil log_limit)) checkpoint_replays

change-IsCounted_example : IsCounted (apply_commit batch_1 40 empty_index)
change-IsCounted_example =
    change-IsCounted (commits batch_1 40) empty_index (nothing_seen batch_1.batch_id)
      IsCounted-empty

commit_within_budget_example :
    (commit plain empty_log batch_1 false written).0.used_bytes ≤ empty_log.max_bytes
commit_within_budget_example =
    commit_within_budget plain empty_log batch_1 false written (omega arith)
