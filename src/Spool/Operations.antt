-- ===== src/Spool/Operations.antt =====
-- The methods of `WAL` in internal/agent/spool/wal.go. Each holds the mutex throughout, so a call is one
-- step from state to state. `canceled` tells whether the call's context is done.
use gline.Base.{
  ℕ, ℤ, ◌+◌, ◌-◌, ◌^◌, ◌*◌, max, Bool, true, false, not, ◌&&◌, ◌||◌, Option, none, some, Bytes,
  List, [], ◌∷◌, Map, length, take, lookup, has, bytes_eq, int_eq, ◌==◌, ltb, leb, nat_beq,
  is_blank, trim_space, below, above, to_nat, Result, ok, err, ◌>>=◌, ◌>>◌, reject_if,
  if◌then◌else◌,
}
use gline.Spool.Model.{
  Time, Checkpoint, Commit, Quarantined, QuarantineRecord, Stats, SpoolError, empty_index, Wal,
  canceled, closed, full, invalid_commit, record_too_large, already_present, invalid_quarantine,
  unknown_batch, transition_conflict, truncate_error, seek_error, empty_path, bad_record_limit,
  open_error, not_encodable,
}
use gline.Spool.Codec.{Json, encode_commit, validate_checkpoint}
use gline.Spool.Frame.{record_header_bytes}
use gline.Spool.Index.{
  record_commit, record_ack, record_checkpoint, record_quarantine, apply_commit, apply_quarantine,
  remove_active, set_checkpoint, is_active, present,
}
use gline.Spool.Recover.{Recovered, recover}
use gline.Spool.File.{AppendIo, append_then}
use gline.Spool.Compact.{CompactIo, compact_locked}

abbrev pub Outcome : Type 0 → Type 0
Outcome A = Wal × Result SpoolError A

commit_encoded : Wal → Commit → Bytes → AppendIo → Outcome (Unit {0})
commit_encoded w c body io =
    if ltb w.max_record_bytes (length body)
    then (w, err record_too_large)
    else if w.closed
    then (w, err closed)
    else if has c.batch_id w.seen
    then (w, err already_present)
    else if ltb w.max_bytes (w.used_bytes + (record_header_bytes + length body))
    then (w, err full)
    else append_then w record_commit body io (apply_commit c (record_header_bytes + length body))

-- Commit. The source compares with `maxBytes - usedBytes`, which may be negative there.
unfoldable pub commit : Json → Wal → Commit → Bool → AppendIo → Outcome (Unit {0})
unfolding commit_encoded
commit j w c stop io = if stop then (w, err canceled) else elim (encode_commit j c) [
  | err e ↦ (w, err (invalid_commit e))
  | ok body ↦ commit_encoded w c body io
]

-- What the file system does in an Ack: the append, `Stat`, and the compaction if there is one.
pub record AckIo : Type 0 where
  pub append : AppendIo
  pub stat_ok : Bool
  pub compact : CompactIo

-- A failed compaction is reported only if it left the log closed.
unfoldable pub after_compaction : Outcome (Unit {0}) → Outcome (Unit {0})
after_compaction (w, ok u) = (w, ok tt)
after_compaction (w, err e) = (w, if w.closed then err e else ok tt)

unfoldable pub compact_if_large : Json → AckIo → Outcome (Unit {0}) → Outcome (Unit {0})
unfolding after_compaction
compact_if_large j io (w, err e) = (w, err e)
compact_if_large j io (w, ok u) =
    if io.stat_ok && ltb (max w.max_bytes (64 * 2 ^ 10)) (length w.file)
    then after_compaction (compact_locked j w io.compact)
    else (w, ok tt)

ack_encoded : Json → Wal → Bytes → Bytes → AckIo → Outcome (Unit {0})
unfolding compact_if_large
ack_encoded j w id body io =
    if w.closed
    then (w, err closed)
    else if not (is_active id w.index)
    then (w, ok tt)
    else compact_if_large j io (append_then w record_ack body io.append (remove_active id))

-- Ack
unfoldable pub ack : Json → Wal → Bytes → Bool → AckIo → Outcome (Unit {0})
unfolding ack_encoded
ack j w id stop io = if stop then (w, err canceled) else elim (j.marshal_ack id) [
  | none ↦ (w, err (invalid_commit not_encodable))
  | some body ↦ ack_encoded j w id body io
]

unfoldable pub return_value : Quarantined → Outcome (Unit {0}) → Outcome Quarantined
return_value q (w, ok u) = (w, ok q)
return_value q (w, err e) = (w, err e)

unfoldable pub with_commit : QuarantineRecord → Commit → Quarantined
with_commit r c = record {
  commit = c;
  http_code = r.http_code;
  error_code = r.error_code;
  quarantined_at = r.quarantined_at;
}

unfoldable pub quarantine_encoded : Wal → QuarantineRecord → Bytes → AppendIo → Outcome Quarantined
unfolding return_value with_commit
quarantine_encoded w r body io =
    if w.closed then (w, err closed) else elim (lookup r.batch_id w.pending) [
      | some c ↦
          return_value (with_commit r c)
            (append_then w record_quarantine body io (apply_quarantine (with_commit r c)))
      | none ↦ elim (lookup r.batch_id w.quarantined) [
        | some q ↦ (w, ok q)
        | none ↦ (w, err unknown_batch)
      ]
    ]

-- Quarantine
unfoldable pub quarantine :
    Json → Wal → Bytes → ℤ → Bytes → Time → Bool → AppendIo → Outcome Quarantined
unfolding quarantine_encoded
quarantine j w id code error_code at stop io =
    let r : QuarantineRecord = record {
      batch_id = id;
      http_code = code;
      error_code = trim_space error_code;
      quarantined_at = at;
    } in
    if stop
    then (w, err canceled)
    else if is_blank id || below code 400 || nat_beq at 0
    then (w, err invalid_quarantine)
    else elim (j.marshal_quarantine r) [
      | none ↦ (w, err (invalid_commit not_encodable))
      | some body ↦ quarantine_encoded w r body io
    ]

-- sameCheckpointPosition
unfoldable pub same_checkpoint_position : Checkpoint → Checkpoint → Bool
same_checkpoint_position a b =
    a.source_key == b.source_key
    && a.file_identity == b.file_identity
    && a.offset_bytes == b.offset_bytes

-- The compare-and-set guard of Transition.
conflicts : Option Checkpoint → Option Checkpoint → Bool
conflicts none none = false
conflicts (some current) none = true
conflicts none (some expected) = true
conflicts (some current) (some expected) = not (same_checkpoint_position current expected)

-- Transition
unfoldable pub transition :
    Json → Wal → Option Checkpoint → Checkpoint → Bool → AppendIo → Outcome (Unit {0})
unfolding conflicts
transition j w expected next stop io =
    if stop then (w, err canceled) else elim (validate_checkpoint next) [
      | err e ↦ (w, err (invalid_commit e))
      | ok u ↦ elim (j.marshal_checkpoint next) [
        | none ↦ (w, err (invalid_commit not_encodable))
        | some body ↦
            if w.closed
            then (w, err closed)
            else if conflicts (lookup next.source_key w.checkpoints) expected
            then (w, err transition_conflict)
            else append_then w record_checkpoint body io (set_checkpoint next)
      ]
    ]

-- Pending, Quarantined and Checkpoint
unfoldable pub pending_batches : Wal → List Commit
pending_batches w = present w.pending w.order

pub quarantined_batches : Wal → List Quarantined
quarantined_batches w = present w.quarantined w.quarantine_order

pub checkpoint : Wal → Bytes → Option Checkpoint
checkpoint w key = lookup key w.checkpoints

-- Peek
unfoldable pub peek_in : Map Bytes Commit → List Bytes → Option Commit
peek_in m [] = none
peek_in m (id ∷ ids) = elim (lookup id m) [ none ↦ peek_in m ids | some c ↦ some c ]

unfoldable pub peek : Wal → Option Commit
unfolding peek_in
peek w = peek_in w.pending w.order

-- The oldest instant that is not zero, or zero; the loop of Stats over the map.
oldest : Time → Map Bytes Commit → Time
oldest acc [] = acc
oldest acc ((id, c) ∷ m) =
    let at = c.checkpoint.observed_at in
    oldest (if nat_beq at 0 then acc else if nat_beq acc 0 || ltb at acc then at else acc) m

-- Stats
unfoldable pub stats : Wal → Stats
unfolding oldest
stats w = record {
  used_bytes = w.used_bytes;
  pending_batches = length w.pending;
  quarantined_batches = length w.quarantined;
  oldest_pending_at = oldest 0 w.pending;
}

-- One round of WaitForSpace: it returns, or waits for `changed`.
pub data Wait : Type 0 where
  returns : Result SpoolError (Unit {0}) → Wait
  waits : Wait

unfoldable pub wait_for_space : Wal → ℕ → Wait
wait_for_space w record_bytes =
    if w.closed
    then returns (err closed)
    else if leb (w.used_bytes + record_bytes) w.max_bytes
    then returns (ok tt)
    else waits

-- Close
unfoldable pub close : Wal → Wal
close w = if w.closed then w else record w { closed = true; signalled = true }

pub record Config : Type 0 where
  pub path : Bytes
  pub max_bytes : ℤ
  pub max_record_bytes : ℤ

unfoldable pub default_max_bytes : ℕ
default_max_bytes = 2 ^ 30

unfoldable pub default_max_record_bytes : ℕ
default_max_record_bytes = 8 * 2 ^ 20

unfoldable pub positive_or : ℤ → ℕ → ℕ
positive_or i default = if above i 0 then to_nat i else default

-- What the file system does in Open: the directory, the replacement of a half-made compaction and
-- the opening of the file, then the truncation of a torn tail, and the seek to the end.
pub record OpenIo : Type 0 where
  pub prepared : Bool
  pub truncates : Bool
  pub seeks : Bool

unfoldable pub opened : ℕ → ℕ → OpenIo → Bytes → Recovered → Result SpoolError Wal
opened max_bytes max_record_bytes io file r =
    if ltb r.end (length file) && not io.truncates
    then err truncate_error
    else if not io.seeks
    then err seek_error
    else ok (record {
      file = take r.end file;
      max_bytes = max_bytes;
      max_record_bytes = max_record_bytes;
      closed = false;
      index = r.index;
      signalled = false;
    })

-- Open
unfoldable pub open_wal : Json → Config → OpenIo → Bytes → Result SpoolError Wal
unfolding opened positive_or default_max_bytes default_max_record_bytes
open_wal j c io file =
    let max_bytes = positive_or c.max_bytes default_max_bytes in
    let max_record_bytes = positive_or c.max_record_bytes default_max_record_bytes in
    do
      reject_if (is_blank c.path) empty_path
      reject_if (ltb (2 ^ 32 - 1) max_record_bytes) bad_record_limit
      reject_if (not io.prepared) open_error
      r ← recover j max_record_bytes file empty_index
      opened max_bytes max_record_bytes io file r
