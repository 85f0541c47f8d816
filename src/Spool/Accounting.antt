-- ===== src/Spool/Accounting.antt =====
-- The byte budget of internal/agent/spool/wal.go: `usedBytes` is the sum of the sizes of the batches that
-- are still held, so nothing is subtracted that was not added, and the budget is never passed.
use gline.Base.{
  ℕ, ◌+◌, ◌≡◌, ◌≤◌, refl, Bool, true, false, Option, none, some, Bytes, Map, [], ◌∷◌, length, has,
  has-put, has-delete, lookup, delete, put, lookup-delete, bytes_eq, bytes_beq_iff, arith,
  Result-cases, inl, inr,
}
use gline.Spool.Model.{Index, Commit, Wal, empty_index}
use gline.Spool.Index.{
  record_commit, size_of, apply_commit, apply_quarantine, remove_active, set_checkpoint,
}
use gline.Spool.Index.Changes.{Change, commits, acks, quarantines, moves, Allowed, change}
use gline.Spool.Codec.{Json, encode_commit}
use gline.Spool.File.{
  AppendIo, written, seek_failed, write_failed, sync_failed, append_then, append_record,
}
use gline.Spool.Operations.{commit}

pub total : Map Bytes ℕ → ℕ
total [] = 0
total ((k, n) ∷ m) = n + total m

abbrev pub IsDistinct : Map Bytes ℕ → Type 0
IsDistinct [] = Unit {0}
IsDistinct ((k, n) ∷ m) = (lookup k m ≡ none) × IsDistinct m

abbrev size_or : Option ℕ → ℕ
size_or none = 0
size_or (some n) = n

delete-IsDistinct : (k : Bytes) (m : Map Bytes ℕ) → IsDistinct m → IsDistinct (delete k m)
unfolding delete
delete-IsDistinct k [] d = tt
delete-IsDistinct k ((i, n) ∷ m) d = ground (arith, delete-IsDistinct k m d.1, lookup-delete k i m)

total-delete_absent :
    (k : Bytes) (m : Map Bytes ℕ) → lookup k m ≡ none → total (delete k m) ≡ total m
unfolding total delete lookup
total-delete_absent k [] h = refl
total-delete_absent k ((i, n) ∷ m) h = ground (arith, total-delete_absent k m)

total-delete :
    (k : Bytes) (m : Map Bytes ℕ)
    → IsDistinct m
    → total (delete k m) + size_or (lookup k m) ≡ total m
unfolding total delete lookup
total-delete k [] d = refl
total-delete k ((i, n) ∷ m) d =
    ground (arith, total-delete k m d.1, total-delete_absent k m, bytes_beq_iff i k)

pub record IsCounted (idx : Index) : Type 0 where
  pub distinct : IsDistinct idx.pending_size
  pub sum : idx.used_bytes ≡ total idx.pending_size
  pub sized_seen : (id : Bytes) → has id idx.pending_size ≡ true → has id idx.seen ≡ true

lookup-none : (k : Bytes) (m : Map Bytes ℕ) → has k m ≡ false → lookup k m ≡ none
unfolding has
lookup-none k m h = ground arith

pub IsCounted-empty : IsCounted empty_index
unfolding total has lookup
IsCounted-empty = record { distinct = tt; sum = refl; sized_seen = λ id h. cc }

-- Every change that a state allows keeps its byte count equal to the sum of the sizes of the
-- batches that are kept, each counted once.
pub change-IsCounted :
    (ch : Change) (idx : Index) → Allowed ch idx → IsCounted idx → IsCounted (change ch idx)
unfolding apply_commit apply_quarantine remove_active set_checkpoint total put
change-IsCounted (commits c n) idx new v =
    let k = c.batch_id in
    let absent : lookup k idx.pending_size ≡ none =
      lookup-none k idx.pending_size (ground (arith, v.sized_seen k)) in
    record {
      distinct = (
        ground (arith, lookup-delete k k idx.pending_size, bytes_beq_iff k k),
        delete-IsDistinct k idx.pending_size v.distinct,
      );
      sum = omega (arith, total-delete_absent k idx.pending_size absent, v.sum);
      sized_seen = λ id.
          ground
            (arith, has-put k id n idx.pending_size, has-put k id tt idx.seen, v.sized_seen id);
    }
change-IsCounted (acks id) idx active v = record {
  distinct = delete-IsDistinct id idx.pending_size v.distinct;
  sum = omega (arith, total-delete id idx.pending_size v.distinct, v.sum);
  sized_seen = λ k. ground (arith, has-delete id k idx.pending_size, v.sized_seen k);
}
change-IsCounted (quarantines q) idx waiting v = record {
  distinct = v.distinct;
  sum = v.sum;
  sized_seen = v.sized_seen;
}
change-IsCounted (moves c) idx u v = record {
  distinct = v.distinct;
  sum = v.sum;
  sized_seen = v.sized_seen;
}

-- Where the byte count is the sum of the sizes, removing a batch gives back exactly the bytes that
-- its record took, and none if it is unknown.
pub ack_releases :
    (idx : Index) (id : Bytes)
    → IsCounted idx
    → (remove_active id idx).used_bytes + size_of id idx ≡ idx.used_bytes
unfolding remove_active
ack_releases idx id v = omega (arith, total-delete id idx.pending_size v.distinct, v.sum)

used-apply_commit :
    (c : Commit) (n : ℕ) (idx : Index) (limit : ℕ)
    → idx.used_bytes + n ≤ limit
    → (apply_commit c n idx).used_bytes ≤ limit
unfolding apply_commit
used-apply_commit c n idx limit h = h

used-append_then :
    (w : Wal) (k : ℕ) (b : Bytes) (io : AppendIo) (f : Index → Index) (n : ℕ)
    → (f w.index).used_bytes ≤ n
    → w.used_bytes ≤ n
    → (append_then w k b io f).0.used_bytes ≤ n
unfolding append_then append_record
used-append_then w k b written f n new old = ground arith
used-append_then w k b seek_failed f n new old = ground arith
used-append_then w k b (write_failed m t) f n new old = ground arith
used-append_then w k b (sync_failed t) f n new old = ground arith

-- Commit never takes a log that is within its byte budget past it, whatever it returns.
pub commit_within_budget :
    (j : Json) (w : Wal) (c : Commit) (stop : Bool) (io : AppendIo)
    → w.used_bytes ≤ w.max_bytes
    → (commit j w c stop io).0.used_bytes ≤ w.max_bytes
unfolding commit
commit_within_budget j w c stop io h = elim (Result-cases (encode_commit j c)) [
  | inr (e, failed) ↦ rw (failed, commit) (ground arith)
  | inl (body, encoded) ↦
      rw (encoded, commit)
        (ground (
          arith,
          λ (fits : w.used_bytes + (16 + length body) ≤ w.max_bytes).
              used-append_then w record_commit body io (apply_commit c (16 + length body))
                w.max_bytes (used-apply_commit c (16 + length body) w.index w.max_bytes fits) h,
        ))
]
