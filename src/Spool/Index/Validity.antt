-- ===== src/Spool/Index/Validity.antt =====
-- Agreement between the maps, and the changes that are made of them.
use gline.Base.{
  ℕ, ◌≡◌, true, false, none, some, Bytes, [], ◌∷◌, All, All-append, All-map, has, has-put, lookup,
  delete, put, lookup-put, lookup-delete, bytes_eq, bytes_beq_iff, arith,
}
use gline.Spool.Model.{Index, Commit, Quarantined, Checkpoint, empty_index}
use gline.Spool.Index.{apply_commit, apply_quarantine, remove_active, set_checkpoint}
use gline.Spool.Index.Changes.{Change, commits, acks, quarantines, moves, Allowed, change}

-- A batch that was set aside has been seen, and waits for delivery no more.
abbrev pub IsParked : Index → Bytes → Type 0
IsParked idx id = (has id idx.seen ≡ true) × (lookup id idx.pending ≡ none)

pub record IsValid (idx : Index) : Type 0 where
  pub keyed : (id : Bytes) (c : Commit) → lookup id idx.pending ≡ some c → c.batch_id ≡ id
  pub parked_keyed :
      (id : Bytes) (q : Quarantined) → lookup id idx.quarantined ≡ some q → q.commit.batch_id ≡ id
  pub pending_seen :
      (id : Bytes) (c : Commit) → lookup id idx.pending ≡ some c → has id idx.seen ≡ true
  pub order_seen : All (λ id. has id idx.seen ≡ true) idx.order
  pub parked : All (IsParked idx) idx.quarantine_order

pub IsValid-empty : IsValid empty_index
unfolding lookup
IsValid-empty = record {
  keyed = λ id c h. cc;
  parked_keyed = λ id q h. cc;
  pending_seen = λ id c h. cc;
  order_seen = tt;
  parked = tt;
}

module _ (idx : Index) (v : IsValid idx) where
  commit-IsValid :
      (c : Commit) (n : ℕ) → has c.batch_id idx.seen ≡ false → IsValid (apply_commit c n idx)
  unfolding apply_commit
  commit-IsValid c n new = record {
    keyed = λ id d.
        ground (
          arith,
          lookup-put c.batch_id id c idx.pending,
          v.keyed id d,
          bytes_beq_iff c.batch_id id,
        );
    parked_keyed = v.parked_keyed;
    pending_seen = λ id d. ground (
      arith,
      lookup-put c.batch_id id c idx.pending,
      has-put c.batch_id id tt idx.seen,
      v.pending_seen id d,
    );
    order_seen =
        All-append (λ id. has id (put c.batch_id tt idx.seen) ≡ true) idx.order (c.batch_id ∷ [])
          (All-map idx.order (λ id h. ground (arith, has-put c.batch_id id tt idx.seen))
            v.order_seen)
          (
            ground (
              arith,
              has-put c.batch_id c.batch_id tt idx.seen,
              bytes_beq_iff c.batch_id c.batch_id,
            ),
            tt,
          );
    parked =
        All-map idx.quarantine_order
          (λ id h. (
            ground (arith, has-put c.batch_id id tt idx.seen, h.0),
            ground (arith, lookup-put c.batch_id id c idx.pending, h, bytes_beq_iff c.batch_id id),
          ))
          v.parked;
  }

  ack-IsValid : (id : Bytes) → IsValid (remove_active id idx)
  unfolding remove_active
  ack-IsValid k = record {
    keyed = λ id d. ground (arith, lookup-delete k id idx.pending, v.keyed id d);
    parked_keyed = λ id d. ground (arith, lookup-delete k id idx.quarantined, v.parked_keyed id d);
    pending_seen = λ id d. ground (arith, lookup-delete k id idx.pending, v.pending_seen id d);
    order_seen = v.order_seen;
    parked =
        All-map idx.quarantine_order
          (λ id h. (h.0, ground (arith, lookup-delete k id idx.pending, h))) v.parked;
  }

  quarantine-IsValid :
      (q : Quarantined)
      → lookup q.commit.batch_id idx.pending ≡ some q.commit
      → IsValid (apply_quarantine q idx)
  unfolding apply_quarantine
  quarantine-IsValid q waiting = record {
    keyed = λ id d. ground (arith, lookup-delete q.commit.batch_id id idx.pending, v.keyed id d);
    parked_keyed = λ id d. ground (
      arith,
      lookup-put q.commit.batch_id id q idx.quarantined,
      v.parked_keyed id d,
      bytes_beq_iff q.commit.batch_id id,
    );
    pending_seen =
        λ id d. ground (arith, lookup-delete q.commit.batch_id id idx.pending, v.pending_seen id d);
    order_seen = v.order_seen;
    parked =
        All-append
          (λ id.
            (has id idx.seen ≡ true) × (lookup id (delete q.commit.batch_id idx.pending) ≡ none))
          idx.quarantine_order (q.commit.batch_id ∷ [])
          (All-map idx.quarantine_order
            (λ id h. (h.0, ground (arith, lookup-delete q.commit.batch_id id idx.pending, h)))
            v.parked)
          (
            (
              v.pending_seen q.commit.batch_id q.commit waiting,
              ground (
                arith,
                lookup-delete q.commit.batch_id q.commit.batch_id idx.pending,
                bytes_beq_iff q.commit.batch_id q.commit.batch_id,
              ),
            ),
            tt,
          );
  }

  move-IsValid : (c : Checkpoint) → IsValid (set_checkpoint c idx)
  unfolding set_checkpoint
  move-IsValid c = record {
    keyed = v.keyed;
    parked_keyed = v.parked_keyed;
    pending_seen = v.pending_seen;
    order_seen = v.order_seen;
    parked = v.parked;
  }

  -- Every change that a valid state allows leaves it valid: the maps stay keyed by the batches'
  -- identifiers, every pending batch and every batch in an order has been seen, and no batch that
  -- was set aside is pending.
  pub change-IsValid : (ch : Change) → Allowed ch idx → IsValid (change ch idx)
  change-IsValid (commits c n) h = commit-IsValid c n h
  change-IsValid (acks id) h = ack-IsValid id
  change-IsValid (quarantines q) h = quarantine-IsValid q h
  change-IsValid (moves c) h = move-IsValid c
