-- ===== src/Spool/Index/Sameness.antt =====
-- What a reader of the log can tell apart: two states of the maps that show the same batches and
-- checkpoints, the second of which may have forgotten finished batches.
use gline.Base.{
  ℕ, ◌+◌, ◌-◌, ◌≡◌, refl, sym, ap, ap₂, ◌∙◌, true, false, not, some, Bytes, Map, [], ◌∷◌, ◌++◌,
  All-map, filter, has, has-put, lookup, put, put-agree, delete-agree, bytes_eq, bytes_beq, arith,
}
use gline.Spool.Model.{Index, Commit, Quarantined, Checkpoint}
use gline.Spool.Index.{
  present, size_of, apply_commit, apply_quarantine, remove_active, set_checkpoint,
}
use gline.Spool.Index.Present.{present-put-snoc, present-delete}
use gline.Spool.Index.Changes.{Change, commits, acks, quarantines, moves, Allowed, change}
use gline.Spool.Index.Validity.{IsValid}

pub record Same (a b : Index) : Type 0 where
  pub used : a.used_bytes ≡ b.used_bytes
  pub pending : (id : Bytes) → lookup id a.pending ≡ lookup id b.pending
  pub sizes : (id : Bytes) → lookup id a.pending_size ≡ lookup id b.pending_size
  pub quarantined : (id : Bytes) → lookup id a.quarantined ≡ lookup id b.quarantined
  pub checkpoints : (id : Bytes) → lookup id a.checkpoints ≡ lookup id b.checkpoints
  pub seen : (id : Bytes) → has id b.seen ≡ true → has id a.seen ≡ true
  pub queue : present a.pending a.order ≡ present b.pending b.order
  pub parked : present a.quarantined a.quarantine_order ≡ present b.quarantined b.quarantine_order

pub Same-refl : (a : Index) → Same a a
Same-refl a = record {
  used = refl;
  pending = λ id. refl;
  sizes = λ id. refl;
  quarantined = λ id. refl;
  checkpoints = λ id. refl;
  seen = λ id h. h;
  queue = refl;
  parked = refl;
}

has-same {ℓ} :
    {V : Type ℓ} (id : Bytes) (m n : Map Bytes V) → lookup id m ≡ lookup id n → has id m ≡ has id n
unfolding has
has-same id m n h = rw (h, has)

-- A new batch goes to the end of the queue, a batch set aside to the end of its list.
queue-commit :
    (idx : Index)
    → IsValid idx
    → (c : Commit) → has c.batch_id idx.seen ≡ false
    → present (put c.batch_id c idx.pending) (idx.order ++ c.batch_id ∷ [])
      ≡ present idx.pending idx.order ++ c ∷ []
queue-commit idx v c new =
    present-put-snoc idx.pending c.batch_id c idx.order
      (All-map idx.order (λ x h e. ground (arith, ap (λ k. has k idx.seen) e)) v.order_seen)

parked-quarantine :
    (idx : Index)
    → IsValid idx
    → (q : Quarantined) → lookup q.commit.batch_id idx.pending ≡ some q.commit
    → present
        (put q.commit.batch_id q idx.quarantined)
        (idx.quarantine_order ++ q.commit.batch_id ∷ [])
      ≡ present idx.quarantined idx.quarantine_order ++ q ∷ []
parked-quarantine idx v q waiting =
    present-put-snoc idx.quarantined q.commit.batch_id q idx.quarantine_order (
      All-map idx.quarantine_order (λ x h e. ground (arith, h, ap (λ k. lookup k idx.pending) e))
        v.parked)

module _ (a b : Index) (va : IsValid a) (vb : IsValid b) (s : Same a b) where
  -- What the running log may do, recovery may do too.
  pub Allowed-same : (ch : Change) → Allowed ch a → Allowed ch b
  Allowed-same (commits c n) h = ground (arith, s.seen c.batch_id)
  Allowed-same (acks id) h = ground (
    arith,
    has-same id a.pending b.pending (s.pending id),
    has-same id a.quarantined b.quarantined (s.quarantined id),
  )
  Allowed-same (quarantines q) h = sym (s.pending q.commit.batch_id) ∙ h
  Allowed-same (moves c) h = tt

  commit-Same :
      (c : Commit) (n : ℕ)
      → has c.batch_id a.seen ≡ false
      → has c.batch_id b.seen ≡ false
      → Same (apply_commit c n a) (apply_commit c n b)
  unfolding apply_commit
  commit-Same c n ha hb = record {
    used = ap (λ u. u + n) s.used;
    pending = λ id. put-agree c.batch_id id c a.pending b.pending (s.pending id);
    sizes = λ id. put-agree c.batch_id id n a.pending_size b.pending_size (s.sizes id);
    quarantined = s.quarantined;
    checkpoints = λ id.
        put-agree c.checkpoint.source_key id c.checkpoint a.checkpoints b.checkpoints
          (s.checkpoints id);
    seen = λ id.
        ground (arith, has-put c.batch_id id tt a.seen, has-put c.batch_id id tt b.seen, s.seen id);
    queue = queue-commit a va c ha ∙ ap (λ l. l ++ c ∷ []) s.queue ∙ sym (queue-commit b vb c hb);
    parked = s.parked;
  }

  size-same : (id : Bytes) → size_of id a ≡ size_of id b
  size-same id = rw (s.sizes id, size_of)

  ack-Same : (id : Bytes) → Same (remove_active id a) (remove_active id b)
  unfolding remove_active
  ack-Same k = record {
    used = ap₂ (λ u n. u - n) s.used (size-same k);
    pending = λ id. delete-agree k id a.pending b.pending (s.pending id);
    sizes = λ id. delete-agree k id a.pending_size b.pending_size (s.sizes id);
    quarantined = λ id. delete-agree k id a.quarantined b.quarantined (s.quarantined id);
    checkpoints = s.checkpoints;
    seen = s.seen;
    queue =
        present-delete (λ c. c.batch_id) a.pending k a.order va.keyed
        ∙ ap (filter (λ c. not (bytes_beq k c.batch_id))) s.queue
        ∙ sym (present-delete (λ c. c.batch_id) b.pending k b.order vb.keyed);
    parked =
        present-delete (λ q. q.commit.batch_id) a.quarantined k a.quarantine_order va.parked_keyed
        ∙ ap (filter (λ q. not (bytes_beq k q.commit.batch_id))) s.parked
        ∙ sym (
            present-delete (λ q. q.commit.batch_id) b.quarantined k b.quarantine_order
              vb.parked_keyed);
  }

  quarantine-Same :
      (q : Quarantined)
      → lookup q.commit.batch_id a.pending ≡ some q.commit
      → lookup q.commit.batch_id b.pending ≡ some q.commit
      → Same (apply_quarantine q a) (apply_quarantine q b)
  unfolding apply_quarantine
  quarantine-Same q ha hb = record {
    used = s.used;
    pending = λ id. delete-agree q.commit.batch_id id a.pending b.pending (s.pending id);
    sizes = s.sizes;
    quarantined =
        λ id. put-agree q.commit.batch_id id q a.quarantined b.quarantined (s.quarantined id);
    checkpoints = s.checkpoints;
    seen = s.seen;
    queue =
        present-delete (λ c. c.batch_id) a.pending q.commit.batch_id a.order va.keyed
        ∙ ap (filter (λ c. not (bytes_beq q.commit.batch_id c.batch_id))) s.queue
        ∙ sym (present-delete (λ c. c.batch_id) b.pending q.commit.batch_id b.order vb.keyed);
    parked =
        parked-quarantine a va q ha
        ∙ ap (λ l. l ++ q ∷ []) s.parked
        ∙ sym (parked-quarantine b vb q hb);
  }

  move-Same : (c : Checkpoint) → Same (set_checkpoint c a) (set_checkpoint c b)
  unfolding set_checkpoint
  move-Same c = record {
    used = s.used;
    pending = s.pending;
    sizes = s.sizes;
    quarantined = s.quarantined;
    checkpoints = λ id. put-agree c.source_key id c a.checkpoints b.checkpoints (s.checkpoints id);
    seen = s.seen;
    queue = s.queue;
    parked = s.parked;
  }

  -- Two valid states that show the same batches, checkpoints and byte count still do after the
  -- same change, if the first allows the change.
  pub change-Same : (ch : Change) → Allowed ch a → Same (change ch a) (change ch b)
  change-Same (commits c n) h = commit-Same c n h (Allowed-same (commits c n) h)
  change-Same (acks id) h = ack-Same id
  change-Same (quarantines q) h = quarantine-Same q h (Allowed-same (quarantines q) h)
  change-Same (moves c) h = move-Same c
