-- ===== src/Ingest/Transaction/Outcomes.antt =====
-- What a run of the transaction leaves in the tables, for each of its results.
use gline.Base.{
  ◌≡◌, ◌⊎◌, inl, inr, Option-cases, >>=-eq-ok, map_err-ok, sym, ap, ◌∙◌, Bool, true, false, ◌&&◌,
  none, some, ◌∷◌, ◌++◌, map, length, bytes_eq, bytes_beq_iff, ◌==◌, ok, map_err, arith,
}
use gline.Domain.Models.{Time, Batch, StoredBatch, verify_retry}
use gline.Storage.{
  Db, Faults, find, lookup_batch, batch_row, entry_row, insert_batch_row, insert_entry_rows,
  select_batch, add_usage_row,
}
use gline.Ingest.Transaction.{
  Receipt, accepted, duplicate, store, check_target, answer_retry, write_batch, after_insert,
  ingest_tx,
}

abbrev pub no_faults : Faults
no_faults s = false

-- The tables once the row of the batch is written.
abbrev pub with_batch : Db → Batch → Time → Db
with_batch db b at = record db { batches = batch_row b at ∷ db.batches }

pub record Wrote (db db' : Db) (b : Batch) (r : Receipt) : Type 0 where
  pub batches : db'.batches ≡ db.batches
  pub entries : db'.entries ≡ db.entries ++ map (entry_row b) b.entries
  pub status : r.status ≡ accepted
  pub count : r.accepted_entries ≡ length b.entries

write_batch-Wrote :
    (faults : Faults) (db db' : Db) (b : Batch) (at : Time) (r : Receipt)
    → write_batch faults db b at ≡ ok (db', r)
    → Wrote db db' b r
unfolding write_batch insert_entry_rows add_usage_row
write_batch-Wrote faults db db' b at r h = record {
  batches = ground arith;
  entries = ground arith;
  status = ground arith;
  count = ground arith;
}

pub record Answered (db db' : Db) (b : Batch) (r : Receipt) : Type 0 where
  pub tables : db' ≡ db
  pub status : r.status ≡ duplicate
  pub stored : StoredBatch
  pub found : lookup_batch db b.project_id b.id ≡ some stored
  pub hash : stored.payload_hash ≡ b.payload_hash
  pub count : r.accepted_entries ≡ stored.entry_count

answer_retry-Answered :
    (faults : Faults) (db db' : Db) (b : Batch) (r : Receipt)
    → answer_retry faults db b ≡ ok (db', r)
    → Answered db db' b r
unfolding answer_retry select_batch verify_retry
answer_retry-Answered faults db db' b r h =
    elim (Option-cases (lookup_batch db b.project_id b.id)) [
      | inl absent ↦ absurd (ground (arith, absent))
      | inr (s, e) ↦ record {
        tables = ground (arith, e);
        status = ground (arith, e);
        stored = s;
        found = e;
        hash = ground (arith, e, bytes_beq_iff s.payload_hash b.payload_hash);
        count = ground (arith, e);
      }
    ]

insert_cases :
    (faults : Faults) (db : Db) (b : Batch) (at : Time) (q : Db × Bool)
    → insert_batch_row faults db b at ≡ ok q
    → ((lookup_batch db b.project_id b.id ≡ none) × (q ≡ (with_batch db b at, true)))
      ⊎ (q ≡ (db, false))
unfolding insert_batch_row
insert_cases faults db b at q h = elim (Option-cases (lookup_batch db b.project_id b.id)) [
  | inl absent ↦ inl (absent, ground (arith, absent))
  | inr (s, e) ↦ inr (ground (arith, e))
]

pub stored_now :
    {db db' : Db} {b : Batch} {at : Time} {r : Receipt}
    → Wrote (with_batch db b at) db' b r
    → lookup_batch db' b.project_id b.id ≡ some (batch_row b at)
unfolding find
stored_now {db} {b = b} {at = at} w =
    ap (find (λ x. x.project_id == b.project_id && x.id == b.id)) w.batches
    ∙ ground (arith, bytes_beq_iff b.project_id b.project_id, bytes_beq_iff b.id b.id)

module _ (faults : Faults) (db db' : Db) (b : Batch) (at : Time) (r : Receipt) where
  pub tx_cases :
      ingest_tx faults db b at ≡ ok (db', r)
      → ((lookup_batch db b.project_id b.id ≡ none) × Wrote (with_batch db b at) db' b r)
        ⊎ Answered db db' b r
  unfolding ingest_tx
  tx_cases h =
      let (u, checked, h1) = >>=-eq-ok (check_target faults db b) _ h in
      let (q, inserted, h2) =
        >>=-eq-ok (map_err store (insert_batch_row faults db b at)) (after_insert faults b at) h1 in
      elim (insert_cases faults db b at q (map_err-ok store _ inserted)) [
        | inl (absent, e) ↦ inl (
          absent,
          write_batch-Wrote faults (with_batch db b at) db' b at r
              (ap (after_insert faults b at) (sym e) ∙ h2),
        )
        | inr e ↦
            inr
              (answer_retry-Answered faults db db' b r (ap (after_insert faults b at) (sym e) ∙ h2))
      ]

  -- A transaction that ends with a duplicate leaves every table as it was, and answers with the
  -- number of entries of the stored batch, whose payload hash is that of the batch.
  pub duplicate_writes_nothing :
      ingest_tx faults db b at ≡ ok (db', r)
      → r.status ≡ duplicate
      → (db' ≡ db)
        × ((s : StoredBatch) × (lookup_batch db b.project_id b.id ≡ some s)
            × (s.payload_hash ≡ b.payload_hash)
            × (r.accepted_entries ≡ s.entry_count))
  duplicate_writes_nothing h e = elim (tx_cases h) [
    | inl (absent, w) ↦ absurd (ground (arith, w.status))
    | inr a ↦ (a.tables, (a.stored, a.found, a.hash, a.count))
  ]
