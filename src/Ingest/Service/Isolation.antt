-- ===== src/Ingest/Service/Isolation.antt =====
-- The projects of the rows that Accept writes.
use gline.Base.{
  ◌≡◌, ◌⊎◌, inl, inr, refl, ap, none, some, List, [], ◌∷◌, ◌++◌, map, append-nil, All, bytes_eq,
  bytes_beq_iff, Result, ok, err, Result-cases, arith,
}
use gline.Domain.Ids.{Ident}
use gline.Domain.Status.{scope_ingest}
use gline.Domain.Models.{Batch, Entry, validate_batch}
use gline.Auth.{Principal, require, require_agent}
use gline.Storage.{Db, EntryRow, entry_row}
use gline.Admission.Limiter.{Limiter, AdmissionError, Reservation}
use gline.Ingest.Transaction.{
  Receipt, IngestError, CommitIo, committed, refused, answer_lost, ingest_tx, within_tx, end_tx,
}
use gline.Ingest.Transaction.Outcomes.{tx_cases}
use gline.Ingest.Service.{prepare, Server, Call, accept, admit_and_run, run_tx, with_reservation}

-- What passed every check before admission: the principal may ingest, is not bound to another
-- agent, and every entry now carries the principal's project.
pub record IsPrepared (p : Principal) (candidate b : Batch) : Type 0 where
  pub project : b.project_id ≡ p.project_id
  pub id : b.id ≡ candidate.id
  pub hash : b.payload_hash ≡ candidate.payload_hash
  pub agent : b.agent_id ≡ candidate.agent_id
  pub may_ingest : require p scope_ingest ≡ ok tt
  pub may_use_agent : require_agent p candidate.agent_id ≡ ok tt
  pub given : (candidate.project_id ≡ []) ⊎ (candidate.project_id ≡ p.project_id)
  pub valid : validate_batch b ≡ ok tt

pub prepare-IsPrepared :
    (p : Principal) (candidate b : Batch) → prepare p candidate ≡ ok b → IsPrepared p candidate b
unfolding prepare
prepare-IsPrepared p candidate b h = record {
  project = ground arith;
  id = ground arith;
  hash = ground arith;
  agent = ground arith;
  may_ingest = ground arith;
  may_use_agent = ground arith;
  given = ground (
    arith,
    bytes_beq_iff candidate.project_id [],
    bytes_beq_iff candidate.project_id p.project_id,
  );
  valid = ground arith;
}

-- The rows that a transaction adds.
Adds : Db → Batch → Db → Type 0
Adds db b db' =
    (db'.entries ≡ db.entries) ⊎ (db'.entries ≡ db.entries ++ map (entry_row b) b.entries)

tx-Adds :
    (db : Db) (b : Batch) (call : Call) (db' : Db) (r : Receipt)
    → ingest_tx call.faults db b call.committed_at ≡ ok (db', r)
    → Adds db b db'
unfolding Adds
tx-Adds db b call db' r h = elim (tx_cases call.faults db db' b call.committed_at r h) [
  | inl (_, w) ↦ inr w.entries
  | inr a ↦ inl (ap (λ d. d.entries) a.tables)
]

end_tx-Adds :
    (db : Db) (b : Batch) (call : Call) (io : CommitIo) (t : Result IngestError (Db × Receipt))
    → ingest_tx call.faults db b call.committed_at ≡ t
    → Adds db b (end_tx db io t).0
unfolding end_tx Adds
end_tx-Adds db b call io (err e) h = inl refl
end_tx-Adds db b call refused (ok (db', r)) h = inl refl
end_tx-Adds db b call committed (ok (db', r)) h = tx-Adds db b call db' r h
end_tx-Adds db b call answer_lost (ok (db', r)) h = tx-Adds db b call db' r h

within_tx-Adds :
    (db : Db) (b : Batch) (call : Call)
    → Adds db b (within_tx call.faults call.io db b call.committed_at).0
unfolding within_tx
within_tx-Adds db b call =
    end_tx-Adds db b call call.io (ingest_tx call.faults db b call.committed_at) refl

with_reservation-Adds :
    (db : Db) (b : Batch) (call : Call) (q : Limiter × Result AdmissionError Reservation)
    → Adds db b (with_reservation db b call q).0.db
unfolding with_reservation Adds
with_reservation-Adds db b call (l, err e) = inl refl
with_reservation-Adds db b call (l, ok reservation) = within_tx-Adds db b call

admit_and_run-Adds :
    (s : Server) (p : Principal) (b : Batch) (call : Call)
    → Adds s.db b (admit_and_run s p b call).0.db
unfolding admit_and_run run_tx
admit_and_run-Adds s p b call =
    elim s.limiter
      as (λ limiter. Adds s.db b (admit_and_run (record s { limiter = limiter }) p b call).0.db) [
        | none ↦ within_tx-Adds s.db b call
        | some l ↦ with_reservation-Adds s.db b call _
      ]

row-project :
    (b : Batch) (project : Ident)
    → b.project_id ≡ project
    → (es : List Entry) → All (λ row. row.project_id ≡ project) (map (entry_row b) es)
row-project b project e [] = tt
row-project b project e (x ∷ es) = (e, row-project b project e es)

-- Whatever Accept answers, the rows of entries that were there stay as they were, and every row
-- that it adds carries the project of the principal.
pub accept_isolated :
    (s : Server) (p : Principal) (candidate : Batch) (call : Call)
    → (rows : List EntryRow) × ((accept s p candidate call).0.db.entries ≡ s.db.entries ++ rows)
      × All (λ row. row.project_id ≡ p.project_id) rows
unfolding accept Adds
accept_isolated s p candidate call = elim (Result-cases (prepare p candidate)) [
  | inr (e, refused_early) ↦ ([], ground (arith, refused_early, append-nil s.db.entries), tt)
  | inl (b, prepared) ↦ elim (admit_and_run-Adds s p b call) [
    | inl same ↦ ([], ground (arith, prepared, same, append-nil s.db.entries), tt)
    | inr added ↦ (
      map (entry_row b) b.entries,
      ground (arith, prepared, added),
      row-project b p.project_id (prepare-IsPrepared p candidate b prepared).project b.entries,
    )
  ]
]
