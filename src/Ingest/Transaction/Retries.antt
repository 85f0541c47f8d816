-- ===== src/Ingest/Transaction/Retries.antt =====
-- A batch that is sent again and again is stored once.
use gline.Base.{
  ◌≡◌, inl, inr, refl, ap, ◌∙◌, none, some, List, [], ◌∷◌, ◌++◌, map, bytes_eq, Result, ok, err,
  arith,
}
use gline.Domain.Models.{Time, Batch, StoredBatch}
use gline.Storage.{Db, Faults, lookup_batch, batch_row, entry_row}
use gline.Ingest.Transaction.{
  Receipt, IngestError, ingest_tx, within_tx, end_tx, CommitIo, committed, refused, answer_lost,
}
use gline.Ingest.Transaction.Outcomes.{stored_now, tx_cases}

-- One delivery of the batch: what the database fails, how the commit ends, and when.
pub record Attempt : Type 0 where
  pub faults : Faults
  pub io : CommitIo
  pub at : Time

pub deliver : Batch → Attempt → Db → Db
deliver b a db = (within_tx a.faults a.io db b a.at).0

unfoldable pub deliver_all : Batch → List Attempt → Db → Db
unfolding deliver
deliver_all b [] db = db
deliver_all b (a ∷ tries) db = deliver_all b tries (deliver b a db)

-- The two states in which the batch can be: not stored, or stored with its entries once.
pub data Once (start : Db) (b : Batch) (db : Db) : Type 0 where
  unsaved : db.entries ≡ start.entries → lookup_batch db b.project_id b.id ≡ none → Once start b db
  saved :
      db.entries ≡ start.entries ++ map (entry_row b) b.entries
      → (s : StoredBatch) → lookup_batch db b.project_id b.id ≡ some s
      → Once start b db

-- A successful transaction from either state ends in the second.
tx-saved :
    (start db db' : Db) (b : Batch) (faults : Faults) (at : Time) (r : Receipt)
    → Once start b db
    → ingest_tx faults db b at ≡ ok (db', r)
    → (db'.entries ≡ start.entries ++ map (entry_row b) b.entries)
      × ((s : StoredBatch) × (lookup_batch db' b.project_id b.id ≡ some s))
tx-saved start db db' b faults at r (unsaved same absent) h =
    elim (tx_cases faults db db' b at r h) [
      | inl (_, w) ↦ (
        w.entries ∙ ap (λ l. l ++ map (entry_row b) b.entries) same,
        (batch_row b at, stored_now w),
      )
      | inr a ↦ absurd (ground (arith, a.found, absent))
    ]
tx-saved start db db' b faults at r (saved rows s found) h =
    elim (tx_cases faults db db' b at r h) [
      | inl (absent, w) ↦ absurd (ground (arith, absent, found))
      | inr a ↦ (
        ap (λ d. d.entries) a.tables ∙ rows,
        (s, ap (λ d. lookup_batch d b.project_id b.id) a.tables ∙ found),
      )
    ]

end_tx-ok :
    (db db' : Db) (io : CommitIo) (t : Result IngestError (Db × Receipt)) (r : Receipt)
    → end_tx db io t ≡ (db', ok r)
    → t ≡ ok (db', r)
unfolding end_tx
end_tx-ok db db' io (err e) r h = cc
end_tx-ok db db' committed (ok (d, q)) r h = ground arith
end_tx-ok db db' refused (ok (d, q)) r h = ground arith
end_tx-ok db db' answer_lost (ok (d, q)) r h = ground arith

end_tx-Once :
    (start db : Db) (b : Batch) (faults : Faults) (at : Time) (io : CommitIo)
    (t : Result IngestError (Db × Receipt))
    → ingest_tx faults db b at ≡ t
    → Once start b db
    → Once start b (end_tx db io t).0
unfolding end_tx
end_tx-Once start db b faults at io (err e) h o = o
end_tx-Once start db b faults at committed (ok (db', r)) h o =
    let (rows, stored) = tx-saved start db db' b faults at r o h in saved rows stored.0 stored.1
end_tx-Once start db b faults at refused (ok (db', r)) h o = o
end_tx-Once start db b faults at answer_lost (ok (db', r)) h o =
    let (rows, stored) = tx-saved start db db' b faults at r o h in saved rows stored.0 stored.1

deliver-Once :
    (start db : Db) (b : Batch) (a : Attempt) → Once start b db → Once start b (deliver b a db)
unfolding deliver within_tx
deliver-Once start db b a o = end_tx-Once start db b a.faults a.at a.io _ refl o

-- Start with the batch unknown, or stored with its entries once. However often it is then
-- delivered, whatever fails in between and whichever answers are lost, it is again unknown with no
-- entry added, or stored with its entries added exactly once.
pub delivered_at_most_once :
    (b : Batch) (tries : List Attempt) (start db : Db)
    → Once start b db
    → Once start b (deliver_all b tries db)
unfolding deliver_all
delivered_at_most_once b [] start db o = o
delivered_at_most_once b (a ∷ tries) start db o =
    delivered_at_most_once b tries start (deliver b a db) (deliver-Once start db b a o)

-- A batch is unknown at first and delivered any number of times, with any failures and lost
-- answers. If one more delivery is then answered with success, accepted or duplicate, the table of
-- entries is that of the start with the batch's entries added exactly once.
pub answered_exactly_once :
    (b : Batch) (tries : List Attempt) (a : Attempt) (start db : Db) (r : Receipt)
    → lookup_batch start b.project_id b.id ≡ none
    → within_tx a.faults a.io (deliver_all b tries start) b a.at ≡ (db, ok r)
    → db.entries ≡ start.entries ++ map (entry_row b) b.entries
unfolding within_tx
answered_exactly_once b tries a start db r absent h =
    let o = delivered_at_most_once b tries start start (unsaved refl absent) in
    (tx-saved start (deliver_all b tries start) db b a.faults a.at r o
      (end_tx-ok (deliver_all b tries start) db a.io _ r h)).0
