-- ===== src/Ingest/Service.antt =====
-- Accept of internal/server/ingest/service.go. The attributes of entries are values here, so cloneBatch is
-- the identity; metrics (Observer) are left out.
pub mod Isolation
pub mod Admitted
use gline.Base.{
  ℕ, ℤ, pos, Bool, true, false, not, ◌&&◌, ◌||◌, Option, none, some, Bytes, List, [], ◌∷◌, length,
  replicate, bytes_eq, ◌==◌, Result, ok, err, ◌>>=◌, ◌>>◌, reject_if, map_err, if◌then◌else◌,
}
use gline.Domain.Ids.{Ident}
use gline.Domain.Status.{scope_ingest}
use gline.Domain.Models.{Time, DomainError, invalid, Batch, Entry, validate_batch}
use gline.Auth.{AuthError, Principal, project_mismatch, require, require_agent}
use gline.Storage.{Db, Faults}
use gline.Admission.Limiter.{Limiter, AdmissionError, Reservation, allow_ingest, finish}
use gline.Ingest.Transaction.{Receipt, Status, accepted, IngestError, CommitIo, within_tx}

pub data AcceptError : Type 0 where
  domain : DomainError → AcceptError
  auth : AuthError → AcceptError
  admission : AdmissionError → AcceptError
  ingest : IngestError → AcceptError

-- The loop that gives every entry the principal's project.
unfoldable pub stamp_entries : Ident → List Entry → Result AcceptError (List Entry)
stamp_entries project [] = ok []
stamp_entries project (e ∷ es) = do
  reject_if (not (e.project_id == []) && not (e.project_id == project)) (auth project_mismatch)
  rest ← stamp_entries project es
  ok (record e { project_id = project } ∷ rest)

abbrev pub zero_hash : Bytes
zero_hash = replicate 32 0

-- What Accept checks and changes before it asks for admission.
unfoldable pub prepare : Principal → Batch → Result AcceptError Batch
unfolding stamp_entries
prepare p candidate = do
  map_err domain (require p scope_ingest)
  reject_if (not (candidate.project_id == []) && not (candidate.project_id == p.project_id))
      (auth project_mismatch)
  map_err auth (require_agent p candidate.agent_id)
  entries ← stamp_entries p.project_id candidate.entries
  let batch : Batch = record candidate { project_id = p.project_id; entries = entries }
  reject_if (candidate.payload_hash == zero_hash) (domain invalid)
  map_err domain (validate_batch batch)
  ok batch

-- The service's state: the tables, and the limiter if one is configured.
pub record Server : Type 0 where
  pub db : Db
  pub limiter : Option Limiter

-- The instants that the clocks show, the database's part, and whether the context is done.
pub record Call : Type 0 where
  pub admitted_at : Time
  pub committed_at : Time
  pub finished_at : Time
  pub canceled : Bool
  pub faults : Faults
  pub io : CommitIo

unfoldable pub was_accepted : Result IngestError Receipt → Bool
was_accepted (err e) = false
was_accepted (ok r) = elim r.status [ accepted ↦ true | _ ↦ false ]

unfoldable pub run_tx : Db → Batch → Call → Db × Result AcceptError Receipt
run_tx db batch call =
    let (db', r) = within_tx call.faults call.io db batch call.committed_at in
    (db', map_err ingest r)

-- The reservation is committed if the batch was accepted, and the deferred Release comes after it.
unfoldable pub settle_reservation :
    Limiter → Time → Reservation → Result IngestError Receipt → Limiter
unfolding was_accepted
settle_reservation l at reservation result =
    if was_accepted result
    then (let (l', reservation') = finish l at reservation false in
        (finish l' at reservation' true).0)
    else (finish l at reservation true).0

unfoldable pub with_reservation :
    Db
    → Batch
    → Call
    → Limiter × Result AdmissionError Reservation
    → Server × Result AcceptError Receipt
unfolding settle_reservation
with_reservation db batch call (l, err e) =
    (record { db = db; limiter = some l }, err (admission e))
with_reservation db batch call (l, ok reservation) =
    let (db', r) = within_tx call.faults call.io db batch call.committed_at in
    (
      record { db = db'; limiter = some (settle_reservation l call.finished_at reservation r) },
      map_err ingest r,
    )

unfoldable pub admit_and_run :
    Server → Principal → Batch → Call → Server × Result AcceptError Receipt
unfolding with_reservation run_tx
admit_and_run s p batch call = elim s.limiter [
  | none ↦ (let (db', r) = run_tx s.db batch call in (record s { db = db' }, r))
  | some l ↦ with_reservation s.db batch call (
      allow_ingest l call.admitted_at call.canceled p.key_id p.project_id
        (pos (length batch.entries)) batch.payload_bytes)
]

-- Accept
unfoldable pub accept : Server → Principal → Batch → Call → Server × Result AcceptError Receipt
unfolding admit_and_run
accept s p candidate call = elim (prepare p candidate) [
  | err e ↦ (s, err e)
  | ok batch ↦ admit_and_run s p batch call
]
