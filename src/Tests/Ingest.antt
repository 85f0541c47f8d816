-- ===== src/Tests/Ingest.antt =====
-- Ingestion at a concrete batch.
use gline.Base.{
  ◌≡◌, refl, ap, bytes_beq, is_blank, contains, lookup, true, false, not, none, some, codes, List,
  [], ◌∷◌, ◌++◌, map, replicate, pos, All, Result, ok, err, bytes_eq,
}
use gline.Domain.Ids.{Ident, valid_uuid}
use gline.Domain.Status.{
  valid_scope, valid_batch_status, scope_ingest, ProjectStatus, AgentStatus, enabled,
}
use gline.Domain.Models.{Entry, Batch, can_ingest, validate_batch, validate_for_batch, verify_retry}
use gline.Auth.{Principal, valid_principal, require, require_agent}
use gline.Storage.{
  Db, EntryRow, find, lookup_batch, entry_row, select_project, select_agent, select_pipeline,
  insert_batch_row, insert_entry_rows, add_usage_row, select_batch,
}
use gline.Admission.Bucket.{refill, full_bucket}
use gline.Admission.Limiter.{
  retain, cleanup, admit, with_key, with_project, charge_key, charge_project, Limiter, Reservation,
  allow_ingest, finish,
}
use gline.Ingest.Transaction.{
  Receipt, accepted, duplicate, IngestError, check_target, answer_retry, write_batch, ingest_tx,
  committed, answer_lost, within_tx, end_tx,
}
use gline.Ingest.Transaction.Outcomes.{no_faults}
use gline.Ingest.Transaction.Retries.{
  Attempt, deliver_all, Once, unsaved, delivered_at_most_once, answered_exactly_once,
}
use gline.Ingest.Service.{Server, Call, accept, prepare, was_accepted}
use gline.Ingest.Service.Isolation.{accept_isolated}
use gline.Ingest.Service.Admitted.{settled_once}

abbrev pub project_1 : Ident
project_1 = codes "0a0a0a0a-0000-4000-8000-000000000001"

abbrev pub agent_1 : Ident
agent_1 = codes "0a0a0a0a-0000-4000-8000-000000000002"

abbrev pub pipeline_1 : Ident
pipeline_1 = codes "0a0a0a0a-0000-4000-8000-000000000003"

abbrev pub batch_id : Ident
batch_id = codes "0a0a0a0a-0000-4000-8000-000000000004"

abbrev line : Entry
line = record {
  project_id = project_1;
  batch_id = [];
  agent_id = [];
  pipeline_id = [];
  batch_sequence = pos 0;
  service = codes "web";
  host = codes "a";
  level = codes "info";
  message = codes "hello";
  observed_at = 3;
  attributes = codes "{}";
}

abbrev one_line : Batch
one_line = record {
  id = batch_id;
  project_id = project_1;
  agent_id = agent_1;
  pipeline_id = pipeline_1;
  sequence = pos 0;
  payload_hash = replicate 32 7;
  payload_bytes = pos 20;
  entries = line ∷ [];
  created_at = 4;
}

abbrev pub tables : Db
tables = record {
  projects = record { id = project_1; status = ProjectStatus.active } ∷ [];
  agents = record { id = agent_1; project_id = project_1; status = AgentStatus.active } ∷ [];
  pipelines =
      record { id = pipeline_1; project_id = project_1; agent_id = agent_1; status = enabled } ∷ [];
  batches = [];
  entries = [];
  usage = [];
}

abbrev db_or : Db → Result IngestError (Db × Receipt) → Db
db_or db (ok (db', r)) = db'
db_or db (err e) = db

abbrev saved : Db
saved = db_or tables (ingest_tx no_faults tables one_line 9)

abbrev receipt : Receipt
receipt = record { batch_id = batch_id; status = accepted; accepted_entries = 1 }

abbrev second_receipt : Receipt
second_receipt = record { batch_id = batch_id; status = duplicate; accepted_entries = 1 }

first_run : ingest_tx no_faults tables one_line 9 ≡ ok (saved, receipt)
unfolding ingest_tx check_target select_project select_agent select_pipeline can_ingest valid_uuid
    insert_batch_row validate_batch find write_batch insert_entry_rows add_usage_row bytes_beq
    validate_for_batch is_blank
first_run = refl

second_run : ingest_tx no_faults saved one_line 12 ≡ ok (saved, second_receipt)
unfolding ingest_tx check_target select_project select_agent select_pipeline can_ingest valid_uuid
    insert_batch_row validate_batch find write_batch insert_entry_rows add_usage_row answer_retry
    select_batch verify_retry bytes_beq validate_for_batch is_blank valid_batch_status
second_run = refl

unknown_batch : lookup_batch tables project_1 batch_id ≡ none
unfolding find
unknown_batch = refl

abbrev lost : Attempt
lost = record { faults = no_faults; io = answer_lost; at = 8 }

abbrev last_try : Attempt
last_try = record { faults = no_faults; io = committed; at = 9 }

delivered_at_most_once_example :
    Once tables one_line (deliver_all one_line (lost ∷ lost ∷ []) tables)
delivered_at_most_once_example =
    delivered_at_most_once one_line (lost ∷ lost ∷ []) tables tables (unsaved refl unknown_batch)

answered : within_tx no_faults committed tables one_line 9 ≡ (saved, ok receipt)
unfolding within_tx end_tx
answered = ap (end_tx tables committed) first_run

none_before :
    within_tx no_faults committed (deliver_all one_line [] tables) one_line 9 ≡ (saved, ok receipt)
unfolding deliver_all
none_before = answered

answered_exactly_once_example : saved.entries ≡ [] ++ map (entry_row one_line) (line ∷ [])
answered_exactly_once_example =
    answered_exactly_once one_line [] last_try tables saved receipt unknown_batch none_before

abbrev principal : Principal
principal = record {
  key_id = project_1;
  project_id = project_1;
  agent_id = none;
  scopes = scope_ingest ∷ [];
}

abbrev pub call : Call
call = record {
  admitted_at = 7;
  committed_at = 9;
  finished_at = 10;
  canceled = false;
  faults = no_faults;
  io = committed;
}

abbrev pub limiter : Limiter
limiter = record {
  config = record {
    requests_per_minute = 2;
    entries_per_minute = 10;
    bytes_per_minute = 100;
    max_inflight = 1;
    state_ttl = 60000000000;
  };
  last_cleanup = 0;
  keys = [];
  projects = [];
}

abbrev pub server : Server
server = record { db = tables; limiter = some limiter }

accept_isolated_example :
    (rows : List EntryRow) × ((accept server principal one_line call).0.db.entries ≡ [] ++ rows)
    × All (λ row. row.project_id ≡ project_1) rows
accept_isolated_example = accept_isolated server principal one_line call

project_1-valid : valid_uuid project_1 ≡ true
unfolding valid_uuid
project_1-valid = refl

prepared : prepare principal one_line ≡ ok one_line
unfolding prepare require require_agent valid_uuid validate_batch valid_principal valid_scope
    contains bytes_beq validate_for_batch is_blank
prepared = refl

abbrev admitted_limiter : Limiter
admitted_limiter = (allow_ingest limiter 7 false project_1 project_1 (pos 1) (pos 20)).0

abbrev reservation : Reservation
reservation = record {
  project_id = project_1;
  entry_cost = 60000000000;
  byte_cost = 1200000000000;
  done = false;
}

admission :
    allow_ingest limiter 7 false project_1 project_1 (pos 1) (pos 20)
    ≡ (admitted_limiter, ok reservation)
unfolding allow_ingest valid_uuid cleanup admit with_key with_project charge_key charge_project
    refill lookup retain full_bucket
admission = refl

settled_once_example :
    (accept server principal one_line call).0.limiter
    ≡ some
        (finish admitted_limiter 10 reservation
          (not (was_accepted (within_tx no_faults committed tables one_line 9).1))).0
settled_once_example =
    settled_once server principal one_line one_line call limiter admitted_limiter reservation
      prepared refl admission
