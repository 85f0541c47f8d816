-- ===== src/Storage.antt =====
-- internal/storage/postgres, as far as ingestion reaches: the tables as lists of rows, and the
-- repositories' statements as functions on them. A statement that the database refuses is an argument.
-- The columns of identifiers have the type uuid, which compares without regard to the case of letters and
-- answers in lower case. Here identifiers are compared as they are written, so the tables are those of
-- the source where a caller writes an identifier always in the same way, and in lower case.
pub mod Entries
use gline.Base.{
  ℕ, ◌+◌, ◌-◌, ◌%◌, ℤ, Bool, true, false, not, ◌&&◌, ◌||◌, Option, none, some, Bytes, List, [], ◌∷◌,
  ◌++◌, map, length, bytes_eq, ◌==◌, nat_beq, Result, ok, ◌>>=◌, ◌>>◌, reject_if, or_fail, map_err,
  if◌then◌else◌,
}
use gline.Domain.Ids.{Ident, valid_uuid}
use gline.Domain.Status.{BatchStatus, valid_batch_status}
use gline.Domain.Models.{
  Time, DomainError, invalid, Project, Agent, Pipeline, Entry, Batch, StoredBatch, validate_batch,
}

-- A row of log_entries.
pub record EntryRow : Type 0 where
  pub project_id : Ident
  pub batch_id : Ident
  pub batch_sequence : ℤ
  pub agent_id : Ident
  pub pipeline_id : Ident
  pub service : Bytes
  pub host : Bytes
  pub level : Bytes
  pub message : Bytes
  pub observed_at : Time
  pub attributes : Bytes

pub record UsageBucket : Type 0 where
  pub project_id : Ident
  pub bucket_start : Time
  pub entries : ℕ
  pub bytes : ℕ
  pub failed_batches : ℕ

pub record Db : Type 0 where
  pub projects : List Project
  pub agents : List Agent
  pub pipelines : List Pipeline
  pub batches : List StoredBatch
  pub entries : List EntryRow
  pub usage : List UsageBucket

pub data StoreError : Type 0 where
  domain : DomainError → StoreError
  not_found corrupt_row statement_failed : StoreError

-- The statements of an ingestion.
pub data Statement : Type 0 where
  get_project get_agent get_pipeline insert_batch find_batch insert_entries add_usage : Statement

-- Which statements the database fails.
abbrev pub Faults : Type 0
Faults = Statement → Bool

unfoldable pub find {ℓ} : {A : Type ℓ} → (A → Bool) → List A → Option A
find p [] = none
find p (x ∷ xs) = if p x then some x else find p xs

abbrev run_statement : Faults → Statement → Result StoreError (Unit {0})
run_statement faults s = reject_if (faults s) statement_failed

-- ProjectRepository.Get
unfoldable pub select_project : Faults → Db → Ident → Result StoreError Project
unfolding find
select_project faults db id = do
  reject_if (not (valid_uuid id)) (domain invalid)
  run_statement faults get_project
  or_fail (find (λ p. p.id == id) db.projects) not_found

-- AgentRepository.Get
unfoldable pub select_agent : Faults → Db → Ident → Ident → Result StoreError Agent
unfolding find
select_agent faults db project id = do
  run_statement faults get_agent
  or_fail (find (λ a. a.project_id == project && a.id == id) db.agents) not_found

-- PipelineRepository.Get
unfoldable pub select_pipeline : Faults → Db → Ident → Ident → Result StoreError Pipeline
unfolding find
select_pipeline faults db project id = do
  run_statement faults get_pipeline
  or_fail (find (λ p. p.project_id == project && p.id == id) db.pipelines) not_found

abbrev pub lookup_batch : Db → Ident → Ident → Option StoredBatch
lookup_batch db project id = find (λ b. b.project_id == project && b.id == id) db.batches

-- The row that InsertBatch writes.
abbrev pub batch_row : Batch → Time → StoredBatch
batch_row b committed_at = record {
  id = b.id;
  project_id = b.project_id;
  agent_id = b.agent_id;
  pipeline_id = b.pipeline_id;
  sequence = b.sequence;
  payload_hash = b.payload_hash;
  entry_count = length b.entries;
  payload_bytes = b.payload_bytes;
  status = BatchStatus.committed;
  created_at = b.created_at;
  committed_at = some committed_at;
}

-- IngestRepository.InsertBatch: the row is written unless its key is taken.
unfoldable pub insert_batch_row : Faults → Db → Batch → Time → Result StoreError (Db × Bool)
insert_batch_row faults db b committed_at = do
  map_err domain (validate_batch b)
  reject_if (nat_beq committed_at 0) (domain invalid)
  run_statement faults insert_batch
  ok (elim (lookup_batch db b.project_id b.id) [
    | some stored ↦ (db, false)
    | none ↦ (record db { batches = batch_row b committed_at ∷ db.batches }, true)
  ])

is_unset : Option Time → Bool
is_unset none = true
is_unset (some t) = false

is_committed : BatchStatus → Bool
is_committed BatchStatus.committed = true
is_committed _ = false

-- scanStoredBatch's checks
abbrev pub is_corrupt : StoredBatch → Bool
unfolding is_unset is_committed
is_corrupt b =
    not (nat_beq (length b.payload_hash) 32)
    || not (valid_batch_status b.status)
    || is_committed b.status && is_unset b.committed_at

-- IngestRepository.FindBatch
unfoldable pub select_batch : Faults → Db → Ident → Ident → Result StoreError StoredBatch
unfolding is_unset is_committed
select_batch faults db project id = do
  run_statement faults find_batch
  b ← or_fail (lookup_batch db project id) not_found
  reject_if (is_corrupt b) corrupt_row
  ok b

-- The row of an entry: the identifiers are the batch's.
abbrev pub entry_row : Batch → Entry → EntryRow
entry_row b e = record {
  project_id = b.project_id;
  batch_id = b.id;
  batch_sequence = e.batch_sequence;
  agent_id = b.agent_id;
  pipeline_id = b.pipeline_id;
  service = e.service;
  host = e.host;
  level = e.level;
  message = e.message;
  observed_at = e.observed_at;
  attributes = e.attributes;
}

-- IngestRepository.InsertEntries
unfoldable pub insert_entry_rows : Faults → Db → Batch → Result StoreError Db
insert_entry_rows faults db b = do
  map_err domain (validate_batch b)
  run_statement faults insert_entries
  ok (record db { entries = db.entries ++ map (entry_row b) b.entries })

abbrev pub minute : ℕ
minute = 60_000_000_000

-- date_trunc('minute', at)
abbrev pub bucket_start_of : Time → Time
bucket_start_of at = at - at % minute

upsert_usage : Ident → Time → ℕ → ℕ → ℕ → List UsageBucket → List UsageBucket
upsert_usage project start entries bytes failed [] =
    record {
      project_id = project;
      bucket_start = start;
      entries = entries;
      bytes = bytes;
      failed_batches = failed;
    }
    ∷ []
upsert_usage project start entries bytes failed (u ∷ us) =
    let rest = upsert_usage project start entries bytes failed us in
    if u.project_id == project && nat_beq u.bucket_start start
    then record u {
      entries = u.entries + entries;
      bytes = u.bytes + bytes;
      failed_batches = u.failed_batches + failed;
    }
      ∷ us
    else u ∷ rest

-- UsageRepository.Add
unfoldable pub add_usage_row : Faults → Db → Ident → Time → ℕ → ℕ → ℕ → Result StoreError Db
unfolding upsert_usage
add_usage_row faults db project at entries bytes failed = do
  reject_if
      (not (valid_uuid project)
        || nat_beq at 0
        || nat_beq entries 0 && nat_beq bytes 0 && nat_beq failed 0)
      (domain invalid)
  run_statement faults add_usage
  ok (record db { usage = upsert_usage project (bucket_start_of at) entries bytes failed db.usage })
