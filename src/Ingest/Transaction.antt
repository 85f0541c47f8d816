-- ===== src/Ingest/Transaction.antt =====
-- The callback that Accept runs within a transaction, and the runner.
pub mod Outcomes
pub mod Retries
use gline.Base.{
  ℕ, Bool, true, false, not, ◌||◌, Option, none, some, List, [], ◌∷◌, length, bytes_eq, ◌==◌,
  Result, ok, err, ◌>>=◌, ◌>>◌, reject_if, map_err, if◌then◌else◌, to_nat,
}
use gline.Domain.Ids.{Ident}
use gline.Domain.Status.{AgentStatus, PipelineStatus}
use gline.Domain.Models.{
  Time, DomainError, invalid, Project, Batch, StoredBatch, can_ingest, verify_retry,
}
use gline.Storage.{
  Db, StoreError, Faults, select_project, select_agent, select_pipeline, insert_batch_row,
  select_batch, insert_entry_rows, add_usage_row,
}

pub data Status : Type 0 where
  accepted duplicate : Status

-- service.Result
pub record Receipt : Type 0 where
  pub batch_id : Ident
  pub status : Status
  pub accepted_entries : ℕ

pub data IngestError : Type 0 where
  store : StoreError → IngestError
  domain : DomainError → IngestError
  agent_disabled pipeline_unavailable : IngestError
  commit_failed : IngestError

is_disabled : AgentStatus → Bool
is_disabled AgentStatus.disabled = true
is_disabled _ = false

-- A paused pipeline still drains what is already durable at the agent.
takes_batches : PipelineStatus → Bool
takes_batches PipelineStatus.enabled = true
takes_batches PipelineStatus.paused = true
takes_batches _ = false

-- The checks of the project, the agent and the pipeline.
unfoldable pub check_target : Faults → Db → Batch → Result IngestError (Unit {0})
unfolding is_disabled takes_batches
check_target faults db b = do
  project ← map_err store (select_project faults db b.project_id)
  map_err domain (can_ingest project)
  agent ← map_err store (select_agent faults db b.project_id b.agent_id)
  reject_if (is_disabled agent.status) agent_disabled
  pipeline ← map_err store (select_pipeline faults db b.project_id b.pipeline_id)
  reject_if (not (pipeline.agent_id == b.agent_id)) (domain invalid)
  reject_if (not (takes_batches pipeline.status)) pipeline_unavailable

-- The batch lost the race for its key: it is the same batch again, or a conflict.
unfoldable pub answer_retry : Faults → Db → Batch → Result IngestError (Db × Receipt)
answer_retry faults db b = do
  stored ← map_err store (select_batch faults db b.project_id b.id)
  map_err domain (verify_retry stored b)
  ok (db, record { batch_id = b.id; status = duplicate; accepted_entries = stored.entry_count })

-- The batch is new: its entries and its usage follow.
unfoldable pub write_batch : Faults → Db → Batch → Time → Result IngestError (Db × Receipt)
write_batch faults db b committed_at = do
  with_entries ← map_err store (insert_entry_rows faults db b)
  with_usage ← map_err store (
      add_usage_row faults with_entries b.project_id committed_at (length b.entries)
        (to_nat b.payload_bytes) 0)
  ok (
    with_usage,
    record { batch_id = b.id; status = accepted; accepted_entries = length b.entries },
  )

after_insert : Faults → Batch → Time → Db × Bool → Result IngestError (Db × Receipt)
after_insert faults b committed_at (db, true) = write_batch faults db b committed_at
after_insert faults b committed_at (db, false) = answer_retry faults db b

-- The callback, for a batch that carries the principal's project.
unfoldable pub ingest_tx : Faults → Db → Batch → Time → Result IngestError (Db × Receipt)
unfolding after_insert
ingest_tx faults db b committed_at = do
  check_target faults db b
  inserted ← map_err store (insert_batch_row faults db b committed_at)
  after_insert faults b committed_at inserted

-- How a commit ends: it can also be applied and its answer lost.
pub data CommitIo : Type 0 where
  committed refused answer_lost : CommitIo

unfoldable pub end_tx :
    Db → CommitIo → Result IngestError (Db × Receipt) → Db × Result IngestError Receipt
end_tx db io (err e) = (db, err e)
end_tx db committed (ok (db', r)) = (db', ok r)
end_tx db refused (ok (db', r)) = (db, err commit_failed)
end_tx db answer_lost (ok (db', r)) = (db', err commit_failed)

-- WithinTx: an error rolls back.
unfoldable pub within_tx : Faults → CommitIo → Db → Batch → Time → Db × Result IngestError Receipt
unfolding end_tx
within_tx faults io db b committed_at = end_tx db io (ingest_tx faults db b committed_at)
