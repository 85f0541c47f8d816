-- ===== src/Domain/Status.antt =====
-- internal/domain/status.go: statuses are texts; `other` stands for a text that is none of the named.
use gline.Base.{Bool, true, false, Bytes, List, [], ◌∷◌, codes, contains, bytes_eq}

pub data ProjectStatus : Type 0 where
  active disabled : ProjectStatus
  other : Bytes → ProjectStatus

unfoldable pub valid_project_status : ProjectStatus → Bool
valid_project_status (other s) = false
valid_project_status _ = true

pub data KeyStatus : Type 0 where
  active revoked expired : KeyStatus
  other : Bytes → KeyStatus

unfoldable pub valid_key_status : KeyStatus → Bool
valid_key_status (other s) = false
valid_key_status _ = true

pub data AgentStatus : Type 0 where
  active stale disabled : AgentStatus
  other : Bytes → AgentStatus

unfoldable pub valid_agent_status : AgentStatus → Bool
valid_agent_status (other s) = false
valid_agent_status _ = true

pub data PipelineStatus : Type 0 where
  enabled paused errored disabled : PipelineStatus
  other : Bytes → PipelineStatus

unfoldable pub valid_pipeline_status : PipelineStatus → Bool
valid_pipeline_status (other s) = false
valid_pipeline_status _ = true

pub data BatchStatus : Type 0 where
  committed rejected quarantined : BatchStatus
  other : Bytes → BatchStatus

unfoldable pub valid_batch_status : BatchStatus → Bool
valid_batch_status (other s) = false
valid_batch_status _ = true

-- A scope is its text.
abbrev pub Scope : Type 0
Scope = Bytes

abbrev pub scope_ingest : Scope
scope_ingest = codes "ingest"

abbrev pub scope_query : Scope
scope_query = codes "query"

abbrev pub scopes : List Scope
scopes =
    scope_ingest
    ∷ codes "query"
    ∷ codes "project:read"
    ∷ codes "project:write"
    ∷ codes "key:manage"
    ∷ codes "agent:read"
    ∷ codes "agent:write"
    ∷ codes "pipeline:read"
    ∷ codes "pipeline:write"
    ∷ codes "quarantine:read"
    ∷ codes "quarantine:replay"
    ∷ codes "retention:manage"
    ∷ codes "audit:read"
    ∷ []

unfoldable pub valid_scope : Scope → Bool
valid_scope s = contains s scopes
