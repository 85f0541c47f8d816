-- ===== src/Domain/Models.antt =====
-- internal/domain/models.go: the records that ingestion reads, and their Validate methods.
use gline.Base.{
  ℕ, suc, ℤ, pos, Bool, true, false, not, ◌&&◌, ◌||◌, Option, none, some, Bytes, List, [], ◌∷◌,
  length, contains, bytes_eq, int_eq, ◌==◌, ltb, nat_beq, below, above, is_blank, Result, ok, err,
  ◌>>◌, reject_if,
}
use gline.Domain.Ids.{Ident, valid_uuid}
use gline.Domain.Status.{
  ProjectStatus, KeyStatus, AgentStatus, PipelineStatus, BatchStatus, Scope, valid_key_status,
  valid_scope,
}

-- Nanoseconds since Go's zero time.
abbrev pub Time : Type 0
Time = ℕ

pub data DomainError : Type 0 where
  invalid project_disabled scope_denied idempotency_conflict : DomainError

pub record Project : Type 0 where
  pub id : Ident
  pub status : ProjectStatus

-- CanIngest
unfoldable pub can_ingest : Project → Result DomainError (Unit {0})
can_ingest p = elim p.status [ ProjectStatus.active ↦ ok tt | _ ↦ err project_disabled ]

-- CanQuery
abbrev pub can_query : Project → Result DomainError (Unit {0})
can_query p = can_ingest p

pub record ApiKey : Type 0 where
  pub id : Ident
  pub project_id : Ident
  pub agent_id : Option Ident
  pub name : Bytes
  pub prefix : Bytes
  pub secret_hash : Bytes
  pub scopes : List Scope
  pub status : KeyStatus
  pub expires_at : Option Time
  pub revoked_at : Option Time

-- HasScope
unfoldable pub has_scope : ApiKey → Scope → Bool
unfolding contains
has_scope k want = contains want k.scopes

-- UsableAt
unfoldable pub usable_at : ApiKey → Time → Bool
usable_at k now = elim k.status [
  | KeyStatus.active ↦ elim k.expires_at [ none ↦ true | some t ↦ ltb now t ]
  | _ ↦ false
]

invalid_optional : Option Ident → Bool
invalid_optional none = false
invalid_optional (some id) = not (valid_uuid id)

is_set : Option Time → Bool
is_set none = false
is_set (some t) = true

is_revoked : KeyStatus → Bool
is_revoked KeyStatus.revoked = true
is_revoked _ = false

is_expired : KeyStatus → Bool
is_expired KeyStatus.expired = true
is_expired _ = false

differ : Bool → Bool → Bool
differ true b = not b
differ false b = b

-- The loop over the scopes, with those already seen.
scopes_valid : List Scope → List Scope → Bool
scopes_valid seen [] = true
scopes_valid seen (s ∷ ss) = valid_scope s && not (contains s seen) && scopes_valid (s ∷ seen) ss

-- APIKey.Validate
unfoldable pub validate_key : ApiKey → Result DomainError (Unit {0})
unfolding invalid_optional is_set is_revoked is_expired differ scopes_valid contains
validate_key k = do
  reject_if
      (not (valid_uuid k.id)
        || not (valid_uuid k.project_id)
        || is_blank k.prefix
        || nat_beq (length k.secret_hash) 0
        || not (valid_key_status k.status))
      invalid
  reject_if (invalid_optional k.agent_id) invalid
  reject_if (ltb 128 (length k.name)) invalid
  reject_if (nat_beq (length k.scopes) 0) invalid
  reject_if (differ (is_revoked k.status) (is_set k.revoked_at)) invalid
  reject_if (is_expired k.status && not (is_set k.expires_at)) invalid
  reject_if (not (scopes_valid [] k.scopes)) invalid

pub record Agent : Type 0 where
  pub id : Ident
  pub project_id : Ident
  pub status : AgentStatus

pub record Pipeline : Type 0 where
  pub id : Ident
  pub project_id : Ident
  pub agent_id : Ident
  pub status : PipelineStatus

-- `attributes` is the encoded object, which ingestion passes on without looking into it.
pub record Entry : Type 0 where
  pub project_id : Ident
  pub batch_id : Ident
  pub agent_id : Ident
  pub pipeline_id : Ident
  pub batch_sequence : ℤ
  pub service : Bytes
  pub host : Bytes
  pub level : Bytes
  pub message : Bytes
  pub observed_at : Time
  pub attributes : Bytes

pub record Batch : Type 0 where
  pub id : Ident
  pub project_id : Ident
  pub agent_id : Ident
  pub pipeline_id : Ident
  pub sequence : ℤ
  pub payload_hash : Bytes
  pub payload_bytes : ℤ
  pub entries : List Entry
  pub created_at : Time

-- An identifier of an entry is empty or the batch's.
set_and_differs : Ident → Ident → Bool
set_and_differs given wanted = not (given == []) && not (given == wanted)

-- Entry.ValidateForBatch
unfoldable pub validate_for_batch : Entry → Batch → Result DomainError (Unit {0})
unfolding set_and_differs
validate_for_batch e b = do
  reject_if (set_and_differs e.project_id b.project_id) invalid
  reject_if (set_and_differs e.batch_id b.id) invalid
  reject_if (set_and_differs e.agent_id b.agent_id) invalid
  reject_if (set_and_differs e.pipeline_id b.pipeline_id) invalid
  reject_if
      (below e.batch_sequence 0
        || is_blank e.service
        || is_blank e.host
        || is_blank e.level
        || nat_beq e.observed_at 0)
      invalid

-- The loop of Batch.Validate, from position `i`.
validate_entries : Batch → ℕ → List Entry → Result DomainError (Unit {0})
validate_entries b i [] = ok tt
validate_entries b i (e ∷ es) = do
  reject_if (not (e.batch_sequence == pos i)) invalid
  validate_for_batch e b
  validate_entries b (suc i) es

-- Batch.Validate
unfoldable pub validate_batch : Batch → Result DomainError (Unit {0})
unfolding validate_entries
validate_batch b = do
  reject_if
      (not (valid_uuid b.id)
        || not (valid_uuid b.project_id)
        || not (valid_uuid b.agent_id)
        || not (valid_uuid b.pipeline_id)
        || below b.sequence 0
        || not (above b.payload_bytes 0)
        || nat_beq b.created_at 0)
      invalid
  reject_if (nat_beq (length b.entries) 0) invalid
  validate_entries b 0 b.entries

pub record StoredBatch : Type 0 where
  pub id : Ident
  pub project_id : Ident
  pub agent_id : Ident
  pub pipeline_id : Ident
  pub sequence : ℤ
  pub payload_hash : Bytes
  pub entry_count : ℕ
  pub payload_bytes : ℤ
  pub status : BatchStatus
  pub created_at : Time
  pub committed_at : Option Time

is_committed : BatchStatus → Bool
is_committed BatchStatus.committed = true
is_committed _ = false

-- StoredBatch.VerifyRetry
unfoldable pub verify_retry : StoredBatch → Batch → Result DomainError (Unit {0})
unfolding is_committed
verify_retry b candidate = do
  reject_if
      (not (b.project_id == candidate.project_id)
        || not (b.id == candidate.id)
        || not (is_committed b.status))
      invalid
  reject_if (not (b.payload_hash == candidate.payload_hash)) idempotency_conflict
