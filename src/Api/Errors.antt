-- ===== src/Api/Errors.antt =====
-- mapError and writeError of internal/server/httpapi/errors.go: the status, the code and the header of
-- the answer to an error. Messages and details are left out. An error is one of those that the handlers
-- modelled here pass on; a failed statement is one that the database did not refuse as a conflict.
pub mod Waiting
use gline.Base.{
  ℕ, ◌+◌, ◌-◌, ◌*◌, ◌/◌, ◌^◌, max, Bool, true, false, Option, none, some, Bytes, codes, format_nat,
}
use gline.Domain.Models.{DomainError}
use gline.Auth.{AuthError}
use gline.Auth.Keys.{CredentialError}
use gline.Storage.{StoreError}
use gline.Admission.Limiter.{AdmissionError}
use gline.Ingest.Transaction.{IngestError}
use gline.Ingest.Service.{AcceptError}
use gline.Query.Cursor.{CursorError}
use gline.Query.Service.{QueryError}
use gline.Protocol.Batches.{ProtocolError}

pub data ApiError : Type 0 where
  unauthorized forbidden : ApiError
  bad_request : Bytes → ApiError
  domain : DomainError → ApiError
  auth : AuthError → ApiError
  credential : CredentialError → ApiError
  protocol : ProtocolError → ApiError
  accept : AcceptError → ApiError
  query : QueryError → ApiError

pub record Mapped : Type 0 where
  pub status : ℕ
  pub code : Bytes

abbrev internal_error : Mapped
internal_error = record { status = 500; code = codes "internal_error" }

abbrev invalid_credential : Mapped
invalid_credential = record { status = 401; code = codes "invalid_credential" }

abbrev invalid_request : Mapped
invalid_request = record { status = 400; code = codes "invalid_request" }

abbrev unavailable : Mapped
unavailable = record { status = 409; code = codes "resource_unavailable" }

abbrev map_domain : DomainError → Mapped
map_domain DomainError.scope_denied = record { status = 403; code = codes "scope_denied" }
map_domain DomainError.idempotency_conflict = record {
  status = 409;
  code = codes "idempotency_conflict";
}
map_domain DomainError.project_disabled = unavailable
map_domain DomainError.invalid = invalid_request

abbrev map_auth : AuthError → Mapped
map_auth (AuthError.domain e) = map_domain e
map_auth AuthError.project_mismatch = record { status = 403; code = codes "tenant_mismatch" }
map_auth AuthError.agent_mismatch = record { status = 403; code = codes "tenant_mismatch" }
map_auth AuthError.invalid_credential = invalid_credential

abbrev map_store : StoreError → Mapped
map_store (StoreError.domain e) = map_domain e
map_store StoreError.not_found = record { status = 404; code = codes "not_found" }
map_store StoreError.corrupt_row = internal_error
map_store StoreError.statement_failed = internal_error

abbrev map_credential : CredentialError → Mapped
map_credential CredentialError.invalid_credential = invalid_credential
map_credential CredentialError.short_pepper = internal_error
map_credential (CredentialError.repository e) = map_store e
map_credential (CredentialError.bad_record e) = map_domain e

abbrev map_protocol : ProtocolError → Mapped
map_protocol ProtocolError.invalid_json = record { status = 400; code = codes "invalid_json" }
map_protocol ProtocolError.trailing_json = record { status = 400; code = codes "invalid_json" }
map_protocol ProtocolError.body_too_large = record { status = 413; code = codes "body_too_large" }
map_protocol ProtocolError.unreadable_body = internal_error
map_protocol ProtocolError.unsupported_version = record {
  status = 422;
  code = codes "unsupported_protocol";
}
map_protocol ProtocolError.bad_entry_count = internal_error
map_protocol (ProtocolError.validation errors) = record {
  status = 422;
  code = codes "invalid_batch";
}
map_protocol (ProtocolError.attributes index e) = internal_error
map_protocol (ProtocolError.domain e) = map_domain e

abbrev map_admission : AdmissionError → Mapped
map_admission AdmissionError.invalid = invalid_request
map_admission AdmissionError.batch_exceeds_capacity = record {
  status = 413;
  code = codes "admission_capacity_exceeded";
}
map_admission (AdmissionError.limited reason retry) = record {
  status = 429;
  code = codes "rate_limited";
}
map_admission AdmissionError.canceled = internal_error
map_admission AdmissionError.not_positive = internal_error
map_admission AdmissionError.over_bounds = internal_error
map_admission AdmissionError.short_ttl = internal_error

abbrev map_ingest : IngestError → Mapped
map_ingest (IngestError.store e) = map_store e
map_ingest (IngestError.domain e) = map_domain e
map_ingest IngestError.agent_disabled = unavailable
map_ingest IngestError.pipeline_unavailable = unavailable
map_ingest IngestError.commit_failed = internal_error

abbrev map_accept : AcceptError → Mapped
map_accept (AcceptError.domain e) = map_domain e
map_accept (AcceptError.auth e) = map_auth e
map_accept (AcceptError.admission e) = map_admission e
map_accept (AcceptError.ingest e) = map_ingest e

abbrev map_cursor : CursorError → Mapped
map_cursor CursorError.invalid_cursor = invalid_request
map_cursor CursorError.short_secret = internal_error
map_cursor CursorError.not_encodable = internal_error

abbrev map_query : QueryError → Mapped
map_query (QueryError.domain e) = map_domain e
map_query QueryError.invalid_time_range = record { status = 400; code = codes "invalid_time_range" }
map_query QueryError.invalid_limit = invalid_request
map_query QueryError.invalid_filter = invalid_request
map_query (QueryError.cursor e) = map_cursor e
map_query (QueryError.store e) = map_store e
map_query QueryError.capacity_limited = record {
  status = 429;
  code = codes "query_capacity_limited";
}
map_query QueryError.execution_timeout = record { status = 504; code = codes "query_timeout" }
map_query QueryError.invalid_config = internal_error
map_query QueryError.no_release = internal_error
map_query QueryError.not_encodable = internal_error

-- mapError
unfoldable pub map_error : ApiError → Mapped
map_error unauthorized = invalid_credential
map_error forbidden = record { status = 403; code = codes "forbidden" }
map_error (bad_request code) = record { status = 400; code = code }
map_error (domain e) = map_domain e
map_error (auth e) = map_auth e
map_error (credential e) = map_credential e
map_error (protocol e) = map_protocol e
map_error (accept e) = map_accept e
map_error (query e) = map_query e

-- A duration in whole seconds, rounded up, at least one. (The source rounds up a float64 of seconds, which
-- may differ once a wait has some months.)
unfoldable pub whole_seconds : ℕ → ℕ
whole_seconds retry = max 1 ((retry + (10 ^ 9 - 1)) / 10 ^ 9)

-- The Retry-After header that writeError sets.
unfoldable pub retry_after_header : ApiError → Option Bytes
unfolding whole_seconds
retry_after_header (accept (AcceptError.admission (AdmissionError.limited reason retry))) =
    some (format_nat (whole_seconds retry))
retry_after_header (query QueryError.capacity_limited) = some (codes "1")
retry_after_header _ = none
