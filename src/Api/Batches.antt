-- ===== src/Api/Batches.antt =====
-- ingestBatch of internal/server/httpapi/handlers.go: a body becomes a request, a batch, and a receipt.
pub mod Answers
use gline.Base.{ℤ, pos, Bool, true, false, Result, ok, err, ◌>>=◌, map_err, if◌then◌else◌}
use gline.Domain.Models.{Batch}
use gline.Ingest.Transaction.{Receipt}
use gline.Ingest.Service.{Server, Call, AcceptError, accept}
use gline.Protocol.Validator.{Limits}
use gline.Protocol.Batches.{ProtocolLib, Body, ProtocolError, BatchRequest, decode_body, normalize}
use gline.Api.Errors.{ApiError}
use gline.Api.Access.{Session}

module _ (lib : ProtocolLib) (limits : Limits) where
  -- Decode and Normalize for the project of the session.
  unfoldable pub read_batch : Session → Body → Result ProtocolError Batch
  read_batch session body = do
    (request, payload_bytes) ← decode_body lib body limits.max_body_bytes
    normalize lib request session.principal.project_id (pos payload_bytes) limits

  -- ingestBatch
  unfoldable pub ingest_batch : Server → Session → Body → Call → Server × Result ApiError Receipt
  unfolding read_batch
  ingest_batch s session body call =
      if session.bootstrap then (s, err ApiError.forbidden) else elim (read_batch session body) [
        | err e ↦ (s, err (ApiError.protocol e))
        | ok batch ↦
            (let (s', result) = accept s session.principal batch call in
              (s', map_err ApiError.accept result))
      ]
