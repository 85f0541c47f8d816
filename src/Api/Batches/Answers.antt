-- ===== src/Api/Batches/Answers.antt =====
-- What stands behind an answer of success to a batch.
use gline.Base.{
  ℕ, ◌≡◌, sym, ap, ◌∙◌, none, some, pos, false, List, ◌++◌, map, Result, ok, err, >>=-eq-ok, ok_inj,
  map_err, map_err-ok, arith, Result-cases, Bool-cases, inl, inr,
}
use gline.Domain.Models.{Batch}
use gline.Storage.{Db, entry_row, lookup_batch}
use gline.Auth.{Principal}
use gline.Admission.Limiter.{Limiter, AdmissionError, Reservation}
use gline.Ingest.Transaction.{Receipt, IngestError, within_tx}
use gline.Ingest.Transaction.Retries.{Attempt, deliver_all, answered_exactly_once}
use gline.Ingest.Service.{
  Server, Call, AcceptError, accept, prepare, stamp_entries, admit_and_run, with_reservation,
  run_tx,
}
use gline.Protocol.Validator.{Limits}
use gline.Protocol.Batches.{ProtocolLib, Body, BatchRequest, decode_body}
use gline.Protocol.Batches.Normalized.{IsNormalized, normalize-IsNormalized, stamp_entries-normal}
use gline.Api.Errors.{ApiError}
use gline.Api.Access.{Session}
use gline.Api.Batches.{read_batch, ingest_batch}

pair-ok :
    (x : Db × Result IngestError Receipt) (db : Db) (r : Receipt)
    → x.0 ≡ db
    → ◌≡◌ {A = Result AcceptError Receipt} (map_err AcceptError.ingest x.1) (ok r)
    → x ≡ (db, ok r)
pair-ok (d, t) db r e h = ground (arith, e, map_err-ok AcceptError.ingest t h)

reserved-ok :
    (db : Db) (b : Batch) (call : Call) (q : Limiter × Result AdmissionError Reservation)
    (s' : Server) (r : Receipt)
    → with_reservation db b call q ≡ (s', ok r)
    → within_tx call.faults call.io db b call.committed_at ≡ (s'.db, ok r)
unfolding with_reservation
reserved-ok db b call (l, err e) s' r h = absurd (ground (arith, h))
reserved-ok db b call (l, ok reservation) s' r h =
    pair-ok (within_tx call.faults call.io db b call.committed_at) s'.db r (ap (λ x. x.0.db) h)
      (ap (λ x. x.1) h)

admitted-ok :
    (s : Server) (p : Principal) (b : Batch) (call : Call) (s' : Server) (r : Receipt)
    → admit_and_run s p b call ≡ (s', ok r)
    → within_tx call.faults call.io s.db b call.committed_at ≡ (s'.db, ok r)
unfolding admit_and_run run_tx
admitted-ok s p b call s' r =
    elim s.limiter
      as (λ limiter.
        admit_and_run (record s { limiter = limiter }) p b call ≡ (s', ok r)
        → within_tx call.faults call.io s.db b call.committed_at ≡ (s'.db, ok r)) [
          | none ↦ λ h.
              pair-ok (within_tx call.faults call.io s.db b call.committed_at) s'.db r
                (ap (λ x. x.0.db) h) (ap (λ x. x.1) h)
          | some l ↦ λ h. reserved-ok s.db b call _ s' r h
        ]

accept-ok :
    (s : Server) (p : Principal) (candidate : Batch) (call : Call) (s' : Server) (r : Receipt)
    → accept s p candidate call ≡ (s', ok r)
    → (b : Batch) × (prepare p candidate ≡ ok b)
      × (within_tx call.faults call.io s.db b call.committed_at ≡ (s'.db, ok r))
unfolding accept
accept-ok s p candidate call s' r h = elim (Result-cases (prepare p candidate)) [
  | inl (b, prepared) ↦ (b, prepared, admitted-ok s p b call s' r (ground (arith, prepared, h)))
  | inr (e, failed) ↦ absurd (ground (arith, failed, h))
]

-- A batch of the principal's own that is stamped already is not changed by Accept's checks.
prepared_same :
    (p : Principal) (candidate b : Batch)
    → candidate.project_id ≡ p.project_id
    → stamp_entries p.project_id candidate.entries ≡ ok candidate.entries
    → prepare p candidate ≡ ok b
    → b ≡ candidate
unfolding prepare
prepared_same p candidate b own stamped h =
    let e : ◌≡◌ {A = Batch} (record candidate { project_id = p.project_id }) b =
      ground (arith, stamped, h) in
    sym e ∙ ap (λ i. record candidate { project_id = i }) (sym own)

mapped-ok :
    (x : Server × Result AcceptError Receipt) (s' : Server) (r : Receipt)
    → x.0 ≡ s'
    → ◌≡◌ {A = Result ApiError Receipt} (map_err ApiError.accept x.1) (ok r)
    → x ≡ (s', ok r)
mapped-ok (s, t) s' r e h = ground (arith, e, map_err-ok ApiError.accept t h)

module _ (lib : ProtocolLib) (limits : Limits) where
  read_batch-IsNormalized :
      (session : Session) (body : Body) (b : Batch)
      → read_batch lib limits session body ≡ ok b
      → (request : BatchRequest) × (payload_bytes : ℕ) × (decode_body lib body limits.max_body_bytes
          ≡ ok (request, payload_bytes))
        × IsNormalized lib request session.principal.project_id (pos payload_bytes) limits b
  unfolding read_batch
  read_batch-IsNormalized session body b h =
      let ((request, size), decoded, rest) =
        >>=-eq-ok (decode_body lib body limits.max_body_bytes) _ h in
      (
        request,
        size,
        decoded,
        normalize-IsNormalized lib request session.principal.project_id (pos size) limits b rest,
      )

  ingest_batch-ok :
      (s s' : Server) (session : Session) (body : Body) (call : Call) (r : Receipt)
      → ingest_batch lib limits s session body call ≡ (s', ok r)
      → (session.bootstrap ≡ false)
        × ((b : Batch) × (read_batch lib limits session body ≡ ok b)
            × (accept s session.principal b call ≡ (s', ok r)))
  unfolding ingest_batch
  ingest_batch-ok s s' session body call r h = elim (Bool-cases session.bootstrap) [
    | inl boot ↦ absurd (ground (arith, boot, h))
    | inr key ↦ elim (Result-cases (read_batch lib limits session body)) [
      | inr (e, failed) ↦ absurd (ground (arith, key, failed, h))
      | inl (b, there) ↦ (
        key,
        (
          b,
          there,
          mapped-ok (accept s session.principal b call) s' r
              (ground (arith, ap (λ x. x.0) h, key, there))
              (ground (arith, ap (λ x. x.1) h, key, there)),
        ),
      )
    ]
  ]

  -- A body holds a batch for the project of a session, which was unknown at first and was delivered any
  -- number of times, with any failures and lost answers. If the handler then answers the body with
  -- success, the session is not the bootstrap one, and the table of entries is that of the start with
  -- the entries of the batch added exactly once.
  pub ingest_batch_stores_once :
      (s s' : Server) (session : Session) (body : Body) (call : Call) (r : Receipt) (b : Batch)
      (start : Db) (tries : List Attempt)
      → ingest_batch lib limits s session body call ≡ (s', ok r)
      → read_batch lib limits session body ≡ ok b
      → s.db ≡ deliver_all b tries start
      → lookup_batch start b.project_id b.id ≡ none
      → (session.bootstrap ≡ false) × (s'.db.entries ≡ start.entries ++ map (entry_row b) b.entries)
  ingest_batch_stores_once s s' session body call r b start tries h holds before absent =
      let (key, (c, holds', done)) = ingest_batch-ok s s' session body call r h in
      let same : c ≡ b = ok_inj (sym holds' ∙ holds) in
      let (q, prepared, ran) = accept-ok s session.principal c call s' r done in
      let (request, size, decoded, n) = read_batch-IsNormalized session body c holds' in
      let stamped =
        ap (λ x. stamp_entries session.principal.project_id x.entries) n.batch
        ∙ stamp_entries-normal lib session.principal.project_id request 0 request.entries
        ∙ ap (λ x. ok x.entries) (sym n.batch) in
      let same' =
        prepared_same session.principal c q (ap (λ x. x.project_id) n.batch) stamped prepared
        ∙ same in
      let attempt : Attempt = record {
        faults = call.faults;
        io = call.io;
        at = call.committed_at;
      } in
      (
        key,
        answered_exactly_once b tries attempt start s'.db r absent (
            ap (λ d. within_tx call.faults call.io d b call.committed_at) (sym before)
            ∙ ap (λ x. within_tx call.faults call.io s.db x call.committed_at) (sym same')
            ∙ ran),
      )
