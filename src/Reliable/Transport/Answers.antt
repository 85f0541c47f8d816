-- ===== src/Reliable/Transport/Answers.antt =====
-- What a class of result says of the server's answer.
use gline.Base.{
  ℕ, ◌≡◌, inl, inr, refl, Bool, true, false, Option, none, some, Bytes, bytes_eq, bytes_beq_iff,
  arith, Option-cases, Bool-cases,
}
use gline.Reliable.Transport.{
  ResultClass, accepted, duplicate, Acknowledgement, Decoder, Response, no_request, no_response,
  unreadable, response, failure_class, acknowledged_class, response_class, send_result, send,
  is_success, failure_code,
}

-- Whether the spool forgets the batch.
abbrev pub delivered : ResultClass → Bool
delivered accepted = true
delivered duplicate = true
delivered _ = false

-- A response of success whose body acknowledges this very batch.
pub record IsAcknowledged (d : Decoder) (payload : Bytes) (r : Response) : Type 0 where
  pub id : Bytes
  pub carried : d.batch_id_of payload ≡ some id
  pub status : ℕ
  pub retry_after : ℕ
  pub body : Bytes
  pub answer : r ≡ response status retry_after body
  pub successful : is_success status ≡ true
  pub acknowledgement : Acknowledgement
  pub decoded : d.acknowledgement_of body ≡ some acknowledgement
  pub names_batch : acknowledgement.batch_id ≡ id

failure_not_delivered : (status : ℕ) (code : Bytes) → delivered (failure_class status code) ≡ false
unfolding failure_class
failure_not_delivered status code = ground arith

acknowledged_names :
    (id : Bytes) (m : Option Acknowledgement)
    → delivered (acknowledged_class id m).0 ≡ true
    → (a : Acknowledgement) × (m ≡ some a) × (a.batch_id ≡ id)
unfolding acknowledged_class
acknowledged_names id none h = absurd (ground arith)
acknowledged_names id (some a) h = (a, refl, ground (arith, bytes_beq_iff a.batch_id id))

response_names :
    (d : Decoder) (id : Bytes) (status : ℕ) (body : Bytes)
    → delivered (response_class d id status body).0 ≡ true
    → (is_success status ≡ true)
      × ((a : Acknowledgement) × (d.acknowledgement_of body ≡ some a) × (a.batch_id ≡ id))
unfolding response_class
response_names d id status body h = elim (Bool-cases (is_success status)) [
  | inl success ↦
      (success, acknowledged_names id (d.acknowledgement_of body) (ground (arith, success)))
  | inr failed ↦
      absurd
        (ground (arith, failed, failure_not_delivered status (failure_code (d.failure_of body))))
]

send_result_names :
    (d : Decoder) (payload id : Bytes) (r : Response)
    → d.batch_id_of payload ≡ some id
    → delivered (send_result d id r).class ≡ true
    → IsAcknowledged d payload r
unfolding send_result
send_result_names d payload id no_request e h = absurd (ground arith)
send_result_names d payload id no_response e h = absurd (ground arith)
send_result_names d payload id (unreadable status) e h = absurd (ground arith)
send_result_names d payload id (response status retry_after body) e h =
    let (success, (a, decoded, names)) = response_names d id status body h in
    record {
      id = id;
      carried = e;
      status = status;
      retry_after = retry_after;
      body = body;
      answer = refl;
      successful = success;
      acknowledgement = a;
      decoded = decoded;
      names_batch = names;
    }

-- A batch counts as delivered only on a response of success whose body decodes to an
-- acknowledgement that names the batch that the payload carries.
pub send-IsAcknowledged :
    (d : Decoder) (payload : Bytes) (r : Response)
    → delivered (send d payload r).class ≡ true
    → IsAcknowledged d payload r
unfolding send
send-IsAcknowledged d payload r h = elim (Option-cases (d.batch_id_of payload)) [
  | inl nothing ↦ absurd (ground (arith, nothing))
  | inr (id, e) ↦ send_result_names d payload id r e (ground (arith, e))
]
