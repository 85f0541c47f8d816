-- ===== src/Reliable/Transport.antt =====
-- internal/agent/reliable/transport.go: what HTTPTransport.Send makes of a response. The decoding of
-- JSON and of the Retry-After header's date are arguments of what is modelled.
pub mod Answers
use gline.Base.{
  ℕ, ◌*◌, ◌-◌, ◌^◌, ℤ, above, to_nat, Bool, true, false, not, ◌&&◌, ◌||◌, Option, none, some, Bytes,
  codes, List, [], ◌∷◌, bytes_eq, ◌==◌, ltb, leb, nat_beq, is_blank, trim_space, if◌then◌else◌,
}

-- ResultClass: a byte with six names; zero is what a transport that sets nothing leaves.
pub data ResultClass : Type 0 where
  unset accepted duplicate retryable quarantine terminal blocked : ResultClass
  unknown : ℕ → ResultClass

pub record SendResult : Type 0 where
  pub class : ResultClass
  pub status_code : ℕ
  pub retry_after : ℕ
  pub code : Bytes

pub record Acknowledgement : Type 0 where
  pub batch_id : Bytes
  pub status : Bytes

-- The fields of the body of a failure.
pub record Failure : Type 0 where
  pub nested_code : Bytes
  pub code : Bytes

-- What the decoder reads from bytes: nothing where they are not JSON of the fields' types.
pub record Decoder : Type 0 where
  pub batch_id_of : Bytes → Option Bytes
  pub acknowledgement_of : Bytes → Option Acknowledgement
  pub failure_of : Bytes → Failure

-- What the HTTP client gives: no request, no response, or a response whose body may not be readable.
pub data Response : Type 0 where
  no_request no_response : Response
  unreadable : ℕ → Response
  response : ℕ → ℕ → Bytes → Response

-- The duration that parseRetryAfter gives: `seconds` is what Atoi reads, `when` what ParseTime reads. The
-- source's product is an int64, which holds it below 2^63 / 10^9 seconds, some 292 years; behind that
-- it wraps there and does not here.
unfoldable pub parse_retry_after : (Bytes → Option ℤ) → (Bytes → Option ℕ) → Bytes → ℕ → ℕ
parse_retry_after seconds when value now =
    let v = trim_space value in
    if v == [] then 0 else elim (seconds v) [
      | some n ↦ if above n 0 then to_nat n * 10 ^ 9 else 0
      | none ↦ elim (when v) [ none ↦ 0 | some t ↦ if ltb now t then t - now else 0 ]
    ]

pub is_success : ℕ → Bool
is_success status = leb 200 status && ltb status 300

is_transient : ℕ → Bool
is_transient status = nat_beq status 408 || nat_beq status 429 || leb 500 status

describes_batch : ℕ → Bool
describes_batch status =
    nat_beq status 400 || nat_beq status 409 || nat_beq status 413 || nat_beq status 422

-- The switch on the status of a failure.
unfoldable pub failure_class : ℕ → Bytes → ResultClass
unfolding is_transient describes_batch
failure_class status code =
    if is_transient status
    then retryable
    else if nat_beq status 409 && code == codes "resource_unavailable"
    then blocked
    else if describes_batch status
    then quarantine
    else terminal

pub failure_code : Failure → Bytes
failure_code f = if f.nested_code == [] then f.code else f.nested_code

unfoldable pub acknowledged_class : Bytes → Option Acknowledgement → ResultClass × Bytes
acknowledged_class id none = (retryable, codes "invalid_ack")
acknowledged_class id (some a) =
    if not (a.batch_id == id)
    then (retryable, codes "invalid_ack_batch_id")
    else if a.status == codes "accepted"
    then (accepted, [])
    else if a.status == codes "duplicate"
    then (duplicate, [])
    else (retryable, codes "invalid_ack_status")

unfoldable pub response_class : Decoder → Bytes → ℕ → Bytes → ResultClass × Bytes
unfolding is_success failure_code acknowledged_class
response_class d id status body =
    if is_success status
    then acknowledged_class id (d.acknowledgement_of body)
    else (let code = failure_code (d.failure_of body) in (failure_class status code, code))

unfoldable pub send_result : Decoder → Bytes → Response → SendResult
unfolding response_class
send_result d id no_request = record { class = unset; status_code = 0; retry_after = 0; code = [] }
send_result d id no_response = record {
  class = retryable;
  status_code = 0;
  retry_after = 0;
  code = [];
}
send_result d id (unreadable status) = record {
  class = retryable;
  status_code = status;
  retry_after = 0;
  code = [];
}
send_result d id (response status retry_after body) =
    let (class, code) = response_class d id status body in
    record { class = class; status_code = status; retry_after = retry_after; code = code }

abbrev pub invalid_batch : SendResult
invalid_batch = record {
  class = terminal;
  status_code = 0;
  retry_after = 0;
  code = codes "invalid_outbound_batch";
}

-- Send, for the response that its request gets.
unfoldable pub send : Decoder → Bytes → Response → SendResult
unfolding send_result
send d payload r = elim (d.batch_id_of payload) [
  | none ↦ invalid_batch
  | some id ↦ if is_blank id then invalid_batch else send_result d id r
]
