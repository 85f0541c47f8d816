-- ===== src/Api/Errors/Waiting.antt =====
-- What the agent reads from the Retry-After header of a refusal.
use gline.Base.{
  ℕ, ◌+◌, ◌-◌, ◌*◌, ◌^◌, ◌≤◌, ◌<◌, max, ◌≡◌, refl, Option, some, Bytes, [], ◌∷◌, length, format_nat,
  parse_int, parse_int-format_nat, trim_space-format_nat, length-format_nat, bytes_eq, ◌==◌, false,
  bytes_beq, arith,
}
use gline.Admission.Limiter.{Reason, AdmissionError}
use gline.Ingest.Service.{AcceptError}
use gline.Api.Errors.{ApiError, whole_seconds, retry_after_header}
use gline.Reliable.Transport.{parse_retry_after}

filled : (s : Bytes) → 0 < length s → (s == []) ≡ false
unfolding bytes_beq
filled [] h = absurd (omega arith)
filled (c ∷ s) h = refl

-- The answer to a batch that admission refuses for a while carries a header from which the agent reads
-- a wait that is at least the one of the refusal and less than a second longer, or is one second.
pub retry_after_carried :
    (reason : Reason) (retry : ℕ) (when : Bytes → Option ℕ) (now : ℕ)
    → (value : Bytes) × (retry_after_header
          (ApiError.accept (AcceptError.admission (AdmissionError.limited reason retry)))
        ≡ some value)
      × (retry ≤ parse_retry_after parse_int when value now)
      × (parse_retry_after parse_int when value now ≤ max (10 ^ 9) (retry + (10 ^ 9 - 1)))
unfolding retry_after_header parse_retry_after whole_seconds
retry_after_carried reason retry when now =
    let n = whole_seconds retry in
    let same = trim_space-format_nat n in
    let here = filled (format_nat n) (length-format_nat n) in
    let read = parse_int-format_nat n in
    let wait : parse_retry_after parse_int when (format_nat n) now ≡ n * 10 ^ 9 =
      ground (arith, same, here, read) in
    (format_nat n, refl, omega (arith, wait), omega (arith, wait))
