-- ===== src/Protocol/Batches/Reading.antt =====
-- How much of a body Decode reads.
use gline.Base.{
  ℕ, suc, ◌≤◌, some, ◌≡◌, ap, ◌∙◌, sym, ℤ, pos, negsuc, above, below, to_nat, true, false, Bytes,
  length, length-take, take, take_all, ok, >>=-eq-ok, reject_if, arith, if◌then◌else◌,
}
use gline.Protocol.Validator.{default_limits}
use gline.Protocol.Batches.{
  ProtocolLib, BatchRequest, holding, ProtocolError, nothing, parse_request, decode_body,
}

-- The limit in effect.
abbrev limit_of : ℤ → ℤ
limit_of max_bytes = if above max_bytes 0 then max_bytes else default_limits.max_body_bytes

parse_request-ok :
    (lib : ProtocolLib) (raw : Bytes) (r : BatchRequest) (n : ℕ)
    → parse_request lib raw ≡ ok (r, n)
    → (lib.decode_request raw ≡ some (r, nothing)) × (n ≡ length raw)
unfolding parse_request
parse_request-ok lib raw r n h = ground (arith, h)

within :
    (limit : ℤ) (body : Bytes)
    → above limit 0 ≡ true
    → below limit (length (take (suc (to_nat limit)) body)) ≡ false
    → length body ≤ to_nat limit
within (pos m) body positive fits = ground (arith, fits, length-take (suc m) body)
within (negsuc m) body positive fits = absurd (ground (arith, positive))

-- Decode accepts a body only if all of it fits the limit, or the default where none is given. The
-- request is then what the decoder reads from the whole body, with nothing behind it, and the size is
-- the body's length.
pub decode_body_whole :
    (lib : ProtocolLib) (body : Bytes) (max_bytes : ℤ) (r : BatchRequest) (n : ℕ)
    → decode_body lib (holding body) max_bytes ≡ ok (r, n)
    → (length body ≤ to_nat (limit_of max_bytes))
      × (lib.decode_request body ≡ some (r, nothing))
      × (n ≡ length body)
unfolding decode_body
decode_body_whole lib body max_bytes r n h =
    let limit = limit_of max_bytes in
    let raw = take (suc (to_nat limit)) body in
    let (t, fits, rest) =
      >>=-eq-ok (reject_if (below limit (length raw)) ProtocolError.body_too_large) _ h in
    let positive : above limit 0 ≡ true = ground arith in
    let short = within limit body positive (ground (arith, fits)) in
    let whole : raw ≡ body = take_all (suc (to_nat limit)) body (omega (arith, short)) in
    let (read, size) = parse_request-ok lib raw r n rest in
    (short, ap lib.decode_request (sym whole) ∙ read, size ∙ ap length whole)
