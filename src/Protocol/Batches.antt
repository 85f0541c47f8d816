-- ===== src/Protocol/Batches.antt =====
-- Decode, Normalize and CanonicalPayload of internal/protocol/ingestv1/protocol.go. The packages json,
-- sha256, strings (for the case of letters) and time are arguments.
pub mod Carried
pub mod Checked
pub mod Normalized
pub mod Reading
pub mod Retried
use gline.Base.{
  ℕ, zero, suc, ◌+◌, ℤ, pos, int_eq, below, above, to_nat, format_nat, format_int, Bool, true,
  false, not, ◌&&◌, ◌||◌, Option, none, some, Bytes, codes, List, [], ◌∷◌, ◌++◌, length, take, map,
  trim_space, nat_beq, ltb, ◌==◌, Result, ok, err, ◌>>=◌, ◌>>◌, reject_if, or_fail, map_err,
  if◌then◌else◌,
}
use gline.Domain.Ids.{Ident, valid_uuid}
use gline.Domain.Models.{Time, DomainError, Entry, Batch, validate_batch}
use gline.Protocol.Json.{Value, Fields, no_fields, object, JsonError, canonical_json, join}
use gline.Protocol.Validator.{
  Limits, default_limits, FieldError, Validator, add, require_that, check_text, valid_level,
}

pub record WireEntry : Type 0 where
  pub sequence : ℤ
  pub observed_at : Time
  pub level : Bytes
  pub service : Bytes
  pub host : Bytes
  pub message : Bytes
  -- A map, or nil.
  pub attributes : Option Fields

pub record BatchRequest : Type 0 where
  pub protocol_version : ℤ
  pub batch_id : Ident
  pub agent_id : Ident
  pub pipeline_id : Ident
  pub sequence : ℤ
  pub sent_at : Time
  pub entries : List WireEntry

pub data ProtocolError : Type 0 where
  invalid_json trailing_json body_too_large unreadable_body unsupported_version bad_entry_count :
      ProtocolError
  validation : List FieldError → ProtocolError
  attributes : ℕ → JsonError → ProtocolError
  domain : DomainError → ProtocolError

-- What the decoder finds behind the first value.
pub data Trailing : Type 0 where
  nothing another malformed : Trailing

pub record ProtocolLib : Type 0 where
  pub quote : Bytes → Bytes
  pub marshal : Fields → Bytes
  pub sha256 : Bytes → Bytes
  pub to_upper : Bytes → Bytes
  pub to_lower : Bytes → Bytes
  pub format_time : Time → Bytes
  -- json.Decoder with DisallowUnknownFields and UseNumber.
  pub decode_request : Bytes → Option (BatchRequest × Trailing)

-- A reader: none, one that fails, or one that gives all its bytes.
pub data Body : Type 0 where
  absent failing : Body
  holding : Bytes → Body

-- A domain.Entry with the map of its attributes, of which the record has the encoded object.
pub record NormalEntry : Type 0 where
  pub entry : Entry
  pub attributes : Fields

abbrev pub limits_or_default : Limits → Limits
limits_or_default limits = if above limits.max_entries 0 then limits else default_limits

module _ (lib : ProtocolLib) where
  unfoldable pub parse_request : Bytes → Result ProtocolError (BatchRequest × ℕ)
  parse_request raw = do
    decoded ← or_fail (lib.decode_request raw) invalid_json
    elim decoded.1 [
      | nothing ↦ ok (decoded.0, length raw)
      | another ↦ err trailing_json
      | malformed ↦ err trailing_json
    ]

  -- Decode
  unfoldable pub decode_body : Body → ℤ → Result ProtocolError (BatchRequest × ℕ)
  unfolding parse_request
  decode_body absent max_bytes = err invalid_json
  decode_body failing max_bytes = err unreadable_body
  decode_body (holding body) max_bytes = do
    let max = if above max_bytes 0 then max_bytes else default_limits.max_body_bytes
    let raw = take (suc (to_nat max)) body
    reject_if (below max (length raw)) body_too_large
    parse_request raw

  -- `"name":` and a quoted value behind it.
  quoted : Bytes → Bytes → Bytes
  quoted name value = codes "\"" ++ (name ++ (codes "\":" ++ lib.quote value))

  unfoldable pub canonical_entry : ℕ → NormalEntry → Result ProtocolError Bytes
  unfolding quoted
  canonical_entry index e = do
    encoded ←
        map_err (attributes index)
          (canonical_json lib.quote (object e.attributes) default_limits.max_attributes_depth)
    ok (
        codes "{\"sequence\":"
        ++ (format_nat index
            ++ (codes ","
                ++ (quoted (codes "observed_at") (lib.format_time e.entry.observed_at)
                    ++ (codes ","
                        ++ (quoted (codes "level") e.entry.level
                            ++ (codes ","
                                ++ (quoted (codes "service") e.entry.service
                                    ++ (codes ","
                                        ++ (quoted (codes "host") e.entry.host
                                            ++ (codes ","
                                                ++ (quoted (codes "message") e.entry.message
                                                    ++ (codes ",\"attributes\":"
                                                        ++ (encoded ++ codes "}"))))))))))))))

  unfoldable pub canonical_entries : ℕ → List NormalEntry → Result ProtocolError (List Bytes)
  canonical_entries index [] = ok []
  canonical_entries index (e ∷ es) = do
    part ← canonical_entry index e
    rest ← canonical_entries (suc index) es
    ok (part ∷ rest)

  -- CanonicalPayload
  unfoldable pub canonical_payload : BatchRequest → List NormalEntry → Result ProtocolError Bytes
  unfolding quoted canonical_entries
  canonical_payload r entries = do
    reject_if (not (nat_beq (length r.entries) (length entries))) bad_entry_count
    parts ← canonical_entries 0 entries
    ok (
        codes "{\"protocol_version\":1,"
        ++ (quoted (codes "batch_id") (lib.to_lower r.batch_id)
            ++ (codes ","
                ++ (quoted (codes "agent_id") (lib.to_lower r.agent_id)
                    ++ (codes ","
                        ++ (quoted (codes "pipeline_id") (lib.to_lower r.pipeline_id)
                            ++ (codes ",\"sequence\":"
                                ++ (format_int r.sequence
                                    ++ (codes ","
                                        ++ (quoted (codes "sent_at") (lib.format_time r.sent_at)
                                            ++ (codes ",\"entries\":["
                                                ++ (join parts ++ codes "]}"))))))))))))

  -- PayloadHash
  unfoldable pub payload_hash : Bytes → Bytes
  payload_hash payload = lib.sha256 payload

  -- The path of a field of the entry at an index.
  abbrev pub entry_path : ℕ → Bytes → Bytes
  entry_path index name = codes "entries[" ++ (format_nat index ++ (codes "]." ++ name))

  abbrev pub attributes_of : WireEntry → Fields
  attributes_of item = elim item.attributes [ none ↦ no_fields | some attrs ↦ attrs ]

  unfoldable pub check_attributes : Limits → ℕ → Fields → Validator → Validator
  check_attributes limits index attrs v =
      elim (canonical_json lib.quote (object attrs) limits.max_attributes_depth) [
        | err e ↦
            add v (entry_path index (codes "attributes"))
              (codes "must contain supported JSON values")
        | ok canonical ↦
            if below limits.max_attributes_bytes (length canonical)
            then add v (entry_path index (codes "attributes")) (codes "exceeds byte limit")
            else v
      ]

  abbrev pub level_of : WireEntry → Bytes
  level_of item = lib.to_upper (trim_space item.level)

  -- The checks of one entry, in their order.
  unfoldable pub check_entry : Limits → ℕ → WireEntry → Validator → Validator
  unfolding check_attributes
  check_entry limits index item v =
      let v =
        require_that v (item.sequence == pos index) (entry_path index (codes "sequence"))
          (codes "expected " ++ format_nat index) in
      let v =
        require_that v (not (nat_beq item.observed_at 0)) (entry_path index (codes "observed_at"))
          (codes "must be RFC3339") in
      let v =
        require_that v (valid_level (level_of item)) (entry_path index (codes "level"))
          (codes "unsupported level") in
      let v =
        check_text v (entry_path index (codes "level")) (level_of item) limits.max_level_bytes
          false in
      let v =
        check_text v (entry_path index (codes "service")) (trim_space item.service)
          limits.max_service_bytes false in
      let v =
        check_text v (entry_path index (codes "host")) (trim_space item.host) limits.max_host_bytes
          false in
      let v =
        check_text v (entry_path index (codes "message")) item.message limits.max_message_bytes
          true in
      check_attributes limits index (attributes_of item) v

  -- The entry that is made of one, with the identifiers that the last loop sets.
  unfoldable pub normal_entry : Ident → BatchRequest → ℕ → WireEntry → NormalEntry
  normal_entry project r index item = record {
    entry = record {
      project_id = project;
      batch_id = r.batch_id;
      agent_id = r.agent_id;
      pipeline_id = r.pipeline_id;
      batch_sequence = pos index;
      service = trim_space item.service;
      host = trim_space item.host;
      level = level_of item;
      message = item.message;
      observed_at = item.observed_at;
      attributes = lib.marshal (attributes_of item);
    };
    attributes = attributes_of item;
  }

  -- The loop over the entries, as what it checks and what it makes.
  unfoldable pub check_entries : Limits → ℕ → List WireEntry → Validator → Validator
  unfolding check_entry
  check_entries limits index [] v = v
  check_entries limits index (item ∷ items) v =
      check_entries limits (suc index) items (check_entry limits index item v)

  unfoldable pub normal_entries : Ident → BatchRequest → ℕ → List WireEntry → List NormalEntry
  unfolding normal_entry
  normal_entries project r index [] = []
  normal_entries project r index (item ∷ items) =
      normal_entry project r index item ∷ normal_entries project r (suc index) items

  -- The checks of the batch itself.
  unfoldable pub check_header : Limits → Ident → BatchRequest → Validator → Validator
  check_header limits project r v =
      let v =
        require_that v (valid_uuid project) (codes "project_id")
          (codes "authenticated project is invalid") in
      let v = require_that v (valid_uuid r.batch_id) (codes "batch_id") (codes "must be a UUID") in
      let v = require_that v (valid_uuid r.agent_id) (codes "agent_id") (codes "must be a UUID") in
      let v =
        require_that v (valid_uuid r.pipeline_id) (codes "pipeline_id") (codes "must be a UUID") in
      let v =
        require_that v (not (below r.sequence 0)) (codes "sequence")
          (codes "must be non-negative") in
      let v =
        require_that v (not (nat_beq r.sent_at 0)) (codes "sent_at") (codes "must be RFC3339") in
      let v =
        require_that v (ltb 0 (length r.entries)) (codes "entries") (codes "must not be empty") in
      require_that v (not (below limits.max_entries (length r.entries))) (codes "entries")
        (codes "exceeds batch limit")

  abbrev pub violations : Limits → Ident → BatchRequest → List FieldError
  violations limits project r =
      (check_entries limits 0 r.entries (
        check_header limits project r
          (record { fields = []; limit = limits.max_field_errors }))).fields

  -- The batch that Normalize builds once nothing is wrong with the request.
  unfoldable pub build_batch : BatchRequest → Ident → ℤ → Result ProtocolError Batch
  unfolding normal_entries
  build_batch r project payload_bytes = do
    let entries = normal_entries project r 0 r.entries
    canonical ← canonical_payload r entries
    let batch : Batch = record {
      id = r.batch_id;
      project_id = project;
      agent_id = r.agent_id;
      pipeline_id = r.pipeline_id;
      sequence = r.sequence;
      payload_hash = lib.sha256 canonical;
      payload_bytes = if above payload_bytes 0 then payload_bytes else pos (length canonical);
      entries = map (λ e. e.entry) entries;
      created_at = r.sent_at;
    }
    map_err domain (validate_batch batch)
    ok batch

  -- Normalize
  unfoldable pub normalize : BatchRequest → Ident → ℤ → Limits → Result ProtocolError Batch
  unfolding build_batch check_header check_entries
  normalize r project payload_bytes limits = do
    reject_if (not (r.protocol_version == pos 1)) unsupported_version
    let wrong = violations (limits_or_default limits) project r
    reject_if (ltb 0 (length wrong)) (validation wrong)
    build_batch r project payload_bytes
