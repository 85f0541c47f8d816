-- ===== src/Tests/Protocol.antt =====
-- A batch of one entry on the wire, in two orders of its attributes, and texts of numbers.
use gline.Base.{
  negsuc, inl, inr, ◌<◌, ℕ, arith, ◌≤◌, ◌≡◌, ◌≢◌, ◌↔◌, refl, ap, ℤ, pos, negsuc, to_nat, above,
  format_nat, Bool, true, false, Option, none, some, Bytes, bytes_beq, bytes_eq, codes, List, [],
  ◌∷◌, ◌++◌, map, length, take, contains, Result, ok, err, sort_strings, valid_utf8, trim_space,
  count_byte, cut_byte, ◌==◌, replicate,
}
use gline.Domain.Ids.{valid_uuid}
use gline.Domain.Status.{scope_ingest, valid_scope}
use gline.Domain.Models.{Batch, validate_batch, validate_for_batch}
use gline.Auth.{Principal, require, require_agent, valid_principal}
use gline.Ingest.Service.{prepare, zero_hash}
use gline.Protocol.Numbers.{canonical_number, read_number}
use gline.Protocol.Numbers.Decimals.{Decimal, scaled}
use gline.Protocol.Numbers.Denoted.{Denotes}
use gline.Protocol.Numbers.Denoted.Canonical.{canonical_number_iff}
use gline.Protocol.Json.{Value, Fields, text, number, field, no_fields, object, canonical_json}
use gline.Protocol.Validator.{default_limits, valid_level, check_text, require_that}
use gline.Protocol.Batches.{
  ProtocolLib, WireEntry, BatchRequest, Body, holding, nothing, normalize, decode_body, violations,
  check_header, check_entries, check_entry, build_batch, canonical_payload, normal_entries,
}
use gline.Protocol.Batches.Checked.{IsHeader, AreEntries, violations_iff}
use gline.Protocol.Batches.Carried.{IsBatchOf, normalize-IsBatchOf}
use gline.Protocol.Batches.Normalized.{prepare-normalize}
use gline.Protocol.Batches.Reading.{decode_body_whole}
use gline.Tests.Ingest.{project_1, agent_1, pipeline_1, batch_id}

-- 1.50 and 15e-1 are 0.15 times ten.
abbrev fifteen : Decimal
fifteen = scaled false (codes "15") (pos 1)

one_not_zero : ◌≢◌ {A = ℕ} 0x31 0x30
one_not_zero h = absurd (omega (arith, h))

five_not_zero : ◌≢◌ {A = ℕ} 0x35 0x30
five_not_zero h = absurd (omega (arith, h))

long_form : Denotes (codes "1.50") fifteen
long_form = record {
  negative = false;
  text = codes "1.50";
  digits = codes "15";
  place = pos 1;
  raw_is = refl;
  unsigned = record {
    mantissa = codes "1.50";
    tail = [];
    before = codes "1";
    after = codes "50";
    exponent = pos 0;
    front_zeros = 0;
    back_zeros = 1;
    text_is = refl;
    mantissa_is = inr refl;
    tail_is = inl (refl, refl);
    bounded = omega arith;
    are_digits = refl;
    some_digit = omega arith;
    significant = refl;
    front = one_not_zero;
    back = five_not_zero;
    empty = inl (omega arith);
    placed = refl;
  };
  is = refl;
}

short_form : Denotes (codes "15e-1") fifteen
unfolding gline.Base.parse_int gline.Base.parse_nat gline.Base.digits_value
short_form = record {
  negative = false;
  text = codes "15e-1";
  digits = codes "15";
  place = pos 1;
  raw_is = refl;
  unsigned = record {
    mantissa = codes "15";
    tail = codes "e-1";
    before = codes "15";
    after = [];
    exponent = negsuc 0;
    front_zeros = 0;
    back_zeros = 0;
    text_is = refl;
    mantissa_is = inl (refl, refl);
    tail_is = inr (codes "-1", inl refl, refl);
    bounded = omega arith;
    are_digits = refl;
    some_digit = omega arith;
    significant = refl;
    front = one_not_zero;
    back = five_not_zero;
    empty = inl (omega arith);
    placed = refl;
  };
  is = refl;
}

canonical_number_iff_example :
    (canonical_number (codes "1.50") ≡ canonical_number (codes "15e-1")) ↔ (fifteen ≡ fifteen)
unfolding gline.Protocol.Numbers.is_large gline.Protocol.Numbers.predecessor
canonical_number_iff_example =
    canonical_number_iff (codes "1.50") (codes "15e-1") fifteen fifteen long_form short_form refl
      refl

abbrev pub attributes_ab : Fields
attributes_ab =
    field (codes "a") (number (codes "1.50")) (field (codes "b") (text (codes "x")) no_fields)

abbrev attributes_ba : Fields
attributes_ba =
    field (codes "b") (text (codes "x")) (field (codes "a") (number (codes "1.50")) no_fields)

abbrev item : Fields → WireEntry
item fields_given = record {
  sequence = pos 0;
  observed_at = 3;
  level = codes "INFO";
  service = codes "web";
  host = codes "a";
  message = codes "hello";
  attributes = some fields_given;
}

abbrev pub request : Fields → BatchRequest
request fields_given = record {
  protocol_version = pos 1;
  batch_id = batch_id;
  agent_id = agent_1;
  pipeline_id = pipeline_1;
  sequence = pos 0;
  sent_at = 4;
  entries = item fields_given ∷ [];
}

abbrev pub lib : ProtocolLib
lib = record {
  quote = λ s. codes "\"" ++ (s ++ codes "\"");
  marshal = λ fields_given. codes "{}";
  sha256 = λ b. 7 ∷ take 31 b;
  to_upper = λ s. s;
  to_lower = λ s. s;
  format_time = format_nat;
  decode_request = λ b. some (request attributes_ab, nothing);
}

decoded : decode_body lib (holding (codes "{...}")) (pos 8) ≡ ok (request attributes_ab, 5)
unfolding decode_body
decoded = refl

decode_body_whole_example :
    (length (codes "{...}") ≤ 8)
    × (lib.decode_request (codes "{...}") ≡ some (request attributes_ab, nothing))
    × (5 ≡ length (codes "{...}"))
decode_body_whole_example =
    decode_body_whole lib (codes "{...}") (pos 8) (request attributes_ab) 5 decoded

abbrev pub batch : Batch
batch = record {
  id = batch_id;
  project_id = project_1;
  agent_id = agent_1;
  pipeline_id = pipeline_1;
  sequence = pos 0;
  payload_hash = 7 ∷ take 31 (codes "{\"protocol_version\":1,\"batch_id\"");
  payload_bytes = pos 5;
  entries =
      record {
        project_id = project_1;
        batch_id = batch_id;
        agent_id = agent_1;
        pipeline_id = pipeline_1;
        batch_sequence = pos 0;
        service = codes "web";
        host = codes "a";
        level = codes "INFO";
        message = codes "hello";
        observed_at = 3;
        attributes = codes "{}";
      }
      ∷ [];
  created_at = 4;
}

pub normalized : normalize lib (request attributes_ab) project_1 (pos 5) default_limits ≡ ok batch
unfolding normalize canonical_json gline.Protocol.Json.within_depth gline.Protocol.Json.members
    sort_strings gline.Base.lookup bytes_beq canonical_number count_byte cut_byte
    gline.Protocol.Json.join gline.Protocol.Numbers.position_of gline.Base.difference check_text
    valid_utf8 contains trim_space require_that gline.Base.is_blank valid_uuid validate_batch
    validate_for_batch canonical_payload format_nat gline.Base.format_int valid_level
    gline.Protocol.Batches.canonical_entry
normalized = refl

normalize-IsBatchOf_example :
    IsBatchOf lib (request attributes_ab) project_1 (pos 5) default_limits batch
normalize-IsBatchOf_example =
    normalize-IsBatchOf lib (request attributes_ab) project_1 (pos 5) default_limits batch
      normalized

violations_iff_example :
    (length (violations lib default_limits project_1 (request attributes_ab)) ≡ 0) ↔ (
      IsHeader lib default_limits project_1 (request attributes_ab)
      × AreEntries lib default_limits 0 (request attributes_ab).entries)
violations_iff_example = violations_iff lib default_limits project_1 (request attributes_ab)

abbrev pub shipper : Principal
shipper = record {
  key_id = project_1;
  project_id = project_1;
  agent_id = none;
  scopes = scope_ingest ∷ [];
}

may_ingest : require shipper scope_ingest ≡ ok tt
unfolding require valid_principal valid_uuid valid_scope contains bytes_beq
may_ingest = refl

may_act : require_agent shipper agent_1 ≡ ok tt
unfolding require_agent valid_uuid
may_act = refl

hashed : (batch.payload_hash == zero_hash) ≡ false
unfolding bytes_beq
hashed = refl

prepare-normalize_example : prepare shipper batch ≡ ok batch
prepare-normalize_example =
    prepare-normalize lib shipper (request attributes_ab) (pos 5) default_limits batch normalized
      may_ingest may_act hashed

abbrev batch_again : Batch
batch_again = record batch { payload_bytes = pos 6 }
