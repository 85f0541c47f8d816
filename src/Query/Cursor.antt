-- ===== src/Query/Cursor.antt =====
-- CursorCodec of internal/server/query/service.go. The packages crypto, base64, json and time are
-- arguments of the codec, with what they document as laws.
pub mod Trust
use gline.Base.{
  ℕ, ◌+◌, ◌*◌, ◌^◌, valid_utf8, negsuc, ◌≤◌, ◌≡◌, ℤ, pos, above, int_eq, Bool, true, false, not,
  ◌&&◌, ◌||◌, Option, none, some, Bytes, bytes_eq, ◌==◌, codes, List, [], ◌∷◌, ◌++◌, length,
  count_byte, cut_byte, ltb, nat_beq, Result, ok, err, ◌>>=◌, ◌>>◌, reject_if, or_fail,
  if◌then◌else◌,
}
use gline.Domain.Ids.{Ident, valid_uuid}
use gline.Domain.Models.{Time}
use gline.Domain.Queries.{EntryCursor}

pub record CursorPayload : Type 0 where
  pub version : ℤ
  pub project_id : Bytes
  pub filter_hash : Bytes
  pub observed_at : Bytes
  pub id : ℤ

-- hmac.New(sha256.New, _), base64.RawURLEncoding, hex.EncodeToString, json.Marshal and the strict
-- decoder for a payload, and RFC3339Nano.
pub record CursorLib : Type 0 where
  pub mac : Bytes → Bytes → Bytes
  pub encode64 : Bytes → Bytes
  pub decode64 : Bytes → Option Bytes
  pub hex : Bytes → Bytes
  pub marshal : CursorPayload → Option Bytes
  pub decode : Bytes → Option CursorPayload
  pub format_time : Time → Bytes
  pub parse_time : Bytes → Option Time
  -- An instant whose year has four digits.
  pub is_formattable : Time → Bool

-- A number of 64 bits with a sign.
abbrev pub is_int64 : ℤ → Bool
is_int64 (pos n) = ltb n (2 ^ 63)
is_int64 (negsuc n) = ltb n (2 ^ 63)

-- What the packages document: HMAC-SHA256 has 32 bytes, base64 without padding takes four letters for
-- three bytes, and hex two for one; JSON brings back valid UTF-8 and numbers of 64 bits, and writes at
-- most six bytes for a byte of a text, beside the names and two numbers; RFC 3339 brings back an
-- instant, in at most 30 letters in UTC.
pub record CursorLaws (lib : CursorLib) : Type 0 where
  pub mac_length : (secret b : Bytes) → length (lib.mac secret b) ≡ 32
  pub back64 : (b : Bytes) → lib.decode64 (lib.encode64 b) ≡ some b
  pub length64 : (b : Bytes) → 3 * length (lib.encode64 b) ≤ 4 * length b + 2
  pub no_dot : (b : Bytes) → count_byte 0x2e (lib.encode64 b) ≡ 0
  pub hex_length : (b : Bytes) → length (lib.hex b) ≡ 2 * length b
  pub hex_text : (b : Bytes) → valid_utf8 (lib.hex b) ≡ true
  pub json_back :
      (p : CursorPayload) (b : Bytes)
      → is_int64 p.version ≡ true
      → valid_utf8 p.project_id ≡ true
      → valid_utf8 p.filter_hash ≡ true
      → valid_utf8 p.observed_at ≡ true
      → is_int64 p.id ≡ true
      → lib.marshal p ≡ some b
      → lib.decode b ≡ some p
  pub json_length :
      (p : CursorPayload) (b : Bytes)
      → is_int64 p.version ≡ true
      → is_int64 p.id ≡ true
      → lib.marshal p ≡ some b
      → length b ≤ 6 * (length p.project_id + length p.filter_hash + length p.observed_at) + 128
  pub time_back :
      (t : Time) → lib.is_formattable t ≡ true → lib.parse_time (lib.format_time t) ≡ some t
  pub time_text : (t : Time) → lib.is_formattable t ≡ true → valid_utf8 (lib.format_time t) ≡ true
  pub time_length : (t : Time) → lib.is_formattable t ≡ true → length (lib.format_time t) ≤ 30

pub data CursorError : Type 0 where
  short_secret invalid_cursor not_encodable : CursorError

-- NewCursorCodec
unfoldable pub new_cursor_codec : Bytes → Result CursorError Bytes
new_cursor_codec secret = do reject_if (ltb (length secret) 16) short_secret; ok secret

module _ (lib : CursorLib) (secret : Bytes) where
  -- CursorCodec.Encode
  unfoldable pub encode : Ident → Bytes → EntryCursor → Result CursorError Bytes
  encode project filter_hash position = do
    reject_if
        (not (valid_uuid project) || nat_beq position.observed_at 0 || not (above position.id 0))
        invalid_cursor
    encoded ←
        or_fail
          (lib.marshal (record {
            version = pos 1;
            project_id = project;
            filter_hash = lib.hex filter_hash;
            observed_at = lib.format_time position.observed_at;
            id = position.id;
          }))
          not_encodable
    ok (lib.encode64 encoded ++ (codes "." ++ lib.encode64 (lib.mac secret encoded)))

  -- The checks of Decode on the payload whose MAC is right.
  unfoldable pub read_payload : Ident → Bytes → Bytes → Result CursorError EntryCursor
  read_payload project filter_hash payload = do
    decoded ← or_fail (lib.decode payload) invalid_cursor
    reject_if
        (not (decoded.version == pos 1)
          || not (decoded.project_id == project)
          || not (decoded.filter_hash == lib.hex filter_hash)
          || not (above decoded.id 0))
        invalid_cursor
    observed_at ← or_fail (lib.parse_time decoded.observed_at) invalid_cursor
    ok (record { observed_at = observed_at; id = decoded.id })

  -- The two parts of Decode.
  unfoldable pub decode_parts : Ident → Bytes → Bytes → Bytes → Result CursorError EntryCursor
  unfolding read_payload
  decode_parts project filter_hash payload_part mac_part = do
    payload ← or_fail (lib.decode64 payload_part) invalid_cursor
    reject_if (ltb 1024 (length payload)) invalid_cursor
    provided ← or_fail (lib.decode64 mac_part) invalid_cursor
    reject_if (not (nat_beq (length provided) 32)) invalid_cursor
    reject_if (not (provided == lib.mac secret payload)) invalid_cursor
    read_payload project filter_hash payload

  -- CursorCodec.Decode
  unfoldable pub decode : Bytes → Ident → Bytes → Result CursorError EntryCursor
  unfolding decode_parts
  decode raw project filter_hash = do
    reject_if (ltb 2048 (length raw) || not (nat_beq (count_byte 0x2e raw) 1)) invalid_cursor
    decode_parts project filter_hash (cut_byte 0x2e raw).0 (cut_byte 0x2e raw).1
