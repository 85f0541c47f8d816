-- ===== src/Query/Cursor/Trust.antt =====
-- What a cursor that Decode accepts carries, and that it accepts what Encode made.
use gline.Base.{
  refl, ◌≤◌, ◌≡◌, subst, pos, above, int_eq, true, some, Bytes, bytes_eq, bytes_beq_iff, ◌∷◌, ◌++◌,
  length, length-append, count_byte, count_byte-append, cut_byte, cut_byte-append, ok, arith,
  Option-cases, inl, inr,
}
use gline.Domain.Ids.{Ident, valid_uuid}
use gline.Domain.Ids.Uuid.{valid_uuid-valid_utf8}
use gline.Domain.Queries.{EntryCursor}
use gline.Query.Cursor.{
  CursorPayload, CursorLib, CursorLaws, is_int64, encode, decode, decode_parts,
}

module _ (lib : CursorLib) (secret : Bytes) where
  -- A payload whose MAC under the secret came with it, and that names the project and the filter.
  pub record IsTrusted (raw : Bytes) (project : Ident) (filter_hash : Bytes) (c : EntryCursor)
      : Type 0 where
    pub payload : Bytes
    pub body : lib.decode64 (cut_byte 0x2e raw).0 ≡ some payload
    pub mac : lib.decode64 (cut_byte 0x2e raw).1 ≡ some (lib.mac secret payload)
    pub decoded : CursorPayload
    pub read : lib.decode payload ≡ some decoded
    pub same_project : decoded.project_id ≡ project
    pub same_filter : decoded.filter_hash ≡ lib.hex filter_hash
    pub instant : lib.parse_time decoded.observed_at ≡ some c.observed_at
    pub id : decoded.id ≡ c.id
    pub positive : above c.id 0 ≡ true

  parts-IsTrusted :
      (raw : Bytes) (project : Ident) (filter_hash : Bytes) (c : EntryCursor)
      → decode_parts lib secret project filter_hash (cut_byte 0x2e raw).0 (cut_byte 0x2e raw).1
        ≡ ok c
      → IsTrusted raw project filter_hash c
  unfolding decode_parts
  parts-IsTrusted raw project filter_hash c h =
      elim (Option-cases (lib.decode64 (cut_byte 0x2e raw).0)) [
        | inl none_there ↦ absurd (ground (arith, none_there))
        | inr (payload, body) ↦ elim (Option-cases (lib.decode64 (cut_byte 0x2e raw).1)) [
          | inl none_there ↦ absurd (ground (arith, body, none_there))
          | inr (provided, mac) ↦ elim (Option-cases (lib.decode payload)) [
            | inl none_there ↦ absurd (ground (arith, body, mac, none_there))
            | inr (decoded, read) ↦ elim (Option-cases (lib.parse_time decoded.observed_at)) [
              | inl none_there ↦ absurd (ground (arith, body, mac, read, none_there))
              | inr (at, instant) ↦ record {
                payload = payload;
                body = body;
                mac = ground (arith, body, mac, bytes_beq_iff provided (lib.mac secret payload));
                decoded = decoded;
                read = read;
                same_project =
                    ground (arith, body, mac, read, bytes_beq_iff decoded.project_id project);
                same_filter = ground (
                  arith,
                  body,
                  mac,
                  read,
                  bytes_beq_iff decoded.filter_hash (lib.hex filter_hash),
                );
                instant = ground (arith, body, mac, read, instant);
                id = ground (arith, body, mac, read, instant);
                positive = ground (arith, body, mac, read, instant);
              }
            ]
          ]
        ]
      ]

  -- Every cursor that Decode accepts carries a payload with its MAC under the server's secret, in
  -- which the expected project and filter stand, and gives the position of that payload.
  pub decode-IsTrusted :
      (raw : Bytes) (project : Ident) (filter_hash : Bytes) (c : EntryCursor)
      → decode lib secret raw project filter_hash ≡ ok c
      → IsTrusted raw project filter_hash c
  unfolding decode
  decode-IsTrusted raw project filter_hash c h =
      parts-IsTrusted raw project filter_hash c (ground arith)

  -- The payload that Encode makes.
  abbrev payload_of : Ident → Bytes → EntryCursor → CursorPayload
  payload_of project filter_hash c = record {
    version = pos 1;
    project_id = project;
    filter_hash = lib.hex filter_hash;
    observed_at = lib.format_time c.observed_at;
    id = c.id;
  }

  module _ (laws : CursorLaws lib) (project : Ident) (filter_hash : Bytes) (c : EntryCursor) where
    -- The payload is written in at most 6 * (36 + 64 + 30) + 128 bytes.
    payload_short :
        (b : Bytes)
        → valid_uuid project ≡ true
        → length filter_hash ≡ 32
        → lib.is_formattable c.observed_at ≡ true
        → is_int64 c.id ≡ true
        → lib.marshal (payload_of project filter_hash c) ≡ some b
        → length b ≤ 1024
    payload_short b known size four word made = omega (
      arith,
      laws.json_length (payload_of project filter_hash c) b refl word made,
      (valid_uuid-valid_utf8 project known).0,
      laws.hex_length filter_hash,
      size,
      laws.time_length c.observed_at four,
    )

    parts-encoded :
        (b : Bytes)
        → valid_uuid project ≡ true
        → is_int64 c.id ≡ true
        → lib.is_formattable c.observed_at ≡ true
        → lib.marshal (payload_of project filter_hash c) ≡ some b
        → length b ≤ 1024
        → above c.id 0 ≡ true
        → decode_parts lib secret project filter_hash
            (lib.encode64 b)
            (lib.encode64 (lib.mac secret b))
          ≡ ok c
    unfolding decode_parts
    parts-encoded b known word four made small positive = ground (
      arith,
      laws.back64 b,
      laws.back64 (lib.mac secret b),
      laws.mac_length secret b,
      bytes_beq_iff (lib.mac secret b) (lib.mac secret b),
      laws.json_back (payload_of project filter_hash c) b refl
          (valid_uuid-valid_utf8 project known).1 (laws.hex_text filter_hash)
          (laws.time_text c.observed_at four) word made,
      bytes_beq_iff project project,
      bytes_beq_iff (lib.hex filter_hash) (lib.hex filter_hash),
      laws.time_back c.observed_at four,
    )

    encoded_shape :
        (b : Bytes)
        → length b ≤ 1024
        → let raw = lib.encode64 b ++ 0x2e ∷ lib.encode64 (lib.mac secret b) in
          (length raw ≤ 2048)
          × (count_byte 0x2e raw ≡ 1)
          × (cut_byte 0x2e raw ≡ (lib.encode64 b, lib.encode64 (lib.mac secret b)))
    unfolding count_byte
    encoded_shape b small =
        let m = lib.encode64 (lib.mac secret b) in
        (
          omega (
            arith,
            length-append (lib.encode64 b) (0x2e ∷ m),
            laws.length64 b,
            laws.length64 (lib.mac secret b),
            laws.mac_length secret b,
          ),
          ground (
            arith,
            count_byte-append 0x2e (lib.encode64 b) (0x2e ∷ m),
            laws.no_dot b,
            laws.no_dot (lib.mac secret b),
          ),
          cut_byte-append 0x2e (lib.encode64 b) m (laws.no_dot b),
        )

    decode-whole :
        (b : Bytes)
        → length b ≤ 1024
        → decode_parts lib secret project filter_hash
            (lib.encode64 b)
            (lib.encode64 (lib.mac secret b))
          ≡ ok c
        → decode lib secret
            (lib.encode64 b ++ 0x2e ∷ lib.encode64 (lib.mac secret b))
            project
            filter_hash
          ≡ ok c
    unfolding decode
    decode-whole b small parts =
        let (len, count, cut) = encoded_shape b small in ground (arith, len, count, cut, parts)

    -- Over packages that keep what they document, for a filter hash of 32 bytes, an instant whose year
    -- has four digits and an identifier of 64 bits, Decode accepts every cursor that Encode made, for the
    -- same project and filter, and gives its position back: in particular neither the bound on the
    -- payload nor the one on the whole is ever met.
    pub decode-encode :
        (raw : Bytes)
        → length filter_hash ≡ 32
        → lib.is_formattable c.observed_at ≡ true
        → is_int64 c.id ≡ true
        → encode lib secret project filter_hash c ≡ ok raw
        → decode lib secret raw project filter_hash ≡ ok c
    unfolding encode
    decode-encode raw size four word h =
        elim (Option-cases (lib.marshal (payload_of project filter_hash c))) [
          | inl none_there ↦ absurd (ground (arith, none_there))
          | inr (b, made) ↦
              (let known : valid_uuid project ≡ true = ground (arith, made) in
                let small = payload_short b known size four word made in
                subst (λ r. decode lib secret r project filter_hash ≡ ok c) (ground (arith, made))
                  (decode-whole b small
                    (parts-encoded b known word four made small (ground (arith, made)))))
        ]
