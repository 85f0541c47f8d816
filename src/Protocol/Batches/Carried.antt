-- ===== src/Protocol/Batches/Carried.antt =====
-- What the batch that Normalize makes carries, item for item, and the text of which it has the hash,
-- both written out from the request.
use gline.Base.{
  ℕ, suc, ℤ, pos, above, ◌≡◌, refl, sym, ap, ◌∙◌, subst, Bytes, codes, List, [], ◌∷◌, ◌++◌, map,
  length, trim_space, format_nat, format_int, ok, >>=-eq-ok, ok_inj, map_err-ok, map_err, reject_if,
  arith, not, nat_beq, append-nil, append_assoc, if◌then◌else◌,
}
use gline.Domain.Ids.{Ident}
use gline.Domain.Models.{Entry, Batch}
use gline.Protocol.Json.{object, canonical_json, join, join_rest}
use gline.Protocol.Validator.{Limits, default_limits}
use gline.Protocol.Batches.{
  ProtocolLib, ProtocolError, WireEntry, BatchRequest, attributes_of, canonical_entry,
  canonical_entries, canonical_payload, normal_entry, normal_entries, limits_or_default, normalize,
}
use gline.Protocol.Batches.Checked.{IsHeader, AreEntries}
use gline.Protocol.Batches.Normalized.{normalize-IsNormalized}

-- The fields of a JSON object behind its brace, names and texts of values.
abbrev pub fields_text : List (Bytes × Bytes) → Bytes
fields_text [] = codes "}"
fields_text ((name, value) ∷ []) = codes "\"" ++ (name ++ (codes "\":" ++ (value ++ codes "}")))
fields_text ((name, value) ∷ f ∷ fs) =
    codes "\"" ++ (name ++ (codes "\":" ++ (value ++ (codes "," ++ fields_text (f ∷ fs)))))

abbrev pub commas : List Bytes → Bytes
commas [] = []
commas (s ∷ []) = s
commas (s ∷ t ∷ ss) = s ++ (codes "," ++ commas (t ∷ ss))

module _ (lib : ProtocolLib) where
  -- The text of an item, with the text of its attributes.
  abbrev pub entry_text : ℕ → WireEntry → Bytes → Bytes
  entry_text index item attributes =
      codes "{"
      ++ fields_text (
          (codes "sequence", format_nat index)
          ∷ (codes "observed_at", lib.quote (lib.format_time item.observed_at))
          ∷ (codes "level", lib.quote (lib.to_upper (trim_space item.level)))
          ∷ (codes "service", lib.quote (trim_space item.service))
          ∷ (codes "host", lib.quote (trim_space item.host))
          ∷ (codes "message", lib.quote item.message)
          ∷ (codes "attributes", attributes)
          ∷ [])

  -- The text of a request, with the texts of its items.
  abbrev pub request_text : BatchRequest → List Bytes → Bytes
  request_text r items =
      codes "{"
      ++ fields_text (
          (codes "protocol_version", codes "1")
          ∷ (codes "batch_id", lib.quote (lib.to_lower r.batch_id))
          ∷ (codes "agent_id", lib.quote (lib.to_lower r.agent_id))
          ∷ (codes "pipeline_id", lib.quote (lib.to_lower r.pipeline_id))
          ∷ (codes "sequence", format_int r.sequence)
          ∷ (codes "sent_at", lib.quote (lib.format_time r.sent_at))
          ∷ (codes "entries", codes "[" ++ (commas items ++ codes "]"))
          ∷ [])

  -- An item's text, around the canonical text of its attributes.
  abbrev pub IsText : ℕ → WireEntry → Bytes → Type 0
  IsText index item text =
      (attributes : Bytes) × (canonical_json lib.quote (object (attributes_of lib item))
          default_limits.max_attributes_depth
        ≡ ok attributes)
      × (text ≡ entry_text index item attributes)

  abbrev pub AreTexts : ℕ → List WireEntry → List Bytes → Type 0
  AreTexts index [] [] = Unit
  AreTexts index [] (t ∷ ts) = ⊥
  AreTexts index (item ∷ items) [] = ⊥
  AreTexts index (item ∷ items) (t ∷ ts) = IsText index item t × AreTexts (suc index) items ts

  -- The entry of an item: the authenticated project, the request's identifiers, the place in the batch,
  -- and what the item says, with the spaces around service, host and level cut off.
  pub record IsEntryOf (project : Ident) (r : BatchRequest) (index : ℕ) (item : WireEntry)
      (e : Entry) : Type 0 where
    pub own : e.project_id ≡ project
    pub batch : e.batch_id ≡ r.batch_id
    pub agent : e.agent_id ≡ r.agent_id
    pub pipeline : e.pipeline_id ≡ r.pipeline_id
    pub place : e.batch_sequence ≡ pos index
    pub service : e.service ≡ trim_space item.service
    pub host : e.host ≡ trim_space item.host
    pub level : e.level ≡ lib.to_upper (trim_space item.level)
    pub message : e.message ≡ item.message
    pub observed_at : e.observed_at ≡ item.observed_at
    pub attributes : e.attributes ≡ lib.marshal (attributes_of lib item)

  abbrev pub AreEntriesOf : Ident → BatchRequest → ℕ → List WireEntry → List Entry → Type 0
  AreEntriesOf project r index [] [] = Unit
  AreEntriesOf project r index [] (e ∷ es) = ⊥
  AreEntriesOf project r index (item ∷ items) [] = ⊥
  AreEntriesOf project r index (item ∷ items) (e ∷ es) =
      IsEntryOf project r index item e × AreEntriesOf project r (suc index) items es

  join-commas : (s : Bytes) (ss : List Bytes) → s ++ join_rest ss ≡ commas (s ∷ ss)
  unfolding join_rest
  join-commas s [] = ground (arith, not, nat_beq, append-nil s)
  join-commas s (t ∷ ss) = ap (λ x. s ++ (codes "," ++ x)) (join-commas t ss)

  joined : (ss : List Bytes) → join ss ≡ commas ss
  unfolding join
  joined [] = refl
  joined (s ∷ ss) = join-commas s ss

  normal_entries-AreEntriesOf :
      (project : Ident) (r : BatchRequest) (index : ℕ) (items : List WireEntry)
      → AreEntriesOf project r index items
          (map (λ e. e.entry) (normal_entries lib project r index items))
  unfolding normal_entries normal_entry
  normal_entries-AreEntriesOf project r index [] = tt
  normal_entries-AreEntriesOf project r index (item ∷ items) = (
    record {
      own = refl;
      batch = refl;
      agent = refl;
      pipeline = refl;
      place = refl;
      service = refl;
      host = refl;
      level = refl;
      message = refl;
      observed_at = refl;
      attributes = refl;
    },
    normal_entries-AreEntriesOf project r (suc index) items,
  )

  canonical_entry-IsText :
      (project : Ident) (r : BatchRequest) (index : ℕ) (item : WireEntry) (t : Bytes)
      → canonical_entry lib index (normal_entry lib project r index item) ≡ ok t
      → IsText index item t
  unfolding canonical_entry normal_entry
  canonical_entry-IsText project r index item t h =
      let (attributes, encoded, made) =
        >>=-eq-ok
          (map_err (ProtocolError.attributes index) (
            canonical_json lib.quote (object (attributes_of lib item))
              default_limits.max_attributes_depth))
          _ h in
      (attributes, map_err-ok (ProtocolError.attributes index) _ encoded, sym (ok_inj made))

  canonical_entries-AreTexts :
      (project : Ident) (r : BatchRequest) (index : ℕ) (items : List WireEntry) (ts : List Bytes)
      → canonical_entries lib index (normal_entries lib project r index items) ≡ ok ts
      → AreTexts index items ts
  unfolding canonical_entries normal_entries
  canonical_entries-AreTexts project r index [] [] h = tt
  canonical_entries-AreTexts project r index [] (t ∷ ts) h = absurd (ground (arith, h))
  canonical_entries-AreTexts project r index (item ∷ items) [] h =
      let (t, one, rest) =
        >>=-eq-ok (canonical_entry lib index (normal_entry lib project r index item)) _ h in
      let (us, more, made) =
        >>=-eq-ok
          (canonical_entries lib (suc index) (normal_entries lib project r (suc index) items)) _
          rest in
      absurd (ground (arith, made))
  canonical_entries-AreTexts project r index (item ∷ items) (t ∷ ts) h =
      let (u, one, rest) =
        >>=-eq-ok (canonical_entry lib index (normal_entry lib project r index item)) _ h in
      let (us, more, made) =
        >>=-eq-ok
          (canonical_entries lib (suc index) (normal_entries lib project r (suc index) items)) _
          rest in
      (
        canonical_entry-IsText project r index item t (ground (arith, one, made)),
        canonical_entries-AreTexts project r (suc index) items ts (ground (arith, more, made)),
      )

  canonical_payload-request_text :
      (project : Ident) (r : BatchRequest) (canonical : Bytes)
      → canonical_payload lib r (normal_entries lib project r 0 r.entries) ≡ ok canonical
      → (items : List Bytes) × AreTexts 0 r.entries items × (canonical ≡ request_text r items)
  unfolding canonical_payload
  canonical_payload-request_text project r canonical h =
      let (u, same, rest) =
        >>=-eq-ok
          (reject_if
            (not (nat_beq (length r.entries) (length (normal_entries lib project r 0 r.entries))))
            ProtocolError.bad_entry_count)
          _ h in
      let (parts, texts, made) =
        >>=-eq-ok (canonical_entries lib 0 (normal_entries lib project r 0 r.entries)) _ rest in
      (
        parts,
        canonical_entries-AreTexts project r 0 r.entries parts texts,
        sym (ok_inj made)
            ∙ ground (arith, joined parts, append_assoc (commas parts) (codes "]") (codes "}")),
      )

  -- The batch of a request for a project, given the length of its body.
  pub record IsBatchOf (r : BatchRequest) (project : Ident) (payload_bytes : ℤ) (limits : Limits)
      (b : Batch) : Type 0 where
    pub version : r.protocol_version ≡ pos 1
    pub header : IsHeader lib (limits_or_default limits) project r
    pub items : AreEntries lib (limits_or_default limits) 0 r.entries
    pub id : b.id ≡ r.batch_id
    pub own : b.project_id ≡ project
    pub agent : b.agent_id ≡ r.agent_id
    pub pipeline : b.pipeline_id ≡ r.pipeline_id
    pub sequence : b.sequence ≡ r.sequence
    pub created_at : b.created_at ≡ r.sent_at
    pub entries : AreEntriesOf project r 0 r.entries b.entries
    pub texts : List Bytes
    pub are_texts : AreTexts 0 r.entries texts
    pub hash : b.payload_hash ≡ lib.sha256 (request_text r texts)
    pub size :
        b.payload_bytes
        ≡ (if above payload_bytes 0 then payload_bytes else pos (length (request_text r texts)))

  -- Whatever Normalize accepts is a request of version 1 with a valid header and valid items, and
  -- becomes the batch of the authenticated project with the request's identifiers, sequence and
  -- instant. Its entries are the request's items one by one and in their order, each with the project,
  -- the identifiers, its place, and its own level, service, host, message, instant and attributes. Its
  -- hash is that of the JSON text in which the request's fields and those of all items stand in a
  -- fixed order, and its size is that text's length where none was given.
  pub normalize-IsBatchOf :
      (r : BatchRequest) (project : Ident) (payload_bytes : ℤ) (limits : Limits) (b : Batch)
      → normalize lib r project payload_bytes limits ≡ ok b
      → IsBatchOf r project payload_bytes limits b
  normalize-IsBatchOf r project payload_bytes limits b h =
      let n = normalize-IsNormalized lib r project payload_bytes limits b h in
      let (texts, are_texts, text) =
        canonical_payload-request_text project r n.canonical n.payload in
      record {
        version = n.version;
        header = n.header;
        items = n.items;
        id = ap (λ x. x.id) n.batch;
        own = ap (λ x. x.project_id) n.batch;
        agent = ap (λ x. x.agent_id) n.batch;
        pipeline = ap (λ x. x.pipeline_id) n.batch;
        sequence = ap (λ x. x.sequence) n.batch;
        created_at = ap (λ x. x.created_at) n.batch;
        entries =
            subst (λ es. AreEntriesOf project r 0 r.entries es) (ap (λ x. x.entries) (sym n.batch))
              (normal_entries-AreEntriesOf project r 0 r.entries);
        texts = texts;
        are_texts = are_texts;
        hash = ap (λ x. x.payload_hash) n.batch ∙ ap lib.sha256 text;
        size =
            ap (λ x. x.payload_bytes) n.batch
            ∙ ap (λ t. if above payload_bytes 0 then payload_bytes else pos (length t)) text;
      }
