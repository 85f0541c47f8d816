-- ===== src/Protocol/Batches/Normalized.antt =====
-- The batch that Normalize makes of a request, and what ingestion does with it.
use gline.Base.{
  ℕ, suc, ℤ, pos, int_eq, above, ◌≡◌, refl, sym, ap, ◌∙◌, subst, false, not, Bytes, bytes_eq,
  bytes_beq_iff, int_beq_iff, List, [], ◌∷◌, map, length, ltb, ◌==◌, ok, >>=-eq-ok, ok_inj,
  reject_if, map_err-ok, arith, if◌then◌else◌,
}
use gline.Domain.Ids.{Ident}
use gline.Domain.Models.{Batch, validate_batch}
use gline.Domain.Status.{scope_ingest}
use gline.Auth.{Principal, require, require_agent}
use gline.Ingest.Service.{prepare, stamp_entries, zero_hash}
use gline.Protocol.Validator.{Limits}
use gline.Protocol.Batches.{
  ProtocolLib, WireEntry, BatchRequest, ProtocolError, canonical_payload, normal_entry,
  normal_entries, limits_or_default, violations, normalize, build_batch,
}
use gline.Protocol.Batches.Checked.{IsHeader, AreEntries, violations_iff}

module _ (lib : ProtocolLib) where
  -- A batch that carries what the request says and the authenticated project, in every entry too.
  pub record IsNormalized (r : BatchRequest) (project : Ident) (payload_bytes : ℤ) (limits : Limits)
      (b : Batch) : Type 0 where
    pub version : r.protocol_version ≡ pos 1
    pub header : IsHeader lib (limits_or_default limits) project r
    pub items : AreEntries lib (limits_or_default limits) 0 r.entries
    pub canonical : Bytes
    pub payload : canonical_payload lib r (normal_entries lib project r 0 r.entries) ≡ ok canonical
    pub batch : b ≡ record {
      id = r.batch_id;
      project_id = project;
      agent_id = r.agent_id;
      pipeline_id = r.pipeline_id;
      sequence = r.sequence;
      payload_hash = lib.sha256 canonical;
      payload_bytes = if above payload_bytes 0 then payload_bytes else pos (length canonical);
      entries = map (λ e. e.entry) (normal_entries lib project r 0 r.entries);
      created_at = r.sent_at;
    }
    pub valid : validate_batch b ≡ ok tt

  build_batch-lem :
      (r : BatchRequest) (project : Ident) (payload_bytes : ℤ) (b : Batch)
      → build_batch lib r project payload_bytes ≡ ok b
      → (canonical : Bytes) × (canonical_payload lib r (normal_entries lib project r 0 r.entries)
          ≡ ok canonical)
        × (b ≡ record {
          id = r.batch_id;
          project_id = project;
          agent_id = r.agent_id;
          pipeline_id = r.pipeline_id;
          sequence = r.sequence;
          payload_hash = lib.sha256 canonical;
          payload_bytes = if above payload_bytes 0 then payload_bytes else pos (length canonical);
          entries = map (λ e. e.entry) (normal_entries lib project r 0 r.entries);
          created_at = r.sent_at;
        })
        × (validate_batch b ≡ ok tt)
  unfolding build_batch
  build_batch-lem r project payload_bytes b h =
      let (canonical, payload, rest) =
        >>=-eq-ok (canonical_payload lib r (normal_entries lib project r 0 r.entries)) _ h in
      let (u, valid, made) = >>=-eq-ok _ _ rest in
      let e = ok_inj made in
      (
        canonical,
        payload,
        sym e,
        subst (λ x. validate_batch x ≡ ok tt) e (map_err-ok ProtocolError.domain _ valid),
      )

  -- What Normalize has checked and made, in its own terms.
  pub normalize-IsNormalized :
      (r : BatchRequest) (project : Ident) (payload_bytes : ℤ) (limits : Limits) (b : Batch)
      → normalize lib r project payload_bytes limits ≡ ok b
      → IsNormalized r project payload_bytes limits b
  unfolding normalize
  normalize-IsNormalized r project payload_bytes limits b h =
      let wrong = violations lib (limits_or_default limits) project r in
      let (t, version, rest) =
        >>=-eq-ok (reject_if (not (r.protocol_version == pos 1)) ProtocolError.unsupported_version)
          _ h in
      let (u, sound, built) =
        >>=-eq-ok (reject_if (ltb 0 (length wrong)) (ProtocolError.validation wrong)) _ rest in
      let (header, items) =
        (violations_iff lib (limits_or_default limits) project r).0 (ground (arith, sound)) in
      let (canonical, payload, batch, valid) = build_batch-lem r project payload_bytes b built in
      record {
        version = ground (arith, version, int_beq_iff r.protocol_version (pos 1));
        header = header;
        items = items;
        canonical = canonical;
        payload = payload;
        batch = batch;
        valid = valid;
      }

  pub stamp_entries-normal :
      (project : Ident) (r : BatchRequest) (index : ℕ) (items : List WireEntry)
      → stamp_entries project (map (λ e. e.entry) (normal_entries lib project r index items))
        ≡ ok (map (λ e. e.entry) (normal_entries lib project r index items))
  unfolding stamp_entries normal_entries normal_entry
  stamp_entries-normal project r index [] = refl
  stamp_entries-normal project r index (item ∷ items) =
      ground
        (arith, bytes_beq_iff project project, stamp_entries-normal project r (suc index) items)

  -- Accept's checks pass a batch of the principal's own that is stamped already.
  prepare-own :
      (p : Principal) (b : Batch)
      → b.project_id ≡ p.project_id
      → require p scope_ingest ≡ ok tt
      → require_agent p b.agent_id ≡ ok tt
      → stamp_entries p.project_id b.entries ≡ ok b.entries
      → (b.payload_hash == zero_hash) ≡ false
      → validate_batch b ≡ ok tt
      → prepare p b ≡ ok b
  unfolding prepare
  prepare-own p b own may acts stamped hash valid =
      let same : ◌≡◌ {A = Batch} (record b { project_id = p.project_id }) b =
        ap (λ i. record b { project_id = i }) (sym own) in
      let valid' : validate_batch (record b { project_id = p.project_id }) ≡ ok tt =
        ap validate_batch same ∙ valid in
      ground (
        arith,
        own,
        may,
        acts,
        stamped,
        hash,
        valid',
        same,
        bytes_beq_iff b.project_id p.project_id,
      )

  -- What Normalize makes for the project of a principal passes Accept's checks without a change, if
  -- the principal may ingest and may act for the agent, and the hash is not the one of only zeros.
  pub prepare-normalize :
      (p : Principal) (r : BatchRequest) (payload_bytes : ℤ) (limits : Limits) (b : Batch)
      → normalize lib r p.project_id payload_bytes limits ≡ ok b
      → require p scope_ingest ≡ ok tt
      → require_agent p r.agent_id ≡ ok tt
      → (b.payload_hash == zero_hash) ≡ false
      → prepare p b ≡ ok b
  prepare-normalize p r payload_bytes limits b h may acts hash =
      let n = normalize-IsNormalized r p.project_id payload_bytes limits b h in
      prepare-own p b (ap (λ x. x.project_id) n.batch) may
        (ap (λ x. require_agent p x.agent_id) n.batch ∙ acts)
        (ap (λ x. stamp_entries p.project_id x.entries) n.batch
          ∙ stamp_entries-normal p.project_id r 0 r.entries
          ∙ ap (λ x. ok x.entries) (sym n.batch))
        hash n.valid
