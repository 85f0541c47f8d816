-- ===== src/Protocol/Batches/Checked.antt =====
-- Which requests Normalize accepts, and how many errors it reports.
use gline.Base.{
  ℕ, suc, ℤ, pos, int_eq, below, above, to_nat, ◌≡◌, ◌≤◌, ◌↔◌, refl, Bool, true, false, not, Bytes,
  bytes_eq, List, [], ◌∷◌, length, trim_space, nat_beq, ltb, ◌==◌, ok, err, arith, if-keeps,
  if◌then◌else◌, codes,
}
use gline.Domain.Ids.{Ident, valid_uuid}
use gline.Protocol.Json.{Fields, object, canonical_json}
use gline.Protocol.Validator.{Limits, Validator, valid_level, add, require_that, check_text}
use gline.Protocol.Validator.Checks.{
  IsClean, IsText, require_that-IsClean, check_text-IsClean, require-keeps, text-keeps, IsBounded,
  add-IsBounded, add-length,
}
use gline.Protocol.Batches.{
  ProtocolLib, WireEntry, BatchRequest, attributes_of, level_of, entry_path, check_attributes,
  check_entry, check_entries, check_header, violations,
}

module _ (lib : ProtocolLib) (limits : Limits) where
  -- Attributes with a canonical text that is not too long.
  abbrev pub attributes_fit : Fields → Bool
  attributes_fit attrs =
      elim (canonical_json lib.quote (object attrs) limits.max_attributes_depth) [
        | err e ↦ false
        | ok canonical ↦ not (below limits.max_attributes_bytes (length canonical))
      ]

  -- What is asked of the entry at an index.
  abbrev pub IsEntry : ℕ → WireEntry → Type 0
  IsEntry index item =
      ((item.sequence == pos index) ≡ true)
      × (not (nat_beq item.observed_at 0) ≡ true)
      × (valid_level (level_of lib item) ≡ true)
      × IsText (level_of lib item) limits.max_level_bytes false
      × IsText (trim_space item.service) limits.max_service_bytes false
      × IsText (trim_space item.host) limits.max_host_bytes false
      × IsText item.message limits.max_message_bytes true
      × (attributes_fit (attributes_of lib item) ≡ true)

  abbrev pub AreEntries : ℕ → List WireEntry → Type 0
  AreEntries index [] = Unit
  AreEntries index (item ∷ items) = IsEntry index item × AreEntries (suc index) items

  abbrev pub IsHeader : Ident → BatchRequest → Type 0
  IsHeader project r =
      (valid_uuid project ≡ true)
      × (valid_uuid r.batch_id ≡ true)
      × (valid_uuid r.agent_id ≡ true)
      × (valid_uuid r.pipeline_id ≡ true)
      × (not (below r.sequence 0) ≡ true)
      × (not (nat_beq r.sent_at 0) ≡ true)
      × (ltb 0 (length r.entries) ≡ true)
      × (not (below limits.max_entries (length r.entries)) ≡ true)

  check_attributes-IsClean :
      (index : ℕ) (attrs : Fields) (v : Validator)
      → IsClean (check_attributes lib limits index attrs v)
        ↔ ((attributes_fit attrs ≡ true) × IsClean v)
  unfolding check_attributes
  check_attributes-IsClean index attrs v = ground (
    arith,
    add-length v (entry_path lib index (codes "attributes"))
        (codes "must contain supported JSON values"),
    add-length v (entry_path lib index (codes "attributes")) (codes "exceeds byte limit"),
  )

  check_entry-IsClean :
      (index : ℕ) (item : WireEntry) (v : Validator)
      → IsClean (check_entry lib limits index item v) ↔ (IsEntry index item × IsClean v)
  unfolding check_entry
  check_entry-IsClean index item v = (
    λ h.
        let (attributes, c) = (check_attributes-IsClean _ _ _).0 h in
        let (message, c) = (check_text-IsClean _ _ _ _ _).0 c in
        let (host, c) = (check_text-IsClean _ _ _ _ _).0 c in
        let (service, c) = (check_text-IsClean _ _ _ _ _).0 c in
        let (level, c) = (check_text-IsClean _ _ _ _ _).0 c in
        let (known, c) = (require_that-IsClean _ _ _ _).0 c in
        let (observed, c) = (require_that-IsClean _ _ _ _).0 c in
        let (sequence, c) = (require_that-IsClean _ _ _ _).0 c in
        ((sequence, observed, known, level, service, host, message, attributes), c),
    λ ((sequence, observed, known, level, service, host, message, attributes), c).
        (check_attributes-IsClean _ _ _).1 (
          attributes,
          (check_text-IsClean _ _ _ _ _).1 (
            message,
            (check_text-IsClean _ _ _ _ _).1 (
              host,
              (check_text-IsClean _ _ _ _ _).1 (
                service,
                (check_text-IsClean _ _ _ _ _).1 (
                  level,
                  (require_that-IsClean _ _ _ _).1 (
                    known,
                    (require_that-IsClean _ _ _ _).1
                        (observed, (require_that-IsClean _ _ _ _).1 (sequence, c)),
                  ),
                ),
              ),
            ),
          ),
        ),
  )

  check_header-IsClean :
      (project : Ident) (r : BatchRequest) (v : Validator)
      → IsClean (check_header lib limits project r v) ↔ (IsHeader project r × IsClean v)
  unfolding check_header
  check_header-IsClean project r v = (
    λ h.
        let (few, c) = (require_that-IsClean _ _ _ _).0 h in
        let (some_entry, c) = (require_that-IsClean _ _ _ _).0 c in
        let (sent, c) = (require_that-IsClean _ _ _ _).0 c in
        let (sequence, c) = (require_that-IsClean _ _ _ _).0 c in
        let (pipeline, c) = (require_that-IsClean _ _ _ _).0 c in
        let (agent, c) = (require_that-IsClean _ _ _ _).0 c in
        let (batch, c) = (require_that-IsClean _ _ _ _).0 c in
        let (own, c) = (require_that-IsClean _ _ _ _).0 c in
        ((own, batch, agent, pipeline, sequence, sent, some_entry, few), c),
    λ ((own, batch, agent, pipeline, sequence, sent, some_entry, few), c).
        (require_that-IsClean _ _ _ _).1 (
          few,
          (require_that-IsClean _ _ _ _).1 (
            some_entry,
            (require_that-IsClean _ _ _ _).1 (
              sent,
              (require_that-IsClean _ _ _ _).1 (
                sequence,
                (require_that-IsClean _ _ _ _).1 (
                  pipeline,
                  (require_that-IsClean _ _ _ _).1 (
                    agent,
                    (require_that-IsClean _ _ _ _).1
                        (batch, (require_that-IsClean _ _ _ _).1 (own, c)),
                  ),
                ),
              ),
            ),
          ),
        ),
  )

  check_entries-IsClean :
      (index : ℕ) (items : List WireEntry) (v : Validator)
      → IsClean (check_entries lib limits index items v) ↔ (AreEntries index items × IsClean v)
  unfolding check_entries
  check_entries-IsClean index [] v = (λ h. (tt, h), λ h. h.1)
  check_entries-IsClean index (item ∷ items) v =
      let here = check_entry-IsClean index item v in
      let rest = check_entries-IsClean (suc index) items (check_entry lib limits index item v) in
      (
        λ h. (((here.0 (rest.0 h).1).0, (rest.0 h).0), (here.0 (rest.0 h).1).1),
        λ ((p, ps), c). rest.1 (ps, here.1 (p, c)),
      )

  -- The validator finds nothing wrong exactly with a request whose project and identifiers are UUIDs,
  -- whose sequence is not negative and whose instant is set, which has between one entry and the
  -- limit, and each of whose entries has its index as sequence, an instant, a known level, texts that
  -- are valid, set where they must be and within their limits, and attributes with a canonical text
  -- within its limit. This holds for every limit on the errors, even one that drops all but the first.
  pub violations_iff :
      (project : Ident) (r : BatchRequest)
      → (length (violations lib limits project r) ≡ 0)
        ↔ (IsHeader project r × AreEntries 0 r.entries)
  violations_iff project r =
      let start : Validator = record { fields = []; limit = limits.max_field_errors } in
      let entries = check_entries-IsClean 0 r.entries (check_header lib limits project r start) in
      let header = check_header-IsClean project r start in
      (
        λ h. ((header.0 (entries.0 h).1).0, (entries.0 h).0),
        λ (p, ps). entries.1 (ps, header.1 (p, refl)),
      )

  attributes-IsBounded :
      (most : ℤ) (index : ℕ) (attrs : Fields) (v : Validator)
      → IsBounded most v
      → IsBounded most (check_attributes lib limits index attrs v)
  unfolding check_attributes
  attributes-IsBounded most index attrs v h =
      let one : (reason : Bytes)
          → IsBounded most (add v (entry_path lib index (codes "attributes")) reason) =
        λ reason. add-IsBounded most v _ reason h in
      elim (canonical_json lib.quote (object attrs) limits.max_attributes_depth)
        as (λ encoded. IsBounded most (elim encoded [
          | err e ↦
              add v (entry_path lib index (codes "attributes"))
                (codes "must contain supported JSON values")
          | ok canonical ↦
              if below limits.max_attributes_bytes (length canonical)
              then add v (entry_path lib index (codes "attributes")) (codes "exceeds byte limit")
              else v
        ])) [
          | err e ↦ one _
          | ok canonical ↦
              if-keeps (IsBounded most) (below limits.max_attributes_bytes (length canonical)) _ _
                (λ _. one _) (λ _. h)
        ]

  module _ (most : ℤ) where
    abbrev require_within :
        (v : Validator) (good : Bool) (path reason : Bytes)
        → IsBounded most v
        → IsBounded most (require_that v good path reason)
    require_within = require-keeps (IsBounded most) (add-IsBounded most)

    abbrev text_within :
        (v : Validator) (path value : Bytes) (max_bytes : ℤ) (allow_empty : Bool)
        → IsBounded most v
        → IsBounded most (check_text v path value max_bytes allow_empty)
    text_within = text-keeps (IsBounded most) (add-IsBounded most)

    entries-IsBounded :
        (index : ℕ) (items : List WireEntry) (v : Validator)
        → IsBounded most v
        → IsBounded most (check_entries lib limits index items v)
    unfolding check_entries check_entry
    entries-IsBounded index [] v h = h
    entries-IsBounded index (item ∷ items) v h = entries-IsBounded (suc index) items _ (
        attributes-IsBounded most index _ _ (
          text_within _ _ _ _ _ (
            text_within _ _ _ _ _ (
              text_within _ _ _ _ _ (
                text_within _ _ _ _ _
                  (require_within _ _ _ _ (require_within _ _ _ _ (require_within _ _ _ _ h))))))))

    header-IsBounded :
        (project : Ident) (r : BatchRequest) (v : Validator)
        → IsBounded most v
        → IsBounded most (check_header lib limits project r v)
    unfolding check_header
    header-IsBounded project r v h = require_within _ _ _ _ (
        require_within _ _ _ _ (
          require_within _ _ _ _ (
            require_within _ _ _ _ (
              require_within _ _ _ _
                (require_within _ _ _ _ (require_within _ _ _ _ (require_within _ _ _ _ h)))))))

  -- A limit on the errors that is positive bounds how many are reported.
  pub violations_bounded :
      (project : Ident) (r : BatchRequest)
      → above limits.max_field_errors 0 ≡ true
      → length (violations lib limits project r) ≤ to_nat limits.max_field_errors
  violations_bounded project r positive =
      (entries-IsBounded limits.max_field_errors 0 r.entries _
          (header-IsBounded limits.max_field_errors project r _ (refl, λ _. omega arith))).1
        positive
