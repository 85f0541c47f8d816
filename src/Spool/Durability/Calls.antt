-- ===== src/Spool/Durability/Calls.antt =====
-- The methods of the log and durability: commit, ack, transition, quarantine and close.
use gline.Base.{
  ℕ, ℤ, ◌+◌, ◌*◌, ◌^◌, max, ◌≡◌, ◌≤◌, refl, ap, ◌∙◌, inl, inr, Bool, true, false, not, ◌&&◌, ◌||◌,
  Option, some, Bytes, length, lookup, has, bytes_eq, ltb→ge, ltb, nat_beq, is_blank, trim_space,
  below, arith, if-keeps, Option-cases, Result-cases, Result, ok, err,
}
use gline.Spool.Model.{SpoolError, Wal, Commit, Quarantined, QuarantineRecord, Checkpoint, Time}
use gline.Spool.Codec.{Json, RoundTrips, encode_commit, validate_checkpoint}
use gline.Spool.Index.{record_commit, record_ack, record_checkpoint, record_quarantine, is_active}
use gline.Spool.Index.Changes.{commits, acks, quarantines, moves}
use gline.Spool.File.{AppendIo}
use gline.Spool.Compact.{
  CompactIo, prepare_failed, swap_failed, swapped, swap_files, compact_locked, compact_records,
}
use gline.Spool.Recover.{frames}
use gline.Spool.Operations.{
  Outcome, commit, ack, quarantine, transition, close, AckIo, compact_if_large, after_compaction,
  return_value, quarantine_encoded, with_commit,
}
use gline.Spool.Durability.{IsDurable, IsClean}
use gline.Spool.Durability.Records.{
  log_record, commit-Writes, ack-Writes, move-Writes, quarantine-Writes,
}
use gline.Spool.Durability.Appends.{append_then-IsDurable, IsDurable-same}

-- A compaction that fails before the new file takes the place of the old one.
abbrev pub LeavesFile : CompactIo → Type 0
LeavesFile prepare_failed = Unit {0}
LeavesFile (swap_failed reopened) = Unit {0}
LeavesFile (swapped reopened seeked) = ⊥

-- The record that an acknowledgement writes fits the limit of recovery.
abbrev pub AckFits : Json → ℕ → Bytes → Type 0
AckFits j limit id = (b : Bytes) → j.marshal_ack id ≡ some b → length b ≤ limit

module _ (j : Json) (limit : ℕ) (back : RoundTrips j) where
  abbrev Keeps {ℓ} : {A : Type ℓ} → Wal × A → Type 0
  Keeps r = IsDurable j limit r.0

  -- Commit keeps a durable log durable on every branch, whatever it returns, for a commit that
  -- JSON represents exactly and an append that, if it fails, is cut off the file again, over a
  -- codec that reads back what it wrote.
  pub commit-IsDurable :
      (w : Wal) (c : Commit) (stop : Bool) (io : AppendIo)
      → IsDurable j limit w
      → j.is_plain c ≡ true
      → IsClean io
      → IsDurable j limit (commit j w c stop io).0
  unfolding commit
  commit-IsDurable w c stop io d plain clean = elim (Result-cases (encode_commit j c)) [
    | inr (e, failed) ↦ rw (failed, commit) (if-keeps Keeps stop _ _ (λ _. d) (λ _. d))
    | inl (body, encoded) ↦
        rw (encoded, commit)
          (if-keeps Keeps stop _ _ (λ _. d)
            λ _.
              if-keeps Keeps (ltb w.max_record_bytes (length body)) _ _ (λ _. d)
                λ small.
                  if-keeps Keeps w.closed _ _ (λ _. d)
                    λ _.
                      if-keeps Keeps (has c.batch_id w.seen) _ _ (λ _. d)
                        λ new.
                          if-keeps Keeps _ _ _ (λ _. d)
                            λ _.
                              append_then-IsDurable j limit w (commits c (16 + length body))
                                (log_record record_commit body) io d
                                (commit-Writes j back c body plain encoded)
                                (
                                  omega (
                                    arith,
                                    ltb→ge w.max_record_bytes (length body) small,
                                    d.limit_kept,
                                  ),
                                  omega (
                                    arith,
                                    ltb→ge w.max_record_bytes (length body) small,
                                    d.limit_kept,
                                    d.limit_short,
                                  ),
                                )
                                new clean)
  ]

  swap_files-IsDurable :
      (w : Wal) (file : Bytes) (io : CompactIo)
      → IsDurable j limit w
      → LeavesFile io
      → IsDurable j limit (swap_files w file io).0
  unfolding swap_files
  swap_files-IsDurable w file prepare_failed d leaves = d
  swap_files-IsDurable w file (swap_failed reopened) d leaves =
      IsDurable-same j limit w _ d refl refl refl
  swap_files-IsDurable w file (swapped reopened seeked) d leaves = absurd leaves

  compact-IsDurable :
      (w : Wal) (io : CompactIo)
      → IsDurable j limit w
      → LeavesFile io
      → IsDurable j limit (compact_locked j w io).0
  compact-IsDurable w io d leaves = elim (Option-cases (compact_records j w.index)) [
    | inl e ↦ unfold compact_locked in rw (e, compact_locked) d
    | inr (rs, e) ↦
        unfold compact_locked in
        rw (e, compact_locked) (swap_files-IsDurable w (frames rs) io d leaves)
  ]

  after_compaction-IsDurable :
      (r : Outcome (Unit {0})) → IsDurable j limit r.0 → IsDurable j limit (after_compaction r).0
  unfolding after_compaction
  after_compaction-IsDurable (w, ok u) d = d
  after_compaction-IsDurable (w, err e) d = d

  compact_if_large-IsDurable :
      (io : AckIo) (r : Outcome (Unit {0}))
      → IsDurable j limit r.0
      → LeavesFile io.compact
      → IsDurable j limit (compact_if_large j io r).0
  unfolding compact_if_large
  compact_if_large-IsDurable io (w, ok u) d leaves =
      if-keeps (Keeps {A = Result SpoolError (Unit {0})})
        (io.stat_ok && ltb (max w.max_bytes (64 * 2 ^ 10)) (length w.file))
        (after_compaction (compact_locked j w io.compact)) (w, ok tt)
        (λ _. after_compaction-IsDurable _ (compact-IsDurable w io.compact d leaves)) (λ _. d)
  compact_if_large-IsDurable io (w, err e) d leaves = d

  -- Ack keeps a durable log durable on every branch, whatever it returns, also when a compaction
  -- fails, as long as no compaction swaps the files, the identifier is text whose record fits the
  -- limit, and a failed append is cut off the file again, over a codec that reads back what it
  -- wrote.
  pub ack-IsDurable :
      (w : Wal) (id : Bytes) (stop : Bool) (io : AckIo)
      → IsDurable j limit w
      → j.is_text id ≡ true
      → AckFits j limit id
      → IsClean io.append
      → LeavesFile io.compact
      → IsDurable j limit (ack j w id stop io).0
  unfolding ack
  ack-IsDurable w id stop io d text fits clean leaves = elim (Option-cases (j.marshal_ack id)) [
    | inl failed ↦ rw (failed, ack) (if-keeps Keeps stop _ _ (λ _. d) (λ _. d))
    | inr (body, encoded) ↦
        rw (encoded, ack)
          (if-keeps Keeps stop _ _ (λ _. d)
            λ _.
              if-keeps Keeps w.closed _ _ (λ _. d)
                λ _.
                  if-keeps Keeps (not (is_active id w.index)) _ _ (λ _. d)
                    λ active.
                      compact_if_large-IsDurable io _
                        (append_then-IsDurable j limit w (acks id) (log_record record_ack body)
                          io.append d (ack-Writes j back id body text encoded)
                          (fits body encoded, omega (arith, fits body encoded, d.limit_short))
                          (ground arith) clean)
                        leaves)
  ]

  -- The record that a checkpoint transition writes fits the limit of recovery.
  abbrev pub MoveFits : Checkpoint → Type 0
  MoveFits c = (b : Bytes) → j.marshal_checkpoint c ≡ some b → length b ≤ limit

  -- Transition keeps a durable log durable on every branch, whatever it returns, for a checkpoint
  -- that JSON represents exactly and whose record fits the limit, when a failed append is cut off
  -- the file again, over a codec that reads back what it wrote.
  pub transition-IsDurable :
      (w : Wal) (expected : Option Checkpoint) (next : Checkpoint) (stop : Bool) (io : AppendIo)
      → IsDurable j limit w
      → j.is_plain_checkpoint next ≡ true
      → MoveFits next
      → IsClean io
      → IsDurable j limit (transition j w expected next stop io).0
  unfolding transition
  transition-IsDurable w expected next stop io d plain fits clean =
      if-keeps Keeps stop _ _ (λ _. d)
        λ _. elim (Result-cases (validate_checkpoint next)) [
          | inr (e, failed) ↦ rw (failed, transition) d
          | inl (u, valid) ↦ elim (Option-cases (j.marshal_checkpoint next)) [
            | inl failed ↦ rw valid (rw failed d)
            | inr (body, encoded) ↦ rw valid (
                rw encoded (
                  if-keeps Keeps w.closed _ _ (λ _. d)
                    λ _.
                      if-keeps Keeps _ _ _ (λ _. d)
                        λ _.
                          append_then-IsDurable j limit w (moves next)
                            (log_record record_checkpoint body) io d
                            (move-Writes j back next body plain valid encoded)
                            (fits body encoded, omega (arith, fits body encoded, d.limit_short)) tt
                            clean))
          ]
        ]

  return_value-IsDurable :
      (q : Quarantined) (r : Outcome (Unit {0}))
      → IsDurable j limit r.0
      → IsDurable j limit (return_value q r).0
  unfolding return_value
  return_value-IsDurable q (w, ok u) d = d
  return_value-IsDurable q (w, err e) d = d

  quarantine_encoded-IsDurable :
      (w : Wal) (r : QuarantineRecord) (body : Bytes) (io : AppendIo)
      → IsDurable j limit w
      → below r.http_code 400 || nat_beq r.quarantined_at 0 ≡ false
      → j.is_text r.batch_id ≡ true
      → j.is_text r.error_code ≡ true
      → j.marshal_quarantine r ≡ some body
      → length body ≤ limit
      → IsClean io
      → IsDurable j limit (quarantine_encoded w r body io).0
  unfolding quarantine_encoded
  quarantine_encoded-IsDurable w r body io d valid id_text code_text encoded fits clean =
      if-keeps (Keeps {A = Result SpoolError Quarantined}) w.closed _ _ (λ _. d)
        λ _. elim (Option-cases (lookup r.batch_id w.pending)) [
          | inl absent ↦ elim (Option-cases (lookup r.batch_id w.quarantined)) [
            | inl e ↦ rw absent (rw e d)
            | inr (q, e) ↦ rw absent (rw e d)
          ]
          | inr (c, waiting) ↦
              (let same_id = d.valid.keyed r.batch_id c waiting in
                rw waiting (
                  return_value-IsDurable (with_commit r c) _ (
                    append_then-IsDurable j limit w (quarantines (with_commit r c))
                      (log_record record_quarantine body) io d
                      (quarantine-Writes j back (with_commit r c) body
                        (ap j.is_text same_id ∙ id_text) code_text valid
                        (ap (λ k. j.marshal_quarantine (record r { batch_id = k })) same_id
                          ∙ encoded))
                      (fits, omega (arith, fits, d.limit_short))
                      (ap (λ k. lookup k w.pending) same_id ∙ waiting) clean)))
        ]

  abbrev pub QuarantineFits : QuarantineRecord → Type 0
  QuarantineFits r = (b : Bytes) → j.marshal_quarantine r ≡ some b → length b ≤ limit

  -- Quarantine keeps a durable log durable on every branch, whatever it returns, for an identifier
  -- and an error code that are text and whose record fits the limit, when a failed append is cut
  -- off the file again, over a codec that reads back what it wrote.
  pub quarantine-IsDurable :
      (w : Wal) (id : Bytes) (code : ℤ) (error_code : Bytes) (at : Time) (stop : Bool)
      (io : AppendIo)
      → IsDurable j limit w
      → j.is_text id ≡ true
      → j.is_text (trim_space error_code) ≡ true
      → QuarantineFits (record {
        batch_id = id;
        http_code = code;
        error_code = trim_space error_code;
        quarantined_at = at;
      })
      → IsClean io
      → IsDurable j limit (quarantine j w id code error_code at stop io).0
  unfolding quarantine
  quarantine-IsDurable w id code error_code at stop io d id_text code_text fits clean =
      let r : QuarantineRecord = record {
        batch_id = id;
        http_code = code;
        error_code = trim_space error_code;
        quarantined_at = at;
      } in
      let test : Bool = is_blank id || below code 400 || nat_beq at 0 in
      elim (Option-cases (j.marshal_quarantine r)) [
        | inl failed ↦ rw failed (
            if-keeps (Keeps {A = Result SpoolError Quarantined}) stop _ _ (λ _. d)
              λ _. if-keeps (Keeps {A = Result SpoolError Quarantined}) test _ _ (λ _. d) (λ _. d))
        | inr (body, encoded) ↦ rw encoded (
            if-keeps (Keeps {A = Result SpoolError Quarantined}) stop _ _ (λ _. d)
              λ _.
                if-keeps (Keeps {A = Result SpoolError Quarantined}) test _ _ (λ _. d)
                  λ valid.
                    quarantine_encoded-IsDurable w r body io d (ground arith) id_text code_text
                      encoded (fits body encoded) clean)
      ]

  -- Close leaves the file and the maps.
  pub close-IsDurable : (w : Wal) → IsDurable j limit w → IsDurable j limit (close w)
  unfolding close
  close-IsDurable w d =
      if-keeps (IsDurable j limit) w.closed _ _ (λ _. d)
        (λ _. IsDurable-same j limit w _ d refl refl refl)
