-- ===== src/Protocol/Batches/Retried.antt =====
-- That a batch which is sent again is one to VerifyRetry, in whatever order Go ranges over attributes.
use gline.Base.{◌≡◌, bytes_eq, List, [], ◌∷◌}
use gline.Protocol.Json.Order.{SameFields}
use gline.Protocol.Batches.{ProtocolLib, WireEntry, BatchRequest, attributes_of}

module _ (lib : ProtocolLib) where
  -- Entries that differ by the order of the fields in attributes.
  abbrev pub SameEntry : WireEntry → WireEntry → Type 0
  SameEntry e f =
      (e.observed_at ≡ f.observed_at)
      × (e.level ≡ f.level)
      × (e.service ≡ f.service)
      × (e.host ≡ f.host)
      × (e.message ≡ f.message)
      × SameFields (attributes_of lib e) (attributes_of lib f)

  abbrev pub SameEntries : List WireEntry → List WireEntry → Type 0
  SameEntries [] [] = Unit
  SameEntries [] (f ∷ fs) = ⊥
  SameEntries (e ∷ es) [] = ⊥
  SameEntries (e ∷ es) (f ∷ fs) = SameEntry e f × SameEntries es fs

  -- Requests with the same batch identifier to the letter, the same agent and pipeline up to the case
  -- of letters, the same sequence and instant, and the same entries.
  abbrev pub SameRequest : BatchRequest → BatchRequest → Type 0
  SameRequest r r' =
      (r.batch_id ≡ r'.batch_id)
      × (lib.to_lower r.agent_id ≡ lib.to_lower r'.agent_id)
      × (lib.to_lower r.pipeline_id ≡ lib.to_lower r'.pipeline_id)
      × (r.sequence ≡ r'.sequence)
      × (r.sent_at ≡ r'.sent_at)
      × SameEntries r.entries r'.entries
