-- ===== src/Tests/Codec.antt =====
-- A codec with the round trips that the log needs: texts behind their lengths. The payload of a batch
-- is its identifier.
use gline.Base.{
  ℕ, zero, suc, ℤ, pos, negsuc, ◌≡◌, refl, sym, ap, ◌∙◌, true, Option, none, some, Bytes, ◌∷◌, ◌++◌,
  length, take, drop, take-append-length, drop-append-length,
}
use gline.Spool.Model.{Commit, Checkpoint, QuarantineRecord}
use gline.Spool.Codec.{Json, RoundTrips}

abbrev sign : ℤ → ℕ
sign (pos n) = 0
sign (negsuc n) = 1

abbrev size : ℤ → ℕ
size (pos n) = n
size (negsuc n) = n

abbrev signed : ℕ → ℕ → ℤ
signed zero n = pos n
signed (suc k) n = negsuc n

signed-sign : (i : ℤ) → signed (sign i) (size i) ≡ i
signed-sign (pos n) = refl
signed-sign (negsuc n) = refl

abbrev write_checkpoint : Checkpoint → Bytes
write_checkpoint c =
    length c.source_key
    ∷ sign c.offset_bytes
    ∷ size c.offset_bytes
    ∷ c.observed_at
    ∷ (c.source_key ++ c.file_identity)

abbrev read_checkpoint : Bytes → Option Checkpoint
read_checkpoint (n ∷ s ∷ o ∷ t ∷ rest) = some (record {
  source_key = take n rest;
  file_identity = drop n rest;
  offset_bytes = signed s o;
  observed_at = t;
})
read_checkpoint _ = none

read-write : (c : Checkpoint) → read_checkpoint (write_checkpoint c) ≡ some c
read-write c = rw (
  take-append-length c.source_key c.file_identity,
  drop-append-length c.source_key c.file_identity,
  signed-sign c.offset_bytes,
)

abbrev write_commit : Commit → Bytes
write_commit c =
    length c.batch_id
    ∷ length c.payload
    ∷ (c.batch_id ++ (c.payload ++ write_checkpoint c.checkpoint))

abbrev with_checkpoint : Bytes → Bytes → Option Checkpoint → Option Commit
with_checkpoint id payload none = none
with_checkpoint id payload (some c) =
    some (record { batch_id = id; payload = payload; checkpoint = c })

abbrev read_commit : Bytes → Option Commit
read_commit (n ∷ m ∷ rest) =
    with_checkpoint (take n rest) (take m (drop n rest)) (read_checkpoint (drop m (drop n rest)))
read_commit _ = none

read_commit-write_commit : (c : Commit) → read_commit (write_commit c) ≡ some c
read_commit-write_commit c =
    let tail = c.payload ++ write_checkpoint c.checkpoint in
    rw
      (
        take-append-length c.batch_id tail,
        drop-append-length c.batch_id tail,
        take-append-length c.payload (write_checkpoint c.checkpoint),
        drop-append-length c.payload (write_checkpoint c.checkpoint),
      )
      (ap (with_checkpoint c.batch_id c.payload) (read-write c.checkpoint))

abbrev write_quarantine : QuarantineRecord → Bytes
write_quarantine q =
    length q.batch_id
    ∷ sign q.http_code
    ∷ size q.http_code
    ∷ q.quarantined_at
    ∷ (q.batch_id ++ q.error_code)

abbrev read_quarantine : Bytes → Option QuarantineRecord
read_quarantine (n ∷ s ∷ c ∷ t ∷ rest) = some (record {
  batch_id = take n rest;
  http_code = signed s c;
  error_code = drop n rest;
  quarantined_at = t;
})
read_quarantine _ = none

read_quarantine-write_quarantine :
    (q : QuarantineRecord) → read_quarantine (write_quarantine q) ≡ some q
read_quarantine-write_quarantine q = rw (
  take-append-length q.batch_id q.error_code,
  drop-append-length q.batch_id q.error_code,
  signed-sign q.http_code,
)

abbrev pub plain : Json
plain = record {
  marshal_commit = λ c. some (write_commit c);
  marshal_ack = λ id. some id;
  marshal_checkpoint = λ c. some (write_checkpoint c);
  marshal_quarantine = λ q. some (write_quarantine q);
  decode_commit_record = read_commit;
  decode_ack = λ b. some b;
  decode_checkpoint = read_checkpoint;
  decode_quarantine = read_quarantine;
  is_valid = λ b. true;
  batch_id_of = λ b. some b;
  is_text = λ b. true;
  is_plain = λ c. true;
  is_plain_checkpoint = λ c. true;
}

some_inj {ℓ} : {A : Type ℓ} {x y : A} → some x ≡ some y → x ≡ y
some_inj e = cc

pub plain-RoundTrips : RoundTrips plain
plain-RoundTrips = record {
  commit_back = λ c b p e. ap read_commit (sym (some_inj e)) ∙ read_commit-write_commit c;
  ack_back = λ id b p e. sym e;
  checkpoint_back = λ c b p e. ap read_checkpoint (sym (some_inj e)) ∙ read-write c;
  quarantine_back =
      λ q b p r e. ap read_quarantine (sym (some_inj e)) ∙ read_quarantine-write_quarantine q;
}
