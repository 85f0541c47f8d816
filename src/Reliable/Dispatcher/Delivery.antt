-- ===== src/Reliable/Dispatcher/Delivery.antt =====
-- What a round of Run does to the batches of the spool.
use gline.Base.{
  ℕ, pos, ◌+◌, ◌≤◌, min, ◌≡◌, ◌≢◌, ◌⊎◌, inl, inr, refl, subst, sym, ap, ◌∙◌, Bool, true, false,
  Option, none, some, Bytes, bytes_eq, ℤ, lookup, lookup-put, lookup-delete, bytes_beq_iff,
  trim_space, Option-cases, Bool-cases, ok, err, arith, ◌==◌,
}
use gline.Spool.Model.{Time, Commit, Wal, Index, Quarantined, QuarantineRecord}
use gline.Spool.Codec.{Json}
use gline.Spool.File.{AppendIo, append_then}
use gline.Spool.Index.Validity.{IsValid}
use gline.Spool.Index.{record_ack, record_quarantine, remove_active, apply_quarantine}
use gline.Spool.Compact.{CompactIo, compact_locked, swap_files}
use gline.Spool.Operations.{
  Outcome, AckIo, after_compaction, ack, compact_if_large, quarantine, quarantine_encoded,
  return_value, with_commit,
}
use gline.Reliable.Transport.{
  ResultClass, unset, accepted, duplicate, retryable, terminal, blocked, unknown,
}
use gline.Reliable.Dispatcher.{
  Dispatcher, World, forget, postpone, retry_delay, after_ack, after_quarantine, effective_class,
  settle, send_next, round, next_pending, attempts_of,
}

-- What `postpone` leaves of a batch's block.
pub record IsPostponed (d d' : Dispatcher) (a : World) (id : Bytes) : Type 0 where
  pub spool : d'.spool ≡ d.spool
  pub attempt : lookup id d'.attempts ≡ some (attempts_of d.attempts id + 1)
  pub until : Time
  pub block : lookup id d'.blocked_until ≡ some until
  pub at_least : a.later + min a.result.retry_after d.options.max_delay ≤ until
  pub at_most : until ≤ a.later + d.options.max_delay

postpone-IsPostponed :
    (d : Dispatcher) (a : World) (id : Bytes) → IsPostponed d (postpone d a id) a id
unfolding postpone retry_delay
postpone-IsPostponed d a id =
    let attempt = attempts_of d.attempts id + 1 in
    record {
      spool = refl;
      attempt = ground (arith, lookup-put id id attempt d.attempts, bytes_beq_iff id id);
      until = a.later + retry_delay d.options attempt a.jitter a.result.retry_after;
      block = ground (
        arith,
        lookup-put id id (a.later + retry_delay d.options attempt a.jitter a.result.retry_after)
            d.blocked_until,
        bytes_beq_iff id id,
      );
      at_least = ground arith;
      at_most = ground arith;
    }

-- A retryable or blocked result changes nothing in the spool, counts the attempt, and blocks the
-- batch for at least the server's Retry-After, as far as that is within the maximum delay, and for
-- at most the maximum delay.
pub settle-IsPostponed :
    (j : Json) (d : Dispatcher) (a : World) (c : Commit) (class : ResultClass)
    → (class ≡ retryable) ⊎ (class ≡ blocked)
    → IsPostponed d (settle j d a c class).0 a c.batch_id
unfolding settle
settle-IsPostponed j d a c class (inl e) =
    subst (λ k. IsPostponed d (settle j d a c k).0 a c.batch_id) (sym e)
      (postpone-IsPostponed d a c.batch_id)
settle-IsPostponed j d a c class (inr e) =
    subst (λ k. IsPostponed d (settle j d a c k).0 a c.batch_id) (sym e)
      (postpone-IsPostponed d a c.batch_id)

module _ (id k : Bytes) (other : k ≢ id) where
  append_then-keeps :
      (w : Wal) (kind : ℕ) (body : Bytes) (io : AppendIo) (change : Index → Index)
      → lookup id (change w.index).pending ≡ lookup id w.pending
      → lookup id (append_then w kind body io change).0.pending ≡ lookup id w.pending
  unfolding append_then
  append_then-keeps w kind body io change h = ground arith

  compact-keeps : (j : Json) (w : Wal) (io : CompactIo) → (compact_locked j w io).0.index ≡ w.index
  unfolding compact_locked swap_files
  compact-keeps j w io = ground arith

  compact_if_large-keeps :
      (j : Json) (io : AckIo) (o : Outcome (Unit {0}))
      → (compact_if_large j io o).0.index ≡ o.0.index
  unfolding compact_if_large after_compaction
  compact_if_large-keeps j io (w, err e) = refl
  compact_if_large-keeps j io (w, ok u) = ground (arith, compact-keeps j w io.compact)

  ack-keeps :
      (j : Json) (w : Wal) (stop : Bool) (io : AckIo)
      → lookup id (ack j w k stop io).0.pending ≡ lookup id w.pending
  unfolding ack remove_active
  ack-keeps j w stop io = elim (Option-cases (j.marshal_ack k)) [
    | inl nothing ↦ ground (arith, nothing)
    | inr (body, e) ↦
        (let kept : lookup id
                (compact_if_large j io
                  (append_then w record_ack body io.append (remove_active k))).0.pending
              ≡ lookup id w.pending =
            ap (λ x. lookup id x.pending)
              (compact_if_large-keeps j io
                (append_then w record_ack body io.append (remove_active k)))
            ∙ append_then-keeps w record_ack body io.append (remove_active k)
                (ground (arith, lookup-delete k id w.pending, bytes_beq_iff k id, other)) in
          ground (arith, e, kept))
  ]

  parked_other :
      (w : Wal) (r : QuarantineRecord) (c : Commit)
      → r.batch_id ≡ k
      → c.batch_id ≡ r.batch_id
      → lookup id (apply_quarantine (with_commit r c) w.index).pending ≡ lookup id w.pending
  unfolding apply_quarantine with_commit
  parked_other w r c e f =
      ground
        (arith, lookup-delete c.batch_id id w.pending, bytes_beq_iff c.batch_id id, other, e, f)

  quarantine_encoded-keeps :
      (w : Wal) (r : QuarantineRecord) (body : Bytes) (io : AppendIo)
      → r.batch_id ≡ k
      → IsValid w.index
      → lookup id (quarantine_encoded w r body io).0.pending ≡ lookup id w.pending
  unfolding quarantine_encoded return_value with_commit
  quarantine_encoded-keeps w r body io e v = elim (Option-cases (lookup r.batch_id w.pending)) [
    | inl nothing ↦ ground (arith, nothing)
    | inr (c, found) ↦
        (let kept : lookup id
                (append_then w record_quarantine body io
                  (apply_quarantine (with_commit r c))).0.pending
              ≡ lookup id w.pending =
            append_then-keeps w record_quarantine body io (apply_quarantine (with_commit r c))
              (parked_other w r c e (v.keyed r.batch_id c found)) in
          ground (arith, found, kept))
  ]

  quarantine-keeps :
      (j : Json) (w : Wal) (code : ℤ) (error_code : Bytes) (at : Time) (stop : Bool) (io : AppendIo)
      → IsValid w.index
      → lookup id (quarantine j w k code error_code at stop io).0.pending ≡ lookup id w.pending
  unfolding quarantine
  quarantine-keeps j w code error_code at stop io v =
      let r : QuarantineRecord = record {
        batch_id = k;
        http_code = code;
        error_code = trim_space error_code;
        quarantined_at = at;
      } in
      elim (Option-cases (j.marshal_quarantine r)) [
        | inl nothing ↦ ground (arith, nothing)
        | inr (body, e) ↦ ground (arith, e, quarantine_encoded-keeps w r body io refl v)
      ]

-- The classes with which a batch leaves the pending ones.
abbrev pub settles : ResultClass → Bool
settles accepted = true
settles duplicate = true
settles ResultClass.quarantine = true
settles _ = false

after_ack-spool :
    (d : Dispatcher) (id : Bytes) (o : Outcome (Unit {0})) → (after_ack d id o).0.spool ≡ o.0
unfolding after_ack forget
after_ack-spool d id (w, ok u) = refl
after_ack-spool d id (w, err e) = refl

after_quarantine-spool :
    (d : Dispatcher) (id : Bytes) (o : Outcome Quarantined)
    → (after_quarantine d id o).0.spool ≡ o.0
unfolding after_quarantine forget
after_quarantine-spool d id (w, ok u) = refl
after_quarantine-spool d id (w, err e) = refl

settle-spool :
    (j : Json) (d : Dispatcher) (a : World) (c : Commit) (class : ResultClass)
    → settles class ≡ false
    → (settle j d a c class).0.spool ≡ d.spool
unfolding settle postpone
settle-spool j d a c unset h = refl
settle-spool j d a c accepted h = absurd (ground arith)
settle-spool j d a c duplicate h = absurd (ground arith)
settle-spool j d a c retryable h = refl
settle-spool j d a c ResultClass.quarantine h = absurd (ground arith)
settle-spool j d a c terminal h = refl
settle-spool j d a c blocked h = refl
settle-spool j d a c (unknown n) h = refl

settle-keeps :
    (j : Json) (d : Dispatcher) (a : World) (c : Commit) (class : ResultClass) (id : Bytes)
    → IsValid d.spool.index
    → c.batch_id ≢ id
    → lookup id (settle j d a c class).0.spool.pending ≡ lookup id d.spool.pending
unfolding settle postpone
settle-keeps j d a c unset id v other = refl
settle-keeps j d a c accepted id v other =
    ap (λ w. lookup id w.pending) (after_ack-spool d c.batch_id _)
    ∙ ack-keeps id c.batch_id other j d.spool a.canceled_later a.ack
settle-keeps j d a c duplicate id v other =
    ap (λ w. lookup id w.pending) (after_ack-spool d c.batch_id _)
    ∙ ack-keeps id c.batch_id other j d.spool a.canceled_later a.ack
settle-keeps j d a c retryable id v other = refl
settle-keeps j d a c ResultClass.quarantine id v other =
    ap (λ w. lookup id w.pending) (after_quarantine-spool d c.batch_id _)
    ∙ quarantine-keeps id c.batch_id other j d.spool (pos a.result.status_code) a.result.code
        a.later a.canceled_later a.append v
settle-keeps j d a c terminal id v other = refl
settle-keeps j d a c blocked id v other = refl
settle-keeps j d a c (unknown n) id v other = refl

-- A batch was sent in a round, and the answer settles it.
pub record IsSettled (d : Dispatcher) (a : World) (id : Bytes) : Type 0 where
  pub commit : Commit
  pub wait : ℕ
  pub sent : next_pending d a.now ≡ (some commit, wait)
  pub is_it : commit.batch_id ≡ id
  pub answer : settles (effective_class a) ≡ true

module _ (j : Json) (d : Dispatcher) (a : World) (id : Bytes) (b : Commit)
    (v : IsValid d.spool.index) (pending : lookup id d.spool.pending ≡ some b) where
  settle-either :
      (c : Commit) (wait : ℕ)
      → next_pending d a.now ≡ (some c, wait)
      → (lookup id (settle j d a c (effective_class a)).0.spool.pending ≡ some b) ⊎ IsSettled d a id
  settle-either c wait sent = elim (Bool-cases (c.batch_id == id)) [
    | inr other ↦ inl (
        settle-keeps j d a c (effective_class a) id v
          (λ e. ground (arith, e, other, bytes_beq_iff c.batch_id id))
        ∙ pending)
    | inl same ↦ elim (Bool-cases (settles (effective_class a))) [
      | inr stays ↦
          inl (
            ap (λ w. lookup id w.pending) (settle-spool j d a c (effective_class a) stays)
            ∙ pending)
      | inl leaves ↦ inr (record {
        commit = c;
        wait = wait;
        sent = sent;
        is_it = ground (arith, bytes_beq_iff c.batch_id id);
        answer = leaves;
      })
    ]
  ]

  send_next-either :
      (q : Option Commit × ℕ)
      → next_pending d a.now ≡ q
      → (lookup id (send_next j d a q).0.spool.pending ≡ some b) ⊎ IsSettled d a id
  unfolding send_next
  send_next-either (none, wait) sent = inl pending
  send_next-either (some c, wait) sent = elim (Bool-cases a.canceled) [
    | inl ended ↦ inl (ground (arith, ended))
    | inr alive ↦ elim (settle-either c wait sent) [
      | inl kept ↦ inl (ground (arith, alive, kept))
      | inr s ↦ inr s
    ]
  ]

  -- Over a valid spool, a pending batch is still pending after a round of the dispatcher, with the
  -- same payload and checkpoint, unless it was the batch sent in that round and the answer was
  -- accepted, duplicate or quarantine.
  pub round-keeps : (lookup id (round j d a).0.spool.pending ≡ some b) ⊎ IsSettled d a id
  unfolding round
  round-keeps = send_next-either (next_pending d a.now) refl
