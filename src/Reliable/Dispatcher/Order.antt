-- ===== src/Reliable/Dispatcher/Order.antt =====
-- Which batch nextPending takes, and for how long the dispatcher waits when there is none.
use gline.Base.{
  ℕ, ◌+◌, ◌≤◌, ◌<◌, ◌≡◌, ◌⊎◌, inl, inr, refl, subst, sym, ap, true, false, none, some, Bytes,
  bytes_eq, List, [], ◌∷◌, ◌++◌, Map, lookup, All, Option-cases, Bool-cases, arith,
}
use gline.Spool.Model.{Time, Commit, Wal}
use gline.Spool.Index.{present}
use gline.Spool.Operations.{pending_batches, peek, peek_in}
use gline.Reliable.Dispatcher.{
  Dispatcher, Options, is_blocked, block_end, earlier, search_pending, search_all, next_pending,
}

-- The first of the batches whose block does not stand.
pub record IsFirst (until : Map Bytes Time) (now : Time) (batches : List Commit) (c : Commit)
    : Type 0 where
  pub before : List Commit
  pub after : List Commit
  pub split : batches ≡ before ++ c ∷ after
  pub all_blocked : All (λ b. is_blocked until now b ≡ true) before
  pub is_free : is_blocked until now c ≡ false

search-IsFirst :
    (until : Map Bytes Time) (now earliest : Time) (cs : List Commit) (c : Commit) (wait : ℕ)
    → search_pending until now earliest cs ≡ (some c, wait)
    → IsFirst until now cs c
unfolding search_pending
search-IsFirst until now earliest [] c wait h = absurd (ground arith)
search-IsFirst until now earliest (x ∷ xs) c wait h = elim (Bool-cases (is_blocked until now x)) [
  | inl stands ↦
      (let f =
          search-IsFirst until now (earlier earliest (block_end until x)) xs c wait
            (ground (arith, stands)) in
        record {
          before = x ∷ f.before;
          after = f.after;
          split = ap (λ l. x ∷ l) f.split;
          all_blocked = (stands, f.all_blocked);
          is_free = f.is_free;
        })
  | inr gone ↦ record {
    before = [];
    after = xs;
    split = ground (arith, gone);
    all_blocked = tt;
    is_free = ground (arith, gone);
  }
]

-- Without any block it is the oldest pending batch.
oldest-IsFirst : (now : Time) (x : Commit) (xs : List Commit) → IsFirst [] now (x ∷ xs) x
unfolding is_blocked lookup
oldest-IsFirst now x xs = record {
  before = [];
  after = xs;
  split = refl;
  all_blocked = tt;
  is_free = refl;
}

peek-IsFirst :
    (m : Map Bytes Commit) (now : Time) (ids : List Bytes) (c : Commit)
    → peek_in m ids ≡ some c
    → IsFirst [] now (present m ids) c
unfolding peek_in present
peek-IsFirst m now [] c h = absurd (ground arith)
peek-IsFirst m now (id ∷ ids) c h = elim (Option-cases (lookup id m)) [
  | inl absent ↦
      subst (λ l. IsFirst [] now l c) (ground (arith, absent))
        (peek-IsFirst m now ids c (ground (arith, absent)))
  | inr (b, found) ↦
      subst (λ l. IsFirst [] now l c) (ground (arith, found)) (oldest-IsFirst now c (present m ids))
]

search_any :
    (until : Map Bytes Time) (now : Time) (cs : List Commit) (c : Commit) (wait : ℕ)
    → search_all until now cs ≡ (some c, wait)
    → IsFirst until now cs c
unfolding search_all
search_any until now [] c wait h = absurd (ground arith)
search_any until now (x ∷ xs) c wait h = search-IsFirst until now 0 (x ∷ xs) c wait h

next-IsFirst :
    (w : Wal) (o : Options) (tries : Map Bytes ℕ) (until : Map Bytes Time) (now : Time) (c : Commit)
    (wait : ℕ)
    → next_pending (record { spool = w; options = o; attempts = tries; blocked_until = until }) now
      ≡ (some c, wait)
    → IsFirst until now (pending_batches w) c
unfolding next_pending pending_batches peek
next-IsFirst w o tries [] now c wait h = peek-IsFirst w.pending now w.order c (ap (λ q. q.0) h)
next-IsFirst w o tries (b ∷ bs) now c wait h = search_any (b ∷ bs) now (pending_batches w) c wait h

-- The batch that the dispatcher sends next is pending and not blocked at that time, and every
-- pending batch that was committed before it is blocked.
pub next_pending-IsFirst :
    (d : Dispatcher) (now : Time) (c : Commit) (wait : ℕ)
    → next_pending d now ≡ (some c, wait)
    → IsFirst d.blocked_until now (pending_batches d.spool) c
next_pending-IsFirst d now c wait h =
    next-IsFirst d.spool d.options d.attempts d.blocked_until now c wait h

stands-after :
    (until : Map Bytes Time) (now : Time) (c : Commit)
    → is_blocked until now c ≡ true
    → now < block_end until c
unfolding is_blocked block_end
stands-after until now c h = ground arith

-- The search without a result has seen only blocks that stand, and waits for the first of them.
record Waits (until : Map Bytes Time) (now earliest : Time) (cs : List Commit) (wait : ℕ)
    : Type 0 where
  pub all_blocked : All (λ b. is_blocked until now b ≡ true) cs
  pub all_after : All (λ b. now + wait ≤ block_end until b) cs
  pub bound : 1 ≤ earliest → now + wait ≤ earliest
  pub positive : 1 ≤ earliest → 1 ≤ wait

search-Waits :
    (until : Map Bytes Time) (now earliest : Time) (cs : List Commit) (wait : ℕ)
    → (1 ≤ earliest → now < earliest)
    → search_pending until now earliest cs ≡ (none, wait)
    → Waits until now earliest cs wait
unfolding search_pending earlier
search-Waits until now earliest [] wait later h = record {
  all_blocked = tt;
  all_after = tt;
  bound = ground arith;
  positive = ground arith;
}
search-Waits until now earliest (x ∷ xs) wait later h = elim (Bool-cases (is_blocked until now x)) [
  | inl stands ↦
      (let after : now < block_end until x = stands-after until now x stands in
        let rest =
          search-Waits until now (earlier earliest (block_end until x)) xs wait (ground arith)
            (ground (arith, stands)) in
        record {
          all_blocked = (stands, rest.all_blocked);
          all_after = (ground (arith, rest.bound), rest.all_after);
          bound = ground (arith, rest.bound);
          positive = ground (arith, rest.positive);
        })
  | inr gone ↦ absurd (ground (arith, gone))
]

peek-nothing : (m : Map Bytes Commit) (ids : List Bytes) → peek_in m ids ≡ none → present m ids ≡ []
unfolding peek_in present
peek-nothing m [] h = refl
peek-nothing m (id ∷ ids) h = ground (arith, peek-nothing m ids)

positive_wait :
    (until : Map Bytes Time) (now : Time) (c : Commit) (cs : List Commit) (wait : ℕ)
    → search_pending until now 0 (c ∷ cs) ≡ (none, wait)
    → 1 ≤ wait
unfolding search_pending earlier
positive_wait until now c cs wait h = elim (Bool-cases (is_blocked until now c)) [
  | inl stands ↦
      (let after : now < block_end until c = stands-after until now c stands in
        let rest =
          search-Waits until now (earlier 0 (block_end until c)) cs wait (ground arith)
            (ground (arith, stands)) in
        ground (arith, rest.positive))
  | inr gone ↦ absurd (ground (arith, gone))
]

-- What a dispatcher without a batch to send knows of its spool.
pub record IsIdle (until : Map Bytes Time) (now : Time) (pending : List Commit) (wait : ℕ)
    : Type 0 where
  pub all_blocked : All (λ b. is_blocked until now b ≡ true) pending
  pub all_after : All (λ b. now + wait ≤ block_end until b) pending
  pub waits_for_some : (pending ≡ []) ⊎ (1 ≤ wait)

empty-IsIdle :
    (until : Map Bytes Time) (now : Time) (cs : List Commit) (wait : ℕ)
    → cs ≡ []
    → IsIdle until now cs wait
empty-IsIdle until now cs wait e =
    subst (λ l. IsIdle until now l wait) (sym e)
      (record { all_blocked = tt; all_after = tt; waits_for_some = inl refl })

search_all-IsIdle :
    (until : Map Bytes Time) (now : Time) (cs : List Commit) (wait : ℕ)
    → search_all until now cs ≡ (none, wait)
    → IsIdle until now cs wait
unfolding search_all search_pending earlier
search_all-IsIdle until now [] wait h = empty-IsIdle until now [] wait refl
search_all-IsIdle until now (c ∷ cs) wait h =
    let w = search-Waits until now 0 (c ∷ cs) wait (ground arith) h in
    record {
      all_blocked = w.all_blocked;
      all_after = w.all_after;
      waits_for_some = inr (positive_wait until now c cs wait h);
    }

next-IsIdle :
    (w : Wal) (o : Options) (tries : Map Bytes ℕ) (until : Map Bytes Time) (now : Time) (wait : ℕ)
    → next_pending (record { spool = w; options = o; attempts = tries; blocked_until = until }) now
      ≡ (none, wait)
    → IsIdle until now (pending_batches w) wait
unfolding next_pending pending_batches peek
next-IsIdle w o tries [] now wait h =
    empty-IsIdle [] now (pending_batches w) wait (peek-nothing w.pending w.order (ap (λ q. q.0) h))
next-IsIdle w o tries (b ∷ bs) now wait h =
    search_all-IsIdle (b ∷ bs) now (pending_batches w) wait h

-- When the dispatcher finds no batch to send, every pending batch is blocked, its wait ends no
-- later than the first of their blocks, and the wait is positive unless nothing is pending.
pub next_pending-IsIdle :
    (d : Dispatcher) (now : Time) (wait : ℕ)
    → next_pending d now ≡ (none, wait)
    → IsIdle d.blocked_until now (pending_batches d.spool) wait
next_pending-IsIdle d now wait h =
    next-IsIdle d.spool d.options d.attempts d.blocked_until now wait h
