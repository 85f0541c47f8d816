-- ===== src/Admission/Limiter/Reservations.antt =====
-- What an admission takes, a rejection leaves, and a second end of a reservation does.
use gline.Base.{ℕ, ◌+◌, ◌*◌, ◌≡◌, ◌≤◌, Bool, ok, err, arith}
use gline.Admission.Bucket.{Time, scale, refill}
use gline.Admission.Limiter.{
  Config, ProjectState, Limiter, AdmissionError, Reservation, charge_project, finish,
}

-- A reservation ends once: after a commit or a release of it, another commit or release changes no
-- limiter.
pub finish_once :
    (l l' : Limiter) (now later : Time) (r : Reservation) (refund again : Bool)
    → (finish l' later (finish l now r refund).1 again).0 ≡ l'
unfolding finish
finish_once l l' now later r refund again = ground arith

-- The state of a project that was looked at, and from which nothing was taken.
abbrev pub observed : Config → Time → ProjectState → ProjectState
observed c now s = record s {
  entries = refill s.entries c.entries_per_minute now;
  bytes = refill s.bytes c.bytes_per_minute now;
  last_seen = now;
}

-- A batch that the project's budget rejects takes no tokens and no place: the project is left as a
-- mere look at that time leaves it.
pub rejected_takes_nothing :
    (c : Config) (now entries bytes : ℕ) (s s' : ProjectState) (e : AdmissionError)
    → charge_project c now entries bytes s ≡ (s', err e)
    → s' ≡ observed c now s
unfolding charge_project
rejected_takes_nothing c now entries bytes s s' e h = ground arith

-- A batch that the project's budget admits takes exactly its entries and bytes from the refilled
-- buckets, and one place, and the places taken stay within the maximum.
pub admitted_takes :
    (c : Config) (now entries bytes : ℕ) (s s' : ProjectState)
    → charge_project c now entries bytes s ≡ (s', ok tt)
    → (s'.entries.tokens + entries * scale ≡ (observed c now s).entries.tokens)
      × (s'.bytes.tokens + bytes * scale ≡ (observed c now s).bytes.tokens)
      × (s'.inflight ≡ s.inflight + 1)
      × (s'.inflight ≤ c.max_inflight)
unfolding charge_project
admitted_takes c now entries bytes s s' h = (ground arith, ground arith, ground arith, ground arith)
