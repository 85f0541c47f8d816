-- ===== src/Admission/Limiter.antt =====
-- Limiter and reservation of internal/server/admission/limiter.go. A call takes the instant that the
-- clock shows; metrics (Observer) are left out.
pub mod Bounds
pub mod Reservations
use gline.Base.{
  ℕ, zero, suc, ℤ, ◌+◌, ◌-◌, ◌*◌, ◌^◌, min, Bool, true, false, not, ◌&&◌, ◌||◌, Option, none, some,
  Map, [], ◌∷◌, lookup, put, bytes_eq, ltb, leb, nat_beq, above, to_nat, Result, ok, err, ◌>>=◌,
  ◌>>◌, reject_if, if◌then◌else◌,
}
use gline.Domain.Ids.{Ident, valid_uuid}
use gline.Admission.Bucket.{Bucket, Time, second, minute, scale, full_bucket, refill, retry_after}

pub data Reason : Type 0 where
  key_rate project_entries project_bytes project_inflight : Reason

pub data AdmissionError : Type 0 where
  canceled invalid batch_exceeds_capacity : AdmissionError
  limited : Reason → Time → AdmissionError
  not_positive over_bounds short_ttl : AdmissionError

pub record Config : Type 0 where
  pub requests_per_minute : ℕ
  pub entries_per_minute : ℕ
  pub bytes_per_minute : ℕ
  pub max_inflight : ℕ
  pub state_ttl : Time

pub record KeyState : Type 0 where
  pub requests : Bucket
  pub last_seen : Time

pub record ProjectState : Type 0 where
  pub entries : Bucket
  pub bytes : Bucket
  pub inflight : ℕ
  pub last_seen : Time

pub record Limiter : Type 0 where
  pub config : Config
  pub last_cleanup : Time
  pub keys : Map Ident KeyState
  pub projects : Map Ident ProjectState

-- New, on limits as they are configured; a TTL of 0 or less becomes ten minutes.
unfoldable pub new : ℤ → ℤ → ℤ → ℤ → ℤ → Result AdmissionError Limiter
new requests entries bytes inflight ttl =
    let state_ttl = if above ttl 0 then to_nat ttl else 10 * minute in
    do
      reject_if
          (not (above requests 0)
            || not (above entries 0)
            || not (above bytes 0)
            || not (above inflight 0))
          not_positive
      reject_if
          (above requests 1_000_000
            || above entries 1_000_000_000
            || above bytes (2 ^ 50)
            || above inflight 10_000)
          over_bounds
      reject_if (ltb state_ttl (2 * minute)) short_ttl
      ok (record {
        config = record {
          requests_per_minute = to_nat requests;
          entries_per_minute = to_nat entries;
          bytes_per_minute = to_nat bytes;
          max_inflight = to_nat inflight;
          state_ttl = state_ttl;
        };
        last_cleanup = 0;
        keys = [];
        projects = [];
      })

-- The entries of a map that a loop with `delete` leaves.
unfoldable pub retain {ℓ} : {V : Type ℓ} → (V → Bool) → Map Ident V → Map Ident V
retain keep [] = []
retain keep ((k, v) ∷ m) = let rest = retain keep m in if keep v then (k, v) ∷ rest else rest

-- Not seen since `cutoff`.
abbrev pub is_stale : Time → Time → Bool
is_stale cutoff last_seen = ltb last_seen cutoff

-- What the two loops of cleanupLocked keep.
pub keep_key : Time → KeyState → Bool
keep_key cutoff s = not (is_stale cutoff s.last_seen)

unfoldable pub keep_project : Time → ProjectState → Bool
keep_project cutoff s = not (nat_beq s.inflight 0 && is_stale cutoff s.last_seen)

-- At most one sweep a minute.
pub swept_lately : Limiter → Time → Bool
swept_lately l now = not (nat_beq l.last_cleanup 0) && ltb (now - l.last_cleanup) minute

pub sweep : Limiter → Time → Limiter
unfolding keep_key keep_project
sweep l now = record l {
  keys = retain (keep_key (now - l.config.state_ttl)) l.keys;
  projects = retain (keep_project (now - l.config.state_ttl)) l.projects;
  last_cleanup = now;
}

-- cleanupLocked
unfoldable pub cleanup : Limiter → Time → Limiter
unfolding swept_lately sweep
cleanup l now = if swept_lately l now then l else sweep l now

abbrev pub fresh_key : Config → Time → KeyState
fresh_key c now = record { requests = full_bucket c.requests_per_minute now; last_seen = now }

abbrev pub fresh_project : Config → Time → ProjectState
fresh_project c now = record {
  entries = full_bucket c.entries_per_minute now;
  bytes = full_bucket c.bytes_per_minute now;
  inflight = 0;
  last_seen = now;
}

abbrev pub or_fresh {ℓ} : {A : Type ℓ} → A → Option A → A
or_fresh a none = a
or_fresh a (some b) = b

-- The key's part of AllowIngest: every attempt that finds a token takes one.
unfoldable pub charge_key : Config → Time → KeyState → KeyState × Result AdmissionError (Unit {0})
charge_key c now s =
    let b = refill s.requests c.requests_per_minute now in
    if ltb b.tokens scale
    then (
      record { requests = b; last_seen = now },
      err (limited key_rate (retry_after b.tokens scale c.requests_per_minute)),
    )
    else (record { requests = record b { tokens = b.tokens - scale }; last_seen = now }, ok tt)

-- The project's part, for `entries` entries in `bytes` bytes.
unfoldable pub charge_project :
    Config → Time → ℕ → ℕ → ProjectState → ProjectState × Result AdmissionError (Unit {0})
charge_project c now entries bytes s =
    let e = refill s.entries c.entries_per_minute now in
    let b = refill s.bytes c.bytes_per_minute now in
    let seen : ProjectState = record s { entries = e; bytes = b; last_seen = now } in
    if leb c.max_inflight s.inflight
    then (seen, err (limited project_inflight second))
    else if ltb e.tokens (entries * scale)
    then (
      seen,
      err (limited project_entries (retry_after e.tokens (entries * scale) c.entries_per_minute)),
    )
    else if ltb b.tokens (bytes * scale)
    then (
      seen,
      err (limited project_bytes (retry_after b.tokens (bytes * scale) c.bytes_per_minute)),
    )
    else (
      record seen {
        entries = record e { tokens = e.tokens - entries * scale };
        bytes = record b { tokens = b.tokens - bytes * scale };
        inflight = s.inflight + 1;
      },
      ok tt,
    )

-- `done` is the reservation's sync.Once.
pub record Reservation : Type 0 where
  pub project_id : Ident
  pub entry_cost : ℕ
  pub byte_cost : ℕ
  pub done : Bool

unfoldable pub with_project :
    Limiter
    → Ident
    → ℕ
    → ℕ
    → ProjectState × Result AdmissionError (Unit {0})
    → Limiter × Result AdmissionError Reservation
with_project l project entries bytes (s, err e) =
    (record l { projects = put project s l.projects }, err e)
with_project l project entries bytes (s, ok u) = (
  record l { projects = put project s l.projects },
  ok (record {
    project_id = project;
    entry_cost = entries * scale;
    byte_cost = bytes * scale;
    done = false;
  }),
)

unfoldable pub with_key :
    Limiter
    → Time
    → Ident
    → Ident
    → ℕ
    → ℕ
    → KeyState × Result AdmissionError (Unit {0})
    → Limiter × Result AdmissionError Reservation
unfolding with_project
with_key l now key project entries bytes (s, err e) = (record l { keys = put key s l.keys }, err e)
with_key l now key project entries bytes (s, ok u) =
    with_project (record l { keys = put key s l.keys }) project entries bytes
      (charge_project l.config now entries bytes
        (or_fresh (fresh_project l.config now) (lookup project l.projects)))

-- The part of AllowIngest that holds the mutex.
unfoldable pub admit :
    Limiter → Time → Ident → Ident → ℕ → ℕ → Limiter × Result AdmissionError Reservation
unfolding with_key
admit l now key project entries bytes =
    with_key l now key project entries bytes
      (charge_key l.config now (or_fresh (fresh_key l.config now) (lookup key l.keys)))

pub is_invalid_request : Ident → Ident → ℤ → ℤ → Bool
is_invalid_request key project entries bytes =
    not (valid_uuid key) || not (valid_uuid project) || not (above entries 0) || not (above bytes 0)

-- More than a full bucket holds: no waiting would help.
pub exceeds_capacity : Config → ℤ → ℤ → Bool
exceeds_capacity c entries bytes =
    above entries c.entries_per_minute || above bytes c.bytes_per_minute

-- AllowIngest
unfoldable pub allow_ingest :
    Limiter → Time → Bool → Ident → Ident → ℤ → ℤ → Limiter × Result AdmissionError Reservation
unfolding is_invalid_request exceeds_capacity
allow_ingest l now stop key project entries bytes =
    if stop
    then (l, err canceled)
    else if is_invalid_request key project entries bytes
    then (l, err invalid)
    else if exceeds_capacity l.config entries bytes
    then (l, err batch_exceeds_capacity)
    else admit (cleanup l now) now key project (to_nat entries) (to_nat bytes)

-- Limiter.finish on the state of the project.
unfoldable pub settle_project : Config → Time → ℕ → ℕ → Bool → ProjectState → ProjectState
settle_project c now entry_cost byte_cost refund s =
    let e = refill s.entries c.entries_per_minute now in
    let b = refill s.bytes c.bytes_per_minute now in
    let back : ProjectState = record s {
      entries =
          if refund
          then record e { tokens = min (c.entries_per_minute * scale) (e.tokens + entry_cost) }
          else e;
      bytes =
          if refund
          then record b { tokens = min (c.bytes_per_minute * scale) (b.tokens + byte_cost) }
          else b;
      inflight = s.inflight - 1;
      last_seen = now;
    } in
    if ltb 0 s.inflight then back else s

-- Limiter.finish
unfoldable pub finish_project : Limiter → Time → Ident → ℕ → ℕ → Bool → Limiter
finish_project l now project entry_cost byte_cost refund = elim (lookup project l.projects) [
  | none ↦ l
  | some s ↦ record l {
    projects = put project (settle_project l.config now entry_cost byte_cost refund s) l.projects;
  }
]

-- reservation.finish; Commit is it without a refund, Release with one.
unfoldable pub finish : Limiter → Time → Reservation → Bool → Limiter × Reservation
unfolding finish_project
finish l now r refund = if r.done then (l, r) else (
  finish_project l now r.project_id r.entry_cost r.byte_cost refund,
  record r { done = true },
)

abbrev pub commit : Limiter → Time → Reservation → Limiter × Reservation
commit l now r = finish l now r false

abbrev pub release : Limiter → Time → Reservation → Limiter × Reservation
release l now r = finish l now r true
