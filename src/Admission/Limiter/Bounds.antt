-- ===== src/Admission/Limiter/Bounds.antt =====
-- Buckets never pass their capacity, and no project has more requests in flight than it may.
use gline.Base.{
  ℕ, ℤ, ◌-◌, ◌*◌, ◌≡◌, ◌≤◌, refl, Bool, Option, none, some, Map, [], ◌∷◌, lookup, put, Every,
  Every-put, Every-lookup, bytes_eq, arith, if◌then◌else◌, if-keeps, Option-cases, inl, inr, Result,
  ok, err, to_nat,
}
use gline.Domain.Ids.{Ident}
use gline.Admission.Bucket.{Time, scale, full_bucket}
use gline.Admission.Bucket.Rate.{refill-le-capacity}
use gline.Admission.Limiter.{
  Config, KeyState, ProjectState, Limiter, AdmissionError, Reservation, fresh_key, fresh_project,
  or_fresh, retain, keep_key, keep_project, swept_lately, sweep, cleanup, invalid,
  is_invalid_request, exceeds_capacity, batch_exceeds_capacity, charge_key, charge_project,
  with_project, with_key, admit, allow_ingest, settle_project, finish_project,
}

pub record KeyInBounds (c : Config) (s : KeyState) : Type 0 where
  pub requests : s.requests.tokens ≤ c.requests_per_minute * scale

pub record ProjectInBounds (c : Config) (s : ProjectState) : Type 0 where
  pub entries : s.entries.tokens ≤ c.entries_per_minute * scale
  pub bytes : s.bytes.tokens ≤ c.bytes_per_minute * scale
  pub inflight : s.inflight ≤ c.max_inflight

pub record IsInBounds (l : Limiter) : Type 0 where
  pub keys : Every (KeyInBounds l.config) l.keys
  pub projects : Every (ProjectInBounds l.config) l.projects

retain-Every {ℓ κ} :
    {V : Type ℓ} (P : V → Type κ) (keep : V → Bool) (m : Map Ident V)
    → Every P m
    → Every P (retain keep m)
unfolding retain
retain-Every P keep [] h = tt
retain-Every P keep ((k, v) ∷ m) h =
    if-keeps (Every P) (keep v) _ _ (λ _. (h.0, retain-Every P keep m h.1))
      (λ _. retain-Every P keep m h.1)

charge_key-InBounds :
    (c : Config) (now : Time) (s : KeyState)
    → KeyInBounds c s
    → KeyInBounds c (charge_key c now s).0
unfolding charge_key
charge_key-InBounds c now s v = record {
  requests = ground (arith, refill-le-capacity s.requests c.requests_per_minute now);
}

pub charge_project-InBounds :
    (c : Config) (now entries bytes : ℕ) (s : ProjectState)
    → ProjectInBounds c s
    → ProjectInBounds c (charge_project c now entries bytes s).0
unfolding charge_project
charge_project-InBounds c now entries bytes s v = record {
  entries = ground (arith, refill-le-capacity s.entries c.entries_per_minute now);
  bytes = ground (arith, refill-le-capacity s.bytes c.bytes_per_minute now);
  inflight = ground arith;
}

settle_project-InBounds :
    (c : Config) (now entry_cost byte_cost : ℕ) (refund : Bool) (s : ProjectState)
    → ProjectInBounds c s
    → ProjectInBounds c (settle_project c now entry_cost byte_cost refund s)
unfolding settle_project
settle_project-InBounds c now entry_cost byte_cost refund s v = record {
  entries = ground (arith, refill-le-capacity s.entries c.entries_per_minute now);
  bytes = ground (arith, refill-le-capacity s.bytes c.bytes_per_minute now);
  inflight = ground arith;
}

or_fresh-keeps {ℓ κ} :
    {A : Type ℓ} (P : A → Type κ) (m : Map Ident A) (id : Ident) (a : A)
    → P a
    → Every P m
    → P (or_fresh a (lookup id m))
or_fresh-keeps P m id a h all = go (lookup id m) refl
  where
    go : (o : Option _) → lookup id m ≡ o → P (or_fresh a o)
    go none e = h
    go (some b) e = Every-lookup P id b m all e

sweep-IsInBounds : (l : Limiter) (now : Time) → IsInBounds l → IsInBounds (sweep l now)
unfolding sweep
sweep-IsInBounds l now v = record {
  keys = retain-Every (KeyInBounds l.config) (keep_key (now - l.config.state_ttl)) l.keys v.keys;
  projects =
      retain-Every (ProjectInBounds l.config) (keep_project (now - l.config.state_ttl)) l.projects
        v.projects;
}

cleanup-IsInBounds : (l : Limiter) (now : Time) → IsInBounds l → IsInBounds (cleanup l now)
unfolding cleanup
cleanup-IsInBounds l now v =
    if-keeps IsInBounds (swept_lately l now) l (sweep l now) (λ _. v)
      (λ _. sweep-IsInBounds l now v)

fresh_key-InBounds : (c : Config) (now : Time) → KeyInBounds c (fresh_key c now)
unfolding full_bucket
fresh_key-InBounds c now = record { requests = omega arith }

fresh_project-InBounds : (c : Config) (now : Time) → ProjectInBounds c (fresh_project c now)
unfolding full_bucket
fresh_project-InBounds c now = record {
  entries = omega arith;
  bytes = omega arith;
  inflight = omega arith;
}

with_project-IsInBounds :
    (l : Limiter) (project : Ident) (entries bytes : ℕ)
    (r : ProjectState × Result AdmissionError (Unit {0}))
    → IsInBounds l
    → ProjectInBounds l.config r.0
    → IsInBounds (with_project l project entries bytes r).0
unfolding with_project
with_project-IsInBounds l project entries bytes (s, ok u) v h = record {
  keys = v.keys;
  projects = Every-put (ProjectInBounds l.config) project s l.projects h v.projects;
}
with_project-IsInBounds l project entries bytes (s, err e) v h = record {
  keys = v.keys;
  projects = Every-put (ProjectInBounds l.config) project s l.projects h v.projects;
}

set_key-IsInBounds :
    (l : Limiter) (key : Ident) (s : KeyState)
    → IsInBounds l
    → KeyInBounds l.config s
    → IsInBounds (record l { keys = put key s l.keys })
set_key-IsInBounds l key s v h = record {
  keys = Every-put (KeyInBounds l.config) key s l.keys h v.keys;
  projects = v.projects;
}

with_key-IsInBounds :
    (l : Limiter) (now : Time) (key project : Ident) (entries bytes : ℕ)
    (r : KeyState × Result AdmissionError (Unit {0}))
    → IsInBounds l
    → KeyInBounds l.config r.0
    → IsInBounds (with_key l now key project entries bytes r).0
unfolding with_key
with_key-IsInBounds l now key project entries bytes (s, err e) v h = set_key-IsInBounds l key s v h
with_key-IsInBounds l now key project entries bytes (s, ok u) v h =
    with_project-IsInBounds _ project entries bytes _ (set_key-IsInBounds l key s v h) (
      charge_project-InBounds l.config now entries bytes _ (
        or_fresh-keeps (ProjectInBounds l.config) l.projects project _
          (fresh_project-InBounds l.config now) v.projects))

admit-IsInBounds :
    (l : Limiter) (now : Time) (key project : Ident) (entries bytes : ℕ)
    → IsInBounds l
    → IsInBounds (admit l now key project entries bytes).0
unfolding admit
admit-IsInBounds l now key project entries bytes v =
    with_key-IsInBounds l now key project entries bytes _ v (
      charge_key-InBounds l.config now _ (
        or_fresh-keeps (KeyInBounds l.config) l.keys key _ (fresh_key-InBounds l.config now)
          v.keys))

abbrev Good : Limiter × Result AdmissionError Reservation → Type 0
Good r = IsInBounds r.0

-- AllowIngest keeps every bucket within its capacity and every project within its requests in
-- flight, whether it admits or rejects, the sweep of old states included.
pub allow_ingest-IsInBounds :
    (l : Limiter) (now : Time) (stop : Bool) (key project : Ident) (entries bytes : ℤ)
    → IsInBounds l
    → IsInBounds (allow_ingest l now stop key project entries bytes).0
unfolding allow_ingest
allow_ingest-IsInBounds l now stop key project entries bytes v =
    let admitted = admit (cleanup l now) now key project (to_nat entries) (to_nat bytes) in
    let checked =
      if exceeds_capacity l.config entries bytes
      then (l, err batch_exceeds_capacity)
      else admitted in
    if-keeps Good stop _ _ (λ _. v)
      λ _.
        if-keeps Good (is_invalid_request key project entries bytes) (l, err invalid) checked
          (λ _. v)
          λ _.
            if-keeps Good (exceeds_capacity l.config entries bytes) (l, err batch_exceeds_capacity)
              admitted (λ _. v)
              λ _.
                admit-IsInBounds (cleanup l now) now key project (to_nat entries) (to_nat bytes)
                  (cleanup-IsInBounds l now v)

-- The end of a request, with or without a refund, keeps every bucket within its capacity and every
-- project within its requests in flight.
pub finish_project-IsInBounds :
    (l : Limiter) (now : Time) (project : Ident) (entry_cost byte_cost : ℕ) (refund : Bool)
    → IsInBounds l
    → IsInBounds (finish_project l now project entry_cost byte_cost refund)
finish_project-IsInBounds l now project entry_cost byte_cost refund v =
    elim (Option-cases (lookup project l.projects)) [
      | inl absent ↦ unfold finish_project in rw (absent, finish_project) v
      | inr (s, found) ↦
          unfold finish_project in
          rw (found, finish_project)
            (record {
              keys = v.keys;
              projects =
                  Every-put (ProjectInBounds l.config) project _ l.projects
                    (settle_project-InBounds l.config now entry_cost byte_cost refund s (
                      Every-lookup (ProjectInBounds l.config) project s l.projects v.projects
                        found))
                    v.projects;
            })
    ]
