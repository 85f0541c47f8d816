-- ===== src/Tests/Admission.antt =====
-- The limiter at concrete inputs.
use gline.Base.{◌≡◌, refl, false, codes, [], ◌∷◌, pos, ok, err, arith}
use gline.Domain.Ids.{Ident}
use gline.Admission.Bucket.{second, refill, full_bucket, minute}
use gline.Admission.Limiter.{
  Config, ProjectState, Limiter, Reservation, project_inflight, limited, allow_ingest,
  charge_project, fresh_project,
}
use gline.Admission.Limiter.Bounds.{IsInBounds, ProjectInBounds, allow_ingest-IsInBounds}

abbrev small : Config
small = record {
  requests_per_minute = 2;
  entries_per_minute = 10;
  bytes_per_minute = 100;
  max_inflight = 1;
  state_ttl = minute;
}

abbrev project_id : Ident
project_id = codes "0a0a0a0a-0000-4000-8000-000000000001"

-- A project that was seen at the instant 5.
abbrev idle : ProjectState
idle = fresh_project small 5

abbrev busy : ProjectState
busy = record idle { inflight = 1 }

abbrev fresh : Limiter
fresh = record { config = small; last_cleanup = 0; keys = []; projects = (project_id, idle) ∷ [] }

idle-InBounds : ProjectInBounds small idle
unfolding full_bucket
idle-InBounds = record { entries = omega arith; bytes = omega arith; inflight = omega arith }

fresh-IsInBounds : IsInBounds fresh
fresh-IsInBounds = record { keys = tt; projects = (idle-InBounds, tt) }

allow_ingest-IsInBounds_example :
    IsInBounds (allow_ingest fresh 7 false project_id project_id (pos 3) (pos 20)).0
allow_ingest-IsInBounds_example =
    allow_ingest-IsInBounds fresh 7 false project_id project_id (pos 3) (pos 20) fresh-IsInBounds

abbrev reservation : Reservation
reservation = record { project_id = project_id; entry_cost = 3; byte_cost = 20; done = false }

abbrev charged : ProjectState
charged = (charge_project small 7 3 20 idle).0

charged-admitted : charge_project small 7 3 20 idle ≡ (charged, ok tt)
unfolding charge_project refill full_bucket
charged-admitted = refl

busy-rejected :
    charge_project small 7 3 20 busy
    ≡ ((charge_project small 7 3 20 busy).0, err (limited project_inflight second))
unfolding charge_project refill full_bucket
busy-rejected = refl
