-- ===== src/Admission/Bucket.antt =====
-- tokenBucket, fullBucket, refill and retryAfter of internal/server/admission/limiter.go. The source
-- holds tokens in a float64, and adds seconds times tokens per second to them. Here a token is
-- 60 * 10^9 units, of which a bucket of capacity c per minute gains c in a nanosecond, without rounding.
-- So the amounts that a refill adds and the wait that a rejection names may differ from the source's
-- by its rounding, and no claim rests on how much is gained over time or on the length of a wait.
pub mod Rate
use gline.Base.{ℕ, ◌+◌, ◌-◌, ◌*◌, ◌/◌, ◌^◌, min, Bool, ltb, leb, if◌then◌else◌}

-- Nanoseconds.
abbrev pub Time : Type 0
Time = ℕ

abbrev pub second : ℕ
second = 1_000_000_000

abbrev pub minute : ℕ
minute = 60_000_000_000

-- Units of a token.
abbrev pub scale : ℕ
scale = 60_000_000_000

pub record Bucket : Type 0 where
  pub tokens : ℕ
  pub last : Time

-- fullBucket
unfoldable pub full_bucket : ℕ → Time → Bucket
full_bucket capacity now = record { tokens = capacity * scale; last = now }

-- refill
unfoldable pub refill : Bucket → ℕ → Time → Bucket
refill b capacity now =
    if ltb b.last now
    then record {
      tokens = min (capacity * scale) (b.tokens + (now - b.last) * capacity);
      last = now;
    }
    else b

-- retryAfter: whole milliseconds, rounded up, as a duration in nanoseconds. A millisecond brings
-- 10^6 * capacity units.
unfoldable pub retry_after : ℕ → ℕ → ℕ → Time
retry_after available required capacity =
    if leb required available
    then 0
    else (let per_ms = 1_000_000 * capacity in
        (required - available + per_ms - 1) / per_ms * 1_000_000)
