-- ===== src/Admission/Bucket/Rate.antt =====
-- A bucket is never over its capacity.
use gline.Base.{ℕ, ◌*◌, ◌≤◌, arith}
use gline.Admission.Bucket.{Bucket, scale, refill}

pub refill-le-capacity :
    (b : Bucket) (capacity now : ℕ)
    → b.tokens ≤ capacity * scale
    → (refill b capacity now).tokens ≤ capacity * scale
unfolding refill
refill-le-capacity b capacity now h = ground arith
