-- ===== src/Admission.antt =====
-- internal/server/admission/limiter.go: token buckets for each key and each project, and the count of
-- requests in flight.
pub mod Bucket
pub mod Limiter
