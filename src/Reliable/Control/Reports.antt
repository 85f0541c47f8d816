-- ===== src/Reliable/Control/Reports.antt =====
-- What the reports of pipelines say, and how the methods change what may run.
use gline.Base.{
  ◌≡◌, ◌≢◌, ◌↔◌, refl, sym, ◌∙◌, true, false, none, some, Bytes, bytes_eq, bytes_beq, bytes_beq_iff,
  ltb, length, take, if-keeps, int_eq, List, [], ◌∷◌, Map, lookup, put, delete, lookup-put,
  lookup-delete, arith, if◌then◌else◌, ◌==◌, ap, inl, inr, Option-cases,
}
use gline.Reliable.Control.{
  PipelineState, PipelineControl, runnable, desires, report, report_control, flag_of, running,
  start, fail, bounded_error, apply, text_of, report_activity, status_enabled, status_error,
  ReportStatus, Message,
}

not_both : (t : Bytes) → t ≡ status_enabled → (t == status_error) ≡ false
unfolding bytes_beq
not_both t e = ap (λ x. x == status_error) e

control_lets :
    (s : PipelineState) (id : Bytes) → (report_control s id ≡ none) ↔ (desires s id ≡ true)
unfolding report_control desires
control_lets s id = elim (Option-cases (lookup id s.desired)) [
  | inl nothing ↦ ground (arith, nothing)
  | inr (c, found) ↦
      ground
        (arith, found, not_both c.desired_status, bytes_beq_iff c.desired_status status_enabled)
]

control_not_running :
    (s : PipelineState) (id : Bytes) (r : ReportStatus × Message)
    → report_control s id ≡ some r
    → r.0 ≢ running
unfolding report_control
control_not_running s id r h = ground arith

-- A pipeline is reported as running exactly if it is active and it may run.
pub running_iff :
    (s : PipelineState) (id : Bytes)
    → ((report s id).0 ≡ running) ↔ ((runnable s id ≡ true) × (flag_of s.active id ≡ true))
unfolding report report_activity runnable
running_iff s id = elim (Option-cases (report_control s id)) [
  | inl lets ↦ ground (arith, lets, control_lets s id)
  | inr (r, says) ↦ ground (arith, says, control_lets s id, control_not_running s id r says)
]

bounded_some : (message : Bytes) → message ≢ [] → bounded_error (some message) ≢ []
unfolding bounded_error
bounded_some [] h = absurd (h refl)
bounded_some (x ∷ xs) h =
    if-keeps (λ t. t ≢ []) (ltb 2048 (length (x ∷ xs))) (take 2048 (x ∷ xs)) (x ∷ xs)
      (λ e. λ f. ground (arith, f)) (λ e. h)

failed-stops : (s : PipelineState) (id : Bytes) → text_of s.failures id ≢ [] → runnable s id ≡ false
unfolding runnable
failed-stops s id h = ground (arith, bytes_beq_iff (text_of s.failures id) [])

apply-failures :
    (s : PipelineState) (snapshot : List PipelineControl)
    → (apply s snapshot).0.failures ≡ s.failures
unfolding apply
apply-failures s snapshot = ground arith

text_put : (m : Map Bytes Bytes) (id t : Bytes) → text_of (put id t m) id ≡ t
text_put m id t = ground (arith, lookup-put id id t m, bytes_beq_iff id id)

text_delete : (m : Map Bytes Bytes) (id : Bytes) → text_of (delete id m) id ≡ []
text_delete m id = ground (arith, lookup-delete id id m, bytes_beq_iff id id)

fail-failures :
    (s : PipelineState) (id message : Bytes)
    → text_of (fail s id (some message)).failures id ≡ bounded_error (some message)
unfolding fail
fail-failures s id message = text_put s.failures id (bounded_error (some message))

-- A pipeline that fails with a message that is not empty may not run after any snapshot that the
-- server sends next.
pub failed_stays_stopped :
    (s : PipelineState) (id message : Bytes) (snapshot : List PipelineControl)
    → message ≢ []
    → runnable (apply (fail s id (some message)) snapshot).0 id ≡ false
failed_stays_stopped s id message snapshot h =
    failed-stops (apply (fail s id (some message)) snapshot).0 id (λ e. bounded_some message h (
      sym (fail-failures s id message)
      ∙ ap (λ m. text_of m id) (sym (apply-failures (fail s id (some message)) snapshot))
      ∙ e))

-- A start lets the pipeline run exactly if the server's word does, or is not known yet.
pub started_may_run :
    (s : PipelineState) (id : Bytes)
    → runnable (start s id) id ≡ (if s.control_known then desires s id else true)
unfolding runnable start desires bytes_beq
started_may_run s id = rw (text_delete s.failures id, runnable) (ground arith)
