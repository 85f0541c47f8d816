-- ===== src/Reliable/Control.antt =====
-- internal/agent/reliable/control.go: PipelineState. Every method holds the mutex, so it is one step on
-- the state. The texts of reports that are built with Sprintf are values of a data type.
pub mod Reports
use gline.Base.{
  ℕ, ◌+◌, ℤ, pos, above, Bool, true, false, not, ◌&&◌, ◌||◌, Option, none, some, Bytes, codes,
  bytes_eq, int_eq, List, [], ◌∷◌, ◌++◌, Map, lookup, put, delete, has, length, take, ltb, ◌==◌,
  is_blank, trim_space, contains, Result, ok, err, ◌>>=◌, ◌>>◌, reject_if, if◌then◌else◌,
}

pub record PipelineControl : Type 0 where
  pub id : Bytes
  pub desired_status : Bytes
  pub config_version : ℤ

-- The part of a configured pipeline that the state reads.
pub record LocalPipeline : Type 0 where
  pub id : Bytes
  pub config_version : ℤ

pub data ControlError : Type 0 where
  invalid_pipeline : ControlError
  duplicate_pipeline : Bytes → ControlError

pub record PipelineState : Type 0 where
  pub order : List Bytes
  pub local_version : Map Bytes ℤ
  pub desired : Map Bytes PipelineControl
  pub control_known : Bool
  pub active : Map Bytes Bool
  pub failures : Map Bytes Bytes

unfoldable pub add_local : PipelineState → List LocalPipeline → Result ControlError PipelineState
add_local s [] = ok s
add_local s (p ∷ ps) = do
  let id : Bytes = trim_space p.id
  reject_if (id == [] || not (above p.config_version 0)) invalid_pipeline
  reject_if (has id s.local_version) (duplicate_pipeline id)
  add_local
      (record s {
        order = s.order ++ id ∷ [];
        local_version = put id p.config_version s.local_version;
      })
      ps

-- NewPipelineState
unfoldable pub new_pipeline_state : List LocalPipeline → Result ControlError PipelineState
unfolding add_local
new_pipeline_state ps =
    add_local
      (record {
        order = [];
        local_version = [];
        desired = [];
        control_known = false;
        active = [];
        failures = [];
      })
      ps

abbrev pub status_enabled : Bytes
status_enabled = codes "enabled"

abbrev pub status_error : Bytes
status_error = codes "error"

-- validDesiredStatus
abbrev pub valid_desired_status : Bytes → Bool
valid_desired_status s =
    contains s (status_enabled ∷ codes "paused" ∷ status_error ∷ codes "disabled" ∷ [])

-- The loop of Apply over the snapshot.
unfoldable pub collect :
    Map Bytes PipelineControl
    → List PipelineControl
    → Result ControlError (Map Bytes PipelineControl)
collect desired [] = ok desired
collect desired (p ∷ ps) = do
  let q : PipelineControl = record p { id = trim_space p.id }
  reject_if
      (q.id == [] || not (above q.config_version 0) || not (valid_desired_status q.desired_status))
      invalid_pipeline
  reject_if (has q.id desired) (duplicate_pipeline q.id)
  collect (put q.id q desired) ps

-- Apply
unfoldable pub apply :
    PipelineState → List PipelineControl → PipelineState × Result ControlError (Unit {0})
apply s snapshot = elim (collect [] snapshot) [
  | err e ↦ (s, err e)
  | ok desired ↦ (record s { desired = desired; control_known = true }, ok tt)
]

-- Start
unfoldable pub start : PipelineState → Bytes → PipelineState
start s id = record s { active = put id true s.active; failures = delete id s.failures }

-- Stop
unfoldable pub stop : PipelineState → Bytes → PipelineState
stop s id = record s { active = put id false s.active }

-- boundedError
unfoldable pub bounded_error : Option Bytes → Bytes
bounded_error none = codes "pipeline failed"
bounded_error (some message) = if ltb 2048 (length message) then take 2048 message else message

-- Fail
unfoldable pub fail : PipelineState → Bytes → Option Bytes → PipelineState
unfolding bounded_error
fail s id e = record s {
  active = put id false s.active;
  failures = put id (bounded_error e) s.failures;
}

-- Go's zero values for missing keys.
abbrev pub text_of : Map Bytes Bytes → Bytes → Bytes
text_of m id = elim (lookup id m) [ none ↦ [] | some t ↦ t ]

abbrev pub flag_of : Map Bytes Bool → Bytes → Bool
flag_of m id = elim (lookup id m) [ none ↦ false | some b ↦ b ]

abbrev pub version_of : Map Bytes ℤ → Bytes → ℤ
version_of m id = elim (lookup id m) [ none ↦ pos 0 | some v ↦ v ]

unfoldable pub desires : PipelineState → Bytes → Bool
desires s id = elim (lookup id s.desired) [
  | none ↦ false
  | some c ↦ c.desired_status == status_enabled && c.config_version == version_of s.local_version id
]

-- runnableLocked
unfoldable pub runnable : PipelineState → Bytes → Bool
unfolding desires
runnable s id =
    if not (text_of s.failures id == [])
    then false
    else if not s.control_known
    then true
    else desires s id

-- The message of a report.
pub data Message : Type 0 where
  no_message not_registered server_error : Message
  failure : Bytes → Message
  version_mismatch : ℤ → ℤ → Message

pub data ReportStatus : Type 0 where
  running stopped error : ReportStatus

-- What the server's word alone makes of the report, if it decides it.
unfoldable pub report_control : PipelineState → Bytes → Option (ReportStatus × Message)
report_control s id = elim (lookup id s.desired) [
  | none ↦ some (error, not_registered)
  | some c ↦
      if not (c.config_version == version_of s.local_version id)
      then some (error, version_mismatch (version_of s.local_version id) c.config_version)
      else if c.desired_status == status_error
      then some (error, server_error)
      else if not (c.desired_status == status_enabled)
      then some (stopped, no_message)
      else none
]

unfoldable pub report_activity : PipelineState → Bytes → ReportStatus × Message
report_activity s id = if flag_of s.active id then (running, no_message) else (stopped, no_message)

-- reportLocked
unfoldable pub report : PipelineState → Bytes → ReportStatus × Message
unfolding report_control report_activity
report s id =
    if not (text_of s.failures id == [])
    then (error, failure (text_of s.failures id))
    else if s.control_known
    then elim (report_control s id) [ some r ↦ r | none ↦ report_activity s id ]
    else report_activity s id

-- One round of WaitUntilRunnable's loop: it fails, returns, or waits for the channel.
pub data Readiness : Type 0 where
  unknown_pipeline ready waits : Readiness

unfoldable pub readiness : PipelineState → Bytes → Readiness
unfolding runnable
readiness s id =
    if not (has id s.local_version)
    then unknown_pipeline
    else if runnable s id
    then ready
    else waits

-- Reports
unfoldable pub reports : PipelineState → List Bytes → List (Bytes × ℤ × (ReportStatus × Message))
unfolding report
reports s [] = []
reports s (id ∷ ids) = (id, version_of s.local_version id, report s id) ∷ reports s ids
