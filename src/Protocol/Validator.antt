-- ===== src/Protocol/Validator.antt =====
-- The validator and the limits of internal/protocol/ingestv1/protocol.go.
pub mod Checks
use gline.Base.{
  ℕ, ℤ, pos, below, above, Bool, true, false, not, ◌&&◌, ◌||◌, Bytes, bytes_eq, ◌==◌, codes, List,
  [], ◌∷◌, ◌++◌, length, contains, valid_utf8, has_nul, if◌then◌else◌,
}

pub record Limits : Type 0 where
  pub max_body_bytes : ℤ
  pub max_entries : ℤ
  pub max_service_bytes : ℤ
  pub max_host_bytes : ℤ
  pub max_level_bytes : ℤ
  pub max_message_bytes : ℤ
  pub max_attributes_bytes : ℤ
  pub max_attributes_depth : ℤ
  pub max_field_errors : ℤ

-- DefaultLimits
abbrev pub default_limits : Limits
default_limits = record {
  max_body_bytes = pos 4194304;
  max_entries = pos 2000;
  max_service_bytes = pos 128;
  max_host_bytes = pos 255;
  max_level_bytes = pos 16;
  max_message_bytes = pos 262144;
  max_attributes_bytes = pos 65536;
  max_attributes_depth = pos 8;
  max_field_errors = pos 16;
}

pub record FieldError : Type 0 where
  pub path : Bytes
  pub reason : Bytes

pub record Validator : Type 0 where
  pub fields : List FieldError
  pub limit : ℤ

-- add: no limit, or below it
unfoldable pub add : Validator → Bytes → Bytes → Validator
add v path reason =
    if not (above v.limit 0) || above v.limit (length v.fields)
    then record v { fields = v.fields ++ record { path = path; reason = reason } ∷ [] }
    else v

-- require
unfoldable pub require_that : Validator → Bool → Bytes → Bytes → Validator
unfolding add
require_that v good path reason = if good then v else add v path reason

abbrev pub is_sound : Bytes → Bool
is_sound value = valid_utf8 value && not (has_nul value)

abbrev pub fits : ℤ → Bytes → Bool
fits max_bytes value = not (above max_bytes 0 && below max_bytes (length value))

-- text
unfoldable pub check_text : Validator → Bytes → Bytes → ℤ → Bool → Validator
unfolding add
check_text v path value max_bytes allow_empty =
    if is_sound value
    then (let v' =
          if not allow_empty && value == [] then add v path (codes "must not be empty") else v in
        if fits max_bytes value then v' else add v' path (codes "exceeds byte limit"))
    else add v path (codes "must be valid UTF-8 without NUL")

-- validLevel
unfoldable pub valid_level : Bytes → Bool
unfolding contains
valid_level level = contains level (
    codes "TRACE"
    ∷ codes "DEBUG"
    ∷ codes "INFO"
    ∷ codes "WARN"
    ∷ codes "ERROR"
    ∷ codes "FATAL"
    ∷ [])
