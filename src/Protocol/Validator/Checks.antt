-- ===== src/Protocol/Validator/Checks.antt =====
-- What the validator's checks leave behind: they add errors, and only where something is wrong.
use gline.Base.{
  ℤ, pos, negsuc, above, to_nat, ◌≡◌, ◌≤◌, ◌<◌, Bool, true, false, not, ◌&&◌, ◌||◌, Bytes, bytes_eq,
  ◌==◌, [], ◌∷◌, length, length-append, if-keeps, if◌then◌else◌, arith, codes, ◌↔◌,
}
use gline.Protocol.Validator.{Validator, add, require_that, check_text, is_sound, fits}

pub add-length : (v : Validator) (path reason : Bytes) → 0 < length (add v path reason).fields
unfolding add
add-length v path reason =
    elim v.limit as (λ l. 0 < length (add (record v { limit = l }) path reason).fields) [
      | pos n ↦
          ground (arith, length-append v.fields (record { path = path; reason = reason } ∷ []))
      | negsuc n ↦
          ground (arith, length-append v.fields (record { path = path; reason = reason } ∷ []))
    ]

-- Nothing was found wrong.
abbrev pub IsClean : Validator → Type 0
IsClean v = length v.fields ≡ 0

pub require_that-IsClean :
    (v : Validator) (good : Bool) (path reason : Bytes)
    → IsClean (require_that v good path reason) ↔ ((good ≡ true) × IsClean v)
unfolding require_that
require_that-IsClean v good path reason = ground (arith, add-length v path reason)

-- What `text` asks of a value.
abbrev pub IsText : Bytes → ℤ → Bool → Type 0
IsText value max_bytes allow_empty =
    (is_sound value ≡ true)
    × ((not allow_empty && value == []) ≡ false)
    × (fits max_bytes value ≡ true)

add_if-IsClean :
    (v : Validator) (empty : Bool) (path reason : Bytes)
    → IsClean (if empty then add v path reason else v) ↔ ((empty ≡ false) × IsClean v)
add_if-IsClean v empty path reason = ground (arith, add-length v path reason)

pub check_text-IsClean :
    (v : Validator) (path value : Bytes) (max_bytes : ℤ) (allow_empty : Bool)
    → IsClean (check_text v path value max_bytes allow_empty)
      ↔ (IsText value max_bytes allow_empty × IsClean v)
unfolding check_text
check_text-IsClean v path value max_bytes allow_empty =
    let e = codes "must not be empty" in
    let empty = not allow_empty && value == [] in
    let filled = add_if-IsClean v empty path e in
    let rest =
      add_if-IsClean (if empty then add v path e else v) (not (fits max_bytes value)) path
        (codes "exceeds byte limit") in
    ground (
      arith,
      filled,
      rest,
      add-length v path (codes "must be valid UTF-8 without NUL"),
      add-length (if empty then add v path e else v) path (codes "exceeds byte limit"),
    )

module _ {ℓ} (P : Validator → Type ℓ)
    (keeps : (v : Validator) (path reason : Bytes) → P v → P (add v path reason)) where
  pub require-keeps :
      (v : Validator) (good : Bool) (path reason : Bytes)
      → P v
      → P (require_that v good path reason)
  unfolding require_that
  require-keeps v good path reason p = if-keeps P good _ _ (λ _. p) (λ _. keeps v path reason p)

  pub text-keeps :
      (v : Validator) (path value : Bytes) (max_bytes : ℤ) (allow_empty : Bool)
      → P v
      → P (check_text v path value max_bytes allow_empty)
  unfolding check_text
  text-keeps v path value max_bytes allow_empty p =
      let filled =
        if-keeps P (not allow_empty && value == []) _ v
          (λ _. keeps v path (codes "must not be empty") p) (λ _. p) in
      if-keeps P (is_sound value) _ _
        (λ _. if-keeps P (fits max_bytes value) _ _ (λ _. filled) (λ _. keeps _ path _ filled))
        (λ _. keeps v path _ p)

-- As many errors as the limit allows, where there is one.
abbrev pub IsBounded : ℤ → Validator → Type 0
IsBounded limit v = (v.limit ≡ limit) × (above limit 0 ≡ true → length v.fields ≤ to_nat limit)

pub add-IsBounded :
    (limit : ℤ) (v : Validator) (path reason : Bytes)
    → IsBounded limit v
    → IsBounded limit (add v path reason)
unfolding add
add-IsBounded limit v path reason h = (
  if-keeps (λ w. w.limit ≡ limit) (not (above v.limit 0) || above v.limit (length v.fields)) _ v
      (λ _. h.0) (λ _. h.0),
  λ positive. ground (
    arith,
    h.1 positive,
    h.0,
    length-append v.fields (record { path = path; reason = reason } ∷ []),
  ),
)
