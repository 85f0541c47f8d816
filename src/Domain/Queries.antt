-- ===== src/Domain/Queries.antt =====
-- internal/domain/query.go: the query of entries, its cursor and its validation.
use gline.Base.{
  ℕ, ◌-◌, ◌^◌, ℤ, above, Bool, false, not, ◌&&◌, ◌||◌, Option, none, some, Bytes, List, [], ◌∷◌,
  ltb, nat_beq, is_blank, min, Result, ◌>>◌, reject_if,
}
use gline.Domain.Ids.{Ident, valid_uuid}
use gline.Domain.Models.{Time, DomainError, invalid}

pub record EntryCursor : Type 0 where
  pub observed_at : Time
  pub id : ℤ

pub record EntryQuery : Type 0 where
  pub project_id : Ident
  pub from : Time
  pub to : Time
  pub services : List Bytes
  pub hosts : List Bytes
  pub levels : List Bytes
  pub message : Bytes
  pub cursor : Option EntryCursor
  pub limit : ℤ

-- time.Time.Sub, for an instant that is not before the other: a Duration is at most 2^63 - 1.
abbrev pub elapsed : Time → Time → ℕ
elapsed to from = min (to - from) (2 ^ 63 - 1)

abbrev pub cursor_invalid : Option EntryCursor → Bool
cursor_invalid none = false
cursor_invalid (some c) = nat_beq c.observed_at 0 || not (above c.id 0)

unfoldable pub any_blank : List Bytes → Bool
any_blank [] = false
any_blank (v ∷ vs) = is_blank v || any_blank vs

-- EntryQuery.Validate: a bound of zero bounds nothing.
unfoldable pub validate_query : EntryQuery → ℕ → ℕ → Result DomainError (Unit {0})
unfolding any_blank
validate_query q max_range max_limit = do
  reject_if (not (valid_uuid q.project_id)) invalid
  reject_if (nat_beq q.from 0 || nat_beq q.to 0 || not (ltb q.from q.to)) invalid
  reject_if (ltb 0 max_range && ltb max_range (elapsed q.to q.from)) invalid
  reject_if (not (above q.limit 0) || ltb 0 max_limit && above q.limit max_limit) invalid
  reject_if (cursor_invalid q.cursor) invalid
  reject_if (any_blank q.services || any_blank q.hosts || any_blank q.levels) invalid
