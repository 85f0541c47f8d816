-- ===== src/Storage/Entries.antt =====
-- internal/storage/postgres/entry.go: the query of the table of entries. The statement's WHERE, ORDER
-- BY and LIMIT are functions on the table; ILIKE is an argument. The database keeps microseconds: of a
-- query whose instants are not whole microseconds it compares others, and this model the given ones.
pub mod Sorting
pub mod Pages
pub mod Paging
use gline.Base.{
  ℕ, suc, ◌+◌, ℤ, pos, below, above, to_nat, Bool, true, false, not, ◌&&◌, ◌||◌, Option, none, some,
  Bytes, bytes_eq, ◌==◌, codes, List, [], ◌∷◌, ◌++◌, length, take, filter, contains, ltb, leb,
  nat_beq, Result, ok, err, ◌>>=◌, ◌>>◌, reject_if, map_err, if◌then◌else◌,
}
use gline.Domain.Models.{Time}
use gline.Domain.Queries.{EntryCursor, EntryQuery, validate_query}
use gline.Storage.{EntryRow, StoreError, domain, corrupt_row, statement_failed}

-- A row with what the database adds to it: the identifier of its sequence, and when it was written.
pub record StoredEntry : Type 0 where
  pub id : ℕ
  pub row : EntryRow
  pub ingested_at : Time

-- What the database and the decoder of attributes do in a query.
pub record Engine : Type 0 where
  pub ilike : Bytes → Bytes → Bool
  pub fails : Bool
  pub is_object : Bytes → Bool

-- The replacer of containsPattern.
unfoldable pub escape_pattern : Bytes → Bytes
escape_pattern [] = []
escape_pattern (c ∷ cs) =
    let rest = escape_pattern cs in
    if nat_beq c 0x5c || nat_beq c 0x25 || nat_beq c 0x5f then 0x5c ∷ c ∷ rest else c ∷ rest

-- containsPattern
unfoldable pub contains_pattern : Bytes → Bytes
unfolding escape_pattern
contains_pattern value = codes "%" ++ (escape_pattern value ++ codes "%")

-- appendIn: no values are no condition.
is_in : Bytes → List Bytes → Bool
is_in value [] = true
is_in value (v ∷ vs) = contains value (v ∷ vs)

is_like : Engine → Bytes → Bytes → Bool
is_like e text [] = true
is_like e text (c ∷ cs) = e.ilike text (contains_pattern (c ∷ cs))

-- (observed_at, id) < (t, n)
abbrev pub is_past : Time → ℤ → StoredEntry → Bool
is_past t n e = ltb e.row.observed_at t || nat_beq e.row.observed_at t && above n e.id

unfoldable pub after_cursor : Option EntryCursor → StoredEntry → Bool
after_cursor none e = true
after_cursor (some c) e = is_past c.observed_at c.id e

-- The conditions of buildEntryQuery but the cursor's.
unfoldable pub satisfies : Engine → EntryQuery → StoredEntry → Bool
unfolding is_in is_like
satisfies g q e =
    e.row.project_id == q.project_id
    && leb q.from e.row.observed_at
    && ltb e.row.observed_at q.to
    && is_in e.row.service q.services
    && is_in e.row.host q.hosts
    && is_in e.row.level q.levels
    && is_like g e.row.message q.message

-- ORDER BY observed_at DESC, id DESC
abbrev pub precedes : StoredEntry → StoredEntry → Bool
precedes a b = is_past a.row.observed_at (pos a.id) b

unfoldable pub insert : StoredEntry → List StoredEntry → List StoredEntry
insert e [] = e ∷ []
insert e (x ∷ xs) = let rest = insert e xs in if precedes e x then e ∷ x ∷ xs else x ∷ rest

unfoldable pub sort : List StoredEntry → List StoredEntry
unfolding insert
sort [] = []
sort (e ∷ es) = insert e (sort es)

-- The rows that the statement selects, in its order, before its LIMIT.
unfoldable pub selected : Engine → EntryQuery → List StoredEntry → List StoredEntry
unfolding satisfies after_cursor sort
selected g q table = sort (filter (λ e. satisfies g q e && after_cursor q.cursor e) table)

pub record EntryPage : Type 0 where
  pub entries : List StoredEntry
  pub next : Option EntryCursor

-- The last element of a list, as a cursor.
unfoldable pub last_cursor : List StoredEntry → Option EntryCursor
last_cursor [] = none
last_cursor (e ∷ []) = some (record { observed_at = e.row.observed_at; id = pos e.id })
last_cursor (e ∷ x ∷ xs) = last_cursor (x ∷ xs)

-- The page of the rows that the statement returned.
unfoldable pub page_of : ℕ → List StoredEntry → EntryPage
unfolding last_cursor
page_of limit rows =
    if ltb limit (length rows)
    then record { entries = take limit rows; next = last_cursor (take limit rows) }
    else record { entries = rows; next = none }

unfoldable pub any_corrupt : Engine → List StoredEntry → Bool
any_corrupt g [] = false
any_corrupt g (e ∷ es) = not (g.is_object e.row.attributes) || any_corrupt g es

-- EntryRepository.List
unfoldable pub list_entries : Engine → List StoredEntry → EntryQuery → Result StoreError EntryPage
unfolding selected page_of any_corrupt
list_entries g table q = do
  map_err domain (validate_query q 0 500)
  reject_if g.fails statement_failed
  let rows = take (suc (to_nat q.limit)) (selected g q table)
  reject_if (any_corrupt g rows) corrupt_row
  ok (page_of (to_nat q.limit) rows)
