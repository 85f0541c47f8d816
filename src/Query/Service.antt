-- ===== src/Query/Service.antt =====
-- Search of internal/server/query/service.go, and what it builds its query from. The packages time,
-- strings (for upper case), json and sha256 are arguments; metrics and filterShape's use in them are
-- left out. The limiter's answer is an argument of a search.
pub mod Results
pub mod Continued
use gline.Base.{
  ℕ, zero, ◌-◌, ◌^◌, ℤ, pos, above, below, to_nat, Bool, true, false, not, ◌&&◌, ◌||◌, Option, none,
  some, Bytes, bytes_eq, ◌==◌, codes, List, [], ◌∷◌, map, Map, put, length, sort_strings,
  valid_utf8, has_nul, trim_space, is_blank, ltb, leb, nat_beq, Result, ok, err, ◌>>=◌, ◌>>◌,
  reject_if, or_fail, map_err, if◌then◌else◌,
}
use gline.Domain.Ids.{Ident}
use gline.Domain.Status.{scope_query}
use gline.Domain.Models.{Time, DomainError, can_query}
use gline.Domain.Queries.{EntryCursor, EntryQuery, validate_query, elapsed}
use gline.Auth.{Principal, require}
use gline.Storage.{Db, Faults, StoreError, select_project}
use gline.Storage.Entries.{StoredEntry, Engine, EntryPage, list_entries}
use gline.Query.Cursor.{CursorLib, CursorError, encode, decode}

pub data QueryError : Type 0 where
  domain : DomainError → QueryError
  invalid_time_range invalid_limit invalid_filter invalid_config : QueryError
  cursor : CursorError → QueryError
  store : StoreError → QueryError
  capacity_limited execution_timeout no_release not_encodable : QueryError

pub record Config : Type 0 where
  pub max_range : ℕ
  pub default_limit : ℕ
  pub max_limit : ℕ
  pub max_filter_items : ℕ
  pub max_filter_bytes : ℕ
  pub max_message_bytes : ℕ

-- The limits that NewService accepts. The execution timeout bounds nothing that is modelled.
unfoldable pub new_config : ℤ → ℤ → ℤ → ℤ → ℤ → ℤ → Result QueryError Config
new_config range default_limit limit items bytes message = do
  reject_if
      (not (above range 0)
        || not (above default_limit 0)
        || below limit (to_nat default_limit)
        || not (above items 0)
        || not (above bytes 0)
        || not (above message 0))
      invalid_config
  ok (record {
    max_range = to_nat range;
    default_limit = to_nat default_limit;
    max_limit = to_nat limit;
    max_filter_items = to_nat items;
    max_filter_bytes = to_nat bytes;
    max_message_bytes = to_nat message;
  })

pub record Params : Type 0 where
  pub from : Bytes
  pub to : Bytes
  pub services : List Bytes
  pub hosts : List Bytes
  pub levels : List Bytes
  pub message : Bytes
  pub limit : ℤ
  pub cursor : Bytes

-- What queryFilterHash marshals.
pub record FilterPayload : Type 0 where
  pub from : Bytes
  pub to : Bytes
  pub services : List Bytes
  pub hosts : List Bytes
  pub levels : List Bytes
  pub message : Bytes

-- time.Parse gives the year and the instant of an RFC 3339 text.
pub record QueryLib : Type 0 where
  pub cursors : CursorLib
  pub parse_rfc3339 : Bytes → Option (ℕ × Time)
  pub to_upper : Bytes → Bytes
  pub marshal_filter : FilterPayload → Option Bytes
  pub sha256 : Bytes → Bytes

module _ (lib : QueryLib) where
  -- parseTime
  unfoldable pub parse_time : Bytes → Result QueryError Time
  parse_time raw = do
    reject_if (is_blank raw) invalid_time_range
    parsed ← or_fail (lib.parse_rfc3339 raw) invalid_time_range
    reject_if (ltb parsed.0 1970 || ltb 9999 parsed.0) invalid_time_range
    ok parsed.1

  -- The value that normalizeFilter keeps of a given one.
  unfoldable pub clean : Bool → Bytes → Bytes
  clean upper value = if upper then lib.to_upper (trim_space value) else trim_space value

  abbrev pub is_bad_value : ℕ → Bytes → Bool
  is_bad_value max_bytes value =
      value == [] || not (valid_utf8 value) || has_nul value || ltb max_bytes (length value)

  unfoldable pub collect_values :
      ℕ → Bool → List Bytes → Map Bytes (Unit {0}) → Result QueryError (Map Bytes (Unit {0}))
  collect_values max_bytes upper [] unique = ok unique
  collect_values max_bytes upper (v ∷ vs) unique = do
    reject_if (is_bad_value max_bytes (clean upper v)) invalid_filter
    collect_values max_bytes upper vs (put (clean upper v) tt unique)

  -- normalizeFilter
  unfoldable pub normalize_filter : List Bytes → ℕ → ℕ → Bool → Result QueryError (List Bytes)
  normalize_filter values max_items max_bytes upper = do
    reject_if (ltb max_items (length values)) invalid_filter
    unique ← collect_values max_bytes upper values []
    ok (sort_strings (map (λ p. p.0) unique))

  -- queryFilterHash
  unfoldable pub query_filter_hash : EntryQuery → Result QueryError Bytes
  query_filter_hash q = do
    encoded ←
        or_fail
          (lib.marshal_filter (record {
            from = lib.cursors.format_time q.from;
            to = lib.cursors.format_time q.to;
            services = q.services;
            hosts = q.hosts;
            levels = q.levels;
            message = q.message;
          }))
          not_encodable
    ok (lib.sha256 encoded)

  -- A limit of zero is the default one.
  unfoldable pub effective_limit : Config → ℤ → ℤ
  effective_limit c (pos zero) = pos c.default_limit
  effective_limit c limit = limit

  abbrev pub is_bad_message : Config → Bytes → Bool
  is_bad_message c message =
      not (valid_utf8 message) || has_nul message || ltb c.max_message_bytes (length message)

  -- buildQuery
  unfoldable pub build_query : Config → Ident → Params → Result QueryError (EntryQuery × Bytes)
  build_query c project p = do
    from ← parse_time p.from
    to ← parse_time p.to
    reject_if (not (ltb from to) || ltb c.max_range (elapsed to from)) invalid_time_range
    let limit = effective_limit c p.limit
    reject_if (below limit 1 || above limit c.max_limit) invalid_limit
    services ← normalize_filter p.services c.max_filter_items c.max_filter_bytes false
    hosts ← normalize_filter p.hosts c.max_filter_items c.max_filter_bytes false
    levels ← normalize_filter p.levels c.max_filter_items c.max_filter_bytes true
    reject_if (is_bad_message c (trim_space p.message)) invalid_filter
    let query : EntryQuery = record {
      project_id = project;
      from = from;
      to = to;
      services = services;
      hosts = hosts;
      levels = levels;
      message = trim_space p.message;
      cursor = none;
      limit = limit;
    }
    map_err domain (validate_query query c.max_range c.max_limit)
    hash ← query_filter_hash query
    ok (query, hash)

  -- The cursor of the request, which must lie in the range of the query.
  unfoldable pub start_at :
      Bytes → Ident → Bytes → EntryQuery → Bytes → Result QueryError EntryQuery
  start_at secret project [] q hash = ok q
  start_at secret project (r ∷ raw) q hash = do
    position ← map_err cursor (decode lib.cursors secret (r ∷ raw) project hash)
    reject_if (ltb position.observed_at q.from || not (ltb position.observed_at q.to))
        (cursor CursorError.invalid_cursor)
    ok (record q { cursor = some position })

-- What the limiter answers, where there is one.
pub data Acquired : Type 0 where
  unlimited acquired : Acquired
  busy late nil_release : Acquired

unfoldable pub acquire : Acquired → Result QueryError (Unit {0})
acquire unlimited = ok tt
acquire acquired = ok tt
acquire busy = err capacity_limited
acquire late = err execution_timeout
acquire nil_release = err no_release

-- What the outside does in a search; the flags tell whether an error is a deadline that passed.
pub record World : Type 0 where
  pub faults : Faults
  pub project_late : Bool
  pub acquired : Acquired
  pub engine : Engine
  pub list_late : Bool

-- classifyExecutionError
unfoldable pub classify : Bool → StoreError → QueryError
classify passed e = if passed then execution_timeout else store e

pub record Page : Type 0 where
  pub entries : List StoredEntry
  pub next_cursor : Bytes

unfoldable pub next_cursor_of :
    QueryLib → Bytes → Ident → Bytes → Option EntryCursor → Result QueryError Bytes
next_cursor_of lib secret project hash none = ok []
next_cursor_of lib secret project hash (some c) =
    map_err cursor (encode lib.cursors secret project hash c)

-- Search
unfoldable pub search :
    QueryLib
    → Bytes
    → Config
    → Db
    → List StoredEntry
    → World
    → Principal
    → Params
    → Result QueryError Page
unfolding build_query start_at acquire classify next_cursor_of
search lib secret config db table w p params = do
  map_err domain (require p scope_query)
  built ← build_query lib config p.project_id params
  project ← map_err (classify w.project_late) (select_project w.faults db p.project_id)
  map_err domain (can_query project)
  query ← start_at lib secret p.project_id params.cursor built.0 built.1
  acquire w.acquired
  page ← map_err (classify w.list_late) (list_entries w.engine table query)
  next ← next_cursor_of lib secret p.project_id built.1 page.next
  ok (record { entries = page.entries; next_cursor = next })
