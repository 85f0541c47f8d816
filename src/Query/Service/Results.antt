-- ===== src/Query/Service/Results.antt =====
-- What a search that succeeds returns.
use gline.Base.{
  ℕ, zero, suc, ◌≤◌, ◌<◌, ◌≡◌, sym, ap, subst, ◌∙◌, inl, inr, ℤ, pos, negsuc, above, to_nat, Bool,
  true, false, ◌&&◌, some, Bytes, bytes_eq, bytes_beq_iff, List, [], ◌∷◌, length, take, filter, All,
  arith, ok, length-take, take_all, Result-cases, if-keeps,
}
use gline.Domain.Ids.{Ident}
use gline.Domain.Queries.{EntryCursor, EntryQuery, elapsed}
use gline.Auth.{Principal}
use gline.Storage.{Db}
use gline.Storage.Entries.{
  StoredEntry, Engine, EntryPage, satisfies, after_cursor, selected, list_entries, page_of,
  last_cursor,
}
use gline.Storage.Entries.Sorting.{All-sort}
use gline.Query.Service.{
  QueryLib, Config, Params, World, Page, build_query, search, start_at, next_cursor_of,
}

-- An entry of the principal's project, from the range of the query.
pub record IsAsked (q : EntryQuery) (e : StoredEntry) : Type 0 where
  pub project : e.row.project_id ≡ q.project_id
  pub from : q.from ≤ e.row.observed_at
  pub to : e.row.observed_at < q.to

pub satisfies-IsAsked :
    (g : Engine) (q : EntryQuery) (e : StoredEntry) → satisfies g q e ≡ true → IsAsked q e
unfolding satisfies
satisfies-IsAsked g q e h = record {
  project = ground (arith, bytes_beq_iff e.row.project_id q.project_id);
  from = ground arith;
  to = ground arith;
}

pub kept {ℓ} :
    (P : StoredEntry → Type ℓ) (p : StoredEntry → Bool) (xs : List StoredEntry)
    → ((e : StoredEntry) → p e ≡ true → P e)
    → All P (filter p xs)
kept P p [] h = tt
kept P p (x ∷ xs) h = if-keeps (All P) (p x) _ _ (λ e. (h x e, kept P p xs h)) (λ _. kept P p xs h)

pub All-take {ℓ} :
    (P : StoredEntry → Type ℓ) (n : ℕ) (xs : List StoredEntry) → All P xs → All P (take n xs)
All-take P zero xs h = tt
All-take P (suc n) [] h = tt
All-take P (suc n) (x ∷ xs) h = (h.0, All-take P n xs h.1)

pub page_of-entries :
    (limit : ℕ) (xs : List StoredEntry) → (page_of limit xs).entries ≡ take limit xs
unfolding page_of
page_of-entries limit xs = ground (arith, take_all limit xs)

pub page_of-next :
    (limit : ℕ) (xs : List StoredEntry) (c : EntryCursor)
    → (page_of limit xs).next ≡ some c
    → last_cursor (page_of limit xs).entries ≡ some c
unfolding page_of
page_of-next limit xs c h = ground arith

-- The rows that a page of List is cut from.
pub list_entries-rows :
    (g : Engine) (table : List StoredEntry) (q : EntryQuery) (page : EntryPage)
    → list_entries g table q ≡ ok page
    → page ≡ page_of (to_nat q.limit) (take (suc (to_nat q.limit)) (selected g q table))
unfolding list_entries
list_entries-rows g table q page h = ground arith

pub satisfied :
    (g : Engine) (q : EntryQuery) (e : StoredEntry)
    → (satisfies g q e && after_cursor q.cursor e) ≡ true
    → IsAsked q e
satisfied g q e h = satisfies-IsAsked g q e (ground (arith, h))

pub selected-IsAsked :
    (g : Engine) (table : List StoredEntry) (q : EntryQuery) → All (IsAsked q) (selected g q table)
unfolding selected
selected-IsAsked g table q = All-sort (IsAsked q) _ (kept (IsAsked q) _ table (satisfied g q))

-- Every entry of a page of List is asked for, and there are at most as many as the limit.
pub list_entries-IsAsked :
    (g : Engine) (table : List StoredEntry) (q : EntryQuery) (page : EntryPage)
    → list_entries g table q ≡ ok page
    → All (IsAsked q) page.entries × (length page.entries ≤ to_nat q.limit)
list_entries-IsAsked g table q page h =
    let limit = to_nat q.limit in
    let rows = take (suc limit) (selected g q table) in
    let e : page.entries ≡ take limit rows =
      ap (λ x. x.entries) (list_entries-rows g table q page h) ∙ page_of-entries limit rows in
    (
      subst (All (IsAsked q)) (sym e) (
          All-take (IsAsked q) limit rows
            (All-take (IsAsked q) (suc limit) (selected g q table) (selected-IsAsked g table q))),
      omega (arith, ap length e, length-take limit rows),
    )

-- The parts of a search that succeeded.
pub record Searched (lib : QueryLib) (secret : Bytes) (config : Config) (db : Db)
    (table : List StoredEntry) (w : World) (p : Principal) (params : Params) (page : Page)
    : Type 0 where
  pub query : EntryQuery
  pub hash : Bytes
  pub started : EntryQuery
  pub listed : EntryPage
  pub built : build_query lib config p.project_id params ≡ ok (query, hash)
  pub start : start_at lib secret p.project_id params.cursor query hash ≡ ok started
  pub list : list_entries w.engine table started ≡ ok listed
  pub entries : page.entries ≡ listed.entries
  pub next : next_cursor_of lib secret p.project_id hash listed.next ≡ ok page.next_cursor

pub search-Searched :
    (lib : QueryLib) (secret : Bytes) (config : Config) (db : Db) (table : List StoredEntry)
    (w : World) (p : Principal) (params : Params) (page : Page)
    → search lib secret config db table w p params ≡ ok page
    → Searched lib secret config db table w p params page
unfolding search
search-Searched lib secret config db table w p params page h =
    elim (Result-cases (build_query lib config p.project_id params)) [
      | inr (e, failed) ↦ absurd (ground (arith, failed))
      | inl ((query, hash), built) ↦
          elim (Result-cases (start_at lib secret p.project_id params.cursor query hash)) [
            | inr (e, failed) ↦ absurd (ground (arith, built, failed))
            | inl (started, start) ↦ elim (Result-cases (list_entries w.engine table started)) [
              | inr (e, failed) ↦ absurd (ground (arith, built, start, failed))
              | inl (listed, list) ↦
                  elim (Result-cases (next_cursor_of lib secret p.project_id hash listed.next)) [
                    | inr (e, failed) ↦ absurd (ground (arith, built, start, list, failed))
                    | inl (raw, next) ↦ record {
                      query = query;
                      hash = hash;
                      started = started;
                      listed = listed;
                      built = built;
                      start = start;
                      list = list;
                      entries = ground (arith, built, start, list, next);
                      next = ground (arith, built, start, list, next);
                    }
                  ]
            ]
          ]
    ]

pub not_above : (i : ℤ) (n : ℕ) → above i n ≡ false → to_nat i ≤ n
not_above (pos m) n h = ground arith
not_above (negsuc m) n h = ground arith

-- What buildQuery has checked, and what does not change with the cursor.
pub built_bounds :
    (lib : QueryLib) (config : Config) (project : Ident) (params : Params) (q : EntryQuery)
    (hash : Bytes)
    → build_query lib config project params ≡ ok (q, hash)
    → (q.project_id ≡ project)
      × (elapsed q.to q.from ≤ config.max_range)
      × (to_nat q.limit ≤ config.max_limit)
unfolding build_query
built_bounds lib config project params q hash h = (
  ground arith,
  ground (arith, not_above q.limit config.max_limit),
  ground (arith, not_above q.limit config.max_limit),
)

pub started_same :
    (lib : QueryLib) (secret : Bytes) (project : Ident) (hash raw : Bytes) (q started : EntryQuery)
    → start_at lib secret project raw q hash ≡ ok started
    → (started.project_id ≡ q.project_id)
      × (started.from ≡ q.from)
      × (started.to ≡ q.to)
      × (started.limit ≡ q.limit)
unfolding start_at
started_same lib secret project hash [] q started h = ground arith
started_same lib secret project hash (r ∷ raw) q started h = ground arith

-- A search that succeeds returns entries of the principal's project only, from a range no longer than
-- the configured one, and no more of them than the configured maximum.
pub search_bounded :
    (lib : QueryLib) (secret : Bytes) (config : Config) (db : Db) (table : List StoredEntry)
    (w : World) (p : Principal) (params : Params) (page : Page)
    → search lib secret config db table w p params ≡ ok page
    → (q : EntryQuery) × All (IsAsked q) page.entries
      × (q.project_id ≡ p.project_id)
      × (elapsed q.to q.from ≤ config.max_range)
      × (length page.entries ≤ config.max_limit)
search_bounded lib secret config db table w p params page h =
    let s = search-Searched lib secret config db table w p params page h in
    let (project, range, limit) =
      built_bounds lib config p.project_id params s.query s.hash s.built in
    let (same_project, same_from, same_to, same_limit) =
      started_same lib secret p.project_id s.hash params.cursor s.query s.started s.start in
    let (asked, few) = list_entries-IsAsked w.engine table s.started s.listed s.list in
    (
      s.started,
      subst (All (IsAsked s.started)) (sym s.entries) asked,
      same_project ∙ project,
      omega (arith, range, same_from, same_to),
      omega (arith, ap length s.entries, few, ap to_nat same_limit, limit),
    )
