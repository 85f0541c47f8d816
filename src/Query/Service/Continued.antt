-- ===== src/Query/Service/Continued.antt =====
-- That the cursor of a page takes a search on behind it.
use gline.Base.{
  some_inj, ok_inj, ◌&&◌, ◌%◌, pos, ℕ, ◌≤◌, ◌<◌, ◌≡◌, ◌≢◌, refl, sym, ap, subst, ◌∙◌, inl, inr,
  to_nat, Bool, true, Option, none, some, Bytes, bytes_eq, List, [], ◌∷◌, length, All, arith, ok,
  map_err-ok, Option-cases,
}
use gline.Domain.Ids.{Ident}
use gline.Domain.Queries.{EntryCursor, EntryQuery}
use gline.Auth.{Principal}
use gline.Storage.{Db}
use gline.Storage.Entries.{StoredEntry, EntryPage, page_of, last_cursor}
use gline.Query.Cursor.{CursorLaws, is_int64, encode, decode}
use gline.Query.Cursor.Trust.{decode-encode}
use gline.Query.Service.{
  QueryLib, Config, Params, QueryError, World, Page, build_query, search, start_at, next_cursor_of,
}
use gline.Query.Service.Results.{
  IsAsked, page_of-next, list_entries-rows, list_entries-IsAsked, search-Searched, started_same,
}

last_cursor-range :
    (q : EntryQuery) (es : List StoredEntry) (c : EntryCursor)
    → All (IsAsked q) es
    → last_cursor es ≡ some c
    → (q.from ≤ c.observed_at) × (c.observed_at < q.to)
unfolding last_cursor
last_cursor-range q [] c a h = absurd (ground (arith, h))
last_cursor-range q (e ∷ []) c a h = ground (arith, h, a.0.from, a.0.to)
last_cursor-range q (e ∷ x ∷ xs) c a h = last_cursor-range q (x ∷ xs) c a.1 h

-- The position of an entry.
abbrev pub cursor_at : StoredEntry → EntryCursor
cursor_at e = record { observed_at = e.row.observed_at; id = pos e.id }

last_cursor-test :
    (f : EntryCursor → Bool) (es : List StoredEntry) (c : EntryCursor)
    → All (λ e. f (cursor_at e) ≡ true) es
    → last_cursor es ≡ some c
    → f c ≡ true
unfolding last_cursor
last_cursor-test f [] c a h = absurd (ground (arith, h))
last_cursor-test f (e ∷ []) c a h = ap f (sym (some_inj h)) ∙ a.0
last_cursor-test f (e ∷ x ∷ xs) c a h = last_cursor-test f (x ∷ xs) c a.1 h

last_of_page :
    (limit : ℕ) (xs : List StoredEntry) (page : EntryPage) (c : EntryCursor)
    → page ≡ page_of limit xs
    → page.next ≡ some c
    → last_cursor page.entries ≡ some c
last_of_page limit xs page c e h =
    ap (λ x. last_cursor x.entries) e ∙ page_of-next limit xs c (ap (λ x. x.next) (sym e) ∙ h)

module _ (lib : QueryLib) (secret : Bytes) (project : Ident) (hash raw : Bytes) where
  no_next :
      (m : Option EntryCursor)
      → m ≡ none
      → next_cursor_of lib secret project hash m ≡ ok raw
      → raw ≡ []
  unfolding next_cursor_of
  no_next none e h = ground arith
  no_next (some c) e h = absurd (ground (arith, e))

  encoded_next :
      (m : Option EntryCursor) (c : EntryCursor)
      → m ≡ some c
      → next_cursor_of lib secret project hash m ≡ ok raw
      → encode lib.cursors secret project hash c ≡ ok raw
  unfolding next_cursor_of
  encoded_next none c e h = absurd (ground (arith, e))
  encoded_next (some d) c e h =
      subst (λ x. encode lib.cursors secret project hash x ≡ ok raw) (ground (arith, e))
        (map_err-ok QueryError.cursor (encode lib.cursors secret project hash d) h)

start_at-decoded :
    (lib : QueryLib) (secret : Bytes) (project : Ident) (hash raw : Bytes) (q : EntryQuery)
    (c : EntryCursor)
    → raw ≢ []
    → decode lib.cursors secret raw project hash ≡ ok c
    → q.from ≤ c.observed_at
    → c.observed_at < q.to
    → start_at lib secret project raw q hash ≡ ok (record q { cursor = some c })
unfolding start_at
start_at-decoded lib secret project hash [] q c n d from to = absurd (n refl)
start_at-decoded lib secret project hash (r ∷ raw) q c n d from to = ground (arith, d)

-- How a page goes on: from the position of its last entry, right behind which the query starts.
pub record Continues (lib : QueryLib) (secret : Bytes) (project : Ident) (page : Page)
    (query : EntryQuery) (hash : Bytes) : Type 0 where
  pub last : EntryCursor
  pub position : last_cursor page.entries ≡ some last
  pub start :
      start_at lib secret project page.next_cursor query hash
      ≡ ok (record query { cursor = some last })

-- A position with an instant that can be formatted and an identifier of 64 bits.
abbrev pub is_sendable : QueryLib → EntryCursor → Bool
is_sendable lib c = lib.cursors.is_formattable c.observed_at && is_int64 c.id

-- The cursor of a page of a search takes the same search on right behind the page's last entry: over
-- packages that keep what they document and hashes of 32 bytes, for a range of whole microseconds, as
-- the database keeps instants, and entries with identifiers of 64 bits and instants whose year has
-- four digits, it is accepted with the same parameters, and decodes to the position of that entry.
pub search-Continues :
    (lib : QueryLib) (secret : Bytes) (config : Config) (db : Db) (table : List StoredEntry)
    (w : World) (p : Principal) (params : Params) (page : Page) (query : EntryQuery) (hash : Bytes)
    → CursorLaws lib.cursors
    → build_query lib config p.project_id params ≡ ok (query, hash)
    → length hash ≡ 32
    → query.from % 1000 ≡ 0
    → query.to % 1000 ≡ 0
    → All (λ e. is_sendable lib (cursor_at e) ≡ true) page.entries
    → search lib secret config db table w p params ≡ ok page
    → page.next_cursor ≢ []
    → Continues lib secret p.project_id page query hash
search-Continues lib secret config db table w p params page query hash laws built size from_micros
      to_micros fits h more =
    let s = search-Searched lib secret config db table w p params page h in
    elim (Option-cases s.listed.next) [
      | inl nothing ↦ absurd (
          more
            (no_next lib secret p.project_id s.hash page.next_cursor s.listed.next nothing s.next))
      | inr (c, found) ↦
          (let (same_project, same_from, same_to, same_limit) =
              started_same lib secret p.project_id s.hash params.cursor s.query s.started s.start in
            let (asked, few) = list_entries-IsAsked w.engine table s.started s.listed s.list in
            let last : last_cursor s.listed.entries ≡ some c =
              last_of_page (to_nat s.started.limit) _ s.listed c
                (list_entries-rows w.engine table s.started s.listed s.list) found in
            let (from, to) = last_cursor-range s.started s.listed.entries c asked last in
            let from' : s.query.from ≤ c.observed_at = omega (arith, from, same_from) in
            let to' : c.observed_at < s.query.to = omega (arith, to, same_to) in
            let sendable =
              last_cursor-test (is_sendable lib) page.entries c fits
                (ap last_cursor s.entries ∙ last) in
            let four : lib.cursors.is_formattable c.observed_at ≡ true = ground (arith, sendable) in
            let word : is_int64 c.id ≡ true = ground (arith, sendable) in
            let same : ◌≡◌ {A = EntryQuery × Bytes} (s.query, s.hash) (query, hash) =
              ok_inj (sym s.built ∙ built) in
            let taken =
              start_at-decoded lib secret p.project_id s.hash page.next_cursor s.query c more
                (decode-encode lib.cursors secret laws p.project_id s.hash c page.next_cursor
                  (ap (λ (qh : EntryQuery × Bytes). length qh.1) same ∙ size) four word
                  (encoded_next lib secret p.project_id s.hash page.next_cursor s.listed.next c
                    found s.next))
                from' to' in
            record {
              last = c;
              position = ap last_cursor s.entries ∙ last;
              start =
                  subst
                    (λ qh.
                      start_at lib secret p.project_id page.next_cursor qh.0 qh.1
                      ≡ ok (record (qh.0) { cursor = some c }))
                    same taken;
            })
    ]
