-- ===== src/Storage/Entries/Pages.antt =====
-- A client that follows the cursors of List from page to page.
use gline.Base.{
  ℕ, zero, suc, ◌≤◌, ◌<◌, ◌≡◌, refl, ap, ◌∙◌, ◌≢◌, if-keeps, pos, above, to_nat, Bool, true, false,
  Option, none, some, List, [], ◌∷◌, ◌++◌, length, length-take, take, take_all, filter, All, lt→ltb,
  ge→ltb, arith, Result, ok, ◌>>=◌,
}
use gline.Domain.Queries.{EntryCursor, EntryQuery, validate_query}
use gline.Storage.{StoreError}
use gline.Storage.Entries.{
  StoredEntry, Engine, satisfies, insert, sort, page_of, last_cursor, any_corrupt, list_entries,
}
use gline.Storage.Entries.Sorting.{IsDistinct, All-filter}

-- The entries of at most `pages` pages.
unfoldable pub walk :
    Engine
    → List StoredEntry
    → EntryQuery
    → ℕ
    → Option EntryCursor
    → Result StoreError (List StoredEntry)
walk g table q zero cursor = ok []
walk g table q (suc pages) cursor = do
  page ← list_entries g table (record q { cursor = cursor })
  elim page.next [
    | none ↦ ok page.entries
    | some c ↦ do rest ← walk g table q pages (some c); ok (page.entries ++ rest)
  ]

-- The query without its limit: all that satisfies it, in its order.
unfoldable pub all_entries : Engine → List StoredEntry → EntryQuery → List StoredEntry
all_entries g table q = sort (filter (satisfies g q) table)

-- Rows as the schema has them: a positive identifier, and attributes that are an object.
abbrev pub IsRow : Engine → StoredEntry → Type 0
IsRow g e = (1 ≤ e.id) × (g.is_object e.row.attributes ≡ true)

abbrev pub cursor_at : StoredEntry → EntryCursor
cursor_at e = record { observed_at = e.row.observed_at; id = pos e.id }

-- Where a full page ends.
pub record Cut (limit : ℕ) (rows : List StoredEntry) : Type 0 where
  pub front : List StoredEntry
  pub last : StoredEntry
  pub back : List StoredEntry
  pub whole : rows ≡ front ++ last ∷ back
  pub page : take limit rows ≡ front ++ last ∷ []
  pub cursor : last_cursor (front ++ last ∷ []) ≡ some (cursor_at last)

pub last_cursor-cons :
    (x : StoredEntry) (front : List StoredEntry) (last : StoredEntry)
    → last_cursor (x ∷ (front ++ last ∷ [])) ≡ last_cursor (front ++ last ∷ [])
unfolding last_cursor
last_cursor-cons x [] last = refl
last_cursor-cons x (y ∷ front) last = refl

pub cut : (limit : ℕ) (rows : List StoredEntry) → 1 ≤ limit → limit < length rows → Cut limit rows
unfolding last_cursor
cut zero rows h k = absurd (omega arith)
cut (suc n) [] h k = absurd (omega arith)
cut (suc zero) (x ∷ xs) h k = record {
  front = [];
  last = x;
  back = xs;
  whole = refl;
  page = refl;
  cursor = refl;
}
cut (suc (suc n)) (x ∷ xs) h k =
    let c = cut (suc n) xs (omega arith) (omega arith) in
    record {
      front = x ∷ c.front;
      last = c.last;
      back = c.back;
      whole = ap (λ l. x ∷ l) c.whole;
      page = ap (λ l. x ∷ l) c.page;
      cursor = last_cursor-cons x c.front c.last ∙ c.cursor;
    }

pub take-take : (n : ℕ) (rows : List StoredEntry) → take n (take (suc n) rows) ≡ take n rows
take-take zero rows = refl
take-take (suc n) [] = refl
take-take (suc n) (x ∷ xs) = ap (λ l. x ∷ l) (take-take n xs)

pub page_of-full :
    (limit : ℕ) (rows : List StoredEntry) (c : Cut limit rows)
    → limit < length rows
    → page_of limit (take (suc limit) rows)
      ≡ record { entries = c.front ++ c.last ∷ []; next = some (cursor_at c.last) }
unfolding page_of
page_of-full limit rows c more =
    rw (lt→ltb limit (length (take (suc limit) rows)) (omega (arith, length-take (suc limit) rows)))
      (rw (take-take limit rows) (rw c.page (rw c.cursor refl)))

pub page_of-rest :
    (limit : ℕ) (rows : List StoredEntry)
    → length rows ≤ limit
    → page_of limit (take (suc limit) rows) ≡ record { entries = rows; next = none }
unfolding page_of
page_of-rest limit rows few =
    rw (take_all (suc limit) rows (omega arith)) (rw (ge→ltb limit (length rows) few) refl)

pub not_corrupt :
    (g : Engine) (rows : List StoredEntry) → All (IsRow g) rows → any_corrupt g rows ≡ false
unfolding any_corrupt
not_corrupt g [] h = refl
not_corrupt g (e ∷ es) h = ground (arith, not_corrupt g es h.1, h.0.1)

pub All-take {ℓ} :
    (P : StoredEntry → Type ℓ) (n : ℕ) (rows : List StoredEntry) → All P rows → All P (take n rows)
All-take P zero rows h = tt
All-take P (suc n) [] h = tt
All-take P (suc n) (x ∷ xs) h = (h.0, All-take P n xs h.1)

pub All-behind {ℓ} :
    (P : StoredEntry → Type ℓ) (front back : List StoredEntry) → All P (front ++ back) → All P back
All-behind P [] back h = h
All-behind P (x ∷ front) back h = All-behind P front back h.1

pub filter-IsDistinct :
    (p : StoredEntry → Bool) (xs : List StoredEntry) → IsDistinct xs → IsDistinct (filter p xs)
filter-IsDistinct p [] d = tt
filter-IsDistinct p (x ∷ xs) d =
    if-keeps IsDistinct (p x) _ _
      (λ _. (All-filter (λ y. x.id ≢ y.id) p xs d.0, filter-IsDistinct p xs d.1))
      (λ _. filter-IsDistinct p xs d.1)

pub limit_positive :
    (q : EntryQuery) → validate_query q 0 500 ≡ ok tt → (1 ≤ to_nat q.limit) × (1 ≤ q.from)
unfolding validate_query
limit_positive q h = (ground arith, ground arith)

pub valid_next :
    (q : EntryQuery) (c : EntryCursor)
    → validate_query (record q { cursor = none }) 0 500 ≡ ok tt
    → 1 ≤ c.observed_at
    → above c.id 0 ≡ true
    → validate_query (record q { cursor = some c }) 0 500 ≡ ok tt
unfolding validate_query
valid_next q c h t i = ground arith

pub after_start :
    (q : EntryQuery) (g : Engine) (e : StoredEntry)
    → satisfies g q e ≡ true
    → q.from ≤ e.row.observed_at
unfolding satisfies
after_start q g e h = ground arith

pub kept_satisfies :
    (p : StoredEntry → Bool) (xs : List StoredEntry) → All (λ x. p x ≡ true) (filter p xs)
kept_satisfies p [] = tt
kept_satisfies p (x ∷ xs) =
    if-keeps (All (λ y. p y ≡ true)) (p x) _ _ (λ h. (h, kept_satisfies p xs))
      (λ _. kept_satisfies p xs)

pub All-true : (xs : List StoredEntry) → All (λ e. true ≡ true) xs
All-true [] = tt
All-true (x ∷ xs) = (refl, All-true xs)

pub length-insert :
    (e : StoredEntry) (xs : List StoredEntry) → length (insert e xs) ≡ suc (length xs)
unfolding insert
length-insert e [] = refl
length-insert e (x ∷ xs) = ground (arith, length-insert e xs)

pub length-sort : (xs : List StoredEntry) → length (sort xs) ≡ length xs
unfolding sort
length-sort [] = refl
length-sort (x ∷ xs) = length-insert x (sort xs) ∙ ap suc (length-sort xs)

pub length-filter :
    (p : StoredEntry → Bool) (xs : List StoredEntry) → length (filter p xs) ≤ length xs
length-filter p [] = omega arith
length-filter p (x ∷ xs) = ground (arith, length-filter p xs)

pub length-all_entries :
    (g : Engine) (table : List StoredEntry) (q : EntryQuery)
    → length (all_entries g table q) ≤ length table
unfolding all_entries
length-all_entries g table q =
    omega (arith, length-sort (filter (satisfies g q) table), length-filter (satisfies g q) table)
