-- ===== src/Storage/Entries/Paging.antt =====
-- That following the cursors reads every entry once.
use gline.Base.{
  ℕ, zero, suc, ◌≤◌, ◌<◌, ◌≡◌, refl, sym, ap, ◌∙◌, subst, to_nat, true, false, Option, none, some,
  List, [], ◌∷◌, ◌++◌, append_assoc, length, length-append, take, filter, All, All-map, lt→ltb,
  arith, ok,
}
use native.Mathlib.Decide.{dec_lt}
use gline.Domain.Queries.{EntryCursor, EntryQuery, validate_query}
use gline.Storage.Entries.{
  StoredEntry, Engine, precedes, satisfies, after_cursor, sort, selected, page_of, list_entries,
}
use gline.Storage.Entries.Sorting.{
  IsSorted, IsDistinct, All-sort, All-filter, sort-IsSorted, sort-filter, filter-filter,
  filter_behind, filter-All,
}
use gline.Storage.Entries.Pages.{
  walk, all_entries, IsRow, cursor_at, cut, page_of-full, page_of-rest, not_corrupt, All-take,
  All-behind, filter-IsDistinct, limit_positive, valid_next, after_start, kept_satisfies, All-true,
  length-all_entries,
}

regroup :
    (a b : List StoredEntry) (e : StoredEntry) (c : List StoredEntry)
    → a ++ (b ++ e ∷ c) ≡ (a ++ (b ++ e ∷ [])) ++ c
regroup a b e c =
    ap (λ l. a ++ l) (sym (append_assoc b (e ∷ []) c)) ∙ sym (append_assoc a (b ++ e ∷ []) c)

module _ (g : Engine) (table : List StoredEntry) (q : EntryQuery) (works : g.fails ≡ false)
    (rows : All (IsRow g) table) (distinct : IsDistinct table)
    (valid : validate_query (record q { cursor = none }) 0 500 ≡ ok tt) where
  abbrev limit : ℕ
  limit = to_nat q.limit

  selected-rest :
      (cursor : Option EntryCursor)
      → selected g (record q { cursor = cursor }) table
        ≡ filter (after_cursor cursor) (all_entries g table q)
  unfolding selected all_entries satisfies
  selected-rest cursor =
      ap sort (filter-filter (satisfies g q) (after_cursor cursor) table)
      ∙ sort-filter (after_cursor cursor) (filter (satisfies g q) table)
          (filter-IsDistinct (satisfies g q) table distinct)

  all_entries-IsSorted : IsSorted (all_entries g table q)
  unfolding all_entries
  all_entries-IsSorted =
      sort-IsSorted (filter (satisfies g q) table)
        (filter-IsDistinct (satisfies g q) table distinct)

  all_entries-rows : All (IsRow g) (all_entries g table q)
  unfolding all_entries
  all_entries-rows =
      All-sort (IsRow g) (filter (satisfies g q) table)
        (All-filter (IsRow g) (satisfies g q) table rows)

  all_entries-late : All (λ e. 1 ≤ e.row.observed_at) (all_entries g table q)
  unfolding all_entries
  all_entries-late =
      All-sort (λ e. 1 ≤ e.row.observed_at) (filter (satisfies g q) table)
        (All-map (filter (satisfies g q) table)
          (λ e h.
            omega
              (arith, after_start q g e h, (limit_positive (record q { cursor = none }) valid).1))
          (kept_satisfies (satisfies g q) table))

  list_entries-rest :
      (cursor : Option EntryCursor) (rest : List StoredEntry)
      → validate_query (record q { cursor = cursor }) 0 500 ≡ ok tt
      → filter (after_cursor cursor) (all_entries g table q) ≡ rest
      → All (IsRow g) rest
      → list_entries g table (record q { cursor = cursor })
        ≡ ok (page_of limit (take (suc limit) rest))
  unfolding list_entries
  list_entries-rest cursor rest ok_query e good =
      rw
        (
          ok_query,
          works,
          selected-rest cursor,
          e,
          not_corrupt g (take (suc (to_nat q.limit)) rest)
              (All-take (IsRow g) (suc (to_nat q.limit)) rest good),
        )
        refl

  walk-rest :
      (fuel : ℕ) (cursor : Option EntryCursor) (front rest : List StoredEntry)
      → validate_query (record q { cursor = cursor }) 0 500 ≡ ok tt
      → all_entries g table q ≡ front ++ rest
      → filter (after_cursor cursor) (all_entries g table q) ≡ rest
      → length rest < fuel
      → walk g table q fuel cursor ≡ ok rest
  unfolding walk after_cursor
  walk-rest zero cursor front rest v e f h = absurd (omega arith)
  walk-rest (suc n) cursor front rest v e f h =
      let good : All (IsRow g) rest =
        All-behind (IsRow g) front rest (subst (All (IsRow g)) e all_entries-rows) in
      elim (dec_lt limit (length rest)) [
        | yes more ↦
            (let c = cut limit rest (limit_positive (record q { cursor = none }) valid).0 more in
              let whole : all_entries g table q ≡ (front ++ c.front) ++ c.last ∷ c.back =
                e
                ∙ ap (λ l. front ++ l) c.whole
                ∙ sym (append_assoc front c.front (c.last ∷ c.back)) in
              let from_last = λ (P : StoredEntry → Type 0) (h : All P (all_entries g table q)).
                All-behind P (front ++ c.front) (c.last ∷ c.back) (subst (All P) whole h) in
              let behind : filter (precedes c.last) (all_entries g table q) ≡ c.back =
                ap (filter (precedes c.last)) whole
                ∙ filter_behind (front ++ c.front) c.last c.back
                    (subst IsSorted whole all_entries-IsSorted) in
              let after =
                walk-rest n (some (cursor_at c.last)) (front ++ (c.front ++ c.last ∷ [])) c.back
                  (valid_next q (cursor_at c.last) valid
                    (from_last (λ x. 1 ≤ x.row.observed_at) all_entries-late).0
                    (lt→ltb 0 c.last.id (from_last (IsRow g) all_entries-rows).0.0))
                  (e ∙ ap (λ l. front ++ l) c.whole ∙ regroup front c.front c.last c.back) behind
                  (omega (arith, h, ap length c.whole, length-append c.front (c.last ∷ c.back))) in
              rw (list_entries-rest cursor rest v f good) (
                rw (page_of-full limit rest c more)
                  (rw after (ap ok (append_assoc c.front (c.last ∷ []) c.back ∙ sym c.whole)))))
        | no few ↦
            rw (list_entries-rest cursor rest v f good)
              (rw (page_of-rest limit rest (omega arith)) refl)
      ]

-- A client follows the cursors from the first page on, over a table whose rows have distinct positive
-- identifiers and attributes that decode, while the database answers. In at most one page more than the table has rows it
-- gets every row that the query asks for, each exactly once, latest first.
pub walk_complete :
    (g : Engine) (table : List StoredEntry) (q : EntryQuery)
    → g.fails ≡ false
    → All (IsRow g) table
    → IsDistinct table
    → validate_query (record q { cursor = none }) 0 500 ≡ ok tt
    → walk g table q (suc (length table)) none ≡ ok (all_entries g table q)
unfolding after_cursor
walk_complete g table q works rows distinct valid =
    walk-rest g table q works rows distinct valid (suc (length table)) none []
      (all_entries g table q) valid refl
      (filter-All (λ e. true) (all_entries g table q) (All-true (all_entries g table q)))
      (omega (arith, length-all_entries g table q))
