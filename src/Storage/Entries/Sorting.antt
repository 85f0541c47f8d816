-- ===== src/Storage/Entries/Sorting.antt =====
-- The order of entries: sorting, filtering, and what comes behind an entry.
use gline.Base.{
  ◌≡◌, ◌≢◌, refl, inl, inr, Bool, true, false, ◌&&◌, List, [], ◌∷◌, ◌++◌, filter, All, All-map,
  Bool-cases, arith, if◌then◌else◌, if-keeps,
}
use gline.Storage.Entries.{StoredEntry, precedes, insert, sort}

-- Every entry comes before all that follow it.
abbrev pub IsSorted : List StoredEntry → Type 0
IsSorted [] = Unit {0}
IsSorted (e ∷ es) = All (λ x. precedes e x ≡ true) es × IsSorted es

-- The identifiers are those of a sequence: no two are the same.
abbrev pub IsDistinct : List StoredEntry → Type 0
IsDistinct [] = Unit {0}
IsDistinct (e ∷ es) = All (λ x. e.id ≢ x.id) es × IsDistinct es

precedes_trans :
    (a b c : StoredEntry) → precedes a b ≡ true → precedes b c ≡ true → precedes a c ≡ true
precedes_trans a b c h k = ground arith

precedes_total : (a b : StoredEntry) → a.id ≢ b.id → precedes a b ≡ false → precedes b a ≡ true
precedes_total a b h k = ground arith

module _ {ℓ} (P : StoredEntry → Type ℓ) where
  pub All-insert : (e : StoredEntry) (xs : List StoredEntry) → P e → All P xs → All P (insert e xs)
  unfolding insert
  All-insert e [] p ps = (p, tt)
  All-insert e (x ∷ xs) p ps =
      if-keeps (All P) (precedes e x) _ _ (λ _. (p, ps)) (λ _. (ps.0, All-insert e xs p ps.1))

  pub All-sort : (xs : List StoredEntry) → All P xs → All P (sort xs)
  unfolding sort
  All-sort [] ps = tt
  All-sort (x ∷ xs) ps = All-insert x (sort xs) ps.0 (All-sort xs ps.1)

  pub All-filter : (p : StoredEntry → Bool) (xs : List StoredEntry) → All P xs → All P (filter p xs)
  All-filter p [] ps = tt
  All-filter p (x ∷ xs) ps =
      if-keeps (All P) (p x) _ _ (λ _. (ps.0, All-filter p xs ps.1)) (λ _. All-filter p xs ps.1)

insert-IsSorted :
    (e : StoredEntry) (xs : List StoredEntry)
    → All (λ x. e.id ≢ x.id) xs
    → IsSorted xs
    → IsSorted (insert e xs)
unfolding insert
insert-IsSorted e [] d s = (tt, tt)
insert-IsSorted e (x ∷ xs) d s =
    if-keeps IsSorted (precedes e x) _ _
      (λ first. ((first, All-map xs (λ y h. precedes_trans e x y first h) s.0), s))
      (λ later. (
        All-insert (λ y. precedes x y ≡ true) e xs (precedes_total e x d.0 later) s.0,
        insert-IsSorted e xs d.1 s.1,
      ))

pub sort-IsSorted : (xs : List StoredEntry) → IsDistinct xs → IsSorted (sort xs)
unfolding sort
sort-IsSorted [] d = tt
sort-IsSorted (x ∷ xs) d =
    insert-IsSorted x (sort xs) (All-sort (λ y. x.id ≢ y.id) xs d.0) (sort-IsSorted xs d.1)

insert_first :
    (e : StoredEntry) (xs : List StoredEntry)
    → All (λ x. precedes e x ≡ true) xs
    → insert e xs ≡ e ∷ xs
unfolding insert
insert_first e [] h = refl
insert_first e (x ∷ xs) h = ground (arith, h.0)

module _ (p : StoredEntry → Bool) where
  filter-insert :
      (e : StoredEntry) (xs : List StoredEntry)
      → IsSorted xs
      → filter p (insert e xs) ≡ (if p e then insert e (filter p xs) else filter p xs)
  unfolding insert
  filter-insert e [] s = ground arith
  filter-insert e (x ∷ xs) s = elim (Bool-cases (precedes e x)) [
    | inl first ↦ ground (
      arith,
      first,
      insert_first e (filter p (x ∷ xs)) (
          All-filter (λ y. precedes e y ≡ true) p (x ∷ xs)
            (first, All-map xs (λ y h. precedes_trans e x y first h) s.0)),
    )
    | inr later ↦ ground (arith, later, filter-insert e xs s.1)
  ]

  -- Filtering the table and sorting is sorting and filtering.
  pub sort-filter :
      (xs : List StoredEntry) → IsDistinct xs → sort (filter p xs) ≡ filter p (sort xs)
  unfolding sort
  sort-filter [] d = refl
  sort-filter (x ∷ xs) d =
      ground (arith, filter-insert x (sort xs) (sort-IsSorted xs d.1), sort-filter xs d.1)

-- Two filters one after the other.
pub filter-filter :
    (p q : StoredEntry → Bool) (xs : List StoredEntry)
    → filter (λ e. p e && q e) xs ≡ filter q (filter p xs)
filter-filter p q [] = refl
filter-filter p q (x ∷ xs) = ground (arith, filter-filter p q xs)

pub filter-All :
    (p : StoredEntry → Bool) (xs : List StoredEntry) → All (λ x. p x ≡ true) xs → filter p xs ≡ xs
filter-All p [] h = refl
filter-All p (x ∷ xs) h = ground (arith, h.0, filter-All p xs h.1)

not_precedes_back : (a b : StoredEntry) → precedes a b ≡ true → precedes b a ≡ false
not_precedes_back a b h = ground arith

not_precedes_self : (a : StoredEntry) → precedes a a ≡ false
not_precedes_self a = ground arith

All-middle {ℓ} :
    (P : StoredEntry → Type ℓ) (front : List StoredEntry) (e : StoredEntry)
    (back : List StoredEntry)
    → All P (front ++ e ∷ back)
    → P e
All-middle P [] e back h = h.0
All-middle P (x ∷ front) e back h = All-middle P front e back h.1

-- What comes behind an entry of a sorted list is the rest of the list.
pub filter_behind :
    (front : List StoredEntry) (e : StoredEntry) (back : List StoredEntry)
    → IsSorted (front ++ e ∷ back)
    → filter (precedes e) (front ++ e ∷ back) ≡ back
filter_behind [] e back s = ground (arith, not_precedes_self e, filter-All (precedes e) back s.0)
filter_behind (x ∷ front) e back s = ground (
  arith,
  filter_behind front e back s.1,
  not_precedes_back x e (All-middle (λ y. precedes x y ≡ true) front e back s.0),
)
