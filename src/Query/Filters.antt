-- ===== src/Query/Filters.antt =====
-- What normalizeFilter makes of the values of a filter.
use gline.Base.{
  ℕ, ◌≡◌, subst, bytes_beq, if-keeps, sym, ap, ◌∙◌, Bool, false, ◌||◌, Bytes, bytes_eq,
  bytes_beq_iff, ◌==◌, List, [], ◌∷◌, Map, put, delete, map, contains, sort_strings, IsUnique,
  IsAscending, IsAscending-ext, sort_strings-IsAscending, contains-sort_strings, ltb, length, ok,
  ◌>>=◌, >>=-eq-ok, ok_inj, reject_if, if◌then◌else◌, arith,
}
use gline.Query.Service.{
  QueryLib, QueryError, clean, is_bad_value, collect_values, normalize_filter,
}

abbrev keys : Map Bytes (Unit {0}) → List Bytes
keys m = map (λ p. p.0) m

contains-delete :
    (v k : Bytes) (m : Map Bytes (Unit {0}))
    → contains v (keys (delete k m)) ≡ (if k == v then false else contains v (keys m))
unfolding contains delete
contains-delete v k [] = ground arith
contains-delete v k ((j, u) ∷ m) =
    ground (arith, contains-delete v k m, bytes_beq_iff j k, bytes_beq_iff j v, bytes_beq_iff k v)

contains-put :
    (v k : Bytes) (m : Map Bytes (Unit {0}))
    → contains v (keys (put k tt m)) ≡ (k == v || contains v (keys m))
unfolding contains put
contains-put v k m = ground (arith, contains-delete v k m)

delete-IsUnique :
    (k : Bytes) (m : Map Bytes (Unit {0})) → IsUnique (keys m) → IsUnique (keys (delete k m))
unfolding delete
delete-IsUnique k [] u = tt
delete-IsUnique k ((j, t) ∷ m) u =
    if-keeps (λ l. IsUnique (keys l)) (bytes_beq j k) _ _ (λ same. delete-IsUnique k m u.1)
      (λ other. (ground (arith, contains-delete j k m, u.0), delete-IsUnique k m u.1))

put-IsUnique :
    (k : Bytes) (m : Map Bytes (Unit {0})) → IsUnique (keys m) → IsUnique (keys (put k tt m))
unfolding put
put-IsUnique k m u =
    (ground (arith, contains-delete k k m, bytes_beq_iff k k), delete-IsUnique k m u)

module _ (lib : QueryLib) (max_bytes : ℕ) (upper : Bool) where
  collect-IsUnique :
      (vs : List Bytes) (m m' : Map Bytes (Unit {0}))
      → IsUnique (keys m)
      → collect_values lib max_bytes upper vs m ≡ ok m'
      → IsUnique (keys m')
  unfolding collect_values
  collect-IsUnique [] m m' u h = subst (λ l. IsUnique (keys l)) (ok_inj h) u
  collect-IsUnique (v ∷ vs) m m' u h =
      let (t, good, more) =
        >>=-eq-ok
          (reject_if (is_bad_value lib max_bytes (clean lib upper v)) QueryError.invalid_filter)
          (λ _. collect_values lib max_bytes upper vs (put (clean lib upper v) tt m)) h in
      collect-IsUnique vs (put (clean lib upper v) tt m) m' (put-IsUnique (clean lib upper v) m u)
        more

  collect-members :
      (vs : List Bytes) (m m' : Map Bytes (Unit {0})) (x : Bytes)
      → collect_values lib max_bytes upper vs m ≡ ok m'
      → contains x (keys m') ≡ (contains x (map (clean lib upper) vs) || contains x (keys m))
  unfolding collect_values contains
  collect-members [] m m' x h = ground arith
  collect-members (v ∷ vs) m m' x h =
      let (t, good, more) =
        >>=-eq-ok
          (reject_if (is_bad_value lib max_bytes (clean lib upper v)) QueryError.invalid_filter)
          (λ _. collect_values lib max_bytes upper vs (put (clean lib upper v) tt m)) h in
      ground (
        arith,
        collect-members vs (put (clean lib upper v) tt m) m' x more,
        contains-put x (clean lib upper v) m,
      )

  module _ (max_items : ℕ) where
    -- What normalizeFilter accepts is the cleaned values, ascending and each once.
    normalized :
        (vs out : List Bytes)
        → normalize_filter lib vs max_items max_bytes upper ≡ ok out
        → IsAscending out × ((x : Bytes) → contains x out ≡ contains x (map (clean lib upper) vs))
    unfolding normalize_filter contains
    normalized vs out h =
        let (t, few, more) =
          >>=-eq-ok (reject_if (ltb max_items (length vs)) QueryError.invalid_filter)
            (λ _. collect_values lib max_bytes upper vs [] >>= λ unique.
              ok (sort_strings (keys unique)))
            h in
        let (m, collected, sorted) =
          >>=-eq-ok (collect_values lib max_bytes upper vs [])
            (λ unique. ok (sort_strings (keys unique))) more in
        let e : sort_strings (keys m) ≡ out = ok_inj sorted in
        (
          subst IsAscending e
              (sort_strings-IsAscending (keys m) (collect-IsUnique vs [] m tt collected)),
          λ x.
              ap (contains x) (sym e)
              ∙ contains-sort_strings x (keys m)
              ∙ ground (arith, collect-members vs [] m x collected),
        )

    -- Two filters that both pass, and whose values are the same ones once white space around them and
    -- the case of levels are put aside, normalize to the same list, in whatever order and however
    -- often each value is given.
    pub normalize_filter_same :
        (vs ws out out' : List Bytes)
        → normalize_filter lib vs max_items max_bytes upper ≡ ok out
        → normalize_filter lib ws max_items max_bytes upper ≡ ok out'
        → ((x : Bytes)
            → contains x (map (clean lib upper) vs) ≡ contains x (map (clean lib upper) ws))
        → out ≡ out'
    normalize_filter_same vs ws out out' h k same =
        let (a, members) = normalized vs out h in
        let (b, members') = normalized ws out' k in
        IsAscending-ext out out' a b (λ x. members x ∙ same x ∙ sym (members' x))
