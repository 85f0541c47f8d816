-- ===== src/Spool/Index/Present.antt =====
-- Laws of `present`: how the batches that Pending and Quarantined list change with the maps.
use gline.Base.{
  ◌≡◌, ◌≢◌, refl, ◌∙◌, not, some, Bytes, Map, List, [], ◌∷◌, ◌++◌, All, filter, lookup, delete, put,
  lookup-put, lookup-delete, bytes_eq, bytes_beq, bytes_beq_iff, arith, Option-cases, inl, inr,
}
use gline.Spool.Index.{present}

module _ {ℓ} {V : Type ℓ} where
  pub present-append :
      (m : Map Bytes V) (xs ys : List Bytes) → present m (xs ++ ys) ≡ present m xs ++ present m ys
  unfolding present
  present-append m [] ys = refl
  present-append m (x ∷ xs) ys = ground (arith, present-append m xs ys)

  pub present-put :
      (m : Map Bytes V) (k : Bytes) (v : V) (xs : List Bytes)
      → All (λ x. k ≢ x) xs
      → present (put k v m) xs ≡ present m xs
  unfolding present
  present-put m k v [] h = refl
  present-put m k v (x ∷ xs) h =
      ground (arith, lookup-put k x v m, h.0, bytes_beq_iff k x, present-put m k v xs h.1)

  -- A new key at the end of the order.
  pub present-put-snoc :
      (m : Map Bytes V) (k : Bytes) (v : V) (xs : List Bytes)
      → All (λ x. k ≢ x) xs
      → present (put k v m) (xs ++ k ∷ []) ≡ present m xs ++ v ∷ []
  unfolding present
  present-put-snoc m k v xs h =
      present-append (put k v m) xs (k ∷ [])
      ∙ ground (arith, present-put m k v xs h, lookup-put k k v m, bytes_beq_iff k k)

  -- Where every entry carries its key, deleting a key is filtering it out.
  module _ (key : V → Bytes) where
    pub present-delete :
        (m : Map Bytes V) (k : Bytes) (xs : List Bytes)
        → ((x : Bytes) (v : V) → lookup x m ≡ some v → key v ≡ x)
        → present (delete k m) xs ≡ filter (λ v. not (bytes_beq k (key v))) (present m xs)
    unfolding present
    present-delete m k [] keyed = refl
    present-delete m k (x ∷ xs) keyed = elim (Option-cases (lookup x m)) [
      | inl e ↦ ground (arith, lookup-delete k x m, e, present-delete m k xs keyed)
      | inr (v, e) ↦
          ground (arith, lookup-delete k x m, e, keyed x v e, present-delete m k xs keyed)
    ]
