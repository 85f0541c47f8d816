-- ===== src/Base/Maps.antt =====
-- Go maps as association lists with one entry for a key. Iteration order is left open by Go: where
-- the program ranges over a map, what it computes is stated for every order.
use mathlib.Core.Path.{◌≡◌, refl}
use mathlib.Core.Bool.{Bool, true, false}
use mathlib.Core.Option.{Option, none, some}
use mathlib.Core.List.{List, [], ◌∷◌}
use native.Mathlib.Omega.{arith}
use mathlib.Core.Path.{subst}
use mathlib.Core.Logic.{inl, inr}
use gline.Base.Tests.{if-keeps, Bool-cases, if◌then◌else◌, Eq, ◌==◌}

abbrev pub Map {ℓ κ} : Type ℓ → Type κ → Type (ℓ ⊔ κ)
Map K V = List (K × V)

module _ {ℓ κ} {K : Type ℓ} {V : Type κ} ⦃e : Eq K⦄ where
  unfoldable pub lookup : K → Map K V → Option V
  lookup k [] = none
  lookup k ((j, v) ∷ m) = if j == k then some v else lookup k m

  unfoldable pub delete : K → Map K V → Map K V
  delete k [] = []
  delete k ((j, v) ∷ m) = let rest = delete k m in if j == k then rest else (j, v) ∷ rest

  unfoldable pub put : K → V → Map K V → Map K V
  unfolding delete
  put k v m = (k, v) ∷ delete k m

  unfoldable pub has : K → Map K V → Bool
  has k m = elim (lookup k m) [ none ↦ false | some v ↦ true ]

  pub lookup-nil : (k : K) → lookup k [] ≡ none
  unfolding lookup
  lookup-nil k = refl

  pub lookup-delete :
      (k j : K) (m : Map K V) → lookup j (delete k m) ≡ (if k == j then none else lookup j m)
  unfolding lookup delete
  lookup-delete k j [] = ground arith
  lookup-delete k j ((i, v) ∷ m) =
      ground (arith, lookup-delete k j m, e.beq_iff i k, e.beq_iff i j, e.beq_iff k j)

  pub lookup-put :
      (k j : K) (v : V) (m : Map K V)
      → lookup j (put k v m) ≡ (if k == j then some v else lookup j m)
  unfolding lookup put
  lookup-put k j v m = ground (arith, lookup-delete k j m)

  pub has-put :
      (k j : K) (v : V) (m : Map K V) → has j (put k v m) ≡ (if k == j then true else has j m)
  unfolding has
  has-put k j v m = ground (arith, lookup-put k j v m)

  pub has-delete :
      (k j : K) (m : Map K V) → has j (delete k m) ≡ (if k == j then false else has j m)
  unfolding has
  has-delete k j m = ground (arith, lookup-delete k j m)

  pub has-none : (k : K) (m : Map K V) → lookup k m ≡ none → has k m ≡ false
  unfolding has
  has-none k m h = rw (h, has)

  pub has-some : (k : K) (v : V) (m : Map K V) → lookup k m ≡ some v → has k m ≡ true
  unfolding has
  has-some k v m h = rw (h, has)

  -- Maps that agree at every key still do after the same change.
  pub put-agree :
      (k j : K) (v : V) (m n : Map K V)
      → lookup j m ≡ lookup j n
      → lookup j (put k v m) ≡ lookup j (put k v n)
  put-agree k j v m n h = ground (arith, lookup-put k j v m, lookup-put k j v n)

  pub delete-agree :
      (k j : K) (m n : Map K V)
      → lookup j m ≡ lookup j n
      → lookup j (delete k m) ≡ lookup j (delete k n)
  delete-agree k j m n h = ground (arith, lookup-delete k j m, lookup-delete k j n)

-- A property of every value of a map.
abbrev pub Every {ℓ κ μ} : {K : Type ℓ} {V : Type κ} → (V → Type μ) → Map K V → Type μ
Every P [] = Unit
Every P ((k, v) ∷ m) = P v × Every P m

module _ {ℓ κ μ} {K : Type ℓ} {V : Type κ} (P : V → Type μ) ⦃e : Eq K⦄ where
  pub Every-delete : (k : K) (m : Map K V) → Every P m → Every P (delete k m)
  unfolding delete
  Every-delete k [] h = tt
  Every-delete k ((j, v) ∷ m) h =
      if-keeps (Every P) (j == k) _ _ (λ _. Every-delete k m h.1) (λ _. (h.0, Every-delete k m h.1))

  pub Every-put : (k : K) (v : V) (m : Map K V) → P v → Every P m → Every P (put k v m)
  unfolding put
  Every-put k v m p h = (p, Every-delete k m h)

  pub Every-lookup : (k : K) (v : V) (m : Map K V) → Every P m → lookup k m ≡ some v → P v
  unfolding lookup
  Every-lookup k v [] h e = cc
  Every-lookup k v ((j, w) ∷ m) h e = elim (Bool-cases (j == k)) [
    | inl hit ↦ (let same : w ≡ v = ground arith in subst P same h.0)
    | inr miss ↦ Every-lookup k v m h.1 (rw miss at e)
  ]
