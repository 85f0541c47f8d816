-- ===== src/Query/Slots/Counts.antt =====
-- What the semaphores count, and that a call which comes keeps it.
use gline.Base.{
  ℕ, suc, ◌-◌, ◌≤◌, ◌<◌, ◌≡◌, ◌⊎◌, inl, inr, refl, sym, ap, ◌∙◌, subst, Bool, true, false, ◌&&◌,
  none, some, bytes_eq, nat_eq, ◌==◌, bytes_beq_iff, List, [], ◌∷◌, All, All-map, Map, lookup, put,
  lookup-put, ltb, nat_beq, if◌then◌else◌, arith, Option-cases, Bool-cases,
}
use gline.Domain.Ids.{Ident}
use gline.Query.Slots.{
  Semaphore, Phase, entered, holding, Flight, Slots, new_slots, semaphore_of, enter_at, enter,
  take_token, give_back, Among, here, there,
}

abbrev pub is_holding : Phase → Bool
is_holding holding = true
is_holding _ = false

-- The calls that point to a semaphore, and those of them that hold a token.
abbrev pub users_of : ℕ → List Flight → ℕ
users_of r [] = 0
users_of r (f ∷ fs) = let rest = users_of r fs in if nat_beq f.semaphore r then suc rest else rest

abbrev pub held : ℕ → List Flight → ℕ
held r [] = 0
held r (f ∷ fs) =
    let rest = held r fs in if nat_beq f.semaphore r && is_holding f.phase then suc rest else rest

-- The queries of a project that run.
abbrev pub running : Ident → List Flight → ℕ
running p [] = 0
running p (f ∷ fs) =
    let rest = running p fs in if f.project == p && is_holding f.phase then suc rest else rest

pub held-le-users_of : (r : ℕ) (fs : List Flight) → held r fs ≤ users_of r fs
held-le-users_of r [] = omega arith
held-le-users_of r (f ∷ fs) = ground (arith, held-le-users_of r fs)

pub users-Among :
    (r : ℕ) {f : Flight} {fs rest : List Flight}
    → Among f fs rest
    → users_of r fs ≡ users_of r (f ∷ rest)
users-Among r here = refl
users-Among r (there a) = ground (arith, users-Among r a)

pub held-Among :
    (r : ℕ) {f : Flight} {fs rest : List Flight} → Among f fs rest → held r fs ≡ held r (f ∷ rest)
held-Among r here = refl
held-Among r (there a) = ground (arith, held-Among r a)

pub All-Among {ℓ} :
    (P : Flight → Type ℓ) {f : Flight} {fs rest : List Flight}
    → Among f fs rest
    → All P fs
    → P f × All P rest
All-Among P here h = h
All-Among P (there a) h = let (first, others) = All-Among P a h.1 in (first, (h.0, others))

-- What holds between the steps, but for the project that is just coming.
pub record IsOpen (coming : Ident → Type 0) (s : Slots) : Type 0 where
  pub users : (r : ℕ) → (semaphore_of s r).users ≡ users_of r s.flights
  pub tokens : (r : ℕ) → (semaphore_of s r).tokens ≡ held r s.flights
  pub bounded : (r : ℕ) → (semaphore_of s r).tokens ≤ s.capacity
  pub placed : All (λ f. lookup f.project s.projects ≡ some f.semaphore) s.flights
  pub used :
      (p : Ident) (r : ℕ) → lookup p s.projects ≡ some r → coming p ⊎ (0 < users_of r s.flights)
  pub old : (p : Ident) (r : ℕ) → lookup p s.projects ≡ some r → r < s.fresh
  pub apart :
      (p q : Ident) (r : ℕ) → lookup p s.projects ≡ some r → lookup q s.projects ≡ some r → p ≡ q

unfoldable pub IsCounted : Slots → Type 0
IsCounted s = IsOpen (λ p. ⊥) s

pub semaphore_of-put :
    (s : Slots) (r k : ℕ) (m : Semaphore)
    → semaphore_of (record s { semaphores = put r m s.semaphores }) k
      ≡ (if nat_beq r k then m else semaphore_of s k)
semaphore_of-put s r k m = ground (arith, lookup-put r k m s.semaphores)

pub enter_at-IsCounted :
    (s : Slots) (p : Ident) (r : ℕ)
    → IsOpen (λ q. q ≡ p) s
    → lookup p s.projects ≡ some r
    → IsCounted (enter_at s p r)
unfolding enter_at IsCounted
enter_at-IsCounted s p r h at =
    let m = semaphore_of s r in
    let m' = record m { users = suc m.users } in
    record {
      users =
          λ k. ap (λ x. x.users) (semaphore_of-put s r k m') ∙ ground (arith, h.users k, h.users r);
      tokens = λ k.
          ap (λ x. x.tokens) (semaphore_of-put s r k m') ∙ ground (arith, h.tokens k, h.tokens r);
      bounded = λ k.
          subst (λ x. x.tokens ≤ s.capacity) (sym (semaphore_of-put s r k m'))
            (ground (arith, h.bounded k, h.bounded r));
      placed = (at, h.placed);
      used = λ q k there_q. elim (h.used q k there_q) [
        | inl same ↦
            (let e : r ≡ k = ground (arith, at, there_q, ap (λ x. lookup x s.projects) same) in
              inr (ground (arith, e)))
        | inr more ↦ inr (ground (arith, more))
      ];
      old = h.old;
      apart = h.apart;
    }

pub new_slots-IsCounted : (capacity : ℕ) → IsCounted (new_slots capacity)
unfolding new_slots IsCounted lookup
new_slots-IsCounted capacity = record {
  users = λ r. refl;
  tokens = λ r. refl;
  bounded = λ r. omega arith;
  placed = tt;
  used = λ p r e. absurd (ground (arith, e));
  old = λ p r e. absurd (ground (arith, e));
  apart = λ p q r e d. absurd (ground (arith, e));
}

pub placed-put :
    (p : Ident) (r : ℕ) (projects : Map Ident ℕ) (fs : List Flight)
    → lookup p projects ≡ none
    → All (λ f. lookup f.project projects ≡ some f.semaphore) fs
    → All (λ f. lookup f.project (put p r projects) ≡ some f.semaphore) fs
placed-put p r projects fs absent h =
    All-map fs
      (λ f e.
        ground (arith, e, absent, lookup-put p f.project r projects, bytes_beq_iff p f.project))
      h

pub enter-some :
    (s : Slots) (p : Ident) (r : ℕ) → lookup p s.projects ≡ some r → enter s p ≡ enter_at s p r
unfolding enter
enter-some s p r at = rw (at, enter) refl

abbrev pub with_new : Slots → Ident → Slots
with_new s p = record s { fresh = suc s.fresh; projects = put p s.fresh s.projects }

pub enter-none :
    (s : Slots) (p : Ident)
    → lookup p s.projects ≡ none
    → enter s p ≡ enter_at (with_new s p) p s.fresh
unfolding enter
enter-none s p absent = rw (absent, enter) refl

pub weaken : (s : Slots) (p : Ident) → IsCounted s → IsOpen (λ q. q ≡ p) s
unfolding IsCounted
weaken s p h = record {
  users = h.users;
  tokens = h.tokens;
  bounded = h.bounded;
  placed = h.placed;
  used = λ q k e. elim (h.used q k e) [ inl void ↦ absurd void | inr more ↦ inr more ];
  old = h.old;
  apart = h.apart;
}

pub with_new-IsOpen :
    (s : Slots) (p : Ident)
    → lookup p s.projects ≡ none
    → IsCounted s
    → IsOpen (λ q. q ≡ p) (with_new s p)
unfolding IsCounted
with_new-IsOpen s p absent h =
    let found : (q : Ident) (k : ℕ)
        → lookup q (put p s.fresh s.projects) ≡ some k
        → ((q ≡ p) × (k ≡ s.fresh)) ⊎ (lookup q s.projects ≡ some k) =
      λ q k e. elim (Bool-cases (p == q)) [
        | inl same ↦ inl (
          sym ((bytes_beq_iff p q).0 same),
          ground (arith, same, e, lookup-put p q s.fresh s.projects),
        )
        | inr other ↦ inr (ground (arith, other, e, lookup-put p q s.fresh s.projects))
      ] in
    record {
      users = h.users;
      tokens = h.tokens;
      bounded = h.bounded;
      placed = placed-put p s.fresh s.projects s.flights absent h.placed;
      used = λ q k e. elim (found q k e) [
        | inl new ↦ inl new.0
        | inr before ↦ elim (h.used q k before) [ inl void ↦ absurd void | inr more ↦ inr more ]
      ];
      old = λ q k e. elim (found q k e) [
        | inl new ↦ omega (arith, new.1)
        | inr before ↦ omega (arith, h.old q k before)
      ];
      apart = λ q q' k e e'. elim (found q k e) [
        | inl new ↦ elim (found q' k e') [
          | inl new' ↦ new.0 ∙ sym new'.0
          | inr before' ↦ absurd (omega (arith, new.1, h.old q' k before'))
        ]
        | inr before ↦ elim (found q' k e') [
          | inl new' ↦ absurd (omega (arith, new'.1, h.old q k before))
          | inr before' ↦ h.apart q q' k before before'
        ]
      ];
    }

pub enter-IsCounted : (s : Slots) (p : Ident) → IsCounted s → IsCounted (enter s p)
enter-IsCounted s p h = elim (Option-cases (lookup p s.projects)) [
  | inr (r, at) ↦
      subst IsCounted (sym (enter-some s p r at)) (enter_at-IsCounted s p r (weaken s p h) at)
  | inl absent ↦ subst IsCounted (sym (enter-none s p absent)) (
      enter_at-IsCounted (with_new s p) p s.fresh (with_new-IsOpen s p absent h)
        (ground (arith, lookup-put p p s.fresh s.projects, bytes_beq_iff p p)))
]

pub take_token-IsCounted :
    (s : Slots) (f : Flight) (rest : List Flight)
    → Among f s.flights rest
    → f.phase ≡ entered
    → ltb (semaphore_of s f.semaphore).tokens s.capacity ≡ true
    → IsCounted s
    → IsCounted (take_token s f rest)
unfolding take_token IsCounted
take_token-IsCounted s f rest a phase free h =
    let r = f.semaphore in
    let m = semaphore_of s r in
    let m' = record m { tokens = suc m.tokens } in
    let (here_f, others) = All-Among _ a h.placed in
    record {
      users = λ k.
          ap (λ x. x.users) (semaphore_of-put s r k m')
          ∙ ground (arith, h.users k, h.users r, users-Among k a);
      tokens = λ k.
          ap (λ x. x.tokens) (semaphore_of-put s r k m')
          ∙ ground (arith, h.tokens k, h.tokens r, held-Among k a, held-Among r a, phase);
      bounded = λ k.
          subst (λ x. x.tokens ≤ s.capacity) (sym (semaphore_of-put s r k m'))
            (ground (arith, h.bounded k, free));
      placed = (here_f, others);
      used = λ q k e. elim (h.used q k e) [
        | inl void ↦ inl void
        | inr more ↦ inr (ground (arith, more, users-Among k a))
      ];
      old = h.old;
      apart = h.apart;
    }

pub give_back-IsCounted :
    (s : Slots) (f : Flight) (rest : List Flight)
    → Among f s.flights rest
    → f.phase ≡ holding
    → IsCounted s
    → IsCounted (give_back s f rest)
unfolding give_back IsCounted
give_back-IsCounted s f rest a phase h =
    let r = f.semaphore in
    let m = semaphore_of s r in
    let m' = record m { tokens = m.tokens - 1 } in
    let (here_f, others) = All-Among _ a h.placed in
    record {
      users = λ k.
          ap (λ x. x.users) (semaphore_of-put s r k m')
          ∙ ground (arith, h.users k, h.users r, users-Among k a);
      tokens = λ k.
          ap (λ x. x.tokens) (semaphore_of-put s r k m')
          ∙ ground (arith, h.tokens k, h.tokens r, held-Among k a, held-Among r a, phase);
      bounded = λ k.
          subst (λ x. x.tokens ≤ s.capacity) (sym (semaphore_of-put s r k m'))
            (ground (arith, h.bounded k, h.bounded r));
      placed = (here_f, others);
      used = λ q k e. elim (h.used q k e) [
        | inl void ↦ inl void
        | inr more ↦ inr (ground (arith, more, users-Among k a))
      ];
      old = h.old;
      apart = h.apart;
    }
