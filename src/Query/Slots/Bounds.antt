-- ===== src/Query/Slots/Bounds.antt =====
-- The semaphores count their calls, in every state that calls can reach.
use gline.Base.{
  ℕ, ◌-◌, ◌≤◌, ◌<◌, ◌≡◌, ◌⊎◌, inl, inr, refl, sym, ap, ◌∙◌, subst, false, ◌&&◌, none, some,
  bytes_eq, nat_eq, bytes_beq_iff, List, [], ◌∷◌, All, Map, lookup, delete, lookup-delete, nat_beq,
  if-keeps, arith, Option-cases, Bool-cases,
}
use gline.Domain.Ids.{Ident}
use gline.Query.Slots.{
  Flight, Slots, new_slots, semaphore_of, enter_at, enter, take_token, give_back, release_user,
  Among, Step, comes, takes, turns_away, gives_back, leaves, Reaches, stay, step,
}
use gline.Query.Slots.Counts.{
  is_holding, users_of, held, running, held-le-users_of, users-Among, held-Among, All-Among,
  IsCounted, semaphore_of-put, new_slots-IsCounted, enter-some, enter-none, enter-IsCounted,
  take_token-IsCounted, give_back-IsCounted,
}

none_left :
    (p : Ident) (r : ℕ) (projects : Map Ident ℕ) (fs : List Flight)
    → lookup p projects ≡ some r
    → users_of r fs ≡ 0
    → All (λ f. lookup f.project projects ≡ some f.semaphore) fs
    → All (λ f. lookup f.project (delete p projects) ≡ some f.semaphore) fs
none_left p r projects [] at z h = tt
none_left p r projects (f ∷ fs) at z h =
    let other : nat_beq f.semaphore r ≡ false = ground (arith, z) in
    (
      ground (arith, lookup-delete p f.project projects, h.0, at, other, bytes_beq_iff p f.project),
      none_left p r projects fs at (ground (arith, z, other)) h.1,
    )

-- What a map of projects has to keep when a call leaves.
Kept : Slots → List Flight → Map Ident ℕ → Type 0
Kept s rest projects =
    All (λ g. lookup g.project projects ≡ some g.semaphore) rest
    × ((q : Ident) (k : ℕ) → lookup q projects ≡ some k → 0 < users_of k rest)
    × ((q : Ident) (k : ℕ) → lookup q projects ≡ some k → lookup q s.projects ≡ some k)

module _ (s : Slots) (f : Flight) (rest : List Flight) (a : Among f s.flights rest)
    (phase : is_holding f.phase ≡ false) (h : IsCounted s) where
  deleted-Kept : users_of f.semaphore rest ≡ 0 → Kept s rest (delete f.project s.projects)
  unfolding IsCounted Kept
  deleted-Kept z =
      let (at, others) = All-Among _ a h.placed in
      let before : (q : Ident) (k : ℕ)
          → lookup q (delete f.project s.projects) ≡ some k
          → lookup q s.projects ≡ some k =
        λ q k e. ground (arith, e, lookup-delete f.project q s.projects) in
      (
        none_left f.project f.semaphore s.projects rest at z others,
        (λ q k e. elim (h.used q k (before q k e)) [
          | inl void ↦ absurd void
          | inr more ↦ elim (Bool-cases (nat_beq f.semaphore k)) [
            | inl same ↦
                (let k_is : f.semaphore ≡ k = ground (arith, same) in
                  let p_is = h.apart f.project q k (at ∙ ap some k_is) (before q k e) in
                  absurd (
                    ground (
                      arith,
                      e,
                      p_is,
                      lookup-delete f.project q s.projects,
                      bytes_beq_iff f.project q,
                    )))
            | inr other ↦ ground (arith, more, users-Among k a, other)
          ]
        ]),
        before,
      )

  unchanged-Kept :
      (nat_beq ((semaphore_of s f.semaphore).users - 1) 0
          && nat_beq (semaphore_of s f.semaphore).tokens 0)
        ≡ false
      → Kept s rest s.projects
  unfolding IsCounted Kept
  unchanged-Kept busy =
      let r = f.semaphore in
      (
        (All-Among _ a h.placed).1,
        (λ q k e. elim (h.used q k e) [
          | inl void ↦ absurd void
          | inr more ↦ ground (
            arith,
            more,
            busy,
            users-Among k a,
            users-Among r a,
            held-Among r a,
            h.users r,
            h.tokens r,
            phase,
            held-le-users_of r rest,
          )
        ]),
        λ q k e. e,
      )

  release_user-IsCounted : IsCounted (release_user s f rest)
  unfolding release_user IsCounted Kept
  release_user-IsCounted =
      let r = f.semaphore in
      let m = semaphore_of s r in
      let m' = record m { users = m.users - 1 } in
      let (kept_placed, kept_used, kept_before) =
        if-keeps (Kept s rest) (nat_beq (m.users - 1) 0 && nat_beq m.tokens 0)
          (delete f.project s.projects) s.projects
          (λ idle. deleted-Kept (ground (arith, idle, h.users r, users-Among r a)))
          unchanged-Kept in
      record {
        users = λ k.
            ap (λ x. x.users) (semaphore_of-put s r k m')
            ∙ ground (arith, h.users k, h.users r, users-Among k a, users-Among r a);
        tokens = λ k.
            ap (λ x. x.tokens) (semaphore_of-put s r k m')
            ∙ ground (arith, h.tokens k, h.tokens r, held-Among k a, held-Among r a, phase);
        bounded = λ k.
            subst (λ x. x.tokens ≤ s.capacity) (sym (semaphore_of-put s r k m'))
              (ground (arith, h.bounded k, h.bounded r));
        placed = kept_placed;
        used = λ q k e. inr (kept_used q k e);
        old = λ q k e. h.old q k (kept_before q k e);
        apart = λ p q k e d. h.apart p q k (kept_before p k e) (kept_before q k d);
      }

Step-IsCounted : {s t : Slots} → Step s t → IsCounted s → IsCounted t
Step-IsCounted (comes {s} p) h = enter-IsCounted s p h
Step-IsCounted (takes {s} {f} {rest} a phase free) h = take_token-IsCounted s f rest a phase free h
Step-IsCounted (turns_away {s} {f} {rest} a phase) h =
    release_user-IsCounted s f rest a (ap is_holding phase) h
Step-IsCounted (gives_back {s} {f} {rest} a phase) h = give_back-IsCounted s f rest a phase h
Step-IsCounted (leaves {s} {f} {rest} a phase) h =
    release_user-IsCounted s f rest a (ap is_holding phase) h

Reaches-IsCounted : {s t : Slots} → Reaches s t → IsCounted s → IsCounted t
Reaches-IsCounted stay h = h
Reaches-IsCounted (step r x) h = Step-IsCounted x (Reaches-IsCounted r h)

enter-capacity : (s : Slots) (p : Ident) → (enter s p).capacity ≡ s.capacity
unfolding enter_at
enter-capacity s p = elim (Option-cases (lookup p s.projects)) [
  | inl absent ↦ ap (λ x. x.capacity) (enter-none s p absent)
  | inr (r, at) ↦ ap (λ x. x.capacity) (enter-some s p r at)
]

Step-capacity : {s t : Slots} → Step s t → t.capacity ≡ s.capacity
unfolding enter_at take_token give_back release_user
Step-capacity (comes {s} p) = enter-capacity s p
Step-capacity (takes a phase free) = refl
Step-capacity (turns_away a phase) = refl
Step-capacity (gives_back a phase) = refl
Step-capacity (leaves a phase) = refl

Reaches-capacity : {s t : Slots} → Reaches s t → t.capacity ≡ s.capacity
Reaches-capacity stay = refl
Reaches-capacity (step r x) = Step-capacity x ∙ Reaches-capacity r

running-le-held :
    (p : Ident) (r : ℕ) (projects : Map Ident ℕ) (fs : List Flight)
    → lookup p projects ≡ some r
    → All (λ f. lookup f.project projects ≡ some f.semaphore) fs
    → running p fs ≤ held r fs
running-le-held p r projects [] at h = omega arith
running-le-held p r projects (f ∷ fs) at h =
    ground (arith, running-le-held p r projects fs at h.1, h.0, at, bytes_beq_iff f.project p)

running-none :
    (p : Ident) (projects : Map Ident ℕ) (fs : List Flight)
    → lookup p projects ≡ none
    → All (λ f. lookup f.project projects ≡ some f.semaphore) fs
    → running p fs ≡ 0
running-none p projects [] absent h = refl
running-none p projects (f ∷ fs) absent h =
    ground (arith, running-none p projects fs absent h.1, h.0, absent, bytes_beq_iff f.project p)

-- In every state that calls reach, however their steps interleave, no more queries of a project run than
-- the capacity, and the map either has no entry of the project or a semaphore to which a call points.
pub queries_bounded :
    (capacity : ℕ) (s : Slots) (p : Ident)
    → Reaches (new_slots capacity) s
    → (running p s.flights ≤ capacity)
      × ((lookup p s.projects ≡ none)
          ⊎ ((r : ℕ) × (lookup p s.projects ≡ some r) × (0 < users_of r s.flights)))
unfolding IsCounted new_slots
queries_bounded capacity s p r =
    let h = Reaches-IsCounted r (new_slots-IsCounted capacity) in
    let size : s.capacity ≡ capacity = Reaches-capacity r in
    elim (Option-cases (lookup p s.projects)) [
      | inl absent ↦
          (omega (arith, running-none p s.projects s.flights absent h.placed), inl absent)
      | inr (k, at) ↦ (
        omega (
          arith,
          running-le-held p k s.projects s.flights at h.placed,
          h.tokens k,
          h.bounded k,
          size,
        ),
        inr (k, at, elim (h.used p k at) [ inl void ↦ absurd void | inr more ↦ more ]),
      )
    ]
