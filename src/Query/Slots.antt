-- ===== src/Query/Slots.antt =====
-- internal/server/bootstrap/limiter.go: how many queries of a project run at once. A semaphore is an
-- object of its own, which calls in flight point to, while the map of projects forgets it when the last
-- of them is through; so the store of semaphores is part of the state, and calls interleave.
pub mod Counts
pub mod Bounds
use gline.Base.{
  ℕ, suc, ◌-◌, ◌≡◌, Bool, true, false, ◌&&◌, Option, none, some, bytes_eq, nat_eq, ◌==◌, List, [],
  ◌∷◌, ◌++◌, Map, lookup, put, delete, ltb, nat_beq, if◌then◌else◌,
}
use gline.Domain.Ids.{Ident}

pub record Semaphore : Type 0 where
  pub tokens : ℕ
  pub users : ℕ

-- A call of Acquire between its locked sections, its query while it holds a token, and its end once the
-- token is back.
pub data Phase : Type 0 where
  entered holding returned : Phase

pub record Flight : Type 0 where
  pub project : Ident
  pub semaphore : ℕ
  pub phase : Phase

pub record Slots : Type 0 where
  pub capacity : ℕ
  pub fresh : ℕ
  pub semaphores : Map ℕ Semaphore
  pub projects : Map Ident ℕ
  pub flights : List Flight

-- newProjectLimiter
unfoldable pub new_slots : ℕ → Slots
new_slots capacity = record {
  capacity = capacity;
  fresh = 0;
  semaphores = [];
  projects = [];
  flights = [];
}

abbrev pub semaphore_of : Slots → ℕ → Semaphore
semaphore_of s r = elim (lookup r s.semaphores) [
  | none ↦ record { tokens = 0; users = 0 }
  | some m ↦ m
]

-- The first locked section of Acquire, with the semaphore that it finds or makes.
unfoldable pub enter_at : Slots → Ident → ℕ → Slots
enter_at s p r =
    let m = semaphore_of s r in
    record s {
      semaphores = put r (record m { users = suc m.users }) s.semaphores;
      flights = record { project = p; semaphore = r; phase = entered } ∷ s.flights;
    }

unfoldable pub enter : Slots → Ident → Slots
unfolding enter_at
enter s p = elim (lookup p s.projects) [
  | some r ↦ enter_at s p r
  | none ↦
      enter_at (record s { fresh = suc s.fresh; projects = put p s.fresh s.projects }) p s.fresh
]

-- The channel's buffer of tokens: a send that succeeds, and a receive.
unfoldable pub take_token : Slots → Flight → List Flight → Slots
take_token s f rest =
    let m = semaphore_of s f.semaphore in
    record s {
      semaphores = put f.semaphore (record m { tokens = suc m.tokens }) s.semaphores;
      flights = record f { phase = holding } ∷ rest;
    }

unfoldable pub give_back : Slots → Flight → List Flight → Slots
give_back s f rest =
    let m = semaphore_of s f.semaphore in
    record s {
      semaphores = put f.semaphore (record m { tokens = m.tokens - 1 }) s.semaphores;
      flights = record f { phase = returned } ∷ rest;
    }

-- releaseUser
unfoldable pub release_user : Slots → Flight → List Flight → Slots
release_user s f rest =
    let m = semaphore_of s f.semaphore in
    record s {
      semaphores = put f.semaphore (record m { users = m.users - 1 }) s.semaphores;
      projects =
          if nat_beq (m.users - 1) 0 && nat_beq m.tokens 0
          then delete f.project s.projects
          else s.projects;
      flights = rest;
    }

-- One of several, and the others.
pub data Among (f : Flight) : List Flight → List Flight → Type 0 where
  here : {fs : List Flight} → Among f (f ∷ fs) fs
  there : {g : Flight} {fs gs : List Flight} → Among f fs gs → Among f (g ∷ fs) (g ∷ gs)

-- What the calls do next, in any order: a call comes, finds a token free, finds none or its context done
-- and leaves, gives its token back, and leaves after that.
pub data Step : Slots → Slots → Type 0 where
  comes : {s : Slots} (p : Ident) → Step s (enter s p)
  takes :
      {s : Slots} {f : Flight} {rest : List Flight}
      → Among f s.flights rest
      → f.phase ≡ entered
      → ltb (semaphore_of s f.semaphore).tokens s.capacity ≡ true
      → Step s (take_token s f rest)
  turns_away :
      {s : Slots} {f : Flight} {rest : List Flight}
      → Among f s.flights rest
      → f.phase ≡ entered
      → Step s (release_user s f rest)
  gives_back :
      {s : Slots} {f : Flight} {rest : List Flight}
      → Among f s.flights rest
      → f.phase ≡ holding
      → Step s (give_back s f rest)
  leaves :
      {s : Slots} {f : Flight} {rest : List Flight}
      → Among f s.flights rest
      → f.phase ≡ returned
      → Step s (release_user s f rest)

pub data Reaches : Slots → Slots → Type 0 where
  stay : {s : Slots} → Reaches s s
  step : {s t u : Slots} → Reaches s t → Step t u → Reaches s u
