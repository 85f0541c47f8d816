-- ===== src/Auth/Keys/Candidates.antt =====
-- Authenticate as a search for the one candidate that matches.
use gline.Base.{
  ok, ◌++◌, All, Bool-cases, inl, inr, sym, ◌∙◌, cut_byte, cut_byte-back, ok_inj, >>=-eq-ok,
  map_err-ok, ◌<◌, ◌↔◌, length, true, Option, bytes_beq_iff, ◌≡◌, refl, ap, fun_ext, none, some,
  Bytes, List, [], ◌∷◌, filter, Result, err, ◌>>=◌, map_err, arith,
}
use gline.Domain.Models.{ApiKey, Time, usable_at, validate_key}
use gline.Domain.Status.{KeyStatus}
use gline.Auth.{Principal, new_principal}
use gline.Auth.Keys.{
  CredentialError, invalid_credential, bad_record, repository, KeyRepository, parse_key, is_match,
  scan_candidates, principal_of, hash_secret, authenticate,
}

-- The principal of the only key there is.
abbrev pub only_one : List ApiKey → Result CredentialError Principal
only_one [] = err invalid_credential
only_one (k ∷ []) = map_err bad_record (new_principal k)
only_one (k ∷ j ∷ ks) = err invalid_credential

scan-some :
    (want : Bytes) (now : Time) (m : ApiKey) (ks : List ApiKey)
    → (scan_candidates want now (some m) ks >>= principal_of)
      ≡ only_one (m ∷ filter (is_match want now) ks)
unfolding scan_candidates principal_of
scan-some want now m [] = refl
scan-some want now m (k ∷ ks) = ground (arith, scan-some want now m ks)

scan-none :
    (want : Bytes) (now : Time) (ks : List ApiKey)
    → (scan_candidates want now none ks >>= principal_of) ≡ only_one (filter (is_match want now) ks)
unfolding scan_candidates principal_of
scan-none want now [] = refl
scan-none want now (k ∷ ks) = ground (arith, scan-none want now ks, scan-some want now k ks)

authenticate-lem :
    (mac : Bytes → Bytes → Bytes) (pepper : Bytes) (keys : KeyRepository) (raw : Bytes) (now : Time)
    → authenticate mac pepper keys raw now ≡ (
        parse_key raw >>= λ (prefix, secret).
        map_err repository (keys.find_active_by_prefix prefix now) >>= λ candidates.
        only_one (filter (is_match (hash_secret mac pepper keys secret) now) candidates))
unfolding authenticate
authenticate-lem mac pepper keys raw now =
    ap
      (λ answer. parse_key raw >>= λ parts.
        map_err repository (keys.find_active_by_prefix parts.0 now) >>= λ candidates.
        answer parts.1 candidates)
      (fun_ext (λ secret. fun_ext (λ candidates. scan-none (mac pepper secret) now candidates)))

-- No end of its life, or one that is still to come.
abbrev pub IsBefore : Time → Option Time → Type 0
IsBefore now none = Unit
IsBefore now (some t) = now < t

-- An active key that has not expired, with the hash of 32 bytes that is wanted.
pub record IsKeyOf (want : Bytes) (now : Time) (k : ApiKey) : Type 0 where
  pub active : k.status ≡ KeyStatus.active
  pub not_expired : IsBefore now k.expires_at
  pub size : length k.secret_hash ≡ 32
  pub hash : k.secret_hash ≡ want

usable_at_lem :
    (k : ApiKey) (now : Time)
    → usable_at k now ≡ true
    → (k.status ≡ KeyStatus.active) × IsBefore now k.expires_at
unfolding usable_at
usable_at_lem k now h = ground (arith, h)

is_match-IsKeyOf :
    (want : Bytes) (now : Time) (k : ApiKey) → is_match want now k ≡ true ↔ IsKeyOf want now k
unfolding is_match usable_at
is_match-IsKeyOf want now k = (
  λ h.
      let (active, alive) = usable_at_lem k now (ground (arith, h)) in
      record {
        active = active;
        not_expired = alive;
        size = ground (arith, h);
        hash = ground (arith, h, bytes_beq_iff k.secret_hash want);
      },
  λ m. ground (arith, m.active, m.not_expired, m.size, m.hash, bytes_beq_iff k.secret_hash want),
)

module _ (want : Bytes) (now : Time) where
  -- The keys around one that matches, of which none does.
  pub record IsOnly (k : ApiKey) (ks : List ApiKey) : Type 0 where
    pub before : List ApiKey
    pub after : List ApiKey
    pub placed : ks ≡ before ++ k ∷ after
    pub is_key : IsKeyOf want now k
    pub none_before : All (λ j. ¬ IsKeyOf want now j) before
    pub none_after : All (λ j. ¬ IsKeyOf want now j) after

  filter-none :
      (ks : List ApiKey) → (filter (is_match want now) ks ≡ []) ↔ All (λ j. ¬ IsKeyOf want now j) ks
  filter-none [] = (λ h. tt, λ a. refl)
  filter-none (j ∷ ks) = elim (Bool-cases (is_match want now j)) [
    | inl match ↦ (
      λ h. absurd (ground (arith, h, match)),
      λ a. absurd (a.0 ((is_match-IsKeyOf want now j).0 match)),
    )
    | inr other ↦ (
      λ h. (
        λ m. ground (arith, other, (is_match-IsKeyOf want now j).1 m),
        (filter-none ks).0 (ground (arith, other, h)),
      ),
      λ a. ground (arith, other, (filter-none ks).1 a.1),
    )
  ]

  filter-IsOnly :
      (k : ApiKey) (ks : List ApiKey) → filter (is_match want now) ks ≡ k ∷ [] → IsOnly k ks
  filter-IsOnly k [] h = absurd (ground (arith, h))
  filter-IsOnly k (j ∷ ks) h = elim (Bool-cases (is_match want now j)) [
    | inl match ↦
        (let same : j ≡ k = ground (arith, h, match) in
          record {
            before = [];
            after = ks;
            placed = ap (λ x. x ∷ ks) same;
            is_key = (is_match-IsKeyOf want now k).0 (ap (is_match want now) (sym same) ∙ match);
            none_before = tt;
            none_after = (filter-none ks).0 (ground (arith, h, match));
          })
    | inr other ↦
        (let rest = filter-IsOnly k ks (ground (arith, other, h)) in
          record {
            before = j ∷ rest.before;
            after = rest.after;
            placed = ap (λ x. j ∷ x) rest.placed;
            is_key = rest.is_key;
            none_before =
                (λ m. ground (arith, other, (is_match-IsKeyOf want now j).1 m), rest.none_before);
            none_after = rest.none_after;
          })
  ]

  filter-around :
      (k : ApiKey) (before after : List ApiKey)
      → IsKeyOf want now k
      → All (λ j. ¬ IsKeyOf want now j) before
      → All (λ j. ¬ IsKeyOf want now j) after
      → filter (is_match want now) (before ++ k ∷ after) ≡ k ∷ []
  filter-around k [] after m a b =
      ground (arith, (is_match-IsKeyOf want now k).1 m, (filter-none after).1 b)
  filter-around k (j ∷ before) after m a b = elim (Bool-cases (is_match want now j)) [
    | inl match ↦ absurd (a.0 ((is_match-IsKeyOf want now j).0 match))
    | inr other ↦ ground (arith, other, filter-around k before after m a.1 b)
  ]

only_one-ok :
    (ks : List ApiKey) (p : Principal)
    → only_one ks ≡ ok p
    → (k : ApiKey) × (ks ≡ k ∷ []) × (map_err bad_record (new_principal k) ≡ ok p)
only_one-ok [] p h = absurd (ground (arith, h))
only_one-ok (k ∷ []) p h = (k, refl, h)
only_one-ok (k ∷ j ∷ ks) p h = absurd (ground (arith, h))

parse_key-shape :
    (raw prefix secret : Bytes)
    → parse_key raw ≡ ok (prefix, secret)
    → raw ≡ prefix ++ 0x2e ∷ secret
unfolding parse_key
parse_key-shape raw prefix secret h =
    let cut : cut_byte 0x2e raw ≡ (prefix, secret) = ground (arith, h) in
    cut_byte-back 0x2e raw (ground (arith, h)) ∙ ap (λ c. c.0 ++ 0x2e ∷ c.1) cut

-- What stands behind a principal: the two parts of the raw key, and among the candidates with the
-- prefix the only key of the secret, whose fields the principal has.
pub record IsAuthenticated (mac : Bytes → Bytes → Bytes) (pepper : Bytes) (keys : KeyRepository)
    (raw : Bytes) (now : Time) (p : Principal) : Type 0 where
  pub prefix : Bytes
  pub secret : Bytes
  pub parsed : parse_key raw ≡ ok (prefix, secret)
  pub raw_parts : raw ≡ prefix ++ 0x2e ∷ secret
  pub candidates : List ApiKey
  pub asked : keys.find_active_by_prefix prefix now ≡ ok candidates
  pub key : ApiKey
  pub only : IsOnly (mac pepper secret) now key candidates
  pub valid : validate_key key ≡ ok tt
  pub principal : p ≡ record {
    key_id = key.id;
    project_id = key.project_id;
    agent_id = key.agent_id;
    scopes = key.scopes;
  }

new_principal-fields :
    (k : ApiKey) (p : Principal)
    → map_err bad_record (new_principal k) ≡ ok p
    → (validate_key k ≡ ok tt)
      × (p ≡ record {
        key_id = k.id;
        project_id = k.project_id;
        agent_id = k.agent_id;
        scopes = k.scopes;
      })
unfolding new_principal
new_principal-fields k p h =
    let (u, valid, made) = >>=-eq-ok (validate_key k) _ (map_err-ok bad_record _ h) in
    (valid, sym (ok_inj made))

authenticated_back :
    (k : ApiKey) (p : Principal)
    → validate_key k ≡ ok tt
    → p ≡ record {
      key_id = k.id;
      project_id = k.project_id;
      agent_id = k.agent_id;
      scopes = k.scopes;
    }
    → only_one (k ∷ []) ≡ ok p
unfolding new_principal
authenticated_back k p valid fields = ground (arith, valid, fields)

-- Authenticate answers with a principal exactly if the raw key is a prefix and a secret around a dot
-- that ParseKey takes, and among the repository's candidates for the prefix there is one and only one
-- key that is active, has not expired and has the MAC of the secret as its hash of 32 bytes; that key
-- is valid, and the principal has its identifier, project, agent and scopes.
pub authenticate_unique :
    (mac : Bytes → Bytes → Bytes) (pepper : Bytes) (keys : KeyRepository) (raw : Bytes) (now : Time)
    (p : Principal)
    → (authenticate mac pepper keys raw now ≡ ok p) ↔ IsAuthenticated mac pepper keys raw now p
unfolding hash_secret
authenticate_unique mac pepper keys raw now p = (
  λ h.
      let (parts, parsed, rest) =
        >>=-eq-ok (parse_key raw) _ (sym (authenticate-lem mac pepper keys raw now) ∙ h) in
      let (found, asked, one) =
        >>=-eq-ok (map_err repository (keys.find_active_by_prefix parts.0 now)) _ rest in
      let (k, filtered, made) = only_one-ok _ p one in
      let (valid, fields) = new_principal-fields k p made in
      record {
        prefix = parts.0;
        secret = parts.1;
        parsed = parsed;
        raw_parts = parse_key-shape raw parts.0 parts.1 parsed;
        candidates = found;
        asked = map_err-ok repository _ asked;
        key = k;
        only = filter-IsOnly (mac pepper parts.1) now k found filtered;
        valid = valid;
        principal = fields;
      },
  λ a.
      let filtered : filter (is_match (mac pepper a.secret) now) a.candidates ≡ a.key ∷ [] =
        ap (filter (is_match (mac pepper a.secret) now)) a.only.placed
        ∙ filter-around (mac pepper a.secret) now a.key a.only.before a.only.after a.only.is_key
            a.only.none_before a.only.none_after in
      authenticate-lem mac pepper keys raw now
      ∙ ground (arith, a.parsed, a.asked)
      ∙ ap only_one filtered
      ∙ authenticated_back a.key p a.valid a.principal,
)
