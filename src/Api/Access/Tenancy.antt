-- ===== src/Api/Access/Tenancy.antt =====
-- For which project a request may act.
use gline.Base.{
  ◌≡◌, ◌⊎◌, inl, inr, sym, ap, ◌∙◌, true, false, not, ◌&&◌, Bytes, bytes_eq, bytes_beq_iff, ◌==◌,
  contains, trim_space, Option, none, some, [], ◌>>◌, ok, ◌>>=◌, >>=-eq-ok, ok_inj, reject_if,
  map_err, map_err-ok, or_fail, arith, Bool-cases, if◌then◌else◌,
}
use gline.Domain.Ids.{Ident, valid_uuid}
use gline.Domain.Status.{Scope}
use gline.Domain.Models.{Time}
use gline.Auth.{Principal, valid_principal, require, require_project}
use gline.Auth.Keys.{KeyRepository, authenticate}
use gline.Api.Errors.{ApiError}
use gline.Api.Access.{
  Session, bearer_token, open_session, credential_error, authenticate_request, project_principal,
  query_project_principal,
}

-- The principal may do what the scope names, in a project that is the key's own, unless the request
-- came with the bootstrap token.
pub record IsAllowed (session : Session) (scope : Scope) (p : Principal) : Type 0 where
  pub known : valid_uuid p.project_id ≡ true
  pub granted : contains scope session.principal.scopes ≡ true
  pub same_key : p.key_id ≡ session.principal.key_id
  pub same_agent : p.agent_id ≡ session.principal.agent_id
  pub own : (session.bootstrap ≡ true) ⊎ (p ≡ session.principal)

own_or_any :
    (session : Session) (project : Ident) (p : Principal)
    → (if session.bootstrap
        then ok (record session.principal { project_id = project })
        else (map_err ApiError.auth (require_project session.principal project)
            >> ok session.principal))
      ≡ ok p
    → (p.project_id ≡ project)
      × (p.key_id ≡ session.principal.key_id)
      × (p.agent_id ≡ session.principal.agent_id)
      × ((session.bootstrap ≡ true) ⊎ (p ≡ session.principal))
unfolding require_project
own_or_any session project p h = elim (Bool-cases session.bootstrap) [
  | inl yes_boot ↦
      (let e : record session.principal { project_id = project } ≡ p =
          ok_inj {E = ApiError} (ground (arith, yes_boot, h)) in
        (ground (arith, e), ground (arith, e), ground (arith, e), inl yes_boot))
  | inr key ↦
      (let e : session.principal ≡ p = ground (arith, key, h) in
        (
          ground (arith, e, key, h, bytes_beq_iff session.principal.project_id project),
          ap (λ q. q.key_id) (sym e),
          ap (λ q. q.agent_id) (sym e),
          inr (sym e),
        ))
]

require-scope :
    (p : Principal) (scope : Scope) → require p scope ≡ ok tt → contains scope p.scopes ≡ true
unfolding require
require-scope p scope h = ground arith

project_principal-IsAllowed :
    (session : Session) (raw : Bytes) (scope : Scope) (p : Principal)
    → project_principal session raw scope ≡ ok p
    → IsAllowed session scope p
unfolding project_principal
project_principal-IsAllowed session raw scope p h =
    let (t, known, rest) =
      >>=-eq-ok (reject_if (not (valid_uuid (trim_space raw))) (ApiError.bad_request _)) _ h in
    let (u, may, last) =
      >>=-eq-ok (map_err ApiError.domain (require session.principal scope)) _ rest in
    let (project, key, agent, own) = own_or_any session (trim_space raw) p last in
    record {
      known = ground (arith, known, project);
      granted = require-scope session.principal scope (map_err-ok ApiError.domain _ may);
      same_key = key;
      same_agent = agent;
      own = own;
    }

query-IsAllowed :
    (session : Session) (given : Bytes) (scope : Scope) (p : Principal)
    → query_project_principal session given scope ≡ ok p
    → IsAllowed session scope p
unfolding query_project_principal
query-IsAllowed session given scope p h =
    let raw =
      if trim_space given == [] && not session.bootstrap
      then session.principal.project_id
      else trim_space given in
    let (t, filled, rest) = >>=-eq-ok (reject_if (raw == []) (ApiError.bad_request _)) _ h in
    project_principal-IsAllowed session raw scope p rest

or_fail-ok : {A : Type 0} (o : Option A) (e : ApiError) {a : A} → or_fail o e ≡ ok a → o ≡ some a
or_fail-ok none e h = cc
or_fail-ok (some b) e h = ground arith

session_of_key :
    (mac : Bytes → Bytes → Bytes) (pepper token : Bytes) (keys : KeyRepository) (raw : Bytes)
    (now : Time) (session : Session)
    → (raw == token) ≡ false
    → open_session mac pepper token keys raw now ≡ ok session
    → (session.bootstrap ≡ false) × (authenticate mac pepper keys raw now ≡ ok session.principal)
unfolding open_session
session_of_key mac pepper token keys raw now session other h =
    let opened : (map_err credential_error (authenticate mac pepper keys raw now) >>= λ p.
    reject_if (not (valid_principal p)) ApiError.unauthorized
    >> ok (record { principal = p; bootstrap = false }))
        ≡ ok session =
      ground (arith, other, h) in
    let (q, known, rest) =
      >>=-eq-ok (map_err credential_error (authenticate mac pepper keys raw now)) _ opened in
    let (t, valid, made) =
      >>=-eq-ok (reject_if (not (valid_principal q)) ApiError.unauthorized) _ rest in
    let e = ok_inj made in
    (
      ap (λ x. x.bootstrap) (sym e),
      map_err-ok credential_error _ known ∙ ap (λ x. ok x.principal) e,
    )

-- A request that comes with an API key, and not with the bootstrap token, acts only for the principal
-- that the key authenticates as, so for that key's own project, and only within the scopes of the key,
-- whichever project its query names.
pub key_acts_for_own_project :
    (mac : Bytes → Bytes → Bytes) (pepper token : Bytes) (keys : KeyRepository) (header : Bytes)
    (now : Time) (session : Session) (given : Bytes) (scope : Scope) (p : Principal)
    → authenticate_request mac pepper token keys header now ≡ ok session
    → query_project_principal session given scope ≡ ok p
    → (raw : Bytes) × (bearer_token header ≡ some raw)
      × ((raw ≡ token)
          ⊎ ((authenticate mac pepper keys raw now ≡ ok p) × (contains scope p.scopes ≡ true)))
unfolding authenticate_request
key_acts_for_own_project mac pepper token keys header now session given scope p h k =
    let (raw, found, opened) =
      >>=-eq-ok (or_fail (bearer_token header) ApiError.unauthorized) _ h in
    let allowed = query-IsAllowed session given scope p k in
    (
      raw,
      or_fail-ok (bearer_token header) ApiError.unauthorized found,
      elim (Bool-cases (raw == token)) [
        | inl same ↦ inl ((bytes_beq_iff raw token).0 same)
        | inr other ↦
            (let (no_boot, known) =
                session_of_key mac pepper token keys raw now session other opened in
              elim allowed.own [
                | inl boot ↦ absurd (ground (arith, boot, no_boot))
                | inr e ↦ inr (
                  known ∙ ap (λ x. ok x) (sym e),
                  ap (λ x. contains scope x.scopes) e ∙ allowed.granted,
                )
              ])
      ],
    )
