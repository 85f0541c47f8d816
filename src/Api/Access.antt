-- ===== src/Api/Access.antt =====
-- internal/server/httpapi/middleware.go and the check of New on the token: who makes a request, and for
-- which project it may act. Request identifiers, recovery from panics and CORS are left out.
pub mod Tenancy
use gline.Base.{
  ℕ, ◌+◌, Bool, true, false, not, ◌&&◌, ◌||◌, Option, none, some, Bytes, bytes_eq, ◌==◌, codes,
  List, [], ◌∷◌, map, take, drop, length, contains, trim_space, ltb, leb, nat_eq, Result, ok, err,
  ◌>>=◌, ◌>>◌, reject_if, or_fail, map_err, if◌then◌else◌,
}
use gline.Domain.Ids.{Ident, valid_uuid}
use gline.Domain.Status.{Scope, scopes}
use gline.Domain.Models.{Time}
use gline.Auth.{Principal, valid_principal, require, require_project}
use gline.Auth.Keys.{CredentialError, KeyRepository, authenticate}
use gline.Api.Errors.{ApiError}

-- The Unicode fold of a letter of `Bearer` is the one of ASCII.
fold : ℕ → ℕ
fold c = if leb 0x41 c && leb c 0x5a then c + 0x20 else c

has_space : Bytes → Bool
has_space raw = contains 0x20 raw || contains 0x09 raw || contains 0x0d raw || contains 0x0a raw

-- bearerToken
unfoldable pub bearer_token : Bytes → Option Bytes
unfolding fold has_space
bearer_token header =
    if ltb (length header) 8 || not (map fold (take 7 header) == codes "bearer ")
    then none
    else (let raw = trim_space (drop 7 header) in
        if raw == [] || has_space raw || ltb 768 (length raw) then none else some raw)

-- What the context of a request carries behind the middleware.
pub record Session : Type 0 where
  pub principal : Principal
  pub bootstrap : Bool

-- bootstrapPrincipal
abbrev pub bootstrap_principal : Principal
bootstrap_principal = record {
  key_id = codes "00000000-0000-4000-8000-000000000001";
  project_id = codes "00000000-0000-4000-8000-000000000002";
  agent_id = none;
  scopes = scopes;
}

-- An invalid credential is answered like a missing one.
abbrev credential_error : CredentialError → ApiError
credential_error CredentialError.invalid_credential = ApiError.unauthorized
credential_error e = ApiError.credential e

-- What New asks of the token.
unfoldable pub accepts_token : Bytes → Bool
accepts_token token = not (ltb (length token) 24)

module _ (mac : Bytes → Bytes → Bytes) (pepper token : Bytes) (keys : KeyRepository) where
  unfoldable pub open_session : Bytes → Time → Result ApiError Session
  open_session raw now =
      if raw == token
      then ok (record { principal = bootstrap_principal; bootstrap = true })
      else (map_err credential_error (authenticate mac pepper keys raw now) >>= λ p.
          reject_if (not (valid_principal p)) ApiError.unauthorized
          >> ok (record { principal = p; bootstrap = false }))

  -- authenticate
  unfoldable pub authenticate_request : Bytes → Time → Result ApiError Session
  unfolding open_session
  authenticate_request header now = do
    raw ← or_fail (bearer_token header) ApiError.unauthorized
    open_session raw now

-- projectPrincipal
unfoldable pub project_principal : Session → Bytes → Scope → Result ApiError Principal
project_principal session raw scope = do
  let project = trim_space raw
  reject_if (not (valid_uuid project)) (ApiError.bad_request (codes "invalid_project_id"))
  map_err ApiError.domain (require session.principal scope)
  if session.bootstrap
      then ok (record session.principal { project_id = project })
      else (map_err ApiError.auth (require_project session.principal project)
          >> ok session.principal)

-- queryProjectPrincipal: without a project in the query, a key acts for its own.
unfoldable pub query_project_principal : Session → Bytes → Scope → Result ApiError Principal
unfolding project_principal
query_project_principal session given scope = do
  let asked = trim_space given
  let raw = if asked == [] && not session.bootstrap then session.principal.project_id else asked
  reject_if (raw == []) (ApiError.bad_request (codes "project_required"))
  project_principal session raw scope
