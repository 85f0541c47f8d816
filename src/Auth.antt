-- ===== src/Auth.antt =====
-- internal/server/auth/principal.go: who a request acts for, and what it may do.
pub mod Keys
use gline.Base.{
  Bool, true, false, not, ◌&&◌, ◌||◌, Option, none, some, List, length, all, contains, bytes_eq,
  nat_beq, ◌==◌, Result, ok, ◌>>◌, reject_if,
}
use gline.Domain.Ids.{Ident, valid_uuid}
use gline.Domain.Status.{Scope, valid_scope}
use gline.Domain.Models.{ApiKey, DomainError, invalid, scope_denied, validate_key}

pub data AuthError : Type 0 where
  domain : DomainError → AuthError
  project_mismatch agent_mismatch invalid_credential : AuthError

-- The scopes are a set in the source; here a list of which only membership is read.
pub record Principal : Type 0 where
  pub key_id : Ident
  pub project_id : Ident
  pub agent_id : Option Ident
  pub scopes : List Scope

-- NewPrincipal
unfoldable pub new_principal : ApiKey → Result DomainError Principal
new_principal k = do
  validate_key k
  ok (record { key_id = k.id; project_id = k.project_id; agent_id = k.agent_id; scopes = k.scopes })

bound_agent_valid : Option Ident → Bool
bound_agent_valid none = true
bound_agent_valid (some id) = valid_uuid id

-- Principal.Valid
unfoldable pub valid_principal : Principal → Bool
unfolding bound_agent_valid
valid_principal p =
    valid_uuid p.key_id
    && valid_uuid p.project_id
    && not (nat_beq (length p.scopes) 0)
    && bound_agent_valid p.agent_id
    && all valid_scope p.scopes

-- Require
unfoldable pub require : Principal → Scope → Result DomainError (Unit {0})
require p scope =
    reject_if (not (valid_principal p) || not (valid_scope scope) || not (contains scope p.scopes))
      scope_denied

-- RequireProject
unfoldable pub require_project : Principal → Ident → Result AuthError (Unit {0})
require_project p project =
    reject_if (not (valid_principal p) || not (valid_uuid project) || not (p.project_id == project))
      project_mismatch

is_other_agent : Option Ident → Ident → Bool
is_other_agent none agent = false
is_other_agent (some bound) agent = not (bound == agent)

-- RequireAgent
unfoldable pub require_agent : Principal → Ident → Result AuthError (Unit {0})
unfolding is_other_agent
require_agent p agent = do
  reject_if (not (valid_uuid agent)) (domain invalid)
  reject_if (is_other_agent p.agent_id agent) agent_mismatch
