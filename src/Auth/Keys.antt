-- ===== src/Auth/Keys.antt =====
-- internal/server/auth/authenticator.go: who presents an API key. The HMAC and the repository are
-- arguments, as in the source; the throttled record of when a key was last used is left out, since no
-- answer depends on it.
pub mod Candidates
use gline.Base.{
  ℕ, Bool, true, false, not, ◌&&◌, ◌||◌, Option, none, some, Bytes, bytes_eq, ◌==◌, List, [], ◌∷◌,
  all, length, count_byte, cut_byte, ltb, leb, nat_beq, Result, ok, err, ◌>>=◌, ◌>>◌, reject_if,
  map_err, if◌then◌else◌,
}
use gline.Domain.Models.{ApiKey, Time, DomainError, usable_at}
use gline.Auth.{Principal, new_principal}
use gline.Storage.{StoreError}

pub data CredentialError : Type 0 where
  invalid_credential short_pepper : CredentialError
  repository : StoreError → CredentialError
  bad_record : DomainError → CredentialError

-- KeyRepository: the keys with a prefix that are active at an instant, of any project.
pub record KeyRepository : Type 0 where
  pub find_active_by_prefix : Bytes → Time → Result StoreError (List ApiKey)

-- A letter, a digit, `_` or `-` of ASCII; what is not ASCII is refused as well.
unfoldable pub is_key_byte : ℕ → Bool
is_key_byte c =
    leb 0x41 c && leb c 0x5a
    || leb 0x61 c && leb c 0x7a
    || leb 0x30 c && leb c 0x39
    || nat_beq c 0x5f
    || nat_beq c 0x2d

-- ParseKey
unfoldable pub parse_key : Bytes → Result CredentialError (Bytes × Bytes)
unfolding is_key_byte
parse_key raw = do
  reject_if (ltb 768 (length raw) || not (nat_beq (count_byte 0x2e raw) 1)) invalid_credential
  let (prefix, secret) = cut_byte 0x2e raw
  reject_if
      (ltb (length prefix) 4
        || ltb 128 (length prefix)
        || ltb (length secret) 16
        || ltb 512 (length secret))
      invalid_credential
  reject_if (not (all is_key_byte prefix)) invalid_credential
  reject_if (not (all is_key_byte secret)) invalid_credential
  ok (prefix, secret)

-- NewAuthenticator
unfoldable pub new_authenticator : Bytes → Result CredentialError Bytes
new_authenticator pepper = do reject_if (ltb (length pepper) 16) short_pepper; ok pepper

-- A candidate whose hash has the right length, is the wanted one, and that is usable.
unfoldable pub is_match : Bytes → Time → ApiKey → Bool
is_match want now k = nat_beq (length k.secret_hash) 32 && k.secret_hash == want && usable_at k now

-- The loop over the candidates, with the match so far.
unfoldable pub scan_candidates :
    Bytes → Time → Option ApiKey → List ApiKey → Result CredentialError (Option ApiKey)
unfolding is_match
scan_candidates want now found [] = ok found
scan_candidates want now none (k ∷ ks) =
    if is_match want now k
    then scan_candidates want now (some k) ks
    else scan_candidates want now none ks
scan_candidates want now (some m) (k ∷ ks) =
    if is_match want now k then err invalid_credential else scan_candidates want now (some m) ks

unfoldable pub principal_of : Option ApiKey → Result CredentialError Principal
principal_of none = err invalid_credential
principal_of (some k) = map_err bad_record (new_principal k)

module _ (mac : Bytes → Bytes → Bytes) (pepper : Bytes) (keys : KeyRepository) where
  -- HashSecret
  unfoldable pub hash_secret : Bytes → Bytes
  hash_secret secret = mac pepper secret

  -- Authenticate
  unfoldable pub authenticate : Bytes → Time → Result CredentialError Principal
  unfolding scan_candidates principal_of hash_secret
  authenticate raw now = do
    (prefix, secret) ← parse_key raw
    candidates ← map_err repository (keys.find_active_by_prefix prefix now)
    found ← scan_candidates (hash_secret secret) now none candidates
    principal_of found
