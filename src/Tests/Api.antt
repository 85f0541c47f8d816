-- ===== src/Tests/Api.antt =====
-- A request with an API key, and a batch in its body.
use gline.Base.{
  ℕ, arith, ◌≤◌, ◌≡◌, ◌⊎◌, ◌↔◌, refl, ap, ◌∙◌, pos, max, ◌+◌, ◌-◌, ◌^◌, parse_int, Bool, true,
  false, Option, none, some, Bytes, bytes_eq, codes, List, [], ◌∷◌, ◌++◌, map, filter, contains,
  replicate, Result, ok, err, ◌>>=◌, map_err,
}
use gline.Domain.Ids.{Ident}
use gline.Domain.Status.{KeyStatus, scope_ingest, scope_query}
use gline.Domain.Models.{ApiKey, Batch}
use gline.Auth.{Principal, new_principal}
use gline.Auth.Keys.{KeyRepository, authenticate, parse_key}
use gline.Auth.Keys.Candidates.{IsAuthenticated, authenticate_unique}
use gline.Storage.{Db, entry_row, lookup_batch}
use gline.Admission.Limiter.{key_rate, AdmissionError}
use gline.Ingest.Transaction.{Receipt, accepted}
use gline.Ingest.Transaction.Retries.{deliver_all}
use gline.Ingest.Service.{Server, AcceptError, accept}
use gline.Protocol.Validator.{default_limits}
use gline.Protocol.Batches.{holding, decode_body, normalize}
use gline.Api.Errors.{ApiError, retry_after_header}
use gline.Api.Errors.Waiting.{retry_after_carried}
use gline.Api.Access.{Session, authenticate_request, query_project_principal, bearer_token}
use gline.Api.Access.Tenancy.{key_acts_for_own_project}
use gline.Api.Batches.{ingest_batch, read_batch}
use gline.Api.Batches.Answers.{ingest_batch_stores_once}
use gline.Reliable.Transport.{parse_retry_after}
use gline.Tests.Ingest.{project_1, agent_1, tables, call}
use gline.Tests.Protocol.{normalized, request, attributes_ab, lib, batch, shipper}

retry_after_carried_example :
    (value : Bytes) × (retry_after_header
        (ApiError.accept (AcceptError.admission (AdmissionError.limited key_rate 1500000000)))
      ≡ some value)
    × (1500000000 ≤ parse_retry_after parse_int (λ b. none) value 7)
    × (parse_retry_after parse_int (λ b. none) value 7 ≤ max (10 ^ 9) (1500000000 + (10 ^ 9 - 1)))
retry_after_carried_example = retry_after_carried key_rate 1500000000 (λ b. none) 7

abbrev mac : Bytes → Bytes → Bytes
mac pepper secret = replicate 32 5

abbrev key : ApiKey
key = record {
  id = agent_1;
  project_id = project_1;
  agent_id = none;
  name = codes "shipper";
  prefix = codes "abcd";
  secret_hash = replicate 32 5;
  scopes = scope_ingest ∷ [];
  status = KeyStatus.active;
  expires_at = none;
  revoked_at = none;
}

abbrev keys : KeyRepository
keys = record { find_active_by_prefix = λ prefix now. ok (key ∷ []) }

abbrev raw_key : Bytes
raw_key = codes "abcd.0123456789abcdef"

abbrev key_principal : Principal
key_principal = record {
  key_id = agent_1;
  project_id = project_1;
  agent_id = none;
  scopes = scope_ingest ∷ [];
}

authenticate_unique_example :
    (authenticate mac (codes "pepper") keys raw_key 9 ≡ ok key_principal)
    ↔ IsAuthenticated mac (codes "pepper") keys raw_key 9 key_principal
authenticate_unique_example = authenticate_unique mac (codes "pepper") keys raw_key 9 key_principal

-- The key is found.
authenticated : authenticate mac (codes "pepper") keys raw_key 9 ≡ ok key_principal
unfolding authenticate parse_key gline.Base.count_byte gline.Base.cut_byte gline.Base.bytes_beq
    gline.Domain.Models.usable_at new_principal gline.Domain.Models.validate_key
    gline.Domain.Ids.valid_uuid gline.Base.is_blank gline.Domain.Status.valid_key_status
    gline.Domain.Status.valid_scope
authenticated = refl

abbrev session : Session
session = record { principal = key_principal; bootstrap = false }

abbrev header : Bytes
header = codes "Bearer abcd.0123456789abcdef"

opened : authenticate_request mac (codes "pepper") (codes "token") keys header 9 ≡ ok session
unfolding authenticate_request bearer_token gline.Base.bytes_beq gline.Base.trim_space contains
    authenticate parse_key gline.Base.count_byte gline.Base.cut_byte gline.Domain.Models.usable_at
    new_principal gline.Domain.Models.validate_key gline.Domain.Ids.valid_uuid gline.Base.is_blank
    gline.Domain.Status.valid_key_status gline.Domain.Status.valid_scope gline.Auth.valid_principal
opened = refl

allowed : query_project_principal session [] scope_ingest ≡ ok key_principal
unfolding query_project_principal gline.Base.bytes_beq gline.Base.trim_space
    gline.Domain.Ids.valid_uuid gline.Auth.require gline.Auth.valid_principal
    gline.Domain.Status.valid_scope contains gline.Auth.require_project
allowed = refl

key_acts_for_own_project_example :
    (raw : Bytes) × (bearer_token header ≡ some raw)
    × ((raw ≡ codes "token")
        ⊎ ((authenticate mac (codes "pepper") keys raw 9 ≡ ok key_principal)
            × (contains scope_ingest key_principal.scopes ≡ true)))
key_acts_for_own_project_example =
    key_acts_for_own_project mac (codes "pepper") (codes "token") keys header 9 session []
      scope_ingest key_principal opened allowed

abbrev shipping : Session
shipping = record { principal = shipper; bootstrap = false }

abbrev server : Server
server = record { db = tables; limiter = none }

abbrev after : Server
after = (accept server shipper batch call).0

abbrev receipt : Receipt
receipt = record { batch_id = batch.id; status = accepted; accepted_entries = 1 }

whole_body :
    decode_body lib (holding (codes "{...}")) default_limits.max_body_bytes
    ≡ ok (request attributes_ab, 5)
unfolding decode_body
whole_body = refl

read : read_batch lib default_limits shipping (holding (codes "{...}")) ≡ ok batch
unfolding read_batch
read =
    ap (λ m. m >>= λ (r, n). normalize lib r project_1 (pos n) default_limits) whole_body
    ∙ normalized

taken : accept server shipper batch call ≡ (after, ok receipt)
unfolding accept gline.Ingest.Service.prepare gline.Auth.require gline.Auth.valid_principal
    gline.Domain.Ids.valid_uuid gline.Domain.Status.valid_scope contains gline.Base.bytes_beq
    gline.Auth.require_agent gline.Domain.Models.validate_batch
    gline.Domain.Models.validate_for_batch gline.Base.is_blank gline.Ingest.Transaction.within_tx
    gline.Ingest.Transaction.ingest_tx gline.Ingest.Transaction.check_target
    gline.Storage.select_project gline.Domain.Models.can_ingest gline.Storage.select_agent
    gline.Storage.find gline.Storage.insert_batch_row gline.Storage.insert_entry_rows
    gline.Storage.select_pipeline gline.Storage.add_usage_row gline.Ingest.Transaction.end_tx
    gline.Ingest.Transaction.write_batch
taken = refl

answered :
    ingest_batch lib default_limits server shipping (holding (codes "{...}")) call
    ≡ (after, ok receipt)
unfolding ingest_batch
answered = ground (arith, read, taken)

unknown : lookup_batch tables batch.project_id batch.id ≡ none
unfolding gline.Storage.find
unknown = refl

untried : tables ≡ deliver_all batch [] tables
unfolding deliver_all
untried = refl

ingest_batch_stores_once_example :
    (false ≡ false) × (after.db.entries ≡ [] ++ map (entry_row batch) batch.entries)
ingest_batch_stores_once_example =
    ingest_batch_stores_once lib default_limits server after shipping (holding (codes "{...}")) call
      receipt batch tables [] answered read untried unknown
