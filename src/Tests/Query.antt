-- ===== src/Tests/Query.antt =====
-- A search over three rows, two on a page.
use gline.Base.{
  replicate, ◌*◌, ◌+◌, ℕ, ne_sound, bytes_eq, arith, ◌≤◌, ◌<◌, ◌⊎◌, ◌≡◌, ◌≢◌, refl, pos, true,
  false, none, some, Bytes, bytes_beq, codes, List, [], ◌∷◌, map, contains, length, All, Result, ok,
  err, sort_strings, valid_utf8, is_blank, trim_space, count_byte, cut_byte, put, lookup,
}
use gline.Domain.Ids.{valid_uuid}
use gline.Domain.Status.{scope_query, valid_scope}
use gline.Domain.Models.{can_ingest}
use gline.Domain.Queries.{EntryCursor, EntryQuery, validate_query, elapsed, any_blank}
use gline.Auth.{Principal, require, valid_principal}
use gline.Storage.{select_project}
use gline.Storage.Entries.{StoredEntry, Engine, list_entries}
use gline.Storage.Entries.Sorting.{IsDistinct}
use gline.Storage.Entries.Pages.{walk, all_entries}
use gline.Storage.Entries.Paging.{walk_complete}
use gline.Query.Cursor.{encode, decode}
use gline.Query.Cursor.Trust.{IsTrusted, decode-IsTrusted, decode-encode}
use gline.Query.Service.{
  QueryLib, Config, Params, World, unlimited, Page, search, normalize_filter, collect_values, clean,
  build_query, parse_time, query_filter_hash, effective_limit,
}
use gline.Query.Service.Results.{IsAsked, search_bounded}
use gline.Query.Service.Continued.{Continues, is_sendable, cursor_at, search-Continues}
use gline.Query.Filters.{normalize_filter_same}
use gline.Query.Slots.{Slots, new_slots, enter, Reaches, stay, step, comes}
use gline.Query.Slots.Counts.{running, users_of}
use gline.Query.Slots.Bounds.{queries_bounded}
use gline.Tests.Ingest.{project_1, agent_1, pipeline_1, batch_id, tables}
use gline.Tests.Cursors.{toy, toy_laws}

abbrev row : ℕ → ℕ → StoredEntry
row n at = record {
  id = n;
  row = record {
    project_id = project_1;
    batch_id = batch_id;
    batch_sequence = pos n;
    agent_id = agent_1;
    pipeline_id = pipeline_1;
    service = codes "web";
    host = codes "a";
    level = codes "INFO";
    message = codes "hello";
    observed_at = 1000 + at;
    attributes = codes "{}";
  };
  ingested_at = 50;
}

abbrev table : List StoredEntry
table = row 1 20 ∷ row 2 30 ∷ row 3 20 ∷ []

abbrev engine : Engine
engine = record { ilike = λ text pattern. true; fails = false; is_object = λ b. true }

abbrev query : EntryQuery
query = record {
  project_id = project_1;
  from = 1000;
  to = 2000;
  services = [];
  hosts = [];
  levels = codes "INFO" ∷ [];
  message = [];
  cursor = none;
  limit = pos 2;
}

query_valid : validate_query query 0 500 ≡ ok tt
unfolding validate_query valid_uuid any_blank is_blank
query_valid = refl

abbrev in_order : List StoredEntry
in_order = row 2 30 ∷ row 3 20 ∷ row 1 20 ∷ []

table-IsDistinct : IsDistinct table
table-IsDistinct = (
  (λ e. absurd (omega arith), (λ e. absurd (omega arith), tt)),
  ((λ e. absurd (omega arith), tt), (tt, tt)),
)

walk_complete_example : walk engine table query 4 none ≡ ok (all_entries engine table query)
walk_complete_example =
    walk_complete engine table query refl
      ((omega arith, refl), ((omega arith, refl), ((omega arith, refl), tt))) table-IsDistinct
      query_valid

abbrev lib : QueryLib
lib = record {
  cursors = toy;
  parse_rfc3339 = λ b. some (2020, 250 * length b);
  to_upper = λ b. b;
  marshal_filter = λ f. some (codes "filter");
  sha256 = λ b. replicate 32 7;
}

abbrev config : Config
config = record {
  max_range = 1000;
  default_limit = 2;
  max_limit = 10;
  max_filter_items = 4;
  max_filter_bytes = 20;
  max_message_bytes = 20;
}

abbrev params : Params
params = record {
  from = codes "2020";
  to = codes "20200101";
  services = [];
  hosts = [];
  levels = [];
  message = [];
  limit = pos 0;
  cursor = [];
}

abbrev reader : Principal
reader = record {
  key_id = agent_1;
  project_id = project_1;
  agent_id = none;
  scopes = scope_query ∷ [];
}

abbrev world : World
world = record {
  faults = λ s. false;
  project_late = false;
  acquired = unlimited;
  engine = engine;
  list_late = false;
}

abbrev secret : Bytes
secret = codes "0123456789abcdef"

abbrev page_or_none : {E : Type 0} → Result E Page → Page
page_or_none (ok p) = p
page_or_none (err e) = record { entries = []; next_cursor = [] }

abbrev first_page : Page
first_page = page_or_none (search lib secret config tables table world reader params)

first_run : search lib secret config tables table world reader params ≡ ok first_page
unfolding search require valid_principal valid_uuid valid_scope contains bytes_beq parse_time
    is_blank effective_limit normalize_filter collect_values valid_utf8 sort_strings validate_query
    query_filter_hash select_project can_ingest list_entries encode
first_run = refl

search_bounded_example :
    (q : EntryQuery) × All (IsAsked q) first_page.entries
    × (q.project_id ≡ project_1)
    × (elapsed q.to q.from ≤ 1000)
    × (length first_page.entries ≤ 10)
search_bounded_example =
    search_bounded lib secret config tables table world reader params first_page first_run

more_follows : first_page.next_cursor ≢ []
unfolding search require valid_principal valid_uuid valid_scope contains bytes_beq parse_time
    is_blank effective_limit normalize_filter collect_values valid_utf8 sort_strings validate_query
    query_filter_hash select_project can_ingest list_entries encode
more_follows = ne_sound first_page.next_cursor [] refl

abbrev asked_query : EntryQuery
asked_query = record query { levels = [] }

built : build_query lib config project_1 params ≡ ok (asked_query, replicate 32 7)
unfolding build_query parse_time is_blank effective_limit normalize_filter collect_values valid_utf8
    contains validate_query valid_uuid sort_strings query_filter_hash
built = refl

sendable : All (λ e. is_sendable lib (cursor_at e) ≡ true) first_page.entries
unfolding search require valid_principal valid_uuid valid_scope contains bytes_beq parse_time
    is_blank effective_limit normalize_filter collect_values valid_utf8 sort_strings validate_query
    query_filter_hash select_project can_ingest list_entries encode
sendable = (refl, (refl, tt))

search-Continues_example : Continues lib secret project_1 first_page asked_query (replicate 32 7)
search-Continues_example =
    search-Continues lib secret config tables table world reader params first_page asked_query
      (replicate 32 7) toy_laws built refl refl refl sendable first_run more_follows

abbrev position : EntryCursor
position = record { observed_at = 20; id = pos 3 }

abbrev bytes_or_none : {E : Type 0} → Result E Bytes → Bytes
bytes_or_none (ok b) = b
bytes_or_none (err e) = []

abbrev raw : Bytes
raw = bytes_or_none (encode toy secret project_1 (replicate 32 9) position)

encoded : encode toy secret project_1 (replicate 32 9) position ≡ ok raw
unfolding encode valid_uuid
encoded = refl

decode-encode_example : decode toy secret raw project_1 (replicate 32 9) ≡ ok position
decode-encode_example =
    decode-encode toy secret toy_laws project_1 (replicate 32 9) position raw refl refl refl encoded

decoded : decode toy secret raw project_1 (replicate 32 9) ≡ ok position
unfolding decode encode valid_uuid count_byte cut_byte bytes_beq
decoded = refl

decode-IsTrusted_example : IsTrusted toy secret raw project_1 (replicate 32 9) position
decode-IsTrusted_example =
    decode-IsTrusted toy secret raw project_1 (replicate 32 9) position decoded

abbrev given : List Bytes
given = codes " web" ∷ codes "api" ∷ codes "web " ∷ []

abbrev given_again : List Bytes
given_again = codes "api" ∷ codes "web" ∷ []

cleaned : normalize_filter lib given 4 20 false ≡ ok (codes "api" ∷ codes "web" ∷ [])
unfolding normalize_filter collect_values bytes_beq clean trim_space valid_utf8 contains
    sort_strings put
cleaned = refl

cleaned_again : normalize_filter lib given_again 4 20 false ≡ ok (codes "api" ∷ codes "web" ∷ [])
unfolding normalize_filter collect_values bytes_beq clean trim_space valid_utf8 contains
    sort_strings put
cleaned_again = refl

same_values :
    (x : Bytes)
    → contains x (map (clean lib false) given) ≡ contains x (map (clean lib false) given_again)
unfolding contains clean trim_space
same_values x = ground arith

normalize_filter_same_example : codes "api" ∷ codes "web" ∷ [] ≡ codes "api" ∷ codes "web" ∷ []
normalize_filter_same_example =
    normalize_filter_same lib 20 false 4 given given_again _ _ cleaned cleaned_again same_values

abbrev one_slot : Slots
one_slot = enter (new_slots 1) project_1

arrived : Reaches (new_slots 1) one_slot
arrived = step stay (comes project_1)

queries_bounded_example :
    (running project_1 one_slot.flights ≤ 1)
    × ((lookup project_1 one_slot.projects ≡ none)
        ⊎ ((r : ℕ) × (lookup project_1 one_slot.projects ≡ some r)
            × (0 < users_of r one_slot.flights)))
queries_bounded_example = queries_bounded 1 one_slot project_1 arrived
