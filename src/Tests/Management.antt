-- ===== src/Tests/Management.antt =====
-- The administration, the playground and the embedder.
use ai_support_agent_builder.Prelude.{
  ℕ, List, [], ◌∷◌, ◌++◌, map, keep, Option, none, some, true, false, ◌≡◌, refl, length, arith,
}
use ai_support_agent_builder.Text.{codes, equals}
use ai_support_agent_builder.Number.{Double, finite, pos}
use ai_support_agent_builder.Claims.{TenantClaims, is_admin_session}
use ai_support_agent_builder.Retry.{value}
use ai_support_agent_builder.Chat.Sources.Header.{ChunkHit}
use ai_support_agent_builder.Chat.Route.{Assistant, Surroundings, Fetched, brings, published}
use ai_support_agent_builder.Accounts.{exchange_api_key}
use ai_support_agent_builder.Assistants.{
  Tables, ApiKeyRow, GeneratedKey, find_by_hash, post_api_key, delete_api_key, serve, revokes,
  generate_api_key, is_own_assistant,
}
use ai_support_agent_builder.Ingest.World.{find_row}
use ai_support_agent_builder.Assistants.Tenants.{rows_of, serve-isolated}
use ai_support_agent_builder.Assistants.Keys.{
  Distinct, over, exchanged, is_published_row, without, is_revoked, delete_api_key-exchange,
  post_api_key-exchange,
}
use ai_support_agent_builder.Providers.{EmbeddingsClient, embed}
use ai_support_agent_builder.Providers.Batches.{
  Inserted, Shuffled, here, there, indexed, embed-value,
}
use ai_support_agent_builder.Playground.Mirror.{Mirrored, post_retrieve-Mirrored}
use ai_support_agent_builder.Admin.Settings.{Listed, create_key, revoke_key}
use ai_support_agent_builder.Admin.Settings as Settings
use ai_support_agent_builder.Admin.Settings.Agree.{
  server_keys, key_answer, revoke_answer, page-agrees,
}
use ai_support_agent_builder.Tests.Data.{unit_encoder, two_hits, flat}
use ai_support_agent_builder.Tests.Tokens.{services}

abbrev uuid : List ℕ
uuid = codes "00000000-0000-0000-0000-000000000001"

abbrev key_id : List ℕ
key_id = codes "00000000-0000-0000-0000-000000000002"

abbrev claims : TenantClaims
claims = record { tenant_id = codes "t"; user_id = some (codes "u"); assistant_id = none }

abbrev assistant : Assistant
assistant = record {
  id = uuid;
  model = codes "m";
  system_prompt = none;
  refusal_threshold = finite (pos 2);
  status = published;
}

abbrev old_key : ApiKeyRow
old_key = record { id = key_id; tenant_id = codes "t"; assistant_id = uuid; key_hash = codes "old" }

abbrev tables : Tables
tables = record {
  assistants = record { tenant_id = codes "t"; name = codes "n"; assistant = assistant } ∷ [];
  api_keys = old_key ∷ [];
}

tenants_differ : equals claims.tenant_id (codes "other") ≡ false
unfolding equals
tenants_differ = refl

-- With a key of the other tenant behind the one that is revoked.
abbrev shared_tables : Tables
shared_tables = record tables {
  api_keys = old_key ∷ record old_key { tenant_id = codes "other"; key_hash = codes "theirs" } ∷ [];
}

serve-isolated_example :
    rows_of (codes "other") (serve false claims (revokes uuid key_id) shared_tables).1
    ≡ rows_of (codes "other") shared_tables
serve-isolated_example =
    serve-isolated claims (codes "other") tenants_differ false (revokes uuid key_id) shared_tables

abbrev consumer : TenantClaims
consumer = record claims { user_id = none; assistant_id = some uuid }

tables-Distinct : Distinct tables.api_keys
unfolding find_row
tables-Distinct = (refl, tt)

revoked_status : (delete_api_key false claims uuid key_id tables).0.status ≡ 204
unfolding delete_api_key equals keep
revoked_status = refl

delete_api_key-exchange_example :
    exchange_api_key
      (over services (delete_api_key false claims uuid key_id tables).1)
      (codes "old")
    ≡ without
        (is_revoked key_id uuid claims.tenant_id)
        (find_by_hash (services.hash_api_key (codes "old")) tables)
        (exchange_api_key (over services tables) (codes "old"))
delete_api_key-exchange_example =
    delete_api_key-exchange services false claims uuid key_id tables (codes "old") tables-Distinct
      revoked_status

minted_status :
    (post_api_key false claims uuid
      (generate_api_key services.hash_api_key (codes "r"))
      (codes "k")
      tables).0.status
    ≡ 201
unfolding post_api_key generate_api_key equals
minted_status = refl

post_api_key-exchange_example :
    exchange_api_key
      (over services
        (post_api_key false claims uuid
          (generate_api_key services.hash_api_key (codes "r"))
          (codes "k")
          tables).1)
      (generate_api_key services.hash_api_key (codes "r")).key
    ≡ exchanged services claims.tenant_id uuid
        (is_published_row (find_row (is_own_assistant uuid claims.tenant_id) tables.assistants))
post_api_key-exchange_example =
    post_api_key-exchange services false claims uuid (codes "r") (codes "k") tables minted_status

abbrev settings : Settings.Page
settings = record {
  assistant = some (record { id = uuid; name = codes "n"; status = codes "PUBLISHED" });
  load_error = none;
  publishing = false;
  publish_error = none;
  keys = key_id ∷ [];
  new_key = none;
  creating = false;
  revoking = none;
  keys_error = none;
}

abbrev listed : Listed
listed = record { id = uuid; name = codes "n"; status = codes "PUBLISHED" }

abbrev fresh : GeneratedKey
fresh = record { key = codes "asab_sk_r"; hash = codes "new" }

settings_agree : settings.keys ≡ server_keys claims listed.id tables
unfolding equals keep
settings_agree = refl

page-agrees_example :
    ((create_key
        (key_answer (post_api_key false claims uuid fresh (codes "k") tables).0)
        settings).keys
      ≡ server_keys claims uuid (post_api_key false claims uuid fresh (codes "k") tables).1)
    × ((revoke_key true key_id
          (revoke_answer (delete_api_key false claims uuid key_id tables).0)
          settings).keys
        ≡ server_keys claims uuid (delete_api_key false claims uuid key_id tables).1)
page-agrees_example =
    page-agrees false claims tables settings listed fresh (codes "k") key_id refl settings_agree
      refl refl

-- A service that answers in the opposite order.
abbrev backwards {ℓ} : {A : Type ℓ} → List A → List A
backwards [] = []
backwards (x ∷ xs) = backwards xs ++ x ∷ []

abbrev vector_of : List ℕ → List Double
vector_of text = finite (pos (length text)) ∷ []

abbrev client : EmbeddingsClient
client args attempt = value (backwards (indexed 0 (map vector_of args.input)))

Inserted-last {ℓ} : {A : Type ℓ} (x : A) (ys : List A) → Inserted x ys (ys ++ x ∷ [])
Inserted-last x [] = here
Inserted-last x (y ∷ ys) = there (Inserted-last x ys)

Shuffled-backwards {ℓ} : {A : Type ℓ} (xs : List A) → Shuffled xs (backwards xs)
Shuffled-backwards [] = refl
Shuffled-backwards (x ∷ xs) = (backwards xs, Shuffled-backwards xs, Inserted-last x (backwards xs))

embed-value_example :
    embed client (codes "m") 1 2 (codes "a" ∷ codes "bc" ∷ codes "def" ∷ []) 1
    ≡ value (map vector_of (codes "a" ∷ codes "bc" ∷ codes "def" ∷ []))
embed-value_example =
    embed-value client (codes "m") 1 2 vector_of (omega arith)
      (λ batch attempt. (_, refl, Shuffled-backwards (indexed 0 (map vector_of batch))))
      (codes "a" ∷ codes "bc" ∷ codes "def" ∷ []) 1

abbrev env : Surroundings
env = record {
  encoder = unit_encoder;
  locale_compare = flat;
  context_token_budget = 100;
  max_output_tokens = 50;
  find_assistant = λ tenant id. brings (some assistant);
  dropped_in_lookup = false;
  retrieve = λ tenant id question. brings two_hits;
  in_retrieval = [];
  generate = λ request. [];
}

abbrev retrieve : List ℕ → List ℕ → List ℕ → Option ℕ → Fetched (List ChunkHit)
retrieve tenant id question k = brings two_hits

claims_admin : is_admin_session claims ≡ true
unfolding is_admin_session
claims_admin = refl

post_retrieve-Mirrored_example :
    Mirrored env retrieve claims assistant uuid (codes "q") (some 4) two_hits
post_retrieve-Mirrored_example =
    post_retrieve-Mirrored env retrieve claims assistant uuid (codes "q") (some 4) two_hits
      claims_admin refl refl refl refl refl refl refl
