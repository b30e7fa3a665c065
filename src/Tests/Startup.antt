-- ===== src/Tests/Startup.antt =====
-- The configuration at concrete environments.
use ai_support_agent_builder.Prelude.{ℕ, List, none, some, true, if◌then◌else◌, ◌≡◌, refl, length}
use ai_support_agent_builder.Text.{codes, equals, trim}
use ai_support_agent_builder.Number.{whole}
use ai_support_agent_builder.Config.{Outside, Env, Config, loaded, load_config, half, line}
use ai_support_agent_builder.Config.Values.{IsValid, load_config-IsValid}
use ai_support_agent_builder.Config.Missing.{jwt, variable, Says, load_config-missing}

abbrev outside : Outside
outside = record {
  is_url = λ s. true;
  to_number = λ s. whole (length s);
  message = λ rule. codes "Required";
}

abbrev some_secret : List ℕ
some_secret = codes "0123456789abcdef0123456789abcdef"

abbrev env : Env
env name =
    if equals name (codes "DATABASE_URL")
    then some (codes "postgres://d")
    else if equals name (codes "REDIS_URL")
    then some (codes "redis://r")
    else if equals name (codes "JWT_SECRET")
    then some some_secret
    else if equals name (codes "ANTHROPIC_API_KEY")
    then some (codes " a\n")
    else if equals name (codes "OPENAI_API_KEY")
    then some (codes "o")
    else if equals name (codes "CHAT_RATE_CAPACITY")
    then some (codes "1")
    else none

abbrev running : Config
running = record {
  node_env = codes "development";
  port = whole 3000;
  log_level = codes "info";
  database_url = codes "postgres://d";
  direct_database_url = none;
  redis_url = codes "redis://r";
  jwt_secret = some_secret;
  anthropic_api_key = codes "a";
  openai_api_key = codes "o";
  cohere_api_key = none;
  embedding_model = codes "text-embedding-3-small";
  chat_model = codes "claude-haiku-4-5";
  s3_endpoint = none;
  s3_region = none;
  s3_bucket = none;
  s3_access_key_id = none;
  s3_secret_access_key = none;
  upload_max_bytes = whole 20971520;
  chat_rate_capacity = whole 1;
  chat_rate_refill_per_sec = half;
  chat_context_token_budget = whole 2000;
  chat_max_output_tokens = whole 2048;
}

env-running : load_config outside env ≡ loaded running
unfolding load_config equals trim whole half
env-running = refl

load_config-IsValid_example : IsValid outside running
load_config-IsValid_example = load_config-IsValid outside env running env-running

-- Neither the secret nor a level that is a level.
abbrev without_secret : Env
without_secret name =
    if equals name (codes "LOG_LEVEL")
    then some (codes "loud")
    else if equals name (codes "JWT_SECRET")
    then none
    else env name

no_secret : without_secret (variable jwt) ≡ none
unfolding equals
no_secret = refl

load_config-missing_example :
    Says
      (line (record { path = codes "JWT_SECRET"; message = codes "Required" }))
      (load_config outside without_secret)
load_config-missing_example = load_config-missing outside without_secret jwt no_secret
