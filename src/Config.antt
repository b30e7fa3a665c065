-- ===== src/Config.antt =====
-- api/src/config.ts: the environment is checked against the schema, and the start fails with one error
-- that lists every issue.
pub mod Members
pub mod Values
pub mod Missing
use ai_support_agent_builder.Prelude.{
  ℕ, zero, suc, ◌%◌, ◌*◌, ◌/◌, not, List, [], ◌∷◌, ◌++◌, map, Option, none, some, Bool, true, false,
  if◌then◌else◌, ◌==◌, ltb, length,
}
use ai_support_agent_builder.Text.{codes, equals, is_empty, join, trim}
use ai_support_agent_builder.Number.{
  Double, nan, minus_infinity, finite, plus_infinity, pos, negsuc, unit, whole, lt_double,
}

-- What the schema asks of a variable.
pub data Rule : Type 0 where
  is_required has_url_form is_number is_whole is_positive has_characters is_listed : Rule

pub record Issue : Type 0 where
  pub path : List ℕ
  pub message : List ℕ

-- `safeParse` of a member, or of the whole.
pub data Checked {ℓ} (A : Type ℓ) : Type ℓ where
  accepted : A → Checked A
  refused : List Issue → Checked A

abbrev pub issues {ℓ} : {A : Type ℓ} → Checked A → List Issue
issues (accepted a) = []
issues (refused is) = is

-- The members of an object are all read, whatever is wrong with one of them.
infixl 10 ◌<*>◌
unfoldable pub ◌<*>◌ {ℓ κ} : {A : Type ℓ} {B : Type κ} → Checked (A → B) → Checked A → Checked B
accepted f <*> accepted a = accepted (f a)
accepted f <*> refused is = refused is
refused is <*> c = refused (is ++ issues c)

-- `new URL(text)` does not throw; `Number(text)`; and the texts of zod's own messages.
pub record Outside : Type 0 where
  pub is_url : List ℕ → Bool
  pub to_number : List ℕ → Double
  pub message : Rule → List ℕ

abbrev pub Env : Type 0
Env = List ℕ → Option (List ℕ)

-- `Config`; a number is one of the source's doubles.
pub record Config : Type 0 where
  pub node_env : List ℕ
  pub port : Double
  pub log_level : List ℕ
  pub database_url : List ℕ
  pub direct_database_url : Option (List ℕ)
  pub redis_url : List ℕ
  pub jwt_secret : List ℕ
  pub anthropic_api_key : List ℕ
  pub openai_api_key : List ℕ
  pub cohere_api_key : Option (List ℕ)
  pub embedding_model : List ℕ
  pub chat_model : List ℕ
  pub s3_endpoint : Option (List ℕ)
  pub s3_region : Option (List ℕ)
  pub s3_bucket : Option (List ℕ)
  pub s3_access_key_id : Option (List ℕ)
  pub s3_secret_access_key : Option (List ℕ)
  pub upload_max_bytes : Double
  pub chat_rate_capacity : Double
  pub chat_rate_refill_per_sec : Double
  pub chat_context_token_budget : Double
  pub chat_max_output_tokens : Double

-- The members together.
abbrev pub make :
    List ℕ
    → Double
    → List ℕ
    → List ℕ
    → Option (List ℕ)
    → List ℕ
    → List ℕ
    → List ℕ
    → List ℕ
    → Option (List ℕ)
    → List ℕ
    → List ℕ
    → Option (List ℕ)
    → Option (List ℕ)
    → Option (List ℕ)
    → Option (List ℕ)
    → Option (List ℕ)
    → Double
    → Double
    → Double
    → Double
    → Double
    → Config
make node_env port log_level database_url direct_database_url redis_url jwt_secret anthropic_api_key
      openai_api_key cohere_api_key embedding_model chat_model s3_endpoint s3_region s3_bucket
      s3_access_key_id s3_secret_access_key upload_max_bytes chat_rate_capacity
      chat_rate_refill_per_sec chat_context_token_budget chat_max_output_tokens =
    record {
      node_env = node_env;
      port = port;
      log_level = log_level;
      database_url = database_url;
      direct_database_url = direct_database_url;
      redis_url = redis_url;
      jwt_secret = jwt_secret;
      anthropic_api_key = anthropic_api_key;
      openai_api_key = openai_api_key;
      cohere_api_key = cohere_api_key;
      embedding_model = embedding_model;
      chat_model = chat_model;
      s3_endpoint = s3_endpoint;
      s3_region = s3_region;
      s3_bucket = s3_bucket;
      s3_access_key_id = s3_access_key_id;
      s3_secret_access_key = s3_secret_access_key;
      upload_max_bytes = upload_max_bytes;
      chat_rate_capacity = chat_rate_capacity;
      chat_rate_refill_per_sec = chat_rate_refill_per_sec;
      chat_context_token_budget = chat_context_token_budget;
      chat_max_output_tokens = chat_max_output_tokens;
    }

abbrev pub environments : List (List ℕ)
environments = codes "development" ∷ codes "test" ∷ codes "production" ∷ []

abbrev pub log_levels : List (List ℕ)
log_levels =
    codes "fatal" ∷ codes "error" ∷ codes "warn" ∷ codes "info" ∷ codes "debug" ∷ codes "trace" ∷ []

-- `Number.isInteger(x)`
unfoldable pub is_integer : Double → Bool
unfolding unit
is_integer (finite (pos n)) = n % unit == 0
is_integer (finite (negsuc n)) = suc n % unit == 0
is_integer nan = false
is_integer minus_infinity = false
is_integer plus_infinity = false

-- One half.
unfoldable pub half : Double
unfolding unit
half = finite (pos (unit / 2))

abbrev pub settle {ℓ} : {A : Type ℓ} → A → List Issue → Checked A
settle a [] = accepted a
settle a (i ∷ is) = refused (i ∷ is)

unfoldable pub member : List ℕ → List (List ℕ) → Bool
unfolding equals
member text [] = false
member text (t ∷ ts) = if equals text t then true else member text ts

-- `new Error(…)`, or the configuration.
pub data Loaded : Type 0 where
  loaded : Config → Loaded
  throws : List ℕ → Loaded

-- A line of the message; the path of an issue is never empty.
abbrev pub line : Issue → List ℕ
line i = codes "  - " ++ (i.path ++ (codes ": " ++ i.message))

-- `.optional()`
abbrev pub optional : (List ℕ → Checked (List ℕ)) → Option (List ℕ) → Checked (Option (List ℕ))
optional check none = accepted none
optional check (some s) = accepted some <*> check s

-- `.default(value)` in front of the check.
abbrev pub with_default {ℓ} :
    {A : Type ℓ} → List ℕ → (List ℕ → Checked A) → Option (List ℕ) → Checked A
with_default value check none = check value
with_default value check (some s) = check s

module _ (out : Outside) where
  abbrev pub one_issue : List ℕ → Rule → List Issue
  one_issue name rule = record { path = name; message = out.message rule } ∷ []

  abbrev pub require : Bool → List ℕ → Rule → List Issue
  require ok name rule = if ok then [] else one_issue name rule

  -- `z.string()`, with what is asked of the text.
  abbrev pub text {ℓ} : {A : Type ℓ} → List ℕ → (List ℕ → Checked A) → Option (List ℕ) → Checked A
  text name check none = refused (one_issue name is_required)
  text name check (some s) = check s

  -- `z.string().url()`
  unfoldable pub url : List ℕ → List ℕ → Checked (List ℕ)
  url name s = settle s (require (out.is_url s) name has_url_form)

  -- `z.string().trim().min(1)`
  unfoldable pub key : List ℕ → List ℕ → Checked (List ℕ)
  unfolding trim
  key name s = settle (trim s) (require (not (is_empty (trim s))) name has_characters)

  -- `z.string().trim().min(32, 'must be at least 32 characters')`
  unfoldable pub secret : List ℕ → List ℕ → Checked (List ℕ)
  unfolding trim
  secret name s = settle (trim s) (
      if ltb (length (trim s)) 32
      then record { path = name; message = codes "must be at least 32 characters" } ∷ []
      else [])

  -- `z.enum(options)`
  unfoldable pub enum : List (List ℕ) → List ℕ → List ℕ → Checked (List ℕ)
  unfolding member
  enum options name s = settle s (require (member s options) name is_listed)

  -- `z.number()` with the checks behind it, which are not run on NaN.
  abbrev pub number : List ℕ → (Double → List Issue) → Double → Checked Double
  number name checks nan = refused (one_issue name is_number)
  number name checks x = settle x (checks x)

  -- `.positive()` and `.int().positive()`
  unfoldable pub positive_issues : List ℕ → Double → List Issue
  unfolding lt_double whole
  positive_issues name x = require (lt_double (whole 0) x) name is_positive

  unfoldable pub count_issues : List ℕ → Double → List Issue
  unfolding is_integer positive_issues
  count_issues name x = require (is_integer x) name is_whole ++ positive_issues name x

  -- `z.coerce`, where a default stands for a variable that is not set.
  abbrev pub coerced : Double → Option (List ℕ) → Double
  coerced value none = value
  coerced value (some s) = out.to_number s

  unfoldable pub positive : List ℕ → Double → Option (List ℕ) → Checked Double
  unfolding positive_issues
  positive name value o = number name (positive_issues name) (coerced value o)

  unfoldable pub count : List ℕ → ℕ → Option (List ℕ) → Checked Double
  unfolding whole count_issues
  count name value o = number name (count_issues name) (coerced (whole value) o)

  -- The members of the schema, in its order.
  unfoldable pub parse_env : Env → Checked Config
  unfolding ◌<*>◌ url key secret enum positive count half
  parse_env env =
      accepted make
      <*> with_default (codes "development") (enum environments (codes "NODE_ENV"))
          (env (codes "NODE_ENV"))
      <*> count (codes "PORT") 3000 (env (codes "PORT"))
      <*> with_default (codes "info") (enum log_levels (codes "LOG_LEVEL"))
          (env (codes "LOG_LEVEL"))
      <*> text (codes "DATABASE_URL") (url (codes "DATABASE_URL")) (env (codes "DATABASE_URL"))
      <*> optional (url (codes "DIRECT_DATABASE_URL")) (env (codes "DIRECT_DATABASE_URL"))
      <*> text (codes "REDIS_URL") (url (codes "REDIS_URL")) (env (codes "REDIS_URL"))
      <*> text (codes "JWT_SECRET") (secret (codes "JWT_SECRET")) (env (codes "JWT_SECRET"))
      <*> text (codes "ANTHROPIC_API_KEY") (key (codes "ANTHROPIC_API_KEY"))
          (env (codes "ANTHROPIC_API_KEY"))
      <*> text (codes "OPENAI_API_KEY") (key (codes "OPENAI_API_KEY"))
          (env (codes "OPENAI_API_KEY"))
      <*> optional (key (codes "COHERE_API_KEY")) (env (codes "COHERE_API_KEY"))
      <*> with_default (codes "text-embedding-3-small") accepted (env (codes "EMBEDDING_MODEL"))
      <*> with_default (codes "claude-haiku-4-5") accepted (env (codes "CHAT_MODEL"))
      <*> optional (url (codes "S3_ENDPOINT")) (env (codes "S3_ENDPOINT"))
      <*> optional accepted (env (codes "S3_REGION"))
      <*> optional accepted (env (codes "S3_BUCKET"))
      <*> optional accepted (env (codes "S3_ACCESS_KEY_ID"))
      <*> optional accepted (env (codes "S3_SECRET_ACCESS_KEY"))
      <*> count (codes "UPLOAD_MAX_BYTES") (20 * 1024 * 1024) (env (codes "UPLOAD_MAX_BYTES"))
      <*> count (codes "CHAT_RATE_CAPACITY") 30 (env (codes "CHAT_RATE_CAPACITY"))
      <*> positive (codes "CHAT_RATE_REFILL_PER_SEC") half (env (codes "CHAT_RATE_REFILL_PER_SEC"))
      <*> count (codes "CHAT_CONTEXT_TOKEN_BUDGET") 2000 (env (codes "CHAT_CONTEXT_TOKEN_BUDGET"))
      <*> count (codes "CHAT_MAX_OUTPUT_TOKENS") 2048 (env (codes "CHAT_MAX_OUTPUT_TOKENS"))

  abbrev pub settled : Checked Config → Loaded
  settled (accepted c) = loaded c
  settled (refused is) =
      throws (codes "Invalid environment configuration:\n" ++ join (codes "\n") (map line is))

  unfoldable pub load_config : Env → Loaded
  unfolding parse_env join
  load_config env = settled (parse_env env)
