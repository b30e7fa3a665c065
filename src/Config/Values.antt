-- ===== src/Config/Values.antt =====
-- What a configuration that loads holds.
use ai_support_agent_builder.Prelude.{◌*◌, ◌≤◌, true, false, ◌≡◌, subst, length}
use ai_support_agent_builder.Text.{codes, is_empty}
use ai_support_agent_builder.Number.{whole, lt_double}
use ai_support_agent_builder.Config.{
  Checked, accepted, refused, Outside, Env, Config, make, log_levels, environments, half, member,
  loaded, url, key, secret, enum, parse_env, settled, load_config,
}
use ai_support_agent_builder.Config.Members.{
  Holds, Takes, IsCount, IfSet, Holds-apply, Holds-text, Holds-default, Holds-optional, url-Holds,
  key-Holds, secret-Holds, enum-Holds, positive-Holds, count-Holds,
}

-- What each member of a configuration keeps to.
pub record IsValid (out : Outside) (c : Config) : Type 0 where
  pub environment : member c.node_env environments ≡ true
  pub port : IsCount c.port
  pub level : member c.log_level log_levels ≡ true
  pub database : out.is_url c.database_url ≡ true
  pub direct_database : IfSet (λ s. out.is_url s ≡ true) c.direct_database_url
  pub redis : out.is_url c.redis_url ≡ true
  pub secret : 32 ≤ length c.jwt_secret
  pub anthropic : is_empty c.anthropic_api_key ≡ false
  pub openai : is_empty c.openai_api_key ≡ false
  pub cohere : IfSet (λ s. is_empty s ≡ false) c.cohere_api_key
  pub endpoint : IfSet (λ s. out.is_url s ≡ true) c.s3_endpoint
  pub upload : IsCount c.upload_max_bytes
  pub capacity : IsCount c.chat_rate_capacity
  pub refill : lt_double (whole 0) c.chat_rate_refill_per_sec ≡ true
  pub budget : IsCount c.chat_context_token_budget
  pub output : IsCount c.chat_max_output_tokens

module _ (out : Outside) (env : Env) where
  make-Holds :
      Holds
        (Takes
          (λ s. member s environments ≡ true)
          (Takes IsCount (
            Takes
              (λ s. member s log_levels ≡ true)
              (Takes
                (λ s. out.is_url s ≡ true)
                (Takes (IfSet (λ s. out.is_url s ≡ true)) (
                  Takes
                    (λ s. out.is_url s ≡ true)
                    (Takes
                      (λ s. 32 ≤ length s)
                      (Takes
                        (λ s. is_empty s ≡ false)
                        (Takes
                          (λ s. is_empty s ≡ false)
                          (Takes (IfSet (λ s. is_empty s ≡ false)) (
                            Takes
                              (λ s. Unit)
                              (Takes
                                (λ s. Unit)
                                (Takes (IfSet (λ s. out.is_url s ≡ true)) (
                                  Takes (IfSet (λ s. Unit)) (
                                    Takes (IfSet (λ s. Unit)) (
                                      Takes (IfSet (λ s. Unit)) (
                                        Takes (IfSet (λ s. Unit)) (
                                          Takes IsCount (
                                            Takes IsCount (
                                              Takes
                                                (λ x. lt_double (whole 0) x ≡ true)
                                                (Takes IsCount
                                                  (Takes IsCount (IsValid out)))))))))))))))))))))))
        (accepted make)
  unfolding Holds
  make-Holds =
      λ v0 p0 v1 p1 v2 p2 v3 p3 v4 p4 v5 p5 v6 p6 v7 p7 v8 p8 v9 p9 v10 p10 v11 p11 v12 p12 v13 p13
          v14 p14 v15 p15 v16 p16 v17 p17 v18 p18 v19 p19 v20 p20 v21 p21.
        record {
          environment = p0;
          port = p1;
          level = p2;
          database = p3;
          direct_database = p4;
          redis = p5;
          secret = p6;
          anthropic = p7;
          openai = p8;
          cohere = p9;
          endpoint = p12;
          upload = p17;
          capacity = p18;
          refill = p19;
          budget = p20;
          output = p21;
        }

  parse_env-Holds : Holds (IsValid out) (parse_env out env)
  unfolding parse_env
  parse_env-Holds =
      let h1 = Holds-apply _ _ _ _ make-Holds (
        Holds-default (λ s. member s environments ≡ true) (codes "development")
          (enum out environments (codes "NODE_ENV")) (env (codes "NODE_ENV"))
          (enum-Holds out environments (codes "NODE_ENV"))) in
      let h2 = Holds-apply _ _ _ _ h1 (count-Holds out (codes "PORT") 3000 (env (codes "PORT"))) in
      let h3 = Holds-apply _ _ _ _ h2 (
        Holds-default (λ s. member s log_levels ≡ true) (codes "info")
          (enum out log_levels (codes "LOG_LEVEL")) (env (codes "LOG_LEVEL"))
          (enum-Holds out log_levels (codes "LOG_LEVEL"))) in
      let h4 = Holds-apply _ _ _ _ h3 (
        Holds-text (λ s. out.is_url s ≡ true) out (codes "DATABASE_URL")
          (url out (codes "DATABASE_URL")) (env (codes "DATABASE_URL"))
          (url-Holds out (codes "DATABASE_URL"))) in
      let h5 = Holds-apply _ _ _ _ h4 (
        Holds-optional (λ s. out.is_url s ≡ true) (url out (codes "DIRECT_DATABASE_URL"))
          (env (codes "DIRECT_DATABASE_URL")) (url-Holds out (codes "DIRECT_DATABASE_URL"))) in
      let h6 = Holds-apply _ _ _ _ h5 (
        Holds-text (λ s. out.is_url s ≡ true) out (codes "REDIS_URL") (url out (codes "REDIS_URL"))
          (env (codes "REDIS_URL")) (url-Holds out (codes "REDIS_URL"))) in
      let h7 = Holds-apply _ _ _ _ h6 (
        Holds-text (λ s. 32 ≤ length s) out (codes "JWT_SECRET") (secret out (codes "JWT_SECRET"))
          (env (codes "JWT_SECRET")) (secret-Holds out (codes "JWT_SECRET"))) in
      let h8 = Holds-apply _ _ _ _ h7 (
        Holds-text (λ s. is_empty s ≡ false) out (codes "ANTHROPIC_API_KEY")
          (key out (codes "ANTHROPIC_API_KEY")) (env (codes "ANTHROPIC_API_KEY"))
          (key-Holds out (codes "ANTHROPIC_API_KEY"))) in
      let h9 = Holds-apply _ _ _ _ h8 (
        Holds-text (λ s. is_empty s ≡ false) out (codes "OPENAI_API_KEY")
          (key out (codes "OPENAI_API_KEY")) (env (codes "OPENAI_API_KEY"))
          (key-Holds out (codes "OPENAI_API_KEY"))) in
      let h10 = Holds-apply _ _ _ _ h9 (
        Holds-optional (λ s. is_empty s ≡ false) (key out (codes "COHERE_API_KEY"))
          (env (codes "COHERE_API_KEY")) (key-Holds out (codes "COHERE_API_KEY"))) in
      let h11 = Holds-apply _ _ _ _ h10 (
        Holds-default (λ s. Unit) (codes "text-embedding-3-small") accepted
          (env (codes "EMBEDDING_MODEL")) (λ s. unfold Holds in tt)) in
      let h12 = Holds-apply _ _ _ _ h11 (
        Holds-default (λ s. Unit) (codes "claude-haiku-4-5") accepted (env (codes "CHAT_MODEL"))
          (λ s. unfold Holds in tt)) in
      let h13 = Holds-apply _ _ _ _ h12 (
        Holds-optional (λ s. out.is_url s ≡ true) (url out (codes "S3_ENDPOINT"))
          (env (codes "S3_ENDPOINT")) (url-Holds out (codes "S3_ENDPOINT"))) in
      let h14 =
        Holds-apply _ _ _ _ h13 (
          Holds-optional (λ s. Unit) accepted (env (codes "S3_REGION"))
            (λ s. unfold Holds in tt)) in
      let h15 =
        Holds-apply _ _ _ _ h14 (
          Holds-optional (λ s. Unit) accepted (env (codes "S3_BUCKET"))
            (λ s. unfold Holds in tt)) in
      let h16 = Holds-apply _ _ _ _ h15 (
        Holds-optional (λ s. Unit) accepted (env (codes "S3_ACCESS_KEY_ID"))
          (λ s. unfold Holds in tt)) in
      let h17 = Holds-apply _ _ _ _ h16 (
        Holds-optional (λ s. Unit) accepted (env (codes "S3_SECRET_ACCESS_KEY"))
          (λ s. unfold Holds in tt)) in
      let h18 = Holds-apply _ _ _ _ h17 (
        count-Holds out (codes "UPLOAD_MAX_BYTES") (20 * 1024 * 1024)
          (env (codes "UPLOAD_MAX_BYTES"))) in
      let h19 =
        Holds-apply _ _ _ _ h18
          (count-Holds out (codes "CHAT_RATE_CAPACITY") 30 (env (codes "CHAT_RATE_CAPACITY"))) in
      let h20 = Holds-apply _ _ _ _ h19 (
        positive-Holds out (codes "CHAT_RATE_REFILL_PER_SEC") half
          (env (codes "CHAT_RATE_REFILL_PER_SEC"))) in
      let h21 = Holds-apply _ _ _ _ h20 (
        count-Holds out (codes "CHAT_CONTEXT_TOKEN_BUDGET") 2000
          (env (codes "CHAT_CONTEXT_TOKEN_BUDGET"))) in
      Holds-apply _ _ _ _ h21 (
        count-Holds out (codes "CHAT_MAX_OUTPUT_TOKENS") 2048
          (env (codes "CHAT_MAX_OUTPUT_TOKENS")))

loaded_inj :
    (o : Checked Config) (out : Outside) (c : Config)
    → Holds (IsValid out) o
    → settled out o ≡ loaded c
    → IsValid out c
unfolding Holds
loaded_inj (accepted d) out c h e = subst (IsValid out) (cc) h
loaded_inj (refused is) out c h e = absurd (cc)

-- A configuration that loads keeps to the whole schema: the environment and the level of the log are
-- among their names, the counts are whole numbers from 1 on, the refill is above zero, the secret has
-- at least 32 characters, the keys are not empty, and the addresses are addresses, where they are
-- set.
pub load_config-IsValid :
    (out : Outside) (env : Env) (c : Config) → load_config out env ≡ loaded c → IsValid out c
unfolding load_config
load_config-IsValid out env c h = loaded_inj (parse_env out env) out c (parse_env-Holds out env) h
