-- ===== src/Ingest/Pipeline/Resume.antt =====
-- Where a job resumes, and where it leaves its document (api/src/worker/pipeline.ts).
use ai_support_agent_builder.Prelude.{Option, none, some, ◌≡◌, refl, ◌∙◌}
use ai_support_agent_builder.Text.{codes}
use ai_support_agent_builder.Effects.{
  Eff, Void, Ran, ran, failed, ◌>>◌, after, pure, throw, after-after, after_ext,
}
use ai_support_agent_builder.Ingest.World.{
  World, DocumentStatus, queued, uploaded, parsing, embedding, ready, failed_status, IngestJobData,
  find_document,
}
use ai_support_agent_builder.Ingest.Store.{get_status, set_status, status_if}
use ai_support_agent_builder.Ingest.Pipeline.{
  IngestDeps, parse_stage, embed_stage, default_stages, run_ingestion, run_stages, from_status,
  finish, enter_stage, rank,
}

abbrev pub status_of : IngestJobData → World → Option DocumentStatus
status_of job w = status_if (find_document job.document_id job.tenant_id w)

module _ (deps : IngestDeps) (job : IngestJobData) where
  abbrev pub set : DocumentStatus → Eff World Void
  set status = set_status job.document_id job.tenant_id status

  abbrev pub from_embedding : Eff World Void
  from_embedding = do embed_stage deps job; set ready

  abbrev pub from_parsing : Eff World Void
  from_parsing = do parse_stage deps job; set embedding; from_embedding

  abbrev pub from_start : Eff World Void
  from_start = do set parsing; from_parsing

  -- What is left to do for a document that an earlier attempt left with the status.
  abbrev pub left_to_do : Option DocumentStatus → Eff World Void
  left_to_do none = throw (codes "document not found")
  left_to_do (some queued) = from_start
  left_to_do (some uploaded) = from_start
  left_to_do (some failed_status) = from_start
  left_to_do (some parsing) = from_parsing
  left_to_do (some embedding) = from_embedding
  left_to_do (some ready) = pure tt

  ending : (r : Ran World Void) → after (after r (λ a w. ran w 3)) (finish job) ≡ r
  unfolding rank
  ending (ran w a) = refl
  ending (failed w e) = refl

  ready_left :
      (w : World) → after (run_stages job (default_stages deps) 3 w) (finish job) ≡ ran w tt
  unfolding run_stages default_stages rank
  ready_left w = refl

  embedding_left :
      (w : World) → after (run_stages job (default_stages deps) 2 w) (finish job) ≡ from_embedding w
  unfolding run_stages default_stages enter_stage rank
  embedding_left w =
      after-after (embed_stage deps job w) (λ a v. after (set ready v) (λ b u. ran u 3))
        (finish job)
      ∙ after_ext (embed_stage deps job w) _ _ (λ a v. ending (set ready v))

  parsing_left :
      (w : World) → after (run_stages job (default_stages deps) 1 w) (finish job) ≡ from_parsing w
  unfolding run_stages default_stages enter_stage rank
  parsing_left w =
      after-after (parse_stage deps job w) _ (finish job)
      ∙ after_ext (parse_stage deps job w) _ _ (λ a v.
        after-after (set embedding v) _ (finish job)
        ∙ after_ext (set embedding v) _ _ (λ b u. embedding_left u))

  start_left :
      (w : World) → after (run_stages job (default_stages deps) 0 w) (finish job) ≡ from_start w
  unfolding run_stages default_stages enter_stage rank
  start_left w =
      after-after (set parsing w) _ (finish job)
      ∙ after_ext (set parsing w) _ _ (λ a v. parsing_left v)

  by_status :
      (status : Option DocumentStatus) (w : World)
      → from_status job (default_stages deps) status w ≡ left_to_do status w
  unfolding rank
  by_status none w = refl
  by_status (some queued) w = start_left w
  by_status (some uploaded) w = start_left w
  by_status (some failed_status) w = start_left w
  by_status (some parsing) w = parsing_left w
  by_status (some embedding) w = embedding_left w
  by_status (some ready) w = ready_left w

  -- A job does exactly what its document's status leaves to do: nothing for READY, the embed
  -- stage alone for EMBEDDING, both stages for PARSING, and both behind a new PARSING for all
  -- else; READY is set after the embed stage only, and the first error ends the job.
  pub run_ingestion-left_to_do :
      (w : World) → run_ingestion (default_stages deps) job w ≡ left_to_do (status_of job w) w
  unfolding run_ingestion get_status
  run_ingestion-left_to_do w = by_status (status_of job w) w
