-- ===== src/Ingest/Pipeline/Vectors.antt =====
-- The embed stage leaves no chunk of its document without a vector.
use ai_support_agent_builder.Prelude.{
  not-false, ℕ, zero, suc, ◌≤◌, List, [], ◌∷◌, ◌++◌, map, keep, take, drop, length, length-drop,
  take-append-drop, map-append, some, Bool, true, false, ◌&&◌, ◌||◌, not, if_elim, ◌≡◌, refl, sym,
  ap, ◌∙◌, subst, Bool-cases, inl, inr, ◌⊎◌, ==_iff, ◌==◌, leb, arith,
}
use ai_support_agent_builder.Text.{equals, equals_iff}
use ai_support_agent_builder.Number.{Double}
use ai_support_agent_builder.Effects.{Void, ran, Message, after-eq-ran, ran_inj}
use ai_support_agent_builder.Retry.{Outcome, returns, rejects, with_retry}
use ai_support_agent_builder.Parsing.Assemble.Anchors.{All}
use ai_support_agent_builder.Ingest.World.{World, ChunkRow, IngestJobData, update_rows}
use ai_support_agent_builder.Ingest.Store.{
  is_pending, insert_by_start, order_by_start, get_unembedded_chunks, VectorUpdate, set_vectors,
  set_chunk_embeddings, ensure_embedding_model, claimed_or_throw,
}
use ai_support_agent_builder.Ingest.Pipeline.{
  IngestDeps, Checked, accepted, refused, with_update, check_vectors, accepted_or_throw,
  embed_batch, embed_batches, embed_batch_size, embed_pending, embed_stage, embedding_dimensions,
  all_finite, outcome_or_throw, EmbedError, throw_if, embed_task,
}

-- One of the ids is the row's.
abbrev covers : List (List ℕ) → ChunkRow → Bool
covers [] row = false
covers (id ∷ ids) row = equals row.id id || covers ids row

abbrev ids_of : List ChunkRow → List (List ℕ)
ids_of rows = map (λ r. r.id) rows

abbrev update_ids : List VectorUpdate → List (List ℕ)
update_ids us = map (λ u. u.id) us

&&-false : (b : Bool) → (b && false) ≡ false
&&-false true = refl
&&-false false = refl

equals_refl : (s : List ℕ) → equals s s ≡ true
equals_refl s = (equals_iff s s).1 refl

or_right : (a b : Bool) → b ≡ true → (a || b) ≡ true
or_right true b h = refl
or_right false b h = h

or_later :
    (a b c d : Bool) → ((b || c) ≡ true → d ≡ true) → (b || (a || c)) ≡ true → (a || d) ≡ true
or_later true b c d f h = refl
or_later false b c d f h = f h

keep_yes :
    (test : ChunkRow → Bool) (row : ChunkRow) (rows : List ChunkRow)
    → test row ≡ true
    → keep test (row ∷ rows) ≡ row ∷ keep test rows
unfolding keep
keep_yes test row rows e = rw e refl

keep_no :
    (test : ChunkRow → Bool) (row : ChunkRow) (rows : List ChunkRow)
    → test row ≡ false
    → keep test (row ∷ rows) ≡ keep test rows
unfolding keep
keep_no test row rows e = rw e refl

accepted_inj : {us vs : List VectorUpdate} → accepted us ≡ accepted vs → us ≡ vs
accepted_inj h = cc

module _ (document tenant : List ℕ) where
  -- The row needs no vector, or its id is still to come.
  abbrev Awaited : List (List ℕ) → ChunkRow → Type 0
  Awaited ids row = (is_pending document tenant row ≡ false) ⊎ (covers ids row ≡ true)

  done_with_vector :
      (vector : List Double) (row : ChunkRow)
      → is_pending document tenant (record row { vector = some vector }) ≡ false
  done_with_vector vector row = ground arith

  Awaited-still :
      (u : VectorUpdate) (ids : List (List ℕ)) (row : ChunkRow)
      → Awaited (u.id ∷ ids) row
      → (equals row.id u.id && equals row.tenant_id tenant) ≡ false
      → Awaited ids row
  Awaited-still u ids row (inl q) e = inl q
  Awaited-still u ids row (inr c) e = elim (Bool-cases (equals row.id u.id)) [
    | inl h ↦ let f = rw h at e in inl (rw f (&&-false (equals row.document_id document)))
    | inr h ↦ let d = rw h at c in inr d
  ]

  update-Awaited :
      (u : VectorUpdate) (ids : List (List ℕ)) (rows : List ChunkRow)
      → All (Awaited (u.id ∷ ids)) rows
      → All (Awaited ids) (
          update_rows
            (λ row. equals row.id u.id && equals row.tenant_id tenant)
            (λ row. record row { vector = some u.vector })
            rows)
  unfolding update_rows
  update-Awaited u ids [] a = tt
  update-Awaited u ids (row ∷ rows) (a, more) = (
    if_elim (Awaited ids) (equals row.id u.id && equals row.tenant_id tenant) _ _
        (λ e. inl (done_with_vector u.vector row)) (λ e. Awaited-still u ids row a e),
    update-Awaited u ids rows more,
  )

  set_vectors-Awaited :
      (us : List VectorUpdate) (ids : List (List ℕ)) (rows : List ChunkRow)
      → All (Awaited (update_ids us ++ ids)) rows
      → All (Awaited ids) (set_vectors tenant us rows)
  unfolding set_vectors
  set_vectors-Awaited [] ids rows a = a
  set_vectors-Awaited (u ∷ us) ids rows a =
      set_vectors-Awaited us ids _ (update-Awaited u (update_ids us ++ ids) rows a)

  covers-insert :
      (row : ChunkRow) (xs : List ChunkRow) (r : ChunkRow)
      → covers (ids_of (row ∷ xs)) r ≡ true
      → covers (ids_of (insert_by_start row xs)) r ≡ true
  unfolding insert_by_start
  covers-insert row [] r h = h
  covers-insert row (x ∷ xs) r h =
      if_elim (λ l. covers (ids_of l) r ≡ true) (leb row.char_start x.char_start) _ _ (λ e. h)
        (λ e. or_later (equals r.id x.id) (equals r.id row.id) _ _ (covers-insert row xs r) h)

  All-Awaited :
      (ids more : List (List ℕ)) (rows : List ChunkRow)
      → ((r : ChunkRow) → covers ids r ≡ true → covers more r ≡ true)
      → All (Awaited ids) rows
      → All (Awaited more) rows
  All-Awaited ids more [] f a = tt
  All-Awaited ids more (r ∷ rs) f (inl q, a) = (inl q, All-Awaited ids more rs f a)
  All-Awaited ids more (r ∷ rs) f (inr c, a) = (inr (f r c), All-Awaited ids more rs f a)

  -- At the start every pending row is among those that are fetched.
  fetched-Awaited :
      (rows : List ChunkRow)
      → All (Awaited (ids_of (order_by_start (keep (is_pending document tenant) rows)))) rows
  unfolding order_by_start
  fetched-Awaited [] = tt
  fetched-Awaited (row ∷ rows) =
      let P = λ (l : List ChunkRow). All (Awaited (ids_of (order_by_start l))) (row ∷ rows) in
      let xs = order_by_start (keep (is_pending document tenant) rows) in
      elim (Bool-cases (is_pending document tenant row)) [
        | inl e ↦ subst P (sym (keep_yes (is_pending document tenant) row rows e)) (
          inr (covers-insert row xs row (rw (equals_refl row.id) refl)),
          All-Awaited (ids_of xs) (ids_of (insert_by_start row xs)) rows
              (λ r h. covers-insert row xs r (or_right (equals r.id row.id) _ h))
              (fetched-Awaited rows),
        )
        | inr e ↦
            subst P (sym (keep_no (is_pending document tenant) row rows e))
              (inl e, fetched-Awaited rows)
      ]

  with_update-ids :
      (u : VectorUpdate) (o : Checked) (us : List VectorUpdate) (cs : List ChunkRow)
      → ((vs : List VectorUpdate) → o ≡ accepted vs → update_ids vs ≡ ids_of cs)
      → with_update u o ≡ accepted us
      → update_ids us ≡ u.id ∷ ids_of cs
  with_update-ids u (accepted vs) us cs f h =
      ap update_ids (sym (accepted_inj h)) ∙ ap (λ l. u.id ∷ l) (f vs refl)
  with_update-ids u (refused m) us cs f h = absurd (cc)

  check_vectors-ids :
      (chunks : List ChunkRow) (vectors : List (List Double)) (us : List VectorUpdate)
      → length vectors ≡ length chunks
      → check_vectors chunks vectors ≡ accepted us
      → update_ids us ≡ ids_of chunks
  unfolding check_vectors
  check_vectors-ids [] vectors us l h = ap update_ids (sym (accepted_inj h))
  check_vectors-ids (c ∷ cs) [] us l h = absurd (omega arith)
  check_vectors-ids (c ∷ cs) (v ∷ vs) us l h =
      if_elim (λ o. o ≡ accepted us → update_ids us ≡ c.id ∷ ids_of cs)
        (not (length v == embedding_dimensions)) _ _ (λ e g. absurd (cc))
        (λ e.
          if_elim (λ o. o ≡ accepted us → update_ids us ≡ c.id ∷ ids_of cs) (not (all_finite v)) _ _
            (λ k g. absurd (cc))
            (λ k g.
              with_update-ids _ (check_vectors cs vs) us cs
                (λ ws q. check_vectors-ids cs vs ws (omega arith) q) g))
        h

  accepted_ran :
      (o : Checked) (w v : World) (us : List VectorUpdate)
      → accepted_or_throw o w ≡ ran v us
      → (o ≡ accepted us) × (w ≡ v)
  accepted_ran (accepted vs) w v us h = (cc, cc)
  accepted_ran (refused m) w v us h = absurd (cc)

outcome_ran :
    (o : Outcome EmbedError (List (List Double))) (w v : World) (vectors : List (List Double))
    → outcome_or_throw o w ≡ ran v vectors
    → w ≡ v
outcome_ran (returns vs) w v vectors h = ran_inj h
outcome_ran (rejects e) w v vectors h = absurd (cc)

throw_if_ran :
    (b : Bool) (m : Message) (w v : World) (a : Void)
    → throw_if b m w ≡ ran v a
    → (b ≡ false) × (w ≡ v)
throw_if_ran true m w v a h = absurd (cc)
throw_if_ran false m w v a h = (refl, ran_inj h)

claimed_ran :
    (b : Bool) (w claimed v : World) (a : Void)
    → w.chunks ≡ claimed.chunks
    → claimed_or_throw b w claimed ≡ ran v a
    → w.chunks ≡ v.chunks
claimed_ran true w claimed v a same h = same ∙ ap (λ u. u.chunks) (ran_inj h)
claimed_ran false w claimed v a same h = absurd (cc)

ensure_embedding_model-chunks :
    (tenant assistant model : List ℕ) (w v : World) (a : Void)
    → ensure_embedding_model tenant assistant model w ≡ ran v a
    → w.chunks ≡ v.chunks
unfolding ensure_embedding_model
ensure_embedding_model-chunks tenant assistant model w v a h = claimed_ran _ w _ v a refl h

module _ (deps : IngestDeps) (job : IngestJobData) where
  -- Every chunk row waits for one of the ids, or needs no vector.
  abbrev AllAwaited : List (List ℕ) → World → Type 0
  AllAwaited ids w = All (Awaited job.document_id job.tenant_id ids) w.chunks

  embed_batch-AllAwaited :
      (batch : List ChunkRow) (ids : List (List ℕ)) (w v : World) (a : Void)
      → AllAwaited (ids_of batch ++ ids) w
      → embed_batch deps job batch w ≡ ran v a
      → AllAwaited ids v
  unfolding embed_batch set_chunk_embeddings
  embed_batch-AllAwaited batch ids w v a all h =
      let (w1, vectors, e1, h1) =
        after-eq-ran (outcome_or_throw (with_retry (embed_task deps batch)).outcome w) _ h in
      let (w2, b, e2, h2) =
        after-eq-ran (throw_if (not (length vectors == length batch)) _ w1) _ h1 in
      let (w3, us, e3, h3) =
        after-eq-ran (accepted_or_throw (check_vectors batch vectors) w2) _ h2 in
      let (same, s2) = throw_if_ran _ _ w1 w2 b e2 in
      let (ok, s3) =
        accepted_ran job.document_id job.tenant_id (check_vectors batch vectors) w2 w3 us e3 in
      let lengths = (==_iff (length vectors) (length batch)).0 (not-false _ same) in
      let all3 =
        subst (AllAwaited (ids_of batch ++ ids)) (outcome_ran _ w w1 vectors e1 ∙ s2 ∙ s3) all in
      let all4 =
        subst (λ l. AllAwaited (l ++ ids) w3)
          (sym (check_vectors-ids job.document_id job.tenant_id batch vectors us lengths ok))
          all3 in
      subst (AllAwaited ids) (ran_inj h3)
        (set_vectors-Awaited job.document_id job.tenant_id us ids w3.chunks all4)

  ids_of-split :
      (n : ℕ) (pending : List ChunkRow)
      → ids_of pending ≡ ids_of (take n pending) ++ ids_of (drop n pending)
  ids_of-split n pending =
      ap ids_of (sym (take-append-drop n pending))
      ∙ map-append (λ r. r.id) (take n pending) (drop n pending)

  embed_batches-AllAwaited :
      (rounds : ℕ) (pending : List ChunkRow) (w v : World) (a : Void)
      → length pending ≤ rounds
      → AllAwaited (ids_of pending) w
      → embed_batches deps rounds job pending w ≡ ran v a
      → AllAwaited [] v
  unfolding embed_batches
  embed_batches-AllAwaited zero [] w v a l all h = subst (AllAwaited []) (ran_inj h) all
  embed_batches-AllAwaited zero (c ∷ cs) w v a l all h = absurd (omega arith)
  embed_batches-AllAwaited (suc rounds) [] w v a l all h = subst (AllAwaited []) (ran_inj h) all
  embed_batches-AllAwaited (suc rounds) (c ∷ cs) w v a l all h =
      let (w1, b, e1, h1) =
        after-eq-ran (embed_batch deps job (take embed_batch_size (c ∷ cs)) w) _ h in
      embed_batches-AllAwaited rounds (drop embed_batch_size (c ∷ cs)) w1 v a
        (omega (arith, length-drop embed_batch_size (c ∷ cs)))
        (embed_batch-AllAwaited (take embed_batch_size (c ∷ cs)) _ w w1 b
          (subst (λ l. AllAwaited l w) (ids_of-split embed_batch_size (c ∷ cs)) all) e1)
        h1

  embed_pending-AllAwaited :
      (pending : List ChunkRow) (w v : World) (a : Void)
      → AllAwaited (ids_of pending) w
      → embed_pending deps job pending w ≡ ran v a
      → AllAwaited [] v
  embed_pending-AllAwaited [] w v a all h = subst (AllAwaited []) (ran_inj h) all
  embed_pending-AllAwaited (c ∷ cs) w v a all h =
      let (w1, b, e1, h1) =
        after-eq-ran (ensure_embedding_model job.tenant_id job.assistant_id deps.embedder.model w) _
          h in
      embed_batches-AllAwaited (length (c ∷ cs)) (c ∷ cs) w1 v a (omega arith)
        (subst (All (Awaited job.document_id job.tenant_id (ids_of (c ∷ cs))))
          (ensure_embedding_model-chunks job.tenant_id job.assistant_id deps.embedder.model w w1 b
            e1)
          all)
        h1

  Awaited-none :
      (rows : List ChunkRow)
      → All (Awaited job.document_id job.tenant_id []) rows
      → All (λ row. is_pending job.document_id job.tenant_id row ≡ false) rows
  Awaited-none [] a = tt
  Awaited-none (row ∷ rows) (inl e, a) = (e, Awaited-none rows a)
  Awaited-none (row ∷ rows) (inr c, a) = absurd (cc)

  -- If the embed stage ends without an error, no chunk of its document is without a vector, in
  -- however many batches and whatever was embedded before.
  pub embed_stage-All :
      (w v : World) (a : Void)
      → embed_stage deps job w ≡ ran v a
      → All (λ row. is_pending job.document_id job.tenant_id row ≡ false) v.chunks
  unfolding embed_stage get_unembedded_chunks
  embed_stage-All w v a h =
      let (w1, b, e1, h1) =
        after-eq-ran (throw_if (not (deps.embedder.dimensions == embedding_dimensions)) _ w) _ h in
      Awaited-none v.chunks (
        embed_pending-AllAwaited
          (order_by_start (keep (is_pending job.document_id job.tenant_id) w1.chunks)) w1 v a
          (fetched-Awaited job.document_id job.tenant_id w1.chunks) h1)
