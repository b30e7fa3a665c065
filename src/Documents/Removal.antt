-- ===== src/Documents/Removal.antt =====
-- What a removal takes away and what it leaves (api/src/routes/documents.ts).
use ai_support_agent_builder.Prelude.{
  ℕ, List, [], ◌∷◌, keep, Option, none, some, Bool, true, false, ◌&&◌, not, if_elim, ◌≡◌, refl, sym,
  ◌∙◌, Bool-cases, inl, inr,
}
use ai_support_agent_builder.Text.{equals, equals_iff}
use ai_support_agent_builder.Claims.{TenantClaims}
use ai_support_agent_builder.Storage.ObjectKey.{is_uuid}
use ai_support_agent_builder.Ingest.World.{
  World, DocumentRow, ChunkRow, is_document, find_row, find_document,
}
use ai_support_agent_builder.Ingest.Rows.{keep-keep-other}
use ai_support_agent_builder.Documents.Routes.{
  Response, belongs_to, goes_with, remove_document, remove_object, delete_document, delete_found,
}

-- What a tenant has in the database: its documents and its chunks.
pub record Rows : Type 0 where
  pub documents : List DocumentRow
  pub chunks : List ChunkRow

unfoldable pub rows_of : List ℕ → World → Rows
rows_of tenant w = record {
  documents = keep (λ row. equals row.tenant_id tenant) w.documents;
  chunks = keep (λ c. equals c.tenant_id tenant) w.chunks;
}

&&-second : (a b : Bool) → (a && b) ≡ true → b ≡ true
&&-second true b h = h
&&-second false b h = absurd (cc)

&&-false : (a : Bool) → (a && false) ≡ false
&&-false true = refl
&&-false false = refl

module _ (tenant other : List ℕ) (differs : equals tenant other ≡ false) where
  not_both : (s : List ℕ) → equals s other ≡ true → equals s tenant ≡ false
  not_both s h = elim (Bool-cases (equals s tenant)) [
    | inl e ↦
        let a = (equals_iff s tenant).0 e in
        let b = (equals_iff s other).0 h in
        let c = (equals_iff tenant other).1 (sym a ∙ b) in absurd (cc)
    | inr e ↦ e
  ]

  not_document :
      (id : List ℕ) (row : DocumentRow)
      → equals row.tenant_id other ≡ true
      → is_document id tenant row ≡ false
  not_document id row h = rw (not_both row.tenant_id h) (&&-false _)

  -- A chunk of the other tenant belongs to no row of this one.
  not_belongs :
      (id : List ℕ) (c : ChunkRow) (row : DocumentRow)
      → equals c.tenant_id other ≡ true
      → is_document id tenant row ≡ true
      → belongs_to c row ≡ false
  not_belongs id c row h own = elim (Bool-cases (equals c.tenant_id row.tenant_id)) [
    | inl e ↦
        let a = (equals_iff c.tenant_id row.tenant_id).0 e in
        let b = (equals_iff row.tenant_id tenant).0 (&&-second _ _ own) in
        let d = (equals_iff c.tenant_id tenant).1 (a ∙ b) in
        let f = not_both c.tenant_id h in absurd (cc)
    | inr e ↦ rw e (&&-false (equals c.document_id row.id))
  ]

  not_goes_with :
      (id : List ℕ) (c : ChunkRow) (rows : List DocumentRow)
      → equals c.tenant_id other ≡ true
      → goes_with (keep (is_document id tenant) rows) c ≡ false
  unfolding keep find_row
  not_goes_with id c [] h = refl
  not_goes_with id c (row ∷ rows) h = elim (Bool-cases (is_document id tenant row)) [
    | inl e ↦ rw (e, not_belongs id c row h e) (not_goes_with id c rows h)
    | inr e ↦ rw e (not_goes_with id c rows h)
  ]

  remove_document-rows_of :
      (id : List ℕ) (w : World) → rows_of other (remove_document id tenant w) ≡ rows_of other w
  unfolding rows_of remove_document
  remove_document-rows_of id w =
      rw
        (
          keep-keep-other (is_document id tenant) (λ row. equals row.tenant_id other)
              (λ row h. not_document id row h) w.documents,
          keep-keep-other (goes_with (keep (is_document id tenant) w.documents))
              (λ c. equals c.tenant_id other) (λ c h. not_goes_with id c w.documents h) w.chunks,
        )
        refl

  delete_found-rows_of :
      (storage_fails : Bool) (id : List ℕ) (found : Option DocumentRow) (w : World)
      → rows_of other (delete_found storage_fails id tenant found w).1 ≡ rows_of other w
  delete_found-rows_of storage_fails id none w = refl
  delete_found-rows_of storage_fails id (some doc) w =
      if_elim (λ v. rows_of other v ≡ rows_of other w) storage_fails _ _
        (λ e. remove_document-rows_of id w)
        (λ e. unfold rows_of remove_object in remove_document-rows_of id w)

module _ (claims : TenantClaims) (other : List ℕ)
    (differs : equals claims.tenant_id other ≡ false) where
  -- A deletion under one tenant takes away and changes no document and no chunk of another tenant,
  -- whatever the identifiers are and whatever fails.
  pub delete_document-isolated :
      (fails storage_fails : Bool) (id : List ℕ) (w : World)
      → rows_of other (delete_document fails storage_fails claims id w).1 ≡ rows_of other w
  unfolding delete_document
  delete_document-isolated fails storage_fails id w =
      let P = λ (h : Response × World). rows_of other h.1 ≡ rows_of other w in
      if_elim P (not (is_uuid id)) _ _ (λ e. refl)
        (λ e.
          if_elim P fails _ _ (λ e. refl)
            (λ e.
              delete_found-rows_of claims.tenant_id other differs storage_fails id
                (find_document id claims.tenant_id w) w))
