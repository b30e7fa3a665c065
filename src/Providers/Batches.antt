-- ===== src/Providers/Batches.antt =====
-- The embedder keeps to the order of its texts, whatever the order of the answers is.
use ai_support_agent_builder.Prelude.{
  ℕ, zero, suc, ◌<◌, ◌≤◌, List, [], ◌∷◌, ◌++◌, map, map-append, take, drop, take-append-drop,
  length, length-drop, leb, arith, ◌≡◌, refl, sym, ap, subst, ◌∙◌, Bool-cases, inl, inr,
}
use ai_support_agent_builder.Number.{Double}
use ai_support_agent_builder.Retry.{value}
use ai_support_agent_builder.Parsing.Assemble.Anchors.{All}
use ai_support_agent_builder.Providers.{
  Embedding, EmbeddingsClient, insert_embedding, sort_embeddings, embed_from, embed, create_args,
  with_answer, append_to, ordered_vectors,
}

-- `zs` is `ys` with `x` at some place, and the lists with the same members in any order.
pub data Inserted {ℓ} {A : Type ℓ} (x : A) : List A → List A → Type ℓ where
  here : {ys : List A} → Inserted x ys (x ∷ ys)
  there : {y : A} {ys zs : List A} → Inserted x ys zs → Inserted x (y ∷ ys) (y ∷ zs)

abbrev pub Shuffled {ℓ} : {A : Type ℓ} → List A → List A → Type ℓ
Shuffled [] zs = zs ≡ []
Shuffled {A} (x ∷ xs) zs = (ys : List A) × Shuffled xs ys × Inserted x ys zs

-- The vectors with their indices.
abbrev pub indexed : ℕ → List (List Double) → List Embedding
indexed n [] = []
indexed n (v ∷ vs) = record { index = n; vector = v } ∷ indexed (suc n) vs

abbrev Above : ℕ → List Embedding → Type 0
Above n es = All (λ e. n < e.index) es

Above-insert :
    (n : ℕ) (e : Embedding) (es : List Embedding)
    → n < e.index
    → Above n es
    → Above n (insert_embedding e es)
unfolding insert_embedding
Above-insert n e [] h a = (h, a)
Above-insert n e (f ∷ fs) h (b, a) = elim (Bool-cases (leb e.index f.index)) [
  | inl t ↦ rw t (h, (b, a))
  | inr t ↦ rw t (b, Above-insert n e fs h a)
]

Above-sort : (n : ℕ) (es : List Embedding) → Above n es → Above n (sort_embeddings es)
unfolding sort_embeddings
Above-sort n [] a = a
Above-sort n (e ∷ es) (h, a) = Above-insert n e (sort_embeddings es) h (Above-sort n es a)

insert-least :
    (x : Embedding) (es : List Embedding) → Above x.index es → insert_embedding x es ≡ x ∷ es
unfolding insert_embedding
insert-least x [] a = refl
insert-least x (e ∷ es) (h, a) = ground arith

insert-greater :
    (x y : Embedding) (es : List Embedding)
    → x.index < y.index
    → insert_embedding y (x ∷ es) ≡ x ∷ insert_embedding y es
unfolding insert_embedding
insert-greater x y es h = ground arith

Above-Inserted :
    {x : Embedding} {ys zs : List Embedding} (n : ℕ)
    → Inserted x ys zs
    → n < x.index
    → Above n ys
    → Above n zs
Above-Inserted n here h a = (h, a)
Above-Inserted n (there i) h (b, a) = (b, Above-Inserted n i h a)

-- The least member comes first, wherever it stood.
sort-Inserted :
    {x : Embedding} {ys zs : List Embedding}
    → Inserted x ys zs
    → Above x.index ys
    → sort_embeddings zs ≡ x ∷ sort_embeddings ys
unfolding sort_embeddings
sort-Inserted {x} {ys} here a = insert-least x (sort_embeddings ys) (Above-sort x.index ys a)
sort-Inserted {x} (there {y} {ys} i) (b, a) =
    ap (insert_embedding y) (sort-Inserted i a) ∙ insert-greater x y (sort_embeddings ys) b

Above-Shuffled :
    (n m : ℕ) (vs : List (List Double)) (es : List Embedding)
    → n < m
    → Shuffled (indexed m vs) es
    → Above n es
Above-Shuffled n m [] es h s = subst (Above n) (sym s) tt
Above-Shuffled n m (v ∷ vs) es h (ys, s, i) =
    Above-Inserted n i h (Above-Shuffled n (suc m) vs ys (omega arith) s)

sort-Shuffled :
    (n : ℕ) (vs : List (List Double)) (es : List Embedding)
    → Shuffled (indexed n vs) es
    → ordered_vectors es ≡ vs
unfolding sort_embeddings
sort-Shuffled n [] es s = ap ordered_vectors s
sort-Shuffled n (v ∷ vs) es (ys, s, i) =
    ap (λ l. map (λ (e : Embedding). e.vector) l)
      (sort-Inserted i (Above-Shuffled n (suc n) vs ys (omega arith) s))
    ∙ ap (λ l. v ∷ l) (sort-Shuffled (suc n) vs ys s)

module _ (client : EmbeddingsClient) (model : List ℕ) (dimensions batch_size : ℕ)
    (vector_of : List ℕ → List Double) (positive : 1 ≤ batch_size)
    (answers : (batch : List (List ℕ)) (attempt : ℕ)
      → (es : List Embedding) × (client
            (create_args client model dimensions batch_size batch)
            attempt
          ≡ value es)
        × Shuffled (indexed 0 (map vector_of batch)) es) where
  embed_from-value :
      (rounds : ℕ) (texts : List (List ℕ)) (attempt : ℕ)
      → length texts ≤ rounds
      → embed_from client model dimensions batch_size rounds texts attempt
        ≡ value (map vector_of texts)
  unfolding embed_from
  embed_from-value zero [] attempt h = refl
  embed_from-value zero (text ∷ texts) attempt h = absurd (omega arith)
  embed_from-value (suc rounds) [] attempt h = refl
  embed_from-value (suc rounds) (text ∷ texts) attempt h =
      let batch = take batch_size (text ∷ texts) in
      let others = drop batch_size (text ∷ texts) in
      let (es, answer, s) = answers batch attempt in
      let fewer = length-drop batch_size (text ∷ texts) in
      ap (λ a. with_answer a (embed_from client model dimensions batch_size rounds others attempt))
        answer
      ∙ ap (λ m. append_to (ordered_vectors es) m)
          (embed_from-value rounds others attempt (omega arith))
      ∙ ap (λ vs. value (vs ++ map vector_of others)) (sort-Shuffled 0 (map vector_of batch) es s)
      ∙ ap value (sym (map-append vector_of batch others))
      ∙ ap (λ ts. value (map vector_of ts)) (take-append-drop batch_size (text ∷ texts))

  -- Where the service answers every batch with the vector of each of its texts, under the text's
  -- index, in any order, and a batch has room for a text: the embedder gives one vector for each of
  -- its texts, in the order of the texts, whatever the number of texts is.
  pub embed-value :
      (texts : List (List ℕ)) (attempt : ℕ)
      → embed client model dimensions batch_size texts attempt ≡ value (map vector_of texts)
  unfolding embed
  embed-value texts attempt = embed_from-value (length texts) texts attempt (omega arith)
