-- ===== src/Storage/Memory.antt =====
-- api/src/storage/memory-storage.ts, the choice of api/src/storage/index.ts, and the clamp of
-- api/src/storage/s3-storage.ts.
use ai_support_agent_builder.Prelude.{
  ℕ, List, [], ◌∷◌, Option, none, some, Bool, true, false, ◌&&◌, not, if◌then◌else◌, if_elim, min,
  max, ◌≡◌, refl, sym, ap, ◌∙◌, Bool-cases, inl, inr,
}
use ai_support_agent_builder.Text.{equals, equals_iff, is_empty}

pub record StoredBody : Type 0 where
  pub body : List ℕ
  pub content_type : List ℕ

-- An entry of the `Map`.
pub record Entry : Type 0 where
  pub key : List ℕ
  pub value : StoredBody

-- `store.set`: in place where the key is there, else behind the others.
unfoldable pub put : List ℕ → StoredBody → List Entry → List Entry
put key value [] = record { key = key; value = value } ∷ []
put key value (e ∷ es) =
    let rest = put key value es in
    if equals e.key key then record { key = key; value = value } ∷ es else e ∷ rest

-- `store.get`: `get` rejects where there is none.
unfoldable pub get : List ℕ → List Entry → Option StoredBody
get key [] = none
get key (e ∷ es) = let rest = get key es in if equals e.key key then some e.value else rest

unfoldable pub exists : List ℕ → List Entry → Bool
exists key [] = false
exists key (e ∷ es) = let rest = exists key es in if equals e.key key then true else rest

unfoldable pub delete : List ℕ → List Entry → List Entry
delete key [] = []
delete key (e ∷ es) = let rest = delete key es in if equals e.key key then rest else e ∷ rest

-- What the store promises: it is a function from keys to objects.
abbrev pub view : List Entry → List ℕ → Option StoredBody
view es key = get key es

equals_refl : (s : List ℕ) → equals s s ≡ true
equals_refl s = (equals_iff s s).1 refl

other_key :
    (k key other : List ℕ) → equals k key ≡ false → equals k other ≡ true → equals key other ≡ false
other_key k key other differs hit = elim (Bool-cases (equals key other)) [
  | inl same ↦
      let e =
        (equals_iff k key).1 ((equals_iff k other).0 hit ∙ sym ((equals_iff key other).0 same)) in
      absurd (cc)
  | inr e ↦ e
]

-- A lookup behind a `put` finds the new object under its key and the old ones under all others.
pub get-put :
    (key other : List ℕ) (value : StoredBody) (es : List Entry)
    → view (put key value es) other ≡ (if equals key other then some value else view es other)
unfolding get put
get-put key other value [] = refl
get-put key other value (e ∷ es) = elim (Bool-cases (equals e.key key)) [
  | inl same ↦ elim (Bool-cases (equals key other)) [
    | inl hit ↦ rw (same, hit) refl
    | inr miss ↦
        rw (same, miss, (ap (λ k. equals k other) ((equals_iff e.key key).0 same) ∙ miss)) refl
  ]
  | inr differs ↦ elim (Bool-cases (equals e.key other)) [
    | inl hit ↦ rw (differs, hit, other_key e.key key other differs hit) refl
    | inr miss ↦ rw (differs, miss) (get-put key other value es)
  ]
]

-- A lookup behind a `delete` finds nothing under its key and the old objects under all others.
pub get-delete :
    (key other : List ℕ) (es : List Entry)
    → view (delete key es) other ≡ (if equals key other then none else view es other)
unfolding get delete
get-delete key other [] =
    if_elim (λ o. none ≡ o) (equals key other) none none (λ e. refl) (λ e. refl)
get-delete key other (e ∷ es) = elim (Bool-cases (equals e.key key)) [
  | inl same ↦ elim (Bool-cases (equals key other)) [
    | inl hit ↦ rw same (get-delete key other es ∙ rw hit refl)
    | inr miss ↦
        rw (same, miss, (ap (λ k. equals k other) ((equals_iff e.key key).0 same) ∙ miss))
          (get-delete key other es ∙ rw miss refl)
  ]
  | inr differs ↦ elim (Bool-cases (equals e.key other)) [
    | inl hit ↦ rw (differs, hit, other_key e.key key other differs hit) refl
    | inr miss ↦ rw (differs, miss) (get-delete key other es)
  ]
]

-- The backend that is chosen, or that the start fails.
pub data Backend : Type 0 where
  s3 memory refused : Backend

pub record StorageConfig : Type 0 where
  pub bucket : List ℕ
  pub region : List ℕ
  pub access_key_id : List ℕ
  pub secret_access_key : List ℕ
  pub production : Bool

-- A missing setting is as false as an empty one.
unfoldable pub is_configured : StorageConfig → Bool
is_configured config =
    not (is_empty config.bucket)
    && (not (is_empty config.region)
        && (not (is_empty config.access_key_id) && not (is_empty config.secret_access_key)))

unfoldable pub create_storage : StorageConfig → Backend
unfolding is_configured
create_storage config =
    if is_configured config then s3 else if config.production then refused else memory

-- In production the objects are never kept in memory: the backend is S3, or the start fails.
pub create_storage-production :
    (config : StorageConfig)
    → config.production ≡ true
    → create_storage config ≡ (if is_configured config then s3 else refused)
unfolding create_storage
create_storage-production config h = rw h refl

abbrev pub max_signed_url_ttl_seconds : ℕ
max_signed_url_ttl_seconds = 900

-- The lifetime of a signed link, for a whole number of seconds that is not negative.
unfoldable pub signed_ttl : ℕ → ℕ
signed_ttl seconds = min (max seconds 1) max_signed_url_ttl_seconds
