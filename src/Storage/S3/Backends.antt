-- ===== src/Storage/S3/Backends.antt =====
-- The storages against what `ObjectStorage` promises.
use ai_support_agent_builder.Prelude.{
  ◌≢◌, ◌==◌, ==_iff, ℕ, List, [], ◌∷◌, Option, none, some, Bool, true, false, if◌then◌else◌, ◌≡◌,
  refl, sym, ap, ◌∙◌, inl, inr, ◌||◌, Bool-cases, Option-cases,
}
use ai_support_agent_builder.Text.{codes, equals, equals_iff}
use ai_support_agent_builder.Storage.Memory.{StoredBody, Entry, get, exists, get-put, get-delete}
use ai_support_agent_builder.Storage.S3.{
  memory_storage, found_body, Command, put_object, get_object, head_object, delete_object, S3Error,
  Presigned, Sent, fulfilled, rejected, is_not_found, is_status, s3_storage, is_there,
}
use ai_support_agent_builder.Storage.S3.Promise.{
  Objects, with_object, without_object, is_some, Operation, puts, gets, asks, deletes, rejects,
  bytes, says, bytes_or_rejects, promised, answered, perform, run, Keeps, run-promised,
}

abbrev pub body_under : Option StoredBody → Option (List ℕ)
body_under none = none
body_under (some stored) = some stored.body

abbrev pub memory_view : List Entry → Objects
memory_view es key = body_under (get key es)

pub body_under-if :
    (b : Bool) (o p : Option StoredBody)
    → body_under (if b then o else p) ≡ (if b then body_under o else body_under p)
body_under-if true o p = refl
body_under-if false o p = refl

exists-get : (key : List ℕ) (es : List Entry) → exists key es ≡ is_some (body_under (get key es))
unfolding exists get
exists-get key [] = refl
exists-get key (e ∷ es) = elim (Bool-cases (equals e.key key)) [
  | inl h ↦ rw h refl
  | inr h ↦ rw h (exists-get key es)
]

found_body-answered :
    (key : List ℕ) (es : List Entry) (o : Option StoredBody)
    → ((answered bytes (found_body key es o)).0 ≡ bytes_or_rejects (body_under o))
      × ((answered bytes (found_body key es o)).1 ≡ es)
found_body-answered key es none = (refl, refl)
found_body-answered key es (some stored) = (refl, refl)

memory-promised :
    (op : Operation) (es : List Entry)
    → ((perform memory_storage op es).0 ≡ (promised op (memory_view es)).0)
      × ((k : List ℕ)
          → memory_view (perform memory_storage op es).1 k ≡ (promised op (memory_view es)).1 k)
unfolding memory_storage
memory-promised (puts input) es =
    (refl, λ k. ap body_under (get-put input.key k _ es) ∙ body_under-if (equals input.key k) _ _)
memory-promised (gets key) es =
    let (answer, same) = found_body-answered key es (get key es) in
    (answer, λ k. ap (λ fs. memory_view fs k) same)
memory-promised (asks key) es = (ap says (exists-get key es), λ k. refl)
memory-promised (deletes key) es =
    (refl, λ k. ap body_under (get-delete key k es) ∙ body_under-if (equals key k) _ _)

memory-Keeps : Keeps memory_storage memory_view (λ es. false)
memory-Keeps op es = (λ up. memory-promised op es, λ h. absurd (cc))

-- What S3 documents of a bucket: an object is there once it is put and until it is deleted, a
-- deletion succeeds whether it is there or not, and a missing object is an error, of status 404 for
-- its head. While the service is down, a command is an error that does not say "not found", and
-- changes no object.
pub record IsBucket {S : Type 0} (send : Command → S → Sent S) (bucket : List ℕ)
    (view : S → Objects) (down : S → Bool) : Type 0 where
  pub put_sent :
      (key body content_type disposition : List ℕ) (s : S)
      → down s ≡ false
      → (t : S) × (send (put_object bucket key body content_type disposition) s ≡ fulfilled t none)
        × ((k : List ℕ) → view t k ≡ with_object key body (view s) k)
  pub get_found :
      (key body : List ℕ) (s : S)
      → down s ≡ false
      → view s key ≡ some body
      → send (get_object bucket key) s ≡ fulfilled s (some body)
  pub get_missing :
      (key : List ℕ) (s : S)
      → down s ≡ false
      → view s key ≡ none
      → (e : S3Error) × (send (get_object bucket key) s ≡ rejected s e)
  pub head_found :
      (key body : List ℕ) (s : S)
      → down s ≡ false
      → view s key ≡ some body
      → send (head_object bucket key) s ≡ fulfilled s none
  pub head_missing :
      (key : List ℕ) (s : S)
      → down s ≡ false
      → view s key ≡ none
      → (e : S3Error) × (send (head_object bucket key) s ≡ rejected s e)
        × (e.http_status ≡ some 404)
  pub delete_sent :
      (key : List ℕ) (s : S)
      → down s ≡ false
      → (t : S) × (send (delete_object bucket key) s ≡ fulfilled t none)
        × ((k : List ℕ) → view t k ≡ without_object key (view s) k)
  pub outage :
      (command : Command) (s : S)
      → down s ≡ true
      → (t : S) × (e : S3Error) × (send command s ≡ rejected t e)
        × (e.name ≢ codes "NotFound")
        × (e.http_status ≢ some 404)
        × ((k : List ℕ) → view t k ≡ view s k)

||-true : (b : Bool) → (b || true) ≡ true
||-true true = refl
||-true false = refl

is_not_found-404 : (e : S3Error) → e.http_status ≡ some 404 → is_not_found e ≡ true
unfolding is_not_found
is_not_found-404 e h = rw h (||-true (equals e.name (codes "NotFound")))

is_status-other : (o : Option ℕ) → o ≢ some 404 → is_status 404 o ≡ false
is_status-other none h = refl
is_status-other (some n) h = elim (Bool-cases (n == 404)) [
  | inl e ↦ absurd (h (ap some ((==_iff n 404).0 e)))
  | inr e ↦ e
]

is_not_found-other :
    (e : S3Error) → e.name ≢ codes "NotFound" → e.http_status ≢ some 404 → is_not_found e ≡ false
unfolding is_not_found
is_not_found-other e name status = elim (Bool-cases (equals e.name (codes "NotFound"))) [
  | inl h ↦ absurd (name ((equals_iff _ _).0 h))
  | inr h ↦ rw h (is_status-other e.http_status status)
]

module _ {S : Type 0} (send : Command → S → Sent S) (get_signed_url : Presigned → List ℕ)
    (bucket : List ℕ) (view : S → Objects) (down : S → Bool)
    (is_bucket : IsBucket send bucket view down) where
  s3-promised :
      (op : Operation) (s : S)
      → down s ≡ false
      → ((perform (s3_storage send get_signed_url bucket) op s).0 ≡ (promised op (view s)).0)
        × ((k : List ℕ)
            → view (perform (s3_storage send get_signed_url bucket) op s).1 k
              ≡ (promised op (view s)).1 k)
  unfolding s3_storage is_there
  s3-promised (puts input) s up =
      let (t, sent, later) =
        is_bucket.put_sent input.key input.body input.content_type (codes "attachment") s up in
      rw sent (refl, later)
  s3-promised (gets key) s up = elim (Option-cases (view s key)) [
    | inl missing ↦
        let (e, sent) = is_bucket.get_missing key s up missing in
        rw (sent, missing) (refl, λ k. refl)
    | inr (body, found) ↦ rw (is_bucket.get_found key body s up found, found) (refl, λ k. refl)
  ]
  s3-promised (asks key) s up = elim (Option-cases (view s key)) [
    | inl missing ↦
        let (e, sent, status) = is_bucket.head_missing key s up missing in
        rw (sent, is_not_found-404 e status, missing) (refl, λ k. refl)
    | inr (body, found) ↦ rw (is_bucket.head_found key body s up found, found) (refl, λ k. refl)
  ]
  s3-promised (deletes key) s up =
      let (t, sent, later) = is_bucket.delete_sent key s up in rw sent (refl, later)

  s3-rejects :
      (op : Operation) (s : S)
      → down s ≡ true
      → ((perform (s3_storage send get_signed_url bucket) op s).0 ≡ rejects)
        × ((k : List ℕ)
            → view (perform (s3_storage send get_signed_url bucket) op s).1 k ≡ view s k)
  unfolding s3_storage is_there
  s3-rejects (puts input) s h =
      let (t, e, sent, name, status, same) =
        is_bucket.outage
          (put_object bucket input.key input.body input.content_type (codes "attachment")) s h in
      rw sent (refl, same)
  s3-rejects (gets key) s h =
      let (t, e, sent, name, status, same) = is_bucket.outage (get_object bucket key) s h in
      rw sent (refl, same)
  s3-rejects (asks key) s h =
      let (t, e, sent, name, status, same) = is_bucket.outage (head_object bucket key) s h in
      rw (sent, is_not_found-other e name status) (refl, same)
  s3-rejects (deletes key) s h =
      let (t, e, sent, name, status, same) = is_bucket.outage (delete_object bucket key) s h in
      rw sent (refl, same)

  -- Over a bucket that does what S3 documents, the storage in S3 answers each put, get, exists and
  -- delete as a function from keys to bytes does, and leaves the objects as that does: a get of a
  -- missing object is rejected, its existence is denied, and a deletion of it succeeds. While the
  -- service is down each of them is rejected, and no existence is denied by it; the objects stay.
  pub s3_storage-Keeps : Keeps (s3_storage send get_signed_url bucket) view down
  s3_storage-Keeps op s = (s3-promised op s, s3-rejects op s)

  -- Where the service is never down, the storage in S3 gives to every sequence of puts, gets,
  -- exists and deletes the answers of the storage in memory with the same objects.
  pub s3_storage-memory_storage :
      ((s : S) → down s ≡ false)
      → (ops : List Operation) (s : S) (es : List Entry)
      → ((k : List ℕ) → view s k ≡ memory_view es k)
      → run (s3_storage send get_signed_url bucket) ops s ≡ run memory_storage ops es
  s3_storage-memory_storage up ops s es same =
      run-promised (s3_storage send get_signed_url bucket) view down s3_storage-Keeps up ops s
        (memory_view es) same
      ∙ sym (
          run-promised memory_storage memory_view (λ fs. false) memory-Keeps (λ fs. refl) ops es
            (memory_view es) (λ k. refl))
