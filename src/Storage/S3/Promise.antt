-- ===== src/Storage/S3/Promise.antt =====
-- What `ObjectStorage` promises of put, get, exists and delete: a function from keys to bytes.
use ai_support_agent_builder.Prelude.{
  ℕ, List, [], ◌∷◌, Option, none, some, Bool, true, false, if◌then◌else◌, ◌≡◌, refl, ap, ◌∙◌,
}
use ai_support_agent_builder.Text.{equals}
use ai_support_agent_builder.Effects.{Ran, ran, failed}
use ai_support_agent_builder.Storage.S3.{PutObjectInput, ObjectStorage}

abbrev pub Objects : Type 0
Objects = List ℕ → Option (List ℕ)

abbrev pub with_object : List ℕ → List ℕ → Objects → Objects
with_object key body objects k = if equals key k then some body else objects k

abbrev pub without_object : List ℕ → Objects → Objects
without_object key objects k = if equals key k then none else objects k

abbrev pub is_some : Option (List ℕ) → Bool
is_some none = false
is_some (some body) = true

pub data Operation : Type 0 where
  puts : PutObjectInput → Operation
  gets asks deletes : List ℕ → Operation

pub data Answer : Type 0 where
  done rejects : Answer
  bytes : List ℕ → Answer
  says : Bool → Answer

-- The promise: what each operation answers, and what the objects are behind it.
abbrev pub bytes_or_rejects : Option (List ℕ) → Answer
bytes_or_rejects none = rejects
bytes_or_rejects (some body) = bytes body

abbrev pub promised : Operation → Objects → Answer × Objects
promised (puts input) objects = (done, with_object input.key input.body objects)
promised (gets key) objects = (bytes_or_rejects (objects key), objects)
promised (asks key) objects = (says (is_some (objects key)), objects)
promised (deletes key) objects = (done, without_object key objects)

unfoldable pub promised_run : List Operation → Objects → List Answer
promised_run [] objects = []
promised_run (op ∷ ops) objects = (promised op objects).0 ∷ promised_run ops (promised op objects).1

-- The answers of a storage; the messages of its errors are its own.
abbrev pub answered : {S A : Type 0} → (A → Answer) → Ran S A → Answer × S
answered f (ran s a) = (f a, s)
answered f (failed s e) = (rejects, s)

module _ {S : Type 0} (storage : ObjectStorage S) where
  abbrev pub perform : Operation → S → Answer × S
  perform (puts input) s = answered (λ u. done) (storage.put input s)
  perform (gets key) s = answered bytes (storage.get key s)
  perform (asks key) s = answered says (storage.exists key s)
  perform (deletes key) s = answered (λ u. done) (storage.delete key s)

  unfoldable pub run : List Operation → S → List Answer
  run [] s = []
  run (op ∷ ops) s = (perform op s).0 ∷ run ops (perform op s).1

  -- Under a view of its state, a storage does in each operation what is promised; while the
  -- service behind it is down, it rejects and changes nothing.
  abbrev pub Keeps : (S → Objects) → (S → Bool) → Type 0
  Keeps view down =
      (op : Operation) (s : S)
      → (down s ≡ false
          → ((perform op s).0 ≡ (promised op (view s)).0)
            × ((k : List ℕ) → view (perform op s).1 k ≡ (promised op (view s)).1 k))
        × (down s ≡ true
            → ((perform op s).0 ≡ rejects) × ((k : List ℕ) → view (perform op s).1 k ≡ view s k))

abbrev pub AreSame : Objects → Objects → Type 0
AreSame a b = (k : List ℕ) → a k ≡ b k

promised-AreSame :
    (op : Operation) (a b : Objects)
    → AreSame a b
    → ((promised op a).0 ≡ (promised op b).0) × AreSame (promised op a).1 (promised op b).1
promised-AreSame (puts input) a b h = (refl, λ k. rw (h k) refl)
promised-AreSame (gets key) a b h = (rw (h key) refl, h)
promised-AreSame (asks key) a b h = (rw (h key) refl, h)
promised-AreSame (deletes key) a b h = (refl, λ k. rw (h k) refl)

module _ {S : Type 0} (storage : ObjectStorage S) (view : S → Objects) (down : S → Bool)
    (keeps : Keeps storage view down) (up : (s : S) → down s ≡ false) where
  pub run-promised :
      (ops : List Operation) (s : S) (objects : Objects)
      → AreSame (view s) objects
      → run storage ops s ≡ promised_run ops objects
  unfolding run promised_run
  run-promised [] s objects h = refl
  run-promised (op ∷ ops) s objects h =
      let (answer, later) = (keeps op s).0 (up s) in
      let (same, still) = promised-AreSame op (view s) objects h in
      ap (λ a. a ∷ run storage ops (perform storage op s).1) (answer ∙ same)
      ∙ ap (λ more. (promised op objects).0 ∷ more)
          (run-promised ops (perform storage op s).1 (promised op objects).1
            (λ k. later k ∙ still k))
