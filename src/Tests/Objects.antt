-- ===== src/Tests/Objects.antt =====
-- The storages at a concrete bucket.
use ai_support_agent_builder.Prelude.{
  sym, ◌≢◌, Bool, false, some_inj, arith, ℕ, List, [], ◌∷◌, Option, none, some, true, ◌≡◌, refl, ap,
  ◌∙◌,
}
use ai_support_agent_builder.Text.{codes, equals, equals_iff}
use ai_support_agent_builder.Storage.Memory.{
  StoredBody, Entry, put, get, delete, get-put, get-delete,
}
use ai_support_agent_builder.Storage.S3.{
  Command, put_object, get_object, head_object, delete_object, create_bucket, S3Error, Sent,
  Presigned, fulfilled, rejected, s3_storage, is_there,
}
use ai_support_agent_builder.Storage.S3.Backends.{
  memory_view, s3_storage-Keeps, body_under, body_under-if, IsBucket,
}
use ai_support_agent_builder.Storage.S3.Promise.{
  Objects, perform, promised, Operation, puts, gets, asks, deletes, done, rejects, says, run,
}

abbrev not_there : S3Error
not_there = record { name = codes "NoSuchKey"; http_status = some 404; message = codes "no" }

abbrev overloaded : S3Error
overloaded = record { name = codes "SlowDown"; http_status = some 503; message = codes "slow" }

-- A service that keeps its objects in a list, and may be down.
record Bucket : Type 0 where
  is_down : Bool
  entries : List Entry

abbrev with_entries : Bucket → List Entry → Bucket
with_entries s es = record { is_down = s.is_down; entries = es }

abbrev answer_get : Bucket → Option StoredBody → Sent Bucket
answer_get s none = rejected s not_there
answer_get s (some stored) = fulfilled s (some stored.body)

abbrev answer_head : Bucket → Option StoredBody → Sent Bucket
answer_head s none = rejected s not_there
answer_head s (some stored) = fulfilled s none

abbrev served : Command → Bucket → Sent Bucket
served (put_object bucket key body content_type disposition) s =
    fulfilled
      (with_entries s (put key (record { body = body; content_type = content_type }) s.entries))
      none
served (get_object bucket key) s = answer_get s (get key s.entries)
served (head_object bucket key) s = answer_head s (get key s.entries)
served (delete_object bucket key) s = fulfilled (with_entries s (delete key s.entries)) none
served (create_bucket bucket) s = fulfilled s none

abbrev send_if : Bool → Command → Bucket → Sent Bucket
send_if true command s = rejected s overloaded
send_if false command s = served command s

abbrev send : Command → Bucket → Sent Bucket
send command s = send_if s.is_down command s

abbrev view : Bucket → Objects
view s = memory_view s.entries

answer_get-found :
    (s : Bucket) (o : Option StoredBody) (body : List ℕ)
    → body_under o ≡ some body
    → answer_get s o ≡ fulfilled s (some body)
answer_get-found s none body h = absurd (cc)
answer_get-found s (some stored) body h = cc

answer_head-found :
    (s : Bucket) (o : Option StoredBody) (body : List ℕ)
    → body_under o ≡ some body
    → answer_head s o ≡ fulfilled s none
answer_head-found s none body h = absurd (cc)
answer_head-found s (some stored) body h = refl

answer_get-missing :
    (s : Bucket) (o : Option StoredBody)
    → body_under o ≡ none
    → answer_get s o ≡ rejected s not_there
answer_get-missing s none h = refl
answer_get-missing s (some stored) h = absurd (cc)

answer_head-missing :
    (s : Bucket) (o : Option StoredBody)
    → body_under o ≡ none
    → answer_head s o ≡ rejected s not_there
answer_head-missing s none h = refl
answer_head-missing s (some stored) h = absurd (cc)

up_served : (command : Command) (s : Bucket) → s.is_down ≡ false → send command s ≡ served command s
up_served command s up = ap (λ b. send_if b command s) up

slow_differs : equals overloaded.name (codes "NotFound") ≡ false
unfolding equals
slow_differs = refl

contradiction : true ≡ false → ⊥
contradiction h = cc

slow_name : overloaded.name ≢ codes "NotFound"
slow_name e =
    contradiction (sym ((equals_iff overloaded.name (codes "NotFound")).1 e) ∙ slow_differs)

slow_status : overloaded.http_status ≢ some 404
slow_status e = let f = some_inj e in absurd (omega (arith, f))

send-IsBucket : IsBucket send (codes "b") view (λ s. s.is_down)
send-IsBucket = record {
  put_sent = λ key body content_type disposition s up. (
    with_entries s (put key (record { body = body; content_type = content_type }) s.entries),
    up_served (put_object (codes "b") key body content_type disposition) s up,
    λ k. ap body_under (get-put key k _ s.entries) ∙ body_under-if (equals key k) _ _,
  );
  get_found = λ key body s up h.
      up_served (get_object (codes "b") key) s up ∙ answer_get-found s (get key s.entries) body h;
  get_missing = λ key s up h. (
    not_there,
    up_served (get_object (codes "b") key) s up ∙ answer_get-missing s (get key s.entries) h,
  );
  head_found = λ key body s up h.
      up_served (head_object (codes "b") key) s up ∙ answer_head-found s (get key s.entries) body h;
  head_missing = λ key s up h. (
    not_there,
    up_served (head_object (codes "b") key) s up ∙ answer_head-missing s (get key s.entries) h,
    refl,
  );
  delete_sent = λ key s up. (
    with_entries s (delete key s.entries),
    up_served (delete_object (codes "b") key) s up,
    λ k. ap body_under (get-delete key k s.entries) ∙ body_under-if (equals key k) _ _,
  );
  outage = λ command s h.
      (s, overloaded, ap (λ b. send_if b command s) h, slow_name, slow_status, λ k. refl);
}

abbrev sign : Presigned → List ℕ
sign p = codes "https://b.example"

-- A service that is down, with one object, which is asked for.
abbrev down_service : Bucket
down_service = record {
  is_down = true;
  entries = put (codes "a") (record { body = codes "1"; content_type = codes "text/plain" }) [];
}

s3_storage-Keeps_example :
    (down_service.is_down ≡ false
      → ((perform (s3_storage send sign (codes "b")) (asks (codes "a")) down_service).0
          ≡ (promised (asks (codes "a")) (view down_service)).0)
        × ((k : List ℕ)
            → view (perform (s3_storage send sign (codes "b")) (asks (codes "a")) down_service).1 k
              ≡ (promised (asks (codes "a")) (view down_service)).1 k))
    × (down_service.is_down ≡ true
        → ((perform (s3_storage send sign (codes "b")) (asks (codes "a")) down_service).0 ≡ rejects)
          × ((k : List ℕ)
              → view
                  (perform (s3_storage send sign (codes "b")) (asks (codes "a")) down_service).1
                  k
                ≡ view down_service k))
s3_storage-Keeps_example =
    s3_storage-Keeps send sign (codes "b") view (λ s. s.is_down) send-IsBucket (asks (codes "a"))
      down_service

abbrev some_operations : List Operation
some_operations =
    puts (record { key = codes "a"; body = codes "1"; content_type = codes "text/plain" })
    ∷ asks (codes "a")
    ∷ deletes (codes "a")
    ∷ gets (codes "a")
    ∷ []

operations_answers :
    run
      (s3_storage send sign (codes "b"))
      some_operations
      (record { is_down = false; entries = [] })
    ≡ done ∷ says true ∷ done ∷ rejects ∷ []
unfolding run s3_storage is_there put get delete equals
operations_answers = refl
