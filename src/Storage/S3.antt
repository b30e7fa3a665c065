-- ===== src/Storage/S3.antt =====
-- api/src/storage/storage.ts and s3-storage.ts: the interface of a storage, the storage in memory as one
-- (memory-storage.ts), and the storage that sends commands to S3.
pub mod Backends
pub mod Promise
use ai_support_agent_builder.Prelude.{
  ℕ, List, [], Option, none, some, Bool, true, false, ◌||◌, not, if◌then◌else◌, ◌==◌, ◌++◌,
}
use ai_support_agent_builder.Text.{codes, equals, is_empty, decimal}
use ai_support_agent_builder.Effects.{Ran, ran, failed, Eff}
use ai_support_agent_builder.Storage.Memory.{
  StoredBody, Entry, put, get, exists, delete, signed_ttl,
}

pub record PutObjectInput : Type 0 where
  pub key : List ℕ
  pub body : List ℕ
  pub content_type : List ℕ

pub record ObjectStorage (S : Type 0) : Type 0 where
  pub put : PutObjectInput → Eff S (Unit {0})
  pub get : List ℕ → Eff S (List ℕ)
  pub signed_read_url : List ℕ → Option ℕ → Eff S (List ℕ)
  pub exists : List ℕ → Eff S Bool
  pub delete : List ℕ → Eff S (Unit {0})

-- `MemoryStorage`
abbrev pub found_body : List ℕ → List Entry → Option StoredBody → Ran (List Entry) (List ℕ)
found_body key es none = failed es (codes "object not found: " ++ key)
found_body key es (some stored) = ran es stored.body

-- `expiresInSeconds = DEFAULT_SIGNED_URL_TTL_SECONDS`; lifetimes are whole seconds here.
abbrev pub seconds_or_default : Option ℕ → ℕ
seconds_or_default none = 300
seconds_or_default (some n) = n

-- The URL in memory carries the lifetime as it is given, without a bound.
unfoldable pub memory_url : List ℕ → ℕ → List ℕ
unfolding decimal
memory_url key seconds = codes "memory://" ++ (key ++ (codes "?expires=" ++ decimal seconds))

unfoldable pub memory_storage : ObjectStorage (List Entry)
unfolding put get exists delete memory_url
memory_storage = record {
  put = λ input es.
      ran (put input.key (record { body = input.body; content_type = input.content_type }) es) tt;
  get = λ key es. found_body key es (get key es);
  signed_read_url = λ key seconds es. ran es (memory_url key (seconds_or_default seconds));
  exists = λ key es. ran es (exists key es);
  delete = λ key es. ran (delete key es) tt;
}

-- A command to S3, with the members that the source gives it.
pub data Command : Type 0 where
  put_object : (bucket key body content_type disposition : List ℕ) → Command
  get_object : (bucket key : List ℕ) → Command
  head_object : (bucket key : List ℕ) → Command
  delete_object : (bucket key : List ℕ) → Command
  create_bucket : (bucket : List ℕ) → Command

-- An error of the client: its name, and `$metadata?.httpStatusCode`.
pub record S3Error : Type 0 where
  pub name : List ℕ
  pub http_status : Option ℕ
  pub message : List ℕ

-- What a command brings: an answer with its body, or an error.
pub data Sent (S : Type 0) : Type 0 where
  fulfilled : S → Option (List ℕ) → Sent S
  rejected : S → S3Error → Sent S

abbrev pub is_status : ℕ → Option ℕ → Bool
is_status status none = false
is_status status (some n) = n == status

-- `isNotFound`
unfoldable pub is_not_found : S3Error → Bool
unfolding equals
is_not_found e = equals e.name (codes "NotFound") || is_status 404 e.http_status

abbrev pub done_when_sent : {S : Type 0} → Sent S → Ran S (Unit {0})
done_when_sent (fulfilled s body) = ran s tt
done_when_sent (rejected s e) = failed s e.message

abbrev pub body_of : {S : Type 0} → List ℕ → Sent S → Ran S (List ℕ)
body_of key (fulfilled s none) = failed s (codes "empty object body: " ++ key)
body_of key (fulfilled s (some body)) = ran s body
body_of key (rejected s e) = failed s e.message

unfoldable pub is_there : {S : Type 0} → Sent S → Ran S Bool
unfolding is_not_found
is_there (fulfilled s body) = ran s true
is_there (rejected s e) = if is_not_found e then ran s false else failed s e.message

unfoldable pub owned : {S : Type 0} → Sent S → Ran S (Unit {0})
unfolding equals
owned (fulfilled s body) = ran s tt
owned (rejected s e) =
    if equals e.name (codes "BucketAlreadyOwnedByYou")
      || equals e.name (codes "BucketAlreadyExists")
    then ran s tt
    else failed s e.message

-- The options of the client: `forcePathStyle` is the one that is set, or whether there is an
-- endpoint.
unfoldable pub path_style : Option Bool → Option (List ℕ) → Bool
path_style (some set) endpoint = set
path_style none none = false
path_style none (some endpoint) = not (is_empty endpoint)

-- The call of `getSignedUrl`: the command to sign and the lifetime.
pub record Presigned : Type 0 where
  pub command : Command
  pub expires_in : ℕ

unfoldable pub presigned : List ℕ → List ℕ → ℕ → Presigned
unfolding signed_ttl
presigned bucket key seconds = record {
  command = get_object bucket key;
  expires_in = signed_ttl seconds;
}

-- `getSignedUrl` is the signer's.
module _ {S : Type 0} (send : Command → S → Sent S) (get_signed_url : Presigned → List ℕ)
    (bucket : List ℕ) where
  unfoldable pub s3_storage : ObjectStorage S
  unfolding presigned is_there
  s3_storage = record {
    put = λ input s.
        done_when_sent
          (send (put_object bucket input.key input.body input.content_type (codes "attachment")) s);
    get = λ key s. body_of key (send (get_object bucket key) s);
    signed_read_url =
        λ key seconds s. ran s (get_signed_url (presigned bucket key (seconds_or_default seconds)));
    exists = λ key s. is_there (send (head_object bucket key) s);
    delete = λ key s. done_when_sent (send (delete_object bucket key) s);
  }

  unfoldable pub ensure_bucket : Eff S (Unit {0})
  unfolding owned
  ensure_bucket s = owned (send (create_bucket bucket) s)
