-- ===== src/Admin/Settings/Agree.antt =====
-- The page shows the keys that the server has.
use ai_support_agent_builder.Prelude.{
  ℕ, suc, List, [], ◌∷◌, map, keep, Option, none, some, Bool, true, false, ◌&&◌, ◌||◌, not, if_elim,
  ◌==◌, length, ◌≡◌, refl, sym, ap, ◌∙◌, Bool-cases, inl, inr, arith,
}
use ai_support_agent_builder.Text.{equals, equals_iff, is_empty}
use ai_support_agent_builder.Claims.{TenantClaims}
use ai_support_agent_builder.Storage.ObjectKey.{is_uuid}
use ai_support_agent_builder.Ingest.World.{find_row, is_found}
use ai_support_agent_builder.Assistants.{
  Tables, ApiKeyRow, Handled, Response, Body, key_minted, message, assistants_list, patch_applied,
  key_ids, empty, GeneratedKey, is_key_of, is_own_assistant, is_named_key, post_api_key,
  delete_api_key, find_by_hash,
}
use ai_support_agent_builder.Assistants.Keys.{admin-status}
use ai_support_agent_builder.Admin.Bff as Bff
use ai_support_agent_builder.Admin.Bff.{is_ok, relay_deleted, Reply}
use ai_support_agent_builder.Admin.Settings.{
  Page, KeyAnswer, Answer, created, create_key, revoked, revoke_key, Listed, with_assistant,
}

-- The identifiers of the assistant's keys, the newest first.
abbrev pub server_keys : TenantClaims → List ℕ → Tables → List (List ℕ)
server_keys claims assistant t =
    map (λ row. row.id) (keep (is_key_of assistant claims.tenant_id) t.api_keys)

-- What the page reads of the answers, behind the route handlers that pass them on.
abbrev pub read_key : Bool → Body → KeyAnswer
read_key ok (key_minted id key) = KeyAnswer.answered ok (some id) (some key)
read_key ok (message m) = KeyAnswer.answered ok none none
read_key ok (assistants_list vs) = KeyAnswer.answered ok none none
read_key ok (patch_applied id p) = KeyAnswer.answered ok (some id) none
read_key ok (key_ids ids) = KeyAnswer.answered ok none none
read_key ok empty = KeyAnswer.answered ok none none

abbrev pub key_answer : Response → KeyAnswer
key_answer r = read_key (is_ok r.status) r.body

abbrev pub answer_of : Reply → Answer
answer_of r = Answer.answered (is_ok r.status) r.status

abbrev pub revoke_answer : Response → Answer
revoke_answer r =
    answer_of
      (relay_deleted (Bff.answered (record { status = r.status; json = none; has_body = false })))

with_assistant-keys :
    (o : Option Listed) (a : Listed) (page : Page) (f : Listed → Page)
    → o ≡ some a
    → (with_assistant o page f).keys ≡ (f a).keys
with_assistant-keys o a page f e = ap (λ o. (with_assistant o page f).keys) e

equals_refl : (s : List ℕ) → equals s s ≡ true
equals_refl s = (equals_iff s s).1 refl

map-keep-without {ℓ κ} :
    {A : Type ℓ} {B : Type κ} (f : A → B) (gone : B → Bool) (p : A → Bool) (rows : List A)
    → map f (keep p (keep (λ a. not (gone (f a) && p a)) rows))
      ≡ keep (λ b. not (gone b)) (map f (keep p rows))
unfolding keep
map-keep-without f gone p [] = refl
map-keep-without f gone p (a ∷ rows) = elim (Bool-cases (p a)) [
  | inl e ↦ elim (Bool-cases (gone (f a))) [
    | inl g ↦ rw (e, g) (map-keep-without f gone p rows)
    | inr g ↦ rw (e, g, e) (ap (λ l. f a ∷ l) (map-keep-without f gone p rows))
  ]
  | inr e ↦ elim (Bool-cases (gone (f a))) [
    | inl g ↦ rw (e, g, e) (map-keep-without f gone p rows)
    | inr g ↦ rw (e, g, e) (map-keep-without f gone p rows)
  ]
]

nonzero : (n : ℕ) → (suc n == 0) ≡ true → ⊥
nonzero n h = ground arith

keep_all {ℓ} :
    {A : Type ℓ} (test : A → Bool) (rows : List A)
    → (length (keep test rows) == 0) ≡ true
    → keep (λ a. not (test a)) rows ≡ rows
unfolding keep
keep_all test [] h = refl
keep_all test (a ∷ rows) h = elim (Bool-cases (test a)) [
  | inl e ↦ let k = rw e at h in absurd (nonzero (length (keep test rows)) k)
  | inr e ↦ let k = rw e at h in rw e (ap (λ l. a ∷ l) (keep_all test rows k))
]

module _ (fails : Bool) (claims : TenantClaims) (assistant : List ℕ) (t : Tables) (page : Page)
    (agrees : page.keys ≡ server_keys claims assistant t) where
  created-agree :
      (generated : GeneratedKey) (id : List ℕ)
      → is_empty id ≡ false
      → is_empty generated.key ≡ false
      → (created (key_answer (post_api_key fails claims assistant generated id t).0) page).keys
        ≡ server_keys claims assistant (post_api_key fails claims assistant generated id t).1
  unfolding post_api_key keep
  created-agree generated id named keyed =
      let P =
        λ (h : Handled). (created (key_answer h.0) page).keys ≡ server_keys claims assistant h.1 in
      admin-status claims t _ P agrees (
        if_elim P (not (is_uuid assistant)) _ _ (λ e. agrees)
          (λ e.
            if_elim P fails _ _ (λ e. agrees)
              (λ e.
                if_elim P
                  (not (
                    is_found (find_row (is_own_assistant assistant claims.tenant_id) t.assistants)))
                  _ _ (λ e. agrees)
                  (λ e.
                    if_elim P (is_found (find_by_hash generated.hash t)) _ _ (λ e. agrees)
                      (λ e.
                        rw (keyed, named, equals_refl assistant, equals_refl claims.tenant_id)
                          (ap (λ ks. id ∷ ks) agrees))))))

  revoked-agree :
      (key : List ℕ)
      → (revoked key (revoke_answer (delete_api_key fails claims assistant key t).0) page).keys
        ≡ server_keys claims assistant (delete_api_key fails claims assistant key t).1
  unfolding delete_api_key relay_deleted
  revoked-agree key =
      let P = λ (h : Handled).
        (revoked key (revoke_answer h.0) page).keys ≡ server_keys claims assistant h.1 in
      let filtered =
        ap (keep (λ k. not (equals k key))) agrees
        ∙ sym (
            map-keep-without (λ (row : ApiKeyRow). row.id) (λ k. equals k key)
              (is_key_of assistant claims.tenant_id) t.api_keys) in
      admin-status claims t _ P agrees (
        if_elim P (not (is_uuid assistant) || not (is_uuid key)) _ _ (λ e. agrees)
          (λ e.
            if_elim P fails _ _ (λ e. agrees)
              (λ e.
                if_elim P
                  (length (keep (is_named_key key assistant claims.tenant_id) t.api_keys) == 0) _ _
                  (λ e.
                    filtered
                    ∙ ap (λ rows. server_keys claims assistant (record t { api_keys = rows }))
                        (keep_all (is_named_key key assistant claims.tenant_id) t.api_keys e))
                  (λ e. filtered))))

-- Where the page shows the keys that the server has for its assistant: it does so again after a
-- request for a new key and after a confirmed revocation, whatever the server answers to them (a
-- row that another session has removed included), if identifiers and keys are not empty.
pub page-agrees :
    (fails : Bool) (claims : TenantClaims) (t : Tables) (page : Page) (a : Listed)
    (generated : GeneratedKey) (id key : List ℕ)
    → page.assistant ≡ some a
    → page.keys ≡ server_keys claims a.id t
    → is_empty id ≡ false
    → is_empty generated.key ≡ false
    → ((create_key (key_answer (post_api_key fails claims a.id generated id t).0) page).keys
        ≡ server_keys claims a.id (post_api_key fails claims a.id generated id t).1)
      × ((revoke_key true key (revoke_answer (delete_api_key fails claims a.id key t).0) page).keys
          ≡ server_keys claims a.id (delete_api_key fails claims a.id key t).1)
unfolding create_key revoke_key
page-agrees fails claims t page a generated id key shows agrees named keyed = (
  with_assistant-keys page.assistant a page _ shows
      ∙ created-agree fails claims a.id t page agrees generated id named keyed,
  with_assistant-keys page.assistant a page _ shows
      ∙ revoked-agree fails claims a.id t page agrees key,
)
