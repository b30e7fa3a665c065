-- ===== src/Storage/ObjectKey.antt =====
-- api/src/storage/object-key.ts.
use ai_support_agent_builder.Prelude.{
  ℕ, zero, suc, ◌+◌, List, [], ◌∷◌, ◌++◌, Option, none, some, Bool, true, false, ◌||◌, ◌&&◌, not,
  leb, ◌==◌, if◌then◌else◌, if_elim, length, ◌≡◌, refl, sym, ap, ◌∙◌, Bool-cases, inl, inr,
  some_inj, arith,
}
use ai_support_agent_builder.Text.{codes, is_digit, span, to_lower_case}

-- A digit of `[0-9a-f]` under the flag `i`.
unfoldable pub is_hex : ℕ → Bool
unfolding is_digit
is_hex c = is_digit c || ((leb b'a' c && leb c b'f') || (leb b'A' c && leb c b'F'))

-- The text behind so many hexadecimal digits.
unfoldable pub after_hex : ℕ → List ℕ → Option (List ℕ)
unfolding is_hex
after_hex zero s = some s
after_hex (suc n) [] = none
after_hex (suc n) (c ∷ s) = let rest = after_hex n s in if is_hex c then rest else none

abbrev pub after_dash : Option (List ℕ) → Option (List ℕ)
after_dash none = none
after_dash (some []) = none
after_dash (some (c ∷ s)) = if c == b'-' then some s else none

abbrev pub then_hex : ℕ → Option (List ℕ) → Option (List ℕ)
then_hex n none = none
then_hex n (some s) = after_hex n s

abbrev pub is_end : Option (List ℕ) → Bool
is_end none = false
is_end (some []) = true
is_end (some (c ∷ s)) = false

-- `UUID_RE`
unfoldable pub is_uuid : List ℕ → Bool
unfolding after_hex
is_uuid s = is_end (
    then_hex 12 (
      after_dash (
        then_hex 4
          (after_dash (then_hex 4 (after_dash (then_hex 4 (after_dash (after_hex 8 s)))))))))

unfoldable pub is_name_start : ℕ → Bool
unfolding is_digit
is_name_start c =
    (is_digit c || ((leb b'a' c && leb c b'z') || (leb b'A' c && leb c b'Z')))
    || (c == b'_' || c == b'-')

unfoldable pub is_name_unit : ℕ → Bool
unfolding is_name_start
is_name_unit c = is_name_start c || c == b'.'

-- `NAME_RE`
unfoldable pub is_name : List ℕ → Bool
unfolding is_name_start is_name_unit span
is_name [] = false
is_name (c ∷ s) = is_name_start c && (leb (length s) 127 && span is_name_unit s == length s)

abbrev pub key_of : List ℕ → List ℕ → List ℕ → List ℕ
key_of tenant document name =
    codes "tenants/" ++ (tenant ++ (codes "/" ++ (document ++ (codes "/" ++ name))))

-- `none` where it throws.
unfoldable pub tenant_object_key : List ℕ → List ℕ → List ℕ → Option (List ℕ)
unfolding to_lower_case is_uuid is_name
tenant_object_key tenant_id document_id name =
    let tenant = to_lower_case tenant_id in
    let document = to_lower_case document_id in
    if not (is_uuid tenant)
    then none
    else if not (is_uuid document)
    then none
    else if not (is_name name)
    then none
    else some (key_of tenant document name)

after_hex-length : (n : ℕ) (s t : List ℕ) → after_hex n s ≡ some t → length s ≡ n + length t
unfolding after_hex
after_hex-length zero s t h = let e = some_inj h in rw e (omega arith)
after_hex-length (suc n) [] t h = absurd (cc)
after_hex-length (suc n) (c ∷ s) t h =
    if_elim (λ o. o ≡ some t → suc (length s) ≡ suc n + length t) (is_hex c) _ _
      (λ e g. omega (arith, after_hex-length n s t g)) (λ e g. absurd (cc)) h

-- A text is there, and it is so long.
abbrev Long : ℕ → Option (List ℕ) → Type 0
Long n o = (s : List ℕ) × (o ≡ some s) × (length s ≡ n)

is_end-Long : (o : Option (List ℕ)) → is_end o ≡ true → Long 0 o
is_end-Long none h = absurd (cc)
is_end-Long (some []) h = ([], refl, refl)
is_end-Long (some (c ∷ s)) h = absurd (cc)

after_dash-Long : (n : ℕ) (o : Option (List ℕ)) → Long n (after_dash o) → Long (suc n) o
after_dash-Long n none (s, e, l) = absurd (cc)
after_dash-Long n (some []) (s, e, l) = absurd (cc)
after_dash-Long n (some (c ∷ t)) w =
    if_elim (λ o. Long n o → Long (suc n) (some (c ∷ t))) (c == b'-') _ _
      (λ d (s, e, l). (c ∷ t, refl, omega (arith, ap length (some_inj e))))
      (λ d (s, e, l). absurd (cc)) w

then_hex-Long : (k n : ℕ) (o : Option (List ℕ)) → Long n (then_hex k o) → Long (k + n) o
then_hex-Long k n none (s, e, l) = absurd (cc)
then_hex-Long k n (some t) (s, e, l) = (t, refl, omega (arith, after_hex-length k t s e))

is_uuid-length : (s : List ℕ) → is_uuid s ≡ true → length s ≡ 36
unfolding is_uuid
is_uuid-length s h =
    let end_long = then_hex-Long 12 0 _ (is_end-Long _ h) in
    let fourth = then_hex-Long 4 13 _ (after_dash-Long 12 _ end_long) in
    let third = then_hex-Long 4 18 _ (after_dash-Long 17 _ fourth) in
    let second = then_hex-Long 4 23 _ (after_dash-Long 22 _ third) in
    let (t, e, l) = after_dash-Long 27 _ second in omega (arith, after_hex-length 8 s t e)

cons_head : {a b : ℕ} {s t : List ℕ} → a ∷ s ≡ b ∷ t → a ≡ b
cons_head e = cc

cons_tail : {a b : ℕ} {s t : List ℕ} → a ∷ s ≡ b ∷ t → s ≡ t
cons_tail e = cc

cons_eq : {a b : ℕ} {s t : List ℕ} → a ≡ b → s ≡ t → a ∷ s ≡ b ∷ t
cons_eq e f = cc

append_inj : (xs ys s t : List ℕ) → length xs ≡ length ys → xs ++ s ≡ ys ++ t → (xs ≡ ys) × (s ≡ t)
append_inj [] [] s t l h = (refl, h)
append_inj [] (y ∷ ys) s t l h = absurd (omega arith)
append_inj (x ∷ xs) [] s t l h = absurd (omega arith)
append_inj (x ∷ xs) (y ∷ ys) s t l h =
    let (e, r) = append_inj xs ys s t (omega arith) (cons_tail h) in (cons_eq (cons_head h) e, r)

-- The key is what the template says, and both ids are uuids in lower case.
abbrev Parts : List ℕ → List ℕ → List ℕ → List ℕ → Type 0
Parts tenant_id document_id name key =
    (is_uuid (to_lower_case tenant_id) ≡ true)
    × (is_uuid (to_lower_case document_id) ≡ true)
    × (key ≡ key_of (to_lower_case tenant_id) (to_lower_case document_id) name)

tenant_object_key-Parts :
    (tenant_id document_id name key : List ℕ)
    → tenant_object_key tenant_id document_id name ≡ some key
    → Parts tenant_id document_id name key
unfolding tenant_object_key
tenant_object_key-Parts tenant_id document_id name key h =
    elim (Bool-cases (is_uuid (to_lower_case tenant_id))) [
      | inl t ↦ elim (Bool-cases (is_uuid (to_lower_case document_id))) [
        | inl d ↦ elim (Bool-cases (is_name name)) [
          | inl n ↦ let e = rw (t, d, n) at h in (t, d, sym (some_inj e))
          | inr n ↦ let e = rw (t, d, n) at h in absurd (cc)
        ]
        | inr d ↦ let e = rw (t, d) at h in absurd (cc)
      ]
      | inr t ↦ let e = rw t at h in absurd (cc)
    ]

-- Two requests get the same key only for the same tenant, the same document and the same name, up
-- to the case of the ids: no name and no id reaches into another tenant's objects.
pub tenant_object_key_inj :
    (tenant_id tenant_id' document_id document_id' name name' key : List ℕ)
    → tenant_object_key tenant_id document_id name ≡ some key
    → tenant_object_key tenant_id' document_id' name' ≡ some key
    → (to_lower_case tenant_id ≡ to_lower_case tenant_id')
      × (to_lower_case document_id ≡ to_lower_case document_id')
      × (name ≡ name')
tenant_object_key_inj tenant_id tenant_id' document_id document_id' name name' key h h' =
    let (t, d, k) = tenant_object_key-Parts tenant_id document_id name key h in
    let (t', d', k') = tenant_object_key-Parts tenant_id' document_id' name' key h' in
    let (p, a) = append_inj (codes "tenants/") (codes "tenants/") _ _ refl (sym k ∙ k') in
    let (tenant, b) =
      append_inj (to_lower_case tenant_id) (to_lower_case tenant_id') _ _
        (is_uuid-length _ t ∙ sym (is_uuid-length _ t')) a in
    let (q, c) = append_inj (codes "/") (codes "/") _ _ refl b in
    let (document, r) =
      append_inj (to_lower_case document_id) (to_lower_case document_id') _ _
        (is_uuid-length _ d ∙ sym (is_uuid-length _ d')) c in
    let (u, same) = append_inj (codes "/") (codes "/") _ _ refl r in (tenant, document, same)
