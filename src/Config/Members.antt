-- ===== src/Config/Members.antt =====
-- What the schema of api/src/config.ts makes sure of in each of its members.
use native.Mathlib.Nat.{div-add-mod}
use ai_support_agent_builder.Prelude.{
  not-true, ℕ, ◌*◌, ◌/◌, ◌%◌, ◌<◌, ◌≤◌, List, [], ◌∷◌, ◌++◌, Option, none, some, Bool, true, false,
  ◌==◌, ==_iff, if◌then◌else◌, ◌≡◌, refl, ap, ◌∙◌, length, ltb, arith, Bool-cases, inl, inr, not,
}
use ai_support_agent_builder.Text.{codes, is_empty, trim}
use ai_support_agent_builder.Number.{
  Double, nan, minus_infinity, finite, plus_infinity, pos, negsuc, unit, whole, lt_double,
}
use ai_support_agent_builder.Config.{
  Checked, accepted, refused, settle, ◌<*>◌, Outside, Issue, is_integer, member, Rule, has_url_form,
  is_positive, is_listed, is_whole, has_characters, url, key, secret, enum, text, optional,
  with_default, number, positive_issues, count_issues, coerced, positive, count, require,
}

-- A value that is accepted has the property.
unfoldable pub Holds : {A : Type 0} → (A → Type 0) → Checked A → Type 0
Holds P (accepted a) = P a
Holds P (refused is) = Unit

abbrev pub Takes : {A B : Type 0} → (A → Type 0) → (B → Type 0) → (A → B) → Type 0
Takes P Q f = (a : _) → P a → Q (f a)

-- A whole number, from 1 on.
abbrev pub IsCount : Double → Type 0
IsCount x = (n : ℕ) × (0 < n) × (x ≡ whole n)

div-exact : (n d : ℕ) → n % d ≡ 0 → n ≡ n / d * d
div-exact n d h = grind (arith, div-add-mod n d, h)

IsCount-finite : (n : ℕ) → n % unit ≡ 0 → 0 < n → IsCount (finite (pos n))
unfolding whole
IsCount-finite n h k =
    let e = div-exact n unit h in
    (
      n / unit,
      elim (Bool-cases (n / unit == 0)) [
        | inl z ↦ absurd (grind (arith, e ∙ ap (λ q. q * unit) ((==_iff (n / unit) 0).0 z), k))
        | inr z ↦ ground arith
      ],
      ap (λ m. finite (pos m)) e,
    )

IsCount-integer : (x : Double) → is_integer x ≡ true → lt_double (whole 0) x ≡ true → IsCount x
unfolding is_integer
IsCount-integer (finite (pos n)) h k =
    IsCount-finite n ((==_iff (n % unit) 0).0 h) (unfold lt_double whole in ground arith)
IsCount-integer (finite (negsuc n)) h k = absurd (unfold lt_double whole in ground arith)
IsCount-integer nan h k = absurd (cc)
IsCount-integer minus_infinity h k = absurd (cc)
IsCount-integer plus_infinity h k = absurd (cc)

module _ {A B : Type 0} (P : A → Type 0) (Q : B → Type 0) where
  pub Holds-apply :
      (f : Checked (A → B)) (c : Checked A) → Holds (Takes P Q) f → Holds P c → Holds Q (f <*> c)
  unfolding Holds ◌<*>◌
  Holds-apply (accepted f) (accepted a) h k = h a k
  Holds-apply (accepted f) (refused is) h k = tt
  Holds-apply (refused is) c h k = tt

module _ {A : Type 0} (P : A → Type 0) where
  Holds-settle : (a : A) (is : List Issue) → (is ≡ [] → P a) → Holds P (settle a is)
  unfolding Holds
  Holds-settle a [] h = h refl
  Holds-settle a (i ∷ is) h = tt

  pub Holds-text :
      (out : Outside) (name : List ℕ) (check : List ℕ → Checked A) (o : Option (List ℕ))
      → ((s : List ℕ) → Holds P (check s))
      → Holds P (text out name check o)
  unfolding Holds
  Holds-text out name check none h = tt
  Holds-text out name check (some s) h = h s

  pub Holds-default :
      (value : List ℕ) (check : List ℕ → Checked A) (o : Option (List ℕ))
      → ((s : List ℕ) → Holds P (check s))
      → Holds P (with_default value check o)
  unfolding Holds
  Holds-default value check none h = h value
  Holds-default value check (some s) h = h s

abbrev pub IfSet : (List ℕ → Type 0) → Option (List ℕ) → Type 0
IfSet P none = Unit
IfSet P (some s) = P s

pub Holds-optional :
    (P : List ℕ → Type 0) (check : List ℕ → Checked (List ℕ)) (o : Option (List ℕ))
    → ((s : List ℕ) → Holds P (check s))
    → Holds (IfSet P) (optional check o)
unfolding Holds
Holds-optional P check none h = tt
Holds-optional P check (some s) h =
    Holds-apply P (IfSet P) (accepted some) (check s) (λ a p. p) (h s)

module _ (out : Outside) where
  require-nil :
      (ok : Bool) (name : List ℕ) (rule : Rule) → require out ok name rule ≡ [] → ok ≡ true
  require-nil true name rule h = refl
  require-nil false name rule h = absurd (cc)

  pub url-Holds : (name s : List ℕ) → Holds (λ t. out.is_url t ≡ true) (url out name s)
  unfolding url
  url-Holds name s = Holds-settle _ s _ (require-nil (out.is_url s) name has_url_form)

  pub key-Holds : (name s : List ℕ) → Holds (λ t. is_empty t ≡ false) (key out name s)
  unfolding key
  key-Holds name s =
      Holds-settle (λ t. is_empty t ≡ false) (trim s)
        (require out (not (is_empty (trim s))) name has_characters)
        (λ h. not-true _ (require-nil _ name has_characters h))

  pub secret-Holds : (name s : List ℕ) → Holds (λ t. 32 ≤ length t) (secret out name s)
  unfolding secret
  secret-Holds name s =
      Holds-settle (λ t. 32 ≤ length t) (trim s)
        (if ltb (length (trim s)) 32
          then (record { path = name; message = codes "must be at least 32 characters" } ∷ [])
          else [])
        (elim (Bool-cases (ltb (length (trim s)) 32)) [
          | inl e ↦ rw e (λ h. absurd (cc))
          | inr e ↦ λ h. ground arith
        ])

  pub enum-Holds :
      (options : List (List ℕ)) (name s : List ℕ)
      → Holds (λ t. member t options ≡ true) (enum out options name s)
  unfolding enum
  enum-Holds options name s = Holds-settle _ s _ (require-nil (member s options) name is_listed)

  number-Holds :
      (P : Double → Type 0) (name : List ℕ) (checks : Double → List Issue) (x : Double)
      → (checks x ≡ [] → P x)
      → Holds P (number out name checks x)
  unfolding Holds
  number-Holds P name checks nan h = tt
  number-Holds P name checks minus_infinity h = Holds-settle P minus_infinity _ h
  number-Holds P name checks (finite z) h = Holds-settle P (finite z) _ h
  number-Holds P name checks plus_infinity h = Holds-settle P plus_infinity _ h

  pub positive-Holds :
      (name : List ℕ) (value : Double) (o : Option (List ℕ))
      → Holds (λ x. lt_double (whole 0) x ≡ true) (positive out name value o)
  unfolding positive positive_issues
  positive-Holds name value o =
      number-Holds (λ x. lt_double (whole 0) x ≡ true) name (positive_issues out name)
        (coerced out value o)
        (require-nil (lt_double (whole 0) (coerced out value o)) name is_positive)

  append-nil_left : (is js : List Issue) → is ++ js ≡ [] → (is ≡ []) × (js ≡ [])
  append-nil_left [] js h = (refl, h)
  append-nil_left (i ∷ is) js h = absurd (cc)

  IsCount-of : (name : List ℕ) (x : Double) → count_issues out name x ≡ [] → IsCount x
  unfolding count_issues
  IsCount-of name x h =
      let (a, b) = append-nil_left (require out (is_integer x) name is_whole) _ h in
      IsCount-integer x (require-nil (is_integer x) name is_whole a)
        (unfold positive_issues in require-nil (lt_double (whole 0) x) name is_positive b)

  pub count-Holds :
      (name : List ℕ) (value : ℕ) (o : Option (List ℕ)) → Holds IsCount (count out name value o)
  unfolding count
  count-Holds name value o =
      number-Holds IsCount name (count_issues out name) (coerced out (whole value) o)
        (IsCount-of name (coerced out (whole value) o))
