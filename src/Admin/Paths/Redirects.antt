-- ===== src/Admin/Paths/Redirects.antt =====
-- Redirects end, and lead back to where the visitor wanted to go.
use ai_support_agent_builder.Prelude.{
  ℕ, List, [], ◌∷◌, Option, none, some, Bool, true, false, ◌&&◌, if◌then◌else◌, ◌==◌, ◌≡◌, refl,
  sym, ap, subst, ==_iff, ◌∙◌, Bool-cases, inl, inr,
}
use ai_support_agent_builder.Text.{codes, equals, starts_with}
use ai_support_agent_builder.Admin.Paths.{
  is_protected_path, safe_internal_path, middleware, Outcome, passes, redirects, login_path,
  dashboard_path, is_public,
}

-- The path is local: it has one slash at its front.
pub data IsLocal : List ℕ → Type 0 where
  root : IsLocal (codes "/")
  below : (c : ℕ) (s : List ℕ) → (c == b'/') ≡ false → IsLocal (b'/' ∷ c ∷ s)

IsLocal-safe : (path : List ℕ) → IsLocal path → safe_internal_path (some path) ≡ path
unfolding safe_internal_path starts_with
IsLocal-safe _ root = refl
IsLocal-safe _ (below c s h) = rw h refl

public-is_protected_path : (path : List ℕ) → is_public path ≡ true → is_protected_path path ≡ false
unfolding is_protected_path
public-is_protected_path path h = rw h refl

protected-is_public : (path : List ℕ) → is_protected_path path ≡ true → is_public path ≡ false
protected-is_public path h = elim (Bool-cases (is_public path)) [
  | inl e ↦ let k = public-is_protected_path path e in absurd (cc)
  | inr e ↦ e
]

&&-false : (b : Bool) → (b && false) ≡ false
&&-false true = refl
&&-false false = refl

-- An authenticated visitor sees every page but the two for visitors.
middleware-passes : (path : List ℕ) → is_public path ≡ false → middleware true path ≡ passes
unfolding middleware
middleware-passes path h = rw (&&-false (is_protected_path path), h) refl

middleware-login :
    (path : List ℕ)
    → is_protected_path path ≡ true
    → middleware false path
      ≡ redirects login_path (if equals path (codes "/") then none else some path)
unfolding middleware
middleware-login path h = rw h refl

-- Where the visitor lands after the login.
abbrev pub landing : Outcome → List ℕ
landing passes = dashboard_path
landing (redirects path next) = safe_internal_path next

abbrev pub opened : List ℕ → List ℕ
opened path = if equals path (codes "/") then dashboard_path else path

landing-next :
    (path : List ℕ)
    → IsLocal path
    → safe_internal_path (if equals path (codes "/") then none else some path) ≡ opened path
unfolding equals safe_internal_path
landing-next _ root = refl
landing-next _ (below c s h) = IsLocal-safe (b'/' ∷ c ∷ s) (below c s h)

opened-passes :
    (path : List ℕ)
    → IsLocal path
    → is_protected_path path ≡ true
    → middleware true (opened path) ≡ passes
unfolding equals middleware starts_with
opened-passes _ root p = refl
opened-passes _ (below c s h) p =
    middleware-passes (b'/' ∷ c ∷ s) (protected-is_public (b'/' ∷ c ∷ s) p)

login-passes : middleware false login_path ≡ passes
unfolding middleware equals starts_with
login-passes = refl

-- A visitor without a session who opens a protected local page is sent to the login page, which is
-- shown; after the login the page sends him to the one that he opened (from the root to the
-- dashboard), and that is shown, without a further redirect.
pub middleware-landing :
    (path : List ℕ)
    → IsLocal path
    → is_protected_path path ≡ true
    → (next : Option (List ℕ)) × (middleware false path ≡ redirects login_path next)
      × (middleware false login_path ≡ passes)
      × (landing (middleware false path) ≡ opened path)
      × (middleware true (landing (middleware false path)) ≡ passes)
middleware-landing path local h =
    let e = middleware-login path h in
    let there = ap landing e ∙ landing-next path local in
    (
      if equals path (codes "/") then none else some path,
      e,
      login-passes,
      there,
      ap (middleware true) there ∙ opened-passes path local h,
    )

-- Whatever is asked for, a login leads to a path that starts with one slash.
pub safe_internal_path-IsLocal : (next : Option (List ℕ)) → IsLocal (safe_internal_path next)
unfolding safe_internal_path starts_with
safe_internal_path-IsLocal none = below b'd' (codes "ashboard") refl
safe_internal_path-IsLocal (some []) = below b'd' (codes "ashboard") refl
safe_internal_path-IsLocal (some (c ∷ [])) = elim (Bool-cases (c == b'/')) [
  | inl e ↦ rw e (subst (λ d. IsLocal (d ∷ [])) (sym ((==_iff c b'/').0 e)) root)
  | inr e ↦ rw e (below b'd' (codes "ashboard") refl)
]
safe_internal_path-IsLocal (some (c ∷ d ∷ s)) = elim (Bool-cases (c == b'/')) [
  | inl e ↦ elim (Bool-cases (d == b'/')) [
    | inl f ↦ rw (e, f) (below b'd' (codes "ashboard") refl)
    | inr f ↦ rw (e, f) (subst (λ c. IsLocal (c ∷ d ∷ s)) (sym ((==_iff c b'/').0 e)) (below d s f))
  ]
  | inr e ↦ rw e (below b'd' (codes "ashboard") refl)
]
