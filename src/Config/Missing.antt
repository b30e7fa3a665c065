-- ===== src/Config/Missing.antt =====
-- The variables that have no default: what the error says where they are missing.
use ai_support_agent_builder.Prelude.{
  ℕ, zero, suc, ltb, true, Bool-cases, inl, inr, arith, List, [], ◌∷◌, ◌++◌, map, none, ◌≡◌, refl,
  sym, ap, ◌∙◌, subst, append_assoc, append-nil,
}
use ai_support_agent_builder.Text.{codes, join}
use ai_support_agent_builder.Config.{
  Checked, accepted, refused, Issue, issues, ◌<*>◌, Outside, Env, Config, Loaded, loaded, throws,
  line, parse_env, load_config, settled, is_required, text, make, url, key, secret,
}

-- A list that stands within another.
pub record Contains {A : Type 0} (whole part : List A) : Type 0 where
  pub before : List A
  pub after : List A
  pub parts : whole ≡ before ++ (part ++ after)

module _ {A : Type 0} where
  Contains-left : (whole more part : List A) → Contains whole part → Contains (whole ++ more) part
  Contains-left whole more part c = record {
    before = c.before;
    after = c.after ++ more;
    parts = rw c.parts (simp append_assoc);
  }

  Contains-right : (more whole part : List A) → Contains whole part → Contains (more ++ whole) part
  Contains-right more whole part c = record {
    before = more ++ c.before;
    after = c.after;
    parts = rw c.parts (simp append_assoc);
  }

  nil-parts : (before : List A) (a : A) (after : List A) → [] ≡ before ++ (a ∷ after) → ⊥
  nil-parts [] a after h = cc
  nil-parts (b ∷ before) a after h = cc

  Contains-nil : (a : A) → Contains [] (a ∷ []) → ⊥
  Contains-nil a c = nil-parts c.before a c.after c.parts

-- The line of an issue stands in the joined lines.
join-Contains :
    (sep : List ℕ) (before : List Issue) (i : Issue) (after : List Issue)
    → Contains (join sep (map line (before ++ (i ∷ after)))) (line i)
unfolding join
join-Contains sep [] i [] = record { before = []; after = []; parts = sym (append-nil (line i)) }
join-Contains sep [] i (j ∷ after) = record { before = []; after = _; parts = refl }
join-Contains sep (b ∷ []) i after =
    Contains-right (line b) _ (line i)
      (Contains-right sep _ (line i) (join-Contains sep [] i after))
join-Contains sep (b ∷ (c ∷ bs)) i after =
    Contains-right (line b) _ (line i)
      (Contains-right sep _ (line i) (join-Contains sep (c ∷ bs) i after))

unfoldable Reports : {A : Type 0} → Issue → Checked A → Type 0
Reports i c = Contains (issues c) (i ∷ [])

module _ {A B : Type 0} (i : Issue) where
  Reports-earlier : (f : Checked (A → B)) (c : Checked A) → Reports i f → Reports i (f <*> c)
  unfolding Reports ◌<*>◌
  Reports-earlier (accepted f) c r = absurd (Contains-nil i r)
  Reports-earlier (refused is) c r = Contains-left is (issues c) (i ∷ []) r

  Reports-here : (f : Checked (A → B)) (c : Checked A) → Reports i c → Reports i (f <*> c)
  unfolding Reports ◌<*>◌
  Reports-here (accepted f) (accepted a) r = absurd (Contains-nil i r)
  Reports-here (accepted f) (refused is) r = r
  Reports-here (refused is) c r = Contains-right is (issues c) (i ∷ []) r

-- The variables that have no default.
pub data Needed : Type 0 where
  database redis jwt anthropic openai : Needed

abbrev pub variable : Needed → List ℕ
variable database = codes "DATABASE_URL"
variable redis = codes "REDIS_URL"
variable jwt = codes "JWT_SECRET"
variable anthropic = codes "ANTHROPIC_API_KEY"
variable openai = codes "OPENAI_API_KEY"

-- Their order in the schema.
abbrev place : Needed → ℕ
place database = 0
place redis = 1
place jwt = 2
place anthropic = 3
place openai = 4

abbrev of_place : ℕ → Needed
of_place zero = database
of_place (suc zero) = redis
of_place (suc (suc zero)) = jwt
of_place (suc (suc (suc zero))) = anthropic
of_place (suc (suc (suc (suc n)))) = openai

of_place-place : (v : Needed) → of_place (place v) ≡ v
of_place-place database = refl
of_place-place redis = refl
of_place-place jwt = refl
of_place-place anthropic = refl
of_place-place openai = refl

place_inj : (v w : Needed) → place v ≡ place w → v ≡ w
place_inj v w h = sym (of_place-place v) ∙ ap of_place h ∙ of_place-place w

place-lt : (v : Needed) → ltb (place v) 5 ≡ true
place-lt database = refl
place-lt redis = refl
place-lt jwt = refl
place-lt anthropic = refl
place-lt openai = refl

-- The start fails, with this line in its message.
abbrev pub Says : List ℕ → Loaded → Type 0
Says part (loaded c) = ⊥
Says part (throws s) = Contains s part

module _ (out : Outside) (env : Env) where
  abbrev missing : Needed → Issue
  missing v = record { path = variable v; message = out.message is_required }

  -- The first of the variables are reported where they are missing.
  abbrev Covers : {A : Type 0} → ℕ → Checked A → Type 0
  Covers k c =
      (v : Needed) → ltb (place v) k ≡ true → env (variable v) ≡ none → Reports (missing v) c

  module _ {A B : Type 0} where
    Covers-keep : (k : ℕ) (f : Checked (A → B)) (c : Checked A) → Covers k f → Covers k (f <*> c)
    Covers-keep k f c r = λ v h e. Reports-earlier (missing v) f c (r v h e)

    Covers-add :
        (w : Needed) (f : Checked (A → B)) (c : Checked A)
        → Covers (place w) f
        → (env (variable w) ≡ none → Reports (missing w) c)
        → Covers (suc (place w)) (f <*> c)
    Covers-add w f c r now v h e = elim (Bool-cases (ltb (place v) (place w))) [
      | inl before ↦ Reports-earlier (missing v) f c (r v before e)
      | inr not_before ↦
          let same = place_inj v w (ground arith) in
          Reports-here (missing v) f c
            (subst (λ u. env (variable u) ≡ none → Reports (missing u) c) (sym same) now e)
    ]

  Reports-text :
      {A : Type 0} (w : Needed) (check : List ℕ → Checked A)
      → env (variable w) ≡ none
      → Reports (missing w) (text out (variable w) check (env (variable w)))
  unfolding Reports
  Reports-text w check e = rw e (record { before = []; after = []; parts = refl })

  parse_env-Covers : Covers 5 (parse_env out env)
  unfolding parse_env
  parse_env-Covers =
      let h0 : Covers 0 (accepted make) = λ v h. absurd (ground arith) in
      let h1 = Covers-keep 0 _ _ h0 in
      let h2 = Covers-keep 0 _ _ h1 in
      let h3 = Covers-keep 0 _ _ h2 in
      let h4 = Covers-add database _ _ h3 (Reports-text database (url out (variable database))) in
      let h5 = Covers-keep 1 _ _ h4 in
      let h6 = Covers-add redis _ _ h5 (Reports-text redis (url out (variable redis))) in
      let h7 = Covers-add jwt _ _ h6 (Reports-text jwt (secret out (variable jwt))) in
      let h8 =
        Covers-add anthropic _ _ h7 (Reports-text anthropic (key out (variable anthropic))) in
      let h9 = Covers-add openai _ _ h8 (Reports-text openai (key out (variable openai))) in
      let h10 = Covers-keep 5 _ _ h9 in
      let h11 = Covers-keep 5 _ _ h10 in
      let h12 = Covers-keep 5 _ _ h11 in
      let h13 = Covers-keep 5 _ _ h12 in
      let h14 = Covers-keep 5 _ _ h13 in
      let h15 = Covers-keep 5 _ _ h14 in
      let h16 = Covers-keep 5 _ _ h15 in
      let h17 = Covers-keep 5 _ _ h16 in
      let h18 = Covers-keep 5 _ _ h17 in
      let h19 = Covers-keep 5 _ _ h18 in
      let h20 = Covers-keep 5 _ _ h19 in let h21 = Covers-keep 5 _ _ h20 in Covers-keep 5 _ _ h21

  settled-Says : (o : Checked Config) (i : Issue) → Reports i o → Says (line i) (settled out o)
  unfolding Reports
  settled-Says (accepted c) i r = Contains-nil i r
  settled-Says (refused is) i r =
      Contains-right (codes "Invalid environment configuration:\n") _ (line i) (
        subst (λ js. Contains (join (codes "\n") (map line js)) (line i)) (sym r.parts)
          (join-Contains (codes "\n") r.before i r.after))

  -- Whatever else is wrong with the environment: where a variable without a default is not set, the
  -- start fails, and its one message has a line with the name of that variable.
  pub load_config-missing :
      (v : Needed) → env (variable v) ≡ none → Says (line (missing v)) (load_config out env)
  unfolding load_config
  load_config-missing v e =
      settled-Says (parse_env out env) (missing v) (parse_env-Covers v (place-lt v) e)
