-- ===== src/Effects.antt =====
-- Asynchronous code as state passing: a computation reads a state and ends with a value or with
-- an error that was thrown; the state keeps what was done before the error.
use ai_support_agent_builder.Prelude.{List, ℕ, ◌≡◌, refl}

-- An `Error` with its message.
abbrev pub Message : Type 0
Message = List ℕ

pub data Ran {ℓ κ} (S : Type ℓ) (A : Type κ) : Type (ℓ ⊔ κ) where
  ran : S → A → Ran S A
  failed : S → Message → Ran S A

abbrev pub Eff {ℓ κ} : Type ℓ → Type κ → Type (ℓ ⊔ κ)
Eff S A = S → Ran S A

abbrev pub state_of {ℓ κ} : {S : Type ℓ} {A : Type κ} → Ran S A → S
state_of (ran s a) = s
state_of (failed s e) = s

abbrev pub after {ℓ κ μ} :
    {S : Type ℓ} {A : Type κ} {B : Type μ} → Ran S A → (A → Eff S B) → Ran S B
after (ran s a) f = f a s
after (failed s e) f = failed s e

infixl 10 ◌>>=◌
abbrev pub ◌>>=◌ {ℓ κ μ} :
    {S : Type ℓ} {A : Type κ} {B : Type μ} → Eff S A → (A → Eff S B) → Eff S B
(m >>= f) s = after (m s) f

abbrev pub pure {ℓ κ} : {S : Type ℓ} {A : Type κ} → A → Eff S A
pure a s = ran s a

-- `throw new Error(message)`
abbrev pub throw {ℓ κ} : {S : Type ℓ} {A : Type κ} → Message → Eff S A
throw e s = failed s e

module _ {ℓ κ μ} {S : Type ℓ} {A : Type κ} {B : Type μ} where
  -- A sequence that succeeds has a first part that succeeded.
  pub after-eq-ran :
      (m : Ran S A) (f : A → Eff S B) {s : S} {b : B}
      → after m f ≡ ran s b
      → (t : S) × (a : A) × (m ≡ ran t a) × (f a t ≡ ran s b)
  after-eq-ran (ran t a) f h = (t, a, refl, h)
  after-eq-ran (failed t e) f h = cc

-- What a `Promise<void>` resolves to.
abbrev pub Void : Type 0
Void = Unit

infixl 10 ◌>>◌
abbrev pub ◌>>◌ {ℓ κ μ} : {S : Type ℓ} {A : Type κ} {B : Type μ} → Eff S A → Eff S B → Eff S B
(m >> k) s = after (m s) (λ a. k)

module _ {ℓ κ μ} {S : Type ℓ} {A : Type κ} {B : Type μ} where
  pub after_ext :
      (r : Ran S A) (f g : A → Eff S B) → ((a : A) (s : S) → f a s ≡ g a s) → after r f ≡ after r g
  after_ext (ran s a) f g h = h a s
  after_ext (failed s e) f g h = refl

module _ {ℓ κ μ ν} {S : Type ℓ} {A : Type κ} {B : Type μ} {C : Type ν} where
  pub after-after :
      (r : Ran S A) (f : A → Eff S B) (g : B → Eff S C)
      → after (after r f) g ≡ after r (λ a s. after (f a s) g)
  after-after (ran s a) f g = refl
  after-after (failed s e) f g = refl

module _ {ℓ κ} {S : Type ℓ} {A : Type κ} where
  pub ran_inj : {s t : S} {a b : A} → ran s a ≡ ran t b → s ≡ t
  ran_inj h = cc
