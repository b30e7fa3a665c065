-- ===== src/Parsing/Types.antt =====
-- api/src/ingestion/parsing/types.ts, and the `SourceType` of the database schema.
use ai_support_agent_builder.Prelude.{ℕ, List, Bool, Option, ◌≡◌, refl}

pub data SourceType : Type 0 where
  pdf docx md txt : SourceType

-- `heading` is the optional flag (absent is false), `level` the optional depth.
pub record RawBlock : Type 0 where
  pub text : List ℕ
  pub page : ℕ
  pub heading : Bool
  pub level : Option ℕ

-- A block with the offsets of its text in the document's text.
pub record AnchoredBlock : Type 0 where
  pub text : List ℕ
  pub page : ℕ
  pub heading : Bool
  pub level : Option ℕ
  pub char_start : ℕ
  pub char_end : ℕ

pub record FormatParseResult : Type 0 where
  pub blocks : List RawBlock
  pub page_count : ℕ
  pub warnings : List (List ℕ)

pub record ParsedDocument : Type 0 where
  pub text : List ℕ
  pub page_count : ℕ
  pub warnings : List (List ℕ)
  pub blocks : List AnchoredBlock

-- What the parsers throw: `ParseError` with its message, or an error of a third-party reader.
pub data Thrown : Type 0 where
  parse_error : List ℕ → Thrown
  foreign_error : List ℕ → Thrown

pub data Parsed {ℓ} (A : Type ℓ) : Type ℓ where
  returned : A → Parsed A
  thrown : Thrown → Parsed A

infixl 10 ◌>>=◌
abbrev pub ◌>>=◌ {ℓ κ} : {A : Type ℓ} {B : Type κ} → Parsed A → (A → Parsed B) → Parsed B
returned a >>= f = f a
thrown e >>= f = thrown e

module _ {ℓ} {A : Type ℓ} where
  pub returned_inj : {a b : A} → returned a ≡ returned b → a ≡ b
  returned_inj h = cc

module _ {ℓ κ} {A : Type ℓ} {B : Type κ} where
  -- A bind that returns has a first part that returned.
  pub >>=-eq-returned :
      (m : Parsed A) (f : A → Parsed B) {b : B}
      → (m >>= f) ≡ returned b
      → (a : A) × (m ≡ returned a) × (f a ≡ returned b)
  >>=-eq-returned (returned a) f h = (a, refl, h)
  >>=-eq-returned (thrown e) f h = cc
