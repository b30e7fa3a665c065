-- ===== src/Chunking/Tokenizer.antt =====
-- api/src/ingestion/chunking/tokenizer.ts. The encoder itself (js-tiktoken) is a parameter.
use Prim.Native.Nat.{◌-◌}
use mathlib.Core.List.{reverse}
use ai_support_agent_builder.Prelude.{
  ℕ, List, [], ◌∷◌, length, take, drop, leb, ◌==◌, if◌then◌else◌,
}

-- `encode` and `decode` of the tokenizer's package.
pub record Encoder : Type 0 where
  pub encode : List ℕ → List ℕ
  pub decode : List ℕ → List ℕ

-- U+FFFD, the sign for a partial character.
abbrev pub replacement_char : ℕ
replacement_char = 0xfffd

-- `replace(/^�+/, '')`
unfoldable pub strip_leading : List ℕ → List ℕ
strip_leading [] = []
strip_leading (c ∷ s) = let rest = strip_leading s in if c == replacement_char then rest else c ∷ s

-- `replace(/�+$/, '')`
unfoldable pub strip_trailing : List ℕ → List ℕ
unfolding strip_leading
strip_trailing s = reverse (strip_leading (reverse s))

module _ (enc : Encoder) where
  unfoldable pub count_tokens : List ℕ → ℕ
  count_tokens text = length (enc.encode text)

  unfoldable pub truncate_to_tokens : List ℕ → ℕ → List ℕ
  unfolding strip_trailing
  truncate_to_tokens text n =
      let tokens = enc.encode text in
      if n == 0
      then []
      else if leb (length tokens) n
      then text
      else strip_trailing (enc.decode (take n tokens))

  unfoldable pub take_last_tokens : List ℕ → ℕ → List ℕ
  unfolding strip_leading
  take_last_tokens text n =
      let tokens = enc.encode text in
      if n == 0
      then []
      else if leb (length tokens) n
      then text
      else strip_leading (enc.decode (drop (length tokens - n) tokens))
