-- ===== src/Parsing/Sniff.antt =====
-- api/src/ingestion/parsing/sniff.ts: does the content look like its declared type?
use ai_support_agent_builder.Prelude.{
  ℕ, List, [], ◌∷◌, Bool, true, false, ◌&&◌, ◌||◌, Option, none, some, ◌==◌, take, get_elem?,
  if◌then◌else◌,
}
use ai_support_agent_builder.Text.{codes, equals}
use ai_support_agent_builder.Parsing.Types.{SourceType, pdf, docx, md, txt}
use ai_support_agent_builder.Parsing.Decode.{decode_fatal}

-- `sample.includes(0)`
unfoldable pub has_nul : List ℕ → Bool
has_nul [] = false
has_nul (b ∷ bytes) = b == 0 || has_nul bytes

abbrev pub is_some {ℓ} : {A : Type ℓ} → Option A → Bool
is_some none = false
is_some (some a) = true

unfoldable pub looks_like_text : List ℕ → Bool
unfolding has_nul decode_fatal
looks_like_text bytes =
    let sample = take 8192 bytes in if has_nul sample then false else is_some (decode_fatal sample)

-- `bytes[i] === value`; a read behind the end is `undefined`.
unfoldable pub byte_is : List ℕ → ℕ → ℕ → Bool
byte_is bytes i value = elim (get_elem? bytes i) [ none ↦ false | some b ↦ b == value ]

unfoldable pub content_matches_type : SourceType → List ℕ → Bool
unfolding looks_like_text byte_is equals
content_matches_type pdf bytes = equals (take 5 bytes) (codes "%PDF-")
content_matches_type docx bytes =
    byte_is bytes 0 0x50
    && byte_is bytes 1 0x4b
    && (byte_is bytes 2 0x03 || byte_is bytes 2 0x05 || byte_is bytes 2 0x07)
content_matches_type md bytes = looks_like_text bytes
content_matches_type txt bytes = looks_like_text bytes
