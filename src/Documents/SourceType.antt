-- ===== src/Documents/SourceType.antt =====
-- api/src/documents/source-type.ts: the type of a document by its file name.
use ai_support_agent_builder.Prelude.{
  ℕ, List, [], ◌∷◌, ◌++◌, Option, none, some, Bool, true, false, if◌then◌else◌, ◌==◌, ◌≡◌, refl,
}
use ai_support_agent_builder.Text.{codes, equals, to_lower_case}
use ai_support_agent_builder.Parsing.Types.{SourceType, pdf, docx, md, txt}

-- `EXT_TO_SOURCE[ext] ?? null`
unfoldable pub ext_to_source : List ℕ → Option SourceType
ext_to_source ext =
    if equals ext (codes "pdf")
    then some pdf
    else if equals ext (codes "docx")
    then some docx
    else if equals ext (codes "md")
    then some md
    else if equals ext (codes "markdown")
    then some md
    else if equals ext (codes "txt")
    then some txt
    else none

abbrev pub or_last : Option (List ℕ) → List ℕ → Bool → Option (List ℕ)
or_last (some ext) s here = some ext
or_last none s true = some s
or_last none s false = none

-- What is behind the last dot: `slice(lastIndexOf('.') + 1)`; `none` without a dot.
unfoldable pub after_last_dot : List ℕ → Option (List ℕ)
after_last_dot [] = none
after_last_dot (c ∷ s) = or_last (after_last_dot s) s (c == b'.')

abbrev pub source_of_ext : Option (List ℕ) → Option SourceType
source_of_ext none = none
source_of_ext (some ext) = ext_to_source (to_lower_case ext)

unfoldable pub resolve_source_type : List ℕ → Option SourceType
unfolding after_last_dot ext_to_source to_lower_case
resolve_source_type filename = source_of_ext (after_last_dot filename)

abbrev pub NoDot : List ℕ → Type 0
NoDot [] = Unit
NoDot (c ∷ s) = ((c == b'.') ≡ false) × NoDot s

after_last_dot-none : (ext : List ℕ) → NoDot ext → after_last_dot ext ≡ none
unfolding after_last_dot
after_last_dot-none [] h = refl
after_last_dot-none (c ∷ s) (e, h) = rw (after_last_dot-none s h, e) refl

after_last_dot-append :
    (name ext : List ℕ) → NoDot ext → after_last_dot (name ++ b'.' ∷ ext) ≡ some ext
unfolding after_last_dot
after_last_dot-append [] ext h = rw (after_last_dot-none ext h) refl
after_last_dot-append (c ∷ s) ext h = rw (after_last_dot-append s ext h) refl

-- Only the part behind the last dot decides, in lower case, whatever the name before it holds: a
-- second ending such as `.pdf.exe` does not pass for the first.
pub resolve_source_type-last :
    (name ext : List ℕ)
    → NoDot ext
    → resolve_source_type (name ++ b'.' ∷ ext) ≡ ext_to_source (to_lower_case ext)
unfolding resolve_source_type
resolve_source_type-last name ext h = rw (after_last_dot-append name ext h) refl
