-- ===== src/Parsing/Decode.antt =====
-- api/src/ingestion/parsing/decode.ts: `new TextDecoder('utf-8', { fatal: true }).decode(bytes)`,
-- the decoder of the Encoding Standard, into UTF-16 code units.
use ai_support_agent_builder.Prelude.{
  ℕ, ◌+◌, ◌-◌, ◌*◌, ◌/◌, ◌%◌, List, [], ◌∷◌, ◌++◌, true, false, ◌&&◌, Option, none, some, leb, ltb,
  ◌==◌, if◌then◌else◌, ◌≡◌, refl,
}
use ai_support_agent_builder.Text.{codes}
use ai_support_agent_builder.Parsing.Types.{Parsed, returned, thrown, parse_error}

-- The code units of a code point.
unfoldable pub units : ℕ → List ℕ
units point =
    if ltb point 0x10000
    then point ∷ []
    else (0xd800 + (point - 0x10000) / 0x400) ∷ (0xdc00 + (point - 0x10000) % 0x400) ∷ []

-- The decoder's variables: how many bytes are still needed, the bounds of the next one, and the
-- code point so far.
pub record Pending : Type 0 where
  pub needed : ℕ
  pub lower : ℕ
  pub upper : ℕ
  pub point : ℕ

abbrev pub nothing_pending : Pending
nothing_pending = record { needed = 0; lower = 0x80; upper = 0xbf; point = 0 }

-- What a lead byte starts; `none` is an invalid byte.
unfoldable pub lead : ℕ → Option Pending
lead b =
    if leb 0xc2 b && leb b 0xdf
    then some (record { needed = 1; lower = 0x80; upper = 0xbf; point = b - 0xc0 })
    else if leb 0xe0 b && leb b 0xef
    then some (record {
      needed = 2;
      lower = if b == 0xe0 then 0xa0 else 0x80;
      upper = if b == 0xed then 0x9f else 0xbf;
      point = b - 0xe0;
    })
    else if leb 0xf0 b && leb b 0xf4
    then some (record {
      needed = 3;
      lower = if b == 0xf0 then 0x90 else 0x80;
      upper = if b == 0xf4 then 0x8f else 0xbf;
      point = b - 0xf0;
    })
    else none

put_front : List ℕ → Option (List ℕ) → Option (List ℕ)
put_front s none = none
put_front s (some t) = some (s ++ t)

unfoldable pub decode_from : Pending → List ℕ → Option (List ℕ)
unfolding units lead put_front
decode_from p [] = if p.needed == 0 then some [] else none
decode_from p (b ∷ bytes) =
    if p.needed == 0
    then (if ltb b 0x80
        then put_front (b ∷ []) (decode_from nothing_pending bytes)
        else elim (lead b) [ none ↦ none | some q ↦ decode_from q bytes ])
    else (if leb p.lower b && leb b p.upper
        then (let point = p.point * 64 + (b - 0x80) in
            elim (p.needed == 1) [
              | true ↦ put_front (units point) (decode_from nothing_pending bytes)
              | false ↦
                  decode_from
                    (record { needed = p.needed - 1; lower = 0x80; upper = 0xbf; point = point })
                    bytes
            ])
        else none)

-- A byte order mark in front is dropped.
unfoldable pub strip_bom : List ℕ → List ℕ
strip_bom (a ∷ (b ∷ (c ∷ s))) = if a == 0xef && (b == 0xbb && c == 0xbf) then s else a ∷ b ∷ c ∷ s
strip_bom s = s

unfoldable pub decode_fatal : List ℕ → Option (List ℕ)
unfolding decode_from strip_bom
decode_fatal bytes = decode_from nothing_pending (strip_bom bytes)

unfoldable pub decode_utf8 : List ℕ → Parsed (List ℕ)
unfolding decode_fatal
decode_utf8 bytes = elim (decode_fatal bytes) [
  | none ↦ thrown (parse_error (codes "content is not valid UTF-8 text"))
  | some s ↦ returned s
]

decode_cafe : decode_utf8 (0xef ∷ 0xbb ∷ 0xbf ∷ 99 ∷ 0xc3 ∷ 0xa9 ∷ []) ≡ returned (99 ∷ 0xe9 ∷ [])
unfolding decode_utf8
decode_cafe = refl

decode_emoji : decode_fatal (0xf0 ∷ 0x9f ∷ 0x98 ∷ 0x80 ∷ []) ≡ some (0xd83d ∷ 0xde00 ∷ [])
unfolding decode_fatal
decode_emoji = refl

decode_overlong : decode_fatal (0xc0 ∷ 0x80 ∷ []) ≡ none
unfolding decode_fatal
decode_overlong = refl
