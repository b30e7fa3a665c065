-- ===== src/Admin/Sse.antt =====
-- admin/lib/sse.ts: the frames of an event stream, from a buffer that grows. With `sse` of
-- api/src/routes/chat.ts, which writes them.
pub mod Chunks
pub mod RoundTrip
use ai_support_agent_builder.Prelude.{
  ℕ, zero, suc, List, [], ◌∷◌, ◌++◌, Option, none, some, Bool, true, false, ◌&&◌, ◌||◌,
  if◌then◌else◌, ◌==◌, drop, length, ◌≡◌, refl,
}
use ai_support_agent_builder.Text.{codes, starts_with}

pub record SseFrame : Type 0 where
  pub event : List ℕ
  pub content : List ℕ

pub record Parsed : Type 0 where
  pub frames : List SseFrame
  pub rest : List ℕ

abbrev pub newline : ℕ
newline = 10

abbrev pub cons_left {ℓ} : {B : Type ℓ} → ℕ → Option (List ℕ × B) → Option (List ℕ × B)
cons_left c none = none
cons_left c (some (s, b)) = some (c ∷ s, b)

-- `indexOf('\n\n')` with the two slices: what stands in front of the blank line, and behind it.
unfoldable pub break_at : List ℕ → Option (List ℕ × List ℕ)
break_at [] = none
break_at (c ∷ []) = none
break_at (c ∷ d ∷ s) =
    let later = cons_left c (break_at (d ∷ s)) in
    if c == newline && d == newline then some ([], s) else later

-- What `.` does not match.
unfoldable pub is_line_terminator : ℕ → Bool
is_line_terminator c = c == 10 || c == 13 || c == 0x2028 || c == 0x2029

-- `(.*)`
unfoldable pub line_of : List ℕ → List ℕ
unfolding is_line_terminator
line_of [] = []
line_of (c ∷ s) = let rest = line_of s in if is_line_terminator c then [] else c ∷ rest

-- The first match of `/(?:^|\n)name(.*)/`; the flag is set where a name may stand: at the start, and
-- behind each newline.
unfoldable pub field_from : List ℕ → Bool → List ℕ → Option (List ℕ)
unfolding starts_with line_of
field_from name bol [] = none
field_from name bol (c ∷ s) =
    let later = field_from name (c == newline) s in
    if bol && starts_with (c ∷ s) name then some (line_of (drop (length name) (c ∷ s))) else later

abbrev pub or_default : List ℕ → Option (List ℕ) → List ℕ
or_default value none = value
or_default value (some s) = s

unfoldable pub frame_of : List ℕ → SseFrame
unfolding field_from
frame_of raw = record {
  event = or_default (codes "message") (field_from (codes "event: ") true raw);
  content = or_default [] (field_from (codes "data: ") true raw);
}

-- The frames of one raw block: none where it is a comment.
unfoldable pub frames_of : List ℕ → List SseFrame
unfolding starts_with frame_of
frames_of raw = if starts_with raw (codes ":") then [] else frame_of raw ∷ []

abbrev pub with_frames : List SseFrame → Parsed → Parsed
with_frames frames p = record { frames = frames ++ p.frames; rest = p.rest }

-- The `while` loop, on as many rounds as the buffer has units.
unfoldable pub parse_loop : ℕ → List ℕ → Parsed
unfolding break_at frames_of
parse_loop zero buffer = record { frames = []; rest = buffer }
parse_loop (suc rounds) buffer = elim (break_at buffer) [
  | none ↦ record { frames = []; rest = buffer }
  | some (raw, behind) ↦ with_frames (frames_of raw) (parse_loop rounds behind)
]

unfoldable pub parse_sse_frames : List ℕ → Parsed
unfolding parse_loop
parse_sse_frames buffer = parse_loop (length buffer) buffer

-- The reader's loop over the chunks of the response body (admin/app/playground/page.tsx), with the
-- buffer that it carries.
unfoldable pub read_stream : List ℕ → List (List ℕ) → Parsed
unfolding parse_sse_frames
read_stream buffer [] = record { frames = []; rest = buffer }
read_stream buffer (chunk ∷ chunks) =
    let p = parse_sse_frames (buffer ++ chunk) in with_frames p.frames (read_stream p.rest chunks)

-- `sse(event, data)`, with the text of the data.
unfoldable pub sse : List ℕ → List ℕ → List ℕ
sse event text =
    codes "event: " ++ (event ++ (newline ∷ (codes "data: " ++ (text ++ (newline ∷ newline ∷ [])))))

-- The heartbeat.
abbrev pub ping : List ℕ
ping = codes ": ping\n\n"

two_frames :
    parse_sse_frames (codes "event: token\ndata: {}\n\n: ping\n\ndata: x\ndata: y\n\nevent: d")
    ≡ record {
      frames =
          record { event = codes "token"; content = codes "{}" }
          ∷ record { event = codes "message"; content = codes "x" }
          ∷ [];
      rest = codes "event: d";
    }
unfolding parse_sse_frames
two_frames = refl
