-- ===== src/Admin/Playground/Stream.antt =====
-- From the frames that `POST /chat` writes to the page that reads them.
use ai_support_agent_builder.Prelude.{
  ℕ, List, [], ◌∷◌, ◌++◌, Option, some, Bool, ◌≡◌, refl, sym, ap, ◌∙◌,
}
use ai_support_agent_builder.Text.{codes, equals}
use ai_support_agent_builder.Parsing.Assemble.Anchors.{All}
use ai_support_agent_builder.Chat.Citations.{Citation}
use ai_support_agent_builder.Chat.Route.{Frame, ping, token, done, error}
use ai_support_agent_builder.Admin.Sse.{
  SseFrame, Parsed, parse_sse_frames, read_stream, with_frames, sse,
}
use ai_support_agent_builder.Admin.Sse as Sse
use ai_support_agent_builder.Admin.Sse.Chunks.{concat, read_stream-concat}
use ai_support_agent_builder.Admin.Sse.RoundTrip.{
  OneLine, parse_sse_frames-sse, parse_sse_frames-ping,
}
use ai_support_agent_builder.Admin.Playground.{
  Page, Reading, Json, on_frame, on_frames, read_loop, run_chat, chunks, cleared, on_token, on_done,
}

-- The texts of the frames: `JSON.stringify`.
pub record Texts : Type 0 where
  pub of_token : List ℕ → List ℕ
  pub of_done : Bool → List Citation → List ℕ
  pub of_error : List ℕ → Option Bool → List ℕ

module _ (texts : Texts) where
  -- What is written for a frame.
  abbrev pub written_frame : Frame → List ℕ
  written_frame ping = Sse.ping
  written_frame (token t) = sse (codes "token") (texts.of_token t)
  written_frame (done g cs) = sse (codes "done") (texts.of_done g cs)
  written_frame (error m r) = sse (codes "error") (texts.of_error m r)

  abbrev pub written : List Frame → List ℕ
  written [] = []
  written (f ∷ fs) = written_frame f ++ written fs

  -- The text of the frame has no line terminator, and is read back as what it was written for.
  abbrev pub IsReadable : Json → Frame → Type 0
  IsReadable json ping = Unit
  IsReadable json (token t) =
      OneLine (texts.of_token t) × (json.parse_token (texts.of_token t) ≡ some t)
  IsReadable json (done g cs) =
      OneLine (texts.of_done g cs) × (json.parse_done (texts.of_done g cs) ≡ some (g, cs))
  IsReadable json (error m r) = OneLine (texts.of_error m r)

-- What a frame is meant to do to the page.
abbrev pub shown_frame : Frame → Page → Page
shown_frame ping page = page
shown_frame (token t) page = record page { answer = page.answer ++ t }
shown_frame (done g cs) page = record page { grounded = some g; citations = cs }
shown_frame (error m r) page = record page { answer_err = some (codes "Generation failed.") }

abbrev pub shown : List Frame → Page → Page
shown [] page = page
shown (f ∷ fs) page = shown fs (shown_frame f page)

-- The loop applies the frames of the whole stream.
on_frames-append :
    (json : Json) (fs gs : List SseFrame) (r : Reading)
    → on_frames json (fs ++ gs) r ≡ on_frames json gs (on_frames json fs r)
unfolding on_frames
on_frames-append json [] gs r = refl
on_frames-append json (f ∷ fs) gs r = on_frames-append json fs gs (on_frame json f r)

read_loop-frames :
    (json : Json) (buffer : List ℕ) (cs : List (List ℕ)) (r : Reading)
    → read_loop json buffer cs r ≡ on_frames json (read_stream buffer cs).frames r
unfolding read_loop read_stream on_frames
read_loop-frames json buffer [] r = refl
read_loop-frames json buffer (chunk ∷ cs) r =
    let p = parse_sse_frames (buffer ++ chunk) in
    read_loop-frames json p.rest cs (on_frames json p.frames r)
    ∙ sym (on_frames-append json p.frames (read_stream p.rest cs).frames r)

-- The reading that has shown what it has read.
abbrev reading : Page → Reading
reading page = record { acc = page.answer; page = page }

module _ (texts : Texts) (json : Json) where
  -- The events of the frames.
  abbrev events : List Frame → List SseFrame
  events [] = []
  events (ping ∷ fs) = events fs
  events (token t ∷ fs) = record { event = codes "token"; content = texts.of_token t } ∷ events fs
  events (done g cs ∷ fs) =
      record { event = codes "done"; content = texts.of_done g cs } ∷ events fs
  events (error m r ∷ fs) =
      record { event = codes "error"; content = texts.of_error m r } ∷ events fs

  token-OneLine : OneLine (codes "token")
  unfolding ai_support_agent_builder.Admin.Sse.is_line_terminator
  token-OneLine = (refl, (refl, (refl, (refl, (refl, tt)))))

  done-OneLine : OneLine (codes "done")
  unfolding ai_support_agent_builder.Admin.Sse.is_line_terminator
  done-OneLine = (refl, (refl, (refl, (refl, tt))))

  error-OneLine : OneLine (codes "error")
  unfolding ai_support_agent_builder.Admin.Sse.is_line_terminator
  error-OneLine = (refl, (refl, (refl, (refl, (refl, tt)))))

  parse_sse_frames-written :
      (fs : List Frame)
      → All (IsReadable texts json) fs
      → (parse_sse_frames (written texts fs)).frames ≡ events fs
  unfolding parse_sse_frames
  parse_sse_frames-written [] a = refl
  parse_sse_frames-written (ping ∷ fs) (u, a) =
      ap (λ p. p.frames) (parse_sse_frames-ping (written texts fs)) ∙ parse_sse_frames-written fs a
  parse_sse_frames-written (token t ∷ fs) ((u, e), a) =
      ap (λ p. p.frames)
        (parse_sse_frames-sse (codes "token") (texts.of_token t) (written texts fs) token-OneLine u)
      ∙ ap (λ es. record { event = codes "token"; content = texts.of_token t } ∷ es)
          (parse_sse_frames-written fs a)
  parse_sse_frames-written (done g cs ∷ fs) ((u, e), a) =
      ap (λ p. p.frames)
        (parse_sse_frames-sse (codes "done") (texts.of_done g cs) (written texts fs) done-OneLine u)
      ∙ ap (λ es. record { event = codes "done"; content = texts.of_done g cs } ∷ es)
          (parse_sse_frames-written fs a)
  parse_sse_frames-written (error m r ∷ fs) (u, a) =
      ap (λ p. p.frames)
        (parse_sse_frames-sse (codes "error") (texts.of_error m r) (written texts fs) error-OneLine
          u)
      ∙ ap (λ es. record { event = codes "error"; content = texts.of_error m r } ∷ es)
          (parse_sse_frames-written fs a)

  on_frames-shown :
      (fs : List Frame) (page : Page)
      → All (IsReadable texts json) fs
      → on_frames json (events fs) (reading page) ≡ reading (shown fs page)
  unfolding on_frames on_frame equals
  on_frames-shown [] page a = refl
  on_frames-shown (ping ∷ fs) page (u, a) = on_frames-shown fs page a
  on_frames-shown (token t ∷ fs) page ((u, e), a) =
      ap (λ o. on_frames json (events fs) (on_token o (reading page))) e
      ∙ on_frames-shown fs (shown_frame (token t) page) a
  on_frames-shown (done g cs ∷ fs) page ((u, e), a) =
      ap (λ o. on_frames json (events fs) (on_done o (reading page))) e
      ∙ on_frames-shown fs (shown_frame (done g cs) page) a
  on_frames-shown (error m r ∷ fs) page (u, a) = on_frames-shown fs (shown_frame (error m r) page) a

  -- Where the JSON texts of the frames are read back as they were written, and have no line
  -- terminator: however the stream of these frames is cut into chunks, the page ends with the
  -- tokens of the stream, in order, as its answer, with the citations and the verdict of its last
  -- `done` frame, and with an error where there is an `error` frame.
  pub run_chat-shown :
      (fs : List Frame) (cs : List (List ℕ)) (page : Page)
      → All (IsReadable texts json) fs
      → concat cs ≡ written texts fs
      → run_chat json (chunks cs) page ≡ shown fs (cleared json page)
  unfolding run_chat
  run_chat-shown fs cs page a whole =
      let start = reading (cleared json page) in
      ap (λ r. r.page)
        (read_loop-frames json [] cs start
          ∙ ap (λ p. on_frames json p.frames start)
              (read_stream-concat cs ∙ ap parse_sse_frames whole)
          ∙ ap (λ es. on_frames json es start) (parse_sse_frames-written fs a)
          ∙ on_frames-shown fs (cleared json page) a)
