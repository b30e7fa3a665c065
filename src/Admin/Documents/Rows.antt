-- ===== src/Admin/Documents/Rows.antt =====
-- What the streams do to the rows of the page.
use ai_support_agent_builder.Prelude.{
  ℕ, List, [], ◌∷◌, ◌++◌, keep, none, some, Bool, true, false, not, if_elim, ◌≡◌, refl, sym, ap,
  ◌∙◌, Bool-cases, inl, inr,
}
use ai_support_agent_builder.Text.{equals, equals_iff}
use ai_support_agent_builder.Ingest.Rows.{keep-keep-other, keep-update_rows-other}
use ai_support_agent_builder.Admin.Documents.{
  Page, UploadItem, Stream, StreamEvent, status_event, done_event, timeout_event, error_event,
  has_key, patch, close, on_event, on_events, lost, is_terminal_status,
}

-- What the page has under a key: the rows and the streams.
pub record Held : Type 0 where
  pub items : List UploadItem
  pub streams : List Stream

unfoldable pub held : List ℕ → Page → Held
held key page = record {
  items = keep (has_key key) page.items;
  streams = keep (λ s. equals s.key key) page.streams;
}

apart :
    (key other s : List ℕ) → equals key other ≡ false → equals s other ≡ true → equals s key ≡ false
apart key other s differs h = elim (Bool-cases (equals s key)) [
  | inl e ↦
      let a = (equals_iff s key).0 e in
      let b = (equals_iff s other).0 h in
      let c = (equals_iff key other).1 (sym a ∙ b) in absurd (cc)
  | inr e ↦ e
]

keep-gone {ℓ} :
    {A : Type ℓ} (test : A → Bool) (rows : List A) → keep test (keep (λ a. not (test a)) rows) ≡ []
unfolding keep
keep-gone test [] = refl
keep-gone test (a ∷ rows) = elim (Bool-cases (test a)) [
  | inl e ↦ rw e (keep-gone test rows)
  | inr e ↦ rw (e, e) (keep-gone test rows)
]

module _ (key other : List ℕ) (differs : equals key other ≡ false) where
  patch-held :
      (change : UploadItem → UploadItem) (page : Page)
      → ((it : UploadItem) → (change it).key ≡ it.key)
      → held other (patch key change page) ≡ held other page
  unfolding held patch
  patch-held change page same =
      ap (λ l. record { items = l; streams = (held other page).streams })
        (keep-update_rows-other (has_key key) (has_key other)
          (λ it h. apart key other it.key differs h) change
          (λ it. ap (λ k. equals k other) (same it)) page.items)

  close-held : (page : Page) → held other (close key page) ≡ held other page
  unfolding held close
  close-held page =
      ap (λ l. record { items = (held other page).items; streams = l })
        (keep-keep-other (λ (s : Stream). equals s.key key) (λ s. equals s.key other)
          (λ s h. apart key other s.key differs h) page.streams)

  drop-held :
      (page : Page)
      → held other (record page { items = keep (λ it. not (has_key key it)) page.items })
        ≡ held other page
  unfolding held
  drop-held page =
      ap (λ l. record { items = l; streams = (held other page).streams })
        (keep-keep-other (has_key key) (has_key other) (λ it h. apart key other it.key differs h)
          page.items)

  lost-key : (b : Bool) (it : UploadItem) → (lost b it).key ≡ it.key
  lost-key b it =
      if_elim (λ (i : UploadItem). i.key ≡ it.key) (is_terminal_status it.status) _ _ (λ e. refl)
        (λ e. refl)

  on_event-held :
      (e : StreamEvent) (page : Page) → held other (on_event key e page) ≡ held other page
  unfolding on_event
  on_event-held (status_event none) page = refl
  on_event-held (status_event (some (status, error))) page = patch-held _ page (λ it. refl)
  on_event-held done_event page = drop-held (close key page) ∙ close-held page
  on_event-held timeout_event page = close-held _ ∙ patch-held _ page (λ it. refl)
  on_event-held (error_event b) page = close-held _ ∙ patch-held (lost b) page (λ it. lost-key b it)

  -- Whatever the stream of one row sends, the rows with other keys and their streams stay as they
  -- are.
  pub on_events-held :
      (es : List StreamEvent) (page : Page) → held other (on_events key es page) ≡ held other page
  unfolding on_events
  on_events-held [] page = refl
  on_events-held (e ∷ es) page = on_events-held es (on_event key e page) ∙ on_event-held e page

on_event-done :
    (key : List ℕ) (page : Page)
    → held key (on_event key done_event page) ≡ record { items = []; streams = [] }
unfolding held on_event close
on_event-done key page =
    ap (λ l. record { items = l; streams = keep (λ s. equals s.key key) (close key page).streams })
      (keep-gone (has_key key) page.items)
    ∙ ap (λ l. record { items = []; streams = l })
        (keep-gone (λ (s : Stream). equals s.key key) page.streams)

-- When the stream of a row ends with `done`, the row is gone and its stream is closed, whatever came
-- before: a row whose document has failed, too, with its message and its offer to retry.
pub on_events-done :
    (key : List ℕ) (es : List StreamEvent) (page : Page)
    → held key (on_events key (es ++ done_event ∷ []) page) ≡ record { items = []; streams = [] }
unfolding on_events
on_events-done key [] page = on_event-done key page
on_events-done key (e ∷ es) page = on_events-done key es (on_event key e page)
