-- ===== src/Chat/Citations/Markers.antt =====
-- Which markers the expression finds, and which sources are cited for them.
use ai_support_agent_builder.Prelude.{
  ℕ, zero, suc, ◌+◌, ◌-◌, ◌≤◌, ◌<◌, List, [], ◌∷◌, ◌++◌, map, Option, none, some, true, false, ◌==◌,
  drop, take, if_elim, ◌≡◌, refl, sym, ap, subst, ==_iff, inl, inr, Bool-cases, Option-cases,
  length, drop-length_append, take-length_append, map-append, arith,
}
use ai_support_agent_builder.Text.{
  codes, span, is_digit, number, decimal, number-decimal, AllDigits, decimal-AllDigits,
  length-decimal, match_from, match_from-none, match_from-some, match_all, Found,
}
use ai_support_agent_builder.Chat.Citations.{
  closed_by, marker_behind, marker_at, cited_markers, has,
}

span-append :
    (ds : List ℕ) (c : ℕ) (s : List ℕ)
    → AllDigits ds
    → is_digit c ≡ false
    → span is_digit (ds ++ c ∷ s) ≡ length ds
unfolding span
span-append [] c s a h = rw h refl
span-append (d ∷ ds) c s (e, a) h = rw e (ap suc (span-append ds c s a h))

-- A match that starts in front of a `[` ends in front of it.
pair_size :
    {m n : ℕ} {s t : List ℕ} → ◌≡◌ {A = Option (ℕ × List ℕ)} (some (m, s)) (some (n, t)) → m ≡ n
pair_size e = cc

cons_head : {a b : ℕ} {s t : List ℕ} → a ∷ s ≡ b ∷ t → a ≡ b
cons_head e = cc

span-bracket :
    (b r : List ℕ) (c : ℕ) (rest : List ℕ)
    → drop (span is_digit (b ++ b'[' ∷ r)) (b ++ b'[' ∷ r) ≡ c ∷ rest
    → (c == b']') ≡ true
    → span is_digit (b ++ b'[' ∷ r) < length b
unfolding span is_digit
span-bracket [] r c rest h e = let f = rw (sym (cons_head h)) at e in cc
span-bracket (d ∷ b) r c rest h e = elim (Bool-cases (is_digit d)) [
  | inl q ↦ let k = rw q at h in rw q (omega (arith, span-bracket b r c rest k e))
  | inr q ↦ rw q (omega arith)
]

closed_by-some :
    (s : List ℕ) (found : Option (ℕ × List ℕ)) (n : ℕ) (t : List ℕ)
    → closed_by s found ≡ some (n, t)
    → (c : ℕ) × (rest : List ℕ) × (s ≡ c ∷ rest) × ((c == b']') ≡ true) × (found ≡ some (n, t))
unfolding closed_by
closed_by-some [] found n t = λ h. absurd (cc)
closed_by-some (c ∷ rest) found n t =
    if_elim
      (λ o.
        o ≡ some (n, t)
        → (d : ℕ) × (more : List ℕ) × (c ∷ rest ≡ d ∷ more)
          × ((d == b']') ≡ true)
          × (found ≡ some (n, t)))
      (c == b']') found none (λ e h. (c, rest, refl, e, h)) (λ e h. absurd (cc))

closed-size :
    (b r : List ℕ) (n : ℕ) (t : List ℕ)
    → closed_by (drop (span is_digit (b ++ b'[' ∷ r)) (b ++ b'[' ∷ r)) (
        some
          (span is_digit (b ++ b'[' ∷ r) + 2, take (span is_digit (b ++ b'[' ∷ r)) (b ++ b'[' ∷ r)))
      ≡ some (n, t)
    → n ≤ suc (length b)
closed-size b r n t h =
    let (c, rest, shown, e, found) = closed_by-some _ _ n t h in
    omega (arith, span-bracket b r c rest shown e, pair_size found)

marker_behind-size :
    (b r : List ℕ) (n : ℕ) (t : List ℕ)
    → marker_behind (b ++ b'[' ∷ r) ≡ some (n, t)
    → n ≤ suc (length b)
unfolding marker_behind
marker_behind-size b r n t =
    if_elim (λ o. o ≡ some (n, t) → n ≤ suc (length b)) (span is_digit (b ++ b'[' ∷ r) == 0) _ _
      (λ e h. cc) (λ e h. omega (arith, closed-size b r n t h))

-- A run of digits in brackets is a match at its place, with the digits taken.
marker_at-decimal :
    (ds r : List ℕ)
    → AllDigits ds
    → 1 ≤ length ds
    → marker_at (b'[' ∷ (ds ++ b']' ∷ r)) ≡ some (length ds + 2, ds)
unfolding marker_at marker_behind
marker_at-decimal ds r a h =
    rw
      (
        span-append ds b']' r a refl,
        drop-length_append ds (b']' ∷ r),
        take-length_append ds (b']' ∷ r),
      )
      (if_elim (λ o. o ≡ some (length ds + 2, ds)) (length ds == 0) _ _
        (λ e. absurd (omega (arith, (==_iff (length ds) 0).0 e))) (λ e. refl))

marker_at-size :
    (c : ℕ) (b r : List ℕ) (n : ℕ) (t : List ℕ)
    → marker_at (c ∷ (b ++ b'[' ∷ r)) ≡ some (n, t)
    → n ≤ suc (length b)
unfolding marker_at
marker_at-size c b r n t =
    if_elim (λ o. o ≡ some (n, t) → n ≤ suc (length b)) (c == b'[') _ _
      (λ e h. marker_behind-size b r n t h) (λ e h. absurd (cc))

abbrev Reaches : List ℕ → List (Found (List ℕ)) → Type 0
Reaches s found =
    (p : ℕ) × (before : List (Found (List ℕ))) × (found
      ≡ before ++ match_from marker_at 0 p (b'[' ∷ s))

Reaches-cons :
    (s : List ℕ) (x : Found (List ℕ)) (found : List (Found (List ℕ)))
    → Reaches s found
    → Reaches s (x ∷ found)
Reaches-cons s x found (p, before, e) = (p, x ∷ before, ap (λ l. x ∷ l) e)

-- No match runs over the bracket that opens another.
match_from-Reaches :
    (b s : List ℕ) (skip pos : ℕ)
    → skip ≤ length b
    → Reaches s (match_from marker_at skip pos (b ++ b'[' ∷ s))
unfolding match_from
match_from-Reaches [] s zero pos h = (pos, [], refl)
match_from-Reaches [] s (suc skip) pos h = absurd (omega arith)
match_from-Reaches (c ∷ b) s (suc skip) pos h = match_from-Reaches b s skip (suc pos) (omega arith)
match_from-Reaches (c ∷ b) s zero pos h = elim (Option-cases (marker_at (c ∷ (b ++ b'[' ∷ s)))) [
  | inl e ↦
      subst (Reaches s) (sym (match_from-none marker_at pos c (b ++ b'[' ∷ s) e))
        (match_from-Reaches b s 0 (suc pos) (omega arith))
  | inr ((n, t), e) ↦
      subst (Reaches s) (sym (match_from-some marker_at pos c (b ++ b'[' ∷ s) n t e)) (
        Reaches-cons s _ _
          (match_from-Reaches b s (n - 1) (suc pos) (omega (arith, marker_at-size c b s n t e))))
]

has-append_right : (ms ns : List ℕ) (n : ℕ) → has ns n ≡ true → has (ms ++ ns) n ≡ true
unfolding has
has-append_right [] ns n h = h
has-append_right (m ∷ ms) ns n h = elim (Bool-cases (m == n)) [
  | inl e ↦ rw e refl
  | inr e ↦ rw e (has-append_right ms ns n h)
]

has-here :
    (s : List ℕ) (p n : ℕ)
    → has (map (λ m. number m.taken) (match_from marker_at 0 p (b'[' ∷ (decimal n ++ b']' ∷ s)))) n
      ≡ true
unfolding has
has-here s p n =
    subst (λ l. has (map (λ m. number m.taken) l) n ≡ true)
      (sym (
        match_from-some marker_at p b'[' (decimal n ++ b']' ∷ s) (length (decimal n) + 2)
          (decimal n) (marker_at-decimal (decimal n) s (decimal-AllDigits n) (length-decimal n))))
      (rw (number-decimal n, (==_iff n n).1 refl) refl)

-- A source number in brackets is found wherever it stands in an answer, whatever surrounds it.
pub cited_markers-finds :
    (before after : List ℕ) (n : ℕ)
    → has (cited_markers (before ++ (codes "[" ++ (decimal n ++ (codes "]" ++ after))))) n ≡ true
unfolding cited_markers match_all
cited_markers-finds before after n =
    let (p, found, e) = match_from-Reaches before (decimal n ++ b']' ∷ after) 0 0 (omega arith) in
    subst (λ l. has (map (λ m. number m.taken) l) n ≡ true) (sym e)
      (subst (λ l. has l n ≡ true) (sym (map-append (λ m. number m.taken) found _))
        (has-append_right (map (λ m. number m.taken) found) _ n (has-here after p n)))
