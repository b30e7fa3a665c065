-- ===== src/Retry/Ends.antt =====
-- Where the loop of `withRetry` ends, with what outcome and after which delays.
use ai_support_agent_builder.Prelude.{
  ℕ, zero, suc, ◌+◌, ◌-◌, ◌*◌, ◌^◌, ◌≤◌, ◌<◌, List, [], ◌∷◌, ◌≡◌, refl, ap, ◌⊎◌, inl, inr, subst,
  true, false, not, Option, none, some, arith, ◌==◌, Bool-cases, if_elim,
}
use ai_support_agent_builder.Retry.{
  Call, value, throws, Outcome, returns, rejects, Run, Task, after_sleep, attempt_from, with_retry,
}

-- The delays behind the attempts from `attempt` to below the last.
abbrev pub delays : ℕ → ℕ → ℕ → List ℕ
delays base attempt zero = []
delays base attempt (suc n) = base * 2 ^ (attempt - 1) ∷ delays base (attempt + 1) n

module _ {ℓ} {E A : Type ℓ} where
  -- The attempt failed, and its error is worth a retry.
  abbrev pub Retries : Task E A → ℕ → Type ℓ
  Retries t k = (err : E) × (t.fn k ≡ throws err) × (t.should_retry err ≡ true)

  -- Why the run ends at attempt `k`, and with what.
  abbrev pub EndsWith : Task E A → ℕ → Outcome E A → Type ℓ
  EndsWith t k outcome =
      ((a : A) × (t.fn k ≡ value a) × (outcome ≡ returns a))
      ⊎ ((err : E) × (t.fn k ≡ throws err)
          × (outcome ≡ rejects (some err))
          × ((t.should_retry err ≡ false) ⊎ (k ≡ t.attempts)))

  Call-cases : (c : Call E A) → ((a : A) × (c ≡ value a)) ⊎ ((err : E) × (c ≡ throws err))
  Call-cases (value a) = inl (a, refl)
  Call-cases (throws err) = inr (err, refl)

  -- The run from `attempt` on: it ends at attempt `attempt + n`.
  pub record Ends (t : Task E A) (attempt n : ℕ) (r : Run E A) : Type ℓ where
    pub calls : r.calls ≡ attempt + n
    pub within : attempt + n ≤ t.attempts
    pub sleeps : r.sleeps ≡ delays t.base_delay_ms attempt n
    pub before : (j : ℕ) → attempt ≤ j → j < attempt + n → Retries t j
    pub last : EndsWith t (attempt + n) r.outcome

  Ends-now :
      (t : Task E A) (attempt : ℕ) (r : Run E A)
      → attempt ≤ t.attempts
      → r.calls ≡ attempt
      → r.sleeps ≡ []
      → EndsWith t attempt r.outcome
      → (n : ℕ) × Ends t attempt n r
  Ends-now t attempt r h c s e = (
    0,
    record {
      calls = omega arith;
      within = omega arith;
      sleeps = s;
      before = λ j a b. absurd (omega arith);
      last = subst (λ (k : ℕ). EndsWith t k r.outcome) (omega arith) e;
    },
  )

  Ends-later :
      (t : Task E A) (attempt : ℕ) (r : Run E A)
      → Retries t attempt
      → (n : ℕ) × Ends t (attempt + 1) n r
      → (n : ℕ) × Ends t attempt n (after_sleep (t.base_delay_ms * 2 ^ (attempt - 1)) r)
  Ends-later t attempt r f (n, e) = (
    suc n,
    record {
      calls = omega (arith, e.calls);
      within = omega (arith, e.within);
      sleeps = ap (λ s. t.base_delay_ms * 2 ^ (attempt - 1) ∷ s) e.sleeps;
      before = λ j a b. here_or_later j a b;
      last = subst (λ (k : ℕ). EndsWith t k r.outcome) (omega arith) e.last;
    },
  )
    where
      here_or_later : (j : ℕ) → attempt ≤ j → j < attempt + suc n → Retries t j
      here_or_later j a b = elim (Bool-cases (j == attempt)) [
        | inl same ↦ let p : attempt ≡ j = ground arith in subst (Retries t) p f
        | inr other ↦ e.before j (ground arith) (omega arith)
      ]

  attempt_from-Ends :
      (t : Task E A) (left attempt : ℕ) (last : Option E)
      → 0 < left
      → attempt + left ≡ t.attempts + 1
      → (n : ℕ) × Ends t attempt n (attempt_from t left attempt last)
  unfolding attempt_from
  attempt_from-Ends t zero attempt last h e = elim h [ ]
  attempt_from-Ends t (suc left) attempt last h e = elim (Call-cases (t.fn attempt)) [
    | inl (a, f) ↦
        rw (f, attempt_from)
          (Ends-now t attempt (record { outcome = returns a; sleeps = []; calls = attempt })
            (omega arith) refl refl (inl (a, f, refl)))
    | inr (err, f) ↦
        let rest = attempt_from t left (attempt + 1) (some err) in
        let stop : Run E A = record {
          outcome = rejects (some err);
          sleeps = [];
          calls = attempt;
        } in
        let P = λ (r : Run E A). (n : ℕ) × Ends t attempt n r in
        rw (f, attempt_from)
          (if_elim P (not (t.should_retry err)) stop _
            (λ permanent.
              Ends-now t attempt stop (omega arith) refl refl
                (inr (err, f, refl, inl (ground arith))))
            (λ transient.
              if_elim P (attempt == t.attempts) stop _
                (λ at_end.
                  Ends-now t attempt stop (omega arith) refl refl
                    (inr (err, f, refl, inr (ground arith))))
                (λ more.
                  Ends-later t attempt rest (err, f, ground arith)
                    (attempt_from-Ends t left (attempt + 1) (some err) (ground arith)
                      (omega arith)))))
  ]

  -- With at least one attempt allowed, the run ends at one attempt k, no later than the last one:
  -- every attempt before k failed with an error worth a retry, the delays slept are the base delay
  -- doubled for each of these, and the outcome is that of attempt k: its value, or its error, and
  -- an error only if it is permanent or k is the last attempt.
  pub with_retry-Ends : (t : Task E A) → 1 ≤ t.attempts → (n : ℕ) × Ends t 1 n (with_retry t)
  unfolding with_retry
  with_retry-Ends t h = attempt_from-Ends t t.attempts 1 none h (omega arith)
