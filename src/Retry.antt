-- ===== src/Retry.antt =====
-- api/src/util/retry.ts: retries with exponential backoff, and the error test of
-- api/src/providers/embed-errors.ts.
pub mod Ends
use ai_support_agent_builder.Prelude.{
  ℕ, zero, suc, ◌+◌, ◌-◌, ◌*◌, ◌^◌, List, [], ◌∷◌, Bool, true, false, ◌||◌, not, Option, none, some,
  leb, ◌==◌, if◌then◌else◌,
}

-- What one call of `fn` ends with.
pub data Call {ℓ} (E A : Type ℓ) : Type ℓ where
  value : A → Call E A
  throws : E → Call E A

-- What `withRetry` ends with. The error is `undefined` where no attempt was made.
pub data Outcome {ℓ} (E A : Type ℓ) : Type ℓ where
  returns : A → Outcome E A
  rejects : Option E → Outcome E A

-- The outcome, the delays that were slept, in order, and the calls that were made.
pub record Run {ℓ} (E A : Type ℓ) : Type ℓ where
  pub outcome : Outcome E A
  pub sleeps : List ℕ
  pub calls : ℕ

-- `fn`, by the number of the attempt, and the options.
pub record Task {ℓ} (E A : Type ℓ) : Type ℓ where
  pub fn : ℕ → Call E A
  pub attempts : ℕ
  pub base_delay_ms : ℕ
  pub should_retry : E → Bool

module _ {ℓ} {E A : Type ℓ} where
  abbrev pub after_sleep : ℕ → Run E A → Run E A
  after_sleep ms r = record r { sleeps = ms ∷ r.sleeps }

  -- `catch (err)`; `rest` is the run from the next attempt on.
  unfoldable pub on_error : Task E A → ℕ → E → Run E A → Run E A
  on_error t attempt err rest =
      let stop : Run E A = record { outcome = rejects (some err); sleeps = []; calls = attempt } in
      if not (t.should_retry err)
      then stop
      else if attempt == t.attempts
      then stop
      else after_sleep (t.base_delay_ms * 2 ^ (attempt - 1)) rest

  -- The loop, with the rounds that are left.
  unfoldable pub attempt_from : Task E A → ℕ → ℕ → Option E → Run E A
  unfolding on_error
  attempt_from t zero attempt last = record {
    outcome = rejects last;
    sleeps = [];
    calls = attempt - 1;
  }
  attempt_from t (suc left) attempt last = elim (t.fn attempt) [
    | value a ↦ record { outcome = returns a; sleeps = []; calls = attempt }
    | throws err ↦ on_error t attempt err (attempt_from t left (attempt + 1) (some err))
  ]

  unfoldable pub with_retry : Task E A → Run E A
  unfolding attempt_from
  with_retry t = attempt_from t t.attempts 1 none

-- `isRetryableEmbedError`, of the `status` of the error.
unfoldable pub is_retryable_embed_error : Option ℕ → Bool
is_retryable_embed_error none = true
is_retryable_embed_error (some status) = status == 429 || leb 500 status
