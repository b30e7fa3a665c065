-- ===== src/RateLimit/Window.antt =====
-- How many calls the bucket allows in a stretch of time.
use native.Mathlib.Nat.{div-add-mod, mod-lt, add-mul, mul-le-mul_right}
use ai_support_agent_builder.Prelude.{
  ℕ, ◌+◌, ◌-◌, ◌*◌, ◌≤◌, ◌<◌, List, [], ◌∷◌, ◌≡◌, refl, ◌⊎◌, inl, inr, Bool-cases, sym, ap, ◌∙◌,
  true, false, Option, none, some, arith, leb, if_elim,
}
use ai_support_agent_builder.RateLimit.{
  Limits, token, full, ceil_div, Bucket, RateLimitResult, live, refilled, lifetime, stored,
  take_token, consume, count_allowed,
}

pub ceil_div-le : (a b : ℕ) → 0 < b → a ≤ ceil_div a b * b
unfolding ceil_div
ceil_div-le a b h = grind (arith, div-add-mod (a + b - 1) b, mod-lt (a + b - 1) h)

-- The times do not fall, from `from` on, and end at `to` at the latest.
abbrev pub InWindow : ℕ → List ℕ → ℕ → Type 0
InWindow from [] to = from ≤ to
InWindow from (t ∷ ts) to = (from ≤ t) × InWindow t ts to

InWindow-le : (from : ℕ) (ts : List ℕ) (to : ℕ) → InWindow from ts to → from ≤ to
InWindow-le from [] to h = h
InWindow-le from (t ∷ ts) to (a, h) = omega (arith, InWindow-le t ts to h)

spans_add : (a b c r : ℕ) → a ≤ b → b ≤ c → (b - a) * r + (c - b) * r ≡ (c - a) * r
spans_add a b c r h k = sym (add-mul (b - a) (c - b) r) ∙ ap (λ (n : ℕ). n * r) (omega arith)

module _ (l : Limits) (positive : 0 < l.refill_num) where
  -- A bucket that the script has written.
  abbrev pub IsStored : Bucket → Type 0
  IsStored b = b.expires_at ≡ b.ts + lifetime l

  lifetime_fills : full l ≤ lifetime l * l.refill_num
  unfolding lifetime full token
  lifetime_fills = grind (arith, ceil_div-le (l.capacity * 1000 * l.refill_den) l.refill_num)

  -- Redis drops a bucket no sooner than it is full again: whether the key has expired or not, the
  -- script goes on from the same number of tokens.
  pub refilled-live :
      (b : Bucket) (now : ℕ)
      → IsStored b
      → refilled l (live (some b) now) now ≡ refilled l (some b) now
  unfolding refilled live
  refilled-live b now stored =
      if_elim (λ found. refilled l found now ≡ refilled l (some b) now) (leb b.expires_at now) none
        (some b)
        (λ expired.
          let long : lifetime l * l.refill_num ≤ (now - b.ts) * l.refill_num =
            mul-le-mul_right l.refill_num (ground arith) in
          omega (arith, lifetime_fills))
        (λ _. refl)

  refilled-le :
      (b : Bucket) (now : ℕ) → refilled l (some b) now ≤ b.tokens + (now - b.ts) * l.refill_num
  unfolding refilled
  refilled-le b now = omega arith

  refilled-le-full : (found : Option Bucket) (now : ℕ) → refilled l found now ≤ full l
  unfolding refilled
  refilled-le-full none now = omega arith
  refilled-le-full (some b) now = omega arith

  -- One call: what it allows is taken from the tokens.
  pub consume-tokens :
      (found : Option Bucket) (now : ℕ)
      → ((consume l found now).1.allowed ≡ true)
          × ((consume l found now).0.tokens + token l ≡ refilled l (live found now) now)
        ⊎ ((consume l found now).1.allowed ≡ false)
          × ((consume l found now).0.tokens ≡ refilled l (live found now) now)
  unfolding consume take_token stored
  consume-tokens found now = elim (Bool-cases (leb (token l) (refilled l (live found now) now))) [
    | inl enough ↦ rw enough (inl (refl, ground arith))
    | inr short ↦ rw short (inr (refl, refl))
  ]

  pub consume-IsStored :
      (found : Option Bucket) (now : ℕ)
      → ((consume l found now).0.ts ≡ now) × IsStored (consume l found now).0
  unfolding consume take_token stored
  consume-IsStored found now =
      if_elim (λ (r : Bucket × RateLimitResult). (r.0.ts ≡ now) × IsStored r.0)
        (leb (token l) (refilled l (live found now) now)) _ _ (λ _. (refl, refl))
        (λ _. (refl, refl))

  abbrev StoredBound : List ℕ → ℕ → Type 0
  StoredBound times to =
      (b : Bucket)
      → IsStored b
      → InWindow b.ts times to
      → count_allowed l (some b) times * token l ≤ b.tokens + (to - b.ts) * l.refill_num

  -- A call and those behind it, by the tokens that the call finds.
  call-le :
      (found : Option Bucket) (now : ℕ) (times : List ℕ) (to : ℕ)
      → StoredBound times to
      → InWindow now times to
      → count_allowed l found (now ∷ times) * token l
        ≤ refilled l (live found now) now + (to - now) * l.refill_num
  unfolding count_allowed
  call-le found now times to ih w =
      let b = (consume l found now).0 in
      let (at_now, stored) = consume-IsStored found now in
      let rest = ih b stored (rw at_now w) in
      let same : (to - b.ts) * l.refill_num ≡ (to - now) * l.refill_num =
        ap (λ (t : ℕ). (to - t) * l.refill_num) at_now in
      elim (consume-tokens found now) [
        | inl (yes_call, taken) ↦ rw yes_call (omega (arith, rest, same, taken))
        | inr (no_call, kept) ↦ rw no_call (omega (arith, rest, same, kept))
      ]

  count_allowed-stored : (times : List ℕ) (to : ℕ) → StoredBound times to
  unfolding count_allowed
  count_allowed-stored [] to b stored w = omega arith
  count_allowed-stored (now ∷ times) to b stored (a, w) =
      let bound = call-le (some b) now times to (count_allowed-stored times to) w in
      omega (
        arith,
        bound,
        refilled-live b now stored,
        refilled-le b now,
        spans_add b.ts now to l.refill_num a (InWindow-le now times to w),
      )

  -- Whatever the bucket holds, the calls allowed in a stretch of time, while the clock does not go
  -- back, are at most the capacity and what is refilled in that time: in units of a token's
  -- fraction, allowed * token ≤ full + (to - from) * refill.
  pub count_allowed-le :
      (found : Option Bucket) (from : ℕ) (times : List ℕ) (to : ℕ)
      → InWindow from times to
      → count_allowed l found times * token l ≤ full l + (to - from) * l.refill_num
  unfolding count_allowed
  count_allowed-le found from [] to w = omega arith
  count_allowed-le found from (now ∷ times) to (a, w) =
      let bound = call-le found now times to (count_allowed-stored times to) w in
      omega (
        arith,
        bound,
        refilled-le-full (live found now) now,
        spans_add from now to l.refill_num a (InWindow-le now times to w),
      )
