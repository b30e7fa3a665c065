-- ===== src/RateLimit.antt =====
-- api/src/ratelimit: the token bucket that runs inside Redis (redis-rate-limiter.ts), and the
-- middleware of api/src/middleware/rate-limit.ts.
--
-- The script computes in doubles and stores the tokens with `tostring`, in 14 digits; its numbers
-- are exact here, without that rounding: the refill rate is the
-- fraction `refill_num / refill_den` tokens a second, and all amounts are counted in units of
-- 1 / (1000 * refill_den) token, so that a millisecond refills `refill_num` units.
pub mod Window
use ai_support_agent_builder.Prelude.{
  ℕ, zero, suc, ◌+◌, ◌-◌, ◌*◌, ◌/◌, ◌<◌, List, [], ◌∷◌, Bool, true, false, Option, none, some, leb,
  min, if◌then◌else◌,
}

pub record Limits : Type 0 where
  pub capacity : ℕ
  pub refill_num : ℕ
  pub refill_den : ℕ

-- The units of one token.
unfoldable pub token : Limits → ℕ
token l = 1000 * l.refill_den

unfoldable pub full : Limits → ℕ
unfolding token
full l = l.capacity * token l

-- `math.ceil(a / b)`
unfoldable pub ceil_div : ℕ → ℕ → ℕ
ceil_div a b = (a + b - 1) / b

-- The hash at the key, and when it expires.
pub record Bucket : Type 0 where
  pub tokens : ℕ
  pub ts : ℕ
  pub expires_at : ℕ

-- `{allowed, retry}`
pub record RateLimitResult : Type 0 where
  pub allowed : Bool
  pub retry_after_sec : ℕ

-- Redis drops a key once it has expired.
unfoldable pub live : Option Bucket → ℕ → Option Bucket
live none now = none
live (some b) now = if leb b.expires_at now then none else some b

module _ (l : Limits) where
  -- `tokens` after the refill.
  unfoldable pub refilled : Option Bucket → ℕ → ℕ
  unfolding full
  refilled none now = min (full l) (full l + 0 * l.refill_num)
  refilled (some b) now = min (full l) (b.tokens + (now - b.ts) * l.refill_num)

  -- `math.ceil(cap / refill * 1000) + 1000` milliseconds.
  unfoldable pub lifetime : ℕ
  unfolding ceil_div
  lifetime = ceil_div (l.capacity * 1000 * l.refill_den) l.refill_num + 1000

  unfoldable pub stored : ℕ → ℕ → Bucket
  stored tokens now = record { tokens = tokens; ts = now; expires_at = now + lifetime }

  -- The test and the writes, for the tokens after the refill.
  unfoldable pub take_token : ℕ → ℕ → Bucket × RateLimitResult
  unfolding stored token ceil_div
  take_token tokens now =
      if leb (token l) tokens
      then (stored (tokens - token l) now, record { allowed = true; retry_after_sec = 0 })
      else (
        stored tokens now,
        record {
          allowed = false;
          retry_after_sec = ceil_div (token l - tokens) (1000 * l.refill_num);
        },
      )

  -- The script, with a cost of one token.
  unfoldable pub consume : Option Bucket → ℕ → Bucket × RateLimitResult
  unfolding take_token live refilled
  consume found now = take_token (refilled (live found now) now) now

  -- A sequence of calls, by their times, and how many were allowed.
  unfoldable pub count_allowed : Option Bucket → List ℕ → ℕ
  unfolding consume
  count_allowed found [] = 0
  count_allowed found (now ∷ times) =
      let (b, r) = consume found now in
      let rest = count_allowed (some b) times in if r.allowed then suc rest else rest

-- What the middleware does with a request.
pub data RateDecision : Type 0 where
  next : RateDecision
  too_many : ℕ → RateDecision

-- The limiter's result, or its error (`none`), for which the middleware fails open.
unfoldable pub rate_limit : Option RateLimitResult → RateDecision
rate_limit none = next
rate_limit (some r) = if r.allowed then next else too_many r.retry_after_sec
