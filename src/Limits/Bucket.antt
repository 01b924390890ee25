-- ===== src/Limits/Bucket.antt =====
-- VOID0000-api/server/middleware/rateLimits/tokenBucketLimiter.ts: the token bucket script, its
-- policy and its reply. Times are whole milliseconds of one clock. The floating point numbers of
-- Lua are the argument `numbers`: a value that is not negative is counted in units so small that
-- each is a whole number of them (2 ^ -1074, for a double), and each operation has its own rounding.
-- A number is stored and read back as it is. Only for whole numbers is `math.ceil(a / b)` taken to
-- be exact. The script runs as one atomic step, and a key is dropped by the store after its EXPIRE
-- time.
pub mod Potential
pub mod Rounding
pub mod Retrying
pub mod Waiting
use voidchats_note2ee.Common.{
  ℕ, zero, suc, ◌+◌, ◌-◌, ◌*◌, ◌/◌, Bool, true, false, ◌&&◌, Option, none, some, List, [], ◌∷◌, ltb,
  leb, if◌then◌else◌, ◌==◌, length, min, max,
}

-- What `Math.ceil(Number(value))` gives: `none` where it is not a finite number or is negative.
abbrev pub Ceiled : Type 0
Ceiled = Option ℕ

abbrev pub to_positive_integer : Ceiled → ℕ → ℕ
to_positive_integer none fallback = fallback
to_positive_integer (some parsed) fallback = if ltb 0 parsed then parsed else fallback

abbrev positive : List Ceiled → List ℕ
positive [] = []
positive (none ∷ values) = positive values
positive (some value ∷ values) = if ltb 0 value then value ∷ positive values else positive values

-- `none` where the policy has no array.
abbrev pub normalize_block_seconds : Option (List Ceiled) → List ℕ
normalize_block_seconds none = []
normalize_block_seconds (some values) = positive values

-- The limits of a normalized policy or dimension.
pub record Policy : Type 0 where
  pub refill_window_sec : ℕ
  pub bucket_size : ℕ
  pub block_seconds : List ℕ

-- The hash that is stored under a key, with the time after which the store drops it.
pub record Bucket : Type 0 where
  pub tokens : ℕ
  pub updated_at : ℕ
  pub blocked_until : ℕ
  pub limit_hits : ℕ
  pub last_limited_at : ℕ
  pub expires : ℕ

pub record Verdict : Type 0 where
  pub allowed : Bool
  pub retry_seconds : ℕ
  pub reset_time : ℕ
  pub limit_hits : ℕ

-- The stored hash after the script, and its reply.
pub record Consumed : Type 0 where
  pub bucket : Bucket
  pub verdict : Verdict

abbrev pub window_ms : Policy → ℕ
window_ms p = p.refill_window_sec * 1000

-- `Math.ceil(a / b)` for natural numbers
unfoldable pub ceil_div : ℕ → ℕ → ℕ
ceil_div a b = (a + (b - 1)) / b

-- `ARGV[4 + index]`, from 1
abbrev pub block_at : ℕ → List ℕ → Option ℕ
block_at index [] = none
block_at zero (s ∷ blocks) = none
block_at (suc zero) (s ∷ blocks) = some s
block_at (suc (suc index)) (s ∷ blocks) = block_at (suc index) blocks

-- The limit hits are forgotten a window after the last one.
abbrev pub calmed : Policy → ℕ → Bucket → Bucket
calmed p now b =
    if ltb 0 b.last_limited_at && ltb (window_ms p) (now - b.last_limited_at)
    then record b { limit_hits = 0; last_limited_at = 0 }
    else b

abbrev pub or_else : Option ℕ → ℕ → ℕ
or_else (some a) b = a
or_else none b = b

-- The seconds of the block for the given number of limit hits.
unfoldable pub blocked_for : Policy → ℕ → ℕ → ℕ
blocked_for p hits retry =
    max 1 (or_else (block_at (min hits (length p.block_seconds)) p.block_seconds) retry)

-- The store gives no hash that has expired.
abbrev pub live : ℕ → Option Bucket → Option Bucket
live now none = none
live now (some b) = if ltb b.expires now then none else some b

-- The numbers of Lua: the units in 1, and `x + y`, `x * y`, `x / y` and `x - y` on units.
pub record Numbers : Type 0 where
  pub one : ℕ
  pub sum : ℕ → ℕ → ℕ
  pub product : ℕ → ℕ → ℕ
  pub quotient : ℕ → ℕ → ℕ
  pub difference : ℕ → ℕ → ℕ

module _ (numbers : Numbers) where
  abbrev pub capacity : Policy → ℕ
  capacity p = p.bucket_size * numbers.one

  -- refillPerMs
  abbrev pub refill_per_ms : Policy → ℕ
  refill_per_ms p = numbers.quotient (capacity p) (window_ms p * numbers.one)

  -- The state that the script reads, with its defaults.
  abbrev pub opened : Policy → ℕ → Option Bucket → Bucket
  opened p now (some b) = b
  opened p now none = record {
    tokens = capacity p;
    updated_at = now;
    blocked_until = 0;
    limit_hits = 0;
    last_limited_at = 0;
    expires = 0;
  }

  unfoldable pub refilled : Policy → ℕ → Bucket → ℕ
  refilled p now b = min (capacity p) (
      numbers.sum b.tokens (numbers.product ((now - b.updated_at) * numbers.one) (refill_per_ms p)))

  -- The milliseconds, rounded up, until the bucket has a token.
  abbrev pub refill_ms : Policy → ℕ → ℕ
  refill_ms p tokens =
      ceil_div (numbers.quotient (numbers.difference numbers.one tokens) (refill_per_ms p))
        numbers.one

  abbrev pub refill_seconds : Policy → ℕ → ℕ
  refill_seconds p tokens = max 1 (ceil_div (refill_ms p tokens) 1000)

  -- A request during a block changes the expiry alone.
  unfoldable pub still_blocked : Policy → ℕ → Option Bucket → Consumed
  unfolding ceil_div
  still_blocked p now stored =
      let b = opened p now stored in
      let retry = max 1 (ceil_div (b.blocked_until - now) 1000) in
      record {
        bucket = record b { expires = now + (retry + p.refill_window_sec) * 1000 };
        verdict = record {
          allowed = false;
          retry_seconds = retry;
          reset_time = b.blocked_until;
          limit_hits = (calmed p now b).limit_hits;
        };
      }

  -- Less than a token is left.
  unfoldable pub limited : Policy → ℕ → Bucket → Consumed
  unfolding refilled ceil_div blocked_for
  limited p now b =
      let tokens = refilled p now b in
      let blocks = ltb 0 (length p.block_seconds) in
      let hits = if blocks then b.limit_hits + 1 else b.limit_hits in
      let wait = refill_seconds p tokens in
      let retry = if blocks then blocked_for p hits wait else wait in
      record {
        bucket = record {
          tokens = tokens;
          updated_at = now;
          blocked_until = if blocks then now + retry * 1000 else 0;
          limit_hits = hits;
          last_limited_at = now;
          expires = now + (retry + p.refill_window_sec) * 1000;
        };
        verdict = record {
          allowed = false;
          retry_seconds = retry;
          reset_time = now + retry * 1000;
          limit_hits = hits;
        };
      }

  unfoldable pub spend : Policy → ℕ → Bucket → Consumed
  unfolding refilled
  spend p now b = record {
    bucket = record {
      tokens = numbers.difference (refilled p now b) numbers.one;
      updated_at = now;
      blocked_until = 0;
      limit_hits = b.limit_hits;
      last_limited_at = b.last_limited_at;
      expires = now + window_ms p;
    };
    verdict = record {
      allowed = true;
      retry_seconds = 0;
      reset_time = 0;
      limit_hits = b.limit_hits;
    };
  }

  -- TOKEN_BUCKET_SCRIPT
  unfoldable pub script : Policy → ℕ → Option Bucket → Consumed
  unfolding still_blocked limited spend refilled
  script p now stored =
      let b = calmed p now (opened p now stored) in
      if ltb now b.blocked_until
      then still_blocked p now stored
      else if ltb (refilled p now b) numbers.one
      then limited p now b
      else spend p now b

  -- `consumeTokenBucket`; where the script gives no number, the policy's window stands in, and the
  -- time of the call with it.
  unfoldable pub consume_token_bucket : Policy → ℕ → Option Bucket → Consumed
  unfolding script
  consume_token_bucket p now stored =
      let done = script p now (live now stored) in
      let given = done.verdict in
      let retry =
        max 1 (if given.retry_seconds == 0 then p.refill_window_sec else given.retry_seconds) in
      record done {
        verdict = record given {
          retry_seconds = retry;
          reset_time = if given.reset_time == 0 then now + retry * 1000 else given.reset_time;
        };
      }
