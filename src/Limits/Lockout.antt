-- ===== src/Limits/Lockout.antt =====
-- VOID0000-api/server/middleware/rateLimits/authLockoutLimiter.ts, and the scopes of algorithms.ts:
-- a request spends a token in the bucket of each dimension until one of them refuses it. The
-- buckets are those of one policy, so that a key is a scope and an identifier; the fingerprint and
-- the address come with the request, and the hash of an address or a subject is a parameter.
pub mod Spending
pub mod Rate
use voidchats_note2ee.Common.{
  ℕ, ◌+◌, ◌-◌, ◌*◌, ◌/◌, Bool, true, false, ◌&&◌, Option, none, some, List, [], ◌∷◌, ◌==◌,
  if◌then◌else◌, length, max,
}
use voidchats_note2ee.Limits.Bucket.{
  Ceiled, Numbers, Policy, Bucket, Verdict, Consumed, consume_token_bucket, ceil_div,
  to_positive_integer, normalize_block_seconds,
}

pub data Scope : Type 0 where
  device user ip subject : Scope

abbrev pub same_scope : Scope → Scope → Bool
same_scope device device = true
same_scope user user = true
same_scope ip ip = true
same_scope subject subject = true
same_scope _ _ = false

pub record RawDimension : Type 0 where
  pub scope : Scope
  pub refill_window_sec : Ceiled
  pub bucket_size : Ceiled
  pub block_seconds : Option (List Ceiled)

pub record Dimension : Type 0 where
  pub scope : Scope
  pub limits : Policy

unfoldable pub normalize_dimension : RawDimension → Dimension
normalize_dimension raw = record {
  scope = raw.scope;
  limits = record {
    refill_window_sec = to_positive_integer raw.refill_window_sec 60;
    bucket_size = to_positive_integer raw.bucket_size 5;
    block_seconds = normalize_block_seconds raw.block_seconds;
  };
}

-- What the limiter takes from a request: the time, the fingerprint, the client's address where it
-- is known, the subject where a field has one, and for each call of the store (by the number of
-- dimensions after it) whether the store answers.
pub record Request : Type 0 where
  pub now : ℕ
  pub fingerprint : ℕ
  pub client_ip : Option ℕ
  pub subject : Option ℕ
  pub reachable : ℕ → Bool

abbrev pub Store : Type 0
Store = Scope → ℕ → Option Bucket

abbrev pub put_bucket : Scope → ℕ → Bucket → Store → Store
put_bucket scope id b store = λ s j. if same_scope s scope && j == id then some b else store s j

-- The middleware calls `next` for `passed` and `waved_through`; the latter follows an error.
pub data Passage : Type 0 where
  passed waved_through : Passage
  refused : Verdict → Passage

module _ (hash_key_part : Option ℕ → ℕ) where
  -- `hash_key_part none` is the hash of 'unknown'.
  unfoldable pub dimension_id : Request → Scope → Option ℕ
  dimension_id req device = some req.fingerprint
  dimension_id req ip = some (hash_key_part req.client_ip)
  dimension_id req subject = elim req.subject [
    | some value ↦ some (hash_key_part (some value))
    | none ↦ none
  ]
  dimension_id req user = none

  -- The loop over the dimensions.
  unfoldable pub admit : Numbers → Request → List Dimension → Store → Store × Passage
  unfolding dimension_id consume_token_bucket
  admit numbers req [] store = (store, passed)
  admit numbers req (d ∷ dimensions) store = elim (dimension_id req d.scope) [
    | none ↦ admit numbers req dimensions store
    | some id ↦
        if req.reachable (length dimensions)
        then (let done = consume_token_bucket numbers d.limits req.now (store d.scope id) in
            let written = put_bucket d.scope id done.bucket store in
            if done.verdict.allowed
            then admit numbers req dimensions written
            else (written, refused done.verdict))
        else (store, waved_through)
  ]

-- `sendLockoutResponse` at the time `now`.
pub record LockoutResponse : Type 0 where
  pub retry_after_ms : ℕ
  pub cooldown_until : ℕ
  pub retry_after_seconds : ℕ

unfoldable pub send_lockout_response : ℕ → Verdict → LockoutResponse
unfolding ceil_div
send_lockout_response now result =
    let cooldown_until = max (now + result.retry_seconds * 1000) result.reset_time in
    let retry_after_ms = max 1000 (cooldown_until - now) in
    record {
      retry_after_ms = retry_after_ms;
      cooldown_until = cooldown_until;
      retry_after_seconds = max 1 (ceil_div retry_after_ms 1000);
    }
