-- ===== src/Limits/Bucket/Potential.antt =====
-- What a stored bucket is good for, and how a request spends it.
use voidchats_note2ee.Common.{
  ℕ, ◌+◌, ◌-◌, ◌*◌, ◌≤◌, ◌<◌, ◌≡◌, refl, ap, Option, none, some, ltb, if◌then◌else◌, min, arith,
  Bool-cases, inl, inr, ◌⊎◌,
}
use native.Mathlib.Nat.{mul-le-mul_right}
use voidchats_note2ee.Limits.Bucket.{
  Numbers, Policy, Bucket, Consumed, window_ms, capacity, opened, calmed, refilled, still_blocked,
  limited, spend, script, live, consume_token_bucket,
}

-- A stored hash was written earlier and is kept for a window at least.
pub record IsTimed (p : Policy) (now : ℕ) (b : Bucket) : Type 0 where
  pub written : b.updated_at ≤ now
  pub lasting : b.updated_at + window_ms p ≤ b.expires

abbrev pub IsTimedEntry : Policy → ℕ → Option Bucket → Type 0
IsTimedEntry p now none = Unit
IsTimedEntry p now (some b) = IsTimed p now b

-- What is asked of the numbers: a refill is at most `slack` above the exact one, in units times
-- milliseconds, and a token is taken exactly from a bucket that has one.
pub record IsAccurate (numbers : Numbers) (p : Policy) (slack : ℕ) : Type 0 where
  pub refill_le :
      (now : ℕ) (b : Bucket)
      → refilled numbers p now b * window_ms p
        ≤ b.tokens * window_ms p + (now - b.updated_at) * capacity numbers p + slack
  pub take_exact :
      (x : ℕ)
      → numbers.one ≤ x
      → x ≤ capacity numbers p
      → numbers.difference x numbers.one ≡ x - numbers.one

-- The tokens of a bucket with the exact refill, in units times milliseconds.
unfoldable pub good_for : Numbers → Policy → ℕ → Bucket → ℕ
good_for numbers p now b =
    min (capacity numbers p * window_ms p)
      (b.tokens * window_ms p + (now - b.updated_at) * capacity numbers p)

abbrev pub available : Numbers → Policy → ℕ → Option Bucket → ℕ
available numbers p now stored = good_for numbers p now (opened numbers p now stored)

-- What a token is.
abbrev pub token : Numbers → Policy → ℕ
token numbers p = numbers.one * window_ms p

-- After a window the bucket is full.
good_for-full :
    (numbers : Numbers) (p : Policy) (now : ℕ) (b : Bucket)
    → b.updated_at + window_ms p ≤ now
    → good_for numbers p now b ≡ capacity numbers p * window_ms p
unfolding good_for
good_for-full numbers p now b h =
    let enough : window_ms p ≤ now - b.updated_at = omega arith in
    ground (arith, mul-le-mul_right (capacity numbers p) enough)

good_for-calmed :
    (numbers : Numbers) (p : Policy) (now : ℕ) (b : Bucket)
    → good_for numbers p now (calmed p now b) ≡ good_for numbers p now b
unfolding good_for
good_for-calmed numbers p now b = ground arith

-- A dropped hash would have been full.
pub available-live :
    (numbers : Numbers) (p : Policy) (now : ℕ) (stored : Option Bucket)
    → IsTimedEntry p now stored
    → available numbers p now (live now stored) ≡ available numbers p now stored
unfolding good_for
available-live numbers p now none timed = refl
available-live numbers p now (some b) timed = elim (Bool-cases (ltb b.expires now)) [
  | inl gone ↦
      rw gone (ground (arith, good_for-full numbers p now b (ground (arith, timed.lasting))))
  | inr kept ↦ rw kept refl
]

-- Later the entry is good for at most the refill of the time between more.
pub available_later :
    (numbers : Numbers) (p : Policy) (now later : ℕ) (stored : Option Bucket)
    → IsTimedEntry p now stored
    → now ≤ later
    → available numbers p later stored
      ≤ available numbers p now stored + (later - now) * capacity numbers p
unfolding good_for
available_later numbers p now later none timed h = ground arith
available_later numbers p now later (some b) timed h =
    let apart : later - b.updated_at ≡ (later - now) + (now - b.updated_at) =
      omega (arith, timed.written) in
    ground (arith, ap (λ (t : ℕ). t * capacity numbers p) apart)

abbrev pub entry_of : Consumed → Option Bucket
entry_of done = some done.bucket

-- The bucket that the three branches of the script work on.
abbrev pub current : Numbers → Policy → ℕ → Option Bucket → Bucket
current numbers p now stored = calmed p now (opened numbers p now stored)

-- The script's three branches.
pub script-cases :
    (numbers : Numbers) (p : Policy) (now : ℕ) (stored : Option Bucket)
    → ((script numbers p now stored ≡ still_blocked numbers p now stored)
        × (now < (current numbers p now stored).blocked_until))
      ⊎ (((script numbers p now stored ≡ limited numbers p now (current numbers p now stored))
            × ((current numbers p now stored).blocked_until ≤ now)
            × (refilled numbers p now (current numbers p now stored) < numbers.one))
          ⊎ ((script numbers p now stored ≡ spend numbers p now (current numbers p now stored))
              × ((current numbers p now stored).blocked_until ≤ now)
              × (numbers.one ≤ refilled numbers p now (current numbers p now stored))))
unfolding script
script-cases numbers p now stored =
    let b = current numbers p now stored in
    elim (Bool-cases (ltb now b.blocked_until)) [
      | inl blocked ↦ inl (rw (script, blocked) refl, ground arith)
      | inr free ↦ elim (Bool-cases (ltb (refilled numbers p now b) numbers.one)) [
        | inl short ↦ inr (inl (rw (script, free, short) refl, ground arith, ground arith))
        | inr enough ↦ inr (inr (rw (script, free, enough) refl, ground arith, ground arith))
      ]
    ]

abbrev spent : Numbers → Policy → Consumed → ℕ
spent numbers p done = if done.verdict.allowed then token numbers p else 0

still_blocked_spends :
    (numbers : Numbers) (p : Policy) (now : ℕ) (stored : Option Bucket)
    → good_for numbers p now (still_blocked numbers p now stored).bucket
        + spent numbers p (still_blocked numbers p now stored)
      ≡ available numbers p now stored
unfolding still_blocked good_for
still_blocked_spends numbers p now stored = omega arith

-- A bucket written now is good for what it holds.
good_for_le :
    (numbers : Numbers) (p : Policy) (now : ℕ) (b : Bucket)
    → b.updated_at ≡ now
    → good_for numbers p now b ≤ b.tokens * window_ms p
unfolding good_for
good_for_le numbers p now b same = rw same (ground arith)

pub refilled_le :
    (numbers : Numbers) (p : Policy) (now : ℕ) (b : Bucket)
    → refilled numbers p now b ≤ capacity numbers p
unfolding refilled
refilled_le numbers p now b = ground arith

-- The refill of the script, in units times milliseconds.
refill_bound :
    (numbers : Numbers) (p : Policy) (slack now : ℕ) (b : Bucket)
    → IsAccurate numbers p slack
    → refilled numbers p now b * window_ms p ≤ good_for numbers p now b + slack
unfolding good_for
refill_bound numbers p slack now b accurate =
    let room = mul-le-mul_right (window_ms p) (refilled_le numbers p now b) in
    ground (arith, room, accurate.refill_le now b)

limited_spends :
    (numbers : Numbers) (p : Policy) (slack now : ℕ) (b : Bucket)
    → IsAccurate numbers p slack
    → good_for numbers p now (limited numbers p now b).bucket
        + spent numbers p (limited numbers p now b)
      ≤ good_for numbers p now b + slack
unfolding limited
limited_spends numbers p slack now b accurate = ground (
  arith,
  refill_bound numbers p slack now b accurate,
  good_for_le numbers p now (limited numbers p now b).bucket refl,
)

spend_spends :
    (numbers : Numbers) (p : Policy) (slack now : ℕ) (b : Bucket)
    → IsAccurate numbers p slack
    → numbers.one ≤ refilled numbers p now b
    → good_for numbers p now (spend numbers p now b).bucket
        + spent numbers p (spend numbers p now b)
      ≤ good_for numbers p now b + slack
unfolding spend
spend_spends numbers p slack now b accurate h =
    let full = refilled numbers p now b in
    let left = accurate.take_exact full h (refilled_le numbers p now b) in
    let parts : full ≡ numbers.difference full numbers.one + numbers.one = omega (arith, left) in
    let weighed = ap (λ (t : ℕ). t * window_ms p) parts in
    omega (
      arith,
      weighed,
      refill_bound numbers p slack now b accurate,
      good_for_le numbers p now (spend numbers p now b).bucket refl,
    )

-- A request leaves what is available, or takes a token from it, up to the slack.
script_spends :
    (numbers : Numbers) (p : Policy) (slack now : ℕ) (stored : Option Bucket)
    → IsAccurate numbers p slack
    → good_for numbers p now (script numbers p now stored).bucket
        + spent numbers p (script numbers p now stored)
      ≤ available numbers p now stored + slack
script_spends numbers p slack now stored accurate =
    let b = current numbers p now stored in
    let same = good_for-calmed numbers p now (opened numbers p now stored) in
    elim (script-cases numbers p now stored) [
      | inl (e, blocked) ↦ rw e (omega (arith, still_blocked_spends numbers p now stored))
      | inr (inl (e, free, short)) ↦
          rw e (omega (arith, same, limited_spends numbers p slack now b accurate))
      | inr (inr (e, free, enough)) ↦
          rw e (omega (arith, same, spend_spends numbers p slack now b accurate enough))
    ]

opened_written :
    (numbers : Numbers) (p : Policy) (now : ℕ) (stored : Option Bucket)
    → IsTimedEntry p now stored
    → (opened numbers p now stored).updated_at ≤ now
opened_written numbers p now none timed = omega arith
opened_written numbers p now (some b) timed = timed.written

script-IsTimed :
    (numbers : Numbers) (p : Policy) (now : ℕ) (stored : Option Bucket)
    → IsTimedEntry p now stored
    → IsTimed p now (script numbers p now stored).bucket
unfolding still_blocked limited spend
script-IsTimed numbers p now stored timed = elim (script-cases numbers p now stored) [
  | inl (e, blocked) ↦
      let before = opened_written numbers p now stored timed in
      rw e (record { written = before; lasting = omega arith })
  | inr (inl (e, free, short)) ↦ rw e (record { written = omega arith; lasting = omega arith })
  | inr (inr (e, free, enough)) ↦ rw e (record { written = omega arith; lasting = omega arith })
]

live-IsTimed :
    (p : Policy) (now : ℕ) (stored : Option Bucket)
    → IsTimedEntry p now stored
    → IsTimedEntry p now (live now stored)
live-IsTimed p now none timed = tt
live-IsTimed p now (some b) timed = elim (Bool-cases (ltb b.expires now)) [
  | inl gone ↦ rw gone tt
  | inr kept ↦ rw kept timed
]

pub consume-IsTimed :
    (numbers : Numbers) (p : Policy) (now : ℕ) (stored : Option Bucket)
    → IsTimedEntry p now stored
    → IsTimed p now (consume_token_bucket numbers p now stored).bucket
unfolding consume_token_bucket
consume-IsTimed numbers p now stored timed =
    script-IsTimed numbers p now (live now stored) (live-IsTimed p now stored timed)

pub consume_spends :
    (numbers : Numbers) (p : Policy) (slack now : ℕ) (stored : Option Bucket)
    → IsAccurate numbers p slack
    → IsTimedEntry p now stored
    → good_for numbers p now (consume_token_bucket numbers p now stored).bucket
        + (if (consume_token_bucket numbers p now stored).verdict.allowed
            then token numbers p
            else 0)
      ≤ available numbers p now stored + slack
unfolding consume_token_bucket
consume_spends numbers p slack now stored accurate timed = omega (
  arith,
  script_spends numbers p slack now (live now stored) accurate,
  available-live numbers p now stored timed,
)

-- A bucket is never good for more than its capacity.
pub available_le :
    (numbers : Numbers) (p : Policy) (now : ℕ) (stored : Option Bucket)
    → available numbers p now stored ≤ capacity numbers p * window_ms p
unfolding good_for
available_le numbers p now stored = ground arith

pub timed_later :
    (p : Policy) (now later : ℕ) (stored : Option Bucket)
    → IsTimedEntry p now stored
    → now ≤ later
    → IsTimedEntry p later stored
timed_later p now later none timed h = tt
timed_later p now later (some b) timed h = record {
  written = omega (arith, timed.written);
  lasting = timed.lasting;
}
