-- ===== src/Limits/Bucket/Waiting.antt =====
-- What a refusal tells the client where blocks are configured: that nothing passes before.
use voidchats_note2ee.Common.{
  ℕ, ◌+◌, ◌-◌, ◌*◌, ◌≤◌, ◌<◌, ◌≡◌, refl, ap, ◌∙◌, true, false, Option, some, List, [], ◌∷◌, ltb,
  length, arith, inl, inr,
}
use native.Mathlib.Nat.{div-add-mod, mod-lt}
use voidchats_note2ee.Limits.Bucket.{
  Numbers, Policy, Bucket, Consumed, opened, calmed, still_blocked, limited, spend, script, live,
  consume_token_bucket, ceil_div,
}
use voidchats_note2ee.Limits.Bucket.Potential.{script-cases}

-- A quotient that is rounded up is enough.
pub ceil_div_le : (a b : ℕ) → 0 < b → a ≤ ceil_div a b * b
unfolding ceil_div
ceil_div_le a b h = omega (arith, div-add-mod (a + (b - 1)) b, mod-lt (a + (b - 1)) h)

-- A block that the client was told of.
record Blocked (now : ℕ) (done : Consumed) : Type 0 where
  pub until : done.bucket.blocked_until ≡ done.verdict.reset_time
  pub lasting : done.bucket.blocked_until ≤ done.bucket.expires

ltb_above : (a b : ℕ) → b ≤ a → ltb a b ≡ false
ltb_above a b h = ground arith

script_blocks :
    (numbers : Numbers) (p : Policy) (now : ℕ) (stored : Option Bucket)
    → 0 < length p.block_seconds
    → (script numbers p now stored).verdict.allowed ≡ false
    → Blocked now (script numbers p now stored)
unfolding still_blocked limited spend
script_blocks numbers p now stored blocks denied = elim (script-cases numbers p now stored) [
  | inl (e, blocked) ↦
      let whole =
        ceil_div_le ((opened numbers p now stored).blocked_until - now) 1000 (omega arith) in
      rw e (record { until = refl; lasting = omega arith })
  | inr (inl (e, free, short)) ↦
      let some_blocks : ltb 0 (length p.block_seconds) ≡ true = ground arith in
      rw (e, some_blocks) (record { until = refl; lasting = omega arith })
  | inr (inr (e, free, enough_left)) ↦ absurd (cc (rw e at denied))
]

script_positive :
    (numbers : Numbers) (p : Policy) (now : ℕ) (stored : Option Bucket)
    → (script numbers p now stored).verdict.allowed ≡ false
    → 0 < (script numbers p now stored).verdict.reset_time
unfolding still_blocked limited spend
script_positive numbers p now stored denied = elim (script-cases numbers p now stored) [
  | inl (e, blocked) ↦ rw e (ground arith)
  | inr (inl (e, free, short)) ↦ rw e (ground arith)
  | inr (inr (e, free, enough_left)) ↦ absurd (cc (rw e at denied))
]

consume_blocks :
    (numbers : Numbers) (p : Policy) (now : ℕ) (stored : Option Bucket)
    → 0 < length p.block_seconds
    → (consume_token_bucket numbers p now stored).verdict.allowed ≡ false
    → Blocked now (consume_token_bucket numbers p now stored)
unfolding consume_token_bucket
consume_blocks numbers p now stored blocks denied =
    let b = script_blocks numbers p now (live now stored) blocks denied in
    let positive = script_positive numbers p now (live now stored) denied in
    record { until = ground (arith, b.until); lasting = b.lasting }

calmed_blocked :
    (p : Policy) (now : ℕ) (b : Bucket) → (calmed p now b).blocked_until ≡ b.blocked_until
calmed_blocked p now b = ground arith

script_during :
    (numbers : Numbers) (p : Policy) (now : ℕ) (b : Bucket)
    → now < b.blocked_until
    → ((script numbers p now (some b)).verdict.allowed ≡ false)
      × ((script numbers p now (some b)).verdict.reset_time ≡ b.blocked_until)
unfolding still_blocked
script_during numbers p now b blocked =
    let same = calmed_blocked p now b in
    elim (script-cases numbers p now (some b)) [
      | inl (e, again) ↦ rw e (refl, refl)
      | inr (inl (e, free, short)) ↦ absurd (omega arith)
      | inr (inr (e, free, enough)) ↦ absurd (omega arith)
    ]

consume_during :
    (numbers : Numbers) (p : Policy) (now : ℕ) (b : Bucket)
    → now < b.blocked_until
    → b.blocked_until ≤ b.expires
    → ((consume_token_bucket numbers p now (some b)).verdict.allowed ≡ false)
      × ((consume_token_bucket numbers p now (some b)).verdict.reset_time ≡ b.blocked_until)
unfolding consume_token_bucket
consume_during numbers p now b blocked lasting =
    let kept : live now (some b) ≡ some b = rw (ltb_above b.expires now (omega arith)) refl in
    let (denied, same) = script_during numbers p now b blocked in
    (ap (λ o. (script numbers p now o).verdict.allowed) kept ∙ denied, ground (arith, kept, same))

-- Every request of the run is refused until the same time.
abbrev pub AllRefused : Numbers → Policy → ℕ → List ℕ → Bucket → Type 0
AllRefused numbers p reset [] b = Unit
AllRefused numbers p reset (now ∷ times) b =
    let done = consume_token_bucket numbers p now (some b) in
    ((done.verdict.allowed ≡ false) × (done.verdict.reset_time ≡ reset))
    × AllRefused numbers p reset times done.bucket

abbrev pub AllBefore : ℕ → List ℕ → Type 0
AllBefore reset [] = Unit
AllBefore reset (now ∷ times) = (now < reset) × AllBefore reset times

blocked_run :
    (numbers : Numbers) (p : Policy) (reset : ℕ) (times : List ℕ) (b : Bucket)
    → 0 < length p.block_seconds
    → b.blocked_until ≡ reset
    → b.blocked_until ≤ b.expires
    → AllBefore reset times
    → AllRefused numbers p reset times b
blocked_run numbers p reset [] b blocks until lasting before = tt
blocked_run numbers p reset (now ∷ times) b blocks until lasting before =
    let (denied, same) = consume_during numbers p now b (omega (arith, before.0)) lasting in
    let next = consume_blocks numbers p now (some b) blocks denied in
    (
      (denied, same ∙ until),
      blocked_run numbers p reset times (consume_token_bucket numbers p now (some b)).bucket blocks
          (next.until ∙ same ∙ until) next.lasting before.1,
    )

-- Where blocks are configured, a refusal stands: however many requests follow before the time that
-- it names, in whatever order, each of them is refused and names the same time.
pub block_holds :
    (numbers : Numbers) (p : Policy) (now : ℕ) (stored : Option Bucket) (times : List ℕ)
    → 0 < length p.block_seconds
    → (consume_token_bucket numbers p now stored).verdict.allowed ≡ false
    → AllBefore (consume_token_bucket numbers p now stored).verdict.reset_time times
    → AllRefused numbers p
        (consume_token_bucket numbers p now stored).verdict.reset_time
        times
        (consume_token_bucket numbers p now stored).bucket
block_holds numbers p now stored times blocks denied before =
    let done = consume_token_bucket numbers p now stored in
    let told = consume_blocks numbers p now stored blocks denied in
    blocked_run numbers p done.verdict.reset_time times done.bucket blocks told.until told.lasting
      before
