-- ===== src/Limits/Bucket/Retrying.antt =====
-- The wait that a refusal names where no blocks are configured. Rounding may leave the bucket just
-- short of a token at its end; a millisecond later it has one.
use voidchats_note2ee.Common.{
  ℕ, zero, suc, ◌+◌, ◌-◌, ◌*◌, ◌≤◌, ◌<◌, ◌≡◌, refl, ap, true, false, Option, none, some, [], ltb,
  leb, arith, Bool-cases, inl, inr,
}
use native.Mathlib.Nat.{mul-le-mul_right, le_of_mul-le-mul_right}
use voidchats_note2ee.Limits.Bucket.{
  Numbers, Policy, Bucket, Consumed, window_ms, capacity, refill_per_ms, opened, refilled,
  refill_ms, refill_seconds, limited, spend, script, live, consume_token_bucket,
}
use voidchats_note2ee.Limits.Bucket.Potential.{script-cases, entry_of}
use voidchats_note2ee.Limits.Bucket.Waiting.{ceil_div_le}

-- Numbers that are rounded to the nearest, from below: no result is less than the exact one by more
-- than the relative error 1 / (precision + 1), where the quotient is not very small; and nothing is
-- added exactly.
pub record IsRoundedBelow (numbers : Numbers) (precision : ℕ) : Type 0 where
  pub some_units : 0 < numbers.one
  pub precise : 4 ≤ precision
  pub sum_ge : (x y : ℕ) → (x + y) * precision ≤ numbers.sum x y * (precision + 1)
  pub product_ge :
      (n y : ℕ) → (n * y) * precision ≤ numbers.product (n * numbers.one) y * (precision + 1)
  pub quotient_ge :
      (x y : ℕ)
      → 0 < y
      → y ≤ x * precision
      → (x * numbers.one) * precision ≤ (numbers.quotient x y * y) * (precision + 1)
  pub difference_ge :
      (x : ℕ)
      → x ≤ numbers.one
      → (numbers.one - x) * precision ≤ numbers.difference numbers.one x * (precision + 1)
  pub nothing_added : (x y : ℕ) → numbers.sum x (numbers.product 0 y) ≡ x

-- What the wait and a millisecond more refill.
wait_fills :
    (one n d q rate ms e : ℕ)
    → 0 < one
    → (d * one) * n ≤ (q * rate) * (n + 1)
    → q ≤ ms * one
    → ms + 1 ≤ e
    → d * n + rate * (n + 1) ≤ (e * rate) * (n + 1)
wait_fills one n d q rate ms e some_units divided whole late =
    le_of_mul-le-mul_right {k = one}
      (omega (
        arith,
        mul-le-mul_right (rate * (n + 1)) whole,
        mul-le-mul_right (rate * (n + 1) * one) late,
        divided,
      ))
      some_units

short_fills :
    (n d rate e : ℕ) → d * n ≤ rate → 2 ≤ e → d * n + rate * (n + 1) ≤ (e * rate) * (n + 1)
short_fills n d rate e short late = omega (arith, mul-le-mul_right (rate * (n + 1)) late)

powers :
    (n one : ℕ)
    → 4 ≤ n
    → one * ((n + 1) * (n + 1) * (n + 1) * (n + 1))
      ≤ one * (n * n * n * n) + 8 * (one * (n * n * (n + 1)))
powers n one precise = omega (
  arith,
  mul-le-mul_right (one * (n * n)) precise,
  mul-le-mul_right (one * n) precise,
  mul-le-mul_right one precise,
)

-- The refill after the wait and a millisecond more is a token, however the four operations are
-- rounded.
fills :
    (n one t d rate e refill total : ℕ)
    → 4 ≤ n
    → t ≤ one
    → (one - t) * n ≤ d * (n + 1)
    → d * n + rate * (n + 1) ≤ (e * rate) * (n + 1)
    → (e * rate) * n ≤ refill * (n + 1)
    → (t + refill) * n ≤ total * (n + 1)
    → 8 * one ≤ rate * (n + 1)
    → one ≤ total
fills n one t d rate e refill total precise part taken waited scaled added quick =
    let rest : one ≡ t + (one - t) = omega (arith, part) in
    let weighed = ap (λ (x : ℕ). x * (n * n * n * n)) rest in
    le_of_mul-le-mul_right {k = (n + 1) * (n + 1) * (n + 1) * (n + 1)}
      (omega (
        arith,
        weighed,
        powers n one precise,
        mul-le-mul_right (n * n * n) taken,
        mul-le-mul_right ((n + 1) * (n * n)) waited,
        mul-le-mul_right (n * ((n + 1) * (n + 1))) scaled,
        mul-le-mul_right ((n + 1) * (n + 1) * (n + 1)) added,
        mul-le-mul_right (n * n * (n + 1)) quick,
      ))
      (omega arith)

-- The refill of a millisecond is at least eight parts of a token by `precision + 1`.
rate_quick :
    (n one size window rate : ℕ)
    → 0 < one
    → 4 ≤ n
    → 0 < size
    → 8 * window ≤ n
    → ((size * one) * one) * n ≤ (rate * (window * one)) * (n + 1)
    → 8 * one ≤ rate * (n + 1)
rate_quick n one size window rate some_units precise some_tokens short divided =
    let cancelled : (size * one) * n ≤ (rate * window) * (n + 1) =
      le_of_mul-le-mul_right {k = one} (omega (arith, divided)) some_units in
    le_of_mul-le-mul_right {k = n}
      (omega (
        arith,
        cancelled,
        mul-le-mul_right (rate * (n + 1)) short,
        mul-le-mul_right (one * n) some_tokens,
      ))
      (omega (arith, precise))

rate_positive : (n one rate : ℕ) → 0 < one → 8 * one ≤ rate * (n + 1) → 0 < rate
rate_positive n one zero some_units quick = absurd (omega arith)
rate_positive n one (suc rate) some_units quick = omega arith

module _ (numbers : Numbers) (precision : ℕ) (rounded : IsRoundedBelow numbers precision)
    (p : Policy) (some_tokens : 0 < p.bucket_size) (some_window : 0 < p.refill_window_sec)
    (short_window : 8 * window_ms p ≤ precision) where
  -- The refill of a bucket that is short of a token, when the wait and a millisecond more are over.
  short_refill :
      (later : ℕ) (b : Bucket)
      → b.tokens ≤ numbers.one
      → b.updated_at + refill_ms numbers p b.tokens + 1 ≤ later
      → b.updated_at + 2 ≤ later
      → numbers.one ≤ refilled numbers p later b
  unfolding refilled
  short_refill later b short waited long =
      let one = numbers.one in
      let e = later - b.updated_at in
      let rate = refill_per_ms numbers p in
      let d = numbers.difference one b.tokens in
      let refill = numbers.product (e * one) rate in
      let room = mul-le-mul_right one some_tokens in
      let wide : window_ms p * one ≤ (p.bucket_size * one) * precision = omega (
        arith,
        mul-le-mul_right one short_window,
        mul-le-mul_right (one * precision) some_tokens,
      ) in
      let lasts : 0 < window_ms p * one =
        omega (arith, mul-le-mul_right one some_window, rounded.some_units) in
      let quick =
        rate_quick precision one p.bucket_size (window_ms p) rate rounded.some_units rounded.precise
          some_tokens short_window
          (rounded.quotient_ge (p.bucket_size * one) (window_ms p * one) lasts wide) in
      let moves : 0 < rate = rate_positive precision one rate rounded.some_units quick in
      let enough : d * precision + rate * (precision + 1) ≤ (e * rate) * (precision + 1) =
        elim (Bool-cases (leb rate (d * precision))) [
          | inl slow ↦
              wait_fills one precision d (numbers.quotient d rate) rate
                (refill_ms numbers p b.tokens) e rounded.some_units
                (rounded.quotient_ge d rate moves (ground (arith, slow)))
                (ceil_div_le (numbers.quotient d rate) one rounded.some_units)
                (omega (arith, waited))
          | inr fast ↦ short_fills precision d rate e (ground (arith, fast)) (omega (arith, long))
        ] in
      let whole =
        fills precision one b.tokens d rate e refill (numbers.sum b.tokens refill) rounded.precise
          short (rounded.difference_ge b.tokens short) enough (rounded.product_ge e rate)
          (rounded.sum_ge b.tokens refill) quick in
      ground (arith, whole, room)

  -- A new bucket is full.
  fresh_refill : (now : ℕ) → numbers.one ≤ refilled numbers p now (opened numbers p now none)
  unfolding refilled
  fresh_refill now =
      let room = mul-le-mul_right numbers.one some_tokens in
      let none_later : now - now ≡ 0 = omega arith in
      let nothing : (now - now) * numbers.one ≡ 0 =
        omega (arith, ap (λ x. x * numbers.one) none_later) in
      rw (nothing, rounded.nothing_added (capacity numbers p) (refill_per_ms numbers p))
        (ground (arith, room))

  script_admits :
      (now : ℕ) (stored : Option Bucket)
      → (opened numbers p now stored).blocked_until ≤ now
      → numbers.one ≤ refilled numbers p now (opened numbers p now stored)
      → (script numbers p now stored).verdict.allowed ≡ true
  unfolding spend refilled
  script_admits now stored unblocked enough = elim (script-cases numbers p now stored) [
    | inl (e, blocked) ↦ absurd (ground arith)
    | inr (inl (e, free, short)) ↦ absurd (ground arith)
    | inr (inr (e, free, enough_left)) ↦ rw e refl
  ]

  -- A refusal outside a block, where no blocks are configured.
  record Short (now : ℕ) (done : Consumed) : Type 0 where
    at : done.bucket.updated_at ≡ now
    unblocked : done.bucket.blocked_until ≡ 0
    part : done.bucket.tokens ≤ numbers.one
    wait : refill_seconds numbers p done.bucket.tokens ≤ done.verdict.retry_seconds

  script-Short :
      (now : ℕ) (stored : Option Bucket)
      → p.block_seconds ≡ []
      → (opened numbers p now stored).blocked_until ≤ now
      → (script numbers p now stored).verdict.allowed ≡ false
      → Short now (script numbers p now stored)
  unfolding limited spend
  script-Short now stored no_blocks unblocked denied = elim (script-cases numbers p now stored) [
    | inl (e, blocked) ↦ absurd (ground arith)
    | inr (inl (e, free, short)) ↦
        rw (e, no_blocks)
          (record { at = refl; unblocked = refl; part = omega (arith, short); wait = omega arith })
    | inr (inr (e, free, enough_left)) ↦ absurd (cc (rw e at denied))
  ]

  live_unblocked :
      (now : ℕ) (stored : Option Bucket)
      → (opened numbers p now stored).blocked_until ≤ now
      → (opened numbers p now (live now stored)).blocked_until ≤ now
  live_unblocked now none h = h
  live_unblocked now (some b) h = ground arith

  consume-Short :
      (now : ℕ) (stored : Option Bucket)
      → p.block_seconds ≡ []
      → (opened numbers p now stored).blocked_until ≤ now
      → (consume_token_bucket numbers p now stored).verdict.allowed ≡ false
      → Short now (consume_token_bucket numbers p now stored)
  unfolding consume_token_bucket
  consume-Short now stored no_blocks unblocked denied =
      let s =
        script-Short now (live now stored) no_blocks (live_unblocked now stored unblocked) denied in
      record { at = s.at; unblocked = s.unblocked; part = s.part; wait = ground (arith, s.wait) }

  consume_admits :
      (later : ℕ) (b : Bucket)
      → b.blocked_until ≡ 0
      → numbers.one ≤ refilled numbers p later b
      → (consume_token_bucket numbers p later (some b)).verdict.allowed ≡ true
  unfolding consume_token_bucket
  consume_admits later b unblocked enough = elim (Bool-cases (ltb b.expires later)) [
    | inl gone ↦ rw gone (script_admits later none (omega arith) (fresh_refill later))
    | inr kept ↦ rw kept (script_admits later (some b) (omega (arith, unblocked)) enough)
  ]

  -- Where no blocks are configured and none is left from before, a refused request names a wait,
  -- and a request that comes a millisecond after its end, or later, is admitted if no other came in
  -- between. The bucket holds at least a token and its window a second; no operation on the numbers
  -- falls short by more than its relative error, 1 / (precision + 1), where the result is not very
  -- small, and nothing is added exactly; and the window has at most `precision` / 8 milliseconds.
  pub retry_a_millisecond_later :
      (now later : ℕ) (stored : Option Bucket)
      → p.block_seconds ≡ []
      → (opened numbers p now stored).blocked_until ≤ now
      → (consume_token_bucket numbers p now stored).verdict.allowed ≡ false
      → now + (consume_token_bucket numbers p now stored).verdict.retry_seconds * 1000 + 1 ≤ later
      → (consume_token_bucket numbers p later
          (entry_of (consume_token_bucket numbers p now stored))).verdict.allowed
        ≡ true
  retry_a_millisecond_later now later stored no_blocks unblocked denied h =
      let done = consume_token_bucket numbers p now stored in
      let s = consume-Short now stored no_blocks unblocked denied in
      let whole = ceil_div_le (refill_ms numbers p done.bucket.tokens) 1000 (omega arith) in
      consume_admits later done.bucket s.unblocked (
        short_refill later done.bucket s.part (omega (arith, whole, s.wait, s.at, h))
          (omega (arith, s.wait, s.at, h)))
