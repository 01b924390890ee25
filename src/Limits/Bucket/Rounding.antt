-- ===== src/Limits/Bucket/Rounding.antt =====
-- How far the rounding of numbers takes a refill from the exact one.
use voidchats_note2ee.Common.{ℕ, ◌+◌, ◌-◌, ◌*◌, ◌≤◌, ◌<◌, ◌≡◌, arith, Bool-cases, inl, inr, leb}
use native.Mathlib.Nat.{mul-le-mul_right, le_of_mul-le-mul_right}
use voidchats_note2ee.Limits.Bucket.{
  Numbers, Policy, Bucket, window_ms, capacity, refill_per_ms, refilled,
}
use voidchats_note2ee.Limits.Bucket.Potential.{IsAccurate, refilled_le}

-- Numbers that are rounded to the nearest: the relative error of a sum, of a product with a whole
-- number and of a quotient of whole numbers is at most 1 / precision; and 1 is taken exactly from
-- what is at least 1 and at most the precision.
pub record IsRounded (numbers : Numbers) (precision : ℕ) : Type 0 where
  pub precise : 4 ≤ precision
  pub sum_le : (x y : ℕ) → numbers.sum x y * precision ≤ (x + y) * (precision + 1)
  pub product_le :
      (n y : ℕ) → numbers.product (n * numbers.one) y * precision ≤ (n * y) * (precision + 1)
  pub quotient_le :
      (m n : ℕ)
      → (numbers.quotient (m * numbers.one) (n * numbers.one) * n) * precision
        ≤ (m * numbers.one) * (precision + 1)
  pub difference_exact :
      (x : ℕ)
      → numbers.one ≤ x
      → x ≤ precision * numbers.one
      → numbers.difference x numbers.one ≡ x - numbers.one

-- Three roundings of a value below `full` add at most four parts of it by the precision.
thrice :
    (n x y full slack : ℕ)
    → 4 ≤ n
    → x + y ≤ full
    → 4 * full ≤ slack * n
    → x * (n * n * (n + 1)) + y * ((n + 1) * (n + 1) * (n + 1)) ≤ (x + y + slack) * (n * n * n)
thrice n x y full slack precise below enough =
    let square : 3 * (n * n) + 3 * n + 1 ≤ 4 * (n * n) =
      omega (arith, mul-le-mul_right n precise) in
    omega (
      arith,
      mul-le-mul_right y square,
      mul-le-mul_right (4 * (n * n)) below,
      mul-le-mul_right (n * n) enough,
    )

cancel : (a b n : ℕ) → 4 ≤ n → a * (n * n * n) ≤ b * (n * n * n) → a ≤ b
cancel a b n precise h =
    le_of_mul-le-mul_right h
      (omega (arith, mul-le-mul_right n precise, mul-le-mul_right (n * n) precise))

-- The refill in three roundings.
refill_rounded :
    (n t e rate refill total room window slack : ℕ)
    → 4 ≤ n
    → total * n ≤ (t + refill) * (n + 1)
    → refill * n ≤ (e * rate) * (n + 1)
    → (rate * window) * n ≤ room * (n + 1)
    → t * window + e * room ≤ room * window
    → 4 * (room * window) ≤ slack * n
    → total * window ≤ t * window + e * room + slack
refill_rounded n t e rate refill total room window slack precise added scaled divided below enough =
    cancel (total * window) (t * window + e * room + slack) n precise (
      omega (
        arith,
        mul-le-mul_right (window * (n * n)) added,
        mul-le-mul_right (window * n * (n + 1)) scaled,
        mul-le-mul_right (e * ((n + 1) * (n + 1))) divided,
        thrice n (t * window) (e * room) (room * window) slack precise below enough,
      ))

refilled_le_sum :
    (numbers : Numbers) (p : Policy) (now : ℕ) (b : Bucket)
    → refilled numbers p now b
      ≤ numbers.sum b.tokens
          (numbers.product ((now - b.updated_at) * numbers.one) (refill_per_ms numbers p))
unfolding refilled
refilled_le_sum numbers p now b = ground arith

pub rounded-IsAccurate :
    (numbers : Numbers) (precision slack : ℕ) (p : Policy)
    → IsRounded numbers precision
    → p.bucket_size ≤ precision
    → 4 * (capacity numbers p * window_ms p) ≤ slack * precision
    → IsAccurate numbers p slack
rounded-IsAccurate numbers precision slack p rounded small enough = record {
  refill_le = λ now b.
      let e = now - b.updated_at in
      let room = capacity numbers p in
      let rate = refill_per_ms numbers p in
      let refill = numbers.product (e * numbers.one) rate in
      let full = mul-le-mul_right (window_ms p) (refilled_le numbers p now b) in
      elim (Bool-cases (leb (b.tokens * window_ms p + e * room) (room * window_ms p))) [
        | inl below ↦
            let total = numbers.sum b.tokens refill in
            let fits =
              refill_rounded precision b.tokens e rate refill total room (window_ms p) slack
                rounded.precise (rounded.sum_le b.tokens refill) (rounded.product_le e rate)
                (rounded.quotient_le p.bucket_size (window_ms p)) (ground arith) enough in
            omega (arith, fits, mul-le-mul_right (window_ms p) (refilled_le_sum numbers p now b))
        | inr above ↦
            let over : room * window_ms p < b.tokens * window_ms p + e * room =
              ground (arith, above) in
            omega (arith, full)
      ];
  take_exact = λ x one_left fits.
      rounded.difference_exact x one_left (omega (arith, mul-le-mul_right numbers.one small));
}
