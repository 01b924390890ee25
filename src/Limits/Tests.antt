-- ===== src/Limits/Tests.antt =====
-- The limiters at concrete requests, and the theorems on them there.
use voidchats_note2ee.Common.{
  ℕ, ◌+◌, ◌-◌, ◌*◌, ◌/◌, ◌^◌, ◌≡◌, ◌≤◌, refl, true, Option, none, some, List, [], ◌∷◌, arith,
}
use native.Mathlib.Nat.{div-mul-le_self, div-add-mod, mod-lt}
use voidchats_note2ee.Limits.Bucket.{
  Numbers, Policy, Bucket, consume_token_bucket, window_ms, script, refilled, still_blocked,
  limited, spend, ceil_div, blocked_for,
}
use voidchats_note2ee.Limits.Bucket.Potential.{IsTimed, entry_of}
use voidchats_note2ee.Limits.Bucket.Rounding.{IsRounded}
use voidchats_note2ee.Limits.Bucket.Retrying.{IsRoundedBelow, retry_a_millisecond_later}
use voidchats_note2ee.Limits.Bucket.Waiting.{AllRefused, block_holds}
use voidchats_note2ee.Limits.Lockout.{
  ip, subject, Dimension, Request, Store, admit, dimension_id, normalize_dimension,
  send_lockout_response,
}
use voidchats_note2ee.Limits.Lockout.Rate.{passes, passes_bound, end_of}

runs : Unit {0}
unfolding consume_token_bucket script refilled still_blocked limited spend ceil_div blocked_for
    admit dimension_id normalize_dimension send_lockout_response
runs = tt

-- Numbers with 60000 units in 1 that round down: each refill of the policies here is exact.
abbrev fine : Numbers
fine = record {
  one = 60000;
  sum = λ x y. x + y;
  product = λ x y. x * y / 60000;
  quotient = λ x y. x * 60000 / y;
  difference = λ x y. x - y;
}

abbrev plain : Policy
plain = record { refill_window_sec = 60; bucket_size = 2; block_seconds = [] }

abbrev escalating : Policy
escalating = record { refill_window_sec = 60; bucket_size = 2; block_seconds = 30 ∷ 300 ∷ [] }

abbrev empty_bucket : Bucket
empty_bucket = record {
  tokens = 0;
  updated_at = 1000;
  blocked_until = 0;
  limit_hits = 0;
  last_limited_at = 0;
  expires = 61000;
}

empty_bucket-IsTimed : (p : Policy) → p.refill_window_sec ≡ 60 → IsTimed p 1000 empty_bucket
empty_bucket-IsTimed p h = record { written = omega arith; lasting = omega arith }

answers :
    ((consume_token_bucket fine plain 1000 none).verdict.allowed ≡ true)
    × ((consume_token_bucket fine plain 1000 (some empty_bucket)).verdict.retry_seconds ≡ 30)
    × ((consume_token_bucket fine escalating 1000 (some empty_bucket)).verdict.reset_time ≡ 31000)
    × ((consume_token_bucket fine escalating 31000 (
          entry_of (consume_token_bucket fine escalating 1000 (some empty_bucket)))).verdict.allowed
        ≡ true)
unfolding runs
answers = (refl, refl, refl, refl)

block_holds_example :
    AllRefused fine escalating 31000
      (2000 ∷ 30999 ∷ [])
      (consume_token_bucket fine escalating 1000 (some empty_bucket)).bucket
unfolding runs
block_holds_example =
    block_holds fine escalating 1000 (some empty_bucket) (2000 ∷ 30999 ∷ []) (omega arith) refl
      (omega arith, (omega arith, tt))

abbrev hash_key_part : Option ℕ → ℕ
hash_key_part none = 0
hash_key_part (some n) = n + 1

abbrev dimensions : List Dimension
dimensions =
    record { scope = subject; limits = plain } ∷ record { scope = ip; limits = escalating } ∷ []

abbrev sign_in : ℕ → ℕ → Request
sign_in now address = record {
  now = now;
  fingerprint = 1;
  client_ip = some address;
  subject = some 77;
  reachable = λ n. true;
}

abbrev sign_ins : List Request
sign_ins = sign_in 1000 5 ∷ sign_in 2000 6 ∷ sign_in 3000 7 ∷ []

abbrev no_buckets : Store
no_buckets scope id = none

-- The third attempt on the subject is refused, though each comes from another address.
third_refused : passes fine hash_key_part subject 78 sign_ins dimensions no_buckets ≡ 2
unfolding runs
third_refused = refl

-- The precision of a double.
abbrev precision : ℕ
precision = 2 ^ 53

fine-IsRounded : IsRounded fine precision
fine-IsRounded = record {
  precise = omega arith;
  sum_le = λ x y. omega arith;
  product_le = λ n y. omega (arith, div-mul-le_self (n * 60000 * y) 60000);
  quotient_le = λ m n. omega (arith, div-mul-le_self (m * 60000 * 60000) (n * 60000));
  difference_exact = λ x h fits. refl;
}

passes_bound_example :
    passes fine hash_key_part subject 78 sign_ins dimensions no_buckets * (60000 * window_ms plain)
    ≤ plain.bucket_size * (60000 * window_ms plain)
      + (end_of 1000 sign_ins - 1000) * (plain.bucket_size * 60000)
      + 3 * (2 * 1)
passes_bound_example =
    passes_bound fine precision 1 hash_key_part subject 78 plain dimensions sign_ins 1000 no_buckets
      fine-IsRounded (omega arith) (omega arith) ((λ h. refl), ((λ h. absurd (cc h)), tt)) tt
      (omega arith, (omega arith, (omega arith, tt)))

-- The same units, with quotients that are rounded up.
abbrev generous : Numbers
generous = record fine { quotient = λ x y. (x * 60000 + (y - 1)) / y }

generous-IsRoundedBelow : IsRoundedBelow generous precision
generous-IsRoundedBelow = record {
  some_units = omega arith;
  precise = omega arith;
  sum_ge = λ x y. omega arith;
  product_ge = λ n y.
      omega (
        arith,
        div-add-mod (n * 60000 * y) 60000,
        mod-lt (n * 60000 * y) {m = 60000} (omega arith),
      );
  quotient_ge = λ x y some_y fits.
      omega (arith, div-add-mod (x * 60000 + (y - 1)) y, mod-lt (x * 60000 + (y - 1)) some_y);
  difference_ge = λ x h. omega arith;
  nothing_added = λ x y. omega (arith, div-mul-le_self (0 * y) 60000);
}

retry_a_millisecond_later_example :
    (consume_token_bucket generous plain 31001
      (entry_of (consume_token_bucket generous plain 1000 (some empty_bucket)))).verdict.allowed
    ≡ true
unfolding runs
retry_a_millisecond_later_example =
    retry_a_millisecond_later generous precision generous-IsRoundedBelow plain (omega arith)
      (omega arith) (omega arith) 1000 31001 (some empty_bucket) refl (omega arith) refl
      (omega arith)
