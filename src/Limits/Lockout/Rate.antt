-- ===== src/Limits/Lockout/Rate.antt =====
-- How often the limiter lets requests pass for one identifier, whoever sends them and whatever else
-- they are counted under.
use voidchats_note2ee.Common.{
  ℕ, ◌+◌, ◌-◌, ◌*◌, ◌≤◌, length, ◌≡◌, ap, Bool, true, false, ◌&&◌, Option, List, [], ◌∷◌,
  if◌then◌else◌, arith,
}
use voidchats_note2ee.Limits.Bucket.{Numbers, Policy, window_ms, capacity}
use voidchats_note2ee.Limits.Bucket.Potential.{
  IsTimedEntry, IsAccurate, token, available, available_later, available_le, timed_later,
}
use voidchats_note2ee.Limits.Bucket.Rounding.{IsRounded, rounded-IsAccurate}
use voidchats_note2ee.Limits.Lockout.{Scope, Dimension, Request, Store, admit}
use voidchats_note2ee.Limits.Lockout.Spending.{
  admit-Spent, concerns, has_scope, HasLimits, is_passed,
}

module _ (numbers : Numbers) (hash_key_part : Option ℕ → ℕ) (scope : Scope) (id : ℕ) where
  -- The requests of a run that pass and are counted under the identifier, the store after the run,
  -- and the time of the last request.
  abbrev pub passes : List Request → List Dimension → Store → ℕ
  passes [] dimensions store = 0
  passes (req ∷ requests) dimensions store =
      let done = admit hash_key_part numbers req dimensions store in
      (if is_passed done.1 && has_scope scope dimensions && concerns hash_key_part scope id req
        then 1
        else 0)
      + passes requests dimensions done.0

abbrev pub InOrder : ℕ → List Request → Type 0
InOrder start [] = Unit
InOrder start (req ∷ requests) = (start ≤ req.now) × InOrder req.now requests

abbrev pub end_of : ℕ → List Request → ℕ
end_of start [] = start
end_of start (req ∷ requests) = end_of req.now requests

end_of_le :
    (start : ℕ) (requests : List Request) → InOrder start requests → start ≤ end_of start requests
end_of_le start [] ordered = omega arith
end_of_le start (req ∷ requests) ordered =
    omega (arith, ordered.0, end_of_le req.now requests ordered.1)

due_passes : (b : Bool) (w n : ℕ) → ((if b then 1 else 0) + n) * w ≡ (if b then w else 0) + n * w
due_passes true w n = omega arith
due_passes false w n = omega arith

passes_paid :
    (numbers : Numbers) (slack : ℕ) (hash_key_part : Option ℕ → ℕ) (scope : Scope) (id : ℕ)
    (p : Policy) (dimensions : List Dimension)
    → IsAccurate numbers p slack
    → HasLimits scope p dimensions
    → (requests : List Request) (start : ℕ) (store : Store) → IsTimedEntry p start (store scope id)
    → InOrder start requests
    → passes numbers hash_key_part scope id requests dimensions store * token numbers p
      ≤ available numbers p start (store scope id)
        + (end_of start requests - start) * capacity numbers p
        + length requests * (length dimensions * slack)
passes_paid numbers slack hash_key_part scope id p dimensions accurate limits [] start store timed
      ordered =
    omega arith
passes_paid numbers slack hash_key_part scope id p dimensions accurate limits (req ∷ requests) start
      store timed ordered =
    let then_timed = timed_later p start req.now (store scope id) timed ordered.0 in
    let one =
      admit-Spent numbers slack hash_key_part scope id p accurate req dimensions store limits
        then_timed in
    let done = admit hash_key_part numbers req dimensions store in
    let others =
      passes_paid numbers slack hash_key_part scope id p dimensions accurate limits requests req.now
        done.0 one.timed ordered.1 in
    let refill = available_later numbers p start req.now (store scope id) timed ordered.0 in
    let asked =
      due_passes
        (is_passed done.1 && has_scope scope dimensions && concerns hash_key_part scope id req)
        (token numbers p) (passes numbers hash_key_part scope id requests dimensions done.0) in
    let ends = end_of_le req.now requests ordered.1 in
    let apart : end_of req.now requests - start
        ≡ (end_of req.now requests - req.now) + (req.now - start) =
      omega (arith, ordered.0) in
    let time = ap (λ (t : ℕ). t * capacity numbers p) apart in omega (arith, one.paid)

-- Of the requests that come in order between the times `start` and `end`, at most as many pass
-- under one identifier of a dimension as the bucket holds and as the time between refills, up to
-- the rounding: in units times milliseconds, `passes` tokens are at most `bucket_size` tokens,
-- `bucket_size` units of 1 for each millisecond of `end - start`, and `slack` for each visit of a
-- request to a dimension. The numbers round up by a relative error of 1 / precision at most (2 ^ 53
-- for a double) and take 1 from a larger number exactly, the bucket is no larger than the
-- precision, and `slack` is at least four full buckets by the precision. All dimensions of the
-- scope have the same limits, and a bucket that is stored at the start was written earlier and is
-- kept for a window. A request that is waved through after a failure of the store is not counted.
pub passes_bound :
    (numbers : Numbers) (precision slack : ℕ) (hash_key_part : Option ℕ → ℕ) (scope : Scope)
    (id : ℕ) (p : Policy) (dimensions : List Dimension) (requests : List Request) (start : ℕ)
    (store : Store)
    → IsRounded numbers precision
    → p.bucket_size ≤ precision
    → 4 * (capacity numbers p * window_ms p) ≤ slack * precision
    → HasLimits scope p dimensions
    → IsTimedEntry p start (store scope id)
    → InOrder start requests
    → passes numbers hash_key_part scope id requests dimensions store * (numbers.one * window_ms p)
      ≤ p.bucket_size * (numbers.one * window_ms p)
        + (end_of start requests - start) * (p.bucket_size * numbers.one)
        + length requests * (length dimensions * slack)
passes_bound numbers precision slack hash_key_part scope id p dimensions requests start store
      rounded small enough limits timed ordered =
    let full = available_le numbers p start (store scope id) in
    let accurate = rounded-IsAccurate numbers precision slack p rounded small enough in
    omega (
      arith,
      passes_paid numbers slack hash_key_part scope id p dimensions accurate limits requests start
          store timed ordered,
    )
