-- ===== src/Limits/Attempts/Tests.antt =====
-- The limits on attempts at concrete calls, and the theorems on them there.
use voidchats_note2ee.Common.{
  ℕ, zero, suc, ◌+◌, ◌*◌, ◌≡◌, ◌≤◌, refl, true, false, Option, none, some, List, [], ◌∷◌, ◌++◌,
  arith,
}
use voidchats_note2ee.Limits.Counters.{
  Store, Call, increment_fixed_window_counters, get_fixed_window_counter_state,
  clear_fixed_window_counters, normalize_keys, increment_keys, check_keys, include,
}
use voidchats_note2ee.Limits.Attempts.{
  Prefix, email_ip, email_token_ip, email_user, action_user, action_source, Source,
  record_email_verification_failure, assert_email_verification_allowed,
  clear_email_verification_failures, assert_sensitive_action_allowed,
  reserve_sensitive_action_attempt, clear_sensitive_action_failures, sensitive_action_keys,
  email_verification_keys, read_email_verification_state, merge_counter_states,
}
use voidchats_note2ee.Limits.Attempts.Reserving.{let_through, let_through_bound}
use voidchats_note2ee.Limits.Attempts.Reading.{is_refused}
use voidchats_note2ee.Limits.Attempts.Verifying.{
  too_many_failures, assert_email_verification_refuses,
}

runs : Unit {0}
unfolding record_email_verification_failure assert_email_verification_allowed
    clear_email_verification_failures assert_sensitive_action_allowed
    reserve_sensitive_action_attempt clear_sensitive_action_failures increment_fixed_window_counters
    get_fixed_window_counter_state clear_fixed_window_counters normalize_keys increment_keys
    check_keys include sensitive_action_keys email_verification_keys read_email_verification_state
    merge_counter_states
runs = tt

abbrev part : Option ℕ → ℕ
part none = 0
part (some n) = n + 1

abbrev digest : List (Option ℕ) → ℕ
digest [] = 0
digest (p ∷ parts) = part p + 1000 * digest parts

abbrev key_of : Prefix → List (Option ℕ) → ℕ
key_of email_ip parts = 5 * digest parts
key_of email_token_ip parts = 5 * digest parts + 1
key_of email_user parts = 5 * digest parts + 2
key_of action_user parts = 5 * digest parts + 3
key_of action_source parts = 5 * digest parts + 4

abbrev nothing_stored : Store
nothing_stored key = none

abbrev call_at : ℕ → Call
call_at now = record { up = true; now = now }

abbrev from : ℕ → Source
from address = record { ip = some address; device = none }

abbrev later_calls : List (Call × Source)
later_calls =
    (call_at 2000, from 2)
    ∷ (call_at 3000, from 3)
    ∷ (call_at 4000, from 4)
    ∷ (call_at 5000, from 5)
    ∷ (call_at 6000, from 6)
    ∷ []

-- The sixth attempt is stopped, though each comes from another address; a window later it is not.
five_of_six :
    (let_through key_of 70 3 ((call_at 1000, from 1) ∷ later_calls) nothing_stored ≡ 5)
    × (let_through key_of 70 3
          ((call_at 1000, from 1) ∷ later_calls ++ (call_at 901001, from 1) ∷ [])
          nothing_stored
        ≡ 6)
unfolding runs
five_of_six = (refl, refl)

let_through_bound_example :
    let_through key_of 70 3 ((call_at 1000, from 1) ∷ later_calls) nothing_stored ≤ 5
let_through_bound_example =
    let_through_bound key_of 70 3 (call_at 1000) (from 1) later_calls nothing_stored refl
      (omega arith, (omega arith, (omega arith, (omega arith, (omega arith, tt)))))

-- Eight failures of the user, from different addresses and with different tokens.
abbrev failures : ℕ → Store → Store
failures zero store = store
failures (suc n) store =
    (record_email_verification_failure key_of (call_at 1000) (from n) (n + 50) (some 70)
      (failures n store)).1

assert_email_verification_refuses_example :
    is_refused
      (assert_email_verification_allowed key_of
        (call_at 2000)
        (from 20)
        99
        (some 70)
        (failures 8 nothing_stored)).0
    ≡ too_many_failures key_of 2000 (from 20) 99 (some 70) (failures 8 nothing_stored)
assert_email_verification_refuses_example =
    assert_email_verification_refuses key_of (call_at 2000) (from 20) 99 (some 70)
      (failures 8 nothing_stored) refl

refused_then :
    (too_many_failures key_of 2000 (from 20) 99 (some 70) (failures 8 nothing_stored) ≡ true)
    × (too_many_failures key_of 2000 (from 20) 99 (some 70) (failures 7 nothing_stored) ≡ false)
unfolding runs
refused_then = (refl, refl)
