-- ===== src/Limits/Attempts.antt =====
-- VOID0000-api/server/auth/services/authAttemptLimitService.ts: the limits on failed email
-- verifications and on sensitive actions with a second factor. An address, a device, a user, a token
-- and an action (trimmed, in lower case) are numbers. The text of a key, its prefix with the digest
-- of its parts, is a parameter.
pub mod Reserving
pub mod Reading
pub mod Verifying
pub mod Tests
use voidchats_note2ee.Common.{
  ℕ, ◌-◌, Bool, true, false, ◌||◌, Option, none, some, List, [], ◌∷◌, ltb, leb, if◌then◌else◌, min,
  max,
}
use voidchats_note2ee.Limits.Counters.{
  Store, Result, ok, type_error, unavailable, Call, CounterState, increment_fixed_window_counters,
  get_fixed_window_counter_state, clear_fixed_window_counters,
}

abbrev pub email_verification_window_seconds : ℕ
email_verification_window_seconds = 900

abbrev pub email_verification_max_failures : ℕ
email_verification_max_failures = 8

abbrev pub email_verification_ip_max_failures : ℕ
email_verification_ip_max_failures = 30

abbrev pub sensitive_action_window_seconds : ℕ
sensitive_action_window_seconds = 900

abbrev pub sensitive_action_max_failures : ℕ
sensitive_action_max_failures = 5

-- The prefixes of the keys.
pub data Prefix : Type 0 where
  email_ip email_token_ip email_user action_user action_source : Prefix

-- `none` stands for 'unknown'.
pub record Source : Type 0 where
  pub ip : Option ℕ
  pub device : Option ℕ

-- What the functions answer: a state, or an error that they throw.
pub data Answer {ℓ} (A : Type ℓ) : Type ℓ where
  allowed : A → Answer A
  limit_exceeded : CounterState → Answer A
  failed_type failed_store : Answer A

abbrev answer_of {ℓ} : {A : Type ℓ} → Result A → Answer A
answer_of (ok a) = allowed a
answer_of type_error = failed_type
answer_of unavailable = failed_store

-- A state that is exhausted is thrown as SecurityLimitExceededError.
abbrev pub assert_state : Result CounterState → Answer CounterState
assert_state (ok s) = if s.exhausted then limit_exceeded s else allowed s
assert_state type_error = failed_type
assert_state unavailable = failed_store

abbrev pub merge_two : CounterState → CounterState → CounterState
merge_two merged s = record {
  attempts = max merged.attempts s.attempts;
  attempts_left = min merged.attempts_left s.attempts_left;
  exhausted = merged.exhausted || s.exhausted;
  retry_after_seconds = max merged.retry_after_seconds s.retry_after_seconds;
}

abbrev no_states : CounterState
no_states = record {
  attempts = 0;
  attempts_left = 9007199254740991;
  exhausted = false;
  retry_after_seconds = 0;
}

abbrev merge_into : CounterState → List CounterState → CounterState
merge_into merged [] = merged
merge_into merged (s ∷ states) = merge_into (merge_two merged s) states

unfoldable pub merge_counter_states : List CounterState → CounterState
merge_counter_states states = merge_into no_states states

-- `Promise.all` over two calls: the first error is thrown.
abbrev both_states : Result CounterState → Result CounterState → Result CounterState
both_states (ok a) (ok b) = ok (merge_counter_states (a ∷ b ∷ []))
both_states (ok a) type_error = type_error
both_states (ok a) unavailable = unavailable
both_states type_error b = type_error
both_states unavailable b = unavailable

-- The state of an action's counter after a reservation.
pub record Reservation : Type 0 where
  pub state : CounterState
  pub attempts_left : ℕ
  pub limit_reached : Bool
  pub blocked : Bool

abbrev pub reservation : CounterState → Reservation
reservation s = record {
  state = s;
  attempts_left = sensitive_action_max_failures - s.attempts;
  limit_reached = leb sensitive_action_max_failures s.attempts;
  blocked = ltb sensitive_action_max_failures s.attempts;
}

abbrev reserved : Result CounterState → Answer Reservation
reserved (ok s) = allowed (reservation s)
reserved type_error = failed_type
reserved unavailable = failed_store

module _ (key_of : Prefix → List (Option ℕ) → ℕ) where
  abbrev pub ip_key : Source → Option ℕ
  ip_key source = some (key_of email_ip (source.ip ∷ []))

  -- The keys for the token and for the user, if there is one.
  unfoldable pub email_verification_keys : Source → ℕ → Option ℕ → List (Option ℕ)
  email_verification_keys source token none =
      some (key_of email_token_ip (some token ∷ source.ip ∷ [])) ∷ []
  email_verification_keys source token (some user) =
      some (key_of email_token_ip (some token ∷ source.ip ∷ []))
      ∷ some (key_of email_user (some user ∷ []))
      ∷ []

  -- `none` is the TypeError for a missing user or action.
  unfoldable pub sensitive_action_keys : Source → Option ℕ → Option ℕ → Option (List (Option ℕ))
  sensitive_action_keys source (some user) (some action) = some (
      some (key_of action_user (some user ∷ some action ∷ []))
      ∷ some (key_of action_source (some user ∷ some action ∷ source.ip ∷ source.device ∷ []))
      ∷ [])
  sensitive_action_keys source none action = none
  sensitive_action_keys source (some user) none = none

  unfoldable pub read_email_verification_state :
      Call → Source → ℕ → Option ℕ → Store → Result CounterState × Store
  unfolding email_verification_keys get_fixed_window_counter_state merge_counter_states
  read_email_verification_state call source token user store =
      let (by_ip, after) =
        get_fixed_window_counter_state call (ip_key source ∷ [])
          (some email_verification_ip_max_failures) store in
      let (by_token, last) =
        get_fixed_window_counter_state call (email_verification_keys source token user)
          (some email_verification_max_failures) after in
      (both_states by_ip by_token, last)

  unfoldable pub assert_email_verification_allowed :
      Call → Source → ℕ → Option ℕ → Store → Answer CounterState × Store
  unfolding read_email_verification_state
  assert_email_verification_allowed call source token user store =
      let (state, after) = read_email_verification_state call source token user store in
      (assert_state state, after)

  unfoldable pub record_email_verification_failure :
      Call → Source → ℕ → Option ℕ → Store → Result CounterState × Store
  unfolding email_verification_keys increment_fixed_window_counters merge_counter_states
  record_email_verification_failure call source token user store =
      let (by_ip, after) =
        increment_fixed_window_counters call (ip_key source ∷ [])
          (some email_verification_ip_max_failures) (some email_verification_window_seconds)
          store in
      let (by_token, last) =
        increment_fixed_window_counters call (email_verification_keys source token user)
          (some email_verification_max_failures) (some email_verification_window_seconds) after in
      (both_states by_ip by_token, last)

  unfoldable pub clear_email_verification_failures :
      Call → Source → ℕ → Option ℕ → Bool → Store → Result (Unit {0}) × Store
  unfolding email_verification_keys clear_fixed_window_counters
  clear_email_verification_failures call source token user include_ip store =
      clear_fixed_window_counters call
        (if include_ip
          then ip_key source ∷ email_verification_keys source token user
          else email_verification_keys source token user)
        store

  unfoldable pub assert_sensitive_action_allowed :
      Call → Source → Option ℕ → Option ℕ → Store → Answer CounterState × Store
  unfolding sensitive_action_keys get_fixed_window_counter_state
  assert_sensitive_action_allowed call source user action store =
      elim (sensitive_action_keys source user action) [
        | none ↦ (failed_type, store)
        | some keys ↦
            let (state, after) =
              get_fixed_window_counter_state call keys (some sensitive_action_max_failures) store in
            (assert_state state, after)
      ]

  unfoldable pub reserve_sensitive_action_attempt :
      Call → Source → Option ℕ → Option ℕ → Store → Answer Reservation × Store
  unfolding sensitive_action_keys increment_fixed_window_counters
  reserve_sensitive_action_attempt call source user action store =
      elim (sensitive_action_keys source user action) [
        | none ↦ (failed_type, store)
        | some keys ↦
            let (state, after) =
              increment_fixed_window_counters call keys (some sensitive_action_max_failures)
                (some sensitive_action_window_seconds) store in
            (reserved state, after)
      ]

  unfoldable pub clear_sensitive_action_failures :
      Call → Source → Option ℕ → Option ℕ → Store → Result (Unit {0}) × Store
  unfolding sensitive_action_keys clear_fixed_window_counters
  clear_sensitive_action_failures call source user action store =
      elim (sensitive_action_keys source user action) [
        | none ↦ (type_error, store)
        | some keys ↦ clear_fixed_window_counters call keys store
      ]
