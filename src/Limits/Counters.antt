-- ===== src/Limits/Counters.antt =====
-- VOID0000-api/server/auth/services/securityCounterService.ts: counters of attempts in fixed
-- windows. A key is a number, `none` where its trimmed text is empty; times are milliseconds of the
-- store's clock. A script runs as one atomic step. A call that fails is taken to change nothing.
pub mod Windows
use voidchats_note2ee.Common.{
  ℕ, suc, ◌+◌, ◌-◌, ◌*◌, ◌/◌, Bool, true, false, not, ◌&&◌, ◌||◌, Option, none, some, List, [], ◌∷◌,
  ◌==◌, ltb, leb, if◌then◌else◌, keep, max,
}

-- What is stored under a key: a text, which may be a number, with the time after which it is
-- dropped, or a value of another type.
pub data Entry : Type 0 where
  text : Option ℕ → Option ℕ → Entry
  other_type : Entry

abbrev pub Store : Type 0
Store = ℕ → Option Entry

abbrev pub put : ℕ → Option Entry → Store → Store
put key entry store = λ j. if j == key then entry else store j

-- The store gives no entry that has expired.
abbrev pub live : ℕ → Option Entry → Option Entry
live now (some (text raw (some until))) =
    if ltb until now then none else some (text raw (some until))
live now entry = entry

-- `tonumber(raw) or 0`
abbrev pub attempts_of : Option ℕ → ℕ
attempts_of none = 0
attempts_of (some n) = n

abbrev pub ceil_seconds : ℕ → ℕ
ceil_seconds ms = (ms + 999) / 1000

-- The script's local variables.
pub record Tally : Type 0 where
  pub highest_attempts : ℕ
  pub exhausted : Bool
  pub retry_after_seconds : ℕ

abbrev pub no_tally : Tally
no_tally = record { highest_attempts = 0; exhausted = false; retry_after_seconds = 0 }

-- The end of a round of either loop.
unfoldable pub include : ℕ → ℕ → ℕ → Tally → Tally
include max_attempts attempts ttl_ms t = record {
  highest_attempts = max t.highest_attempts attempts;
  exhausted = if leb max_attempts attempts then true else t.exhausted;
  retry_after_seconds =
      if leb max_attempts attempts
      then max t.retry_after_seconds (ceil_seconds ttl_ms)
      else t.retry_after_seconds;
}

-- The counter of a key after one more attempt: its count and its expiry, which an attempt does not
-- move where there is one.
abbrev pub counted : ℕ → ℕ → Option Entry → ℕ × ℕ
counted now window_seconds (some (text raw (some until))) = (attempts_of raw + 1, until)
counted now window_seconds (some (text raw none)) =
    (attempts_of raw + 1, now + window_seconds * 1000)
counted now window_seconds _ = (1, now + window_seconds * 1000)

-- INCREMENT_FIXED_WINDOW_SCRIPT's loop
unfoldable pub increment_keys : ℕ → ℕ → ℕ → List ℕ → Tally → Store → Tally × Store
unfolding include
increment_keys now max_attempts window_seconds [] t store = (t, store)
increment_keys now max_attempts window_seconds (key ∷ keys) t store =
    let (attempts, until) = counted now window_seconds (live now (store key)) in
    increment_keys now max_attempts window_seconds keys
      (include max_attempts attempts (until - now) t)
      (put key (some (text (some attempts) (some until))) store)

-- The count and the remaining time that CHECK_FIXED_WINDOW_SCRIPT reads.
abbrev pub read_entry : ℕ → Option Entry → ℕ × ℕ
read_entry now (some (text raw (some until))) = (attempts_of raw, until - now)
read_entry now (some (text raw none)) = (attempts_of raw, 0)
read_entry now _ = (0, 0)

-- A value of another type is deleted.
abbrev pub cleaned : Option Entry → Option Entry
cleaned (some other_type) = none
cleaned entry = entry

-- CHECK_FIXED_WINDOW_SCRIPT's loop
unfoldable pub check_keys : ℕ → ℕ → List ℕ → Tally → Store → Tally × Store
unfolding include
check_keys now max_attempts [] t store = (t, store)
check_keys now max_attempts (key ∷ keys) t store =
    let (attempts, ttl_ms) = read_entry now (live now (store key)) in
    check_keys now max_attempts keys (include max_attempts attempts ttl_ms t)
      (put key (cleaned (live now (store key))) store)

-- SecurityCounterState
pub record CounterState : Type 0 where
  pub attempts : ℕ
  pub attempts_left : ℕ
  pub exhausted : Bool
  pub retry_after_seconds : ℕ

-- The scripts' reply, which `parseCounterState` reads back.
abbrev pub counter_state : ℕ → Tally → CounterState
counter_state max_attempts t = record {
  attempts = t.highest_attempts;
  attempts_left = max_attempts - t.highest_attempts;
  exhausted = t.exhausted;
  retry_after_seconds = t.retry_after_seconds;
}

-- A result, or what is thrown: a TypeError or a SecurityCounterUnavailableError.
pub data Result {ℓ} (A : Type ℓ) : Type ℓ where
  ok : A → Result A
  type_error unavailable : Result A

-- The distinct keys that are not empty, in their order.
abbrev pub distinct_keys : List (Option ℕ) → List ℕ
distinct_keys [] = []
distinct_keys (none ∷ keys) = distinct_keys keys
distinct_keys (some key ∷ keys) = key ∷ keep (λ j. not (j == key)) (distinct_keys keys)

-- `none` is the TypeError.
abbrev pub at_least_one : List ℕ → Option (List ℕ)
at_least_one [] = none
at_least_one (key ∷ keys) = some (key ∷ keys)

unfoldable pub normalize_keys : List (Option ℕ) → Option (List ℕ)
normalize_keys keys = at_least_one (distinct_keys keys)

-- A value that is no safe integer, or a negative one, is `none`.
abbrev pub normalize_positive_integer : Option ℕ → Option ℕ
normalize_positive_integer none = none
normalize_positive_integer (some value) = if ltb 0 value then some value else none

-- A call of the store at a time; `up` tells whether it answers.
pub record Call : Type 0 where
  pub up : Bool
  pub now : ℕ

unfoldable pub increment_fixed_window_counters :
    Call → List (Option ℕ) → Option ℕ → Option ℕ → Store → Result CounterState × Store
unfolding normalize_keys increment_keys
increment_fixed_window_counters call keys max_attempts window_seconds store =
    elim (normalize_keys keys) [
      | none ↦ (type_error, store)
      | some normalized ↦ elim (normalize_positive_integer max_attempts) [
        | none ↦ (type_error, store)
        | some most ↦ elim (normalize_positive_integer window_seconds) [
          | none ↦ (type_error, store)
          | some window ↦
              if call.up
              then (let (t, after) =
                    increment_keys call.now most window normalized no_tally store in
                  (ok (counter_state most t), after))
              else (unavailable, store)
        ]
      ]
    ]

unfoldable pub get_fixed_window_counter_state :
    Call → List (Option ℕ) → Option ℕ → Store → Result CounterState × Store
unfolding normalize_keys check_keys
get_fixed_window_counter_state call keys max_attempts store = elim (normalize_keys keys) [
  | none ↦ (type_error, store)
  | some normalized ↦ elim (normalize_positive_integer max_attempts) [
    | none ↦ (type_error, store)
    | some most ↦
        if call.up
        then (let (t, after) = check_keys call.now most normalized no_tally store in
            (ok (counter_state most t), after))
        else (unavailable, store)
  ]
]

abbrev delete_keys : List ℕ → Store → Store
delete_keys [] store = store
delete_keys (key ∷ keys) store = delete_keys keys (put key none store)

unfoldable pub clear_fixed_window_counters :
    Call → List (Option ℕ) → Store → Result (Unit {0}) × Store
unfolding normalize_keys
clear_fixed_window_counters call keys store = elim (normalize_keys keys) [
  | none ↦ (type_error, store)
  | some normalized ↦
      if call.up then (ok tt, delete_keys normalized store) else (unavailable, store)
]
