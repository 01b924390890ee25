-- ===== src/Limits/Attempts/Reading.antt =====
-- What a check of some counters reports, and that it leaves every count.
use voidchats_note2ee.Common.{
  ℕ, ◌≡◌, refl, sym, ap, ◌∙◌, Bool, true, false, ◌||◌, Option, none, some, List, [], ◌∷◌, ◌==◌, ltb,
  leb, arith, ==_iff, ==_refl, Bool-cases, inl, inr,
}
use voidchats_note2ee.Limits.Counters.{
  Entry, text, other_type, Store, put, live, Tally, no_tally, include, check_keys, read_entry,
  cleaned, Call, get_fixed_window_counter_state, normalize_keys, counter_state, ok, CounterState,
}
use voidchats_note2ee.Limits.Attempts.{
  Answer, limit_exceeded, merge_counter_states, assert_state, both_states,
}

-- The attempts that an open window has counted.
abbrev pub attempts_at : ℕ → ℕ → Store → ℕ
attempts_at now key store = (read_entry now (live now (store key))).0

live_again :
    (now : ℕ) (entry : Option Entry)
    → (read_entry now (live now (cleaned (live now entry)))).0 ≡ (read_entry now (live now entry)).0
live_again now none = refl
live_again now (some other_type) = refl
live_again now (some (text raw none)) = refl
live_again now (some (text raw (some until))) = elim (Bool-cases (ltb until now)) [
  | inl gone ↦ rw gone refl
  | inr kept ↦ rw (kept, kept) refl
]

-- Reading a key leaves every count.
read_cleaned :
    (now key j : ℕ) (store : Store)
    → attempts_at now key (put j (cleaned (live now (store j))) store) ≡ attempts_at now key store
read_cleaned now key j store = elim (Bool-cases (key == j)) [
  | inl same ↦
      let e : key ≡ j = (==_iff key j).0 same in
      let entry = cleaned (live now (store key)) in
      let here : put key entry store key ≡ entry = rw (==_refl key) refl in
      ap (λ k. attempts_at now key (put k (cleaned (live now (store k))) store)) (sym e)
      ∙ ap (λ o. (read_entry now (live now o)).0) here
      ∙ live_again now (store key)
  | inr other ↦
      let entry = cleaned (live now (store j)) in
      let kept : put j entry store key ≡ store key = rw other refl in
      ap (λ o. (read_entry now (live now o)).0) kept
]

attempts_at-check_keys :
    (now most key : ℕ) (keys : List ℕ) (t : Tally) (store : Store)
    → attempts_at now key (check_keys now most keys t store).1 ≡ attempts_at now key store
unfolding check_keys
attempts_at-check_keys now most key [] t store = refl
attempts_at-check_keys now most key (j ∷ keys) t store =
    let (attempts, ttl_ms) = read_entry now (live now (store j)) in
    attempts_at-check_keys now most key keys (include most attempts ttl_ms t)
      (put j (cleaned (live now (store j))) store)
    ∙ read_cleaned now key j store

abbrev pub any_at_least : ℕ → ℕ → List ℕ → Store → Bool
any_at_least now most [] store = false
any_at_least now most (key ∷ keys) store =
    leb most (attempts_at now key store) || any_at_least now most keys store

any_cleaned :
    (now most j : ℕ) (keys : List ℕ) (store : Store)
    → any_at_least now most keys (put j (cleaned (live now (store j))) store)
      ≡ any_at_least now most keys store
any_cleaned now most j [] store = refl
any_cleaned now most j (key ∷ keys) store =
    rw (any_cleaned now most j keys store, read_cleaned now key j store) refl

pub any_checked :
    (now most m : ℕ) (keys visited : List ℕ) (store : Store)
    → any_at_least now most keys (check_keys now m visited no_tally store).1
      ≡ any_at_least now most keys store
any_checked now most m [] visited store = refl
any_checked now most m (key ∷ keys) visited store =
    rw
      (
        any_checked now most m keys visited store,
        attempts_at-check_keys now m key visited no_tally store,
      )
      refl

pub or_false : (b : Bool) → (b || false) ≡ b
or_false true = refl
or_false false = refl

pub or_same : (a b : Bool) → b ≡ a → (a || false) ≡ (a || b)
or_same true b h = refl
or_same false b h = sym h

exhausted-include :
    (most attempts ttl : ℕ) (t : Tally) (rest : Bool)
    → ((include most attempts ttl t).exhausted || rest)
      ≡ (t.exhausted || (leb most attempts || rest))
unfolding include
exhausted-include most attempts ttl t rest = ground arith

pub check_keys-exhausted :
    (now most : ℕ) (keys : List ℕ) (t : Tally) (store : Store)
    → (check_keys now most keys t store).0.exhausted
      ≡ (t.exhausted || any_at_least now most keys store)
unfolding check_keys
check_keys-exhausted now most [] t store = sym (or_false t.exhausted)
check_keys-exhausted now most (j ∷ keys) t store =
    let (attempts, ttl_ms) = read_entry now (live now (store j)) in
    check_keys-exhausted now most keys (include most attempts ttl_ms t)
      (put j (cleaned (live now (store j))) store)
    ∙ ap (λ b. (include most attempts ttl_ms t).exhausted || b) (any_cleaned now most j keys store)
    ∙ exhausted-include most attempts ttl_ms t (any_at_least now most keys store)

-- The request is refused, in the words of `assertEmailVerificationAllowed`.
abbrev pub is_refused : Answer CounterState → Bool
is_refused (limit_exceeded s) = true
is_refused _ = false

-- A call that is answered reports what the script found.
pub get_answered :
    (call : Call) (given : List (Option ℕ)) (keys : List ℕ) (most : ℕ) (store : Store)
    → call.up ≡ true
    → normalize_keys given ≡ some keys
    → ltb 0 most ≡ true
    → get_fixed_window_counter_state call given (some most) store ≡ (
      ok (counter_state most (check_keys call.now most keys no_tally store).0),
      (check_keys call.now most keys no_tally store).1,
    )
unfolding get_fixed_window_counter_state
get_answered call given keys most store up known positive =
    rw (get_fixed_window_counter_state, known, positive, up) refl

pub both_refused :
    (a b : CounterState)
    → is_refused (assert_state (both_states (ok a) (ok b))) ≡ (a.exhausted || b.exhausted)
unfolding merge_counter_states
both_refused a b = ground arith
