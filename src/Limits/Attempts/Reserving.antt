-- ===== src/Limits/Attempts/Reserving.antt =====
-- How many attempts at a sensitive action a user has in a window, from wherever they come.
use voidchats_note2ee.Common.{
  ℕ, ◌+◌, ◌≤◌, ◌<◌, ◌≡◌, refl, Bool, true, false, not, Option, none, some, List, [], ◌∷◌, ◌==◌, ltb,
  if◌then◌else◌, keep, min, includes, arith, ==_refl, Bool-cases, inl, inr,
}
use voidchats_note2ee.Limits.Counters.{
  Entry, text, other_type, include, Store, live, Tally, no_tally, counted, increment_keys, Call,
  increment_fixed_window_counters, normalize_keys, counter_state,
}
use voidchats_note2ee.Limits.Counters.Windows.{Holds, increment_keys-Grown, increment_keys-Opened}
use voidchats_note2ee.Limits.Attempts.{
  Prefix, action_user, action_source, Source, Answer, allowed, limit_exceeded, failed_type,
  failed_store, Reservation, reserve_sensitive_action_attempt, sensitive_action_max_failures,
  sensitive_action_window_seconds, sensitive_action_keys, reservation,
}

-- The attempt may go on.
abbrev pub is_let_through : Answer Reservation → Bool
is_let_through (allowed r) = not r.blocked
is_let_through (limit_exceeded s) = false
is_let_through failed_type = false
is_let_through failed_store = false

counted_later :
    (now : ℕ) (entry : Option Entry)
    → now ≤ (counted now sensitive_action_window_seconds (live now entry)).1
counted_later now none = omega arith
counted_later now (some other_type) = omega arith
counted_later now (some (text raw none)) = omega arith
counted_later now (some (text raw (some until))) = ground arith

counted_positive :
    (now : ℕ) (entry : Option Entry)
    → 0 < (counted now sensitive_action_window_seconds (live now entry)).0
counted_positive now none = omega arith
counted_positive now (some other_type) = omega arith
counted_positive now (some (text raw none)) = omega arith
counted_positive now (some (text raw (some until))) = ground arith

module _ (key_of : Prefix → List (Option ℕ) → ℕ) (user action : ℕ) where
  abbrev pub user_key : ℕ
  user_key = key_of action_user (some user ∷ some action ∷ [])

  abbrev source_key : Source → ℕ
  source_key source =
      key_of action_source (some user ∷ some action ∷ source.ip ∷ source.device ∷ [])

  -- The keys that a reservation counts.
  abbrev both_keys : Source → List ℕ
  both_keys source = user_key ∷ keep (λ j. not (j == user_key)) (source_key source ∷ [])

  abbrev counting : Call → Source → Store → Tally × Store
  counting call source store =
      increment_keys call.now sensitive_action_max_failures sensitive_action_window_seconds
        (both_keys source) no_tally store

  abbrev reserve : Call → Source → Store → Answer Reservation × Store
  reserve call source store =
      reserve_sensitive_action_attempt key_of call source (some user) (some action) store

  reserve_up :
      (call : Call) (source : Source) (store : Store)
      → call.up ≡ true
      → reserve call source store ≡ (
        allowed (
            reservation
              (counter_state sensitive_action_max_failures (counting call source store).0)),
        (counting call source store).1,
      )
  unfolding reserve_sensitive_action_attempt increment_fixed_window_counters sensitive_action_keys
      normalize_keys
  reserve_up call source store up =
      rw (reserve_sensitive_action_attempt, increment_fixed_window_counters, up) refl

  reserve_down :
      (call : Call) (source : Source) (store : Store)
      → call.up ≡ false
      → reserve call source store ≡ (failed_store, store)
  unfolding reserve_sensitive_action_attempt increment_fixed_window_counters sensitive_action_keys
      normalize_keys
  reserve_down call source store down =
      rw (reserve_sensitive_action_attempt, increment_fixed_window_counters, down) refl

  -- The attempts of a run that may go on.
  abbrev pub let_through : List (Call × Source) → Store → ℕ
  let_through [] store = 0
  let_through ((call, source) ∷ run) store =
      let (answer, after) = reserve call source store in
      (if is_let_through answer then 1 else 0) + let_through run after

  abbrev pub AllWithin : ℕ → List (Call × Source) → Type 0
  AllWithin until [] = Unit
  AllWithin until ((call, source) ∷ run) = (call.now ≤ until) × AllWithin until run

  among : (source : Source) → includes user_key (both_keys source) ≡ true
  among source = rw (==_refl user_key) refl

  through_count : (n most : ℕ) → (if not (ltb most n) then 1 else 0) + most ≤ most + 1
  through_count n most = ground arith

  window_bound :
      (n until : ℕ) (run : List (Call × Source)) (store : Store)
      → Holds user_key n until store
      → AllWithin until run
      → let_through run store + min n sensitive_action_max_failures ≤ sensitive_action_max_failures
  window_bound n until [] store held within = omega arith
  window_bound n until ((call, source) ∷ run) store held within = elim (Bool-cases call.up) [
    | inr down ↦
        rw (reserve_down call source store down)
          (omega (arith, window_bound n until run store held within.1))
    | inl up ↦
        let grown =
          increment_keys-Grown call.now sensitive_action_max_failures
            sensitive_action_window_seconds user_key n until (both_keys source) no_tally store held
            within.0 in
        let more = rw (among source) at grown.more in
        let told = grown.reported (among source) in
        let rest =
          window_bound grown.n_after until run (counting call source store).1 grown.held within.1 in
        rw (reserve_up call source store up) (ground (arith, more, told, rest))
  ]

  -- Where the user's window ends if an attempt is counted at a time.
  abbrev pub ends_at : ℕ → Store → ℕ
  ends_at now store = (counted now sensitive_action_window_seconds (live now (store user_key))).1

  -- A call that the store answers opens the user's window, if none is open. The calls up to the end
  -- of that window, from any address and device, let five attempts through at most.
  pub let_through_bound :
      (call : Call) (source : Source) (run : List (Call × Source)) (store : Store)
      → call.up ≡ true
      → AllWithin (ends_at call.now store) run
      → let_through ((call, source) ∷ run) store ≤ sensitive_action_max_failures
  let_through_bound call source run store up within =
      let opened =
        increment_keys-Opened call.now sensitive_action_max_failures sensitive_action_window_seconds
          user_key (both_keys source) no_tally store (among source)
          (counted_later call.now (store user_key)) in
      let rest =
        window_bound opened.n_after (ends_at call.now store) run (counting call source store).1
          opened.held within in
      let first = counted_positive call.now (store user_key) in
      rw (reserve_up call source store up)
        (ground (arith, opened.more, opened.reported, rest, first))

  -- Where the store answers, an attempt that meets no open window of the user or of the source is
  -- let through.
  pub reserve_renewed :
      (call : Call) (source : Source) (store : Store)
      → call.up ≡ true
      → live call.now (store user_key) ≡ none
      → live call.now (store (source_key source)) ≡ none
      → is_let_through (reserve call source store).0 ≡ true
  unfolding increment_keys include
  reserve_renewed call source store up no_user no_source =
      elim (Bool-cases (source_key source == user_key)) [
        | inl same ↦ rw (reserve_up call source store up, same, no_user) refl
        | inr other ↦ rw (reserve_up call source store up, other, no_user, other, no_source) refl
      ]
