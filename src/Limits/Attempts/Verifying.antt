-- ===== src/Limits/Attempts/Verifying.antt =====
-- When a failed email verification is refused, and by which of the counters.
use voidchats_note2ee.Common.{
  ℕ, ◌≡◌, refl, ap, ◌∙◌, Bool, true, false, ◌||◌, Option, none, some, List, [], ◌∷◌, ◌==◌, leb,
  ==_iff, Bool-cases, inl, inr,
}
use voidchats_note2ee.Limits.Counters.{
  Store, no_tally, check_keys, Call, get_fixed_window_counter_state, normalize_keys, counter_state,
  distinct_keys, ok, Result, CounterState,
}
use voidchats_note2ee.Limits.Attempts.{
  Prefix, email_ip, email_token_ip, email_user, Source, assert_email_verification_allowed,
  read_email_verification_state, email_verification_keys, assert_state, both_states,
  email_verification_ip_max_failures, email_verification_max_failures,
}
use voidchats_note2ee.Limits.Attempts.Reading.{
  any_at_least, check_keys-exhausted, any_checked, or_false, or_same, get_answered, both_refused,
  is_refused, attempts_at,
}

module _ (key_of : Prefix → List (Option ℕ) → ℕ) where
  abbrev pub too_many_of_user : ℕ → Option ℕ → Store → Bool
  too_many_of_user now none store = false
  too_many_of_user now (some user) store =
      leb email_verification_max_failures
        (attempts_at now (key_of email_user (some user ∷ [])) store)

  abbrev pub too_many_failures : ℕ → Source → ℕ → Option ℕ → Store → Bool
  too_many_failures now source token user store =
      leb email_verification_ip_max_failures
        (attempts_at now (key_of email_ip (source.ip ∷ [])) store)
      || (leb email_verification_max_failures
            (attempts_at now (key_of email_token_ip (some token ∷ source.ip ∷ [])) store)
          || too_many_of_user now user store)

  asked_keys : Source → ℕ → Option ℕ → List ℕ
  asked_keys source token user = distinct_keys (email_verification_keys key_of source token user)

  asked :
      (source : Source) (token : ℕ) (user : Option ℕ)
      → normalize_keys (email_verification_keys key_of source token user)
        ≡ some (asked_keys source token user)
  unfolding normalize_keys email_verification_keys asked_keys
  asked source token none = refl
  asked source token (some user) = refl

  asked_any :
      (now : ℕ) (source : Source) (token : ℕ) (user : Option ℕ) (store : Store)
      → any_at_least now email_verification_max_failures (asked_keys source token user) store ≡ (
          leb email_verification_max_failures
            (attempts_at now (key_of email_token_ip (some token ∷ source.ip ∷ [])) store)
          || too_many_of_user now user store)
  unfolding email_verification_keys asked_keys
  asked_any now source token none store = refl
  asked_any now source token (some user) store =
      let token_key = key_of email_token_ip (some token ∷ source.ip ∷ []) in
      let user_key = key_of email_user (some user ∷ []) in
      elim (Bool-cases (user_key == token_key)) [
        | inl same ↦
            let one =
              ap (λ k. leb email_verification_max_failures (attempts_at now k store))
                ((==_iff user_key token_key).0 same) in
            rw same (
              or_same (leb email_verification_max_failures (attempts_at now token_key store))
                (leb email_verification_max_failures (attempts_at now user_key store)) one)
        | inr other ↦ rw other (
            ap (λ b. leb email_verification_max_failures (attempts_at now token_key store) || b)
              (or_false (leb email_verification_max_failures (attempts_at now user_key store))))
      ]

  abbrev after_ip : Call → Source → Store → Store
  after_ip call source store =
      (check_keys call.now email_verification_ip_max_failures
        (key_of email_ip (source.ip ∷ []) ∷ []) no_tally store).1

  abbrev by_keys : Call → Source → ℕ → Option ℕ → Store → Result CounterState × Store
  by_keys call source token user store =
      get_fixed_window_counter_state call (email_verification_keys key_of source token user)
        (some email_verification_max_failures) store

  -- The two calls of a check, one after the other.
  read_refuses :
      (call : Call) (source : Source) (token : ℕ) (user : Option ℕ) (store : Store)
      → call.up ≡ true
      → is_refused (assert_email_verification_allowed key_of call source token user store).0 ≡ (
          (check_keys call.now email_verification_ip_max_failures
            (key_of email_ip (source.ip ∷ []) ∷ [])
            no_tally
            store).0.exhausted
          || (check_keys call.now email_verification_max_failures
              (asked_keys source token user)
              no_tally
              (after_ip call source store)).0.exhausted)
  unfolding assert_email_verification_allowed read_email_verification_state normalize_keys
  read_refuses call source token user store up =
      let ip = key_of email_ip (source.ip ∷ []) in
      let after = after_ip call source store in
      let first =
        get_answered call (some ip ∷ []) (ip ∷ []) email_verification_ip_max_failures store up refl
          refl in
      let second =
        get_answered call (email_verification_keys key_of source token user)
          (asked_keys source token user) email_verification_max_failures after up
          (asked source token user) refl in
      let by_ip =
        counter_state email_verification_ip_max_failures
          (check_keys call.now email_verification_ip_max_failures (ip ∷ []) no_tally store).0 in
      ap
        (λ (r : Result CounterState × Store).
          is_refused (assert_state (both_states r.0 (by_keys call source token user r.1).0)))
        first
      ∙ ap
          (λ (r : Result CounterState × Store).
            is_refused (assert_state (both_states (ok by_ip) r.0)))
          second
      ∙ both_refused by_ip (
          counter_state email_verification_max_failures
            (check_keys call.now email_verification_max_failures (asked_keys source token user)
              no_tally after).0)

  -- Where the store answers, a verification is refused exactly where an open window has thirty
  -- failures of the address, or eight of the token at the address, or eight of the user, if there
  -- is one.
  pub assert_email_verification_refuses :
      (call : Call) (source : Source) (token : ℕ) (user : Option ℕ) (store : Store)
      → call.up ≡ true
      → is_refused (assert_email_verification_allowed key_of call source token user store).0
        ≡ too_many_failures call.now source token user store
  assert_email_verification_refuses call source token user store up =
      let ip = key_of email_ip (source.ip ∷ []) in
      let keys = asked_keys source token user in
      let by_ip = leb email_verification_ip_max_failures (attempts_at call.now ip store) in
      let after = after_ip call source store in
      let most = email_verification_max_failures in
      let ip_known =
        check_keys-exhausted call.now email_verification_ip_max_failures (ip ∷ []) no_tally store in
      let token_known =
        check_keys-exhausted call.now most keys no_tally after
        ∙ any_checked call.now most email_verification_ip_max_failures keys (ip ∷ []) store
        ∙ asked_any call.now source token user store in
      read_refuses call source token user store up
      ∙ ap (λ b. b || (check_keys call.now most keys no_tally after).0.exhausted)
          (ip_known ∙ or_false by_ip)
      ∙ ap (λ b. by_ip || b) token_known
