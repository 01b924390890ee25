-- ===== src/Limits/Counters/Windows.antt =====
-- What a loop over some keys does to one window, and what it reports.
use voidchats_note2ee.Common.{
  ℕ, ◌+◌, ◌-◌, ◌≤◌, ◌≡◌, refl, ap, Bool, true, false, Option, some, List, [], ◌∷◌, ◌==◌, ltb,
  if◌then◌else◌, includes, arith, ==_iff, ==_refl, Bool-cases, inl, inr,
}
use voidchats_note2ee.Limits.Counters.{
  Entry, text, Store, put, live, Tally, include, counted, increment_keys,
}

-- The key's window ends at `until` and has counted `n` attempts.
abbrev pub Holds : ℕ → ℕ → ℕ → Store → Type 0
Holds key n until store = store key ≡ some (text (some n) (some until))

held_counted :
    (now window key n until : ℕ) (store : Store)
    → Holds key n until store
    → now ≤ until
    → counted now window (live now (store key)) ≡ (n + 1, until)
held_counted now window key n until store held early =
    let kept : ltb until now ≡ false = ground arith in rw (held, kept) refl

held_put_other :
    (key n until j : ℕ) (entry : Option Entry) (store : Store)
    → Holds key n until store
    → (key == j) ≡ false
    → Holds key n until (put j entry store)
held_put_other key n until j entry store held other = rw other held

highest-include :
    (most n ttl : ℕ) (t : Tally)
    → (t.highest_attempts ≤ (include most n ttl t).highest_attempts)
      × (n ≤ (include most n ttl t).highest_attempts)
unfolding include
highest-include most n ttl t = ground arith

-- The window after an increment of some keys: if its key was among them, it has counted one more,
-- and the highest count that is reported is no lower.
pub record Grown (key n until : ℕ) (among : Bool) (before : Tally) (done : Tally × Store)
    : Type 0 where
  pub n_after : ℕ
  pub held : Holds key n_after until done.1
  pub more : (if among then n + 1 else n) ≤ n_after
  pub kept : before.highest_attempts ≤ done.0.highest_attempts
  pub reported : among ≡ true → n_after ≤ done.0.highest_attempts

increment_same :
    (now most window key n until : ℕ) (keys : List ℕ) (t : Tally) (store : Store)
    → includes key keys ≡ false
    → Holds key n until store
    → Holds key n until (increment_keys now most window keys t store).1
unfolding increment_keys
increment_same now most window key n until [] t store absent held = held
increment_same now most window key n until (j ∷ keys) t store absent held =
    let (attempts, ends) = counted now window (live now (store j)) in
    increment_same now most window key n until keys (include most attempts (ends - now) t)
      (put j (some (text (some attempts) (some ends))) store) (ground arith)
      (held_put_other key n until j (some (text (some attempts) (some ends))) store held
        (ground arith))

pub increment_keys-Grown :
    (now most window key n until : ℕ) (keys : List ℕ) (t : Tally) (store : Store)
    → Holds key n until store
    → now ≤ until
    → Grown key n until (includes key keys) t (increment_keys now most window keys t store)
unfolding increment_keys
increment_keys-Grown now most window key n until [] t store held early = record {
  n_after = n;
  held = held;
  more = omega arith;
  kept = omega arith;
  reported = λ h. cc;
}
increment_keys-Grown now most window key n until (j ∷ keys) t store held early =
    elim (Bool-cases (key == j)) [
      | inl same ↦
          let e : key ≡ j = (==_iff key j).0 same in
          let one = ==_refl key in
          let counts = held_counted now window key n until store held early in
          let t' = include most (n + 1) (until - now) t in
          let store' = put key (some (text (some (n + 1)) (some until))) store in
          let up = highest-include most (n + 1) (until - now) t in
          let now_held : Holds key (n + 1) until store' = rw one refl in
          let rest =
            increment_keys-Grown now most window key (n + 1) until keys t' store' now_held early in
          elim (Bool-cases (includes key keys)) [
            | inl again ↦
                rw (← e, one, counts)
                  (record {
                    n_after = rest.n_after;
                    held = rest.held;
                    more = omega (arith, rw again at rest.more);
                    kept = omega (arith, rest.kept);
                    reported = λ h. rest.reported again;
                  })
            | inr once ↦
                rw (← e, one, counts)
                  (record {
                    n_after = n + 1;
                    held =
                        increment_same now most window key (n + 1) until keys t' store' once
                          now_held;
                    more = omega arith;
                    kept = omega (arith, rest.kept);
                    reported = λ h. omega (arith, rest.kept);
                  })
          ]
      | inr other ↦
          let (attempts, ends) = counted now window (live now (store j)) in
          let up = highest-include most attempts (ends - now) t in
          let rest =
            increment_keys-Grown now most window key n until keys
              (include most attempts (ends - now) t)
              (put j (some (text (some attempts) (some ends))) store)
              (held_put_other key n until j (some (text (some attempts) (some ends))) store held
                other)
              early in
          let first : (j == key) ≡ false = ground arith in
          rw first (record {
            n_after = rest.n_after;
            held = rest.held;
            more = rest.more;
            kept = omega (arith, rest.kept);
            reported = rest.reported;
          })
    ]

-- The window of a key that was among them: it ends where it would have ended, or a full window from
-- now if there was none, and the highest count that is reported is no lower than its count.
pub record Opened (key n until : ℕ) (done : Tally × Store) : Type 0 where
  pub n_after : ℕ
  pub held : Holds key n_after until done.1
  pub more : n ≤ n_after
  pub reported : n_after ≤ done.0.highest_attempts

pub increment_keys-Opened :
    (now most window key : ℕ) (keys : List ℕ) (t : Tally) (store : Store)
    → includes key keys ≡ true
    → now ≤ (counted now window (live now (store key))).1
    → Opened key
        (counted now window (live now (store key))).0
        (counted now window (live now (store key))).1
        (increment_keys now most window keys t store)
unfolding increment_keys
increment_keys-Opened now most window key [] t store among early = cc
increment_keys-Opened now most window key (j ∷ keys) t store among early =
    elim (Bool-cases (key == j)) [
      | inl same ↦
          let e : key ≡ j = (==_iff key j).0 same in
          let one = ==_refl key in
          let (n, until) = counted now window (live now (store key)) in
          let t' = include most n (until - now) t in
          let store' = put key (some (text (some n) (some until))) store in
          let up = highest-include most n (until - now) t in
          let now_held : Holds key n until store' = rw one refl in
          let rest =
            increment_keys-Grown now most window key n until keys t' store' now_held early in
          elim (Bool-cases (includes key keys)) [
            | inl again ↦ rw (← e) (record {
              n_after = rest.n_after;
              held = rest.held;
              more = omega (arith, rw again at rest.more);
              reported = rest.reported again;
            })
            | inr once ↦ rw (← e) (record {
              n_after = n;
              held = increment_same now most window key n until keys t' store' once now_held;
              more = omega arith;
              reported = omega (arith, rest.kept);
            })
          ]
      | inr other ↦
          let (n, ends) = counted now window (live now (store j)) in
          let store' = put j (some (text (some n) (some ends))) store in
          let kept : store' key ≡ store key = rw other refl in
          let same = ap (λ o. counted now window (live now o)) kept in
          let rest =
            increment_keys-Opened now most window key keys (include most n (ends - now) t) store'
              (ground arith) (rw same early) in
          rw same at rest
    ]
