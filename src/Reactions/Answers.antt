-- ===== src/Reactions/Answers.antt =====
-- What `set` answers, whatever other writers do meanwhile.
use voidchats_note2ee.Common.{
  ℕ, zero, suc, ◌<◌, ◌≡◌, ◌≢◌, refl, sym, ap, ◌∙◌, subst, Bool, true, false, Option, none, some,
  ◌==◌, includes, arith, Bool-cases, Option-cases, inl, inr, ==_refl, ==_iff,
}
use voidchats_note2ee.Reactions.{
  Partition, Snapshot, Write, Decision, unchanged, limit_reached, no_summary, write, emojis_of,
  is_valid_summary, summary_user, decide, commit, snapshot, read, execute, Outcome, kept, changed,
  reaction_limit, invalid_summary, missing_summary, busy, Round, settle, attempt, attempts,
  set_reaction, same_revision, max_attempts,
}
use voidchats_note2ee.Reactions.Invariant.{
  IsSound, commit-IsSound, commit_effect, decide-ne-no_summary,
}
use voidchats_note2ee.Reactions.Run.{Reach, execute-eq-some, write_revision}

-- What the routes may rely on, outcome by outcome.
abbrev pub Kept : ℕ → ℕ → Bool → Outcome → Type 0
Kept user e present (kept s) = includes e s.mine ≡ present
Kept user e present (changed w q) = (includes e (emojis_of user q.rows) ≡ present) × IsSound q
Kept user e present reaction_limit = present ≡ true
Kept user e present busy = Unit
Kept user e present invalid_summary = ⊥
Kept user e present missing_summary = ⊥

-- Every attempt reads a sound partition, and until its batch only batches of the same kind run.
abbrev pub IsShared : (ℕ → Round) → Type 0
IsShared env = (n : ℕ) → IsSound (env n).at_read × Reach (env n).at_read (env n).at_batch

decide-unchanged :
    (e : ℕ) (present : Bool) (s : Snapshot)
    → decide e present s ≡ unchanged
    → includes e s.mine ≡ present
unfolding decide
decide-unchanged e true s h = ground arith
decide-unchanged e false s h = ground arith

decide-limit_reached :
    (e : ℕ) (present : Bool) (s : Snapshot) → decide e present s ≡ limit_reached → present ≡ true
unfolding decide
decide-limit_reached e true s h = refl
decide-limit_reached e false s h = ground arith

settle-Kept :
    (e user : ℕ) (present : Bool) (p q : Partition) (d : Decision) (o : Outcome)
    → user ≢ summary_user
    → IsSound p
    → Reach p q
    → decide e present (snapshot user true p) ≡ d
    → settle user (snapshot user true p) d q ≡ some o
    → Kept user e present o
unfolding settle
settle-Kept e user present p q unchanged o apart sound run decided h =
    let same : kept (snapshot user true p) ≡ o = ground arith in
    subst (Kept user e present) same (decide-unchanged e present (snapshot user true p) decided)
settle-Kept e user present p q limit_reached o apart sound run decided h =
    let same : reaction_limit ≡ o = ground arith in
    subst (Kept user e present) same (decide-limit_reached e present (snapshot user true p) decided)
settle-Kept e user present p q no_summary o apart sound run decided h =
    absurd (decide-ne-no_summary e user present p sound decided)
settle-Kept e user present p q (write w) o apart sound run decided h =
    elim (Option-cases (execute user w q)) [
      | inl failed ↦ absurd (cc (rw (failed, settle) at h))
      | inr (r, done) ↦
          let (same, applied) = execute-eq-some e user present true p q r w run decided done in
          let now = applied ∙ ap (commit user w) same in
          let held = commit_effect e user present p w apart sound decided e user in
          let same : changed w r ≡ o = ground (arith, h, done) in
          subst (Kept user e present) same (
            ground (
              arith,
              ap (λ z. includes e (emojis_of user z.rows)) now,
              held,
              ==_refl user,
              ==_refl e,
            ),
            subst IsSound (sym now) (commit-IsSound e user present p w apart sound decided),
          )
    ]

attempt-Kept :
    (e user : ℕ) (present : Bool) (round : Round) (o : Outcome)
    → user ≢ summary_user
    → IsSound round.at_read
    → Reach round.at_read round.at_batch
    → attempt user e present round ≡ some o
    → Kept user e present o
unfolding attempt read
attempt-Kept e user present round o apart sound run h = elim (Bool-cases round.consistent) [
  | inl ok ↦
      settle-Kept e user present round.at_read round.at_batch
        (decide e present (snapshot user true round.at_read)) o apart sound run refl
        (rw (attempt, read, sound.valid, ok) at h)
  | inr torn ↦ absurd (cc (rw (attempt, read, sound.valid, torn) at h))
]

attempts-Kept :
    (left e user : ℕ) (present : Bool) (env : ℕ → Round)
    → user ≢ summary_user
    → IsShared env
    → Kept user e present (attempts left user e present env)
unfolding attempts
attempts-Kept zero e user present env apart shared = tt
attempts-Kept (suc left) e user present env apart shared =
    elim (Option-cases (attempt user e present (env left))) [
      | inl again ↦ rw (again, attempts) (attempts-Kept left e user present env apart shared)
      | inr (o, done) ↦
          rw (done, attempts)
            (attempt-Kept e user present (env left) o apart (shared left).0 (shared left).1 done)
    ]

-- Each attempt of a user, who is not the summary user, reads a sound partition, and until its
-- batch other writers run any of their batches. Then the answer is right: one without a change
-- finds the user's emoji as it was asked, a change leaves it so and the summary sound, the limit
-- is met only on adding, and the two errors for a broken summary never come.
pub set_reaction-Kept :
    (e user : ℕ) (present : Bool) (env : ℕ → Round)
    → user ≢ summary_user
    → IsShared env
    → Kept user e present (set_reaction user e present env)
unfolding set_reaction
set_reaction-Kept e user present env apart shared =
    attempts-Kept max_attempts e user present env apart shared

same_revision_refl : (r : Option ℕ) → same_revision r r ≡ true
same_revision_refl none = refl
same_revision_refl (some a) = ==_refl a

settle-quiet :
    (user : ℕ) (p : Partition) (d : Decision)
    → ((w : Write) → d ≡ write w → w.expected ≡ p.revision)
    → (o : Outcome) × (settle user (snapshot user true p) d p ≡ some o) × (o ≢ busy)
unfolding settle execute
settle-quiet user p unchanged meets = (kept (snapshot user true p), refl, λ e. cc)
settle-quiet user p limit_reached meets = (reaction_limit, refl, λ e. cc)
settle-quiet user p no_summary meets = (missing_summary, refl, λ e. cc)
settle-quiet user p (write w) meets =
    let met : same_revision p.revision w.expected ≡ true =
      ap (same_revision p.revision) (meets w refl) ∙ same_revision_refl p.revision in
    (changed w (commit user w p), rw (settle, execute, met) refl, λ e. cc)

attempt-quiet :
    (e user : ℕ) (present : Bool) (round : Round)
    → round.consistent ≡ true
    → round.at_batch ≡ round.at_read
    → (o : Outcome) × (attempt user e present round ≡ some o) × (o ≢ busy)
unfolding attempt read
attempt-quiet e user present round ok still =
    elim (Bool-cases (is_valid_summary round.at_read.counts)) [
      | inr torn ↦ (invalid_summary, rw (attempt, read, torn) refl, λ e. cc)
      | inl valid ↦
          let s = snapshot user true round.at_read in
          let (o, done, fresh) =
            settle-quiet user round.at_read (decide e present s)
              (λ w h. (write_revision e present s w h).1) in
          (o, rw (attempt, read, valid, ok, still) done, fresh)
    ]

attempt-ne-busy :
    (e user : ℕ) (present : Bool) (round : Round) → attempt user e present round ≢ some busy
unfolding attempt settle
attempt-ne-busy e user present round = ground arith

attempts-ne-busy :
    (left quiet e user : ℕ) (present : Bool) (env : ℕ → Round)
    → quiet < left
    → (env quiet).consistent ≡ true
    → (env quiet).at_batch ≡ (env quiet).at_read
    → attempts left user e present env ≢ busy
unfolding attempts
attempts-ne-busy zero quiet e user present env h ok still = absurd (omega arith)
attempts-ne-busy (suc left) quiet e user present env h ok still =
    elim (Option-cases (attempt user e present (env left))) [
      | inr (o, done) ↦
          rw (done, attempts)
            (λ busied. attempt-ne-busy e user present (env left) (done ∙ ap some busied))
      | inl again ↦ elim (Bool-cases (quiet == left)) [
        | inl last ↦
            let (o, done, fresh) = attempt-quiet e user present (env quiet) ok still in
            let here = ap (λ n. attempt user e present (env n)) ((==_iff quiet left).0 last) in
            absurd (ground (arith, here, done, again))
        | inr earlier ↦
            rw (again, attempts)
              (attempts-ne-busy left quiet e user present env (ground arith) ok still)
      ]
    ]

-- One of the eight attempts without another writer between its read and its batch, and with a
-- consistent read, is enough: the answer is not that the message is busy.
pub set_reaction-ne-busy :
    (quiet e user : ℕ) (present : Bool) (env : ℕ → Round)
    → quiet < max_attempts
    → (env quiet).consistent ≡ true
    → (env quiet).at_batch ≡ (env quiet).at_read
    → set_reaction user e present env ≢ busy
unfolding set_reaction
set_reaction-ne-busy quiet e user present env h ok still =
    attempts-ne-busy max_attempts quiet e user present env h ok still
