-- ===== src/Reactions.antt =====
-- VOID0000-api/server/reactions/state.ts: the reactions to one message, which are one partition
-- of `reaction_state` (VOID0000-api/db/scylla-migrations): static counts and a static revision,
-- and a row of emojis for each user, the summary user's among them. An emoji and a user are
-- numbers. The conditional batch takes place if the stored revision is the one that was read; a
-- batch is one atomic decision of the database, and a read of the partition is atomic too. Each
-- batch writes the row of the summary user, so that a partition with counts has a row for a read to
-- return them with. Timing (the
-- delays, the queue's wait) and the migration gate are not modelled.
pub mod Tally
pub mod Invariant
pub mod Run
pub mod Answers
pub mod Queue
pub mod Tests
use voidchats_note2ee.Common.{
  ℕ, zero, suc, ◌+◌, ◌-◌, Bool, true, false, not, ◌&&◌, ◌||◌, Option, none, some, List, [], ◌∷◌,
  ◌++◌, ◌==◌, ltb, leb, if◌then◌else◌, keep, length, includes,
}

pub record UserRow : Type 0 where
  pub user : ℕ
  pub emojis : List ℕ

abbrev pub Counts : Type 0
Counts = List (ℕ × ℕ)

pub record Partition : Type 0 where
  pub counts : Counts
  pub revision : Option ℕ
  pub rows : List UserRow

-- SUMMARY_USER
abbrev pub summary_user : ℕ
summary_user = 0

abbrev pub max_unique_reactions : ℕ
max_unique_reactions = 10

-- `counts[emoji] || 0`
unfoldable pub tally : ℕ → Counts → ℕ
tally e [] = 0
tally e ((k, n) ∷ counts) = if k == e then n else tally e counts

-- `counts[emoji] = n`
unfoldable pub set_tally : ℕ → ℕ → Counts → Counts
set_tally e n [] = (e, n) ∷ []
set_tally e n ((k, m) ∷ counts) = if k == e then (k, n) ∷ counts else (k, m) ∷ set_tally e n counts

-- `delete counts[emoji]`
unfoldable pub delete_tally : ℕ → Counts → Counts
delete_tally e [] = []
delete_tally e ((k, m) ∷ counts) =
    if k == e then delete_tally e counts else (k, m) ∷ delete_tally e counts

-- The emojis of a user's row; no row has none.
unfoldable pub emojis_of : ℕ → List UserRow → List ℕ
emojis_of u [] = []
emojis_of u (r ∷ rows) = if r.user == u then r.emojis else emojis_of u rows

-- UPDATE and INSERT write the row with the user's key, whether or not it is there.
unfoldable pub put_row : ℕ → List ℕ → List UserRow → List UserRow
put_row u es [] = record { user = u; emojis = es } ∷ []
put_row u es (r ∷ rows) =
    if r.user == u then record { user = u; emojis = es } ∷ rows else r ∷ put_row u es rows

unfoldable pub delete_row : ℕ → List UserRow → List UserRow
delete_row u [] = []
delete_row u (r ∷ rows) = if r.user == u then rows else r ∷ delete_row u rows

-- What `read` returns. The rows of one partition share the static revision; `consistent` is left
-- to the database.
pub record Snapshot : Type 0 where
  pub counts : Counts
  pub revision : Option ℕ
  pub mine : List ℕ
  pub consistent : Bool

-- Every stored count is positive.
unfoldable pub is_valid_summary : Counts → Bool
is_valid_summary [] = true
is_valid_summary ((k, n) ∷ counts) = ltb 0 n && is_valid_summary counts

abbrev pub snapshot : ℕ → Bool → Partition → Snapshot
snapshot user consistent p = record {
  counts = p.counts;
  revision = p.revision;
  mine = emojis_of user p.rows;
  consistent = consistent;
}

-- `none` is the error for an invalid stored summary.
unfoldable pub read : ℕ → Bool → Partition → Option Snapshot
unfolding is_valid_summary emojis_of
read user consistent p =
    if is_valid_summary p.counts then some (snapshot user consistent p) else none

-- A batch that is to be written: `expected` is the revision of its condition.
pub record Write : Type 0 where
  pub expected : Option ℕ
  pub counts : Counts
  pub revision : ℕ
  pub mine : List ℕ

pub data Decision : Type 0 where
  unchanged limit_reached no_summary : Decision
  write : Write → Decision

abbrev pub revision_of : Option ℕ → ℕ
revision_of none = 0
revision_of (some r) = r

-- The counts with `nextCount`, which is not 0 in the first case.
abbrev pub count_in : ℕ → Counts → Counts
count_in e counts = set_tally e (tally e counts + 1) counts

abbrev pub count_out : ℕ → Counts → Counts
count_out e counts =
    if tally e counts == 1 then delete_tally e counts else set_tally e (tally e counts - 1) counts

abbrev pub without : ℕ → List ℕ → List ℕ
without e mine = keep (λ x. not (x == e)) mine

-- The body of the loop for a consistent snapshot, up to the batch.
unfoldable pub decide : ℕ → Bool → Snapshot → Decision
unfolding tally set_tally delete_tally
decide e true s =
    if includes e s.mine
    then unchanged
    else if tally e s.counts == 0 && leb max_unique_reactions (length s.counts)
    then limit_reached
    else write (record {
      expected = s.revision;
      counts = count_in e s.counts;
      revision = suc (revision_of s.revision);
      mine = s.mine ++ e ∷ [];
    })
decide e false s =
    if not (includes e s.mine)
    then unchanged
    else if tally e s.counts == 0
    then no_summary
    else write (record {
      expected = s.revision;
      counts = count_out e s.counts;
      revision = suc (revision_of s.revision);
      mine = without e s.mine;
    })

abbrev same_revision : Option ℕ → Option ℕ → Bool
same_revision none none = true
same_revision (some a) (some b) = a == b
same_revision _ _ = false

abbrev pub write_mine : ℕ → List ℕ → List UserRow → List UserRow
write_mine user [] rows = delete_row user rows
write_mine user (e ∷ es) rows = put_row user (e ∷ es) rows

-- The three statements of the batch.
unfoldable pub commit : ℕ → Write → Partition → Partition
unfolding put_row delete_row
commit user w p = record {
  counts = w.counts;
  revision = some w.revision;
  rows = put_row summary_user [] (write_mine user w.mine p.rows);
}

-- `IF revision = ?`: `none` where the batch is not applied.
unfoldable pub execute : ℕ → Write → Partition → Option Partition
unfolding commit
execute user w p = if same_revision p.revision w.expected then some (commit user w p) else none

pub data Outcome : Type 0 where
  kept : Snapshot → Outcome
  changed : Write → Partition → Outcome
  reaction_limit invalid_summary missing_summary busy : Outcome

-- One attempt meets the partition twice: when it reads and when its batch is decided.
pub record Round : Type 0 where
  pub consistent : Bool
  pub at_read : Partition
  pub at_batch : Partition

-- What an attempt does; `none` goes on to the next one.
unfoldable pub settle : ℕ → Snapshot → Decision → Partition → Option Outcome
unfolding execute
settle user s unchanged p = some (kept s)
settle user s limit_reached p = some reaction_limit
settle user s no_summary p = some missing_summary
settle user s (write w) p = elim (execute user w p) [ none ↦ none | some q ↦ some (changed w q) ]

unfoldable pub attempt : ℕ → ℕ → Bool → Round → Option Outcome
unfolding read decide settle
attempt user e present round = elim (read user round.consistent round.at_read) [
  | none ↦ some invalid_summary
  | some s ↦ if s.consistent then settle user s (decide e present s) round.at_batch else none
]

-- The loop with the attempts that are left; `env` gives the round of each attempt.
unfoldable pub attempts : ℕ → ℕ → ℕ → Bool → (ℕ → Round) → Outcome
unfolding attempt
attempts zero user e present env = busy
attempts (suc left) user e present env = elim (attempt user e present (env left)) [
  | some outcome ↦ outcome
  | none ↦ attempts left user e present env
]

abbrev pub max_attempts : ℕ
max_attempts = 8

-- `set`; the first attempt meets `env 7` and the last one `env 0`.
unfoldable pub set_reaction : ℕ → ℕ → Bool → (ℕ → Round) → Outcome
unfolding attempts
set_reaction user e present env = attempts max_attempts user e present env
