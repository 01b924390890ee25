-- ===== src/Reactions/Tests.antt =====
-- The reactions of a sample message, and the theorems at concrete writes.
use voidchats_note2ee.Common.{
  none, [], ℕ, ◌≡◌, ◌≢◌, refl, true, false, some, ◌∷◌, ◌==◌, ◌&&◌, if◌then◌else◌, includes, arith,
}
use voidchats_note2ee.Reactions.{
  Partition, Write, write, emojis_of, tally, is_valid_summary, decide, commit, snapshot, execute,
  Round, set_reaction, busy, changed, kept, read, put_row, delete_row, set_tally, delete_tally,
}
use voidchats_note2ee.Reactions.Invariant.{IsSound, commit-IsSound, commit_effect}
use voidchats_note2ee.Reactions.Run.{here, execute-eq-some}
use voidchats_note2ee.Reactions.Answers.{Kept, set_reaction-Kept, set_reaction-ne-busy}
use voidchats_note2ee.Reactions.Queue.{
  Queue, enter, start, leave, may_start, tail_of, empty_queue, entered,
}
use voidchats_note2ee.Reactions.Queue.Sizes.{IsCounted, Move-IsCounted}
use voidchats_note2ee.Reactions.Queue.{Task, started}
use voidchats_note2ee.Reactions.Queue.Sizes.{of_key}
use voidchats_note2ee.Reactions.Queue.Order.{Served, unused, moved, is_running, one_at_a_time}
use voidchats_note2ee.Common.{count, ◌&&◌, ◌≤◌}

runs : Unit {0}
unfolding set_reaction execute read commit decide tally emojis_of is_valid_summary put_row
    delete_row set_tally delete_tally
runs = tt

abbrev reacted : Partition
reacted = record {
  counts = (7, 2) ∷ (8, 1) ∷ [];
  revision = some 3;
  rows =
      record { user = 11; emojis = 7 ∷ 8 ∷ [] }
      ∷ record { user = 12; emojis = 7 ∷ [] }
      ∷ record { user = 0; emojis = [] }
      ∷ [];
}

abbrev removal : Write
removal = record { expected = some 3; counts = (7, 2) ∷ []; revision = 4; mine = 7 ∷ [] }

abbrev quiet : ℕ → Round
quiet n = record { consistent = true; at_read = reacted; at_batch = reacted }

decided : decide 8 false (snapshot 11 true reacted) ≡ write removal
unfolding runs
decided = refl

answered :
    (set_reaction 12 9 true quiet
      ≡ changed
          (record {
            expected = some 3;
            counts = (7, 2) ∷ (8, 1) ∷ (9, 1) ∷ [];
            revision = 4;
            mine = 7 ∷ 9 ∷ [];
          })
          (record {
            counts = (7, 2) ∷ (8, 1) ∷ (9, 1) ∷ [];
            revision = some 4;
            rows =
                record { user = 11; emojis = 7 ∷ 8 ∷ [] }
                ∷ record { user = 12; emojis = 7 ∷ 9 ∷ [] }
                ∷ record { user = 0; emojis = [] }
                ∷ [];
          }))
    × (set_reaction 12 7 true quiet ≡ kept (snapshot 12 true reacted))
unfolding runs
answered = (refl, refl)

reacted-IsSound : IsSound reacted
unfolding runs
reacted-IsSound = record {
  valid = refl;
  agree = λ e. ground arith;
  bounded = omega arith;
  summary = refl;
  keyed = λ u. ground arith;
}

commit-IsSound_example : IsSound (commit 11 removal reacted)
commit-IsSound_example =
    commit-IsSound 8 11 false reacted removal (omega arith) reacted-IsSound decided

commit_effect_example :
    includes 8 (emojis_of 11 (commit 11 removal reacted).rows)
    ≡ (if 11 == 11 && 8 == 8 then false else includes 8 (emojis_of 11 reacted.rows))
commit_effect_example =
    commit_effect 8 11 false reacted removal (omega arith) reacted-IsSound decided 8 11

execute-eq-some_example :
    (reacted ≡ reacted) × (commit 11 removal reacted ≡ commit 11 removal reacted)
unfolding runs
execute-eq-some_example =
    execute-eq-some 8 11 false true reacted reacted (commit 11 removal reacted) removal here decided
      refl

set_reaction-Kept_example : Kept 12 9 true (set_reaction 12 9 true quiet)
set_reaction-Kept_example =
    set_reaction-Kept 9 12 true quiet (omega arith) (λ n. (reacted-IsSound, here))

set_reaction-ne-busy_example : set_reaction 12 9 true quiet ≢ busy
set_reaction-ne-busy_example = set_reaction-ne-busy 2 9 12 true quiet (omega arith) refl refl

abbrev waiting : Task
waiting = record { id = 0; key = 5; previous = none; running = false }

abbrev one_queued : Queue
one_queued = record {
  tasks = record { id = 0; key = 5; previous = none; running = true } ∷ [];
  tails = (5, 0) ∷ [];
  sizes = (5, 1) ∷ [];
  pending = 1;
  next_id = 1;
}

abbrev two_queued : Queue
two_queued = record {
  tasks =
      record { id = 0; key = 5; previous = none; running = true }
      ∷ record { id = 1; key = 5; previous = some 0; running = false }
      ∷ [];
  tails = (5, 1) ∷ [];
  sizes = (5, 2) ∷ [];
  pending = 2;
  next_id = 2;
}

queue_runs : Unit {0}
unfolding enter start leave may_start tail_of
queue_runs = tt

one_queued-IsCounted : IsCounted one_queued
unfolding runs
one_queued-IsCounted = record {
  all = refl;
  each = λ key. ground arith;
  few = omega arith;
  few_each = λ key. ground arith;
  apart = λ key id. ground arith;
  given = λ key id young. ground arith;
}

queue_emptied :
    (start (record { id = 0; key = 5; previous = none; running = false }) empty_queue ≡ empty_queue)
    × ((leave (record { id = 0; key = 5; previous = none; running = true }) one_queued).tails ≡ [])
    × ((leave (record { id = 0; key = 5; previous = none; running = true }) one_queued).sizes ≡ [])
unfolding runs queue_runs
queue_emptied = (refl, refl, refl)

second_entered : enter 5 one_queued ≡ some two_queued
unfolding runs queue_runs
second_entered = refl

Move-IsCounted_example : IsCounted two_queued
Move-IsCounted_example =
    Move-IsCounted one_queued two_queued (entered 5 second_entered) one_queued-IsCounted

one_entered : enter 5 empty_queue ≡ some (record one_queued { tasks = waiting ∷ [] })
unfolding runs queue_runs
one_entered = refl

one_queued-Served : Served one_queued
unfolding runs queue_runs
one_queued-Served = moved (moved unused (entered 5 one_entered)) (started waiting refl refl refl)

one_at_a_time_example : count (λ t. of_key 5 t && is_running t) two_queued.tasks ≤ 1
one_at_a_time_example =
    one_at_a_time two_queued 5 (moved one_queued-Served (entered 5 second_entered))
