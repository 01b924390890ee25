-- ===== src/Reactions/Queue.antt =====
-- VOID0000-api/server/reactions/state.ts: MessageQueue, which runs the tasks of one message one
-- after the other. A key and a task are numbers. A task is in the queue from its admission to the
-- end of its `finally`; its gate is released when it leaves. Since a task is only released after
-- the task that it waits for, the promise of a tail is resolved exactly when its task has left. What
-- runs between two awaits is one step. The expiry of a wait makes a task leave as soon as it
-- starts, and is no step of its own.
pub mod Sizes
pub mod Line
pub mod Order
use voidchats_note2ee.Common.{
  ℕ, suc, ◌+◌, ◌-◌, Bool, true, false, not, ◌&&◌, ◌||◌, Option, none, some, List, [], ◌∷◌, ◌++◌,
  ◌==◌, ◌≡◌, leb, if◌then◌else◌, find, keep, map, is_some,
}
use voidchats_note2ee.Reactions.{tally, set_tally, delete_tally}

pub record Task : Type 0 where
  pub id : ℕ
  pub key : ℕ
  pub previous : Option ℕ
  pub running : Bool

-- The fields of the class, with the tasks in the queue and the next task's number. An entry of
-- `tails` is the key and the task whose tail it is.
pub record Queue : Type 0 where
  pub tasks : List Task
  pub tails : List (ℕ × ℕ)
  pub sizes : List (ℕ × ℕ)
  pub pending : ℕ
  pub next_id : ℕ

-- `this.tails.get(key)`
unfoldable pub tail_of : ℕ → List (ℕ × ℕ) → Option ℕ
tail_of key [] = none
tail_of key ((k, id) ∷ tails) = if k == key then some id else tail_of key tails

-- `run` up to its first await; `none` is the error for a queue that is busy.
unfoldable pub enter : ℕ → Queue → Option Queue
unfolding tail_of tally set_tally
enter key q =
    if leb 1024 q.pending || leb 512 (tally key q.sizes)
    then none
    else some (record {
      tasks =
          q.tasks
          ++ record { id = q.next_id; key = key; previous = tail_of key q.tails; running = false }
            ∷ [];
      tails = set_tally key q.next_id q.tails;
      sizes = set_tally key (tally key q.sizes + 1) q.sizes;
      pending = q.pending + 1;
      next_id = suc q.next_id;
    })

abbrev pub is_task : ℕ → ℕ → Task → Bool
is_task key id t = t.key == key && t.id == id

-- The task that it waits for, of the same key, has left.
unfoldable pub may_start : Task → List Task → Bool
may_start t tasks = elim t.previous [
  | none ↦ true
  | some id ↦ not (is_some (find (is_task t.key id) tasks))
]

-- `await previous` is over.
unfoldable pub start : Task → Queue → Queue
start t q = record q {
  tasks = map (λ u. if is_task t.key t.id u then record u { running = true } else u) q.tasks;
}

abbrev pub remaining : ℕ → List (ℕ × ℕ) → ℕ
remaining key sizes = (if tally key sizes == 0 then 1 else tally key sizes) - 1

-- `finally`
unfoldable pub leave : Task → Queue → Queue
unfolding tail_of tally set_tally delete_tally
leave t q = record {
  tasks = keep (λ u. not (is_task t.key t.id u)) q.tasks;
  tails = elim (tail_of t.key q.tails) [
    | some id ↦ if id == t.id then delete_tally t.key q.tails else q.tails
    | none ↦ q.tails
  ];
  sizes =
      if remaining t.key q.sizes == 0
      then delete_tally t.key q.sizes
      else set_tally t.key (remaining t.key q.sizes) q.sizes;
  pending = q.pending - 1;
  next_id = q.next_id;
}

abbrev pub empty_queue : Queue
empty_queue = record { tasks = []; tails = []; sizes = []; pending = 0; next_id = 0 }

-- One step of the queue: an admission, the start of a task, or the end of one that has started.
pub data Move (q : Queue) (r : Queue) : Type 0 where
  entered : (key : ℕ) → enter key q ≡ some r → Move q r
  started :
      (t : Task)
      → find (is_task t.key t.id) q.tasks ≡ some t
      → may_start t q.tasks ≡ true
      → r ≡ start t q
      → Move q r
  ended :
      (t : Task)
      → find (is_task t.key t.id) q.tasks ≡ some t
      → t.running ≡ true
      → r ≡ leave t q
      → Move q r
