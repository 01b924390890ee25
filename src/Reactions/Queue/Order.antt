-- ===== src/Reactions/Queue/Order.antt =====
-- The tasks of one message run one at a time, in the order of their admission.
use voidchats_note2ee.Common.{
  ℕ, suc, ◌≤◌, ◌<◌, ◌≡◌, refl, sym, ap, ◌∙◌, subst, Bool, true, false, not, ◌&&◌, Option, none,
  some, List, [], ◌∷◌, ◌++◌, ◌==◌, if◌then◌else◌, find, keep, map, is_some, count, count-keep,
  arith, Bool-cases, inl, inr, ==_iff,
}
use voidchats_note2ee.Reactions.{set_tally}
use voidchats_note2ee.Reactions.Queue.{
  Task, Queue, tail_of, enter, is_task, may_start, start, leave, empty_queue, Move, entered,
  started, ended,
}
use voidchats_note2ee.Reactions.Queue.Sizes.{of_key, admitted}
use voidchats_note2ee.Reactions.Queue.Line.{
  Behind, IsLine, IsLine-append, keep-append_key, find-keep, tail_of-set_tally,
  tail_of-delete_tally, IsLine-keep, IsLine-start, mark, end_is,
}

-- The tasks of each key are a line whose end `tails` names, and the numbers there were given out.
pub record IsOrdered (q : Queue) : Type 0 where
  pub line : (key : ℕ) → IsLine key (tail_of key q.tails) (keep (of_key key) q.tasks)
  pub given : (key id : ℕ) → tail_of key q.tails ≡ some id → id < q.next_id

keep_commute :
    (p q : Task → Bool) (tasks : List Task) → keep p (keep q tasks) ≡ keep q (keep p tasks)
keep_commute p q [] = refl
keep_commute p q (u ∷ tasks) = ground (arith, keep_commute p q tasks)

keep-mark :
    (k key id : ℕ) (tasks : List Task)
    → keep (of_key k) (map (mark key id) tasks) ≡ map (mark key id) (keep (of_key k) tasks)
keep-mark k key id [] = refl
keep-mark k key id (u ∷ tasks) =
    let same : of_key k (mark key id u) ≡ of_key k u = ground arith in
    elim (Bool-cases (of_key k u)) [
      | inl it ↦ rw (same, it, keep-mark k key id tasks) refl
      | inr other ↦ rw (same, other, keep-mark k key id tasks) refl
    ]

-- The tasks of another key are not touched.
other_keep :
    (k key id : ℕ) (tasks : List Task)
    → (key == k) ≡ false
    → keep (λ u. not (is_task key id u)) (keep (of_key k) tasks) ≡ keep (of_key k) tasks
other_keep k key id [] apart = refl
other_keep k key id (u ∷ tasks) apart = elim (Bool-cases (u.key == k)) [
  | inl it ↦
      let other : is_task key id u ≡ false = ground arith in
      rw (it, other, other_keep k key id tasks apart) refl
  | inr not_it ↦ rw not_it (other_keep k key id tasks apart)
]

other_mark :
    (k key id : ℕ) (tasks : List Task)
    → (key == k) ≡ false
    → map (mark key id) (keep (of_key k) tasks) ≡ keep (of_key k) tasks
other_mark k key id [] apart = refl
other_mark k key id (u ∷ tasks) apart = elim (Bool-cases (u.key == k)) [
  | inl it ↦
      let other : is_task key id u ≡ false = ground arith in
      rw (it, other, other_mark k key id tasks apart) refl
  | inr not_it ↦ rw not_it (other_mark k key id tasks apart)
]

start-IsOrdered :
    (t : Task) (q : Queue)
    → IsOrdered q
    → find (is_task t.key t.id) q.tasks ≡ some t
    → may_start t q.tasks ≡ true
    → IsOrdered (start t q)
unfolding start may_start
start-IsOrdered t q o here free = record {
  line = λ k. rw (keep-mark k t.key t.id q.tasks) (elim (Bool-cases (t.key == k)) [
    | inl same ↦
        let e : t.key ≡ k = (==_iff t.key k).0 same in
        rw (← e) (
          IsLine-start t.key (tail_of t.key q.tails) (keep (of_key t.key) q.tasks) t (o.line t.key)
            (find-keep t.key t.id q.tasks ∙ here)
            (λ p waits. ap is_some (find-keep t.key p q.tasks) ∙ ground (arith, free)))
    | inr other ↦ rw (other_mark k t.key t.id q.tasks other) (o.line k)
  ]);
  given = o.given;
}

tail_of-leave :
    (k : ℕ) (t : Task) (q : Queue)
    → tail_of k (leave t q).tails ≡ (
        if t.key == k
        then (if end_is t.id (tail_of k q.tails) then none else tail_of k q.tails)
        else tail_of k q.tails)
unfolding leave
tail_of-leave k t q = ground (arith, tail_of-delete_tally k t.key q.tails)

leave-IsOrdered :
    (t : Task) (q : Queue)
    → IsOrdered q
    → find (is_task t.key t.id) q.tasks ≡ some t
    → t.running ≡ true
    → IsOrdered (leave t q)
unfolding leave
leave-IsOrdered t q o here runs = record {
  line = λ k.
      rw (keep_commute (of_key k) (λ u. not (is_task t.key t.id u)) q.tasks, tail_of-leave k t q)
        (elim (Bool-cases (t.key == k)) [
          | inl same ↦
              let e : t.key ≡ k = (==_iff t.key k).0 same in
              rw (same, ← e)
                (IsLine-keep t.key (tail_of t.key q.tails) (keep (of_key t.key) q.tasks) t
                  (o.line t.key) (find-keep t.key t.id q.tasks ∙ here) runs)
          | inr other ↦ rw (other, other_keep k t.key t.id q.tasks other) (o.line k)
        ]);
  given = λ k id h. o.given k id (ground (arith, tail_of-leave k t q, h));
}

append_nil : (tasks : List Task) → tasks ++ [] ≡ tasks
append_nil [] = refl
append_nil (u ∷ tasks) = rw (append_nil tasks) refl

enter-eq :
    (key : ℕ) (q r : Queue)
    → enter key q ≡ some r
    → (r.tasks ≡ q.tasks ++ admitted key q ∷ [])
      × (r.tails ≡ set_tally key q.next_id q.tails)
      × (r.next_id ≡ suc q.next_id)
unfolding enter
enter-eq key q r h = ground arith

enter-IsOrdered : (key : ℕ) (q r : Queue) → IsOrdered q → enter key q ≡ some r → IsOrdered r
enter-IsOrdered key q r o h =
    let (tasks, tails, next) = enter-eq key q r h in
    let new = admitted key q in
    record {
      line = λ k.
          rw
            (tasks, tails, tail_of-set_tally k key q.next_id q.tails, keep-append_key k q.tasks new)
            (elim (Bool-cases (key == k)) [
              | inl same ↦
                  let e : key ≡ k = (==_iff key k).0 same in
                  rw (same, ← e)
                    (IsLine-append key (tail_of key q.tails) (keep (of_key key) q.tasks) new
                      (o.line key) refl refl refl (λ l there. o.given key l there))
              | inr other ↦ rw (other, append_nil (keep (of_key k) q.tasks)) (o.line k)
            ]);
      given = λ k id there.
          let set = tail_of-set_tally k key q.next_id q.tails in
          ground (arith, o.given k id, ap (tail_of k) tails, set, there);
    }

pub Move-IsOrdered : (q r : Queue) → Move q r → IsOrdered q → IsOrdered r
Move-IsOrdered q r (entered key h) o = enter-IsOrdered key q r o h
Move-IsOrdered q r (started t here free same) o =
    subst IsOrdered (sym same) (start-IsOrdered t q o here free)
Move-IsOrdered q r (ended t here runs same) o =
    subst IsOrdered (sym same) (leave-IsOrdered t q o here runs)

-- The queues that some steps make out of the empty one.
pub data Served : Queue → Type 0 where
  unused : Served empty_queue
  moved : {q r : Queue} → Served q → Move q r → Served r

Served-IsOrdered : {q : Queue} → Served q → IsOrdered q
unfolding tail_of
Served-IsOrdered unused = record { line = λ key. refl; given = λ key id h. absurd (cc h) }
Served-IsOrdered (moved {q} {r} before move) = Move-IsOrdered q r move (Served-IsOrdered before)

abbrev pub is_running : Task → Bool
is_running t = t.running

idle-Behind :
    (key last : ℕ) (end : Option ℕ) (line : List Task)
    → Behind key last end line
    → count is_running line ≡ 0
idle-Behind key last end [] h = refl
idle-Behind key last end (u ∷ line) (k, p, r, l, h) = rw (r, idle-Behind key u.id end line h) refl

one-IsLine :
    (key : ℕ) (end : Option ℕ) (line : List Task) → IsLine key end line → count is_running line ≤ 1
one-IsLine key end [] h = omega arith
one-IsLine key end (u ∷ line) (k, h) = ground (arith, idle-Behind key u.id end line h)

-- However tasks are admitted, start and end, never do two tasks of one message run at a time.
pub one_at_a_time :
    (q : Queue) (key : ℕ) → Served q → count (λ t. of_key key t && is_running t) q.tasks ≤ 1
one_at_a_time q key served =
    let o = Served-IsOrdered served in
    let one = one-IsLine key (tail_of key q.tails) (keep (of_key key) q.tasks) (o.line key) in
    omega (arith, count-keep is_running (of_key key) q.tasks)
