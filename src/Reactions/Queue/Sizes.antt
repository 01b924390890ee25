-- ===== src/Reactions/Queue/Sizes.antt =====
-- The counters of the queue are those of its tasks, and stay within their limits.
use voidchats_note2ee.Common.{
  ℕ, suc, ◌+◌, ◌-◌, ◌≤◌, ◌<◌, ◌≡◌, refl, sym, ap, ◌∙◌, subst, Bool, true, false, not, ◌&&◌, some,
  [], ◌∷◌, ◌++◌, ◌==◌, if◌then◌else◌, find, count, arith, Bool-cases, inl, inr, count-append,
  count-map, count_split, find_sound, find-count, count_congr, count_none, count-keep_le,
}
use voidchats_note2ee.Reactions.{tally, set_tally}
use voidchats_note2ee.Reactions.Tally.{tally-set_tally, tally-delete_tally}
use voidchats_note2ee.Reactions.Queue.{
  Task, Queue, tail_of, enter, is_task, start, leave, Move, entered, started, ended, remaining,
}

abbrev pub of_key : ℕ → Task → Bool
of_key key t = t.key == key

abbrev any_task : Task → Bool
any_task t = true

-- `pending` is the number of tasks and each size is that of its key, at most 1024 and 512; no two
-- tasks are one, and the numbers of all of them have been given out.
pub record IsCounted (q : Queue) : Type 0 where
  pub all : q.pending ≡ count any_task q.tasks
  pub each : (key : ℕ) → tally key q.sizes ≡ count (of_key key) q.tasks
  pub few : q.pending ≤ 1024
  pub few_each : (key : ℕ) → tally key q.sizes ≤ 512
  pub apart : (key id : ℕ) → count (is_task key id) q.tasks ≤ 1
  pub given : (key id : ℕ) → q.next_id ≤ id → count (is_task key id) q.tasks ≡ 0

abbrev pub admitted : ℕ → Queue → Task
admitted key q = record {
  id = q.next_id;
  key = key;
  previous = tail_of key q.tails;
  running = false;
}

enter-eq-some :
    (key : ℕ) (q r : Queue)
    → enter key q ≡ some r
    → (q.pending < 1024)
      × (tally key q.sizes < 512)
      × (r.tasks ≡ q.tasks ++ admitted key q ∷ [])
      × (r.sizes ≡ set_tally key (tally key q.sizes + 1) q.sizes)
      × (r.pending ≡ q.pending + 1)
      × (r.next_id ≡ suc q.next_id)
unfolding enter
enter-eq-some key q r h = ground arith

grown :
    (p : Task → Bool) (key : ℕ) (q r : Queue)
    → r.tasks ≡ q.tasks ++ admitted key q ∷ []
    → count p r.tasks ≡ count p q.tasks + (if p (admitted key q) then 1 else 0)
grown p key q r tasks =
    ap (count p) tasks ∙ count-append p q.tasks (admitted key q ∷ []) ∙ omega arith

enter-IsCounted : (key : ℕ) (q r : Queue) → IsCounted q → enter key q ≡ some r → IsCounted r
enter-IsCounted key q r c h =
    let (room, room_each, tasks, sizes, pending, next) = enter-eq-some key q r h in
    record {
      all = omega (arith, c.all, grown any_task key q r tasks);
      each = λ k. rw sizes (
          ground (
            arith,
            tally-set_tally k key (tally key q.sizes + 1) q.sizes,
            c.each k,
            c.each key,
            grown (of_key k) key q r tasks,
          ));
      few = omega arith;
      few_each = λ k.
          rw sizes
            (ground (arith, tally-set_tally k key (tally key q.sizes + 1) q.sizes, c.few_each k));
      apart = λ k i. ground (arith, c.apart k i, c.given k i, grown (is_task k i) key q r tasks);
      given = λ k i young. ground (arith, c.given k i, grown (is_task k i) key q r tasks);
    }

marked :
    (t : Task) (p : Task → Bool) (q : Queue)
    → ((u : Task) → p (record u { running = true }) ≡ p u)
    → count p (start t q).tasks ≡ count p q.tasks
unfolding start
marked t p q blind =
    count-map (λ u. if is_task t.key t.id u then record u { running = true } else u) p p
      (λ u. elim (Bool-cases (is_task t.key t.id u)) [
        | inl same ↦ rw same (blind u)
        | inr other ↦ rw other refl
      ])
      q.tasks

start-IsCounted : (t : Task) (q : Queue) → IsCounted q → IsCounted (start t q)
unfolding start
start-IsCounted t q c = record {
  all = c.all ∙ sym (marked t any_task q (λ u. refl));
  each = λ key. c.each key ∙ sym (marked t (of_key key) q (λ u. refl));
  few = c.few;
  few_each = c.few_each;
  apart = λ key id. omega (arith, marked t (is_task key id) q (λ u. refl), c.apart key id);
  given = λ key id young. marked t (is_task key id) q (λ u. refl) ∙ c.given key id young;
}

-- Exactly one task leaves.
one_leaves :
    (t : Task) (q : Queue)
    → IsCounted q
    → find (is_task t.key t.id) q.tasks ≡ some t
    → count (is_task t.key t.id) q.tasks ≡ 1
one_leaves t q c here =
    let there =
      find-count (is_task t.key t.id) (is_task t.key t.id) q.tasks here
        (find_sound (is_task t.key t.id) q.tasks t here) in
    omega (arith, c.apart t.key t.id)

left_among :
    (t : Task) (p : Task → Bool) (q : Queue)
    → ((u : Task) → is_task t.key t.id u ≡ true → p u ≡ true)
    → count p (leave t q).tasks + count (is_task t.key t.id) q.tasks ≡ count p q.tasks
unfolding leave
left_among t p q all =
    let split = count_split p (is_task t.key t.id) q.tasks in
    let same =
      count_congr (λ u. is_task t.key t.id u && p u) (is_task t.key t.id)
        (λ u. elim (Bool-cases (is_task t.key t.id u)) [
          | inl it ↦ rw (it, all u it) refl
          | inr other ↦ rw other refl
        ])
        q.tasks in
    omega arith

left_other :
    (t : Task) (p : Task → Bool) (q : Queue)
    → ((u : Task) → is_task t.key t.id u ≡ true → p u ≡ false)
    → count p (leave t q).tasks ≡ count p q.tasks
unfolding leave
left_other t p q nobody =
    let split = count_split p (is_task t.key t.id) q.tasks in
    let gone =
      count_none (λ u. is_task t.key t.id u && p u)
        (λ u. elim (Bool-cases (is_task t.key t.id u)) [
          | inl it ↦ rw (it, nobody u it) refl
          | inr other ↦ rw other refl
        ])
        q.tasks in
    omega arith

left_at_most :
    (t : Task) (p : Task → Bool) (q : Queue) → count p (leave t q).tasks ≤ count p q.tasks
unfolding leave
left_at_most t p q = count-keep_le p (λ u. not (is_task t.key t.id u)) q.tasks

leave-each :
    (t : Task) (q : Queue)
    → IsCounted q
    → find (is_task t.key t.id) q.tasks ≡ some t
    → (key : ℕ) → tally key (leave t q).sizes ≡ count (of_key key) (leave t q).tasks
unfolding leave
leave-each t q c here key =
    let one = one_leaves t q c here in
    let now = tally-delete_tally key t.key q.sizes in
    let set = tally-set_tally key t.key (remaining t.key q.sizes) q.sizes in
    elim (Bool-cases (t.key == key)) [
      | inl same ↦
          let left = left_among t (of_key key) q (λ u it. ground arith) in
          ground (arith, left, c.each key, one, now, set)
      | inr other ↦
          let left = left_other t (of_key key) q (λ u it. ground arith) in
          ground (arith, left, c.each key, now, set)
    ]

pending_left : (t : Task) (q : Queue) → (leave t q).pending ≡ q.pending - 1
unfolding leave
pending_left t q = refl

leave-IsCounted :
    (t : Task) (q : Queue)
    → IsCounted q
    → find (is_task t.key t.id) q.tasks ≡ some t
    → IsCounted (leave t q)
unfolding leave
leave-IsCounted t q c here =
    let one = one_leaves t q c here in
    let left = left_among t any_task q (λ u it. refl) in
    record {
      all = pending_left t q ∙ omega (arith, c.all);
      each = leave-each t q c here;
      few = omega (arith, pending_left t q, c.few);
      few_each = λ key. omega (
        arith,
        leave-each t q c here key,
        left_at_most t (of_key key) q,
        c.each key,
        c.few_each key,
      );
      apart = λ key id. omega (arith, left_at_most t (is_task key id) q, c.apart key id);
      given =
          λ key id young. omega (arith, left_at_most t (is_task key id) q, c.given key id young);
    }

-- Every step of the queue keeps its counters right: `pending` is the number of tasks and at most
-- 1024, the size of a key is the number of its tasks and at most 512, and no task is there twice.
pub Move-IsCounted : (q r : Queue) → Move q r → IsCounted q → IsCounted r
Move-IsCounted q r (entered key h) c = enter-IsCounted key q r c h
Move-IsCounted q r (started t here free same) c = subst IsCounted (sym same) (start-IsCounted t q c)
Move-IsCounted q r (ended t here runs same) c =
    subst IsCounted (sym same) (leave-IsCounted t q c here)
