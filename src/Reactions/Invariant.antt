-- ===== src/Reactions/Invariant.antt =====
-- The summary agrees with the users' rows, whoever writes.
use voidchats_note2ee.Common.{
  ℕ, ◌+◌, ◌-◌, ◌≤◌, ◌<◌, ◌≡◌, ◌≢◌, refl, ap, ◌∙◌, Bool, true, false, ◌&&◌, [], ◌∷◌, ◌++◌, ◌==◌,
  if◌then◌else◌, length, includes, count, arith, Bool-cases, inl, inr, ◌⊎◌, ==_iff,
}
use voidchats_note2ee.Reactions.{
  Counts, Partition, Write, no_summary, write, tally, emojis_of, is_valid_summary, without,
  write_mine, summary_user, max_unique_reactions, count_in, count_out, decide, commit, snapshot,
}
use voidchats_note2ee.Reactions.Tally.{
  tally-set_tally, tally-delete_tally, length-set_tally, length-delete_tally, valid-set_tally,
  valid-delete_tally, has, one_if, count-put_row, count-write_mine, emojis_of-put_row,
  emojis_of-write_mine, includes-without, includes-append, by_user, count_user-put_row,
  count_user-write_mine, count_of_held, emojis_of-write_mine_self,
}

-- Every count is positive and is the number of users with the emoji, at most ten emojis have one,
-- the summary user has none, and a user has at most one row.
pub record IsSound (p : Partition) : Type 0 where
  pub valid : is_valid_summary p.counts ≡ true
  pub agree : (e : ℕ) → tally e p.counts ≡ count (has e) p.rows
  pub bounded : length p.counts ≤ max_unique_reactions
  pub summary : emojis_of summary_user p.rows ≡ []
  pub keyed : (u : ℕ) → count (by_user u) p.rows ≤ 1

-- The number of users with an emoji after a batch.
count-commit :
    (e user : ℕ) (w : Write) (p : Partition)
    → user ≢ summary_user
    → emojis_of summary_user p.rows ≡ []
    → count (has e) (commit user w p).rows + one_if (includes e (emojis_of user p.rows))
      ≡ count (has e) p.rows + one_if (includes e w.mine)
unfolding commit
count-commit e user w p apart h =
    let rows = write_mine user w.mine p.rows in
    let kept = emojis_of-write_mine summary_user user w.mine p.rows apart in
    let put = count-put_row e summary_user [] rows in
    let mine = count-write_mine e user w.mine p.rows in ground (arith, kept ∙ h)

commit-summary :
    (user : ℕ) (w : Write) (p : Partition) → emojis_of summary_user (commit user w p).rows ≡ []
unfolding commit
commit-summary user w p =
    emojis_of-put_row summary_user summary_user [] (write_mine user w.mine p.rows)

commit-keyed :
    (user : ℕ) (w : Write) (p : Partition)
    → ((u : ℕ) → count (by_user u) p.rows ≤ 1)
    → (u : ℕ) → count (by_user u) (commit user w p).rows ≤ 1
unfolding commit
commit-keyed user w p keyed u =
    count_user-put_row u summary_user [] (write_mine user w.mine p.rows)
      (count_user-write_mine u user w.mine p.rows (keyed u))

-- The counts of a write, for each of the two directions.
add_write :
    (e user : ℕ) (p : Partition) (w : Write)
    → decide e true (snapshot user true p) ≡ write w
    → (includes e (emojis_of user p.rows) ≡ false)
      × (w.counts ≡ count_in e p.counts)
      × (w.mine ≡ emojis_of user p.rows ++ e ∷ [])
      × (length p.counts + (if tally e p.counts == 0 then 1 else 0) ≤ max_unique_reactions
          ⊎ (tally e p.counts ≢ 0))
unfolding decide
add_write e user p w h = ground arith

remove_write :
    (e user : ℕ) (p : Partition) (w : Write)
    → decide e false (snapshot user true p) ≡ write w
    → (includes e (emojis_of user p.rows) ≡ true)
      × (w.counts ≡ count_out e p.counts)
      × (w.mine ≡ without e (emojis_of user p.rows))
      × (0 < tally e p.counts)
unfolding decide
remove_write e user p w h = ground arith

tally-count_out :
    (j e : ℕ) (counts : Counts)
    → tally j (count_out e counts) ≡ (if e == j then tally j counts - 1 else tally j counts)
tally-count_out j e counts =
    ground (arith, tally-set_tally j e (tally e counts - 1) counts, tally-delete_tally j e counts)

commit-counts : (user : ℕ) (w : Write) (p : Partition) → (commit user w p).counts ≡ w.counts
unfolding commit
commit-counts user w p = refl

add-agree :
    (e user : ℕ) (p : Partition) (w : Write)
    → user ≢ summary_user
    → IsSound p
    → decide e true (snapshot user true p) ≡ write w
    → (j : ℕ) → tally j (commit user w p).counts ≡ count (has j) (commit user w p).rows
add-agree e user p w apart sound h j =
    let (fresh, counts, mine, room) = add_write e user p w h in
    let moved = count-commit j user w p apart sound.summary in
    let now = tally-set_tally j e (tally e p.counts + 1) p.counts in
    let grown = includes-append j e (emojis_of user p.rows) in
    let stored = ap (tally j) (commit-counts user w p ∙ counts) in
    let held = ap (includes j) mine ∙ grown in ground (arith, stored, held, sound.agree j, now)

remove-agree :
    (e user : ℕ) (p : Partition) (w : Write)
    → user ≢ summary_user
    → IsSound p
    → decide e false (snapshot user true p) ≡ write w
    → (j : ℕ) → tally j (commit user w p).counts ≡ count (has j) (commit user w p).rows
remove-agree e user p w apart sound h j =
    let (held, counts, mine, some_left) = remove_write e user p w h in
    let moved = count-commit j user w p apart sound.summary in
    let now = tally-count_out j e p.counts in
    let kept = ap (includes j) mine ∙ includes-without j e (emojis_of user p.rows) in
    let stored = ap (tally j) (commit-counts user w p ∙ counts) in
    ground (arith, stored, kept, sound.agree j, now)

add-IsSound :
    (e user : ℕ) (p : Partition) (w : Write)
    → user ≢ summary_user
    → IsSound p
    → decide e true (snapshot user true p) ≡ write w
    → IsSound (commit user w p)
add-IsSound e user p w apart sound h =
    let (fresh, counts, mine, room) = add_write e user p w h in
    let stored = commit-counts user w p ∙ counts in
    let longer = length-set_tally e (tally e p.counts + 1) p.counts in
    record {
      valid =
          rw stored (valid-set_tally e (tally e p.counts + 1) p.counts (omega arith) sound.valid);
      agree = add-agree e user p w apart sound h;
      bounded = rw stored (ground (arith, sound.bounded));
      summary = commit-summary user w p;
      keyed = commit-keyed user w p sound.keyed;
    }

valid-count_out :
    (e : ℕ) (counts : Counts)
    → 0 < tally e counts
    → is_valid_summary counts ≡ true
    → is_valid_summary (count_out e counts) ≡ true
valid-count_out e counts h v = elim (Bool-cases (tally e counts == 1)) [
  | inl last ↦ rw last (valid-delete_tally e counts v)
  | inr more ↦ rw more (valid-set_tally e (tally e counts - 1) counts (ground arith) v)
]

length-count_out :
    (e : ℕ) (counts : Counts) → 0 < tally e counts → length (count_out e counts) ≤ length counts
length-count_out e counts h =
    ground (arith, length-delete_tally e counts, length-set_tally e (tally e counts - 1) counts)

remove-IsSound :
    (e user : ℕ) (p : Partition) (w : Write)
    → user ≢ summary_user
    → IsSound p
    → decide e false (snapshot user true p) ≡ write w
    → IsSound (commit user w p)
remove-IsSound e user p w apart sound h =
    let (held, counts, mine, some_left) = remove_write e user p w h in
    let stored = commit-counts user w p ∙ counts in
    let shorter = length-count_out e p.counts some_left in
    record {
      valid = rw stored (valid-count_out e p.counts some_left sound.valid);
      agree = remove-agree e user p w apart sound h;
      bounded = rw stored (omega (arith, sound.bounded));
      summary = commit-summary user w p;
      keyed = commit-keyed user w p sound.keyed;
    }

-- A batch that a user, who is not the summary user, has decided on a sound partition as it stands
-- leaves it sound: each count is positive and is the number of users with the emoji, at most ten
-- emojis have one, and no user has two rows.
pub commit-IsSound :
    (e user : ℕ) (present : Bool) (p : Partition) (w : Write)
    → user ≢ summary_user
    → IsSound p
    → decide e present (snapshot user true p) ≡ write w
    → IsSound (commit user w p)
commit-IsSound e user true p w apart sound h = add-IsSound e user p w apart sound h
commit-IsSound e user false p w apart sound h = remove-IsSound e user p w apart sound h

-- Where the summary is sound, a removal never lacks its count.
pub decide-ne-no_summary :
    (e user : ℕ) (present : Bool) (p : Partition)
    → IsSound p
    → decide e present (snapshot user true p) ≢ no_summary
unfolding decide
decide-ne-no_summary e user true p sound = ground arith
decide-ne-no_summary e user false p sound =
    ground (arith, sound.agree e, count_of_held e user p.rows)

emojis_of-commit :
    (user : ℕ) (w : Write) (p : Partition) (v : ℕ)
    → user ≢ summary_user
    → IsSound p
    → emojis_of v (commit user w p).rows ≡ (if v == user then w.mine else emojis_of v p.rows)
unfolding commit
emojis_of-commit user w p v apart sound =
    let rows = write_mine user w.mine p.rows in
    let last = emojis_of-put_row v summary_user [] rows in
    elim (Bool-cases (v == user)) [
      | inl same ↦
          let e : v ≡ user = (==_iff v user).0 same in
          rw (same, last, e)
            (ground (arith, emojis_of-write_mine_self user w.mine p.rows (sound.keyed user)))
      | inr differ ↦
          let other = emojis_of-write_mine v user w.mine p.rows (ground arith) in
          rw (differ, last) (ground (arith, other, sound.summary))
    ]

-- After a batch that a user, who is not the summary user, has decided on a sound partition, the
-- user has the emoji exactly where that was asked, the user's other emojis are as before, and so
-- are all of the other users'.
pub commit_effect :
    (e user : ℕ) (present : Bool) (p : Partition) (w : Write)
    → user ≢ summary_user
    → IsSound p
    → decide e present (snapshot user true p) ≡ write w
    → (j v : ℕ)
    → includes j (emojis_of v (commit user w p).rows)
      ≡ (if v == user && j == e then present else includes j (emojis_of v p.rows))
commit_effect e user true p w apart sound h j v =
    let (fresh, counts, mine, room) = add_write e user p w h in
    let now = ap (includes j) (emojis_of-commit user w p v apart sound) in
    let grown = ap (includes j) mine ∙ includes-append j e (emojis_of user p.rows) in
    ground (arith, now, grown)
commit_effect e user false p w apart sound h j v =
    let (held, counts, mine, some_left) = remove_write e user p w h in
    let now = ap (includes j) (emojis_of-commit user w p v apart sound) in
    let kept = ap (includes j) mine ∙ includes-without j e (emojis_of user p.rows) in
    ground (arith, now, kept)
