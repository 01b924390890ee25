-- ===== src/Reactions/Tally.antt =====
-- Reading a count after a change of the counts, and counting the users of an emoji after a change
-- of a row.
use voidchats_note2ee.Common.{
  ℕ, ◌+◌, ◌≤◌, ◌<◌, ◌≡◌, ◌≢◌, refl, Bool, true, not, ◌&&◌, ◌||◌, List, [], ◌∷◌, ◌++◌, ◌==◌,
  if◌then◌else◌, length, includes, count, arith,
}
use voidchats_note2ee.Reactions.{
  UserRow, Counts, tally, set_tally, delete_tally, emojis_of, put_row, delete_row, is_valid_summary,
  without, write_mine,
}

pub tally-set_tally :
    (j e n : ℕ) (counts : Counts)
    → tally j (set_tally e n counts) ≡ (if e == j then n else tally j counts)
unfolding tally set_tally
tally-set_tally j e n [] = refl
tally-set_tally j e n ((k, m) ∷ counts) = ground (arith, tally-set_tally j e n counts)

pub tally-delete_tally :
    (j e : ℕ) (counts : Counts)
    → tally j (delete_tally e counts) ≡ (if e == j then 0 else tally j counts)
unfolding tally delete_tally
tally-delete_tally j e [] = ground arith
tally-delete_tally j e ((k, m) ∷ counts) = ground (arith, tally-delete_tally j e counts)

-- A count that is there is replaced; else the list grows by one.
pub length-set_tally :
    (e n : ℕ) (counts : Counts)
    → length (set_tally e n counts) ≤ length counts + (if tally e counts == 0 then 1 else 0)
unfolding tally set_tally
length-set_tally e n [] = omega arith
length-set_tally e n ((k, m) ∷ counts) = ground (arith, length-set_tally e n counts)

pub length-delete_tally : (e : ℕ) (counts : Counts) → length (delete_tally e counts) ≤ length counts
unfolding delete_tally
length-delete_tally e [] = omega arith
length-delete_tally e ((k, m) ∷ counts) = ground (arith, length-delete_tally e counts)

pub valid-set_tally :
    (e n : ℕ) (counts : Counts)
    → 0 < n
    → is_valid_summary counts ≡ true
    → is_valid_summary (set_tally e n counts) ≡ true
unfolding is_valid_summary set_tally
valid-set_tally e n [] h v = ground arith
valid-set_tally e n ((k, m) ∷ counts) h v = ground (arith, valid-set_tally e n counts)

pub valid-delete_tally :
    (e : ℕ) (counts : Counts)
    → is_valid_summary counts ≡ true
    → is_valid_summary (delete_tally e counts) ≡ true
unfolding is_valid_summary delete_tally
valid-delete_tally e [] v = refl
valid-delete_tally e ((k, m) ∷ counts) v = ground (arith, valid-delete_tally e counts)

-- The row's user has the emoji.
abbrev pub has : ℕ → UserRow → Bool
has e r = includes e r.emojis

abbrev pub one_if : Bool → ℕ
one_if b = if b then 1 else 0

-- A write changes the number of users with an emoji by the written row alone.
pub count-put_row :
    (e u : ℕ) (es : List ℕ) (rows : List UserRow)
    → count (has e) (put_row u es rows) + one_if (includes e (emojis_of u rows))
      ≡ count (has e) rows + one_if (includes e es)
unfolding put_row emojis_of
count-put_row e u es [] = ground arith
count-put_row e u es (r ∷ rows) = ground (arith, count-put_row e u es rows)

pub count-delete_row :
    (e u : ℕ) (rows : List UserRow)
    → count (has e) (delete_row u rows) + one_if (includes e (emojis_of u rows))
      ≡ count (has e) rows
unfolding delete_row emojis_of
count-delete_row e u [] = ground arith
count-delete_row e u (r ∷ rows) = ground (arith, count-delete_row e u rows)

pub emojis_of-put_row :
    (v u : ℕ) (es : List ℕ) (rows : List UserRow)
    → emojis_of v (put_row u es rows) ≡ (if u == v then es else emojis_of v rows)
unfolding put_row emojis_of
emojis_of-put_row v u es [] = ground arith
emojis_of-put_row v u es (r ∷ rows) = ground (arith, emojis_of-put_row v u es rows)

-- Another user's row is found as before.
pub emojis_of-delete_row :
    (v u : ℕ) (rows : List UserRow) → u ≢ v → emojis_of v (delete_row u rows) ≡ emojis_of v rows
unfolding delete_row emojis_of
emojis_of-delete_row v u [] h = refl
emojis_of-delete_row v u (r ∷ rows) h = ground (arith, emojis_of-delete_row v u rows)

pub count-write_mine :
    (e u : ℕ) (mine : List ℕ) (rows : List UserRow)
    → count (has e) (write_mine u mine rows) + one_if (includes e (emojis_of u rows))
      ≡ count (has e) rows + one_if (includes e mine)
count-write_mine e u [] rows = omega (arith, count-delete_row e u rows)
count-write_mine e u (x ∷ mine) rows = count-put_row e u (x ∷ mine) rows

pub emojis_of-write_mine :
    (v u : ℕ) (mine : List ℕ) (rows : List UserRow)
    → u ≢ v
    → emojis_of v (write_mine u mine rows) ≡ emojis_of v rows
emojis_of-write_mine v u [] rows h = emojis_of-delete_row v u rows h
emojis_of-write_mine v u (x ∷ mine) rows h = ground (arith, emojis_of-put_row v u (x ∷ mine) rows)

pub includes-without :
    (j e : ℕ) (mine : List ℕ) → includes j (without e mine) ≡ (includes j mine && not (e == j))
includes-without j e [] = refl
includes-without j e (x ∷ mine) = ground (arith, includes-without j e mine)

pub includes-append :
    (j e : ℕ) (mine : List ℕ) → includes j (mine ++ e ∷ []) ≡ (includes j mine || e == j)
includes-append j e [] = ground arith
includes-append j e (x ∷ mine) = ground (arith, includes-append j e mine)

abbrev pub by_user : ℕ → UserRow → Bool
by_user u r = r.user == u

count_user-put_row_eq :
    (v u : ℕ) (es : List ℕ) (rows : List UserRow)
    → count (by_user v) (put_row u es rows)
      ≡ (if u == v && count (by_user v) rows == 0 then 1 else count (by_user v) rows)
unfolding put_row
count_user-put_row_eq v u es [] = ground arith
count_user-put_row_eq v u es (r ∷ rows) = ground (arith, count_user-put_row_eq v u es rows)

pub count_user-put_row :
    (v u : ℕ) (es : List ℕ) (rows : List UserRow)
    → count (by_user v) rows ≤ 1
    → count (by_user v) (put_row u es rows) ≤ 1
count_user-put_row v u es rows h = ground (arith, count_user-put_row_eq v u es rows)

pub count_user-delete_row :
    (v u : ℕ) (rows : List UserRow) → count (by_user v) (delete_row u rows) ≤ count (by_user v) rows
unfolding delete_row
count_user-delete_row v u [] = omega arith
count_user-delete_row v u (r ∷ rows) = ground (arith, count_user-delete_row v u rows)

emojis_of_absent :
    (u : ℕ) (rows : List UserRow) → count (by_user u) rows ≡ 0 → emojis_of u rows ≡ []
unfolding emojis_of
emojis_of_absent u [] h = refl
emojis_of_absent u (r ∷ rows) h = ground (arith, emojis_of_absent u rows)

emojis_of-delete_row_self :
    (u : ℕ) (rows : List UserRow)
    → count (by_user u) rows ≤ 1
    → emojis_of u (delete_row u rows) ≡ []
unfolding delete_row emojis_of
emojis_of-delete_row_self u [] h = refl
emojis_of-delete_row_self u (r ∷ rows) h =
    ground (arith, emojis_of_absent u rows, emojis_of-delete_row_self u rows)

-- The user's row reads as it was written.
pub emojis_of-write_mine_self :
    (u : ℕ) (mine : List ℕ) (rows : List UserRow)
    → count (by_user u) rows ≤ 1
    → emojis_of u (write_mine u mine rows) ≡ mine
emojis_of-write_mine_self u [] rows h = emojis_of-delete_row_self u rows h
emojis_of-write_mine_self u (x ∷ mine) rows h =
    ground (arith, emojis_of-put_row u u (x ∷ mine) rows)

pub count_user-write_mine :
    (v u : ℕ) (mine : List ℕ) (rows : List UserRow)
    → count (by_user v) rows ≤ 1
    → count (by_user v) (write_mine u mine rows) ≤ 1
count_user-write_mine v u [] rows h = omega (arith, count_user-delete_row v u rows)
count_user-write_mine v u (x ∷ mine) rows h = count_user-put_row v u (x ∷ mine) rows h

-- A user with the emoji is counted.
pub count_of_held :
    (e u : ℕ) (rows : List UserRow) → includes e (emojis_of u rows) ≡ true → 0 < count (has e) rows
count_of_held e u rows h = ground (arith, count-delete_row e u rows)
