-- ===== src/Attachments/Reserving/Exact.antt =====
-- What the checks before a reservation say about the rows: each wanted attachment has its row
-- among those checked.
use mathlib.Core.List.{append-nil, append_assoc}
use voidchats_note2ee.Common.{
  ℕ, ◌≤◌, ◌≡◌, ◌≢◌, refl, sym, ap, ◌∙◌, true, false, some, is_some, List, [], ◌∷◌, ◌++◌, ◌==◌,
  ==_iff, ==_refl, arith, count, count-append, count-keep_le, every, any, find, find-keep, keep,
  find_sound, includes, Bool-cases, Option-cases, inl, inr, every-find,
}
use voidchats_note2ee.Attachments.Rows.{
  Attachment, given, bind_given, has_id, row_of, is_among, is_staged, at_most,
}
use voidchats_note2ee.Attachments.Reserving.{
  set_row, set_rows, look_up_all, assert_exact_rows, classify_rows, classify_used,
  classify_attachment_reservation, is_owned_by, free,
}

-- The primary key.
abbrev pub Keyed : List Attachment → Type 0
Keyed rows = (a : ℕ) → count (has_id a) rows ≤ 1

set_row_new :
    (r : Attachment) (rows : List Attachment)
    → count (has_id r.id) rows ≡ 0
    → set_row r rows ≡ rows ++ r ∷ []
set_row_new r [] h = refl
set_row_new r (x ∷ xs) h = ground (arith, set_row_new r xs)

set_rows_new :
    (before rows : List Attachment) → Keyed (before ++ rows) → set_rows before rows ≡ before ++ rows
set_rows_new before [] keyed = sym (append-nil before)
set_rows_new before (r ∷ rows) keyed =
    let fresh : count (has_id r.id) before ≡ 0 =
      ground (arith, keyed r.id, count-append (has_id r.id) before (r ∷ rows), ==_refl r.id) in
    let keyed' : Keyed ((before ++ r ∷ []) ++ rows) =
      λ a. rw (append_assoc before (r ∷ []) rows) (keyed a) in
    rw (set_row_new r before fresh)
      (set_rows_new (before ++ r ∷ []) rows keyed' ∙ append_assoc before (r ∷ []) rows)

-- With distinct keys the Map holds the rows as they are.
set_rows-Keyed : (rows : List Attachment) → Keyed rows → set_rows [] rows ≡ rows
set_rows-Keyed rows keyed = set_rows_new [] rows keyed

-- Each attachment that was looked up has its row in the list that comes back.
look_up_all-find :
    (by_id : List Attachment) (ids : List ℕ) (rows : List Attachment) (a : ℕ)
    → look_up_all by_id ids ≡ given rows
    → includes a ids ≡ true
    → row_of a rows ≡ row_of a by_id
look_up_all-find by_id [] rows a h m = cc
look_up_all-find by_id (x ∷ ids) rows a h m = elim (Option-cases (find (has_id x) by_id)) [
  | inl absent ↦ let bad = rw (absent, look_up_all) at h in cc
  | inr (r, found) ↦
      let (rs, looked, same) =
        bind_given (look_up_all by_id ids) (λ rs. given (r ∷ rs)) (rw (found, look_up_all) at h) in
      let key : r.id ≡ x = (==_iff r.id x).0 (find_sound (has_id x) by_id r found) in
      let rest : includes a ids ≡ true → row_of a rs ≡ row_of a by_id =
        look_up_all-find by_id ids rs a looked in
      let shape : rows ≡ r ∷ rs = ground arith in
      rw (shape) (elim (Bool-cases (r.id == a)) [
        | inl this ↦ let same_id : x ≡ a = ground (arith, key) in rw (this, ← same_id) (sym found)
        | inr other ↦ rw (other) (rest (ground (arith, key)))
      ])
]

classify_used-ne-free :
    (reservation now : ℕ) (rows : List Attachment) → classify_used reservation now rows ≢ given free
unfolding classify_used
classify_used-ne-free reservation now rows h = ground arith

classify_rows-free :
    (user conversation reservation now : ℕ) (rows : List Attachment)
    → classify_rows user conversation reservation now rows ≡ given free
    → (every (is_owned_by user conversation) rows ≡ true)
      × (every (λ r. is_staged r.status) rows ≡ true)
      × (any (λ r. at_most r.expires_at now) rows ≡ false)
unfolding classify_rows
classify_rows-free user conversation reservation now rows h =
    ground (arith, classify_used-ne-free reservation now rows)

look_up_all-some :
    (by_id : List Attachment) (ids : List ℕ) (rows : List Attachment) (a : ℕ)
    → look_up_all by_id ids ≡ given rows
    → includes a ids ≡ true
    → is_some (row_of a by_id) ≡ true
look_up_all-some by_id [] rows a h m = cc
look_up_all-some by_id (x ∷ ids) rows a h m = elim (Option-cases (find (has_id x) by_id)) [
  | inl absent ↦ let bad = rw (absent, look_up_all) at h in cc
  | inr (r, found) ↦
      let (rs, looked, same) =
        bind_given (look_up_all by_id ids) (λ rs. given (r ∷ rs)) (rw (found, look_up_all) at h) in
      elim (Bool-cases (x == a)) [
        | inl this ↦ let key : x ≡ a = (==_iff x a).0 this in rw (← key, found) refl
        | inr other ↦ look_up_all-some by_id ids rs a looked (rw (other) at m)
      ]
]

module _ (rows : List Attachment) (ids : List ℕ) (ordered : List Attachment) (keyed : Keyed rows)
    (exact : assert_exact_rows (keep (is_among ids) rows) ids ≡ given ordered) where
  looked_up : look_up_all (keep (is_among ids) rows) ids ≡ given ordered
  unfolding assert_exact_rows
  looked_up =
      let kept = keep (is_among ids) rows in
      let whole : set_rows [] kept ≡ kept =
        set_rows-Keyed kept
          (λ b. omega (arith, keyed b, count-keep_le (has_id b) (is_among ids) rows)) in
      ground (arith, whole)

  kept_row : (a : ℕ) → includes a ids ≡ true → row_of a (keep (is_among ids) rows) ≡ row_of a rows
  kept_row a m = find-keep (has_id a) (is_among ids) (λ r same. ground (arith, m)) rows

  -- The rows that are checked are those of the table.
  pub exact_rows-find : (a : ℕ) → includes a ids ≡ true → row_of a ordered ≡ row_of a rows
  exact_rows-find a m =
      look_up_all-find (keep (is_among ids) rows) ids ordered a looked_up m ∙ kept_row a m

  -- And each wanted one is there.
  pub exact_rows-some : (a : ℕ) → includes a ids ≡ true → is_some (row_of a rows) ≡ true
  exact_rows-some a m =
      ap is_some (sym (kept_row a m))
      ∙ look_up_all-some (keep (is_among ids) rows) ids ordered a looked_up m

-- The rows that were found free belong to the sender, and are staged and not expired.
pub classified-free :
    (rows : List Attachment) (ids : List ℕ) (user conversation reservation now : ℕ)
    → Keyed rows
    → classify_attachment_reservation
        (keep (is_among ids) rows)
        ids
        user
        conversation
        reservation
        now
      ≡ given free
    → (a : ℕ) (r : Attachment) → includes a ids ≡ true
    → row_of a rows ≡ some r
    → is_owned_by user conversation r ≡ true
unfolding classify_attachment_reservation
classified-free rows ids user conversation reservation now keyed h a r m found =
    let (ordered, exact, fine) =
      bind_given (assert_exact_rows (keep (is_among ids) rows) ids)
        (classify_rows user conversation reservation now) h in
    every-find (has_id a) (is_owned_by user conversation) ordered
      (classify_rows-free user conversation reservation now ordered fine).0
      (exact_rows-find rows ids ordered keyed exact a m ∙ found)
