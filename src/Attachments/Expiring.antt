-- ===== src/Attachments/Expiring.antt =====
-- VOID0000-api/server/attachments/lifecycleCore.ts: `cleanupExpiredStaged`, the removal of files
-- that were staged and never sent. `clock` gives the time of a candidate's transaction and
-- `breaks` says whether the database fails it.
use voidchats_note2ee.Common.{
  ℕ, zero, suc, ◌+◌, Bool, false, ◌&&◌, ◌||◌, Option, none, some, List, [], ◌∷◌, ◌==◌, ltb,
  if◌then◌else◌, find, keep, length, count,
}
use voidchats_note2ee.Attachments.Rows.{Attachment, Db, is_staged, at_most, has_id}
use voidchats_note2ee.Attachments.Triggers.{delete_where}
use voidchats_note2ee.Attachments.Writing.{is_staged_row}
use voidchats_note2ee.Attachments.Reserving.{ids_of}

abbrev pub is_expired : (now : ℕ) → Attachment → Bool
is_expired now r = is_staged r.status && at_most r.expires_at now

-- A NULL is last; no candidate has one.
abbrev pub time_text : Option ℕ → ℕ
time_text none = 0
time_text (some t) = suc t

-- `ORDER BY expires_at, id`
abbrev pub expires_before : Attachment → Attachment → Bool
expires_before r x =
    ltb (time_text r.expires_at) (time_text x.expires_at)
    || time_text r.expires_at == time_text x.expires_at && ltb r.id x.id

abbrev pub place_row : Attachment → List Attachment → List Attachment
place_row r [] = r ∷ []
place_row r (x ∷ xs) = if expires_before r x then r ∷ x ∷ xs else x ∷ place_row r xs

abbrev pub by_expiry : List Attachment → List Attachment
by_expiry [] = []
by_expiry (r ∷ rs) = place_row r (by_expiry rs)

-- `LIMIT n`
abbrev pub limit {ℓ} : {A : Type ℓ} → ℕ → List A → List A
limit zero xs = []
limit (suc n) [] = []
limit (suc n) (x ∷ xs) = x ∷ limit n xs

pub record Summary : Type 0 where
  pub selected : ℕ
  pub deleted : ℕ
  pub failures : ℕ

-- The transaction on one candidate: whether its row was deleted, and the database.
unfoldable pub expire_one : (now a : ℕ) → Db → Bool × Db
expire_one now a db = elim (find (λ r. has_id a r && is_expired now r) db.attachments) [
  | none ↦ (false, db)
  | some r ↦ (count (is_staged_row a) db.attachments == 1, delete_where now (is_staged_row a) db)
]

abbrev pub count_deleted : Bool → Summary → Summary
count_deleted happened s = if happened then record s { deleted = s.deleted + 1 } else s

-- One round of the loop: the candidate's transaction, and the counts.
unfoldable pub expire_counted :
    (clock : ℕ → ℕ) (breaks : ℕ → Bool) (a : ℕ) → Summary → Db → Summary × Db
expire_counted clock breaks a s db =
    if breaks a
    then (record s { failures = s.failures + 1 }, db)
    else (count_deleted (expire_one (clock a) a db).0 s, (expire_one (clock a) a db).1)

unfoldable pub expire_all :
    (clock : ℕ → ℕ) (breaks : ℕ → Bool) → List ℕ → Summary × Db → Summary × Db
expire_all clock breaks [] (s, db) = (s, db)
expire_all clock breaks (a ∷ rest) (s, db) =
    expire_all clock breaks rest (expire_counted clock breaks a s db)

unfoldable pub cleanup_expired_staged :
    (clock : ℕ → ℕ) (breaks : ℕ → Bool) (now batch_size : ℕ) → Db → Summary × Db
cleanup_expired_staged clock breaks now batch_size db =
    let candidates = limit batch_size (by_expiry (keep (is_expired now) db.attachments)) in
    expire_all clock breaks (ids_of candidates)
      (record { selected = length candidates; deleted = 0; failures = 0 }, db)
