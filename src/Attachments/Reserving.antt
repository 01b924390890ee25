-- ===== src/Attachments/Reserving.antt =====
-- VOID0000-api/server/attachments/lifecycleCore.ts: `assertExactRows`,
-- `classifyAttachmentReservation` and `reserveForMessage`.
pub mod Exact
pub mod Promise
pub mod Effects
use voidchats_note2ee.Common.{
  ℕ, suc, ◌+◌, Bool, true, false, not, ◌&&◌, ◌||◌, Option, none, some, is_some, List, [], ◌∷◌, ◌==◌,
  ltb, if◌then◌else◌, find, keep, first, length, includes, map, every, any, count, sort, same_list,
}
use voidchats_note2ee.Attachments.Rows.{
  Attachment, Db, Config, ReservationIdentity, Verdict, given, failed, ◌>>=◌, attachment_not_found,
  attachment_forbidden, attachment_expired, already_used, state_conflict, attachment_mismatch,
  reserved, is_staged, is_reserved, is_committed, holds, at_most, above, has_id, is_among, update,
  seconds,
}

pub data Classification : Type 0 where
  free : Classification
  committed_to : (message : ℕ) → Classification
  reserved_for : (message : ℕ) (reservation_expired : Bool) → Classification

-- `map.set(id, row)`: a Map keeps one row for an identifier.
abbrev pub set_row : Attachment → List Attachment → List Attachment
set_row r [] = r ∷ []
set_row r (x ∷ xs) = if x.id == r.id then r ∷ xs else x ∷ set_row r xs

-- `new Map(rows.map(row => [row.id, row]))`
abbrev pub set_rows : List Attachment → List Attachment → List Attachment
set_rows by_id [] = by_id
set_rows by_id (r ∷ rs) = set_rows (set_row r by_id) rs

abbrev pub look_up_all : List Attachment → List ℕ → Verdict (List Attachment)
look_up_all by_id [] = given []
look_up_all by_id (a ∷ ids) = elim (find (has_id a) by_id) [
  | none ↦ failed 400 attachment_not_found
  | some r ↦ look_up_all by_id ids >>= λ rs. given (r ∷ rs)
]

unfoldable pub assert_exact_rows : List Attachment → List ℕ → Verdict (List Attachment)
assert_exact_rows rows ids =
    let by_id = set_rows [] rows in
    if not (length by_id == length ids)
    then failed 400 attachment_not_found
    else look_up_all by_id ids

-- `String(row.message_id || '')`: the empty text is 0.
abbrev pub message_text : Option ℕ → ℕ
message_text none = 0
message_text (some m) = suc m

-- `new Set(values)`, in any order.
abbrev pub distinct : List ℕ → List ℕ
distinct [] = []
distinct (x ∷ xs) = let rest = distinct xs in if includes x rest then rest else x ∷ rest

abbrev pub is_owned_by : (user conversation : ℕ) → Attachment → Bool
is_owned_by user conversation r = r.uploader_id == user && r.conversation_id == conversation

abbrev pub is_of_reservation : ℕ → Attachment → Bool
is_of_reservation reservation r = holds r.reservation_id reservation && is_some r.message_id

-- `orderedRows[0]?.message_id`
abbrev pub first_message : List Attachment → Option ℕ
first_message [] = none
first_message (r ∷ rows) = r.message_id

-- The part of the classification after the exact rows are found and belong to the sender.
unfoldable pub classify_used : (reservation now : ℕ) → List Attachment → Verdict Classification
classify_used reservation now rows =
    if not (
      every (is_of_reservation reservation) rows
      && length (distinct (map (λ r. message_text r.message_id) rows)) == 1)
    then failed 409 already_used
    else if every (λ r. is_committed r.status) rows
    then elim (first_message rows) [
      | none ↦ failed 409 state_conflict
      | some m ↦ given (committed_to m)
    ]
    else if every (λ r. is_reserved r.status) rows
    then elim (first_message rows) [
      | none ↦ failed 409 state_conflict
      | some m ↦ given (reserved_for m (every (λ r. at_most r.reserved_until now) rows))
    ]
    else failed 409 state_conflict

unfoldable pub classify_rows :
    (user conversation reservation now : ℕ) → List Attachment → Verdict Classification
classify_rows user conversation reservation now rows =
    if not (every (is_owned_by user conversation) rows)
    then failed 403 attachment_forbidden
    else if every (λ r. is_staged r.status) rows
    then (if any (λ r. at_most r.expires_at now) rows
        then failed 409 attachment_expired
        else given free)
    else classify_used reservation now rows

unfoldable pub classify_attachment_reservation :
    (rows : List Attachment) (ids : List ℕ) (user conversation reservation now : ℕ)
    → Verdict Classification
classify_attachment_reservation rows ids user conversation reservation now =
    assert_exact_rows rows ids >>= classify_rows user conversation reservation now

pub data ReservationState : Type 0 where
  none_asked reserved_new : ReservationState
  committed_already : (message : ℕ) → ReservationState
  reserved_already : (message : ℕ) (reservation_expired : Bool) → ReservationState

-- `WHERE uploader_id = $1 AND conversation_id = $2 AND reservation_id = $3`
abbrev pub is_of_operation : (user conversation reservation : ℕ) → Attachment → Bool
is_of_operation user conversation reservation r =
    r.uploader_id == user && r.conversation_id == conversation && holds r.reservation_id reservation

abbrev pub ids_of : List Attachment → List ℕ
ids_of rows = map (λ r. r.id) rows

-- The attachments that the operation has reserved so far.
abbrev pub ids_of_operation : ReservationIdentity → Db → List ℕ
ids_of_operation q db =
    ids_of (keep (is_of_operation q.user_id q.conversation_id q.reservation_id) db.attachments)

-- The operation was already used with other attachments.
abbrev pub is_mismatched : (existing requested : List ℕ) → Bool
is_mismatched existing requested =
    ltb 0 (length existing) && not (same_list (sort existing) (sort requested))

-- The rows that the UPDATE takes, and what it sets.
abbrev pub can_reserve : (now : ℕ) (ids : List ℕ) → Attachment → Bool
can_reserve now ids r = is_among ids r && is_staged r.status && above r.expires_at now

abbrev pub reserve_row : (ttl now reservation message : ℕ) → Attachment → Attachment
reserve_row ttl now reservation message r = record r {
  status = reserved;
  reserved_at = some now;
  reserved_until = some (now + seconds ttl);
  reservation_id = some reservation;
  message_id = some message;
  scylla_write_policy = none;
  scylla_write_acknowledged_at = none;
}

unfoldable pub reserve_free :
    Config → (now : ℕ) → ReservationIdentity → Db → Verdict (ReservationState × Db)
reserve_free config now q db =
    if count (can_reserve now q.attachment_ids) db.attachments == length q.attachment_ids
    then given (
      reserved_new,
      record db {
        attachments =
            update (can_reserve now q.attachment_ids)
              (reserve_row config.reservation_ttl_seconds now q.reservation_id q.message_id)
              db.attachments;
      },
    )
    else failed 409 state_conflict

unfoldable pub reserve_classified :
    Config → (now : ℕ) → ReservationIdentity → Db → Classification → Verdict (ReservationState × Db)
reserve_classified config now q db (committed_to m) = given (committed_already m, db)
reserve_classified config now q db (reserved_for m late) = given (reserved_already m late, db)
reserve_classified config now q db free = reserve_free config now q db

-- One transaction at the time `now`; the database stays as it was unless the result is `given`.
unfoldable pub reserve_for_message :
    Config → (now : ℕ) → ReservationIdentity → Db → Verdict (ReservationState × Db)
reserve_for_message config now q db =
    if length q.attachment_ids == 0
    then given (none_asked, db)
    else if is_mismatched (ids_of_operation q db) q.attachment_ids
    then failed 409 attachment_mismatch
    else classify_attachment_reservation (keep (is_among q.attachment_ids) db.attachments)
        q.attachment_ids q.user_id q.conversation_id q.reservation_id now
      >>= reserve_classified config now q db
