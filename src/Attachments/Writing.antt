-- ===== src/Attachments/Writing.antt =====
-- VOID0000-api/server/attachments/lifecycleCore.ts: what happens to a reservation after the message
-- is written (`acknowledgeScyllaWrite`, `commitReservation`, `commitRecoveredReservation`,
-- `releaseReservation`) and the removal of unsent files (`deleteStagedAttachment`,
-- `cleanupExpiredStaged`). A failed call leaves the database as it was: the caller rolls back.
use voidchats_note2ee.Common.{
  ℕ, Bool, not, ◌&&◌, ◌||◌, Option, none, some, is_some, List, [], ◌==◌, if◌then◌else◌, find, keep,
  length, count, every, any, sort, same_list,
}
use voidchats_note2ee.Attachments.Rows.{
  Attachment, Db, ReservationIdentity, Verdict, given, failed, ◌>>=◌, attachment_not_found,
  attachment_forbidden, not_staged, state_conflict, acknowledgement_conflict, commit_conflict,
  staged, committed, is_staged, is_reserved, is_committed, holds, has_id, is_among, update,
  attachment_message_write_policy,
}
use voidchats_note2ee.Attachments.Triggers.{coalesce, delete_where}
use voidchats_note2ee.Attachments.References.{
  Texts, RawList, an_array, extract_protected_attachment_ids,
}
use voidchats_note2ee.Attachments.Reserving.{ids_of}

-- The rows of exactly this reservation: message, sender and conversation agree.
abbrev pub is_bound : ReservationIdentity → Attachment → Bool
is_bound q r =
    holds r.reservation_id q.reservation_id
    && holds r.message_id q.message_id
    && r.uploader_id == q.user_id
    && r.conversation_id == q.conversation_id

abbrev pub is_held : ReservationIdentity → Attachment → Bool
is_held q r = is_among q.attachment_ids r && is_reserved r.status && is_bound q r

abbrev pub has_policy : Attachment → Bool
has_policy r = holds r.scylla_write_policy attachment_message_write_policy

abbrev pub is_acknowledged : Attachment → Bool
is_acknowledged r = has_policy r && is_some r.scylla_write_acknowledged_at

-- Acknowledged without the policy, or of another policy.
abbrev pub is_inconsistent : Attachment → Bool
is_inconsistent r =
    is_some r.scylla_write_acknowledged_at || is_some r.scylla_write_policy && not (has_policy r)

abbrev pub can_acknowledge : ReservationIdentity → Attachment → Bool
can_acknowledge q r =
    is_held q r
    && not (is_some r.scylla_write_acknowledged_at)
    && (not (is_some r.scylla_write_policy) || has_policy r)

abbrev pub acknowledge_row : (now : ℕ) → Attachment → Attachment
acknowledge_row now r = record r {
  scylla_write_policy = some attachment_message_write_policy;
  scylla_write_acknowledged_at = some now;
}

-- An UPDATE that has to take exactly the wanted number of rows.
unfoldable pub update_exactly :
    (Attachment → Bool) → (Attachment → Attachment) → ℕ → Verdict (ℕ × Db) → Db → Verdict (ℕ × Db)
update_exactly test change wanted otherwise db =
    if count test db.attachments == wanted
    then given (wanted, record db { attachments = update test change db.attachments })
    else otherwise

-- The rows held are exactly those of the reservation.
abbrev pub holds_exactly : ReservationIdentity → Db → Bool
holds_exactly q db =
    same_list (sort (ids_of (keep (is_held q) db.attachments))) (sort q.attachment_ids)

unfoldable pub acknowledge_locked : (now : ℕ) → ReservationIdentity → Db → Verdict (ℕ × Db)
acknowledge_locked now q db =
    let locked = keep (is_held q) db.attachments in
    if not (holds_exactly q db)
    then failed 409 acknowledgement_conflict
    else if every is_acknowledged locked
    then given (length q.attachment_ids, db)
    else if any is_inconsistent locked
    then failed 409 acknowledgement_conflict
    else update_exactly (can_acknowledge q) (acknowledge_row now) (length q.attachment_ids)
        (failed 409 acknowledgement_conflict) db

unfoldable pub acknowledge_scylla_write : (now : ℕ) → ReservationIdentity → Db → Verdict (ℕ × Db)
acknowledge_scylla_write now q db =
    if length q.attachment_ids == 0 then given (0, db) else acknowledge_locked now q db

abbrev pub can_commit : ReservationIdentity → Attachment → Bool
can_commit q r = is_held q r && is_acknowledged r

abbrev pub commit_row : (now : ℕ) → Attachment → Attachment
commit_row now r = record r { status = committed; committed_at = some now; reserved_until = none }

unfoldable pub commit_reservation : (now : ℕ) → ReservationIdentity → Db → Verdict (ℕ × Db)
commit_reservation now q db =
    if length q.attachment_ids == 0
    then given (0, db)
    else update_exactly (can_commit q) (commit_row now) (length q.attachment_ids)
        (failed 409 commit_conflict) db

-- The stored message that a read returned.
pub record StoredRow : Type 0 where
  pub sender_id : ℕ
  pub message_id : ℕ
  pub attachments : Option RawList

abbrev pub can_recover : (ids : List ℕ) → ReservationIdentity → Attachment → Bool
can_recover ids q r =
    is_among ids r && is_bound q r && (is_reserved r.status || is_committed r.status)

abbrev pub recover_row : (now : ℕ) → Attachment → Attachment
recover_row now r = record r {
  status = committed;
  committed_at = coalesce r.committed_at now;
  reserved_until = none;
}

-- `row.attachments ?? []`
abbrev pub attachments_or_empty : Option RawList → RawList
attachments_or_empty none = an_array []
attachments_or_empty (some raws) = raws

abbrev pub agrees : StoredRow → ReservationIdentity → List ℕ → Bool
agrees row q ids =
    row.sender_id == q.user_id
    && row.message_id == q.message_id
    && same_list (sort ids) (sort q.attachment_ids)

unfoldable pub commit_recovered :
    (now : ℕ) → ReservationIdentity → StoredRow → Db → List ℕ → Verdict (ℕ × Db)
commit_recovered now q row db ids =
    if not (agrees row q ids)
    then failed 409 commit_conflict
    else if length ids == 0
    then given (0, db)
    else update_exactly (can_recover ids q) (recover_row now) (length ids)
        (failed 409 commit_conflict) db

unfoldable pub commit_recovered_reservation :
    Texts → (now : ℕ) → ReservationIdentity → StoredRow → Db → Verdict (ℕ × Db)
commit_recovered_reservation texts now q row db =
    extract_protected_attachment_ids texts (attachments_or_empty row.attachments)
    >>= commit_recovered now q row db

abbrev pub release_reserved : Attachment → Attachment
release_reserved r = record r {
  status = staged;
  reserved_at = none;
  reserved_until = none;
  reservation_id = none;
  message_id = none;
  scylla_write_policy = none;
  scylla_write_acknowledged_at = none;
}

-- The number of the rows released, and the database.
unfoldable pub release_reservation : ReservationIdentity → Db → ℕ × Db
release_reservation q db = if length q.attachment_ids == 0 then (0, db) else (
  count (is_held q) db.attachments,
  record db { attachments = update (is_held q) release_reserved db.attachments },
)

-- `{ deleted: true }`, or `{ deleted: false, reason: 'not_found' }`
pub data Deletion : Type 0 where
  deleted_now not_found : Deletion

abbrev pub is_staged_row : ℕ → Attachment → Bool
is_staged_row a r = has_id a r && is_staged r.status

unfoldable pub delete_locked : (now attachment : ℕ) → Db → Verdict (Deletion × Db)
delete_locked now attachment db =
    if count (is_staged_row attachment) db.attachments == 1
    then given (deleted_now, delete_where now (is_staged_row attachment) db)
    else failed 409 state_conflict

unfoldable pub delete_staged_attachment :
    (now attachment user conversation : ℕ) → Db → Verdict (Deletion × Db)
delete_staged_attachment now attachment user conversation db =
    elim (find (has_id attachment) db.attachments) [
      | none ↦ given (not_found, db)
      | some r ↦
          if not (r.conversation_id == conversation)
          then failed 404 attachment_not_found
          else if not (r.uploader_id == user)
          then failed 403 attachment_forbidden
          else if not (is_staged r.status)
          then failed 409 not_staged
          else delete_locked now attachment db
    ]
