-- ===== src/Attachments/Reconciling.antt =====
-- VOID0000-api/server/attachments/reservationReconciliation.ts: the worker that settles the
-- reservations whose time is over, by what is stored of their message.
pub mod Settling
use voidchats_note2ee.Common.{
  ℕ, suc, ◌+◌, Bool, true, false, not, ◌&&◌, ◌||◌, Option, none, some, is_some, List, [], ◌∷◌, ◌==◌,
  ltb, leb, if◌then◌else◌, keep, length, count, every, any, sort, same_list, max, min, first,
}
use voidchats_note2ee.Attachments.Rows.{
  Attachment, Db, SendOperation, Verdict, given, failed, broken, ◌>>=◌, staged, committed,
  is_reserved, holds, at_most, is_among, update, seconds, attachment_message_write_policy,
}
use voidchats_note2ee.Attachments.References.{Texts, RawList, extract_protected_attachment_ids}
use voidchats_note2ee.Attachments.Reserving.{ids_of, message_text}
use voidchats_note2ee.Attachments.Writing.{has_policy, is_acknowledged}
use voidchats_note2ee.Attachments.Expiring.{limit}
use voidchats_note2ee.Attachments.Groups.{Group, has_exact_ids, list_expired_reservation_groups}

-- The rows of the group that are still reserved and whose time is over.
abbrev pub is_locked : (now : ℕ) → Group → Attachment → Bool
is_locked now g r =
    is_reserved r.status
    && r.conversation_id == g.conversation_id
    && r.uploader_id == g.uploader_id
    && holds r.reservation_id g.reservation_id
    && holds r.message_id g.message_id
    && at_most r.reserved_until now

abbrev pub can_settle : (now : ℕ) → Group → Attachment → Bool
can_settle now g r = is_among g.attachment_ids r && is_locked now g r

-- The send that made the reservation is not completed.
abbrev pub is_unfinished : Group → SendOperation → Bool
is_unfinished g s =
    s.user_id == g.uploader_id
    && s.conversation_id == g.conversation_id
    && s.client_message_id == g.reservation_id
    && s.message_id == g.message_id
    && not (is_some s.completed_at)

abbrev pub may_return : (now : ℕ) → Group → List SendOperation → Attachment → Bool
may_return now g sends r = can_settle now g r && not (any (is_unfinished g) sends)

abbrev pub settle_row : (now : ℕ) → Attachment → Attachment
settle_row now r = record r { status = committed; committed_at = some now; reserved_until = none }

abbrev pub return_row : (ttl now : ℕ) → Attachment → Attachment
return_row ttl now r = record r {
  status = staged;
  staged_at = some now;
  expires_at = some (now + seconds ttl);
  reserved_at = none;
  reserved_until = none;
  reservation_id = none;
  message_id = none;
  committed_at = none;
  scylla_write_policy = none;
  scylla_write_acknowledged_at = none;
}

abbrev pub is_confirmed : Group → Bool
is_confirmed g =
    holds g.scylla_write_policy attachment_message_write_policy && g.scylla_write_acknowledged

-- `broken` is the error on a row count that differs, with which the transaction is rolled back.
abbrev pub take_all : (Attachment → Bool) → (Attachment → Attachment) → ℕ → Db → Verdict (Bool × Db)
take_all test change wanted db =
    if count test db.attachments == wanted
    then given (true, record db { attachments = update test change db.attachments })
    else broken

abbrev pub locks_exactly : (now : ℕ) → Group → Db → Bool
locks_exactly now g db =
    has_exact_ids (ids_of (keep (is_locked now g) db.attachments)) g.attachment_ids

-- `transition(group, 'committed')`
unfoldable pub mark_committed : (now : ℕ) → Group → Db → Verdict (Bool × Db)
mark_committed now g db =
    if not (locks_exactly now g db)
    then given (false, db)
    else take_all (can_settle now g) (settle_row now) (length g.attachment_ids) db

-- `transition(group, 'staged')`
unfoldable pub release_to_staged : (ttl now : ℕ) → Group → Db → Verdict (Bool × Db)
release_to_staged ttl now g db =
    if not (locks_exactly now g db)
    then given (false, db)
    else if not (is_confirmed g)
        || any (λ r. not (is_acknowledged r)) (keep (is_locked now g) db.attachments)
    then given (false, db)
    else take_all (may_return now g db.sends) (return_row ttl now) (length g.attachment_ids) db

-- What `loadStoredMessage` answers: an error, no message, or its sender and attachments.
pub data Loaded : Type 0 where
  unreadable no_message : Loaded
  a_message : (sender : Option ℕ) (attachment_ids : Option (List ℕ)) → Loaded

pub record MessageRow : Type 0 where
  pub sender_id : Option ℕ
  pub attachments : RawList

abbrev pub ids_or_none : Verdict (List ℕ) → Option (List ℕ)
ids_or_none (given ids) = some ids
ids_or_none (failed status code) = none
ids_or_none broken = none

-- `conversation` is the storage conversation, when the reservation's can be resolved; `read` the
-- rows of the message there, when the read succeeds.
abbrev pub one_row : Texts → List MessageRow → Loaded
one_row texts [] = no_message
one_row texts (row ∷ []) =
    a_message row.sender_id (ids_or_none (extract_protected_attachment_ids texts row.attachments))
one_row texts (row ∷ _ ∷ _) = unreadable

unfoldable pub load_stored_message :
    Texts
    → (conversation : ℕ → Option ℕ) (read : (conversation message : ℕ) → Option (List MessageRow))
    → Group
    → Loaded
load_stored_message texts conversation read g = elim (conversation g.conversation_id) [
  | none ↦ unreadable
  | some c ↦ elim (read c g.message_id) [ none ↦ unreadable | some rows ↦ one_row texts rows ]
]

pub data Outcome : Type 0 where
  was_committed was_released was_mismatched was_uncertain was_stale : Outcome

abbrev pub matches : Group → (sender : Option ℕ) → (ids : Option (List ℕ)) → Bool
matches g sender none = false
matches g sender (some ids) = holds sender g.uploader_id && has_exact_ids ids g.attachment_ids

abbrev pub outcome_of : Outcome → Db → Verdict (Bool × Db) → Outcome × Db
outcome_of happened db (given (true, db')) = (happened, db')
outcome_of happened db (given (false, db')) = (was_stale, db')
outcome_of happened db (failed status code) = (was_uncertain, db)
outcome_of happened db broken = (was_uncertain, db)

-- One round of the loop of `runOnce`.
unfoldable pub settle_group : (ttl now : ℕ) → Loaded → Group → Db → Outcome × Db
settle_group ttl now unreadable g db = (was_uncertain, db)
settle_group ttl now no_message g db =
    if not (is_confirmed g)
    then (was_uncertain, db)
    else outcome_of was_released db (release_to_staged ttl now g db)
settle_group ttl now (a_message sender ids) g db =
    if not (matches g sender ids)
    then (was_mismatched, db)
    else outcome_of was_committed db (mark_committed now g db)

-- ReconciliationSummary
pub record Settled : Type 0 where
  pub selected : ℕ
  pub committed_groups : ℕ
  pub released : ℕ
  pub mismatched : ℕ
  pub uncertain : ℕ
  pub stale : ℕ

abbrev pub note_outcome : Outcome → Settled → Settled
note_outcome was_committed s = record s { committed_groups = s.committed_groups + 1 }
note_outcome was_released s = record s { released = s.released + 1 }
note_outcome was_mismatched s = record s { mismatched = s.mismatched + 1 }
note_outcome was_uncertain s = record s { uncertain = s.uncertain + 1 }
note_outcome was_stale s = record s { stale = s.stale + 1 }

module _ (ttl : ℕ) (clock : Group → ℕ) (load : Group → Loaded) where
  unfoldable pub settle_groups : List Group → Settled × Db → Settled × Db
  settle_groups [] (s, db) = (s, db)
  settle_groups (g ∷ gs) (s, db) = settle_groups gs (
    note_outcome (settle_group ttl (clock g) (load g) g db).0 s,
    (settle_group ttl (clock g) (load g) g db).1,
  )

  unfoldable pub run_once : (now batch_size : ℕ) → Db → Settled × Db
  run_once now batch_size db =
      let groups = list_expired_reservation_groups now batch_size db in
      settle_groups groups (
        record {
          selected = length groups;
          committed_groups = 0;
          released = 0;
          mismatched = 0;
          uncertain = 0;
          stale = 0;
        },
        db,
      )
