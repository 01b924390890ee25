-- ===== src/Attachments/Lifecycle/Edges.antt =====
-- The edges of the life of one attachment.
use voidchats_note2ee.Common.{ℕ, ◌≡◌, Bool, true, false, Option, none, some, List}
use voidchats_note2ee.Attachments.Rows.{Attachment, ReservationIdentity, given, is_staged}
use voidchats_note2ee.Attachments.References.{Texts, extract_protected_attachment_ids}
use voidchats_note2ee.Attachments.Reserving.{can_reserve, reserve_row, is_owned_by}
use voidchats_note2ee.Attachments.Writing.{
  can_acknowledge, acknowledge_row, can_commit, commit_row, can_recover, recover_row, is_held,
  release_reserved, StoredRow, agrees, attachments_or_empty, is_acknowledged,
}
use voidchats_note2ee.Attachments.Groups.{Group}
use voidchats_note2ee.Attachments.Reconciling.{can_settle, settle_row, return_row}
use voidchats_note2ee.Attachments.Steps.{
  Call, reserves, acknowledges, commits, releases, recovers, settles, restages, deletes, expires,
}

-- What may happen to a row that stays: under which guard, and what it becomes.
pub data Move (texts : Texts) (call : Call) (now : ℕ) (r : Attachment) : Attachment → Type 0 where
  stays : Move texts call now r r
  is_reserved_by :
      (q : ReservationIdentity) (ttl : ℕ)
      → call ≡ reserves q
      → can_reserve now q.attachment_ids r ≡ true
      → is_owned_by q.user_id q.conversation_id r ≡ true
      → Move texts call now r (reserve_row ttl now q.reservation_id q.message_id r)
  is_acknowledged_by :
      (q : ReservationIdentity)
      → call ≡ acknowledges q
      → can_acknowledge q r ≡ true
      → Move texts call now r (acknowledge_row now r)
  is_committed_by :
      (q : ReservationIdentity)
      → call ≡ commits q
      → can_commit q r ≡ true
      → Move texts call now r (commit_row now r)
  is_recovered_by :
      (q : ReservationIdentity) (row : StoredRow) (ids : List ℕ)
      → call ≡ recovers q row
      → extract_protected_attachment_ids texts (attachments_or_empty row.attachments) ≡ given ids
      → agrees row q ids ≡ true
      → can_recover ids q r ≡ true
      → Move texts call now r (recover_row now r)
  is_settled_by :
      (g : Group)
      → call ≡ settles g
      → can_settle now g r ≡ true
      → Move texts call now r (settle_row now r)
  is_returned_by :
      (g : Group) (ttl : ℕ)
      → call ≡ restages g
      → can_settle now g r ≡ true
      → is_acknowledged r ≡ true
      → Move texts call now r (return_row ttl now r)
  is_released_by :
      (q : ReservationIdentity)
      → call ≡ releases q
      → is_held q r ≡ true
      → Move texts call now r (release_reserved r)

-- The calls that may remove a file.
abbrev pub is_removal : Call → Bool
is_removal (deletes b user conversation) = true
is_removal (expires b) = true
is_removal _ = false

-- And to the row of an attachment that may be missing: only a staged file is removed.
pub data Edge (texts : Texts) (call : Call) (now : ℕ)
    : Option Attachment → Option Attachment → Type 0 where
  absent : Edge texts call now none none
  moves : (r r' : Attachment) → Move texts call now r r' → Edge texts call now (some r) (some r')
  removed :
      (r : Attachment)
      → is_staged r.status ≡ true
      → is_removal call ≡ true
      → Edge texts call now (some r) none

pub Edge-refl :
    (texts : Texts) (call : Call) (now : ℕ) (o : Option Attachment) → Edge texts call now o o
Edge-refl texts call now none = absent
Edge-refl texts call now (some r) = moves r r stays

-- A change that leaves the identifier and the blobs of a row.
abbrev pub Keeps : (Attachment → Attachment) → Type 0
Keeps change =
    (r : Attachment)
    → ((change r).id ≡ r.id)
      × ((change r).blob_id ≡ r.blob_id)
      × ((change r).poster_blob_id ≡ r.poster_blob_id)
