-- ===== src/Attachments/Groups.antt =====
-- `listExpiredReservationGroups` of VOID0000-api/server/attachments/reservationReconciliation.ts.
use voidchats_note2ee.Common.{
  ℕ, Bool, ◌&&◌, ◌||◌, Option, none, some, is_some, List, [], ◌∷◌, ◌==◌, ltb, if◌then◌else◌, keep,
  every, any, sort, same_list, max, min,
}
use voidchats_note2ee.Attachments.Rows.{
  Attachment, Db, is_reserved, at_most, attachment_message_write_policy,
}
use voidchats_note2ee.Attachments.Reserving.{ids_of, message_text}
use voidchats_note2ee.Attachments.Writing.{has_policy}
use voidchats_note2ee.Attachments.Expiring.{limit}

-- AttachmentReservationGroup
pub record Group : Type 0 where
  pub conversation_id : ℕ
  pub uploader_id : ℕ
  pub reservation_id : ℕ
  pub message_id : ℕ
  pub scylla_write_policy : Option ℕ
  pub scylla_write_acknowledged : Bool
  pub attachment_ids : List ℕ

abbrev pub has_exact_ids : List ℕ → List ℕ → Bool
has_exact_ids left right = same_list (sort left) (sort right)

abbrev same_column : Option ℕ → Option ℕ → Bool
same_column a b = message_text a == message_text b

-- `GROUP BY conversation_id, uploader_id, reservation_id, message_id`
abbrev same_group : Attachment → Attachment → Bool
same_group r x =
    r.conversation_id == x.conversation_id
    && r.uploader_id == x.uploader_id
    && same_column r.reservation_id x.reservation_id
    && same_column r.message_id x.message_id

-- One row of each group.
abbrev one_of_each : List Attachment → List Attachment
one_of_each [] = []
one_of_each (r ∷ rs) =
    let rest = one_of_each rs in if any (same_group r) rest then rest else r ∷ rest

-- `MAX(reserved_until)` and `MIN(reserved_until)`, which pass over NULL.
abbrev later : Option ℕ → Option ℕ → Option ℕ
later none b = b
later (some a) none = some a
later (some a) (some b) = some (max a b)

abbrev sooner : Option ℕ → Option ℕ → Option ℕ
sooner none b = b
sooner (some a) none = some a
sooner (some a) (some b) = some (min a b)

abbrev last_until : List Attachment → Option ℕ
last_until [] = none
last_until (r ∷ rs) = later r.reserved_until (last_until rs)

abbrev first_until : List Attachment → Option ℕ
first_until [] = none
first_until (r ∷ rs) = sooner r.reserved_until (first_until rs)

-- `String(column)`
abbrev column_text : Option ℕ → ℕ
column_text none = 0
column_text (some v) = v

abbrev group_of : Attachment → List Attachment → Group
group_of r members = record {
  conversation_id = r.conversation_id;
  uploader_id = r.uploader_id;
  reservation_id = column_text r.reservation_id;
  message_id = column_text r.message_id;
  scylla_write_policy =
      if every has_policy members then some attachment_message_write_policy else none;
  scylla_write_acknowledged = every (λ x. is_some x.scylla_write_acknowledged_at) members;
  attachment_ids = sort (ids_of members);
}

-- A group with the earliest `reserved_until` of its rows.
abbrev Dated : Type 0
Dated = ℕ × Group

-- The groups of the rows whose last reservation is over.
abbrev expired_groups : (now : ℕ) → List Attachment → (each : List Attachment) → List Dated
expired_groups now rows [] = []
expired_groups now rows (r ∷ rs) =
    let members = keep (same_group r) rows in
    let rest = expired_groups now rows rs in
    if at_most (last_until members) now
    then (message_text (first_until members), group_of r members) ∷ rest
    else rest

-- `ORDER BY MIN(reserved_until), conversation_id, message_id`
abbrev comes_first : Dated → Dated → Bool
comes_first (t, g) (u, h) =
    ltb t u
    || t == u
      && (ltb g.conversation_id h.conversation_id
          || g.conversation_id == h.conversation_id && ltb g.message_id h.message_id)

abbrev place_group : Dated → List Dated → List Dated
place_group g [] = g ∷ []
place_group g (h ∷ hs) = if comes_first g h then g ∷ h ∷ hs else h ∷ place_group g hs

abbrev in_order : List Dated → List Dated
in_order [] = []
in_order (g ∷ gs) = place_group g (in_order gs)

abbrev undated : List Dated → List Group
undated [] = []
undated ((t, g) ∷ gs) = g ∷ undated gs

unfoldable pub list_expired_reservation_groups : (now batch_size : ℕ) → Db → List Group
list_expired_reservation_groups now batch_size db =
    let rows = keep (λ r. is_reserved r.status) db.attachments in
    undated (limit batch_size (in_order (expired_groups now rows (one_of_each rows))))
