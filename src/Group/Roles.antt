-- ===== src/Group/Roles.antt =====
-- The transfer of a group's ownership (members/ownership.ts, under
-- VOID0000-api/server/routes/conversations) and the change of a member's role (members/roles.ts).
-- The transfer runs in a transaction; the change of a role is a row of single statements.
-- A user is a number, so that a request is taken to spell the identifier of a user as the store
-- does, in lowercase: the code compares the texts.
pub mod Ownership
pub mod Change
pub mod Race
use Prim.Native.String.{String}
use voidchats_note2ee.Common.{
  ℕ, Bool, true, false, not, ◌&&◌, ◌||◌, Option, none, some, List, [], ◌∷◌, ◌==◌, if◌then◌else◌,
  map, includes, length,
}
use voidchats_note2ee.Group.Permissions.{GroupRole, owner, admin, member, viewer}
use voidchats_note2ee.Group.Rows.{
  Conversation, Member, Db, Identifier, is_group, is_user, is_owner_role, is_member,
  resolve_membership_conversation, get_child_channel_ids, affected_ids, get_group_membership,
  get_member_rows, set_owner_row,
}
use voidchats_note2ee.Group.Members.{
  Answer, transferred, role_updated, Event, Checked, pass, refuse, ◌>>=◌, ◌>>◌, guard, found,
  answer, broadcast, group_of, is_admin_or_owner, is_admin_removable, is_admin_role,
}

-- What the checks of a transfer establish.
pub record Transfer : Type 0 where
  pub actor : ℕ
  pub target : ℕ
  pub conversation : Conversation

unfoldable pub check_transfer : Option ℕ → Identifier → Option ℕ → Db → Checked Transfer
unfolding group_of get_group_membership
check_transfer user requested target_user db = do
  actor ← found user 401 ""
  target ← found target_user 400 ""
  guard (not (target == actor)) 400 ""
  row ← group_of requested db
  role ← found (get_group_membership row.id actor db) 403 ""
  guard (is_owner_role role) 403 ""
  guard (is_user row.owner_id actor) 409 "OWNER_STATE_MISMATCH"
  target_role ← found (get_group_membership row.id target db) 404 ""
  pass (record { actor = actor; target = target; conversation = row })

-- The UPDATE of the two roles.
abbrev pub transfer_row : ℕ → ℕ → List ℕ → Member → Member
transfer_row target actor ids m =
    if includes m.conversation_id ids && (m.user_id == target || m.user_id == actor)
    then record m { role = if m.user_id == target then owner else admin }
    else m

unfoldable pub transfer : ℕ → Db → Transfer → Answer
unfolding affected_ids broadcast get_member_rows
transfer now db t =
    let c = t.conversation.id in
    let ids = affected_ids c db in
    let db' : Db = record db {
      conversations = map (set_owner_row now t.target ids) db.conversations;
      members = map (transfer_row t.target t.actor ids) db.members;
    } in
    record {
      db = db';
      reply = transferred t.target (length (get_member_rows c db'));
      events = broadcast c (some t.target) (get_member_rows c db');
    }

-- `POST /transfer-ownership`; `none` as target is a field that is no text or is blank.
unfoldable pub transfer_ownership : ℕ → Option ℕ → Identifier → Option ℕ → Db → Answer
unfolding check_transfer transfer
transfer_ownership now user requested target_user db =
    answer db (check_transfer user requested target_user db) (transfer now db)

-- What the checks of a role change establish.
pub record RoleChange : Type 0 where
  pub target : ℕ
  pub role : GroupRole
  pub conversation : Conversation

-- `['admin', 'member'].includes(role)`
abbrev pub is_assignable : GroupRole → Bool
is_assignable admin = true
is_assignable member = true
is_assignable _ = false

unfoldable pub check_role_change : Option ℕ → Identifier → ℕ → GroupRole → Db → Checked RoleChange
unfolding resolve_membership_conversation get_group_membership
check_role_change user requested target role db = do
  actor ← found user 401 ""
  guard (is_assignable role) 400 ""
  row ← found (resolve_membership_conversation requested db) 404 ""
  actor_role ← found (get_group_membership row.id actor db) 403 ""
  guard (is_admin_or_owner actor_role) 403 ""
  target_role ← found (get_group_membership row.id target db) 404 ""
  guard (not (is_owner_role target_role)) 400 ""
  guard (not (is_admin_role actor_role && not (is_admin_removable target_role))) 403
      "TARGET_ROLE_PROTECTED"
  pass (record { target = target; role = role; conversation = row })

-- `UPDATE conversation_members SET role = $1 WHERE conversation_id = $2 AND user_id = $3`
abbrev pub set_role_row : ℕ → ℕ → GroupRole → Member → Member
set_role_row c u role m = if is_member c u m then record m { role = role } else m

unfoldable pub set_role_in : List ℕ → ℕ → GroupRole → List Member → List Member
set_role_in [] u role members = members
set_role_in (c ∷ cs) u role members = set_role_in cs u role (map (set_role_row c u role) members)

-- The writes of `PUT /:targetUserId`: the group's row, and for a group the channels' rows.
unfoldable pub change_role : Db → RoleChange → Answer
unfolding set_role_in get_child_channel_ids broadcast get_member_rows
change_role db r =
    let c = r.conversation.id in
    let own = map (set_role_row c r.target r.role) db.members in
    let channels = if is_group r.conversation.kind then get_child_channel_ids c db else [] in
    let db' : Db = record db { members = set_role_in channels r.target r.role own } in
    record {
      db = db';
      reply = role_updated;
      events = broadcast c r.conversation.owner_id (get_member_rows c db');
    }

-- `PUT /:targetUserId`
unfoldable pub update_role : Option ℕ → Identifier → ℕ → GroupRole → Db → Answer
unfolding check_role_change change_role
update_role user requested target role db =
    answer db (check_role_change user requested target role db) (change_role db)
