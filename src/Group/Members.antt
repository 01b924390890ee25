-- ===== src/Group/Members.antt =====
-- The member routes of VOID0000-api/server/routes/conversations/members.ts.
-- A route is its checks, each of which may refuse the
-- request, and then its writes; a refusal after BEGIN is a ROLLBACK, so it leaves the database as
-- it was. The failures of the database itself (answered by 500) are not modelled.
-- A user is a number, so that a request is taken to spell the identifier of a user as the store
-- does, in lowercase: the code compares the texts.
pub mod Removal
pub mod Leaving
pub mod Adding
use Prim.Native.String.{String}
use voidchats_note2ee.Common.{
  ℕ, ◌≡◌, ◌⊎◌, inl, inr, refl, Bool, true, false, not, ◌&&◌, ◌||◌, Option, none, some, List, [],
  ◌∷◌, ◌++◌, ◌==◌, ltb, leb, if◌then◌else◌, find, keep, first, map, includes, length,
}
use voidchats_note2ee.Group.Permissions.{
  GroupRole, owner, admin, member, viewer, unlisted, get, resolve_permissions, meets_admin_toggle,
}
use voidchats_note2ee.Group.Rows.{
  Conversation, Member, Db, Identifier, is_group, is_user, is_child, is_owner_role, in_conversation,
  resolve_membership_conversation, get_child_channel_ids, affected_ids, get_group_membership,
  get_member_rows, validate_friendships, unique_user_ids, set_owner_row, touch_row, insert_member,
  is_removed,
}
use voidchats_note2ee.Group.Owners.{OwnerState, ensure_group_owner}

pub data Reply : Type 0 where
  failed : (status : ℕ) (code : String) → Reply
  added : List ℕ → Reply
  left : (deleted : Bool) → Reply
  member_removed role_updated : Reply
  transferred : (new_owner count : ℕ) → Reply

-- The live events; an update goes to each member with the owner, the number of members and the
-- role of the receiver.
pub data Event : Type 0 where
  member_leave : (to conversation : ℕ) (removed_by : Option ℕ) → Event
  conversation_update :
      (to conversation : ℕ) (owner : Option ℕ) (count : ℕ) (role : GroupRole) → Event

pub record Answer : Type 0 where
  pub db : Db
  pub reply : Reply
  pub events : List Event

-- A check passes with a value, or refuses with a status and a code ("" where there is none).
pub data Checked {ℓ} (A : Type ℓ) : Type ℓ where
  pass : A → Checked A
  refuse : ℕ → String → Checked A

infixl 5 ◌>>=◌ ◌>>◌
abbrev pub ◌>>=◌ {ℓ κ} : {A : Type ℓ} {B : Type κ} → Checked A → (A → Checked B) → Checked B
pass a >>= f = f a
refuse status code >>= f = refuse status code

abbrev pub ◌>>◌ {ℓ} : {B : Type ℓ} → Checked (Unit {0}) → Checked B → Checked B
m >> k = m >>= λ _. k

abbrev pub guard : Bool → ℕ → String → Checked (Unit {0})
guard true status code = pass tt
guard false status code = refuse status code

abbrev pub found {ℓ} : {A : Type ℓ} → Option A → ℕ → String → Checked A
found (some a) status code = pass a
found none status code = refuse status code

pub Checked-cases {ℓ} :
    {A : Type ℓ} (m : Checked A)
    → ((a : A) × (m ≡ pass a)) ⊎ ((status : ℕ) × (code : String) × (m ≡ refuse status code))
Checked-cases (pass a) = inl (a, refl)
Checked-cases (refuse status code) = inr (status, code, refl)

-- The checks, then the writes; a refusal changes nothing.
abbrev pub answer {ℓ} : {A : Type ℓ} → Db → Checked A → (A → Answer) → Answer
answer db (pass a) act = act a
answer db (refuse status code) act = record { db = db; reply = failed status code; events = [] }

abbrev pub is_admin_or_owner : GroupRole → Bool
is_admin_or_owner owner = true
is_admin_or_owner admin = true
is_admin_or_owner _ = false

-- `broadcastMembershipUpdate`
unfoldable pub broadcast : ℕ → Option ℕ → List Member → List Event
broadcast c owner_id rows =
    map (λ (m : Member). conversation_update m.user_id c owner_id (length rows) m.role) rows

-- The conversation of the request, which must be a group.
unfoldable pub group_of : Identifier → Db → Checked Conversation
group_of requested db = do
  row ← found (resolve_membership_conversation requested db) 404 ""
  guard (is_group row.kind) 400 ""
  pass row

-- What the checks of `POST /` establish: the actor, the group and the users to add.
pub record Addition : Type 0 where
  pub actor : ℕ
  pub conversation : Conversation
  pub new_members : List ℕ

abbrev pub new_member_ids : List ℕ → List Member → List ℕ
new_member_ids requested rows =
    keep (λ u. not (includes u (map (λ (m : Member). m.user_id) rows))) requested

abbrev pub is_nonempty : List ℕ → Bool
is_nonempty [] = false
is_nonempty (u ∷ us) = true

abbrev pub is_none : Option ℕ → Bool
is_none none = true
is_none (some u) = false

unfoldable pub check_addition : Option ℕ → Identifier → List (Option ℕ) → Db → Checked Addition
unfolding group_of
check_addition user requested values db = do
  actor ← found user 401 ""
  guard (is_nonempty (unique_user_ids values)) 400 ""
  row ← group_of requested db
  role ← found (get_group_membership row.id actor db) 403 ""
  guard (is_admin_or_owner role) 403 ""
  let new_members = new_member_ids (unique_user_ids values) (get_member_rows row.id db)
  guard (is_nonempty new_members) 409 "ALREADY_MEMBER"
  guard (is_none (validate_friendships db actor new_members)) 403 "FRIENDSHIP_REQUIRED"
  pass (record { actor = actor; conversation = row; new_members = new_members })

-- The two nested loops of INSERTs.
unfoldable pub insert_into : ℕ → ℕ → List ℕ → List Member → List Member
insert_into now u [] members = members
insert_into now u (c ∷ cs) members = insert_into now u cs (insert_member now c u members)

unfoldable pub insert_all : ℕ → List ℕ → List ℕ → List Member → List Member
unfolding insert_into insert_member
insert_all now [] cs members = members
insert_all now (u ∷ us) cs members = insert_all now us cs (insert_into now u cs members)

unfoldable pub add : ℕ → Db → Addition → Answer
unfolding insert_all broadcast affected_ids get_member_rows
add now db a =
    let c = a.conversation.id in
    let ids = affected_ids c db in
    let db' : Db = record db {
      conversations = map (touch_row now ids) db.conversations;
      members = insert_all now a.new_members ids db.members;
    } in
    record {
      db = db';
      reply = added a.new_members;
      events = broadcast c a.conversation.owner_id (get_member_rows c db');
    }

-- `POST /`
unfoldable pub add_members : ℕ → Option ℕ → Identifier → List (Option ℕ) → Db → Answer
unfolding check_addition add
add_members now user requested values db =
    answer db (check_addition user requested values db) (add now db)

-- The user's rows go, the times are set, and the owner is settled.
unfoldable pub take_out : ℕ → ℕ → ℕ → Db → Db × OwnerState
unfolding ensure_group_owner affected_ids
take_out now c u db =
    let ids = affected_ids c db in
    ensure_group_owner now c (record db {
      conversations = map (touch_row now ids) db.conversations;
      members = keep (λ m. not (is_removed ids u m)) db.members;
    })

-- `DELETE FROM conversations WHERE id = $1`; the foreign keys delete its channels and the member
-- rows of all of them (a channel has no channels of its own).
unfoldable pub delete_conversation : ℕ → Db → Db
unfolding affected_ids
delete_conversation c db = record db {
  conversations = keep (λ row. not (includes row.id (affected_ids c db))) db.conversations;
  members = keep (λ m. not (includes m.conversation_id (affected_ids c db))) db.members;
}

-- What the checks of a departure establish: the user who acts, and the group.
pub record Departure : Type 0 where
  pub user : ℕ
  pub conversation : Conversation

unfoldable pub check_leave : Option ℕ → Identifier → Db → Checked Departure
unfolding group_of
check_leave user requested db = do
  u ← found user 401 ""
  row ← group_of requested db
  role ← found (get_group_membership row.id u db) 403 ""
  guard (not (is_owner_role role && ltb 1 (length (get_member_rows row.id db)))) 403
      "OWNER_TRANSFER_REQUIRED"
  pass (record { user = u; conversation = row })

unfoldable pub leave : ℕ → Db → Departure → Answer
unfolding take_out delete_conversation broadcast get_member_rows
leave now db d =
    let c = d.conversation.id in
    if leb (length (get_member_rows c db)) 1
    then record {
      db = delete_conversation c db;
      reply = left true;
      events = member_leave d.user c none ∷ [];
    }
    else (let (db', state) = take_out now c d.user db in
        record {
          db = db';
          reply = left false;
          events =
              member_leave d.user c none ∷ broadcast c state.owner_user_id (get_member_rows c db');
        })

-- `DELETE /@me`
unfoldable pub leave_group : ℕ → Option ℕ → Identifier → Db → Answer
unfolding check_leave leave
leave_group now user requested db = answer db (check_leave user requested db) (leave now db)

-- `ADMIN_REMOVABLE_TARGET_ROLES.has(role)`
abbrev pub is_admin_removable : GroupRole → Bool
is_admin_removable member = true
is_admin_removable viewer = true
is_admin_removable _ = false

abbrev pub is_admin_role : GroupRole → Bool
is_admin_role admin = true
is_admin_role _ = false

-- The order of the tests is the source's: oneself, the owner as target, the owner, an admin.
unfoldable pub can_remove_member : GroupRole → GroupRole → ℕ → ℕ → Checked (Unit {0})
can_remove_member actor_role target_role actor target =
    if actor == target
    then pass tt
    else if is_owner_role target_role
    then refuse 403 "OWNER_TRANSFER_REQUIRED"
    else if is_owner_role actor_role
    then pass tt
    else if is_admin_role actor_role && is_admin_removable target_role
    then pass tt
    else refuse 403 "TARGET_ROLE_PROTECTED"

unfoldable pub check_removal : Option ℕ → Identifier → ℕ → Db → Checked Departure
unfolding group_of can_remove_member
check_removal user requested target db = do
  actor ← found user 401 ""
  row ← group_of requested db
  actor_role ← found (get_group_membership row.id actor db) 403 ""
  target_role ← found (get_group_membership row.id target db) 404 ""
  let permissions = resolve_permissions row.permissions
  guard
      (actor == target
        || meets_admin_toggle actor_role (get "admin_can_remove_members" permissions))
      403 ""
  can_remove_member actor_role target_role actor target
  guard
      (is_nonempty (
        keep (λ u. not (u == target))
          (map (λ (m : Member). m.user_id) (get_member_rows row.id db))))
      400 ""
  pass (record { user = actor; conversation = row })

unfoldable pub remove : ℕ → ℕ → Db → Departure → Answer
unfolding take_out broadcast get_member_rows
remove now target db d =
    let c = d.conversation.id in
    let (db', state) = take_out now c target db in
    record {
      db = db';
      reply = member_removed;
      events =
          member_leave target c (some d.user)
          ∷ broadcast c state.owner_user_id (get_member_rows c db');
    }

-- `DELETE /:targetUserId`
unfoldable pub remove_member : ℕ → Option ℕ → Identifier → ℕ → Db → Answer
unfolding check_removal remove
remove_member now user requested target db =
    answer db (check_removal user requested target db) (remove now target db)
