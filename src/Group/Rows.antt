-- ===== src/Group/Rows.antt =====
-- The rows of `conversations` and `conversation_members`, and the queries of
-- VOID0000-api/server/utils/groupMembership.ts and conversationIdentity.ts on them. A user and a
-- conversation identifier are numbers, and so is a time; an identifier in a request has the form
-- of a UUID, of a snowflake, or neither.
use voidchats_note2ee.Common.{
  ℕ, Bool, true, false, ◌&&◌, Option, none, some, List, [], ◌∷◌, ◌++◌, ◌==◌, if◌then◌else◌, find,
  keep, map, includes,
}
use voidchats_note2ee.Friends.{Friendships, are_friends}
use voidchats_note2ee.Group.Permissions.{GroupRole, owner, member, Object}

pub data Kind : Type 0 where
  dm group channel : Kind

abbrev pub is_group : Kind → Bool
is_group group = true
is_group _ = false

abbrev pub is_channel : Kind → Bool
is_channel channel = true
is_channel _ = false

pub record Conversation : Type 0 where
  pub id : ℕ
  pub public_id : Option ℕ
  pub kind : Kind
  pub owner_id : Option ℕ
  pub parent : Option ℕ
  pub permissions : Option Object
  pub updated_at : ℕ

pub record Member : Type 0 where
  pub conversation_id : ℕ
  pub user_id : ℕ
  pub role : GroupRole
  pub joined_at : Option ℕ

pub record Db : Type 0 where
  pub conversations : List Conversation
  pub members : List Member
  pub friendships : Friendships

pub data Identifier : Type 0 where
  uuid snowflake : ℕ → Identifier
  malformed : Identifier

-- `a === b` where the left side may be null.
abbrev pub is_user : Option ℕ → ℕ → Bool
is_user none u = false
is_user (some o) u = o == u

abbrev pub by_id : ℕ → Conversation → Bool
by_id c row = row.id == c

unfoldable pub find_conversation_by_identifier : Identifier → Db → Option Conversation
find_conversation_by_identifier (uuid c) db = find (by_id c) db.conversations
find_conversation_by_identifier (snowflake n) db =
    find (λ (row : Conversation). is_user row.public_id n) db.conversations
find_conversation_by_identifier malformed db = none

abbrev parent_of : Conversation → Db → Option Conversation
parent_of row db = elim row.parent [ none ↦ some row | some p ↦ find (by_id p) db.conversations ]

abbrev membership_of : Option Conversation → Db → Option Conversation
membership_of none db = none
membership_of (some row) db = if is_channel row.kind then parent_of row db else some row

-- A channel stands for the conversation that it belongs to.
unfoldable pub resolve_membership_conversation : Identifier → Db → Option Conversation
unfolding find_conversation_by_identifier
resolve_membership_conversation requested db =
    membership_of (find_conversation_by_identifier requested db) db

abbrev pub is_child : ℕ → Conversation → Bool
is_child c row = is_user row.parent c

unfoldable pub get_child_channel_ids : ℕ → Db → List ℕ
get_child_channel_ids c db =
    map (λ (row : Conversation). row.id) (keep (is_child c) db.conversations)

-- `[conversationId, ...childChannelIds]`
unfoldable pub affected_ids : ℕ → Db → List ℕ
unfolding get_child_channel_ids
affected_ids c db = c ∷ get_child_channel_ids c db

abbrev pub in_conversation : ℕ → Member → Bool
in_conversation c m = m.conversation_id == c

abbrev pub is_member : ℕ → ℕ → Member → Bool
is_member c u m = m.conversation_id == c && m.user_id == u

abbrev pub is_owner_role : GroupRole → Bool
is_owner_role owner = true
is_owner_role _ = false

abbrev role_of : Option Member → Option GroupRole
role_of none = none
role_of (some m) = some m.role

-- The role of the user's row in the conversation, if there is one.
unfoldable pub get_group_membership : ℕ → ℕ → Db → Option GroupRole
get_group_membership c u db = role_of (find (is_member c u) db.members)

unfoldable pub get_member_rows : ℕ → Db → List Member
get_member_rows c db = keep (in_conversation c) db.members

-- The first of the users who is no accepted friend of the requester.
unfoldable pub validate_friendships : Db → ℕ → List ℕ → Option ℕ
validate_friendships db requester [] = none
validate_friendships db requester (u ∷ us) =
    if are_friends requester u db.friendships then validate_friendships db requester us else some u

-- `new Set(values.filter(…).map(trim).filter(Boolean))`: `none` is an entry that is no text or is
-- blank, and the first occurrence of each identifier stays.
unfoldable pub unique_from : List ℕ → List (Option ℕ) → List ℕ
unique_from seen [] = []
unique_from seen (none ∷ values) = unique_from seen values
unique_from seen (some u ∷ values) =
    let kept = u ∷ unique_from (u ∷ seen) values in
    let skipped = unique_from seen values in if includes u seen then skipped else kept

unfoldable pub unique_user_ids : List (Option ℕ) → List ℕ
unfolding unique_from
unique_user_ids values = unique_from [] values

-- `UPDATE conversations SET owner_id = $1, updated_at = NOW() WHERE id = ANY($2)`
abbrev pub set_owner_row : ℕ → ℕ → List ℕ → Conversation → Conversation
set_owner_row now u ids row =
    if includes row.id ids then record row { owner_id = some u; updated_at = now } else row

-- `UPDATE conversations SET updated_at = NOW() WHERE id = ANY($1)`
abbrev pub touch_row : ℕ → List ℕ → Conversation → Conversation
touch_row now ids row = if includes row.id ids then record row { updated_at = now } else row

-- `INSERT INTO conversation_members … VALUES ($1, $2, 'member') ON CONFLICT DO NOTHING`
unfoldable pub insert_member : ℕ → ℕ → ℕ → List Member → List Member
insert_member now c u members = elim (find (is_member c u) members) [
  | some m ↦ members
  | none ↦
      members
      ++ (record { conversation_id = c; user_id = u; role = member; joined_at = some now }) ∷ []
]

-- `DELETE FROM conversation_members WHERE conversation_id = ANY($1) AND user_id = $2`
abbrev pub is_removed : List ℕ → ℕ → Member → Bool
is_removed ids u m = includes m.conversation_id ids && m.user_id == u
