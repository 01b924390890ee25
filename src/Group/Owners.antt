-- ===== src/Group/Owners.antt =====
-- `ensureGroupOwner` of VOID0000-api/server/utils/groupMembership.ts: the group's owner column
-- and the roles of its members are brought into line.
pub mod Counts
pub mod Repair
pub mod Keys
use voidchats_note2ee.Common.{
  ℕ, Bool, true, false, ◌&&◌, ◌||◌, Option, none, some, List, [], ◌∷◌, ◌==◌, ltb, if◌then◌else◌,
  find, first, map, includes, count,
}
use voidchats_note2ee.Group.Permissions.{GroupRole, owner, admin}
use voidchats_note2ee.Group.Rows.{
  Conversation, Member, Db, is_group, is_user, by_id, is_owner_role, get_member_rows, affected_ids,
  set_owner_row,
}

-- `ORDER BY joined_at ASC NULLS LAST, user_id ASC`
abbrev pub earlier : Option ℕ → Option ℕ → Bool → Bool
earlier none none tie = tie
earlier none (some y) tie = false
earlier (some x) none tie = true
earlier (some x) (some y) tie = ltb x y || x == y && tie

abbrev pub comes_before : Member → Member → Bool
comes_before a b = earlier a.joined_at b.joined_at (ltb a.user_id b.user_id)

unfoldable pub insert_in_order : Member → List Member → List Member
insert_in_order m [] = m ∷ []
insert_in_order m (x ∷ xs) = if comes_before x m then x ∷ insert_in_order m xs else m ∷ x ∷ xs

unfoldable pub order_members : List Member → List Member
unfolding insert_in_order
order_members [] = []
order_members (m ∷ ms) = insert_in_order m (order_members ms)

abbrev pub or_member : Option Member → Option Member → Option Member
or_member (some m) other = some m
or_member none other = other

-- `configuredOwner || roleOwner || members[0]`
unfoldable pub pick_owner : Option ℕ → List Member → Option Member
pick_owner configured members =
    or_member (find (λ m. is_user configured m.user_id) members)
      (or_member (find (λ m. is_owner_role m.role) members) (first members))

abbrev pub repaired_role : ℕ → Member → GroupRole
repaired_role u m = if m.user_id == u then owner else if is_owner_role m.role then admin else m.role

-- The UPDATE of the roles.
abbrev pub repair_member : ℕ → List ℕ → Member → Member
repair_member u ids m =
    if includes m.conversation_id ids && (m.user_id == u || is_owner_role m.role)
    then record m { role = repaired_role u m }
    else m

pub record OwnerState : Type 0 where
  pub repaired : Bool
  pub owner_user_id : Option ℕ

unfoldable pub repair : ℕ → ℕ → ℕ → Db → Db
repair now c u db = record db {
  conversations = map (set_owner_row now u (affected_ids c db)) db.conversations;
  members = map (repair_member u (affected_ids c db)) db.members;
}

unfoldable pub is_consistent : Conversation → Member → List Member → Bool
is_consistent row chosen members =
    is_user row.owner_id chosen.user_id
    && (is_owner_role chosen.role && count (λ (m : Member). is_owner_role m.role) members == 1)

unfoldable pub settle_owner : ℕ → Conversation → List Member → Db → Db × OwnerState
unfolding pick_owner is_consistent repair
settle_owner now row members db = elim (pick_owner row.owner_id members) [
  | none ↦ (db, record { repaired = false; owner_user_id = none })
  | some chosen ↦
      if is_consistent row chosen members
      then (db, record { repaired = false; owner_user_id = some chosen.user_id })
      else (
        repair now row.id chosen.user_id db,
        record { repaired = true; owner_user_id = some chosen.user_id },
      )
]

unfoldable pub ensure_group_owner : ℕ → ℕ → Db → Db × OwnerState
unfolding settle_owner order_members get_member_rows
ensure_group_owner now c db = elim (find (by_id c) db.conversations) [
  | none ↦ (db, record { repaired = false; owner_user_id = none })
  | some row ↦
      if is_group row.kind
      then settle_owner now row (order_members (get_member_rows c db)) db
      else (db, record { repaired = false; owner_user_id = row.owner_id })
]
