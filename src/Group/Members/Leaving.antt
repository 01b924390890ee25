-- ===== src/Group/Members/Leaving.antt =====
-- Leaving a group, and the two ways in which an owner may try to.
use voidchats_note2ee.Common.{
  ℕ, ◌≤◌, ◌<◌, ◌≡◌, ◌∙◌, refl, true, false, not, ◌&&◌, Option, none, some, List, [], ◌∷◌, ◌==◌,
  find, keep, map, length, length-keep, count, count-keep, count_cover, arith, Bool-cases, inl, inr,
  includes, leb, count_none, ==_iff, ==_refl,
}
use voidchats_note2ee.Group.Permissions.{GroupRole, owner}
use voidchats_note2ee.Group.Rows.{
  group, Conversation, Member, Db, Identifier, is_group, by_id, is_member, is_owner_role,
  in_conversation, resolve_membership_conversation, get_group_membership, get_member_rows,
  affected_ids,
}
use voidchats_note2ee.Group.Owners.Counts.{Keyed}
use voidchats_note2ee.Group.Owners.Repair.{OwnedBy, affected-includes}
use voidchats_note2ee.Group.Roles.Change.{owner_role}
use voidchats_note2ee.Group.Members.{
  failed, left, member_removed, pass, Checked-cases, is_nonempty, group_of, Departure, check_leave,
  leave, leave_group, delete_conversation, can_remove_member, check_removal, remove, remove_member,
}
use voidchats_note2ee.Group.Members.Removal.{take_out_lem}

record CanLeave (user : Option ℕ) (requested : Identifier) (db : Db) (d : Departure) : Type 0 where
  actor : user ≡ some d.user
  row : resolve_membership_conversation requested db ≡ some d.conversation
  kind : is_group d.conversation.kind ≡ true

check_leave_sound :
    (user : Option ℕ) (requested : Identifier) (db : Db) (d : Departure)
    → check_leave user requested db ≡ pass d
    → CanLeave user requested db d
unfolding check_leave group_of
check_leave_sound user requested db d e = ground arith

check_leave_owner :
    (u : ℕ) (requested : Identifier) (db : Db) (d : Departure) (row : Conversation) (r : GroupRole)
    → resolve_membership_conversation requested db ≡ some row
    → get_group_membership row.id u db ≡ some r
    → check_leave (some u) requested db ≡ pass d
    → 1 < length (get_member_rows row.id db)
    → is_owner_role r ≡ false
unfolding check_leave group_of
check_leave_owner u requested db d row r named mine e many = ground arith

others_stay :
    (c u : ℕ) (db : Db)
    → Keyed db.members
    → 1 < length (get_member_rows c db)
    → 0 < count (λ m. in_conversation c m && not (m.user_id == u)) db.members
unfolding get_member_rows
others_stay c u db keyed many = omega (
  arith,
  keyed c u,
  length-keep (in_conversation c) db.members,
  count_cover (in_conversation c) (λ m. in_conversation c m && not (m.user_id == u)) (is_member c u)
      (λ m h. ground arith) db.members,
)

-- One who leaves a group that goes on is not its owner and has no row in it afterwards, and the
-- group has one owner. Before, a user has at most one row in a conversation, and the row that the
-- request names is the one with its identifier.
pub leave_group-OwnedBy :
    (now u : ℕ) (requested : Identifier) (db : Db) (row : Conversation) (r : GroupRole)
    → Keyed db.members
    → resolve_membership_conversation requested db ≡ some row
    → find (by_id row.id) db.conversations ≡ some row
    → get_group_membership row.id u db ≡ some r
    → (leave_group now (some u) requested db).reply ≡ left false
    → (is_owner_role r ≡ false)
      × ((o : ℕ) × OwnedBy (leave_group now (some u) requested db).db row.id o)
      × (count (is_member row.id u) (leave_group now (some u) requested db).db.members ≡ 0)
unfolding leave_group leave
leave_group-OwnedBy now u requested db row r keyed named here mine e =
    elim (Checked-cases (check_leave (some u) requested db)) [
      | inr (status, code, refused) ↦ absurd (cc (rw (refused, leave_group) at e))
      | inl (d, passed) ↦
          let sound = check_leave_sound (some u) requested db d passed in
          let same : d.conversation ≡ row = ground (arith, sound.row) in
          let actor : d.user ≡ u = ground (arith, sound.actor) in
          let size = length (get_member_rows d.conversation.id db) in
          elim (Bool-cases (leb size 1)) [
            | inl last ↦ absurd (cc (rw (passed, last, leave_group, leave) at e))
            | inr more ↦
                let many : 1 < length (get_member_rows d.conversation.id db) = ground arith in
                let (owned, gone) =
                  take_out_lem now d.conversation.id d.user db d.conversation keyed (rw same here)
                    (ground (arith, sound.kind))
                    (others_stay d.conversation.id d.user db keyed many) in
                (
                  check_leave_owner u requested db d row r named mine passed (rw same at many),
                  rw (passed, more, leave_group, leave, ← same) owned,
                  rw (passed, more, leave_group, leave, ← same, ← actor) gone,
                )
          ]
    ]

deleted_conversation :
    (c : ℕ) (ids : List ℕ) (rows : List Conversation)
    → includes c ids ≡ true
    → find (by_id c) (keep (λ (row : Conversation). not (includes row.id ids)) rows) ≡ none
deleted_conversation c ids [] h = refl
deleted_conversation c ids (r ∷ rows) h =
    ground (arith, deleted_conversation c ids rows h, ==_iff r.id c)

-- Where the last member leaves, the group is gone with all of its member rows. The group had at
-- most one member row.
pub leave_group_last :
    (now u : ℕ) (requested : Identifier) (db : Db) (row : Conversation)
    → resolve_membership_conversation requested db ≡ some row
    → (leave_group now (some u) requested db).reply ≡ left true
    → (length (get_member_rows row.id db) ≤ 1)
      × (find (by_id row.id) (leave_group now (some u) requested db).db.conversations ≡ none)
      × (count (in_conversation row.id) (leave_group now (some u) requested db).db.members ≡ 0)
unfolding leave_group leave delete_conversation
leave_group_last now u requested db row named e =
    elim (Checked-cases (check_leave (some u) requested db)) [
      | inr (status, code, refused) ↦ absurd (cc (rw (refused, leave_group) at e))
      | inl (d, passed) ↦
          let sound = check_leave_sound (some u) requested db d passed in
          let same : d.conversation ≡ row = ground (arith, sound.row) in
          let c = d.conversation.id in
          let ids = affected_ids c db in
          let listed = affected-includes c db in
          elim (Bool-cases (leb (length (get_member_rows d.conversation.id db)) 1)) [
            | inr more ↦ absurd (cc (rw (passed, more, leave_group, leave) at e))
            | inl last ↦ (
              rw (← same) (ground arith),
              rw (passed, last, leave_group, leave, ← same)
                  (deleted_conversation c ids db.conversations listed),
              rw (passed, last, leave_group, leave, ← same)
                  (count-keep (in_conversation c) (λ m. not (includes m.conversation_id ids))
                      db.members
                    ∙ count_none _ (λ m. ground arith) db.members),
            )
          ]
    ]

count_nonempty :
    (target c : ℕ) (members : List Member)
    → 0 < count (λ m. in_conversation c m && not (m.user_id == target)) members
    → is_nonempty (
        keep
          (λ u. not (u == target))
          (map (λ (m : Member). m.user_id) (keep (in_conversation c) members)))
      ≡ true
count_nonempty target c [] h = elim h [ ]
count_nonempty target c (m ∷ members) h = elim (Bool-cases (in_conversation c m)) [
  | inr outside ↦ rw outside (count_nonempty target c members (omega (arith, rw outside at h)))
  | inl inside ↦ elim (Bool-cases (m.user_id == target)) [
    | inl same ↦
        rw (inside, same) (count_nonempty target c members (omega (arith, rw (inside, same) at h)))
    | inr differ ↦ rw (inside, differ) refl
  ]
]

check_removal_self :
    (a : ℕ) (requested : Identifier) (db : Db) (row : Conversation) (r : GroupRole)
    → resolve_membership_conversation requested db ≡ some row
    → row.kind ≡ group
    → get_group_membership row.id a db ≡ some r
    → 0 < count (λ m. in_conversation row.id m && not (m.user_id == a)) db.members
    → check_removal (some a) requested a db ≡ pass (record { user = a; conversation = row })
unfolding check_removal can_remove_member group_of get_member_rows
check_removal_self a requested db row r named kind mine stays =
    let others = count_nonempty a row.id db.members stays in
    let self = ==_refl a in
    let grouped : is_group row.kind ≡ true = rw kind in
    rw (named, grouped, mine, self, can_remove_member, others) refl

-- The owner of a group with other members is sent away by `DELETE /@me`, and goes by
-- `DELETE /:targetUserId` with its own identifier: the second route lets everyone remove oneself.
-- A user has at most one row in a conversation.
pub owner_departure :
    (now a : ℕ) (requested : Identifier) (db : Db) (row : Conversation)
    → Keyed db.members
    → resolve_membership_conversation requested db ≡ some row
    → row.kind ≡ group
    → OwnedBy db row.id a
    → 1 < length (get_member_rows row.id db)
    → ((leave_group now (some a) requested db).reply ≡ failed 403 "OWNER_TRANSFER_REQUIRED")
      × ((remove_member now (some a) requested a db).reply ≡ member_removed)
unfolding leave_group check_leave remove_member remove group_of
owner_departure now a requested db row keyed named kind owned many =
    let mine = owner_role row.id a db keyed owned.member in
    let passed =
      check_removal_self a requested db row owner named kind mine
        (others_stay row.id a db keyed many) in
    (ground arith, rw (passed, remove_member) refl)
