-- ===== src/Group/Members/Removal.antt =====
-- After a member has left or was removed, the group has one owner and the member has no row.
use voidchats_note2ee.Common.{
  ℕ, ◌<◌, ◌≡◌, ◌⊎◌, ◌∙◌, Bool, true, false, not, ◌&&◌, Option, some, List, [], ◌∷◌, ◌==◌, find,
  keep, map, count, count-keep, count_mono, count-keep_le, arith, Bool-cases, inl, inr, count_none,
  ==_iff,
}
use voidchats_note2ee.Group.Permissions.{
  GroupRole, owner, admin, get, is_true, resolve_permissions, meets_admin_toggle,
}
use voidchats_note2ee.Group.Rows.{
  group, Conversation, Member, Db, Identifier, is_group, by_id, is_member, is_owner_role,
  in_conversation, resolve_membership_conversation, get_group_membership, get_member_rows,
  affected_ids, touch_row, is_removed,
}
use voidchats_note2ee.Group.Owners.Counts.{Keyed}
use voidchats_note2ee.Group.Owners.Repair.{OwnedBy, ensure_group_owner-OwnedBy, affected-includes}
use voidchats_note2ee.Group.Owners.Keys.{ensure_group_owner-keys}
use voidchats_note2ee.Group.Members.{
  member_removed, pass, Checked-cases, is_nonempty, group_of, take_out, Departure,
  can_remove_member, check_removal, remove, remove_member, is_admin_removable,
}

find-touch :
    (now c : ℕ) (ids : List ℕ) (rows : List Conversation) (row : Conversation)
    → find (by_id c) rows ≡ some row
    → find (by_id c) (map (touch_row now ids) rows) ≡ some (touch_row now ids row)
find-touch now c ids [] row e = cc
find-touch now c ids (r ∷ rows) row e = elim (Bool-cases (by_id c r)) [
  | inl hit ↦ ground (arith, hit)
  | inr miss ↦ ground (arith, find-touch now c ids rows row (rw miss at e))
]

-- The user's row is gone, the keys stay unique, and the group has one owner, if someone stays.
pub take_out_lem :
    (now c u : ℕ) (db : Db) (row : Conversation)
    → Keyed db.members
    → find (by_id c) db.conversations ≡ some row
    → row.kind ≡ group
    → 0 < count (λ m. in_conversation c m && not (m.user_id == u)) db.members
    → ((o : ℕ) × OwnedBy (take_out now c u db).0 c o)
      × (count (is_member c u) (take_out now c u db).0.members ≡ 0)
unfolding take_out
take_out_lem now c u db row keyed here kind stays =
    let ids = affected_ids c db in
    let listed = affected-includes c db in
    let kept = keep (λ m. not (is_removed ids u m)) db.members in
    let db' : Db = record db {
      conversations = map (touch_row now ids) db.conversations;
      members = kept;
    } in
    let some_left =
      count_mono (λ m. in_conversation c m && not (m.user_id == u))
        (λ m. not (is_removed ids u m) && in_conversation c m) (λ m h. ground arith) db.members in
    let counted = count-keep (in_conversation c) (λ m. not (is_removed ids u m)) db.members in
    let mine = count-keep (is_member c u) (λ m. not (is_removed ids u m)) db.members in
    let (o, named, owned) =
      ensure_group_owner-OwnedBy now c db' (touch_row now ids row)
        (λ d v. omega (
          arith,
          keyed d v,
          count-keep_le (is_member d v) (λ m. not (is_removed ids u m)) db.members,
        ))
        (find-touch now c ids db.conversations row here) (ground arith) (omega arith) in
    let gone =
      count_none (λ m. not (is_removed ids u m) && is_member c u m) (λ m. ground arith)
        db.members in
    ((o, owned), ensure_group_owner-keys now c c u db' ∙ mine ∙ gone)

-- Who may remove whom: oneself, or the target is no owner and the actor is the owner, or an admin
-- where the switch is on and the target is a plain member or a viewer.
abbrev pub MayRemove : ℕ → ℕ → GroupRole → GroupRole → Bool → Type 0
MayRemove actor target actor_role target_role switch =
    (actor ≡ target)
    ⊎ ((is_owner_role target_role ≡ false)
        × ((actor_role ≡ owner)
            ⊎ ((actor_role ≡ admin) × (switch ≡ true) × (is_admin_removable target_role ≡ true))))

-- What the checks of a removal establish.
record Removable (user : Option ℕ) (requested : Identifier) (target : ℕ) (db : Db) (d : Departure)
    : Type 0 where
  actor : user ≡ some d.user
  row : resolve_membership_conversation requested db ≡ some d.conversation
  kind : is_group d.conversation.kind ≡ true
  remains :
      is_nonempty (
        keep
          (λ u. not (u == target))
          (map (λ (m : Member). m.user_id) (get_member_rows d.conversation.id db)))
      ≡ true

check_removal_sound :
    (user : Option ℕ) (requested : Identifier) (target : ℕ) (db : Db) (d : Departure)
    → check_removal user requested target db ≡ pass d
    → Removable user requested target db d
unfolding check_removal group_of
check_removal_sound user requested target db d e = ground arith

check_removal_right :
    (actor target : ℕ) (requested : Identifier) (db : Db) (d : Departure) (row : Conversation)
    (ar tr : GroupRole)
    → resolve_membership_conversation requested db ≡ some row
    → get_group_membership row.id actor db ≡ some ar
    → get_group_membership row.id target db ≡ some tr
    → check_removal (some actor) requested target db ≡ pass d
    → MayRemove actor target ar tr
        (is_true (get "admin_can_remove_members" (resolve_permissions row.permissions)))
unfolding check_removal group_of can_remove_member meets_admin_toggle
check_removal_right actor target requested db d row ar tr named mine theirs e =
    elim (Bool-cases (actor == target)) [
      | inl same ↦ inl ((==_iff actor target).0 same)
      | inr differ ↦ inr (ground arith)
    ]

nonempty_count :
    (target c : ℕ) (members : List Member)
    → is_nonempty (
        keep
          (λ u. not (u == target))
          (map (λ (m : Member). m.user_id) (keep (in_conversation c) members)))
      ≡ true
    → 0 < count (λ m. in_conversation c m && not (m.user_id == target)) members
nonempty_count target c [] h = cc
nonempty_count target c (m ∷ members) h = elim (Bool-cases (in_conversation c m)) [
  | inr outside ↦ rw outside (omega (arith, nonempty_count target c members (rw outside at h)))
  | inl inside ↦ elim (Bool-cases (m.user_id == target)) [
    | inl same ↦
        rw (inside, same) (omega (arith, nonempty_count target c members (rw (inside, same) at h)))
    | inr differ ↦ rw (inside, differ) (omega arith)
  ]
]

-- A removal that succeeds was open to the actor (oneself; or, of someone who is no owner, by the
-- owner, or by an admin where the group's switch is on and the target is a plain member or a
-- viewer). Afterwards the target has no row in the group and the group has one owner. Before, a
-- user has at most one row in a conversation, and the row that the request names is the one with
-- its identifier.
pub remove_member-OwnedBy :
    (now actor target : ℕ) (requested : Identifier) (db : Db) (row : Conversation)
    (ar tr : GroupRole)
    → Keyed db.members
    → resolve_membership_conversation requested db ≡ some row
    → find (by_id row.id) db.conversations ≡ some row
    → get_group_membership row.id actor db ≡ some ar
    → get_group_membership row.id target db ≡ some tr
    → (remove_member now (some actor) requested target db).reply ≡ member_removed
    → MayRemove actor target ar tr
        (is_true (get "admin_can_remove_members" (resolve_permissions row.permissions)))
      × ((o : ℕ) × OwnedBy (remove_member now (some actor) requested target db).db row.id o)
      × (count
            (is_member row.id target)
            (remove_member now (some actor) requested target db).db.members
          ≡ 0)
unfolding remove_member remove
remove_member-OwnedBy now actor target requested db row ar tr keyed named here mine theirs e =
    elim (Checked-cases (check_removal (some actor) requested target db)) [
      | inr (status, code, refused) ↦ absurd (cc (rw (refused, remove_member) at e))
      | inl (d, passed) ↦
          let sound = check_removal_sound (some actor) requested target db d passed in
          let same : d.conversation ≡ row = ground (arith, sound.row) in
          let remains =
            nonempty_count target d.conversation.id db.members
              (unfold get_member_rows in sound.remains) in
          let (owned, gone) =
            take_out_lem now d.conversation.id target db d.conversation keyed (rw same here)
              (ground (arith, sound.kind)) remains in
          (
            check_removal_right actor target requested db d row ar tr named mine theirs passed,
            rw (passed, remove_member, ← same) owned,
            rw (passed, remove_member, ← same) gone,
          )
    ]
