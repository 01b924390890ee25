-- ===== src/Group/Roles/Race.antt =====
-- A role change that is checked before a transfer and written after it.
use voidchats_note2ee.Common.{
  ℕ, ◌≡◌, refl, Bool, false, not, ◌&&◌, Option, List, [], if◌then◌else◌, map, count, count-map,
  count_mono, count_minus, arith,
}
use voidchats_note2ee.Group.Permissions.{GroupRole}
use voidchats_note2ee.Group.Rows.{
  Member, Db, Identifier, is_group, is_owner_role, get_child_channel_ids,
}
use voidchats_note2ee.Group.Owners.Counts.{is_owner_of, is_sole_owner}
use voidchats_note2ee.Group.Owners.Repair.{OwnedBy}
use voidchats_note2ee.Group.Members.{pass}
use voidchats_note2ee.Group.Roles.{RoleChange, check_role_change, set_role_row, change_role}
use voidchats_note2ee.Group.Roles.Change.{set_role_in_le, check_role_change_sound}

-- The checks and the writes of `PUT /:targetUserId` are separate statements outside a
-- transaction. If between them the target has become the group's one owner, the writes leave the
-- group with no owner row at all.
pub late_role_change :
    (user : Option ℕ) (requested : Identifier) (target : ℕ) (role : GroupRole) (before now : Db)
    (r : RoleChange)
    → check_role_change user requested target role before ≡ pass r
    → OwnedBy now r.conversation.id target
    → count (is_owner_of r.conversation.id) (change_role now r).db.members ≡ 0
unfolding change_role
late_role_change user requested target role before now r passed owned =
    let allowed = check_role_change_sound user requested target role before r passed in
    let c = r.conversation.id in
    let plain : is_owner_role r.role ≡ false =
      ground (arith, allowed.new_role, allowed.assignable) in
    let step : Member → Member = set_role_row c r.target r.role in
    let channels : List ℕ =
      if is_group r.conversation.kind then get_child_channel_ids c now else [] in
    let rest : Member → Bool = λ m. is_owner_of c m && not (is_sole_owner c target m) in
    let left =
      count_minus (is_owner_of c) (is_sole_owner c target) (λ m h. ground arith) now.members in
    let counted =
      count-map step (is_owner_of c) (λ m. is_owner_of c (step m)) (λ m. refl) now.members in
    let aim = allowed.aim in
    let fewer = count_mono (λ m. is_owner_of c (step m)) rest (λ m h. ground arith) now.members in
    let kept = set_role_in_le c r.target r.role channels (map step now.members) plain in
    omega (arith, owned.sole, owned.member)
