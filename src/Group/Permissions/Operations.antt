-- ===== src/Group/Permissions/Operations.antt =====
-- Who may perform which operation, and what the owner's update changes.
use voidchats_note2ee.Common.{◌≡◌, ◌↔◌, ◌⊎◌, Bool, true, Option, some, arith}
use voidchats_note2ee.Group.Permissions.{
  GroupRole, owner, admin, member, Object, get, resolve_permissions, PermissionAudience, everyone,
  admins, audience, is_true, GroupOperation, profile, other_nickname, own_nickname, invites,
  approvals, operation_permissions, can_perform_group_operation,
}
use voidchats_note2ee.Group.Permissions.Objects.{IsStored, setting, get-resolve}

-- The rights of a role under an audience and a switch.
abbrev pub HasRight : GroupRole → GroupOperation → Option PermissionAudience → Bool → Type 0
HasRight owner operation who switch = Unit
HasRight admin operation who switch =
    ((who ≡ some everyone) ⊎ (who ≡ some admins)) × (switch ≡ true)
HasRight member invites who switch = ⊥
HasRight member approvals who switch = ⊥
HasRight member own_nickname who switch = (who ≡ some everyone) × (switch ≡ true)
HasRight member operation who switch = who ≡ some everyone
HasRight _ operation who switch = ⊥

test_iff :
    (role : GroupRole) (operation : GroupOperation) (stored : Option Object)
    → (can_perform_group_operation role stored operation ≡ true)
      ↔ HasRight role operation
          (audience (get (operation_permissions operation).0 (resolve_permissions stored)))
          (is_true (get (operation_permissions operation).1 (resolve_permissions stored)))
unfolding can_perform_group_operation
test_iff owner operation stored = ground arith
test_iff admin profile stored = ground arith
test_iff admin other_nickname stored = ground arith
test_iff admin own_nickname stored = ground arith
test_iff admin invites stored = ground arith
test_iff admin approvals stored = ground arith
test_iff member profile stored = ground arith
test_iff member other_nickname stored = ground arith
test_iff member own_nickname stored = ground arith
test_iff member invites stored = ground arith
test_iff member approvals stored = ground arith
test_iff _ operation stored = ground arith

-- A role may perform an operation exactly when the table `HasRight` grants it, at the audience
-- and the switch that the stored object gives, or else the defaults: the owner always, an admin
-- where the audience is everyone or the admins and the switch is on, a member where the audience
-- is everyone (with the switch on for the own nickname, and never for invites and approvals), and
-- no one else. The stored value is no object, or an object with no key twice.
pub can_perform_iff :
    (role : GroupRole) (operation : GroupOperation) (stored : Option Object)
    → IsStored stored
    → (can_perform_group_operation role stored operation ≡ true)
      ↔ HasRight role operation
          (audience (setting stored (operation_permissions operation).0))
          (is_true (setting stored (operation_permissions operation).1))
can_perform_iff role operation stored h =
    rw
      (
        ← get-resolve stored (operation_permissions operation).0 h,
        ← get-resolve stored (operation_permissions operation).1 h,
      )
      (test_iff role operation stored)
