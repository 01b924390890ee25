-- ===== src/Group/Permissions/Tests.antt =====
-- Runs of the permission functions on concrete objects.
use Prim.Native.String.{String}
use voidchats_note2ee.Common.{◌≡◌, ◌↔◌, refl, true, false, none, some, [], ◌∷◌, is_some}
use voidchats_note2ee.Group.Permissions.{
  owner, admin, member, viewer, Object, flag, text, get, permission_defaults, valid,
  must_be_boolean, must_be_object, must_be_audience, unknown_key, validate_permissions, profile,
  own_nickname, invites, can_perform_group_operation, audience, is_true, Target, put_permissions,
  resolve_permissions, operation_permissions,
}
use voidchats_note2ee.Group.Permissions.Objects.{setting, or_else}
use voidchats_note2ee.Group.Permissions.Validating.{FitsAll, AllKnown, validate_permissions_iff}
use voidchats_note2ee.Group.Permissions.Operations.{HasRight, can_perform_iff}
use voidchats_note2ee.Group.Permissions.Update.{put_permissions_shown}

runs : Unit {0}
unfolding can_perform_group_operation validate_permissions put_permissions
runs = tt

abbrev opened : Object
opened =
    ("who_can_edit_group_profile", text "everyone")
    ∷ ("admin_can_edit_group_profile", flag false)
    ∷ []

-- With the audience widened and the switch off a member passes and an admin does not.
widened :
    (can_perform_group_operation member (some opened) profile ≡ true)
    × (can_perform_group_operation admin (some opened) profile ≡ false)
    × (can_perform_group_operation owner (some opened) profile ≡ true)
    × (can_perform_group_operation viewer (some opened) profile ≡ false)
    × (can_perform_group_operation admin none invites ≡ true)
    × (can_perform_group_operation member none own_nickname ≡ true)
unfolding runs
widened = (refl, refl, refl, refl, refl, refl)

abbrev closing : Object
closing = ("who_can_send_attachments", text "admins") ∷ []

validations :
    (validate_permissions (some opened)
      ≡ valid (
          (("admin_can_edit_group_profile", flag false))
          ∷ ("who_can_edit_group_profile", text "everyone")
          ∷ []))
    × (validate_permissions (some (("who_can_send_attachments", text "nobody") ∷ []))
        ≡ must_be_audience "who_can_send_attachments")
    × (validate_permissions (some (("members_can_set_own_nickname", text "yes") ∷ []))
        ≡ must_be_boolean "members_can_set_own_nickname")
    × (validate_permissions (some (("colour", flag true) ∷ [])) ≡ unknown_key "colour")
    × (validate_permissions (some (("toString", flag true) ∷ [])) ≡ valid [])
    × (validate_permissions none ≡ must_be_object)
unfolding runs
validations = (refl, refl, refl, refl, refl, refl)

can_perform_iff_example :
    (can_perform_group_operation admin (some opened) profile ≡ true)
    ↔ HasRight admin profile
        (audience (setting (some opened) (operation_permissions profile).0))
        (is_true (setting (some opened) (operation_permissions profile).1))
unfolding runs
can_perform_iff_example = can_perform_iff admin profile (some opened) (refl, (refl, tt))

validate_permissions_iff_example :
    ((out : Object) × (validate_permissions (some opened) ≡ valid out))
    ↔ (FitsAll opened permission_defaults × AllKnown opened)
validate_permissions_iff_example = validate_permissions_iff opened

abbrev group_row : Target
group_row = record { is_group = true; permissions = some opened }

abbrev after_update : Object
after_update =
    ("who_can_edit_group_profile", text "everyone")
    ∷ ("admin_can_edit_group_profile", flag false)
    ∷ ("who_can_send_attachments", text "admins")
    ∷ []

put_permissions_shown_example :
    (some owner ≡ some owner)
    × (group_row.is_group ≡ true)
    × ((j : String)
        → is_some (get j permission_defaults) ≡ true
        → get j (resolve_permissions (some after_update))
          ≡ or_else (get j closing) (setting group_row.permissions j))
unfolding runs
put_permissions_shown_example =
    put_permissions_shown (some 7) group_row (some owner) closing after_update
      (resolve_permissions (some after_update)) (refl, (refl, tt)) refl
