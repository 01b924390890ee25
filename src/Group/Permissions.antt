-- ===== src/Group/Permissions.antt =====
-- VOID0000-api/server/utils/groupPermissions.ts and the owner's update of the permissions in
-- VOID0000-api/server/routes/conversations/permissions.ts. A JSON object is a list of its own
-- fields in order; a value that is neither a Boolean nor a text is `other`. A role outside the
-- four of `GroupRole` is `unlisted`.
pub mod Objects
pub mod Validating
pub mod Operations
pub mod Update
pub mod Tests
use Prim.Native.String.{String}
use package.text.Mathlib.Text.{◌==◌}
use voidchats_note2ee.Common.{
  Bool, true, false, not, ◌&&◌, ◌||◌, Option, none, some, List, [], ◌∷◌, if◌then◌else◌, is_some, ℕ,
}

pub data GroupRole : Type 0 where
  owner admin member viewer unlisted : GroupRole

pub data Value : Type 0 where
  flag : Bool → Value
  text : String → Value
  other : Value

abbrev pub Object : Type 0
Object = List (String × Value)

-- `Reflect.get(object, key)` on the object's own fields.
unfoldable pub get : String → Object → Option Value
get key [] = none
get key ((k, v) ∷ fields) = if k == key then some v else get key fields

-- `object[key] = value`
unfoldable pub assign : String → Value → Object → Object
assign key value [] = (key, value) ∷ []
assign key value ((k, v) ∷ fields) =
    if k == key then (k, value) ∷ fields else (k, v) ∷ assign key value fields

-- `{ ...base, ...fields }`
unfoldable pub spread : Object → Object → Object
unfolding assign
spread base [] = base
spread base ((k, v) ∷ fields) = spread (assign k v base) fields

abbrev pub permission_defaults : Object
permission_defaults =
    ("admin_can_remove_members", flag true)
    ∷ ("admin_can_approve_join_requests", flag true)
    ∷ ("admin_can_edit_member_nicknames", flag true)
    ∷ ("admin_can_edit_group_profile", flag true)
    ∷ ("admin_can_manage_invite_links", flag true)
    ∷ ("members_can_set_own_nickname", flag true)
    ∷ ("who_can_send_attachments", text "everyone")
    ∷ ("who_can_create_invite_links", text "admins")
    ∷ ("who_can_approve_requests", text "admins")
    ∷ ("who_can_edit_other_nicknames", text "admins")
    ∷ ("who_can_edit_own_nickname", text "everyone")
    ∷ ("who_can_edit_group_profile", text "admins")
    ∷ []

-- `VALID_WHO_VALUES.includes(value)`
unfoldable pub is_valid_who : String → Bool
is_valid_who s = s == "everyone" || s == "admins" || s == "owner"

-- `none` is a stored value that is null or no object.
unfoldable pub resolve_permissions : Option Object → Object
unfolding spread
resolve_permissions none = permission_defaults
resolve_permissions (some stored) = spread permission_defaults stored

pub data Validation : Type 0 where
  valid : Object → Validation
  must_be_object : Validation
  must_be_boolean must_be_audience unknown_key : String → Validation

-- The names that every object has by `Object.prototype`, which `in` finds too.
unfoldable pub is_inherited : String → Bool
is_inherited k =
    k == "constructor"
    || k == "hasOwnProperty"
    || k == "isPrototypeOf"
    || k == "propertyIsEnumerable"
    || k == "toLocaleString"
    || k == "toString"
    || k == "valueOf"
    || k == "__proto__"
    || k == "__defineGetter__"
    || k == "__defineSetter__"
    || k == "__lookupGetter__"
    || k == "__lookupSetter__"

-- `key in PERMISSION_DEFAULTS`
unfoldable pub is_default_key : String → Bool
unfolding get is_inherited
is_default_key key = is_some (get key permission_defaults) || is_inherited key

-- One round of the loop over the defaults: `none` goes on, with the field copied if it is there.
unfoldable pub check_field : String → Value → Value → Option Validation
unfolding is_valid_who
check_field key (flag d) (flag b) = none
check_field key (flag d) v = some (must_be_boolean key)
check_field key _ (text s) = if is_valid_who s then none else some (must_be_audience key)
check_field key _ v = some (must_be_audience key)

-- `for (const key of Object.keys(input))`
unfoldable pub reject_unknown : Object → Object → Validation
unfolding is_default_key
reject_unknown result [] = valid result
reject_unknown result ((key, _) ∷ fields) =
    if is_default_key key then reject_unknown result fields else unknown_key key

unfoldable pub validate_known : Object → Object → Object → Validation
unfolding get assign check_field reject_unknown
validate_known input result [] = reject_unknown result input
validate_known input result ((key, default) ∷ defaults) =
    let skipped = validate_known input result defaults in
    elim (get key input) [
      | none ↦ skipped
      | some value ↦
          let copied = validate_known input (assign key value result) defaults in
          elim (check_field key default value) [ some error ↦ error | none ↦ copied ]
    ]

unfoldable pub validate_permissions : Option Object → Validation
unfolding validate_known
validate_permissions none = must_be_object
validate_permissions (some input) = validate_known input [] permission_defaults

-- The audience that a value names; `none` for any other value.
pub data PermissionAudience : Type 0 where
  everyone admins only_owner : PermissionAudience

unfoldable pub audience : Option Value → Option PermissionAudience
audience (some (text s)) =
    if s == "everyone"
    then some everyone
    else if s == "admins"
    then some admins
    else if s == "owner"
    then some only_owner
    else none
audience _ = none

unfoldable pub meets_who : GroupRole → Option PermissionAudience → Bool
meets_who owner who = true
meets_who role (some everyone) = elim role [ member ↦ true | admin ↦ true | _ ↦ false ]
meets_who role (some admins) = elim role [ admin ↦ true | _ ↦ false ]
meets_who role _ = false

unfoldable pub meets_who_threshold : GroupRole → Option Value → Bool
unfolding meets_who audience
meets_who_threshold role who = meets_who role (audience who)

-- `value === true`
abbrev pub is_true : Option Value → Bool
is_true (some (flag b)) = b
is_true _ = false

unfoldable pub meets_admin_toggle : GroupRole → Option Value → Bool
meets_admin_toggle owner toggle = true
meets_admin_toggle admin toggle = is_true toggle
meets_admin_toggle _ toggle = false

pub data GroupOperation : Type 0 where
  profile other_nickname own_nickname invites approvals : GroupOperation

-- The pair of keys in `OPERATION_PERMISSIONS`.
unfoldable pub operation_permissions : GroupOperation → String × String
operation_permissions profile = ("who_can_edit_group_profile", "admin_can_edit_group_profile")
operation_permissions other_nickname =
    ("who_can_edit_other_nicknames", "admin_can_edit_member_nicknames")
operation_permissions own_nickname = ("who_can_edit_own_nickname", "members_can_set_own_nickname")
operation_permissions invites = ("who_can_create_invite_links", "admin_can_manage_invite_links")
operation_permissions approvals = ("who_can_approve_requests", "admin_can_approve_join_requests")

abbrev is_admin : GroupRole → Bool
is_admin admin = true
is_admin _ = false

-- What follows the audience test for a role that is no owner.
unfoldable pub passes_switch : GroupOperation → GroupRole → Option Value → Bool
unfolding meets_admin_toggle
passes_switch invites role toggle = meets_admin_toggle role toggle
passes_switch approvals role toggle = meets_admin_toggle role toggle
passes_switch own_nickname member toggle = is_true toggle
passes_switch operation role toggle = if is_admin role then is_true toggle else true

abbrev is_owner : GroupRole → Bool
is_owner owner = true
is_owner _ = false

unfoldable pub can_perform_group_operation : GroupRole → Option Object → GroupOperation → Bool
unfolding meets_who_threshold passes_switch operation_permissions resolve_permissions get
can_perform_group_operation role stored operation =
    let permissions = resolve_permissions stored in
    let (audience_key, toggle_key) = operation_permissions operation in
    if not (meets_who_threshold role (get audience_key permissions))
    then false
    else if is_owner role
    then true
    else passes_switch operation role (get toggle_key permissions)

-- The stored object after the owner's update: `{ ...(permissions || {}), ...validated }`.
unfoldable pub merge_permissions : Option Object → Object → Object
unfolding spread
merge_permissions none validated = spread [] validated
merge_permissions (some current) validated = spread current validated

-- What the two routes read of the conversation row.
pub record Target : Type 0 where
  pub is_group : Bool
  pub permissions : Option Object

-- A refusal with its HTTP status, or what is stored and shown.
pub data Reply : Type 0 where
  refused : ℕ → Reply
  invalid : Validation → Reply
  saved : (stored shown : Object) → Reply
  shows : Object → Reply

abbrev is_owner_row : Option GroupRole → Bool
is_owner_row (some role) = is_owner role
is_owner_row none = false

-- `GET /permissions`; `none` stands for a missing user, conversation or membership row.
unfoldable pub get_permissions : Option ℕ → Option Target → Option GroupRole → Reply
unfolding resolve_permissions
get_permissions none conversation role = refused 401
get_permissions (some user) none role = refused 404
get_permissions (some user) (some c) role =
    if not c.is_group
    then refused 400
    else if is_some role
    then shows (resolve_permissions c.permissions)
    else refused 403

abbrev store_validated : Option Object → Validation → Reply
store_validated current (valid validated) =
    let merged = merge_permissions current validated in
    saved merged (resolve_permissions (some merged))
store_validated current error = invalid error

-- `PUT /permissions`
unfoldable pub put_permissions : Option ℕ → Option Target → Option GroupRole → Option Object → Reply
unfolding merge_permissions validate_permissions resolve_permissions
put_permissions none conversation role body = refused 401
put_permissions (some user) none role body = refused 404
put_permissions (some user) (some c) role body =
    if not c.is_group
    then refused 400
    else if is_owner_row role
    then store_validated c.permissions (validate_permissions body)
    else refused 403
