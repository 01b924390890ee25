-- ===== src/Group/Permissions/Update.antt =====
-- What the owner's `PUT /permissions` stores and shows.
use Prim.Native.String.{String}
use voidchats_note2ee.Common.{◌≡◌, refl, ap, ◌∙◌, ℕ, true, Option, none, some, [], arith, is_some}
use voidchats_note2ee.Group.Permissions.{
  GroupRole, owner, Value, Object, get, permission_defaults, resolve_permissions, Validation, valid,
  validate_permissions, merge_permissions, Target, saved, put_permissions, store_validated,
}
use voidchats_note2ee.Group.Permissions.Objects.{
  or_else, IsObject, IsStored, setting, get-spread, get-resolve, spread-IsObject,
}
use voidchats_note2ee.Group.Permissions.Validating.{
  validate_permissions_copies, validate_permissions-IsObject,
}

merge-IsObject :
    (current : Option Object) (validated : Object)
    → IsStored current
    → IsObject (merge_permissions current validated)
unfolding merge_permissions
merge-IsObject none validated h = spread-IsObject [] validated tt
merge-IsObject (some o) validated h = spread-IsObject o validated h

or_else_assoc : (a b c : Option Value) → or_else (or_else a b) c ≡ or_else a (or_else b c)
or_else_assoc none b c = refl
or_else_assoc (some v) b c = refl

copied :
    (j : String) (input out : Object)
    → is_some (get j permission_defaults) ≡ true
    → validate_permissions (some input) ≡ valid out
    → get j out ≡ get j input
copied j input out known e = rw known at (validate_permissions_copies input out j e)

setting-merge :
    (current : Option Object) (validated : Object) (j : String)
    → IsObject validated
    → setting (some (merge_permissions current validated)) j
      ≡ or_else (get j validated) (setting current j)
unfolding merge_permissions get
setting-merge none validated j h =
    ap (λ o. or_else o (get j permission_defaults)) (get-spread j [] validated h)
    ∙ or_else_assoc (get j validated) none (get j permission_defaults)
setting-merge (some o) validated j h =
    ap (λ w. or_else w (get j permission_defaults)) (get-spread j o validated h)
    ∙ or_else_assoc (get j validated) (get j o) (get j permission_defaults)

store_inverts :
    (current : Option Object) (validation : Validation) {stored shown : Object}
    → store_validated current validation ≡ saved stored shown
    → (validated : Object) × (validation ≡ valid validated)
      × (shown ≡ resolve_permissions (some (merge_permissions current validated)))
store_inverts current (valid validated) e = (validated, refl, cc)
store_inverts current _ e = cc

put_inverts :
    (user : Option ℕ) (c : Target) (role : Option GroupRole) (body : Option Object)
    {stored shown : Object}
    → put_permissions user (some c) role body ≡ saved stored shown
    → (role ≡ some owner)
      × (c.is_group ≡ true)
      × (store_validated c.permissions (validate_permissions body) ≡ saved stored shown)
unfolding put_permissions
put_inverts none c role body e = cc
put_inverts (some user) c none body e = ground arith
put_inverts (some user) c (some role) body e = ground arith

-- A successful update was asked by the owner of a group with an object, and each permission that
-- it shows afterwards is the one in the request, or, where the request has none, the one in force
-- before. The stored value is no object, or an object with no key twice.
pub put_permissions_shown :
    (user : Option ℕ) (c : Target) (role : Option GroupRole) (body : Object) (stored shown : Object)
    → IsStored c.permissions
    → put_permissions user (some c) role (some body) ≡ saved stored shown
    → (role ≡ some owner)
      × (c.is_group ≡ true)
      × ((j : String)
          → is_some (get j permission_defaults) ≡ true
          → get j shown ≡ or_else (get j body) (setting c.permissions j))
put_permissions_shown user c role body stored shown h e =
    let (is_owner, is_group, done) = put_inverts user c role (some body) e in
    let (validated, accepted, shows) = store_inverts c.permissions _ done in
    let tidy = validate_permissions-IsObject body validated accepted in
    let merged = merge_permissions c.permissions validated in
    (
      is_owner,
      is_group,
      λ j known.
          ap (get j) shows
          ∙ get-resolve (some merged) j (merge-IsObject c.permissions validated h)
          ∙ setting-merge c.permissions validated j tidy
          ∙ ap (λ v. or_else v (setting c.permissions j)) (copied j body validated known accepted),
    )
