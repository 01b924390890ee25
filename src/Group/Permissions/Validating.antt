-- ===== src/Group/Permissions/Validating.antt =====
-- What `validatePermissions` accepts, and what the owner's update stores.
use Prim.Native.String.{String}
use package.text.Mathlib.TextEquality.{eq_iff}
use voidchats_note2ee.Common.{
  ◌≡◌, ◌≢◌, refl, sym, subst, ap, ◌∙◌, ◌↔◌, inl, inr, Bool, true, Option, none, some, [], ◌∷◌,
  arith, if◌then◌else◌, is_some, Option-cases, Bool-cases,
}
use voidchats_note2ee.Group.Permissions.{
  Value, flag, text, other, Object, get, assign, permission_defaults, Validation, valid,
  is_default_key, is_valid_who, check_field, reject_unknown, validate_known, validate_permissions,
}
use voidchats_note2ee.Group.Permissions.Objects.{or_else, get-assign, IsObject, assign-IsObject}

-- The kind of a default decides what may replace it.
abbrev pub Fits : Value → Value → Type 0
Fits (flag d) (flag b) = Unit
Fits (flag d) _ = ⊥
Fits _ (text s) = is_valid_who s ≡ true
Fits _ _ = ⊥

abbrev pub FitsField : Value → Option Value → Type 0
FitsField d none = Unit
FitsField d (some v) = Fits d v

abbrev pub FitsAll : Object → Object → Type 0
FitsAll input [] = Unit
FitsAll input ((key, d) ∷ defaults) = FitsField d (get key input) × FitsAll input defaults

abbrev pub AllKnown : Object → Type 0
AllKnown [] = Unit
AllKnown ((key, v) ∷ fields) = (is_default_key key ≡ true) × AllKnown fields

check_field-none : (key : String) (d v : Value) → check_field key d v ≡ none → Fits d v
unfolding check_field
check_field-none key (flag d) (flag b) h = tt
check_field-none key (text d) (text s) h = ground arith
check_field-none key other (text s) h = ground arith
check_field-none key _ v h = cc

check_field-ne-valid :
    (key : String) (d v : Value) {e : Validation} {out : Object}
    → check_field key d v ≡ some e
    → e ≢ valid out
unfolding check_field
check_field-ne-valid key (flag d) (flag b) h = cc
check_field-ne-valid key (text d) (text s) h = ground arith
check_field-ne-valid key other (text s) h = ground arith
check_field-ne-valid key _ v h = cc

Fits-check_field : (key : String) (d v : Value) → Fits d v → check_field key d v ≡ none
unfolding check_field
Fits-check_field key (flag d) (flag b) h = refl
Fits-check_field key (text d) (text s) h = ground arith
Fits-check_field key other (text s) h = ground arith
Fits-check_field key _ v h = absurd h

reject_unknown_sound :
    (result fields : Object) {out : Object}
    → reject_unknown result fields ≡ valid out
    → (out ≡ result) × AllKnown fields
unfolding reject_unknown
reject_unknown_sound result [] h = (cc, tt)
reject_unknown_sound result ((key, v) ∷ fields) h = elim (Bool-cases (is_default_key key)) [
  | inl known ↦
      let (same, rest) = reject_unknown_sound result fields (rw known at h) in (same, (known, rest))
  | inr unknown ↦ cc (rw unknown at h)
]

reject_unknown_complete :
    (result fields : Object) → AllKnown fields → reject_unknown result fields ≡ valid result
unfolding reject_unknown
reject_unknown_complete result [] h = refl
reject_unknown_complete result ((key, v) ∷ fields) (k, h) =
    rw k (reject_unknown_complete result fields h)

-- The result after the rounds for some defaults.
abbrev Copied : Object → Object → Object → Object → Type 0
Copied input result defaults out =
    (j : String)
    → get j out
      ≡ (if is_some (get j defaults) then or_else (get j input) (get j result) else get j result)

Copied-skip :
    (input result : Object) (key : String) (d : Value) (defaults out : Object) (j : String)
    → get key input ≡ none
    → get j out
      ≡ (if is_some (get j defaults) then or_else (get j input) (get j result) else get j result)
    → get j out ≡ (
        if is_some (get j ((key, d) ∷ defaults))
        then or_else (get j input) (get j result)
        else get j result)
unfolding get
Copied-skip input result key d defaults out j missing h = ground (arith, eq_iff key j)

Copied-assign :
    (input result : Object) (key : String) (d v : Value) (defaults out : Object) (j : String)
    → get key input ≡ some v
    → get j out ≡ (
        if is_some (get j defaults)
        then or_else (get j input) (get j (assign key v result))
        else get j (assign key v result))
    → get j out ≡ (
        if is_some (get j ((key, d) ∷ defaults))
        then or_else (get j input) (get j result)
        else get j result)
unfolding get
Copied-assign input result key d v defaults out j found h =
    ground (arith, eq_iff key j, get-assign j key v result)

validate_known_sound :
    (input result defaults : Object) (out : Object)
    → validate_known input result defaults ≡ valid out
    → FitsAll input defaults × AllKnown input × Copied input result defaults out
unfolding validate_known
validate_known_sound input result [] out h =
    let (same, known) = reject_unknown_sound result input h in
    (tt, known, unfold get in λ j. ap (get j) same)
validate_known_sound input result ((key, d) ∷ defaults) out h =
    elim (Option-cases (get key input)) [
      | inl missing ↦
          let (fits, known, copied) =
            validate_known_sound input result defaults out (rw (missing, validate_known) at h) in
          (
            (rw missing tt, fits),
            known,
            λ j. Copied-skip input result key d defaults out j missing (copied j),
          )
      | inr (v, found) ↦ elim (Option-cases (check_field key d v)) [
        | inl fit ↦
            let (fits, known, copied) =
              validate_known_sound input (assign key v result) defaults out
                (rw (found, fit, validate_known) at h) in
            (
              (rw found (check_field-none key d v fit), fits),
              known,
              λ j. Copied-assign input result key d v defaults out j found (copied j),
            )
        | inr (error, failed) ↦
            absurd (check_field-ne-valid key d v failed (rw (found, failed, validate_known) at h))
      ]
    ]

validate_known_complete :
    (input result defaults : Object)
    → FitsAll input defaults
    → AllKnown input
    → (out : Object) × (validate_known input result defaults ≡ valid out)
unfolding validate_known
validate_known_complete input result [] fits known =
    (result, reject_unknown_complete result input known)
validate_known_complete input result ((key, d) ∷ defaults) (fit, fits) known =
    elim (Option-cases (get key input)) [
      | inl missing ↦
          let (out, e) = validate_known_complete input result defaults fits known in
          (out, rw (missing, validate_known) e)
      | inr (v, found) ↦
          let (out, e) = validate_known_complete input (assign key v result) defaults fits known in
          (out, rw (found, Fits-check_field key d v (rw found at fit), validate_known) e)
    ]

-- An object is accepted exactly when the value of each permission key that it holds is of the
-- key's kind (a Boolean, or an audience) and each of its keys is a permission key or a name of
-- `Object.prototype`.
pub validate_permissions_iff :
    (input : Object)
    → ((out : Object) × (validate_permissions (some input) ≡ valid out))
      ↔ (FitsAll input permission_defaults × AllKnown input)
unfolding validate_permissions
validate_permissions_iff input = (
  λ (out, e).
      let (fits, known, copied) = validate_known_sound input [] permission_defaults out e in
      (fits, known),
  λ (fits, known). validate_known_complete input [] permission_defaults fits known,
)

from_empty :
    (o : Option Value) (b : Bool) → (if b then or_else o none else none) ≡ (if b then o else none)
from_empty none b = ground arith
from_empty (some v) b = ground arith

validate_known-IsObject :
    (input result defaults out : Object)
    → IsObject result
    → validate_known input result defaults ≡ valid out
    → IsObject out
unfolding validate_known
validate_known-IsObject input result [] out h e =
    subst IsObject (sym (reject_unknown_sound result input e).0) h
validate_known-IsObject input result ((key, d) ∷ defaults) out h e =
    elim (Option-cases (get key input)) [
      | inl missing ↦
          validate_known-IsObject input result defaults out h (rw (missing, validate_known) at e)
      | inr (v, found) ↦ elim (Option-cases (check_field key d v)) [
        | inl fit ↦
            validate_known-IsObject input (assign key v result) defaults out
              (assign-IsObject key v result h) (rw (found, fit, validate_known) at e)
        | inr (error, failed) ↦
            absurd (check_field-ne-valid key d v failed (rw (found, failed, validate_known) at e))
      ]
    ]

pub validate_permissions-IsObject :
    (input out : Object) → validate_permissions (some input) ≡ valid out → IsObject out
unfolding validate_permissions
validate_permissions-IsObject input out e =
    validate_known-IsObject input [] permission_defaults out tt e

-- An accepted object holds, of the input, exactly the permission keys with their values: what
-- `Object.prototype` names does not reach the result.
pub validate_permissions_copies :
    (input out : Object) (j : String)
    → validate_permissions (some input) ≡ valid out
    → get j out ≡ (if is_some (get j permission_defaults) then get j input else none)
unfolding validate_permissions get
validate_permissions_copies input out j e =
    let (fits, known, copied) = validate_known_sound input [] permission_defaults out e in
    copied j ∙ from_empty (get j input) (is_some (get j permission_defaults))
