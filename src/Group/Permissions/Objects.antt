-- ===== src/Group/Permissions/Objects.antt =====
-- Reading a field of an object after an assignment and after a spread.
use Prim.Native.String.{String}
use package.text.Mathlib.Text.{◌==◌}
use package.text.Mathlib.TextEquality.{eq_iff}
use voidchats_note2ee.Common.{◌≡◌, refl, Option, none, some, [], ◌∷◌, arith, if◌then◌else◌}
use voidchats_note2ee.Group.Permissions.{
  Value, Object, get, assign, spread, permission_defaults, resolve_permissions,
}

pub get-assign :
    (j k : String) (v : Value) (o : Object)
    → get j (assign k v o) ≡ (if k == j then some v else get j o)
unfolding get assign
get-assign j k v [] = refl
get-assign j k v ((i, w) ∷ o) =
    ground (arith, eq_iff k j, eq_iff i k, eq_iff i j, get-assign j k v o)

-- The first of two values that is there.
abbrev pub or_else : Option Value → Option Value → Option Value
or_else (some v) o = some v
or_else none o = o

-- No key stands twice.
abbrev pub IsObject : Object → Type 0
IsObject [] = Unit
IsObject ((k, v) ∷ o) = (get k o ≡ none) × IsObject o

pub get-spread :
    (j : String) (base fields : Object)
    → IsObject fields
    → get j (spread base fields) ≡ or_else (get j fields) (get j base)
unfolding spread get
get-spread j base [] h = refl
get-spread j base ((k, v) ∷ fields) (fresh, h) =
    ground (arith, eq_iff k j, get-spread j (assign k v base) fields h, get-assign j k v base)

-- A setting: what the stored object says, else the default.
abbrev pub setting : Option Object → String → Option Value
setting none key = get key permission_defaults
setting (some stored) key = or_else (get key stored) (get key permission_defaults)

abbrev pub IsStored : Option Object → Type 0
IsStored none = Unit
IsStored (some stored) = IsObject stored

pub get-resolve :
    (stored : Option Object) (key : String)
    → IsStored stored
    → get key (resolve_permissions stored) ≡ setting stored key
unfolding resolve_permissions
get-resolve none key h = refl
get-resolve (some stored) key h = get-spread key permission_defaults stored h

pub assign-IsObject : (k : String) (v : Value) (o : Object) → IsObject o → IsObject (assign k v o)
unfolding assign get
assign-IsObject k v [] h = (refl, tt)
assign-IsObject k v ((i, w) ∷ o) (fresh, h) =
    ground (arith, eq_iff i k, eq_iff k i, get-assign i k v o, assign-IsObject k v o h)

pub spread-IsObject : (base fields : Object) → IsObject base → IsObject (spread base fields)
unfolding spread
spread-IsObject base [] h = h
spread-IsObject base ((k, v) ∷ fields) h =
    spread-IsObject (assign k v base) fields (assign-IsObject k v base h)
