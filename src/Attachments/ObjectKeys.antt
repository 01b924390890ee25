-- ===== src/Attachments/ObjectKeys.antt =====
-- VOID0000-api/server/attachments/lifecycleCore.ts: `createAttachmentBlobObjectKey` and
-- `parseAttachmentBlobObjectKey`. A text is the list of its characters' codes; `normalize` is
-- `trim` and `toLowerCase`.
use voidchats_note2ee.Common.{
  ℕ, ◌≡◌, refl, ap, Bool, true, not, ◌&&◌, ◌||◌, Option, none, some, List, [], ◌∷◌, ◌++◌, ◌==◌,
  ==_iff, leb, if◌then◌else◌, length, every, same_list, same_list_sound, same_list_refl, Bool-cases,
  Option-cases, inl, inr, arith,
}

abbrev pub Text : Type 0
Text = List ℕ

-- `[0-9a-f]`
abbrev pub is_hex : ℕ → Bool
is_hex c = leb 48 c && leb c 57 || leb 97 c && leb c 102

-- CONTENT_HASH_PATTERN
abbrev pub is_hash : Text → Bool
is_hash t = length t == 64 && every is_hex t

-- 'blobs/v1/sha256/'
abbrev pub object_prefix : Text
object_prefix =
    98 ∷ 108 ∷ 111 ∷ 98 ∷ 115 ∷ 47 ∷ 118 ∷ 49 ∷ 47 ∷ 115 ∷ 104 ∷ 97 ∷ 50 ∷ 53 ∷ 54 ∷ 47 ∷ []

-- `slice(0, 2)`
abbrev pub first_two : Text → Text
first_two [] = []
first_two (a ∷ []) = a ∷ []
first_two (a ∷ b ∷ rest) = a ∷ b ∷ []

-- `none` is the TypeError.
unfoldable pub create_object_key : (normalize : Text → Text) → Text → Option Text
create_object_key normalize hash =
    let normalized = normalize hash in
    if not (is_hash normalized)
    then none
    else some (object_prefix ++ first_two normalized ++ 47 ∷ normalized)

-- The text after a prefix.
abbrev pub after_prefix : Text → Text → Option Text
after_prefix [] text = some text
after_prefix (p ∷ ps) [] = none
after_prefix (p ∷ ps) (c ∷ cs) = let rest = after_prefix ps cs in if p == c then rest else none

-- The two groups of CONTENT_ADDRESSED_OBJECT_KEY_PATTERN, after the prefix.
abbrev pub match_groups : Text → Option (Text × Text)
match_groups (a ∷ b ∷ c ∷ hash) =
    if is_hex a && is_hex b && c == 47 && is_hash hash then some (a ∷ b ∷ [], hash) else none
match_groups _ = none

abbrev pub matched_key : Option Text → Option (Text × Text)
matched_key none = none
matched_key (some rest) = match_groups rest

abbrev pub checked_key : Option (Text × Text) → Option Text
checked_key none = none
checked_key (some (folder, hash)) =
    if not (same_list folder (first_two hash)) then none else some hash

unfoldable pub parse_object_key : Text → Option Text
parse_object_key key = checked_key (matched_key (after_prefix object_prefix key))

after_prefix_sound : (ps text rest : Text) → after_prefix ps text ≡ some rest → text ≡ ps ++ rest
after_prefix_sound [] text rest h = ground arith
after_prefix_sound (p ∷ ps) [] rest h = cc
after_prefix_sound (p ∷ ps) (c ∷ cs) rest h = elim (Bool-cases (p == c)) [
  | inr other ↦ let bad = rw other at h in cc
  | inl same ↦
      rw (← (==_iff p c).0 same) (ap (λ t. p ∷ t) (after_prefix_sound ps cs rest (rw same at h)))
]

-- A hash has two characters at least, and all of them are hexadecimal.
parse_hash :
    (hash : Text)
    → is_hash hash ≡ true
    → checked_key (match_groups (first_two hash ++ 47 ∷ hash)) ≡ some hash
parse_hash [] h = ground arith
parse_hash (a ∷ []) h = ground arith
parse_hash (a ∷ b ∷ rest) h = ground (arith, same_list_refl (a ∷ b ∷ []))

-- What is parsed is a hash behind its first two characters.
groups_sound :
    (rest hash : Text)
    → checked_key (match_groups rest) ≡ some hash
    → (is_hash hash ≡ true) × (rest ≡ first_two hash ++ 47 ∷ hash)
groups_sound [] hash h = cc
groups_sound (a ∷ []) hash h = cc
groups_sound (a ∷ b ∷ []) hash h = cc
groups_sound (a ∷ b ∷ c ∷ tail) hash h =
    elim (Bool-cases (is_hex a && is_hex b && c == 47 && is_hash tail)) [
      | inr other ↦ let bad = rw (other, match_groups) at h in cc
      | inl fine ↦ elim (Bool-cases (same_list (a ∷ b ∷ []) (first_two tail))) [
        | inr other ↦ let bad = rw (fine, other, match_groups) at h in cc
        | inl same ↦
            let whole : tail ≡ hash = ground (arith, rw (fine, same, match_groups) at h) in
            let slash : c ≡ 47 = ground (arith, ==_iff c 47) in
            let folder : (a ∷ b ∷ []) ≡ first_two tail =
              same_list_sound (a ∷ b ∷ []) (first_two tail) same in
            rw (← whole, slash, ← folder) (ground arith, refl)
      ]
    ]

module _ (normalize : Text → Text) where
  -- The key that is made of a content hash is parsed back to that hash, in its normal form.
  pub parse-create :
      (hash key : Text)
      → create_object_key normalize hash ≡ some key
      → parse_object_key key ≡ some (normalize hash)
  unfolding create_object_key parse_object_key
  parse-create hash key h = elim (Bool-cases (is_hash (normalize hash))) [
    | inr other ↦ let bad = rw (other, create_object_key) at h in cc
    | inl fine ↦
        let shape : key ≡ object_prefix ++ first_two (normalize hash) ++ 47 ∷ normalize hash =
          ground (arith, fine) in
        rw (shape, parse_object_key) (parse_hash (normalize hash) fine)
  ]

  -- And only that key is parsed to the hash, when normalizing leaves a hash as it is.
  pub create-parse :
      (hash key : Text)
      → ((t : Text) → is_hash t ≡ true → normalize t ≡ t)
      → parse_object_key key ≡ some hash
      → create_object_key normalize hash ≡ some key
  unfolding create_object_key parse_object_key
  create-parse hash key same h = elim (Option-cases (after_prefix object_prefix key)) [
    | inl foreign ↦ let bad = rw (foreign, parse_object_key) at h in cc
    | inr (rest, under) ↦
        let (fine, shape) = groups_sound rest hash (rw (under, parse_object_key) at h) in
        let whole : key ≡ object_prefix ++ rest = after_prefix_sound object_prefix key rest under in
        rw (same hash fine, fine, whole, shape, create_object_key) refl
  ]
