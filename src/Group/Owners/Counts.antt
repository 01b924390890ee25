-- ===== src/Group/Owners/Counts.antt =====
-- Counting the rows of one conversation: sorting keeps the counts, and the row that is picked as
-- the owner is one of them.
use voidchats_note2ee.Common.{
  ℕ, ◌≤◌, ◌<◌, ◌≡◌, ◌∙◌, refl, Bool, true, ◌&&◌, Option, some, List, [], ◌∷◌, ◌==◌, find, first,
  count, count-keep, find-count, arith, find_sound, Option-cases, inl, inr,
}
use voidchats_note2ee.Group.Permissions.{GroupRole}
use voidchats_note2ee.Group.Rows.{
  Member, Db, in_conversation, is_member, is_user, is_owner_role, get_member_rows,
  get_group_membership,
}
use voidchats_note2ee.Group.Owners.{insert_in_order, order_members, pick_owner}

-- The primary key of `conversation_members`.
abbrev pub Keyed : List Member → Type 0
Keyed members = (c u : ℕ) → count (is_member c u) members ≤ 1

abbrev pub is_owner_of : ℕ → Member → Bool
is_owner_of c m = m.conversation_id == c && is_owner_role m.role

abbrev pub is_sole_owner : ℕ → ℕ → Member → Bool
is_sole_owner c u m = is_member c u m && is_owner_role m.role

count-insert_in_order :
    (p : Member → Bool) (m : Member) (xs : List Member)
    → count p (insert_in_order m xs) ≡ count p (m ∷ xs)
unfolding insert_in_order
count-insert_in_order p m [] = refl
count-insert_in_order p m (x ∷ xs) = ground (arith, count-insert_in_order p m xs)

pub count-order_members :
    (p : Member → Bool) (xs : List Member) → count p (order_members xs) ≡ count p xs
unfolding order_members
count-order_members p [] = refl
count-order_members p (m ∷ xs) =
    omega (arith, count-insert_in_order p m (order_members xs), count-order_members p xs)

count-first :
    (q : Member → Bool) (xs : List Member) {m : Member}
    → first xs ≡ some m
    → q m ≡ true
    → 0 < count q xs
count-first q [] e h = cc
count-first q (x ∷ xs) e h = ground arith

pub count-pick_owner :
    (configured : Option ℕ) (q : Member → Bool) (xs : List Member) {m : Member}
    → pick_owner configured xs ≡ some m
    → q m ≡ true
    → 0 < count q xs
unfolding pick_owner
count-pick_owner configured q xs {m} e h =
    elim (Option-cases (find (λ x. is_user configured x.user_id) xs)) [
      | inr (a, found) ↦ find-count _ q xs (found ∙ (rw (found, pick_owner) at e)) h
      | inl absent ↦ elim (Option-cases (find (λ x. is_owner_role x.role) xs)) [
        | inr (a, found) ↦ find-count _ q xs (found ∙ (rw (absent, found, pick_owner) at e)) h
        | inl missing ↦ count-first q xs (rw (absent, missing, pick_owner) at e) h
      ]
    ]

-- Rows counted through the query are the rows of the conversation.
pub count-get_member_rows :
    (c : ℕ) (p : Member → Bool) (db : Db)
    → count p (order_members (get_member_rows c db))
      ≡ count (λ m. in_conversation c m && p m) db.members
unfolding get_member_rows
count-get_member_rows c p db =
    count-order_members p (get_member_rows c db) ∙ count-keep p (in_conversation c) db.members

-- A user with a role has a row.
pub membership-count :
    (c u : ℕ) (db : Db) {r : GroupRole}
    → get_group_membership c u db ≡ some r
    → 0 < count (is_member c u) db.members
unfolding get_group_membership
membership-count c u db e = elim (Option-cases (find (is_member c u) db.members)) [
  | inl absent ↦ absurd (cc (rw (absent, get_group_membership) at e))
  | inr (m, here) ↦
      find-count (is_member c u) (is_member c u) db.members here
        (find_sound (is_member c u) db.members m here)
]
