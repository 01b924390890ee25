-- ===== src/Group/Members/Adding.antt =====
-- Adding members: who may, who is added, and what stays.
use voidchats_note2ee.Common.{
  ℕ, ◌≤◌, ◌<◌, ◌≡◌, ◌⊎◌, ◌∙◌, sym, subst, refl, Bool, true, false, Option, none, some, List, [],
  ◌∷◌, ◌++◌, ◌==◌, find, map, count, count-append, count_of_none, arith, Option-cases, Bool-cases,
  inl, inr, includes, ==_iff, find-count, find_sound,
}
use voidchats_note2ee.Friends.{are_friends}
use voidchats_note2ee.Group.Permissions.{GroupRole, member}
use voidchats_note2ee.Group.Rows.{
  Conversation, Member, Db, Identifier, is_member, insert_member, validate_friendships,
  resolve_membership_conversation, get_group_membership, get_member_rows, affected_ids,
  unique_user_ids, touch_row,
}
use voidchats_note2ee.Group.Owners.Counts.{Keyed, is_owner_of, is_sole_owner}
use voidchats_note2ee.Group.Owners.Repair.{OwnedBy, owner_column}
use voidchats_note2ee.Group.Members.{
  added, pass, Checked-cases, is_admin_or_owner, group_of, Addition, check_addition, insert_into,
  insert_all, add, add_members, new_member_ids,
}

abbrev new_row : ℕ → ℕ → ℕ → Member
new_row now c u = record { conversation_id = c; user_id = u; role = member; joined_at = some now }

-- What an INSERT does to a count.
insert_cases :
    (now c u : ℕ) (members : List Member)
    → ((0 < count (is_member c u) members) × (insert_member now c u members ≡ members))
      ⊎ ((count (is_member c u) members ≡ 0)
          × (insert_member now c u members ≡ members ++ new_row now c u ∷ []))
unfolding insert_member
insert_cases now c u members = elim (Option-cases (find (is_member c u) members)) [
  | inr (m, here) ↦ inl (
    find-count (is_member c u) (is_member c u) members here
        (find_sound (is_member c u) members m here),
    rw (here, insert_member) refl,
  )
  | inl absent ↦ inr (count_of_none (is_member c u) members absent, rw (absent, insert_member) refl)
]

insert-Keyed :
    (now c u : ℕ) (members : List Member) → Keyed members → Keyed (insert_member now c u members)
insert-Keyed now c u members keyed d v = elim (insert_cases now c u members) [
  | inl (here, same) ↦ rw same (keyed d v)
  | inr (absent, grown) ↦ rw grown (
      let counted = count-append (is_member d v) members (new_row now c u ∷ []) in
      let key = keyed d v in ground (arith, absent))
]

insert_mono :
    (p : Member → Bool) (now c u : ℕ) (members : List Member)
    → count p members ≤ count p (insert_member now c u members)
insert_mono p now c u members = elim (insert_cases now c u members) [
  | inl (here, same) ↦ rw same (omega arith)
  | inr (absent, grown) ↦ rw grown (omega (arith, count-append p members (new_row now c u ∷ [])))
]

insert-others :
    (p : Member → Bool) (now c u : ℕ) (members : List Member)
    → p (new_row now c u) ≡ false
    → count p (insert_member now c u members) ≡ count p members
insert-others p now c u members h = elim (insert_cases now c u members) [
  | inl (here, same) ↦ rw same refl
  | inr (absent, grown) ↦ rw grown (ground (arith, count-append p members (new_row now c u ∷ [])))
]

insert-here :
    (now c u : ℕ) (members : List Member)
    → 0 < count (is_member c u) (insert_member now c u members)
insert-here now c u members = elim (insert_cases now c u members) [
  | inl (here, same) ↦ rw same here
  | inr (absent, grown) ↦
      rw grown (ground (arith, count-append (is_member c u) members (new_row now c u ∷ [])))
]

insert_into-Keyed :
    (now u : ℕ) (cs : List ℕ) (members : List Member)
    → Keyed members
    → Keyed (insert_into now u cs members)
unfolding insert_into
insert_into-Keyed now u [] members keyed = keyed
insert_into-Keyed now u (c ∷ cs) members keyed =
    insert_into-Keyed now u cs (insert_member now c u members) (insert-Keyed now c u members keyed)

insert_into_mono :
    (p : Member → Bool) (now u : ℕ) (cs : List ℕ) (members : List Member)
    → count p members ≤ count p (insert_into now u cs members)
unfolding insert_into
insert_into_mono p now u [] members = omega arith
insert_into_mono p now u (c ∷ cs) members = omega (
  arith,
  insert_mono p now c u members,
  insert_into_mono p now u cs (insert_member now c u members),
)

insert_into-others :
    (p : Member → Bool) (now u : ℕ) (cs : List ℕ) (members : List Member)
    → ((c : ℕ) → p (new_row now c u) ≡ false)
    → count p (insert_into now u cs members) ≡ count p members
unfolding insert_into
insert_into-others p now u [] members h = refl
insert_into-others p now u (c ∷ cs) members h =
    insert_into-others p now u cs (insert_member now c u members) h
    ∙ insert-others p now c u members (h c)

insert_into-here :
    (now u d : ℕ) (cs : List ℕ) (members : List Member)
    → includes d cs ≡ true
    → 0 < count (is_member d u) (insert_into now u cs members)
unfolding insert_into
insert_into-here now u d [] members h = cc
insert_into-here now u d (c ∷ cs) members h = elim (Bool-cases (c == d)) [
  | inl same ↦ omega (
    arith,
    subst (λ x. 0 < count (is_member x u) (insert_member now c u members)) ((==_iff c d).0 same)
        (insert-here now c u members),
    insert_into_mono (is_member d u) now u cs (insert_member now c u members),
  )
  | inr differ ↦ insert_into-here now u d cs (insert_member now c u members) (rw differ at h)
]

module _ (now : ℕ) (cs : List ℕ) where
  insert_all-Keyed :
      (us : List ℕ) (members : List Member) → Keyed members → Keyed (insert_all now us cs members)
  unfolding insert_all
  insert_all-Keyed [] members keyed = keyed
  insert_all-Keyed (u ∷ us) members keyed =
      insert_all-Keyed us (insert_into now u cs members) (insert_into-Keyed now u cs members keyed)

  insert_all_mono :
      (p : Member → Bool) (us : List ℕ) (members : List Member)
      → count p members ≤ count p (insert_all now us cs members)
  unfolding insert_all
  insert_all_mono p [] members = omega arith
  insert_all_mono p (u ∷ us) members = omega (
    arith,
    insert_into_mono p now u cs members,
    insert_all_mono p us (insert_into now u cs members),
  )

  insert_all-others :
      (p : Member → Bool) (us : List ℕ) (members : List Member)
      → ((c u : ℕ) → p (new_row now c u) ≡ false)
      → count p (insert_all now us cs members) ≡ count p members
  unfolding insert_all
  insert_all-others p [] members h = refl
  insert_all-others p (u ∷ us) members h =
      insert_all-others p us (insert_into now u cs members) h
      ∙ insert_into-others p now u cs members (λ c. h c u)

  insert_all-here :
      (d v : ℕ) (us : List ℕ) (members : List Member)
      → includes d cs ≡ true
      → includes v us ≡ true
      → 0 < count (is_member d v) (insert_all now us cs members)
  unfolding insert_all
  insert_all-here d v [] members h k = cc
  insert_all-here d v (u ∷ us) members h k = elim (Bool-cases (u == v)) [
    | inl same ↦ omega (
      arith,
      subst (λ x. 0 < count (is_member d x) (insert_into now u cs members)) ((==_iff u v).0 same)
          (insert_into-here now u d cs members h),
      insert_all_mono (is_member d v) us (insert_into now u cs members),
    )
    | inr differ ↦ insert_all-here d v us (insert_into now u cs members) h (rw differ at k)
  ]

all_friends :
    (db : Db) (a v : ℕ) (us : List ℕ)
    → validate_friendships db a us ≡ none
    → includes v us ≡ true
    → are_friends a v db.friendships ≡ true
unfolding validate_friendships
all_friends db a v [] h k = cc
all_friends db a v (u ∷ us) h k = ground (arith, all_friends db a v us, ==_iff u v)

owner_column-touch :
    (now c : ℕ) (ids : List ℕ) (rows : List Conversation)
    → owner_column c (map (touch_row now ids) rows) ≡ owner_column c rows
unfolding owner_column
owner_column-touch now c ids [] = refl
owner_column-touch now c ids (r ∷ rows) = ground (arith, owner_column-touch now c ids rows)

record CanAdd (user : Option ℕ) (requested : Identifier) (values : List (Option ℕ)) (db : Db)
    (a : Addition) : Type 0 where
  actor : user ≡ some a.actor
  row : resolve_membership_conversation requested db ≡ some a.conversation
  added_ids :
      a.new_members ≡ new_member_ids (unique_user_ids values) (get_member_rows a.conversation.id db)
  friends : validate_friendships db a.actor a.new_members ≡ none

check_addition_sound :
    (user : Option ℕ) (requested : Identifier) (values : List (Option ℕ)) (db : Db) (a : Addition)
    → check_addition user requested values db ≡ pass a
    → CanAdd user requested values db a
unfolding check_addition group_of
check_addition_sound user requested values db a e = ground arith

check_addition_right :
    (u : ℕ) (requested : Identifier) (values : List (Option ℕ)) (db : Db) (a : Addition)
    (row : Conversation) (r : GroupRole)
    → resolve_membership_conversation requested db ≡ some row
    → get_group_membership row.id u db ≡ some r
    → check_addition (some u) requested values db ≡ pass a
    → is_admin_or_owner r ≡ true
unfolding check_addition group_of
check_addition_right u requested values db a row r named mine e = ground arith

-- An addition that succeeds was asked by the owner or an admin, and each user that it adds is an
-- accepted friend of the asker and has, afterwards, exactly one row in the group and in each of
-- its channels. No one gets a second row, and whoever was the group's one owner still is. Before,
-- a user has at most one row in a conversation.
pub add_members_lem :
    (now u : ℕ) (requested : Identifier) (values : List (Option ℕ)) (db : Db) (row : Conversation)
    (r : GroupRole) (us : List ℕ)
    → Keyed db.members
    → resolve_membership_conversation requested db ≡ some row
    → get_group_membership row.id u db ≡ some r
    → (add_members now (some u) requested values db).reply ≡ added us
    → (is_admin_or_owner r ≡ true)
      × ((v d : ℕ)
          → includes v us ≡ true
          → includes d (affected_ids row.id db) ≡ true
          → (are_friends u v db.friendships ≡ true)
            × (count (is_member d v) (add_members now (some u) requested values db).db.members ≡ 1))
      × Keyed (add_members now (some u) requested values db).db.members
      × ((o : ℕ)
          → OwnedBy db row.id o
          → OwnedBy (add_members now (some u) requested values db).db row.id o)
unfolding add_members add
add_members_lem now u requested values db row r us keyed named mine e =
    elim (Checked-cases (check_addition (some u) requested values db)) [
      | inr (status, code, refused) ↦ absurd (cc (rw (refused, add_members) at e))
      | inl (a, passed) ↦
          let sound = check_addition_sound (some u) requested values db a passed in
          let same : a.conversation ≡ row = ground (arith, sound.row) in
          let actor : a.actor ≡ u = ground (arith, sound.actor) in
          let done = rw (passed, add_members) at e in
          let these : a.new_members ≡ us = ground (arith, done) in
          let c = a.conversation.id in
          let ids = affected_ids a.conversation.id db in
          let after = insert_all now a.new_members ids db.members in
          let keys = insert_all-Keyed now ids a.new_members db.members keyed in
          (
            check_addition_right u requested values db a row r named mine passed,
            λ v d listed affected. (
              rw (← actor) (all_friends db a.actor v a.new_members sound.friends (rw these listed)),
              rw (passed, add_members)
                  (omega (
                    arith,
                    keys d v,
                    insert_all-here now ids d v a.new_members db.members
                        (subst (λ (x : Conversation). includes d (affected_ids x.id db) ≡ true)
                          (sym same) affected)
                        (rw these listed),
                  )),
            ),
            rw (passed, add_members) keys,
            λ o owned.
                rw (passed, add_members)
                  (record {
                    column = owner_column-touch now row.id ids db.conversations ∙ owned.column;
                    sole =
                        insert_all-others now ids (is_owner_of row.id) a.new_members db.members
                          (λ c' v. ground arith)
                        ∙ owned.sole;
                    member =
                        insert_all-others now ids (is_sole_owner row.id o) a.new_members db.members
                          (λ c' v. ground arith)
                        ∙ owned.member;
                  }),
          )
    ]
