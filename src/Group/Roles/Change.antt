-- ===== src/Group/Roles/Change.antt =====
-- A change of role leaves the group's owner alone.
use voidchats_note2ee.Common.{
  ℕ, ◌≤◌, ◌≡◌, ◌≢◌, ◌∙◌, refl, true, false, not, ◌&&◌, Option, some, List, [], ◌∷◌, if◌then◌else◌,
  find, map, count, count-map, count_mono, count_minus, arith, Option-cases, Bool-cases, inl, inr,
  find-count, find_sound, is_some, count_of_none,
}
use voidchats_note2ee.Group.Permissions.{GroupRole, owner}
use voidchats_note2ee.Group.Rows.{
  Conversation, Member, Db, Identifier, is_group, is_member, is_owner_role,
  resolve_membership_conversation, get_group_membership, get_child_channel_ids,
}
use voidchats_note2ee.Group.Owners.Counts.{Keyed, is_owner_of, is_sole_owner}
use voidchats_note2ee.Group.Owners.Repair.{OwnedBy}
use voidchats_note2ee.Group.Members.{role_updated, pass, Checked-cases}
use voidchats_note2ee.Group.Roles.{
  RoleChange, is_assignable, check_role_change, set_role_row, set_role_in, change_role, update_role,
}

-- Roles other than the owner's are written: no conversation gains an owner.
pub set_role_in_le :
    (c u : ℕ) (role : GroupRole) (cs : List ℕ) (members : List Member)
    → is_owner_role role ≡ false
    → count (is_owner_of c) (set_role_in cs u role members) ≤ count (is_owner_of c) members
unfolding set_role_in
set_role_in_le c u role [] members h = omega arith
set_role_in_le c u role (d ∷ cs) members h =
    let step : Member → Member = set_role_row d u role in
    omega (
      arith,
      set_role_in_le c u role cs (map step members) h,
      count-map step (is_owner_of c) (λ m. is_owner_of c (step m)) (λ m. refl) members,
      count_mono (λ m. is_owner_of c (step m)) (is_owner_of c) (λ m k. ground arith) members,
    )

-- Another user's own row is untouched.
set_role_in_other :
    (c u a : ℕ) (role : GroupRole) (cs : List ℕ) (members : List Member)
    → a ≢ u
    → count (is_sole_owner c a) (set_role_in cs u role members) ≡ count (is_sole_owner c a) members
unfolding set_role_in
set_role_in_other c u a role [] members h = refl
set_role_in_other c u a role (d ∷ cs) members h = omega (
  arith,
  set_role_in_other c u a role cs (map (set_role_row d u role) members) h,
  count-map (set_role_row d u role) (is_sole_owner c a) (is_sole_owner c a) (λ m. ground arith)
      members,
)

change_role-OwnedBy :
    (a : ℕ) (db : Db) (r : RoleChange)
    → is_owner_role r.role ≡ false
    → a ≢ r.target
    → OwnedBy db r.conversation.id a
    → OwnedBy (change_role db r).db r.conversation.id a
unfolding change_role
change_role-OwnedBy a db r plain apart owned =
    let c = r.conversation.id in
    let channels : List ℕ =
      if is_group r.conversation.kind then get_child_channel_ids c db else [] in
    let ids : List ℕ = c ∷ channels in
    let after = set_role_in ids r.target r.role db.members in
    let fewer = set_role_in_le c r.target r.role ids db.members plain in
    let own = set_role_in_other c r.target a r.role ids db.members apart in
    let within = count_mono (is_sole_owner c a) (is_owner_of c) (λ m h. ground arith) after in
    unfold set_role_in in
    record {
      column = owned.column;
      sole = omega (arith, owned.sole, owned.member);
      member = omega (arith, owned.sole, owned.member);
    }

-- What the checks establish.
pub record Allowed (user : Option ℕ) (requested : Identifier) (target : ℕ) (role : GroupRole)
    (db : Db) (r : RoleChange) : Type 0 where
  pub row : resolve_membership_conversation requested db ≡ some r.conversation
  pub aim : r.target ≡ target
  pub new_role : r.role ≡ role
  pub assignable : is_assignable role ≡ true
  pub here : is_some (get_group_membership r.conversation.id target db) ≡ true
  pub no_owner : get_group_membership r.conversation.id target db ≢ some owner

pub check_role_change_sound :
    (user : Option ℕ) (requested : Identifier) (target : ℕ) (role : GroupRole) (db : Db)
    (r : RoleChange)
    → check_role_change user requested target role db ≡ pass r
    → Allowed user requested target role db r
unfolding check_role_change
check_role_change_sound user requested target role db r e = ground arith

pub owner_role :
    (c a : ℕ) (db : Db)
    → Keyed db.members
    → count (is_sole_owner c a) db.members ≡ 1
    → get_group_membership c a db ≡ some owner
unfolding get_group_membership
owner_role c a db keyed one = elim (Option-cases (find (is_member c a) db.members)) [
  | inl absent ↦
      let fewer = count_mono (is_sole_owner c a) (is_member c a) (λ m h. ground arith) db.members in
      absurd (omega (arith, count_of_none (is_member c a) db.members absent))
  | inr (m, here) ↦ elim (Bool-cases (is_owner_role m.role)) [
    | inl yes_owner ↦ rw (here, get_group_membership) (ground arith)
    | inr plain ↦
        let fits = find_sound (is_member c a) db.members m here in
        let split =
          count_minus (is_member c a) (is_sole_owner c a) (λ x h. ground arith) db.members in
        let more =
          find-count (is_member c a) (λ x. is_member c a x && not (is_sole_owner c a x)) db.members
            here (ground arith) in
        let key = keyed c a in absurd (omega arith)
  ]
]

-- A role change that succeeds, with no other request between its statements, leaves the owner of
-- the group as the one owner: the target is someone else. Before, a user has at most one row in a
-- conversation and the group has one owner.
pub update_role-OwnedBy :
    (a target : ℕ) (user : Option ℕ) (requested : Identifier) (role : GroupRole) (db : Db)
    (row : Conversation)
    → Keyed db.members
    → resolve_membership_conversation requested db ≡ some row
    → OwnedBy db row.id a
    → (update_role user requested target role db).reply ≡ role_updated
    → (a ≢ target) × OwnedBy (update_role user requested target role db).db row.id a
unfolding update_role
update_role-OwnedBy a target user requested role db row keyed named owned e =
    elim (Checked-cases (check_role_change user requested target role db)) [
      | inr (status, code, refused) ↦ absurd (cc (rw (refused, update_role) at e))
      | inl (r, passed) ↦
          let allowed = check_role_change_sound user requested target role db r passed in
          let same : r.conversation ≡ row = ground (arith, allowed.row) in
          let its_role = owner_role row.id a db keyed owned.member in
          let apart : a ≢ target = λ k. allowed.no_owner (rw (same, ← k) its_role) in
          let plain : is_owner_role r.role ≡ false =
            ground (arith, allowed.new_role, allowed.assignable) in
          (
            apart,
            rw (passed, update_role, ← same)
                (change_role-OwnedBy a db r plain (λ k. apart (k ∙ allowed.aim)) (rw same owned)),
          )
    ]
