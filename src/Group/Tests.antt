-- ===== src/Group/Tests.antt =====
-- The member routes on the sample group, and the theorems at concrete requests.
use voidchats_note2ee.Common.{
  ℕ, ◌≡◌, ◌≢◌, refl, true, false, Option, none, some, [], ◌∷◌, count, arith, includes,
}
use voidchats_note2ee.Friends.{are_friends}
use voidchats_note2ee.Group.Permissions.{
  owner, admin, member, get, is_true, resolve_permissions, meets_admin_toggle,
}
use voidchats_note2ee.Group.Rows.{
  unique_user_ids, validate_friendships, Db, uuid, snowflake, is_member, is_owner_role,
  affected_ids, get_group_membership, resolve_membership_conversation,
}
use voidchats_note2ee.Group.Owners.{ensure_group_owner}
use voidchats_note2ee.Group.Owners.Counts.{Keyed, is_owner_of}
use voidchats_note2ee.Group.Owners.Repair.{OwnedBy, owner_column, ensure_group_owner-OwnedBy}
use voidchats_note2ee.Group.Members.{
  failed, left, added, member_removed, add_members, leave_group, remove_member, is_admin_or_owner,
}
use voidchats_note2ee.Group.Members.Adding.{add_members_lem}
use voidchats_note2ee.Group.Members.Removal.{MayRemove, remove_member-OwnedBy}
use voidchats_note2ee.Group.Members.Leaving.{leave_group-OwnedBy, owner_departure}
use voidchats_note2ee.Group.Members.{transferred, role_updated}
use voidchats_note2ee.Group.Roles.{transfer_ownership, update_role, change_role, RoleChange}
use voidchats_note2ee.Group.Roles.Ownership.{transfer_ownership-OwnedBy}
use voidchats_note2ee.Group.Roles.Change.{update_role-OwnedBy}
use voidchats_note2ee.Group.Roles.Race.{late_role_change}
use voidchats_note2ee.Group.Samples.{row, team, with_members, sample, ownerless}

runs : Unit {0}
unfolding add_members leave_group remove_member transfer_ownership update_role owner_column
    get_group_membership resolve_membership_conversation resolve_permissions get are_friends
    affected_ids unique_user_ids validate_friendships meets_admin_toggle
runs = tt

replies :
    ((add_members 9 (some 10) (uuid 1) (some 40 ∷ some 20 ∷ none ∷ some 40 ∷ []) sample).reply
      ≡ added (40 ∷ []))
    × ((add_members 9 (some 20) (uuid 1) (some 40 ∷ []) sample).reply
        ≡ failed 403 "FRIENDSHIP_REQUIRED")
    × ((add_members 9 (some 30) (uuid 1) (some 40 ∷ []) sample).reply ≡ failed 403 "")
    × ((add_members 9 (some 10) (uuid 2) (some 30 ∷ []) sample).reply ≡ failed 409 "ALREADY_MEMBER")
    × ((leave_group 9 (some 10) (uuid 1) sample).reply ≡ failed 403 "OWNER_TRANSFER_REQUIRED")
    × ((leave_group 9 (some 30) (snowflake 77) sample).reply ≡ left false)
    × ((remove_member 9 (some 20) (uuid 1) 30 sample).reply ≡ member_removed)
    × ((remove_member 9 (some 20) (uuid 1) 10 sample).reply ≡ failed 403 "OWNER_TRANSFER_REQUIRED")
    × ((remove_member 9 (some 30) (uuid 1) 20 sample).reply ≡ failed 403 "")
    × ((transfer_ownership 9 (some 10) (uuid 1) (some 20) sample).reply ≡ transferred 20 3)
    × ((update_role (some 20) (uuid 1) 30 admin sample).reply ≡ role_updated)
unfolding runs
replies = (refl, refl, refl, refl, refl, refl, refl, refl, refl, refl, refl)

sample-Keyed : Keyed sample.members
sample-Keyed c u = ground arith

sample-OwnedBy : OwnedBy sample 1 10
unfolding runs
sample-OwnedBy = record { column = refl; sole = refl; member = refl }

ensure_group_owner-OwnedBy_example :
    (u : ℕ) × ((ensure_group_owner 9 1 ownerless).1.owner_user_id ≡ some u)
    × OwnedBy (ensure_group_owner 9 1 ownerless).0 1 u
ensure_group_owner-OwnedBy_example =
    ensure_group_owner-OwnedBy 9 1 ownerless (team (some 10)) (λ c u. ground arith) refl refl
      (omega arith)

transfer_ownership-OwnedBy_example :
    (◌≡◌ {A = Option ℕ} (some 10) (some 10))
    × (◌≡◌ {A = Option ℕ} (some 20) (some 20))
    × (◌≢◌ {A = ℕ} 20 10)
    × OwnedBy (transfer_ownership 9 (some 10) (uuid 1) (some 20) sample).db 1 20
unfolding runs
transfer_ownership-OwnedBy_example =
    transfer_ownership-OwnedBy 9 10 20 3 (some 10) (uuid 1) (some 20) sample (team (some 10))
      sample-Keyed refl refl sample-OwnedBy refl

update_role-OwnedBy_example :
    (◌≢◌ {A = ℕ} 10 30) × OwnedBy (update_role (some 20) (uuid 1) 30 admin sample).db 1 10
unfolding runs
update_role-OwnedBy_example =
    update_role-OwnedBy 10 30 (some 20) (uuid 1) admin sample (team (some 10)) sample-Keyed refl
      sample-OwnedBy refl

-- Between its checks and its writes the role change of user 30 is overtaken by the owner, who
-- hands the group to 30.
abbrev overtaken : Db
overtaken = (transfer_ownership 9 (some 10) (uuid 1) (some 30) sample).db

abbrev checked_change : RoleChange
checked_change = record { target = 30; role = member; conversation = team (some 10) }

overtaken-OwnedBy : OwnedBy overtaken 1 30
unfolding runs
overtaken-OwnedBy = record { column = refl; sole = refl; member = refl }

late_role_change_example :
    count (is_owner_of 1) (change_role overtaken checked_change).db.members ≡ 0
unfolding runs
late_role_change_example =
    late_role_change (some 20) (uuid 1) 30 member sample overtaken checked_change refl
      overtaken-OwnedBy

remove_member-OwnedBy_example :
    MayRemove 20 30 admin member
      (is_true (get "admin_can_remove_members" (resolve_permissions (team (some 10)).permissions)))
    × ((o : ℕ) × OwnedBy (remove_member 9 (some 20) (uuid 1) 30 sample).db 1 o)
    × (count (is_member 1 30) (remove_member 9 (some 20) (uuid 1) 30 sample).db.members ≡ 0)
unfolding runs
remove_member-OwnedBy_example =
    remove_member-OwnedBy 9 20 30 (uuid 1) sample (team (some 10)) admin member sample-Keyed refl
      refl refl refl refl

leave_group-OwnedBy_example :
    (is_owner_role member ≡ false)
    × ((o : ℕ) × OwnedBy (leave_group 9 (some 30) (uuid 1) sample).db 1 o)
    × (count (is_member 1 30) (leave_group 9 (some 30) (uuid 1) sample).db.members ≡ 0)
unfolding runs
leave_group-OwnedBy_example =
    leave_group-OwnedBy 9 30 (uuid 1) sample (team (some 10)) member sample-Keyed refl refl refl
      refl

abbrev alone : Db
alone = with_members (some 10) (row 1 10 owner ∷ row 2 10 owner ∷ [])

owner_departure_example :
    ((leave_group 9 (some 10) (uuid 1) sample).reply ≡ failed 403 "OWNER_TRANSFER_REQUIRED")
    × ((remove_member 9 (some 10) (uuid 1) 10 sample).reply ≡ member_removed)
unfolding runs
owner_departure_example =
    owner_departure 9 10 (uuid 1) sample (team (some 10)) sample-Keyed refl refl sample-OwnedBy
      (omega arith)

add_members_lem_example :
    (is_admin_or_owner owner ≡ true)
    × ((v d : ℕ)
        → includes v (40 ∷ []) ≡ true
        → includes d (affected_ids 1 sample) ≡ true
        → (are_friends 10 v sample.friendships ≡ true)
          × (count
                (is_member d v)
                (add_members 9 (some 10) (uuid 1) (some 40 ∷ []) sample).db.members
              ≡ 1))
    × Keyed (add_members 9 (some 10) (uuid 1) (some 40 ∷ []) sample).db.members
    × ((o : ℕ)
        → OwnedBy sample 1 o
        → OwnedBy (add_members 9 (some 10) (uuid 1) (some 40 ∷ []) sample).db 1 o)
unfolding runs
add_members_lem_example =
    add_members_lem 9 10 (uuid 1) (some 40 ∷ []) sample (team (some 10)) owner (40 ∷ [])
      sample-Keyed refl refl refl
