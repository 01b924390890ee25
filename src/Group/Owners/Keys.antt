-- ===== src/Group/Owners/Keys.antt =====
-- `ensureGroupOwner` writes no key: who belongs to which conversation stays.
use voidchats_note2ee.Common.{
  ℕ, ◌≡◌, refl, List, find, count, count-map, arith, Option-cases, Bool-cases, inl, inr,
}
use voidchats_note2ee.Group.Rows.{
  Conversation, Member, Db, is_group, by_id, is_member, get_member_rows, affected_ids,
}
use voidchats_note2ee.Group.Owners.{
  order_members, pick_owner, repair_member, repair, is_consistent, settle_owner, ensure_group_owner,
}

repair-keys :
    (now c d u v : ℕ) (db : Db)
    → count (is_member d v) (repair now c u db).members ≡ count (is_member d v) db.members
unfolding repair
repair-keys now c d u v db =
    count-map (repair_member u (affected_ids c db)) (is_member d v) (is_member d v)
      (λ m. ground arith) db.members

settle-keys :
    (now d v : ℕ) (row : Conversation) (members : List Member) (db : Db)
    → count (is_member d v) (settle_owner now row members db).0.members
      ≡ count (is_member d v) db.members
unfolding settle_owner
settle-keys now d v row members db = elim (Option-cases (pick_owner row.owner_id members)) [
  | inl empty ↦ rw (empty, settle_owner) refl
  | inr (chosen, picked) ↦ elim (Bool-cases (is_consistent row chosen members)) [
    | inl fine ↦ rw (picked, fine, settle_owner) refl
    | inr off ↦ rw (picked, off, settle_owner) (repair-keys now row.id d chosen.user_id v db)
  ]
]

pub ensure_group_owner-keys :
    (now c d v : ℕ) (db : Db)
    → count (is_member d v) (ensure_group_owner now c db).0.members
      ≡ count (is_member d v) db.members
unfolding ensure_group_owner
ensure_group_owner-keys now c d v db = elim (Option-cases (find (by_id c) db.conversations)) [
  | inl absent ↦ rw (absent, ensure_group_owner) refl
  | inr (row, found) ↦ elim (Bool-cases (is_group row.kind)) [
    | inl grouped ↦
        rw (found, grouped, ensure_group_owner)
          (settle-keys now d v row (order_members (get_member_rows c db)) db)
    | inr other ↦ rw (found, other, ensure_group_owner) refl
  ]
]
