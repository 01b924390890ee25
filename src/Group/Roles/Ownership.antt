-- ===== src/Group/Roles/Ownership.antt =====
-- A transfer hands the group to the target and leaves one owner.
use voidchats_note2ee.Common.{
  ℕ, ◌<◌, ◌≡◌, ◌≢◌, ◌∙◌, ap, sym, refl, Bool, true, not, ◌&&◌, Option, some, find, count, count-map,
  count_mono, count_minus, count_cover, arith, Option-cases, inl, inr, is_some,
}
use voidchats_note2ee.Group.Rows.{
  Conversation, Member, Db, Identifier, by_id, is_member, resolve_membership_conversation,
  get_group_membership, affected_ids,
}
use voidchats_note2ee.Group.Owners.Counts.{Keyed, is_owner_of, is_sole_owner, membership-count}
use voidchats_note2ee.Group.Owners.Repair.{
  OwnedBy, owner_column, owner_column-set, affected-includes,
}
use voidchats_note2ee.Group.Members.{transferred, Checked-cases, pass, group_of}
use voidchats_note2ee.Group.Roles.{
  Transfer, check_transfer, transfer_row, transfer, transfer_ownership,
}

transfer-OwnedBy :
    (now : ℕ) (db : Db) (t : Transfer)
    → Keyed db.members
    → OwnedBy db t.conversation.id t.actor
    → find (by_id t.conversation.id) db.conversations ≡ some t.conversation
    → t.target ≢ t.actor
    → 0 < count (is_member t.conversation.id t.target) db.members
    → OwnedBy (transfer now db t).db t.conversation.id t.target
unfolding transfer
transfer-OwnedBy now db t keyed owned row apart here =
    let c = t.conversation.id in
    let ids = affected_ids c db in
    let listed = affected-includes c db in
    let step : Member → Member = transfer_row t.target t.actor ids in
    let rest : Member → Bool = λ m. is_owner_of c m && not (is_sole_owner c t.actor m) in
    let none_left =
      count_minus (is_owner_of c) (is_sole_owner c t.actor) (λ m h. ground arith) db.members in
    let upper =
      count_cover (λ m. is_owner_of c (step m)) (is_member c t.target) rest (λ m h. ground arith)
        db.members in
    let lower =
      count_mono (is_member c t.target) (λ m. is_sole_owner c t.target (step m))
        (λ m h. ground arith) db.members in
    let within =
      count_mono (λ m. is_sole_owner c t.target (step m)) (λ m. is_owner_of c (step m))
        (λ m h. ground arith) db.members in
    let counted =
      count-map step (is_owner_of c) (λ m. is_owner_of c (step m)) (λ m. refl) db.members in
    let counted' =
      count-map step (is_sole_owner c t.target) (λ m. is_sole_owner c t.target (step m)) (λ m. refl)
        db.members in
    let bound = keyed c t.target in
    record {
      column = owner_column-set now c t.target ids db.conversations t.conversation listed row;
      sole = omega (arith, owned.sole, owned.member);
      member = omega (arith, owned.sole, owned.member);
    }

-- What the checks establish.
record Allowed (user : Option ℕ) (requested : Identifier) (wanted : Option ℕ) (db : Db)
    (t : Transfer) : Type 0 where
  actor : user ≡ some t.actor
  target : wanted ≡ some t.target
  apart : t.target ≢ t.actor
  row : resolve_membership_conversation requested db ≡ some t.conversation
  column : t.conversation.owner_id ≡ some t.actor
  here : is_some (get_group_membership t.conversation.id t.target db) ≡ true

check_transfer_sound :
    (user : Option ℕ) (requested : Identifier) (target : Option ℕ) (db : Db) (t : Transfer)
    → check_transfer user requested target db ≡ pass t
    → Allowed user requested target db t
unfolding check_transfer group_of
check_transfer_sound user requested target db t e = ground arith

target_here :
    (db : Db) (t : Transfer)
    → is_some (get_group_membership t.conversation.id t.target db) ≡ true
    → 0 < count (is_member t.conversation.id t.target) db.members
target_here db t h = elim (Option-cases (get_group_membership t.conversation.id t.target db)) [
  | inl absent ↦ cc (rw absent at h)
  | inr (r, here) ↦ membership-count t.conversation.id t.target db here
]

-- A transfer that succeeds was asked by the group's owner, who is not the target, and afterwards
-- the target is the group's one owner: in the owner column, in its own row, and in no other row.
-- Before, a user has at most one row in a conversation, the group has one owner, and the row that
-- the request names is the one with its identifier.
pub transfer_ownership-OwnedBy :
    (now a u n : ℕ) (user : Option ℕ) (requested : Identifier) (wanted : Option ℕ) (db : Db)
    (row : Conversation)
    → Keyed db.members
    → resolve_membership_conversation requested db ≡ some row
    → find (by_id row.id) db.conversations ≡ some row
    → OwnedBy db row.id a
    → (transfer_ownership now user requested wanted db).reply ≡ transferred u n
    → (user ≡ some a)
      × (wanted ≡ some u)
      × (u ≢ a)
      × OwnedBy (transfer_ownership now user requested wanted db).db row.id u
unfolding transfer_ownership transfer owner_column
transfer_ownership-OwnedBy now a u n user requested wanted db row keyed named row_found owned e =
    elim (Checked-cases (check_transfer user requested wanted db)) [
      | inr (status, code, refused) ↦ absurd (cc (rw (refused, transfer_ownership) at e))
      | inl (t, passed) ↦
          let allowed = check_transfer_sound user requested wanted db t passed in
          let same_row : t.conversation ≡ row = ground (arith, allowed.row) in
          let column : row.owner_id ≡ some a = rw (row_found, owner_column) at owned.column in
          let actor : t.actor ≡ a =
            ground (arith, allowed.column, ap (λ (r : Conversation). r.owner_id) same_row) in
          let done = rw (passed, transfer_ownership) at e in
          let aim : t.target ≡ u = ground (arith, done) in
          let handed =
            transfer-OwnedBy now db t keyed (rw (same_row, actor) owned) (rw same_row row_found)
              allowed.apart (target_here db t allowed.here) in
          (
            allowed.actor ∙ ap some actor,
            allowed.target ∙ ap some aim,
            λ k. allowed.apart (aim ∙ k ∙ sym actor),
            rw (passed, transfer_ownership, ← same_row, ← aim) handed,
          )
    ]
