-- ===== src/Group/Owners/Repair.antt =====
-- After `ensureGroupOwner` a group with members has exactly one owner.
use voidchats_note2ee.Common.{
  ℕ, ◌<◌, ◌≡◌, refl, Bool, true, ◌&&◌, Option, none, some, List, [], ◌∷◌, ◌==◌, find, map, count,
  count-map, count_mono, arith, Option-cases, Bool-cases, inl, inr, includes, ==_refl, ==_iff,
  find_sound,
}
use voidchats_note2ee.Group.Rows.{
  group, Conversation, Member, Db, is_user, by_id, in_conversation, is_member, is_owner_role,
  get_member_rows, affected_ids, set_owner_row,
}
use voidchats_note2ee.Group.Owners.{
  order_members, pick_owner, repair_member, repair, is_consistent, settle_owner, ensure_group_owner,
}
use voidchats_note2ee.Group.Owners.Counts.{
  Keyed, is_owner_of, is_sole_owner, count-pick_owner, count-get_member_rows,
}

-- The owner column of a conversation.
unfoldable pub owner_column : ℕ → List Conversation → Option ℕ
owner_column c rows = elim (find (by_id c) rows) [ none ↦ none | some row ↦ row.owner_id ]

-- The user is the one owner of the conversation: by its owner column, by its own member row, and
-- by no other member row.
pub record OwnedBy (db : Db) (c u : ℕ) : Type 0 where
  pub column : owner_column c db.conversations ≡ some u
  pub sole : count (is_owner_of c) db.members ≡ 1
  pub member : count (is_sole_owner c u) db.members ≡ 1

-- The owner column after the UPDATE of the affected conversations.
pub owner_column-set :
    (now c u : ℕ) (ids : List ℕ) (rows : List Conversation) (row : Conversation)
    → includes c ids ≡ true
    → find (by_id c) rows ≡ some row
    → owner_column c (map (set_owner_row now u ids) rows) ≡ some u
unfolding owner_column
owner_column-set now c u ids [] row h e = cc
owner_column-set now c u ids (r ∷ rows) row h e =
    ground (arith, owner_column-set now c u ids rows row h)

pub affected-includes : (c : ℕ) (db : Db) → includes c (affected_ids c db) ≡ true
unfolding affected_ids
affected-includes c db = ground arith

repair-OwnedBy :
    (now c u : ℕ) (db : Db) (row : Conversation)
    → Keyed db.members
    → find (by_id c) db.conversations ≡ some row
    → 0 < count (is_member c u) db.members
    → OwnedBy (repair now c u db) c u
unfolding repair
repair-OwnedBy now c u db row keyed found here =
    let ids = affected_ids c db in
    let listed : includes c ids ≡ true = affected-includes c db in
    record {
      column = owner_column-set now c u ids db.conversations row listed found;
      sole = omega (
        arith,
        keyed c u,
        here,
        count-map (repair_member u ids) (is_owner_of c) (is_member c u) (λ m. ground arith)
            db.members,
      );
      member = omega (
        arith,
        keyed c u,
        here,
        count-map (repair_member u ids) (is_sole_owner c u) (is_member c u) (λ m. ground arith)
            db.members,
      );
    }

pick_owner-none :
    (configured : Option ℕ) (q : Member → Bool) (xs : List Member)
    → pick_owner configured xs ≡ none
    → count q xs ≡ 0
unfolding pick_owner
pick_owner-none configured q [] e = refl
pick_owner-none configured q (x ∷ xs) e =
    elim (Option-cases (find (λ m. is_user configured m.user_id) (x ∷ xs))) [
      | inr (a, found) ↦ absurd (cc (rw (found, pick_owner) at e))
      | inl absent ↦ elim (Option-cases (find (λ m. is_owner_role m.role) (x ∷ xs))) [
        | inr (a, found) ↦ absurd (cc (rw (absent, found, pick_owner) at e))
        | inl missing ↦ absurd (cc (rw (absent, missing, pick_owner) at e))
      ]
    ]

-- The consistent case needs no write.
consistent-OwnedBy :
    (c : ℕ) (db : Db) (row : Conversation) (chosen : Member)
    → find (by_id c) db.conversations ≡ some row
    → pick_owner row.owner_id (order_members (get_member_rows c db)) ≡ some chosen
    → is_consistent row chosen (order_members (get_member_rows c db)) ≡ true
    → OwnedBy db c chosen.user_id
unfolding is_consistent owner_column
consistent-OwnedBy c db row chosen found picked e =
    let u = chosen.user_id in
    let rows = order_members (get_member_rows c db) in
    let test : Member → Bool = λ m. m.user_id == u && is_owner_role m.role in
    let mine = count-pick_owner row.owner_id test rows picked (ground arith) in
    let same = count-get_member_rows c test db in
    let more =
      count_mono (λ m. in_conversation c m && test m) (is_sole_owner c u) (λ m h. ground arith)
        db.members in
    let less = count_mono (is_sole_owner c u) (is_owner_of c) (λ m h. ground arith) db.members in
    let owners = count-get_member_rows c (λ m. is_owner_role m.role) db in
    let one : count (λ (m : Member). is_owner_role m.role) rows ≡ 1 = ground arith in
    record {
      column = rw (found, owner_column) (ground arith);
      sole = omega arith;
      member = omega arith;
    }

picked-is-member :
    (c : ℕ) (db : Db) (row : Conversation) (chosen : Member)
    → pick_owner row.owner_id (order_members (get_member_rows c db)) ≡ some chosen
    → 0 < count (is_member c chosen.user_id) db.members
picked-is-member c db row chosen picked =
    let test : Member → Bool = λ m. m.user_id == chosen.user_id in
    omega (
      arith,
      count-pick_owner row.owner_id test (order_members (get_member_rows c db)) picked (==_refl _),
      count-get_member_rows c test db,
    )

settle_owner-OwnedBy :
    (now c : ℕ) (db : Db) (row : Conversation)
    → Keyed db.members
    → find (by_id c) db.conversations ≡ some row
    → row.id ≡ c
    → 0 < count (in_conversation c) db.members
    → (u : ℕ) × ((settle_owner now row (order_members (get_member_rows c db)) db).1.owner_user_id
        ≡ some u)
      × OwnedBy (settle_owner now row (order_members (get_member_rows c db)) db).0 c u
unfolding settle_owner
settle_owner-OwnedBy now c db row keyed found same here =
    let rows = order_members (get_member_rows c db) in
    elim (Option-cases (pick_owner row.owner_id rows)) [
      | inl empty ↦
          let zero_rows = pick_owner-none row.owner_id (in_conversation c) rows empty in
          let all = count-get_member_rows c (in_conversation c) db in
          let up =
            count_mono (in_conversation c) (λ m. in_conversation c m && in_conversation c m)
              (λ m h. ground arith) db.members in
          absurd (omega arith)
      | inr (chosen, picked) ↦ elim (Bool-cases (is_consistent row chosen rows)) [
        | inl fine ↦ (
          chosen.user_id,
          rw (picked, fine, settle_owner) refl,
          rw (picked, fine, settle_owner) (consistent-OwnedBy c db row chosen found picked fine),
        )
        | inr off ↦ (
          chosen.user_id,
          rw (picked, off, settle_owner) refl,
          rw (picked, off, same, settle_owner)
              (repair-OwnedBy now c chosen.user_id db row keyed found
                (picked-is-member c db row chosen picked)),
        )
      ]
    ]

-- In a group with members, and with at most one row for a user in a conversation, the user that
-- `ensureGroupOwner` returns is afterwards the group's one owner: in the owner column, in the
-- user's own row, and in no other row.
pub ensure_group_owner-OwnedBy :
    (now c : ℕ) (db : Db) (row : Conversation)
    → Keyed db.members
    → find (by_id c) db.conversations ≡ some row
    → row.kind ≡ group
    → 0 < count (in_conversation c) db.members
    → (u : ℕ) × ((ensure_group_owner now c db).1.owner_user_id ≡ some u)
      × OwnedBy (ensure_group_owner now c db).0 c u
unfolding ensure_group_owner
ensure_group_owner-OwnedBy now c db row keyed found kind here =
    let same : row.id ≡ c = (==_iff row.id c).0 (find_sound (by_id c) db.conversations row found) in
    rw (found, kind, ensure_group_owner) (settle_owner-OwnedBy now c db row keyed found same here)
