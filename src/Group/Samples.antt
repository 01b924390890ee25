-- ===== src/Group/Samples.antt =====
-- A group with one channel, for the tests.
use voidchats_note2ee.Common.{ℕ, Option, none, some, List, [], ◌∷◌}
use voidchats_note2ee.Friends.{accepted}
use voidchats_note2ee.Group.Permissions.{GroupRole, owner, admin, member}
use voidchats_note2ee.Group.Rows.{group, channel, Conversation, Member, Db}

abbrev pub row : ℕ → ℕ → GroupRole → Member
row c u role = record { conversation_id = c; user_id = u; role = role; joined_at = some u }

abbrev pub team : Option ℕ → Conversation
team owner_id = record {
  id = 1;
  public_id = some 77;
  kind = group;
  owner_id = owner_id;
  parent = none;
  permissions = none;
  updated_at = 0;
}

abbrev pub general : Conversation
general = record {
  id = 2;
  public_id = none;
  kind = channel;
  owner_id = some 10;
  parent = some 1;
  permissions = none;
  updated_at = 0;
}

abbrev pub with_members : Option ℕ → List Member → Db
with_members owner_id members = record {
  conversations = team owner_id ∷ general ∷ [];
  members = members;
  friendships = record {
    rows = record { id = 1; requester_id = 10; addressee_id = 40; status = accepted } ∷ [];
    next_id = 2;
  };
}

-- User 10 owns, 20 is an admin and 30 a member, in the group and in its channel.
abbrev pub sample : Db
sample = with_members (some 10) (
    row 1 10 owner
    ∷ row 1 20 admin
    ∷ row 1 30 member
    ∷ row 2 10 owner
    ∷ row 2 20 admin
    ∷ row 2 30 member
    ∷ [])

-- The owner's row is missing.
abbrev pub ownerless : Db
ownerless = with_members (some 10) (row 1 20 admin ∷ row 1 30 member ∷ row 2 30 member ∷ [])
