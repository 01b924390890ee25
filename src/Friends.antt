-- ===== src/Friends.antt =====
-- VOID0000-api/server/routes/friends/actions.ts and remove.ts over the `friendships` table of
-- VOID0000-api/db/migrations/0000_core_schema.sql. A user, profile or friendship identifier is a
-- number; the answers' profile details and the presence lookups are left out, since they change
-- no state. The database's own failures (answered by 500) are not modelled.
pub mod Laws
pub mod Consent
pub mod Race
pub mod Tests
use voidchats_note2ee.Common.{
  ℕ, suc, ◌+◌, Bool, true, false, not, ◌&&◌, ◌||◌, Option, none, some, List, [], ◌∷◌, ◌++◌, ◌==◌,
  if◌then◌else◌, find, keep, first, map, min, max,
}

pub data Status : Type 0 where
  pending accepted blocked : Status

pub record Friendship : Type 0 where
  pub id : ℕ
  pub requester_id : ℕ
  pub addressee_id : ℕ
  pub status : Status

abbrev pub is_pending : Status → Bool
is_pending pending = true
is_pending _ = false

abbrev pub is_accepted : Status → Bool
is_accepted accepted = true
is_accepted _ = false

-- The table, and the next value of its serial key.
pub record Friendships : Type 0 where
  pub rows : List Friendship
  pub next_id : ℕ

-- The row joins the two users, in either direction.
abbrev pub joins : ℕ → ℕ → Friendship → Bool
joins a b f =
    f.requester_id == a && f.addressee_id == b || f.requester_id == b && f.addressee_id == a

abbrev pub same_direction : ℕ → ℕ → Friendship → Bool
same_direction a b f = f.requester_id == a && f.addressee_id == b

pub data Event : Type 0 where
  friend_request : (to friendship from : ℕ) → Event
  friend_accept : (to friendship friend : ℕ) → Event
  dm_hidden : (to conversation : ℕ) → Event
  friend_remove : (to friendship removed_by : ℕ) → Event

pub data Reply : Type 0 where
  failed : (status : ℕ) → Reply
  sent accepted_reply rejected cancelled removed : Friendship → Reply

pub record Answer : Type 0 where
  pub table : Friendships
  pub reply : Reply
  pub events : List Event

abbrev refuse : Friendships → ℕ → Answer
refuse t status = record { table = t; reply = failed status; events = [] }

-- `INSERT … RETURNING *`; `none` is the violation of UNIQUE (requester_id, addressee_id).
unfoldable pub insert_request : ℕ → ℕ → Friendships → Option (Friendship × Friendships)
insert_request requester addressee t = elim (find (same_direction requester addressee) t.rows) [
  | some row ↦ none
  | none ↦
      let row : Friendship = record {
        id = t.next_id;
        requester_id = requester;
        addressee_id = addressee;
        status = pending;
      } in
      some (row, record { rows = t.rows ++ row ∷ []; next_id = suc t.next_id })
]

-- The INSERT of the request route and its answer.
unfoldable pub finish_request : ℕ → ℕ → Friendships → Answer
unfolding insert_request
finish_request requester addressee t = elim (insert_request requester addressee t) [
  | none ↦ refuse t 500
  | some (row, t') ↦ record {
    table = t';
    reply = sent row;
    events = friend_request addressee row.id requester ∷ [];
  }
]

-- `POST /request/:profileId`; `lookup_profile` is the SELECT on `users`.
unfoldable pub send_request : Option ℕ → Option ℕ → Friendships → Answer
unfolding finish_request
send_request none lookup_profile t = refuse t 401
send_request (some requester) none t = refuse t 404
send_request (some requester) (some addressee) t =
    if requester == addressee
    then refuse t 400
    else elim (first (keep (joins requester addressee) t.rows)) [
      | some existing ↦ refuse t 400
      | none ↦ finish_request requester addressee t
    ]

-- The rows with the identifier that pass a test, and the table without them.
abbrev matched : ℕ → (Friendship → Bool) → Friendships → Option Friendship
matched id test t = find (λ f. f.id == id && test f) t.rows

abbrev pub accept_row : ℕ → (Friendship → Bool) → Friendship → Friendship
accept_row id test f = if f.id == id && test f then record f { status = accepted } else f

abbrev drop_rows : ℕ → (Friendship → Bool) → Friendships → Friendships
drop_rows id test t = record {
  rows = keep (λ f. not (f.id == id && test f)) t.rows;
  next_id = t.next_id;
}

abbrev pub to_accept : ℕ → Friendship → Bool
to_accept user f = f.addressee_id == user && is_pending f.status

abbrev pub to_cancel : ℕ → Friendship → Bool
to_cancel user f = f.requester_id == user && is_pending f.status

abbrev pub to_remove : ℕ → Friendship → Bool
to_remove user f = (f.requester_id == user || f.addressee_id == user) && is_accepted f.status

-- `POST /accept/:friendshipId`
unfoldable pub accept_request : Option ℕ → ℕ → Friendships → Answer
accept_request none id t = refuse t 401
accept_request (some user) id t = elim (matched id (to_accept user) t) [
  | none ↦ refuse t 404
  | some f ↦ record {
    table = record { rows = map (accept_row id (to_accept user)) t.rows; next_id = t.next_id };
    reply = accepted_reply (record f { status = accepted });
    events = friend_accept f.requester_id f.id user ∷ friend_accept user f.id f.requester_id ∷ [];
  }
]

-- `POST /reject/:friendshipId`
unfoldable pub reject_request : Option ℕ → ℕ → Friendships → Answer
reject_request none id t = refuse t 401
reject_request (some user) id t = elim (matched id (to_accept user) t) [
  | none ↦ refuse t 404
  | some f ↦ record { table = drop_rows id (to_accept user) t; reply = rejected f; events = [] }
]

-- `POST /cancel/:friendshipId`
unfoldable pub cancel_request : Option ℕ → ℕ → Friendships → Answer
cancel_request none id t = refuse t 401
cancel_request (some user) id t = elim (matched id (to_cancel user) t) [
  | none ↦ refuse t 404
  | some f ↦ record { table = drop_rows id (to_cancel user) t; reply = cancelled f; events = [] }
]

abbrev pub other_user : ℕ → Friendship → ℕ
other_user user f = if f.requester_id == user then f.addressee_id else f.requester_id

-- `DELETE /:friendshipId`, up to its first event.
unfoldable pub remove_friendship : Option ℕ → ℕ → Friendships → Answer
remove_friendship none id t = refuse t 401
remove_friendship (some user) id t = elim (matched id (to_remove user) t) [
  | none ↦ refuse t 404
  | some f ↦ record {
    table = drop_rows id (to_remove user) t;
    reply = removed f;
    events = friend_remove (other_user user f) f.id user ∷ [];
  }
]

-- The rows of `dm_pairs` and of `conversation_members` that hiding a DM reads and writes.
pub record DmPair : Type 0 where
  pub user_a : ℕ
  pub user_b : ℕ
  pub conversation_id : ℕ

pub record DmMember : Type 0 where
  pub conversation_id : ℕ
  pub user_id : ℕ
  pub is_hidden : Bool

pub record DmStore : Type 0 where
  pub pairs : List DmPair
  pub members : List DmMember

-- The member row belongs to the DM of the two users, whose pair is stored in sorted order.
unfoldable pub in_dm : ℕ → ℕ → List DmPair → DmMember → Bool
in_dm a b pairs m =
    elim (find
      (λ (p : DmPair).
        p.conversation_id == m.conversation_id && p.user_a == min a b && p.user_b == max a b)
      pairs) [ none ↦ false | some p ↦ true ]

abbrev hide : DmMember → DmMember
hide m = record m { is_hidden = true }

-- `hideDmForBoth`: the new store, and the rows that it returns.
unfoldable pub hide_dm_for_both : ℕ → ℕ → DmStore → DmStore × List DmMember
unfolding in_dm
hide_dm_for_both a b s = (
  record {
    pairs = s.pairs;
    members = map (λ m. if in_dm a b s.pairs m then hide m else m) s.members;
  },
  map hide (keep (in_dm a b s.pairs) s.members),
)

abbrev hidden_events : ℕ → ℕ → List DmMember → List Event
hidden_events user other [] = []
hidden_events user other (m ∷ ms) =
    dm_hidden user m.conversation_id ∷ dm_hidden other m.conversation_id ∷ []

-- The rest of the route, after the friendship's row is gone.
unfoldable pub hide_after : ℕ → Answer → Friendship → DmStore → Answer × DmStore
unfolding hide_dm_for_both
hide_after user answer f s =
    let (s', hidden) = hide_dm_for_both user (other_user user f) s in
    (record answer { events = answer.events ++ hidden_events user (other_user user f) hidden }, s')

abbrev after_removal : Option ℕ → Answer → Reply → DmStore → Answer × DmStore
after_removal (some user) answer (removed f) s = hide_after user answer f s
after_removal _ answer _ s = (answer, s)

-- The whole of `DELETE /:friendshipId`.
unfoldable pub remove_friend : Option ℕ → ℕ → Friendships → DmStore → Answer × DmStore
unfolding remove_friendship hide_after
remove_friend user id t s =
    let answer = remove_friendship user id t in after_removal user answer answer.reply s

-- One request to the routes, by its user.
pub data Action : Type 0 where
  send : (profile_owner : Option ℕ) → Action
  accept reject cancel remove : (id : ℕ) → Action

unfoldable pub run_action : Option ℕ → Action → Friendships → Answer
unfolding send_request accept_request reject_request cancel_request remove_friendship
run_action user (send profile_owner) t = send_request user profile_owner t
run_action user (accept id) t = accept_request user id t
run_action user (reject id) t = reject_request user id t
run_action user (cancel id) t = cancel_request user id t
run_action user (remove id) t = remove_friendship user id t

-- The SELECT of `validateFriendships`: the two are accepted friends.
unfoldable pub are_friends : ℕ → ℕ → Friendships → Bool
are_friends a b t = elim (find (λ f. joins a b f && is_accepted f.status) t.rows) [
  | none ↦ false
  | some f ↦ true
]
