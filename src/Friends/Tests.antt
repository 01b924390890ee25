-- ===== src/Friends/Tests.antt =====
-- Runs of the friendship routes, and the theorems at concrete tables.
use voidchats_note2ee.Common.{◌≤◌, ◌≡◌, ◌⊎◌, refl, true, false, some, [], ◌∷◌, count, arith}
use voidchats_note2ee.Friends.{
  pending, accepted, Friendship, Friendships, joins, finish_request, send_request, accept_request,
  reject_request, cancel_request, remove_friendship, remove_friend, send, accept, run_action,
  are_friends, failed, DmStore,
}
use voidchats_note2ee.Friends.Laws.{IsTidy, run_action-IsTidy}
use voidchats_note2ee.Friends.Consent.{
  without_consent, run_action_consent, accept_request_befriends, remove_friendship_ends,
}
use voidchats_note2ee.Friends.Race.{crossed, crossed_requests}

runs : Unit {0}
unfolding run_action remove_friend are_friends crossed
runs = tt

abbrev ask : Friendship
ask = record { id = 1; requester_id = 10; addressee_id = 20; status = pending }

abbrev agreed : Friendship
agreed = record ask { status = accepted }

abbrev empty : Friendships
empty = record { rows = []; next_id = 1 }

abbrev asked : Friendships
asked = record { rows = ask ∷ []; next_id = 2 }

abbrev friends : Friendships
friends = record { rows = agreed ∷ []; next_id = 2 }

asking :
    ((send_request (some 10) (some 20) empty).table ≡ asked)
    × ((send_request (some 20) (some 10) asked).reply ≡ failed 400)
    × ((send_request (some 10) (some 10) empty).reply ≡ failed 400)
    × ((accept_request (some 10) 1 asked).reply ≡ failed 404)
    × ((accept_request (some 20) 1 asked).table ≡ friends)
    × ((cancel_request (some 20) 1 asked).reply ≡ failed 404)
    × ((cancel_request (some 10) 1 asked).table ≡ record { rows = []; next_id = 2 })
    × ((reject_request (some 20) 1 asked).table ≡ record { rows = []; next_id = 2 })
unfolding runs
asking = (refl, refl, refl, refl, refl, refl, refl, refl)

abbrev dms : DmStore
dms = record {
  pairs = record { user_a = 10; user_b = 20; conversation_id = 5 } ∷ [];
  members =
      record { conversation_id = 5; user_id = 10; is_hidden = false }
      ∷ record { conversation_id = 5; user_id = 20; is_hidden = false }
      ∷ record { conversation_id = 6; user_id = 10; is_hidden = false }
      ∷ [];
}

removing :
    (remove_friend (some 20) 1 friends dms).1.members
    ≡ record { conversation_id = 5; user_id = 10; is_hidden = true }
      ∷ record { conversation_id = 5; user_id = 20; is_hidden = true }
      ∷ record { conversation_id = 6; user_id = 10; is_hidden = false }
      ∷ []
unfolding runs
removing = refl

empty-IsTidy : IsTidy empty
empty-IsTidy = record { single = λ a b. omega arith; no_self = λ a. refl }

friends-IsTidy : IsTidy friends
friends-IsTidy = record { single = λ a b. ground arith; no_self = λ a. ground arith }

run_action-IsTidy_example : IsTidy (run_action (some 10) (send (some 20)) empty).table
run_action-IsTidy_example = run_action-IsTidy (some 10) (send (some 20)) empty empty-IsTidy

run_action_consent_example :
    count (without_consent 10 10 20) (run_action (some 10) (accept 1) asked).table.rows
    ≤ count (without_consent 10 10 20) asked.rows
run_action_consent_example = run_action_consent 10 10 20 (accept 1) asked

accept_request_befriends_example :
    (agreed.addressee_id ≡ 20)
    × (agreed.id ≡ 1)
    × (are_friends agreed.requester_id 20 (accept_request (some 20) 1 asked).table ≡ true)
unfolding runs
accept_request_befriends_example = accept_request_befriends 20 1 asked agreed refl

remove_friendship_ends_example :
    ((agreed.requester_id ≡ 10) ⊎ (agreed.addressee_id ≡ 10))
    × (agreed.status ≡ accepted)
    × (are_friends agreed.requester_id agreed.addressee_id
          (remove_friendship (some 10) 1 friends).table
        ≡ false)
unfolding runs
remove_friendship_ends_example = remove_friendship_ends 10 1 friends agreed friends-IsTidy refl

crossed_requests_example :
    (send_request (some 10) (some 20) empty ≡ finish_request 10 20 empty)
    × (send_request (some 20) (some 10) empty ≡ finish_request 20 10 empty)
    × (count (joins 10 20) (crossed 10 20 empty).rows ≡ 2)
crossed_requests_example = crossed_requests 10 20 empty (omega arith) refl
