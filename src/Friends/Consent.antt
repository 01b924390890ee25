-- ===== src/Friends/Consent.antt =====
-- Who can make two users friends, and what ends it.
use voidchats_note2ee.Common.{
  ℕ, ◌≤◌, ◌≡◌, refl, Bool, true, false, not, ◌&&◌, none, some, [], ◌∷◌, ◌==◌, find, keep, first,
  map, count, count-append, find-count, find_sound, count-map, arith, Option-cases, Bool-cases, inl,
  inr, ◌⊎◌, count_mono, find_of_count, none_of_count, count_split, is_some, count-keep_le,
}
use voidchats_note2ee.Friends.{
  pending, accepted, Friendship, is_accepted, Friendships, joins, same_direction, insert_request,
  finish_request, accept_row, to_accept, to_cancel, to_remove, accept_request, reject_request,
  cancel_request, remove_friendship, Action, send, accept, reject, cancel, remove, run_action,
  are_friends, accepted_reply, removed,
}
use voidchats_note2ee.Friends.Laws.{IsTidy}

-- An accepted row between two users whose addressee is not the user who acts.
abbrev pub without_consent : ℕ → ℕ → ℕ → Friendship → Bool
without_consent user a b f = is_accepted f.status && (not (f.addressee_id == user) && joins a b f)

without_consent-accept_row :
    (user a b id : ℕ) (f : Friendship)
    → without_consent user a b (accept_row id (to_accept user) f) ≡ without_consent user a b f
without_consent-accept_row user a b id f = ground arith

finish_consent :
    (user a b r d : ℕ) (t : Friendships)
    → count (without_consent user a b) (finish_request r d t).table.rows
      ≤ count (without_consent user a b) t.rows
unfolding finish_request
finish_consent user a b r d t = elim (Option-cases (find (same_direction r d) t.rows)) [
  | inr (row, taken) ↦ rw (taken, finish_request, insert_request) (omega arith)
  | inl absent ↦
      rw (absent, finish_request, insert_request)
        (let row : Friendship = record {
          id = t.next_id;
          requester_id = r;
          addressee_id = d;
          status = pending;
        } in
          ground (arith, count-append (without_consent user a b) t.rows (row ∷ [])))
]

-- No request of a user creates a friendship between two users that is addressed to someone else:
-- the accepted rows with another addressee never grow in number, so a friendship arises only by
-- the act of the user to whom the request was sent.
pub run_action_consent :
    (user a b : ℕ) (action : Action) (t : Friendships)
    → count (without_consent user a b) (run_action (some user) action t).table.rows
      ≤ count (without_consent user a b) t.rows
unfolding run_action
run_action_consent user a b (send none) t = omega arith
run_action_consent user a b (send (some d)) t = elim (Bool-cases (user == d)) [
  | inl same ↦ rw same (omega arith)
  | inr differ ↦ elim (Option-cases (first (keep (joins user d) t.rows))) [
    | inr (row, taken) ↦ rw (differ, taken) (omega arith)
    | inl free ↦ rw (differ, free) (finish_consent user a b user d t)
  ]
]
run_action_consent user a b (accept id) t =
    elim (Option-cases (find (λ f. f.id == id && to_accept user f) t.rows)) [
      | inl absent ↦ rw (absent, accept_request) (omega arith)
      | inr (f, found) ↦
          rw (found, accept_request)
            (omega (
              arith,
              count-map (accept_row id (to_accept user)) (without_consent user a b)
                  (without_consent user a b) (without_consent-accept_row user a b id) t.rows,
            ))
    ]
run_action_consent user a b (reject id) t =
    elim (Option-cases (find (λ f. f.id == id && to_accept user f) t.rows)) [
      | inl absent ↦ rw (absent, reject_request) (omega arith)
      | inr (f, found) ↦ rw (found, reject_request) (count-keep_le _ _ t.rows)
    ]
run_action_consent user a b (cancel id) t =
    elim (Option-cases (find (λ f. f.id == id && to_cancel user f) t.rows)) [
      | inl absent ↦ rw (absent, cancel_request) (omega arith)
      | inr (f, found) ↦ rw (found, cancel_request) (count-keep_le _ _ t.rows)
    ]
run_action_consent user a b (remove id) t =
    elim (Option-cases (find (λ f. f.id == id && to_remove user f) t.rows)) [
      | inl absent ↦ rw (absent, remove_friendship) (omega arith)
      | inr (f, found) ↦ rw (found, remove_friendship) (count-keep_le _ _ t.rows)
    ]

are_friends_of_find :
    (a b : ℕ) (t : Friendships)
    → is_some (find (λ f. joins a b f && is_accepted f.status) t.rows) ≡ true
    → are_friends a b t ≡ true
unfolding are_friends
are_friends_of_find a b t h = ground arith

not_friends_of_find :
    (a b : ℕ) (t : Friendships)
    → find (λ f. joins a b f && is_accepted f.status) t.rows ≡ none
    → are_friends a b t ≡ false
unfolding are_friends
not_friends_of_find a b t h = rw (h, are_friends)

accept_row_lands :
    (user id : ℕ) (t : Friendships) (g : Friendship)
    → find (λ f. f.id == id && to_accept user f) t.rows ≡ some g
    → are_friends g.requester_id user
        (record { rows = map (accept_row id (to_accept user)) t.rows; next_id = t.next_id })
      ≡ true
accept_row_lands user id t g found =
    let fits = find_sound _ t.rows g found in
    let test : Friendship → Bool = λ f. joins g.requester_id user f && is_accepted f.status in
    let after : Friendship → Bool = λ f. test (accept_row id (to_accept user) f) in
    let here = find-count _ after t.rows found (ground arith) in
    are_friends_of_find g.requester_id user _ (
      find_of_count test (map (accept_row id (to_accept user)) t.rows)
        (rw (count-map (accept_row id (to_accept user)) test after (λ f. refl) t.rows) here))

-- The row that an acceptance returns was addressed to the user, and afterwards its sender and the
-- user are friends.
pub accept_request_befriends :
    (user id : ℕ) (t : Friendships) (f : Friendship)
    → (accept_request (some user) id t).reply ≡ accepted_reply f
    → (f.addressee_id ≡ user)
      × (f.id ≡ id)
      × (are_friends f.requester_id user (accept_request (some user) id t).table ≡ true)
unfolding accept_request
accept_request_befriends user id t f e =
    elim (Option-cases (find (λ g. g.id == id && to_accept user g) t.rows)) [
      | inl absent ↦ absurd (cc (rw (absent, accept_request) at e))
      | inr (g, found) ↦
          let fits = find_sound _ t.rows g found in
          let e' : accepted_reply (record g { status = accepted }) ≡ accepted_reply f =
            rw (found, accept_request) at e in
          let sender : f.requester_id ≡ g.requester_id = ground arith in
          (
            ground arith,
            ground arith,
            rw (found, sender, accept_request) (accept_row_lands user id t g found),
          )
    ]

drop_ends :
    (a b : ℕ) (q : Friendship → Bool) (t : Friendships) (g : Friendship)
    → IsTidy t
    → find q t.rows ≡ some g
    → joins a b g ≡ true
    → are_friends a b (record { rows = keep (λ f. not (q f)) t.rows; next_id = t.next_id }) ≡ false
drop_ends a b q t g h found party =
    let rest = keep (λ f. not (q f)) t.rows in
    let test : Friendship → Bool = λ f. joins a b f && is_accepted f.status in
    let fits = find_sound q t.rows g found in
    let here = find-count q (λ f. q f && joins a b f) t.rows found (ground arith) in
    let split = count_split (joins a b) q t.rows in
    let single = h.single a b in
    let fewer = count_mono test (joins a b) (λ f k. ground arith) rest in
    not_friends_of_find a b _ (none_of_count test rest (omega arith))

-- A removal is by one of the two friends, and on a tidy table they are no longer friends after it.
pub remove_friendship_ends :
    (user id : ℕ) (t : Friendships) (f : Friendship)
    → IsTidy t
    → (remove_friendship (some user) id t).reply ≡ removed f
    → ((f.requester_id ≡ user) ⊎ (f.addressee_id ≡ user))
      × (f.status ≡ accepted)
      × (are_friends f.requester_id f.addressee_id (remove_friendship (some user) id t).table
          ≡ false)
unfolding remove_friendship
remove_friendship_ends user id t f h e =
    elim (Option-cases (find (λ g. g.id == id && to_remove user g) t.rows)) [
      | inl absent ↦ absurd (cc (rw (absent, remove_friendship) at e))
      | inr (g, found) ↦
          let fits = find_sound _ t.rows g found in
          let e' : removed g ≡ removed f = rw (found, remove_friendship) at e in
          let same : f ≡ g = cc in
          (
            ground arith,
            ground arith,
            rw (found, remove_friendship, same)
                (drop_ends g.requester_id g.addressee_id _ t g h found (ground arith)),
          )
    ]
