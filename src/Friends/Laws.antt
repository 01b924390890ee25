-- ===== src/Friends/Laws.antt =====
-- One row for each pair of users, and consent, under one request at a time.
use voidchats_note2ee.Common.{
  ℕ, ◌≤◌, ◌≡◌, ◌≢◌, refl, Bool, ◌&&◌, Option, none, some, List, [], ◌∷◌, ◌==◌, find, keep, first,
  map, count, count-append, count_congr, count-map, count-keep_le, arith, Option-cases, Bool-cases,
  inl, inr,
}
use voidchats_note2ee.Friends.{
  pending, Friendship, Friendships, joins, same_direction, insert_request, finish_request,
  send_request, accept_row, to_accept, to_cancel, to_remove, accept_request, reject_request,
  cancel_request, remove_friendship, Action, send, accept, reject, cancel, remove, run_action,
}

-- Accepting a row changes neither of its users.
joins-accept_row :
    (a b id : ℕ) (test : Friendship → Bool) (f : Friendship)
    → joins a b (accept_row id test f) ≡ joins a b f
joins-accept_row a b id test f = ground arith

none-of_first :
    (p : Friendship → Bool) (rows : List Friendship) → first (keep p rows) ≡ none → count p rows ≡ 0
none-of_first p [] h = refl
none-of_first p (f ∷ rows) h = ground (arith, none-of_first p rows)

joins_comm : (a b : ℕ) (f : Friendship) → joins a b f ≡ joins b a f
joins_comm a b f = ground arith

-- At most one row joins two users, and none joins a user to itself.
pub record IsTidy (t : Friendships) : Type 0 where
  pub single : (a b : ℕ) → count (joins a b) t.rows ≤ 1
  pub no_self : (a : ℕ) → count (joins a a) t.rows ≡ 0

finish_request-IsTidy :
    (r d : ℕ) (t : Friendships)
    → r ≢ d
    → count (joins r d) t.rows ≡ 0
    → IsTidy t
    → IsTidy (finish_request r d t).table
unfolding finish_request
finish_request-IsTidy r d t apart free h = elim (Option-cases (find (same_direction r d) t.rows)) [
  | inr (row, taken) ↦ rw (taken, finish_request, insert_request) h
  | inl absent ↦
      rw (absent, finish_request, insert_request)
        (record {
          single = λ a b.
              let row : Friendship = record {
                id = t.next_id;
                requester_id = r;
                addressee_id = d;
                status = pending;
              } in
              ground (
                arith,
                count-append (joins a b) t.rows (row ∷ []),
                h.single a b,
                free,
                count_congr (joins d r) (joins r d) (joins_comm d r) t.rows,
              );
          no_self = λ a.
              let row : Friendship = record {
                id = t.next_id;
                requester_id = r;
                addressee_id = d;
                status = pending;
              } in
              ground (arith, count-append (joins a a) t.rows (row ∷ []), h.no_self a);
        })
]

send_request-IsTidy :
    (user owner : Option ℕ) (t : Friendships) → IsTidy t → IsTidy (send_request user owner t).table
unfolding send_request
send_request-IsTidy none owner t h = h
send_request-IsTidy (some r) none t h = h
send_request-IsTidy (some r) (some d) t h = elim (Bool-cases (r == d)) [
  | inl same ↦ rw same h
  | inr differ ↦ elim (Option-cases (first (keep (joins r d) t.rows))) [
    | inr (row, taken) ↦ rw (differ, taken) h
    | inl free ↦
        rw (differ, free)
          (finish_request-IsTidy r d t (ground arith) (none-of_first (joins r d) t.rows free) h)
  ]
]

-- Accepting or dropping rows keeps the table tidy.
accepted-IsTidy :
    (id : ℕ) (test : Friendship → Bool) (t : Friendships)
    → IsTidy t
    → IsTidy (record { rows = map (accept_row id test) t.rows; next_id = t.next_id })
accepted-IsTidy id test t h = record {
  single = λ a b. omega (
    arith,
    count-map (accept_row id test) (joins a b) (joins a b) (joins-accept_row a b id test) t.rows,
    h.single a b,
  );
  no_self = λ a. omega (
    arith,
    count-map (accept_row id test) (joins a a) (joins a a) (joins-accept_row a a id test) t.rows,
    h.no_self a,
  );
}

kept-IsTidy :
    (q : Friendship → Bool) (t : Friendships)
    → IsTidy t
    → IsTidy (record { rows = keep q t.rows; next_id = t.next_id })
kept-IsTidy q t h = record {
  single = λ a b. omega (arith, count-keep_le (joins a b) q t.rows, h.single a b);
  no_self = λ a. omega (arith, count-keep_le (joins a a) q t.rows, h.no_self a);
}

-- Requests that are served one after the other keep at most one row for each two users, and none
-- from a user to itself: every route, on each of its branches, whoever calls it.
pub run_action-IsTidy :
    (user : Option ℕ) (action : Action) (t : Friendships)
    → IsTidy t
    → IsTidy (run_action user action t).table
unfolding run_action
run_action-IsTidy user (send owner) t h = send_request-IsTidy user owner t h
run_action-IsTidy none (accept id) t h = h
run_action-IsTidy (some u) (accept id) t h =
    elim (Option-cases (find (λ f. f.id == id && to_accept u f) t.rows)) [
      | inl absent ↦ rw (absent, accept_request) h
      | inr (f, found) ↦ rw (found, accept_request) (accepted-IsTidy id (to_accept u) t h)
    ]
run_action-IsTidy none (reject id) t h = h
run_action-IsTidy (some u) (reject id) t h =
    elim (Option-cases (find (λ f. f.id == id && to_accept u f) t.rows)) [
      | inl absent ↦ rw (absent, reject_request) h
      | inr (f, found) ↦ rw (found, reject_request) (kept-IsTidy _ t h)
    ]
run_action-IsTidy none (cancel id) t h = h
run_action-IsTidy (some u) (cancel id) t h =
    elim (Option-cases (find (λ f. f.id == id && to_cancel u f) t.rows)) [
      | inl absent ↦ rw (absent, cancel_request) h
      | inr (f, found) ↦ rw (found, cancel_request) (kept-IsTidy _ t h)
    ]
run_action-IsTidy none (remove id) t h = h
run_action-IsTidy (some u) (remove id) t h =
    elim (Option-cases (find (λ f. f.id == id && to_remove u f) t.rows)) [
      | inl absent ↦ rw (absent, remove_friendship) h
      | inr (f, found) ↦ rw (found, remove_friendship) (kept-IsTidy _ t h)
    ]
