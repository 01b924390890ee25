-- ===== src/Friends/Race.antt =====
-- Two crossed requests: the SELECT of `POST /request/:profileId` and its INSERT are two
-- statements, and the table's only unique key is the directed pair.
use voidchats_note2ee.Common.{
  ℕ, suc, ◌≡◌, ◌≢◌, refl, sym, ap, ◌∙◌, Bool, none, some, List, [], ◌∷◌, ◌++◌, keep, first, count,
  count-append, count_mono, arith, none_of_count, count_congr,
}
use voidchats_note2ee.Friends.{
  pending, Friendship, Friendships, joins, same_direction, insert_request, finish_request,
  send_request,
}

-- The table after the requests of `a` and `b` to each other, where both have read the table
-- before either writes.
unfoldable pub crossed : ℕ → ℕ → Friendships → Friendships
crossed a b t = (finish_request b a (finish_request a b t).table).table

unjoined :
    (p : Friendship → Bool) (rows : List Friendship) → count p rows ≡ 0 → first (keep p rows) ≡ none
unjoined p [] h = refl
unjoined p (f ∷ rows) h = ground (arith, unjoined p rows)

finish_appends :
    (a b : ℕ) (t : Friendships)
    → count (same_direction a b) t.rows ≡ 0
    → (finish_request a b t).table ≡ record {
      rows =
          t.rows
          ++ (record { id = t.next_id; requester_id = a; addressee_id = b; status = pending }) ∷ [];
      next_id = suc t.next_id;
    }
unfolding finish_request
finish_appends a b t free =
    rw (none_of_count (same_direction a b) t.rows free, finish_request, insert_request)

no_direction :
    (a b : ℕ) (t : Friendships)
    → count (joins a b) t.rows ≡ 0
    → count (same_direction a b) t.rows ≡ 0
no_direction a b t free =
    omega (arith, free, count_mono (same_direction a b) (joins a b) (λ f h. ground arith) t.rows)

passes :
    (a b : ℕ) (t : Friendships)
    → a ≢ b
    → count (joins a b) t.rows ≡ 0
    → send_request (some a) (some b) t ≡ finish_request a b t
unfolding send_request
passes a b t apart free = ground (arith, unjoined (joins a b) t.rows free)

-- For two different users that no row joins, each of the crossed requests passes its check on the
-- table that both read, and after both have written two rows join the users.
pub crossed_requests :
    (a b : ℕ) (t : Friendships)
    → a ≢ b
    → count (joins a b) t.rows ≡ 0
    → (send_request (some a) (some b) t ≡ finish_request a b t)
      × (send_request (some b) (some a) t ≡ finish_request b a t)
      × (count (joins a b) (crossed a b t).rows ≡ 2)
unfolding crossed
crossed_requests a b t apart free =
    let row : ℕ → ℕ → ℕ → Friendship =
      λ i x y. record { id = i; requester_id = x; addressee_id = y; status = pending } in
    let back : count (joins b a) t.rows ≡ 0 =
      count_congr (joins b a) (joins a b) (λ f. ground arith) t.rows ∙ free in
    let once : Friendships = record {
      rows = t.rows ++ row t.next_id a b ∷ [];
      next_id = suc t.next_id;
    } in
    let first_row = finish_appends a b t (no_direction a b t free) in
    let still = count-append (same_direction b a) t.rows (row t.next_id a b ∷ []) in
    let second_row = finish_appends b a once (ground (arith, no_direction b a t back)) in
    let one = count-append (joins a b) t.rows (row t.next_id a b ∷ []) in
    let two = count-append (joins a b) once.rows (row once.next_id b a ∷ []) in
    let both = ap (λ (u : Friendships). (finish_request b a u).table) first_row ∙ second_row in
    (
      passes a b t apart free,
      passes b a t (λ e. apart (sym e)) back,
      ap (λ (u : Friendships). count (joins a b) u.rows) both ∙ ground arith,
    )
