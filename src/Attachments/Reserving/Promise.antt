-- ===== src/Attachments/Reserving/Promise.antt =====
-- What `reserveForMessage` promises: all the wanted attachments or none, of their own uploader, and
-- never one that another reservation holds.
use voidchats_note2ee.Common.{
  ℕ, ◌≡◌, refl, ◌∙◌, Bool, true, not, ◌&&◌, some, is_some, List, [], ◌∷◌, ◌==◌, arith, every, any,
  every_opposite, every-find, keep, includes, length, Bool-cases, Option-cases, inl, inr, map,
}
use voidchats_note2ee.Attachments.Rows.{
  Attachment, ReservationIdentity, given, bind_given, has_id, row_of, is_among, is_staged,
  is_reserved, is_committed, at_most,
}
use voidchats_note2ee.Attachments.Reserving.{
  assert_exact_rows, classify_rows, classify_used, classify_attachment_reservation, is_owned_by,
  is_of_reservation, free, committed_to, reserved_for, Classification, distinct, message_text,
  first_message,
}
use voidchats_note2ee.Attachments.Reserving.Exact.{Keyed, exact_rows-find, exact_rows-some}

every_and {ℓ} :
    {A : Type ℓ} (p q : A → Bool) (xs : List A)
    → every p xs ≡ true
    → every q xs ≡ true
    → every (λ x. p x && q x) xs ≡ true
every_and p q [] h k = refl
every_and p q (x ∷ xs) h k = ground (arith, every_and p q xs)

-- What a classification says of each row.
abbrev pub fits_class : Classification → (reservation now : ℕ) → Attachment → Bool
fits_class free reservation now r = is_staged r.status && not (at_most r.expires_at now)
fits_class (committed_to m) reservation now r =
    is_of_reservation reservation r && is_committed r.status
fits_class (reserved_for m late) reservation now r =
    is_of_reservation reservation r && is_reserved r.status

used-every :
    (reservation now : ℕ) (rows : List Attachment) (c : Classification)
    → classify_used reservation now rows ≡ given c
    → every (fits_class c reservation now) rows ≡ true
unfolding classify_used
used-every reservation now rows c h =
    elim (Bool-cases (
      every (is_of_reservation reservation) rows
      && length (distinct (map (λ r. message_text r.message_id) rows)) == 1)) [
        | inr other ↦ let bad = rw (other, classify_used) at h in cc
        | inl same ↦
            let own : every (is_of_reservation reservation) rows ≡ true = ground arith in
            elim (Bool-cases (every (λ r. is_committed r.status) rows)) [
              | inl done ↦ elim (Option-cases (first_message rows)) [
                | inl odd ↦ let bad = rw (same, done, odd, classify_used) at h in cc
                | inr (m, first_one) ↦
                    let is_done : committed_to m ≡ c =
                      ground (arith, rw (same, done, first_one, classify_used) at h) in
                    rw (← is_done) (every_and (is_of_reservation reservation) _ rows own done)
              ]
              | inr undone ↦ elim (Bool-cases (every (λ r. is_reserved r.status) rows)) [
                | inr mixed ↦ let bad = rw (same, undone, mixed, classify_used) at h in cc
                | inl held ↦ elim (Option-cases (first_message rows)) [
                  | inl odd ↦ let bad = rw (same, undone, held, odd, classify_used) at h in cc
                  | inr (m, first_one) ↦
                      let is_held : reserved_for m (every (λ r. at_most r.reserved_until now) rows)
                          ≡ c =
                        ground (arith, rw (same, undone, held, first_one, classify_used) at h) in
                      rw (← is_held) (every_and (is_of_reservation reservation) _ rows own held)
                ]
              ]
            ]
      ]

classes-every :
    (user conversation reservation now : ℕ) (rows : List Attachment) (c : Classification)
    → classify_rows user conversation reservation now rows ≡ given c
    → every (λ r. is_owned_by user conversation r && fits_class c reservation now r) rows ≡ true
unfolding classify_rows
classes-every user conversation reservation now rows c h =
    elim (Bool-cases (every (is_owned_by user conversation) rows)) [
      | inr foreign ↦ let bad = rw (foreign, classify_rows) at h in cc
      | inl own ↦ elim (Bool-cases (every (λ r. is_staged r.status) rows)) [
        | inr some_used ↦
            every_and (is_owned_by user conversation) (fits_class c reservation now) rows own
              (used-every reservation now rows c (rw (own, some_used, classify_rows) at h))
        | inl all_staged ↦ elim (Bool-cases (any (λ r. at_most r.expires_at now) rows)) [
          | inl late ↦ let bad = rw (own, all_staged, late, classify_rows) at h in cc
          | inr fresh ↦
              let is_free : free ≡ c =
                ground (arith, rw (own, all_staged, fresh, classify_rows) at h) in
              rw (← is_free) (
                every_and (is_owned_by user conversation) _ rows own (
                  every_and (λ r. is_staged r.status) (λ r. not (at_most r.expires_at now)) rows
                    all_staged
                    (ground (
                      arith,
                      every_opposite (λ r. at_most r.expires_at now)
                          (λ r. not (at_most r.expires_at now)) (λ r. ground arith) rows,
                    ))))
        ]
      ]
    ]

module _ (rows : List Attachment) (keyed : Keyed rows) (q : ReservationIdentity) (now : ℕ)
    (c : Classification)
    (classified : classify_attachment_reservation
        (keep (is_among q.attachment_ids) rows)
        q.attachment_ids
        q.user_id
        q.conversation_id
        q.reservation_id
        now
      ≡ given c) where
  -- Each wanted attachment has a row, of the sender and as classified.
  pub classified_row :
      (a : ℕ)
      → includes a q.attachment_ids ≡ true
      → (r : Attachment) × (row_of a rows ≡ some r)
        × ((is_owned_by q.user_id q.conversation_id r && fits_class c q.reservation_id now r)
            ≡ true)
  unfolding classify_attachment_reservation assert_exact_rows
  classified_row a m =
      let (ordered, exact, fine) =
        bind_given (assert_exact_rows (keep (is_among q.attachment_ids) rows) q.attachment_ids)
          (classify_rows q.user_id q.conversation_id q.reservation_id now) classified in
      let same : row_of a ordered ≡ row_of a rows =
        exact_rows-find rows q.attachment_ids ordered keyed exact a m in
      let there : is_some (row_of a rows) ≡ true =
        exact_rows-some rows q.attachment_ids ordered keyed exact a m in
      elim (Option-cases (row_of a rows)) [
        | inl missing ↦ let bad = rw (missing) at there in cc
        | inr (r, found) ↦ (
          r,
          found,
          every-find (has_id a) _ ordered
              (classes-every q.user_id q.conversation_id q.reservation_id now ordered c fine)
              (same ∙ found),
        )
      ]
