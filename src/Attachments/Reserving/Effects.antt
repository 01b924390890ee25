-- ===== src/Attachments/Reserving/Effects.antt =====
-- `reserveForMessage` as a whole: all the wanted attachments or none, each staged, unexpired and of
-- the sender; and never one that another reservation holds.
use voidchats_note2ee.Common.{
  ℕ, ◌≡◌, ◌≢◌, refl, sym, ap, ◌∙◌, Bool, true, false, not, ◌&&◌, ◌||◌, ◌⊎◌, some, is_some, List, [],
  ◌∷◌, ◌==◌, ==_iff, arith, count, every, every-find, find_sound, find-map, keep, includes, length,
  Bool-cases, Option-cases, inl, inr, on_found,
}
use voidchats_note2ee.Attachments.Rows.{
  Attachment, Db, Config, ReservationIdentity, given, bind_given, has_id, row_of, is_among,
  is_staged, above, holds, where_change, update,
}
use voidchats_note2ee.Attachments.Reserving.{
  classify_attachment_reservation, is_owned_by, free, committed_to, reserved_for, Classification,
  reserve_free, reserve_classified, reserve_for_message, ReservationState, reserved_new,
  can_reserve, reserve_row, is_mismatched, ids_of_operation, none_asked,
}
use voidchats_note2ee.Attachments.Reserving.Exact.{Keyed}
use voidchats_note2ee.Attachments.Reserving.Promise.{fits_class, classified_row}

-- `attachment_objects_lifecycle_fields_check`: a staged row has a time at which it expires.
abbrev pub is_timed : Attachment → Bool
is_timed r = not (is_staged r.status) || is_some r.expires_at

wanted_some : (a : ℕ) (ids : List ℕ) → includes a ids ≡ true → (length ids == 0) ≡ false
wanted_some a [] m = cc
wanted_some a (x ∷ ids) m = ground arith

-- An UPDATE at the row of an attachment.
pub row_of-update :
    (test : Attachment → Bool) (change : Attachment → Attachment)
    → ((r : Attachment) → (change r).id ≡ r.id)
    → (rows : List Attachment) (a : ℕ)
    → row_of a (update test change rows) ≡ on_found (where_change test change) (row_of a rows)
row_of-update test change keeps_id rows a =
    find-map (has_id a) (where_change test change) (λ r. ground (arith, keeps_id r)) rows

module _ (config : Config) (now : ℕ) (q : ReservationIdentity) (db : Db) where
  reserve_parts :
      (x : ReservationState × Db)
      → reserve_for_message config now q db ≡ given x
      → (((length q.attachment_ids == 0) ≡ true) × (x ≡ (none_asked, db)))
        ⊎ ((c : Classification) × (classify_attachment_reservation
                (keep (is_among q.attachment_ids) db.attachments)
                q.attachment_ids
                q.user_id
                q.conversation_id
                q.reservation_id
                now
              ≡ given c)
            × (reserve_classified config now q db c ≡ given x))
  unfolding reserve_for_message
  reserve_parts x h = elim (Bool-cases (length q.attachment_ids == 0)) [
    | inl empty ↦ inl (empty, ground (arith, rw (empty, reserve_for_message) at h))
    | inr many ↦ elim (Bool-cases (is_mismatched (ids_of_operation q db) q.attachment_ids)) [
      | inl other ↦ let bad = rw (many, other, reserve_for_message) at h in cc
      | inr fits ↦ inr (
          bind_given
            (classify_attachment_reservation (keep (is_among q.attachment_ids) db.attachments)
              q.attachment_ids q.user_id q.conversation_id q.reservation_id now)
            (reserve_classified config now q db) (rw (many, fits, reserve_for_message) at h))
    ]
  ]

  -- A new reservation is the one of free attachments.
  new_parts :
      (db' : Db) (c : Classification)
      → reserve_classified config now q db c ≡ given (reserved_new, db')
      → (c ≡ free)
        × (update
              (can_reserve now q.attachment_ids)
              (reserve_row config.reservation_ttl_seconds now q.reservation_id q.message_id)
              db.attachments
            ≡ db'.attachments)
  unfolding reserve_classified reserve_free
  new_parts db' (committed_to m) h = cc
  new_parts db' (reserved_for m late) h = cc
  new_parts db' free h =
      elim (Bool-cases
        (count (can_reserve now q.attachment_ids) db.attachments == length q.attachment_ids)) [
          | inl all ↦ (refl, ground (arith, rw (all, reserve_free, reserve_classified) at h))
          | inr off ↦ let bad = rw (off, reserve_free, reserve_classified) at h in cc
        ]

  abbrev pub WasTaken : Db → ℕ → Type 0
  WasTaken db' a =
      (r : Attachment) × (row_of a db.attachments ≡ some r)
      × ((is_owned_by q.user_id q.conversation_id r && is_staged r.status && above r.expires_at now)
          ≡ true)
      × (row_of a db'.attachments
          ≡ some (reserve_row config.reservation_ttl_seconds now q.reservation_id q.message_id r))

  taken_row :
      Keyed db.attachments
      → every is_timed db.attachments ≡ true
      → (db' : Db) (a : ℕ) (c : Classification)
      → classify_attachment_reservation
          (keep (is_among q.attachment_ids) db.attachments)
          q.attachment_ids
          q.user_id
          q.conversation_id
          q.reservation_id
          now
        ≡ given c
      → c ≡ free
      → row_of a db'.attachments
        ≡ on_found
            (where_change
              (can_reserve now q.attachment_ids)
              (reserve_row config.reservation_ttl_seconds now q.reservation_id q.message_id))
            (row_of a db.attachments)
      → includes a q.attachment_ids ≡ true
      → WasTaken db' a
  taken_row keyed timed db' a c classified is_free moved m =
      let (r, found, fits) = classified_row db.attachments keyed q now c classified a m in
      let same : r.id ≡ a = (==_iff r.id a).0 (find_sound (has_id a) db.attachments r found) in
      let has_time : is_timed r ≡ true =
        every-find (has_id a) is_timed db.attachments timed found in
      let fine = rw (is_free) at fits in
      let (own, unsent, unexpired) = free_row r (ground arith) has_time in
      let can : can_reserve now q.attachment_ids r ≡ true = rw (same, m, unsent, unexpired) refl in
      (r, found, rw (own, unsent, unexpired) refl, moved ∙ rw (found, can) refl)
    where
      free_row :
          (r : Attachment)
          → (is_owned_by q.user_id q.conversation_id r && fits_class free q.reservation_id now r)
            ≡ true
          → is_timed r ≡ true
          → (is_owned_by q.user_id q.conversation_id r ≡ true)
            × (is_staged r.status ≡ true)
            × (above r.expires_at now ≡ true)
      free_row r fits has_time = elim (Option-cases r.expires_at) [
        | inl never ↦ ground (arith, never)
        | inr (t, expires) ↦ rw (expires) (ground (arith, expires))
      ]

  left_row :
      (db' : Db) (b : ℕ)
      → includes b q.attachment_ids ≡ false
      → row_of b db'.attachments
        ≡ on_found
            (where_change
              (can_reserve now q.attachment_ids)
              (reserve_row config.reservation_ttl_seconds now q.reservation_id q.message_id))
            (row_of b db.attachments)
      → row_of b db'.attachments ≡ row_of b db.attachments
  left_row db' b unwanted moved = elim (Option-cases (row_of b db.attachments)) [
    | inl missing ↦ moved ∙ rw (missing) refl
    | inr (r, found) ↦
        let same : r.id ≡ b = (==_iff r.id b).0 (find_sound (has_id b) db.attachments r found) in
        let kept : can_reserve now q.attachment_ids r ≡ false = rw (same, unwanted) refl in
        moved ∙ rw (found, kept) refl
  ]

  -- A new reservation takes every wanted attachment `a`: it was staged, not expired, and of the
  -- sender in the conversation, and is now reserved for the message; and it leaves every other
  -- attachment `b` as it was. Staged rows have an expiry, as the table's check says.
  pub reserve_for_message_lem :
      Keyed db.attachments
      → every is_timed db.attachments ≡ true
      → (db' : Db) → reserve_for_message config now q db ≡ given (reserved_new, db')
      → (a b : ℕ) → includes a q.attachment_ids ≡ true
      → includes b q.attachment_ids ≡ false
      → WasTaken db' a × (row_of b db'.attachments ≡ row_of b db.attachments)
  reserve_for_message_lem keyed timed db' h a b wanted unwanted =
      elim (reserve_parts (reserved_new, db') h) [
        | inl (empty, odd) ↦ let bad : reserved_new ≡ none_asked = ap (λ x. x.0) odd in cc
        | inr (c, classified, done) ↦
            let (is_free, shape) = new_parts db' c done in
            let change =
              reserve_row config.reservation_ttl_seconds now q.reservation_id q.message_id in
            let moved : (d : ℕ)
                → row_of d db'.attachments
                  ≡ on_found (where_change (can_reserve now q.attachment_ids) change)
                      (row_of d db.attachments) =
              λ d.
                sym (ap (row_of d) shape)
                ∙ row_of-update (can_reserve now q.attachment_ids) change (λ r. refl) db.attachments
                    d in
            (
              taken_row keyed timed db' a c classified is_free (moved a) wanted,
              left_row db' b unwanted (moved b),
            )
      ]

  -- An attachment that is reserved or committed for one reservation is refused to every other one,
  -- whatever else that asks for.
  pub reserve_refuses_used :
      Keyed db.attachments
      → (a : ℕ) (r : Attachment) → includes a q.attachment_ids ≡ true
      → row_of a db.attachments ≡ some r
      → is_staged r.status ≡ false
      → holds r.reservation_id q.reservation_id ≡ false
      → (x : ReservationState × Db) → reserve_for_message config now q db ≢ given x
  reserve_refuses_used keyed a r m found used other x h = elim (reserve_parts x h) [
    | inl (empty, nothing) ↦ let bad = wanted_some a q.attachment_ids m in ground (arith)
    | inr (c, classified, done) ↦
        let (r', found', fits) = classified_row db.attachments keyed q now c classified a m in
        let same : r' ≡ r = ground (arith, sym found' ∙ found) in
        refused c r (rw (same) at fits) used other
  ]
    where
      refused :
          (c : Classification) (r : Attachment)
          → (is_owned_by q.user_id q.conversation_id r && fits_class c q.reservation_id now r)
            ≡ true
          → is_staged r.status ≡ false
          → holds r.reservation_id q.reservation_id ≢ false
      refused free r fits used other = ground arith
      refused (committed_to m) r fits used other = ground arith
      refused (reserved_for m late) r fits used other = ground arith
