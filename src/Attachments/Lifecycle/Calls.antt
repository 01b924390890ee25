-- ===== src/Attachments/Lifecycle/Calls.antt =====
-- The calls on reservations and staged files, seen at the row of one attachment.
use voidchats_note2ee.Common.{
  ℕ, ◌≡◌, refl, true, ◌&&◌, some, List, ◌==◌, ==_iff, arith, count, find, find_sound, keep,
  includes, length, Bool-cases, Option-cases, inl, inr, every, any, ◌⊎◌,
}
use voidchats_note2ee.Attachments.Rows.{
  Attachment, Db, Config, ReservationIdentity, given, has_id, row_of, is_among,
}
use voidchats_note2ee.Attachments.References.{Texts, extract_protected_attachment_ids}
use voidchats_note2ee.Attachments.Reserving.{
  can_reserve, reserve_row, reserve_free, reserve_classified, reserve_for_message,
  classify_attachment_reservation, Classification, free, committed_to, reserved_for, is_mismatched,
  ids_of_operation,
}
use voidchats_note2ee.Attachments.Reserving.Exact.{classified-free}
use voidchats_note2ee.Attachments.Writing.{
  can_acknowledge, acknowledge_row, can_commit, commit_row, can_recover, recover_row, is_held,
  release_reserved, StoredRow, agrees, acknowledge_locked, acknowledge_scylla_write,
  commit_reservation, commit_recovered, attachments_or_empty, release_reservation,
  delete_staged_attachment, delete_locked, is_staged_row, holds_exactly, is_acknowledged,
  is_inconsistent,
}
use voidchats_note2ee.Attachments.Expiring.{expire_one, is_expired}
use voidchats_note2ee.Attachments.Steps.{
  reserves, acknowledges, commits, releases, recovers, deletes, expires, after, after_bind,
}
use voidchats_note2ee.Attachments.Lifecycle.Edges.{
  is_reserved_by, is_acknowledged_by, is_committed_by, is_recovered_by, is_released_by,
}
use voidchats_note2ee.Attachments.Lifecycle.Statements.{
  From, From-refl, update_where-From, update-From, update_exactly-From, delete_where-From,
}

module _ (texts : Texts) (config : Config) (now a : ℕ) where
  classified-From :
      (q : ReservationIdentity) (db : Db) (c : Classification)
      → classify_attachment_reservation
          (keep (is_among q.attachment_ids) db.attachments)
          q.attachment_ids
          q.user_id
          q.conversation_id
          q.reservation_id
          now
        ≡ given c
      → From texts (reserves q) now a db (after db (reserve_classified config now q db c))
  unfolding reserve_classified reserve_free
  classified-From q db (committed_to m) h = From-refl texts (reserves q) now a db
  classified-From q db (reserved_for m late) h = From-refl texts (reserves q) now a db
  classified-From q db free h =
      elim (Bool-cases
        (count (can_reserve now q.attachment_ids) db.attachments == length q.attachment_ids)) [
          | inr off ↦
              rw (off, reserve_classified, reserve_free) (From-refl texts (reserves q) now a db)
          | inl all ↦
              rw (all, reserve_classified, reserve_free)
                (update_where-From texts (reserves q) now a (can_reserve now q.attachment_ids)
                  (reserve_row config.reservation_ttl_seconds now q.reservation_id q.message_id) db
                  (λ r. (refl, refl, refl))
                  (λ keyed r found taken.
                    is_reserved_by q config.reservation_ttl_seconds refl taken (
                      classified-free db.attachments q.attachment_ids q.user_id q.conversation_id
                        q.reservation_id now keyed h a r (among r found taken) found)))
        ]
    where
      among :
          (r : Attachment)
          → row_of a db.attachments ≡ some r
          → can_reserve now q.attachment_ids r ≡ true
          → includes a q.attachment_ids ≡ true
      among r found taken =
          let same : r.id ≡ a = (==_iff r.id a).0 (find_sound (has_id a) db.attachments r found) in
          ground (arith, same)

  pub reserve-From :
      (q : ReservationIdentity) (db : Db)
      → From texts (reserves q) now a db (after db (reserve_for_message config now q db))
  unfolding reserve_for_message reserve_classified reserve_free
  reserve-From q db = elim (Bool-cases (length q.attachment_ids == 0)) [
    | inl empty ↦ rw (empty, reserve_for_message) (From-refl texts (reserves q) now a db)
    | inr many ↦ elim (Bool-cases (is_mismatched (ids_of_operation q db) q.attachment_ids)) [
      | inl other ↦ rw (many, other, reserve_for_message) (From-refl texts (reserves q) now a db)
      | inr fits ↦
          rw (many, fits, reserve_for_message)
            (after_bind (From texts (reserves q) now a db) db
              (classify_attachment_reservation (keep (is_among q.attachment_ids) db.attachments)
                q.attachment_ids q.user_id q.conversation_id q.reservation_id now)
              (reserve_classified config now q db) (From-refl texts (reserves q) now a db)
              (λ c classified. classified-From q db c classified))
    ]
  ]

  pub acknowledge-From :
      (q : ReservationIdentity) (db : Db)
      → From texts (acknowledges q) now a db (after db (acknowledge_scylla_write now q db))
  unfolding acknowledge_scylla_write acknowledge_locked
  acknowledge-From q db = elim (Bool-cases (length q.attachment_ids == 0)) [
    | inl empty ↦ rw (empty, acknowledge_scylla_write) (From-refl texts (acknowledges q) now a db)
    | inr many ↦
        rw (many, acknowledge_scylla_write)
          (elim (Bool-cases (holds_exactly q db)) [
            | inr other ↦ rw (other, acknowledge_locked) (From-refl texts (acknowledges q) now a db)
            | inl exact ↦
                elim (Bool-cases (every is_acknowledged (keep (is_held q) db.attachments))) [
                  | inl done ↦
                      rw (exact, done, acknowledge_locked)
                        (From-refl texts (acknowledges q) now a db)
                  | inr new ↦
                      elim (Bool-cases (any is_inconsistent (keep (is_held q) db.attachments))) [
                        | inl unclear ↦
                            rw (exact, new, unclear, acknowledge_locked)
                              (From-refl texts (acknowledges q) now a db)
                        | inr clear ↦
                            rw (exact, new, clear, acknowledge_locked)
                              (update_exactly-From texts (acknowledges q) now a (can_acknowledge q)
                                (acknowledge_row now) _ _ db refl (λ r. (refl, refl, refl))
                                (λ r found taken. is_acknowledged_by q refl taken))
                      ]
                ]
          ])
  ]

  pub commit-From :
      (q : ReservationIdentity) (db : Db)
      → From texts (commits q) now a db (after db (commit_reservation now q db))
  unfolding commit_reservation
  commit-From q db = elim (Bool-cases (length q.attachment_ids == 0)) [
    | inl empty ↦ rw (empty, commit_reservation) (From-refl texts (commits q) now a db)
    | inr many ↦
        rw (many, commit_reservation)
          (update_exactly-From texts (commits q) now a (can_commit q) (commit_row now) _ _ db refl
            (λ r. (refl, refl, refl)) (λ r found taken. is_committed_by q refl taken))
  ]

  pub release-From :
      (q : ReservationIdentity) (db : Db)
      → From texts (releases q) now a db (release_reservation q db).1
  unfolding release_reservation
  release-From q db = elim (Bool-cases (length q.attachment_ids == 0)) [
    | inl empty ↦ rw (empty, release_reservation) (From-refl texts (releases q) now a db)
    | inr many ↦
        rw (many, release_reservation)
          (update-From texts (releases q) now a (is_held q) release_reserved db
            (λ r. (refl, refl, refl)) (λ r found taken. is_released_by q refl taken))
  ]

  pub recovered-From :
      (q : ReservationIdentity) (row : StoredRow) (db : Db) (ids : List ℕ)
      → extract_protected_attachment_ids texts (attachments_or_empty row.attachments) ≡ given ids
      → From texts (recovers q row) now a db (after db (commit_recovered now q row db ids))
  unfolding commit_recovered
  recovered-From q row db ids parsed = elim (Bool-cases (agrees row q ids)) [
    | inr off ↦ rw (off, commit_recovered) (From-refl texts (recovers q row) now a db)
    | inl same ↦ elim (Bool-cases (length ids == 0)) [
      | inl empty ↦ rw (same, empty, commit_recovered) (From-refl texts (recovers q row) now a db)
      | inr many ↦
          rw (same, many, commit_recovered)
            (update_exactly-From texts (recovers q row) now a (can_recover ids q) (recover_row now)
              _ _ db refl (λ r. (refl, refl, refl))
              (λ r found taken. is_recovered_by q row ids refl parsed same taken))
    ]
  ]

  locked-From :
      (b user conversation : ℕ) (db : Db)
      → From texts (deletes b user conversation) now a db (after db (delete_locked now b db))
  unfolding delete_locked
  locked-From b user conversation db =
      elim (Bool-cases (count (is_staged_row b) db.attachments == 1)) [
        | inl one ↦
            rw (one, delete_locked)
              (delete_where-From texts (deletes b user conversation) now a (is_staged_row b) db
                (λ x taken. ground arith) refl)
        | inr off ↦ rw (off, delete_locked) (From-refl texts (deletes b user conversation) now a db)
      ]

  pub delete-From :
      (b user conversation : ℕ) (db : Db)
      → From texts
          (deletes b user conversation)
          now
          a
          db
          (after db (delete_staged_attachment now b user conversation db))
  unfolding delete_staged_attachment
  delete-From b user conversation db = elim (Option-cases (find (has_id b) db.attachments)) [
    | inl missing ↦
        rw (missing, delete_staged_attachment)
          (From-refl texts (deletes b user conversation) now a db)
    | inr (r, found) ↦
        let ends : (after db (delete_staged_attachment now b user conversation db) ≡ db)
            ⊎ (after db (delete_staged_attachment now b user conversation db)
                ≡ after db (delete_locked now b db)) =
          ground (arith, found) in
        elim ends [
          | inl kept ↦ rw (kept) (From-refl texts (deletes b user conversation) now a db)
          | inr locked ↦ rw (locked) (locked-From b user conversation db)
        ]
  ]

  pub expire-From : (b : ℕ) (db : Db) → From texts (expires b) now a db (expire_one now b db).1
  unfolding expire_one
  expire-From b db =
      elim (Option-cases (find (λ r. has_id b r && is_expired now r) db.attachments)) [
        | inl none_late ↦ rw (none_late, expire_one) (From-refl texts (expires b) now a db)
        | inr (r, late) ↦
            rw (late, expire_one)
              (delete_where-From texts (expires b) now a (is_staged_row b) db
                (λ x taken. ground arith) refl)
      ]
