-- ===== src/Attachments/Lifecycle/Moves.antt =====
-- The calls that settle a reservation group, and every call as an edge.
use voidchats_note2ee.Common.{
  ℕ, ◌≡◌, refl, Bool, true, false, not, ◌||◌, Option, some, List, ◌==◌, arith, count,
  find-keep-some, keep, length, Bool-cases, inl, inr, any, every-find, every_opposite,
}
use voidchats_note2ee.Attachments.Rows.{Attachment, Db, Config, has_id, row_of}
use voidchats_note2ee.Attachments.References.{Texts, extract_protected_attachment_ids}
use voidchats_note2ee.Attachments.Reserving.Exact.{Keyed}
use voidchats_note2ee.Attachments.Writing.{
  commit_recovered, commit_recovered_reservation, attachments_or_empty, is_acknowledged,
}
use voidchats_note2ee.Attachments.Groups.{Group}
use voidchats_note2ee.Attachments.Reconciling.{
  can_settle, may_return, settle_row, return_row, is_locked, is_confirmed, locks_exactly, take_all,
  mark_committed, release_to_staged,
}
use voidchats_note2ee.Attachments.Blobs.{StoredObject}
use voidchats_note2ee.Attachments.Collecting.{Claim}
use voidchats_note2ee.Attachments.Safety.Blobs.{IsSafe}
use voidchats_note2ee.Attachments.Steps.{
  Call, reserves, acknowledges, commits, releases, recovers, deletes, expires, settles, restages,
  after, after_bind, step,
}
use voidchats_note2ee.Attachments.Lifecycle.Edges.{Move, Edge, Keeps, is_settled_by, is_returned_by}
use voidchats_note2ee.Attachments.Lifecycle.Statements.{From, From-refl, update-From}
use voidchats_note2ee.Attachments.Lifecycle.Calls.{
  reserve-From, acknowledge-From, commit-From, release-From, recovered-From, delete-From,
  expire-From,
}

module _ (texts : Texts) (now a : ℕ) where
  take_all-From :
      (call : Call) (test : Attachment → Bool) (change : Attachment → Attachment) (wanted : ℕ)
      (db : Db)
      → Keeps change
      → ((r : Attachment)
          → row_of a db.attachments ≡ some r
          → test r ≡ true
          → Move texts call now r (change r))
      → From texts call now a db (after db (take_all test change wanted db))
  take_all-From call test change wanted db keeps_id move =
      elim (Bool-cases (count test db.attachments == wanted)) [
        | inl all ↦ rw (all) (update-From texts call now a test change db keeps_id move)
        | inr off ↦ rw (off) (From-refl texts call now a db)
      ]

  mark-From :
      (g : Group) (db : Db) → From texts (settles g) now a db (after db (mark_committed now g db))
  unfolding mark_committed
  mark-From g db = elim (Bool-cases (locks_exactly now g db)) [
    | inr off ↦ rw (off, mark_committed) (From-refl texts (settles g) now a db)
    | inl exact ↦
        rw (exact, mark_committed)
          (take_all-From (settles g) (can_settle now g) (settle_row now) (length g.attachment_ids)
            db (λ r. (refl, refl, refl)) (λ r found taken. is_settled_by g refl taken))
  ]

  -- Every row that is locked is acknowledged, when none is not.
  acknowledged_row :
      (g : Group) (rows : List Attachment) (r : Attachment)
      → any (λ x. not (is_acknowledged x)) (keep (is_locked now g) rows) ≡ false
      → row_of a rows ≡ some r
      → is_locked now g r ≡ true
      → is_acknowledged r ≡ true
  acknowledged_row g rows r clear found locked =
      every-find (has_id a) is_acknowledged (keep (is_locked now g) rows)
        (ground (
          arith,
          every_opposite (λ x. not (is_acknowledged x)) is_acknowledged (λ x. refl)
              (keep (is_locked now g) rows),
        ))
        (find-keep-some (has_id a) (is_locked now g) rows found locked)

  return-From :
      (ttl : ℕ) (g : Group) (db : Db)
      → From texts (restages g) now a db (after db (release_to_staged ttl now g db))
  unfolding release_to_staged
  return-From ttl g db = elim (Bool-cases (locks_exactly now g db)) [
    | inr off ↦ rw (off, release_to_staged) (From-refl texts (restages g) now a db)
    | inl exact ↦
        elim (Bool-cases (
          not (is_confirmed g)
          || any (λ r. not (is_acknowledged r)) (keep (is_locked now g) db.attachments))) [
            | inl unclear ↦
                rw (exact, unclear, release_to_staged) (From-refl texts (restages g) now a db)
            | inr clear ↦
                rw (exact, clear, release_to_staged)
                  (take_all-From (restages g) (may_return now g db.sends) (return_row ttl now)
                    (length g.attachment_ids) db (λ r. (refl, refl, refl))
                    (λ r found taken.
                      is_returned_by g ttl refl (ground arith)
                        (acknowledged_row g db.attachments r (ground arith) found (ground arith))))
          ]
  ]

module _ (texts : Texts) (config : Config) (now : ℕ) where
  step-From :
      (call : Call) (db : Db) (a : ℕ) → From texts call now a db (step texts config now call db)
  unfolding step commit_recovered_reservation
  step-From (reserves q) db a = reserve-From texts config now a q db
  step-From (acknowledges q) db a = acknowledge-From texts config now a q db
  step-From (commits q) db a = commit-From texts config now a q db
  step-From (releases q) db a = release-From texts config now a q db
  step-From (recovers q row) db a =
      after_bind (From texts (recovers q row) now a db) db
        (extract_protected_attachment_ids texts (attachments_or_empty row.attachments))
        (commit_recovered now q row db) (From-refl texts (recovers q row) now a db)
        (λ ids parsed. recovered-From texts config now a q row db ids parsed)
  step-From (deletes b user conversation) db a =
      delete-From texts config now a b user conversation db
  step-From (settles g) db a = mark-From texts now a g db
  step-From (restages g) db a = return-From texts now a config.reservation_ttl_seconds g db
  step-From (expires b) db a = expire-From texts config now a b db

  pub step-Keyed :
      (call : Call) (db : Db)
      → Keyed db.attachments
      → Keyed (step texts config now call db).attachments
  unfolding From
  step-Keyed call db keyed = ((step-From call db 0).0 keyed).1

  -- Every call moves each attachment along one edge of the lifecycle: it stays, is reserved while
  -- staged and unexpired by its own uploader, acknowledged, committed, released or, while staged,
  -- removed; a reservation whose time is over is settled or returned.
  pub step-Edge :
      (call : Call) (db : Db)
      → Keyed db.attachments
      → (a : ℕ)
      → Edge texts call now
          (row_of a db.attachments)
          (row_of a (step texts config now call db).attachments)
  unfolding From
  step-Edge call db keyed a = ((step-From call db a).0 keyed).0

  -- No call of the lifecycle breaks the invariant of the blobs.
  pub step-IsSafe :
      (call : Call) (objects : List StoredObject) (claim : Option Claim) (db : Db)
      → IsSafe objects claim db
      → IsSafe objects claim (step texts config now call db)
  unfolding From
  step-IsSafe call objects claim db = (step-From call db 0).1 objects claim
