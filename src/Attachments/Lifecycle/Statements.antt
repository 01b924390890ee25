-- ===== src/Attachments/Lifecycle/Statements.antt =====
-- The UPDATE and DELETE statements, seen at the row of one attachment.
use voidchats_note2ee.Common.{
  ℕ, ◌≤◌, ◌≡◌, sym, subst, Bool, true, not, Option, some, List, ◌==◌, arith, count, count-map,
  count-keep_le, find-map, find-drop, find-keep-some, find-keep-none, Bool-cases, Option-cases, inl,
  inr,
}
use voidchats_note2ee.Attachments.Rows.{
  Attachment, Db, Verdict, has_id, row_of, is_staged, where_change, update,
}
use voidchats_note2ee.Attachments.Triggers.{delete_where}
use voidchats_note2ee.Attachments.References.{Texts}
use voidchats_note2ee.Attachments.Reserving.Exact.{Keyed}
use voidchats_note2ee.Attachments.Writing.{update_exactly}
use voidchats_note2ee.Attachments.Blobs.{StoredObject}
use voidchats_note2ee.Attachments.Collecting.{Claim}
use voidchats_note2ee.Attachments.Safety.Blobs.{IsSafe, update-IsSafe, delete-IsSafe}
use voidchats_note2ee.Attachments.Steps.{Call, after}
use voidchats_note2ee.Attachments.Lifecycle.Edges.{
  Move, Edge, Edge-refl, Keeps, stays, absent, moves, removed, is_removal,
}

module _ (texts : Texts) (call : Call) (now a : ℕ) where
  -- An UPDATE moves each row it takes, and leaves the others.
  update-Edge :
      (test : Attachment → Bool) (change : Attachment → Attachment) (rows : List Attachment)
      → Keeps change
      → ((r : Attachment)
          → row_of a rows ≡ some r
          → test r ≡ true
          → Move texts call now r (change r))
      → Edge texts call now (row_of a rows) (row_of a (update test change rows))
  update-Edge test change rows keeps_id move =
      rw (find-map (has_id a) (where_change test change) (λ r. ground (arith, (keeps_id r).0)) rows)
        (elim (Option-cases (row_of a rows)) [
          | inl missing ↦ rw (missing) absent
          | inr (r, found) ↦ elim (Bool-cases (test r)) [
            | inl taken ↦ rw (found, taken) (moves r (change r) (move r found taken))
            | inr left ↦ rw (found, left) (moves r r stays)
          ]
        ])

  -- The edge from the row before a call to the row after it; the key stays one, and the invariant
  -- of the blobs is kept.
  unfoldable pub From : Db → Db → Type 0
  From db db' =
      (Keyed db.attachments
        → (Edge texts call now (row_of a db.attachments) (row_of a db'.attachments))
          × (Keyed db'.attachments))
      × ((objects : List StoredObject) (claim : Option Claim)
          → IsSafe objects claim db
          → IsSafe objects claim db')

  pub From-refl : (db : Db) → From db db
  unfolding From
  From-refl db = (
    λ keyed. (Edge-refl texts call now (row_of a db.attachments), keyed),
    λ objects claim safe. safe,
  )

  -- For the edge the key may be used.
  pub update_where-From :
      (test : Attachment → Bool) (change : Attachment → Attachment) (db : Db)
      → Keeps change
      → (Keyed db.attachments
          → (r : Attachment) → row_of a db.attachments ≡ some r
          → test r ≡ true
          → Move texts call now r (change r))
      → From db (record db { attachments = update test change db.attachments })
  unfolding From
  update_where-From test change db keeps_id move = (
    λ keyed. (
      update-Edge test change db.attachments keeps_id (move keyed),
      λ b.
          subst (λ n. n ≤ 1)
            (sym (
              count-map (where_change test change) (has_id b) (has_id b)
                (λ r. ground (arith, (keeps_id r).0)) db.attachments))
            (keyed b),
    ),
    λ objects claim safe.
        update-IsSafe test change (λ r. (keeps_id r).1) (λ r. (keeps_id r).2) objects claim db safe,
  )

  pub update-From :
      (test : Attachment → Bool) (change : Attachment → Attachment) (db : Db)
      → Keeps change
      → ((r : Attachment)
          → row_of a db.attachments ≡ some r
          → test r ≡ true
          → Move texts call now r (change r))
      → From db (record db { attachments = update test change db.attachments })
  update-From test change db keeps_id move =
      update_where-From test change db keeps_id (λ keyed. move)

  pub update_exactly-From :
      (test : Attachment → Bool) (change : Attachment → Attachment) (wanted : ℕ)
      (otherwise : Verdict (ℕ × Db)) (db : Db)
      → after db otherwise ≡ db
      → Keeps change
      → ((r : Attachment)
          → row_of a db.attachments ≡ some r
          → test r ≡ true
          → Move texts call now r (change r))
      → From db (after db (update_exactly test change wanted otherwise db))
  unfolding update_exactly
  update_exactly-From test change wanted otherwise db same keeps_id move =
      elim (Bool-cases (count test db.attachments == wanted)) [
        | inl all ↦ rw (all) (update-From test change db keeps_id move)
        | inr off ↦ rw (off, same) (From-refl db)
      ]

  -- A DELETE takes only what it names.
  delete_where-Edge :
      (test : Attachment → Bool) (db : Db)
      → Keyed db.attachments
      → ((r : Attachment) → test r ≡ true → is_staged r.status ≡ true)
      → is_removal call ≡ true
      → Edge texts call now
          (row_of a db.attachments)
          (row_of a (delete_where now test db).attachments)
  unfolding delete_where
  delete_where-Edge test db keyed only that = elim (Option-cases (row_of a db.attachments)) [
    | inl missing ↦
        rw (missing, find-keep-none (has_id a) (λ r. not (test r)) db.attachments missing) absent
    | inr (r, found) ↦ elim (Bool-cases (test r)) [
      | inl gone ↦
          rw
            (
              found,
              find-drop (has_id a) (λ x. not (test x)) db.attachments (keyed a) found
                  (ground arith),
            )
            (removed r (only r gone) that)
      | inr left ↦
          rw
            (
              found,
              find-keep-some (has_id a) (λ x. not (test x)) db.attachments found (ground arith),
            )
            (moves r r stays)
    ]
  ]

  pub delete_where-From :
      (test : Attachment → Bool) (db : Db)
      → ((r : Attachment) → test r ≡ true → is_staged r.status ≡ true)
      → is_removal call ≡ true
      → From db (delete_where now test db)
  unfolding delete_where From
  delete_where-From test db only that = (
    λ keyed. (
      delete_where-Edge test db keyed only that,
      λ b. omega (arith, keyed b, count-keep_le (has_id b) (λ r. not (test r)) db.attachments),
    ),
    λ objects claim safe. delete-IsSafe now test objects claim db safe,
  )
