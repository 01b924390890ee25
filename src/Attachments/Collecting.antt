-- ===== src/Attachments/Collecting.antt =====
-- VOID0000-api/server/attachments/lifecycleCore.ts: `cleanupOrphanedBlobs`, which removes the blobs
-- that no attachment uses, in two transactions with the removal of the object between them, and
-- `cleanupUntrackedContentAddressedObjects`, which removes the objects that no blob names.
use voidchats_note2ee.Common.{
  ℕ, ◌+◌, Bool, true, false, not, ◌&&◌, ◌||◌, Option, none, some, List, [], ◌∷◌, ◌==◌, ltb, leb,
  if◌then◌else◌, find, keep, length, count, any, map,
}
use voidchats_note2ee.Attachments.Rows.{Attachment, Blob, ready, deleting, Db, holds, seconds}
use voidchats_note2ee.Attachments.Triggers.{has_blob_id, is_ready}
use voidchats_note2ee.Attachments.ObjectKeys.{Text}
use voidchats_note2ee.Attachments.Expiring.{limit, time_text}
use voidchats_note2ee.Attachments.Blobs.{
  StoredObject, World, has_hash, is_at, is_object, remove_object,
}

-- `blob_id = $1 OR poster_blob_id = $1`
abbrev pub refers_to : ℕ → Attachment → Bool
refers_to b r = r.blob_id == b || holds r.poster_blob_id b

-- `orphaned_at <= NOW() - grace`
abbrev pub is_orphan : (grace now : ℕ) → Blob → Bool
is_orphan grace now blob =
    blob.ref_count == 0
    && elim blob.orphaned_at [ none ↦ false | some t ↦ leb (t + seconds grace) now ]

-- What the first transaction hands on: the blob and the place of its object.
pub record Claim : Type 0 where
  pub blob_id : ℕ
  pub bucket : ℕ
  pub object_key : Text

abbrev pub claim_of : Blob → Claim
claim_of blob = record { blob_id = blob.id; bucket = blob.bucket; object_key = blob.object_key }

abbrev pub recount : (refs : ℕ) → ℕ → Blob → Blob
recount refs b blob =
    if has_blob_id b blob
    then record blob { ref_count = refs; orphaned_at = none; status = ready }
    else blob

abbrev pub mark_deleting : ℕ → Blob → Blob
mark_deleting b blob =
    if has_blob_id b blob && is_ready blob.status then record blob { status = deleting } else blob

-- The first transaction on a candidate; a blob that turns out to be used is repaired.
unfoldable pub claim_blob : (grace now b : ℕ) → Db → Option Claim × Db
claim_blob grace now b db = elim (find (λ x. has_blob_id b x && is_orphan grace now x) db.blobs) [
  | none ↦ (none, db)
  | some blob ↦
      if any (refers_to b) db.attachments
      then (
        none,
        record db { blobs = map (recount (count (refers_to b) db.attachments) b) db.blobs },
      )
      else (some (claim_of blob), record db { blobs = map (mark_deleting b) db.blobs })
]

-- The rows that the last transaction deletes.
abbrev pub is_dropped : ℕ → Db → Blob → Bool
is_dropped b db blob =
    has_blob_id b blob && not (is_ready blob.status) && not (any (refers_to b) db.attachments)

-- Whether one row was deleted, and the database.
unfoldable pub drop_blob : ℕ → Db → Bool × Db
drop_blob b db = (
  count (is_dropped b db) db.blobs == 1,
  record db { blobs = keep (λ blob. not (is_dropped b db blob)) db.blobs },
)

abbrev pub is_candidate : (grace now : ℕ) → Blob → Bool
is_candidate grace now blob = is_orphan grace now blob

-- `ORDER BY orphaned_at, id`
abbrev pub orphaned_before : Blob → Blob → Bool
orphaned_before a b =
    ltb (time_text a.orphaned_at) (time_text b.orphaned_at)
    || time_text a.orphaned_at == time_text b.orphaned_at && ltb a.id b.id

abbrev pub place_blob : Blob → List Blob → List Blob
place_blob a [] = a ∷ []
place_blob a (b ∷ bs) = if orphaned_before a b then a ∷ b ∷ bs else b ∷ place_blob a bs

abbrev pub by_orphaned : List Blob → List Blob
by_orphaned [] = []
by_orphaned (b ∷ bs) = place_blob b (by_orphaned bs)

pub record Collected : Type 0 where
  pub selected : ℕ
  pub deleted : ℕ
  pub retained : ℕ
  pub failures : ℕ

-- What fails on a candidate: a transaction of the database or the removal of the object.
pub data Trouble : Type 0 where
  no_trouble first_fails removal_fails last_fails : Trouble

module _ (grace : ℕ) (clock : ℕ → ℕ) (trouble : ℕ → Trouble) where
  abbrev pub finish : Trouble → Claim → World → (Collected → Collected) × World
  finish removal_fails c w = (λ s. record s { failures = s.failures + 1 }, w)
  finish last_fails c w = (
    λ s. record s { failures = s.failures + 1 },
    record w { objects = remove_object c.bucket c.object_key w.objects },
  )
  finish _ c w = (
    λ s.
        if (drop_blob c.blob_id w.db).0
        then record s { deleted = s.deleted + 1 }
        else record s { retained = s.retained + 1 },
    record {
      db = (drop_blob c.blob_id w.db).1;
      objects = remove_object c.bucket c.object_key w.objects;
    },
  )

  -- One round of the loop: the summary's change, and the world.
  unfoldable pub collect_one : (b : ℕ) → World → (Collected → Collected) × World
  collect_one b w = elim (trouble b) [
    | first_fails ↦ (λ s. record s { failures = s.failures + 1 }, w)
    | t ↦
        let claimed = claim_blob grace (clock b) b w.db in
        elim claimed.0 [
          | none ↦ (λ s. record s { retained = s.retained + 1 }, record w { db = claimed.1 })
          | some c ↦ finish t c (record w { db = claimed.1 })
        ]
  ]

  unfoldable pub collect_all : List ℕ → Collected × World → Collected × World
  collect_all [] (s, w) = (s, w)
  collect_all (b ∷ rest) (s, w) = collect_all rest ((collect_one b w).0 s, (collect_one b w).1)

  unfoldable pub cleanup_orphaned_blobs : (now batch_size : ℕ) → World → Collected × World
  cleanup_orphaned_blobs now batch_size w =
      let candidates = limit batch_size (by_orphaned (keep (is_candidate grace now) w.db.blobs)) in
      collect_all (map (λ blob. blob.id) candidates)
        (record { selected = length candidates; deleted = 0; retained = 0; failures = 0 }, w)

-- `isOlderThanGrace`
abbrev pub is_older : (grace now : ℕ) → StoredObject → Bool
is_older grace now o = leb (o.last_modified + seconds grace) now

pub data Scanned : Type 0 where
  was_deleted was_recent was_missing : Scanned
  was_referenced : (inconsistent : Bool) → Scanned

-- The blobs that name the object or its content.
abbrev pub names : (bucket : ℕ) (key hash : Text) → Blob → Bool
names bucket key hash blob = is_at bucket key blob || has_hash hash blob

-- The transaction under the lock of the content hash.
unfoldable pub scan_object : (grace now bucket : ℕ) (key hash : Text) → World → Scanned × World
scan_object grace now bucket key hash w =
    let rows = limit 2 (keep (names bucket key hash) w.db.blobs) in
    if ltb 0 (length rows)
    then elim (find (is_at bucket key) rows) [
      | none ↦ (was_referenced true, w)
      | some blob ↦ (was_referenced (not (has_hash hash blob)), w)
    ]
    else elim (find (is_object bucket key) w.objects) [
      | none ↦ (was_missing, w)
      | some o ↦
          if not (is_older grace now o)
          then (was_recent, w)
          else (was_deleted, record w { objects = remove_object bucket key w.objects })
    ]
