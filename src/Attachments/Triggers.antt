-- ===== src/Attachments/Triggers.antt =====
-- The triggers of VOID0000-api/db/migrations/0011_attachment_blob_deduplication.sql and
-- 0016_video_attachment_metadata.sql: `attachment_blobs.ref_count` counts the attachments that
-- use a blob, as their file or as their poster, and `orphaned_at` is when the last one went.
use voidchats_note2ee.Common.{
  ℕ, ◌+◌, ◌-◌, Bool, true, false, not, Option, none, some, List, [], ◌∷◌, ◌++◌, ◌==◌, leb,
  if◌then◌else◌, map, keep, find,
}
use voidchats_note2ee.Attachments.Rows.{Attachment, Blob, BlobStatus, ready, deleting, Db}

abbrev pub has_blob_id : ℕ → Blob → Bool
has_blob_id b blob = blob.id == b

-- `COALESCE(value, otherwise)`
abbrev pub coalesce : Option ℕ → ℕ → Option ℕ
coalesce none otherwise = some otherwise
coalesce (some v) otherwise = some v

abbrev pub is_ready : BlobStatus → Bool
is_ready ready = true
is_ready deleting = false

-- One reference more, on the blob of the given identifier.
abbrev pub add_reference : ℕ → Blob → Blob
add_reference b blob =
    if has_blob_id b blob
    then record blob { ref_count = blob.ref_count + 1; orphaned_at = none }
    else blob

-- One reference less: `GREATEST(ref_count - 1, 0)`.
abbrev pub drop_reference : (now : ℕ) → ℕ → Blob → Blob
drop_reference now b blob =
    if has_blob_id b blob
    then record blob {
      ref_count = blob.ref_count - 1;
      orphaned_at =
          if leb blob.ref_count 1 then coalesce blob.orphaned_at now else blob.orphaned_at;
    }
    else blob

-- The trigger on the poster acts only where there is one.
abbrev pub drop_poster : (now : ℕ) → Option ℕ → List Blob → List Blob
drop_poster now none blobs = blobs
drop_poster now (some b) blobs = map (drop_reference now b) blobs

-- What the deletion of a row does to the blobs.
abbrev pub release_row : (now : ℕ) → Attachment → List Blob → List Blob
release_row now r blobs =
    map (drop_reference now r.blob_id) (drop_poster now r.poster_blob_id blobs)

abbrev pub release_rows : (now : ℕ) → List Attachment → List Blob → List Blob
release_rows now [] blobs = blobs
release_rows now (r ∷ rs) blobs = release_rows now rs (release_row now r blobs)

-- `DELETE FROM attachment_objects WHERE …`
unfoldable pub delete_where : (now : ℕ) → (Attachment → Bool) → Db → Db
delete_where now test db = record db {
  attachments = keep (λ r. not (test r)) db.attachments;
  blobs = release_rows now (keep test db.attachments) db.blobs;
}

-- `INSERT INTO attachment_objects` of a row without a poster; `none` when the blob is missing or
-- not ready (`require_ready_attachment_blob`), or the identifier is taken.
unfoldable pub insert_attachment : Attachment → Db → Option Db
insert_attachment r db = elim (find (has_blob_id r.blob_id) db.blobs) [
  | none ↦ none
  | some blob ↦
      if is_ready blob.status
      then elim (find (λ x. x.id == r.id) db.attachments) [
        | some taken ↦ none
        | none ↦ some (record db {
          attachments = db.attachments ++ r ∷ [];
          blobs = map (add_reference r.blob_id) db.blobs;
        })
      ]
      else none
]
