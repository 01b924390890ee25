-- ===== src/Attachments/Blobs.antt =====
-- VOID0000-api/server/attachments/lifecycleCore.ts: `readStagedUsage`, `assertStagedUploadQuota`,
-- `assertUploadAllowed` and `stageUploadedAttachments`, over the tables and the object store. An
-- object put into the store stays when the transaction is rolled back.
pub mod Uploading
pub mod Quota
use voidchats_note2ee.Common.{
  ℕ, suc, ◌+◌, Bool, true, false, not, ◌&&◌, ◌||◌, Option, none, some, List, [], ◌∷◌, ◌++◌, ◌==◌,
  ltb, if◌then◌else◌, find, keep, length, count, any, same_list,
}
use voidchats_note2ee.Attachments.Rows.{
  Attachment, Blob, BlobStatus, ready, deleting, Ingest, Db, Config, Verdict, given, failed, broken,
  ◌>>=◌, quota_exceeded, blob_busy, blob_conflict, staged, is_staged, seconds,
}
use voidchats_note2ee.Attachments.Triggers.{is_ready, insert_attachment}
use voidchats_note2ee.Attachments.ObjectKeys.{Text, create_object_key}

pub record StoredObject : Type 0 where
  pub bucket : ℕ
  pub object_key : Text
  pub last_modified : ℕ

pub record World : Type 0 where
  pub db : Db
  pub objects : List StoredObject

-- StagedAttachmentInput
pub record Upload : Type 0 where
  pub id : ℕ
  pub buffer : List ℕ
  pub content_type : ℕ
  pub shown_inline : Bool

-- PreparedAttachment
pub record Prepared : Type 0 where
  pub id : ℕ
  pub content_hash : Text
  pub object_key : Text
  pub size_bytes : ℕ
  pub content_type : ℕ
  pub shown_inline : Bool

-- What the code takes from its libraries: the SHA-256 digest as text, `trim` with `toLowerCase`,
-- the identifier that the database makes for a new blob, and which objects the store refuses.
pub record Machine : Type 0 where
  pub digest : List ℕ → Text
  pub normalize : Text → Text
  pub fresh_id : List Blob → ℕ
  pub put_fails : Text → Bool

abbrev pub sum_sizes : List Attachment → ℕ
sum_sizes [] = 0
sum_sizes (r ∷ rs) = (elim r.size_bytes [ none ↦ 0 | some n ↦ n ]) + sum_sizes rs

abbrev pub sum_ingests : List Ingest → ℕ
sum_ingests [] = 0
sum_ingests (i ∷ rest) = i.reserved_bytes + sum_ingests rest

abbrev pub is_staged_of : ℕ → Attachment → Bool
is_staged_of user r = r.uploader_id == user && is_staged r.status

abbrev pub is_pending_of : ℕ → Ingest → Bool
is_pending_of user i = i.uploader_id == user && i.is_pending

-- `{ count, bytes }`
abbrev pub read_staged_usage : ℕ → Db → ℕ × ℕ
read_staged_usage user db = (
  count (is_staged_of user) db.attachments + count (is_pending_of user) db.ingests,
  sum_sizes (keep (is_staged_of user) db.attachments)
      + sum_ingests (keep (is_pending_of user) db.ingests),
)

abbrev pub assert_staged_upload_quota :
    Config → (usage : ℕ × ℕ) → (incoming_count incoming_bytes : ℕ) → Verdict Bool
assert_staged_upload_quota config (n, bytes) incoming_count incoming_bytes =
    if ltb config.staged_max_count (n + incoming_count)
      || ltb config.staged_max_bytes (bytes + incoming_bytes)
    then failed 429 quota_exceeded
    else given true

unfoldable pub assert_upload_allowed :
    Config → (user incoming_count incoming_bytes : ℕ) → Db → Verdict Bool
assert_upload_allowed config user incoming_count incoming_bytes db =
    assert_staged_upload_quota config (read_staged_usage user db) incoming_count incoming_bytes

abbrev pub sum_prepared : List Prepared → ℕ
sum_prepared [] = 0
sum_prepared (p ∷ ps) = p.size_bytes + sum_prepared ps

-- The order of texts, by the codes of their characters.
abbrev pub text_before : Text → Text → Bool
text_before [] [] = false
text_before [] (d ∷ ds) = true
text_before (c ∷ cs) [] = false
text_before (c ∷ cs) (d ∷ ds) = ltb c d || c == d && text_before cs ds

abbrev pub place_text : Text → List Text → List Text
place_text t [] = t ∷ []
place_text t (u ∷ us) = if text_before t u then t ∷ u ∷ us else u ∷ place_text t us

-- `[...attachmentGroups.keys()].sort()`: each hash once, in order.
abbrev pub hashes_of : List Prepared → List Text
hashes_of [] = []
hashes_of (p ∷ ps) =
    let rest = hashes_of ps in
    if any (same_list p.content_hash) rest then rest else place_text p.content_hash rest

abbrev pub has_hash : Text → Blob → Bool
has_hash hash blob = elim blob.content_hash [ none ↦ false | some h ↦ same_list h hash ]

abbrev pub is_hashed : Text → Prepared → Bool
is_hashed hash p = same_list p.content_hash hash

abbrev pub is_at : (bucket : ℕ) (key : Text) → Blob → Bool
is_at bucket key blob = blob.bucket == bucket && same_list blob.object_key key

abbrev pub is_object : (bucket : ℕ) (key : Text) → StoredObject → Bool
is_object bucket key o = o.bucket == bucket && same_list o.object_key key

-- `putObject` and `removeObject`
abbrev pub put_object : (now bucket : ℕ) (key : Text) → List StoredObject → List StoredObject
put_object now bucket key objects =
    keep (λ o. not (is_object bucket key o)) objects
    ++ record { bucket = bucket; object_key = key; last_modified = now } ∷ []

abbrev pub remove_object : (bucket : ℕ) (key : Text) → List StoredObject → List StoredObject
remove_object bucket key objects = keep (λ o. not (is_object bucket key o)) objects

-- The stored metadata are those of the representative.
abbrev pub is_same_content : (bucket : ℕ) → Prepared → Blob → Bool
is_same_content bucket p blob =
    is_at bucket p.object_key blob
    && (elim blob.size_bytes [ none ↦ p.size_bytes == 0 | some n ↦ n == p.size_bytes ])
    && (elim blob.content_type [ none ↦ false | some t ↦ t == p.content_type ])
    && (elim blob.shown_inline [
      | none ↦ false
      | some b ↦ b && p.shown_inline || not b && not p.shown_inline
    ])

module _ (config : Config) (machine : Machine) (bucket now : ℕ) where
  abbrev pub new_blob : Prepared → List Blob → Blob
  new_blob p blobs = record {
    id = machine.fresh_id blobs;
    content_hash = some p.content_hash;
    bucket = bucket;
    object_key = p.object_key;
    size_bytes = some p.size_bytes;
    content_type = some p.content_type;
    shown_inline = some p.shown_inline;
    status = ready;
    ref_count = 0;
    orphaned_at = some now;
  }

  -- A Buffer without bytes is a TypeError.
  abbrev pub prepare : Upload → Verdict Prepared
  prepare u =
      if length u.buffer == 0
      then broken
      else elim (create_object_key machine.normalize (machine.digest u.buffer)) [
        | none ↦ broken
        | some key ↦ given (record {
          id = u.id;
          content_hash = machine.digest u.buffer;
          object_key = key;
          size_bytes = length u.buffer;
          content_type = u.content_type;
          shown_inline = u.shown_inline;
        })
      ]

  abbrev pub prepare_all : List Upload → Verdict (List Prepared)
  prepare_all [] = given []
  prepare_all (u ∷ us) = prepare u >>= λ p. prepare_all us >>= λ ps. given (p ∷ ps)

  -- A new blob: its object is put first; `broken` also when another blob has the place.
  unfoldable pub create_blob : Prepared → World → Verdict Blob × World
  create_blob p w =
      let stored = record w { objects = put_object now bucket p.object_key w.objects } in
      let blob = new_blob p w.db.blobs in
      if machine.put_fails p.object_key
      then (broken, w)
      else if any (is_at bucket p.object_key) w.db.blobs
      then (broken, stored)
      else (given blob, record stored { db = record w.db { blobs = w.db.blobs ++ blob ∷ [] } })

  -- The blob of a hash, for its first attachment.
  unfoldable pub stage_blob : Prepared → World → Verdict Blob × World
  stage_blob p w = elim (find (has_hash p.content_hash) w.db.blobs) [
    | none ↦ create_blob p w
    | some blob ↦
        if not (is_ready blob.status)
        then (failed 503 blob_busy, w)
        else if not (is_same_content bucket p blob)
        then (failed 409 blob_conflict, w)
        else (given blob, w)
  ]

  -- `blobByHash`, filled hash by hash.
  unfoldable pub stage_blobs :
      List Prepared → List Text → World → Verdict (List (Text × Blob)) × World
  stage_blobs ps [] w = (given [], w)
  stage_blobs ps (hash ∷ rest) w = elim (find (is_hashed hash) ps) [
    | none ↦ (broken, w)
    | some p ↦
        let staged_one = stage_blob p w in
        let others = stage_blobs ps rest staged_one.1 in
        elim staged_one.0 [
          | given blob ↦ (others.0 >>= λ more. given ((hash, blob) ∷ more), others.1)
          | failed status code ↦ (failed status code, staged_one.1)
          | broken ↦ (broken, staged_one.1)
        ]
  ]

  abbrev pub blob_of : Text → List (Text × Blob) → Option Blob
  blob_of hash [] = none
  blob_of hash ((h, blob) ∷ rest) = if same_list h hash then some blob else blob_of hash rest

  abbrev pub staged_row : (user conversation : ℕ) → Prepared → Blob → Attachment
  staged_row user conversation p blob = record {
    id = p.id;
    conversation_id = conversation;
    uploader_id = user;
    blob_id = blob.id;
    poster_blob_id = none;
    status = staged;
    size_bytes = some p.size_bytes;
    staged_at = some now;
    expires_at = some (now + seconds config.staged_ttl_seconds);
    reserved_at = none;
    reserved_until = none;
    reservation_id = none;
    committed_at = none;
    message_id = none;
    scylla_write_policy = none;
    scylla_write_acknowledged_at = none;
  }

  unfoldable pub insert_one :
      (user conversation : ℕ) → Prepared → List (Text × Blob) → Db → Verdict Db
  insert_one user conversation p by_hash db = elim (blob_of p.content_hash by_hash) [
    | none ↦ broken
    | some blob ↦ elim (insert_attachment (staged_row user conversation p blob) db) [
      | none ↦ broken
      | some db' ↦ given db'
    ]
  ]

  unfoldable pub insert_rows :
      (user conversation : ℕ) → List Prepared → List (Text × Blob) → Db → Verdict Db
  insert_rows user conversation [] by_hash db = given db
  insert_rows user conversation (p ∷ ps) by_hash db =
      insert_one user conversation p by_hash db >>= insert_rows user conversation ps by_hash

  -- COMMIT with the rows inserted, or ROLLBACK, which leaves the objects that were put.
  abbrev pub close : World → (after_blobs : World) → Verdict Db → Verdict Bool × World
  close w w' (given db') = (given true, record w' { db = db' })
  close w w' (failed status code) = (failed status code, record w' { db = w.db })
  close w w' broken = (broken, record w' { db = w.db })

  unfoldable pub stage_prepared :
      (user conversation : ℕ) → List Prepared → World → Verdict Bool × World
  stage_prepared user conversation ps w =
      let blobs = stage_blobs ps (hashes_of ps) w in
      close w blobs.1 (blobs.0 >>= λ by_hash. insert_rows user conversation ps by_hash blobs.1.db)

  unfoldable pub stage_uploaded_attachments :
      (user conversation : ℕ) → List Upload → World → Verdict Bool × World
  stage_uploaded_attachments user conversation uploads w = elim (prepare_all uploads) [
    | failed status code ↦ (failed status code, w)
    | broken ↦ (broken, w)
    | given ps ↦ elim (assert_upload_allowed config user (length ps) (sum_prepared ps) w.db) [
      | failed status code ↦ (failed status code, w)
      | broken ↦ (broken, w)
      | given fits ↦ stage_prepared user conversation ps w
    ]
  ]
