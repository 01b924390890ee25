-- ===== src/Attachments/Blobs/Uploading.antt =====
-- What an upload can do to the tables and the objects: put an object, add a blob whose object was
-- put, add a row of a ready blob, or take all rows back. A property kept by each is kept by all.
use voidchats_note2ee.Common.{
  ℕ, ◌≡◌, true, false, none, some, List, [], ◌∷◌, ◌++◌, map, arith, any, find, Bool-cases,
  Option-cases, inl, inr, length,
}
use voidchats_note2ee.Attachments.Rows.{
  Attachment, Blob, Db, Config, Verdict, given, ◌>>=◌, bind_given, Verdict-cases, has_id,
}
use voidchats_note2ee.Attachments.Triggers.{insert_attachment, add_reference, has_blob_id, is_ready}
use voidchats_note2ee.Attachments.ObjectKeys.{Text}
use voidchats_note2ee.Attachments.Blobs.{
  World, Upload, Machine, Prepared, put_object, is_at, has_hash, new_blob, create_blob, stage_blob,
  stage_blobs, staged_row, insert_one, insert_rows, stage_prepared, hashes_of, is_hashed,
  stage_uploaded_attachments, blob_of, prepare_all, assert_upload_allowed, sum_prepared,
  is_same_content,
}

abbrev pub inserted : Attachment → Db → Db
inserted r db = record db {
  attachments = db.attachments ++ r ∷ [];
  blobs = map (add_reference r.blob_id) db.blobs;
}

-- What an INSERT that succeeds has found, and what it leaves.
pub insert_attachment_lem :
    (r : Attachment) (db db' : Db)
    → insert_attachment r db ≡ some db'
    → (blob : Blob) × (find (has_blob_id r.blob_id) db.blobs ≡ some blob)
      × (is_ready blob.status ≡ true)
      × (find (has_id r.id) db.attachments ≡ none)
      × (inserted r db ≡ db')
unfolding insert_attachment
insert_attachment_lem r db db' h = elim (Option-cases (find (has_blob_id r.blob_id) db.blobs)) [
  | inl absent ↦ let bad = rw (absent, insert_attachment) at h in cc
  | inr (blob, found) ↦ elim (Bool-cases (is_ready blob.status)) [
    | inr busy ↦ let bad = rw (found, busy, insert_attachment) at h in cc
    | inl fine ↦ elim (Option-cases (find (has_id r.id) db.attachments)) [
      | inr (x, taken) ↦ let bad = rw (found, fine, taken, insert_attachment) at h in cc
      | inl new ↦
          let made = rw (found, fine, new, insert_attachment) at h in
          (blob, found, fine, new, ground arith)
    ]
  ]
]

module _ {κ} (config : Config) (machine : Machine) (bucket now : ℕ) (P : World → Type κ)
    (put : (key : Text) (w : World)
      → P w
      → P (record w { objects = put_object now bucket key w.objects }))
    (add : (p : Prepared) (w : World)
      → any (is_at bucket p.object_key) w.db.blobs ≡ false
      → P w
      → P (record {
        db = record w.db {
          blobs = w.db.blobs ++ new_blob config machine bucket now p w.db.blobs ∷ [];
        };
        objects = put_object now bucket p.object_key w.objects;
      }))
    (insert : (user conversation : ℕ) (p : Prepared) (blob : Blob) (w : World)
      → let r = staged_row config machine bucket now user conversation p blob in
        (found : Blob)
        → find (has_blob_id blob.id) w.db.blobs ≡ some found
        → is_ready found.status ≡ true
        → find (has_id p.id) w.db.attachments ≡ none
        → P w
        → P (record w { db = inserted r w.db })) where
  -- The rows as they were before the transaction, with the objects of now.
  Back : Db → World → Type κ
  Back db w = P w × P (record w { db = db })

  create-Back :
      (db : Db) (p : Prepared) (w : World)
      → Back db w
      → Back db (create_blob config machine bucket now p w).1
  unfolding Back create_blob
  create-Back db p w (held, back) = elim (Bool-cases (machine.put_fails p.object_key)) [
    | inl refused ↦ rw (refused, create_blob) (held, back)
    | inr stored ↦ elim (Bool-cases (any (is_at bucket p.object_key) w.db.blobs)) [
      | inl taken ↦
          rw (stored, taken, create_blob)
            (put p.object_key w held, put p.object_key (record w { db = db }) back)
      | inr free ↦
          rw (stored, free, create_blob)
            (add p w free held, put p.object_key (record w { db = db }) back)
    ]
  ]

  stage-Back :
      (db : Db) (p : Prepared) (w : World)
      → Back db w
      → Back db (stage_blob config machine bucket now p w).1
  unfolding stage_blob
  stage-Back db p w held = elim (Option-cases (find (has_hash p.content_hash) w.db.blobs)) [
    | inl new ↦ rw (new, stage_blob) (create-Back db p w held)
    | inr (blob, found) ↦ elim (Bool-cases (is_ready blob.status)) [
      | inr busy ↦ rw (found, busy, stage_blob) held
      | inl fine ↦ elim (Bool-cases (is_same_content bucket p blob)) [
        | inr other ↦ rw (found, fine, other, stage_blob) held
        | inl same ↦ rw (found, fine, same, stage_blob) held
      ]
    ]
  ]

  blobs-Back :
      (db : Db) (ps : List Prepared) (hashes : List Text) (w : World)
      → Back db w
      → Back db (stage_blobs config machine bucket now ps hashes w).1
  unfolding stage_blobs
  blobs-Back db ps [] w held = held
  blobs-Back db ps (hash ∷ rest) w held = elim (Option-cases (find (is_hashed hash) ps)) [
    | inl none_left ↦ rw (none_left, stage_blobs) held
    | inr (p, found) ↦
        let next = stage-Back db p w held in
        elim (Verdict-cases (stage_blob config machine bucket now p w).0) [
          | inl (blob, fine) ↦
              rw (found, fine, stage_blobs)
                (blobs-Back db ps rest (stage_blob config machine bucket now p w).1 next)
          | inr (inl (status, code, refused)) ↦ rw (found, refused, stage_blobs) next
          | inr (inr error) ↦ rw (found, error, stage_blobs) next
        ]
  ]

  module _ (user conversation : ℕ) where
    insert-Held :
        (p : Prepared) (by_hash : List (Text × Blob)) (w : World) (db' : Db)
        → insert_one config machine bucket now user conversation p by_hash w.db ≡ given db'
        → P w
        → P (record w { db = db' })
    unfolding insert_one
    insert-Held p by_hash w db' h held =
        elim (Option-cases (blob_of config machine bucket now p.content_hash by_hash)) [
          | inl absent ↦ let bad = rw (absent, insert_one) at h in cc
          | inr (blob, known) ↦
              let r = staged_row config machine bucket now user conversation p blob in
              elim (Option-cases (insert_attachment r w.db)) [
                | inl refused ↦ let bad = rw (known, refused, insert_one) at h in cc
                | inr (db'', made) ↦
                    let same : db'' ≡ db' = ground (arith, rw (known, made, insert_one) at h) in
                    let (found, at_id, fine, new, shape) = insert_attachment_lem r w.db db'' made in
                    rw (← same, ← shape)
                      (insert user conversation p blob w found at_id fine new held)
              ]
        ]

    rows-Held :
        (ps : List Prepared) (by_hash : List (Text × Blob)) (w : World) (db' : Db)
        → insert_rows config machine bucket now user conversation ps by_hash w.db ≡ given db'
        → P w
        → P (record w { db = db' })
    unfolding insert_rows
    rows-Held [] by_hash w db' h held = let same : w.db ≡ db' = ground arith in rw (← same) held
    rows-Held (p ∷ ps) by_hash w db' h held =
        let (mid, one, others) =
          bind_given (insert_one config machine bucket now user conversation p by_hash w.db)
            (insert_rows config machine bucket now user conversation ps by_hash) h in
        rows-Held ps by_hash (record w { db = mid }) db' others
          (insert-Held p by_hash w mid one held)

    prepared-Held :
        (ps : List Prepared) (w : World)
        → P w
        → P (stage_prepared config machine bucket now user conversation ps w).1
    unfolding stage_prepared Back
    prepared-Held ps w held =
        let blobs = stage_blobs config machine bucket now ps (hashes_of ps) w in
        let (fine, back) = blobs-Back w.db ps (hashes_of ps) w (held, held) in
        let rows : List (Text × Blob) → Verdict Db = λ by_hash.
          insert_rows config machine bucket now user conversation ps by_hash blobs.1.db in
        elim (Verdict-cases (blobs.0 >>= rows)) [
          | inl (db', all) ↦
              let (by_hash, staged_all, inserted_all) = bind_given blobs.0 rows all in
              rw (all, stage_prepared) (rows-Held ps by_hash blobs.1 db' inserted_all fine)
          | inr (inl (status, code, refused)) ↦ rw (refused, stage_prepared) back
          | inr (inr error) ↦ rw (error, stage_prepared) back
        ]

    pub upload-Held :
        (files : List Upload) (w : World)
        → P w
        → P (stage_uploaded_attachments config machine bucket now user conversation files w).1
    unfolding stage_uploaded_attachments
    upload-Held files w held = elim (Verdict-cases (prepare_all config machine bucket now files)) [
      | inr (inl (status, code, refused)) ↦ rw (refused, stage_uploaded_attachments) held
      | inr (inr error) ↦ rw (error, stage_uploaded_attachments) held
      | inl (ps, prepared) ↦
          elim (Verdict-cases
            (assert_upload_allowed config user (length ps) (sum_prepared ps) w.db)) [
              | inr (inl (status, code, refused)) ↦
                  rw (prepared, refused, stage_uploaded_attachments) held
              | inr (inr error) ↦ rw (prepared, error, stage_uploaded_attachments) held
              | inl (fits, allowed) ↦
                  rw (prepared, allowed, stage_uploaded_attachments) (prepared-Held ps w held)
            ]
    ]
