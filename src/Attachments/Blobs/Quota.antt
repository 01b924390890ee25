-- ===== src/Attachments/Blobs/Quota.antt =====
-- The quota of unsent files: an upload that succeeds stays within it.
use voidchats_note2ee.Common.{
  ℕ, ◌+◌, ◌≤◌, ◌≡◌, refl, ◌∙◌, Bool, true, ◌||◌, some, List, [], ◌∷◌, ◌++◌, ==_refl, arith, count,
  count-append, find, keep, length, ltb, Bool-cases, Option-cases, inl, inr,
}
use voidchats_note2ee.Attachments.Rows.{
  Attachment, Blob, Db, Config, Verdict, given, ◌>>=◌, bind_given, Verdict-cases,
}
use voidchats_note2ee.Attachments.Triggers.{insert_attachment}
use voidchats_note2ee.Attachments.ObjectKeys.{Text}
use voidchats_note2ee.Attachments.Blobs.{
  World, Upload, Machine, Prepared, sum_sizes, sum_prepared, is_staged_of, read_staged_usage,
  assert_upload_allowed, create_blob, stage_blob, stage_blobs, staged_row, insert_one, insert_rows,
  stage_prepared, stage_uploaded_attachments, blob_of, prepare_all, hashes_of, is_hashed,
}
use voidchats_note2ee.Attachments.Blobs.Uploading.{inserted, insert_attachment_lem}

-- The rows and the pending ingests are as before.
record AsBefore (db db' : Db) : Type 0 where
  same_rows : db'.attachments ≡ db.attachments
  same_ingests : db'.ingests ≡ db.ingests

sum-append :
    (user : ℕ) (rows : List Attachment) (r : Attachment) (n : ℕ)
    → r.size_bytes ≡ some n
    → is_staged_of user r ≡ true
    → sum_sizes (keep (is_staged_of user) (rows ++ r ∷ []))
      ≡ sum_sizes (keep (is_staged_of user) rows) + n
sum-append user [] r n sized mine = rw (mine, sized) (omega arith)
sum-append user (x ∷ xs) r n sized mine = elim (Bool-cases (is_staged_of user x)) [
  | inl its ↦ rw (its) (omega (arith, sum-append user xs r n sized mine))
  | inr other ↦ rw (other) (sum-append user xs r n sized mine)
]

module _ (config : Config) (machine : Machine) (bucket now : ℕ) where
  blob-AsBefore :
      (p : Prepared) (w : World) → AsBefore w.db (stage_blob config machine bucket now p w).1.db
  unfolding stage_blob create_blob
  blob-AsBefore p w = record { same_rows = ground arith; same_ingests = ground arith }

  blobs-AsBefore :
      (ps : List Prepared) (hashes : List Text) (w : World)
      → AsBefore w.db (stage_blobs config machine bucket now ps hashes w).1.db
  unfolding stage_blobs
  blobs-AsBefore ps [] w = record { same_rows = refl; same_ingests = refl }
  blobs-AsBefore ps (hash ∷ rest) w = elim (Option-cases (find (is_hashed hash) ps)) [
    | inl none_left ↦ rw (none_left, stage_blobs) (record { same_rows = refl; same_ingests = refl })
    | inr (p, found) ↦
        let one = blob-AsBefore p w in
        elim (Verdict-cases (stage_blob config machine bucket now p w).0) [
          | inl (blob, fine) ↦
              let more = blobs-AsBefore ps rest (stage_blob config machine bucket now p w).1 in
              rw (found, fine, stage_blobs)
                (record {
                  same_rows = more.same_rows ∙ one.same_rows;
                  same_ingests = more.same_ingests ∙ one.same_ingests;
                })
          | inr (inl (status, code, refused)) ↦ rw (found, refused, stage_blobs) one
          | inr (inr error) ↦ rw (found, error, stage_blobs) one
        ]
  ]

  module _ (user conversation : ℕ) where
    -- What rows of the user add to its usage.
    Grew : Db → Db → (rows bytes : ℕ) → Type 0
    Grew db db' rows bytes =
        (count (is_staged_of user) db'.attachments
          ≡ count (is_staged_of user) db.attachments + rows)
        × (sum_sizes (keep (is_staged_of user) db'.attachments)
            ≡ sum_sizes (keep (is_staged_of user) db.attachments) + bytes)
        × (db'.ingests ≡ db.ingests)

    inserted-Grew :
        (p : Prepared) (blob : Blob) (db : Db)
        → Grew db
            (inserted (staged_row config machine bucket now user conversation p blob) db)
            1
            p.size_bytes
    unfolding Grew
    inserted-Grew p blob db =
        let r = staged_row config machine bucket now user conversation p blob in
        (
          rw (count-append (is_staged_of user) db.attachments (r ∷ []), ==_refl user) (omega arith),
          sum-append user db.attachments r p.size_bytes refl (rw (==_refl user) refl),
          refl,
        )

    insert_one-Grew :
        (p : Prepared) (by_hash : List (Text × Blob)) (db db' : Db)
        → insert_one config machine bucket now user conversation p by_hash db ≡ given db'
        → Grew db db' 1 p.size_bytes
    unfolding insert_one
    insert_one-Grew p by_hash db db' h =
        elim (Option-cases (blob_of config machine bucket now p.content_hash by_hash)) [
          | inl absent ↦ let bad = rw (absent, insert_one) at h in cc
          | inr (blob, known) ↦
              let r = staged_row config machine bucket now user conversation p blob in
              elim (Option-cases (insert_attachment r db)) [
                | inl refused ↦ let bad = rw (known, refused, insert_one) at h in cc
                | inr (db'', made) ↦
                    let same : db'' ≡ db' = ground (arith, rw (known, made, insert_one) at h) in
                    let (found, at_id, fine, new, shape) = insert_attachment_lem r db db'' made in
                    rw (← same, ← shape) (inserted-Grew p blob db)
              ]
        ]

    insert_rows-Grew :
        (ps : List Prepared) (by_hash : List (Text × Blob)) (db db' : Db)
        → insert_rows config machine bucket now user conversation ps by_hash db ≡ given db'
        → Grew db db' (length ps) (sum_prepared ps)
    unfolding insert_rows Grew
    insert_rows-Grew [] by_hash db db' h =
        let same : db ≡ db' = ground arith in rw (← same) (omega arith, omega arith, refl)
    insert_rows-Grew (p ∷ ps) by_hash db db' h =
        let (mid, one, others) =
          bind_given (insert_one config machine bucket now user conversation p by_hash db)
            (insert_rows config machine bucket now user conversation ps by_hash) h in
        let (rows_one, bytes_one, ingests_one) = insert_one-Grew p by_hash db mid one in
        let (rows_more, bytes_more, ingests_more) = insert_rows-Grew ps by_hash mid db' others in
        (
          omega (arith, rows_one, rows_more),
          omega (arith, bytes_one, bytes_more),
          ingests_more ∙ ingests_one,
        )

    stage_prepared-Grew :
        (ps : List Prepared) (w : World)
        → (stage_prepared config machine bucket now user conversation ps w).0 ≡ given true
        → Grew w.db
            (stage_prepared config machine bucket now user conversation ps w).1.db
            (length ps)
            (sum_prepared ps)
    unfolding stage_prepared Grew
    stage_prepared-Grew ps w h =
        let blobs = stage_blobs config machine bucket now ps (hashes_of ps) w in
        let before = blobs-AsBefore ps (hashes_of ps) w in
        let rows : List (Text × Blob) → Verdict Db = λ by_hash.
          insert_rows config machine bucket now user conversation ps by_hash blobs.1.db in
        elim (Verdict-cases (blobs.0 >>= rows)) [
          | inl (db', all) ↦
              let (by_hash, staged_all, inserted_all) = bind_given blobs.0 rows all in
              let (more_rows, more_bytes, same) =
                insert_rows-Grew ps by_hash blobs.1.db db' inserted_all in
              rw (all, stage_prepared)
                (
                  rw (← before.same_rows) more_rows,
                  rw (← before.same_rows) more_bytes,
                  same ∙ before.same_ingests,
                )
          | inr (inl (status, code, refused)) ↦ let bad = rw (refused, stage_prepared) at h in cc
          | inr (inr error) ↦ let bad = rw (error, stage_prepared) at h in cc
        ]

    quota_kept :
        (ps : List Prepared) (w : World) (fits : Bool) (db' : Db)
        → assert_upload_allowed config user (length ps) (sum_prepared ps) w.db ≡ given fits
        → Grew w.db db' (length ps) (sum_prepared ps)
        → ((read_staged_usage user db').0 ≤ config.staged_max_count)
          × ((read_staged_usage user db').1 ≤ config.staged_max_bytes)
    unfolding assert_upload_allowed Grew
    quota_kept ps w fits db' allowed (rows, bytes, ingests) =
        let usage = read_staged_usage user w.db in
        elim (Bool-cases (
          ltb config.staged_max_count (usage.0 + length ps)
          || ltb config.staged_max_bytes (usage.1 + sum_prepared ps))) [
            | inl over ↦ let bad = rw (over, assert_upload_allowed) at allowed in cc
            | inr under ↦
                let few : usage.0 + length ps ≤ config.staged_max_count = ground (arith, under) in
                let small : usage.1 + sum_prepared ps ≤ config.staged_max_bytes =
                  ground (arith, under) in
                rw (ingests, rows, bytes) (omega (arith, few), omega (arith, small))
          ]

    -- After an upload that succeeds, the files of the user that wait and are not sent, with those
    -- still in processing, are within the limits of the configuration, in number and in bytes.
    pub upload_within_quota :
        (files : List Upload) (w : World)
        → let outcome =
            stage_uploaded_attachments config machine bucket now user conversation files w in
          outcome.0 ≡ given true
          → ((read_staged_usage user outcome.1.db).0 ≤ config.staged_max_count)
            × ((read_staged_usage user outcome.1.db).1 ≤ config.staged_max_bytes)
    unfolding stage_uploaded_attachments
    upload_within_quota files w h =
        elim (Verdict-cases (prepare_all config machine bucket now files)) [
          | inr (inl (status, code, refused)) ↦
              let bad = rw (refused, stage_uploaded_attachments) at h in cc
          | inr (inr error) ↦ let bad = rw (error, stage_uploaded_attachments) at h in cc
          | inl (ps, prepared) ↦
              elim (Verdict-cases
                (assert_upload_allowed config user (length ps) (sum_prepared ps) w.db)) [
                  | inr (inl (status, code, refused)) ↦
                      let bad = rw (prepared, refused, stage_uploaded_attachments) at h in cc
                  | inr (inr error) ↦
                      let bad = rw (prepared, error, stage_uploaded_attachments) at h in cc
                  | inl (fits, allowed) ↦
                      rw (prepared, allowed, stage_uploaded_attachments)
                        (quota_kept ps w fits
                          (stage_prepared config machine bucket now user conversation ps w).1.db
                          allowed
                          (stage_prepared-Grew ps w
                            (rw (prepared, allowed, stage_uploaded_attachments) at h)))
                ]
        ]
