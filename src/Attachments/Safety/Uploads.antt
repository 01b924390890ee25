-- ===== src/Attachments/Safety/Uploads.antt =====
-- An upload keeps the invariant: an object is put before its blob is there, a blob has a new
-- identifier and place, and a row is only inserted for a ready blob.
use voidchats_note2ee.Common.{
  ℕ, ◌≤◌, ◌≡◌, refl, true, false, not, ◌&&◌, Option, none, some, List, [], ◌∷◌, ◌++◌, ◌==◌, ==_iff,
  ==_refl, arith, any, any-append, any-keep, any-find, count, count-append, count_of_any, every,
  every-append, every_mono, find, find_sound, keep, Bool-cases, inl, inr, same_list,
  same_list_sound, same_list_refl,
}
use voidchats_note2ee.Attachments.Rows.{Attachment, Blob, Db, Config}
use voidchats_note2ee.Attachments.Triggers.{has_blob_id, is_ready, add_reference}
use voidchats_note2ee.Attachments.ObjectKeys.{Text}
use voidchats_note2ee.Attachments.Blobs.{
  StoredObject, World, Upload, Machine, Prepared, is_at, is_object, put_object, new_blob,
  staged_row, stage_uploaded_attachments,
}
use voidchats_note2ee.Attachments.Blobs.Uploading.{inserted, upload-Held}
use voidchats_note2ee.Attachments.Collecting.{Claim}
use voidchats_note2ee.Attachments.Safety.Blobs.{
  is_kept, is_ready_blob, has_poster, is_served, is_claimed, claim_fits, IsSafe, IsQuiet,
  map-IsSafe, rows-IsSafe,
}

-- An object in two places is in one.
pub one_place :
    (b c : ℕ) (k l : Text) (o : StoredObject)
    → is_object b k o ≡ true
    → is_object c l o ≡ true
    → (c == b && same_list l k) ≡ true
one_place b c k l o here there =
    let bucket : o.bucket ≡ b = ground arith in
    let bucket' : o.bucket ≡ c = ground arith in
    let key : o.object_key ≡ k = same_list_sound o.object_key k (ground arith) in
    let key' : o.object_key ≡ l = same_list_sound o.object_key l (ground arith) in
    rw (← bucket, ← bucket', ← key, ← key', ==_refl o.bucket, same_list_refl o.object_key) refl

put_object-any :
    (now bucket b : ℕ) (key k : Text) (objects : List StoredObject)
    → any (is_object b k) objects ≡ true
    → any (is_object b k) (put_object now bucket key objects) ≡ true
put_object-any now bucket b key k objects h = elim (Bool-cases (bucket == b && same_list key k)) [
  | inl this ↦
      rw (any-append (is_object b k) (keep (λ o. not (is_object bucket key o)) objects) _)
        (ground (arith, this))
  | inr other ↦
      rw
        (
          any-append (is_object b k) (keep (λ o. not (is_object bucket key o)) objects) _,
          any-keep (is_object b k) (λ o. not (is_object bucket key o))
              (λ o here. ground (arith, one_place b bucket k key o here)) objects h,
        )
        refl
]

put_object-at :
    (now bucket : ℕ) (key : Text) (objects : List StoredObject)
    → any (is_object bucket key) (put_object now bucket key objects) ≡ true
put_object-at now bucket key objects =
    rw (any-append (is_object bucket key) (keep (λ o. not (is_object bucket key o)) objects) _)
      (ground (arith, ==_refl bucket, same_list_refl key))

put-stored :
    (now bucket : ℕ) (key : Text) (objects : List StoredObject) (blobs : List Blob)
    → every (is_kept objects) blobs ≡ true
    → every (is_kept (put_object now bucket key objects)) blobs ≡ true
put-stored now bucket key objects =
    every_mono (is_kept objects) (is_kept (put_object now bucket key objects))
      (λ x h. ground (arith, put_object-any now bucket x.bucket key x.object_key objects))

put-IsSafe :
    (now bucket : ℕ) (key : Text) (objects : List StoredObject) (claim : Option Claim) (db : Db)
    → IsSafe objects claim db
    → IsSafe (put_object now bucket key objects) claim db
put-IsSafe now bucket key objects claim db safe = record {
  stored = put-stored now bucket key objects db.blobs safe.stored;
  served = safe.served;
  claimed = safe.claimed;
  keyed = safe.keyed;
  placed = safe.placed;
}

add-IsQuiet : (b : ℕ) → IsQuiet (add_reference b)
add-IsQuiet b = record {
  same_id = λ x. ground arith;
  same_bucket = λ x. ground arith;
  same_key = λ x. ground arith;
  same_status = λ x. ground arith;
}

-- A further blob at the end takes nothing from the attachments or the claim.
ready-append :
    (b : ℕ) (blobs more : List Blob)
    → any (is_ready_blob b) blobs ≡ true
    → any (is_ready_blob b) (blobs ++ more) ≡ true
ready-append b blobs more h = rw (any-append (is_ready_blob b) blobs more, h) refl

poster-append :
    (p : Option ℕ) (blobs more : List Blob)
    → has_poster blobs p ≡ true
    → has_poster (blobs ++ more) p ≡ true
poster-append none blobs more h = refl
poster-append (some p) blobs more h = ready-append p blobs more h

served-append :
    (blobs more : List Blob) (r : Attachment)
    → is_served blobs r ≡ true
    → is_served (blobs ++ more) r ≡ true
served-append blobs more r h =
    ground (arith, ready-append r.blob_id blobs more, poster-append r.poster_blob_id blobs more)

claim-append :
    (c : Option Claim) (blobs more : List Blob)
    → claim_fits c blobs ≡ true
    → claim_fits c (blobs ++ more) ≡ true
claim-append none blobs more h = refl
claim-append (some c) blobs more h = rw (any-append (is_claimed c) blobs more, h) refl

module _ (config : Config) (machine : Machine) (bucket now : ℕ)
    (fresh : (blobs : List Blob) → count (has_blob_id (machine.fresh_id blobs)) blobs ≡ 0) where
  new-keyed :
      (p : Prepared) (blobs : List Blob)
      → ((b : ℕ) → count (has_blob_id b) blobs ≤ 1)
      → (b : ℕ)
      → count (has_blob_id b) (blobs ++ new_blob config machine bucket now p blobs ∷ []) ≤ 1
  new-keyed p blobs keyed b =
      rw (count-append (has_blob_id b) blobs (new_blob config machine bucket now p blobs ∷ []))
        (elim (Bool-cases (machine.fresh_id blobs == b)) [
          | inl this ↦
              let same : machine.fresh_id blobs ≡ b = (==_iff (machine.fresh_id blobs) b).0 this in
              let none_yet : count (has_blob_id b) blobs ≡ 0 = rw (← same) (fresh blobs) in
              rw (this, none_yet) (omega arith)
          | inr other ↦ rw (other) (omega (arith, keyed b))
        ])

  new-placed :
      (p : Prepared) (blobs : List Blob)
      → any (is_at bucket p.object_key) blobs ≡ false
      → ((b : ℕ) (k : Text) → count (is_at b k) blobs ≤ 1)
      → (b : ℕ) (k : Text)
      → count (is_at b k) (blobs ++ new_blob config machine bucket now p blobs ∷ []) ≤ 1
  new-placed p blobs free placed b k =
      rw (count-append (is_at b k) blobs (new_blob config machine bucket now p blobs ∷ []))
        (elim (Bool-cases (bucket == b && same_list p.object_key k)) [
          | inl this ↦
              let same : bucket ≡ b = ground arith in
              let key : p.object_key ≡ k = same_list_sound p.object_key k (ground arith) in
              let none_yet : count (is_at b k) blobs ≡ 0 =
                rw (← same, ← key) (count_of_any (is_at bucket p.object_key) blobs free) in
              rw (this, none_yet) (omega arith)
          | inr other ↦ rw (other) (omega (arith, placed b k))
        ])

  blob-IsSafe :
      (p : Prepared) (objects : List StoredObject) (claim : Option Claim) (db : Db)
      → any (is_at bucket p.object_key) db.blobs ≡ false
      → IsSafe objects claim db
      → IsSafe
          (put_object now bucket p.object_key objects)
          claim
          (record db { blobs = db.blobs ++ new_blob config machine bucket now p db.blobs ∷ [] })
  blob-IsSafe p objects claim db free safe =
      let blob = new_blob config machine bucket now p db.blobs in
      record {
        stored =
            rw
              (
                every-append (is_kept (put_object now bucket p.object_key objects)) db.blobs
                    (blob ∷ []),
                put-stored now bucket p.object_key objects db.blobs safe.stored,
                put_object-at now bucket p.object_key objects,
              )
              refl;
        served =
            every_mono (is_served db.blobs) (is_served (db.blobs ++ blob ∷ []))
              (served-append db.blobs (blob ∷ [])) db.attachments safe.served;
        claimed = claim-append claim db.blobs (blob ∷ []) safe.claimed;
        keyed = new-keyed p db.blobs safe.keyed;
        placed = new-placed p db.blobs free safe.placed;
      }

  row-IsSafe :
      (user conversation : ℕ) (p : Prepared) (blob found : Blob) (objects : List StoredObject)
      (claim : Option Claim) (db : Db)
      → find (has_blob_id blob.id) db.blobs ≡ some found
      → is_ready found.status ≡ true
      → IsSafe objects claim db
      → IsSafe objects claim
          (inserted (staged_row config machine bucket now user conversation p blob) db)
  row-IsSafe user conversation p blob found objects claim db at_id fine safe =
      let r = staged_row config machine bucket now user conversation p blob in
      let same_id = find_sound (has_blob_id blob.id) db.blobs found at_id in
      let ready_one : any (is_ready_blob blob.id) db.blobs ≡ true =
        any-find (has_blob_id blob.id) (is_ready_blob blob.id) db.blobs at_id
          (ground (arith, same_id)) in
      map-IsSafe (add_reference blob.id) (add-IsQuiet blob.id) objects claim
        (record db { attachments = db.attachments ++ r ∷ [] })
        (rows-IsSafe objects claim db (db.attachments ++ r ∷ []) safe (
          rw (every-append (is_served db.blobs) db.attachments (r ∷ []), safe.served, ready_one)
            refl))

  -- An upload, however it ends, keeps the invariant.
  pub upload-IsSafe :
      (user conversation : ℕ) (files : List Upload) (claim : Option Claim) (w : World)
      → IsSafe w.objects claim w.db
      → let w' =
          (stage_uploaded_attachments config machine bucket now user conversation files w).1 in
        IsSafe w'.objects claim w'.db
  upload-IsSafe user conversation files claim w =
      upload-Held config machine bucket now (λ w'. IsSafe w'.objects claim w'.db)
        (λ key w' safe. put-IsSafe now bucket key w'.objects claim w'.db safe)
        (λ p w' free safe. blob-IsSafe p w'.objects claim w'.db free safe)
        (λ u c p blob w' found at_id fine new safe.
          row-IsSafe u c p blob found w'.objects claim w'.db at_id fine safe)
        user conversation files w
