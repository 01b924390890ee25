-- ===== src/Attachments/Safety/Claiming.antt =====
-- The collector's first transaction keeps the invariant.
use voidchats_note2ee.Common.{
  ℕ, ◌≤◌, ◌≡◌, refl, sym, ◌∙◌, subst, Bool, true, false, not, ◌&&◌, Option, none, some, List, [],
  ◌∷◌, ◌==◌, ==_iff, ==_refl, arith, any, any-map, any-find, any-every, any_mono, count, count-map,
  count_apart, every, every_mono, every_mono_where, every_fails, every-map, every_opposite, find,
  find_sound, map, Bool-cases, Option-cases, inl, inr, same_list_refl,
}
use voidchats_note2ee.Attachments.Rows.{Attachment, Blob, Db, holds}
use voidchats_note2ee.Attachments.Triggers.{has_blob_id, is_ready}
use voidchats_note2ee.Attachments.Blobs.{StoredObject, is_at}
use voidchats_note2ee.Attachments.Collecting.{
  claim_of, claim_blob, refers_to, recount, mark_deleting, is_orphan,
}
use voidchats_note2ee.Attachments.Safety.Blobs.{
  is_kept, is_ready_blob, has_poster, is_served, is_claimed, IsSafe,
}

-- Marking a blob that no attachment uses takes nothing from the attachments.
mark-ready :
    (b d : ℕ) (blobs : List Blob)
    → (d == b) ≡ false
    → any (is_ready_blob d) (map (mark_deleting b) blobs) ≡ any (is_ready_blob d) blobs
mark-ready b d blobs other =
    any-map (is_ready_blob d) (is_ready_blob d) (mark_deleting b) (λ x. ground (arith, other)) blobs

mark-served :
    (b : ℕ) (blobs : List Blob) (r : Attachment)
    → is_served blobs r ≡ true
    → not (refers_to b r) ≡ true
    → is_served (map (mark_deleting b) blobs) r ≡ true
mark-served b blobs r served apart =
    rw (mark-ready b r.blob_id blobs (ground arith)) (ground (arith, poster r.poster_blob_id))
  where
    poster :
        (p : Option ℕ)
        → holds p b ≡ false
        → has_poster blobs p ≡ true
        → has_poster (map (mark_deleting b) blobs) p ≡ true
    poster none other h = refl
    poster (some p) other h = mark-ready b p blobs other ∙ h

marked :
    (b : ℕ) (blob : Blob) → blob.id ≡ b → is_claimed (claim_of blob) (mark_deleting b blob) ≡ true
marked b blob same = elim (Bool-cases (is_ready blob.status)) [
  | inl fine ↦
      rw (same, ==_refl b, fine, ==_refl b, ==_refl blob.bucket, same_list_refl blob.object_key)
        refl
  | inr going ↦
      ground (arith, same, going, ==_refl b, ==_refl blob.bucket, same_list_refl blob.object_key)
]

mark-IsSafe :
    (b : ℕ) (test : Blob → Bool) (blob : Blob) (objects : List StoredObject) (db : Db)
    → find (λ x. has_blob_id b x && test x) db.blobs ≡ some blob
    → any (refers_to b) db.attachments ≡ false
    → IsSafe objects none db
    → IsSafe objects (some (claim_of blob)) (record db { blobs = map (mark_deleting b) db.blobs })
mark-IsSafe b test blob objects db found unused safe =
    let same : blob.id ≡ b =
      ground (arith, find_sound (λ x. has_blob_id b x && test x) db.blobs blob found) in
    record {
      stored =
          every-map (is_kept objects) (λ x. is_kept objects (mark_deleting b x)) (mark_deleting b)
            (λ x. refl) db.blobs
          ∙ every_mono (is_kept objects) (λ x. is_kept objects (mark_deleting b x))
              (λ x h. ground arith) db.blobs safe.stored;
      served =
          every_mono_where (is_served db.blobs) (is_served (map (mark_deleting b) db.blobs))
            (λ r. not (refers_to b r)) (mark-served b db.blobs) db.attachments safe.served
            (ground (
              arith,
              unused,
              every_opposite (refers_to b) (λ r. not (refers_to b r)) (λ r. ground arith)
                  db.attachments,
            ));
      claimed =
          any-map (is_claimed (claim_of blob)) (λ x. is_claimed (claim_of blob) (mark_deleting b x))
            (mark_deleting b) (λ x. refl) db.blobs
          ∙ any-find (λ x. has_blob_id b x && test x)
              (λ x. is_claimed (claim_of blob) (mark_deleting b x)) db.blobs found
              (marked b blob same);
      keyed = λ d.
          subst (λ n. n ≤ 1)
            (sym (
              count-map (mark_deleting b) (has_blob_id d) (has_blob_id d) (λ x. ground arith)
                db.blobs))
            (safe.keyed d);
      placed = λ bucket key.
          subst (λ n. n ≤ 1)
            (sym (
              count-map (mark_deleting b) (is_at bucket key) (is_at bucket key) (λ x. ground arith)
                db.blobs))
            (safe.placed bucket key);
    }

any_const : {A : Type 0} (b : Bool) (xs : List A) → any (λ x. b) xs ≡ true → b ≡ true
any_const b [] h = cc
any_const b (x ∷ xs) h = ground (arith, any_const b xs)

-- A blob that an attachment uses is ready already: the repair only sets its count.
used_ready :
    (b : ℕ) (db : Db)
    → every (is_served db.blobs) db.attachments ≡ true
    → any (refers_to b) db.attachments ≡ true
    → any (is_ready_blob b) db.blobs ≡ true
used_ready b db served used = any_const (any (is_ready_blob b) db.blobs) db.attachments (
    any-every (refers_to b) (is_served db.blobs) (λ r. any (is_ready_blob b) db.blobs) uses
      db.attachments used served)
  where
    poster :
        (p : Option ℕ)
        → holds p b ≡ true
        → has_poster db.blobs p ≡ true
        → any (is_ready_blob b) db.blobs ≡ true
    poster none here h = cc
    poster (some p) here h = let same : p ≡ b = (==_iff p b).0 here in rw (← same) h

    uses :
        (r : Attachment)
        → refers_to b r ≡ true
        → is_served db.blobs r ≡ true
        → any (is_ready_blob b) db.blobs ≡ true
    uses r here fine = elim (Bool-cases (r.blob_id == b)) [
      | inl this ↦
          let same : r.blob_id ≡ b = (==_iff r.blob_id b).0 this in rw (← same) (ground arith)
      | inr other ↦ poster r.poster_blob_id (ground arith) (ground arith)
    ]

all_ready :
    (b : ℕ) (blobs : List Blob)
    → count (has_blob_id b) blobs ≤ 1
    → any (is_ready_blob b) blobs ≡ true
    → every (λ x. not (has_blob_id b x && not (is_ready x.status))) blobs ≡ true
all_ready b blobs one fine =
    every_fails (λ x. has_blob_id b x && not (is_ready x.status)) blobs
      (omega (
        arith,
        one,
        count_apart (is_ready_blob b) (has_blob_id b) (λ x. not (is_ready x.status))
            (λ x h. ground arith) blobs fine,
      ))

recount-ready :
    (refs b d : ℕ) (blobs : List Blob)
    → any (is_ready_blob d) blobs ≡ true
    → any (is_ready_blob d) (map (recount refs b) blobs) ≡ true
recount-ready refs b d blobs h =
    any-map (is_ready_blob d) (λ x. is_ready_blob d (recount refs b x)) (recount refs b) (λ x. refl)
      blobs
    ∙ any_mono (is_ready_blob d) (λ x. is_ready_blob d (recount refs b x)) (λ x h. ground arith)
        blobs h

recount-IsSafe :
    (refs b : ℕ) (objects : List StoredObject) (db : Db)
    → any (refers_to b) db.attachments ≡ true
    → IsSafe objects none db
    → IsSafe objects none (record db { blobs = map (recount refs b) db.blobs })
recount-IsSafe refs b objects db used safe = record {
  stored =
      every-map (is_kept objects) (λ x. is_kept objects (recount refs b x)) (recount refs b)
        (λ x. refl) db.blobs
      ∙ every_mono_where (is_kept objects) (λ x. is_kept objects (recount refs b x))
          (λ x. not (has_blob_id b x && not (is_ready x.status))) (λ x h k. ground arith) db.blobs
          safe.stored (all_ready b db.blobs (safe.keyed b) (used_ready b db safe.served used));
  served =
      every_mono (is_served db.blobs) (is_served (map (recount refs b) db.blobs))
        (λ r h. ground (arith, recount-ready refs b r.blob_id db.blobs, poster r.poster_blob_id))
        db.attachments safe.served;
  claimed = refl;
  keyed = λ d.
      subst (λ n. n ≤ 1)
        (sym
          (count-map (recount refs b) (has_blob_id d) (has_blob_id d) (λ x. ground arith) db.blobs))
        (safe.keyed d);
  placed = λ bucket key.
      subst (λ n. n ≤ 1)
        (sym (
          count-map (recount refs b) (is_at bucket key) (is_at bucket key) (λ x. ground arith)
            db.blobs))
        (safe.placed bucket key);
}
  where
    poster :
        (p : Option ℕ)
        → has_poster db.blobs p ≡ true
        → has_poster (map (recount refs b) db.blobs) p ≡ true
    poster none h = refl
    poster (some p) h = recount-ready refs b p db.blobs h

-- The collector's first transaction: it repairs a blob that is used, or marks and claims one that is
-- not.
pub claim-IsSafe :
    (grace now b : ℕ) (objects : List StoredObject) (db : Db)
    → IsSafe objects none db
    → IsSafe objects (claim_blob grace now b db).0 (claim_blob grace now b db).1
unfolding claim_blob
claim-IsSafe grace now b objects db safe =
    elim (Option-cases (find (λ x. has_blob_id b x && is_orphan grace now x) db.blobs)) [
      | inl gone ↦ rw (gone, claim_blob) safe
      | inr (blob, found) ↦ elim (Bool-cases (any (refers_to b) db.attachments)) [
        | inl used ↦
            rw (found, used, claim_blob)
              (recount-IsSafe (count (refers_to b) db.attachments) b objects db used safe)
        | inr unused ↦
            rw (found, unused, claim_blob)
              (mark-IsSafe b (is_orphan grace now) blob objects db found unused safe)
      ]
    ]
