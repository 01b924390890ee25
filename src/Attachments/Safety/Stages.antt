-- ===== src/Attachments/Safety/Stages.antt =====
-- The removals of the collector and the scan of the objects keep the invariant.
use voidchats_note2ee.Common.{
  ℕ, ◌≡◌, refl, Bool, true, false, not, ◌&&◌, Option, none, some, List, [], ◌∷◌, arith, any,
  any-keep, count, count-keep_le, count_apart, count_mono, length-keep, every, every-keep,
  every_mono, every_mono_where, every_fails, find, keep, Bool-cases, Option-cases, inl, inr, length,
  ltb,
}
use voidchats_note2ee.Attachments.Rows.{Blob, Db}
use voidchats_note2ee.Attachments.Triggers.{has_blob_id, is_ready}
use voidchats_note2ee.Attachments.ObjectKeys.{Text}
use voidchats_note2ee.Attachments.Expiring.{limit}
use voidchats_note2ee.Attachments.Blobs.{StoredObject, World, is_at, is_object, remove_object}
use voidchats_note2ee.Attachments.Collecting.{
  Claim, drop_blob, is_dropped, scan_object, names, is_older,
}
use voidchats_note2ee.Attachments.Safety.Blobs.{
  is_kept, is_ready_blob, has_poster, is_served, is_claimed, IsSafe,
}
use voidchats_note2ee.Attachments.Safety.Uploads.{one_place}

-- Where no ready blob has its object, the object may go.
is_ready_at : (bucket : ℕ) (key : Text) → Blob → Bool
is_ready_at bucket key x = is_at bucket key x && is_ready x.status

removed-stored :
    (bucket : ℕ) (key : Text) (objects : List StoredObject) (blobs : List Blob)
    → count (is_ready_at bucket key) blobs ≡ 0
    → every (is_kept objects) blobs ≡ true
    → every (is_kept (remove_object bucket key objects)) blobs ≡ true
unfolding is_ready_at
removed-stored bucket key objects blobs free h =
    every_mono_where (is_kept objects) (is_kept (remove_object bucket key objects))
      (λ x. not (is_ready_at bucket key x)) still blobs h
      (every_fails (is_ready_at bucket key) blobs free)
  where
    still :
        (x : Blob)
        → is_kept objects x ≡ true
        → not (is_ready_at bucket key x) ≡ true
        → is_kept (remove_object bucket key objects) x ≡ true
    still x kept apart = elim (Bool-cases (is_ready x.status)) [
      | inr going ↦ rw (going) refl
      | inl fine ↦ ground (
        arith,
        fine,
        any-keep (is_object x.bucket x.object_key) (λ o. not (is_object bucket key o))
            (λ o here. ground (arith, fine, one_place bucket x.bucket key x.object_key o)) objects,
      )
    ]

remove-IsSafe :
    (bucket : ℕ) (key : Text) (objects : List StoredObject) (claim : Option Claim) (db : Db)
    → count (is_ready_at bucket key) db.blobs ≡ 0
    → IsSafe objects claim db
    → IsSafe (remove_object bucket key objects) claim db
remove-IsSafe bucket key objects claim db free safe = record {
  stored = removed-stored bucket key objects db.blobs free safe.stored;
  served = safe.served;
  claimed = safe.claimed;
  keyed = safe.keyed;
  placed = safe.placed;
}

-- The claimed blob has the place alone, and is not ready.
pub claimed-IsSafe :
    (c : Claim) (objects : List StoredObject) (db : Db)
    → IsSafe objects (some c) db
    → IsSafe (remove_object c.bucket c.object_key objects) (some c) db
unfolding is_ready_at
claimed-IsSafe c objects db safe =
    let alone =
      count_apart (is_claimed c) (is_at c.bucket c.object_key) (λ x. is_ready x.status)
        (λ x h. ground arith) db.blobs safe.claimed in
    remove-IsSafe c.bucket c.object_key objects (some c) db
      (omega (arith, alone, safe.placed c.bucket c.object_key)) safe

limit_none : {A : Type 0} (xs : List A) → ltb 0 (length (limit 2 xs)) ≡ false → length xs ≡ 0
limit_none [] h = refl
limit_none (x ∷ xs) h = ground arith

unnamed :
    (bucket : ℕ) (key hash : Text) (blobs : List Blob)
    → ltb 0 (length (limit 2 (keep (names bucket key hash) blobs))) ≡ false
    → count (is_ready_at bucket key) blobs ≡ 0
unfolding is_ready_at
unnamed bucket key hash blobs h = omega (
  arith,
  limit_none (keep (names bucket key hash) blobs) h,
  length-keep (names bucket key hash) blobs,
  count_mono (is_ready_at bucket key) (names bucket key hash) (λ x here. ground arith) blobs,
)

-- The scan removes an object only where no blob names it.
pub scan-IsSafe :
    (grace now bucket : ℕ) (key hash : Text) (claim : Option Claim) (w : World)
    → IsSafe w.objects claim w.db
    → let w' = (scan_object grace now bucket key hash w).1 in IsSafe w'.objects claim w'.db
unfolding scan_object
scan-IsSafe grace now bucket key hash claim w safe =
    elim (Bool-cases (ltb 0 (length (limit 2 (keep (names bucket key hash) w.db.blobs))))) [
      | inl named ↦
          elim (Option-cases
            (find (is_at bucket key) (limit 2 (keep (names bucket key hash) w.db.blobs)))) [
              | inl elsewhere ↦ rw (named, elsewhere, scan_object) safe
              | inr (blob, here) ↦ rw (named, here, scan_object) safe
            ]
      | inr untracked ↦ elim (Option-cases (find (is_object bucket key) w.objects)) [
        | inl missing ↦ rw (untracked, missing, scan_object) safe
        | inr (o, present) ↦ elim (Bool-cases (is_older grace now o)) [
          | inr recent ↦ rw (untracked, present, recent, scan_object) safe
          | inl old ↦
              rw (untracked, present, old, scan_object)
                (remove-IsSafe bucket key w.objects claim w.db
                  (unnamed bucket key hash w.db.blobs untracked) safe)
        ]
      ]
    ]

-- A blob that is deleted was not ready.
pub dropped-IsSafe :
    (b : ℕ) (objects : List StoredObject) (claim : Option Claim) (db : Db)
    → IsSafe objects claim db
    → IsSafe objects none (drop_blob b db).1
unfolding drop_blob
dropped-IsSafe b objects claim db safe = record {
  stored = every-keep (is_kept objects) (λ x. not (is_dropped b db x)) db.blobs safe.stored;
  served =
      every_mono (is_served db.blobs) (is_served (keep (λ x. not (is_dropped b db x)) db.blobs))
        (λ r h. ground (arith, still r.blob_id, poster r.poster_blob_id)) db.attachments
        safe.served;
  claimed = refl;
  keyed = λ d.
      omega (
        arith,
        safe.keyed d,
        count-keep_le (has_blob_id d) (λ x. not (is_dropped b db x)) db.blobs,
      );
  placed = λ bucket key. omega (
    arith,
    safe.placed bucket key,
    count-keep_le (is_at bucket key) (λ x. not (is_dropped b db x)) db.blobs,
  );
}
  where
    still :
        (d : ℕ)
        → any (is_ready_blob d) db.blobs ≡ true
        → any (is_ready_blob d) (keep (λ x. not (is_dropped b db x)) db.blobs) ≡ true
    still d =
        any-keep (is_ready_blob d) (λ x. not (is_dropped b db x)) (λ x h. ground arith) db.blobs

    poster :
        (p : Option ℕ)
        → has_poster db.blobs p ≡ true
        → has_poster (keep (λ x. not (is_dropped b db x)) db.blobs) p ≡ true
    poster none h = refl
    poster (some p) h = still p h
