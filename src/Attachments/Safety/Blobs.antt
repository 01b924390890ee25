-- ===== src/Attachments/Safety/Blobs.antt =====
-- The invariant of the blobs, their objects and the collector's claim, and what leaves it as it is:
-- a change of the reference counts, of rows that keep their blobs, and a deletion of rows.
use voidchats_note2ee.Common.{
  ℕ, ◌≤◌, ◌≡◌, refl, sym, ◌∙◌, subst, Bool, true, not, ◌&&◌, ◌||◌, Option, none, some, List, [],
  ◌∷◌, arith, any, any-map, count, count-map, every, every-keep, every_mono, every-map, keep, map,
  Bool-cases, inl, inr,
}
use voidchats_note2ee.Attachments.Rows.{Attachment, Blob, Db, where_change, update}
use voidchats_note2ee.Attachments.Triggers.{
  has_blob_id, is_ready, drop_reference, drop_poster, release_row, release_rows, delete_where,
}
use voidchats_note2ee.Attachments.ObjectKeys.{Text}
use voidchats_note2ee.Attachments.Blobs.{StoredObject, is_at, is_object}
use voidchats_note2ee.Attachments.Collecting.{Claim}

-- A blob that is ready has its object in the store.
abbrev pub is_kept : List StoredObject → Blob → Bool
is_kept objects blob =
    not (is_ready blob.status) || any (is_object blob.bucket blob.object_key) objects

abbrev pub is_ready_blob : ℕ → Blob → Bool
is_ready_blob b blob = has_blob_id b blob && is_ready blob.status

abbrev pub has_poster : List Blob → Option ℕ → Bool
has_poster blobs none = true
has_poster blobs (some p) = any (is_ready_blob p) blobs

-- An attachment's file, and its poster if it has one, are ready blobs.
abbrev pub is_served : List Blob → Attachment → Bool
is_served blobs r = any (is_ready_blob r.blob_id) blobs && has_poster blobs r.poster_blob_id

-- The claimed blob is marked as deleting, and is where the claim says.
abbrev pub is_claimed : Claim → Blob → Bool
is_claimed c blob =
    has_blob_id c.blob_id blob && not (is_ready blob.status) && is_at c.bucket c.object_key blob

abbrev pub claim_fits : Option Claim → List Blob → Bool
claim_fits none blobs = true
claim_fits (some c) blobs = any (is_claimed c) blobs

-- The invariant. The last two say that identifiers and places are unique, as the table's keys do.
pub record IsSafe (objects : List StoredObject) (claim : Option Claim) (db : Db) : Type 0 where
  pub stored : every (is_kept objects) db.blobs ≡ true
  pub served : every (is_served db.blobs) db.attachments ≡ true
  pub claimed : claim_fits claim db.blobs ≡ true
  pub keyed : (b : ℕ) → count (has_blob_id b) db.blobs ≤ 1
  pub placed : (bucket : ℕ) (key : Text) → count (is_at bucket key) db.blobs ≤ 1

-- A change of a blob that leaves its identifier, place and status.
pub record IsQuiet (f : Blob → Blob) : Type 0 where
  pub same_id : (x : Blob) → (f x).id ≡ x.id
  pub same_bucket : (x : Blob) → (f x).bucket ≡ x.bucket
  pub same_key : (x : Blob) → (f x).object_key ≡ x.object_key
  pub same_status : (x : Blob) → (f x).status ≡ x.status

module _ (f : Blob → Blob) (quiet : IsQuiet f) where
  ready-map :
      (b : ℕ) (blobs : List Blob)
      → any (is_ready_blob b) (map f blobs) ≡ any (is_ready_blob b) blobs
  ready-map b =
      any-map (is_ready_blob b) (is_ready_blob b) f
        (λ x. rw (quiet.same_id x, quiet.same_status x) refl)

  served-map : (blobs : List Blob) (r : Attachment) → is_served (map f blobs) r ≡ is_served blobs r
  served-map blobs r = rw (ready-map r.blob_id blobs, poster r.poster_blob_id) refl
    where
      poster : (p : Option ℕ) → has_poster (map f blobs) p ≡ has_poster blobs p
      poster none = refl
      poster (some p) = ready-map p blobs

  pub map-IsSafe :
      (objects : List StoredObject) (claim : Option Claim) (db : Db)
      → IsSafe objects claim db
      → IsSafe objects claim (record db { blobs = map f db.blobs })
  map-IsSafe objects claim db safe = record {
    stored =
        every-map (is_kept objects) (is_kept objects) f
          (λ x. rw (quiet.same_status x, quiet.same_bucket x, quiet.same_key x) refl) db.blobs
        ∙ safe.stored;
    served =
        every_mono (is_served db.blobs) (is_served (map f db.blobs))
          (λ r h. served-map db.blobs r ∙ h) db.attachments safe.served;
    claimed = fits claim ∙ safe.claimed;
    keyed = λ b.
        subst (λ n. n ≤ 1)
          (sym
            (count-map f (has_blob_id b) (has_blob_id b) (λ x. rw (quiet.same_id x) refl) db.blobs))
          (safe.keyed b);
    placed = λ bucket key.
        subst (λ n. n ≤ 1)
          (sym (
            count-map f (is_at bucket key) (is_at bucket key)
              (λ x. rw (quiet.same_bucket x, quiet.same_key x) refl) db.blobs))
          (safe.placed bucket key);
  }
    where
      fits : (c : Option Claim) → claim_fits c (map f db.blobs) ≡ claim_fits c db.blobs
      fits none = refl
      fits (some c) =
          any-map (is_claimed c) (is_claimed c) f
            (λ x.
              rw (quiet.same_id x, quiet.same_status x, quiet.same_bucket x, quiet.same_key x) refl)
            db.blobs

drop-IsQuiet : (now b : ℕ) → IsQuiet (drop_reference now b)
drop-IsQuiet now b = record {
  same_id = λ x. ground arith;
  same_bucket = λ x. ground arith;
  same_key = λ x. ground arith;
  same_status = λ x. ground arith;
}

-- Rows that go, or change without leaving their blobs, keep the invariant.
pub rows-IsSafe :
    (objects : List StoredObject) (claim : Option Claim) (db : Db) (rows : List Attachment)
    → IsSafe objects claim db
    → every (is_served db.blobs) rows ≡ true
    → IsSafe objects claim (record db { attachments = rows })
rows-IsSafe objects claim db rows safe served = record {
  stored = safe.stored;
  served = served;
  claimed = safe.claimed;
  keyed = safe.keyed;
  placed = safe.placed;
}

pub update-IsSafe :
    (test : Attachment → Bool) (change : Attachment → Attachment)
    → ((r : Attachment) → (change r).blob_id ≡ r.blob_id)
    → ((r : Attachment) → (change r).poster_blob_id ≡ r.poster_blob_id)
    → (objects : List StoredObject) (claim : Option Claim) (db : Db) → IsSafe objects claim db
    → IsSafe objects claim (record db { attachments = update test change db.attachments })
update-IsSafe test change same_file same_poster objects claim db safe =
    rows-IsSafe objects claim db (update test change db.attachments) safe (
      every-map (is_served db.blobs) (is_served db.blobs) (where_change test change)
        (λ r. elim (Bool-cases (test r)) [
          | inl taken ↦ rw (taken, same_file r, same_poster r) refl
          | inr left ↦ rw (left) refl
        ])
        db.attachments
      ∙ safe.served)

release-IsSafe :
    (now : ℕ) (gone : List Attachment) (objects : List StoredObject) (claim : Option Claim)
    (db : Db)
    → IsSafe objects claim db
    → IsSafe objects claim (record db { blobs = release_rows now gone db.blobs })
release-IsSafe now [] objects claim db safe = safe
release-IsSafe now (r ∷ rs) objects claim db safe =
    release-IsSafe now rs objects claim (record db { blobs = release_row now r db.blobs })
      (map-IsSafe (drop_reference now r.blob_id) (drop-IsQuiet now r.blob_id) objects claim
        (record db { blobs = drop_poster now r.poster_blob_id db.blobs }) (poster r.poster_blob_id))
  where
    poster :
        (p : Option ℕ) → IsSafe objects claim (record db { blobs = drop_poster now p db.blobs })
    poster none = safe
    poster (some b) = map-IsSafe (drop_reference now b) (drop-IsQuiet now b) objects claim db safe

pub delete-IsSafe :
    (now : ℕ) (test : Attachment → Bool) (objects : List StoredObject) (claim : Option Claim)
    (db : Db)
    → IsSafe objects claim db
    → IsSafe objects claim (delete_where now test db)
unfolding delete_where
delete-IsSafe now test objects claim db safe =
    release-IsSafe now (keep test db.attachments) objects claim
      (record db { attachments = keep (λ r. not (test r)) db.attachments })
      (rows-IsSafe objects claim db (keep (λ r. not (test r)) db.attachments) safe
        (every-keep (is_served db.blobs) (λ r. not (test r)) db.attachments safe.served))
