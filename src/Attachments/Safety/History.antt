-- ===== src/Attachments/Safety/History.antt =====
-- Any history of the site keeps the bytes of every attachment.
use voidchats_note2ee.Common.{
  ℕ, ◌≡◌, refl, Bool, true, ◌&&◌, Option, none, some, List, [], ◌∷◌, arith, any, any-every,
  every-find, count, Option-cases, inl, inr,
}
use voidchats_note2ee.Attachments.Rows.{Attachment, Blob, Config, has_id, row_of}
use voidchats_note2ee.Attachments.Triggers.{has_blob_id}
use voidchats_note2ee.Attachments.References.{Texts}
use voidchats_note2ee.Attachments.Blobs.{StoredObject, Machine, World, is_object}
use voidchats_note2ee.Attachments.Collecting.{Claim}
use voidchats_note2ee.Attachments.Site.{
  Site, Event, calls, uploads, claims, removes, finishes, abandons, scans, happen, history,
  claim_next, remove_claimed, drop_claimed,
}
use voidchats_note2ee.Attachments.Lifecycle.Moves.{step-IsSafe}
use voidchats_note2ee.Attachments.Safety.Blobs.{IsSafe, is_kept, is_ready_blob, is_served}
use voidchats_note2ee.Attachments.Safety.Uploads.{upload-IsSafe}
use voidchats_note2ee.Attachments.Safety.Stages.{claimed-IsSafe, dropped-IsSafe, scan-IsSafe}
use voidchats_note2ee.Attachments.Safety.Claiming.{claim-IsSafe}

abbrev pub SiteSafe : Site → Type 0
SiteSafe s = IsSafe s.world.objects s.claim s.world.db

unclaimed :
    (objects : List StoredObject) (claim : Option Claim) (w : World)
    → IsSafe objects claim w.db
    → IsSafe objects none w.db
unclaimed objects claim w safe = record {
  stored = safe.stored;
  served = safe.served;
  claimed = refl;
  keyed = safe.keyed;
  placed = safe.placed;
}

next-SiteSafe :
    (grace now b : ℕ) (claim : Option Claim) (w : World)
    → IsSafe w.objects claim w.db
    → SiteSafe (claim_next grace now b claim w)
next-SiteSafe grace now b none w safe = claim-IsSafe grace now b w.objects w.db safe
next-SiteSafe grace now b (some c) w safe = safe

removed-IsSafe :
    (claim : Option Claim) (w : World)
    → IsSafe w.objects claim w.db
    → IsSafe (remove_claimed claim w).objects claim (remove_claimed claim w).db
removed-IsSafe none w safe = safe
removed-IsSafe (some c) w safe = claimed-IsSafe c w.objects w.db safe

finished-IsSafe :
    (claim : Option Claim) (w : World)
    → IsSafe w.objects claim w.db
    → IsSafe (drop_claimed claim w).objects none (drop_claimed claim w).db
finished-IsSafe none w safe = safe
finished-IsSafe (some c) w safe = dropped-IsSafe c.blob_id w.objects (some c) w.db safe

-- A blob that is ready and whose object is in the store.
abbrev pub has_bytes : World → ℕ → Bool
has_bytes w b =
    any (λ x. is_ready_blob b x && any (is_object x.bucket x.object_key) w.objects) w.db.blobs

-- The attachment's file can be served, and its poster if it has one.
abbrev pub can_serve : World → Attachment → Bool
can_serve w r =
    has_bytes w r.blob_id && elim r.poster_blob_id [ none ↦ true | some p ↦ has_bytes w p ]

ready_bytes :
    (claim : Option Claim) (w : World) (b : ℕ)
    → IsSafe w.objects claim w.db
    → any (is_ready_blob b) w.db.blobs ≡ true
    → has_bytes w b ≡ true
ready_bytes claim w b safe h =
    any-every (is_ready_blob b) (is_kept w.objects)
      (λ x. is_ready_blob b x && any (is_object x.bucket x.object_key) w.objects)
      (λ x fine kept. ground arith) w.db.blobs h safe.stored

served_bytes :
    (claim : Option Claim) (w : World) (r : Attachment)
    → IsSafe w.objects claim w.db
    → is_served w.db.blobs r ≡ true
    → can_serve w r ≡ true
served_bytes claim w r safe h = elim (Option-cases r.poster_blob_id) [
  | inl plain ↦ rw (plain) (ground (arith, plain, ready_bytes claim w r.blob_id safe))
  | inr (p, with_poster) ↦ rw (with_poster) (
      ground (
        arith,
        with_poster,
        rw (with_poster) at h,
        ready_bytes claim w r.blob_id safe,
        ready_bytes claim w p safe,
      ))
]

module _ (texts : Texts) (config : Config) (machine : Machine) (bucket : ℕ)
    (fresh : (blobs : List Blob) → count (has_blob_id (machine.fresh_id blobs)) blobs ≡ 0) where
  happen-SiteSafe :
      (now : ℕ) (e : Event) (s : Site)
      → SiteSafe s
      → SiteSafe (happen texts config machine bucket now e s)
  unfolding happen
  happen-SiteSafe now (calls call) s safe =
      step-IsSafe texts config now call s.world.objects s.claim s.world.db safe
  happen-SiteSafe now (uploads user conversation files) s safe =
      upload-IsSafe config machine bucket now fresh user conversation files s.claim s.world safe
  happen-SiteSafe now (claims b) s safe =
      next-SiteSafe config.blob_gc_grace_seconds now b s.claim s.world safe
  happen-SiteSafe now removes s safe = removed-IsSafe s.claim s.world safe
  happen-SiteSafe now finishes s safe = finished-IsSafe s.claim s.world safe
  happen-SiteSafe now abandons s safe = unclaimed s.world.objects s.claim s.world safe
  happen-SiteSafe now (scans key hash) s safe =
      scan-IsSafe config.blob_gc_grace_seconds now bucket key hash s.claim s.world safe

  history-SiteSafe :
      (events : List (ℕ × Event)) (s : Site)
      → SiteSafe s
      → SiteSafe (history texts config machine bucket events s)
  unfolding history
  history-SiteSafe [] s safe = safe
  history-SiteSafe ((now, e) ∷ rest) s safe =
      history-SiteSafe rest (happen texts config machine bucket now e s)
        (happen-SiteSafe now e s safe)

  -- However calls of the lifecycle, uploads, scans and the stages of one collector interleave, an
  -- attachment that is there has its file, and its poster if it has one, in a blob that is ready and
  -- whose object is in the store. The database gives a new blob an identifier that no blob has.
  pub history_serves :
      (events : List (ℕ × Event)) (s : Site)
      → SiteSafe s
      → (a : ℕ) (r : Attachment)
      → row_of a (history texts config machine bucket events s).world.db.attachments ≡ some r
      → can_serve (history texts config machine bucket events s).world r ≡ true
  history_serves events s safe a r found =
      let s' = history texts config machine bucket events s in
      let safe' = history-SiteSafe events s safe in
      served_bytes s'.claim s'.world r safe' (
        every-find (has_id a) (is_served s'.world.db.blobs) s'.world.db.attachments safe'.served
          found)
