-- ===== src/Attachments/Lifecycle/History.antt =====
-- What any history of calls, uploads and collections leaves of a row.
use voidchats_note2ee.Common.{
  ℕ, ◌≡◌, refl, sym, ap, Option, none, some, List, [], ◌∷◌, arith, Option-cases, inl, inr,
}
use voidchats_note2ee.Attachments.Rows.{Attachment, Db, Config, row_of}
use voidchats_note2ee.Attachments.References.{Texts}
use voidchats_note2ee.Attachments.Reserving.Exact.{Keyed}
use voidchats_note2ee.Attachments.Blobs.{Machine, World}
use voidchats_note2ee.Attachments.ObjectKeys.{Text}
use voidchats_note2ee.Attachments.Collecting.{Claim, claim_blob, drop_blob, scan_object}
use voidchats_note2ee.Attachments.Steps.{Call}
use voidchats_note2ee.Attachments.Site.{
  Site, Event, calls, uploads, claims, removes, finishes, abandons, scans, happen, history,
  remove_claimed, drop_claimed,
}
use voidchats_note2ee.Attachments.Lifecycle.Edges.{Edge}
use voidchats_note2ee.Attachments.Lifecycle.Moves.{step-Edge, step-Keyed}
use voidchats_note2ee.Attachments.Lifecycle.Uploads.{Added, same_row, upload-Added}

abbrev pub rows_of : Site → List Attachment
rows_of s = s.world.db.attachments

-- At the row of an attachment, an event is an edge of the lifecycle or makes a new row.
pub data Turn (texts : Texts) (now : ℕ) (e : Event) (o p : Option Attachment) : Type 0 where
  by_call : (call : Call) → e ≡ calls call → Edge texts call now o p → Turn texts now e o p
  by_upload : Added o p → Turn texts now e o p

claim_rows :
    (grace now b : ℕ) (db : Db) → (claim_blob grace now b db).1.attachments ≡ db.attachments
unfolding claim_blob
claim_rows grace now b db = ground arith

removed_rows : (c : Option Claim) (w : World) → (remove_claimed c w).db ≡ w.db
removed_rows none w = refl
removed_rows (some c) w = refl

dropped_rows : (c : Option Claim) (w : World) → (drop_claimed c w).db.attachments ≡ w.db.attachments
unfolding drop_blob
dropped_rows none w = refl
dropped_rows (some c) w = refl

scanned_rows :
    (grace now bucket : ℕ) (key hash : Text) (w : World)
    → (scan_object grace now bucket key hash w).1.db ≡ w.db
unfolding scan_object
scanned_rows grace now bucket key hash w = ground arith

module _ (texts : Texts) (config : Config) (machine : Machine) (bucket : ℕ) where
  abbrev pub Turned : (now : ℕ) → Event → Site → Site → Type 0
  Turned now e s s' =
      ((a : ℕ) → Turn texts now e (row_of a (rows_of s)) (row_of a (rows_of s')))
      × (Keyed (rows_of s'))

  unmoved :
      (now : ℕ) (e : Event) (s s' : Site)
      → rows_of s ≡ rows_of s'
      → Keyed (rows_of s)
      → Turned now e s s'
  unmoved now e s s' same keyed = rw (← same) (λ a. by_upload same_row, keyed)

  pub happen-Turned :
      (now : ℕ) (e : Event) (s : Site)
      → Keyed (rows_of s)
      → Turned now e s (happen texts config machine bucket now e s)
  unfolding happen
  happen-Turned now (calls call) s keyed = (
    λ a. by_call call refl (step-Edge texts config now call s.world.db keyed a),
    step-Keyed texts config now call s.world.db keyed,
  )
  happen-Turned now (uploads user conversation files) s keyed =
      let (added, kept) =
        upload-Added config machine bucket now user conversation files s.world keyed in
      (λ a. by_upload (added a), kept)
  happen-Turned now (claims b) s keyed = elim (Option-cases s.claim) [
    | inl idle ↦
        unmoved now (claims b) s (happen texts config machine bucket now (claims b) s)
          (rw (idle) (sym (claim_rows config.blob_gc_grace_seconds now b s.world.db))) keyed
    | inr (c, busy) ↦
        unmoved now (claims b) s (happen texts config machine bucket now (claims b) s)
          (rw (busy) refl) keyed
  ]
  happen-Turned now removes s keyed =
      unmoved now removes s (happen texts config machine bucket now removes s)
        (sym (ap (λ db. db.attachments) (removed_rows s.claim s.world))) keyed
  happen-Turned now finishes s keyed =
      unmoved now finishes s (happen texts config machine bucket now finishes s)
        (sym (dropped_rows s.claim s.world)) keyed
  happen-Turned now abandons s keyed = unmoved now abandons s (record s { claim = none }) refl keyed
  happen-Turned now (scans key hash) s keyed =
      unmoved now (scans key hash) s (happen texts config machine bucket now (scans key hash) s)
        (sym (
          ap (λ db. db.attachments)
            (scanned_rows config.blob_gc_grace_seconds now bucket key hash s.world)))
        keyed

  -- What every turn keeps, for the row of an attachment, every history keeps.
  pub history_keeps {κ} :
      (K : Option Attachment → Type κ)
      → ((now : ℕ) (e : Event) (o p : Option Attachment) → Turn texts now e o p → K o → K p)
      → (a : ℕ) (events : List (ℕ × Event)) (s : Site) → Keyed (rows_of s)
      → K (row_of a (rows_of s))
      → K (row_of a (rows_of (history texts config machine bucket events s)))
  unfolding history
  history_keeps K kept a [] s keyed held = held
  history_keeps K kept a ((now, e) ∷ rest) s keyed held =
      let (turns, keyed') = happen-Turned now e s keyed in
      history_keeps K kept a rest (happen texts config machine bucket now e s) keyed'
        (kept now e _ _ (turns a) held)
