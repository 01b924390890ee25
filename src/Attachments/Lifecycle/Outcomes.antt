-- ===== src/Attachments/Lifecycle/Outcomes.antt =====
-- What a history keeps of a row: its columns agree with its status, and a committed attachment stays
-- in its message. And what it takes for an attachment to be committed.
use voidchats_note2ee.Common.{
  ℕ, ◌≡◌, refl, sym, ap, ◌∙◌, Bool, true, false, not, ◌&&◌, ◌||◌, Option, none, some, is_some, List,
  ◌==◌, arith, Option-cases, inl, inr,
}
use voidchats_note2ee.Attachments.Rows.{
  Attachment, Status, staged, reserved, committed, legacy, Config, ReservationIdentity, row_of,
  is_staged, is_reserved, is_committed, holds, at_most, is_among, given,
}
use voidchats_note2ee.Attachments.References.{Texts, extract_protected_attachment_ids}
use voidchats_note2ee.Attachments.Reserving.Exact.{Keyed}
use voidchats_note2ee.Attachments.Writing.{
  has_policy, StoredRow, agrees, is_bound, is_acknowledged, attachments_or_empty,
}
use voidchats_note2ee.Attachments.Steps.{Call, commits, recovers, settles}
use voidchats_note2ee.Attachments.Groups.{Group}
use voidchats_note2ee.Attachments.Blobs.{Machine}
use voidchats_note2ee.Attachments.Site.{Site, Event, calls, happen, history}
use voidchats_note2ee.Attachments.Lifecycle.Edges.{
  Move, stays, is_reserved_by, is_acknowledged_by, is_committed_by, is_recovered_by, is_settled_by,
  is_returned_by, is_released_by, moves, removed, absent,
}
use voidchats_note2ee.Attachments.Lifecycle.Uploads.{same_row, new_row}
use voidchats_note2ee.Attachments.Lifecycle.History.{
  rows_of, Turn, by_call, by_upload, happen-Turned, history_keeps,
}

-- The statuses exclude each other.
only_one :
    (s : Status)
    → ((is_staged s && is_committed s) ≡ false)
      × ((is_reserved s && is_committed s) ≡ false)
      × ((is_staged s && is_reserved s) ≡ false)
only_one staged = (refl, refl, refl)
only_one reserved = (refl, refl, refl)
only_one committed = (refl, refl, refl)
only_one legacy = (refl, refl, refl)

-- Committed to a message, for a reservation of a sender in a conversation.
abbrev pub is_in_message : (message reservation user conversation : ℕ) → Attachment → Bool
is_in_message message reservation user conversation r =
    is_committed r.status
    && holds r.message_id message
    && holds r.reservation_id reservation
    && r.uploader_id == user
    && r.conversation_id == conversation

-- The row is there, and passes the test.
abbrev pub row_passes : (Attachment → Bool) → Option Attachment → Bool
row_passes test none = false
row_passes test (some r) = test r

-- If the row is there, it passes the test.
abbrev pub row_fits : (Attachment → Bool) → Option Attachment → Bool
row_fits test none = true
row_fits test (some r) = test r

Move-in_message :
    (texts : Texts) (call : Call) (m v u c now : ℕ) (r r' : Attachment)
    → Move texts call now r r'
    → is_in_message m v u c r ≡ true
    → is_in_message m v u c r' ≡ true
Move-in_message texts call m v u c now r r' stays h = h
Move-in_message texts call m v u c now r r' (is_reserved_by q ttl this can own) h =
    ground (arith, only_one r.status)
Move-in_message texts call m v u c now r r' (is_acknowledged_by q this can) h =
    ground (arith, only_one r.status)
Move-in_message texts call m v u c now r r' (is_committed_by q this can) h =
    ground (arith, only_one r.status)
Move-in_message texts call m v u c now r r' (is_recovered_by q row ids this parsed same can) h =
    ground arith
Move-in_message texts call m v u c now r r' (is_settled_by g this can) h =
    ground (arith, only_one r.status)
Move-in_message texts call m v u c now r r' (is_returned_by g ttl this can done) h =
    ground (arith, only_one r.status)
Move-in_message texts call m v u c now r r' (is_released_by q this can) h =
    ground (arith, only_one r.status)

Turn-in_message :
    (texts : Texts) (m v u c now : ℕ) (e : Event) (o p : Option Attachment)
    → Turn texts now e o p
    → row_passes (is_in_message m v u c) o ≡ true
    → row_passes (is_in_message m v u c) p ≡ true
Turn-in_message texts m v u c now e o p (by_call call of absent) h = h
Turn-in_message texts m v u c now e o p (by_call call of (moves r r' move)) h =
    Move-in_message texts call m v u c now r r' move h
Turn-in_message texts m v u c now e o p (by_call call of (removed r unsent that)) h =
    ground (arith, only_one r.status)
Turn-in_message texts m v u c now e o p (by_upload same_row) h = h
Turn-in_message texts m v u c now e o p (by_upload (new_row r fresh)) h = cc

-- A staged file is bound to nothing.
abbrev pub is_bare : Attachment → Bool
is_bare r =
    not (is_some r.reservation_id)
    && not (is_some r.message_id)
    && not (is_some r.reserved_until)
    && not (is_some r.committed_at)
    && not (is_some r.scylla_write_acknowledged_at)

-- A bound file has its message, and an acknowledgement only of the write policy.
abbrev pub is_tied : Attachment → Bool
is_tied r =
    is_some r.reservation_id
    && is_some r.message_id
    && (not (is_some r.scylla_write_acknowledged_at) || has_policy r)

-- The columns agree with the status.
abbrev pub is_well_formed : Attachment → Bool
is_well_formed r =
    (not (is_staged r.status) || is_bare r)
    && (not (is_reserved r.status)
        || is_tied r && is_some r.reserved_until && not (is_some r.committed_at))
    && (not (is_committed r.status)
        || is_tied r && is_some r.committed_at && not (is_some r.reserved_until))

Move-WellFormed :
    (texts : Texts) (call : Call) (now : ℕ) (r r' : Attachment)
    → Move texts call now r r'
    → is_well_formed r ≡ true
    → is_well_formed r' ≡ true
Move-WellFormed texts call now r r' stays h = h
Move-WellFormed texts call now r r' (is_reserved_by q ttl this can own) h = ground arith
Move-WellFormed texts call now r r' (is_acknowledged_by q this can) h =
    ground (arith, only_one r.status)
Move-WellFormed texts call now r r' (is_committed_by q this can) h =
    ground (arith, only_one r.status)
Move-WellFormed texts call now r r' (is_recovered_by q row ids this parsed same can) h =
    elim (Option-cases r.committed_at) [
      | inl new ↦ rw (new) (ground (arith, only_one r.status))
      | inr (t, old) ↦ rw (old) (ground (arith, only_one r.status))
    ]
Move-WellFormed texts call now r r' (is_settled_by g this can) h = ground (arith, only_one r.status)
Move-WellFormed texts call now r r' (is_returned_by g ttl this can done) h = refl
Move-WellFormed texts call now r r' (is_released_by q this can) h =
    ground (arith, only_one r.status)

Turn-WellFormed :
    (texts : Texts) (now : ℕ) (e : Event) (o p : Option Attachment)
    → Turn texts now e o p
    → row_fits is_well_formed o ≡ true
    → row_fits is_well_formed p ≡ true
Turn-WellFormed texts now e o p (by_call call of absent) h = h
Turn-WellFormed texts now e o p (by_call call of (moves r r' move)) h =
    Move-WellFormed texts call now r r' move h
Turn-WellFormed texts now e o p (by_call call of (removed r unsent that)) h = refl
Turn-WellFormed texts now e o p (by_upload same_row) h = h
Turn-WellFormed texts now e o p (by_upload (new_row r fresh)) h =
    rw
      (
        fresh.is_staged, fresh.is_free, fresh.not_reserved, fresh.not_committed, fresh.not_timed,
        fresh.not_acknowledged,
      )
      refl

-- The event that commits a row, and what it has found: the acknowledged write of its message; the
-- stored message, which is of this sender and identifier and names the attachments of the
-- reservation; or the group of a reservation that has run out, which the worker settles.
pub data Cause (texts : Texts) (now : ℕ) (e : Event) (r : Attachment) : Type 0 where
  acknowledged_write :
      (q : ReservationIdentity)
      → e ≡ calls (commits q)
      → (is_bound q r && is_acknowledged r) ≡ true
      → Cause texts now e r
  stored_message :
      (q : ReservationIdentity) (row : StoredRow) (ids : List ℕ)
      → e ≡ calls (recovers q row)
      → extract_protected_attachment_ids texts (attachments_or_empty row.attachments) ≡ given ids
      → agrees row q ids ≡ true
      → (is_bound q r && is_among ids r) ≡ true
      → Cause texts now e r
  settled_group :
      (g : Group)
      → e ≡ calls (settles g)
      → (is_among g.attachment_ids r
          && holds r.message_id g.message_id
          && at_most r.reserved_until now)
        ≡ true
      → Cause texts now e r

Move-commits :
    (texts : Texts) (call : Call) (now : ℕ) (e : Event) (r r' : Attachment)
    → e ≡ calls call
    → Move texts call now r r'
    → is_committed r.status ≡ false
    → is_committed r'.status ≡ true
    → (is_reserved r.status ≡ true) × (r'.message_id ≡ r.message_id) × Cause texts now e r
Move-commits texts call now e r r' of stays before later = cc
Move-commits texts call now e r r' of (is_reserved_by q ttl this can own) before later = cc
Move-commits texts call now e r r' of (is_acknowledged_by q this can) before later = cc
Move-commits texts call now e r r' of (is_committed_by q this can) before later =
    (ground arith, refl, acknowledged_write q (of ∙ ap calls this) (ground arith))
Move-commits texts call now e r r' of (is_recovered_by q row ids this parsed same can) before
      later =
    (ground arith, refl, stored_message q row ids (of ∙ ap calls this) parsed same (ground arith))
Move-commits texts call now e r r' of (is_settled_by g this can) before later =
    (ground arith, refl, settled_group g (of ∙ ap calls this) (ground arith))
Move-commits texts call now e r r' of (is_returned_by g ttl this can done) before later = cc
Move-commits texts call now e r r' of (is_released_by q this can) before later = cc

Turn-commits :
    (texts : Texts) (now : ℕ) (e : Event) (o p : Option Attachment) (r r' : Attachment)
    → o ≡ some r
    → p ≡ some r'
    → Turn texts now e o p
    → is_committed r.status ≡ false
    → is_committed r'.status ≡ true
    → (is_reserved r.status ≡ true) × (r'.message_id ≡ r.message_id) × Cause texts now e r
Turn-commits texts now e o p r r' was is (by_call call of absent) before later = cc
Turn-commits texts now e o p r r' was is (by_call call of (moves x x' move)) before later =
    let one : x ≡ r = ground arith in
    let two : x' ≡ r' = ground arith in
    rw (← one, ← two)
      (Move-commits texts call now e x x' of move (rw (one) before) (rw (two) later))
Turn-commits texts now e o p r r' was is (by_call call of (removed x unsent that)) before later = cc
Turn-commits texts now e o p r r' was is (by_upload same_row) before later =
    let one : r ≡ r' = ground (arith, sym was ∙ is) in let bad = rw (one) at before in cc
Turn-commits texts now e o p r r' was is (by_upload (new_row x fresh)) before later = cc

module _ (texts : Texts) (config : Config) (machine : Machine) (bucket : ℕ) where
  -- Whatever calls, uploads, collections and scans follow, in any order and at any times, an
  -- attachment that is committed to a message stays committed to that message, for the same
  -- reservation of the same sender in the same conversation, and its row is never removed.
  pub history_committed :
      (events : List (ℕ × Event)) (s : Site)
      → Keyed (rows_of s)
      → (a message reservation user conversation : ℕ)
      → row_passes (is_in_message message reservation user conversation) (row_of a (rows_of s))
        ≡ true
      → row_passes
          (is_in_message message reservation user conversation)
          (row_of a (rows_of (history texts config machine bucket events s)))
        ≡ true
  history_committed events s keyed a m v u c =
      history_keeps texts config machine bucket (λ o. row_passes (is_in_message m v u c) o ≡ true)
        (Turn-in_message texts m v u c) a events s keyed

  -- Any history keeps the columns of every row in agreement with its status: a staged file is bound
  -- to no message, a reserved one has its message and an end of its time, a committed one has its
  -- message and no such end, and an acknowledgement is only there with the write policy.
  pub history-WellFormed :
      (events : List (ℕ × Event)) (s : Site)
      → Keyed (rows_of s)
      → (a : ℕ) → row_fits is_well_formed (row_of a (rows_of s)) ≡ true
      → row_fits is_well_formed (row_of a (rows_of (history texts config machine bucket events s)))
        ≡ true
  history-WellFormed events s keyed a =
      history_keeps texts config machine bucket (λ o. row_fits is_well_formed o ≡ true)
        (Turn-WellFormed texts) a events s keyed

  -- When an event turns an attachment into a committed one, it was reserved for the same message
  -- before, and the event is one of three: the commit of its acknowledged write; the recovery from
  -- a stored message that has the sender, the identifier and the attachments of the reservation; or
  -- the worker's settling of a group whose reservation has run out.
  pub commit-Cause :
      (now : ℕ) (e : Event) (s : Site)
      → Keyed (rows_of s)
      → (a : ℕ) (r r' : Attachment) → row_of a (rows_of s) ≡ some r
      → row_of a (rows_of (happen texts config machine bucket now e s)) ≡ some r'
      → is_committed r.status ≡ false
      → is_committed r'.status ≡ true
      → (is_reserved r.status ≡ true) × (r'.message_id ≡ r.message_id) × Cause texts now e r
  commit-Cause now e s keyed a r r' was is =
      Turn-commits texts now e _ _ r r' was is
        ((happen-Turned texts config machine bucket now e s keyed).0 a)
