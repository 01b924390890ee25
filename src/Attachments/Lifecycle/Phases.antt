-- ===== src/Attachments/Lifecycle/Phases.antt =====
-- The life of an attachment as a state machine of its own: a file waits to be sent, is held for a
-- message, is sent, or is gone. Its rules name the columns that matter and none of the tests that
-- the statements of the code make.
use voidchats_note2ee.Common.{
  ℕ, ◌+◌, ◌≤◌, ◌<◌, ◌≡◌, refl, ap, Bool, true, false, Option, none, some, is_some, ==_iff, arith,
  Bool-cases, inl, inr,
}
use voidchats_note2ee.Attachments.Rows.{
  Attachment, Status, staged, reserved, committed, legacy, Db, Config, ReservationIdentity, row_of,
  holds, at_most, above, is_staged, is_reserved, is_committed, seconds,
}
use voidchats_note2ee.Attachments.References.{Texts}
use voidchats_note2ee.Attachments.Reserving.Exact.{Keyed}
use voidchats_note2ee.Attachments.Writing.{StoredRow}
use voidchats_note2ee.Attachments.Groups.{Group}
use voidchats_note2ee.Attachments.Steps.{
  Call, reserves, acknowledges, commits, releases, recovers, settles, restages, step,
}
use voidchats_note2ee.Attachments.Lifecycle.Edges.{
  Edge, Move, stays, is_reserved_by, is_acknowledged_by, is_committed_by, is_recovered_by,
  is_settled_by, is_returned_by, is_released_by, moves, removed, absent, is_removal,
}
use voidchats_note2ee.Attachments.Lifecycle.Moves.{step-Edge}

-- A file that waits has the end of its time; one that is held or sent its reservation and message;
-- one that is held also the end of the reservation, and whether the write is acknowledged.
pub data Phase : Type 0 where
  gone untracked : Phase
  waiting : (until : Option ℕ) → Phase
  held : (reservation message until : Option ℕ) (written : Bool) → Phase
  sent : (reservation message : Option ℕ) → Phase

abbrev phase_at : Status → Attachment → Phase
phase_at staged r = waiting r.expires_at
phase_at reserved r =
    held r.reservation_id r.message_id r.reserved_until (is_some r.scylla_write_acknowledged_at)
phase_at committed r = sent r.reservation_id r.message_id
phase_at legacy r = untracked

abbrev pub phase_of : Option Attachment → Phase
phase_of none = gone
phase_of (some r) = phase_at r.status r

-- What each call may do to a phase, at the time `now`.
pub data Change (call : Call) (now : ℕ) : Phase → Phase → Type 0 where
  nothing : (p : Phase) → Change call now p p
  reservation :
      (q : ReservationIdentity) (until end : ℕ)
      → call ≡ reserves q
      → now < until
      → now ≤ end
      → Change call now
          (waiting (some until))
          (held (some q.reservation_id) (some q.message_id) (some end) false)
  acknowledgement :
      (q : ReservationIdentity) (end : Option ℕ)
      → call ≡ acknowledges q
      → Change call now
          (held (some q.reservation_id) (some q.message_id) end false)
          (held (some q.reservation_id) (some q.message_id) end true)
  commitment :
      (q : ReservationIdentity) (end : Option ℕ)
      → call ≡ commits q
      → Change call now
          (held (some q.reservation_id) (some q.message_id) end true)
          (sent (some q.reservation_id) (some q.message_id))
  recovery :
      (q : ReservationIdentity) (row : StoredRow) (end : Option ℕ) (written : Bool)
      → call ≡ recovers q row
      → Change call now
          (held (some q.reservation_id) (some q.message_id) end written)
          (sent (some q.reservation_id) (some q.message_id))
  settlement :
      (g : Group) (end : ℕ) (written : Bool)
      → call ≡ settles g
      → end ≤ now
      → Change call now
          (held (some g.reservation_id) (some g.message_id) (some end) written)
          (sent (some g.reservation_id) (some g.message_id))
  return :
      (g : Group) (end until : ℕ)
      → call ≡ restages g
      → end ≤ now
      → now ≤ until
      → Change call now
          (held (some g.reservation_id) (some g.message_id) (some end) true)
          (waiting (some until))
  release :
      (q : ReservationIdentity) (end until : Option ℕ) (written : Bool)
      → call ≡ releases q
      → Change call now
          (held (some q.reservation_id) (some q.message_id) end written)
          (waiting until)
  removal : (until : Option ℕ) → is_removal call ≡ true → Change call now (waiting until) gone

is_staged_lem : (s : Status) → is_staged s ≡ true → s ≡ staged
is_staged_lem staged h = refl
is_staged_lem reserved h = cc
is_staged_lem committed h = cc
is_staged_lem legacy h = cc

is_reserved_lem : (s : Status) → is_reserved s ≡ true → s ≡ reserved
is_reserved_lem staged h = cc
is_reserved_lem reserved h = refl
is_reserved_lem committed h = cc
is_reserved_lem legacy h = cc

is_committed_lem : (s : Status) → is_committed s ≡ true → s ≡ committed
is_committed_lem staged h = cc
is_committed_lem reserved h = cc
is_committed_lem committed h = refl
is_committed_lem legacy h = cc

holds_lem : (o : Option ℕ) (v : ℕ) → holds o v ≡ true → o ≡ some v
holds_lem none v h = cc
holds_lem (some c) v h = ap some ((==_iff c v).0 h)

at_most_lem : (o : Option ℕ) (v : ℕ) → at_most o v ≡ true → (c : ℕ) × (o ≡ some c) × (c ≤ v)
at_most_lem none v h = cc
at_most_lem (some c) v h = (c, refl, ground arith)

above_lem : (o : Option ℕ) (v : ℕ) → above o v ≡ true → (c : ℕ) × (o ≡ some c) × (v < c)
above_lem none v h = cc
above_lem (some c) v h = (c, refl, ground arith)

-- A move of the rows is a change of their phases.
Move-Change :
    (texts : Texts) (call : Call) (now : ℕ) (r r' : Attachment)
    → Move texts call now r r'
    → Change call now (phase_of (some r)) (phase_of (some r'))
Move-Change texts call now r r' stays = nothing _
Move-Change texts call now r r' (is_reserved_by q ttl this can own) =
    let status = is_staged_lem r.status (ground arith) in
    let (until, time, early) = above_lem r.expires_at now (ground arith) in
    rw (status, time) (reservation q until (now + seconds ttl) this early (omega arith))
Move-Change texts call now r r' (is_acknowledged_by q this can) =
    let status = is_reserved_lem r.status (ground arith) in
    let its = holds_lem r.reservation_id q.reservation_id (ground arith) in
    let message = holds_lem r.message_id q.message_id (ground arith) in
    let unwritten : is_some r.scylla_write_acknowledged_at ≡ false = ground arith in
    rw (status, its, message, unwritten) (acknowledgement q r.reserved_until this)
Move-Change texts call now r r' (is_committed_by q this can) =
    let status = is_reserved_lem r.status (ground arith) in
    let its = holds_lem r.reservation_id q.reservation_id (ground arith) in
    let message = holds_lem r.message_id q.message_id (ground arith) in
    let written : is_some r.scylla_write_acknowledged_at ≡ true = ground arith in
    rw (status, its, message, written) (commitment q r.reserved_until this)
Move-Change texts call now r r' (is_recovered_by q row ids this parsed same can) =
    let its = holds_lem r.reservation_id q.reservation_id (ground arith) in
    let message = holds_lem r.message_id q.message_id (ground arith) in
    elim (Bool-cases (is_reserved r.status)) [
      | inl free ↦
          rw (is_reserved_lem r.status free, its, message)
            (recovery q row r.reserved_until (is_some r.scylla_write_acknowledged_at) this)
      | inr already ↦ rw (is_committed_lem r.status (ground arith), its, message) (nothing _)
    ]
Move-Change texts call now r r' (is_settled_by g this can) =
    let status = is_reserved_lem r.status (ground arith) in
    let its = holds_lem r.reservation_id g.reservation_id (ground arith) in
    let message = holds_lem r.message_id g.message_id (ground arith) in
    let (end, time, late) = at_most_lem r.reserved_until now (ground arith) in
    rw (status, its, message, time)
      (settlement g end (is_some r.scylla_write_acknowledged_at) this late)
Move-Change texts call now r r' (is_returned_by g ttl this can done) =
    let status = is_reserved_lem r.status (ground arith) in
    let its = holds_lem r.reservation_id g.reservation_id (ground arith) in
    let message = holds_lem r.message_id g.message_id (ground arith) in
    let (end, time, late) = at_most_lem r.reserved_until now (ground arith) in
    let written : is_some r.scylla_write_acknowledged_at ≡ true = ground arith in
    rw (status, its, message, time, written)
      (return g end (now + seconds ttl) this late (omega arith))
Move-Change texts call now r r' (is_released_by q this can) =
    let status = is_reserved_lem r.status (ground arith) in
    let its = holds_lem r.reservation_id q.reservation_id (ground arith) in
    let message = holds_lem r.message_id q.message_id (ground arith) in
    rw (status, its, message)
      (release q r.reserved_until r.expires_at (is_some r.scylla_write_acknowledged_at) this)

Edge-Change :
    (texts : Texts) (call : Call) (now : ℕ) (o p : Option Attachment)
    → Edge texts call now o p
    → Change call now (phase_of o) (phase_of p)
Edge-Change texts call now o p absent = nothing gone
Edge-Change texts call now o p (moves r r' move) = Move-Change texts call now r r' move
Edge-Change texts call now o p (removed r unsent that) =
    rw (is_staged_lem r.status unsent) (removal r.expires_at that)

-- Every call refines the state machine of the phases, at each attachment: it changes nothing, or is
-- the one call that may: a file that waits and whose time is not over is held for the message of a
-- reservation, and only one that waits is removed; one that is held is acknowledged, released, or
-- sent by its own reservation (a commit needs the acknowledgement), or sent or returned (if it is
-- acknowledged) by the worker when the time of its reservation is over; and one that is sent
-- changes no more.
pub step-Change :
    (texts : Texts) (config : Config) (now : ℕ) (call : Call) (db : Db)
    → Keyed db.attachments
    → (a : ℕ)
    → Change call now
        (phase_of (row_of a db.attachments))
        (phase_of (row_of a (step texts config now call db).attachments))
step-Change texts config now call db keyed a =
    Edge-Change texts call now _ _ (step-Edge texts config now call db keyed a)
