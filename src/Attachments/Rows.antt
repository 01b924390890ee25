-- ===== src/Attachments/Rows.antt =====
-- The tables of VOID0000-api/db/migrations/0007, 0009, 0010 and 0011 that the attachment code
-- reads and writes, and the values that pass between its functions. An identifier or a text is a
-- number: an attachment's is that of its lowercase UUID, so that the order of numbers is the order
-- of texts; a content hash and an object key are lists of characters. A column that may be NULL is an `Option`, a time a number of microseconds.
use voidchats_note2ee.Common.{
  ℕ, ◌*◌, Bool, true, false, Option, none, some, List, ◌==◌, leb, ltb, if◌then◌else◌, map, includes,
  find, ◌≡◌, refl, ◌⊎◌, inl, inr,
}

pub data Status : Type 0 where
  staged reserved committed legacy : Status

-- A row of `attachment_objects`.
pub record Attachment : Type 0 where
  pub id : ℕ
  pub conversation_id : ℕ
  pub uploader_id : ℕ
  pub blob_id : ℕ
  pub poster_blob_id : Option ℕ
  pub status : Status
  pub size_bytes : Option ℕ
  pub staged_at : Option ℕ
  pub expires_at : Option ℕ
  pub reserved_at : Option ℕ
  pub reserved_until : Option ℕ
  pub reservation_id : Option ℕ
  pub committed_at : Option ℕ
  pub message_id : Option ℕ
  pub scylla_write_policy : Option ℕ
  pub scylla_write_acknowledged_at : Option ℕ

pub data BlobStatus : Type 0 where
  ready deleting : BlobStatus

-- A row of `attachment_blobs`.
pub record Blob : Type 0 where
  pub id : ℕ
  pub content_hash : Option (List ℕ)
  pub bucket : ℕ
  pub object_key : List ℕ
  pub size_bytes : Option ℕ
  pub content_type : Option ℕ
  pub shown_inline : Option Bool
  pub status : BlobStatus
  pub ref_count : ℕ
  pub orphaned_at : Option ℕ

-- A row of `media_ingests`: an upload that is still being processed counts against the quota.
pub record Ingest : Type 0 where
  pub uploader_id : ℕ
  pub reserved_bytes : ℕ
  pub is_pending : Bool

-- A row of `message_send_operations`.
pub record SendOperation : Type 0 where
  pub user_id : ℕ
  pub conversation_id : ℕ
  pub client_message_id : ℕ
  pub message_id : ℕ
  pub completed_at : Option ℕ

pub record Db : Type 0 where
  pub attachments : List Attachment
  pub blobs : List Blob
  pub ingests : List Ingest
  pub sends : List SendOperation

pub record Config : Type 0 where
  pub staged_ttl_seconds : ℕ
  pub reservation_ttl_seconds : ℕ
  pub staged_max_count : ℕ
  pub staged_max_bytes : ℕ
  pub cleanup_interval_seconds : ℕ
  pub cleanup_batch_size : ℕ
  pub reconciliation_batch_size : ℕ
  pub blob_gc_grace_seconds : ℕ
  pub blob_gc_batch_size : ℕ

pub record ReservationIdentity : Type 0 where
  pub attachment_ids : List ℕ
  pub reservation_id : ℕ
  pub message_id : ℕ
  pub user_id : ℕ
  pub conversation_id : ℕ

-- The code of an `AttachmentLifecycleError`.
pub data Code : Type 0 where
  attachments_invalid attachment_limit_exceeded attachment_duplicate : Code
  reference_invalid reference_external : Code
  attachment_not_found attachment_forbidden attachment_expired : Code
  already_used state_conflict not_staged : Code
  attachment_mismatch acknowledgement_conflict commit_conflict : Code
  quota_exceeded blob_busy blob_conflict : Code

-- `failed` is what `fail` throws: the status of the answer, and the code. `broken` is any other
-- error, of the database or the object store.
pub data Verdict {ℓ} (A : Type ℓ) : Type ℓ where
  given : A → Verdict A
  failed : (status : ℕ) (code : Code) → Verdict A
  broken : Verdict A

-- The next query runs only after one that went well.
module _ {ℓ κ} {A : Type ℓ} {B : Type κ} where
  infixl 5 ◌>>=◌
  abbrev pub ◌>>=◌ : (first_query : Verdict A) (next : A → Verdict B) → Verdict B
  given row >>= next = next row
  failed status code >>= next = failed status code
  broken >>= next = broken

  -- A chain that succeeds succeeds at each step.
  pub bind_given :
      (first_query : Verdict A) (next : A → Verdict B) {last : B}
      → (first_query >>= next) ≡ given last
      → (row : A) × (first_query ≡ given row) × (next row ≡ given last)
  bind_given (given row) next went = (row, refl, went)
  bind_given (failed status code) next went = cc
  bind_given broken next went = cc

pub Verdict-cases {ℓ} :
    {A : Type ℓ} (m : Verdict A)
    → ((a : A) × (m ≡ given a))
      ⊎ (((status : ℕ) × (code : Code) × (m ≡ failed status code)) ⊎ (m ≡ broken))
Verdict-cases (given a) = inl (a, refl)
Verdict-cases (failed status code) = inr (inl (status, code, refl))
Verdict-cases broken = inr (inr refl)

abbrev pub attachment_message_write_policy : ℕ
attachment_message_write_policy = 1

-- `n * INTERVAL '1 second'`
abbrev pub seconds : ℕ → ℕ
seconds n = n * 1000000

abbrev pub is_staged : Status → Bool
is_staged staged = true
is_staged _ = false

abbrev pub is_reserved : Status → Bool
is_reserved reserved = true
is_reserved _ = false

abbrev pub is_committed : Status → Bool
is_committed committed = true
is_committed _ = false

-- SQL's `column = value`, `column <= value` and `column > value`: NULL passes none.
abbrev pub holds : Option ℕ → ℕ → Bool
holds none v = false
holds (some c) v = c == v

abbrev pub at_most : Option ℕ → ℕ → Bool
at_most none v = false
at_most (some c) v = leb c v

abbrev pub above : Option ℕ → ℕ → Bool
above none v = false
above (some c) v = ltb v c

abbrev pub has_id : ℕ → Attachment → Bool
has_id a r = r.id == a

-- The row of an attachment.
abbrev pub row_of : ℕ → List Attachment → Option Attachment
row_of a rows = find (has_id a) rows

-- `id = ANY(ids)`
abbrev pub is_among : List ℕ → Attachment → Bool
is_among ids r = includes r.id ids

-- `UPDATE attachment_objects SET … WHERE …`
abbrev pub where_change : (Attachment → Bool) → (Attachment → Attachment) → Attachment → Attachment
where_change test change r = if test r then change r else r

abbrev pub update :
    (Attachment → Bool) → (Attachment → Attachment) → List Attachment → List Attachment
update test change rows = map (where_change test change) rows
