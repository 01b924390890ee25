-- ===== src/Attachments/Lifecycle/Uploads.antt =====
-- An upload adds staged rows and leaves the others.
use voidchats_note2ee.Common.{
  ℕ, ◌≡◌, refl, Option, none, some, List, [], ◌∷◌, ◌++◌, ◌==◌, ==_iff, arith, count-append, find,
  find-append-some, find-append-none, count_of_none, Bool-cases, Option-cases, inl, inr,
}
use voidchats_note2ee.Attachments.Rows.{Attachment, Db, Config, staged, has_id, row_of}
use voidchats_note2ee.Attachments.Reserving.Exact.{Keyed}
use voidchats_note2ee.Attachments.Blobs.{
  World, Upload, Machine, staged_row, stage_uploaded_attachments,
}
use voidchats_note2ee.Attachments.Blobs.Uploading.{inserted, upload-Held}

-- A row that an upload makes: staged, and bound to nothing.
pub record IsNew (r : Attachment) : Type 0 where
  pub is_staged : r.status ≡ staged
  pub is_free : r.message_id ≡ none
  pub not_reserved : r.reservation_id ≡ none
  pub not_committed : r.committed_at ≡ none
  pub not_timed : r.reserved_until ≡ none
  pub not_acknowledged : r.scylla_write_acknowledged_at ≡ none

-- The row of an attachment is as it was, or it is new.
pub data Added : Option Attachment → Option Attachment → Type 0 where
  same_row : {o : Option Attachment} → Added o o
  new_row : (r : Attachment) → IsNew r → Added none (some r)

Grown : Db → Db → Type 0
Grown db db' =
    Keyed db.attachments
    → ((a : ℕ) → Added (row_of a db.attachments) (row_of a db'.attachments))
      × (Keyed db'.attachments)

Grown-refl : (db : Db) → Grown db db
unfolding Grown
Grown-refl db keyed = (λ a. same_row, keyed)

-- Only the attachments matter.
Grown-same : (db db' : Db) → db.attachments ≡ db'.attachments → Grown db db'
unfolding Grown
Grown-same db db' e = rw (e) (λ keyed. (λ a. same_row, keyed))

Added-then : {o p q : Option Attachment} → Added o p → Added p q → Added o q
Added-then same_row more = more
Added-then (new_row r fresh) same_row = new_row r fresh

Grown-then : (db db' db'' : Db) → Grown db db' → Grown db' db'' → Grown db db''
unfolding Grown
Grown-then db db' db'' first_step second_step keyed =
    let (one, kept) = first_step keyed in
    let (two, kept') = second_step kept in (λ a. Added-then (one a) (two a), kept')

row_added :
    (r : Attachment) (rows : List Attachment)
    → find (has_id r.id) rows ≡ none
    → IsNew r
    → (a : ℕ) → Added (row_of a rows) (row_of a (rows ++ r ∷ []))
row_added r rows missing fresh a = elim (Option-cases (row_of a rows)) [
  | inr (x, found) ↦ rw (found, find-append-some (has_id a) rows (r ∷ []) found) same_row
  | inl absent ↦ elim (Bool-cases (r.id == a)) [
    | inl this ↦
        rw (absent, find-append-none (has_id a) rows (r ∷ []) absent, this) (new_row r fresh)
    | inr other ↦ rw (absent, find-append-none (has_id a) rows (r ∷ []) absent, other) same_row
  ]
]

insert-Grown :
    (r : Attachment) (db : Db)
    → IsNew r
    → find (has_id r.id) db.attachments ≡ none
    → Grown db (inserted r db)
unfolding Grown
insert-Grown r db fresh missing keyed = (
  row_added r db.attachments missing fresh,
  λ b. elim (Bool-cases (r.id == b)) [
    | inl this ↦
        let same : r.id ≡ b = (==_iff r.id b).0 this in
        let none_yet = count_of_none (has_id r.id) db.attachments missing in
        rw (count-append (has_id b) db.attachments (r ∷ []), ← same) (ground (arith, none_yet))
    | inr other ↦
        rw (count-append (has_id b) db.attachments (r ∷ []), other) (omega (arith, keyed b))
  ],
)

-- Whatever an upload ends with, it adds staged rows at most.
pub upload-Added :
    (config : Config) (machine : Machine) (bucket now user conversation : ℕ) (files : List Upload)
    (w : World)
    → Keyed w.db.attachments
    → let w' = (stage_uploaded_attachments config machine bucket now user conversation files w).1 in
      ((a : ℕ) → Added (row_of a w.db.attachments) (row_of a w'.db.attachments))
      × (Keyed w'.db.attachments)
unfolding Grown
upload-Added config machine bucket now user conversation files w =
    upload-Held config machine bucket now (λ w'. Grown w.db w'.db) (λ key w' held. held)
      (λ p w' free held. held)
      (λ u c p blob w' found at_id fine new held.
        Grown-then w.db w'.db (inserted (staged_row config machine bucket now u c p blob) w'.db)
          held
          (insert-Grown (staged_row config machine bucket now u c p blob) w'.db
            (record {
              is_staged = refl;
              is_free = refl;
              not_reserved = refl;
              not_committed = refl;
              not_timed = refl;
              not_acknowledged = refl;
            })
            new))
      user conversation files w (Grown-refl w.db)
