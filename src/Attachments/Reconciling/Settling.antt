-- ===== src/Attachments/Reconciling/Settling.antt =====
-- What the worker does with a group, and what its summary says.
use voidchats_note2ee.Common.{
  ℕ, ◌+◌, ◌<◌, ◌≡◌, refl, ◌∙◌, Bool, true, false, not, ◌||◌, ◌⊎◌, Option, List, [], ◌∷◌, arith, any,
  count, count_none, keep, length, Bool-cases, inl, inr,
}
use voidchats_note2ee.Attachments.Rows.{Db, given, Verdict-cases}
use voidchats_note2ee.Attachments.Writing.{is_acknowledged}
use voidchats_note2ee.Attachments.Groups.{Group, list_expired_reservation_groups}
use voidchats_note2ee.Attachments.Reconciling.{
  Loaded, unreadable, no_message, a_message, Outcome, was_committed, was_released, was_mismatched,
  was_uncertain, was_stale, matches, settle_group, is_confirmed, is_unfinished, mark_committed,
  release_to_staged, may_return, is_locked, locks_exactly, Settled, note_outcome, settle_groups,
  run_once,
}

-- The transaction that returns a group's files: it was confirmed, and no send of it is unfinished.
released_fits :
    (ttl now : ℕ) (g : Group) (db : Db) (x : Bool × Db)
    → 0 < length g.attachment_ids
    → release_to_staged ttl now g db ≡ given x
    → (x ≡ (false, db))
      ⊎ ((x.0 ≡ true) × (is_confirmed g ≡ true) × (any (is_unfinished g) db.sends ≡ false))
unfolding release_to_staged
released_fits ttl now g db x many h = elim (Bool-cases (locks_exactly now g db)) [
  | inr off ↦ inl (ground (arith, rw (off, release_to_staged) at h))
  | inl exact ↦
      elim (Bool-cases (
        not (is_confirmed g)
        || any (λ r. not (is_acknowledged r)) (keep (is_locked now g) db.attachments))) [
          | inl unclear ↦ inl (ground (arith, rw (exact, unclear, release_to_staged) at h))
          | inr clear ↦ elim (Bool-cases (any (is_unfinished g) db.sends)) [
            | inr finished ↦
                inr (
                  ground (arith, rw (exact, clear, release_to_staged) at h),
                  ground arith,
                  finished,
                )
            | inl unfinished ↦
                let taken : count (may_return now g db.sends) db.attachments ≡ 0 =
                  count_none (may_return now g db.sends) (λ r. ground (arith, unfinished))
                    db.attachments in
                let bad = rw (exact, clear, taken, release_to_staged) at h in ground arith
          ]
        ]
]

committed_fits :
    (now : ℕ) (g : Group) (db : Db) (x : Bool × Db)
    → mark_committed now g db ≡ given x
    → (x ≡ (false, db)) ⊎ (x.0 ≡ true)
unfolding mark_committed
committed_fits now g db x h = elim (Bool-cases (locks_exactly now g db)) [
  | inr off ↦ inl (ground (arith, rw (off, mark_committed) at h))
  | inl exact ↦ inr (ground (arith, rw (exact, mark_committed) at h))
]

-- What stands behind the outcome of a group.
abbrev pub Justified : Loaded → Group → Db → Outcome → Type 0
Justified loaded g db was_committed =
    (sender : Option ℕ) × (ids : Option (List ℕ)) × (loaded ≡ a_message sender ids)
    × (matches g sender ids ≡ true)
Justified loaded g db was_released =
    (loaded ≡ no_message) × (is_confirmed g ≡ true) × (any (is_unfinished g) db.sends ≡ false)
Justified loaded g db _ = loaded ≡ loaded

-- The worker commits a group only when the stored message is of its uploader and has exactly its
-- attachments; it returns a group's files only when no message is stored, the write was acknowledged
-- under the policy, and no send of the reservation is unfinished; with any other outcome the
-- database is as it was. The group has an attachment.
pub settle_group-Justified :
    (ttl now : ℕ) (loaded : Loaded) (g : Group) (db : Db)
    → 0 < length g.attachment_ids
    → Justified loaded g db (settle_group ttl now loaded g db).0
      × (((settle_group ttl now loaded g db).1 ≡ db)
          ⊎ (((settle_group ttl now loaded g db).0 ≡ was_committed)
              ⊎ ((settle_group ttl now loaded g db).0 ≡ was_released)))
unfolding settle_group
settle_group-Justified ttl now unreadable g db many = (refl, inl refl)
settle_group-Justified ttl now no_message g db many = elim (Bool-cases (is_confirmed g)) [
  | inr unclear ↦ rw (unclear) (refl, inl refl)
  | inl clear ↦ elim (Verdict-cases (release_to_staged ttl now g db)) [
    | inr (inl (status, code, refused)) ↦ rw (clear, refused) (refl, inl refl)
    | inr (inr error) ↦ rw (clear, error) (refl, inl refl)
    | inl ((b, db'), fine) ↦ elim (released_fits ttl now g db (b, db') many fine) [
      | inl stale ↦ rw (clear, fine, stale) (refl, inl refl)
      | inr (happened, confirmed, finished) ↦
          rw (clear, fine, happened) ((refl, clear, finished), inr (inr refl))
    ]
  ]
]
settle_group-Justified ttl now (a_message sender ids) g db many =
    elim (Bool-cases (matches g sender ids)) [
      | inr other ↦ rw (other) (refl, inl refl)
      | inl same ↦ elim (Verdict-cases (mark_committed now g db)) [
        | inr (inl (status, code, refused)) ↦ rw (same, refused) (refl, inl refl)
        | inr (inr error) ↦ rw (same, error) (refl, inl refl)
        | inl ((b, db'), fine) ↦ elim (committed_fits now g db (b, db') fine) [
          | inl stale ↦ rw (same, fine, stale) (refl, inl refl)
          | inr happened ↦ rw (same, fine, happened) ((sender, ids, refl, same), inr (inl refl))
        ]
      ]
    ]

total : Settled → ℕ
total s = s.committed_groups + s.released + s.mismatched + s.uncertain + s.stale

note_total : (o : Outcome) (s : Settled) → total (note_outcome o s) ≡ total s + 1
unfolding total
note_total was_committed s = omega arith
note_total was_released s = omega arith
note_total was_mismatched s = omega arith
note_total was_uncertain s = omega arith
note_total was_stale s = omega arith

note_selected : (o : Outcome) (s : Settled) → (note_outcome o s).selected ≡ s.selected
note_selected was_committed s = refl
note_selected was_released s = refl
note_selected was_mismatched s = refl
note_selected was_uncertain s = refl
note_selected was_stale s = refl

module _ (ttl : ℕ) (clock : Group → ℕ) (load : Group → Loaded) where
  groups_counted :
      (gs : List Group) (s : Settled) (db : Db)
      → (total (settle_groups ttl clock load gs (s, db)).0 ≡ total s + length gs)
        × ((settle_groups ttl clock load gs (s, db)).0.selected ≡ s.selected)
  unfolding settle_groups
  groups_counted [] s db = (omega arith, refl)
  groups_counted (g ∷ gs) s db =
      let o = (settle_group ttl (clock g) (load g) g db).0 in
      let (counted, same) =
        groups_counted gs (note_outcome o s) (settle_group ttl (clock g) (load g) g db).1 in
      (omega (arith, counted, note_total o s), same ∙ note_selected o s)

  -- Whatever the reads answer and however the transactions end, each selected group is counted
  -- under exactly one outcome.
  pub run_once_counts :
      (now batch_size : ℕ) (db : Db)
      → let s = (run_once ttl clock load now batch_size db).0 in
        s.committed_groups + s.released + s.mismatched + s.uncertain + s.stale ≡ s.selected
  unfolding run_once total
  run_once_counts now batch_size db =
      let groups = list_expired_reservation_groups now batch_size db in
      let zero_summary : Settled = record {
        selected = length groups;
        committed_groups = 0;
        released = 0;
        mismatched = 0;
        uncertain = 0;
        stale = 0;
      } in
      let (counted, same) = groups_counted groups zero_summary db in omega (arith, counted, same)
