-- ===== src/Reactions/Run.antt =====
-- Concurrent writers: a batch that is applied was decided on the partition that it meets.
use voidchats_note2ee.Common.{
  ℕ, suc, ◌<◌, ◌≡◌, ◌≢◌, ◌⊎◌, refl, sym, subst, Bool, true, false, Option, none, some, arith,
  Bool-cases, inl, inr, ==_iff,
}
use voidchats_note2ee.Reactions.{
  Partition, Snapshot, Write, write, summary_user, decide, commit, snapshot, revision_of, execute,
  same_revision,
}
use voidchats_note2ee.Reactions.Invariant.{IsSound, commit-IsSound}

-- One applied batch of some user, decided on the partition as it stands.
pub data Step (p : Partition) (q : Partition) : Type 0 where
  batch :
      (e user : ℕ) (present : Bool) (w : Write)
      → user ≢ summary_user
      → decide e present (snapshot user true p) ≡ write w
      → q ≡ commit user w p
      → Step p q

-- What other writers may have done meanwhile.
pub data Reach (p : Partition) : Partition → Type 0 where
  here : Reach p p
  next : {q r : Partition} → Reach p q → Step q r → Reach p r

pub Step-IsSound : (p q : Partition) → Step p q → IsSound p → IsSound q
Step-IsSound p q (batch e user present w apart decided same) sound =
    subst IsSound (sym same) (commit-IsSound e user present p w apart sound decided)

pub Reach-IsSound : {p q : Partition} → Reach p q → IsSound p → IsSound q
Reach-IsSound here sound = sound
Reach-IsSound (next {q} {r} before step) sound = Step-IsSound q r step (Reach-IsSound before sound)

pub write_revision :
    (e : ℕ) (present : Bool) (s : Snapshot) (w : Write)
    → decide e present s ≡ write w
    → (w.revision ≡ suc (revision_of s.revision)) × (w.expected ≡ s.revision)
unfolding decide
write_revision e true s w h = ground arith
write_revision e false s w h = ground arith

-- Every batch raises the revision.
Step-revision : (p q : Partition) → Step p q → revision_of p.revision < revision_of q.revision
unfolding commit
Step-revision p q (batch e user present w apart decided same) =
    let (raised, expected) = write_revision e present (snapshot user true p) w decided in
    ground arith

Reach-revision :
    {p q : Partition} → Reach p q → (q ≡ p) ⊎ (revision_of p.revision < revision_of q.revision)
Reach-revision here = inl refl
Reach-revision {p} (next {q} {r} before step) =
    let raised = Step-revision q r step in
    elim (Reach-revision before) [ inl same ↦ inr (ground arith) | inr earlier ↦ inr (omega arith) ]

same_revision_lem : (a b : Option ℕ) → same_revision a b ≡ true → revision_of a ≡ revision_of b
same_revision_lem none none h = refl
same_revision_lem (some a) (some b) h = (==_iff a b).0 h
same_revision_lem none (some b) h = absurd (cc h)
same_revision_lem (some a) none h = absurd (cc h)

-- So an unchanged revision means an unchanged partition.
same_partition : (p q : Partition) → Reach p q → same_revision q.revision p.revision ≡ true → q ≡ p
same_partition p q run h = elim (Reach-revision run) [
  | inl same ↦ same
  | inr raised ↦ let e = same_revision_lem q.revision p.revision h in absurd (omega arith)
]

-- A batch that is applied after other writers have run their own batches was decided on the very
-- partition that it changes: its condition on the revision leaves no other.
pub execute-eq-some :
    (e user : ℕ) (present c : Bool) (p q r : Partition) (w : Write)
    → Reach p q
    → decide e present (snapshot user c p) ≡ write w
    → execute user w q ≡ some r
    → (q ≡ p) × (r ≡ commit user w q)
unfolding execute
execute-eq-some e user present c p q r w run decided done =
    let (raised, expected) = write_revision e present (snapshot user c p) w decided in
    elim (Bool-cases (same_revision q.revision w.expected)) [
      | inr other ↦ absurd (cc (rw (other, execute) at done))
      | inl same ↦ (same_partition p q run (rw expected at same), ground arith)
    ]
