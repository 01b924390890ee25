-- ===== src/Attachments/References/Distinct.antt =====
-- What `extractProtectedAttachmentIds` accepts.
use voidchats_note2ee.Common.{
  ℕ, ◌≤◌, ◌≡◌, refl, ap, subst, ◌∙◌, true, false, List, [], ◌∷◌, ◌==◌, ==_iff, arith, ltb, includes,
  length, times, Bool-cases, inl, inr,
}
use voidchats_note2ee.Attachments.Rows.{given, ◌>>=◌, bind_given}
use voidchats_note2ee.Attachments.References.{
  Texts, Raw, an_array, parse_attachment_descriptor, parse_all, check_distinct,
  extract_protected_attachment_ids,
}

-- The references are the identifiers, one by one.
pub data AreIdsOf (texts : Texts) : List Raw → List ℕ → Type 0 where
  no_ids : AreIdsOf texts [] []
  next_id :
      (r : Raw) (a : ℕ) (rs : List Raw) (ids : List ℕ)
      → parse_attachment_descriptor texts r ≡ given a
      → AreIdsOf texts rs ids
      → AreIdsOf texts (r ∷ rs) (a ∷ ids)

parse_all-AreIdsOf :
    (texts : Texts) (raws : List Raw) (ids : List ℕ)
    → parse_all texts raws ≡ given ids
    → AreIdsOf texts raws ids
unfolding parse_all
parse_all-AreIdsOf texts [] [] h = no_ids
parse_all-AreIdsOf texts [] (a ∷ ids) h = ground arith
parse_all-AreIdsOf texts (r ∷ rs) ids h =
    let (a, first_id, others) =
      bind_given (parse_attachment_descriptor texts r)
        (λ a. parse_all texts rs >>= λ rest. given (a ∷ rest)) h in
    let (rest, parsed, last) = bind_given (parse_all texts rs) (λ rest. given (a ∷ rest)) others in
    let shape : (a ∷ rest) ≡ ids = ground (arith, last) in
    subst (λ xs. AreIdsOf texts (r ∷ rs) xs) shape
      (next_id r a rs rest first_id (parse_all-AreIdsOf texts rs rest parsed))

-- One step of the loop that goes on.
check_step :
    (texts : Texts) (seen : List ℕ) (a : ℕ) (ids more : List ℕ)
    → check_distinct texts seen (a ∷ ids) ≡ given more
    → (rest : List ℕ) × (includes a seen ≡ false)
      × (check_distinct texts (a ∷ seen) ids ≡ given rest)
      × ((a ∷ rest) ≡ more)
check_step texts seen a ids more h = elim (Bool-cases (includes a seen)) [
  | inl again ↦ let bad = rw (again, check_distinct) at h in cc
  | inr new ↦
      let (rest, checked, last) =
        bind_given (check_distinct texts (a ∷ seen) ids) (λ rest. given (a ∷ rest))
          (rw (new, check_distinct) at h) in
      (rest, new, checked, ground (arith, last))
]

checked_same :
    (texts : Texts) (seen ids more : List ℕ)
    → check_distinct texts seen ids ≡ given more
    → ids ≡ more
checked_same texts seen [] more h = ground arith
checked_same texts seen (a ∷ ids) more h =
    let (rest, new, checked, last) = check_step texts seen a ids more h in
    ap (λ xs. a ∷ xs) (checked_same texts (a ∷ seen) ids rest checked) ∙ last

checked_once :
    (texts : Texts) (seen ids more : List ℕ)
    → check_distinct texts seen ids ≡ given more
    → (a : ℕ) → (times a ids ≤ 1) × (includes a seen ≡ true → times a ids ≡ 0)
checked_once texts seen [] more h a = (omega arith, λ m. refl)
checked_once texts seen (x ∷ ids) more h a =
    let (rest, new, checked, last) = check_step texts seen x ids more h in
    let (once, apart) = checked_once texts (x ∷ seen) ids rest checked a in
    elim (Bool-cases (x == a)) [
      | inl this ↦
          let same : x ≡ a = (==_iff x a).0 this in
          let none_left : times a ids ≡ 0 = apart (rw (this) refl) in
          (rw (this, none_left) (omega arith), λ m. let bad = rw (same, m) at new in cc)
      | inr other ↦
          (rw (other) (omega (arith, once)), λ m. rw (other) (omega (arith, apart (rw (other) m))))
    ]

-- The identifiers that are accepted are those of the references, in their order; there are at most
-- five, and none is there twice.
pub extract_lem :
    (texts : Texts) (raws : List Raw) (ids : List ℕ)
    → extract_protected_attachment_ids texts (an_array raws) ≡ given ids
    → AreIdsOf texts raws ids × (length raws ≤ 5) × ((a : ℕ) → times a ids ≤ 1)
unfolding extract_protected_attachment_ids
extract_lem texts raws ids h = elim (Bool-cases (ltb 5 (length raws))) [
  | inl many ↦ let bad = rw (many, extract_protected_attachment_ids) at h in cc
  | inr few ↦
      let (parsed, all_parsed, checked) =
        bind_given (parse_all texts raws) (check_distinct texts [])
          (rw (few, extract_protected_attachment_ids) at h) in
      let same : parsed ≡ ids = checked_same texts [] parsed ids checked in
      (
        subst (λ xs. AreIdsOf texts raws xs) same (parse_all-AreIdsOf texts raws parsed all_parsed),
        ground arith,
        λ a. subst (λ xs. times a xs ≤ 1) same (checked_once texts [] parsed ids checked a).0,
      )
]
