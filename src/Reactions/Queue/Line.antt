-- ===== src/Reactions/Queue/Line.antt =====
-- The tasks of one key as a line: each waits for the one before it, and only the first may run.
use voidchats_note2ee.Common.{
  ℕ, ◌≤◌, ◌<◌, ◌≡◌, refl, sym, ap, ◌∙◌, subst, Bool, true, false, not, Option, none, some, List, [],
  ◌∷◌, ◌++◌, ◌==◌, if◌then◌else◌, find, keep, map, is_some, arith, Bool-cases, inl, inr, ◌⊎◌,
  ==_refl,
}
use voidchats_note2ee.Reactions.{set_tally, delete_tally}
use voidchats_note2ee.Reactions.Queue.{Task, tail_of, is_task}
use voidchats_note2ee.Reactions.Queue.Sizes.{of_key}

-- The tasks of a key that wait behind the task `last`, of which `end` is the number of the last one.
abbrev pub Behind : ℕ → ℕ → Option ℕ → List Task → Type 0
Behind key last end [] = end ≡ some last
Behind key last end (t ∷ line) =
    (t.key ≡ key)
    × (t.previous ≡ some last)
    × (t.running ≡ false)
    × (last < t.id)
    × Behind key t.id end line

-- All tasks of a key: the first one may run.
abbrev pub IsLine : ℕ → Option ℕ → List Task → Type 0
IsLine key end [] = end ≡ none
IsLine key end (t ∷ line) = (t.key ≡ key) × Behind key t.id end line

Behind-append :
    (key last : ℕ) (end : Option ℕ) (line : List Task) (t : Task)
    → Behind key last end line
    → t.key ≡ key
    → t.previous ≡ end
    → t.running ≡ false
    → ((l : ℕ) → end ≡ some l → l < t.id)
    → Behind key last (some t.id) (line ++ t ∷ [])
Behind-append key last end [] t h k p r young = (k, p ∙ h, r, young last h, refl)
Behind-append key last end (u ∷ line) t (k', p', r', l', h) k p r young =
    (k', p', r', l', Behind-append key u.id end line t h k p r young)

pub IsLine-append :
    (key : ℕ) (end : Option ℕ) (line : List Task) (t : Task)
    → IsLine key end line
    → t.key ≡ key
    → t.previous ≡ end
    → t.running ≡ false
    → ((l : ℕ) → end ≡ some l → l < t.id)
    → IsLine key (some t.id) (line ++ t ∷ [])
IsLine-append key end [] t h k p r young = (k, refl)
IsLine-append key end (u ∷ line) t (k', h) k p r young =
    (k', Behind-append key u.id end line t h k p r young)

pub keep-append_key :
    (key : ℕ) (tasks : List Task) (t : Task)
    → keep (of_key key) (tasks ++ t ∷ [])
      ≡ keep (of_key key) tasks ++ (if t.key == key then t ∷ [] else [])
keep-append_key key [] t = refl
keep-append_key key (u ∷ tasks) t = elim (Bool-cases (u.key == key)) [
  | inl same ↦ rw (same, keep-append_key key tasks t) refl
  | inr other ↦ rw (other, keep-append_key key tasks t) refl
]

pub find-keep :
    (key id : ℕ) (tasks : List Task)
    → find (is_task key id) (keep (of_key key) tasks) ≡ find (is_task key id) tasks
find-keep key id [] = refl
find-keep key id (u ∷ tasks) = ground (arith, find-keep key id tasks)

pub tail_of-set_tally :
    (k key id : ℕ) (tails : List (ℕ × ℕ))
    → tail_of k (set_tally key id tails) ≡ (if key == k then some id else tail_of k tails)
unfolding tail_of set_tally
tail_of-set_tally k key id [] = refl
tail_of-set_tally k key id ((j, n) ∷ tails) = ground (arith, tail_of-set_tally k key id tails)

pub tail_of-delete_tally :
    (k key : ℕ) (tails : List (ℕ × ℕ))
    → tail_of k (delete_tally key tails) ≡ (if key == k then none else tail_of k tails)
unfolding tail_of delete_tally
tail_of-delete_tally k key [] = ground arith
tail_of-delete_tally k key ((j, n) ∷ tails) = ground (arith, tail_of-delete_tally k key tails)

-- Behind a task, those with its number or an older one are not found.
Behind-keep :
    (key last id : ℕ) (end : Option ℕ) (line : List Task)
    → Behind key last end line
    → id ≤ last
    → keep (λ u. not (is_task key id u)) line ≡ line
Behind-keep key last id end [] h le = refl
Behind-keep key last id end (u ∷ line) (k, p, r, l, h) le =
    let other : is_task key id u ≡ false = ground arith in
    rw (other, Behind-keep key u.id id end line h (omega arith)) refl

abbrev pub mark : ℕ → ℕ → Task → Task
mark key id u = if is_task key id u then record u { running = true } else u

Behind-mark :
    (key last id : ℕ) (end : Option ℕ) (line : List Task)
    → Behind key last end line
    → id ≤ last
    → map (mark key id) line ≡ line
Behind-mark key last id end [] h le = refl
Behind-mark key last id end (u ∷ line) (k, p, r, l, h) le =
    let other : is_task key id u ≡ false = ground arith in
    rw (other, Behind-mark key u.id id end line h (omega arith)) refl

found_here :
    (key p : ℕ) (u : Task) (line : List Task)
    → u.key ≡ key
    → (p ≡ u.id) ⊎ (is_some (find (is_task key p) line) ≡ true)
    → is_some (find (is_task key p) (u ∷ line)) ≡ true
found_here key p u line k (inl same) = ground arith
found_here key p u line k (inr there) = ground arith

-- A task that is found behind another has not started, and waits for one that is there.
Behind-find :
    (key last id : ℕ) (end : Option ℕ) (line : List Task) (t : Task)
    → Behind key last end line
    → find (is_task key id) line ≡ some t
    → (t.running ≡ false)
      × ((p : ℕ) × (t.previous ≡ some p)
          × ((p ≡ last) ⊎ (is_some (find (is_task key p) line) ≡ true)))
Behind-find key last id end [] t h f = absurd (cc f)
Behind-find key last id end (u ∷ line) t (k, p, r, l, h) f = elim (Bool-cases (is_task key id u)) [
  | inl it ↦
      let e : u ≡ t = ground arith in
      (
        ap (λ (x : Task). x.running) (sym e) ∙ r,
        (last, ap (λ (x : Task). x.previous) (sym e) ∙ p, inl refl),
      )
  | inr other ↦
      let (idle, (j, waits, there)) = Behind-find key u.id id end line t h (rw other at f) in
      (idle, (j, waits, inr (found_here key j u line k there)))
]

abbrev pub end_is : ℕ → Option ℕ → Bool
end_is id none = false
end_is id (some e) = e == id

Behind-end :
    (key last : ℕ) (end : Option ℕ) (line : List Task)
    → Behind key last end line
    → (e : ℕ) × (end ≡ some e) × (last ≤ e)
Behind-end key last end [] h = (last, h, omega arith)
Behind-end key last end (u ∷ line) (k, p, r, l, h) =
    let (e, same, le) = Behind-end key u.id end line h in (e, same, omega arith)

-- What is behind the first task is a line of its own once that one has left.
IsLine-tail :
    (key id : ℕ) (end : Option ℕ) (line : List Task)
    → Behind key id end line
    → IsLine key (if end_is id end then none else end) line
IsLine-tail key id end [] h = rw (h, ==_refl id) refl
IsLine-tail key id end (u ∷ line) (k, p, r, l, h) =
    let (e, same, le) = Behind-end key u.id end line h in
    let other : end_is id end ≡ false = rw same (ground arith) in rw other (k, h)

pub IsLine-keep :
    (key : ℕ) (end : Option ℕ) (line : List Task) (t : Task)
    → IsLine key end line
    → find (is_task key t.id) line ≡ some t
    → t.running ≡ true
    → IsLine key
        (if (end_is t.id end) then none else end)
        (keep (λ u. not (is_task key t.id u)) line)
IsLine-keep key end [] t h f runs = absurd (cc f)
IsLine-keep key end (u ∷ line) t (k, h) f runs = elim (Bool-cases (is_task key t.id u)) [
  | inl it ↦
      let same = Behind-keep key u.id t.id end line h (ground arith) in
      rw (it, same)
        (IsLine-tail key t.id end line (subst (λ i. Behind key i end line) (ground arith) h))
  | inr other ↦
      let (idle, (j, waits, there)) = Behind-find key u.id t.id end line t h (rw other at f) in
      absurd (ground arith)
]

pub IsLine-start :
    (key : ℕ) (end : Option ℕ) (line : List Task) (t : Task)
    → IsLine key end line
    → find (is_task key t.id) line ≡ some t
    → ((p : ℕ) → t.previous ≡ some p → is_some (find (is_task key p) line) ≡ false)
    → IsLine key end (map (mark key t.id) line)
IsLine-start key end [] t h f free = absurd (cc f)
IsLine-start key end (u ∷ line) t (k, h) f free = elim (Bool-cases (is_task key t.id u)) [
  | inl it ↦ let same = Behind-mark key u.id t.id end line h (ground arith) in rw (it, same) (k, h)
  | inr other ↦
      let (idle, (j, waits, there)) = Behind-find key u.id t.id end line t h (rw other at f) in
      let found = found_here key j u line k there in absurd (cc (free j waits, found))
]
