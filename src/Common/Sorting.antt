-- ===== src/Common/Sorting.antt =====
-- Sorted copies of identifier lists, compared element by element.
use Prim.Native.Nat.{ℕ, ◌≤◌, ◌<◌}
use mathlib.Core.Path.{◌≡◌, refl, ap}
use mathlib.Core.Bool.{Bool, true, false, ◌&&◌}
use mathlib.Core.Logic.{inl, inr, ◌↔◌}
use mathlib.Core.List.{List, [], ◌∷◌}
use native.Mathlib.Omega.{arith}
use voidchats_note2ee.Common.Tests.{leb, ◌==◌, if◌then◌else◌, Bool-cases}
use voidchats_note2ee.Common.Lists.{length}
use voidchats_note2ee.Common.Counting.{count}

abbrev pub insert : ℕ → List ℕ → List ℕ
insert a [] = a ∷ []
insert a (x ∷ xs) = if leb a x then a ∷ x ∷ xs else x ∷ insert a xs

-- `[...ids].sort()`
abbrev pub sort : List ℕ → List ℕ
sort [] = []
sort (x ∷ xs) = insert x (sort xs)

-- `left.every((id, index) => id === right[index])`
abbrev pub every_at : List ℕ → List ℕ → Bool
every_at [] ys = true
every_at (x ∷ xs) [] = false
every_at (x ∷ xs) (y ∷ ys) = x == y && every_at xs ys

-- The same length, and the same identifier at each index.
abbrev pub same_list : List ℕ → List ℕ → Bool
same_list xs ys = length xs == length ys && every_at xs ys

abbrev pub times : ℕ → List ℕ → ℕ
times a xs = count (λ x. x == a) xs

times-insert : (a b : ℕ) (xs : List ℕ) → times a (insert b xs) ≡ times a (b ∷ xs)
times-insert a b [] = refl
times-insert a b (x ∷ xs) = ground (arith, times-insert a b xs)

pub times-sort : (a : ℕ) (xs : List ℕ) → times a (sort xs) ≡ times a xs
times-sort a [] = refl
times-sort a (x ∷ xs) = rw (times-insert a x (sort xs)) (omega (arith, times-sort a xs))

pub same_list_sound : (xs ys : List ℕ) → same_list xs ys ≡ true → xs ≡ ys
same_list_sound [] [] h = refl
same_list_sound [] (y ∷ ys) h = ground arith
same_list_sound (x ∷ xs) [] h = ground arith
same_list_sound (x ∷ xs) (y ∷ ys) h = ground (arith, same_list_sound xs ys)

pub same_list_refl : (xs : List ℕ) → same_list xs xs ≡ true
same_list_refl [] = refl
same_list_refl (x ∷ xs) = ground (arith, same_list_refl xs)

-- Two sorted lists of the same identifiers are the same list.
Below : ℕ → List ℕ → Type 0
Below a xs = (b : ℕ) → 0 < times b xs → a ≤ b

data Sorted : List ℕ → Type 0 where
  none_left : Sorted []
  least : (x : ℕ) (xs : List ℕ) → Below x xs → Sorted xs → Sorted (x ∷ xs)

insert-Sorted : (a : ℕ) (xs : List ℕ) → Sorted xs → Sorted (insert a xs)
unfolding Below
insert-Sorted a [] s = least a [] (λ b h. ground arith) none_left
insert-Sorted a (x ∷ xs) (least _ _ below s) = elim (Bool-cases (leb a x)) [
  | inl t ↦ rw (t) (least a (x ∷ xs) (λ b h. ground (arith, below b)) (least x xs below s))
  | inr f ↦ rw (f) (
      least x (insert a xs) (λ b h. ground (arith, below b, times-insert b a xs))
        (insert-Sorted a xs s))
]

sort-Sorted : (xs : List ℕ) → Sorted (sort xs)
sort-Sorted [] = none_left
sort-Sorted (x ∷ xs) = insert-Sorted x (sort xs) (sort-Sorted xs)

same_in_order :
    (xs ys : List ℕ) → Sorted xs → Sorted ys → ((a : ℕ) → times a xs ≡ times a ys) → xs ≡ ys
unfolding Below
same_in_order [] [] s t same = refl
same_in_order [] (y ∷ ys) s t same = ground (arith, same y)
same_in_order (x ∷ xs) [] s t same = ground (arith, same x)
same_in_order (x ∷ xs) (y ∷ ys) (least _ _ lo s) (least _ _ lo' t) same =
    let first_same : x ≡ y = ground (arith, same x, same y, lo y, lo' x) in
    let rest : xs ≡ ys = same_in_order xs ys s t (λ a. ground (arith, same a)) in
    rw (first_same, rest) refl

-- The sorted copies agree exactly when each identifier is in both lists equally often.
pub sort_iff : (xs ys : List ℕ) → (sort xs ≡ sort ys) ↔ ((a : ℕ) → times a xs ≡ times a ys)
sort_iff xs ys = (
  λ e a. omega (arith, times-sort a xs, times-sort a ys, ap (times a) e),
  λ same.
      same_in_order (sort xs) (sort ys) (sort-Sorted xs) (sort-Sorted ys)
        (λ a. omega (arith, same a, times-sort a xs, times-sort a ys)),
)
