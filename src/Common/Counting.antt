-- ===== src/Common/Counting.antt =====
-- How many elements of a list pass a test.
use Prim.Native.Nat.{ℕ, ◌+◌, ◌≤◌, ◌<◌}
use mathlib.Core.Path.{◌≡◌, refl}
use mathlib.Core.Bool.{Bool, true, false, not, ◌&&◌, ◌||◌}
use mathlib.Core.Option.{none, some}
use mathlib.Core.Logic.{inl, inr}
use mathlib.Core.List.{List, [], ◌∷◌, ◌++◌, map}
use native.Mathlib.Omega.{arith}
use voidchats_note2ee.Common.Tests.{if◌then◌else◌, Bool-cases}
use voidchats_note2ee.Common.Lists.{length, find, keep, is_some}

module _ {ℓ} {A : Type ℓ} where
  abbrev pub count : (A → Bool) → List A → ℕ
  count test [] = 0
  count test (x ∷ xs) = (if test x then 1 else 0) + count test xs

  pub count-append : (p : A → Bool) (xs ys : List A) → count p (xs ++ ys) ≡ count p xs + count p ys
  count-append p [] ys = omega arith
  count-append p (x ∷ xs) ys = omega (arith, count-append p xs ys)

  -- Counting in what a filter keeps.
  pub count-keep : (p q : A → Bool) (xs : List A) → count p (keep q xs) ≡ count (λ x. q x && p x) xs
  count-keep p q [] = refl
  count-keep p q (x ∷ xs) = ground (arith, count-keep p q xs)

  pub length-keep : (q : A → Bool) (xs : List A) → length (keep q xs) ≡ count q xs
  length-keep q [] = refl
  length-keep q (x ∷ xs) = ground (arith, length-keep q xs)

  pub count_mono :
      (p q : A → Bool)
      → ((x : A) → p x ≡ true → q x ≡ true)
      → (xs : List A) → count p xs ≤ count q xs
  count_mono p q imp [] = omega arith
  count_mono p q imp (x ∷ xs) = ground (arith, imp x, count_mono p q imp xs)

  pub count_congr :
      (p q : A → Bool) → ((x : A) → p x ≡ q x) → (xs : List A) → count p xs ≡ count q xs
  count_congr p q same [] = refl
  count_congr p q same (x ∷ xs) = rw (same x, count_congr p q same xs)

  -- What `find` returns passes the test, and is counted by every test that it passes.
  pub find_sound : (p : A → Bool) (xs : List A) (x : A) → find p xs ≡ some x → p x ≡ true
  find_sound p [] x h = cc
  find_sound p (y ∷ ys) x h = ground (arith, find_sound p ys x)

  pub find-count :
      (p q : A → Bool) (xs : List A) {x : A} → find p xs ≡ some x → q x ≡ true → 0 < count q xs
  find-count p q [] h k = cc
  find-count p q (y ∷ ys) h k = elim (Bool-cases (p y)) [
    | inl t ↦ ground arith
    | inr f ↦ ground (arith, find-count p q ys (rw f at h) k)
  ]

  pub find_of_count : (p : A → Bool) (xs : List A) → 0 < count p xs → is_some (find p xs) ≡ true
  find_of_count p [] h = elim h [ ]
  find_of_count p (x ∷ xs) h = ground (arith, find_of_count p xs)

  pub none_of_count : (p : A → Bool) (xs : List A) → count p xs ≡ 0 → find p xs ≡ none
  none_of_count p [] h = refl
  none_of_count p (x ∷ xs) h = ground (arith, none_of_count p xs)

  pub count_of_none : (p : A → Bool) (xs : List A) → find p xs ≡ none → count p xs ≡ 0
  count_of_none p [] h = refl
  count_of_none p (x ∷ xs) h = ground (arith, count_of_none p xs)

  -- What a filter drops and what it keeps are counted together.
  pub count_split :
      (p q : A → Bool) (xs : List A)
      → count p (keep (λ x. not (q x)) xs) + count (λ x. q x && p x) xs ≡ count p xs
  count_split p q [] = refl
  count_split p q (x ∷ xs) = ground (arith, count_split p q xs)

  pub count_minus :
      (p q : A → Bool)
      → ((x : A) → q x ≡ true → p x ≡ true)
      → (xs : List A) → count (λ x. p x && not (q x)) xs + count q xs ≡ count p xs
  count_minus p q imp [] = refl
  count_minus p q imp (x ∷ xs) = ground (arith, imp x, count_minus p q imp xs)

  pub count_cover :
      (p q r : A → Bool)
      → ((x : A) → p x ≡ true → (q x || r x) ≡ true)
      → (xs : List A) → count p xs ≤ count q xs + count r xs
  count_cover p q r imp [] = omega arith
  count_cover p q r imp (x ∷ xs) = ground (arith, imp x, count_cover p q r imp xs)

  -- A filter keeps at most as many.
  pub count-keep_le : (p q : A → Bool) (xs : List A) → count p (keep q xs) ≤ count p xs
  count-keep_le p q [] = omega arith
  count-keep_le p q (x ∷ xs) = ground (arith, count-keep_le p q xs)

  pub count_none : (p : A → Bool) → ((x : A) → p x ≡ false) → (xs : List A) → count p xs ≡ 0
  count_none p no_one [] = refl
  count_none p no_one (x ∷ xs) = rw (no_one x, count_none p no_one xs)

module _ {ℓ κ} {A : Type ℓ} {B : Type κ} where
  -- Two tests that agree count alike, also along a map.
  pub count-map :
      (f : B → A) (p : A → Bool) (q : B → Bool)
      → ((x : B) → p (f x) ≡ q x)
      → (xs : List B) → count p (map f xs) ≡ count q xs
  count-map f p q same [] = refl
  count-map f p q same (x ∷ xs) = rw (same x, count-map f p q same xs)
