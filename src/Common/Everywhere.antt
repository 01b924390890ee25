-- ===== src/Common/Everywhere.antt =====
-- Tests that hold of every element of a list, or of any.
use Prim.Native.Nat.{◌+◌, ◌≤◌, ◌<◌}
use mathlib.Core.Path.{◌≡◌, refl}
use mathlib.Core.Bool.{Bool, true, false, not, ◌&&◌, ◌||◌}
use mathlib.Core.Option.{some}
use mathlib.Core.Logic.{inl, inr}
use mathlib.Core.List.{List, [], ◌∷◌, ◌++◌, map}
use native.Mathlib.Omega.{arith}
use voidchats_note2ee.Common.Tests.{Bool-cases}
use voidchats_note2ee.Common.Lists.{find, keep, every, any}
use voidchats_note2ee.Common.Counting.{count}

module _ {ℓ} {A : Type ℓ} where
  pub every-append :
      (p : A → Bool) (xs ys : List A) → every p (xs ++ ys) ≡ (every p xs && every p ys)
  every-append p [] ys = refl
  every-append p (x ∷ xs) ys = rw (every-append p xs ys) (ground arith)

  pub every-keep : (p q : A → Bool) (xs : List A) → every p xs ≡ true → every p (keep q xs) ≡ true
  every-keep p q [] h = refl
  every-keep p q (x ∷ xs) h = ground (arith, every-keep p q xs)

  pub every_mono :
      (p q : A → Bool)
      → ((x : A) → p x ≡ true → q x ≡ true)
      → (xs : List A) → every p xs ≡ true
      → every q xs ≡ true
  every_mono p q imp [] h = refl
  every_mono p q imp (x ∷ xs) h = ground (arith, imp x, every_mono p q imp xs)

  -- The same, where the elements pass a further test.
  pub every_mono_where :
      (p q r : A → Bool)
      → ((x : A) → p x ≡ true → r x ≡ true → q x ≡ true)
      → (xs : List A) → every p xs ≡ true
      → every r xs ≡ true
      → every q xs ≡ true
  every_mono_where p q r imp [] h k = refl
  every_mono_where p q r imp (x ∷ xs) h k = ground (arith, imp x, every_mono_where p q r imp xs)

  pub any-append : (p : A → Bool) (xs ys : List A) → any p (xs ++ ys) ≡ (any p xs || any p ys)
  any-append p [] ys = refl
  any-append p (x ∷ xs) ys = rw (any-append p xs ys) (ground arith)

  pub any-keep :
      (p q : A → Bool)
      → ((x : A) → p x ≡ true → q x ≡ true)
      → (xs : List A) → any p xs ≡ true
      → any p (keep q xs) ≡ true
  any-keep p q imp [] h = cc
  any-keep p q imp (x ∷ xs) h = ground (arith, imp x, any-keep p q imp xs)

  pub any_mono :
      (p q : A → Bool)
      → ((x : A) → p x ≡ true → q x ≡ true)
      → (xs : List A) → any p xs ≡ true
      → any q xs ≡ true
  any_mono p q imp [] h = cc
  any_mono p q imp (x ∷ xs) h = ground (arith, imp x, any_mono p q imp xs)

  pub any-find :
      (p q : A → Bool) (xs : List A) {x : A} → find p xs ≡ some x → q x ≡ true → any q xs ≡ true
  any-find p q [] h k = cc
  any-find p q (y ∷ xs) h k = elim (Bool-cases (p y)) [
    | inl hit ↦ ground arith
    | inr miss ↦ ground (arith, any-find p q xs (rw miss at h) k)
  ]

  pub count_of_any : (p : A → Bool) (xs : List A) → any p xs ≡ false → count p xs ≡ 0
  count_of_any p [] h = refl
  count_of_any p (x ∷ xs) h = ground (arith, count_of_any p xs)

  pub any_of_count : (p : A → Bool) (xs : List A) → 0 < count p xs → any p xs ≡ true
  any_of_count p [] h = elim h [ ]
  any_of_count p (x ∷ xs) h = ground (arith, any_of_count p xs)

  pub count_of_some : (p : A → Bool) (xs : List A) → any p xs ≡ true → 0 < count p xs
  count_of_some p [] h = cc
  count_of_some p (x ∷ xs) h = ground (arith, count_of_some p xs)

  -- No element passes where none that fails may pass.
  pub every_fails : (p : A → Bool) (xs : List A) → count p xs ≡ 0 → every (λ x. not (p x)) xs ≡ true
  every_fails p [] h = refl
  every_fails p (x ∷ xs) h = ground (arith, every_fails p xs)

  -- What is in a list where a test holds throughout passes it.
  pub any-every :
      (p q r : A → Bool)
      → ((x : A) → p x ≡ true → q x ≡ true → r x ≡ true)
      → (xs : List A) → any p xs ≡ true
      → every q xs ≡ true
      → any r xs ≡ true
  any-every p q r imp [] h k = cc
  any-every p q r imp (x ∷ xs) h k = ground (arith, imp x, any-every p q r imp xs)

  pub count_both : (q r : A → Bool) (xs : List A) → count (λ x. q x && r x) xs ≤ count q xs
  count_both q r [] = omega arith
  count_both q r (x ∷ xs) = ground (arith, count_both q r xs)

  -- One that passes the first test and fails the second is counted apart.
  pub count_apart :
      (p q r : A → Bool)
      → ((x : A) → p x ≡ true → (q x && not (r x)) ≡ true)
      → (xs : List A) → any p xs ≡ true
      → count (λ x. q x && r x) xs + 1 ≤ count q xs
  count_apart p q r imp [] h = cc
  count_apart p q r imp (x ∷ xs) h = elim (Bool-cases (p x)) [
    | inl hit ↦ ground (arith, imp x hit, count_both q r xs)
    | inr miss ↦ ground (arith, count_apart p q r imp xs (rw miss at h))
  ]

module _ {ℓ κ} {A : Type ℓ} {B : Type κ} where
  pub any-map :
      (p : B → Bool) (q : A → Bool) (f : A → B)
      → ((x : A) → p (f x) ≡ q x)
      → (xs : List A) → any p (map f xs) ≡ any q xs
  any-map p q f same [] = refl
  any-map p q f same (x ∷ xs) = rw (same x, any-map p q f same xs) refl
