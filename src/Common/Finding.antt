-- ===== src/Common/Finding.antt =====
-- What a search finds after a filter, a map or an addition.
use Prim.Native.Nat.{◌≤◌}
use mathlib.Core.Path.{◌≡◌, refl}
use mathlib.Core.Bool.{Bool, true, false, not}
use mathlib.Core.Option.{Option, none, some}
use mathlib.Core.Logic.{inl, inr}
use mathlib.Core.List.{List, [], ◌∷◌, ◌++◌, map}
use native.Mathlib.Omega.{arith}
use voidchats_note2ee.Common.Tests.{Bool-cases}
use voidchats_note2ee.Common.Lists.{find, keep, every, any}
use voidchats_note2ee.Common.Counting.{count, count-keep_le, none_of_count}

module _ {ℓ} {A : Type ℓ} where
  -- A function on what was found.
  abbrev pub on_found {κ} : {B : Type κ} → (A → B) → Option A → Option B
  on_found f none = none
  on_found f (some x) = some (f x)

  -- A filter that keeps all the rows in question does not change the answer.
  pub find-keep :
      (p q : A → Bool)
      → ((x : A) → p x ≡ true → q x ≡ true)
      → (xs : List A) → find p (keep q xs) ≡ find p xs
  find-keep p q imp [] = refl
  find-keep p q imp (x ∷ xs) = ground (arith, imp x, find-keep p q imp xs)

  -- Nor does a change that leaves the test as it is: the row found is the changed one.
  pub find-map :
      (p : A → Bool) (f : A → A)
      → ((x : A) → p (f x) ≡ p x)
      → (xs : List A) → find p (map f xs) ≡ on_found f (find p xs)
  find-map p f same [] = refl
  find-map p f same (x ∷ xs) = elim (Bool-cases (p x)) [
    | inl t ↦ rw (same x, t) refl
    | inr n ↦ rw (same x, n) (find-map p f same xs)
  ]

  pub find-append-some :
      (p : A → Bool) (xs ys : List A) {x : A} → find p xs ≡ some x → find p (xs ++ ys) ≡ some x
  find-append-some p [] ys h = cc
  find-append-some p (y ∷ xs) ys h = elim (Bool-cases (p y)) [
    | inl hit ↦ ground arith
    | inr miss ↦ ground (arith, find-append-some p xs ys (rw miss at h))
  ]

  pub find-append-none :
      (p : A → Bool) (xs ys : List A) → find p xs ≡ none → find p (xs ++ ys) ≡ find p ys
  find-append-none p [] ys h = refl
  find-append-none p (y ∷ xs) ys h = ground (arith, find-append-none p xs ys)

  -- Where at most one element passes, a filter that drops it leaves none.
  pub find-drop :
      (p q : A → Bool) (xs : List A) {x : A}
      → count p xs ≤ 1
      → find p xs ≡ some x
      → q x ≡ false
      → find p (keep q xs) ≡ none
  find-drop p q [] one h f = cc
  find-drop p q (y ∷ xs) one h f = elim (Bool-cases (p y)) [
    | inl hit ↦
        let none_left : count p (keep q xs) ≡ 0 = ground (arith, count-keep_le p q xs) in
        ground (arith, none_of_count p (keep q xs))
    | inr miss ↦ ground (arith, find-drop p q xs (ground arith) (rw miss at h) f)
  ]

  -- And a filter that keeps it finds it.
  pub find-keep-some :
      (p q : A → Bool) (xs : List A) {x : A}
      → find p xs ≡ some x
      → q x ≡ true
      → find p (keep q xs) ≡ some x
  find-keep-some p q [] h t = cc
  find-keep-some p q (y ∷ xs) h t = elim (Bool-cases (p y)) [
    | inl hit ↦ ground arith
    | inr miss ↦ ground (arith, find-keep-some p q xs (rw miss at h) t)
  ]

  pub find-keep-none : (p q : A → Bool) (xs : List A) → find p xs ≡ none → find p (keep q xs) ≡ none
  find-keep-none p q [] h = refl
  find-keep-none p q (y ∷ xs) h = ground (arith, find-keep-none p q xs)

  -- What is found in a list that passes a test throughout passes it.
  pub every-find :
      (p q : A → Bool) (xs : List A) {x : A} → every q xs ≡ true → find p xs ≡ some x → q x ≡ true
  every-find p q [] e h = cc
  every-find p q (y ∷ xs) e h = elim (Bool-cases (p y)) [
    | inl hit ↦ ground arith
    | inr miss ↦ every-find p q xs (ground arith) (rw miss at h)
  ]

  pub every_opposite :
      (p q : A → Bool) → ((x : A) → p x ≡ not (q x)) → (xs : List A) → any p xs ≡ not (every q xs)
  every_opposite p q opp [] = refl
  every_opposite p q opp (x ∷ xs) = rw (opp x, every_opposite p q opp xs) (ground arith)

  pub every-map {κ} :
      {B : Type κ} (p : B → Bool) (q : A → Bool) (f : A → B)
      → ((x : A) → p (f x) ≡ q x)
      → (xs : List A) → every p (map f xs) ≡ every q xs
  every-map p q f same [] = refl
  every-map p q f same (x ∷ xs) = rw (same x, every-map p q f same xs) refl
