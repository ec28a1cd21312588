-- ===== src/Prelude/Lists.antt =====
-- Lists measured by native numbers, under the library's names, and predicates over all members.
use Prim.Native.Nat.{ℕ, suc, ◌+◌, ◌≤◌}
use mathlib.Core.Path.{◌≡◌, refl, subst}
use mathlib.Core.Logic.{◌≢◌, inl, inr}
use mathlib.Core.Bool.{Bool, true}
use mathlib.Core.List.{List, [], ◌∷◌, ◌++◌}
use mathlib.Core.Option.{Option, none, some, some-injective}
use native.Mathlib.Omega.{arith}
use saprk_parking_api.Prelude.Tests.{if◌then◌else◌, Bool-cases}

module _ {ℓ} {A : Type ℓ} where
  abbrev pub length : List A → ℕ
  length [] = 0
  length (x ∷ xs) = suc (length xs)

  pub length-append : (xs ys : List A) → length (xs ++ ys) ≡ length xs + length ys
  length-append [] ys = omega arith
  length-append (x ∷ xs) ys = omega (arith, length-append xs ys)

  -- `Array.prototype.find`.
  abbrev pub find_first : (A → Bool) → List A → Option A
  find_first test [] = none
  find_first test (x ∷ xs) = if test x then some x else find_first test xs

  -- `Array.prototype.filter`.
  abbrev pub keep_if : (A → Bool) → List A → List A
  keep_if test [] = []
  keep_if test (x ∷ xs) = if test x then x ∷ keep_if test xs else keep_if test xs

  -- How many rows a `where` clause selects.
  abbrev pub count_if : (A → Bool) → List A → ℕ
  count_if test [] = 0
  count_if test (x ∷ xs) = if test x then suc (count_if test xs) else count_if test xs

  abbrev pub sum_of : (A → ℕ) → List A → ℕ
  sum_of f [] = 0
  sum_of f (x ∷ xs) = f x + sum_of f xs

  pub sum_of-append : (f : A → ℕ) (xs ys : List A) → sum_of f (xs ++ ys) ≡ sum_of f xs + sum_of f ys
  sum_of-append f [] ys = omega arith
  sum_of-append f (x ∷ xs) ys = omega (arith, sum_of-append f xs ys)

module _ {ℓ κ} {A : Type ℓ} (P : A → Type κ) where
  abbrev pub All : List A → Type κ
  All [] = Unit
  All (x ∷ xs) = P x × All xs

  pub All-append : (xs ys : List A) → All xs → All ys → All (xs ++ ys)
  All-append [] ys hx hy = hy
  All-append (x ∷ xs) ys hx hy = (hx.0, All-append xs ys hx.1 hy)

module _ {ℓ} {A : Type ℓ} where
  -- What `find` returns passes the test.
  pub find_first-holds :
      (test : A → Bool) (xs : List A) (x : A) → find_first test xs ≡ some x → test x ≡ true
  find_first-holds test [] x h = cc
  find_first-holds test (y ∷ xs) x h = ground (arith, find_first-holds test xs x)

  -- A test that some element passes is found by `find`.
  pub find_first-some :
      (test : A → Bool) (xs : List A)
      → count_if test xs ≢ 0
      → (x : A) × (find_first test xs ≡ some x)
  find_first-some test [] h = absurd (h refl)
  find_first-some test (x ∷ xs) h = elim (Bool-cases (test x)) [
    | inl e ↦ (x, rw e)
    | inr e ↦ let (y, found) = find_first-some test xs (λ z. h (rw e z)) in (y, rw e found)
  ]

  module _ {κ} (P : A → Type κ) where
    -- What `find` returns is an element.
    pub All-find_first :
        (test : A → Bool) (xs : List A) (x : A) → find_first test xs ≡ some x → All P xs → P x
    All-find_first test [] x e h = cc
    All-find_first test (y ∷ xs) x e h = elim (Bool-cases (test y)) [
      | inl t ↦ subst P (some-injective _ _ (rw t at e)) h.0
      | inr t ↦ All-find_first test xs x (rw t at e) h.1
    ]

  pub count_mono :
      (p q : A → Bool) (xs : List A)
      → ((x : A) → p x ≡ true → q x ≡ true)
      → count_if p xs ≤ count_if q xs
  count_mono p q [] h = omega arith
  count_mono p q (x ∷ xs) h = ground (arith, h x, count_mono p q xs h)

module _ {ℓ} {A : Type ℓ} where
  count-of_found :
      (test other : A → Bool) (xs : List A) (x : A)
      → find_first test xs ≡ some x
      → other x ≡ true
      → 1 ≤ count_if other xs
  count-of_found test other [] x h k = cc
  count-of_found test other (y ∷ xs) x h k = ground (arith, count-of_found test other xs x)

  -- What one search finds, another finds that it passes and that at most one element passes.
  pub find_first-other :
      (test other : A → Bool) (xs : List A) (x : A)
      → find_first test xs ≡ some x
      → other x ≡ true
      → count_if other xs ≤ 1
      → find_first other xs ≡ some x
  find_first-other test other [] x h k unique = cc
  find_first-other test other (y ∷ xs) x h k unique = elim (Bool-cases (test y)) [
    | inl e ↦ ground arith
    | inr e ↦ ground (arith, count-of_found test other xs x, find_first-other test other xs x)
  ]
