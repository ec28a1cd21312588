-- ===== src/Prelude/Sort.antt =====
-- A stable sort by a numeric key: what `Array.prototype.sort` gives for `a.key - b.key`.
use Prim.Native.Nat.{ℕ}
use mathlib.Core.Path.{◌≡◌, refl}
use mathlib.Core.Bool.{Bool}
use mathlib.Core.List.{List, [], ◌∷◌}
use native.Mathlib.Omega.{arith}
use saprk_parking_api.Prelude.Tests.{leb, if◌then◌else◌}
use saprk_parking_api.Prelude.Lists.{count_if, All}

module _ {ℓ} {A : Type ℓ} (key : A → ℕ) where
  abbrev pub insert_by : A → List A → List A
  insert_by x [] = x ∷ []
  insert_by x (y ∷ ys) = if leb (key x) (key y) then x ∷ y ∷ ys else y ∷ insert_by x ys

  unfoldable pub sort_by : List A → List A
  sort_by [] = []
  sort_by (x ∷ xs) = insert_by x (sort_by xs)

  count-insert_by :
      (test : A → Bool) (x : A) (ys : List A)
      → count_if test (insert_by x ys) ≡ count_if test (x ∷ ys)
  count-insert_by test x [] = refl
  count-insert_by test x (y ∷ ys) = ground (arith, count-insert_by test x ys)

  -- A sort keeps how many elements pass a test.
  pub count-sort_by :
      (test : A → Bool) (xs : List A) → count_if test (sort_by xs) ≡ count_if test xs
  unfolding sort_by
  count-sort_by test [] = refl
  count-sort_by test (x ∷ xs) =
      ground (arith, count-insert_by test x (sort_by xs), count-sort_by test xs)

  module _ {κ} (P : A → Type κ) where
    All-of_insert_by : (x : A) (ys : List A) → All P (insert_by x ys) → P x × All P ys
    All-of_insert_by x [] h = h
    All-of_insert_by x (y ∷ ys) h = ground (arith, All-of_insert_by x ys)

    pub All-of_sort_by : (xs : List A) → All P (sort_by xs) → All P xs
    unfolding sort_by
    All-of_sort_by [] h = h
    All-of_sort_by (x ∷ xs) h =
        let (hx, rest) = All-of_insert_by x (sort_by xs) h in (hx, All-of_sort_by xs rest)

    All-insert_by : (x : A) (ys : List A) → P x → All P ys → All P (insert_by x ys)
    All-insert_by x [] hx h = (hx, h)
    All-insert_by x (y ∷ ys) hx h = ground (arith, All-insert_by x ys)

    pub All-sort_by : (xs : List A) → All P xs → All P (sort_by xs)
    unfolding sort_by
    All-sort_by [] h = h
    All-sort_by (x ∷ xs) h = All-insert_by x (sort_by xs) h.0 (All-sort_by xs h.1)
