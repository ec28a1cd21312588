-- ===== src/Store/Rows.antt =====
-- The rows of a table whose keys are unique, counted over its writes.
use saprk_parking_api.Prelude.{
  ℕ, ◌+◌, ◌≤◌, ◌≡◌, refl, inl, inr, Bool, true, false, none, some, List, [], ◌∷◌, ◌==◌, ==_iff,
  find_first, count_if, arith, Bool-cases,
}
use saprk_parking_api.Store.Table.{find_row, update_row}

-- One where a test holds.
abbrev pub one_if : Bool → ℕ
one_if true = 1
one_if false = 0

module _ {ℓ} {A : Type ℓ} where
  pub count-none :
      (test : A → Bool) (rows : List A) → find_first test rows ≡ none → count_if test rows ≡ 0
  count-none test [] h = refl
  count-none test (r ∷ rows) h = ground (arith, count-none test rows)

  pub count-head :
      (test : A → Bool) (r : A) (rows : List A)
      → count_if test (r ∷ rows) ≡ one_if (test r) + count_if test rows
  count-head test r rows = ground arith

  module _ (key : A → ℕ) where
    -- An update counts the row that it finds anew.
    pub count-update_row-exact :
        (test : A → Bool) (k : ℕ) (f : A → A) (rows : List A) (r : A)
        → find_row key k rows ≡ some r
        → count_if test (update_row key k f rows) + one_if (test r)
          ≡ count_if test rows + one_if (test (f r))
    count-update_row-exact test k f [] r h = cc
    count-update_row-exact test k f (x ∷ rows) r h = elim (Bool-cases (key x == k)) [
      | inl e ↦ ground arith
      | inr e ↦ ground (arith, count-update_row-exact test k f rows r)
    ]

    count-found :
        (test : A → Bool) (rows : List A) (r : A)
        → find_first test rows ≡ some r
        → 1 ≤ count_if (λ x. key x == key r) rows
    count-found test [] r h = cc
    count-found test (x ∷ rows) r h =
        ground (arith, ==_iff (key r) (key r), count-found test rows r)

    -- The row that a search finds is the row of its key, where no other row has that key.
    pub find_row-of_found :
        (test : A → Bool) (rows : List A) (r : A)
        → find_first test rows ≡ some r
        → count_if (λ x. key x == key r) rows ≤ 1
        → find_row key (key r) rows ≡ some r
    find_row-of_found test [] r h unique = cc
    find_row-of_found test (x ∷ rows) r h unique = elim (Bool-cases (test x)) [
      | inl e ↦ ground (arith, ==_iff (key r) (key r))
      | inr e ↦ ground (arith, count-found test rows r, find_row-of_found test rows r)
    ]

    pub count-no_row :
        (k : ℕ) (rows : List A) → find_row key k rows ≡ none → count_if (λ x. key x == k) rows ≡ 0
    count-no_row k [] h = refl
    count-no_row k (x ∷ rows) h = ground (arith, count-no_row k rows)

    -- An update of the first row that passes a test, which passes it again, is the first row that does.
    pub find_first-update_row :
        (test : A → Bool) (f : A → A) (rows : List A) (r : A)
        → find_first test rows ≡ some r
        → find_row key (key r) rows ≡ some r
        → test (f r) ≡ true
        → find_first test (update_row key (key r) f rows) ≡ some (f r)
    find_first-update_row test f [] r h row again = cc
    find_first-update_row test f (x ∷ rows) r h row again = elim (Bool-cases (key x == key r)) [
      | inl e ↦ ground arith
      | inr e ↦ ground (arith, ==_iff (key r) (key r), find_first-update_row test f rows r)
    ]
