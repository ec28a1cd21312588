-- ===== src/Store/Table.antt =====
-- A table as the list of its rows, with a unique number as key: find, update and insert.
use saprk_parking_api.Prelude.{
  ℕ, ◌≤◌, ◌≡◌, Bool, true, Option, none, some, List, [], ◌∷◌, arith, ◌==◌, ==_iff, if◌then◌else◌,
  count_if,
}

abbrev pub when_some {ℓ κ} : {A : Type ℓ} {B : Type κ} → (A → B) → Option A → Option B
when_some f none = none
when_some f (some a) = some (f a)

module _ {ℓ} {A : Type ℓ} (key : A → ℕ) where
  -- `findUnique({ where: { id } })`
  abbrev pub find_row : ℕ → List A → Option A
  find_row k [] = none
  find_row k (r ∷ rs) = if key r == k then some r else find_row k rs

  -- `update({ where: { id }, data })`
  abbrev pub update_row : ℕ → (A → A) → List A → List A
  update_row k f [] = []
  update_row k f (r ∷ rs) = if key r == k then f r ∷ rs else r ∷ update_row k f rs

  pub find_row-update_row :
      (k j : ℕ) (f : A → A) (rs : List A)
      → ((r : A) → key (f r) ≡ key r)
      → find_row j (update_row k f rs)
        ≡ (if k == j then when_some f (find_row j rs) else find_row j rs)
  find_row-update_row k j f [] same = ground arith
  find_row-update_row k j f (r ∷ rs) same = ground (
    arith,
    same r,
    ==_iff (key r) k,
    ==_iff (key r) j,
    ==_iff k j,
    find_row-update_row k j f rs same,
  )

  pub find_row-key : (k : ℕ) (rs : List A) (r : A) → find_row k rs ≡ some r → key r ≡ k
  find_row-key k [] r h = cc
  find_row-key k (x ∷ rs) r h = ground (arith, find_row-key k rs r)

  -- What an update does to a count: the row that was found is counted anew.
  pub count-update_row :
      (test : A → Bool) (k : ℕ) (f : A → A) (rs : List A) (r : A)
      → find_row k rs ≡ some r
      → (test (f r) ≡ true → test r ≡ true)
      → count_if test (update_row k f rs) ≤ count_if test rs
  count-update_row test k f [] r h keep = cc
  count-update_row test k f (x ∷ rs) r h keep = ground (arith, count-update_row test k f rs r)
