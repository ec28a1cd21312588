-- ===== src/Tariff/Schedule/Tiers.antt =====
-- Accepted tiers cover every minute of a stay exactly once (`validateTiers` of
-- src/tariff/schedule-validation.ts against `tierAt` of src/tariff/pricing-engine.ts).
use saprk_parking_api.Prelude.{
  ℕ, ◌≤◌, ◌≡◌, refl, sym, ◌∙◌, Bool, true, false, List, [], ◌∷◌, arith, leb, ◌==◌, ==_iff,
  if◌then◌else◌, count_if, count-sort_by, All, All-of_sort_by,
}
use saprk_parking_api.Tariff.Types.{CompiledTier}
use saprk_parking_api.Tariff.Engine.{covers}
use saprk_parking_api.Tariff.Schedule.{
  Checked, Fault, passed, failed, ◌then_check◌, check, is_open_ended, last_open, block_given,
  end_after_start, next_expected, check_tiers, sort_tiers, validate_tiers,
}

pub then_check-passed : (a b : Checked) → (a then_check b) ≡ passed → (a ≡ passed) × (b ≡ passed)
then_check-passed passed b h = (refl, h)
then_check-passed (failed f) b h = cc

pub check-passed : (b : Bool) (f : Fault) → check b f ≡ passed → b ≡ true
check-passed true f h = refl
check-passed false f h = cc

-- A tier that was checked: its block is given and it ends after its start.
abbrev pub IsSound : CompiledTier → Type 0
IsSound t = (block_given t.unit t.block_minutes ≡ true) × (end_after_start t ≡ true)

check_tiers-first :
    (expected : ℕ) (t : CompiledTier) (ts : List CompiledTier)
    → check_tiers expected (t ∷ ts) ≡ passed
    → (t.from_minute ≡ expected) × IsSound t × (check_tiers (next_expected expected t) ts ≡ passed)
unfolding check_tiers
check_tiers-first expected t ts h = ground (arith, ==_iff t.from_minute expected)

check_tiers-IsSound :
    (expected : ℕ) (ts : List CompiledTier) → check_tiers expected ts ≡ passed → All IsSound ts
check_tiers-IsSound expected [] h = tt
check_tiers-IsSound expected (t ∷ ts) h =
    let (_, sound, rest) = check_tiers-first expected t ts h in
    (sound, check_tiers-IsSound (next_expected expected t) ts rest)

last_open-count : (ts : List CompiledTier) → last_open ts ≡ true → 1 ≤ count_if is_open_ended ts
last_open-count [] h = cc
last_open-count (t ∷ []) h = ground arith
last_open-count (t ∷ u ∷ ts) h = ground (arith, last_open-count (u ∷ ts))

-- Tiers that pass from `expected` on cover each minute from there once, and no minute before.
check_tiers-covers :
    (minute expected : ℕ) (ts : List CompiledTier)
    → check_tiers expected ts ≡ passed
    → count_if is_open_ended ts ≡ 1
    → last_open ts ≡ true
    → count_if (covers minute) ts ≡ (if leb expected minute then 1 else 0)
unfolding covers
check_tiers-covers minute expected [] h one last = cc
check_tiers-covers minute expected (t ∷ []) h one last =
    ground (arith, check_tiers-first expected t [])
check_tiers-covers minute expected (t ∷ u ∷ ts) h one last = ground (
  arith,
  check_tiers-first expected t (u ∷ ts) h,
  last_open-count (u ∷ ts) last,
  check_tiers-covers minute (next_expected expected t) (u ∷ ts),
)

pub covered_from_zero : (minute : ℕ) → ◌≡◌ {A = ℕ} (if leb 0 minute then 1 else 0) 1
covered_from_zero minute = ground arith

-- Every minute of a stay lies in exactly one tier of an accepted list, in whatever order the tiers
-- stand; and each tier ends after its start and has the block that its unit needs.
pub validate_tiers-covers :
    (tiers : List CompiledTier) (minute : ℕ)
    → validate_tiers tiers ≡ passed
    → (count_if (covers minute) tiers ≡ 1) × All IsSound tiers
unfolding validate_tiers
validate_tiers-covers tiers minute h =
    let sorted = sort_tiers tiers in
    let (one, more) = then_check-passed (check (count_if is_open_ended sorted == 1) _) _ h in
    let (last, walk) = then_check-passed (check (last_open sorted) _) _ more in
    let exactly : count_if is_open_ended sorted ≡ 1 = (==_iff _ 1).0 (check-passed _ _ one) in
    (
      sym (count-sort_by _ (covers minute) tiers)
          ∙ check_tiers-covers minute 0 sorted walk exactly (check-passed _ _ last)
          ∙ covered_from_zero minute,
      All-of_sort_by _ IsSound tiers (check_tiers-IsSound 0 sorted walk),
    )
