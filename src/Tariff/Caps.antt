-- ===== src/Tariff/Caps.antt =====
-- The caps on a total (`applyCaps` of src/tariff/pricing-engine.ts).
pub mod Bounds
pub mod Tightest
use saprk_parking_api.Prelude.{
  ℕ, ◌+◌, ◌/◌, min, ◌≡◌, refl, ◌↔◌, Bool, true, false, Option, none, some, List, [], ◌∷◌, arith,
  ◌==◌ as nat_eq, ==_iff, if◌then◌else◌, HasEq, get, put, sum_of,
}
use saprk_parking_api.Tariff.Types.{CapScope, stay, rolling, CompiledCap}
use saprk_parking_api.Tariff.Engine.{RawCharge}

-- `Math.floor(durationStart / windowMinutes)` as a key of a `Map`: a window of 0 minutes gives NaN
-- or Infinity, which are keys like any other.
pub data Bucket : Type 0 where
  at_index : ℕ → Bucket
  infinity not_a_number : Bucket

abbrev pub bucket_eq : Bucket → Bucket → Bool
bucket_eq (at_index i) (at_index j) = nat_eq i j
bucket_eq infinity infinity = true
bucket_eq not_a_number not_a_number = true
bucket_eq _ _ = false

pub bucket_eq_iff : (a b : Bucket) → (bucket_eq a b ≡ true) ↔ (a ≡ b)
bucket_eq_iff a b = ground arith

instance abbrev pub bucket_has_eq : HasEq Bucket
bucket_has_eq = record { same = bucket_eq; same_iff = bucket_eq_iff }

unfoldable pub bucket_of : ℕ → ℕ → Bucket
bucket_of window_minutes start =
    if nat_eq window_minutes 0
    then (if nat_eq start 0 then not_a_number else infinity)
    else at_index (start / window_minutes)

-- `map.get(key) ?? 0`
abbrev pub or_zero : Option ℕ → ℕ
or_zero none = 0
or_zero (some n) = n

unfoldable pub buckets_from : ℕ → List (Bucket × ℕ) → List RawCharge → List (Bucket × ℕ)
buckets_from window_minutes m [] = m
buckets_from window_minutes m (c ∷ cs) =
    let k = bucket_of window_minutes c.duration_start in
    buckets_from window_minutes (put k (or_zero (get k m) + c.subtotal_cents) m) cs

unfoldable pub clamped_sum : ℕ → List (Bucket × ℕ) → ℕ
clamped_sum cap_cents = sum_of (λ b. min b.1 cap_cents)

unfoldable pub capped_by : ℕ → List RawCharge → CompiledCap → ℕ
unfolding buckets_from clamped_sum
capped_by raw_total charges cap = elim cap.scope [
  | stay ↦ min raw_total cap.cap_cents
  | rolling ↦ clamped_sum cap.cap_cents (buckets_from cap.window_minutes [] charges)
]

unfoldable pub caps_from : ℕ → ℕ → List RawCharge → List CompiledCap → ℕ
caps_from total raw_total charges [] = total
caps_from total raw_total charges (cap ∷ caps) =
    caps_from (min total (capped_by raw_total charges cap)) raw_total charges caps

unfoldable pub apply_caps : ℕ → List RawCharge → List CompiledCap → ℕ
unfolding caps_from
apply_caps raw_total charges caps = caps_from raw_total raw_total charges caps
