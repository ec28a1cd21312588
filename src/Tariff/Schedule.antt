-- ===== src/Tariff/Schedule.antt =====
-- The checks on a schedule before it is stored or simulated (src/tariff/schedule-validation.ts).
-- A fault is the reason that `fail` puts into its `InvalidTariffScheduleError`.
pub mod Tiers
pub mod Windows
use saprk_parking_api.Prelude.{
  ℕ, zero, suc, ◌+◌, Bool, true, false, not, ◌&&◌, ◌||◌, Option, none, some, List, [], ◌∷◌, ◌++◌,
  Text, text_eq, ltb, leb, ◌==◌, if◌then◌else◌, count_if, length, insert_by, sort_by,
}
use saprk_parking_api.Tariff.Types.{
  RateUnit, per_minute, per_block, flat, CompiledTier, CompiledWindow, CompiledCap,
}
use saprk_parking_api.Tariff.Engine.{on_day}
use saprk_parking_api.Tariff.Stay.{cell_key}

pub data Fault : Type 0 where
  schema_issue open_ended_count open_ended_not_last tier_end block_required : Fault
  tier_gap no_coverage day_not_covered : ℕ → Fault
  window_gap : ℕ → ℕ → Fault
  unknown_tier unknown_window : Text → Fault
  duplicate_rate missing_rate : Text → Text → Fault

pub data Checked : Type 0 where
  passed : Checked
  failed : Fault → Checked

-- One check after another: `fail` leaves the function.
infixr 6 ◌then_check◌
abbrev pub ◌then_check◌ : Checked → Checked → Checked
passed then_check rest = rest
failed f then_check rest = failed f

abbrev pub check : Bool → Fault → Checked
check true f = passed
check false f = failed f

pub record ScheduleInput : Type 0 where
  pub tiers : List CompiledTier
  pub windows : List CompiledWindow
  pub caps : List CompiledCap

abbrev pub all_of {ℓ} : {A : Type ℓ} → (A → Bool) → List A → Bool
all_of test [] = true
all_of test (x ∷ xs) = test x && all_of test xs

-- `.positive().nullable()`
abbrev pub positive_or_null : Option ℕ → Bool
positive_or_null none = true
positive_or_null (some n) = ltb 0 n

abbrev pub tier_schema : CompiledTier → Bool
tier_schema t = positive_or_null t.to_minute && positive_or_null t.block_minutes

abbrev pub window_schema : CompiledWindow → Bool
window_schema w = leb w.day_mask 127 && (leb w.start_minute 1439 && leb w.end_minute 1440)

abbrev pub cap_schema : CompiledCap → Bool
cap_schema c = ltb 0 c.window_minutes && ltb 0 c.cap_cents

-- The numeric bounds of `scheduleSchema`; that a field is a whole number is its type here.
unfoldable pub schedule_schema : ScheduleInput → Bool
schedule_schema s =
    (leb 1 (length s.tiers) && all_of tier_schema s.tiers)
    && ((leb 1 (length s.windows) && all_of window_schema s.windows) && all_of cap_schema s.caps)

abbrev pub is_open_ended : CompiledTier → Bool
is_open_ended t = elim t.to_minute [ none ↦ true | some end ↦ false ]

-- `sorted[sorted.length - 1]` is there and open-ended.
abbrev pub last_open : List CompiledTier → Bool
last_open [] = false
last_open (t ∷ []) = is_open_ended t
last_open (t ∷ u ∷ ts) = last_open (u ∷ ts)

-- `tier.unit === PER_BLOCK && !(tier.blockMinutes && tier.blockMinutes > 0)` does not hold.
abbrev pub block_given : RateUnit → Option ℕ → Bool
block_given per_block none = false
block_given per_block (some b) = ltb 0 b
block_given _ block = true

abbrev pub end_after_start : CompiledTier → Bool
end_after_start t = elim t.to_minute [ none ↦ true | some end ↦ ltb t.from_minute end ]

-- `expected` after the tier.
abbrev pub next_expected : ℕ → CompiledTier → ℕ
next_expected expected t = elim t.to_minute [ none ↦ expected | some end ↦ end ]

unfoldable pub check_tiers : ℕ → List CompiledTier → Checked
check_tiers expected [] = passed
check_tiers expected (t ∷ ts) =
    check (t.from_minute == expected) (tier_gap expected)
    then_check check (end_after_start t) tier_end
    then_check check (block_given t.unit t.block_minutes) block_required
    then_check check_tiers (next_expected expected t) ts

abbrev pub sort_tiers : List CompiledTier → List CompiledTier
sort_tiers = sort_by (λ t. t.from_minute)

unfoldable pub validate_tiers : List CompiledTier → Checked
unfolding check_tiers
validate_tiers tiers =
    check (count_if is_open_ended (sort_tiers tiers) == 1) open_ended_count
    then_check check (last_open (sort_tiers tiers)) open_ended_not_last
    then_check check_tiers 0 (sort_tiers tiers)

abbrev pub day_minutes : ℕ
day_minutes = 1440

-- A half-open span of minutes of a day.
pub record Segment : Type 0 where
  pub start : ℕ
  pub end : ℕ

abbrev pub segments_of : CompiledWindow → List Segment
segments_of w =
    if ltb w.start_minute w.end_minute
    then record { start = w.start_minute; end = w.end_minute } ∷ []
    else record { start = w.start_minute; end = day_minutes }
      ∷ (if ltb 0 w.end_minute then record { start = 0; end = w.end_minute } ∷ [] else [])

unfoldable pub day_segments : ℕ → List CompiledWindow → List Segment
day_segments day [] = []
day_segments day (w ∷ ws) =
    if on_day w.day_mask day then segments_of w ++ day_segments day ws else day_segments day ws

unfoldable pub check_segments : ℕ → ℕ → List Segment → Checked
check_segments day cursor [] = check (cursor == day_minutes) (day_not_covered day)
check_segments day cursor (s ∷ ss) =
    check (s.start == cursor) (window_gap day cursor) then_check check_segments day s.end ss

unfoldable pub validate_day : List CompiledWindow → ℕ → Checked
unfolding day_segments check_segments
validate_day windows day =
    let segments = day_segments day windows in
    check (leb 1 (length segments)) (no_coverage day)
    then_check check_segments day 0 (sort_by (λ s. s.start) segments)

-- `for (let day = 0; day < 7; day += 1)`, with the days that are left.
unfoldable pub validate_days : List CompiledWindow → ℕ → ℕ → Checked
unfolding validate_day
validate_days windows day zero = passed
validate_days windows day (suc left) =
    validate_day windows day then_check validate_days windows (day + 1) left

unfoldable pub validate_windows : List CompiledWindow → Checked
unfolding validate_days
validate_windows windows = validate_days windows 0 7

unfoldable pub validate_schedule : ScheduleInput → Checked
unfolding schedule_schema validate_tiers validate_windows
validate_schedule s =
    check (schedule_schema s) schema_issue
    then_check validate_tiers s.tiers
    then_check validate_windows s.windows

pub record GridRate : Type 0 where
  pub tier_id : Text
  pub window_id : Text

-- `Set.prototype.has`
abbrev pub has : Text → List Text → Bool
has x [] = false
has x (y ∷ ys) = text_eq y x || has x ys

abbrev pub cell_of : GridRate → Text
cell_of r = cell_key r.tier_id r.window_id

-- The loop over the rates: its result is the set `seen`, or the fault.
unfoldable pub check_rates : List Text → List Text → List Text → List GridRate → Checked
check_rates tier_ids window_ids seen [] = passed
check_rates tier_ids window_ids seen (r ∷ rs) =
    check (has r.tier_id tier_ids) (unknown_tier r.tier_id)
    then_check check (has r.window_id window_ids) (unknown_window r.window_id)
    then_check check (not (has (cell_of r) seen)) (duplicate_rate r.tier_id r.window_id)
    then_check check_rates tier_ids window_ids (cell_of r ∷ seen) rs

-- `seen` once the loop has gone through all rates.
abbrev pub seen_after : List Text → List GridRate → List Text
seen_after seen [] = seen
seen_after seen (r ∷ rs) = seen_after (cell_of r ∷ seen) rs

unfoldable pub check_row : Text → List Text → List Text → Checked
unfolding cell_key
check_row tier_id [] seen = passed
check_row tier_id (w ∷ ws) seen =
    check (has (cell_key tier_id w) seen) (missing_rate tier_id w)
    then_check check_row tier_id ws seen

unfoldable pub check_grid : List Text → List Text → List Text → Checked
unfolding check_row
check_grid [] window_ids seen = passed
check_grid (t ∷ ts) window_ids seen =
    check_row t window_ids seen then_check check_grid ts window_ids seen

-- The tiers and windows are given by their ids.
unfoldable pub validate_rate_grid : List Text → List Text → List GridRate → Checked
unfolding check_rates check_grid
validate_rate_grid tier_ids window_ids rates =
    check_rates tier_ids window_ids [] rates
    then_check check_grid tier_ids window_ids (seen_after [] rates)
