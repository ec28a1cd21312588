-- ===== src/Examples/Pricing.antt =====
-- A plan with one tier, one window and one cap, and a stay of three minutes under it (src/tariff).
use saprk_parking_api.Prelude.{
  ℕ, sort_by, ◌+◌, ◌≤◌, ◌≡◌, ◌≢◌, refl, none, some, List, [], ◌∷◌, map, arith, Text, All, count_if,
}
use saprk_parking_api.Prelude.Int.{pos, negsuc, ◌+ℤ◌, ◌-ℤ◌}
use saprk_parking_api.Tariff.Types.{
  per_minute, stay, rolling, CompiledTier, CompiledWindow, CompiledCap, PriceResult, ok, err,
  out_of_fuel,
}
use saprk_parking_api.Tariff.Engine.{
  Clock, on_day, charge_at, tier_at, window_at, contains_minute, RawCharge, covers, is_open,
  max_billable_minutes, discount_on, commission_on,
}
use saprk_parking_api.Tariff.Engine.Loop.{Tiles}
use saprk_parking_api.Tariff.Engine.Total.{IsReading}
use saprk_parking_api.Tariff.Caps.{capped_by, apply_caps, bucket_has_eq}
use saprk_parking_api.Tariff.Stay.{
  price_stay, adjustment, cap_label, discount_label, billable_of, raw_total_of,
}
use saprk_parking_api.Tariff.Stay.Lines.{subtotals}
use saprk_parking_api.Tariff.Stay.Totals.{price_stay-lines}
use saprk_parking_api.Tariff.Engine.Charged.{IsAtRate}
use saprk_parking_api.Tariff.Caps.Tightest.{cap_limit, tightest, apply_caps-tightest}
use saprk_parking_api.Tariff.Stay.Charges.{price_stay-ends, price_stay-charges, price_stay-le-cap}
use saprk_parking_api.Tariff.Schedule.{passed, validate_tiers, validate_windows, validate_rate_grid}
use saprk_parking_api.Tariff.Schedule.Tiers.{IsSound, validate_tiers-covers}
use saprk_parking_api.Tariff.Schedule.Windows.{validate_windows-covers}
use saprk_parking_api.Tariff.Draft.{
  Rate, CompilableDraft, PlanWithSchedule, eur, compile_draft, compile_plan, validate_draft,
  grid_rate, tier_ids, window_ids,
}
use saprk_parking_api.Tariff.Draft.Priceable.{price_stay-compile_draft}
use saprk_parking_api.Tariff.Draft.Prices.{draft_of, price_stay-compile_plan}

abbrev pub utc : Clock
utc zone at minutes = record { weekday = 1; hour = 12; minute = 0 }

pub utc-IsReading : (zone : Text) (at minutes : ℕ) → IsReading (utc zone at minutes)
utc-IsReading zone at minutes = (omega arith, omega arith, omega arith, omega arith)

abbrev tier_a : CompiledTier
tier_a = record {
  id = b'a' ∷ [];
  from_minute = 0;
  to_minute = none;
  unit = per_minute;
  block_minutes = none;
}

abbrev window_w : CompiledWindow
window_w = record {
  id = b'w' ∷ [];
  label = b'w' ∷ [];
  day_mask = 127;
  start_minute = 0;
  end_minute = 1440;
}

abbrev cap_20 : CompiledCap
cap_20 = record { window_minutes = 1440; cap_cents = 20; scope = stay }

abbrev rate_10 : Rate
rate_10 = record { tier_id = b'a' ∷ []; window_id = b'w' ∷ []; price_cents = 10; currency = eur }

abbrev pub draft : CompilableDraft
draft = record {
  timezone = [];
  grace_minutes = 0;
  increment_minutes = 1;
  tiers = tier_a ∷ [];
  windows = window_w ∷ [];
  rates = rate_10 ∷ [];
  caps = cap_20 ∷ [];
}

abbrev pub stored : PlanWithSchedule
stored = record {
  id = [];
  version = 3;
  timezone = [];
  grace_minutes = 0;
  increment_minutes = 1;
  tiers = record { tier = tier_a; rates = rate_10 ∷ [] } ∷ [];
  windows = window_w ∷ [];
  caps = cap_20 ∷ [];
}

pub draft-valid : validate_draft draft ≡ passed
unfolding validate_draft sort_by on_day
draft-valid = refl

-- Three minutes at 10 cents, capped at 20, less a tenth.
abbrev pub three_minutes : PriceResult
three_minutes = record {
  line_items =
      record {
        label = b'w' ∷ [];
        duration_minutes = 3;
        unit_price_cents = 10;
        quantity = 3;
        subtotal_cents = pos 30;
      }
      ∷ adjustment cap_label 3 (negsuc 9)
      ∷ adjustment discount_label 3 (negsuc 1)
      ∷ [];
  total_cents = 18;
  billable_minutes = 3;
  discount_cents = 2;
  commission_bps = 500;
  commission_cents = 1;
}

three_minutes-priced :
    price_stay utc 0 180_000 (compile_draft draft) 500 (some 1000) ≡ ok three_minutes
unfolding price_stay compile_draft charge_at tier_at window_at covers is_open on_day contains_minute
    capped_by ◌+ℤ◌ ◌-ℤ◌
three_minutes-priced = refl

tiers-valid : validate_tiers draft.tiers ≡ passed
unfolding validate_tiers sort_by
tiers-valid = refl

windows-valid : validate_windows draft.windows ≡ passed
unfolding validate_windows sort_by on_day
windows-valid = refl

grid-valid :
    validate_rate_grid (tier_ids draft.tiers) (window_ids draft.windows) (map grid_rate draft.rates)
    ≡ passed
unfolding validate_rate_grid
grid-valid = refl

pub three_minutes-short : billable_of 0 180_000 (compile_draft draft) ≤ max_billable_minutes
unfolding billable_of compile_draft
three_minutes-short = omega arith

abbrev charge_30 : RawCharge
charge_30 = record {
  duration_start = 0;
  duration_minutes = 3;
  tier_id = b'a' ∷ [];
  window_id = b'w' ∷ [];
  label = b'w' ∷ [];
  unit_price_cents = 10;
  quantity = 3;
  subtotal_cents = 30;
}

price_stay-lines_example : subtotals three_minutes.line_items ≡ pos three_minutes.total_cents
price_stay-lines_example =
    price_stay-lines utc 0 180_000 (compile_draft draft) 500 (some 1000) three_minutes
      three_minutes-priced

price_stay-compile_draft_example :
    (r : PriceResult) × (price_stay utc 0 180_000 (compile_draft draft) 500 (some 1000) ≡ ok r)
price_stay-compile_draft_example =
    price_stay-compile_draft utc utc-IsReading draft 0 180_000 500 (some 1000) draft-valid
      three_minutes-short

price_stay-charges_example :
    (cs : List RawCharge) × Tiles 0 (billable_of 0 180_000 (compile_draft draft)) cs
    × All (IsAtRate utc (compile_draft draft) 0) cs
    × (three_minutes.billable_minutes ≡ billable_of 0 180_000 (compile_draft draft))
    × (three_minutes.total_cents + three_minutes.discount_cents
        ≡ apply_caps (raw_total_of cs) cs (compile_draft draft).caps)
    × (three_minutes.discount_cents
        ≡ discount_on (apply_caps (raw_total_of cs) cs (compile_draft draft).caps) (some 1000))
    × (three_minutes.commission_cents ≡ commission_on three_minutes.total_cents 500)
price_stay-charges_example =
    price_stay-charges utc 0 180_000 (compile_draft draft) 500 (some 1000) three_minutes
      three_minutes-priced

price_stay-le-cap_example :
    All
      (λ (cap : CompiledCap).
        cap.scope ≡ stay → three_minutes.total_cents + three_minutes.discount_cents ≤ cap.cap_cents)
      (compile_draft draft).caps
    × (three_minutes.commission_cents ≤ three_minutes.total_cents)
price_stay-le-cap_example =
    price_stay-le-cap utc 0 180_000 (compile_draft draft) 500 (some 1000) three_minutes
      (omega arith) three_minutes-priced

price_stay-ends_example :
    price_stay utc 0 180_000 (compile_draft draft) 500 (some 1000) ≢ err out_of_fuel
price_stay-ends_example = price_stay-ends utc 0 180_000 (compile_draft draft) 500 (some 1000)

price_stay-compile_plan_example :
    price_stay utc 0 180_000 (compile_plan stored) 500 (some 1000)
    ≡ price_stay utc 0 180_000 (compile_draft (draft_of stored)) 500 (some 1000)
price_stay-compile_plan_example = price_stay-compile_plan utc stored 0 180_000 500 (some 1000)

validate_tiers-covers_example : (count_if (covers 7) draft.tiers ≡ 1) × All IsSound draft.tiers
validate_tiers-covers_example = validate_tiers-covers draft.tiers 7 tiers-valid

validate_windows-covers_example : count_if (is_open 6 1439) draft.windows ≡ 1
validate_windows-covers_example =
    validate_windows-covers draft.windows 6 1439 refl windows-valid (omega arith) (omega arith)

-- At most fifteen cents in an hour.
abbrev hourly_15 : CompiledCap
hourly_15 = record { window_minutes = 60; cap_cents = 15; scope = rolling }

apply_caps-tightest_example :
    apply_caps 30 (charge_30 ∷ []) (cap_20 ∷ hourly_15 ∷ [])
    ≡ tightest (cap_limit 1 30 (charge_30 ∷ [])) 30 (cap_20 ∷ hourly_15 ∷ [])
apply_caps-tightest_example =
    apply_caps-tightest 1 30 (charge_30 ∷ []) (cap_20 ∷ hourly_15 ∷ [])
      ((λ e. absurd (ground arith)), ((λ e. (omega arith, (omega arith, tt))), tt))
