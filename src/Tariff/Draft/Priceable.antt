-- ===== src/Tariff/Draft/Priceable.antt =====
-- An accepted draft can be priced (`validateSchedule` and `validateRateGrid` of
-- src/tariff/schedule-validation.ts against `priceStay`).
use saprk_parking_api.Prelude.{
  ℕ, ◌≤◌, ◌≡◌, true, Option, List, [], ◌∷◌, map, arith, Text, text_has_eq, get, put, get-put, All,
}
use saprk_parking_api.Tariff.Types.{CompiledTier, CompiledWindow, PriceResult, ok}
use saprk_parking_api.Tariff.Engine.{Clock, max_billable_minutes}
use saprk_parking_api.Tariff.Engine.Total.{IsReading, IsPriceable, is_given, charges_from-total}
use saprk_parking_api.Tariff.Stay.{cell_key, billable_of, price_stay}
use saprk_parking_api.Tariff.Stay.Totals.{price_stay-run}
use saprk_parking_api.Tariff.Schedule.{
  passed, check, schedule_schema, validate_tiers, validate_schedule, has, check_rates, seen_after,
  check_row, check_grid, validate_rate_grid, all_of, window_schema,
}
use saprk_parking_api.Tariff.Schedule.Tiers.{then_check-passed, check-passed, validate_tiers-covers}
use saprk_parking_api.Tariff.Schedule.Windows.{validate_windows-covers}
use saprk_parking_api.Tariff.Draft.{
  Rate, CompilableDraft, rate_key, prices_from, compile_draft, schedule_of, grid_rate, tier_ids,
  window_ids, validate_draft,
}

check_row-has :
    (tier_id : Text) (windows : List CompiledWindow) (seen : List Text)
    → check_row tier_id (window_ids windows) seen ≡ passed
    → All (λ w. has (cell_key tier_id w.id) seen ≡ true) windows
unfolding check_row
check_row-has tier_id [] seen h = tt
check_row-has tier_id (w ∷ ws) seen h =
    let (first, rest) = then_check-passed (check (has (cell_key tier_id w.id) seen) _) _ h in
    (check-passed _ _ first, check_row-has tier_id ws seen rest)

check_grid-has :
    (tiers : List CompiledTier) (windows : List CompiledWindow) (seen : List Text)
    → check_grid (tier_ids tiers) (window_ids windows) seen ≡ passed
    → All (λ t. All (λ w. has (cell_key t.id w.id) seen ≡ true) windows) tiers
unfolding check_grid
check_grid-has [] windows seen h = tt
check_grid-has (t ∷ ts) windows seen h =
    let (first, rest) = then_check-passed (check_row t.id (window_ids windows) seen) _ h in
    (check_row-has t.id windows seen first, check_grid-has ts windows seen rest)

-- A cell that the loop over the rates has seen has a price in the map.
seen-priced :
    (key : Text) (seen : List Text) (m : List (Text × ℕ)) (rates : List Rate)
    → (has key seen ≡ true → is_given (get key m) ≡ true)
    → has key (seen_after seen (map grid_rate rates)) ≡ true
    → is_given (get key (prices_from m rates)) ≡ true
unfolding prices_from
seen-priced key seen m [] keep h = keep h
seen-priced key seen m (r ∷ rs) keep h =
    seen-priced key (rate_key r ∷ seen) (put (rate_key r) r.price_cents m) rs
      (λ e. ground (arith, get-put (rate_key r) key r.price_cents m, keep)) h

All-map {ℓ κ μ} :
    {A : Type ℓ} {P : A → Type κ} {Q : A → Type μ} (f : (a : A) → P a → Q a) (xs : List A)
    → All P xs
    → All Q xs
All-map f [] h = tt
All-map f (x ∷ xs) h = (f x h.0, All-map f xs h.1)

schema-windows :
    (s : CompilableDraft)
    → schedule_schema (schedule_of s) ≡ true
    → all_of window_schema s.windows ≡ true
unfolding schedule_schema
schema-windows s h = ground arith

-- A draft that passes both checks compiles to a plan in which every minute of a stay has one tier,
-- every minute of the week one window, and every tier and window a price.
pub compile_draft-IsPriceable :
    (d : CompilableDraft) → validate_draft d ≡ passed → IsPriceable (compile_draft d)
unfolding validate_draft validate_schedule validate_rate_grid compile_draft
compile_draft-IsPriceable d h =
    let (schedule, grid) = then_check-passed (validate_schedule (schedule_of d)) _ h in
    let (schema, times) =
      then_check-passed (check (schedule_schema (schedule_of d)) _) _ schedule in
    let (tiers, windows) = then_check-passed (validate_tiers d.tiers) _ times in
    let (rates, cells) =
      then_check-passed
        (check_rates (tier_ids d.tiers) (window_ids d.windows) [] (map grid_rate d.rates)) _ grid in
    let bounds = schema-windows d (check-passed _ _ schema) in
    record {
      tier_each = λ minute. (validate_tiers-covers d.tiers minute tiers).0;
      sound = (validate_tiers-covers d.tiers 0 tiers).1;
      window_each = λ day minute. validate_windows-covers d.windows day minute bounds windows;
      rated =
          All-map
            (λ t. All-map (λ w. seen-priced (cell_key t.id w.id) [] [] d.rates (λ e. cc)) d.windows)
            d.tiers
            (check_grid-has d.tiers d.windows (seen_after [] (map grid_rate d.rates)) cells);
    }

module _ (clock : Clock)
    (readings : (zone : Text) (at minutes : ℕ) → IsReading (clock zone at minutes)) where
  -- If the clock's readings are in range, a stay of at most 366 billable days is priced, with no
  -- error, by the plan that an accepted draft compiles to, whatever the commission and discount.
  pub price_stay-compile_draft :
      (d : CompilableDraft) (starts_at ends_at commission_bps : ℕ) (booking_discount_bps : Option ℕ)
      → validate_draft d ≡ passed
      → billable_of starts_at ends_at (compile_draft d) ≤ max_billable_minutes
      → (r : PriceResult) × (price_stay clock starts_at ends_at
            (compile_draft d)
            commission_bps
            booking_discount_bps
          ≡ ok r)
  price_stay-compile_draft d starts_at ends_at commission_bps booking_discount_bps h short =
      let billable = billable_of starts_at ends_at (compile_draft d) in
      let (cs, run) =
        charges_from-total clock readings (compile_draft d) (compile_draft-IsPriceable d h)
          starts_at billable billable 0 (omega arith) in
      price_stay-run clock starts_at ends_at (compile_draft d) commission_bps booking_discount_bps
        cs short run
