-- ===== src/Tariff/Draft.antt =====
-- Compiling a stored plan or a draft for the engine, and the simulation of a draft
-- (src/tariff/draft-compiler.ts; `compilePlan` and `simulate` of src/tariff/tariff.service.ts).
pub mod Priceable
pub mod Prices
use saprk_parking_api.Prelude.{
  ℕ, ◌+◌, ◌-◌, Bool, true, false, not, Option, none, some, List, [], ◌∷◌, ◌++◌, map, Text,
  text_has_eq, ltb, leb, if◌then◌else◌, get, put,
}
use saprk_parking_api.Tariff.Types.{
  CompiledTier, CompiledWindow, CompiledCap, CompiledPlan, QuoteLineItem, PriceResult, PriceError,
  Priced, ok, err,
}
use saprk_parking_api.Tariff.Engine.{Clock, ceil_div}
use saprk_parking_api.Tariff.Stay.{cell_key, price_stay}
use saprk_parking_api.Tariff.Schedule.{
  Fault, Checked, passed, failed, ◌then_check◌, ScheduleInput, GridRate, validate_schedule,
  validate_rate_grid,
}

-- A rate of a draft, or a stored one: for a draft the keys stand in as ids.
pub record Rate : Type 0 where
  pub tier_id : Text
  pub window_id : Text
  pub price_cents : ℕ
  pub currency : Text

pub record CompilableDraft : Type 0 where
  pub timezone : Text
  pub grace_minutes : ℕ
  pub increment_minutes : ℕ
  pub tiers : List CompiledTier
  pub windows : List CompiledWindow
  pub rates : List Rate
  pub caps : List CompiledCap

-- A stored tier with the rates that hang on it.
pub record PlanTier : Type 0 where
  pub tier : CompiledTier
  pub rates : List Rate

pub record PlanWithSchedule : Type 0 where
  pub id : Text
  pub version : ℕ
  pub timezone : Text
  pub grace_minutes : ℕ
  pub increment_minutes : ℕ
  pub tiers : List PlanTier
  pub windows : List CompiledWindow
  pub caps : List CompiledCap

abbrev pub eur : Text
eur = b'E' ∷ b'U' ∷ b'R' ∷ []

abbrev pub draft_id : Text
draft_id = b'd' ∷ b'r' ∷ b'a' ∷ b'f' ∷ b't' ∷ []

abbrev pub rate_key : Rate → Text
rate_key r = cell_key r.tier_id r.window_id

-- `prices.set(key, rate.priceCents)` for each rate: the last rate of a cell wins.
unfoldable pub prices_from : List (Text × ℕ) → List Rate → List (Text × ℕ)
prices_from m [] = m
prices_from m (r ∷ rs) = prices_from (put (rate_key r) r.price_cents m) rs

abbrev pub first_currency : List Rate → Text
first_currency [] = eur
first_currency (r ∷ rs) = r.currency

unfoldable pub compile_draft : CompilableDraft → CompiledPlan
unfolding prices_from cell_key
compile_draft d = record {
  id = draft_id;
  version = 0;
  timezone = d.timezone;
  grace_minutes = d.grace_minutes;
  increment_minutes = d.increment_minutes;
  currency = first_currency d.rates;
  tiers = d.tiers;
  windows = d.windows;
  caps = d.caps;
  price = λ tier_id window_id. get (cell_key tier_id window_id) (prices_from [] d.rates);
}

-- The map of `compilePlan` holds whole rates.
unfoldable pub rates_from : List (Text × Rate) → List Rate → List (Text × Rate)
rates_from m [] = m
rates_from m (r ∷ rs) = rates_from (put (rate_key r) r m) rs

unfoldable pub tier_rates_from : List (Text × Rate) → List PlanTier → List (Text × Rate)
unfolding rates_from
tier_rates_from m [] = m
tier_rates_from m (t ∷ ts) = tier_rates_from (rates_from m t.rates) ts

-- `plan.tiers[0]?.rates[0]?.currency ?? 'EUR'`
abbrev pub plan_currency : List PlanTier → Text
plan_currency [] = eur
plan_currency (t ∷ ts) = first_currency t.rates

-- `rates.get(key)?.priceCents`
abbrev pub price_of : Option Rate → Option ℕ
price_of none = none
price_of (some r) = some r.price_cents

unfoldable pub compile_plan : PlanWithSchedule → CompiledPlan
unfolding tier_rates_from cell_key
compile_plan p = record {
  id = p.id;
  version = p.version;
  timezone = p.timezone;
  grace_minutes = p.grace_minutes;
  increment_minutes = p.increment_minutes;
  currency = plan_currency p.tiers;
  tiers = map (λ t. t.tier) p.tiers;
  windows = p.windows;
  caps = p.caps;
  price =
      λ tier_id window_id. price_of (get (cell_key tier_id window_id) (tier_rates_from [] p.tiers));
}

pub record SimulateQuote : Type 0 where
  pub duration_minutes : ℕ
  pub billable_minutes : ℕ
  pub line_items : List QuoteLineItem
  pub total_cents : ℕ
  pub currency : Text

-- `{ ok: false, error }` by what threw.
pub data SimulateError : Type 0 where
  end_not_after_start : SimulateError
  bad_schedule : Fault → SimulateError
  not_priced : PriceError → SimulateError

pub data SimulateResult : Type 0 where
  quoted : SimulateQuote → SimulateResult
  refused : SimulateError → SimulateResult

abbrev pub schedule_of : CompilableDraft → ScheduleInput
schedule_of d = record { tiers = d.tiers; windows = d.windows; caps = d.caps }

abbrev pub grid_rate : Rate → GridRate
grid_rate r = record { tier_id = r.tier_id; window_id = r.window_id }

abbrev pub tier_ids : List CompiledTier → List Text
tier_ids = map (λ t. t.id)

abbrev pub window_ids : List CompiledWindow → List Text
window_ids = map (λ w. w.id)

-- `validateSchedule`, then `validateRateGrid`: also the body of `validateDraft`.
unfoldable pub validate_draft : CompilableDraft → Checked
unfolding validate_schedule validate_rate_grid
validate_draft d =
    validate_schedule (schedule_of d)
    then_check validate_rate_grid (tier_ids d.tiers) (window_ids d.windows) (map grid_rate d.rates)

abbrev pub simulated : ℕ → Text → Priced PriceResult → SimulateResult
simulated duration currency (ok r) = quoted (record {
  duration_minutes = duration;
  billable_minutes = r.billable_minutes;
  line_items = r.line_items;
  total_cents = r.total_cents;
  currency = currency;
})
simulated duration currency (err e) = refused (not_priced e)

unfoldable pub simulate : Clock → ℕ → ℕ → CompilableDraft → SimulateResult
unfolding validate_draft compile_draft price_stay ceil_div
simulate clock starts_at ends_at draft =
    if leb ends_at starts_at then refused end_not_after_start else (elim (validate_draft draft) [
      | failed f ↦ refused (bad_schedule f)
      | passed ↦
          simulated (ceil_div (ends_at - starts_at) 60_000) (compile_draft draft).currency
            (price_stay clock starts_at ends_at (compile_draft draft) 0 none)
    ])
