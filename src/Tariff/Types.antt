-- ===== src/Tariff/Types.antt =====
-- The compiled plan and the price of a stay (src/tariff/tariff.types.ts, the schedule enums of
-- prisma/schema.prisma). Minutes and cents are whole and not negative; a date is a number of
-- milliseconds. The subtotal of a line item is signed.
use saprk_parking_api.Prelude.{ℕ, Option, List, Text}
use saprk_parking_api.Prelude.Int.{ℤ}

pub data RateUnit : Type 0 where
  per_minute per_block flat : RateUnit

pub data CapScope : Type 0 where
  stay rolling : CapScope

pub record CompiledTier : Type 0 where
  pub id : Text
  pub from_minute : ℕ
  pub to_minute : Option ℕ
  pub unit : RateUnit
  pub block_minutes : Option ℕ

pub record CompiledWindow : Type 0 where
  pub id : Text
  pub label : Text
  pub day_mask : ℕ
  pub start_minute : ℕ
  pub end_minute : ℕ

pub record CompiledCap : Type 0 where
  pub window_minutes : ℕ
  pub cap_cents : ℕ
  pub scope : CapScope

-- A local wall clock reading: `weekday` is 1 (Monday) to 7.
pub record WallClock : Type 0 where
  pub weekday : ℕ
  pub hour : ℕ
  pub minute : ℕ

pub record CompiledPlan : Type 0 where
  pub id : Text
  pub version : ℕ
  pub timezone : Text
  pub grace_minutes : ℕ
  pub increment_minutes : ℕ
  pub currency : Text
  pub tiers : List CompiledTier
  pub windows : List CompiledWindow
  pub caps : List CompiledCap
  pub price : Text → Text → Option ℕ

pub record QuoteLineItem : Type 0 where
  pub label : Text
  pub duration_minutes : ℕ
  pub unit_price_cents : ℕ
  pub quantity : ℕ
  pub subtotal_cents : ℤ

pub record PriceResult : Type 0 where
  pub line_items : List QuoteLineItem
  pub total_cents : ℕ
  pub billable_minutes : ℕ
  pub discount_cents : ℕ
  pub commission_bps : ℕ
  pub commission_cents : ℕ

-- `InvalidTariffScheduleError` and `NoApplicableTariffError`. `out_of_fuel` is no error of the
-- code: it stands for a pricing loop that would not end.
pub data PriceError : Type 0 where
  invalid_tariff_schedule no_applicable_tariff out_of_fuel : PriceError

pub data Priced {ℓ} (A : Type ℓ) : Type ℓ where
  err : PriceError → Priced A
  ok : A → Priced A

infixl 5 ◌>>=◌
abbrev pub ◌>>=◌ {ℓ κ} : {A : Type ℓ} {B : Type κ} → Priced A → (A → Priced B) → Priced B
err e >>= next = err e
ok a >>= next = next a

abbrev pub or_throw {ℓ} : {A : Type ℓ} → Option A → PriceError → Priced A
or_throw Option.none e = err e
or_throw (Option.some a) e = ok a
