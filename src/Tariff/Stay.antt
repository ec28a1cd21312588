-- ===== src/Tariff/Stay.antt =====
-- The price of a stay (`coalesce` and `priceStay` of src/tariff/pricing-engine.ts).
pub mod Lines
pub mod Totals
pub mod Charges
use saprk_parking_api.Prelude.{
  ℕ, ◌+◌, ◌-◌, ◌≡◌, Bool, not, Option, none, some, List, [], ◌∷◌, ◌++◌, map, Text, text_has_eq, ltb,
  ◌==◌ as nat_eq, if◌then◌else◌, get, put, sum_of,
}
use saprk_parking_api.Prelude.Int.{ℤ, pos, ◌+ℤ◌, ◌-ℤ◌}
use saprk_parking_api.Tariff.Types.{
  CompiledPlan, QuoteLineItem, PriceResult, invalid_tariff_schedule, Priced, ok, err, ◌>>=◌,
}
use saprk_parking_api.Tariff.Engine.{
  Clock, RawCharge, max_billable_minutes, ceil_div, ceil_to_increment, commission_on, discount_on,
  charges_from,
}
use saprk_parking_api.Tariff.Caps.{apply_caps}

-- `${tierId}|${windowId}`
unfoldable pub cell_key : Text → Text → Text
cell_key tier_id window_id = tier_id ++ (b'|' ∷ window_id)

abbrev pub line_of : RawCharge → QuoteLineItem
line_of c = record {
  label = c.label;
  duration_minutes = c.duration_minutes;
  unit_price_cents = c.unit_price_cents;
  quantity = c.quantity;
  subtotal_cents = pos c.subtotal_cents;
}

abbrev pub add_charge : QuoteLineItem → RawCharge → QuoteLineItem
add_charge line c = record line {
  duration_minutes = line.duration_minutes + c.duration_minutes;
  quantity = line.quantity + c.quantity;
  subtotal_cents = line.subtotal_cents +ℤ pos c.subtotal_cents;
}

-- `existing` is added to in place; a new cell goes to the end of `order`.
abbrev pub merged : Option QuoteLineItem → RawCharge → QuoteLineItem
merged none c = line_of c
merged (some existing) c = add_charge existing c

-- The map `byCell` in the order of its keys, which is `order`.
unfoldable pub cells_from :
    List (Text × QuoteLineItem) → List RawCharge → List (Text × QuoteLineItem)
cells_from m [] = m
cells_from m (c ∷ cs) =
    let key = cell_key c.tier_id c.window_id in cells_from (put key (merged (get key m) c) m) cs

unfoldable pub coalesce : List RawCharge → List QuoteLineItem
unfolding cells_from cell_key
coalesce charges = map (λ cell. cell.1) (cells_from [] charges)

unfoldable pub raw_total_of : List RawCharge → ℕ
raw_total_of = sum_of (λ c. c.subtotal_cents)

abbrev pub adjustment : Text → ℕ → ℤ → QuoteLineItem
adjustment label billable cents = record {
  label = label;
  duration_minutes = billable;
  unit_price_cents = 0;
  quantity = 1;
  subtotal_cents = cents;
}

-- The labels "Cap adjustment" and "Subscription discount".
abbrev pub cap_label : Text
cap_label =
    b'C' ∷ b'a' ∷ b'p' ∷ b' ' ∷ b'a' ∷ b'd' ∷ b'j' ∷ b'u' ∷ b's' ∷ b't' ∷ b'm' ∷ b'e' ∷ b'n' ∷ b't'
    ∷ []

abbrev pub discount_label : Text
discount_label =
    b'S' ∷ b'u' ∷ b'b' ∷ b's' ∷ b'c' ∷ b'r' ∷ b'i' ∷ b'p' ∷ b't' ∷ b'i' ∷ b'o' ∷ b'n' ∷ b' ' ∷ b'd'
    ∷ b'i' ∷ b's' ∷ b'c' ∷ b'o' ∷ b'u' ∷ b'n' ∷ b't' ∷ []

unfoldable pub line_items_of : List RawCharge → ℕ → ℕ → ℕ → ℕ → List QuoteLineItem
unfolding coalesce
line_items_of charges billable raw_total capped discount =
    coalesce charges
    ++ ((if nat_eq capped raw_total
          then []
          else adjustment cap_label billable (pos capped -ℤ pos raw_total) ∷ [])
        ++ (if ltb 0 discount
            then adjustment discount_label billable (pos 0 -ℤ pos discount) ∷ []
            else []))

-- What `priceStay` returns once the loop has its charges.
unfoldable pub result_of : CompiledPlan → ℕ → ℕ → Option ℕ → List RawCharge → PriceResult
unfolding line_items_of raw_total_of apply_caps discount_on commission_on
result_of plan billable commission_bps booking_discount_bps charges =
    let raw_total = raw_total_of charges in
    let capped = apply_caps raw_total charges plan.caps in
    let discount_cents = discount_on capped booking_discount_bps in
    let total = capped - discount_cents in
    record {
      line_items = line_items_of charges billable raw_total capped discount_cents;
      total_cents = total;
      billable_minutes = billable;
      discount_cents = discount_cents;
      commission_bps = commission_bps;
      commission_cents = commission_on total commission_bps;
    }

-- `Math.max(0, rawMinutes - plan.graceMinutes)` rounded up to the increment.
unfoldable pub billable_of : ℕ → ℕ → CompiledPlan → ℕ
unfolding ceil_div ceil_to_increment
billable_of starts_at ends_at plan =
    ceil_to_increment (ceil_div (ends_at - starts_at) 60_000 - plan.grace_minutes)
      plan.increment_minutes

abbrev pub free_result : ℕ → PriceResult
free_result commission_bps = record {
  line_items = [];
  total_cents = 0;
  billable_minutes = 0;
  discount_cents = 0;
  commission_bps = commission_bps;
  commission_cents = 0;
}

unfoldable pub price_stay : Clock → ℕ → ℕ → CompiledPlan → ℕ → Option ℕ → Priced PriceResult
unfolding result_of charges_from billable_of
price_stay clock starts_at ends_at plan commission_bps booking_discount_bps =
    let billable = billable_of starts_at ends_at plan in
    if ltb max_billable_minutes billable
    then err invalid_tariff_schedule
    else (if nat_eq billable 0
        then ok (free_result commission_bps)
        else (charges_from clock plan starts_at billable billable 0 >>= λ charges.
            ok (result_of plan billable commission_bps booking_discount_bps charges)))
