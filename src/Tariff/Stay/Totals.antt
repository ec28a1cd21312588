-- ===== src/Tariff/Stay/Totals.antt =====
-- The totals of a priced stay (`priceStay`, `discountOn` and `commissionOn` of
-- src/tariff/pricing-engine.ts).
use saprk_parking_api.Prelude.{
  ℕ, ◌-◌, ◌≤◌, ◌≡◌, ◌⊎◌, inl, inr, Option, none, some, List, [], ◌∷◌, arith, ltb, ◌==◌, Bool-cases,
  ==_iff, if◌then◌else◌,
}
use saprk_parking_api.Prelude.Int.{pos, ◌-ℤ◌, sum_ℤ-append, int_laws}
use saprk_parking_api.Tariff.Types.{CompiledPlan, PriceResult, ok}
use saprk_parking_api.Tariff.Engine.{
  Clock, RawCharge, max_billable_minutes, commission_on, discount_on, charges_from,
}
use saprk_parking_api.Tariff.Engine.Loop.{Priced-cases}
use saprk_parking_api.Tariff.Stay.{
  coalesce, raw_total_of, line_items_of, result_of, billable_of, free_result, price_stay,
  adjustment, cap_label, discount_label,
}
use saprk_parking_api.Tariff.Stay.Lines.{subtotals, subtotals-coalesce}

pub discount_on-le : (cents : ℕ) (bps : Option ℕ) → discount_on cents bps ≤ cents
unfolding discount_on
discount_on-le cents none = omega arith
discount_on-le cents (some bps) = ground arith

pub commission_on-le : (cents bps : ℕ) → bps ≤ 10_000 → commission_on cents bps ≤ cents
unfolding commission_on
commission_on-le cents bps h = grind arith

-- A stay that is priced costs nothing, or is what its charges give.
pub price_stay-cases :
    (clock : Clock) (starts_at ends_at : ℕ) (plan : CompiledPlan) (commission_bps : ℕ)
    (booking_discount_bps : Option ℕ) (r : PriceResult)
    → price_stay clock starts_at ends_at plan commission_bps booking_discount_bps ≡ ok r
    → let billable = billable_of starts_at ends_at plan in
      ((billable ≡ 0) × (r ≡ free_result commission_bps))
      ⊎ ((cs : List RawCharge) × (charges_from clock plan starts_at billable billable 0 ≡ ok cs)
          × (r ≡ result_of plan billable commission_bps booking_discount_bps cs))
unfolding price_stay
price_stay-cases clock starts_at ends_at plan commission_bps booking_discount_bps r h =
    let billable = billable_of starts_at ends_at plan in
    elim (Priced-cases (charges_from clock plan starts_at billable billable 0)) [
      | inl (cs, e) ↦ elim (Bool-cases (billable == 0)) [
        | inl zero ↦ inl (ground arith)
        | inr more ↦ inr (cs, e, ground arith)
      ]
      | inr (e, q) ↦ inl (ground arith)
    ]

adjustment_part :
    (billable raw_total capped : ℕ)
    → subtotals (
        if capped == raw_total
        then []
        else adjustment cap_label billable (pos capped -ℤ pos raw_total) ∷ [])
      ≡ pos capped -ℤ pos raw_total
adjustment_part billable raw_total capped = elim (Bool-cases (capped == raw_total)) [
  | inl same ↦ rw same (omega (int_laws, (==_iff capped raw_total).0 same))
  | inr other ↦ rw other (omega int_laws)
]

discount_part :
    (billable discount : ℕ)
    → subtotals (
        if ltb 0 discount
        then adjustment discount_label billable (pos 0 -ℤ pos discount) ∷ []
        else [])
      ≡ pos 0 -ℤ pos discount
discount_part billable discount = elim (Bool-cases (ltb 0 discount)) [
  | inl some_off ↦ rw some_off (omega int_laws)
  | inr none_off ↦
      let zero_off : discount ≡ 0 = ground arith in rw none_off (rw zero_off (omega int_laws))
]

pub subtotals-line_items_of :
    (cs : List RawCharge) (billable capped discount : ℕ)
    → discount ≤ capped
    → subtotals (line_items_of cs billable (raw_total_of cs) capped discount)
      ≡ pos (capped - discount)
unfolding line_items_of
subtotals-line_items_of cs billable capped discount le =
    rw (sum_ℤ-append _ (coalesce cs), subtotals-coalesce cs)
      (rw
        (sum_ℤ-append (λ l. l.subtotal_cents)
          (if capped == raw_total_of cs
            then []
            else adjustment cap_label billable (pos capped -ℤ pos (raw_total_of cs)) ∷ []))
        (rw (adjustment_part billable (raw_total_of cs) capped, discount_part billable discount)
          (omega int_laws)))

-- The line items of a priced stay add up to its total: the cap adjustment and the discount are
-- lines of their own.
pub price_stay-lines :
    (clock : Clock) (starts_at ends_at : ℕ) (plan : CompiledPlan) (commission_bps : ℕ)
    (booking_discount_bps : Option ℕ) (r : PriceResult)
    → price_stay clock starts_at ends_at plan commission_bps booking_discount_bps ≡ ok r
    → subtotals r.line_items ≡ pos r.total_cents
price_stay-lines clock starts_at ends_at plan commission_bps booking_discount_bps r h =
    elim (price_stay-cases clock starts_at ends_at plan commission_bps booking_discount_bps r h) [
      | inl (_, e) ↦ rw e
      | inr (cs, _, e) ↦ rw e (result_of-lines _ cs)
    ]
  where
    result_of-lines :
        (billable : ℕ) (cs : List RawCharge)
        → let r' = result_of plan billable commission_bps booking_discount_bps cs in
          subtotals r'.line_items ≡ pos r'.total_cents
    result_of-lines billable cs =
        unfold result_of in
        subtotals-line_items_of cs billable _ _ (discount_on-le _ booking_discount_bps)

-- A loop that returned its charges, over at most 366 billable days, gives a priced stay.
pub price_stay-run :
    (clock : Clock) (starts_at ends_at : ℕ) (plan : CompiledPlan) (commission_bps : ℕ)
    (booking_discount_bps : Option ℕ) (cs : List RawCharge)
    → let billable = billable_of starts_at ends_at plan in
      billable ≤ max_billable_minutes
      → charges_from clock plan starts_at billable billable 0 ≡ ok cs
      → (r : PriceResult) × (price_stay clock starts_at ends_at plan commission_bps
            booking_discount_bps
          ≡ ok r)
unfolding price_stay
price_stay-run clock starts_at ends_at plan commission_bps booking_discount_bps cs short run =
    let billable = billable_of starts_at ends_at plan in
    elim (Bool-cases (billable == 0)) [
      | inl zero ↦ (free_result commission_bps, ground arith)
      | inr more ↦ (result_of plan billable commission_bps booking_discount_bps cs, ground arith)
    ]
