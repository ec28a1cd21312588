-- ===== src/Tariff/Stay/Lines.antt =====
-- What merging the charges into line items keeps (`coalesce` of src/tariff/pricing-engine.ts).
use saprk_parking_api.Prelude.{
  ℕ, ◌+◌, ◌≡◌, refl, Option, none, some, List, [], ◌∷◌, map, ap, arith, Text, text_eq, text_has_eq,
  get, put, sum_of, Bool-cases, inl, inr,
}
use saprk_parking_api.Prelude.Int.{ℤ, pos, pos_part, neg_part, ◌+ℤ◌, sum_ℤ, int_laws}
use saprk_parking_api.Tariff.Types.{QuoteLineItem}
use saprk_parking_api.Tariff.Engine.{RawCharge}
use saprk_parking_api.Tariff.Engine.Loop.{Tiles}
use saprk_parking_api.Tariff.Stay.{cell_key, merged, cells_from, coalesce, raw_total_of}

abbrev Cells : Type 0
Cells = List (Text × QuoteLineItem)

abbrev pub subtotals : List QuoteLineItem → ℤ
subtotals = sum_ℤ (λ l. l.subtotal_cents)

abbrev pub durations : List QuoteLineItem → ℕ
durations = sum_of (λ l. l.duration_minutes)

abbrev lines_in : Cells → List QuoteLineItem
lines_in = map (λ cell. cell.1)

abbrev subtotal_or_zero : Option QuoteLineItem → ℤ
subtotal_or_zero none = pos 0
subtotal_or_zero (some l) = l.subtotal_cents

-- A write replaces what stood under its key.
subtotals-put :
    (key : Text) (v : QuoteLineItem) (m : Cells)
    → subtotals (lines_in (put key v m)) +ℤ subtotal_or_zero (get key m)
      ≡ subtotals (lines_in m) +ℤ v.subtotal_cents
subtotals-put key v [] = omega int_laws
subtotals-put key v ((j, l) ∷ m) =
    let ih = subtotals-put key v m in
    elim (Bool-cases (text_eq j key)) [
      | inl same ↦ rw same (omega int_laws)
      | inr other ↦ rw other (omega (int_laws, ap pos_part ih, ap neg_part ih))
    ]

merged_lem :
    (o : Option QuoteLineItem) (c : RawCharge)
    → (merged o c).subtotal_cents ≡ subtotal_or_zero o +ℤ pos c.subtotal_cents
merged_lem none c = omega int_laws
merged_lem (some l) c = refl

exchange : (a b x y z : ℤ) → a +ℤ x ≡ b +ℤ z → z ≡ x +ℤ y → a ≡ b +ℤ y
exchange a b x y z p q =
    omega (int_laws, ap pos_part p, ap neg_part p, ap pos_part q, ap neg_part q)

subtotals-merged :
    (key : Text) (c : RawCharge) (m : Cells)
    → subtotals (lines_in (put key (merged (get key m) c) m))
      ≡ subtotals (lines_in m) +ℤ pos c.subtotal_cents
subtotals-merged key c m =
    exchange _ _ _ _ _ (subtotals-put key (merged (get key m) c) m) (merged_lem (get key m) c)

durations-put :
    (key : Text) (c : RawCharge) (m : Cells)
    → durations (lines_in (put key (merged (get key m) c) m))
      ≡ durations (lines_in m) + c.duration_minutes
durations-put key c [] = omega arith
durations-put key c ((j, l) ∷ m) = ground (arith, durations-put key c m)

subtotals-cells_from :
    (m : Cells) (cs : List RawCharge)
    → subtotals (lines_in (cells_from m cs)) ≡ subtotals (lines_in m) +ℤ pos (raw_total_of cs)
unfolding cells_from raw_total_of
subtotals-cells_from m [] = omega int_laws
subtotals-cells_from m (c ∷ cs) =
    let key = cell_key c.tier_id c.window_id in
    rw (subtotals-cells_from (put key (merged (get key m) c) m) cs, subtotals-merged key c m)
      (omega int_laws)

durations-cells_from :
    (m : Cells) (cs : List RawCharge)
    → durations (lines_in (cells_from m cs))
      ≡ durations (lines_in m) + sum_of (λ c. c.duration_minutes) cs
unfolding cells_from
durations-cells_from m [] = omega arith
durations-cells_from m (c ∷ cs) =
    let key = cell_key c.tier_id c.window_id in
    omega (arith, durations-cells_from (put key (merged (get key m) c) m) cs, durations-put key c m)

-- Merging loses no cent.
pub subtotals-coalesce : (cs : List RawCharge) → subtotals (coalesce cs) ≡ pos (raw_total_of cs)
unfolding coalesce
subtotals-coalesce cs = rw (subtotals-cells_from [] cs) (omega int_laws)

-- Merging loses no minute.
pub durations-coalesce :
    (cs : List RawCharge) → durations (coalesce cs) ≡ sum_of (λ c. c.duration_minutes) cs
unfolding coalesce
durations-coalesce cs = omega (arith, durations-cells_from [] cs)

pub durations-Tiles :
    (from to : ℕ) (cs : List RawCharge)
    → Tiles from to cs
    → from + sum_of (λ c. c.duration_minutes) cs ≡ to
durations-Tiles from to [] t = omega arith
durations-Tiles from to (c ∷ cs) t =
    omega (arith, durations-Tiles (from + c.duration_minutes) to cs t.2)
