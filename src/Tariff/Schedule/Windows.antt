-- ===== src/Tariff/Schedule/Windows.antt =====
-- Accepted windows cover every minute of every weekday exactly once (`validateWindows` of
-- src/tariff/schedule-validation.ts against `windowAt` of src/tariff/pricing-engine.ts).
use saprk_parking_api.Prelude.{
  ℕ, zero, suc, ◌+◌, ◌≤◌, ◌<◌, ◌≡◌, refl, sym, subst, ◌∙◌, inl, inr, Bool, true, ◌&&◌, List, [],
  ◌∷◌, ◌++◌, arith, ltb, leb, ◌==◌, ==_iff, if◌then◌else◌, count_if, count-sort_by, All, All-append,
  All-sort_by, Bool-cases,
}
use saprk_parking_api.Tariff.Types.{CompiledWindow}
use saprk_parking_api.Tariff.Engine.{contains_minute, is_open}
use saprk_parking_api.Tariff.Schedule.{
  passed, check, Segment, segments_of, day_segments, check_segments, validate_day, validate_days,
  validate_windows, window_schema, all_of,
}
use saprk_parking_api.Tariff.Schedule.Tiers.{then_check-passed, covered_from_zero}

abbrev within : ℕ → Segment → Bool
within minute s = leb s.start minute && ltb minute s.end

abbrev IsSpan : Segment → Type 0
IsSpan s = s.start < s.end

check_segments-covers :
    (day minute cursor : ℕ) (ss : List Segment)
    → minute < 1440
    → All IsSpan ss
    → check_segments day cursor ss ≡ passed
    → (cursor ≤ 1440) × (count_if (within minute) ss ≡ (if leb cursor minute then 1 else 0))
unfolding check_segments
check_segments-covers day minute cursor [] lt spans h = ground arith
check_segments-covers day minute cursor (s ∷ ss) lt spans h =
    ground (arith, check_segments-covers day minute s.end ss lt spans.1, ==_iff s.start cursor)

count-append {ℓ} :
    {A : Type ℓ} (test : A → Bool) (xs ys : List A)
    → count_if test (xs ++ ys) ≡ count_if test xs + count_if test ys
count-append test [] ys = omega arith
count-append test (x ∷ xs) ys = ground (arith, count-append test xs ys)

segments_of-covers :
    (w : CompiledWindow) (minute : ℕ)
    → minute < 1440
    → count_if (within minute) (segments_of w) ≡ (if contains_minute w minute then 1 else 0)
unfolding contains_minute
segments_of-covers w minute lt = ground arith

segments_of-IsSpan :
    (w : CompiledWindow) → leb w.start_minute 1439 ≡ true → All IsSpan (segments_of w)
segments_of-IsSpan w h = ground arith

day_segments-covers :
    (day minute : ℕ) (ws : List CompiledWindow)
    → minute < 1440
    → count_if (within minute) (day_segments day ws) ≡ count_if (is_open day minute) ws
unfolding day_segments is_open
day_segments-covers day minute [] lt = refl
day_segments-covers day minute (w ∷ ws) lt = ground (
  arith,
  count-append (within minute) (segments_of w) (day_segments day ws),
  segments_of-covers w minute lt,
  day_segments-covers day minute ws lt,
)

day_segments-IsSpan :
    (day : ℕ) (ws : List CompiledWindow)
    → all_of window_schema ws ≡ true
    → All IsSpan (day_segments day ws)
unfolding day_segments
day_segments-IsSpan day [] h = tt
day_segments-IsSpan day (w ∷ ws) h = ground (
  arith,
  All-append IsSpan (segments_of w) (day_segments day ws),
  segments_of-IsSpan w,
  day_segments-IsSpan day ws,
)

validate_day-covers :
    (ws : List CompiledWindow) (day minute : ℕ)
    → minute < 1440
    → all_of window_schema ws ≡ true
    → validate_day ws day ≡ passed
    → count_if (is_open day minute) ws ≡ 1
unfolding validate_day
validate_day-covers ws day minute lt bounds h =
    let (_, walk) = then_check-passed (check _ _) _ h in
    let spans =
      All-sort_by (λ s. s.start) IsSpan (day_segments day ws) (day_segments-IsSpan day ws bounds) in
    sym (day_segments-covers day minute ws lt)
    ∙ sym (count-sort_by (λ s. s.start) (within minute) (day_segments day ws))
    ∙ (check_segments-covers day minute 0 _ lt spans walk).1
    ∙ covered_from_zero minute

validate_days-each :
    (ws : List CompiledWindow) (first left day : ℕ)
    → validate_days ws first left ≡ passed
    → first ≤ day
    → day < first + left
    → validate_day ws day ≡ passed
unfolding validate_days
validate_days-each ws first zero day h lo hi = absurd (omega arith)
validate_days-each ws first (suc left) day h lo hi = elim (Bool-cases (first == day)) [
  | inl same ↦
      subst (λ d. validate_day ws d ≡ passed) ((==_iff first day).0 same)
        (then_check-passed _ _ h).0
  | inr other ↦
      validate_days-each ws (first + 1) left day (then_check-passed _ _ h).1 (ground arith)
        (omega arith)
]

-- On every weekday every minute of the day lies in exactly one of the accepted windows, if these
-- keep to the bounds of the schema; wrapping windows are included.
pub validate_windows-covers :
    (ws : List CompiledWindow) (day minute : ℕ)
    → all_of window_schema ws ≡ true
    → validate_windows ws ≡ passed
    → day < 7
    → minute < 1440
    → count_if (is_open day minute) ws ≡ 1
unfolding validate_windows
validate_windows-covers ws day minute bounds h d lt =
    validate_day-covers ws day minute lt bounds
      (validate_days-each ws 0 7 day h (omega arith) (omega arith))
