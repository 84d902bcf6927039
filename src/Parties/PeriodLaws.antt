-- ===== src/Parties/PeriodLaws.antt =====
-- src/apps/parties/services.py: the two period tests, described by the days that the periods have in
-- common.
use objekt_bernahme_automati.Prelude.{ℕ, ◌≤◌, ◌≡◌, ◌↔◌, true, Option, some, arith, max}
use objekt_bernahme_automati.Parties.Period.{
  date_min, date_max, date_or, periods_overlap, period_filter, starts_by, lasts_until,
}

-- A day of the calendar that lies in the period; both ends belong to it.
pub record IsDayOf (valid_from valid_to : Option ℕ) (d : ℕ) : Type 0 where
  pub from_min : date_min ≤ d
  pub to_max : d ≤ date_max
  pub not_before : starts_by valid_from d ≡ true
  pub not_after : lasts_until valid_to d ≡ true

-- The period's ends are dates, and the start does not lie after the end.
pub record IsPeriod (valid_from valid_to : Option ℕ) : Type 0 where
  pub start_min : date_min ≤ date_or valid_from date_min
  pub ordered : date_or valid_from date_min ≤ date_or valid_to date_max
  pub end_max : date_or valid_to date_max ≤ date_max

-- The later one of the two starts.
abbrev pub common_day : Option ℕ → Option ℕ → ℕ
common_day a_from b_from = max (date_or a_from date_min) (date_or b_from date_min)

-- Two periods, whose ends are not before their starts, overlap exactly when some day lies in
-- both, an open start or end meaning no bound.
pub periods_overlap_iff :
    (a_from a_to b_from b_to : Option ℕ)
    → IsPeriod a_from a_to
    → IsPeriod b_from b_to
    → (periods_overlap a_from a_to b_from b_to ≡ true)
      ↔ ((d : ℕ) × IsDayOf a_from a_to d × IsDayOf b_from b_to d)
unfolding periods_overlap
periods_overlap_iff a_from a_to b_from b_to a b =
    (λ h. (common_day a_from b_from, ground arith, ground arith), λ (d, p, q). ground arith)

-- The filter that the database applies is the same test as `periods_overlap`, for a given period
-- and that of a row, both with their ends not before their starts.
pub period_filter-eq-periods_overlap :
    (from to : ℕ) (valid_from valid_to : Option ℕ)
    → IsPeriod (some from) (some to)
    → IsPeriod valid_from valid_to
    → period_filter from to valid_from valid_to
      ≡ periods_overlap valid_from valid_to (some from) (some to)
unfolding period_filter periods_overlap
period_filter-eq-periods_overlap from to valid_from valid_to a b = ground arith
