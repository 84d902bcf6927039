-- ===== src/Requirements/CalendarTests.antt =====
-- Fiscal years and periods at some dates.
use objekt_bernahme_automati.Prelude.{◌≡◌, refl, some, ◌↔◌, arith}
use objekt_bernahme_automati.Requirements.Calendar.{
  Date, date, ordinal, period_for, fiscal_year_of, statement_due,
}
use objekt_bernahme_automati.Parties.Period.{year_start}
use objekt_bernahme_automati.Requirements.Calendar.{is_leap}
use objekt_bernahme_automati.Requirements.Fiscal.{IsDate, IsDayOfYear, fiscal_year_of_iff}
use objekt_bernahme_automati.Requirements.Example.{cfg, house, period}

period_of_house : period_for cfg house (date 2026 8 1) ≡ some period
unfolding period_for year_start
period_of_house = refl

due_2025 : statement_due cfg 2025 1 ≡ ordinal (date 2026 6 30)
unfolding statement_due year_start
due_2025 = refl

abbrev new_year : Date
new_year = date 2025 2 28

new_year-IsDate : IsDate new_year
unfolding is_leap
new_year-IsDate = record {
  year_min = omega arith;
  month_min = omega arith;
  month_max = omega arith;
  day_min = omega arith;
  day_max = omega arith;
}

fiscal_year_of_iff_example : (fiscal_year_of new_year 7 ≡ 2024) ↔ IsDayOfYear new_year 2024 7
fiscal_year_of_iff_example =
    fiscal_year_of_iff new_year 7 2024 new_year-IsDate (omega arith) (omega arith) (omega arith)

abbrev in_2024 : Date
in_2024 = date 2024 2 29

in_2024-IsDate : IsDate in_2024
unfolding is_leap
in_2024-IsDate = record {
  year_min = omega arith;
  month_min = omega arith;
  month_max = omega arith;
  day_min = omega arith;
  day_max = omega arith;
}
