-- ===== src/Requirements/Calendar.antt =====
-- src/apps/requirements/engine.py, the section on periods: fiscal years, the period of a takeover,
-- when a statement is due. A date in a column is its ordinal, as in Parties/Period.antt; `Date` has
-- the parts that the code reads.
use objekt_bernahme_automati.Prelude.{
  ℕ, zero, suc, ◌+◌, ◌-◌, ◌%◌, Bool, not, ◌&&◌, ◌||◌, Option, none, some, List, [], ◌∷◌, ◌++◌,
  String, ◌<>◌, ltb, leb, ◌==◌, if◌then◌else◌, decimal,
}
use objekt_bernahme_automati.Parties.Period.{year_start, starts_by, lasts_until}

-- A day with its parts.
pub record Date : Type 0 where
  pub day : ℕ
  pub month : ℕ
  pub year : ℕ

abbrev pub date : ℕ → ℕ → ℕ → Date
date year month day = record { day = day; month = month; year = year }

unfoldable pub is_leap : ℕ → Bool
is_leap y = (y % 4 == 0) && (not (y % 100 == 0) || (y % 400 == 0))

-- The days of a common year before its month.
abbrev pub days_before : ℕ → ℕ
days_before m =
    if m == 1
    then 0
    else if m == 2
    then 31
    else if m == 3
    then 59
    else if m == 4
    then 90
    else if m == 5
    then 120
    else if m == 6
    then 151
    else if m == 7
    then 181
    else if m == 8
    then 212
    else if m == 9
    then 243
    else if m == 10
    then 273
    else if m == 11
    then 304
    else 334

-- `date.toordinal()`
unfoldable pub ordinal : Date → ℕ
unfolding is_leap
ordinal d =
    year_start d.year
    + days_before d.month
    + (if is_leap d.year && ltb 2 d.month then 1 else 0)
    + d.day
    - 1

unfoldable pub fiscal_year_of : Date → ℕ → ℕ
fiscal_year_of d fy = if (fy == 1) || leb fy d.month then d.year else d.year - 1

abbrev pub fiscal_year_start : ℕ → ℕ → Date
fiscal_year_start year fy = date year fy 1

-- The ordinal of the last day.
unfoldable pub fiscal_year_end : ℕ → ℕ → ℕ
unfolding ordinal
fiscal_year_end year fy = ordinal (date (year + 1) fy 1) - 1

-- The columns of a managed object that the engine reads.
pub record ManagedObject : Type 0 where
  pub id : ℕ
  pub management_type : String
  pub fiscal_year_start_month : Option ℕ
  pub takeover_from : Option Date
  pub takeover_to : Option Date
  pub expected_unit_count : Option ℕ
  pub sepa_used : Option Bool
  pub special_levies_in_period : Option Bool

-- The settings `completeness.*`; of the day from which a statement is expected, the numbers between
-- its dots.
pub record Settings : Type 0 where
  pub default_period_years : ℕ
  pub statement_expected_after : List ℕ
  pub contact_channels_required : ℕ
  pub mostly_complete_pct : ℕ

pub record Period : Type 0 where
  pub start : Date
  pub end : Date
  pub years : List ℕ
  pub plan_years : List ℕ
  pub fiscal_start_month : ℕ
  pub hints : List String
  pub provisional : Bool
  pub reference : Date

-- `list(range(first, first + n))`
abbrev pub years_from : ℕ → ℕ → List ℕ
years_from first zero = []
years_from first (suc n) = first ∷ years_from (first + 1) n

-- `plan_years.append(years[-1] + 1)`; without a year it is an IndexError.
abbrev pub with_next_year : ℕ → List ℕ → List ℕ → Option (List ℕ)
with_next_year last [] years = none
with_next_year last (y ∷ ys) years = some (years ++ (last + 1) ∷ [])

-- In the last quarter of the fiscal year the plan of the next one is expected too.
unfoldable pub plan_years_of : Date → ℕ → List ℕ → Option (List ℕ)
unfolding fiscal_year_of
plan_years_of end fy years =
    if leb 9 ((end.month + 12 - fy) % 12)
    then with_next_year (fiscal_year_of end fy) years years
    else some years

abbrev pub month_or : Option ℕ → ℕ
month_or none = 1
month_or (some zero) = 1
month_or (some (suc m)) = suc m

abbrev pub month_hints : Option ℕ → List String
month_hints (some (suc m)) = []
month_hints _ = "Wirtschaftsjahr nicht erfasst, Kalenderjahr angenommen" ∷ []

abbrev pub end_hints : Option Date → List String
end_hints none = "Übernahmestichtag nicht erfasst, heutiges Datum angenommen" ∷ []
end_hints (some d) = []

abbrev pub start_hints : Settings → Option Date → List String
start_hints cfg (some d) = []
start_hints cfg none =
    ("Übernahmezeitraum aus Vorgabe: "
      <> decimal cfg.default_period_years
      <> " abgeschlossene Wirtschaftsjahre vor dem Stichtag zuzüglich laufendes Jahr")
    ∷ []

abbrev pub day_or : Option Date → Date → Date
day_or none d = d
day_or (some e) d = e

abbrev pub start_of : Settings → Option Date → Date → ℕ → Date
start_of cfg (some d) end fy = d
start_of cfg none end fy = fiscal_year_start (fiscal_year_of end fy - cfg.default_period_years) fy

-- The years of the period, from the fiscal year of its start to that of its end.
unfoldable pub years_of : Date → Date → ℕ → List ℕ
unfolding fiscal_year_of
years_of start end fy =
    years_from (fiscal_year_of start fy) (fiscal_year_of end fy + 1 - fiscal_year_of start fy)

abbrev pub build_period :
    Date → Date → ℕ → List String → Bool → List ℕ → Option (List ℕ) → Option Period
build_period start end fy hints provisional years none = none
build_period start end fy hints provisional years (some plan_years) = some (record {
  start = start;
  end = end;
  years = years;
  plan_years = plan_years;
  fiscal_start_month = fy;
  hints = hints;
  provisional = provisional;
  reference = end;
})

unfoldable pub period_for : Settings → ManagedObject → Date → Option Period
unfolding plan_years_of years_of ordinal
period_for cfg obj today =
    let fy = month_or obj.fiscal_year_start_month in
    let end = day_or obj.takeover_to today in
    let start = start_of cfg obj.takeover_from end fy in
    let years = years_of start end fy in
    build_period start end fy
      (month_hints obj.fiscal_year_start_month
        ++ end_hints obj.takeover_to
        ++ start_hints cfg obj.takeover_from)
      (ltb (ordinal today) (ordinal end)) years (plan_years_of end fy years)

-- `(parts + [30, 6])[:2]`: the day and the month.
abbrev pub day_and_month : List ℕ → ℕ × ℕ
day_and_month (dd ∷ mm ∷ rest) = (dd, mm)
day_and_month (dd ∷ []) = (dd, 30)
day_and_month [] = (30, 6)

abbrev pub due_offset : ℕ × ℕ → ℕ
due_offset (dd, mm) = ordinal (date 2001 mm dd) - ordinal (date 2000 12 31)

unfoldable pub statement_due : Settings → ℕ → ℕ → ℕ
unfolding fiscal_year_end
statement_due cfg year fy =
    fiscal_year_end year fy + due_offset (day_and_month cfg.statement_expected_after)

-- An assignment's period and a fiscal year have a day in common.
unfoldable pub overlaps_year : Option ℕ → Option ℕ → ℕ → ℕ → Bool
unfolding fiscal_year_end ordinal
overlaps_year valid_from valid_to year fy =
    starts_by valid_from (fiscal_year_end year fy)
    && lasts_until valid_to (ordinal (fiscal_year_start year fy))
