-- ===== src/Parties/Period.antt =====
-- src/apps/parties/services.py: periods of ownership and the questions asked of them. A date is its
-- ordinal in the proleptic Gregorian calendar, as `date.toordinal()` counts: `date.min` is 1.
use objekt_bernahme_automati.Prelude.{
  ℕ, suc, ◌+◌, ◌-◌, ◌*◌, ◌/◌, Bool, true, ◌&&◌, Option, none, some, leb,
}

abbrev pub date_min : ℕ
date_min = 1

abbrev pub date_max : ℕ
date_max = 3652059

-- `d or default`
abbrev pub date_or : Option ℕ → ℕ → ℕ
date_or none default = default
date_or (some d) default = d

unfoldable pub periods_overlap : Option ℕ → Option ℕ → Option ℕ → Option ℕ → Bool
periods_overlap a_from a_to b_from b_to =
    let a_start = date_or a_from date_min in
    let a_end = date_or a_to date_max in
    let b_start = date_or b_from date_min in
    let b_end = date_or b_to date_max in leb a_start b_end && leb b_start a_end

-- `valid_from__isnull | valid_from__lte=d`
abbrev pub starts_by : Option ℕ → ℕ → Bool
starts_by none d = true
starts_by (some t) d = leb t d

-- `valid_to__isnull | valid_to__gte=d`
abbrev pub lasts_until : Option ℕ → ℕ → Bool
lasts_until none d = true
lasts_until (some t) d = leb d t

-- `_period_filter`
unfoldable pub period_filter : ℕ → ℕ → Option ℕ → Option ℕ → Bool
period_filter on_from on_to valid_from valid_to =
    starts_by valid_from on_to && lasts_until valid_to on_from

-- `date(year, 1, 1).toordinal()`, for the years 1 to 9999.
unfoldable pub year_start : ℕ → ℕ
year_start year = let y = year - 1 in 365 * y + y / 4 - y / 100 + y / 400 + 1

-- `date(year, 12, 31).toordinal()`
unfoldable pub year_end : ℕ → ℕ
unfolding year_start
year_end year = year_start (year + 1) - 1

-- The time that a document speaks of, in the order of `owners_for_document`: the year of the
-- accounts, an explicit period, the document's date. `none` means that there is none.
unfoldable pub document_period : Option ℕ → Option ℕ → Option ℕ → Option ℕ → Option (ℕ × ℕ)
unfolding year_start year_end
document_period (some (suc y)) period_from period_to document_date =
    some (year_start (suc y), year_end (suc y))
document_period _ (some f) (some t) document_date = some (f, t)
document_period _ (some f) none document_date = some (f, f)
document_period _ none (some t) document_date = some (t, t)
document_period _ none none (some d) = some (d, d)
document_period _ none none none = none
