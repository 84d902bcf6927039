-- ===== src/Requirements/Fiscal.antt =====
-- src/apps/requirements/engine.py, the section on periods: fiscal years as intervals of days.
use objekt_bernahme_automati.Prelude.{◌/◌, ◌%◌}
use objekt_bernahme_automati.Prelude.{
  ℕ, zero, suc, ◌+◌, ◌-◌, ◌≤◌, ◌<◌, ◌≡◌, ◌↔◌, ap, inl, inr, true, ◌&&◌, Option, none, some, arith,
  Bool-cases, ltb, ◌==◌, if◌then◌else◌, max,
}
use objekt_bernahme_automati.Prelude.Table.{exists}
use objekt_bernahme_automati.Parties.Period.{year_start, starts_by, lasts_until}
use objekt_bernahme_automati.Requirements.Calendar.{
  Date, date, is_leap, days_before, ordinal, fiscal_year_of, fiscal_year_start, fiscal_year_end,
  years_from, years_of, overlaps_year,
}

abbrev leap_day : ℕ → ℕ
leap_day y = if is_leap y then 1 else 0

abbrev month_start : ℕ → ℕ → ℕ
month_start y m = days_before m + (if is_leap y && ltb 2 m then 1 else 0)

-- The long and the short months alternate, up to July and from August on.
abbrev pub days_in_month : ℕ → ℕ → ℕ
days_in_month y m = if m == 2 then 28 + leap_day y else 30 + (m + m / 8) % 2

-- A day of the calendar, from the year 2 on: the fiscal year of a day of the year 1 may have begun
-- before the calendar does.
pub record IsDate (d : Date) : Type 0 where
  pub year_min : 2 ≤ d.year
  pub month_min : 1 ≤ d.month
  pub month_max : d.month ≤ 12
  pub day_min : 1 ≤ d.day
  pub day_max : d.day ≤ days_in_month d.year d.month

year_start-suc : (y : ℕ) → 1 ≤ y → year_start (y + 1) ≡ year_start y + 365 + leap_day y
unfolding year_start is_leap
year_start-suc y h = ground arith

month_start-suc :
    (y m : ℕ) → 1 ≤ m → m < 12 → month_start y (m + 1) ≡ month_start y m + days_in_month y m
month_start-suc y m h k = ground arith

days_positive : (y m : ℕ) → 1 ≤ days_in_month y m
days_positive y m = ground arith

month_start_later :
    (y m k : ℕ)
    → 1 ≤ m
    → m + suc k ≤ 12
    → month_start y m + days_in_month y m ≤ month_start y (m + suc k)
month_start_later y m zero h l = omega (arith, month_start-suc y m h (omega arith))
month_start_later y m (suc k) h l =
    let e : m + suc (suc k) ≡ m + suc k + 1 = omega arith in
    rw e (
      omega (
        arith,
        month_start_later y m k h (omega arith),
        month_start-suc y (m + suc k) (omega arith) (omega arith),
      ))

before_month :
    (y m n : ℕ) → 1 ≤ m → m < n → n ≤ 12 → month_start y m + days_in_month y m ≤ month_start y n
before_month y m n h k l =
    let e : n ≡ m + suc (n - suc m) = omega arith in
    rw e (month_start_later y m (n - suc m) h (omega arith))

year_length : (y m : ℕ) → 1 ≤ m → m ≤ 12 → month_start y m + days_in_month y m ≤ 365 + leap_day y
year_length y m h k = ground arith

ordinal_lem : (d : Date) → ordinal d ≡ year_start d.year + month_start d.year d.month + d.day - 1
unfolding ordinal
ordinal_lem d = omega arith

year_start_min : (y : ℕ) → 1 ≤ year_start y
unfolding year_start
year_start_min y = omega arith

-- The days of a fiscal year.
abbrev pub IsDayOfYear : Date → ℕ → ℕ → Type 0
IsDayOfYear d year fy =
    (ordinal (fiscal_year_start year fy) ≤ ordinal d) × (ordinal d ≤ fiscal_year_end year fy)

start_of : (y fy : ℕ) → ordinal (fiscal_year_start y fy) ≡ year_start y + month_start y fy
start_of y fy = omega (arith, ordinal_lem (date y fy 1))

end_of : (y fy : ℕ) → fiscal_year_end y fy ≡ year_start (y + 1) + month_start (y + 1) fy - 1
unfolding fiscal_year_end
end_of y fy = omega (arith, ordinal_lem (date (y + 1) fy 1))

-- A month of the first calendar year of the fiscal year.
in_first_part : (d : Date) (fy : ℕ) → IsDate d → 1 ≤ fy → fy ≤ d.month → IsDayOfYear d d.year fy
in_first_part d fy v h k = (
  elim (Bool-cases (fy == d.month)) [
    | inl e ↦
        let m : fy ≡ d.month = ground arith in
        omega (arith, start_of d.year fy, ordinal_lem d, v.day_min, ap (month_start d.year) m)
    | inr e ↦
        let m : fy < d.month = ground arith in
        omega (
          arith,
          start_of d.year fy,
          ordinal_lem d,
          days_positive d.year fy,
          before_month d.year fy d.month h m v.month_max,
        )
  ],
  omega (
    arith,
    end_of d.year fy,
    ordinal_lem d,
    v.day_max,
    year_length d.year d.month v.month_min v.month_max,
    year_start-suc d.year (omega (arith, v.year_min)),
  ),
)

-- A month of its second calendar year.
in_second_part :
    (d : Date) (fy : ℕ) → IsDate d → fy ≤ 12 → d.month < fy → IsDayOfYear d (d.year - 1) fy
in_second_part d fy v h k =
    let y : d.year - 1 + 1 ≡ d.year = omega (arith, v.year_min) in
    let s = year_start-suc (d.year - 1) (omega (arith, v.year_min)) in
    (
      omega (
        arith,
        start_of (d.year - 1) fy,
        ordinal_lem d,
        days_positive (d.year - 1) fy,
        year_length (d.year - 1) fy (omega (arith, k)) h,
        s,
        ap year_start y,
        v.day_min,
      ),
      omega (
        arith,
        end_of (d.year - 1) fy,
        ordinal_lem d,
        v.day_max,
        year_start_min d.year,
        before_month d.year d.month fy v.month_min k h,
        ap year_start y,
        ap (λ z. month_start z fy) y,
      ),
    )

in_own_year :
    (d : Date) (fy : ℕ) → IsDate d → 1 ≤ fy → fy ≤ 12 → IsDayOfYear d (fiscal_year_of d fy) fy
unfolding fiscal_year_of
in_own_year d fy v h k =
    ground (arith, in_first_part d fy v h, in_second_part d fy v k, v.month_min)

next_start :
    (y fy k : ℕ) → 1 ≤ y → ordinal (fiscal_year_start y fy) ≤ ordinal (fiscal_year_start (y + k) fy)
next_start y fy zero h = let e : y + 0 ≡ y = omega arith in rw e (omega arith)
next_start y fy (suc k) h =
    let e : y + suc k ≡ y + k + 1 = omega arith in
    rw e (
      omega (
        arith,
        next_start y fy k h,
        start_of (y + k) fy,
        start_of (y + k + 1) fy,
        year_start-suc (y + k) (omega arith),
        month_start_near (y + k) (y + k + 1) fy,
      ))
  where
    month_start_near : (y z m : ℕ) → month_start y m ≤ month_start z m + 1
    month_start_near y z m = ground arith

-- A fiscal year ends before a later one starts.
years_apart : (y z fy : ℕ) → 1 ≤ y → y < z → fiscal_year_end y fy < ordinal (fiscal_year_start z fy)
years_apart y z fy h k =
    let e : z ≡ y + 1 + (z - suc y) = omega arith in
    let n = next_start (y + 1) fy (z - suc y) (omega arith) in
    let n' : ordinal (fiscal_year_start (y + 1) fy) ≤ ordinal (fiscal_year_start z fy) = rw e n in
    omega (arith, n', end_of y fy, start_of (y + 1) fy, year_start_min (y + 1))

one_year : (d : Date) (y z fy : ℕ) → 1 ≤ y → 1 ≤ z → IsDayOfYear d y fy → IsDayOfYear d z fy → y ≡ z
one_year d y z fy h k a b = ground (arith, years_apart y z fy h, years_apart z y fy k)

fiscal_year_min : (d : Date) (fy : ℕ) → 2 ≤ d.year → 1 ≤ fiscal_year_of d fy
unfolding fiscal_year_of
fiscal_year_min d fy h = ground arith

-- The fiscal years divide the calendar: a day from the year 2 on lies between the start and the
-- end of a fiscal year exactly when fiscal_year_of gives this year, whatever month it starts in.
pub fiscal_year_of_iff :
    (d : Date) (fy year : ℕ)
    → IsDate d
    → 1 ≤ fy
    → fy ≤ 12
    → 1 ≤ year
    → (fiscal_year_of d fy ≡ year) ↔ IsDayOfYear d year fy
fiscal_year_of_iff d fy year v h k l =
    let o = in_own_year d fy v h k in
    let p : 1 ≤ fiscal_year_of d fy = fiscal_year_min d fy v.year_min in
    (λ e. rw (← e) o, λ i. one_year d (fiscal_year_of d fy) year fy p l o i)

-- A later day does not lie in an earlier fiscal year.
pub fiscal_year_of_mono :
    (d e : Date) (fy : ℕ)
    → IsDate d
    → IsDate e
    → 1 ≤ fy
    → fy ≤ 12
    → ordinal d ≤ ordinal e
    → fiscal_year_of d fy ≤ fiscal_year_of e fy
fiscal_year_of_mono d e fy v w h k l =
    let o = in_own_year d fy v h k in
    let p = in_own_year e fy w h k in
    ground (
      arith,
      o,
      p,
      years_apart (fiscal_year_of e fy) (fiscal_year_of d fy) fy (fiscal_year_min e fy w.year_min),
    )

in_years_from :
    (first n y : ℕ) → first ≤ y → y < first + n → exists (λ z. z == y) (years_from first n) ≡ true
in_years_from first zero y h k = absurd (omega arith)
in_years_from first (suc n) y h k = ground (arith, in_years_from (first + 1) n y)

-- Each day of the takeover's period, from its start to its end, belongs to one of the fiscal years
-- for which documents are expected.
pub years_of_covers :
    (start end d : Date) (fy : ℕ)
    → IsDate start
    → IsDate end
    → IsDate d
    → 1 ≤ fy
    → fy ≤ 12
    → ordinal start ≤ ordinal d
    → ordinal d ≤ ordinal end
    → exists (λ y. y == fiscal_year_of d fy) (years_of start end fy) ≡ true
unfolding years_of
years_of_covers start end d fy u v w h k a b =
    in_years_from (fiscal_year_of start fy) (fiscal_year_of end fy + 1 - fiscal_year_of start fy)
      (fiscal_year_of d fy) (fiscal_year_of_mono start d fy u w h k a)
      (omega
        (arith, fiscal_year_of_mono start d fy u w h k a, fiscal_year_of_mono d end fy w v h k b))

nonempty : (year fy : ℕ) → 1 ≤ year → ordinal (fiscal_year_start year fy) ≤ fiscal_year_end year fy
nonempty year fy h =
    let n = next_start year fy 1 h in
    let l = next_start (year + 1) fy 0 (omega arith) in
    omega (arith, start_of year fy, end_of year fy, year_start-suc year h, near year fy)
  where
    near : (y m : ℕ) → month_start y m ≤ month_start (y + 1) m + 1
    near y m = ground arith

abbrev pub IsOrdered : Option ℕ → Option ℕ → Type 0
IsOrdered (some a) (some b) = a ≤ b
IsOrdered a b = Unit

-- An assignment, whose start does not lie after its end, is judged in a fiscal year exactly when
-- one of the days of this year lies in its period, an open end meaning no bound.
pub overlaps_year_iff :
    (valid_from valid_to : Option ℕ) (year fy : ℕ)
    → 1 ≤ year
    → fy ≤ 12
    → IsOrdered valid_from valid_to
    → (overlaps_year valid_from valid_to year fy ≡ true) ↔ (
        (t : ℕ) × (ordinal (fiscal_year_start year fy) ≤ t)
        × (t ≤ fiscal_year_end year fy)
        × (starts_by valid_from t ≡ true)
        × (lasts_until valid_to t ≡ true))
unfolding overlaps_year
overlaps_year_iff none valid_to year fy h k o = (
  λ e. (
    ordinal (fiscal_year_start year fy),
    ground (arith, nonempty year fy h),
    ground (arith, nonempty year fy h),
    ground (arith, nonempty year fy h),
    ground (arith, nonempty year fy h),
  ),
  λ t. ground arith,
)
overlaps_year_iff (some a) valid_to year fy h k o = (
  λ e. (
    max a (ordinal (fiscal_year_start year fy)),
    ground (arith, nonempty year fy h),
    ground (arith, nonempty year fy h),
    ground (arith, nonempty year fy h),
    ground (arith, nonempty year fy h),
  ),
  λ t. ground arith,
)
