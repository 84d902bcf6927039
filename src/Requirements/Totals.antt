-- ===== src/Requirements/Totals.antt =====
-- src/apps/requirements/engine.py, `summary` and `set_manual`: what the status of an object tells.
use objekt_bernahme_automati.Prelude.{
  ℕ, ◌+◌, ◌*◌, ◌/◌, ◌%◌, ◌≤◌, ◌<◌, ◌≡◌, ◌≢◌, ◌↔◌, refl, sym, ap, inl, inr, Bool, true, false, not,
  ◌&&◌, Option, none, some, List, [], ◌∷◌, String, arith, Bool-cases, length, is_blank,
}
use objekt_bernahme_automati.Prelude.Table.{count, select, exists}
use objekt_bernahme_automati.Requirements.Calendar.{Settings}
use objekt_bernahme_automati.Requirements.Spec.{
  FindingStatus, missing, partial, fulfilled, not_applicable,
}
use objekt_bernahme_automati.Requirements.Rental.{CompletenessCheck}
use objekt_bernahme_automati.Requirements.Evaluate.{Finding, is_of, has_value}
use objekt_bernahme_automati.Requirements.Findings.{
  StatusCounts, rounded, ratio_of, status_of, complete, mostly_complete, summary, counts_for,
  counts_of, effective_status, status_or, is_recommendation, is_consequential, is_blocking_missing,
  recommended_as, Outcome, ok, refused, set_manual, is_manual_status,
}

divided : (n b : ℕ) → 0 < b → (n / b * b + n % b ≡ n) × (n % b < b)
divided n b h = (grind arith, grind arith)

below : (q r a b : ℕ) → q * b + r ≡ a * 10000 → a < b → q < 10000
below q r a b e h = grind arith

nearly : (q r a b : ℕ) → q * b + r ≡ a * 10000 → a < b → b < 20000 → r < b → 9999 ≤ q → 2 * r < b
nearly q r a b e h k l m = grind arith

-- A part of less than 20000 that is not the whole is not rounded to 1.
rounded_lt : (a b : ℕ) → a < b → b < 20000 → rounded a b < 10000
unfolding rounded
rounded_lt a b h k =
    let d = divided (a * 10000) b (omega arith) in
    let q = a * 10000 / b in
    let r = a * 10000 % b in ground (arith, below q r a b d.0 h, nearly q r a b d.0 h k d.1)

whole : (q r a : ℕ) → q * a + r ≡ a * 10000 → r < a → 10000 ≤ q
whole q r a e h = grind arith

rounded_full : (a b : ℕ) → a ≡ b → 0 < b → 10000 ≤ rounded a b
unfolding rounded
rounded_full a b e h =
    let d = divided (a * 10000) b h in let f : 10000 ≤ a * 10000 / b = grind arith in ground arith

status_complete :
    (pct : ℕ) (blocking : Bool) (c : StatusCounts)
    → c.fulfilled_count + c.partial_count + c.missing_count < 20000
    → (status_of pct blocking (ratio_of c) ≡ complete)
      ↔ ((0 < c.fulfilled_count) × (c.partial_count ≡ 0) × (c.missing_count ≡ 0))
status_complete pct blocking c h =
    let f = c.fulfilled_count in
    let n = f + c.partial_count + c.missing_count in
    (λ e. ground (arith, rounded_lt f n), λ e. ground (arith, rounded_full f n))

-- The status of an object is `complete` exactly when at least one finding that counts is
-- fulfilled, and none is partial or missing; a finding counts if it is neither a recommendation
-- nor a consequence of another one. This holds for fewer than 20000 findings that are applicable.
pub summary-complete :
    (cfg : Settings) (checks : List CompletenessCheck) (object : ℕ) (rows : List Finding)
    → let c = counts_of counts_for (select (is_of object) rows) in
      c.fulfilled_count + c.partial_count + c.missing_count < 20000
      → ((summary cfg checks object rows).status ≡ complete) ↔ (
          (0 < count (counts_for fulfilled) (select (is_of object) rows))
          × (count (counts_for partial) (select (is_of object) rows) ≡ 0)
          × (count (counts_for missing) (select (is_of object) rows) ≡ 0))
unfolding summary
summary-complete cfg checks object rows h =
    status_complete cfg.mostly_complete_pct
      (exists (is_blocking_missing checks) (select (is_of object) rows))
      (counts_of counts_for (select (is_of object) rows)) h

-- An object with a missing finding that is blocking is never `mostly_complete`.
pub summary_blocked :
    (cfg : Settings) (checks : List CompletenessCheck) (object : ℕ) (rows : List Finding)
    → exists (is_blocking_missing checks) (select (is_of object) rows) ≡ true
    → (summary cfg checks object rows).status ≢ mostly_complete
unfolding summary
summary_blocked cfg checks object rows h = ground arith

-- Each finding of an object is counted in one place: the four counts, the four counts of the
-- recommendations, and the consequential findings that are no recommendations add up to the
-- number of its findings.
pub summary_counts :
    (cfg : Settings) (checks : List CompletenessCheck) (object : ℕ) (rows : List Finding)
    → let s = summary cfg checks object rows in
      let findings = select (is_of object) rows in
      s.counts.fulfilled_count
        + s.counts.partial_count
        + s.counts.missing_count
        + s.counts.not_applicable_count
        + s.catalog.fulfilled_count
        + s.catalog.partial_count
        + s.catalog.missing_count
        + s.catalog.not_applicable_count
        + count (λ f. not (is_recommendation f) && is_consequential f) findings
      ≡ length findings
unfolding summary
summary_counts cfg checks object rows = all_counted (select (is_of object) rows)
  where
    all_counted :
        (fs : List Finding)
        → let c = counts_of counts_for fs in
          let r = counts_of recommended_as fs in
          c.fulfilled_count
            + c.partial_count
            + c.missing_count
            + c.not_applicable_count
            + r.fulfilled_count
            + r.partial_count
            + r.missing_count
            + r.not_applicable_count
            + count (λ f. not (is_recommendation f) && is_consequential f) fs
          ≡ length fs
    all_counted [] = refl
    all_counted (f ∷ fs) = ground (arith, all_counted fs)

abbrev value : Finding → Outcome Finding → Finding
value f (refused r) = f
value f (ok g) = g

abbrev accepted : Outcome Finding → Bool
accepted (refused r) = false
accepted (ok g) = true

allowed :
    (user now : ℕ) (st : FindingStatus) (reason : String) (include : Option Bool) (f g : Finding)
    → is_manual_status (some st) ≡ true
    → set_manual user now (some st) reason include f ≡ ok g
    → (is_manual_status (some st) ≡ true)
      × ((has_value (some st) && is_blank reason) ≡ false)
      × (effective_status g ≡ status_or (some st) f.status)
      × (g.status ≡ f.status)
unfolding set_manual
allowed user now st reason include f g a h = elim (Bool-cases (is_blank reason)) [
  | inl b ↦ let e : false ≡ true = rw (a, b) at (ap accepted h) in absurd (ground arith)
  | inr b ↦
      let p : st ≡ effective_status g = rw (a, b) at (ap (λ o. effective_status (value f o)) h) in
      let q : f.status ≡ g.status = rw (a, b) at (ap (λ o. (value f o).status) h) in
      (a, b, sym p, sym q)
]

-- A status set by hand counts: if set_manual accepts a status, the status is one of the three that
-- may be set, the reason is not empty, and the finding's effective status is the one given; taken
-- back, the effective status is again the one of the rules. What the rules said stays.
pub set_manual_lem :
    (user now : ℕ) (status : Option FindingStatus) (reason : String) (include : Option Bool)
    (f g : Finding)
    → set_manual user now status reason include f ≡ ok g
    → (is_manual_status status ≡ true)
      × ((has_value status && is_blank reason) ≡ false)
      × (effective_status g ≡ status_or status f.status)
      × (g.status ≡ f.status)
unfolding set_manual
set_manual_lem user now none reason include f g h =
    let e = ap (value f) h in (refl, refl, rw (← e) refl, rw (← e) refl)
set_manual_lem user now (some missing) reason include f g h = cc
set_manual_lem user now (some partial) reason include f g h =
    allowed user now partial reason include f g refl h
set_manual_lem user now (some fulfilled) reason include f g h =
    allowed user now fulfilled reason include f g refl h
set_manual_lem user now (some not_applicable) reason include f g h =
    allowed user now not_applicable reason include f g refl h
