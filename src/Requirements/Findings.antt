-- ===== src/Requirements/Findings.antt =====
-- src/apps/requirements/engine.py, the section on the summary: the effective status of a finding, the
-- summary of an object, and the status that is set by hand.
use objekt_bernahme_automati.Prelude.{
  ℕ, zero, suc, ◌+◌, ◌*◌, ◌/◌, ◌%◌, Bool, true, false, not, ◌&&◌, ◌||◌, Option, none, some, List,
  [], ◌∷◌, String, str_eq, ltb, leb, ◌==◌, if◌then◌else◌, is_blank,
}
use objekt_bernahme_automati.Prelude.Table.{select, exists, find, count}
use objekt_bernahme_automati.Requirements.Calendar.{Settings}
use objekt_bernahme_automati.Requirements.Spec.{
  FindingStatus, missing, partial, fulfilled, not_applicable, same_status,
}
use objekt_bernahme_automati.Requirements.Rental.{CompletenessCheck}
use objekt_bernahme_automati.Requirements.Evaluate.{Finding, is_of, has_value}

abbrev pub status_or : Option FindingStatus → FindingStatus → FindingStatus
status_or none st = st
status_or (some m) st = m

abbrev pub effective_status : Finding → FindingStatus
effective_status f = status_or f.manual_status f.status

abbrev pub is_consequential : Finding → Bool
is_consequential f = f.details.consequential

abbrev pub is_recommendation : Finding → Bool
is_recommendation f = f.details.recommendation

abbrev pub has_effective : FindingStatus → Finding → Bool
has_effective st f = same_status (effective_status f) st

-- A finding that counts: not a recommendation, and no consequence of another finding.
abbrev pub counts_for : FindingStatus → Finding → Bool
counts_for st f = not (is_recommendation f) && not (is_consequential f) && has_effective st f

abbrev is_check : String → CompletenessCheck → Bool
is_check code c = str_eq c.code code

abbrev blocks : Option CompletenessCheck → Bool
blocks none = false
blocks (some c) = c.blocking

-- A missing finding whose check is blocking.
abbrev pub is_blocking_missing : List CompletenessCheck → Finding → Bool
is_blocking_missing checks f = counts_for missing f && blocks (find (is_check f.check_code) checks)

-- The counts by status; of the catalogue's recommendations they are kept apart.
pub record StatusCounts : Type 0 where
  pub fulfilled_count : ℕ
  pub partial_count : ℕ
  pub missing_count : ℕ
  pub not_applicable_count : ℕ

abbrev pub counts_of : (FindingStatus → Finding → Bool) → List Finding → StatusCounts
counts_of p findings = record {
  fulfilled_count = count (p fulfilled) findings;
  partial_count = count (p partial) findings;
  missing_count = count (p missing) findings;
  not_applicable_count = count (p not_applicable) findings;
}

abbrev pub recommended_as : FindingStatus → Finding → Bool
recommended_as st f = is_recommendation f && has_effective st f

pub data UnitStatus : Type 0 where
  unit_complete unit_partial unit_incomplete unit_not_evaluable : UnitStatus

pub record Bucket : Type 0 where
  pub unit : ℕ
  pub missing : ℕ
  pub partial : ℕ
  pub not_evaluable : Bool

abbrev is_owner_check : String → Bool
is_owner_check code = str_eq code "owner_per_unit" || str_eq code "tenant_per_unit"

-- What one finding adds to the bucket of its unit.
abbrev pub into_bucket : Finding → Bucket → Bucket
into_bucket f b =
    let eff = effective_status f in
    let plain = not (is_consequential f) in
    record b {
      missing = b.missing + (if plain && same_status eff missing then 1 else 0);
      partial = b.partial + (if plain && same_status eff partial then 1 else 0);
      not_evaluable = b.not_evaluable || (is_owner_check f.check_code && same_status eff missing);
    }

-- `per_unit.setdefault(f.unit_id, …)`, and then the counts of the finding.
unfoldable pub add_to_unit : ℕ → Finding → List Bucket → List Bucket
add_to_unit unit f [] =
    into_bucket f (record { unit = unit; missing = 0; partial = 0; not_evaluable = false }) ∷ []
add_to_unit unit f (b ∷ buckets) =
    let later = b ∷ add_to_unit unit f buckets in
    if b.unit == unit then into_bucket f b ∷ buckets else later

-- Recommendations and findings without a unit do not enter.
abbrev add_finding : Finding → Option ℕ → List Bucket → List Bucket
add_finding f none buckets = buckets
add_finding f (some zero) buckets = buckets
add_finding f (some (suc u)) buckets =
    if is_recommendation f then buckets else add_to_unit (suc u) f buckets

unfoldable pub per_unit : List Finding → List Bucket → List Bucket
unfolding add_to_unit
per_unit [] buckets = buckets
per_unit (f ∷ findings) buckets = per_unit findings (add_finding f f.unit_id buckets)

abbrev pub unit_status : Bucket → UnitStatus
unit_status b =
    if b.not_evaluable
    then unit_not_evaluable
    else if ltb 0 b.missing
    then unit_incomplete
    else if ltb 0 b.partial
    then unit_partial
    else unit_complete

pub data ObjectStatus : Type 0 where
  not_evaluated complete mostly_complete incomplete : ObjectStatus

-- `round(a / b, 4)` in ten-thousandths: to the nearest, a half to the even number.
unfoldable pub rounded : ℕ → ℕ → ℕ
rounded a b =
    let q = a * 10000 / b in
    let r = a * 10000 % b in if ltb (2 * r) b || ((2 * r == b) && (q % 2 == 0)) then q else q + 1

abbrev pub ratio_of : StatusCounts → Option ℕ
ratio_of c =
    let applicable = c.fulfilled_count + c.partial_count + c.missing_count in
    if applicable == 0 then none else some (rounded c.fulfilled_count applicable)

-- The ratio in ten-thousandths.
abbrev pub status_of : ℕ → Bool → Option ℕ → ObjectStatus
status_of pct blocking_missing none = not_evaluated
status_of pct blocking_missing (some ratio) =
    if leb 10000 ratio
    then complete
    else if leb (pct * 100) ratio && not blocking_missing
    then mostly_complete
    else incomplete

pub record Summary : Type 0 where
  pub status : ObjectStatus
  pub ratio : Option ℕ
  pub counts : StatusCounts
  pub units : List Bucket
  pub blocking_missing : Bool
  pub catalog : StatusCounts

-- `summary`; an object without findings has no ratio and is not evaluated.
unfoldable pub summary : Settings → List CompletenessCheck → ℕ → List Finding → Summary
unfolding per_unit rounded
summary cfg checks object rows =
    let findings = select (is_of object) rows in
    let counts = counts_of counts_for findings in
    let blocking_missing = exists (is_blocking_missing checks) findings in
    record {
      status = status_of cfg.mostly_complete_pct blocking_missing (ratio_of counts);
      ratio = ratio_of counts;
      counts = counts;
      units = per_unit findings [];
      blocking_missing = blocking_missing;
      catalog = counts_of recommended_as findings;
    }

-- The two messages of the ValueError.
pub data Refusal : Type 0 where
  status_not_allowed reason_missing : Refusal

pub data Outcome {ℓ} (A : Type ℓ) : Type ℓ where
  ok : A → Outcome A
  refused : Refusal → Outcome A

-- `status in (None, "", *MANUAL_STATUSES)`
abbrev pub is_manual_status : Option FindingStatus → Bool
is_manual_status none = true
is_manual_status (some missing) = false
is_manual_status (some st) = true

abbrev manual_set : ℕ → ℕ → Option FindingStatus → String → Finding → Finding
manual_set user now none reason f = record f {
  manual_status = none;
  manual_reason = none;
  manual_by = none;
  manual_at = none;
}
manual_set user now (some st) reason f = record f {
  manual_status = some st;
  manual_reason = some reason;
  manual_by = some user;
  manual_at = some now;
}

abbrev bool_or : Option Bool → Bool → Bool
bool_or none b = b
bool_or (some c) b = c

-- `set_manual`: an empty status takes the override back; the reason comes without the blanks at its
-- ends, an empty one is none. The row of the audit is not part of this model.
unfoldable pub set_manual :
    ℕ → ℕ → Option FindingStatus → String → Option Bool → Finding → Outcome Finding
set_manual user now status reason include_in_request f =
    if not (is_manual_status status)
    then refused status_not_allowed
    else if has_value status && is_blank reason
    then refused reason_missing
    else ok (record (manual_set user now status reason f) {
      include_in_request = bool_or include_in_request f.include_in_request;
    })
