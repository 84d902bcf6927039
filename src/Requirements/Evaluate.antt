-- ===== src/Requirements/Evaluate.antt =====
-- src/apps/requirements/engine.py, `evaluate_object`: the rules applied to an object, and the table of
-- findings brought up to date. Each finding has one place in the table; the four statements at the
-- end of the run are one pass over the rows and the new rows behind them.
use objekt_bernahme_automati.Prelude.{
  ℕ, suc, ◌+◌, Bool, true, false, not, ◌&&◌, Option, none, some, List, [], ◌∷◌, ◌++◌, String,
  str_eq, ◌==◌, if◌then◌else◌, map, length,
}
use objekt_bernahme_automati.Prelude.Table.{select, exists, find, count}
use objekt_bernahme_automati.Requirements.Calendar.{Date, ordinal, Settings, ManagedObject, Period}
use objekt_bernahme_automati.Requirements.Spec.{
  FindingStatus, ScopeType, Details, Spec, position_key, key, same_status, same_option,
  same_details,
}
use objekt_bernahme_automati.Requirements.Data.{ManagedUnit, Data, Tables, load, text_in}
use objekt_bernahme_automati.Requirements.Weg.{evaluate_weg}
use objekt_bernahme_automati.Requirements.Rental.{
  CompletenessCheck, evaluate_rental, evaluate_catalog,
}

-- A row of the table. `manual_by` is the id of a user.
pub record Finding : Type 0 where
  pub id : ℕ
  pub object : ℕ
  pub check_code : String
  pub scope_type : ScopeType
  pub unit_id : Option ℕ
  pub assignment_id : Option ℕ
  pub period_year : Option ℕ
  pub status : FindingStatus
  pub evidence_document_id : Option ℕ
  pub evidence_link_id : Option ℕ
  pub details : Details
  pub include_in_request : Bool
  pub manual_status : Option FindingStatus
  pub manual_reason : Option String
  pub manual_by : Option ℕ
  pub manual_at : Option ℕ
  pub last_evaluated_at : ℕ

-- The generated column `position_key`.
abbrev pub finding_key : Finding → String
finding_key f = position_key f.check_code f.scope_type f.unit_id f.assignment_id f.period_year

-- The table, and the next value of its id column.
pub record Findings : Type 0 where
  pub rows : List Finding
  pub next_id : ℕ

abbrev pub has_key : String → Spec → Bool
has_key k s = str_eq (key s) k

-- `by_key[s.key] = s`: an entry that is there keeps its place.
unfoldable pub put : Spec → List Spec → List Spec
unfolding key
put s [] = s ∷ []
put s (t ∷ entries) =
    let later = t ∷ put s entries in if has_key (key s) t then s ∷ entries else later

abbrev has_code : String → CompletenessCheck → Bool
has_code code c = str_eq c.code code

abbrev covers : String → Option CompletenessCheck → Bool
covers management_type none = false
covers management_type (some c) = all_types c.management_types
  where
    all_types : List String → Bool
    all_types [] = true
    all_types (t ∷ types) = text_in management_type (t ∷ types)

-- The check is active, and it is for the object's kind of management.
abbrev pub applies : List CompletenessCheck → String → Spec → Bool
applies checks management_type s = covers management_type (find (has_code s.check_code) checks)

-- The last spec of a key stays.
unfoldable pub put_all : List Spec → List Spec → List Spec
unfolding put
put_all [] entries = entries
put_all (s ∷ specs) entries = put_all specs (put s entries)

abbrev pub is_weg : String → Bool
is_weg t = text_in t ("weg" ∷ "weg_with_se" ∷ [])

abbrev pub is_se_managed : ManagedUnit → Bool
is_se_managed u = elim u.se_managed [ some b ↦ b | none ↦ false ]

abbrev pub rental_of_units : (List ManagedUnit → String) → Data → List ManagedUnit → List Spec
rental_of_units mismatch d [] = []
rental_of_units mismatch d (u ∷ units) = evaluate_rental mismatch d (u ∷ units) false

abbrev pub rental_specs : (List ManagedUnit → String) → Data → List Spec
rental_specs mismatch d =
    if str_eq d.obj.management_type "rental"
    then evaluate_rental mismatch d d.units true
    else if str_eq d.obj.management_type "weg_with_se"
    then rental_of_units mismatch d (select is_se_managed d.units)
    else []

-- The texts that the rules leave to the libraries: a wrong sum of shares, and a date.
pub record Texts : Type 0 where
  pub mismatch : List ManagedUnit → String
  pub show_date : ℕ → String

unfoldable pub rule_specs : Settings → Texts → List CompletenessCheck → Data → List Spec
unfolding evaluate_weg evaluate_rental evaluate_catalog
rule_specs cfg texts checks d =
    (if is_weg d.obj.management_type then evaluate_weg cfg texts.mismatch texts.show_date d else [])
    ++ rental_specs texts.mismatch d
    ++ evaluate_catalog d checks

abbrev pub marked : Bool → Spec → Spec
marked false s = s
marked true s = record s { details = record s.details { provisional = true } }

-- The dictionary `by_key`, in the order of its keys.
unfoldable pub specs_by_key : Settings → Texts → List CompletenessCheck → Data → List Spec
unfolding rule_specs put_all
specs_by_key cfg texts checks d =
    map (marked d.period.provisional)
      (put_all (select (applies checks d.obj.management_type) (rule_specs cfg texts checks d)) [])

abbrev pub same_id : Option ℕ → Option ℕ → Bool
same_id a b = same_option ◌==◌ a b

-- The finding says what the spec says.
abbrev pub is_same : Finding → Spec → Bool
is_same f s =
    same_status f.status s.status
    && same_details f.details s.details
    && same_id f.evidence_document_id s.evidence_document_id
    && same_id f.evidence_link_id s.evidence_link_id

unfoldable pub new_finding : ℕ → ℕ → ℕ → Spec → Finding
new_finding id object now s = record {
  id = id;
  object = object;
  check_code = s.check_code;
  scope_type = s.scope_type;
  unit_id = s.unit_id;
  assignment_id = s.assignment_id;
  period_year = s.period_year;
  status = s.status;
  evidence_document_id = s.evidence_document_id;
  evidence_link_id = s.evidence_link_id;
  details = s.details;
  include_in_request = not s.details.recommendation;
  manual_status = none;
  manual_reason = none;
  manual_by = none;
  manual_at = none;
  last_evaluated_at = now;
}

unfoldable pub rewritten : ℕ → Spec → Finding → Finding
unfolding same_details
rewritten now s f = if is_same f s then record f { last_evaluated_at = now } else record f {
  status = s.status;
  details = s.details;
  evidence_document_id = s.evidence_document_id;
  evidence_link_id = s.evidence_link_id;
  last_evaluated_at = now;
}

abbrev pub with_spec : ℕ → Finding → Option Spec → Finding
with_spec now f none = f
with_spec now f (some s) = rewritten now s f

abbrev pub spec_of : List Spec → Finding → Option Spec
spec_of specs f = find (has_key (finding_key f)) specs

abbrev pub is_of : ℕ → Finding → Bool
is_of object f = f.object == object

-- A row of the object is brought up to date, others stay.
abbrev pub refreshed : ℕ → ℕ → List Spec → Finding → Finding
refreshed object now specs f = if is_of object f then with_spec now f (spec_of specs f) else f

abbrev pub has_value : {A : Type 0} → Option A → Bool
has_value none = false
has_value (some a) = true

-- A row of the object that no rule gives any more, and that nobody has set by hand.
abbrev pub is_stale : ℕ → List Spec → Finding → Bool
is_stale object specs f =
    is_of object f && not (has_value (spec_of specs f)) && not (has_value f.manual_status)

-- `existing.get(key)`
abbrev pub at_key : ℕ → String → Finding → Bool
at_key object k f = is_of object f && str_eq (finding_key f) k

unfoldable pub new_rows : ℕ → ℕ → List Finding → ℕ → List Spec → List Finding
unfolding new_finding key
new_rows object now rows id [] = []
new_rows object now rows id (s ∷ specs) =
    let rest = new_rows object now rows id specs in
    let later = new_rows object now rows (suc id) specs in
    if exists (at_key object (key s)) rows then rest else new_finding id object now s ∷ later

-- The counts of the result.
pub record Counts : Type 0 where
  pub findings : ℕ
  pub created : ℕ
  pub changed : ℕ
  pub unchanged : ℕ
  pub removed : ℕ

abbrev pub agrees : Finding → Option Spec → Bool
agrees f none = false
agrees f (some s) = is_same f s

abbrev pub differs : Finding → Option Spec → Bool
differs f none = false
differs f (some s) = not (is_same f s)

unfoldable pub upsert : ℕ → ℕ → List Spec → Findings → Counts × Findings
unfolding new_rows rewritten key same_details
upsert object now specs t =
    let new = new_rows object now t.rows t.next_id specs in
    (
      record {
        findings = length specs;
        created = length new;
        changed = count (λ f. is_of object f && differs f (spec_of specs f)) t.rows;
        unchanged = count (λ f. is_of object f && agrees f (spec_of specs f)) t.rows;
        removed = count (is_stale object specs) t.rows;
      },
      record {
        rows =
            map (refreshed object now specs) (select (λ f. not (is_stale object specs f)) t.rows)
            ++ new;
        next_id = t.next_id + length new;
      },
    )

-- `evaluate_object`, for an object whose period can be told.
unfoldable pub evaluate_object :
    Settings
    → Texts
    → List CompletenessCheck
    → Tables
    → ManagedObject
    → Period
    → Date
    → ℕ
    → Findings
    → Counts × Findings
unfolding specs_by_key upsert load
evaluate_object cfg texts checks tables obj period today now t =
    upsert obj.id now (specs_by_key cfg texts checks (load tables obj period (ordinal today))) t
