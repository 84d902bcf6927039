-- ===== src/Requirements/Spec.antt =====
-- src/apps/requirements/engine.py and models.py: the states of a requirement, and what the rules say
-- of one position. `Details` is the JSON object in the column `details`: a text, list or number that
-- is absent is `none`, an absent mark is `false`.
use objekt_bernahme_automati.Prelude.{
  ℕ, Bool, true, false, ◌&&◌, Option, none, some, List, [], ◌∷◌, String, ◌<>◌, str_eq, ◌==◌,
  decimal,
}

pub data FindingStatus : Type 0 where
  missing partial fulfilled not_applicable : FindingStatus

pub data ScopeType : Type 0 where
  object_scope unit_scope assignment_scope : ScopeType

abbrev pub scope_value : ScopeType → String
scope_value object_scope = "object"
scope_value unit_scope = "unit"
scope_value assignment_scope = "assignment"

pub record Details : Type 0 where
  pub hint : Option String
  pub consequential : Bool
  pub negative_proof : Bool
  pub recommendation : Bool
  pub provisional : Bool
  pub tenant : Option String
  pub units : Option ℕ
  pub expected : Option (Option ℕ)
  pub assignments : Option (List ℕ)
  pub requested_at : Option String
  pub requested_deadline : Option (Option String)
  pub request_version : Option ℕ

-- `{"hint": hint}`
abbrev pub hint_only : String → Details
hint_only hint = record {
  hint = some hint;
  consequential = false;
  negative_proof = false;
  recommendation = false;
  provisional = false;
  tenant = none;
  units = none;
  expected = none;
  assignments = none;
  requested_at = none;
  requested_deadline = none;
  request_version = none;
}

-- What a rule says of one position.
pub record Spec : Type 0 where
  pub check_code : String
  pub scope_type : ScopeType
  pub status : FindingStatus
  pub unit_id : Option ℕ
  pub assignment_id : Option ℕ
  pub period_year : Option ℕ
  pub details : Details
  pub evidence_document_id : Option ℕ
  pub evidence_link_id : Option ℕ

abbrev pub or_zero : Option ℕ → ℕ
or_zero none = 0
or_zero (some n) = n

-- The columns of a position, as the key joins them.
unfoldable pub position_key : String → ScopeType → Option ℕ → Option ℕ → Option ℕ → String
position_key code scope unit assignment year =
    code
    <> "|"
    <> scope_value scope
    <> "|"
    <> decimal (or_zero unit)
    <> "|"
    <> decimal (or_zero assignment)
    <> "|"
    <> decimal (or_zero year)

unfoldable pub key : Spec → String
unfolding position_key
key s = position_key s.check_code s.scope_type s.unit_id s.assignment_id s.period_year

abbrev pub object_spec : String → FindingStatus → String → Spec
object_spec code st hint = record {
  check_code = code;
  scope_type = object_scope;
  status = st;
  unit_id = none;
  assignment_id = none;
  period_year = none;
  details = hint_only hint;
  evidence_document_id = none;
  evidence_link_id = none;
}

abbrev pub unit_spec : String → FindingStatus → ℕ → String → Spec
unit_spec code st unit hint = record {
  check_code = code;
  scope_type = unit_scope;
  status = st;
  unit_id = some unit;
  assignment_id = none;
  period_year = none;
  details = hint_only hint;
  evidence_document_id = none;
  evidence_link_id = none;
}

abbrev pub assignment_spec : String → FindingStatus → ℕ → ℕ → Option ℕ → String → Spec
assignment_spec code st unit assignment year hint = record {
  check_code = code;
  scope_type = assignment_scope;
  status = st;
  unit_id = some unit;
  assignment_id = some assignment;
  period_year = year;
  details = hint_only hint;
  evidence_document_id = none;
  evidence_link_id = none;
}

abbrev pub is_missing : FindingStatus → Bool
is_missing missing = true
is_missing _ = false

abbrev pub is_fulfilled : FindingStatus → Bool
is_fulfilled fulfilled = true
is_fulfilled _ = false

abbrev pub same_status : FindingStatus → FindingStatus → Bool
same_status missing missing = true
same_status partial partial = true
same_status fulfilled fulfilled = true
same_status not_applicable not_applicable = true
same_status _ _ = false

abbrev pub same_option : {A : Type 0} → (A → A → Bool) → Option A → Option A → Bool
same_option eq none none = true
same_option eq (some a) (some b) = eq a b
same_option eq _ _ = false

abbrev pub same_list : List ℕ → List ℕ → Bool
same_list [] [] = true
same_list (a ∷ xs) (b ∷ ys) = (a == b) && same_list xs ys
same_list _ _ = false

abbrev pub same_bool : Bool → Bool → Bool
same_bool true b = b
same_bool false true = false
same_bool false false = true

-- `==` of two JSON objects.
unfoldable pub same_details : Details → Details → Bool
same_details a b =
    same_option str_eq a.hint b.hint
    && same_bool a.consequential b.consequential
    && same_bool a.negative_proof b.negative_proof
    && same_bool a.recommendation b.recommendation
    && same_bool a.provisional b.provisional
    && same_option str_eq a.tenant b.tenant
    && same_option ◌==◌ a.units b.units
    && same_option (same_option ◌==◌) a.expected b.expected
    && same_option same_list a.assignments b.assignments
    && same_option str_eq a.requested_at b.requested_at
    && same_option (same_option str_eq) a.requested_deadline b.requested_deadline
    && same_option ◌==◌ a.request_version b.request_version
