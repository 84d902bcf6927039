-- ===== src/Requirements/Example.antt =====
-- An object with one unit, its findings, and a letter about one of them.
use objekt_bernahme_automati.Prelude.{
  ℕ, refl, true, false, Option, none, some, List, [], ◌∷◌, String, decimal,
}
use objekt_bernahme_automati.Requirements.Calendar.{date, Settings, ManagedObject, Period}
use objekt_bernahme_automati.Requirements.Spec.{
  position_key, FindingStatus, missing, fulfilled, not_applicable, object_scope, unit_scope,
  hint_only, Spec,
}
use objekt_bernahme_automati.Requirements.Data.{ManagedUnit, Owner, Assignment, Tables}
use objekt_bernahme_automati.Requirements.Rental.{CompletenessCheck}
use objekt_bernahme_automati.Requirements.Evaluate.{
  Finding, Findings, Texts, evaluate_object, Counts,
}
use objekt_bernahme_automati.Requirements.Entry.{HasUniqueKeys}
use objekt_bernahme_automati.Requirements.Weg.{negative_proof_hint}
use objekt_bernahme_automati.Requirements.Spec.{object_spec}
use objekt_bernahme_automati.Requirements.Requests.{DocumentRequest, approved}

abbrev pub cfg : Settings
cfg = record {
  default_period_years = 3;
  statement_expected_after = 30 ∷ 6 ∷ [];
  contact_channels_required = 1;
  mostly_complete_pct = 90;
}

abbrev pub texts : Texts
texts = record { mismatch = λ units. "Summe"; show_date = λ d. decimal d }

abbrev pub house : ManagedObject
house = record {
  id = 1;
  management_type = "weg";
  fiscal_year_start_month = some 1;
  takeover_from = some (date 2024 1 1);
  takeover_to = some (date 2026 7 1);
  expected_unit_count = some 1;
  sepa_used = some false;
  special_levies_in_period = none;
}

abbrev pub period : Period
period = record {
  start = date 2024 1 1;
  end = date 2026 7 1;
  years = 2024 ∷ 2025 ∷ 2026 ∷ [];
  plan_years = 2024 ∷ 2025 ∷ 2026 ∷ [];
  fiscal_start_month = 1;
  hints = [];
  provisional = false;
  reference = date 2026 7 1;
}

abbrev flat : ManagedUnit
flat = record {
  id = 10;
  object = 1;
  unit_label = "WE 1";
  unit_label_normalized = "we1";
  status = "active";
  is_deleted = false;
  co_ownership_share = some 10000000;
  co_ownership_share_base = some 1000;
  se_managed = none;
  vacancy_confirmed = none;
}

abbrev anna : Owner
anna = record {
  id = 7;
  correspondence_street = some "Weg 1";
  correspondence_postal_code = some "40789";
  correspondence_city = none;
  email = some "a@b.de";
  phone = none;
  mobile = none;
  sepa_mandate_present = none;
  data_status = "confirmed";
}

abbrev owns : Assignment
owns = record {
  id = 20;
  object = 1;
  unit_id = 10;
  owner = anna;
  valid_from = some 738000;
  valid_to = none;
  data_status = "confirmed";
  has_balance_at_takeover = true;
  source_document_id = none;
  source_document_type = none;
  is_deleted = false;
}

abbrev pub tables : Tables
tables = record {
  units = flat ∷ [];
  assignments = owns ∷ [];
  provenance = λ owner field. none;
  links = [];
  documents = [];
  batches = [];
  matched = [];
  tenancies = [];
}

abbrev check : String → CompletenessCheck
check code = record {
  code = code;
  scope_type = unit_scope;
  management_types = "weg" ∷ [];
  evidence_document_types = [];
  category = some "eigentuemer";
  blocking = true;
  sort_order = 1;
  is_active = true;
}

abbrev pub checks : List CompletenessCheck
checks = check "owner_per_unit" ∷ check "dunning_procedure" ∷ check "addresses" ∷ []

abbrev pub row : ℕ → String → Option ℕ → FindingStatus → Option FindingStatus → Finding
row id code unit st manual = record {
  id = id;
  object = 1;
  check_code = code;
  scope_type = elim unit [ none ↦ object_scope | some u ↦ unit_scope ];
  unit_id = unit;
  assignment_id = none;
  period_year = none;
  status = st;
  evidence_document_id = none;
  evidence_link_id = none;
  details = hint_only "früher";
  include_in_request = true;
  manual_status = manual;
  manual_reason = none;
  manual_by = none;
  manual_at = none;
  last_evaluated_at = 5;
}

-- A finding that is out of date, one that is set by hand, and two without a rule.
abbrev pub stored : Findings
stored = record {
  rows =
      row 1 "owner_per_unit" (some 10) missing none
      ∷ row 2 "dunning_procedure" none missing (some not_applicable)
      ∷ row 3 "owner_per_unit" (some 11) missing none
      ∷ row 4 "owner_per_unit" (some 12) missing (some fulfilled)
      ∷ [];
  next_id = 5;
}

abbrev pub first_run : Counts × Findings
first_run = evaluate_object cfg texts checks tables house period (date 2026 8 1) 100 stored

abbrev pub owner_key : String
owner_key = "owner_per_unit|unit|10|0|0"

abbrev pub dunning_key : String
dunning_key = "dunning_procedure|object|0|0|0"

abbrev pub letter_sent : DocumentRequest
letter_sent = record {
  id = 1;
  object = 1;
  version = 1;
  status = approved;
  subject = "Nachforderung";
  body = "Text";
  recipient = record {
    name = "Vorverwaltung";
    street = some "Straße 1";
    house_number = none;
    postal_code = some "40789";
    city = some "Monheim";
    contact_person = none;
    reference = none;
  };
  finding_ids = 1 ∷ 2 ∷ [];
  findings_snapshot = [];
  deadline_date = some "2026-09-30";
  content_hash = some "abc";
  reviewed_by = some 1;
  reviewed_at = some 1;
  approved_by = some 2;
  approved_at = some 2;
  sent_at = none;
  marked_sent_by = none;
  sent_channel_note = none;
  withdrawn_by = none;
  withdrawn_at = none;
}

abbrev pub dunning_spec : Spec
dunning_spec = record (object_spec "dunning_procedure" missing negative_proof_hint) {
  details = record (hint_only negative_proof_hint) { negative_proof = true };
}

pub stored-HasUniqueKeys : HasUniqueKeys stored.rows
unfolding position_key
stored-HasUniqueKeys = ((refl, (refl, (refl, tt))), ((refl, (refl, tt)), ((refl, tt), (tt, tt))))
