-- ===== src/Requirements/RunTests.antt =====
-- Runs of the completeness engine over the findings of an object.
use objekt_bernahme_automati.Prelude.{◌≡◌, refl, true, none, some, List, ◌<◌, ◌↔◌, arith}
use objekt_bernahme_automati.Prelude.Table.{select, count}
use mathlib.Core.Option
use objekt_bernahme_automati.Requirements.Calendar.{date}
use objekt_bernahme_automati.Parties.Period.{year_start}
use objekt_bernahme_automati.Requirements.Spec.{
  position_key, missing, partial, fulfilled, not_applicable, hint_only,
}
use objekt_bernahme_automati.Requirements.Evaluate.{Finding, evaluate_object, Counts, is_of}
use objekt_bernahme_automati.Requirements.Entry.{Entry, entry_at, evaluated, HasUniqueKeys}
use objekt_bernahme_automati.Requirements.Refinement.{rule_for, evaluate_object-entry_at}
use objekt_bernahme_automati.Requirements.Uniqueness.{evaluate_object-HasUniqueKeys}
use objekt_bernahme_automati.Requirements.Again.{evaluate_object_again, manual_status_stays}
use objekt_bernahme_automati.Requirements.Entry.{entry}
use objekt_bernahme_automati.Requirements.Findings.{summary, complete, counts_for, set_manual, ok}
use objekt_bernahme_automati.Requirements.Totals.{summary-complete}
use objekt_bernahme_automati.Requirements.Example.{
  stored-HasUniqueKeys, cfg, texts, house, period, tables, checks, row, stored, first_run,
  owner_key, dunning_key,
}

first_counts :
    (evaluate_object cfg texts checks tables house period (date 2026 8 1) 100 stored).0
    ≡ record { findings = 4; created = 2; changed = 2; unchanged = 0; removed = 1 }
unfolding evaluate_object year_start
first_counts = refl

evaluate_object-entry_at_example :
    entry_at 1 owner_key first_run.1.rows
    ≡ evaluated 100
        (rule_for cfg texts checks tables house period (date 2026 8 1) owner_key)
        (entry_at 1 owner_key stored.rows)
evaluate_object-entry_at_example =
    evaluate_object-entry_at cfg texts checks tables house period (date 2026 8 1) 100 stored
      stored-HasUniqueKeys 1 owner_key

evaluate_object-HasUniqueKeys_example : HasUniqueKeys first_run.1.rows
evaluate_object-HasUniqueKeys_example =
    evaluate_object-HasUniqueKeys cfg texts checks tables house period (date 2026 8 1) 100 stored
      stored-HasUniqueKeys

abbrev second_counts : Counts
second_counts =
    (evaluate_object cfg texts checks tables house period (date 2026 8 1) 200 first_run.1).0

evaluate_object_again_example :
    (second_counts.created ≡ 0) × (second_counts.changed ≡ 0) × (second_counts.removed ≡ 0)
evaluate_object_again_example =
    evaluate_object_again cfg texts checks tables house period (date 2026 8 1) 100 200 stored
      stored-HasUniqueKeys

abbrev dunning_entry : Entry
dunning_entry = record {
  status = missing;
  details = hint_only "früher";
  evidence_document_id = none;
  evidence_link_id = none;
  include_in_request = true;
  manual_status = some not_applicable;
  manual_reason = none;
  manual_by = none;
  manual_at = none;
  last_evaluated_at = 5;
}

dunning_stored : entry_at 1 dunning_key stored.rows ≡ some dunning_entry
unfolding position_key entry
dunning_stored = refl

manual_status_stays_example :
    Option.map (λ (d : Entry). d.manual_status) (entry_at 1 dunning_key first_run.1.rows)
    ≡ some (some not_applicable)
manual_status_stays_example =
    manual_status_stays cfg texts checks tables house period (date 2026 8 1) 100 stored
      stored-HasUniqueKeys dunning_key dunning_entry not_applicable dunning_stored refl

abbrev of_house : List Finding
of_house = select (is_of 1) stored.rows

summary-complete_example : ((summary cfg checks 1 stored.rows).status ≡ complete) ↔ (
    (0 < count (counts_for fulfilled) of_house)
    × (count (counts_for partial) of_house ≡ 0)
    × (count (counts_for missing) of_house ≡ 0))
summary-complete_example = summary-complete cfg checks 1 stored.rows (omega arith)

abbrev to_set : Finding
to_set = row 1 "owner_per_unit" (some 10) missing none

abbrev was_set : Finding
was_set = record to_set {
  manual_status = some partial;
  manual_reason = some "unvollständig";
  manual_by = some 3;
  manual_at = some 100;
}

set_it : set_manual 3 100 (some partial) "unvollständig" none to_set ≡ ok was_set
unfolding set_manual
set_it = refl
