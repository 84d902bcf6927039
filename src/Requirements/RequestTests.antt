-- ===== src/Requirements/RequestTests.antt =====
-- The life of a letter, and the runs of the completeness engine after it.
use objekt_bernahme_automati.Prelude.{◌≡◌, refl, none, some, [], ◌∷◌, String}
use objekt_bernahme_automati.Requirements.Calendar.{date}
use objekt_bernahme_automati.Parties.Period.{year_start}
use objekt_bernahme_automati.Requirements.Spec.{position_key, key}
use objekt_bernahme_automati.Requirements.Evaluate.{evaluate_object}
use objekt_bernahme_automati.Requirements.Refinement.{rule_for}
use objekt_bernahme_automati.Prelude.{◌<>◌}
use objekt_bernahme_automati.Requirements.Data.{load}
use objekt_bernahme_automati.Requirements.Evaluate.{rule_specs}
use objekt_bernahme_automati.Requirements.Requests as Requests
use objekt_bernahme_automati.Requirements.Requests.{
  DocumentRequest, Letter, draft, reviewed, approved, withdrawn, create_request, mark_reviewed,
  mark_sent, withdraw,
}
use objekt_bernahme_automati.Requirements.Approval.{
  IsSound, IsFrozen, Steps-IsSound, Steps-IsFrozen, next, done, marked_reviewed, was_withdrawn,
}
use objekt_bernahme_automati.Requirements.Forgotten.{marks_at, request_forgotten}
use objekt_bernahme_automati.Requirements.Marks.{no_marks}
use objekt_bernahme_automati.Prelude.Table.{find}
use objekt_bernahme_automati.Requirements.Spec.{missing, not_applicable}
use objekt_bernahme_automati.Requirements.Evaluate.{at_key}
use objekt_bernahme_automati.Requirements.Example.{
  stored-HasUniqueKeys, cfg, texts, house, period, tables, checks, stored, row, dunning_key,
  letter_sent, dunning_spec,
}

dunning_rule :
    rule_for cfg texts checks tables house period (date 2026 8 1) dunning_key ≡ some dunning_spec
unfolding load rule_specs key position_key year_start
dunning_rule = refl

dunning_row :
    find (at_key 1 dunning_key) stored.rows
    ≡ some (row 2 "dunning_procedure" none missing (some not_applicable))
unfolding position_key
dunning_row = refl

request_forgotten_example :
    let t' = (mark_sent 3 150 "2026-08-01" "Post" letter_sent stored).1 in
    (marks_at 1 dunning_key t' ≡ some (some "2026-08-01", some (some "2026-09-30"), some 1))
    × (marks_at 1 dunning_key
          (evaluate_object cfg texts checks tables house period (date 2026 8 1) 200 t').1
        ≡ some no_marks)
request_forgotten_example =
    request_forgotten cfg texts checks tables house period (date 2026 8 1) 3 150 200 "2026-08-01"
      "Post" letter_sent stored stored-HasUniqueKeys dunning_key dunning_spec
      (row 2 "dunning_procedure" none missing (some not_applicable)) dunning_rule refl dunning_row
      refl

abbrev hash : DocumentRequest → String
hash r = r.subject <> r.body

abbrev letter : Letter
letter = record {
  subject = "Nachforderung";
  body = "Text";
  positions = record { finding_id = 1; line = "Eigentümerliste"; group = "Eigentümer" } ∷ [];
}

abbrev created_letter : DocumentRequest
created_letter = record letter_sent {
  status = draft;
  finding_ids = 1 ∷ [];
  findings_snapshot = letter.positions;
  content_hash = some "NachforderungText";
  reviewed_by = none;
  reviewed_at = none;
  approved_by = none;
  approved_at = none;
}

abbrev reviewed_letter : DocumentRequest
reviewed_letter = record created_letter {
  status = reviewed;
  reviewed_by = some 3;
  reviewed_at = some 10;
}

created_it :
    create_request hash 1 1 letter (some "2026-09-30") letter_sent.recipient []
    ≡ Requests.ok created_letter
unfolding create_request
created_it = refl

reviewed_it : mark_reviewed hash 3 10 created_letter ≡ Requests.ok reviewed_letter
unfolding mark_reviewed
reviewed_it = refl

Steps-IsSound_example : IsSound reviewed_letter
Steps-IsSound_example =
    Steps-IsSound hash 1 1 letter (some "2026-09-30") letter_sent.recipient [] created_letter
      reviewed_letter created_it
      (next created_letter reviewed_letter done (marked_reviewed 3 10 reviewed_it))

abbrev withdrawn_letter : DocumentRequest
withdrawn_letter = record letter_sent {
  status = withdrawn;
  withdrawn_by = some 3;
  withdrawn_at = some 10;
}

withdrawn_it : withdraw 3 10 "veraltet" letter_sent ≡ Requests.ok withdrawn_letter
unfolding withdraw
withdrawn_it = refl

Steps-IsFrozen_example : IsFrozen letter_sent withdrawn_letter
Steps-IsFrozen_example =
    Steps-IsFrozen hash letter_sent withdrawn_letter refl
      (next letter_sent withdrawn_letter done (was_withdrawn 3 10 "veraltet" withdrawn_it))
