-- ===== src/Requirements/Entry.antt =====
-- src/apps/requirements/engine.py, `evaluate_object`: what the table of findings says of a position,
-- without the rows' ids and order, and what a run makes of it.
use objekt_bernahme_automati.Prelude.{
  ℕ, ◌≡◌, inl, inr, Bool, false, not, Option, none, some, List, [], ◌∷◌, String, if◌then◌else◌, All,
  Bool-cases,
}
use objekt_bernahme_automati.Prelude.Table.{find}
use mathlib.Core.Option
use objekt_bernahme_automati.Requirements.Spec.{FindingStatus, Details, Spec}
use objekt_bernahme_automati.Requirements.Evaluate.{
  Finding, rewritten, has_value, at_key, finding_key, is_same,
}
use objekt_bernahme_automati.Requirements.Equality.{is_same_eq}

-- The columns of a position.
pub record Entry : Type 0 where
  pub status : FindingStatus
  pub details : Details
  pub evidence_document_id : Option ℕ
  pub evidence_link_id : Option ℕ
  pub include_in_request : Bool
  pub manual_status : Option FindingStatus
  pub manual_reason : Option String
  pub manual_by : Option ℕ
  pub manual_at : Option ℕ
  pub last_evaluated_at : ℕ

unfoldable pub entry : Finding → Entry
entry f = record {
  status = f.status;
  details = f.details;
  evidence_document_id = f.evidence_document_id;
  evidence_link_id = f.evidence_link_id;
  include_in_request = f.include_in_request;
  manual_status = f.manual_status;
  manual_reason = f.manual_reason;
  manual_by = f.manual_by;
  manual_at = f.manual_at;
  last_evaluated_at = f.last_evaluated_at;
}

-- The entry of a position of an object.
abbrev pub entry_at : ℕ → String → List Finding → Option Entry
entry_at object k rows = Option.map entry (find (at_key object k) rows)

-- A position that is new: nothing is set by hand.
abbrev pub first_entry : ℕ → Spec → Entry
first_entry now s = record {
  status = s.status;
  details = s.details;
  evidence_document_id = s.evidence_document_id;
  evidence_link_id = s.evidence_link_id;
  include_in_request = not s.details.recommendation;
  manual_status = none;
  manual_reason = none;
  manual_by = none;
  manual_at = none;
  last_evaluated_at = now;
}

-- What a run makes of a position: the rules decide the status, the details and the evidence, and
-- what was set by hand stays, with or without a rule.
abbrev pub evaluated : ℕ → Option Spec → Option Entry → Option Entry
evaluated now none none = none
evaluated now none (some e) = if has_value e.manual_status then some e else none
evaluated now (some s) none = some (first_entry now s)
evaluated now (some s) (some e) = some (record e {
  status = s.status;
  details = s.details;
  evidence_document_id = s.evidence_document_id;
  evidence_link_id = s.evidence_link_id;
  last_evaluated_at = now;
})

-- The constraint `uq_findings_position`: an object has one row for a position.
abbrev pub HasUniqueKeys : List Finding → Type 0
HasUniqueKeys [] = Unit
HasUniqueKeys (f ∷ rows) =
    All (λ g. at_key f.object (finding_key f) g ≡ false) rows × HasUniqueKeys rows

pub entry-rewritten :
    (now : ℕ) (s : Spec) (f : Finding)
    → some (entry (rewritten now s f)) ≡ evaluated now (some s) (some (entry f))
unfolding rewritten entry
entry-rewritten now s f = elim (Bool-cases (is_same f s)) [
  | inl h ↦ let (a, b, c, d) = is_same_eq f s h in rw h (rw (a, b, c, d))
  | inr h ↦ rw h
]
