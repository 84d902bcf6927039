-- ===== src/Requirements/Links.antt =====
-- src/apps/requirements/engine.py: the documents that stand for a position, and the two builders.
use objekt_bernahme_automati.Prelude.{
  ℕ, Bool, true, false, not, ◌&&◌, ◌||◌, Option, none, some, List, [], ◌∷◌, String, str_eq, ◌==◌,
  if◌then◌else◌, is_blank,
}
use objekt_bernahme_automati.Prelude.Table.{select, order_by}
use objekt_bernahme_automati.Requirements.Spec.{
  missing, partial, fulfilled, Spec, object_spec, assignment_spec,
}
use objekt_bernahme_automati.Requirements.Data.{
  text_in, Owner, Assignment, OwnerLink, Document, Data,
}

abbrev same_id : Option ℕ → ℕ → Bool
same_id none k = false
same_id (some i) k = i == k

abbrev of_types : List String → Option String → Bool
of_types types none = false
of_types types (some t) = text_in t types

abbrev in_year : Option ℕ → Option ℕ → Bool
in_year none link_year = true
in_year (some y) none = false
in_year (some y) (some link_year) = link_year == y

-- A link is the assignment's, directly or by its unit and its owner.
abbrev pub links_to : Assignment → OwnerLink → Bool
links_to a l =
    same_id l.assignment_id a.id || (same_id l.unit_id a.unit_id && same_id l.owner_id a.owner.id)

-- The confirmed ones first, each part in the order of the table.
abbrev confirmed_first : OwnerLink → OwnerLink → Bool
confirmed_first a b = str_eq a.status "confirmed" || not (str_eq b.status "confirmed")

unfoldable pub links_for : Data → Assignment → List String → Option ℕ → List OwnerLink
links_for d a types year = order_by confirmed_first (
    select
      (λ (l : OwnerLink).
        of_types types l.document_type && in_year year l.period_year && links_to a l)
      d.links)

abbrev or_status : Option String → String → String
or_status none status = status
or_status (some s) status = if is_blank s then status else s

-- The state of a field that is filled; none of an empty one.
abbrev pub field_status : Data → Owner → String → Option String → Option String
field_status d o field none = none
field_status d o field (some value) =
    if is_blank value then none else some (or_status (d.provenance o.id field) o.data_status)

-- `_link_spec`, of an assignment's links: the first one decides.
abbrev pub link_spec : String → Assignment → List OwnerLink → Option ℕ → String → Spec
link_spec check a [] year missing_hint =
    assignment_spec check missing a.unit_id a.id year missing_hint
link_spec check a (best ∷ links) year missing_hint =
    let confirmed = str_eq best.status "confirmed" in
    record (assignment_spec check (if confirmed then fulfilled else partial) a.unit_id a.id year
      (if confirmed then "" else "Verknüpfung noch nicht bestätigt")) {
        evidence_document_id = some best.document_id;
        evidence_link_id = some best.id;
      }

abbrev spec_of_review : String → List Document → String → Spec
spec_of_review check [] missing_hint = object_spec check missing missing_hint
spec_of_review check (d ∷ docs) missing_hint =
    record (object_spec check partial "Dokument vorhanden, Prüfung im Review Center offen") {
      evidence_document_id = some d.id;
    }

abbrev spec_of_confirmed : String → List Document → List Document → String → Spec
spec_of_confirmed check [] review missing_hint = spec_of_review check review missing_hint
spec_of_confirmed check (d ∷ docs) review missing_hint = record (object_spec check fulfilled "") {
  evidence_document_id = some d.id;
}

abbrev pub is_confirmed_document : Document → Bool
is_confirmed_document d = text_in d.status ("filed" ∷ "classified" ∷ [])

abbrev pub is_review_document : Document → Bool
is_review_document d = text_in d.status ("review" ∷ [])

-- `_doc_spec`
abbrev pub doc_spec : String → List Document → String → Spec
doc_spec check docs missing_hint =
    spec_of_confirmed check (select is_confirmed_document docs) (select is_review_document docs)
      missing_hint
