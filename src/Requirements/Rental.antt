-- ===== src/Requirements/Rental.antt =====
-- src/apps/requirements/engine.py, `evaluate_rental` and `evaluate_catalog`: the catalogue for let
-- units, and the documents that a master file should have.
use objekt_bernahme_automati.Prelude.{
  ℕ, Bool, true, false, not, ◌&&◌, ◌||◌, Option, none, some, List, [], ◌∷◌, ◌++◌, String, ◌<>◌,
  str_eq, leb, if◌then◌else◌, decimal, map, flat_map, is_blank,
}
use objekt_bernahme_automati.Prelude.Table.{select, exists, order_by}
use objekt_bernahme_automati.Requirements.Spec.{
  FindingStatus, missing, partial, fulfilled, not_applicable, ScopeType, object_scope, hint_only,
  Spec, object_spec, unit_spec,
}
use objekt_bernahme_automati.Requirements.Data.{
  ManagedUnit, ImportBatch, Lease, Tenancy, Data, tenants_by_unit, docs_by_type,
}
use objekt_bernahme_automati.Requirements.Links.{doc_spec}
use objekt_bernahme_automati.Requirements.Weg.{
  committed_of, pending_of, all_units_known, negative_proof_spec,
}
use objekt_bernahme_automati.Requirements.Weg.Units.{comma_joined}

abbrev list_spec : List ImportBatch → List ImportBatch → Spec
list_spec (c ∷ committed) pending =
    object_spec "tenant_list_complete" fulfilled ("Import " <> decimal c.id)
list_spec [] (p ∷ pending) =
    object_spec "tenant_list_complete" partial
      ("Import " <> decimal p.id <> " noch nicht abgeschlossen")
list_spec [] [] = object_spec "tenant_list_complete" missing "keine Mieterliste importiert"

abbrev tenant_kinds : List String
tenant_kinds = "tenant_list" ∷ "mixed" ∷ []

abbrev pub tenant_list_complete : Data → Spec
tenant_list_complete d =
    list_spec (committed_of tenant_kinds d.batches) (pending_of tenant_kinds d.batches)

abbrev is_true : Option Bool → Bool
is_true (some true) = true
is_true _ = false

abbrev is_false : Option Bool → Bool
is_false (some false) = true
is_false _ = false

abbrev pub is_confirmed : Tenancy → Bool
is_confirmed m = str_eq m.data_status "confirmed"

-- The tenant of each unit; a confirmed vacancy counts.
abbrev pub tenant_per_unit : ManagedUnit → List Tenancy → Spec
tenant_per_unit u [] =
    if is_true u.vacancy_confirmed
    then unit_spec "tenant_per_unit" fulfilled u.id "Leerstand bestätigt"
    else unit_spec "tenant_per_unit" missing u.id "kein Mieter und kein bestätigter Leerstand"
tenant_per_unit u (m ∷ tenants) =
    if exists is_confirmed (m ∷ tenants)
    then unit_spec "tenant_per_unit" fulfilled u.id ""
    else unit_spec "tenant_per_unit" partial u.id "Mieterzuordnung nicht bestätigt"

-- `next((t.lease for t in tenants if t.lease_id), None)`
abbrev first_lease : List Tenancy → Option Lease
first_lease [] = none
first_lease (m ∷ tenants) = or_later m.lease (first_lease tenants)
  where
    or_later : Option Lease → Option Lease → Option Lease
    or_later none later = later
    or_later (some l) later = some l

-- A spec of a unit that names its tenants.
abbrev tenant_spec : String → FindingStatus → ManagedUnit → String → String → Spec
tenant_spec code st u names hint = record (unit_spec code st u.id hint) {
  details = record (hint_only hint) { tenant = some names };
}

abbrev lease_status : Option Lease → FindingStatus × String
lease_status none = (missing, "kein Mietverhältnis mit Konditionen")
lease_status (some l) =
    if l.has_start_date
      && l.has_base_rent
      && l.has_utilities_prepayment
      && l.has_heating_prepayment
      && str_eq l.data_status "confirmed"
    then (fulfilled, "")
    else if l.has_start_date || l.has_base_rent || l.has_utilities_prepayment
        || l.has_heating_prepayment
    then (partial, "Mietkonditionen unvollständig oder nicht bestätigt")
    else (missing, "kein Mietverhältnis mit Konditionen")

-- `x not in (None, "", "unknown")`
abbrev is_known : Option String → Bool
is_known none = false
is_known (some t) = not (is_blank t) && not (str_eq t "unknown")

abbrev deposit_status : Option Lease → FindingStatus × String
deposit_status none = (missing, "Kaution nicht erfasst")
deposit_status (some l) =
    if l.has_deposit_amount && is_known l.deposit_type
    then (fulfilled, "")
    else if l.has_deposit_amount || is_known l.deposit_type
    then (partial, "Kaution nur teilweise erfasst")
    else (missing, "Kaution nicht erfasst")

abbrev adjustment_status : Option Lease → FindingStatus × String
adjustment_status none = (missing, "Staffel oder Index unbekannt")
adjustment_status (some l) =
    if is_known l.rent_adjustment_type
    then (fulfilled, "")
    else (missing, "Staffel oder Index unbekannt")

abbrev is_given : Option String → Bool
is_given none = false
is_given (some s) = not (is_blank s)

abbrev has_channel : Tenancy → Bool
has_channel m = is_given m.email || is_given m.phone || is_given m.mobile

abbrev contact_status : List Tenancy → FindingStatus × String
contact_status tenants =
    if exists has_channel tenants then (fulfilled, "") else (missing, "kein Kommunikationskanal")

abbrev mandate_status : Option Bool → List Tenancy → FindingStatus × String
mandate_status sepa_used tenants =
    if is_false sepa_used
    then (not_applicable, "SEPA im Objekt nicht verwendet")
    else if not (exists (λ (m : Tenancy). not (is_true m.sepa_mandate_present)) tenants)
    then (fulfilled, "")
    else if not (exists (λ (m : Tenancy). not (is_false m.sepa_mandate_present)) tenants)
    then (not_applicable, "kein Mandat laut Stammdaten")
    else (missing, "SEPA-Mandat unbekannt")

abbrev pub named_spec : String → ManagedUnit → String → FindingStatus × String → Spec
named_spec code u names (st, hint) = tenant_spec code st u names hint

-- The rules that ask the tenants of a unit; without a tenant there are none.
abbrev pub tenancy_specs : Data → ManagedUnit → List Tenancy → List Spec
tenancy_specs d u [] = []
tenancy_specs d u (m ∷ tenants) =
    let names = comma_joined (map (λ (t : Tenancy). t.tenant_name) (m ∷ tenants)) in
    let lease = first_lease (m ∷ tenants) in
    named_spec "lease_terms" u names (lease_status lease)
    ∷ named_spec "deposit" u names (deposit_status lease)
    ∷ named_spec "rent_adjustment" u names (adjustment_status lease)
    ∷ named_spec "tenant_contact_data" u names (contact_status (m ∷ tenants))
    ∷ named_spec "tenant_sepa_mandate" u names (mandate_status d.obj.sepa_used (m ∷ tenants))
    ∷ []

unfoldable pub rental_unit : Data → ManagedUnit → List Spec
rental_unit d u =
    let tenants = tenants_by_unit d u.id in tenant_per_unit u tenants ∷ tenancy_specs d u tenants

abbrev pub shared_specs : (List ManagedUnit → String) → Data → Bool → List Spec
shared_specs mismatch d true = all_units_known mismatch d ∷ []
shared_specs mismatch d false = []

unfoldable pub evaluate_rental :
    (List ManagedUnit → String) → Data → List ManagedUnit → Bool → List Spec
unfolding rental_unit
evaluate_rental mismatch d units include_shared =
    tenant_list_complete d ∷ shared_specs mismatch d include_shared
    ++ flat_map (rental_unit d) units
    ++ negative_proof_spec "tenant_accounts" ∷ negative_proof_spec "tenant_dunning_procedure" ∷ []

-- A row of the table of checks; its lists are empty when the column is.
pub record CompletenessCheck : Type 0 where
  pub code : String
  pub scope_type : ScopeType
  pub management_types : List String
  pub evidence_document_types : List String
  pub category : Option String
  pub blocking : Bool
  pub sort_order : ℕ
  pub is_active : Bool

abbrev is_object_scope : ScopeType → Bool
is_object_scope object_scope = true
is_object_scope _ = false

abbrev is_catalog : Option String → Bool
is_catalog none = false
is_catalog (some c) = str_eq c "stammakte"

abbrev by_sort_order : CompletenessCheck → CompletenessCheck → Bool
by_sort_order a b = leb a.sort_order b.sort_order

abbrev pub catalog_hint : String
catalog_hint =
    "Sollbestand der Stammakte (Checkliste); trifft die Position nicht zu, als nicht anwendbar kennzeichnen"

abbrev recommended : Spec → Spec
recommended s = record s { details = record s.details { recommendation = true } }

abbrev pub catalog_spec : Data → CompletenessCheck → Spec
catalog_spec d c =
    recommended (doc_spec c.code (flat_map (docs_by_type d) c.evidence_document_types) catalog_hint)

unfoldable pub evaluate_catalog : Data → List CompletenessCheck → List Spec
evaluate_catalog d checks = map (catalog_spec d) (
    select (λ (c : CompletenessCheck). is_catalog c.category && is_object_scope c.scope_type)
      (order_by by_sort_order checks))
