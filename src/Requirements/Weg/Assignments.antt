-- ===== src/Requirements/Weg/Assignments.antt =====
-- src/apps/requirements/engine.py, `evaluate_weg`: the rules for the current assignments of a unit.
use objekt_bernahme_automati.Prelude.{
  ℕ, Bool, true, false, not, ◌&&◌, ◌||◌, Option, none, some, List, [], ◌∷◌, ◌++◌, String, ◌<>◌,
  str_eq, ltb, leb, ◌==◌, if◌then◌else◌, decimal, map, length,
}
use objekt_bernahme_automati.Prelude.Table.{select, exists}
use objekt_bernahme_automati.Requirements.Calendar.{Settings, overlaps_year, statement_due}
use objekt_bernahme_automati.Requirements.Spec.{
  missing, partial, fulfilled, not_applicable, hint_only, Spec, assignment_spec, is_missing,
}
use objekt_bernahme_automati.Requirements.Data.{Assignment, OwnerLink, Data}
use objekt_bernahme_automati.Requirements.Links.{field_status, links_for, link_spec}

abbrev known : List (Option String) → List String
known [] = []
known (none ∷ states) = known states
known (some s ∷ states) = s ∷ known states

abbrev is_confirmed_state : String → Bool
is_confirmed_state s = str_eq s "confirmed"

abbrev is_some_text : List String → Bool
is_some_text [] = false
is_some_text (s ∷ texts) = true

-- Rule 5: the three fields of the address.
abbrev pub addresses : Data → Assignment → Spec
addresses d a =
    let o = a.owner in
    let filled = known (
      field_status d o "correspondence_street" o.correspondence_street
      ∷ field_status d o "correspondence_postal_code" o.correspondence_postal_code
      ∷ field_status d o "correspondence_city" o.correspondence_city
      ∷ []) in
    if (length filled == 3) && (length (select is_confirmed_state filled) == 3)
    then assignment_spec "addresses" fulfilled a.unit_id a.id none ""
    else if is_some_text filled
    then assignment_spec "addresses" partial a.unit_id a.id none
        "Anschrift unvollständig oder nicht bestätigt"
    else assignment_spec "addresses" missing a.unit_id a.id none "keine Anschrift"

-- Rule 6: as many confirmed channels as the setting wants.
abbrev pub contact_data : Settings → Data → Assignment → Spec
contact_data cfg d a =
    let o = a.owner in
    let present = known (
      field_status d o "email" o.email
      ∷ field_status d o "phone" o.phone
      ∷ field_status d o "mobile" o.mobile
      ∷ []) in
    if leb cfg.contact_channels_required (length (select is_confirmed_state present))
    then assignment_spec "contact_data" fulfilled a.unit_id a.id none ""
    else if is_some_text present
    then assignment_spec "contact_data" partial a.unit_id a.id none
        "Kanal vorhanden, nicht bestätigt"
    else assignment_spec "contact_data" missing a.unit_id a.id none "kein Kommunikationskanal"

-- Rules 8 and 9: the balance is recorded, or a statement names the unit.
abbrev pub balance : String → Data → Assignment → Spec
balance code d a =
    if a.has_balance_at_takeover
    then assignment_spec code fulfilled a.unit_id a.id none "Saldo erfasst"
    else if exists (λ unit. unit == a.unit_id) d.units_in_statement
    then assignment_spec code fulfilled a.unit_id a.id none "Einheit in der Aufstellung genannt"
    else assignment_spec code missing a.unit_id a.id none "kein Saldo zum Stichtag"

abbrev not_assigned : String → Assignment → ℕ → Spec
not_assigned code a year =
    assignment_spec code not_applicable a.unit_id a.id (some year)
      ("Eigentümer in " <> decimal year <> " nicht zugeordnet")

-- What is missing before it is due is not applicable yet.
abbrev unless_due : (ℕ → String) → ℕ → ℕ → Spec → Spec
unless_due show_date today due spec =
    if is_missing spec.status && ltb today due
    then record spec {
      status = not_applicable;
      details = hint_only ("noch nicht fällig (erwartbar ab " <> show_date due <> ")");
    }
    else spec

-- Rule 10: the statement of each fiscal year in which the owner has the unit.
unfoldable pub annual_statement : Settings → (ℕ → String) → Data → Assignment → ℕ → Spec
unfolding overlaps_year statement_due links_for
annual_statement cfg show_date d a year =
    if not (overlaps_year a.valid_from a.valid_to year d.period.fiscal_start_month)
    then not_assigned "annual_statement_year" a year
    else unless_due show_date d.today (statement_due cfg year d.period.fiscal_start_month) (
        link_spec "annual_statement_year" a
          (links_for d a ("einzelabrechnung" ∷ "korrekturabrechnung" ∷ "abrechnungsspitze" ∷ [])
            (some year))
          (some year) ("Einzelabrechnung " <> decimal year <> " fehlt"))

-- Rule 11: the business plan of each of these years.
unfoldable pub business_plan : Data → Assignment → ℕ → Spec
unfolding overlaps_year links_for
business_plan d a year =
    if not (overlaps_year a.valid_from a.valid_to year d.period.fiscal_start_month)
    then not_assigned "business_plan_year" a year
    else link_spec "business_plan_year" a
        (links_for d a ("einzelwirtschaftsplan" ∷ "hausgeldvorschuss" ∷ []) (some year)) (some year)
        ("Wirtschaftsplan " <> decimal year <> " fehlt")

abbrev is_true : Option Bool → Bool
is_true (some true) = true
is_true _ = false

abbrev is_false : Option Bool → Bool
is_false (some false) = true
is_false _ = false

abbrev first_link : List OwnerLink → Option ℕ
first_link [] = none
first_link (l ∷ links) = some l.id

-- The first link is confirmed.
abbrev first_is_confirmed : List OwnerLink → Bool
first_is_confirmed [] = false
first_is_confirmed (l ∷ links) = str_eq l.status "confirmed"

abbrev has_links : List OwnerLink → Bool
has_links [] = false
has_links (l ∷ links) = true

abbrev mandate_spec : Assignment → Option Bool → List OwnerLink → Spec
mandate_spec a flag mandates =
    if is_false flag
    then assignment_spec "sepa_mandate" not_applicable a.unit_id a.id none
        "kein Mandat laut Stammdaten"
    else if first_is_confirmed mandates
    then record (link_spec "sepa_mandate" a mandates none "") { details = hint_only "" }
    else if is_true flag || has_links mandates
    then record (assignment_spec "sepa_mandate" partial a.unit_id a.id none (
        if is_true flag
        then "Kennzeichen ohne bestätigtes Mandatsdokument"
        else "Mandat vorgeschlagen, nicht bestätigt")) { evidence_link_id = first_link mandates }
    else assignment_spec "sepa_mandate" missing a.unit_id a.id none "SEPA-Mandat unbekannt"

-- Rule 12.
abbrev pub sepa_mandate : Data → Assignment → Spec
sepa_mandate d a =
    if is_false d.obj.sepa_used
    then assignment_spec "sepa_mandate" not_applicable a.unit_id a.id none
        "SEPA im Objekt nicht verwendet"
    else mandate_spec a a.owner.sepa_mandate_present (links_for d a ("sepa_mandat" ∷ []) none)

-- Rule 13: nothing as long as it is not known whether there was a levy.
abbrev pub special_levy : Data → Assignment → Option Bool → List Spec
special_levy d a none = []
special_levy d a (some true) =
    link_spec "special_levy" a (links_for d a ("sonderumlage_einzel" ∷ []) none) none
      "Unterlagen zur Sonderumlage fehlen"
    ∷ []
special_levy d a (some false) =
    assignment_spec "special_levy" not_applicable a.unit_id a.id none
      "keine Sonderumlagen im Zeitraum"
    ∷ []

-- Rules 14 and 15: only what is known; that nothing is there is no fault of the owner.
abbrev pub known_case : String → Assignment → List OwnerLink → Spec
known_case code a links =
    if first_is_confirmed links
    then record (link_spec code a links none "") { details = hint_only "" }
    else assignment_spec code not_applicable a.unit_id a.id none "kein Vorgang bekannt"

abbrev pub dunning_types : List String
dunning_types =
    "mahnverfahren" ∷ "anwaltsschreiben" ∷ "klageunterlagen" ∷ "forderungsaufstellung" ∷ "mahnung"
    ∷ []

unfoldable pub assignment_specs : Settings → (ℕ → String) → Data → Assignment → List Spec
unfolding annual_statement business_plan links_for
assignment_specs cfg show_date d a =
    addresses d a
      ∷ contact_data cfg d a
      ∷ link_spec "owner_accounts" a (links_for d a ("eigentuemerkonto" ∷ []) none) none
          "kein Eigentümerkonto zum Stichtag"
      ∷ balance "open_house_fees" d a
      ∷ balance "credits" d a
      ∷ map (annual_statement cfg show_date d a) d.period.years
    ++ map (business_plan d a) d.period.plan_years
    ++ sepa_mandate d a ∷ special_levy d a d.obj.special_levies_in_period
    ++ known_case "payment_agreement" a (links_for d a ("zahlungsvereinbarung" ∷ []) none)
      ∷ known_case "dunning_procedure" a (links_for d a dunning_types none)
      ∷ []
