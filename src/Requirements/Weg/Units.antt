-- ===== src/Requirements/Weg/Units.antt =====
-- src/apps/requirements/engine.py, `evaluate_weg`: the owners of a unit, and how they changed.
use objekt_bernahme_automati.Prelude.{
  ℕ, Bool, true, false, not, ◌&&◌, Option, none, some, List, [], ◌∷◌, String, ◌<>◌, str_eq, leb,
  ◌==◌, if◌then◌else◌, decimal, map, length,
}
use objekt_bernahme_automati.Prelude.Table.{select, exists}
use objekt_bernahme_automati.Requirements.Calendar.{ordinal}
use objekt_bernahme_automati.Requirements.Spec.{
  missing, partial, fulfilled, hint_only, Spec, unit_spec,
}
use objekt_bernahme_automati.Requirements.Data.{
  ManagedUnit, Assignment, Data, by_unit, current, text_in,
}

abbrev pub is_confirmed : Assignment → Bool
is_confirmed a = str_eq a.data_status "confirmed"

-- `", ".join(texts)`
abbrev pub comma_joined : List String → String
comma_joined [] = ""
comma_joined (s ∷ []) = s
comma_joined (s ∷ t ∷ texts) = s <> ", " <> comma_joined (t ∷ texts)

abbrev owner_status : ℕ → List Assignment → Spec
owner_status unit [] = unit_spec "owner_per_unit" missing unit "kein Eigentümer zugeordnet"
owner_status unit (a ∷ cur) =
    if exists is_confirmed (a ∷ cur)
    then unit_spec "owner_per_unit" fulfilled unit ""
    else unit_spec "owner_per_unit" partial unit (
        "Zuordnung nicht bestätigt ("
        <> comma_joined (map (λ (b : Assignment). b.data_status) (a ∷ cur))
        <> ")")

-- Rule 3: the owner of each unit.
unfoldable pub owner_per_unit : Data → ManagedUnit → Spec
owner_per_unit d u = owner_status u.id (current d u.id)

abbrev starts_unknown : Option ℕ → Bool
starts_unknown none = true
starts_unknown (some t) = false

abbrev starts_within : ℕ → ℕ → Option ℕ → Bool
starts_within from to none = false
starts_within from to (some t) = leb from t && leb t to

abbrev is_proof_type : Option String → Bool
is_proof_type none = false
is_proof_type (some t) =
    text_in t
      ("veraeusserungsanzeige" ∷ "mitteilung_eigentumswechsel" ∷ "uebergang_nutzen_lasten" ∷ [])

abbrev has_document : Option ℕ → Bool
has_document none = false
has_document (some d) = true

abbrev is_proven : Assignment → Bool
is_proven a = has_document a.source_document_id && is_proof_type a.source_document_type

abbrev first_proof : List Assignment → Option ℕ
first_proof [] = none
first_proof (a ∷ proven) = a.source_document_id

abbrev changes_spec : ℕ → List Assignment → Spec
changes_spec unit [] =
    unit_spec "owner_changes" fulfilled unit "kein Eigentümerwechsel im Übernahmezeitraum"
changes_spec unit (a ∷ later) =
    let changes = a ∷ later in
    let proven = select is_proven changes in
    let hint : String = "Eigentumsbeginn bekannt, Nachweis aus 02_Eigentumsnachweise fehlt" in
    if length proven == length changes
    then record (unit_spec "owner_changes" fulfilled unit
        (decimal (length changes) <> " Wechsel mit Nachweis")) {
          evidence_document_id = first_proof proven;
        }
    else record (unit_spec "owner_changes" partial unit hint) {
      details = record (hint_only hint) {
        assignments = some (
            map (λ (c : Assignment). c.id)
              (select (λ (c : Assignment). not (is_proven c)) changes));
      };
    }

abbrev known_changes : ℕ → List Assignment → List Assignment → Spec
known_changes unit [] changes =
    record (unit_spec "owner_changes" missing unit "Folgefehler: kein Eigentümer bekannt") {
      details = record (hint_only "Folgefehler: kein Eigentümer bekannt") { consequential = true };
    }
known_changes unit (a ∷ cur) changes =
    if exists (λ (c : Assignment). starts_unknown c.valid_from) (a ∷ cur)
    then unit_spec "owner_changes" missing unit "Eigentumsbeginn der aktuellen Zuordnung unbekannt"
    else changes_spec unit changes

-- Rule 4: the changes of owner within the period; a unit without an owner cannot be judged.
unfoldable pub owner_changes : Data → ManagedUnit → Spec
owner_changes d u = known_changes u.id (current d u.id) (
    select
      (λ (c : Assignment).
        starts_within (ordinal d.period.start) (ordinal d.period.end) c.valid_from)
      (by_unit d u.id))
