-- ===== src/Requirements/Weg.antt =====
-- src/apps/requirements/engine.py, `evaluate_weg`: the catalogue for owners' associations, on the
-- object. Its rules for units and assignments are in the child modules.
pub mod Units
pub mod Assignments
use objekt_bernahme_automati.Prelude.{
  ℕ, suc, ◌+◌, ◌*◌, Bool, true, false, not, ◌&&◌, ◌||◌, Option, none, some, List, [], ◌∷◌, ◌++◌,
  String, ◌<>◌, str_eq, ◌==◌, if◌then◌else◌, decimal, map, length, flat_map,
}
use objekt_bernahme_automati.Prelude.Table.{select, exists}
use objekt_bernahme_automati.Requirements.Calendar
use objekt_bernahme_automati.Requirements.Spec.{
  FindingStatus, missing, partial, fulfilled, not_applicable, Details, hint_only, Spec, object_spec,
  is_missing, is_fulfilled,
}
use objekt_bernahme_automati.Requirements.Data.{
  ManagedUnit, ImportBatch, Data, docs_by_type, text_in, current,
}
use objekt_bernahme_automati.Requirements.Links.{doc_spec}
use Units.{owner_per_unit, owner_changes}
use Assignments.{assignment_specs}

abbrev pub committed_of : List String → List ImportBatch → List ImportBatch
committed_of kinds batches =
    select (λ (b : ImportBatch). text_in b.import_kind kinds && str_eq b.status "committed") batches

abbrev pub pending_of : List String → List ImportBatch → List ImportBatch
pending_of kinds batches =
    select
      (λ (b : ImportBatch).
        text_in b.import_kind kinds
        && text_in b.status ("uploaded" ∷ "parsed" ∷ "in_review" ∷ "partially_committed" ∷ []))
      batches

-- An import counts in place of a document that is missing or not yet confirmed.
abbrev or_import : Spec → List ImportBatch → List ImportBatch → Spec
or_import spec [] [] = spec
or_import spec (c ∷ committed) pending =
    if is_fulfilled spec.status
    then spec
    else object_spec "owner_list_complete" fulfilled ("Import " <> decimal c.id)
or_import spec [] (p ∷ pending) =
    if is_missing spec.status
    then object_spec "owner_list_complete" partial
        ("Import " <> decimal p.id <> " noch nicht abgeschlossen")
    else spec

abbrev pub owner_list_complete : Data → Spec
owner_list_complete d =
    or_import
      (doc_spec "owner_list_complete" (docs_by_type d "eigentuemerliste")
        "Eigentümerliste weder als Dokument noch als Import")
      (committed_of ("owner_list" ∷ "mixed" ∷ []) d.batches)
      (pending_of ("owner_list" ∷ "mixed" ∷ []) d.batches)

-- `co_ownership_share is not None and co_ownership_share_base`
abbrev has_share : Option ℕ → Option ℕ → Bool
has_share (some share) (some (suc base)) = true
has_share share base = false

abbrev has_shares : ManagedUnit → Bool
has_shares u = has_share u.co_ownership_share u.co_ownership_share_base

abbrev share_or_zero : Option ℕ → ℕ
share_or_zero none = 0
share_or_zero (some n) = n

abbrev total_share : List ManagedUnit → ℕ
total_share [] = 0
total_share (u ∷ units) = share_or_zero u.co_ownership_share + total_share units

-- All units have the same base, and the shares, in ten-thousandths, add up to it.
abbrev shares_match : List ManagedUnit → Bool
shares_match [] = false
shares_match (u ∷ units) =
    let base = share_or_zero u.co_ownership_share_base in
    not (exists (λ (v : ManagedUnit). not (share_or_zero v.co_ownership_share_base == base)) units)
    && (total_share (u ∷ units) == base * 10000)

abbrev units_details : ℕ → Option ℕ → String → Details
units_details n expected hint = record (hint_only hint) { units = some n; expected = some expected }

abbrev known_spec : ℕ → Option ℕ → FindingStatus → String → Spec
known_spec n expected st hint = record (object_spec "all_units_known" st hint) {
  details = units_details n expected hint;
}

-- The text with the wrong sum is the parameter `mismatch`: it prints decimals and a list.
abbrev known_count : (List ManagedUnit → String) → List ManagedUnit → ℕ → ℕ → Spec
known_count mismatch units n expected =
    if not (n == expected)
    then known_spec n (some expected) partial
        (decimal n <> " Einheiten erfasst, Sollzahl " <> decimal expected)
    else if not (length (select has_shares units) == n)
    then known_spec n (some expected) fulfilled
        "Anzahl stimmt, Miteigentumsanteile nicht vollständig erfasst"
    else if shares_match units
    then known_spec n (some expected) fulfilled "Anzahl und Miteigentumsanteile stimmen"
    else known_spec n (some expected) partial (mismatch units)

abbrev known_units : (List ManagedUnit → String) → List ManagedUnit → Option ℕ → Spec
known_units mismatch [] expected =
    record (object_spec "all_units_known" missing "keine Einheiten erfasst") {
      details = record (hint_only "keine Einheiten erfasst") { units = some 0 };
    }
known_units mismatch (u ∷ us) none =
    known_spec (length (u ∷ us)) none partial
      "Sollzahl der Einheiten erfassen (Teilungserklärung oder Eigentümerliste)"
known_units mismatch (u ∷ us) (some expected) =
    known_count mismatch (u ∷ us) (length (u ∷ us)) expected

-- `_all_units_known`
abbrev pub all_units_known : (List ManagedUnit → String) → Data → Spec
all_units_known mismatch d = known_units mismatch d.units d.obj.expected_unit_count

-- The two questions on the object itself: not answered is missing.
abbrev pub clarified : String → Option Bool → String → String → Spec
clarified code none question answered = object_spec code missing question
clarified code (some true) question answered = object_spec code fulfilled answered
clarified code (some false) question answered = object_spec code not_applicable answered

abbrev pub negative_proof_hint : String
negative_proof_hint = "Aufstellung oder Negativerklärung der Vorverwaltung erforderlich"

-- That no document is there proves nothing: the position stays open until it is closed by hand.
abbrev pub negative_proof_spec : String → Spec
negative_proof_spec code = record (object_spec code missing negative_proof_hint) {
  details = record (hint_only negative_proof_hint) { negative_proof = true };
}

abbrev pub object_specs : Data → List Spec
object_specs d =
    let statements = docs_by_type d "rueckstandsaufstellung" in
    doc_spec "open_house_fees" statements "Rückstands- und Guthabenaufstellung zum Stichtag fehlt"
    ∷ doc_spec "credits" statements "Rückstands- und Guthabenaufstellung zum Stichtag fehlt"
    ∷ clarified "sepa_mandate" d.obj.sepa_used "Klärung SEPA-Nutzung im Objekt"
        "SEPA-Nutzung erfasst"
    ∷ clarified "special_levy" d.obj.special_levies_in_period
        "Klärung Sonderumlagen im Übernahmezeitraum" "Sonderumlagen erfasst"
    ∷ negative_proof_spec "payment_agreement"
    ∷ negative_proof_spec "dunning_procedure"
    ∷ []

unfoldable pub evaluate_weg :
    Calendar.Settings → (List ManagedUnit → String) → (ℕ → String) → Data → List Spec
unfolding owner_per_unit owner_changes assignment_specs
evaluate_weg cfg mismatch show_date d =
    owner_list_complete d ∷ all_units_known mismatch d ∷ map (owner_per_unit d) d.units
    ++ map (owner_changes d) d.units
    ++ flat_map (λ (u : ManagedUnit). flat_map (assignment_specs cfg show_date d) (current d u.id))
        d.units
    ++ object_specs d
