-- ===== src/Requirements/Data.antt =====
-- src/apps/requirements/engine.py, `Data` and the two builders: the rows of one object that the rules
-- read, loaded once. The tables come in the order of their ids; `provenance` is the dictionary of
-- the recorded origins of an owner's fields.
use Prim.Native.String.{compare as compare_text}
use Prim.Native.Nat.{Ordering}
use objekt_bernahme_automati.Prelude.{
  ℕ, Bool, true, false, not, ◌&&◌, ◌||◌, Option, none, some, List, [], ◌∷◌, String, str_eq, ltb,
  ◌==◌, if◌then◌else◌,
}
use objekt_bernahme_automati.Prelude.Table.{exists, select, order_by}
use objekt_bernahme_automati.Parties.Period.{starts_by, lasts_until}
use objekt_bernahme_automati.Requirements.Calendar.{ordinal, Period, ManagedObject}

-- The share is in ten-thousandths, as the column stores it.
pub record ManagedUnit : Type 0 where
  pub id : ℕ
  pub object : ℕ
  pub unit_label : String
  pub unit_label_normalized : String
  pub status : String
  pub is_deleted : Bool
  pub co_ownership_share : Option ℕ
  pub co_ownership_share_base : Option ℕ
  pub se_managed : Option Bool
  pub vacancy_confirmed : Option Bool

pub record Owner : Type 0 where
  pub id : ℕ
  pub correspondence_street : Option String
  pub correspondence_postal_code : Option String
  pub correspondence_city : Option String
  pub email : Option String
  pub phone : Option String
  pub mobile : Option String
  pub sepa_mandate_present : Option Bool
  pub data_status : String

-- `balance_at_takeover` in cents is negative for a credit; the rules ask only whether it is given.
pub record Assignment : Type 0 where
  pub id : ℕ
  pub object : ℕ
  pub unit_id : ℕ
  pub owner : Owner
  pub valid_from : Option ℕ
  pub valid_to : Option ℕ
  pub data_status : String
  pub has_balance_at_takeover : Bool
  pub source_document_id : Option ℕ
  pub source_document_type : Option String
  pub is_deleted : Bool

pub record OwnerLink : Type 0 where
  pub id : ℕ
  pub object : ℕ
  pub document_id : ℕ
  pub document_type : Option String
  pub status : String
  pub period_year : Option ℕ
  pub assignment_id : Option ℕ
  pub unit_id : Option ℕ
  pub owner_id : Option ℕ
  pub is_deleted : Bool

pub record Document : Type 0 where
  pub id : ℕ
  pub object : ℕ
  pub document_type : Option String
  pub status : String
  pub is_deleted : Bool

pub record ImportBatch : Type 0 where
  pub id : ℕ
  pub object : ℕ
  pub import_kind : String
  pub status : String

pub record Lease : Type 0 where
  pub has_start_date : Bool
  pub has_base_rent : Bool
  pub has_utilities_prepayment : Bool
  pub has_heating_prepayment : Bool
  pub has_deposit_amount : Bool
  pub deposit_type : Option String
  pub rent_adjustment_type : Option String
  pub data_status : String

-- A tenant's assignment with its tenant and its lease; `tenant_name` is the company, else the last
-- name, else the text of the row.
pub record Tenancy : Type 0 where
  pub object : ℕ
  pub unit_id : ℕ
  pub tenant_name : String
  pub email : Option String
  pub phone : Option String
  pub mobile : Option String
  pub sepa_mandate_present : Option Bool
  pub lease : Option Lease
  pub valid_from : Option ℕ
  pub valid_to : Option ℕ
  pub data_status : String
  pub is_deleted : Bool

-- `matched` are the entities found in documents: the document and the unit.
pub record Tables : Type 0 where
  pub units : List ManagedUnit
  pub assignments : List Assignment
  pub provenance : ℕ → String → Option String
  pub links : List OwnerLink
  pub documents : List Document
  pub batches : List ImportBatch
  pub matched : List (ℕ × Option ℕ)
  pub tenancies : List Tenancy

pub record Data : Type 0 where
  pub obj : ManagedObject
  pub period : Period
  pub today : ℕ
  pub units : List ManagedUnit
  pub assignments : List Assignment
  pub provenance : ℕ → String → Option String
  pub links : List OwnerLink
  pub docs : List Document
  pub batches : List ImportBatch
  pub units_in_statement : List ℕ
  pub tenancies : List Tenancy

-- `s in texts`
abbrev pub text_in : String → List String → Bool
text_in s texts = exists (str_eq s) texts

abbrev pub is_type : String → Option String → Bool
is_type code none = false
is_type code (some t) = str_eq t code

abbrev pub has_type : Option String → Bool
has_type none = false
has_type (some t) = true

abbrev pub text_before : String → String → Bool
text_before a b = elim (compare_text a b) [ Ordering.lt ↦ true | _ ↦ false ]

-- `order_by("unit_label_normalized")`
abbrev by_label : ManagedUnit → ManagedUnit → Bool
by_label a b = not (text_before b.unit_label_normalized a.unit_label_normalized)

-- A start that is not known comes first.
abbrev starts_first : Option ℕ → Option ℕ → Bool
starts_first none b = true
starts_first (some a) none = false
starts_first (some a) (some b) = not (ltb b a)

-- `order_by("unit_id", "valid_from")`
abbrev by_unit_and_start : Assignment → Assignment → Bool
by_unit_and_start a b =
    ltb a.unit_id b.unit_id || ((a.unit_id == b.unit_id) && starts_first a.valid_from b.valid_from)

abbrev is_excluded : String → Bool
is_excluded status = text_in status ("duplicate" ∷ "moved_out" ∷ "error" ∷ [])

abbrev active_at : Option ℕ → Option ℕ → ℕ → Bool
active_at valid_from valid_to ref = starts_by valid_from ref && lasts_until valid_to ref

-- The units that are named in one of the documents.
abbrev pub units_named : List Document → List (ℕ × Option ℕ) → List ℕ
units_named docs [] = []
units_named docs ((document, none) ∷ rows) = units_named docs rows
units_named docs ((document, some unit) ∷ rows) =
    let rest = units_named docs rows in
    if exists (λ (d : Document). d.id == document) docs then unit ∷ rest else rest

abbrev pub docs_of_type : String → List Document → List Document
docs_of_type code docs = select (λ (d : Document). is_type code d.document_type) docs

-- `Data(obj, period, today)`
unfoldable pub load : Tables → ManagedObject → Period → ℕ → Data
load t obj period today =
    let docs =
      select
        (λ (d : Document).
          (d.object == obj.id)
          && not d.is_deleted
          && has_type d.document_type
          && not (is_excluded d.status))
        t.documents in
    record {
      obj = obj;
      period = period;
      today = today;
      units = order_by by_label (
          select
            (λ (u : ManagedUnit).
              (u.object == obj.id) && not u.is_deleted && str_eq u.status "active")
            t.units);
      assignments =
          order_by by_unit_and_start
            (select (λ (a : Assignment). (a.object == obj.id) && not a.is_deleted) t.assignments);
      provenance = t.provenance;
      links =
          select
            (λ (l : OwnerLink).
              (l.object == obj.id)
              && not l.is_deleted
              && text_in l.status ("confirmed" ∷ "suggested" ∷ []))
            t.links;
      docs = docs;
      batches = select (λ (b : ImportBatch). b.object == obj.id) t.batches;
      units_in_statement = units_named (docs_of_type "rueckstandsaufstellung" docs) t.matched;
      tenancies =
          select
            (λ (m : Tenancy).
              (m.object == obj.id)
              && not m.is_deleted
              && active_at m.valid_from m.valid_to (ordinal period.reference))
            t.tenancies;
    }

-- `d.docs_by_type.get(code, [])`
abbrev pub docs_by_type : Data → String → List Document
docs_by_type d code = docs_of_type code d.docs

-- `d.by_unit.get(uid, [])`
abbrev pub by_unit : Data → ℕ → List Assignment
by_unit d uid = select (λ (a : Assignment). a.unit_id == uid) d.assignments

-- `d.current.get(uid, [])`
abbrev pub current : Data → ℕ → List Assignment
current d uid =
    select (λ (a : Assignment). active_at a.valid_from a.valid_to (ordinal d.period.reference))
      (by_unit d uid)

-- `d.tenants_by_unit.get(uid, [])`
abbrev pub tenants_by_unit : Data → ℕ → List Tenancy
tenants_by_unit d uid = select (λ (m : Tenancy). m.unit_id == uid) d.tenancies
