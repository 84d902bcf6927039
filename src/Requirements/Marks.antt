-- ===== src/Requirements/Marks.antt =====
-- src/apps/requirements/engine.py, the rules: none of them writes the marks of a request.
use objekt_bernahme_automati.Prelude.{
  ℕ, ◌≡◌, refl, Bool, true, false, Option, none, some, List, [], ◌∷◌, ◌++◌, String, str_eq, arith,
  All, All-append, All-flat_map, map, flat_map, if◌then◌else◌, if_induction,
}
use objekt_bernahme_automati.Prelude.Table.{select}
use objekt_bernahme_automati.Requirements.Calendar.{Settings}
use objekt_bernahme_automati.Requirements.Spec.{Details, Spec}
use objekt_bernahme_automati.Requirements.Data.{
  Data, ManagedUnit, Assignment, OwnerLink, Document, Tenancy, current, tenants_by_unit,
  docs_by_type,
}
use objekt_bernahme_automati.Requirements.Links.{link_spec, doc_spec, links_for}
use objekt_bernahme_automati.Requirements.Weg.{
  evaluate_weg, owner_list_complete, all_units_known, clarified, object_specs, negative_proof_spec,
}
use objekt_bernahme_automati.Requirements.Weg.Units.{owner_per_unit, owner_changes}
use objekt_bernahme_automati.Requirements.Weg.Assignments.{
  assignment_specs, annual_statement, business_plan, addresses, contact_data, balance, sepa_mandate,
  special_levy, known_case, dunning_types,
}
use objekt_bernahme_automati.Requirements.Rental.{
  CompletenessCheck, evaluate_rental, rental_unit, evaluate_catalog, tenancy_specs, tenant_per_unit,
  tenant_list_complete, shared_specs, catalog_spec, catalog_hint,
}
use objekt_bernahme_automati.Requirements.Evaluate.{
  Texts, rule_specs, rental_of_units, rental_specs, is_weg, is_se_managed,
}

abbrev pub Marking : Type 0
Marking = Option String × Option (Option String) × Option ℕ

-- The marks of a request: its day, its deadline and its version.
abbrev pub marks_of : Details → Marking
marks_of d = (d.requested_at, d.requested_deadline, d.request_version)

abbrev pub no_marks : Marking
no_marks = (none, none, none)

abbrev pub IsUnmarked : Spec → Type 0
IsUnmarked s = marks_of s.details ≡ no_marks

link_spec-IsUnmarked :
    (check : String) (a : Assignment) (links : List OwnerLink) (year : Option ℕ) (hint : String)
    → IsUnmarked (link_spec check a links year hint)
link_spec-IsUnmarked check a [] year hint = refl
link_spec-IsUnmarked check a (l ∷ links) year hint = refl

doc_spec-IsUnmarked :
    (check : String) (docs : List Document) (hint : String) → IsUnmarked (doc_spec check docs hint)
doc_spec-IsUnmarked check docs hint = ground arith

all_map :
    {A : Type 0} (f : A → Spec)
    → ((x : A) → IsUnmarked (f x))
    → (xs : List A) → All IsUnmarked (map f xs)
all_map f h [] = tt
all_map f h (x ∷ xs) = (h x, all_map f h xs)

owner_per_unit-IsUnmarked : (d : Data) (u : ManagedUnit) → IsUnmarked (owner_per_unit d u)
unfolding owner_per_unit
owner_per_unit-IsUnmarked d u = ground arith

owner_changes-IsUnmarked : (d : Data) (u : ManagedUnit) → IsUnmarked (owner_changes d u)
unfolding owner_changes
owner_changes-IsUnmarked d u = ground arith

owner_list-IsUnmarked : (d : Data) → IsUnmarked (owner_list_complete d)
owner_list-IsUnmarked d = ground arith

all_units-IsUnmarked : (m : List ManagedUnit → String) (d : Data) → IsUnmarked (all_units_known m d)
all_units-IsUnmarked m d = ground arith

annual_statement-IsUnmarked :
    (cfg : Settings) (f : ℕ → String) (d : Data) (a : Assignment) (y : ℕ)
    → IsUnmarked (annual_statement cfg f d a y)
unfolding annual_statement
annual_statement-IsUnmarked cfg f d a y = ground arith

business_plan-IsUnmarked : (d : Data) (a : Assignment) (y : ℕ) → IsUnmarked (business_plan d a y)
unfolding business_plan
business_plan-IsUnmarked d a y = ground arith

module _ (d : Data) (a : Assignment) where
  addresses-IsUnmarked : IsUnmarked (addresses d a)
  addresses-IsUnmarked = ground arith

  contact_data-IsUnmarked : (cfg : Settings) → IsUnmarked (contact_data cfg d a)
  contact_data-IsUnmarked cfg = ground arith

  balance-IsUnmarked : (code : String) → IsUnmarked (balance code d a)
  balance-IsUnmarked code = ground arith

  sepa_mandate-IsUnmarked : IsUnmarked (sepa_mandate d a)
  sepa_mandate-IsUnmarked = ground arith

  special_levy-IsUnmarked : (o : Option Bool) → All IsUnmarked (special_levy d a o)
  special_levy-IsUnmarked none = tt
  special_levy-IsUnmarked (some true) = (
    link_spec-IsUnmarked "special_levy" a (links_for d a ("sonderumlage_einzel" ∷ []) none) none
        "Unterlagen zur Sonderumlage fehlen",
    tt,
  )
  special_levy-IsUnmarked (some false) = (refl, tt)

  known_case-IsUnmarked :
      (code : String) (links : List OwnerLink) → IsUnmarked (known_case code a links)
  known_case-IsUnmarked code links = ground arith

  assignment_specs-IsUnmarked :
      (cfg : Settings) (f : ℕ → String) → All IsUnmarked (assignment_specs cfg f d a)
  unfolding assignment_specs
  assignment_specs-IsUnmarked cfg f = (
    addresses-IsUnmarked,
    (
      contact_data-IsUnmarked cfg,
      (
        link_spec-IsUnmarked "owner_accounts" a (links_for d a ("eigentuemerkonto" ∷ []) none) none
            "kein Eigentümerkonto zum Stichtag",
        (
          balance-IsUnmarked "open_house_fees",
          (
            balance-IsUnmarked "credits",
            (let statements = map (annual_statement cfg f d a) d.period.years in
                let plans = map (business_plan d a) d.period.plan_years in
                let levies = special_levy d a d.obj.special_levies_in_period in
                let agreements = links_for d a ("zahlungsvereinbarung" ∷ []) none in
                let dunning = links_for d a dunning_types none in
                All-append IsUnmarked ((statements ++ plans) ++ (sepa_mandate d a ∷ levies))
                  (known_case "payment_agreement" a agreements
                    ∷ known_case "dunning_procedure" a dunning
                    ∷ [])
                  (All-append IsUnmarked (statements ++ plans) (sepa_mandate d a ∷ levies)
                    (All-append IsUnmarked statements plans
                      (all_map (annual_statement cfg f d a) (annual_statement-IsUnmarked cfg f d a)
                        d.period.years)
                      (all_map (business_plan d a) (business_plan-IsUnmarked d a)
                        d.period.plan_years))
                    (
                      sepa_mandate-IsUnmarked,
                      special_levy-IsUnmarked d.obj.special_levies_in_period,
                    ))
                  (
                    known_case-IsUnmarked "payment_agreement" agreements,
                    (known_case-IsUnmarked "dunning_procedure" dunning, tt),
                  )),
          ),
        ),
      ),
    ),
  )

clarified-IsUnmarked :
    (code : String) (o : Option Bool) (q a : String) → IsUnmarked (clarified code o q a)
clarified-IsUnmarked code none q a = refl
clarified-IsUnmarked code (some true) q a = refl
clarified-IsUnmarked code (some false) q a = refl

object_specs-IsUnmarked : (d : Data) → All IsUnmarked (object_specs d)
object_specs-IsUnmarked d = (
  statements-IsUnmarked "open_house_fees",
  (
    statements-IsUnmarked "credits",
    (
      clarified-IsUnmarked "sepa_mandate" d.obj.sepa_used _ _,
      (clarified-IsUnmarked "special_levy" d.obj.special_levies_in_period _ _, (refl, (refl, tt))),
    ),
  ),
)
  where
    statements-IsUnmarked :
        (code : String)
        → IsUnmarked (
            doc_spec code
              (docs_by_type d "rueckstandsaufstellung")
              "Rückstands- und Guthabenaufstellung zum Stichtag fehlt")
    statements-IsUnmarked code =
        doc_spec-IsUnmarked code (docs_by_type d "rueckstandsaufstellung")
          "Rückstands- und Guthabenaufstellung zum Stichtag fehlt"

evaluate_weg-IsUnmarked :
    (cfg : Settings) (m : List ManagedUnit → String) (f : ℕ → String) (d : Data)
    → All IsUnmarked (evaluate_weg cfg m f d)
unfolding evaluate_weg
evaluate_weg-IsUnmarked cfg m f d = (
  owner_list-IsUnmarked d,
  (
    all_units-IsUnmarked m d,
    (let owners = map (owner_per_unit d) d.units in
        let changes = map (owner_changes d) d.units in
        let assigned =
          flat_map (λ (u : ManagedUnit). flat_map (assignment_specs cfg f d) (current d u.id))
            d.units in
        All-append IsUnmarked ((owners ++ changes) ++ assigned) (object_specs d)
          (All-append IsUnmarked (owners ++ changes) assigned
            (All-append IsUnmarked owners changes
              (all_map (owner_per_unit d) (owner_per_unit-IsUnmarked d) d.units)
              (all_map (owner_changes d) (owner_changes-IsUnmarked d) d.units))
            (All-flat_map IsUnmarked
              (λ (u : ManagedUnit). flat_map (assignment_specs cfg f d) (current d u.id)) d.units
              (λ u.
                All-flat_map IsUnmarked (assignment_specs cfg f d) (current d u.id)
                  (λ a. assignment_specs-IsUnmarked d a cfg f))))
          (object_specs-IsUnmarked d)),
  ),
)

tenancy_specs-IsUnmarked :
    (d : Data) (u : ManagedUnit) (tenants : List Tenancy)
    → All IsUnmarked (tenancy_specs d u tenants)
tenancy_specs-IsUnmarked d u [] = tt
tenancy_specs-IsUnmarked d u (m ∷ tenants) = (refl, (refl, (refl, (refl, (refl, tt)))))

tenant_per_unit-IsUnmarked :
    (u : ManagedUnit) (tenants : List Tenancy) → IsUnmarked (tenant_per_unit u tenants)
tenant_per_unit-IsUnmarked u tenants = ground arith

rental_unit-IsUnmarked : (d : Data) (u : ManagedUnit) → All IsUnmarked (rental_unit d u)
unfolding rental_unit
rental_unit-IsUnmarked d u = (
  tenant_per_unit-IsUnmarked u (tenants_by_unit d u.id),
  tenancy_specs-IsUnmarked d u (tenants_by_unit d u.id),
)

tenant_list-IsUnmarked : (d : Data) → IsUnmarked (tenant_list_complete d)
tenant_list-IsUnmarked d = ground arith

shared_specs-IsUnmarked :
    (m : List ManagedUnit → String) (d : Data) (b : Bool) → All IsUnmarked (shared_specs m d b)
shared_specs-IsUnmarked m d true = (all_units-IsUnmarked m d, tt)
shared_specs-IsUnmarked m d false = tt

evaluate_rental-IsUnmarked :
    (m : List ManagedUnit → String) (d : Data) (units : List ManagedUnit) (b : Bool)
    → All IsUnmarked (evaluate_rental m d units b)
unfolding evaluate_rental
evaluate_rental-IsUnmarked m d units b = (
  tenant_list-IsUnmarked d,
  All-append IsUnmarked (shared_specs m d b ++ flat_map (rental_unit d) units)
      (negative_proof_spec "tenant_accounts" ∷ negative_proof_spec "tenant_dunning_procedure" ∷ [])
      (All-append IsUnmarked (shared_specs m d b) (flat_map (rental_unit d) units)
        (shared_specs-IsUnmarked m d b)
        (All-flat_map IsUnmarked (rental_unit d) units (rental_unit-IsUnmarked d)))
      (refl, (refl, tt)),
)

rental_of_units-IsUnmarked :
    (m : List ManagedUnit → String) (d : Data) (units : List ManagedUnit)
    → All IsUnmarked (rental_of_units m d units)
rental_of_units-IsUnmarked m d [] = tt
rental_of_units-IsUnmarked m d (u ∷ units) = evaluate_rental-IsUnmarked m d (u ∷ units) false

rental_specs-IsUnmarked :
    (m : List ManagedUnit → String) (d : Data) → All IsUnmarked (rental_specs m d)
rental_specs-IsUnmarked m d =
    if_induction (All IsUnmarked) (str_eq d.obj.management_type "rental")
      (λ _. evaluate_rental-IsUnmarked m d d.units true)
      (λ _.
        if_induction (All IsUnmarked) (str_eq d.obj.management_type "weg_with_se")
          (λ _. rental_of_units-IsUnmarked m d (select is_se_managed d.units)) (λ _. tt))

catalog_spec-IsUnmarked : (d : Data) (c : CompletenessCheck) → IsUnmarked (catalog_spec d c)
catalog_spec-IsUnmarked d c =
    doc_spec-IsUnmarked c.code (flat_map (docs_by_type d) c.evidence_document_types) catalog_hint

evaluate_catalog-IsUnmarked :
    (d : Data) (checks : List CompletenessCheck) → All IsUnmarked (evaluate_catalog d checks)
unfolding evaluate_catalog
evaluate_catalog-IsUnmarked d checks = all_map (catalog_spec d) (catalog_spec-IsUnmarked d) _

-- No rule writes the marks of a request.
pub rule_specs-IsUnmarked :
    (cfg : Settings) (texts : Texts) (checks : List CompletenessCheck) (d : Data)
    → All IsUnmarked (rule_specs cfg texts checks d)
unfolding rule_specs
rule_specs-IsUnmarked cfg texts checks d =
    All-append IsUnmarked
      ((if is_weg d.obj.management_type
          then evaluate_weg cfg texts.mismatch texts.show_date d
          else [])
        ++ rental_specs texts.mismatch d)
      (evaluate_catalog d checks)
      (All-append IsUnmarked
        (if is_weg d.obj.management_type
          then evaluate_weg cfg texts.mismatch texts.show_date d
          else [])
        (rental_specs texts.mismatch d)
        (if_induction (All IsUnmarked) (is_weg d.obj.management_type)
          (λ _. evaluate_weg-IsUnmarked cfg texts.mismatch texts.show_date d) (λ _. tt))
        (rental_specs-IsUnmarked texts.mismatch d))
      (evaluate_catalog-IsUnmarked d checks)
