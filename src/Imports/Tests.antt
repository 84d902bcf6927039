-- ===== src/Imports/Tests.antt =====
-- A person of an imported list, and two owners that are known.
use objekt_bernahme_automati.Prelude.{
  ℕ, ◌*◌, ◌≡◌, refl, true, none, some, List, [], ◌∷◌, String, str_eq, if◌then◌else◌,
}
use objekt_bernahme_automati.Imports.Matching.{
  OwnerRecord, PersonQuery, natural_person, Signal, same_unit, OwnerCandidate, candidates,
  Thresholds, Similarity, points, match_owner,
}
use objekt_bernahme_automati.Imports.Certainty.{IsCertain, match_owner-IsCertain}

-- Names are the same or not; a name is its own normal form.
abbrev same : String → String → ℕ
same a b = if str_eq a b then 100 * points else 0

abbrev similarity : Similarity
similarity = record {
  ratio = same;
  token_set_ratio = same;
  partial_ratio = same;
  norm_name = λ s. s;
  norm_email = λ s. s;
}

abbrev thresholds : Thresholds
thresholds = record { auto_min = 90 * points; candidate_min = 78 * points }

abbrev weights : Signal → ℕ
weights s = 8 * points

abbrev owner : ℕ → String → List ℕ → OwnerRecord
owner id last_name units = record {
  id = id;
  type = natural_person;
  first_name = some "Anna";
  last_name = some last_name;
  company_name = none;
  email = none;
  postal_code = none;
  street = none;
  iban_hash_hex = none;
  unit_ids_in_object = units;
  has_assignment_in_object = true;
}

abbrev person : PersonQuery
person = record {
  type = natural_person;
  first_name = none;
  last_name = some "Meier";
  company_name = none;
  email = none;
  postal_code = none;
  street = none;
  iban_hash_hex = none;
  unit_id = some 7;
}

abbrev meier : OwnerCandidate
meier = record {
  owner_id = 2;
  score = 100 * points;
  base = 100 * points;
  signals = same_unit ∷ [];
  in_object = true;
}

match_owner-IsCertain_example :
    IsCertain similarity thresholds weights person
      (owner 1 "Schulz" [] ∷ owner 2 "Meier" (7 ∷ []) ∷ [])
      meier
unfolding match_owner
match_owner-IsCertain_example =
    match_owner-IsCertain similarity thresholds weights person
      (owner 1 "Schulz" [] ∷ owner 2 "Meier" (7 ∷ []) ∷ []) meier refl refl

-- The name alone, and two owners of one name.
by_name_only :
    (match_owner similarity thresholds weights person (owner 2 "Meier" [] ∷ [])).decision
    ≡ candidates
unfolding match_owner
by_name_only = refl

namesakes :
    (match_owner similarity thresholds weights person
      (owner 2 "Meier" (7 ∷ []) ∷ owner 3 "Meier" [] ∷ [])).decision
    ≡ candidates
unfolding match_owner
namesakes = refl
