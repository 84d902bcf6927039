-- ===== src/Parties/Tests.antt =====
-- Assignments of one unit that follow one another, and the theorems about them.
use objekt_bernahme_automati.Prelude.{
  IsIn, here, there, true, ℕ, ◌≡◌, refl, false, none, some, [], ◌∷◌, map, arith,
}
use objekt_bernahme_automati.Prelude.Keyed.{Distinct}
use objekt_bernahme_automati.Parties.Period.{periods_overlap, period_filter, year_start, year_end}
use objekt_bernahme_automati.Parties.Assignment.{
  Assignment, Registry, Request, incomplete, ok, create_assignment, end_assignment,
  owners_for_document, owners_at, collide,
}
use objekt_bernahme_automati.Prelude.{All}
use objekt_bernahme_automati.Parties.Overlaps.{find_overlaps}
use objekt_bernahme_automati.Parties.OverlapLaws.{Collides, find_overlaps-Collides}
use objekt_bernahme_automati.Parties.NoOverlap.{
  AllApart, create_assignment-AllApart, end_assignment_collides,
}

-- 1 January 2020 is day 737425, and 2020 is a leap year.
year_2020 : (year_start 2020 ≡ 737425) × (year_end 2020 ≡ 737790)
unfolding year_start year_end
year_2020 = (refl, refl)

-- The assignment of owner 5 to unit 1 from day 737425 to day 737790.
abbrev first : Assignment
first = record {
  id = 1;
  owner = 5;
  unit = 1;
  valid_from = some 737425;
  valid_to = some 737790;
  share = none;
  data_status = incomplete;
  confirmed_by = none;
  confirmed_at = none;
  notes = none;
  source_import_row = none;
  source_document = none;
  is_deleted = false;
}

-- The same owner again, from the day 738000 on.
abbrev second : Assignment
second = record first { id = 2; valid_from = some 738000; valid_to = none }

abbrev registry : Registry
registry = record {
  assignments = first ∷ second ∷ [];
  next_id = 3;
  owner_of = λ owner. record { search_name = "MUSTER"; is_deleted = false };
}

abbrev request : Request
request = record {
  owner = 5;
  unit = 1;
  valid_from = some 737700;
  valid_to = some 737800;
  share = none;
  data_status = incomplete;
  user = none;
  is_confirmed = false;
  notes = none;
  source_import_row = none;
  source_document = none;
}

registry-AllApart : AllApart registry.assignments
unfolding collide periods_overlap
registry-AllApart = ((refl, tt), (tt, tt))

registry-Distinct : Distinct (map (λ (x : Assignment). x.id) registry.assignments)
registry-Distinct = ((omega arith, tt), (tt, tt))

owners_of_2020 : owners_for_document registry 1 (some 2020) none none none ≡ some (first ∷ [])
unfolding owners_for_document period_filter
owners_of_2020 = refl

nobody_between : owners_at registry 1 737900 ≡ []
unfolding owners_at period_filter
nobody_between = refl

create_assignment-AllApart_example : AllApart (create_assignment 9 request registry).1.assignments
create_assignment-AllApart_example = create_assignment-AllApart 9 request registry registry-AllApart

end_assignment_collides_example :
    let ended = record first { valid_to = some 738100 } in
    let rows = (end_assignment first 738100 registry).1.assignments in
    ((end_assignment first 738100 registry).0 ≡ ok ended)
    × IsIn ended rows
    × IsIn second rows
    × (collide ended second ≡ true)
end_assignment_collides_example =
    end_assignment_collides first second 738100 registry here (there here) refl (omega arith) refl
      (omega arith) (omega arith)

-- The first assignment was given a later end, so that it reaches into the second.
abbrev prolonged : Registry
prolonged = record registry { assignments = second ∷ record first { valid_to = some 738100 } ∷ [] }

one_overlap : map {B = ℕ × ℕ} (λ p. (p.0.id, p.1.id)) (find_overlaps none prolonged) ≡ (1, 2) ∷ []
unfolding find_overlaps periods_overlap
one_overlap = refl

find_overlaps-Collides_example : All Collides (find_overlaps (some 1) prolonged)
find_overlaps-Collides_example = find_overlaps-Collides (some 1) prolonged
