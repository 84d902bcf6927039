-- ===== src/Parties/Overlaps.antt =====
-- src/apps/parties/services.py: `find_overlaps`, the nightly search for assignments that overlap.
use objekt_bernahme_automati.Prelude.{
  ℕ, suc, ◌==◌, Bool, true, ◌&&◌, ◌||◌, Option, none, some, List, [], ◌∷◌, ◌++◌, map, ltb, leb,
  if◌then◌else◌,
}
use objekt_bernahme_automati.Prelude.Table.{select, order_by}
use objekt_bernahme_automati.Parties.Period.{periods_overlap}
use objekt_bernahme_automati.Parties.Assignment.{Assignment, Registry, is_active, same_pair}

abbrev start_key : Option ℕ → ℕ
start_key none = 0
start_key (some s) = suc s

-- `order_by("unit_id", "owner_id", "valid_from", "id")`; an open start comes first.
abbrev pub by_pair_and_start : Assignment → Assignment → Bool
by_pair_and_start a b =
    ltb a.unit b.unit
    || a.unit == b.unit
      && (ltb a.owner b.owner
          || a.owner == b.owner
            && (ltb (start_key a.valid_from) (start_key b.valid_from)
                || start_key a.valid_from == start_key b.valid_from && leb a.id b.id))

-- `qs.filter(unit=unit)`, if a unit is given.
abbrev pub of_unit : Option ℕ → Assignment → Bool
of_unit none a = true
of_unit (some unit) a = a.unit == unit

-- `by_pair.setdefault((a.unit_id, a.owner_id), []).append(a)`: the groups in the order of their keys'
-- first rows.
unfoldable pub insert_group : Assignment → List (List Assignment) → List (List Assignment)
insert_group a [] = (a ∷ []) ∷ []
insert_group a ([] ∷ groups) = [] ∷ insert_group a groups
insert_group a ((b ∷ bs) ∷ groups) =
    let later = (b ∷ bs) ∷ insert_group a groups in
    if same_pair b a then (b ∷ (bs ++ a ∷ [])) ∷ groups else later

unfoldable pub grouped : List Assignment → List (List Assignment) → List (List Assignment)
unfolding insert_group
grouped [] groups = groups
grouped (a ∷ rest) groups = grouped rest (insert_group a groups)

abbrev pub meets : Assignment → Assignment → Bool
meets a b = periods_overlap a.valid_from a.valid_to b.valid_from b.valid_to

-- The two inner loops, over one group.
unfoldable pub pairs_of : List Assignment → List (Assignment × Assignment)
pairs_of [] = []
pairs_of (a ∷ rest) = map (λ b. (a, b)) (select (meets a) rest) ++ pairs_of rest

unfoldable pub pairs_of_all : List (List Assignment) → List (Assignment × Assignment)
unfolding pairs_of
pairs_of_all [] = []
pairs_of_all (rows ∷ groups) = pairs_of rows ++ pairs_of_all groups

unfoldable pub find_overlaps : Option ℕ → Registry → List (Assignment × Assignment)
unfolding grouped pairs_of_all
find_overlaps unit r =
    let rows = select (λ a. is_active a && of_unit unit a) r.assignments in
    pairs_of_all (grouped (order_by by_pair_and_start rows) [])
