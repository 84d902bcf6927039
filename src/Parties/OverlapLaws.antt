-- ===== src/Parties/OverlapLaws.antt =====
-- src/apps/parties/services.py: what `find_overlaps` reports.
use objekt_bernahme_automati.Prelude.{
  ◌≡◌, Bool, true, ◌&&◌, Bool-cases, inl, inr, Option, List, [], ◌∷◌, map, All, All-append, All-map,
  All-imp, arith, ℕ,
}
use objekt_bernahme_automati.Prelude.Table.{select, order_by, All-select, All-order_by}
use objekt_bernahme_automati.Parties.Assignment.{
  Assignment, Registry, is_active, same_pair, collide,
}
use objekt_bernahme_automati.Parties.Overlaps.{
  of_unit, by_pair_and_start, insert_group, grouped, meets, pairs_of, pairs_of_all, find_overlaps,
}

-- An active row, in the group of the row `k`.
abbrev InGroup : Assignment → Assignment → Type 0
InGroup k a = (same_pair k a ≡ true) × (is_active a ≡ true)

abbrev IsGroup : List Assignment → Type 0
IsGroup [] = Unit
IsGroup (k ∷ rest) = All (InGroup k) (k ∷ rest)

-- Two active rows of one owner and one unit whose periods overlap.
abbrev pub Collides : Assignment × Assignment → Type 0
Collides (a, b) = (collide a b ≡ true) × (is_active a ≡ true) × (is_active b ≡ true)

same_self : (a : Assignment) → same_pair a a ≡ true
same_self a = ground arith

insert_group-IsGroup :
    (a : Assignment) (groups : List (List Assignment))
    → is_active a ≡ true
    → All IsGroup groups
    → All IsGroup (insert_group a groups)
unfolding insert_group
insert_group-IsGroup a [] h g = (((same_self a, h), tt), tt)
insert_group-IsGroup a ([] ∷ groups) h g = (tt, insert_group-IsGroup a groups h g.1)
insert_group-IsGroup a ((b ∷ bs) ∷ groups) h g = elim (Bool-cases (same_pair b a)) [
  | inl e ↦ rw e ((g.0.0, All-append (InGroup b) bs (a ∷ []) g.0.1 ((e, h), tt)), g.1)
  | inr e ↦ rw e (g.0, insert_group-IsGroup a groups h g.1)
]

grouped-IsGroup :
    (rows : List Assignment) (groups : List (List Assignment))
    → All (λ a. is_active a ≡ true) rows
    → All IsGroup groups
    → All IsGroup (grouped rows groups)
unfolding grouped
grouped-IsGroup [] groups h g = g
grouped-IsGroup (a ∷ rest) groups h g =
    grouped-IsGroup rest (insert_group a groups) h.1 (insert_group-IsGroup a groups h.0 g)

pair-Collides :
    (k a b : Assignment) → InGroup k a → InGroup k b → meets a b ≡ true → Collides (a, b)
unfolding collide
pair-Collides k a b h g m = (ground (arith, h.0, g.0, m), h.1, g.1)

pairs_of-Collides :
    (k : Assignment) (rows : List Assignment) → All (InGroup k) rows → All Collides (pairs_of rows)
unfolding pairs_of
pairs_of-Collides k [] h = tt
pairs_of-Collides k (a ∷ rest) h =
    All-append Collides (map (λ b. (a, b)) (select (meets a) rest)) (pairs_of rest)
      (All-map Collides (λ b. (a, b)) (select (meets a) rest)
        (All-imp (λ b. InGroup k b × (meets a b ≡ true)) (λ b. Collides (a, b))
          (select (meets a) rest) (λ b g. pair-Collides k a b h.0 g.0 g.1)
          (All-select (InGroup k) (meets a) rest h.1)))
      (pairs_of-Collides k rest h.1)

group-Collides : (rows : List Assignment) → IsGroup rows → All Collides (pairs_of rows)
unfolding pairs_of
group-Collides [] h = tt
group-Collides (k ∷ rest) h = pairs_of-Collides k (k ∷ rest) h

pairs_of_all-Collides :
    (groups : List (List Assignment)) → All IsGroup groups → All Collides (pairs_of_all groups)
unfolding pairs_of_all
pairs_of_all-Collides [] h = tt
pairs_of_all-Collides (rows ∷ groups) h =
    All-append Collides (pairs_of rows) (pairs_of_all groups) (group-Collides rows h.0)
      (pairs_of_all-Collides groups h.1)

first : (a b : Bool) → (a && b) ≡ true → a ≡ true
first a b e = ground (arith, e)

-- The nightly search reports nothing but violations: whatever the table, and for one unit or for all,
-- each pair that `find_overlaps` returns are two active assignments of one owner to one unit whose
-- periods overlap.
pub find_overlaps-Collides : (unit : Option ℕ) (r : Registry) → All Collides (find_overlaps unit r)
unfolding find_overlaps
find_overlaps-Collides unit r =
    let rows = select (λ a. is_active a && of_unit unit a) r.assignments in
    pairs_of_all-Collides (grouped (order_by by_pair_and_start rows) []) (
      grouped-IsGroup (order_by by_pair_and_start rows) []
        (All-order_by (λ a. is_active a ≡ true) by_pair_and_start rows (active r.assignments)) tt)
  where
    active :
        (xs : List Assignment)
        → All (λ a. is_active a ≡ true) (select (λ a. is_active a && of_unit unit a) xs)
    active [] = tt
    active (x ∷ xs) = elim (Bool-cases (is_active x && of_unit unit x)) [
      | inl e ↦ rw e (first (is_active x) (of_unit unit x) e, active xs)
      | inr e ↦ rw e (active xs)
    ]
