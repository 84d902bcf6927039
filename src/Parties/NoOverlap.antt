-- ===== src/Parties/NoOverlap.antt =====
-- src/apps/parties/services.py: assignments of one owner to one unit, and how the operations
-- change them.
use mathlib.Core.Option.{some-injective}
use objekt_bernahme_automati.Prelude.{
  ℕ, ◌≤◌, ==_iff, ◌≡◌, ◌≢◌, refl, sym, subst, ◌∙◌, Bool, true, false, ◌&&◌, Option, none, some,
  List, [], ◌∷◌, ◌++◌, map, arith, Bool-cases, inl, inr, if_induction, All, All-append, All-imp,
  IsIn,
}
use objekt_bernahme_automati.Prelude.Table.{
  find, update, All-of_find-none, find_passes, order_by, All-of_order_by, IsIn-updated,
  IsIn-not_updated,
}
use objekt_bernahme_automati.Prelude.Keyed.{Distinct, find-key}
use objekt_bernahme_automati.Parties.Period.{date_min, date_max, date_or, periods_overlap}
use objekt_bernahme_automati.Parties.Assignment.{
  Assignment, Registry, Request, Result, ok, err, overlap, is_active, is_reversed, clashes,
  by_start, first_clash, new_assignment, create_at, create_assignment, has_id, end_assignment,
  same_pair, collide,
}

-- Two rows do not stand in each other's way: one is deleted, or they are of another owner or unit,
-- or their periods have no day in common.
abbrev pub Apart : Assignment → Assignment → Type 0
Apart a b = (is_active a && is_active b) && collide a b ≡ false

-- Every row is apart from all that follow it.
abbrev pub AllApart : List Assignment → Type 0
AllApart [] = Unit
AllApart (a ∷ rest) = All (Apart a) rest × AllApart rest

pub Apart-symm : (a b : Assignment) → Apart a b → Apart b a
unfolding collide periods_overlap
Apart-symm a b h = ground arith

AllApart-snoc :
    (xs : List Assignment) (b : Assignment)
    → AllApart xs
    → All (λ a. Apart a b) xs
    → AllApart (xs ++ b ∷ [])
AllApart-snoc [] b h k = (tt, tt)
AllApart-snoc (a ∷ xs) b h k =
    (All-append (Apart a) xs (b ∷ []) h.0 (k.0, tt), AllApart-snoc xs b h.1 k.1)

-- A row that does not clash with the request is apart from the row that the request creates.
no_clash-Apart :
    (now id : ℕ) (q : Request) (a : Assignment)
    → clashes q a ≡ false
    → Apart a (new_assignment now id q)
unfolding collide periods_overlap new_assignment
no_clash-Apart now id q a h = ground arith

-- If no two assignments of an owner to a unit overlap, none do after `create_assignment`,
-- whether it succeeds or raises.
pub create_assignment-AllApart :
    (now : ℕ) (q : Request) (r : Registry)
    → AllApart r.assignments
    → AllApart (create_assignment now q r).1.assignments
unfolding create_assignment
create_assignment-AllApart now q r h =
    if_induction (λ (c : Result (Assignment × Option ℕ) × Registry). AllApart c.1.assignments)
      (is_reversed q.valid_from q.valid_to) (λ _. h) (λ _. at_found (first_clash q r) refl)
  where
    at_found :
        (found : Option Assignment)
        → first_clash q r ≡ found
        → AllApart (create_at now q found r).1.assignments
    at_found none e = AllApart-snoc r.assignments (new_assignment now r.next_id q) h (
        All-imp (λ a. clashes q a ≡ false) (λ a. Apart a (new_assignment now r.next_id q))
          r.assignments (no_clash-Apart now r.next_id q)
          (All-of_order_by (λ a. clashes q a ≡ false) by_start r.assignments
            (All-of_find-none (clashes q) (order_by by_start r.assignments) e)))
    at_found (some other) e = h

-- A request with its period in order, for which a clashing row is found, is refused with the id
-- of the row, changes nothing, and the row does clash with it.
pub create_assignment_refused :
    (now : ℕ) (q : Request) (r : Registry) (other : Assignment)
    → is_reversed q.valid_from q.valid_to ≡ false
    → first_clash q r ≡ some other
    → (create_assignment now q r ≡ (err (overlap other.id), r)) × (clashes q other ≡ true)
unfolding create_assignment
create_assignment_refused now q r other o e =
    (rw (o, e), find_passes (clashes q) (order_by by_start r.assignments) other e)

-- An end that is not later than before only shortens a period.
shortened-Apart :
    (a b : Assignment) (valid_to : ℕ)
    → valid_to ≤ date_or a.valid_to date_max
    → Apart a b
    → Apart (record a { valid_to = some valid_to }) b
unfolding collide periods_overlap
shortened-Apart a b valid_to h k = ground arith

module _ (p : Assignment → Bool) (f : Assignment → Assignment) (Good : Assignment → Type 0)
    (keeps : (a b : Assignment) → p a ≡ true → Good a → Apart a b → Apart (f a) b) where
  Apart-from_updated :
      (a : Assignment) (xs : List Assignment)
      → All Good xs
      → All (Apart a) xs
      → All (Apart a) (update p f xs)
  Apart-from_updated a [] g h = tt
  Apart-from_updated a (x ∷ xs) g h = elim (Bool-cases (p x)) [
    | inl e ↦
        rw e (
          Apart-symm (f x) a (keeps x a e g.0 (Apart-symm a x h.0)),
          Apart-from_updated a xs g.1 h.1,
        )
    | inr e ↦ rw e (h.0, Apart-from_updated a xs g.1 h.1)
  ]

  updated-Apart :
      (a : Assignment) (xs : List Assignment)
      → p a ≡ true
      → Good a
      → All (Apart a) xs
      → All (Apart (f a)) xs
  updated-Apart a [] e g h = tt
  updated-Apart a (x ∷ xs) e g h = (keeps a x e g h.0, updated-Apart a xs e g h.1)

  AllApart-update : (xs : List Assignment) → All Good xs → AllApart xs → AllApart (update p f xs)
  AllApart-update [] g h = tt
  AllApart-update (x ∷ xs) g h = elim (Bool-cases (p x)) [
    | inl e ↦
        rw e (
          Apart-from_updated (f x) xs g.1 (updated-Apart x xs e g.0 h.0),
          AllApart-update xs g.1 h.1,
        )
    | inr e ↦ rw e (Apart-from_updated x xs g.1 h.0, AllApart-update xs g.1 h.1)
  ]

-- In a table with unique ids, ending an assignment of the table no later than it ended before
-- keeps all assignments apart.
pub end_assignment-AllApart :
    (a : Assignment) (valid_to : ℕ) (r : Registry)
    → Distinct (map (λ (x : Assignment). x.id) r.assignments)
    → find (has_id a.id) r.assignments ≡ some a
    → valid_to ≤ date_or a.valid_to date_max
    → AllApart r.assignments
    → AllApart (end_assignment a valid_to r).1.assignments
unfolding end_assignment
end_assignment-AllApart a valid_to r d e h k =
    if_induction (λ (c : Result Assignment × Registry). AllApart c.1.assignments)
      (is_reversed a.valid_from (some valid_to)) (λ _. k)
      (λ _.
        AllApart-update (has_id a.id) (λ row. record row { valid_to = some valid_to })
          (λ x. find (has_id x.id) r.assignments ≡ some x)
          (λ x b i found s.
            let same : a ≡ x = some-injective a x (
              sym e
              ∙ subst (λ k. find (has_id k) r.assignments ≡ some x) ((==_iff x.id a.id).0 i)
                  found) in
            shortened-Apart x b valid_to
              (subst (λ (y : Assignment). valid_to ≤ date_or y.valid_to date_max) same h) s)
          r.assignments (find-key (λ (x : Assignment). x.id) r.assignments d) k)

overlapping :
    (a b : Assignment) (valid_to : ℕ)
    → same_pair a b ≡ true
    → date_or a.valid_from date_min ≤ date_or b.valid_to date_max
    → date_or b.valid_from date_min ≤ valid_to
    → collide (record a { valid_to = some valid_to }) b ≡ true
unfolding collide periods_overlap
overlapping a b valid_to pair l m = ground arith

-- Nothing checks that a later end stays clear of the owner's other assignments: where two rows of the
-- table, wherever they stand in it, belong to one owner and one unit, the new end of the first is not
-- before its own start and not before the start of the second, and the first does not start after the
-- end of the second, the call succeeds, and the table then has the first row with the new end and the
-- second row as it was, and these two overlap. An open start or end is the calendar's first or last day.
pub end_assignment_collides :
    (a b : Assignment) (valid_to : ℕ) (r : Registry)
    → IsIn a r.assignments
    → IsIn b r.assignments
    → same_pair a b ≡ true
    → a.id ≢ b.id
    → is_reversed a.valid_from (some valid_to) ≡ false
    → date_or a.valid_from date_min ≤ date_or b.valid_to date_max
    → date_or b.valid_from date_min ≤ valid_to
    → let ended = record a { valid_to = some valid_to } in
      let rows = (end_assignment a valid_to r).1.assignments in
      ((end_assignment a valid_to r).0 ≡ ok ended)
      × IsIn ended rows
      × IsIn b rows
      × (collide ended b ≡ true)
unfolding end_assignment
end_assignment_collides a b valid_to r m n pair d i l h =
    let p = has_id a.id in
    let f = λ (row : Assignment). record row { valid_to = some valid_to } in
    let other : has_id a.id b ≡ false = ground (arith, d) in
    (
      rw i,
      rw i (IsIn-updated p f ((==_iff a.id a.id).1 refl) m),
      rw i (IsIn-not_updated p f other n),
      overlapping a b valid_to pair l h,
    )
