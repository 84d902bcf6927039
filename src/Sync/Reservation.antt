-- ===== src/Sync/Reservation.antt =====
-- src/apps/sync/operations.py: `reserve`, by one worker and by several.
use mathlib.Core.Option
use objekt_bernahme_automati.Prelude.{
  ℕ, ◌+◌, ◌==◌, ==_iff, ◌≡◌, ◌≢◌, refl, ap, ◌∙◌, Bool, true, false, Option, none, some, List, [],
  ◌∷◌, String, arith, Bool-cases, Option-cases, inl, inr, if◌then◌else◌, if_induction,
}
use objekt_bernahme_automati.Prelude.Table.{find, update, exists}
use objekt_bernahme_automati.Prelude.Keyed.{row-update, row-update_others, exists-row, holds_at}
use objekt_bernahme_automati.Sync.Operation.{Operation}
use objekt_bernahme_automati.Sync.Queue.{
  World, has_id, is_free, reservable, locked, count_attempt, reserve,
}
use objekt_bernahme_automati.Sync.Validity.{IsValid, SameRows-IsValid, reserve-SameRows}

-- The row with an id.
abbrev pub row : ℕ → World → Option Operation
row pk w = find (has_id pk) w.operations

-- The row that a reservation leaves.
abbrev pub reserved : ℕ → String → Operation → Operation
reserved now worker o = record (locked now worker o) { attempt_count = o.attempt_count + 1 }

pub row-update_rows :
    (p : Operation → Bool) (f : Operation → Operation) (pk : ℕ) (w : World)
    → ((o : Operation) → (f o).id ≡ o.id)
    → find (has_id pk) (update p f w.operations)
      ≡ Option.map (λ o. if p o then f o else o) (row pk w)
row-update_rows p f pk w h = row-update (λ (o : Operation). o.id) p f h pk w.operations

pub find_id :
    (pk : ℕ) (xs : List Operation) (o : Operation) → find (has_id pk) xs ≡ some o → o.id ≡ pk
find_id pk [] o e = cc
find_id pk (x ∷ xs) o e = ground (arith, find_id pk xs o)

module _ (now pk : ℕ) (worker : String) (w : World) (v : IsValid w) where
  exists-reservable :
      exists (reservable now pk) w.operations
      ≡ holds_at (λ (o : Operation). o.id) (is_free now) (row pk w)
  exists-reservable =
      exists-row (λ (o : Operation). o.id) (is_free now) pk w.operations v.distinct_ids

  -- In a table with unique ids, a pending row that is due goes to the worker that reserves it,
  -- and in the table it is then marked as running, with one attempt more.
  pub reserve_free :
      (o : Operation)
      → row pk w ≡ some o
      → is_free now o ≡ true
      → ((reserve now pk worker w).0 ≡ some (reserved now worker o))
        × (row pk (reserve now pk worker w).1 ≡ some (reserved now worker o))
  unfolding reserve
  reserve_free o e h =
      let i : (o.id == pk) ≡ true = (==_iff o.id pk).1 (find_id pk w.operations o e) in
      let x : exists (reservable now pk) w.operations ≡ true = exists-reservable ∙ rw e h in
      let a : find (has_id pk) (update (reservable now pk) (locked now worker) w.operations)
          ≡ some (locked now worker o) =
        row-update_rows (reservable now pk) (locked now worker) pk w (λ o. refl) ∙ rw (e, i, h) in
      rw (x, a)
        (
          refl,
          row-update (λ (o : Operation). o.id) (has_id o.id) _ (λ r. refl) pk _
              ∙ rw (a, (==_iff o.id o.id).1 refl),
        )

  pub reserve_refused :
      holds_at (λ (o : Operation). o.id) (is_free now) (row pk w) ≡ false
      → reserve now pk worker w ≡ (none, w)
  unfolding reserve
  reserve_refused h = rw (exists-reservable, h)

  others_count :
      (j : ℕ)
      → j ≢ pk
      → (found : Option Operation) → ((o : Operation) → found ≡ some o → o.id ≡ pk)
      → (u : World) → row j (count_attempt found u).1 ≡ row j u
  others_count j n none i u = refl
  others_count j n (some o) i u =
      let k : o.id ≡ pk = i o refl in
      row-update_others (λ (r : Operation). r.id) _ _ j (λ r. refl) (λ r h. ground arith)
        u.operations

  -- A reservation leaves the rows of all other operations as they were.
  pub reserve_others : (j : ℕ) → j ≢ pk → row j (reserve now pk worker w).1 ≡ row j w
  unfolding reserve
  reserve_others j n =
      if_induction (λ (r : Option Operation × World). row j r.1 ≡ row j w)
        (exists (reservable now pk) w.operations)
        (λ _.
          others_count j n _ (λ o. find_id pk _ o)
            (record w { operations = update (reservable now pk) (locked now worker) w.operations })
          ∙ row-update_others (λ (o : Operation). o.id) _ _ j (λ o. refl) (λ o h. ground arith)
              w.operations)
        (λ _. refl)

-- A message that is delivered twice runs once: in a table with unique ids, after a worker has
-- reserved an operation, a further reservation of it, by any worker and at any time, gets
-- nothing and changes nothing.
pub reserve_once :
    (now pk : ℕ) (worker : String) (w : World) (op : Operation) (w' : World) (now' : ℕ)
    (worker' : String)
    → IsValid w
    → reserve now pk worker w ≡ (some op, w')
    → reserve now' pk worker' w' ≡ (none, w')
reserve_once now pk worker w op w' now' worker' v e = elim (Option-cases (row pk w)) [
  | inl missing ↦ cc (reserve_refused now pk worker w v (rw missing refl))
  | inr (o, found) ↦ elim (Bool-cases (is_free now o)) [
    | inl free ↦
        let e' : (reserve now pk worker w).1 ≡ w' = ap (λ (r : Option Operation × World). r.1) e in
        reserve_refused now' pk worker' w'
          (rw e' at (SameRows-IsValid (reserve-SameRows now pk worker w) v))
          (rw (rw e' at (reserve_free now pk worker w v o found free).1) refl)
    | inr busy ↦ cc (reserve_refused now pk worker w v (rw found busy))
  ]
]
