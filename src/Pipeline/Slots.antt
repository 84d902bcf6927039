-- ===== src/Pipeline/Slots.antt =====
-- src/apps/pipeline/runs.py: how many runs are running at once, and of which objects.
use mathlib.Core.Option.{some-injective}
use objekt_bernahme_automati.Prelude.{
  ℕ, ◌+◌, ◌-◌, ◌≤◌, ◌<◌, ◌==◌, ◌≡◌, refl, sym, ap, subst, ◌∙◌, Bool, true, false, ◌&&◌, Bool-cases,
  inl, inr, if_induction, some, List, [], ◌∷◌, map, length, take, length-take-le, All, All-imp,
  All-take, ==_iff, leb, leb→le, arith,
}
use objekt_bernahme_automati.Prelude.Table.{
  count, exists, select, update, order_by, map-update, All-update, find, All-select, All-order_by,
}
use objekt_bernahme_automati.Prelude.Keyed.{Distinct, is_row, count-update_row_le, find-key}
use objekt_bernahme_automati.Pipeline.Run.{Run}
use objekt_bernahme_automati.Pipeline.World.{World, Config}
use objekt_bernahme_automati.Pipeline.Runs.{
  has_run_id, queued, occupies, by_creation, started, occupied, start_each, start_waiting,
}
use objekt_bernahme_automati.Pipeline.Feeding.{schedule_runs}
use objekt_bernahme_automati.Pipeline.Induction.{KeepsSlot, IsPreserved, P-dispatch_each}

-- Runs with their ids, no two the same.
abbrev pub HasRunIds : List Run → Type 0
HasRunIds rs = Distinct (map (λ (r : Run). r.id) rs)

-- A test that an update does not change counts the same rows afterwards.
count-update_same :
    {A : Type 0} (q p : A → Bool) (f : A → A)
    → ((x : A) → q (f x) ≡ q x)
    → (xs : List A) → count q (update p f xs) ≡ count q xs
count-update_same q p f h [] = refl
count-update_same q p f h (x ∷ xs) = ground (arith, count-update_same q p f h xs, h x)

count-exists : {A : Type 0} (q : A → Bool) (xs : List A) → exists q xs ≡ false → count q xs ≡ 0
count-exists q [] e = refl
count-exists q (x ∷ xs) e = ground (arith, count-exists q xs)

count-update_rows_le :
    {A : Type 0} (q p : A → Bool) (f : A → A) (xs : List A)
    → All (λ x. p x ≡ true → q (f x) ≡ true → q x ≡ true) xs
    → count q (update p f xs) ≤ count q xs
count-update_rows_le q p f [] h = omega arith
count-update_rows_le q p f (x ∷ xs) h = ground (arith, count-update_rows_le q p f xs h.1, h.0)

-- A running run of one object.
abbrev pub running_of : ℕ → Run → Bool
running_of object r = r.object == object && occupies r

-- The tests that `dispatch_run` does not change.
abbrev IsSlotTest : (Run → Bool) → Type 0
IsSlotTest q = (f : Run → Run) → KeepsSlot f → (r : Run) → q (f r) ≡ q r

occupies-IsSlotTest : IsSlotTest occupies
occupies-IsSlotTest f k r = rw (k.same_status r, k.same_type r) refl

running_of-IsSlotTest : (object : ℕ) → IsSlotTest (running_of object)
running_of-IsSlotTest object f k r = rw (k.same_object r, k.same_status r, k.same_type r) refl

count-IsPreserved :
    (cfg : Config) (q : Run → Bool)
    → IsSlotTest q
    → (n : ℕ) → IsPreserved cfg (λ w. count q w.runs ≤ n)
count-IsPreserved cfg q t n = record {
  said = λ w events calls h. h;
  marked = λ w p f k h. h;
  added = λ w now key r h. h;
  reset = λ w documents cases h. h;
  totalled = λ w p f k h. omega (arith, h, count-update_same q p f (t f k) w.runs);
}

module _ (cfg : Config) (now : ℕ) where
  ids-start :
      (pk : ℕ) (rs : List Run)
      → HasRunIds rs
      → HasRunIds (update (has_run_id pk) (started cfg now) rs)
  ids-start pk rs d =
      subst Distinct
        (sym (map-update (λ (r : Run). r.id) (has_run_id pk) (started cfg now) (λ _. refl) rs)) d

  count-start_each :
      (todo rs : List Run)
      → HasRunIds rs
      → count occupies (start_each cfg now todo rs).1 ≤ count occupies rs + length todo
  unfolding start_each
  count-start_each [] rs d = omega arith
  count-start_each (r ∷ todo) rs d = elim (Bool-cases (occupied r.object rs)) [
    | inl busy ↦ rw busy (omega (arith, count-start_each todo rs d))
    | inr free ↦ rw free (
        omega (
          arith,
          count-start_each todo (update (has_run_id r.id) (started cfg now) rs)
              (ids-start r.id rs d),
          count-update_row_le (λ (r : Run). r.id) occupies (started cfg now) r.id rs d,
        ))
  ]

  -- The loop's copy of a run has the object of the table's row.
  abbrev Agrees : List Run → Run → Type 0
  Agrees rs r = All (λ (row : Run). row.id ≡ r.id → row.object ≡ r.object) rs

  Agrees-start :
      (pk : ℕ) (r : Run) (rs : List Run)
      → Agrees rs r
      → Agrees (update (has_run_id pk) (started cfg now) rs) r
  Agrees-start pk r rs h =
      All-update (λ (row : Run). row.id ≡ r.id → row.object ≡ r.object) (has_run_id pk)
        (started cfg now) (λ _ _ k. k) rs h

  running-start :
      (object : ℕ) (r : Run) (rs : List Run)
      → HasRunIds rs
      → Agrees rs r
      → occupied r.object rs ≡ false
      → count (running_of object) rs ≤ 1
      → count (running_of object) (update (has_run_id r.id) (started cfg now) rs) ≤ 1
  running-start object r rs d a free h = elim (Bool-cases (r.object == object)) [
    | inl same ↦
        let none_yet : count (running_of r.object) rs ≡ 0 =
          count-exists (running_of r.object) rs free in
        omega (
          arith,
          subst (λ o. count (running_of o) rs ≡ 0) ((==_iff r.object object).0 same) none_yet,
          count-update_row_le (λ (row : Run). row.id) (running_of object) (started cfg now) r.id rs
              d,
        )
    | inr other ↦ omega (
      arith,
      h,
      count-update_rows_le (running_of object) (has_run_id r.id) (started cfg now) rs (
          All-imp (λ (row : Run). row.id ≡ r.id → row.object ≡ r.object) _ rs
            (λ row k e q. ground (arith, other, k ((==_iff row.id r.id).0 e), q)) a),
    )
  ]

  running-start_each :
      (object : ℕ) (todo rs : List Run)
      → HasRunIds rs
      → All (Agrees rs) todo
      → count (running_of object) rs ≤ 1
      → count (running_of object) (start_each cfg now todo rs).1 ≤ 1
  unfolding start_each
  running-start_each object [] rs d a h = h
  running-start_each object (r ∷ todo) rs d a h = elim (Bool-cases (occupied r.object rs)) [
    | inl busy ↦ rw busy (running-start_each object todo rs d a.1 h)
    | inr free ↦ rw free (
        running-start_each object todo (update (has_run_id r.id) (started cfg now) rs)
          (ids-start r.id rs d)
          (All-imp (Agrees rs) (Agrees (update (has_run_id r.id) (started cfg now) rs)) todo
            (λ x. Agrees-start r.id x rs) a.1)
          (running-start object r rs d a.0 free h))
  ]

  agree : (rs : List Run) → HasRunIds rs → All (Agrees rs) rs
  agree rs d =
      let found = find-key (λ (r : Run). r.id) rs d in
      All-imp (λ (r : Run). find (is_row (λ (x : Run). x.id) r.id) rs ≡ some r) (Agrees rs) rs
        (λ r e.
          All-imp (λ (x : Run). find (is_row (λ (y : Run). y.id) x.id) rs ≡ some x)
            (λ (x : Run). x.id ≡ r.id → x.object ≡ r.object) rs
            (λ x g i.
              ap (λ (y : Run). y.object)
                (some-injective x r
                  (sym g ∙ subst (λ k. find (is_row (λ (y : Run). y.id) k) rs ≡ some r) (sym i) e)))
            found)
        found

  pub start_waiting_bounded :
      (w : World) (n : ℕ)
      → HasRunIds w.runs
      → cfg.max_parallel ≤ n
      → count occupies w.runs ≤ n
      → count occupies (start_waiting cfg now w).1.runs ≤ n
  unfolding start_waiting
  start_waiting_bounded w n d m h =
      let free = cfg.max_parallel - count occupies w.runs in
      let todo = take free (order_by by_creation (select queued w.runs)) in
      if_induction (λ (e : List ℕ × World). count occupies e.1.runs ≤ n)
        (leb cfg.max_parallel (count occupies w.runs)) (λ _. h)
        (λ room. omega (
          arith,
          leb→le cfg.max_parallel (count occupies w.runs),
          ltb_of room,
          count-start_each todo w.runs d,
          length-take-le free (order_by by_creation (select queued w.runs)),
        ))
    where
      ltb_of :
          leb cfg.max_parallel (count occupies w.runs) ≡ false
          → count occupies w.runs < cfg.max_parallel
      ltb_of e = ground arith

  -- At most `processing.max_parallel_objects` runs of the serial types are running after
  -- `schedule_runs`, or as many as before if they were more: in a table of runs with unique ids,
  -- no bound at or above the setting is passed.
  pub schedule_runs_bounded :
      (w : World) (n : ℕ)
      → HasRunIds w.runs
      → cfg.max_parallel ≤ n
      → count occupies w.runs ≤ n
      → count occupies (schedule_runs cfg now w).1.runs ≤ n
  unfolding schedule_runs
  schedule_runs_bounded w n d m h =
      if_induction (λ (e : List ℕ × World). count occupies e.1.runs ≤ n) w.slot_lock (λ _. h)
        (λ _.
          P-dispatch_each cfg (λ v. count occupies v.runs ≤ n)
            (count-IsPreserved cfg occupies occupies-IsSlotTest n) now (start_waiting cfg now w).0
            (start_waiting cfg now w).1 (start_waiting_bounded w n d m h))

  start_waiting_serial :
      (object : ℕ) (w : World)
      → HasRunIds w.runs
      → count (running_of object) w.runs ≤ 1
      → count (running_of object) (start_waiting cfg now w).1.runs ≤ 1
  unfolding start_waiting
  start_waiting_serial object w d h =
      let free = cfg.max_parallel - count occupies w.runs in
      let candidates = order_by by_creation (select queued w.runs) in
      if_induction (λ (e : List ℕ × World). count (running_of object) e.1.runs ≤ 1)
        (leb cfg.max_parallel (count occupies w.runs)) (λ _. h)
        (λ _.
          running-start_each object (take free candidates) w.runs d
            (All-take (Agrees w.runs) free candidates (
              All-order_by (Agrees w.runs) by_creation (select queued w.runs) (
                All-imp (λ r. Agrees w.runs r × (queued r ≡ true)) (Agrees w.runs)
                  (select queued w.runs) (λ r k. k.0)
                  (All-select (Agrees w.runs) queued w.runs (agree w.runs d)))))
            h)

  -- Objects are processed serially: in a table of runs with unique ids, if an object has at most
  -- one running run of the serial types before `schedule_runs`, it has at most one afterwards,
  -- however many of its runs wait.
  pub schedule_runs_serial :
      (object : ℕ) (w : World)
      → HasRunIds w.runs
      → count (running_of object) w.runs ≤ 1
      → count (running_of object) (schedule_runs cfg now w).1.runs ≤ 1
  unfolding schedule_runs
  schedule_runs_serial object w d h =
      if_induction (λ (e : List ℕ × World). count (running_of object) e.1.runs ≤ 1) w.slot_lock
        (λ _. h)
        (λ _.
          P-dispatch_each cfg (λ v. count (running_of object) v.runs ≤ 1)
            (count-IsPreserved cfg (running_of object) (running_of-IsSlotTest object) 1) now
            (start_waiting cfg now w).0 (start_waiting cfg now w).1
            (start_waiting_serial object w d h))
