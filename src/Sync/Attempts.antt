-- ===== src/Sync/Attempts.antt =====
-- src/apps/sync/operations.py: what one run of an operation does to its row, for each way in which
-- its handler can end.
use objekt_bernahme_automati.Prelude.{
  ℕ, ◌+◌, ◌-◌, ◌≤◌, ◌<◌, ==_iff, ◌≡◌, refl, ap, sym, subst, ◌∙◌, true, false, Option, none, some,
  [], ◌∷◌, String, ◌<>◌, prefix, arith, Bool-cases, inl, inr, leb, if◌then◌else◌,
}
use objekt_bernahme_automati.Prelude.Table.{find, update}
use objekt_bernahme_automati.Prelude.Keyed.{row-update}
use objekt_bernahme_automati.Sync.Operation.{
  Operation, done, failed, blocked, skipped, is_pending, is_running, json_or, Outcome, returned,
  skip, defer, retry, block, raised, retry_delay,
}
use objekt_bernahme_automati.Sync.Queue.{World, has_id, is_free, reserve}
use objekt_bernahme_automati.Sync.Worker.{conclude, fail_or_wait, waiting, Handler, run}
use objekt_bernahme_automati.Sync.Validity.{IsValid}
use objekt_bernahme_automati.Sync.Reservation.{row, reserved, find_id, reserve_free}

-- The columns that a failed attempt writes.
abbrev pub after_failure : ℕ → Operation → Option ℕ → String → Operation → Operation
after_failure now op seconds error r =
    if leb op.max_attempts op.attempt_count
    then record r {
      status = failed;
      last_error = some (prefix 500 error);
      locked_by = none;
      locked_at = none;
      finished_at = some now;
    }
    else waiting (now + retry_delay op.attempt_count seconds) (prefix 500 error) r

-- The row that `run` leaves when the handler of the reserved operation `op` ends with an outcome,
-- from the row that the handler left.
abbrev pub after : ℕ → Operation → Outcome → Operation → Operation
after now op (returned result) r = record r {
  status = done;
  result = some (json_or result []);
  last_error = none;
  locked_by = none;
  locked_at = none;
  finished_at = some now;
}
after now op (skip reason) r = record r {
  status = skipped;
  result = some (("skipped", reason) ∷ []);
  locked_by = none;
  locked_at = none;
  finished_at = some now;
}
after now op (defer reason seconds) r = record (waiting (now + seconds) reason r) {
  attempt_count = op.attempt_count - 1;
}
after now op (retry reason seconds) r = after_failure now op seconds reason r
after now op (block reason) r = record r {
  status = blocked;
  blocked_reason = some (prefix 255 reason);
  last_error = some (prefix 500 reason);
  locked_by = none;
  locked_at = none;
  finished_at = some now;
}
after now op (raised type_name text) r = after_failure now op none (type_name <> ": " <> text) r

row-write :
    (f : Operation → Operation) (pk : ℕ) (w : World) (r : Operation)
    → ((o : Operation) → (f o).id ≡ o.id)
    → row pk w ≡ some r
    → r.id ≡ pk
    → find (has_id pk) (update (has_id pk) f w.operations) ≡ some (f r)
row-write f pk w r h e i =
    row-update (λ (o : Operation). o.id) (has_id pk) f h pk w.operations
    ∙ rw (e, (==_iff r.id pk).1 i)

row-fail_or_wait :
    (now : ℕ) (op : Operation) (seconds : Option ℕ) (error : String) (w : World) (r : Operation)
    → row op.id w ≡ some r
    → r.id ≡ op.id
    → row op.id (fail_or_wait now op seconds error w).1
      ≡ some (after_failure now op seconds error r)
unfolding fail_or_wait
row-fail_or_wait now op seconds error w r e i =
    elim (Bool-cases (leb op.max_attempts op.attempt_count)) [
      | inl last ↦ rw last (row-write _ op.id w r (λ o. refl) e i)
      | inr more ↦ rw more (row-write _ op.id w r (λ o. refl) e i)
    ]

row-conclude :
    (now : ℕ) (op : Operation) (outcome : Outcome) (w : World) (r : Operation)
    → row op.id w ≡ some r
    → r.id ≡ op.id
    → row op.id (conclude now op outcome w).1 ≡ some (after now op outcome r)
unfolding conclude
row-conclude now op (returned result) w r e i = row-write _ op.id w r (λ o. refl) e i
row-conclude now op (skip reason) w r e i = row-write _ op.id w r (λ o. refl) e i
row-conclude now op (defer reason seconds) w r e i = row-write _ op.id w r (λ o. refl) e i
row-conclude now op (retry reason seconds) w r e i = row-fail_or_wait now op seconds reason w r e i
row-conclude now op (block reason) w r e i = row-write _ op.id w r (λ o. refl) e i
row-conclude now op (raised type_name text) w r e i =
    row-fail_or_wait now op none (type_name <> ": " <> text) w r e i

module _ (handlers : String → Option Handler) (start end pk : ℕ) (worker : String) (w : World) where
  -- A run of a pending row that is due ends with `conclude`, for the copy that was reserved.
  pub run_lem :
      (o : Operation) (handler : Handler) (outcome : Outcome) (w' : World)
      → IsValid w
      → row pk w ≡ some o
      → is_free start o ≡ true
      → handlers o.kind ≡ some handler
      → handler (reserved start worker o) (reserve start pk worker w).1 ≡ (outcome, w')
      → run handlers start end pk worker w ≡ conclude end (reserved start worker o) outcome w'
  unfolding run
  run_lem o handler outcome w' v e free h out =
      let p : reserve start pk worker w
          ≡ (some (reserved start worker o), (reserve start pk worker w).1) =
        ap (λ (z : Option Operation). (z, (reserve start pk worker w).1))
          (reserve_free start pk worker w v o e free).0 in
      rw (p, h, out)

  -- If the handler leaves the row alone, the row afterwards is the one that was reserved, changed
  -- by the outcome as `after` says.
  pub row-run :
      (o : Operation) (handler : Handler) (outcome : Outcome) (w' : World)
      → IsValid w
      → row pk w ≡ some o
      → is_free start o ≡ true
      → handlers o.kind ≡ some handler
      → handler (reserved start worker o) (reserve start pk worker w).1 ≡ (outcome, w')
      → row pk w' ≡ row pk (reserve start pk worker w).1
      → row pk (run handlers start end pk worker w).1
        ≡ some (after end (reserved start worker o) outcome (reserved start worker o))
  row-run o handler outcome w' v e free h out keeps =
      let i = find_id pk w.operations o e in
      rw (run_lem o handler outcome w' v e free h out) (
        subst
          (λ j.
            row j (conclude end (reserved start worker o) outcome w').1
            ≡ some (after end (reserved start worker o) outcome (reserved start worker o)))
          i
          (row-conclude end (reserved start worker o) outcome w' (reserved start worker o)
            (subst (λ j. row j w' ≡ some (reserved start worker o)) (sym i)
              (keeps ∙ (reserve_free start pk worker w v o e free).1))
            refl))

-- The attempts are within the limit, and a pending row has one left.
abbrev pub Bounded : Operation → Type 0
Bounded o =
    if is_pending o.status
    then o.attempt_count < o.max_attempts
    else o.attempt_count ≤ o.max_attempts

after-Bounded :
    (now : ℕ) (op : Operation) (outcome : Outcome)
    → 0 < op.attempt_count
    → op.attempt_count ≤ op.max_attempts
    → Bounded (after now op outcome op) × (is_running (after now op outcome op).status ≡ false)
after-Bounded now op (returned result) p h = ground arith
after-Bounded now op (skip reason) p h = ground arith
after-Bounded now op (defer reason seconds) p h = ground arith
after-Bounded now op (retry reason seconds) p h = ground arith
after-Bounded now op (block reason) p h = ground arith
after-Bounded now op (raised type_name text) p h = ground arith

-- In a table with unique ids, a run of a pending operation that is due, has an attempt left and
-- has a handler leaves the operation no longer running, with its attempts within the limit, and
-- with an attempt left if it is pending again, however the handler ends. The handler may change
-- the world, but not the operation's row.
pub run-Bounded :
    (handlers : String → Option Handler) (start end pk : ℕ) (worker : String) (w : World)
    (o : Operation) (handler : Handler) (outcome : Outcome) (w' : World)
    → IsValid w
    → row pk w ≡ some o
    → is_free start o ≡ true
    → o.attempt_count < o.max_attempts
    → handlers o.kind ≡ some handler
    → handler (reserved start worker o) (reserve start pk worker w).1 ≡ (outcome, w')
    → row pk w' ≡ row pk (reserve start pk worker w).1
    → (r : Operation) × (row pk (run handlers start end pk worker w).1 ≡ some r)
      × Bounded r
      × (is_running r.status ≡ false)
run-Bounded handlers start end pk worker w o handler outcome w' v e free left h out keeps =
    let op = reserved start worker o in
    let b = after-Bounded end op outcome (omega arith) (omega arith) in
    (
      after end op outcome op,
      row-run handlers start end pk worker w o handler outcome w' v e free h out keeps,
      b.0,
      b.1,
    )
