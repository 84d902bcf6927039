-- ===== src/Sync/Worker.antt =====
-- src/apps/sync/operations.py: `run` executes one operation and writes the state that follows;
-- `run_pending` is the local runner. The handlers (src/apps/sync/flows) are a parameter: a handler
-- may change the world, and ends with an `Outcome`.
use objekt_bernahme_automati.Prelude.{
  ℕ, zero, suc, ◌+◌, ◌-◌, ◌&&◌, Option, none, some, List, [], ◌∷◌, ◌++◌, String, ◌<>◌, prefix, leb,
  if◌then◌else◌,
}
use objekt_bernahme_automati.Prelude.Table.{select, update, order_by}
use objekt_bernahme_automati.Sync.Operation.{
  Status, pending, done, failed, blocked, skipped, is_pending, Json, json_or, Operation, Outcome,
  returned, skip, defer, retry, block, raised, retry_delay, due_at,
}
use objekt_bernahme_automati.Sync.Queue.{World, has_id, reserve, by_priority}

abbrev pub Handler : Type 0
Handler = Operation → World → Outcome × World

-- What `run` returns.
pub data Report : Type 0 where
  not_reserved : Report
  no_handler : Report
  was_skipped : String → Report
  was_deferred : String → Report
  gave_up : Report
  will_retry : Report
  was_blocked : String → Report
  was_done : Json → Report

abbrev write : ℕ → (Operation → Operation) → World → World
write pk f w = record w { operations = update (has_id pk) f w.operations }

-- `_finish(op, status, **fields)`: `fields` writes the further columns.
unfoldable pub finish : ℕ → ℕ → Status → (Operation → Operation) → World → World
finish now pk status fields w =
    write pk
      (λ row. record (fields row) {
        status = status;
        locked_by = none;
        locked_at = none;
        finished_at = some now;
      })
      w

-- The columns of an UPDATE that puts the row back to pending with a waiting time and an error.
abbrev pub waiting : ℕ → String → Operation → Operation
waiting at error row = record row {
  status = pending;
  next_attempt_at = some at;
  last_error = some error;
  locked_by = none;
  locked_at = none;
  dispatched_at = none;
}

-- A failed attempt: the last one ends the operation, another waits.
unfoldable pub fail_or_wait : ℕ → Operation → Option ℕ → String → World → Report × World
unfolding finish retry_delay
fail_or_wait now op seconds error w =
    if leb op.max_attempts op.attempt_count
    then (
      gave_up,
      finish now op.id failed (λ row. record row { last_error = some (prefix 500 error) }) w,
    )
    else (
      will_retry,
      write op.id (waiting (now + retry_delay op.attempt_count seconds) (prefix 500 error)) w,
    )

-- The `except` clauses and the end of `run`. `op` is the worker's copy of the row from `reserve`.
unfoldable pub conclude : ℕ → Operation → Outcome → World → Report × World
unfolding finish fail_or_wait
conclude now op (returned result) w = (
  was_done (json_or result []),
  finish now op.id done (λ row. record row { result = some (json_or result []); last_error = none })
      w,
)
conclude now op (skip reason) w = (
  was_skipped reason,
  finish now op.id skipped (λ row. record row { result = some (("skipped", reason) ∷ []) }) w,
)
conclude now op (defer reason seconds) w = (
  was_deferred reason,
  write op.id
      (λ row. record (waiting (now + seconds) reason row) { attempt_count = op.attempt_count - 1 })
      w,
)
conclude now op (retry reason seconds) w = fail_or_wait now op seconds reason w
conclude now op (block reason) w = (
  was_blocked reason,
  finish now op.id blocked
      (λ row. record row {
        blocked_reason = some (prefix 255 reason);
        last_error = some (prefix 500 reason);
      })
      w,
)
conclude now op (raised type_name text) w = fail_or_wait now op none (type_name <> ": " <> text) w

-- `handlers` is the registry after `flows.load_all()`.
module _ (handlers : String → Option Handler) where
  execute : ℕ → Operation → Option Handler → World → Report × World
  execute now op none w = (
    no_handler,
    finish now op.id blocked
        (λ row. record row { blocked_reason = some ("kein Handler für " <> op.kind) }) w,
  )
  execute now op (some handler) w = let (outcome, w') = handler op w in conclude now op outcome w'

  execute_reserved : ℕ → Option Operation × World → Report × World
  unfolding execute
  execute_reserved now (none, w) = (not_reserved, w)
  execute_reserved now (some op, w) = execute now op (handlers op.kind) w

  -- `start` is the clock at the reservation, `end` at the end of the handler.
  unfoldable pub run : ℕ → ℕ → ℕ → String → World → Report × World
  unfolding execute_reserved
  run start end pk worker w = execute_reserved end (reserve start pk worker w)

  abbrev next_due : ℕ → World → List Operation
  next_due now w =
      order_by by_priority
        (select (λ o. is_pending o.status && due_at now o.next_attempt_at) w.operations)

  -- The loop `while len(results) < limit`. The first argument counts the rounds that are left, and
  -- `times` holds the three clock readings of each round: the query, the reservation and the end.
  run_rounds : ℕ → (ℕ → ℕ × ℕ × ℕ) → World → List Report → List Report × World
  run_rounds zero times w results = (results, w)
  run_rounds (suc left) times w results = elim (next_due (times left).0 w) [
    | [] ↦ (results, w)
    | o ∷ _ ↦
        let (report, w') = run (times left).1 (times left).2 o.id "local" w in
        run_rounds left times w' (results ++ report ∷ [])
  ]

  unfoldable pub run_pending : ℕ → (ℕ → ℕ × ℕ × ℕ) → World → List Report × World
  unfolding run_rounds
  run_pending limit times w = run_rounds limit times w []
