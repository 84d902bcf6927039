-- ===== src/Sync/Tests.antt =====
-- Runs of the operation list on a small table, and the theorems about it at that table.
use objekt_bernahme_automati.Prelude.{
  ◌+◌, ◌-◌, ◌≤◌, ◌<◌, max, ◌≡◌, refl, true, Option, none, some, [], ◌∷◌, String, eq_iff, arith,
}
use objekt_bernahme_automati.Prelude.Table.{count}
use objekt_bernahme_automati.Sync.Operation.{Operation, pending, running, failed}
use objekt_bernahme_automati.Sync.Queue.{
  World, Config, Request, enqueue, reserve, in_flight, dispatch_due, release_stale,
}
use objekt_bernahme_automati.Sync.Worker.{Handler, conclude, run, run_pending, will_retry}
use objekt_bernahme_automati.Sync.Validity.{IsValid}
use objekt_bernahme_automati.Sync.Steps.{here, next, enqueues, reserves, empty, Reach-IsValid}
use objekt_bernahme_automati.Sync.Reservation.{row}
use objekt_bernahme_automati.Sync.Dispatch.{dispatch_due_bounded}
use objekt_bernahme_automati.Sync.Retries.{failing, runs, retries_end, release_beyond_limit}

abbrev config : Config
config = record { operation_max_attempts = 2; dispatches = true; object_of = λ d. d + 100 }

abbrev request : Request
request = record {
  kind = "paperless_push";
  system = "paperless";
  key = "push:7";
  document = some 7;
  link = none;
  payload = none;
  desired_state = none;
  source_system = none;
  source_revision = none;
  priority = 100;
  created_by = none;
  dispatch = true;
  delay_seconds = 0;
}

abbrev waiting_row : Operation
waiting_row = record {
  id = 1;
  op_key = "push:7";
  kind = "paperless_push";
  system = "paperless";
  document = some 7;
  link = none;
  source_system = none;
  source_revision = none;
  desired_state = none;
  payload = [];
  status = pending;
  priority = 100;
  attempt_count = 0;
  max_attempts = 2;
  next_attempt_at = some 100;
  dispatched_at = none;
  locked_by = none;
  locked_at = none;
  heartbeat_at = none;
  started_at = none;
  finished_at = none;
  last_error = none;
  blocked_reason = none;
  result = none;
  created_by = none;
}

-- A worker holds this row for the last of its attempts.
abbrev running_row : Operation
running_row = record waiting_row {
  id = 2;
  op_key = "pull:8";
  status = running;
  attempt_count = 2;
  heartbeat_at = some 100;
}

abbrev world : World
world = record {
  operations = waiting_row ∷ running_row ∷ [];
  next_id = 3;
  messages = [];
  audit = [];
}

world-IsValid : IsValid world
world-IsValid = record {
  distinct_ids = ((omega arith, tt), (tt, tt));
  distinct_keys = ((ground (arith, eq_iff "push:7" "pull:8"), tt), (tt, tt));
  fresh = (omega arith, (omega arith, tt));
}

-- The handler of every kind fails, and asks for no waiting time.
abbrev handlers : String → Option Handler
handlers kind = some (failing (λ op. "no connection") (λ op. none))

first_run_waits : (run handlers 100 101 1 "w" world).0 ≡ will_retry
unfolding run reserve conclude
first_run_waits = refl

local_runner :
    (run_pending handlers 5 (λ n. (5000 - n, 5000 - n, 5000 - n)) world).0 ≡ will_retry ∷ []
unfolding run_pending run reserve conclude
local_runner = refl

Reach-IsValid_example : IsValid (reserve 100 1 "w" (enqueue config 100 request empty).1).1
Reach-IsValid_example = Reach-IsValid (next (next here (enqueues 100 request)) (reserves 100 1 "w"))

dispatch_due_bounded_example :
    (count (in_flight 100 60) (dispatch_due config 100 1 60 world).1.operations
      ≤ max 1 (count (in_flight 100 60) world.operations))
    × ((dispatch_due config 100 1 60 world).0 ≤ 1 - count (in_flight 100 60) world.operations)
dispatch_due_bounded_example = dispatch_due_bounded config 100 1 60 world world-IsValid

retries_end_example :
    (r : Operation) × (row 1 (runs handlers 1 "w" ((100, 101) ∷ (3701, 3702) ∷ []) world) ≡ some r)
    × (r.status ≡ failed)
    × (r.attempt_count ≡ r.max_attempts)
retries_end_example =
    retries_end handlers 1 "w" (λ op. "no connection") (λ op. none) ((100, 101) ∷ (3701, 3702) ∷ [])
      100 world waiting_row refl world-IsValid refl refl (omega arith) refl (omega arith)

release_beyond_limit_example :
    (op : Operation) × ((reserve 5000 2 "w" (release_stale 5000 30 world).1).0 ≡ some op)
    × (op.max_attempts < op.attempt_count)
release_beyond_limit_example =
    release_beyond_limit 5000 30 5000 2 "w" world running_row world-IsValid refl refl (omega arith)
      (omega arith)
