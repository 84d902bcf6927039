-- ===== src/Sync/Queue.antt =====
-- src/apps/sync/operations.py: creating, sending, reserving, releasing and discarding operations.
-- A function takes the clock's value `now` and the world, and returns its result and the new world.
use objekt_bernahme_automati.Prelude.{
  ℕ, zero, suc, ◌+◌, ◌-◌, ◌*◌, ◌==◌, Bool, true, false, ◌&&◌, ◌||◌, Option, none, some, List, [],
  ◌∷◌, ◌++◌, map, String, str_eq, is_blank, ltb, leb, if◌then◌else◌, length, take,
}
use objekt_bernahme_automati.Prelude.Table.{exists, select, count, find, update, order_by}
use objekt_bernahme_automati.Sync.Operation.{
  Status, pending, running, is_pending, is_running, is_revivable, Json, json_or, state_or,
  Operation, operation_kinds, is_one_of, due_at,
}

-- What `apply_async` hands to the broker: the operation's id and the countdown.
pub record Message : Type 0 where
  pub op_id : ℕ
  pub countdown : Option ℕ

-- `apps.audit.services.record`
pub record AuditEvent : Type 0 where
  pub action : String
  pub entity_id : ℕ
  pub object_id : Option ℕ
  pub before : Option Status
  pub after : Option (Status × String)
  pub actor : Option ℕ

-- The table, the next value of its id column, the messages sent so far, and the audit log.
pub record World : Type 0 where
  pub operations : List Operation
  pub next_id : ℕ
  pub messages : List Message
  pub audit : List AuditEvent

-- The settings that the queue reads, and the column `object_id` of a document.
pub record Config : Type 0 where
  pub operation_max_attempts : ℕ
  pub dispatches : Bool  -- JOB_DISPATCH is "celery"
  pub object_of : ℕ → ℕ

-- The keyword arguments of `enqueue`.
pub record Request : Type 0 where
  pub kind : String
  pub system : String
  pub key : String
  pub document : Option ℕ
  pub link : Option ℕ
  pub payload : Option Json
  pub desired_state : Option Json
  pub source_system : Option String
  pub source_revision : Option String
  pub priority : ℕ
  pub created_by : Option ℕ
  pub dispatch : Bool
  pub delay_seconds : ℕ

abbrev pub has_id : ℕ → Operation → Bool
has_id pk o = o.id == pk

-- `seconds or None`
abbrev pub nonzero : ℕ → Option ℕ
nonzero zero = none
nonzero (suc n) = some (suc n)

unfoldable pub send : Config → ℕ → ℕ → Option ℕ → World → World
send cfg now pk countdown w =
    let marked = update (has_id pk) (λ o. record o { dispatched_at = some now }) w.operations in
    if cfg.dispatches
    then record w {
      operations = marked;
      messages = w.messages ++ record { op_id = pk; countdown = countdown } ∷ [];
    }
    else record w { operations = marked }

-- The row that `enqueue` creates.
unfoldable pub new_operation : Config → ℕ → ℕ → Request → Operation
new_operation cfg now id r = record {
  id = id;
  op_key = r.key;
  kind = r.kind;
  system = r.system;
  document = r.document;
  link = r.link;
  source_system = r.source_system;
  source_revision = r.source_revision;
  desired_state = r.desired_state;
  payload = json_or r.payload [];
  status = pending;
  priority = r.priority;
  attempt_count = 0;
  max_attempts = cfg.operation_max_attempts;
  next_attempt_at = some (now + r.delay_seconds);
  dispatched_at = none;
  locked_by = none;
  locked_at = none;
  heartbeat_at = none;
  started_at = none;
  finished_at = none;
  last_error = none;
  blocked_reason = none;
  result = none;
  created_by = r.created_by;
}

-- A failed, discarded or blocked row that is queued again.
unfoldable pub revived : ℕ → Request → Operation → Operation
revived now r o = record o {
  status = pending;
  attempt_count = 0;
  last_error = none;
  blocked_reason = none;
  payload = json_or r.payload o.payload;
  desired_state = state_or r.desired_state o.desired_state;
  next_attempt_at = some (now + r.delay_seconds);
}

abbrev pub has_key : String → Operation → Bool
has_key key o = str_eq o.op_key key

abbrev pub dispatched : Config → ℕ → Request → ℕ → World → World
dispatched cfg now r pk w = if r.dispatch then send cfg now pk (nonzero r.delay_seconds) w else w

-- The row under the key, if there is one, decides. It is locked, so that `op.save()` writes the
-- columns that were assigned.
unfoldable pub enqueue_at :
    Config → ℕ → Request → Option Operation → World → (Operation × Bool) × World
unfolding send new_operation revived
enqueue_at cfg now r none w =
    let o = new_operation cfg now w.next_id r in
    (
      (o, true),
      dispatched cfg now r o.id
          (record w { operations = w.operations ++ o ∷ []; next_id = w.next_id + 1 }),
    )
enqueue_at cfg now r (some old) w =
    let o = revived now r old in
    if is_revivable old.status
    then (
      (o, false),
      dispatched cfg now r o.id
          (record w { operations = update (has_id old.id) (revived now r) w.operations }),
    )
    else ((old, false), w)

-- `none` is the ValueError for an unknown kind.
unfoldable pub enqueue : Config → ℕ → Request → World → Option (Operation × Bool) × World
unfolding enqueue_at
enqueue cfg now r w =
    let (answer, w') = enqueue_at cfg now r (find (has_key r.key) w.operations) w in
    if is_one_of r.kind operation_kinds then (some answer, w') else (none, w)

-- `status=PENDING & (next_attempt_at__isnull=True | next_attempt_at__lte=now)`
abbrev pub is_free : ℕ → Operation → Bool
is_free now o = is_pending o.status && due_at now o.next_attempt_at

-- The condition of the UPDATE that reserves.
abbrev pub reservable : ℕ → ℕ → Operation → Bool
reservable now pk o = has_id pk o && is_free now o

abbrev pub locked : ℕ → String → Operation → Operation
locked now worker o = record o {
  status = running;
  locked_by = some (if is_blank worker then "worker" else worker);
  locked_at = some now;
  heartbeat_at = some now;
  started_at = some now;
}

-- `get(pk=...)`, `attempt_count += 1` and `save(update_fields=["attempt_count", ...])`. The row is
-- there, since the UPDATE before found it; `get` would raise otherwise.
abbrev pub count_attempt : Option Operation → World → Option Operation × World
count_attempt none w = (none, w)
count_attempt (some o) w =
    let o' = record o { attempt_count = o.attempt_count + 1 } in
    (
      some o',
      record w {
        operations =
            update (has_id o.id) (λ row. record row { attempt_count = o'.attempt_count })
              w.operations;
      },
    )

unfoldable pub reserve : ℕ → ℕ → String → World → Option Operation × World
reserve now pk worker w =
    let w' = record w {
      operations = update (reservable now pk) (locked now worker) w.operations;
    } in
    if exists (reservable now pk) w.operations
    then count_attempt (find (has_id pk) w'.operations) w'
    else (none, w)

-- `now - minutes <= t` is written `now <= t + minutes`, so nothing is subtracted from a time.
abbrev pub since : ℕ → ℕ → Option ℕ → Bool
since now seconds none = false
since now seconds (some t) = leb now (t + seconds)

abbrev pub before_window : ℕ → ℕ → Option ℕ → Bool
before_window now seconds none = false
before_window now seconds (some t) = ltb (t + seconds) now

abbrev pub in_flight : ℕ → ℕ → Operation → Bool
in_flight now minutes o = is_pending o.status && since now (60 * minutes) o.dispatched_at

abbrev pub is_none {ℓ} : {A : Type ℓ} → Option A → Bool
is_none none = true
is_none (some _) = false

abbrev pub dispatchable : ℕ → ℕ → Operation → Bool
dispatchable now minutes o =
    is_pending o.status
    && (due_at now o.next_attempt_at
        && (is_none o.dispatched_at || before_window now (60 * minutes) o.dispatched_at))

-- `order_by("priority", "id")`
abbrev pub by_priority : Operation → Operation → Bool
by_priority a b = ltb a.priority b.priority || a.priority == b.priority && leb a.id b.id

unfoldable pub send_all : Config → ℕ → List ℕ → World → World
unfolding send
send_all cfg now [] w = w
send_all cfg now (pk ∷ pks) w = send_all cfg now pks (send cfg now pk none w)

abbrev pub to_dispatch : ℕ → ℕ → ℕ → World → List ℕ
to_dispatch now limit minutes w =
    let capacity = limit - count (in_flight now minutes) w.operations in
    map (λ (o : Operation). o.id)
      (take capacity (order_by by_priority (select (dispatchable now minutes) w.operations)))

-- `capacity == 0` returns 0 before the query; taking no row does the same.
unfoldable pub dispatch_due : Config → ℕ → ℕ → ℕ → World → ℕ × World
unfolding send_all
dispatch_due cfg now limit minutes w =
    let ids = to_dispatch now limit minutes w in (length ids, send_all cfg now ids w)

abbrev pub stale : ℕ → ℕ → Operation → Bool
stale now minutes o = is_running o.status && before_window now (60 * minutes) o.heartbeat_at

abbrev pub released : ℕ → Operation → Operation
released now o = record o {
  status = pending;
  locked_by = none;
  locked_at = none;
  next_attempt_at = some now;
  dispatched_at = none;
}

unfoldable pub release_stale : ℕ → ℕ → World → ℕ × World
release_stale now minutes w = (
  count (stale now minutes) w.operations,
  record w { operations = update (stale now minutes) (released now) w.operations },
)
