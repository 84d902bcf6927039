-- ===== src/Sync/Manual.antt =====
-- src/apps/sync/operations.py: `cancel` and `retry_now`, the two operations of the user interface.
use objekt_bernahme_automati.Prelude.{
  ℕ, Bool, true, false, not, ◌&&◌, Option, none, some, [], ◌∷◌, ◌++◌, String, is_blank,
  if◌then◌else◌,
}
use objekt_bernahme_automati.Prelude.Table.{exists, update}
use objekt_bernahme_automati.Sync.Operation.{
  pending, cancelled, is_running, is_cancellable, Operation,
}
use objekt_bernahme_automati.Sync.Queue.{World, Config, has_id, send}

-- `op.document.object_id if op.document_id else None`
abbrev object_id_of : Config → Option ℕ → Option ℕ
object_id_of cfg none = none
object_id_of cfg (some d) = some (cfg.object_of d)

-- `reason or op.blocked_reason`
abbrev pub reason_or : String → Option String → Option String
reason_or reason old = if is_blank reason then old else some reason

abbrev pub cancellable : ℕ → Operation → Bool
cancellable pk o = has_id pk o && is_cancellable o.status

abbrev pub discarded : ℕ → String → Option String → Operation → Operation
discarded now reason old row = record row {
  status = cancelled;
  finished_at = some now;
  blocked_reason = reason_or reason old;
}

-- `op` is the caller's copy of the row, as it was read before.
unfoldable pub cancel : Config → ℕ → Operation → Option ℕ → String → World → Bool × World
cancel cfg now op user reason w =
    if exists (cancellable op.id) w.operations
    then (
      true,
      record w {
        operations =
            update (cancellable op.id) (discarded now reason op.blocked_reason) w.operations;
        audit =
            w.audit
            ++ record {
              action = "sync.operation_cancelled";
              entity_id = op.id;
              object_id = object_id_of cfg op.document;
              before = some op.status;
              after = some (cancelled, reason);
              actor = user;
            }
              ∷ [];
      },
    )
    else (false, w)

abbrev pub not_running : ℕ → Operation → Bool
not_running pk o = has_id pk o && not (is_running o.status)

abbrev pub rearmed : ℕ → Operation → Operation
rearmed now row = record row {
  status = pending;
  attempt_count = 0;
  next_attempt_at = some now;
  blocked_reason = none;
  locked_by = none;
  locked_at = none;
  dispatched_at = none;
}

unfoldable pub retry_now : Config → ℕ → Operation → Option ℕ → World → Bool × World
unfolding send
retry_now cfg now op user w =
    if exists (not_running op.id) w.operations
    then (
      true,
      send cfg now op.id none (record w {
        operations = update (not_running op.id) (rearmed now) w.operations;
        audit =
            w.audit
            ++ record {
              action = "sync.operation_retry";
              entity_id = op.id;
              object_id = object_id_of cfg op.document;
              before = none;
              after = none;
              actor = user;
            }
              ∷ [];
      }),
    )
    else (false, w)
