-- ===== src/Sync/Operation.antt =====
-- src/apps/sync/models.py and src/apps/sync/operations.py: the rows of `sync_operations`, what a
-- handler answers, and the waiting time before a retry.
use objekt_bernahme_automati.Prelude.{
  ℕ, zero, suc, ◌-◌, ◌*◌, ◌^◌, min, Bool, true, false, ◌||◌, Option, none, some, List, [], ◌∷◌,
  String, str_eq, leb,
}

pub data Status : Type 0 where
  pending running done failed blocked cancelled skipped : Status

abbrev pub is_pending : Status → Bool
is_pending pending = true
is_pending _ = false

abbrev pub is_running : Status → Bool
is_running running = true
is_running _ = false

-- `status in (FAILED, CANCELLED, BLOCKED)`: what `enqueue` revives.
abbrev pub is_revivable : Status → Bool
is_revivable failed = true
is_revivable cancelled = true
is_revivable blocked = true
is_revivable _ = false

-- `status__in=[PENDING, BLOCKED, FAILED]`: what `cancel` discards.
abbrev pub is_cancellable : Status → Bool
is_cancellable pending = true
is_cancellable blocked = true
is_cancellable failed = true
is_cancellable _ = false

-- A JSON object with text values.
abbrev pub Json : Type 0
Json = List (String × String)

-- `payload or default`: an empty object counts as missing.
abbrev pub json_or : Option Json → Json → Json
json_or none d = d
json_or (some []) d = d
json_or (some (x ∷ xs)) d = x ∷ xs

abbrev pub state_or : Option Json → Option Json → Option Json
state_or none d = d
state_or (some []) d = d
state_or (some (x ∷ xs)) d = some (x ∷ xs)

-- Times are seconds since a fixed origin.
pub record Operation : Type 0 where
  pub id : ℕ
  pub op_key : String
  pub kind : String
  pub system : String
  pub document : Option ℕ
  pub link : Option ℕ
  pub source_system : Option String
  pub source_revision : Option String
  pub desired_state : Option Json
  pub payload : Json
  pub status : Status
  pub priority : ℕ
  pub attempt_count : ℕ
  pub max_attempts : ℕ
  pub next_attempt_at : Option ℕ
  pub dispatched_at : Option ℕ
  pub locked_by : Option String
  pub locked_at : Option ℕ
  pub heartbeat_at : Option ℕ
  pub started_at : Option ℕ
  pub finished_at : Option ℕ
  pub last_error : Option String
  pub blocked_reason : Option String
  pub result : Option Json
  pub created_by : Option ℕ

-- `OperationKind.values`
abbrev pub operation_kinds : List String
operation_kinds =
    "paperless_push" ∷ "paperless_await_task" ∷ "paperless_push_meta" ∷ "paperless_pull"
    ∷ "paperless_pull_meta" ∷ "paperless_index_stub" ∷ "drive_set_props" ∷ "drive_export_snapshot"
    ∷ "drive_register" ∷ "assign_object" ∷ []

abbrev pub is_one_of : String → List String → Bool
is_one_of k [] = false
is_one_of k (x ∷ xs) = str_eq k x || is_one_of k xs

-- How a handler ends: with a result, by one of the four outcomes, or by another exception, of which
-- the queue keeps the name of the type and the text.
pub data Outcome : Type 0 where
  returned : Option Json → Outcome
  skip : String → Outcome
  defer : String → ℕ → Outcome
  retry : String → Option ℕ → Outcome
  block : String → Outcome
  raised : String → String → Outcome

abbrev pub backoff_base_s : ℕ
backoff_base_s = 30

abbrev pub backoff_max_s : ℕ
backoff_max_s = 3600

abbrev pub stale_minutes : ℕ
stale_minutes = 30

abbrev pub dispatch_window_minutes : ℕ
dispatch_window_minutes = 60

-- `max(attempt_count - 1, 0)` is the truncated difference.
unfoldable pub retry_delay : ℕ → Option ℕ → ℕ
retry_delay attempt_count none = min (backoff_base_s * 2 ^ (attempt_count - 1)) backoff_max_s
retry_delay attempt_count (some zero) = min (backoff_base_s * 2 ^ (attempt_count - 1)) backoff_max_s
retry_delay attempt_count (some (suc s)) = min (suc s) backoff_max_s

-- `Q(next_attempt_at__isnull=True) | Q(next_attempt_at__lte=now)`
abbrev pub due_at : ℕ → Option ℕ → Bool
due_at now none = true
due_at now (some t) = leb t now
