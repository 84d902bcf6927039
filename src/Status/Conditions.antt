-- ===== src/Status/Conditions.antt =====
-- src/apps/status/alerts.py: the conditions that an alarm is about, from what the checks have read.
-- Times are microseconds, and `messages` are the texts, by the condition's key.
use objekt_bernahme_automati.Prelude.{
  ℕ, ◌+◌, ◌*◌, Bool, false, not, ◌&&◌, ◌||◌, Option, none, some, List, [], ◌∷◌, String, str_eq, ltb,
  leb, ◌==◌, if◌then◌else◌,
}
use objekt_bernahme_automati.Prelude.Table.{select, exists, order_by}

pub record Condition : Type 0 where
  pub key : String
  pub active : Bool
  pub message : String

-- The backup's check: its status, its age in hours, and whether it could not be read.
pub record BackupStatus : Type 0 where
  pub status : Option String
  pub age_h : Option ℕ
  pub error : Bool

pub record AiCall : Type 0 where
  pub requested_at : ℕ
  pub fallback_used : Bool
  pub is_ok : Bool

abbrev pub hour : ℕ
hour = 3600000000

abbrev exceeds : ℕ → Option ℕ → Bool
exceeds limit none = false
exceeds limit (some n) = ltb limit n

abbrev is_bad : Option String → Bool
is_bad none = false
is_bad (some status) = not (str_eq status "ok")

abbrev pub backup_active : ℕ → BackupStatus → Bool
backup_active max_age b = is_bad b.status || exceeds max_age b.age_h || b.error

abbrev pub token_active : String → ℕ → Bool
token_active status failures = str_eq status "revoked" || leb 2 failures

-- A worker with the age of its last heartbeat in seconds.
abbrev is_stale : String × Option ℕ → Bool
is_stale (name, none) = str_eq name "worker" || str_eq name "worker-io"
is_stale (name, some age) = (str_eq name "worker" || str_eq name "worker-io") && ltb 600 age

abbrev pub heartbeats_active : List (String × Option ℕ) → Bool → Bool
heartbeats_active beats queue_nonempty = exists is_stale beats && queue_nonempty

-- `_fallback` reads the clock twice: for the calls of the last hour, and for the earliest of them.
abbrev pub recent : ℕ → List AiCall → List AiCall
recent now calls = select (λ c. leb now (c.requested_at + hour)) calls

abbrev pub earlier : AiCall → AiCall → Bool
earlier c d = leb c.requested_at d.requested_at

abbrev pub fallback_calls : ℕ → List AiCall → List AiCall
fallback_calls now calls = order_by earlier (select (λ c. c.fallback_used) (recent now calls))

abbrev pub long_enough : ℕ → List AiCall → Bool
long_enough later [] = false
long_enough later (c ∷ calls) = leb (c.requested_at + hour) later

unfoldable pub fallback_active : ℕ → ℕ → List AiCall → Bool
fallback_active now later calls =
    exists (λ c. c.fallback_used && c.is_ok) (recent now calls)
    && not (exists (λ c. not c.fallback_used && c.is_ok) (recent now calls))
    && long_enough later (fallback_calls now calls)

-- A provider's budget and costs in one unit; a budget of nothing is none.
abbrev is_near_budget : ℕ × ℕ → Bool
is_near_budget (budget, costs) = not (budget == 0) && leb (8 * budget) (10 * costs)

abbrev pub budget_active : List (ℕ × ℕ) → Bool
budget_active providers = exists is_near_budget providers

abbrev is_local : String → Bool
is_local domain =
    str_eq domain ""
    || str_eq domain "localhost"
    || str_eq domain "127.0.0.1"
    || str_eq domain "web"

-- The whole days until the certificate ends, 0 if it has ended, if it could be read.
abbrev pub certificate_active : String → Option ℕ → Bool
certificate_active domain none = not (is_local domain)
certificate_active domain (some days) = not (is_local domain) && ltb days 14

-- What the checks have read.
pub record Readings : Type 0 where
  pub backup : BackupStatus
  pub max_age_h : ℕ
  pub token_status : String
  pub failures_in_row : ℕ
  pub beats : List (String × Option ℕ)
  pub queue_nonempty : Bool
  pub disk_ok : Bool
  pub now : ℕ
  pub later : ℕ
  pub calls : List AiCall
  pub budgets : List (ℕ × ℕ)
  pub mismatches : ℕ
  pub domain : String
  pub certificate_days : Option ℕ

abbrev pub condition : (String → String) → String → Bool → Condition
condition messages key active = record { key = key; active = active; message = messages key }

unfoldable pub evaluate : (String → String) → Bool → Readings → List Condition
unfolding fallback_active
evaluate messages check_certificate r =
    condition messages "backup" (backup_active r.max_age_h r.backup)
    ∷ condition messages "token" (token_active r.token_status r.failures_in_row)
    ∷ condition messages "heartbeat" (heartbeats_active r.beats r.queue_nonempty)
    ∷ condition messages "disk" (not r.disk_ok)
    ∷ condition messages "fallback" (fallback_active r.now r.later r.calls)
    ∷ condition messages "budget" (budget_active r.budgets)
    ∷ condition messages "reconcile" (ltb 0 r.mismatches)
    ∷ (if check_certificate
        then condition messages "certificate" (certificate_active r.domain r.certificate_days) ∷ []
        else [])
