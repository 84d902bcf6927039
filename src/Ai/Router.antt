-- ===== src/Ai/Router.antt =====
-- src/apps/ai/router.py: what `Router.classify` reads and logs, and the values it works with.
use objekt_bernahme_automati.Prelude.{
  ℕ, suc, ◌+◌, ◌==◌, Bool, false, ◌&&◌, Option, none, some, List, [], ◌∷◌, ◌++◌, String, prefix,
  str_eq, is_blank, ltb, leb, if◌then◌else◌,
}
use objekt_bernahme_automati.Ai.World.{World, Router, Request, ProviderConfig, AiCall, CallStatus}

-- `SUM(cost_eur)` over the rows that pass a test; a missing sum is 0.
abbrev pub cost_of : Option ℕ → ℕ
cost_of none = 0
cost_of (some c) = c

abbrev pub total : (AiCall → Bool) → List AiCall → ℕ
total p [] = 0
total p (c ∷ cs) = (if p c then cost_of c.cost else 0) + total p cs

abbrev of_object : String → ℕ → AiCall → Bool
of_object name object c = str_eq c.provider name && c.object == object

unfoldable pub object_cost : String → ℕ → World → ℕ
object_cost name object w = total (of_object name object) w.ai_calls

abbrev of_month : String → ℕ → AiCall → Bool
of_month name start c = str_eq c.provider name && leb start c.requested_at

-- `month_costs().get(name, 0)`
unfoldable pub month_cost : Router → String → World → ℕ
month_cost r name w = total (of_month name (r.month_start w.clock)) w.ai_calls

abbrev is_enabled : Option ProviderConfig → Bool
is_enabled none = false
is_enabled (some cfg) = cfg.enabled

-- The enabled providers in their order, each with its configuration.
abbrev with_config :
    String → Option ProviderConfig → List (String × ProviderConfig) → List (String × ProviderConfig)
with_config name none rest = rest
with_config name (some cfg) rest = if cfg.enabled then (name, cfg) ∷ rest else rest

unfoldable pub enabled_order : Router → List String → List (String × ProviderConfig)
enabled_order r [] = []
enabled_order r (name ∷ names) = with_config name (r.configs name) (enabled_order r names)

-- What the log takes from an answer.
pub record Measured : Type 0 where
  pub prompt_hash : String
  pub prompt_chars : ℕ
  pub tokens_in : ℕ
  pub tokens_out : ℕ
  pub http_status : Option ℕ
  pub latency_ms : ℕ
  pub cost : ℕ

pub record Entry : Type 0 where
  pub status : CallStatus
  pub message : String
  pub http_status : Option ℕ
  pub attempt : ℕ
  pub measured : Option Measured

abbrev model_name : Option String → String
model_name none = "unbekannt"
model_name (some m) = if is_blank m then "unbekannt" else m

abbrev message_or_none : String → Option String
message_or_none m = if is_blank m then none else some (prefix 1000 m)

abbrev with_status : Option ℕ → Option Measured → Option ℕ
with_status (some s) _ = some s
with_status none none = none
with_status none (some m) = m.http_status

abbrev field {ℓ} : {B : Type ℓ} → (Measured → B) → Option Measured → Option B
field f none = none
field f (some m) = some (f m)

abbrev id_of : Option AiCall → Option ℕ
id_of none = none
id_of (some c) = some c.id

-- The row of the log, without the endpoint, the region, the pages, the run, the job and the summary of
-- the answer. The position of the provider in the order decides `fallback_used`.
unfoldable pub new_call :
    {A : Type 0}
    → Router
    → Request A
    → ℕ
    → String
    → ProviderConfig
    → Option AiCall
    → Entry
    → World
    → AiCall
new_call r req index name cfg previous e w = record {
  id = w.next_id;
  object = req.object;
  document = req.document;
  purpose = req.purpose;
  provider = name;
  model = model_name cfg.model;
  prompt_hash = field (λ m. m.prompt_hash) e.measured;
  prompt_chars = field (λ m. m.prompt_chars) e.measured;
  masked_entities_count = req.masked_entities_count;
  tokens_in = field (λ m. m.tokens_in) e.measured;
  tokens_out = field (λ m. m.tokens_out) e.measured;
  cost = field (λ m. m.cost) e.measured;
  price_list_version = r.price_list.version;
  duration_ms = field (λ m. m.latency_ms) e.measured;
  status = e.status;
  http_status = with_status e.http_status e.measured;
  error_message = message_or_none e.message;
  fallback_used = ltb 0 index;
  fallback_of = id_of previous;
  attempt = e.attempt;
  requested_at = w.clock;
}

abbrev pub log : AiCall → World → World
log c w = record w { ai_calls = w.ai_calls ++ c ∷ []; next_id = suc w.next_id }

-- `RouterResult.status`
pub data Verdict : Type 0 where
  verdict_ok verdict_provider_error verdict_budget_blocked verdict_mask_check : Verdict
  verdict_disabled : Verdict

pub record RouterResult (A : Type 0) : Type 0 where
  pub result : Option A
  pub provider : Option String
  pub call : Option AiCall
  pub status : Verdict
  pub fallback_used : Bool
  pub attempts : ℕ
  pub message : Option String
  pub calls : List AiCall

-- The variables of `classify` that its loops change.
pub record Locals : Type 0 where
  pub calls : List AiCall
  pub previous : Option AiCall
  pub fallback_used : Bool
  pub last_message : Option String
  pub repair_hint : Option String

-- How a pass of a loop's body ends: `return`, `continue` or `break`.
pub data Flow (A : Type 0) : Type 0 where
  return : RouterResult A → Flow A
  continue : Locals → Flow A
  break : Locals → Flow A
