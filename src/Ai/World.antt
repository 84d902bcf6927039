-- ===== src/Ai/World.antt =====
-- src/apps/ai/models.py, src/apps/ai/provider.py: the log of calls, the configuration of a provider,
-- and what a request and an answer are. Amounts are millionths of a euro, times seconds since a
-- fixed origin. The network below `send`, the messages and the schema of a request
-- (src/apps/ai/prompt.py, schema.py, assignment.py) and the patterns of src/objektakte/masking.py
-- are parameters.
use objekt_bernahme_automati.Prelude.{ℕ, Bool, Option, List, String}

pub data CallStatus : Type 0 where
  ok error timeout rate_limited budget_blocked schema_error provider_error : CallStatus
  blocked_by_mask_check : CallStatus

pub record AiCall : Type 0 where
  pub id : ℕ
  pub object : ℕ
  pub document : Option ℕ
  pub purpose : String
  pub provider : String
  pub model : String
  pub prompt_hash : Option String
  pub prompt_chars : Option ℕ
  pub masked_entities_count : ℕ
  pub tokens_in : Option ℕ
  pub tokens_out : Option ℕ
  pub cost : Option ℕ
  pub price_list_version : String
  pub duration_ms : Option ℕ
  pub status : CallStatus
  pub http_status : Option ℕ
  pub error_message : Option String
  pub fallback_used : Bool
  pub fallback_of : Option ℕ
  pub attempt : ℕ
  pub requested_at : ℕ

pub record ProviderConfig : Type 0 where
  pub name : String
  pub enabled : Bool
  pub model : Option String
  pub max_attempts : ℕ
  pub cost_limit : Option ℕ

-- `self.prices`: per model the price of 1000 tokens in and out.
pub record PriceList : Type 0 where
  pub version : String
  pub prices : List (String × ℕ × ℕ)

-- A request with its `build_messages`, `parse` (an answer, or the text of the violation) and
-- `mask_check_text`.
pub data Parsed (A : Type 0) : Type 0 where
  parsed : A → Parsed A
  violation : String → Parsed A

pub record Request (A : Type 0) : Type 0 where
  pub build_messages : Option String → String × String
  pub mask_check_text : String
  pub parse : String → Parsed A
  pub purpose : String
  pub repair_instruction : String
  pub object : ℕ
  pub is_system_inbox : Bool
  pub document : Option ℕ
  pub masked_entities_count : ℕ

pub record RawResponse : Type 0 where
  pub text : String
  pub tokens_in : ℕ
  pub tokens_out : ℕ
  pub http_status : Option ℕ

-- How `send` ends: with an answer, by one of the provider's errors, or by another exception.
pub data Response : Type 0 where
  received : RawResponse → Response
  timed_out : String → Response
  limited : String → Response
  failed : Option ℕ → Bool → String → Response
  crashed : String → String → Response

-- The entry of a circuit breaker in the cache, with the time at which the cache drops it.
pub record Breaker : Type 0 where
  pub failures : ℕ
  pub open_until : Option ℕ
  pub expires : ℕ

pub record Sending : Type 0 where
  pub provider : String
  pub system : String
  pub user : String

-- The table `ai_calls`, the cache, the clock, and all that was sent so far.
pub record World : Type 0 where
  pub ai_calls : List AiCall
  pub next_id : ℕ
  pub breakers : String → Option Breaker
  pub clock : ℕ
  pub sent : List Sending

-- The router's fields and settings, with the network below `send`: its response to a provider's call,
-- and the seconds that pass; `month_start` is the first moment of a time's month.
pub record Router : Type 0 where
  pub configs : String → Option ProviderConfig
  pub price_list : PriceList
  pub order : List String
  pub wall_budget : ℕ
  pub monthly_budget : String → Option ℕ
  pub transport : String → Sending → World → Response × ℕ
  pub contains_sensitive : String → Bool
  pub prompt_hash : String → String → String
  pub month_start : ℕ → ℕ
  pub amount_text : ℕ → String
