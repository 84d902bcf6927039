-- ===== src/Ai/Tests.antt =====
-- Runs of `Router.classify` on concrete requests, and the theorems applied to them.
use objekt_bernahme_automati.Prelude.{
  ℕ, ◌≤◌, ◌≡◌, refl, true, false, Option, none, some, List, [], ◌∷◌, ◌++◌, String, ◌<>◌, str_eq,
  length, All, arith, if◌then◌else◌,
}
use objekt_bernahme_automati.Ai.World.{
  World, Router, Request, ProviderConfig, Sending, Response, received, timed_out, parsed, ok,
}
use objekt_bernahme_automati.Ai.Provider.{is_open, record_failure, has_price}
use objekt_bernahme_automati.Ai.Router.{
  enabled_order, object_cost, month_cost, verdict_ok, verdict_budget_blocked,
}
use objekt_bernahme_automati.Ai.Classify.{classify}
use objekt_bernahme_automati.Ai.Masking.{IsMasked, classify-IsMasked, classify-ai_calls}
use objekt_bernahme_automati.Ai.Limits.{
  object_limit, monthly_budget, unpriced_sends_nothing, IsUnpriced,
}
use objekt_bernahme_automati.Ai.CircuitBreaker.{breaker_not_half_open, at}

abbrev openai : ProviderConfig
openai = record {
  name = "openai";
  enabled = true;
  model = some "small";
  max_attempts = 2;
  cost_limit = some 500;
}

abbrev anthropic : ProviderConfig
anthropic = record {
  name = "anthropic";
  enabled = true;
  model = some "large";
  max_attempts = 1;
  cost_limit = some 500;
}

abbrev configs : String → Option ProviderConfig
configs name =
    if str_eq name "openai"
    then some openai
    else if str_eq name "anthropic"
    then some anthropic
    else none

-- The first provider times out, the second answers.
abbrev transport : String → Sending → World → Response × ℕ
transport name m w = if str_eq name "openai" then (timed_out "timeout", 30) else (
  received
      (record { text = "Rechnung"; tokens_in = 1000; tokens_out = 500; http_status = some 200 }),
  4,
)

abbrev router : Router
router = record {
  configs = configs;
  price_list = record { version = "1"; prices = ("small", 100, 200) ∷ ("large", 300, 600) ∷ [] };
  order = "openai" ∷ "anthropic" ∷ [];
  wall_budget = 120;
  monthly_budget = λ name. if str_eq name "openai" then some 1000 else none;
  transport = transport;
  contains_sensitive = λ text. str_eq text "DE02120300000000202051";
  prompt_hash = λ system user. system <> user;
  month_start = λ now. 0;
  amount_text = λ amount. "0,0005";
}

abbrev request : Request String
request = record {
  build_messages = λ hint. ("Ordne zu.", "Rechnung vom 1.");
  mask_check_text = "Rechnung vom 1.";
  parse = λ text. parsed text;
  purpose = "classify";
  repair_instruction = "";
  object = 7;
  is_system_inbox = false;
  document = some 3;
  masked_entities_count = 0;
}

abbrev empty : World
empty = record { ai_calls = []; next_id = 1; breakers = λ name. none; clock = 1000; sent = [] }

-- Two attempts of the first provider, one of the second, which answers.
fallback : (classify router request empty).0.status ≡ verdict_ok
unfolding classify
fallback = refl

fallback_calls : length (classify router request empty).1.ai_calls ≡ 3
unfolding classify
fallback_calls = refl

classify-IsMasked_example : All (IsMasked router) (classify router request empty).1.sent
classify-IsMasked_example = classify-IsMasked router request empty tt

abbrev leaking : Request String
leaking = record request { mask_check_text = "DE02120300000000202051" }

classify-ai_calls_example :
    (classify router request empty).1.ai_calls ≡ [] ++ (classify router request empty).0.calls
classify-ai_calls_example = classify-ai_calls router request empty

-- A call for the object that has cost as much as the limit allows.
abbrev spent : World
spent = record empty {
  ai_calls =
      record {
        id = 1;
        object = 7;
        document = none;
        purpose = "classify";
        provider = "openai";
        model = "small";
        prompt_hash = none;
        prompt_chars = none;
        masked_entities_count = 0;
        tokens_in = none;
        tokens_out = none;
        cost = some 1200;
        price_list_version = "1";
        duration_ms = none;
        status = ok;
        http_status = none;
        error_message = none;
        fallback_used = false;
        fallback_of = none;
        attempt = 1;
        requested_at = 900;
      }
      ∷ [];
}

abbrev enabled : List (String × ProviderConfig)
enabled = ("openai", openai) ∷ ("anthropic", anthropic) ∷ []

order_lem : enabled_order router router.order ≡ enabled
unfolding enabled_order
order_lem = refl

closed_lem : is_open "openai" spent ≡ false
unfolding is_open
closed_lem = refl

spent_lem : 500 ≤ object_cost "openai" 7 spent
unfolding object_cost
spent_lem = omega arith

month_lem : 1000 ≤ month_cost router "openai" spent
unfolding month_cost
month_lem = omega arith

object_limit_example :
    ((classify router request spent).0.status ≡ verdict_budget_blocked)
    × ((classify router request spent).0.result ≡ none)
    × ((classify router request spent).1.sent ≡ [])
object_limit_example =
    object_limit router request "openai" openai (("anthropic", anthropic) ∷ []) spent 500 order_lem
      closed_lem refl refl spent_lem

monthly_budget_example :
    ((classify router request spent).0.status ≡ verdict_budget_blocked)
    × ((classify router request spent).0.result ≡ none)
    × ((classify router request spent).1.sent ≡ [])
monthly_budget_example =
    monthly_budget router request "openai" openai (("anthropic", anthropic) ∷ []) spent 1000
      order_lem closed_lem refl month_lem

-- No model has a price.
abbrev unpriced : Router
unpriced = record router { price_list = record { version = "2"; prices = [] } }

unpriced_lem : All (IsUnpriced unpriced) (enabled_order unpriced unpriced.order)
unfolding enabled_order has_price
unpriced_lem = ((500, refl, refl), ((500, refl, refl), tt))

unpriced_sends_nothing_example : (classify unpriced request empty).1.sent ≡ []
unpriced_sends_nothing_example = unpriced_sends_nothing unpriced request empty unpriced_lem

breaker_not_half_open_example :
    is_open "openai" (
      at 1420 (
        record_failure "openai" (
          at 1410 (
            record_failure "openai" (
              at 1400 (
                record_failure "openai" (
                  at 1060 (
                    record_failure "openai"
                      (at 1030 (record_failure "openai" (at 1000 empty)))))))))))
    ≡ false
breaker_not_half_open_example =
    breaker_not_half_open "openai" empty refl 1000 1030 1060 1400 1410 1420 (omega arith)
      (omega arith) (omega arith) (omega arith) (omega arith)
