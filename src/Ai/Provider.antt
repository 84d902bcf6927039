-- ===== src/Ai/Provider.antt =====
-- src/apps/ai/provider.py: the prices, and `BaseProvider.classify` with its check of the masking.
-- src/apps/ai/router.py: the circuit breaker.
use Prim.Native.String as Str
use objekt_bernahme_automati.Prelude.{
  ℕ, ◌+◌, ◌*◌, ◌/◌, ◌%◌, Bool, false, ◌||◌, Option, none, some, List, [], ◌∷◌, ◌++◌, String, str_eq,
  is_blank, ltb, leb, if◌then◌else◌,
}
use objekt_bernahme_automati.Ai.World.{
  World, Router, Request, Parsed, RawResponse, Response, received, timed_out, limited, failed,
  crashed, Breaker, Sending, PriceList,
}

abbrev price_of : String → List (String × ℕ × ℕ) → Option (ℕ × ℕ)
price_of model [] = none
price_of model ((name, input, output) ∷ rest) =
    let later = price_of model rest in if str_eq name model then some (input, output) else later

abbrev model_price : Option String → PriceList → Option (ℕ × ℕ)
model_price none list = none
model_price (some model) list = if is_blank model then none else price_of model list.prices

abbrev positive : Option (ℕ × ℕ) → Bool
positive none = false
positive (some (input, output)) = ltb 0 input || ltb 0 output

unfoldable pub has_price : PriceList → Option String → Bool
has_price list model = positive (model_price model list)

-- Thousandths, rounded to the nearest whole, a half to the even one (`quantize`).
unfoldable pub quantized : ℕ → ℕ
quantized n =
    let whole = n / 1000 in
    let rest = n % 1000 in
    if ltb rest 500 then whole else if ltb 500 rest then whole + 1 else whole + whole % 2

abbrev text_or_blank : Option String → String
text_or_blank none = ""
text_or_blank (some s) = s

abbrev price_or_zero : Option (ℕ × ℕ) → ℕ × ℕ
price_or_zero none = (0, 0)
price_or_zero (some p) = p

unfoldable pub cost : PriceList → Option String → ℕ → ℕ → ℕ
unfolding quantized
cost list model tokens_in tokens_out =
    let (input, output) = price_or_zero (price_of (text_or_blank model) list.prices) in
    quantized (tokens_in * input + tokens_out * output)

-- `ProviderOutcome`: a result, or the text of the schema violation.
pub record Outcome (A : Type 0) : Type 0 where
  pub answer : Parsed A
  pub raw : RawResponse
  pub latency_ms : ℕ
  pub prompt_hash : String
  pub prompt_chars : ℕ

-- How `provider.classify` ends.
pub data Reply (A : Type 0) : Type 0 where
  answered : Outcome A → Reply A
  mask_check_failed : String → Reply A
  provider_timeout : String → Reply A
  rate_limited : String → Reply A
  provider_error : Option ℕ → Bool → String → Reply A
  other_exception : String → String → Reply A

abbrev reply_of : {A : Type 0} → Router → Request A → Sending → ℕ → Response → Reply A
reply_of r req m seconds (received raw) = answered (record {
  answer = req.parse raw.text;
  raw = raw;
  latency_ms = 1000 * seconds;
  prompt_hash = r.prompt_hash m.system m.user;
  prompt_chars = Str.count m.system + Str.count m.user;
})
reply_of r req m seconds (timed_out text) = provider_timeout text
reply_of r req m seconds (limited text) = rate_limited text
reply_of r req m seconds (failed status retryable text) = provider_error status retryable text
reply_of r req m seconds (crashed class text) = other_exception class text

abbrev pub sending : {A : Type 0} → Request A → String → Option String → Sending
sending req name hint =
    let (system, user) = req.build_messages hint in
    record { provider = name; system = system; user = user }

-- The check directly before sending.
abbrev pub is_sensitive : {A : Type 0} → Router → Request A → Sending → Bool
is_sensitive r req m = r.contains_sensitive m.user || r.contains_sensitive req.mask_check_text

unfoldable pub ask :
    {A : Type 0} → Router → Request A → String → Option String → World → Reply A × World
ask r req name hint w =
    let m = sending req name hint in
    let (response, seconds) = r.transport name m w in
    if is_sensitive r req m
    then (mask_check_failed "Sensible Muster im Request (IBAN, Kontonummer oder Ausweisnummer)", w)
    else (
      reply_of r req m seconds response,
      record w { clock = w.clock + seconds; sent = w.sent ++ m ∷ [] },
    )

abbrev pub breaker_failures : ℕ
breaker_failures = 3

abbrev pub breaker_open_seconds : ℕ
breaker_open_seconds = 300

-- `cache.get`: an entry that has expired is gone.
abbrev pub cached : ℕ → Option Breaker → Option Breaker
cached now none = none
cached now (some b) = if ltb now b.expires then some b else none

abbrev open_after : ℕ → Option ℕ → Bool
open_after now none = false
open_after now (some t) = ltb now t

abbrev open_state : ℕ → Option Breaker → Bool
open_state now none = false
open_state now (some b) = open_after now b.open_until

unfoldable pub is_open : String → World → Bool
is_open name w = open_state w.clock (cached w.clock (w.breakers name))

abbrev fresh : Breaker
fresh = record { failures = 0; open_until = none; expires = 0 }

abbrev or_fresh : Option Breaker → Breaker
or_fresh none = fresh
or_fresh (some b) = b

-- The entry after one failure more.
unfoldable pub counted : ℕ → Breaker → Breaker
counted now b =
    if leb breaker_failures (b.failures + 1)
    then record {
      failures = 0;
      open_until = some (now + breaker_open_seconds);
      expires = now + 2 * breaker_open_seconds;
    }
    else record {
      failures = b.failures + 1;
      open_until = b.open_until;
      expires = now + 2 * breaker_open_seconds;
    }

abbrev pub set_breaker : String → Option Breaker → World → World
set_breaker name b w = record w { breakers = λ n. if str_eq n name then b else w.breakers n }

unfoldable pub record_failure : String → World → World
unfolding counted
record_failure name w =
    set_breaker name (some (counted w.clock (or_fresh (cached w.clock (w.breakers name))))) w

unfoldable pub record_success : String → World → World
record_success name w = set_breaker name none w
