-- ===== src/Ai/Attempt.antt =====
-- src/apps/ai/router.py: the body of the loop of `Router.classify` over the providers, with the loop
-- over the attempts.
use objekt_bernahme_automati.Prelude.{
  ℕ, zero, suc, ◌+◌, Bool, true, false, Option, none, some, List, [], ◌∷◌, ◌++◌, String, ◌<>◌,
  prefix, ltb, if◌then◌else◌, length,
}
use objekt_bernahme_automati.Ai.World.{
  World, Router, Request, Parsed, parsed, violation, ProviderConfig, AiCall, CallStatus, ok, error,
  timeout, rate_limited, budget_blocked, schema_error, provider_error, blocked_by_mask_check,
}
use objekt_bernahme_automati.Ai.Provider.{
  Outcome, Reply, ask, cost, is_open, record_failure, record_success,
}
use objekt_bernahme_automati.Ai.Router.{
  Verdict, Measured, Entry, new_call, log, RouterResult, verdict_ok, verdict_provider_error,
  verdict_budget_blocked, verdict_mask_check, Locals, Flow, return, continue, break,
}
use objekt_bernahme_automati.Ai.CostLimit.{block_message}

abbrev plain : CallStatus → String → Option ℕ → ℕ → Entry
plain status message http attempt = record {
  status = status;
  message = message;
  http_status = http;
  attempt = attempt;
  measured = none;
}

-- The measured columns of an answer, with `provider.estimate_cost_eur`.
abbrev pub measured : {A : Type 0} → Router → ProviderConfig → Outcome A → Measured
measured r cfg o = record {
  prompt_hash = o.prompt_hash;
  prompt_chars = o.prompt_chars;
  tokens_in = o.raw.tokens_in;
  tokens_out = o.raw.tokens_out;
  http_status = o.raw.http_status;
  latency_ms = o.latency_ms;
  cost = cost r.price_list cfg.model o.raw.tokens_in o.raw.tokens_out;
}

-- `index` and `name` are the provider's place in the order; `started` is the clock at the beginning.
module _ {A : Type 0} (r : Router) (req : Request A) (started index : ℕ) (name : String)
    (cfg : ProviderConfig) where
  -- `return RouterResult(...)` with the calls so far.
  abbrev ended :
      Verdict → Option A → Option AiCall → Bool → Option String → List AiCall → RouterResult A
  ended status result call fallback message calls = record {
    result = result;
    provider = some name;
    call = call;
    status = status;
    fallback_used = fallback;
    attempts = length calls;
    message = message;
    calls = calls;
  }

  -- A failed call: it is logged, counted by the breaker, and the loop goes on or ends.
  abbrev failure : Entry → String → Bool → Locals → World → Flow A × World
  failure e message retryable s w =
      let c = new_call r req index name cfg s.previous e w in
      let s' = record s {
        calls = s.calls ++ c ∷ [];
        previous = some c;
        last_message = some (name <> ": " <> message);
      } in
      (if retryable then continue s' else break s', record_failure name (log c w))

  -- A logged answer: a violation of the schema asks for a repair, a result ends the loops.
  unfoldable pub judge : ℕ → Outcome A → Parsed A → Locals → World → Flow A × World
  unfolding new_call record_success cost
  judge attempt o (violation text) s w =
      let e : Entry = record {
        status = schema_error;
        message = prefix 1000 text;
        http_status = none;
        attempt = attempt;
        measured = some (measured r cfg o);
      } in
      let c = new_call r req index name cfg s.previous e w in
      (
        continue (record s {
          calls = s.calls ++ c ∷ [];
          previous = some c;
          repair_hint = some (
              "Die Antwort verletzte das Schema: "
              <> prefix 300 text
              <> ". "
              <> req.repair_instruction);
          last_message = some (name <> ": Schemaverletzung");
        }),
        log c w,
      )
  judge attempt o (parsed result) s w =
      let e : Entry = record {
        status = ok;
        message = "";
        http_status = none;
        attempt = attempt;
        measured = some (measured r cfg o);
      } in
      let c = new_call r req index name cfg s.previous e w in
      let calls = s.calls ++ c ∷ [] in
      (
        return (ended verdict_ok (some result) (some c) (ltb 0 index) none calls),
        record_success name (log c w),
      )

  unfoldable pub handle : ℕ → Reply A → Locals → World → Flow A × World
  unfolding judge new_call record_failure
  handle attempt (Reply.mask_check_failed text) s w =
      let c =
        new_call r req index name cfg s.previous (plain blocked_by_mask_check text none 1) w in
      let calls = s.calls ++ c ∷ [] in
      (return (ended verdict_mask_check none (some c) (ltb 0 index) (some text) calls), log c w)
  handle attempt (Reply.provider_timeout text) s w =
      failure (plain timeout text none attempt) "Zeitüberschreitung" true s w
  handle attempt (Reply.rate_limited text) s w =
      failure (plain rate_limited text (some 429) attempt) "Ratenbegrenzung" true s w
  handle attempt (Reply.provider_error http retryable text) s w =
      failure (plain provider_error text http attempt) text retryable s w
  handle attempt (Reply.other_exception class text) s w =
      failure (plain error (prefix 1000 (class <> ": " <> text)) none attempt)
        (class <> ": " <> text) false s w
  handle attempt (Reply.answered o) s w = judge attempt o o.answer s w

  -- `time.monotonic() - started > wall_budget_s`
  abbrev pub over_budget : World → Bool
  over_budget w = ltb (started + r.wall_budget) w.clock

  -- After the loop over the attempts the next provider is a fallback.
  abbrev next_provider : Locals → Flow A
  next_provider s = continue (record s { fallback_used = true })

  -- A pass of the loop over the attempts, and the passes `k` that follow a `continue`.
  abbrev pub then_attempt : (Locals → World → Flow A × World) → Flow A × World → Flow A × World
  then_attempt k (return result, w) = (return result, w)
  then_attempt k (break s, w) = (next_provider s, w)
  then_attempt k (continue s, w) = k s w

  -- `for attempt in range(1, max_attempts + 1)`, with `left` attempts left.
  unfoldable pub attempts_from : ℕ → ℕ → Locals → World → Flow A × World
  unfolding handle ask
  attempts_from zero attempt s w = (next_provider s, w)
  attempts_from (suc left) attempt s w =
      let (reply, w') = ask r req name s.repair_hint w in
      let rest = then_attempt (attempts_from left (suc attempt)) (handle attempt reply s w') in
      if over_budget w
      then (
        return (
            ended verdict_provider_error none s.previous s.fallback_used
              (some "Gesamtbudget je Dokument überschritten") s.calls),
        w,
      )
      else rest

  abbrev blocked : String → Locals → World → Flow A × World
  blocked message s w =
      let c = new_call r req index name cfg s.previous (plain budget_blocked message none 1) w in
      let calls = s.calls ++ c ∷ [] in
      (
        return (
            ended verdict_budget_blocked none (some c) (ltb 0 index)
              (some ("Kostenlimit für " <> name <> " erreicht")) calls),
        log c w,
      )

  -- The attempts, unless there is a reason not to call the provider.
  unfoldable pub if_allowed : Option String → Locals → World → Flow A × World
  unfolding attempts_from new_call
  if_allowed (some message) s w = blocked message s w
  if_allowed none s w = attempts_from cfg.max_attempts 1 (record s { repair_hint = none }) w

  -- The body of the loop over the providers.
  unfoldable pub ask_provider : Locals → World → Flow A × World
  unfolding if_allowed block_message is_open
  ask_provider s w =
      if is_open name w
      then (continue (record s { last_message = some (name <> ": Circuit Breaker offen") }), w)
      else if_allowed (block_message r req name cfg w) s w
