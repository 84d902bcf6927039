-- ===== src/Ai/Classify.antt =====
-- src/apps/ai/router.py: `Router.classify`, which asks the providers in their order.
use objekt_bernahme_automati.Prelude.{
  ℕ, suc, false, Option, none, some, List, [], ◌∷◌, String, ltb, length,
}
use objekt_bernahme_automati.Ai.World.{World, Router, Request, ProviderConfig}
use objekt_bernahme_automati.Ai.Router.{
  enabled_order, RouterResult, verdict_provider_error, verdict_disabled, Locals, Flow, return,
  continue, break,
}
use objekt_bernahme_automati.Ai.Attempt.{ask_provider}

abbrev last_name : List (String × ProviderConfig) → Option String
last_name [] = none
last_name ((name, cfg) ∷ []) = some name
last_name (p ∷ q ∷ ps) = last_name (q ∷ ps)

abbrev or_message : Option String → String
or_message none = "Alle Anbieter ausgefallen"
or_message (some m) = m

-- All providers of the order have failed.
abbrev exhausted : {A : Type 0} → List (String × ProviderConfig) → Locals → RouterResult A
exhausted order s = record {
  result = none;
  provider = last_name order;
  call = s.previous;
  status = verdict_provider_error;
  fallback_used = ltb 1 (length order);
  attempts = length s.calls;
  message = some (or_message s.last_message);
  calls = s.calls;
}

-- A pass of the loop over the providers, and the passes `k` that follow it.
abbrev pub then_provider :
    {A : Type 0}
    → (Locals → World → RouterResult A × World)
    → Flow A × World
    → RouterResult A × World
then_provider k (return result, w) = (result, w)
then_provider k (break s, w) = k s w
then_provider k (continue s, w) = k s w

-- `for index, name in enumerate(order)`, with the providers that are left.
unfoldable pub providers_from :
    {A : Type 0}
    → Router
    → Request A
    → ℕ
    → List (String × ProviderConfig)
    → ℕ
    → List (String × ProviderConfig)
    → Locals
    → World
    → RouterResult A × World
unfolding ask_provider
providers_from r req started order index [] s w = (exhausted order s, w)
providers_from r req started order index ((name, cfg) ∷ rest) s w =
    then_provider (providers_from r req started order (suc index) rest)
      (ask_provider r req started index name cfg s w)

abbrev disabled : {A : Type 0} → RouterResult A
disabled = record {
  result = none;
  provider = none;
  call = none;
  status = verdict_disabled;
  fallback_used = false;
  attempts = 0;
  message = some "Kein Anbieter freigegeben (AVV, ai.providers.<p>.enabled)";
  calls = [];
}

abbrev pub at_start : Locals
at_start = record {
  calls = [];
  previous = none;
  fallback_used = false;
  last_message = none;
  repair_hint = none;
}

abbrev pub classify_in :
    {A : Type 0}
    → Router
    → Request A
    → World
    → List (String × ProviderConfig)
    → RouterResult A × World
unfolding providers_from
classify_in r req w [] = (disabled, w)
classify_in r req w (p ∷ ps) = providers_from r req w.clock (p ∷ ps) 0 (p ∷ ps) at_start w

unfoldable pub classify : {A : Type 0} → Router → Request A → World → RouterResult A × World
unfolding enabled_order providers_from
classify r req w = classify_in r req w (enabled_order r r.order)
