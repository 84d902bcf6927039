-- ===== src/Ai/Induction.antt =====
-- src/apps/ai/router.py: induction over what `Router.classify` does to the world.
use objekt_bernahme_automati.Prelude.{
  ℕ, zero, suc, true, false, if_induction, Option, none, some, List, [], ◌∷◌, ◌++◌, String,
}
use objekt_bernahme_automati.Ai.World.{
  World, Router, Request, ProviderConfig, AiCall, Breaker, Parsed, parsed, violation,
}
use objekt_bernahme_automati.Ai.Provider.{
  Reply, Outcome, ask, is_open, record_failure, record_success, set_breaker,
}
use objekt_bernahme_automati.Ai.Router.{
  RouterResult, log, Locals, Flow, return, continue, break, enabled_order,
}
use objekt_bernahme_automati.Ai.Attempt.{
  judge, then_attempt, if_allowed, handle, attempts_from, ask_provider, over_budget,
}
use objekt_bernahme_automati.Ai.Classify.{
  then_provider, classify_in, providers_from, classify, at_start,
}

-- A property of the calls that `classify` has made so far and of the world, at the end of a pass.
abbrev pub At : {A : Type 0} → (List AiCall → World → Type 0) → Flow A × World → Type 0
At P (return result, w) = P result.calls w
At P (continue s, w) = P s.calls w
At P (break s, w) = P s.calls w

module _ {A : Type 0} (r : Router) (req : Request A) (P : List AiCall → World → Type 0)
    (logged : (calls : List AiCall) (c : AiCall) (w : World)
      → P calls w
      → P (calls ++ c ∷ []) (log c w))
    (cached : (calls : List AiCall) (name : String) (b : Option Breaker) (w : World)
      → P calls w
      → P calls (set_breaker name b w)) where
  At-judge :
      (started index : ℕ) (name : String) (cfg : ProviderConfig) (attempt : ℕ) (o : Outcome A)
      (p : Parsed A) (s : Locals) (w : World)
      → P s.calls w
      → At P (judge r req started index name cfg attempt o p s w)
  unfolding judge record_success
  At-judge started index name cfg attempt o (violation text) s w h = logged _ _ w h
  At-judge started index name cfg attempt o (parsed result) s w h = cached _ _ _ _ (logged _ _ w h)

  pub At-handle :
      (started index : ℕ) (name : String) (cfg : ProviderConfig) (attempt : ℕ) (reply : Reply A)
      (s : Locals) (w : World)
      → P s.calls w
      → At P (handle r req started index name cfg attempt reply s w)
  unfolding handle record_failure record_success
  At-handle started index name cfg attempt (Reply.mask_check_failed text) s w h = logged _ _ w h
  At-handle started index name cfg attempt (Reply.provider_timeout text) s w h =
      cached _ _ _ _ (logged _ _ w h)
  At-handle started index name cfg attempt (Reply.rate_limited text) s w h =
      cached _ _ _ _ (logged _ _ w h)
  At-handle started index name cfg attempt (Reply.provider_error http true text) s w h =
      cached _ _ _ _ (logged _ _ w h)
  At-handle started index name cfg attempt (Reply.provider_error http false text) s w h =
      cached _ _ _ _ (logged _ _ w h)
  At-handle started index name cfg attempt (Reply.other_exception class text) s w h =
      cached _ _ _ _ (logged _ _ w h)
  At-handle started index name cfg attempt (Reply.answered o) s w h =
      At-judge started index name cfg attempt o o.answer s w h

  module _
      (asked : (calls : List AiCall) (name : String) (hint : Option String) (w : World)
        → P calls w
        → P calls (ask r req name hint w).1) where
    At-then_attempt :
        (started index : ℕ) (name : String) (cfg : ProviderConfig)
        (k : Locals → World → Flow A × World) (e : Flow A × World)
        → ((s : Locals) (w : World) → P s.calls w → At P (k s w))
        → At P e
        → At P (then_attempt r req started index name cfg k e)
    At-then_attempt started index name cfg k (return result, w) step h = h
    At-then_attempt started index name cfg k (break s, w) step h = h
    At-then_attempt started index name cfg k (continue s, w) step h = step s w h

    At-attempts_from :
        (started index : ℕ) (name : String) (cfg : ProviderConfig) (left attempt : ℕ) (s : Locals)
        (w : World)
        → P s.calls w
        → At P (attempts_from r req started index name cfg left attempt s w)
    unfolding attempts_from
    At-attempts_from started index name cfg zero attempt s w h = h
    At-attempts_from started index name cfg (suc left) attempt s w h =
        if_induction (At P) (over_budget r req started index name cfg w) (λ _. h)
          (λ _.
            At-then_attempt started index name cfg _ _
              (λ s' w'. At-attempts_from started index name cfg left (suc attempt) s' w')
              (At-handle started index name cfg attempt _ s _ (asked _ _ _ w h)))

    At-if_allowed :
        (started index : ℕ) (name : String) (cfg : ProviderConfig) (message : Option String)
        (s : Locals) (w : World)
        → P s.calls w
        → At P (if_allowed r req started index name cfg message s w)
    unfolding if_allowed
    At-if_allowed started index name cfg (some message) s w h = logged _ _ w h
    At-if_allowed started index name cfg none s w h =
        At-attempts_from started index name cfg cfg.max_attempts 1 _ w h

    At-ask_provider :
        (started index : ℕ) (name : String) (cfg : ProviderConfig) (s : Locals) (w : World)
        → P s.calls w
        → At P (ask_provider r req started index name cfg s w)
    unfolding ask_provider
    At-ask_provider started index name cfg s w h =
        if_induction (At P) (is_open name w) (λ _. h)
          (λ _. At-if_allowed started index name cfg _ s w h)

    then_provider_lem :
        (k : Locals → World → RouterResult A × World) (e : Flow A × World)
        → ((s : Locals) (w : World) → P s.calls w → P (k s w).0.calls (k s w).1)
        → At P e
        → P (then_provider k e).0.calls (then_provider k e).1
    then_provider_lem k (return result, w) step h = h
    then_provider_lem k (break s, w) step h = step s w h
    then_provider_lem k (continue s, w) step h = step s w h

    providers_from_lem :
        (started : ℕ) (order : List (String × ProviderConfig)) (index : ℕ)
        (ps : List (String × ProviderConfig)) (s : Locals) (w : World)
        → P s.calls w
        → P
            (providers_from r req started order index ps s w).0.calls
            (providers_from r req started order index ps s w).1
    unfolding providers_from
    providers_from_lem started order index [] s w h = h
    providers_from_lem started order index ((name, cfg) ∷ ps) s w h =
        then_provider_lem _ _ (λ s' w'. providers_from_lem started order (suc index) ps s' w')
          (At-ask_provider started index name cfg s w h)

    -- What holds before a classification, without any calls, and is kept when a call is logged, when a
    -- breaker is written and when a provider is asked, holds of the result's calls and the world
    -- afterwards.
    pub classify_induction :
        (w : World) → P [] w → P (classify r req w).0.calls (classify r req w).1
    unfolding classify
    classify_induction w h = from (enabled_order r r.order)
      where
        from :
            (ps : List (String × ProviderConfig))
            → P (classify_in r req w ps).0.calls (classify_in r req w ps).1
        from [] = h
        from (p ∷ ps) = providers_from_lem w.clock (p ∷ ps) 0 (p ∷ ps) at_start w h
