-- ===== src/Ai/Budget.antt =====
-- src/apps/ai/router.py: how often the providers are asked.
use objekt_bernahme_automati.Prelude.{
  ℕ, zero, suc, ◌+◌, ◌≤◌, ◌≡◌, refl, ap, if_induction, Option, none, some, List, [], ◌∷◌, length,
  length-append, String, arith,
}
use objekt_bernahme_automati.Ai.World.{World, Router, Request, ProviderConfig}
use objekt_bernahme_automati.Ai.Provider.{Reply, ask, sending, is_sensitive, is_open}
use objekt_bernahme_automati.Ai.Router.{
  RouterResult, Locals, Flow, return, break, continue, enabled_order,
}
use objekt_bernahme_automati.Ai.Classify.{
  classify, classify_in, then_provider, providers_from, at_start,
}
use objekt_bernahme_automati.Ai.Attempt.{
  handle, attempts_from, then_attempt, if_allowed, ask_provider, over_budget,
}
use objekt_bernahme_automati.Ai.Induction.{At, At-handle}

-- The attempts that the configurations allow together.
abbrev pub allowed : List (String × ProviderConfig) → ℕ
allowed [] = 0
allowed ((name, cfg) ∷ ps) = cfg.max_attempts + allowed ps

module _ {A : Type 0} (r : Router) (req : Request A) where
  length-ask :
      (name : String) (hint : Option String) (w : World)
      → length (ask r req name hint w).1.sent ≤ suc (length w.sent)
  unfolding ask
  length-ask name hint w =
      if_induction (λ (e : Reply A × World). length e.1.sent ≤ suc (length w.sent))
        (is_sensitive r req (sending req name hint)) (λ _. omega arith)
        (λ _. omega (arith, length-append w.sent (sending req name hint ∷ [])))

  of_world : (Q : World → Type 0) (e : Flow A × World) → At (λ _ v. Q v) e → Q e.1
  of_world Q (return result, w) h = h
  of_world Q (continue s, w) h = h
  of_world Q (break s, w) h = h

  sent-handle :
      (started index : ℕ) (name : String) (cfg : ProviderConfig) (attempt : ℕ) (reply : Reply A)
      (s : Locals) (w : World)
      → (handle r req started index name cfg attempt reply s w).1.sent ≡ w.sent
  sent-handle started index name cfg attempt reply s w =
      of_world (λ v. v.sent ≡ w.sent) (handle r req started index name cfg attempt reply s w)
        (At-handle r req (λ _ v. v.sent ≡ w.sent) (λ _ _ _ k. k) (λ _ _ _ _ k. k) started index name
          cfg attempt reply s w refl)

  length-then_attempt :
      (started index : ℕ) (name : String) (cfg : ProviderConfig) (left : ℕ)
      (k : Locals → World → Flow A × World) (e : Flow A × World)
      → ((s : Locals) (w : World) → length (k s w).1.sent ≤ length w.sent + left)
      → length (then_attempt r req started index name cfg k e).1.sent ≤ length e.1.sent + left
  length-then_attempt started index name cfg left k (return result, w) h = omega arith
  length-then_attempt started index name cfg left k (break s, w) h = omega arith
  length-then_attempt started index name cfg left k (continue s, w) h = h s w

  length-attempts_from :
      (started index : ℕ) (name : String) (cfg : ProviderConfig) (left attempt : ℕ) (s : Locals)
      (w : World)
      → length (attempts_from r req started index name cfg left attempt s w).1.sent
        ≤ length w.sent + left
  unfolding attempts_from
  length-attempts_from started index name cfg zero attempt s w = omega arith
  length-attempts_from started index name cfg (suc left) attempt s w =
      let a = ask r req name s.repair_hint w in
      let e = handle r req started index name cfg attempt a.0 s a.1 in
      if_induction (λ (f : Flow A × World). length f.1.sent ≤ length w.sent + suc left)
        (over_budget r req started index name cfg w) (λ _. omega arith)
        (λ _. omega (
          arith,
          length-ask name s.repair_hint w,
          ap length (sent-handle started index name cfg attempt a.0 s a.1),
          length-then_attempt started index name cfg left
              (attempts_from r req started index name cfg left (suc attempt)) e
              (λ s' w'. length-attempts_from started index name cfg left (suc attempt) s' w'),
        ))

  length-if_allowed :
      (started index : ℕ) (name : String) (cfg : ProviderConfig) (message : Option String)
      (s : Locals) (w : World)
      → length (if_allowed r req started index name cfg message s w).1.sent
        ≤ length w.sent + cfg.max_attempts
  unfolding if_allowed
  length-if_allowed started index name cfg (some message) s w = omega arith
  length-if_allowed started index name cfg none s w =
      length-attempts_from started index name cfg cfg.max_attempts 1 _ w

  length-ask_provider :
      (started index : ℕ) (name : String) (cfg : ProviderConfig) (s : Locals) (w : World)
      → length (ask_provider r req started index name cfg s w).1.sent
        ≤ length w.sent + cfg.max_attempts
  unfolding ask_provider
  length-ask_provider started index name cfg s w =
      if_induction (λ (f : Flow A × World). length f.1.sent ≤ length w.sent + cfg.max_attempts)
        (is_open name w) (λ _. omega arith) (λ _. length-if_allowed started index name cfg _ s w)

  length-then_provider :
      (n : ℕ) (k : Locals → World → RouterResult A × World) (e : Flow A × World)
      → ((s : Locals) (w : World) → length (k s w).1.sent ≤ length w.sent + n)
      → length (then_provider k e).1.sent ≤ length e.1.sent + n
  length-then_provider n k (return result, w) h = omega arith
  length-then_provider n k (break s, w) h = h s w
  length-then_provider n k (continue s, w) h = h s w

  length-providers_from :
      (started : ℕ) (order : List (String × ProviderConfig)) (index : ℕ)
      (ps : List (String × ProviderConfig)) (s : Locals) (w : World)
      → length (providers_from r req started order index ps s w).1.sent ≤ length w.sent + allowed ps
  unfolding providers_from
  length-providers_from started order index [] s w = omega arith
  length-providers_from started order index ((name, cfg) ∷ ps) s w = omega (
    arith,
    length-ask_provider started index name cfg s w,
    length-then_provider (allowed ps) (providers_from r req started order (suc index) ps)
        (ask_provider r req started index name cfg s w)
        (λ s' w'. length-providers_from started order (suc index) ps s' w'),
  )

  -- A classification sends at most as many messages as the enabled providers' configurations allow
  -- attempts, all together.
  pub classify_bounded :
      (w : World)
      → length (classify r req w).1.sent ≤ length w.sent + allowed (enabled_order r r.order)
  unfolding classify
  classify_bounded w = from (enabled_order r r.order)
    where
      from :
          (ps : List (String × ProviderConfig))
          → length (classify_in r req w ps).1.sent ≤ length w.sent + allowed ps
      from [] = omega arith
      from (p ∷ ps) = length-providers_from w.clock (p ∷ ps) 0 (p ∷ ps) at_start w
