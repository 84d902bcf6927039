-- ===== src/Ai/Limits.antt =====
-- src/apps/ai/router.py: a classification at the cost limits.
use objekt_bernahme_automati.Prelude.{
  ℕ, suc, ◌≤◌, ◌≡◌, refl, Bool, true, false, ◌||◌, Bool-cases, inl, inr, none, some, List, [], ◌∷◌,
  All, String, le→leb, arith,
}
use objekt_bernahme_automati.Ai.World.{World, Router, Request, ProviderConfig}
use objekt_bernahme_automati.Ai.Provider.{is_open, has_price}
use objekt_bernahme_automati.Ai.Router.{
  Locals, enabled_order, object_cost, month_cost, verdict_budget_blocked,
}
use objekt_bernahme_automati.Ai.Classify.{classify, classify_in, providers_from, at_start}
use objekt_bernahme_automati.Ai.Attempt.{if_allowed, ask_provider}
use objekt_bernahme_automati.Ai.CostLimit.{block_message, uncheckable, object_spent, month_spent}

-- The provider has a limit, but its model has no price.
abbrev pub IsUnpriced : Router → String × ProviderConfig → Type 0
IsUnpriced r (name, cfg) =
    (limit : ℕ) × (cfg.cost_limit ≡ some limit) × (has_price r.price_list cfg.model ≡ false)

module _ {A : Type 0} (r : Router) (req : Request A) where
  -- One condition is enough for a reason.
  barred :
      (name : String) (cfg : ProviderConfig) (w : World)
      → (uncheckable r cfg || (object_spent req name cfg w || month_spent r name w)) ≡ true
      → (m : String) × (block_message r req name cfg w ≡ some m)
  unfolding block_message
  barred name cfg w h = elim (Bool-cases (uncheckable r cfg)) [
    | inl a ↦ rw a (_, refl)
    | inr a ↦ elim (Bool-cases (object_spent req name cfg w)) [
      | inl b ↦ rw (a, b) (_, refl)
      | inr b ↦ rw (a, b, rw (a, b) at h) (_, refl)
    ]
  ]

  third_holds : (a b c : Bool) → c ≡ true → (a || (b || c)) ≡ true
  third_holds a b c h = ground arith

  second_holds : (a b c : Bool) → b ≡ true → (a || (b || c)) ≡ true
  second_holds a b c h = ground arith

  -- If the first enabled provider's breaker is closed and there is a reason not to call it, the
  -- classification ends there: no message is sent, and no other provider is asked instead.
  stopped :
      (name : String) (cfg : ProviderConfig) (ps : List (String × ProviderConfig)) (w : World)
      → enabled_order r r.order ≡ (name, cfg) ∷ ps
      → is_open name w ≡ false
      → (m : String) × (block_message r req name cfg w ≡ some m)
      → ((classify r req w).0.status ≡ verdict_budget_blocked)
        × ((classify r req w).0.result ≡ none)
        × ((classify r req w).1.sent ≡ w.sent)
  unfolding classify providers_from ask_provider if_allowed
  stopped name cfg ps w e o (m, b) = rw (e, o, b) (refl, refl, refl)

  -- The limit of an object is hard: once the logged costs of the first enabled provider, whose breaker
  -- is closed, for an object other than the inbox have reached its limit, a classification for the
  -- object has no result, says that the budget blocks it, and sends nothing to any provider.
  pub object_limit :
      (name : String) (cfg : ProviderConfig) (ps : List (String × ProviderConfig)) (w : World)
      (limit : ℕ)
      → enabled_order r r.order ≡ (name, cfg) ∷ ps
      → is_open name w ≡ false
      → cfg.cost_limit ≡ some limit
      → req.is_system_inbox ≡ false
      → limit ≤ object_cost name req.object w
      → ((classify r req w).0.status ≡ verdict_budget_blocked)
        × ((classify r req w).0.result ≡ none)
        × ((classify r req w).1.sent ≡ w.sent)
  object_limit name cfg ps w limit e o l i h = stopped name cfg ps w e o (
      barred name cfg w (
        second_holds (uncheckable r cfg) (object_spent req name cfg w) (month_spent r name w)
          (rw (l, i) (le→leb limit (object_cost name req.object w) h))))

  -- The budget of a month is hard for every object, the inbox included: once the costs that the first
  -- enabled provider, whose breaker is closed, has logged in the month have reached its budget, a
  -- classification has no result, says that the budget blocks it, and sends nothing to any provider.
  pub monthly_budget :
      (name : String) (cfg : ProviderConfig) (ps : List (String × ProviderConfig)) (w : World)
      (budget : ℕ)
      → enabled_order r r.order ≡ (name, cfg) ∷ ps
      → is_open name w ≡ false
      → r.monthly_budget name ≡ some budget
      → budget ≤ month_cost r name w
      → ((classify r req w).0.status ≡ verdict_budget_blocked)
        × ((classify r req w).0.result ≡ none)
        × ((classify r req w).1.sent ≡ w.sent)
  monthly_budget name cfg ps w budget e o b h = stopped name cfg ps w e o (
      barred name cfg w (
        third_holds (uncheckable r cfg) (object_spent req name cfg w) (month_spent r name w)
          (rw b (le→leb budget (month_cost r name w) h))))

  unpriced_lem :
      (started : ℕ) (order : List (String × ProviderConfig)) (index : ℕ)
      (ps : List (String × ProviderConfig)) (s : Locals) (w : World)
      → All (IsUnpriced r) ps
      → (providers_from r req started order index ps s w).1.sent ≡ w.sent
  unfolding providers_from ask_provider if_allowed
  unpriced_lem started order index [] s w h = refl
  unpriced_lem started order index ((name, cfg) ∷ ps) s w h = elim (Bool-cases (is_open name w)) [
    | inl o ↦ rw o (unpriced_lem started order (suc index) ps _ w h.1)
    | inr o ↦ let (limit, e, p) = h.0 in rw (o, (barred name cfg w (rw (e, p) refl)).1) refl
  ]

  -- Costs that cannot be checked count as too high: if every enabled provider has a limit, but a model
  -- without a price, a classification sends nothing to any of them, whatever the breakers say.
  pub unpriced_sends_nothing :
      (w : World)
      → All (IsUnpriced r) (enabled_order r r.order)
      → (classify r req w).1.sent ≡ w.sent
  unfolding classify
  unpriced_sends_nothing w h = from (enabled_order r r.order) h
    where
      from :
          (ps : List (String × ProviderConfig))
          → All (IsUnpriced r) ps
          → (classify_in r req w ps).1.sent ≡ w.sent
      from [] h = refl
      from (p ∷ ps) h = unpriced_lem w.clock (p ∷ ps) 0 (p ∷ ps) at_start w h
