-- ===== src/Ai/CostLimit.antt =====
-- src/apps/ai/router.py: when `Router.classify` may not call a provider, for its costs.
use objekt_bernahme_automati.Prelude.{
  ℕ, Bool, false, not, ◌&&◌, Option, none, some, String, ◌<>◌, leb, if◌then◌else◌,
}
use objekt_bernahme_automati.Ai.World.{World, Router, Request, ProviderConfig}
use objekt_bernahme_automati.Ai.Provider.{has_price}
use objekt_bernahme_automati.Ai.Router.{object_cost, month_cost}

abbrev or_empty : Option String → String
or_empty none = "(leer)"
or_empty (some m) = m

-- `limit is not None and ...`
abbrev with_limit : Option ℕ → (ℕ → Bool) → Bool
with_limit none p = false
with_limit (some limit) p = p limit

abbrev limit_text : Router → Option ℕ → String
limit_text r none = "None"
limit_text r (some limit) = r.amount_text limit

-- The three conditions of `block_message`: the price is unknown, the object's or the month's costs
-- have reached a limit.
abbrev pub uncheckable : Router → ProviderConfig → Bool
uncheckable r cfg = with_limit cfg.cost_limit (λ _. not (has_price r.price_list cfg.model))

abbrev pub object_spent : {A : Type 0} → Request A → String → ProviderConfig → World → Bool
object_spent req name cfg w =
    with_limit cfg.cost_limit
      (λ limit. not req.is_system_inbox && leb limit (object_cost name req.object w))

abbrev pub month_spent : Router → String → World → Bool
month_spent r name w =
    with_limit (r.monthly_budget name) (λ budget. leb budget (month_cost r name w))

-- The reason not to call the provider.
unfoldable pub block_message :
    {A : Type 0} → Router → Request A → String → ProviderConfig → World → Option String
unfolding has_price object_cost month_cost
block_message r req name cfg w =
    if uncheckable r cfg
    then some (
        "Kostenlimit "
        <> limit_text r cfg.cost_limit
        <> " EUR je Objekt nicht pruefbar: Modell "
        <> or_empty cfg.model
        <> " fehlt in ai.price_list oder steht auf 0 EUR (Version "
        <> r.price_list.version
        <> ")")
    else if object_spent req name cfg w
    then some ("Kostenlimit " <> limit_text r cfg.cost_limit <> " EUR je Objekt erreicht")
    else if month_spent r name w
    then some (
        "Monatsdeckel "
        <> limit_text r (r.monthly_budget name)
        <> " EUR für "
        <> name
        <> " erreicht (ai.monthly_budget_eur)")
    else none
