-- ===== src/Tests/Models.antt =====
-- The choice of a model.
use aieos.Base.{
  ℕ, String, true, false, none, List, [], ◌∷◌, ok, ◌≡◌, ◌≢◌, ◌↔◌, refl, inl, inr, arith,
}
use aieos.Base.Dict.{Dict, get}
use aieos.Tests.Samples.{a_request}
use aieos.Gateway.Types.{RouteDecision}
use aieos.Gateway.Routing.{ModelCatalogEntry, exclusion, route, decision, screen, route_cost}
use aieos.Gateway.Routing.Sort.{sort, sort_routes, sort_texts, insert_sorted, route_less}
use aieos.Gateway.Routing.Health as Health
use aieos.Gateway.Routing.Health.{
  ModelHealth, record_health_failure, record_health_success, health_state,
}
use aieos.Gateway.Routing.Laws.{Serves, exclusion_iff}
use aieos.Gateway.Routing.Choice.{Best, route-Best, route-returns}

abbrev model : String → ℕ → ModelCatalogEntry
model key price = record {
  model_key = key;
  adapter_key = "mock";
  capabilities = "text" ∷ "structured" ∷ [];
  context_limit = 1000;
  max_output = 100;
  quality_tier = 2;
  latency_tier = 1;
  input_cost_per_token = price;
  output_cost_per_token = price;
  pricing_version = "2024-01";
  residencies = "eu" ∷ [];
  data_handling = [];
  security_tier = 1;
  available = true;
  healthy = true;
  deprecated = false;
  cached_input_cost_per_token = none;
  reasoning_cost_per_token = none;
}

abbrev catalog : List ModelCatalogEntry
catalog = model "large" 5 ∷ model "small" 2 ∷ []

abbrev all_well : ModelHealth
all_well = record { cooldowns = []; degraded = []; ticks = 0 }

abbrev digest : String → String → ℕ → Dict String String → String
digest key version tokens excluded = key

abbrev clock : ℕ → ℕ
clock n = n

small-Serves : Serves a_request 40 (model "small" 2)
unfolding route_cost
small-Serves = record {
  in_service = (refl, refl, refl);
  capable = refl;
  good_enough = omega arith;
  fits = omega arith;
  output_fits = omega arith;
  adapter_allowed = inl refl;
  not_blocked = refl;
  resides = inl refl;
  handles = refl;
  secure = omega arith;
  fast_enough = omega arith;
  affordable = omega arith;
}

exclusion_iff_example :
    (exclusion a_request 40 Health.cooldown (model "small" 2) ≡ none)
    ↔ (Serves a_request 40 (model "small" 2) × (Health.cooldown ≢ Health.cooldown))
exclusion_iff_example = exclusion_iff a_request 40 Health.cooldown (model "small" 2)

abbrev to_small : RouteDecision
to_small = decision digest clock a_request 40 ("large" ∷ "small" ∷ []) [] (model "small" 2)

route-Best_example : Best a_request 40 catalog all_well to_small
unfolding route sort_routes sort screen exclusion get route_cost insert_sorted route_less decision
    sort_texts
route-Best_example = route-Best digest clock a_request 40 catalog all_well to_small refl

route-returns_example :
    (d : RouteDecision) × ((route digest clock a_request 40 catalog all_well).0 ≡ ok d)
unfolding get
route-returns_example =
    route-returns digest clock a_request 40 catalog all_well (model "small" 2) (inr (inl refl))
      small-Serves refl
