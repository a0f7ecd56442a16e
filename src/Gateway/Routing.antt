-- ===== src/Gateway/Routing.antt =====
-- The choice of a model: ModelCatalogEntry, the health of models and `_eligible_routes` of
-- gateway.py
pub mod Sort
pub mod Health
pub mod Laws
pub mod Choice
use Prim.Native.Nat.{min}
use aieos.Base.{
  ℕ, zero, suc, ◌+◌, ◌-◌, ◌*◌, String, Bool, true, false, not, ◌&&◌, ◌||◌, Option, some, none, List,
  [], ◌∷◌, ◌++◌, ◌==◌, string_eq, Result, ok, err, Exception, value_error, all, any, ltb, map,
  if◌then◌else◌,
}
use aieos.Base.Dict.{Dict, put}
use aieos.Base.Exec.{Exec}
use aieos.Gateway.Types.{AiInvocationRequest, AiUsage, RouteDecision}
use Health.{ModelHealth, HealthState, cooldown, healthy, health_state}
use Sort.{sort_routes, sort_texts}

pub record ModelCatalogEntry : Type 0 where
  pub model_key : String
  pub adapter_key : String
  pub capabilities : List String
  pub context_limit : ℕ
  pub max_output : ℕ
  pub quality_tier : ℕ
  pub latency_tier : ℕ
  pub input_cost_per_token : ℕ
  pub output_cost_per_token : ℕ
  pub pricing_version : String
  pub residencies : List String
  pub data_handling : List String
  pub security_tier : ℕ
  pub available : Bool
  pub healthy : Bool
  pub deprecated : Bool
  pub cached_input_cost_per_token : Option ℕ
  pub reasoning_cost_per_token : Option ℕ

-- `rate or default`: a missing rate and a rate of zero give the default
abbrev pub or_rate : Option ℕ → ℕ → ℕ
or_rate none d = d
or_rate (some zero) d = d
or_rate (some (suc n)) d = suc n

unfoldable pub estimate_cost : ModelCatalogEntry → ℕ → ℕ → ℕ → ℕ → ℕ
estimate_cost e input_tokens output_tokens cached_tokens reasoning_tokens =
    let cached = min input_tokens cached_tokens in
    (input_tokens - cached) * e.input_cost_per_token
    + cached * or_rate e.cached_input_cost_per_token e.input_cost_per_token
    + output_tokens * e.output_cost_per_token
    + reasoning_tokens * or_rate e.reasoning_cost_per_token e.output_cost_per_token

abbrev pub has : List String → String → Bool
has xs x = any (λ y. y == x) xs

-- xs <= ys, of sets
abbrev pub includes : List String → List String → Bool
includes xs ys = all (has ys) xs

abbrev nonempty : List String → Bool
nonempty [] = false
nonempty (x ∷ xs) = true

abbrev cools : HealthState → Bool
cools cooldown = true
cools _ = false

abbrev otherwise : Option String → Option String → Option String
otherwise none r = r
otherwise (some x) r = some x

-- `reason = name` if the test holds
abbrev reason_if : Bool → String → Option String
reason_if true name = some name
reason_if false name = none

-- the cost of the longest answer
unfoldable pub route_cost : AiInvocationRequest → ℕ → ModelCatalogEntry → ℕ
unfolding estimate_cost
route_cost r tokens e = estimate_cost e tokens r.max_output_tokens 0 0

-- the chain of `if` and `elif`, by groups: what the catalog says of the model
availability_reason : HealthState → ModelCatalogEntry → Option String
availability_reason h e =
    otherwise (reason_if (e.deprecated || not e.healthy) "unavailable")
      (otherwise (reason_if (not e.available) "availability") (reason_if (cools h) "cooldown"))

-- what it can do
capability_reason : AiInvocationRequest → ℕ → ModelCatalogEntry → Option String
capability_reason r tokens e =
    otherwise (reason_if (not (includes r.required_capabilities e.capabilities)) "capability") (
      otherwise (reason_if (ltb e.quality_tier r.quality_tier) "quality") (
        otherwise (reason_if (ltb e.context_limit (tokens + r.max_output_tokens)) "context")
          (reason_if (ltb e.max_output r.max_output_tokens) "output")))

-- what the request allows
policy_reason : AiInvocationRequest → ModelCatalogEntry → Option String
policy_reason r e =
    otherwise
      (reason_if (nonempty r.allowed_adapters && not (has r.allowed_adapters e.adapter_key))
        "adapter_policy")
      (otherwise (reason_if (has r.blocked_adapters e.adapter_key) "security_policy") (
        otherwise
          (reason_if (not (r.residency == "any") && not (has e.residencies r.residency))
            "residency")
          (otherwise
            (reason_if (not (includes r.required_data_handling e.data_handling)) "data_handling")
            (otherwise (reason_if (ltb e.security_tier r.minimum_security_tier) "security")
              (reason_if (ltb r.latency_tier e.latency_tier) "latency")))))

-- the reason for which a model is excluded, with the test of its cost
unfoldable pub exclusion : AiInvocationRequest → ℕ → HealthState → ModelCatalogEntry → Option String
unfolding availability_reason capability_reason policy_reason
exclusion r tokens h e = otherwise (availability_reason h e) (
    otherwise (capability_reason r tokens e) (
      otherwise (policy_reason r e)
        (reason_if (ltb r.max_total_cost (route_cost r tokens e)) "budget")))

-- the loop over the catalog: what is eligible, what is excluded and why
pub record Screening : Type 0 where
  pub eligible : List ModelCatalogEntry
  pub excluded : Dict String String

unfoldable pub add_screened : ModelCatalogEntry → Option String → Screening → Screening
add_screened e none s = record s { eligible = s.eligible ++ e ∷ [] }
add_screened e (some reason) s = record s { excluded = put e.model_key reason s.excluded }

module _ (clock : ℕ → ℕ) where
  unfoldable pub screen :
      AiInvocationRequest
      → ℕ
      → List ModelCatalogEntry
      → ModelHealth
      → Screening
      → Screening × ModelHealth
  unfolding add_screened health_state
  screen r tokens [] h s = (s, h)
  screen r tokens (e ∷ es) h s =
      let (state, h1) = health_state clock e.model_key h in
      screen r tokens es h1 (add_screened e (exclusion r tokens state e) s)

-- latency tier of `self._model(key)`, the first entry with the key
unfoldable pub model_latency : List ModelCatalogEntry → String → ℕ
model_latency [] key = 0
model_latency (e ∷ es) key = if e.model_key == key then e.latency_tier else model_latency es key

abbrev first_route : List RouteDecision → Result RouteDecision
first_route [] = err (value_error "no eligible model")
first_route (d ∷ ds) = ok d

-- the digest of a decision: SHA-256 of model key, pricing version, tokens and the exclusions
module _ (route_digest : String → String → ℕ → Dict String String → String) (clock : ℕ → ℕ) where
  unfoldable pub decision :
      AiInvocationRequest → ℕ → List String → Dict String String → ModelCatalogEntry → RouteDecision
  decision r tokens considered excluded e = record {
    decision_reference = route_digest e.model_key e.pricing_version tokens excluded;
    model_key = e.model_key;
    adapter_key = e.adapter_key;
    considered = considered;
    excluded = excluded;
    estimated_cost = route_cost r tokens e;
    reason = "cheapest capable model satisfying all hard constraints";
  }

  unfoldable pub eligible_routes :
      AiInvocationRequest
      → ℕ
      → List ModelCatalogEntry
      → ModelHealth
      → List RouteDecision × ModelHealth
  eligible_routes r tokens catalog h =
      let (s, h') = screen clock r tokens catalog h (record { eligible = []; excluded = [] }) in
      let considered = sort_texts (map (λ e. e.model_key) catalog) in
      (
        sort_routes (model_latency catalog)
            (map (decision r tokens considered s.excluded) s.eligible),
        h',
      )

  unfoldable pub route :
      AiInvocationRequest → ℕ → List ModelCatalogEntry → Exec ModelHealth RouteDecision
  unfolding eligible_routes
  route r tokens catalog h =
      let (ds, h') = eligible_routes r tokens catalog h in (first_route ds, h')
