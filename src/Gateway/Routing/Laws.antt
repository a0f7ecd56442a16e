-- ===== src/Gateway/Routing/Laws.antt =====
-- About `_eligible_routes` and `_route` of ReferenceAIGateway (gateway.py).
use aieos.Base.{
  ℕ, ◌+◌, ◌≤◌, String, true, false, Option, none, string_eq, string_beq_iff, ◌≡◌, ◌≢◌, ◌⊎◌, ◌↔◌,
  arith, ltb,
}
use aieos.Gateway.Types.{AiInvocationRequest}
use aieos.Gateway.Routing.{
  ModelCatalogEntry, otherwise, reason_if, availability_reason, capability_reason, policy_reason,
  exclusion, route_cost, has, includes, nonempty,
}
use aieos.Gateway.Routing.Health.{HealthState, cooldown}

-- What a request demands of a model, with an input of so many tokens.
pub record Serves (r : AiInvocationRequest) (tokens : ℕ) (e : ModelCatalogEntry) : Type 0 where
  pub in_service : (e.deprecated ≡ false) × (e.healthy ≡ true) × (e.available ≡ true)
  pub capable : includes r.required_capabilities e.capabilities ≡ true
  pub good_enough : r.quality_tier ≤ e.quality_tier
  pub fits : tokens + r.max_output_tokens ≤ e.context_limit
  pub output_fits : r.max_output_tokens ≤ e.max_output
  pub adapter_allowed :
      (nonempty r.allowed_adapters ≡ false) ⊎ (has r.allowed_adapters e.adapter_key ≡ true)
  pub not_blocked : has r.blocked_adapters e.adapter_key ≡ false
  pub resides : (r.residency ≡ "any") ⊎ (has e.residencies r.residency ≡ true)
  pub handles : includes r.required_data_handling e.data_handling ≡ true
  pub secure : r.minimum_security_tier ≤ e.security_tier
  pub fast_enough : e.latency_tier ≤ r.latency_tier
  pub affordable : route_cost r tokens e ≤ r.max_total_cost

otherwise-none : (a b : Option String) → otherwise a b ≡ none → (a ≡ none) × (b ≡ none)
otherwise-none a b h = ground arith

none-otherwise : (a b : Option String) → a ≡ none → b ≡ none → otherwise a b ≡ none
none-otherwise a b h k = ground arith

module _ (r : AiInvocationRequest) (tokens : ℕ) (h : HealthState) (e : ModelCatalogEntry) where
  available_iff :
      (availability_reason h e ≡ none)
      ↔ ((e.deprecated ≡ false) × (e.healthy ≡ true) × (e.available ≡ true) × (h ≢ cooldown))
  unfolding availability_reason
  available_iff = (λ p. ground arith, λ p. ground arith)

  capable_iff : (capability_reason r tokens e ≡ none) ↔ (
      (includes r.required_capabilities e.capabilities ≡ true)
      × (r.quality_tier ≤ e.quality_tier)
      × (tokens + r.max_output_tokens ≤ e.context_limit)
      × (r.max_output_tokens ≤ e.max_output))
  unfolding capability_reason
  capable_iff = (λ p. ground arith, λ p. ground arith)

  allowed_iff : (policy_reason r e ≡ none) ↔ (
      ((nonempty r.allowed_adapters ≡ false) ⊎ (has r.allowed_adapters e.adapter_key ≡ true))
      × (has r.blocked_adapters e.adapter_key ≡ false)
      × ((r.residency ≡ "any") ⊎ (has e.residencies r.residency ≡ true))
      × (includes r.required_data_handling e.data_handling ≡ true)
      × (r.minimum_security_tier ≤ e.security_tier)
      × (e.latency_tier ≤ r.latency_tier))
  unfolding policy_reason
  allowed_iff = (
    λ p. ground (arith, string_beq_iff r.residency "any"),
    λ p. ground (arith, string_beq_iff r.residency "any"),
  )

  affordable_iff :
      (reason_if (ltb r.max_total_cost (route_cost r tokens e)) "budget" ≡ none)
      ↔ (route_cost r tokens e ≤ r.max_total_cost)
  affordable_iff = (λ p. ground arith, λ p. ground arith)

  -- A model is not excluded exactly when it serves the request and is not in a cooldown.
  pub exclusion_iff : (exclusion r tokens h e ≡ none) ↔ (Serves r tokens e × (h ≢ cooldown))
  unfolding exclusion
  exclusion_iff = (forth, back)
    where
      forth : exclusion r tokens h e ≡ none → Serves r tokens e × (h ≢ cooldown)
      forth p =
          let (p1, q1) = otherwise-none (availability_reason h e) _ p in
          let (p2, q2) = otherwise-none (capability_reason r tokens e) _ q1 in
          let (p3, p4) = otherwise-none (policy_reason r e) _ q2 in
          let (d, y, a, c) = available_iff.0 p1 in
          let (i, q, f, o) = capable_iff.0 p2 in
          let (ad, b, re, ha, se, la) = allowed_iff.0 p3 in
          (
            record {
              in_service = (d, y, a);
              capable = i;
              good_enough = q;
              fits = f;
              output_fits = o;
              adapter_allowed = ad;
              not_blocked = b;
              resides = re;
              handles = ha;
              secure = se;
              fast_enough = la;
              affordable = affordable_iff.0 p4;
            },
            c,
          )

      back : Serves r tokens e × (h ≢ cooldown) → exclusion r tokens h e ≡ none
      back (v, c) =
          none-otherwise (availability_reason h e) _
            (available_iff.1 (v.in_service.0, v.in_service.1, v.in_service.2, c))
            (none-otherwise (capability_reason r tokens e) _
              (capable_iff.1 (v.capable, v.good_enough, v.fits, v.output_fits))
              (none-otherwise (policy_reason r e) _
                (allowed_iff.1
                  (v.adapter_allowed, v.not_blocked, v.resides, v.handles, v.secure, v.fast_enough))
                (affordable_iff.1 v.affordable)))
