-- ===== src/Gateway/Types.antt =====
-- The dataclasses of gateway.py. A Decimal is a number of some fixed small unit: prices and limits
-- are not negative there. Instants and time spans are numbers of a fixed unit, too.
use native.Mathlib.Decide.{ℕ_discrete}
use aieos.Base.{ℕ, String, Bool, Option, List, String-discrete, ℤ, Fields, Eq, eq_of_discrete}
use aieos.Base.Dict.{Dict}
use aieos.Contracts.Common.{AuthorizationContext}
use aieos.Contracts.Results.{
  ResultEnvelope, ErrorEnvelope, ResultEnvelope-discrete, ErrorEnvelope-discrete,
}

pub data ResponseMode : Type 0 where
  text structured stream : ResponseMode

pub data InvocationState : Type 0 where
  requested policy_validated provider_selected prepared invoked streaming retrying succeeded
        failed :
      InvocationState
  timed_out cancelled : InvocationState

-- contracts/observability.py
pub data DataClassification : Type 0 where
  non_sensitive internal restricted : DataClassification

pub record ContextItem : Type 0 where
  pub reference : String
  pub version : String
  pub content : String
  pub relevance : ℤ
  pub necessity_reason : String
  pub trusted : Bool
  pub mandatory : Bool

pub record AiInvocationRequest : Type 0 where
  pub execution_id : String
  pub capability_contract_version_id : String
  pub prompt : String
  pub tenant_id : String
  pub workspace_id : String
  pub correlation_id : String
  pub causation_id : String
  pub authorization : AuthorizationContext
  pub command_id : String
  pub idempotency_key : String
  pub capability_id : String
  pub prompt_template_ref : String
  pub prompt_template_version_ref : String
  pub system_instruction_ref : String
  pub response_mode : ResponseMode
  pub output_schema_ref : Option String
  pub output_schema : Option Fields
  pub output_schema_identity : Option String
  pub required_capabilities : List String
  pub quality_tier : ℕ
  pub latency_tier : ℕ
  pub max_input_tokens : ℕ
  pub max_output_tokens : ℕ
  pub max_total_cost : ℕ
  pub deadline : Option ℕ
  pub context_items : List ContextItem
  pub locale : String
  pub data_classification : DataClassification
  pub safety_policy_ref : String
  pub cache_policy_ref : String
  pub budget_policy_ref : String
  pub allowed_adapters : List String
  pub blocked_adapters : List String
  pub residency : String
  pub required_data_handling : List String
  pub minimum_security_tier : ℕ
  pub allow_fallback : Bool
  pub max_provider_attempts : ℕ
  pub repair_attempts : ℕ
  pub cache_allowed : Bool
  pub deterministic_parameters : List (String × String)
  pub workflow_ai_budget_admission : Option Fields
  pub workflow_id : Option String
  pub workflow_step_id : Option String
  pub workflow_definition_version_id : Option String
  pub skill_version_id : Option String

pub record AiUsage : Type 0 where
  pub input_tokens : ℕ
  pub output_tokens : ℕ
  pub cached_tokens : ℕ
  pub reasoning_tokens : ℕ
  pub estimated : Bool

pub record RouteDecision : Type 0 where
  pub decision_reference : String
  pub model_key : String
  pub adapter_key : String
  pub considered : List String
  pub excluded : Dict String String
  pub estimated_cost : ℕ
  pub reason : String

pub record AiInvocationResponse : Type 0 where
  pub ai_invocation_id : String
  pub result : ResultEnvelope
  pub content : Option String
  pub error : Option ErrorEnvelope
  pub usage : Option AiUsage
  pub route : Option RouteDecision
  pub cache_hit : Bool

pub record Acceptance : Type 0 where
  pub ai_invocation_id : String
  pub acknowledgement : ResultEnvelope
  pub replay : Bool

pub record ProviderResult : Type 0 where
  pub content : String
  pub usage : Option AiUsage
  pub confidence : ℕ

pub record GatewayInvocation : Type 0 where
  pub request : AiInvocationRequest
  pub invocation_id : String
  pub acknowledgement : ResultEnvelope
  pub state : InvocationState
  pub accepted_at : ℕ
  pub route : Option RouteDecision
  pub terminal : Option AiInvocationResponse
  pub execution_owner : Option String
  pub execution_lease_expires_at : Option ℕ
  pub claim_generation : ℕ
  pub recovery_phase : String
  pub terminal_intent : Option AiInvocationResponse
  pub stream_started : Bool
  pub stream_sequence : ℕ
  pub stream_content : List String
  pub stream_usage : Option AiUsage
  pub provider_sequence : List RouteDecision
  pub next_provider_attempt : ℕ
  pub cumulative_usage : AiUsage
  pub cumulative_cost : ℕ
  pub last_provider_failure_code : Option String
  pub last_provider_failure_retryable : Bool
  pub stream_terminal_emitted : Bool

-- the `state` of a reservation: the texts that the code writes, or another
pub data ReservationState : Type 0 where
  pending committed usage_pending released : ReservationState
  other : String → ReservationState

pub record GatewayReservation : Type 0 where
  pub invocation_id : String
  pub tenant_id : String
  pub workspace_id : String
  pub amount : ℕ
  pub state : ReservationState
  pub expires_at : ℕ
  pub actual : Option ℕ

pub record CachedContent : Type 0 where
  pub content : String
  pub usage : AiUsage
  pub expires_at : ℕ
  pub provenance : String
  pub route : Option RouteDecision

pub AiUsage-discrete : Discrete AiUsage
AiUsage-discrete = hlevel ℕ_discrete

pub RouteDecision-discrete : Discrete RouteDecision
RouteDecision-discrete = hlevel (ℕ_discrete, String-discrete)

AiInvocationResponse-discrete : Discrete AiInvocationResponse
AiInvocationResponse-discrete = hlevel (
  String-discrete, ResultEnvelope-discrete, ErrorEnvelope-discrete, AiUsage-discrete,
  RouteDecision-discrete,
)

pub OptionalResponse-discrete : Discrete (Option AiInvocationResponse)
OptionalResponse-discrete = hlevel AiInvocationResponse-discrete

instance abbrev pub optional_response_eq : Eq (Option AiInvocationResponse)
optional_response_eq = eq_of_discrete OptionalResponse-discrete
