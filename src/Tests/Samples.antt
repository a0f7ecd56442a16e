-- ===== src/Tests/Samples.antt =====
-- One of everything, for the tests.
use aieos.Base.{String, true, false, some, none, [], ◌∷◌, empty_mapping, pos, Timestamp}
use aieos.Contracts.Common.{AuthorizationContext}
use aieos.Contracts.Events.{EventEnvelope}
use aieos.Contracts.Commands.{CommandEnvelope}
use aieos.Contracts.Results.{ResultEnvelope, accepted, acknowledgement}
use aieos.Domain.{Services, Supply}
use aieos.Gateway.Types.{AiInvocationRequest, AiUsage, text, internal}

abbrev pub noon : Timestamp
noon = record { instant = 12; aware = true }

abbrev pub alice : AuthorizationContext
alice = record {
  actor_id = "alice";
  permissions = "ai.invoke" ∷ "memory.read" ∷ "memory.write" ∷ [];
  tenant_id = "tenant_a";
  workspace_id = "workspace_1";
  policy_id = "policy";
  policy_version_id = "policy-v1";
}

abbrev pub an_event : String → EventEnvelope
an_event id = record {
  event_id = id;
  event_type = "ExecutionAttemptSucceeded";
  event_version = "1.0";
  occurred_at = noon;
  recorded_at = noon;
  producer = "Skill Runtime";
  correlation_id = "correlation_1";
  subject = "execution_1";
  payload = empty_mapping;
  metadata = record {
    contract_version = "1.0";
    trace_id = none;
    span_id = none;
    attributes = empty_mapping;
  };
  causation_id = none;
  tenant_id = some "tenant_a";
  workspace_id = some "workspace_1";
  request_id = none;
  workflow_id = none;
  workflow_step_id = none;
  execution_id = none;
  ai_invocation_id = none;
}

abbrev pub a_command : CommandEnvelope
a_command = record {
  command_id = "command_1";
  command_type = "StartWorkflow";
  command_version = "1.0";
  correlation_id = "correlation_1";
  causation_id = "request_1";
  target_component = "Workflow Engine";
  initiator = "Manager";
  timestamp = noon;
  tenant_id = "tenant_a";
  workspace_id = "workspace_1";
  payload = empty_mapping;
  metadata = record {
    request_id = "request_1";
    idempotency_key = "key_1";
    authorization = alice;
    attempt_number = some (pos 1);
    expires_at = none;
    trace_id = none;
    span_id = none;
    skill_version_id = none;
    authoritative_result_id = none;
    workflow_ai_budget_admission = none;
  };
  workflow_id = none;
  workflow_step_id = none;
  execution_id = none;
}

abbrev pub an_acknowledgement : ResultEnvelope
an_acknowledgement = record {
  result_id = "result_1";
  result_status = accepted;
  outcome_category = acknowledgement;
  subject_reference = "execution_1";
  tenant_id = "tenant_a";
  workspace_id = "workspace_1";
  correlation_id = "correlation_1";
  causation_id = "command_1";
  producer_component = "AI Gateway";
  contract_version = "1.0";
  command_id = none;
  event_id = none;
  started_at = none;
  completed_at = none;
  value_reference = none;
  error_id = none;
  warnings = [];
  metadata = empty_mapping;
  predecessor_result_id = none;
  parent_result_id = none;
  child_result_references = [];
  disposition_counts = [];
}

abbrev pub some_usage : AiUsage
some_usage = record {
  input_tokens = 10;
  output_tokens = 5;
  cached_tokens = 0;
  reasoning_tokens = 0;
  estimated = false;
}

abbrev pub a_request : AiInvocationRequest
a_request = record {
  execution_id = "execution_1";
  capability_contract_version_id = "capability-v1";
  prompt = "classify this";
  tenant_id = "tenant_a";
  workspace_id = "workspace_1";
  correlation_id = "correlation_1";
  causation_id = "command_1";
  authorization = alice;
  command_id = "command_1";
  idempotency_key = "key_1";
  capability_id = "classify";
  prompt_template_ref = "template";
  prompt_template_version_ref = "template-v1";
  system_instruction_ref = "instruction";
  response_mode = text;
  output_schema_ref = none;
  output_schema = none;
  output_schema_identity = none;
  required_capabilities = "text" ∷ [];
  quality_tier = 1;
  latency_tier = 3;
  max_input_tokens = 100;
  max_output_tokens = 20;
  max_total_cost = 1000;
  deadline = none;
  context_items = [];
  locale = "en";
  data_classification = internal;
  safety_policy_ref = "safety";
  cache_policy_ref = "cache";
  budget_policy_ref = "budget";
  allowed_adapters = [];
  blocked_adapters = [];
  residency = "any";
  required_data_handling = [];
  minimum_security_tier = 1;
  allow_fallback = true;
  max_provider_attempts = 2;
  repair_attempts = 0;
  cache_allowed = true;
  deterministic_parameters = [];
  workflow_ai_budget_admission = none;
  workflow_id = none;
  workflow_step_id = none;
  workflow_definition_version_id = none;
  skill_version_id = none;
}

abbrev pub services : Services
services = record { hex = λ n. "0f"; clock = λ n. n }

abbrev pub supply : Supply
supply = record { drawn = 0; ticks = 0 }
