-- ===== src/Workflow/Start.antt =====
-- engine.py: `_start` and `_resume_start` of WorkflowEngine
pub mod Ended
pub mod Receipt
use aieos.Base.{
  ℕ, String, Bool, true, false, not, ◌&&◌, Option, some, none, List, [], ◌∷◌, ◌==◌, string_eq, any,
  length, leb, Result, ok, err, if◌then◌else◌, Value, Fields, null, str, pos, codes, is_result_id,
  ◌>>=◌ as ◌bind◌,
}
use aieos.Base.Exec.{Exec, pure, lift, ◌>>=◌, ◌>>◌}
use aieos.Contracts.Commands.{CommandEnvelope}
use aieos.Contracts.Results.{ResultEnvelope, warning, never_retry}
use aieos.Domain.{Services, Supply, new}
use aieos.Outcomes.{Fault, Lineage, accept}
use aieos.Security.{ScopeAuthorizer, require}
use aieos.Workflow.Governance.{WorkflowAiBudgetEnvelope, lookup, parse}
use aieos.Workflow.Instance.{
  running, WorkflowDefinition, checked_definition, WorkflowInstance, WorkflowCommandReceipt, Engine,
}
use aieos.Workflow.Repository.{add, begin_command}
use aieos.Workflow.Cancel.{draw, is_refused}
use aieos.Workflow.Payload.{
  Library, strip, payload_string, payload_optional_string, payload_int, payload_float,
}
use aieos.Workflow.Command.{is_approved}
use aieos.Workflow.Ending.{admission_category}
use aieos.Workflow.Accounting.{as_mapping}

-- 1.0, by its bits
abbrev pub one_second : ℕ
one_second = 4607182418800017408

malformed_authority : Option Value → Bool
malformed_authority none = false
malformed_authority (some null) = false
malformed_authority (some (str s)) = not (is_result_id s)
malformed_authority (some _) = true

unfoldable pub definition_of : Fields → Result WorkflowDefinition
definition_of payload =
    payload_string payload "workflow_definition_id" bind λ workflow_definition_id.
    payload_string payload "workflow_definition_version_id" bind λ workflow_definition_version_id.
    payload_string payload "skill_version_id" bind λ skill_version_id.
    payload_int payload "max_attempts" (pos 2) bind λ max_attempts.
    payload_optional_string payload "workflow_kind" bind λ workflow_kind.
    checked_definition (record {
      workflow_definition_id = workflow_definition_id;
      workflow_definition_version_id = workflow_definition_version_id;
      skill_version_id = skill_version_id;
      max_attempts = max_attempts;
      workflow_kind = workflow_kind;
      ai_budget_envelope = as_mapping (lookup "workflow_ai_budget_envelope" payload);
    })

abbrev approved_members : List String
approved_members =
    "ClassifyAndRouteTask" ∷ "classify-and-route-task-v1" ∷ "structured-task-kind-skill-v1" ∷ []

-- one of the four identities is one of the approved ones
unfoldable pub is_candidate : WorkflowDefinition → Bool
is_candidate d =
    any (λ s. any (λ m. m == s) approved_members)
      (d.workflow_definition_id ∷ d.workflow_definition_version_id ∷ d.workflow_kind
        ∷ d.skill_version_id ∷ [])

is_statement : Option Value → Bool
is_statement (some (str s)) = let n = length (codes (strip s)) in leb 1 n && leb n 512
is_statement _ = false

-- code and message of a rejection
abbrev pub Refusal : Type 0
Refusal = String × String

-- the envelope is bound to the definition, the scope and the policy
bound_to : CommandEnvelope → WorkflowDefinition → WorkflowAiBudgetEnvelope → Bool
bound_to c d b =
    b.definition_version_id == d.workflow_definition_version_id
    && b.tenant_id == c.tenant_id
    && b.workspace_id == c.workspace_id
    && b.policy_id == c.metadata.authorization.policy_id
    && b.policy_version_id == c.metadata.authorization.policy_version_id

-- what a command to start is answered with before anything exists, or what it may start with
pub data Admitted : Type 0 where
  refused : String → String → Admitted
  start_with : WorkflowDefinition → Option WorkflowAiBudgetEnvelope → Admitted

envelope_admitted :
    CommandEnvelope → WorkflowDefinition → Result WorkflowAiBudgetEnvelope → Admitted
unfolding bound_to
envelope_admitted c d (err x) =
    refused "WORKFLOW_AI_BUDGET_ENVELOPE_INVALID" "unsupported AI budget envelope"
envelope_admitted c d (ok b) =
    if bound_to c d b
    then start_with d (some b)
    else refused "WORKFLOW_AI_BUDGET_ENVELOPE_SCOPE_MISMATCH" "AI budget envelope binding mismatch"

governed_admitted : CommandEnvelope → WorkflowDefinition → Option Fields → Admitted
unfolding envelope_admitted
governed_admitted c d none =
    refused "WORKFLOW_AI_BUDGET_ENVELOPE_REQUIRED" "AI-capable workflow requires an envelope"
governed_admitted c d (some fs) = envelope_admitted c d (parse fs)

definition_admitted : CommandEnvelope → Result WorkflowDefinition → Admitted
unfolding governed_admitted is_statement
definition_admitted c (err x) =
    refused "WORKFLOW_DEFINITION_INVALID" "Workflow definition identity is incomplete or invalid"
definition_admitted c (ok d) =
    if is_candidate d && not (is_approved d)
    then refused "WORKFLOW_REFERENCE_IDENTITY_INVALID"
        "structured-AI execution requires the exact approved reference Workflow identity"
    else if not (is_approved d)
    then start_with d none
    else if not (is_statement (lookup "statement" c.payload))
    then refused "CLASSIFY_AND_ROUTE_INPUT_INVALID" "statement must contain 1..512 characters"
    else governed_admitted c d d.ai_budget_envelope

unfoldable pub admitted : ScopeAuthorizer → CommandEnvelope → Admitted
unfolding definition_admitted malformed_authority
admitted a c =
    if is_refused (require a c.metadata.authorization "workflow.start" c.tenant_id c.workspace_id)
    then refused "WORKFLOW_START_UNAUTHORIZED" "Workflow start denied"
    else if malformed_authority (lookup "authoritative_result_id" c.payload)
    then refused "AUTHORITATIVE_RESULT_ID_INVALID"
        "AuthoritativeResultId must be a well-formed opaque ResultId"
    else definition_admitted c (definition_of c.payload)

abbrev pub not_admitted : String → Fault
not_admitted code = record {
  error_code = code;
  category = admission_category code;
  severity = warning;
  retry = never_retry;
  message =
      if code == "WORKFLOW_AI_AUTHORIZATION_REVOKED"
      then "Workflow AI authorization is unavailable before admission."
      else "Workflow AI budget is exhausted before Gateway dispatch.";
}

abbrev pub command_lineage : String → String → String → String → String → Lineage
command_lineage subject tenant_id workspace_id correlation_id command_id = record {
  subject = subject;
  producer = "Workflow Engine";
  tenant_id = tenant_id;
  workspace_id = workspace_id;
  correlation_id = correlation_id;
  causation_id = command_id;
}

module _ (lib : Library) (sv : Services) where
  -- the new instance, under new identifiers
  unfoldable pub new_instance :
      CommandEnvelope
      → WorkflowDefinition
      → Option WorkflowAiBudgetEnvelope
      → Exec Engine WorkflowInstance
  new_instance c d b = do
    workflow_id ← draw (new sv "workflow")
    step_id ← draw (new sv "step")
    timeout ← lift (payload_float lib c.payload "timeout_seconds" one_second)
    pure (record {
      workflow_id = workflow_id;
      workflow_step_id = step_id;
      definition = d;
      tenant_id = c.tenant_id;
      workspace_id = c.workspace_id;
      request_id = c.metadata.request_id;
      correlation_id = c.correlation_id;
      authorization = c.metadata.authorization;
      input_payload = c.payload;
      timeout_seconds = timeout;
      state = running;
      attempt_number = 0;
      execution_ids = [];
      processed_event_ids = [];
      workflow_events = [];
      initial_attempt_command = none;
      retry_commands = [];
      outcome = none;
      error = none;
      ai_budget_envelope = b;
      ai_admissions = [];
      ai_admission_states = [];
      transition_version = 0;
    })

  abbrev pub acknowledge : CommandEnvelope → WorkflowInstance → Exec Supply ResultEnvelope
  acknowledge c i =
      accept sv
        (command_lineage i.workflow_id c.tenant_id c.workspace_id c.correlation_id c.command_id)
        c.command_id (some i.workflow_id)

  abbrev pub begun :
      CommandEnvelope → WorkflowInstance → ResultEnvelope → Exec Engine WorkflowCommandReceipt
  begun c i acknowledgement = begin_command c acknowledgement i.workflow_id none

  abbrev pub start_receipt : CommandEnvelope → WorkflowInstance → Exec Engine WorkflowCommandReceipt
  start_receipt c i = do add i; draw (acknowledge c i) >>= begun c i

  -- the instance is added and the command's receipt is begun
  unfoldable pub begin_start :
      CommandEnvelope
      → WorkflowDefinition
      → Option WorkflowAiBudgetEnvelope
      → Exec Engine WorkflowCommandReceipt
  begin_start c d b = new_instance c d b >>= start_receipt c
