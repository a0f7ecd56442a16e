-- ===== src/Workflow/Instance.antt =====
-- engine.py: the states and records of a workflow
use aieos.Base.{ℕ, String, Option, List, ℤ, Fields, Result, ok, err, value_error, if◌then◌else◌}
use aieos.Base.Dict.{Dict}
use aieos.Contracts.Common.{AuthorizationContext}
use aieos.Contracts.Events.{EventEnvelope}
use aieos.Contracts.Commands.{CommandEnvelope, is_positive}
use aieos.Contracts.Results.{ResultEnvelope, ErrorEnvelope}
use aieos.Domain.{Supply}
use aieos.Domain.Evidence.{DecisionEvidence}
use aieos.Workflow.Governance.{WorkflowAiBudgetEnvelope}

pub data WorkflowState : Type 0 where
  created running completed failed cancelled : WorkflowState

pub data CommandProcessingState : Type 0 where
  in_progress processed : CommandProcessingState

pub record WorkflowDefinition : Type 0 where
  pub workflow_definition_id : String
  pub workflow_definition_version_id : String
  pub skill_version_id : String
  pub max_attempts : ℤ
  pub workflow_kind : String
  pub ai_budget_envelope : Option Fields

-- WorkflowDefinition.__post_init__
unfoldable pub checked_definition : WorkflowDefinition → Result WorkflowDefinition
unfolding is_positive
checked_definition d =
    if is_positive d.max_attempts then ok d else err (value_error "max_attempts must be positive")

-- `timeout_seconds` is a float's bits. A dictionary that is None at first is empty from the start.
pub record WorkflowInstance : Type 0 where
  pub workflow_id : String
  pub workflow_step_id : String
  pub definition : WorkflowDefinition
  pub tenant_id : String
  pub workspace_id : String
  pub request_id : String
  pub correlation_id : String
  pub authorization : AuthorizationContext
  pub input_payload : Fields
  pub timeout_seconds : ℕ
  pub state : WorkflowState
  pub attempt_number : ℕ
  pub execution_ids : List String
  pub processed_event_ids : List String
  pub workflow_events : Dict String EventEnvelope
  pub initial_attempt_command : Option CommandEnvelope
  pub retry_commands : Dict String CommandEnvelope
  pub outcome : Option ResultEnvelope
  pub error : Option ErrorEnvelope
  pub ai_budget_envelope : Option WorkflowAiBudgetEnvelope
  pub ai_admissions : Dict String Fields
  pub ai_admission_states : Dict String Fields
  pub transition_version : ℕ

pub record WorkflowCommandReceipt : Type 0 where
  pub command : CommandEnvelope
  pub result : ResultEnvelope
  pub workflow_id : String
  pub error : Option ErrorEnvelope
  pub state : CommandProcessingState

-- the repository, with what its owner draws of identifiers and instants, and the engine's decisions
pub record Engine : Type 0 where
  pub instances : Dict String WorkflowInstance
  pub command_receipts : Dict String WorkflowCommandReceipt
  pub dispatch_context : Option CommandEnvelope
  pub supply : Supply
  pub decisions : Dict String DecisionEvidence
