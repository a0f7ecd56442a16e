-- ===== src/Workflow/Attempt.antt =====
-- engine.py: `_create_attempt_command`
pub mod Ended
pub mod Receipt
pub mod Ceiling
use Prim.Native.String.{◌++◌ as ◌<>◌}
use aieos.Base.{
  ℕ, ◌+◌, String, Bool, true, false, not, ◌&&◌, ◌||◌, Option, some, none, List, [], ◌∷◌, ◌++◌, ◌==◌,
  string_eq, ltb, Exception, Result, ok, err, value_error, key_error, assertion_error,
  attribute_error, ◌>>=◌ as ◌bind◌, if◌then◌else◌, Value, Fields, null, int, float, str, mapping,
  array, end, field, pos, bool, Timestamp,
}
use aieos.Base.Dict.{Dict, get, put, values}
use aieos.Base.Exec.{Exec, pure, raise, lift, modify, ◌>>=◌, ◌>>◌}
use aieos.Contracts.Commands.{CommandEnvelope, CommandMetadata, checked_command, checked_metadata}
use aieos.Domain.{Services, new, now}
use aieos.Security.{ScopeAuthorizer, require}
use aieos.Workflow.Governance.{WorkflowAiBudgetEnvelope, lookup, scale6}
use aieos.Workflow.Governance.Admission.{Handoff, admission_binding}
use aieos.Workflow.Instance.{WorkflowDefinition, WorkflowInstance, Engine}
use aieos.Workflow.Repository.{put_instance}
use aieos.Workflow.Cancel.{draw, is_refused}
use aieos.Workflow.Payload.{Library, as_text, put_field, or_null, is_none, number_text, strip}
use aieos.Workflow.Command.{is_approved, attempt_command}

-- the step calls a model, since no authoritative result was given
abbrev pub calls_model : WorkflowInstance → Bool
calls_model i =
    is_approved i.definition && is_none (lookup "authoritative_result_id" i.input_payload)

abbrev invalid_state : {A : Type 0} → Result A
invalid_state = err (value_error "WORKFLOW_AI_ADMISSION_STATE_INVALID")

amount_of : Option Value → Result ℕ
amount_of (some (str amount)) = scale6 amount
amount_of _ = invalid_state

-- the exposure that an admission commits
unfoldable pub exposure : Option Value → Result ℕ
unfolding amount_of
exposure (some (mapping fs)) = amount_of (lookup "Amount" fs)
exposure _ = invalid_state

-- the sum over the admissions
unfoldable pub used_exposure : List Fields → Result ℕ
used_exposure [] = ok 0
used_exposure (b ∷ bs) =
    exposure (lookup "CommittedExposure" b) bind λ n. used_exposure bs bind λ m. ok (n + m)

-- USD 0.01
abbrev pub attempt_exposure : ℕ
attempt_exposure = 10_000

revoked : {A : Type 0} → Result A
revoked = err (value_error "WORKFLOW_AI_AUTHORIZATION_REVOKED")

module _ (a : ScopeAuthorizer) where
  -- the envelope, once the authorization and the policy are those it was made for
  authorized_envelope :
      WorkflowInstance → Option WorkflowAiBudgetEnvelope → Result WorkflowAiBudgetEnvelope
  unfolding revoked
  authorized_envelope i none =
      if is_refused (require a i.authorization "ai.invoke" i.tenant_id i.workspace_id)
      then revoked
      else err assertion_error
  authorized_envelope i (some e) =
      if is_refused (require a i.authorization "ai.invoke" i.tenant_id i.workspace_id)
      then revoked
      else if not (i.authorization.policy_id == e.policy_id)
          || not (i.authorization.policy_version_id == e.policy_version_id)
      then revoked
      else ok e

  -- the checks before anything changes
  unfoldable pub budgeted_envelope : WorkflowInstance → Result WorkflowAiBudgetEnvelope
  unfolding authorized_envelope
  budgeted_envelope i = authorized_envelope i i.ai_budget_envelope bind λ e.
      used_exposure (values i.ai_admissions) bind λ used.
      if ltb e.ceiling_microusd (used + attempt_exposure)
      then err (value_error "WORKFLOW_AI_BUDGET_EXHAUSTED")
      else ok e

-- the record of the admission, as it stands before the binding
requested_state : WorkflowInstance → String → String → Fields
requested_state i command_id execution_id = field "State" (str "PendingAdmission") (
    field "LogicalAdmissionKey"
      (str (
        i.tenant_id
        <> (":"
            <> (i.workspace_id
                <> (":"
                    <> (i.workflow_id
                        <> (":"
                            <> (i.workflow_step_id
                                <> (":" <> (command_id <> (":" <> execution_id)))))))))))
      (field "WorkflowAdmissionStateVersion" (int (pos i.transition_version)) (
        field "CommittedExposure" null (
          field "GatewayEvidence" null (
            field "SettledActual" null
              (field "Disposition" (str "authority_scope_and_accounting_validated") end))))))

-- the record, once the exposure is committed
committed_state : Fields → Fields → Fields
committed_state binding state = put_field "Disposition" (str "committed_before_gateway_handoff") (
    put_field "Binding" (mapping binding) (
      put_field "GatewayIdempotencyKey" (or_null (lookup "GatewayIdempotencyKey" binding)) (
        put_field "CommittedExposure" (or_null (lookup "CommittedExposure" binding))
          (put_field "State" (str "Committed") state))))

abbrev pub handoff_of : WorkflowInstance → String → String → Handoff
handoff_of i command_id execution_id = record {
  workflow_id = i.workflow_id;
  workflow_step_id = i.workflow_step_id;
  command_id = command_id;
  execution_id = execution_id;
  skill_version_id = i.definition.skill_version_id;
  capability_id = "StructuredTaskKindClassification";
  capability_contract_version_id = "1";
}

-- the instance with an admission that waits for its binding
unfoldable pub requested : WorkflowInstance → String → String → WorkflowInstance
unfolding requested_state
requested i command_id execution_id =
    let j : WorkflowInstance = record i { transition_version = i.transition_version + 1 } in
    record j {
      ai_admission_states =
          put command_id (requested_state j command_id execution_id) i.ai_admission_states;
    }

unfoldable pub committed : WorkflowInstance → String → String → Fields → WorkflowInstance
unfolding committed_state requested_state
committed i command_id execution_id binding = record i {
  ai_admissions = put command_id binding i.ai_admissions;
  ai_admission_states =
      put command_id (committed_state binding (requested_state i command_id execution_id))
        i.ai_admission_states;
}

abbrev binding_for : WorkflowAiBudgetEnvelope → WorkflowInstance → String → String → Result Fields
binding_for e i command_id execution_id =
    admission_binding e (handoff_of i command_id execution_id) i.transition_version attempt_exposure

-- the exposure is committed
abbrev commit :
    WorkflowInstance → String → String → Fields → Exec Engine (WorkflowInstance × Fields)
commit i command_id execution_id binding = do
  modify (put_instance (committed i command_id execution_id binding))
  pure (committed i command_id execution_id binding, binding)

-- the admission of a step that calls a model
admit_step :
    WorkflowAiBudgetEnvelope
    → WorkflowInstance
    → String
    → String
    → Exec Engine (WorkflowInstance × Fields)
unfolding requested committed
admit_step e i command_id execution_id = do
  modify (put_instance (requested i command_id execution_id))
  lift (binding_for e (requested i command_id execution_id) command_id execution_id)
      >>= commit (requested i command_id execution_id) command_id execution_id

module _ (lib : Library) (sv : Services) where
  -- the identities of the new attempt
  unfoldable pub begin_attempt :
      WorkflowInstance → Exec Engine (WorkflowInstance × (String × String))
  begin_attempt i = do
    let j = record i { attempt_number = i.attempt_number + 1 }
    modify (put_instance j)
    execution_id ← draw (new sv "execution")
    let k = record j { execution_ids = j.execution_ids ++ execution_id ∷ [] }
    modify (put_instance k)
    command_id ← draw (new sv "command")
    pure (k, (command_id, execution_id))

  abbrev bound_command :
      String → String → String → WorkflowInstance × Fields → Exec Engine CommandEnvelope
  bound_command causation_id command_id execution_id (k, binding) =
      attempt_command lib sv k causation_id command_id execution_id (some binding)

  -- the admission of the attempt and its command
  abbrev admitted_command :
      String
      → WorkflowAiBudgetEnvelope
      → WorkflowInstance × (String × String)
      → Exec Engine CommandEnvelope
  admitted_command causation_id e (j, (command_id, execution_id)) =
      admit_step e j command_id execution_id >>= bound_command causation_id command_id execution_id

  unfoldable pub create_governed :
      ScopeAuthorizer → WorkflowInstance → String → Exec Engine CommandEnvelope
  unfolding admit_step
  create_governed a i causation_id = do
    e ← lift (budgeted_envelope a i)
    begin_attempt i >>= admitted_command causation_id e

  abbrev plain_command : String → WorkflowInstance × (String × String) → Exec Engine CommandEnvelope
  plain_command causation_id (j, (command_id, execution_id)) =
      attempt_command lib sv j causation_id command_id execution_id none

  unfoldable pub create_plain : WorkflowInstance → String → Exec Engine CommandEnvelope
  create_plain i causation_id = begin_attempt i >>= plain_command causation_id

  unfoldable pub create_attempt_command :
      ScopeAuthorizer → WorkflowInstance → String → Exec Engine CommandEnvelope
  create_attempt_command a i causation_id =
      if calls_model i then create_governed a i causation_id else create_plain i causation_id
