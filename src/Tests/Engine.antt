-- ===== src/Tests/Engine.antt =====
-- The Workflow Engine among the other components.
use aieos.Base.{
  false, some, [], ◌∷◌, ◌==◌, string_eq, ok, err, Result, runtime_error, value_error, ◌≡◌, refl,
  arith, string_beq_iff, Fields, str, end, field, if◌then◌else◌,
}
use aieos.Base.Dict.{get, put}
use aieos.Contracts.Commands.{CommandEnvelope, command_eq, checked_metadata, checked_command}
use aieos.Contracts.Events.{EventEnvelope}
use aieos.Contracts.Results.{ResultEnvelope, checked_result, checked_error}
use aieos.Domain.{new, now}
use aieos.EventBus.{Consumers, registrations}
use aieos.Outcomes.{unsuccessful}
use aieos.Security.{require}
use aieos.Tests.Samples.{alice, services, an_event, an_acknowledgement}
use aieos.Tests.Flows.{authorizer, owner, a_flow, engine, cancelled_result}
use aieos.Workflow.Governance.{WorkflowAiBudgetEnvelope, scale6, lookup}
use aieos.Workflow.Governance.Binding.{validate_binding}
use aieos.Workflow.Governance.Format.{micro_text, amount_text, show, show_fuel}
use aieos.Workflow.Governance.Format.RoundTrip.{scale6-micro_text}
use aieos.Workflow.Governance.Admission.{Handoff, admission_binding}
use aieos.Workflow.Governance.Admission.Laws.{Commits, lineage_of, validate-admission_binding}
use aieos.Workflow.Instance.{WorkflowInstance, completed, running, Engine}
use aieos.Workflow.Repository.{
  put_instance, put_receipt, remember_completed_command, receipt_for_command,
}
use aieos.Workflow.Cancel.{is_refused, cancel}
use aieos.Workflow.Payload.{Library, strip, strip_left, strip_right, number_text}
use aieos.Workflow.System.{System, Platform, engine_of, on_engine}
use aieos.Workflow.Consume.{consume}
use aieos.Workflow.Consume.Ended.{consume-KeepsEnded}
use aieos.Workflow.Handle.{handle, handle_received, handle_new}
use aieos.Workflow.Handle.Again.{handle_again}
use aieos.Workflow.Handle.Ended.{handle-KeepsEnded}
use aieos.Workflow.Attempt.{
  create_attempt_command, create_governed, budgeted_envelope, used_exposure, begin_attempt,
  requested, committed,
}
use aieos.Workflow.Command.{is_approved, attempt_command}
use aieos.Workflow.Attempt.Ceiling.{Covered, create_attempt_command-ceiling}
use aieos.Workflow.Ended.{Stays}

scale6-micro_text_example : scale6 (micro_text 10_000) ≡ ok 10_000
scale6-micro_text_example = scale6-micro_text 10_000 (omega arith) (omega arith)

abbrev pub an_envelope : WorkflowAiBudgetEnvelope
an_envelope = record {
  definition_version_id = "classify-and-route-task-v1";
  policy_id = "policy";
  policy_version_id = "policy-v1";
  tenant_id = "tenant_a";
  workspace_id = "workspace_1";
  ceiling_microusd = 1_000_000;
}

abbrev pub a_handoff : Handoff
a_handoff = record {
  workflow_id = "workflow_1";
  workflow_step_id = "step_1";
  command_id = "command_1";
  execution_id = "execution_1";
  skill_version_id = "skill-v1";
  capability_id = "StructuredTaskKindClassification";
  capability_contract_version_id = "1";
}

validate-admission_binding_example :
    (v : Fields) × (admission_binding an_envelope a_handoff 1 10_000 ≡ ok v)
    × (validate_binding v (lineage_of an_envelope a_handoff) ≡ ok tt)
    × Commits 10_000 v
validate-admission_binding_example =
    validate-admission_binding an_envelope a_handoff 1 10_000 (omega arith) (omega arith)

abbrev library : Library
library = record {
  text_of = λ v. "";
  float_of = λ z. ok 0;
  loads = λ s. err (value_error "no JSON");
  dumps = λ fs. ok "";
}

abbrev no_consumers : Consumers (Platform (Unit {0}))
no_consumers = []

abbrev offline : CommandEnvelope → System (Unit {0}) → Result ResultEnvelope × System (Unit {0})
offline c s = (err (runtime_error "offline"), s)

abbrev system : Engine → System (Unit {0})
system e = record {
  entries = [];
  delivered = [];
  published = [];
  world = record { engine = e; rest = tt };
}

handle_again_example :
    let t =
      (handle library services authorizer no_consumers offline owner (system (engine running))).1 in
    handle library services authorizer no_consumers offline owner t ≡ (
      if owner == owner
          then ok cancelled_result
          else err (value_error "CommandId cannot be reused with changed immutable content"),
      t,
    )
unfolding get cancel unsuccessful new now checked_result checked_error require put_instance
    put_receipt remember_completed_command put handle receipt_for_command handle_received handle_new
    on_engine registrations
handle_again_example =
    handle_again library services authorizer owner no_consumers offline (λ _. tt) (λ _ s h. h) owner
      (system (engine running))
      (handle library services authorizer no_consumers offline owner (system (engine running))).1
      cancelled_result refl refl refl

abbrev ended_flow : WorkflowInstance
ended_flow = record (a_flow completed) { outcome = some an_acknowledgement }

abbrev ended_engine : Engine
ended_engine = record (engine completed) { instances = ("workflow_1", ended_flow) ∷ [] }

ended_engine-Stays : Stays "workflow_1" ended_flow ended_engine
unfolding get
ended_engine-Stays =
    (λ k j h. ground (arith, string_beq_iff "workflow_1" k), (ended_flow, refl, refl))

handle-KeepsEnded_example : Stays "workflow_1" ended_flow (
    engine_of
      (handle library services authorizer no_consumers offline owner (system ended_engine)).1)
unfolding registrations get
handle-KeepsEnded_example =
    handle-KeepsEnded "workflow_1" ended_flow library services authorizer no_consumers offline
      (λ _. tt) (λ _ s h. h) refl an_acknowledgement refl owner (system ended_engine)
      ended_engine-Stays

abbrev a_success : EventEnvelope
a_success = record (an_event "event_1") { workflow_id = some "workflow_1" }

consume-KeepsEnded_example : Stays "workflow_1" ended_flow (
    engine_of
      (consume services library authorizer no_consumers offline a_success (system ended_engine)).1)
unfolding registrations get
consume-KeepsEnded_example =
    consume-KeepsEnded "workflow_1" ended_flow refl services library authorizer no_consumers offline
      (λ _. tt) (λ _ s h. h) a_success (system ended_engine) ended_engine-Stays

abbrev a_governed_flow : WorkflowInstance
a_governed_flow = record (a_flow running) {
  definition = record (a_flow running).definition {
    workflow_definition_id = "ClassifyAndRouteTask";
    workflow_definition_version_id = "classify-and-route-task-v1";
    workflow_kind = "ClassifyAndRouteTask";
    skill_version_id = "structured-task-kind-skill-v1";
  };
  input_payload = field "statement" (str "Open the door.") end;
  ai_budget_envelope = some an_envelope;
  ai_admissions = [];
  ai_admission_states = [];
  attempt_number = 0;
}

abbrev command_or_owner : Result CommandEnvelope → CommandEnvelope
command_or_owner (ok c) = c
command_or_owner (err x) = owner

abbrev a_governed_command : CommandEnvelope
a_governed_command =
    command_or_owner
      (create_attempt_command library services authorizer a_governed_flow "command_1"
        (engine running)).0

create_attempt_command-ceiling_example :
    (e : WorkflowAiBudgetEnvelope) × (some an_envelope ≡ some e)
    × (is_refused (require authorizer alice "ai.invoke" "tenant_a" "workspace_1") ≡ false)
    × Covered library services authorizer a_governed_flow e a_governed_command
        (create_attempt_command library services authorizer a_governed_flow "command_1"
          (engine running)).1
unfolding create_attempt_command is_approved lookup create_governed budgeted_envelope require
    used_exposure begin_attempt new now attempt_command checked_metadata checked_command requested
    committed strip strip_left strip_right put put_instance number_text admission_binding
    amount_text show show_fuel
create_attempt_command-ceiling_example =
    create_attempt_command-ceiling library services authorizer a_governed_flow "command_1"
      (engine running) a_governed_command refl refl
