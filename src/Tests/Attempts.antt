-- ===== src/Tests/Attempts.antt =====
-- The Skill Runtime.
use aieos.Base.{some, none, [], ◌∷◌, string_eq, ok, ◌≡◌, refl, arith, pos, Fields, str, field, end}
use aieos.Base.Dict.{values}
use aieos.Contracts.Results.{ResultEnvelope, ResultStatus, success}
use aieos.SkillRuntime.{
  succeeded, Executions, Reuse, find_result, is_compatible, resolve_authoritative_result,
}
use aieos.SkillRuntime.Binding.{validate_admission}
use aieos.SkillRuntime.Binding.Agreement.{expected_of, validate_admission-admission_binding}
use aieos.SkillRuntime.Laws.{Produced, Reusable, resolve-Reusable}
use aieos.Tests.Engine.{an_envelope, a_handoff}
use aieos.Tests.Samples.{an_acknowledgement}
use aieos.Workflow.Governance.{lookup, is_text}
use aieos.Workflow.Governance.Admission.{admission_binding}

validate_admission-admission_binding_example :
    (v : Fields) × (admission_binding an_envelope a_handoff 1 10_000 ≡ ok v)
    × (validate_admission v (expected_of an_envelope a_handoff) ≡ ok tt)
validate_admission-admission_binding_example =
    validate_admission-admission_binding an_envelope a_handoff 1 10_000 (omega arith) (omega arith)
      (omega arith) refl

abbrev a_result : ResultEnvelope
a_result = record an_acknowledgement {
  result_status = ResultStatus.succeeded;
  outcome_category = success;
  value_reference = some "value_1";
  metadata = field "capability_id" (str "classify") (
      field "capability_contract_version_id" (str "1")
        (field "normalized_input_digest" (str "digest") end));
}

abbrev executions : Executions
executions = record {
  records =
      (
        "execution_1",
        record {
          execution_id = "execution_1";
          workflow_id = "workflow_1";
          workflow_step_id = "step_1";
          attempt_number = pos 1;
          tenant_id = "tenant_a";
          workspace_id = "workspace_1";
          state = succeeded;
          acknowledgement = an_acknowledgement;
          start_event = none;
          terminal_event = none;
          result = some a_result;
          error = none;
        },
      )
      ∷ [];
  command_receipts = [];
}

abbrev a_reuse : Reuse
a_reuse = record {
  tenant_id = "tenant_a";
  workspace_id = "workspace_1";
  capability_id = "classify";
  capability_contract_version_id = "1";
  normalized_input_digest = "digest";
}

resolve-Reusable_example :
    Produced "result_1" a_result (values executions.records) × Reusable a_reuse a_result
unfolding resolve_authoritative_result find_result is_compatible lookup is_text
resolve-Reusable_example = resolve-Reusable "result_1" a_reuse executions a_result refl
