-- ===== src/Workflow/Complete.antt =====
-- engine.py: `_reconcile_ai_admission` and `_complete`
pub mod Ended
use aieos.Base.{
  ℕ, ◌+◌, String, Bool, true, false, not, ◌||◌, ◌&&◌, Option, some, none, List, [], ◌∷◌, ◌==◌,
  string_eq, any, Result, ok, err, Exception, value_error, key_error, type_error, assertion_error,
  authorization_failure, if◌then◌else◌, Value, Fields, null, bool, int, float, str, array, mapping,
  end, field, pos, is_some,
}
use aieos.Base.Dict.{values}
use aieos.Base.Exec.{Exec, pure, raise, lift, modify, ◌>>=◌, ◌>>◌}
use aieos.Contracts.Events.{EventEnvelope}
use aieos.Contracts.Results.{ResultEnvelope}
use aieos.Domain.{Services, Supply}
use aieos.EventBus.{Consumers}
use aieos.Outcomes.{succeed}
use aieos.Workflow.Governance.{WorkflowAiBudgetEnvelope, lookup, is_text, is_number}
use aieos.Workflow.Governance.Format.{micro_text}
use aieos.Workflow.Instance.{WorkflowState, WorkflowInstance, Engine}
use aieos.Workflow.Repository.{put_instance}
use aieos.Workflow.Cancel.{draw}
use aieos.Workflow.Payload.{
  Library, as_text, put_field, or_null, or_default, optional_text, is_optional_text, texts,
  remaining_text,
}
use aieos.Workflow.Command.{is_approved}
use aieos.Workflow.System.{Platform, System, on_engine}
use aieos.Workflow.Ending.{event_lineage, of_event, announce, fail}
use aieos.Workflow.Accounting.{Settlement, settlement_of, reconciled, totals, as_mapping}

abbrev reconcile_with :
    WorkflowInstance → Fields → Settlement → Exec Engine (WorkflowInstance × (ℕ × ℕ))
reconcile_with i lineage x = do
  modify (put_instance (reconciled i lineage x))
  n ← lift (totals (values (reconciled i lineage x).ai_admission_states))
  pure (reconciled i lineage x, n)

-- What is settled and what is committed. The record is written before the totals are taken.
unfoldable pub reconcile_ai_admission :
    WorkflowInstance → Fields → Bool → Exec Engine (WorkflowInstance × (ℕ × ℕ))
reconcile_ai_admission i lineage true = pure (i, (0, 0))
reconcile_ai_admission i lineage false = lift (settlement_of i lineage) >>= reconcile_with i lineage

-- the event's lineage is that of the instance and of one of its executions
foreign : WorkflowInstance → EventEnvelope → Fields → Bool
foreign i e lineage =
    not (is_text i.tenant_id (lookup "tenant_id" lineage))
    || not (is_text i.workspace_id (lookup "workspace_id" lineage))
    || not (is_text i.workflow_id (lookup "workflow_id" lineage))
    || not (is_text i.workflow_step_id (lookup "workflow_step_id" lineage))
    || not (is_optional_text e.execution_id (lookup "execution_id" lineage))
    || not (any (λ id. is_optional_text e.execution_id (some (str id))) i.execution_ids)

-- the lineage of an event that may complete the instance
own_lineage : WorkflowInstance → EventEnvelope → Option Fields → Option Fields
unfolding foreign
own_lineage i e none = none
own_lineage i e (some lineage) = if foreign i e lineage then none else some lineage

unfoldable pub lineage_for : WorkflowInstance → EventEnvelope → Option Fields
unfolding own_lineage
lineage_for i e = own_lineage i e (as_mapping (lookup "audit_lineage" e.payload))

-- `routes[task_kind]`: what is no text has no route, or no hash
route_of : Value → Result String
route_of (str s) =
    if s == "Question"
    then ok "question_queue"
    else if s == "Instruction"
    then ok "instruction_queue"
    else if s == "Statement"
    then ok "information_queue"
    else err key_error
route_of (array _) = err type_error
route_of (mapping _) = err type_error
route_of _ = err key_error

-- (task_kind, route) of the text that the step produced
paired : Value → Result String → Result (Value × String)
paired kind (ok route) = ok (kind, route)
paired kind (err x) = err x

kind_and_route : Option Value → Result (Value × String)
unfolding route_of paired
kind_and_route none = err key_error
kind_and_route (some kind) = paired kind (route_of kind)

-- value["task_kind"]: only a mapping has that key
subscripted : Result Value → Result (Value × String)
unfolding kind_and_route
subscripted (err x) = err x
subscripted (ok (mapping fs)) = kind_and_route (lookup "task_kind" fs)
subscripted (ok _) = err type_error

-- KeyError, TypeError or ValueError
is_caught : Exception → Bool
is_caught key_error = true
is_caught type_error = true
is_caught (value_error _) = true
is_caught (authorization_failure _) = true
is_caught _ = false

-- the value of the outcome and its text, if there is one
as_reference : Option Value → Option String
as_reference (some (str s)) = some s
as_reference _ = none

evidence_of : WorkflowAiBudgetEnvelope → Fields
evidence_of b =
    field "workflow_definition_version_id" (str b.definition_version_id) (
      field "policy_id" (str b.policy_id) (field "policy_version_id" (str b.policy_version_id) end))

route_fields : WorkflowInstance → EventEnvelope → WorkflowAiBudgetEnvelope → Value × String → Fields
unfolding evidence_of
route_fields i e b (kind, route) = field "task_kind" kind (
    field "route" (str route) (
      field "workflow_id" (str i.workflow_id) (
        field "workflow_step_id" (str i.workflow_step_id) (
          field "execution_id" (optional_text e.execution_id) (
            field "capability_result_id" (or_null (lookup "result_id" e.payload))
              (field "governance_evidence" (mapping (evidence_of b)) end))))))

-- `text or "0"`
or_zero : String → String
or_zero s = if s == "" then "0" else s

-- workflow_ai_budget_evidence
budget_evidence : WorkflowAiBudgetEnvelope → Fields → Bool → ℕ × ℕ → Fields
unfolding or_zero
budget_evidence b lineage avoided (settled, committed) = field "contract_version" (int (pos 1)) (
    field "source" (str "accepted_workflow_budget_envelope") (
      field "workflow_definition_version_id" (str b.definition_version_id) (
        field "policy_id" (str b.policy_id) (
          field "policy_version_id" (str b.policy_version_id) (
            field "admission_decision" (str (if avoided then "bypassed" else "committed")) (
              field "logical_admission_binding"
                (if avoided
                  then str "not_applicable_by_design"
                  else or_default (str "not_exposed") (lookup "command_id" lineage))
                (field "conservative_committed_exposure" (str (or_zero (micro_text committed))) (
                  field "gateway_authoritative_settled_actual" (str (or_zero (micro_text settled)))
                    (field "remaining_workflow_budget"
                      (str (or_zero (remaining_text b.ceiling_microusd (settled + committed))))
                      (field "ai_calls_made" (int (pos (if avoided then 0 else 1))) (
                        field "ai_calls_avoided" (int (pos (if avoided then 1 else 0))) (
                          field "gateway_accounting"
                            (or_default (str "not_exposed") (lookup "accounting_evidence" lineage))
                            (field "replay_recovery_decision" (str "original_or_idempotent_replay")
                              end)))))))))))))

-- no model was called
is_avoided : Fields → Bool
is_avoided lineage = is_number 1 (lookup "avoided_model_calls" lineage)

abbrev with_evidence :
    Fields
    → WorkflowAiBudgetEnvelope
    → WorkflowInstance × (ℕ × ℕ)
    → Exec Engine (WorkflowInstance × Fields)
with_evidence lineage b (j, n) = pure (
  j,
  field "audit_lineage" (mapping lineage) (
      field "workflow_ai_budget_evidence"
        (mapping (budget_evidence b lineage (is_avoided lineage) n)) end),
)

-- the audit metadata, and what the reconciliation leaves of the instance
audited :
    WorkflowInstance
    → Fields
    → Option WorkflowAiBudgetEnvelope
    → Exec Engine (WorkflowInstance × Fields)
unfolding budget_evidence reconcile_ai_admission is_avoided
audited i lineage none = pure (i, field "audit_lineage" (mapping lineage) end)
audited i lineage (some b) =
    reconcile_ai_admission i lineage (is_avoided lineage) >>= with_evidence lineage b

module _ (sv : Services) where
  abbrev success_of :
      WorkflowInstance → EventEnvelope → Option Value → Fields → Exec Supply ResultEnvelope
  success_of i e value audit = succeed sv (event_lineage i e) (
      of_event e (as_reference value) (
        field "attempt_count" (int (pos i.attempt_number))
          (field "execution_ids" (array (texts i.execution_ids)) audit)))

  -- the outcome and then the state are written
  abbrev conclude_success : WorkflowInstance → ResultEnvelope → Exec Engine WorkflowInstance
  conclude_success i result = do
    modify (put_instance (record i { outcome = some result; state = WorkflowState.completed }))
    pure (record i { outcome = some result; state = WorkflowState.completed })

  abbrev succeed_audited :
      EventEnvelope → Option Value → WorkflowInstance × Fields → Exec Engine WorkflowInstance
  succeed_audited e value (i, audit) = draw (success_of i e value audit) >>= conclude_success i

  unfoldable pub succeed_with :
      WorkflowInstance → EventEnvelope → Fields → Option Value → Exec Engine WorkflowInstance
  unfolding as_reference audited
  succeed_with i e lineage value =
      audited i lineage i.ai_budget_envelope >>= succeed_audited e value

  module _ (lib : Library) {W : Type 0} (t : Consumers (Platform W)) where
    abbrev announce_completed : EventEnvelope → WorkflowInstance → Exec (System W) (Unit {0})
    announce_completed e k = announce sv t k "WorkflowCompleted" e

    complete_with :
        WorkflowInstance → EventEnvelope → Fields → Option Value → Exec (System W) (Unit {0})
    complete_with i e lineage value =
        on_engine (succeed_with i e lineage value) >>= announce_completed e

    abbrev complete_text :
        WorkflowInstance → EventEnvelope → Fields → String → Exec (System W) (Unit {0})
    complete_text i e lineage text = complete_with i e lineage (some (str text))

    -- the approved workflow's value is the route of its task kind
    complete_routed :
        WorkflowInstance
        → EventEnvelope
        → Fields
        → Option WorkflowAiBudgetEnvelope
        → Result (Value × String)
        → Exec (System W) (Unit {0})
    unfolding complete_with route_fields is_caught
    complete_routed i e lineage b (err x) = if is_caught x then fail sv t i e else raise x
    complete_routed i e lineage none (ok r) = raise assertion_error
    complete_routed i e lineage (some b) (ok r) =
        lift (lib.dumps (route_fields i e b r)) >>= complete_text i e lineage

    complete_found : WorkflowInstance → EventEnvelope → Option Fields → Exec (System W) (Unit {0})
    unfolding complete_routed complete_with subscripted
    complete_found i e none = fail sv t i e
    complete_found i e (some lineage) =
        let value = lookup "value_reference" e.payload in
        let audit =
          put_field "capability_result_id" (or_null (lookup "result_id" e.payload)) lineage in
        if is_approved i.definition
        then complete_routed i e audit i.ai_budget_envelope
            (subscripted (lib.loads (as_text lib value)))
        else complete_with i e audit value

    -- _complete
    unfoldable pub complete : WorkflowInstance → EventEnvelope → Exec (System W) (Unit {0})
    unfolding complete_found
    complete i e = complete_found i e (lineage_for i e)
