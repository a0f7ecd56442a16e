-- ===== src/SkillRuntime.antt =====
-- packages/skill_runtime/src/aieos/skill_runtime/runtime.py: the records of attempts and their
-- in-memory repository
pub mod Binding
pub mod Laws
use aieos.Base.{
  ℕ, String, Bool, true, false, not, ◌||◌, ◌&&◌, Option, some, none, List, [], ◌∷◌, ◌==◌, string_eq,
  Result, ok, err, value_error, key_error, lookup_error, permission_error, if◌then◌else◌, is_some,
  ℤ, Fields,
}
use aieos.Base.Dict.{Dict, get, put, contains, values}
use aieos.Base.Exec.{Exec, pure, gets, modify, or_raise, guard_not, ◌>>=◌, ◌>>◌}
use aieos.Contracts.Commands.{CommandEnvelope}
use aieos.Contracts.Events.{EventEnvelope}
use aieos.Contracts.Results.{ResultEnvelope, ErrorEnvelope, ResultStatus}
use aieos.Workflow.Governance.{lookup, is_text}

pub data ExecutionState : Type 0 where
  requested executing succeeded failed timed_out cancelled : ExecutionState

pub record ExecutionRecord : Type 0 where
  pub execution_id : String
  pub workflow_id : String
  pub workflow_step_id : String
  pub attempt_number : ℤ
  pub tenant_id : String
  pub workspace_id : String
  pub state : ExecutionState
  pub acknowledgement : ResultEnvelope
  pub start_event : Option EventEnvelope
  pub terminal_event : Option EventEnvelope
  pub result : Option ResultEnvelope
  pub error : Option ErrorEnvelope

pub record ExecutionCommandReceipt : Type 0 where
  pub command : CommandEnvelope
  pub acknowledgement : ResultEnvelope
  pub error : Option ErrorEnvelope
  pub completed : Bool

-- InMemoryExecutionRepository
pub record Executions : Type 0 where
  pub records : Dict String ExecutionRecord
  pub command_receipts : Dict String ExecutionCommandReceipt

unfoldable pub add : ExecutionRecord → Exec Executions (Unit {0})
add r = do
  taken ← gets (λ s. contains r.execution_id s.records)
  guard_not taken (value_error "ExecutionId already exists")
  modify (λ s. record s { records = put r.execution_id r s.records })

unfoldable pub receipt_for_command : String → Executions → Option ExecutionCommandReceipt
receipt_for_command id s = get id s.command_receipts

abbrev put_receipt : ExecutionCommandReceipt → Executions → Executions
put_receipt r s = record s { command_receipts = put r.command.command_id r s.command_receipts }

abbrev pub new_receipt :
    CommandEnvelope → ResultEnvelope → Option ErrorEnvelope → ExecutionCommandReceipt
new_receipt c acknowledgement error = record {
  command = c;
  acknowledgement = acknowledgement;
  error = error;
  completed = false;
}

unfoldable pub begin_command :
    CommandEnvelope
    → ResultEnvelope
    → Option ErrorEnvelope
    → Exec Executions ExecutionCommandReceipt
begin_command c acknowledgement error s =
    (ok (new_receipt c acknowledgement error), put_receipt (new_receipt c acknowledgement error) s)

unfoldable pub complete_command : String → Exec Executions ResultEnvelope
complete_command id = do
  found ← gets (receipt_for_command id)
  r ← or_raise key_error found
  modify (λ s. record s {
    command_receipts = put id (record r { completed = true }) s.command_receipts;
  })
  pure r.acknowledgement

unfoldable pub remember_completed_command :
    CommandEnvelope → ResultEnvelope → Option ErrorEnvelope → Exec Executions (Unit {0})
remember_completed_command c result error =
    modify (put_receipt (record (new_receipt c result error) { completed = true }))

has_id : String → Option ResultEnvelope → Bool
has_id id none = false
has_id id (some r) = r.result_id == id

-- next(record.result for record in ... if the result has that identity)
unfoldable pub find_result : String → List ExecutionRecord → Option ResultEnvelope
unfolding has_id
find_result id [] = none
find_result id (r ∷ rs) = if has_id id r.result then r.result else find_result id rs

-- what a result is reused for
pub record Reuse : Type 0 where
  pub tenant_id : String
  pub workspace_id : String
  pub capability_id : String
  pub capability_contract_version_id : String
  pub normalized_input_digest : String

is_succeeded : ResultStatus → Bool
is_succeeded ResultStatus.succeeded = true
is_succeeded _ = false

unfoldable pub is_compatible : Reuse → ResultEnvelope → Bool
unfolding is_succeeded
is_compatible u r =
    is_succeeded r.result_status
    && r.tenant_id == u.tenant_id
    && r.workspace_id == u.workspace_id
    && is_text u.capability_id (lookup "capability_id" r.metadata)
    && is_text u.capability_contract_version_id (lookup "capability_contract_version_id" r.metadata)
    && is_text u.normalized_input_digest (lookup "normalized_input_digest" r.metadata)
    && is_some r.value_reference

resolved : Reuse → Option ResultEnvelope → Result ResultEnvelope
resolved u none = err (lookup_error "authoritative Result is unavailable")
resolved u (some r) =
    if is_compatible u r
    then ok r
    else err (permission_error "authoritative Result is incompatible or outside scope")

unfoldable pub resolve_authoritative_result : String → Reuse → Executions → Result ResultEnvelope
unfolding resolved
resolve_authoritative_result id u s = resolved u (find_result id (values s.records))
