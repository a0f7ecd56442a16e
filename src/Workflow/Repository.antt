-- ===== src/Workflow/Repository.antt =====
-- engine.py: InMemoryWorkflowRepository, and when a new attempt is permitted
pub mod Laws
use aieos.Base.{
  ℕ, zero, suc, ◌+◌, String, Bool, true, false, not, ◌&&◌, ◌||◌, Option, some, none, List, [], ◌∷◌,
  ◌==◌, nat_eq, string_eq, nat_eq, Exception, Result, ok, err, value_error, key_error, is_some, ltb,
  if◌then◌else◌, Value, Fields, null, bool, int, float, str, array, mapping, ℤ, pos, negsuc, Eq,
  eq_of_discrete, Fields-discrete,
}
use aieos.Base.Dict.{Dict, get, put, contains, values}
use aieos.Base.Exec.{Exec, pure, modify, or_raise, gets, guard_not, ◌>>=◌, ◌>>◌}
use aieos.Contracts.Commands.{CommandEnvelope}
use aieos.Contracts.Results.{ResultEnvelope, ErrorEnvelope}
use aieos.Workflow.Governance.{lookup, is_number, is_text}
use aieos.Workflow.Instance.{
  WorkflowState, running, completed, CommandProcessingState, in_progress, processed,
  WorkflowInstance, WorkflowCommandReceipt, Engine,
}

unfoldable pub put_instance : WorkflowInstance → Engine → Engine
put_instance i s = record s { instances = put i.workflow_id i s.instances }

unfoldable pub add : WorkflowInstance → Exec Engine (Unit {0})
unfolding put_instance
add i = do
  guarded ← gets (λ s. contains i.workflow_id s.instances)
  guard_not guarded (value_error "WorkflowId already exists")
  modify (put_instance i)

unfoldable pub receipt_for_command : String → Engine → Option WorkflowCommandReceipt
receipt_for_command id s = get id s.command_receipts

unfoldable pub put_receipt : WorkflowCommandReceipt → Engine → Engine
put_receipt r s = record s { command_receipts = put r.command.command_id r s.command_receipts }

abbrev pub new_receipt :
    CommandEnvelope → ResultEnvelope → String → Option ErrorEnvelope → WorkflowCommandReceipt
new_receipt command result workflow_id error = record {
  command = command;
  result = result;
  workflow_id = workflow_id;
  error = error;
  state = in_progress;
}

unfoldable pub begin_command :
    CommandEnvelope
    → ResultEnvelope
    → String
    → Option ErrorEnvelope
    → Exec Engine WorkflowCommandReceipt
unfolding put_receipt
begin_command command result workflow_id error s =
    let r = new_receipt command result workflow_id error in (ok r, put_receipt r s)

-- The receipt that is stored under the identifier becomes complete.
unfoldable pub complete_command : String → Exec Engine ResultEnvelope
complete_command command_id = do
  found ← gets (receipt_for_command command_id)
  r ← or_raise key_error found
  modify (λ s. record s {
    command_receipts = put command_id (record r { state = processed }) s.command_receipts;
  })
  pure r.result

unfoldable pub remember_completed_command :
    CommandEnvelope → ResultEnvelope → String → Option ErrorEnvelope → Exec Engine (Unit {0})
unfolding put_receipt
remember_completed_command command result workflow_id error =
    modify
      (put_receipt (record (new_receipt command result workflow_id error) { state = processed }))

-- isinstance(value, int), and the integer: True is 1 and False is 0
unfoldable pub as_integer : Option Value → Option ℤ
as_integer (some (int i)) = some i
as_integer (some (bool true)) = some (pos 1)
as_integer (some (bool false)) = some (pos 0)
as_integer _ = none

instance abbrev pub fields_eq : Eq Fields
fields_eq = eq_of_discrete Fields-discrete

abbrev is_binding : Fields → Option Value → Bool
is_binding b (some (mapping fs)) = fs == b
is_binding b _ = false

abbrev pub differs_from : String → Option String → Bool
differs_from t none = true
differs_from t (some u) = not (u == t)

abbrev pub is_running : WorkflowState → Bool
is_running running = true
is_running _ = false

abbrev pub is_completed : WorkflowState → Bool
is_completed completed = true
is_completed _ = false

-- the dispatched command, if there is one, is another
misdirected : String → String → String → Option CommandEnvelope → Bool
misdirected workflow_id command_id execution_id none = false
misdirected workflow_id command_id execution_id (some c) =
    differs_from workflow_id c.workflow_id
    || not (c.command_id == command_id)
    || differs_from execution_id c.execution_id

abbrev is_version : ℕ → Option ℤ → Bool
is_version n (some (pos m)) = m == n
is_version n _ = false

-- the workflow is at the point where the admission counts
unfoldable pub admission_counts : WorkflowInstance → Fields → Bool
admission_counts i record_ =
    let state = lookup "State" record_ in
    is_running i.state
      && (is_text "Committed" state || is_text "GatewayAccepted" state || is_text "Settling" state)
    || is_completed i.state && is_text "Reconciled" state

unfoldable pub is_authoritative : WorkflowInstance → Fields → Fields → String → Bool
unfolding admission_counts as_integer
is_authoritative i binding record_ execution_id =
    admission_counts i record_
    && is_version i.transition_version (as_integer (lookup "WorkflowAdmissionStateVersion" binding))
    && is_number i.transition_version (lookup "WorkflowAdmissionStateVersion" record_)
    && is_binding binding (lookup "Binding" record_)
    && is_text execution_id (lookup "ExecutionId" binding)

admission_of : WorkflowInstance → String → String → Option Fields → Option Fields → Option Fields
unfolding is_authoritative
admission_of i command_id execution_id (some binding) (some record_) =
    if is_authoritative i binding record_ execution_id then some binding else none
admission_of i command_id execution_id _ _ = none

admission_in : String → String → Option WorkflowInstance → Option Fields
unfolding admission_of
admission_in command_id execution_id none = none
admission_in command_id execution_id (some i) =
    admission_of i command_id execution_id (get command_id i.ai_admissions)
      (get command_id i.ai_admission_states)

unfoldable pub authoritative_ai_admission : String → String → String → Engine → Option Fields
unfolding misdirected admission_in
authoritative_ai_admission workflow_id command_id execution_id s =
    if misdirected workflow_id command_id execution_id s.dispatch_context
    then none
    else admission_in command_id execution_id (get workflow_id s.instances)

owned_by : String → Option WorkflowInstance → Bool
owned_by command_id none = false
owned_by command_id (some i) =
    contains command_id i.ai_admissions || contains command_id i.ai_admission_states

abbrev found_by : Option String → Engine → Option WorkflowInstance
found_by none s = none
found_by (some id) s = get id s.instances

unfoldable pub owns_ai_dispatch : Option String → String → Engine → Bool
unfolding owned_by
owns_ai_dispatch workflow_id command_id s =
    is_some s.dispatch_context || owned_by command_id (found_by workflow_id s)

-- next(candidate for candidate in ... if candidate.workflow_step_id == step)
find_step : String → List WorkflowInstance → Option WorkflowInstance
find_step step [] = none
find_step step (i ∷ is) = if i.workflow_step_id == step then some i else find_step step is

less_than : ℕ → ℤ → Bool
less_than n (pos m) = ltb n m
less_than n (negsuc m) = false

permits : Option WorkflowInstance → Bool
unfolding less_than
permits none = false
permits (some i) = is_running i.state && less_than i.attempt_number i.definition.max_attempts

unfoldable pub permits_new_attempt : String → Engine → Bool
unfolding find_step permits
permits_new_attempt step s = permits (find_step step (values s.instances))

unfoldable pub retry_allowed : WorkflowInstance → String → Engine → Bool
retry_allowed i classification s =
    permits_new_attempt i.workflow_step_id s
    && (classification == "Retryable"
        || classification == "RetryableAfterDelay"
        || classification == "RequiresPolicyEvaluation")
