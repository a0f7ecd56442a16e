-- ===== src/Workflow/Live.antt =====
-- engine.py: the shared objects that a method of the engine holds across a call, and the dispatch
-- of an attempt
use aieos.Base.{
  String, Option, some, none, ◌∷◌, ◌==◌, string_eq, ◌||◌, Exception, value_error, Result, ok, err,
  if◌then◌else◌,
}
use aieos.Base.Dict.{get, put}
use aieos.Base.Exec.{Exec}
use aieos.Contracts.Commands.{CommandEnvelope}
use aieos.Contracts.Results.{ResultEnvelope}
use aieos.Workflow.Instance.{WorkflowInstance, WorkflowCommandReceipt, Engine}
use aieos.Workflow.Repository.{put_instance}
use aieos.Workflow.System.{System, engine_of, set_engine}

change_found : (WorkflowInstance → WorkflowInstance) → Option WorkflowInstance → Engine → Engine
change_found f none s = s
change_found f (some i) s = put_instance (f i) s

-- a write to the instance, as it is now
unfoldable pub change_instance : (WorkflowInstance → WorkflowInstance) → String → Engine → Engine
unfolding change_found
change_instance f workflow_id s = change_found f (get workflow_id s.instances) s

change_receipt_found :
    (WorkflowCommandReceipt → WorkflowCommandReceipt)
    → String
    → Option WorkflowCommandReceipt
    → Engine
    → Engine
change_receipt_found f command_id none s = s
change_receipt_found f command_id (some r) s = record s {
  command_receipts = put command_id (f r) s.command_receipts;
}

-- a write to the receipt, as it is now
unfoldable pub change_receipt :
    (WorkflowCommandReceipt → WorkflowCommandReceipt) → String → Engine → Engine
unfolding change_receipt_found
change_receipt f command_id s =
    change_receipt_found f command_id (get command_id s.command_receipts) s

or_held : WorkflowInstance → Option WorkflowInstance → WorkflowInstance
or_held i none = i
or_held i (some j) = j

-- the instance, as it is now
unfoldable pub live : WorkflowInstance → Engine → WorkflowInstance
unfolding or_held
live i s = or_held i (get i.workflow_id s.instances)

-- the processed event is remembered
unfoldable pub mark_processed : String → String → Engine → Engine
unfolding change_instance
mark_processed workflow_id event_id =
    change_instance (λ i. record i { processed_event_ids = event_id ∷ i.processed_event_ids })
      workflow_id

-- the errors of an admission that the engine answers itself
unfoldable pub admission_code : Exception → Option String
admission_code (value_error code) =
    if code == "WORKFLOW_AI_BUDGET_EXHAUSTED" || code == "WORKFLOW_AI_AUTHORIZATION_REVOKED"
    then some code
    else none
admission_code _ = none

-- `try`: what the call raised is a value
abbrev pub attempt {ℓ κ} : {S : Type ℓ} {A : Type κ} → Exec S A → Exec S (Result A)
attempt m s = let (r, t) = m s in (ok r, t)

abbrev discard : {A : Type 0} → Result A → Result (Unit {0})
discard (ok _) = ok tt
discard (err x) = err x

module _ {W : Type 0} (dispatch : CommandEnvelope → Exec (System W) ResultEnvelope) where
  unfoldable pub with_context : Option CommandEnvelope → System W → System W
  with_context c s = set_engine (record (engine_of s) { dispatch_context = c }) s

  -- `with dispatch_context(command): await dispatch(command)`
  unfoldable pub dispatch_in_context : CommandEnvelope → Exec (System W) (Unit {0})
  unfolding with_context
  dispatch_in_context c s =
      let (r, t) = dispatch c (with_context (some c) s) in
      (discard r, with_context (engine_of s).dispatch_context t)
