-- ===== src/Manager.antt =====
-- packages/manager/src/aieos/manager/manager.py: Manager and its repository of requests. The client of
-- the Workflow Engine is an interface.
pub mod Again
pub mod Starts
use Prim.Native.String.{◌++◌ as ◌<>◌}
use aieos.Base.{
  String, Bool, true, false, not, ◌||◌, Option, some, none, ◌==◌, string_eq, Result, ok, err,
  value_error, key_error, Exception, if◌then◌else◌, Value, Fields, str, int, float, pos, end, field,
  is_some, empty_mapping, ◌>>=◌ as ◌bind◌, Timestamp,
}
use aieos.Base.Dict.{Dict, get, put}
use aieos.Base.Exec.{Exec, pure, raise, gets, lift, modify, ◌>>=◌, ◌>>◌}
use aieos.Contracts.Commands.{
  CommandEnvelope, CommandMetadata, command_eq, checked_command, checked_metadata,
}
use aieos.Contracts.Results.{
  ResultEnvelope, ErrorEnvelope, ResultStatus, rejected, validation, warning, never_retry,
}
use aieos.Domain.{Services, Supply, new, now}
use aieos.Outcomes.{unsuccessful}
use aieos.Security.{ScopeAuthorizer, require}
use aieos.Workflow.Governance.{lookup}
use aieos.Workflow.Cancel.{is_refused, of_command}
use aieos.Workflow.Payload.{payload_string, or_default}
use aieos.Workflow.Start.{one_second}

-- WorkflowClient, over a state of its own
pub record WorkflowClient (S : Type 0) : Type 0 where
  pub submit : CommandEnvelope → Exec S ResultEnvelope
  pub outcome : String → S → Option ResultEnvelope

-- InMemoryRequestRepository, what was drawn of identifiers and instants, and the client's state
pub record Requests (S : Type 0) : Type 0 where
  pub command_results : Dict String ResultEnvelope
  pub command_errors : Dict String ErrorEnvelope
  pub commands : Dict String CommandEnvelope
  pub workflow_commands : Dict String CommandEnvelope
  pub supply : Supply
  pub remote : S

abbrev pub changed : Exception
changed = value_error "CommandId cannot be reused with changed immutable content"

-- the outcome, or what was acknowledged
abbrev or_acknowledgement : Option ResultEnvelope → ResultEnvelope → ResultEnvelope
or_acknowledgement none r = r
or_acknowledgement (some o) r = o

module _ {S : Type 0} where
  abbrev draw : {A : Type 0} → Exec Supply A → Exec (Requests S) A
  draw m s = let (r, u) = m s.supply in (r, record s { supply = u })

  abbrev at_client : {A : Type 0} → Exec S A → Exec (Requests S) A
  at_client m s = let (r, u) = m s.remote in (r, record s { remote = u })

  abbrev put_result : String → ResultEnvelope → Requests S → Requests S
  put_result id r s = record s { command_results = put id r s.command_results }

  abbrev put_command : CommandEnvelope → Requests S → Requests S
  put_command c s = record s { commands = put c.command_id c s.commands }

  -- the answer of a rejection is kept
  abbrev keep_rejection :
      CommandEnvelope → ResultEnvelope × ErrorEnvelope → Exec (Requests S) ResultEnvelope
  keep_rejection c (result, error) = do
    modify (λ s. record (put_result c.command_id result (put_command c s)) {
      command_errors = put c.command_id error s.command_errors;
    })
    pure result

module _ (sv : Services) where
  abbrev rejection :
      CommandEnvelope → String → String → Exec Supply (ResultEnvelope × ErrorEnvelope)
  rejection c code message =
      unsuccessful sv rejected
        (record {
          subject = c.metadata.request_id;
          producer = "Manager";
          tenant_id = c.tenant_id;
          workspace_id = c.workspace_id;
          correlation_id = c.correlation_id;
          causation_id = c.command_id;
        })
        (record {
          error_code = code;
          category = validation;
          severity = warning;
          retry = never_retry;
          message = message;
        })
        (of_command c)

  unfoldable pub start_payload : CommandEnvelope → String → Fields
  start_payload c message = field "message" (str message) (
      field "workflow_definition_id" (str "hello-aieos") (
        field "workflow_definition_version_id" (str "hello-aieos-v1") (
          field "skill_version_id" (str "hello-aieos-skill-v1") (
            field "max_attempts" (or_default (int (pos 2)) (lookup "max_attempts" c.payload)) (
              field "timeout_seconds"
                (or_default (float one_second) (lookup "timeout_seconds" c.payload)) end)))))

  -- the command that starts the workflow, under a new identifier
  unfoldable pub start_at : CommandEnvelope → String → String → Timestamp → Result CommandEnvelope
  start_at c message id t =
      checked_metadata (record {
        request_id = c.metadata.request_id;
        idempotency_key = c.metadata.idempotency_key <> ":workflow";
        authorization = c.metadata.authorization;
        attempt_number = none;
        expires_at = none;
        trace_id = none;
        span_id = none;
        skill_version_id = none;
        authoritative_result_id = none;
        workflow_ai_budget_admission = none;
      })
      bind λ metadata. checked_command (record {
        command_id = id;
        command_type = "StartWorkflow";
        command_version = "1.0";
        correlation_id = c.correlation_id;
        causation_id = c.command_id;
        target_component = "Workflow Engine";
        initiator = "Manager";
        timestamp = t;
        tenant_id = c.tenant_id;
        workspace_id = c.workspace_id;
        payload = start_payload c message;
        metadata = metadata;
        workflow_id = none;
        workflow_step_id = none;
        execution_id = none;
      })

  unfoldable pub new_start : CommandEnvelope → String → Exec Supply CommandEnvelope
  new_start c message = do id ← new sv "command"; t ← now sv; lift (start_at c message id t)

  module _ (a : ScopeAuthorizer) {S : Type 0} (client : WorkflowClient S) where
    unfoldable pub reject : CommandEnvelope → String → String → Exec (Requests S) ResultEnvelope
    reject c code message = draw (rejection c code message) >>= keep_rejection c

    -- outcome or acknowledgement
    result_for : ResultEnvelope → Option String → S → ResultEnvelope
    result_for acknowledgement none u = acknowledgement
    result_for acknowledgement (some id) u =
        or_acknowledgement (client.outcome id u) acknowledgement

    -- what follows the submission
    unfoldable pub answer : CommandEnvelope → ResultEnvelope → Exec (Requests S) ResultEnvelope
    unfolding result_for
    answer c acknowledgement = do
      modify (λ s. put_result c.command_id acknowledgement (put_command c s))
      result ← gets (λ s. result_for acknowledgement acknowledgement.value_reference s.remote)
      modify (put_result c.command_id result)
      pure result

    unfoldable pub submit : CommandEnvelope → CommandEnvelope → Exec (Requests S) ResultEnvelope
    submit c start = at_client (client.submit start) >>= answer c

    abbrev keep_start : CommandEnvelope → CommandEnvelope → Requests S → Requests S
    keep_start c start s = record (put_command c s) {
      workflow_commands = put c.command_id start s.workflow_commands;
    }

    abbrev begin : CommandEnvelope → CommandEnvelope → Exec (Requests S) ResultEnvelope
    begin c start = do modify (keep_start c start); submit c start

    -- the command that starts the workflow is made once
    unfoldable pub accept :
        CommandEnvelope → String → Option CommandEnvelope → Exec (Requests S) ResultEnvelope
    accept c message none = draw (new_start c message) >>= begin c
    accept c message (some start) = submit c start

    unfoldable pub accept_message :
        CommandEnvelope → Result String → Exec (Requests S) ResultEnvelope
    accept_message c (err x) s =
        reject c "REQUEST_PAYLOAD_INVALID" "Request message must be a non-empty string" s
    accept_message c (ok message) s = accept c message (get c.command_id s.workflow_commands) s

    -- a command that no result answers
    unfoldable pub handle_request : CommandEnvelope → Exec (Requests S) ResultEnvelope
    handle_request c =
        if not (c.target_component == "Manager") || not (c.command_type == "AcceptRequest")
        then reject c "REQUEST_COMMAND_INVALID" "unsupported Manager Command"
        else if is_refused
            (require a c.metadata.authorization "request.accept" c.tenant_id c.workspace_id)
        then reject c "REQUEST_UNAUTHORIZED" "Request acceptance denied"
        else accept_message c (payload_string c.payload "message")

    -- a known command with other content is refused
    handle_known : CommandEnvelope → Option CommandEnvelope → Exec (Requests S) ResultEnvelope
    handle_known c none = handle_request c
    handle_known c (some d) = if not (d == c) then raise changed else handle_request c

    -- the command of a result that is kept
    handle_answered :
        CommandEnvelope → ResultEnvelope → Option CommandEnvelope → Exec (Requests S) ResultEnvelope
    unfolding handle_known
    handle_answered c r none = raise key_error
    handle_answered c r (some d) =
        if not (d == c)
        then raise changed
        else if is_some r.completed_at
        then pure r
        else handle_known c (some d)

    handle_cached :
        CommandEnvelope
        → Option ResultEnvelope
        → Option CommandEnvelope
        → Exec (Requests S) ResultEnvelope
    unfolding handle_answered handle_known
    handle_cached c none o = handle_known c o
    handle_cached c (some r) o = handle_answered c r o

    unfoldable pub handle : CommandEnvelope → Exec (Requests S) ResultEnvelope
    unfolding handle_cached
    handle c s =
        handle_cached c (get c.command_id s.command_results) (get c.command_id s.commands) s
