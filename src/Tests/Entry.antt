-- ===== src/Tests/Entry.antt =====
-- The Manager.
use aieos.Base.{
  true, some, none, [], ◌∷◌, ◌==◌, string_eq, ok, err, runtime_error, ◌≡◌, refl, if◌then◌else◌,
  field, str, end,
}
use aieos.Base.Dict.{get, put}
use aieos.Contracts.Commands.{CommandEnvelope, command_eq}
use aieos.Contracts.Results.{ResultEnvelope}
use aieos.Domain.{new, now}
use aieos.Manager.{
  WorkflowClient, Requests, changed, handle, handle_request, accept_message, accept, submit, answer,
}
use aieos.Workflow.Payload.{payload_string}
use aieos.Workflow.Governance.{lookup}
use aieos.Manager.Again.{request_again}
use aieos.Manager.Starts.{handle_keeps_start}
use aieos.Security.{require}
use aieos.Tests.Samples.{alice, services, supply, a_command, an_acknowledgement}
use aieos.Tests.Flows.{authorizer}

-- a client whose workflow engine does not answer
abbrev offline : WorkflowClient (Unit {0})
offline = record { submit = λ c s. (err (runtime_error "offline"), s); outcome = λ id s. none }

-- a client that acknowledges
abbrev online : WorkflowClient (Unit {0})
online = record {
  submit = λ c s. (ok (record an_acknowledgement { value_reference = some "workflow_1" }), s);
  outcome = λ id s.
      some
        (record an_acknowledgement { completed_at = some (record { instant = 3; aware = true }) });
}

abbrev a_request : CommandEnvelope
a_request = record a_command {
  command_type = "AcceptRequest";
  target_component = "Manager";
  payload = field "message" (str "Hello") end;
  metadata = record a_command.metadata {
    authorization = record alice { permissions = "request.accept" ∷ [] };
  };
}

abbrev requests : Requests (Unit {0})
requests = record {
  command_results = [];
  command_errors = [];
  commands = [];
  workflow_commands = ("command_1", a_command) ∷ [];
  supply = supply;
  remote = tt;
}

abbrev an_outcome : ResultEnvelope
an_outcome = record an_acknowledgement {
  completed_at = some (record { instant = 3; aware = true });
}

request_again_example :
    let t = (handle services authorizer online a_request requests).1 in
    handle services authorizer online a_request t
    ≡ (if a_request == a_request then ok an_outcome else err changed, t)
unfolding handle handle_request accept_message accept submit answer require payload_string lookup
    get put new now
request_again_example =
    request_again services authorizer online a_request a_request requests an_outcome refl refl refl

handle_keeps_start_example :
    get "command_1" (handle services authorizer offline a_request requests).1.workflow_commands
    ≡ some a_command
unfolding get
handle_keeps_start_example =
    handle_keeps_start services authorizer offline "command_1" a_command a_request requests refl
