-- ===== src/Manager/Starts.antt =====
-- About the command that Manager (manager.py) starts a workflow with.
use aieos.Base.{
  String, not, ◌||◌, Option, some, none, ◌==◌, string_eq, string_beq_iff, Result, ok, err,
  if◌then◌else◌, ◌≡◌, refl, arith, is_some,
}
use aieos.Base.Dict.{get, get-put}
use aieos.Base.Exec.{pure, raise, ◌>>=◌}
use aieos.Base.Exec.Keeps.{Keeps, bind-Keeps, if_Keeps}
use aieos.Contracts.Commands.{CommandEnvelope, command_eq}
use aieos.Contracts.Results.{ResultEnvelope}
use aieos.Domain.{Services}
use aieos.Security.{ScopeAuthorizer, require}
use aieos.Workflow.Cancel.{is_refused}
use aieos.Workflow.Payload.{payload_string}
use aieos.Manager.{
  WorkflowClient, Requests, changed, draw, at_client, keep_rejection, rejection, new_start, reject,
  answer, submit, begin, keep_start, accept, accept_message, handle_request, handle_known,
  handle_answered, handle_cached, handle,
}

module _ (sv : Services) (a : ScopeAuthorizer) {S : Type 0} (client : WorkflowClient S)
    (id : String) (start : CommandEnvelope) where
  -- The command is kept as the start of that request.
  abbrev pub Started : Requests S → Type 0
  Started s = get id s.workflow_commands ≡ some start

  reject-Keeps :
      (c : CommandEnvelope) (code message : String)
      → Keeps Started (reject sv a client c code message)
  unfolding reject
  reject-Keeps c code message =
      bind-Keeps Started (draw (rejection sv c code message)) (keep_rejection c) (λ s h. h)
        (λ x s h. h)

  submit-Keeps : (c d : CommandEnvelope) → Keeps Started (submit sv a client c d)
  unfolding submit answer
  submit-Keeps c d =
      bind-Keeps Started (at_client (client.submit d)) (answer sv a client c) (λ s h. h)
        (λ x s h. h)

  accept-Keeps :
      (c : CommandEnvelope) (message : String) (o : Option CommandEnvelope) (s : Requests S)
      → get c.command_id s.workflow_commands ≡ o
      → Started s
      → Started (accept sv a client c message o s).1
  unfolding accept
  accept-Keeps c message (some d) s g h = submit-Keeps c d s h
  accept-Keeps c message none s g h =
      let (q, u) = new_start sv c message s.supply in at q (record s { supply = u }) g h
    where
      at :
          (q : Result CommandEnvelope) (t : Requests S)
          → get c.command_id t.workflow_commands ≡ none
          → Started t
          → Started (((λ v. (q, v)) >>= begin sv a client c) t).1
      at (err x) t g h = h
      at (ok d) t g h = submit-Keeps c d (keep_start sv a client c d t) (
          ground (
            arith,
            get-put c.command_id id d t.workflow_commands,
            string_beq_iff c.command_id id,
            g,
            h,
          ))

  message-Keeps :
      (c : CommandEnvelope) (m : Result String) → Keeps Started (accept_message sv a client c m)
  unfolding accept_message
  message-Keeps c (err x) s h = reject-Keeps c _ _ s h
  message-Keeps c (ok message) s h =
      accept-Keeps c message (get c.command_id s.workflow_commands) s refl h

  request-Keeps : (c : CommandEnvelope) → Keeps Started (handle_request sv a client c)
  unfolding handle_request
  request-Keeps c =
      if_Keeps Started
        (not (c.target_component == "Manager") || not (c.command_type == "AcceptRequest"))
        (reject sv a client c "REQUEST_COMMAND_INVALID" "unsupported Manager Command")
        (if is_refused
            (require a c.metadata.authorization "request.accept" c.tenant_id c.workspace_id)
          then reject sv a client c "REQUEST_UNAUTHORIZED" "Request acceptance denied"
          else accept_message sv a client c (payload_string c.payload "message"))
        (λ _. reject-Keeps c _ _)
        (λ _.
          if_Keeps Started
            (is_refused
              (require a c.metadata.authorization "request.accept" c.tenant_id c.workspace_id))
            (reject sv a client c "REQUEST_UNAUTHORIZED" "Request acceptance denied")
            (accept_message sv a client c (payload_string c.payload "message"))
            (λ _. reject-Keeps c _ _) (λ _. message-Keeps c (payload_string c.payload "message")))

  known-Keeps :
      (c : CommandEnvelope) (o : Option CommandEnvelope)
      → Keeps Started (handle_known sv a client c o)
  unfolding handle_known
  known-Keeps c none = request-Keeps c
  known-Keeps c (some d) =
      if_Keeps Started (not (d == c)) (raise changed) (handle_request sv a client c) (λ _ s h. h)
        (λ _. request-Keeps c)

  cached-Keeps :
      (c : CommandEnvelope) (r : Option ResultEnvelope) (o : Option CommandEnvelope)
      → Keeps Started (handle_cached sv a client c r o)
  unfolding handle_cached handle_answered
  cached-Keeps c none o = known-Keeps c o
  cached-Keeps c (some r) none = λ s h. h
  cached-Keeps c (some r) (some d) =
      if_Keeps Started (not (d == c)) (raise changed)
        (if is_some r.completed_at then pure r else handle_known sv a client c (some d))
        (λ _ s h. h)
        (λ _.
          if_Keeps Started (is_some r.completed_at) (pure r) (handle_known sv a client c (some d))
            (λ _ s h. h) (λ _. known-Keeps c (some d)))

  -- The command that a request's workflow is started with, once made, is never replaced by another,
  -- whatever command is handled afterwards and however that ends.
  pub handle_keeps_start :
      (c : CommandEnvelope) (s : Requests S) → Started s → Started (handle sv a client c s).1
  unfolding handle
  handle_keeps_start c s h =
      cached-Keeps c (get c.command_id s.command_results) (get c.command_id s.commands) s h
