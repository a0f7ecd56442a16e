-- ===== src/Manager/Again.antt =====
-- About `handle` of Manager (manager.py), called again with the same CommandId.
use aieos.Base.{
  String, Bool, true, false, not, ◌||◌, Option, some, none, ◌==◌, string_eq, Exception, Result, ok,
  err, if◌then◌else◌, ◌≡◌, refl, sym, arith, is_some, inl, inr, Option-cases, Bool-cases,
}
use mathlib.Core.Path.{subst}
use aieos.Base.Dict.{get, put, get-put_self}
use aieos.Base.Exec.{Exec, raise, modify, ◌>>=◌, bind-ok}
use aieos.Contracts.Commands.{CommandEnvelope, command_eq}
use aieos.Contracts.Results.{ResultEnvelope}
use aieos.Domain.{Services}
use aieos.Security.{ScopeAuthorizer, require}
use aieos.Workflow.Cancel.{is_refused}
use aieos.Workflow.Payload.{payload_string}
use aieos.Manager.{
  WorkflowClient, Requests, changed, draw, at_client, keep_rejection, rejection, new_start, reject,
  answer, submit, begin, keep_start, accept, accept_message, handle_request, handle_known,
  handle_answered, handle_cached, handle, result_for,
}

-- The command and its result are kept.
abbrev Answered : {S : Type 0} → CommandEnvelope → ResultEnvelope → Requests S → Type 0
Answered c r s =
    (get c.command_id s.commands ≡ some c) × (get c.command_id s.command_results ≡ some r)

module _ (sv : Services) (a : ScopeAuthorizer) {S : Type 0} (client : WorkflowClient S)
    (c : CommandEnvelope) where
  -- What the method returns is kept.
  abbrev Answers : Exec (Requests S) ResultEnvelope → Type 0
  Answers m = (s : Requests S) (r : ResultEnvelope) → (m s).0 ≡ ok r → Answered c r (m s).1

  bind-Answers :
      {A : Type 0} (m : Exec (Requests S) A) (f : A → Exec (Requests S) ResultEnvelope)
      → ((x : A) → Answers (f x))
      → Answers (m >>= f)
  bind-Answers m f k s r h =
      let (x, p, e) = bind-ok m f s h in
      subst (λ q. Answered c r q.1) (sym e) (k x (m s).1 r (subst (λ q. q.0 ≡ ok r) e h))

  if_Answers :
      (b : Bool) (m n : Exec (Requests S) ResultEnvelope)
      → Answers m
      → Answers n
      → Answers (if b then m else n)
  if_Answers true m n h k = h
  if_Answers false m n h k = k

  raise-Answers : (x : Exception) → Answers (raise x)
  raise-Answers x s r h = cc

  reject-Answers : (code message : String) → Answers (reject sv a client c code message)
  unfolding reject
  reject-Answers code message =
      bind-Answers (draw (rejection sv c code message)) (keep_rejection c) (λ (r, e) s q h. (
        get-put_self c.command_id c s.commands,
        ground (arith, h, get-put_self c.command_id r s.command_results),
      ))

  answer-Answers : (k : ResultEnvelope) → Answers (answer sv a client c k)
  unfolding answer
  answer-Answers k s q h = (
    get-put_self c.command_id c s.commands,
    ground (
      arith,
      h,
      get-put_self c.command_id (result_for sv a client k k.value_reference s.remote)
          (put c.command_id k s.command_results),
    ),
  )

  submit-Answers : (start : CommandEnvelope) → Answers (submit sv a client c start)
  unfolding submit
  submit-Answers start =
      bind-Answers (at_client (client.submit start)) (answer sv a client c) answer-Answers

  accept-Answers :
      (message : String) (o : Option CommandEnvelope) → Answers (accept sv a client c message o)
  unfolding accept
  accept-Answers message (some start) = submit-Answers start
  accept-Answers message none =
      bind-Answers (draw (new_start sv c message)) (begin sv a client c) (λ start.
        bind-Answers (modify (keep_start sv a client c start)) (λ _. submit sv a client c start)
          (λ _. submit-Answers start))

  message-Answers : (m : Result String) → Answers (accept_message sv a client c m)
  unfolding accept_message
  message-Answers (err x) s r h = reject-Answers _ _ s r h
  message-Answers (ok message) s r h =
      accept-Answers message (get c.command_id s.workflow_commands) s r h

  request-Answers : Answers (handle_request sv a client c)
  unfolding handle_request
  request-Answers =
      if_Answers (not (c.target_component == "Manager") || not (c.command_type == "AcceptRequest"))
        (reject sv a client c "REQUEST_COMMAND_INVALID" "unsupported Manager Command")
        (if is_refused
            (require a c.metadata.authorization "request.accept" c.tenant_id c.workspace_id)
          then reject sv a client c "REQUEST_UNAUTHORIZED" "Request acceptance denied"
          else accept_message sv a client c (payload_string c.payload "message"))
        (reject-Answers _ _)
        (if_Answers
          (is_refused
            (require a c.metadata.authorization "request.accept" c.tenant_id c.workspace_id))
          (reject sv a client c "REQUEST_UNAUTHORIZED" "Request acceptance denied")
          (accept_message sv a client c (payload_string c.payload "message")) (reject-Answers _ _)
          (message-Answers (payload_string c.payload "message")))

  known-Answers : (o : Option CommandEnvelope) → Answers (handle_known sv a client c o)
  unfolding handle_known
  known-Answers none = request-Answers
  known-Answers (some d) =
      if_Answers (not (d == c)) (raise changed) (handle_request sv a client c)
        (raise-Answers changed) request-Answers

  handle_answered-Answers :
      (k : ResultEnvelope) (o : Option CommandEnvelope) (s : Requests S) (r : ResultEnvelope)
      → get c.command_id s.commands ≡ o
      → get c.command_id s.command_results ≡ some k
      → (handle_answered sv a client c k o s).0 ≡ ok r
      → Answered c r (handle_answered sv a client c k o s).1
  unfolding handle_answered
  handle_answered-Answers k none s r g p h = cc
  handle_answered-Answers k (some d) s r g p h = elim (Bool-cases (command_eq.beq d c)) [
    | inr q ↦ absurd (ground (arith, q, h))
    | inl q ↦ elim (Bool-cases (is_some k.completed_at)) [
      | inr e ↦ rw (q, e) (request-Answers s r (rw (q, e) at h))
      | inl e ↦
          rw (q, e)
            (rw g (ground (arith, (command_eq.beq_iff d c).0 q)), rw p (ground (arith, q, e, h)))
    ]
  ]

  handle-Answers : Answers (handle sv a client c)
  unfolding handle handle_cached
  handle-Answers s r h = elim (Option-cases (get c.command_id s.command_results)) [
    | inl p ↦
        rw (p, handle_cached)
          (known-Answers (get c.command_id s.commands) s r (rw (p, handle_cached) at h))
    | inr (k, p) ↦
        rw (p, handle_cached)
          (handle_answered-Answers k (get c.command_id s.commands) s r refl p
            (rw (p, handle_cached) at h))
  ]

  replayed :
      (d : CommandEnvelope) (r : ResultEnvelope) (s : Requests S)
      → get d.command_id s.commands ≡ some c
      → get d.command_id s.command_results ≡ some r
      → (is_some r.completed_at || not (c == d)) ≡ true
      → handle sv a client d s ≡ (if c == d then ok r else err changed, s)
  unfolding handle handle_cached handle_answered
  replayed d r s p q h = rw (p, q, handle_cached, handle_answered) (ground (arith, h))

  -- Once `handle` has returned a result for a request, a later command of the same CommandId
  -- changes nothing: it gets that result, if it is the same command and the result is a
  -- completed one, and is refused if its content is another.
  pub request_again :
      (d : CommandEnvelope) (s : Requests S) (r : ResultEnvelope)
      → (handle sv a client c s).0 ≡ ok r
      → d.command_id ≡ c.command_id
      → (is_some r.completed_at || not (c == d)) ≡ true
      → handle sv a client d (handle sv a client c s).1
        ≡ (if c == d then ok r else err changed, (handle sv a client c s).1)
  request_again d s r h e k =
      let (p, q) = handle-Answers s r h in
      replayed d r (handle sv a client c s).1 (rw e p) (rw e q) k
