-- ===== src/Workflow/Cancel/Answers.antt =====
-- About the receipts of `_reject` and `_cancel` of WorkflowEngine (engine.py).
use aieos.Base.{
  String, Option, some, none, string_eq, ok, Exception, ◌≡◌, refl, sym, arith, Bool-cases, inl, inr,
}
use mathlib.Core.Path.{subst}
use aieos.Base.Dict.{get, get-put_self}
use aieos.Base.Exec.{Exec, pure, raise, modify, ◌>>=◌, ◌>>◌, bind-ok}
use aieos.Contracts.Commands.{CommandEnvelope, command_eq}
use aieos.Contracts.Results.{ResultEnvelope, ErrorEnvelope}
use aieos.Domain.{Services}
use aieos.Security.{ScopeAuthorizer, require}
use aieos.Workflow.Instance.{
  WorkflowState, created, running, completed, failed, cancelled, processed, WorkflowInstance,
  WorkflowCommandReceipt, Engine,
}
use aieos.Workflow.Repository.{remember_completed_command, new_receipt, put_receipt}
use aieos.Workflow.Cancel.{
  reject, cancel, cancel_live, cancelled_before, cancel_by_state, cancel_found, cancel_named, draw,
  rejection, cancellation_of, out_of_scope, is_refused, answer, conclude,
}

-- A complete receipt of the command with that result is kept under its identifier.
abbrev pub Remembered : CommandEnvelope → ResultEnvelope → Engine → Type 0
Remembered c r s =
    (rc : WorkflowCommandReceipt) × (get c.command_id s.command_receipts ≡ some rc)
    × (rc.command ≡ c)
    × (rc.state ≡ processed)
    × (rc.result ≡ r)

-- What the method returns is remembered for the command.
abbrev pub Answers : {S : Type 0} → (S → Engine) → CommandEnvelope → Exec S ResultEnvelope → Type 0
Answers {S} view c m = (s : S) (r : ResultEnvelope) → (m s).0 ≡ ok r → Remembered c r (view (m s).1)

module _ {S : Type 0} (view : S → Engine) (c : CommandEnvelope) where
  pub bind-Answers :
      {A : Type 0} (m : Exec S A) (f : A → Exec S ResultEnvelope)
      → ((x : A) → Answers view c (f x))
      → Answers view c (m >>= f)
  bind-Answers m f k s r h =
      let (x, p, e) = bind-ok m f s h in
      subst (λ q. Remembered c r (view q.1)) (sym e) (k x (m s).1 r (subst (λ q. q.0 ≡ ok r) e h))

  -- what holds of every value that the last call returns
  pub bind_returns :
      {A B : Type 0} (P : B → Type 0) (m : Exec S A) (f : A → Exec S B)
      → ((x : A) (s : S) (b : B) → (f x s).0 ≡ ok b → P b)
      → (s : S) (b : B) → ((m >>= f) s).0 ≡ ok b
      → P b
  bind_returns P m f k s b h =
      let (x, p, e) = bind-ok m f s h in k x (m s).1 b (subst (λ q. q.0 ≡ ok b) e h)

  pub raise-Answers : (x : Exception) → Answers view c (raise x)
  raise-Answers x s r h = cc

abbrev pub own : Engine → Engine
own s = s

module _ (sv : Services) (a : ScopeAuthorizer) (c : CommandEnvelope) where
  remember-Answers :
      (r : ResultEnvelope) (w : String) (e : Option ErrorEnvelope)
      → Answers own c (do remember_completed_command c r w e; pure r)
  unfolding remember_completed_command put_receipt
  remember-Answers r w e s q h =
      let rc : WorkflowCommandReceipt = record (new_receipt c r w e) { state = processed } in
      (rc, get-put_self c.command_id rc s.command_receipts, refl, refl, ground (arith, h))

  pub reject-Answers : (code message : String) → Answers own c (reject sv a c code message)
  unfolding reject
  reject-Answers code message =
      bind-Answers own c (draw (rejection sv a c code message)) (answer c)
        (λ (result, e). remember-Answers result _ (some e))

  live-Answers : (i : WorkflowInstance) → Answers own c (cancel_live sv a c i)
  unfolding cancel_live
  live-Answers i =
      bind-Answers own c (modify _) (λ _. draw (cancellation_of sv a c i) >>= conclude c i)
        (λ _. bind-Answers own c (draw (cancellation_of sv a c i)) (conclude c i) (λ (result, e).
          bind-Answers own c (modify _)
            (λ _. do remember_completed_command c result i.workflow_id (some e); pure result)
            (λ _. remember-Answers result i.workflow_id (some e))))

  before-Answers :
      (i : WorkflowInstance) (o : Option ResultEnvelope)
      → Answers own c (cancelled_before sv a c i o)
  unfolding cancelled_before
  before-Answers i none = raise-Answers own c _
  before-Answers i (some r) = remember-Answers r i.workflow_id i.error

  by_state-Answers :
      (i : WorkflowInstance) (state : WorkflowState)
      → Answers own c (cancel_by_state sv a c i state)
  unfolding cancel_by_state
  by_state-Answers i cancelled = before-Answers i i.outcome
  by_state-Answers i completed = reject-Answers _ _
  by_state-Answers i failed = reject-Answers _ _
  by_state-Answers i created = live-Answers i
  by_state-Answers i running = live-Answers i

  found-Answers : (o : Option WorkflowInstance) → Answers own c (cancel_found sv a c o)
  unfolding cancel_found
  found-Answers none s r h = reject-Answers _ _ s r h
  found-Answers (some i) s r h = elim (Bool-cases (out_of_scope c i)) [
    | inl p ↦ rw (p, cancel_found) (reject-Answers _ _ s r (rw (p, cancel_found) at h))
    | inr p ↦ rw (p, cancel_found) (by_state-Answers i i.state s r (rw (p, cancel_found) at h))
  ]

  named-Answers : (w : Option String) → Answers own c (cancel_named sv a c w)
  unfolding cancel_named
  named-Answers none s r h = reject-Answers _ _ s r h
  named-Answers (some w) s r h =
      elim (Bool-cases (
        is_refused
          (require a c.metadata.authorization "workflow.cancel" c.tenant_id c.workspace_id))) [
            | inl p ↦ rw (p, cancel_named) (reject-Answers _ _ s r (rw (p, cancel_named) at h))
            | inr p ↦
                rw (p, cancel_named)
                  (found-Answers (get w s.instances) s r (rw (p, cancel_named) at h))
          ]

  pub cancel-Answers : Answers own c (cancel sv a c)
  unfolding cancel
  cancel-Answers = named-Answers c.workflow_id
