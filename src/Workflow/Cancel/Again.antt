-- ===== src/Workflow/Cancel/Again.antt =====
-- About `_cancel` of WorkflowEngine (engine.py), called again.
use aieos.Base.{String, false, some, string_eq, Result, ok, err, ◌≡◌, refl, sym, ◌∙◌, arith}
use mathlib.Core.Path.{subst}
use aieos.Base.Dict.{get, get-put_self}
use aieos.Base.Exec.{Exec, ◌>>=◌}
use aieos.Contracts.Commands.{CommandEnvelope}
use aieos.Contracts.Results.{ResultEnvelope, ErrorEnvelope}
use aieos.Domain.{Services, Supply}
use aieos.Security.{ScopeAuthorizer, require}
use aieos.Workflow.Instance.{WorkflowState, created, running, cancelled, WorkflowInstance, Engine}
use aieos.Workflow.Repository.{put_instance, put_receipt, remember_completed_command}
use aieos.Workflow.Cancel.{
  cancel, cancel_live, cancelled_before, cancel_by_state, cancel_found, cancel_named, draw,
  cancellation_of, out_of_scope, conclude,
}
use aieos.Workflow.Cancel.Laws.{is_final}

draw-ok :
    {A : Type 0} (m : Exec Supply A) (f : A → Exec Engine ResultEnvelope) (s : Engine)
    (r : ResultEnvelope)
    → ((draw m >>= f) s).0 ≡ ok r
    → (x : A) × (t : Engine) × ((draw m >>= f) s ≡ f x t)
draw-ok m f s r h = let (q, u) = m s.supply in at q u h
  where
    at :
        (q : Result _) (u : Supply)
        → (((λ t. (q, record t { supply = u })) >>= f) s).0 ≡ ok r
        → (x : _) × (t : Engine) × ((((λ t. (q, record t { supply = u })) >>= f) s) ≡ f x t)
    at (ok x) u h = (x, record s { supply = u }, refl)
    at (err e) u h = cc

-- the instance with the outcome of its cancellation
abbrev pub ended : WorkflowInstance → ResultEnvelope → ErrorEnvelope → WorkflowInstance
ended i r e = record i { state = cancelled; outcome = some r; error = some e }

module _ (sv : Services) (a : ScopeAuthorizer) where
  -- The command asks for the workflow `id`, in its scope, with the permission.
  pub record Asks (c : CommandEnvelope) (id : String) (i : WorkflowInstance) : Type 0 where
    pub names : c.workflow_id ≡ some id
    pub permitted :
        require a c.metadata.authorization "workflow.cancel" c.tenant_id c.workspace_id ≡ ok tt
    pub in_scope : out_of_scope c i ≡ false

  cancel-by_state :
      (c : CommandEnvelope) (id : String) (i : WorkflowInstance) (s : Engine)
      → Asks c id i
      → get id s.instances ≡ some i
      → cancel sv a c s ≡ cancel_by_state sv a c i i.state s
  unfolding cancel cancel_named cancel_found
  cancel-by_state c id i s k h =
      subst (λ o. cancel_named sv a c o s ≡ cancel_by_state sv a c i i.state s) (sym k.names)
        (rw (cancel_named, k.permitted, h, cancel_found, k.in_scope) refl)

  cancel_live-ended :
      (c : CommandEnvelope) (i : WorkflowInstance) (s : Engine) (r : ResultEnvelope)
      → (cancel_live sv a c i s).0 ≡ ok r
      → (e : ErrorEnvelope) × (get i.workflow_id (cancel_live sv a c i s).1.instances
          ≡ some (ended i r e))
  unfolding cancel_live put_instance remember_completed_command put_receipt
  cancel_live-ended c i s r h =
      let t : Engine = put_instance (record i { state = cancelled }) s in
      let ((q, e), u, p) = draw-ok (cancellation_of sv a c i) (conclude c i) t r h in
      (e, ground (arith, p, get-put_self i.workflow_id (ended i q e) u.instances))

  live-cancel_live :
      (c : CommandEnvelope) (i : WorkflowInstance) (state : WorkflowState) (s : Engine)
      → is_final state ≡ false
      → cancel_by_state sv a c i state s ≡ cancel_live sv a c i s
  unfolding cancel_by_state
  live-cancel_live c i created s o = refl
  live-cancel_live c i running s o = refl
  live-cancel_live c i _ s o = cc

  ended-answer :
      (d : CommandEnvelope) (i : WorkflowInstance) (r : ResultEnvelope) (e : ErrorEnvelope)
      (t : Engine)
      → ((cancel_by_state sv a d (ended i r e) cancelled t).0 ≡ ok r)
        × ((cancel_by_state sv a d (ended i r e) cancelled t).1.instances ≡ t.instances)
  unfolding cancel_by_state cancelled_before remember_completed_command put_receipt
  ended-answer d i r e t = (refl, refl)

  -- A cancellation of a workflow that had not ended, once it returns, has made its result the
  -- workflow's outcome. In any state in which the workflow is still held as it was then, a permitted
  -- cancellation in its scope returns that same result and leaves the workflows as they are.
  pub cancel_again :
      (c d : CommandEnvelope) (id : String) (i : WorkflowInstance) (s t : Engine)
      (r : ResultEnvelope)
      → Asks c id i
      → Asks d id i
      → get id s.instances ≡ some i
      → i.workflow_id ≡ id
      → is_final i.state ≡ false
      → (cancel sv a c s).0 ≡ ok r
      → get id t.instances ≡ get id (cancel sv a c s).1.instances
      → (e : ErrorEnvelope) × (get id t.instances ≡ some (ended i r e))
        × ((cancel sv a d t).0 ≡ ok r)
        × ((cancel sv a d t).1.instances ≡ t.instances)
  cancel_again c d id i s t r k l h w o q same =
      let live : cancel sv a c s ≡ cancel_live sv a c i s =
        cancel-by_state c id i s k h ∙ live-cancel_live c i i.state s o in
      let (e, g) = cancel_live-ended c i s r (subst (λ x. x.0 ≡ ok r) live q) in
      let held : get id t.instances ≡ some (ended i r e) =
        same
        ∙ subst (λ x. get x (cancel sv a c s).1.instances ≡ some (ended i r e)) w
            (subst (λ x. get i.workflow_id x.1.instances ≡ some (ended i r e)) (sym live) g) in
      let asks : Asks d id (ended i r e) = record {
        names = l.names;
        permitted = l.permitted;
        in_scope = l.in_scope;
      } in
      let again = cancel-by_state d id (ended i r e) t asks held in
      let (p, u) = ended-answer d i r e t in
      (
        e,
        held,
        subst (λ x. x.0 ≡ ok r) (sym again) p,
        subst (λ x. x.1.instances ≡ t.instances) (sym again) u,
      )
