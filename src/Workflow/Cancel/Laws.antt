-- ===== src/Workflow/Cancel/Laws.antt =====
-- About `_cancel` of WorkflowEngine (engine.py).
use aieos.Base.{
  String, Bool, true, false, Option, some, none, string_eq, string_beq_iff, Result, ok, err, ◌≡◌,
  ◌≢◌, refl, sym, arith, inl, inr, Bool-cases,
}
use mathlib.Core.Path.{subst}
use aieos.Base.Dict.{Dict, get, get-put}
use aieos.Base.Exec.{Exec, ◌>>=◌}
use aieos.Contracts.Commands.{CommandEnvelope}
use aieos.Contracts.Results.{ResultEnvelope}
use aieos.Domain.{Services, Supply}
use aieos.Security.{ScopeAuthorizer, require}
use aieos.Workflow.Instance.{
  WorkflowState, created, running, completed, failed, cancelled, WorkflowInstance, Engine,
}
use aieos.Workflow.Repository.{put_instance, put_receipt, remember_completed_command}
use aieos.Workflow.Cancel.{
  reject, cancel, cancel_live, cancelled_before, cancel_by_state, cancel_found, cancel_named, draw,
  rejection, cancellation_of, out_of_scope, is_refused, answer, conclude,
}

abbrev pub is_final : WorkflowState → Bool
is_final completed = true
is_final failed = true
is_final cancelled = true
is_final _ = false

-- What is drawn does not touch the instances.
draw-instances :
    {A : Type 0} (m : Exec Supply A) (f : A → Exec Engine ResultEnvelope) (s : Engine)
    (P : Dict String WorkflowInstance → Type 0)
    → P s.instances
    → ((x : A) (t : Engine) → t.instances ≡ s.instances → P (f x t).1.instances)
    → P ((draw m >>= f) s).1.instances
draw-instances m f s P h k = let (r, u) = m s.supply in at r u
  where
    at : (r : Result _) (u : Supply) → P (((λ t. (r, record t { supply = u })) >>= f) s).1.instances
    at (ok x) u = k x (record s { supply = u }) refl
    at (err e) u = h

-- Each workflow is kept under its own identifier.
abbrev pub Keyed : Engine → Type 0
Keyed s = (k : String) (j : WorkflowInstance) → get k s.instances ≡ some j → j.workflow_id ≡ k

abbrev Holds : String → WorkflowInstance → Dict String WorkflowInstance → Type 0
Holds id i d = get id d ≡ some i

module _ (sv : Services) (a : ScopeAuthorizer) (id : String) (i : WorkflowInstance)
    (final : is_final i.state ≡ true) where
  reject_keeps :
      (c : CommandEnvelope) (code message : String) (s : Engine)
      → Holds id i s.instances
      → Holds id i (reject sv a c code message s).1.instances
  unfolding reject remember_completed_command put_receipt
  reject_keeps c code message s h =
      draw-instances (rejection sv a c code message) (answer c) s (Holds id i) h
        (λ x t e. subst (Holds id i) (sym e) h)

  cancel_live_keeps :
      (c : CommandEnvelope) (j : WorkflowInstance) (s : Engine)
      → j.workflow_id ≢ id
      → Holds id i s.instances
      → Holds id i (cancel_live sv a c j s).1.instances
  unfolding cancel_live put_instance remember_completed_command put_receipt
  cancel_live_keeps c j s ne h =
      let t : Engine = put_instance (record j { state = cancelled }) s in
      let once : Holds id i t.instances = ground (
        arith,
        get-put j.workflow_id id (record j { state = cancelled }) s.instances,
        string_beq_iff j.workflow_id id,
      ) in
      draw-instances (cancellation_of sv a c j) (conclude c j) t (Holds id i) once (λ (r, x) u e.
        ground (
          arith,
          string_beq_iff j.workflow_id id,
          get-put j.workflow_id id
              (record j { state = cancelled; outcome = some r; error = some x }) u.instances,
          subst (Holds id i) (sym e) once,
        ))

  cancelled_before_keeps :
      (c : CommandEnvelope) (j : WorkflowInstance) (o : Option ResultEnvelope) (s : Engine)
      → Holds id i s.instances
      → Holds id i (cancelled_before sv a c j o s).1.instances
  unfolding cancelled_before remember_completed_command put_receipt
  cancelled_before_keeps c j none s h = h
  cancelled_before_keeps c j (some o) s h = h

  by_state_keeps :
      (c : CommandEnvelope) (j : WorkflowInstance) (state : WorkflowState) (s : Engine)
      → (is_final state ≡ false → j.workflow_id ≢ id)
      → Holds id i s.instances
      → Holds id i (cancel_by_state sv a c j state s).1.instances
  unfolding cancel_by_state
  by_state_keeps c j cancelled s ne h = cancelled_before_keeps c j j.outcome s h
  by_state_keeps c j completed s ne h = reject_keeps c _ _ s h
  by_state_keeps c j failed s ne h = reject_keeps c _ _ s h
  by_state_keeps c j created s ne h = cancel_live_keeps c j s (ne refl) h
  by_state_keeps c j running s ne h = cancel_live_keeps c j s (ne refl) h

  found_keeps :
      (c : CommandEnvelope) (o : Option WorkflowInstance) (s : Engine)
      → ((j : WorkflowInstance) → o ≡ some j → is_final j.state ≡ false → j.workflow_id ≢ id)
      → Holds id i s.instances
      → Holds id i (cancel_found sv a c o s).1.instances
  unfolding cancel_found
  found_keeps c none s ne h = reject_keeps c _ _ s h
  found_keeps c (some j) s ne h = elim (Bool-cases (out_of_scope c j)) [
    | inl p ↦ rw (p, cancel_found) (reject_keeps c _ _ s h)
    | inr p ↦ rw (p, cancel_found) (by_state_keeps c j j.state s (ne j refl) h)
  ]

  named_keeps :
      (c : CommandEnvelope) (w : Option String) (s : Engine)
      → Keyed s
      → Holds id i s.instances
      → Holds id i (cancel_named sv a c w s).1.instances
  unfolding cancel_named
  named_keeps c none s k h = reject_keeps c _ _ s h
  named_keeps c (some w) s k h =
      elim (Bool-cases (
        is_refused
          (require a c.metadata.authorization "workflow.cancel" c.tenant_id c.workspace_id))) [
            | inl p ↦ rw (p, cancel_named) (reject_keeps c _ _ s h)
            | inr p ↦
                rw (p, cancel_named)
                  (found_keeps c (get w s.instances) s (λ j e open_ same. ground (arith, k w j e))
                    h)
          ]

  -- A cancellation, whoever asks for it and however it is answered, leaves a workflow that is
  -- completed, failed or cancelled as it was, in a repository that keeps each workflow under its own
  -- identifier.
  pub cancel_keeps_final :
      (c : CommandEnvelope) (s : Engine)
      → Keyed s
      → get id s.instances ≡ some i
      → get id (cancel sv a c s).1.instances ≡ some i
  unfolding cancel
  cancel_keeps_final c s k h = named_keeps c c.workflow_id s k h
