-- ===== src/Workflow/Command/Admission.antt =====
-- About the command of an attempt (engine.py).
use aieos.Base.{
  String, Option, string_eq, Result, ok, err, Timestamp, Fields, ◌≡◌, ap, ◌∙◌, arith, inl, inr,
  Result-cases, ◌>>=◌ as ◌bind◌,
}
use aieos.Contracts.Commands.{CommandEnvelope, CommandMetadata, checked_command, checked_metadata}
use aieos.Workflow.Governance.{lookup}
use aieos.Workflow.Instance.{WorkflowInstance}
use aieos.Workflow.Payload.{Library}
use aieos.Workflow.Command.{
  command_at, metadata_of, envelope_of, with_payload, with_result, attempt_payload,
  as_optional_text,
}

checked-command : (c d : CommandEnvelope) → checked_command c ≡ ok d → d ≡ c
unfolding checked_command
checked-command c d h = ground (arith, h)

checked-metadata : (m n : CommandMetadata) → checked_metadata m ≡ ok n → n ≡ m
unfolding checked_metadata
checked-metadata m n h = ground (arith, h)

bind-ok_result :
    {A B : Type 0} (r : Result A) (f : A → Result B) (b : B)
    → (r bind f) ≡ ok b
    → (x : A) × (f x ≡ ok b)
bind-ok_result (ok x) f b h = (x, h)
bind-ok_result (err x) f b h = cc

module _ (lib : Library) where
  -- The command carries the admission under its own identity.
  pub command_at-admission :
      (i : WorkflowInstance) (cause id execution_id : String) (b : Option Fields) (t : Timestamp)
      (c : CommandEnvelope)
      → command_at lib i cause id execution_id b t ≡ ok c
      → (c.command_id ≡ id) × (c.metadata.workflow_ai_budget_admission ≡ b)
  unfolding command_at metadata_of envelope_of
  command_at-admission i cause id execution_id b t c h =
      let (payload, p) =
        bind-ok_result (attempt_payload lib i) (with_payload lib i cause id execution_id b t) c h in
      let (r, q) =
        bind-ok_result (as_optional_text (lookup "authoritative_result_id" i.input_payload))
          (with_result lib i cause id execution_id b t payload) c p in
      elim (Result-cases (checked_metadata (metadata_of lib i r b))) [
        | inr (x, e) ↦ absurd (ground (arith, e, q))
        | inl (m, e) ↦
            let made : c ≡ envelope_of lib i cause id execution_id t payload m =
              checked-command (envelope_of lib i cause id execution_id t payload m) c
                (ground (arith, e, q)) in
            (
              ap (λ x. x.command_id) made,
              ap (λ x. x.metadata.workflow_ai_budget_admission) made
                  ∙ ap (λ x. x.workflow_ai_budget_admission)
                      (checked-metadata (metadata_of lib i r b) m e),
            )
      ]
