-- ===== src/Workflow/Repository/Laws.antt =====
-- About the admissions and receipts of InMemoryWorkflowRepository (engine.py).
use aieos.Base.{
  String, true, false, string_beq_iff, Option, some, ◌==◌, string_eq, nat_eq, ok, ◌≡◌, ap, sym,
  Value, inl, inr, arith, if◌then◌else◌, Fields, mapping, Option-cases, ℕ, none, str, ℤ, pos,
  negsuc, ◌⊎◌, refl, Bool-cases,
}
use aieos.Base.Dict.{get, put, get-put, get-put_self}
use aieos.Contracts.Commands.{CommandEnvelope}
use aieos.Contracts.Results.{ResultEnvelope, ErrorEnvelope}
use aieos.Workflow.Governance.{lookup, is_text, is_number}
use aieos.Workflow.Governance.Text.{is_text_lem}
use aieos.Workflow.Instance.{WorkflowState, running, completed, WorkflowInstance, Engine, processed}
use aieos.Workflow.Repository.{
  authoritative_ai_admission, owns_ai_dispatch, admission_counts, is_authoritative,
  receipt_for_command, begin_command, complete_command, new_receipt, put_receipt, fields_eq,
  is_binding, is_version, misdirected, differs_from, as_integer,
}

-- The command that is being dispatched, if there is one, is that one.
abbrev pub Directed : String → String → String → Option CommandEnvelope → Type 0
Directed workflow_id command_id execution_id none = Unit
Directed workflow_id command_id execution_id (some c) =
    (c.workflow_id ≡ some workflow_id)
    × (c.command_id ≡ command_id)
    × (c.execution_id ≡ some execution_id)

-- The admission that the gateway may rely on.
pub record Authoritative (workflow_id command_id execution_id : String) (b : Fields) (s : Engine)
    : Type 0 where
  pub directed : Directed workflow_id command_id execution_id s.dispatch_context
  pub instance_ : WorkflowInstance
  pub found : get workflow_id s.instances ≡ some instance_
  pub admitted : get command_id instance_.ai_admissions ≡ some b
  pub recorded : Fields
  pub found_record : get command_id instance_.ai_admission_states ≡ some recorded
  pub counts :
      (instance_.state ≡ running
        × ((lookup "State" recorded ≡ some (str "Committed"))
            ⊎ (lookup "State" recorded ≡ some (str "GatewayAccepted"))
            ⊎ (lookup "State" recorded ≡ some (str "Settling"))))
      ⊎ (instance_.state ≡ completed × (lookup "State" recorded ≡ some (str "Reconciled")))
  pub version_bound :
      as_integer (lookup "WorkflowAdmissionStateVersion" b)
      ≡ some (pos instance_.transition_version)
  pub version_recorded :
      is_number instance_.transition_version (lookup "WorkflowAdmissionStateVersion" recorded)
      ≡ true
  pub bound : lookup "Binding" recorded ≡ some (mapping b)
  pub execution : lookup "ExecutionId" b ≡ some (str execution_id)

is_binding-eq : (b : Fields) (v : Option Value) → is_binding b v ≡ true → v ≡ some (mapping b)
is_binding-eq b (some (mapping fs)) h = ap (λ x. some (mapping x)) ((fields_eq.beq_iff fs b).0 h)
is_binding-eq b _ h = cc

-- Whether an admission's record counts, said of the workflow's state and of the record's.
counts-states :
    (i : WorkflowInstance) (state : WorkflowState) (r : Fields)
    → i.state ≡ state
    → admission_counts i r ≡ true
    → (state ≡ running
        × ((lookup "State" r ≡ some (str "Committed"))
            ⊎ (lookup "State" r ≡ some (str "GatewayAccepted"))
            ⊎ (lookup "State" r ≡ some (str "Settling"))))
      ⊎ (state ≡ completed × (lookup "State" r ≡ some (str "Reconciled")))
unfolding admission_counts
counts-states i running r p h = elim (Bool-cases (is_text "Committed" (lookup "State" r))) [
  | inl q ↦ inl (refl, inl (is_text_lem "Committed" (lookup "State" r) q))
  | inr q ↦ elim (Bool-cases (is_text "GatewayAccepted" (lookup "State" r))) [
    | inl w ↦ inl (refl, inr (inl (is_text_lem "GatewayAccepted" (lookup "State" r) w)))
    | inr w ↦
        inl
          (refl, inr (inr (is_text_lem "Settling" (lookup "State" r) (ground (arith, p, q, w, h)))))
  ]
]
counts-states i completed r p h =
    inr (refl, is_text_lem "Reconciled" (lookup "State" r) (ground (arith, p, h)))
counts-states i _ r p h = absurd (ground (arith, p, h))

differs_from_lem : (t : String) (o : Option String) → differs_from t o ≡ false → o ≡ some t
differs_from_lem t none h = cc
differs_from_lem t (some u) h = ground (arith, h, string_beq_iff u t)

misdirected-Directed :
    (w c x : String) (o : Option CommandEnvelope) → misdirected w c x o ≡ false → Directed w c x o
unfolding misdirected
misdirected-Directed w c x none h = tt
misdirected-Directed w c x (some d) h = (
  differs_from_lem w d.workflow_id (ground (arith, h)),
  ground (arith, h, string_beq_iff d.command_id c),
  differs_from_lem x d.execution_id (ground (arith, h)),
)

-- An admission is returned only under no other dispatch.
admission-Directed :
    (w c x : String) (b : Fields) (s : Engine)
    → authoritative_ai_admission w c x s ≡ some b
    → Directed w c x s.dispatch_context
unfolding authoritative_ai_admission
admission-Directed w c x b s h = elim (Bool-cases (misdirected w c x s.dispatch_context)) [
  | inl p ↦ absurd (ground (arith, p, h))
  | inr p ↦ misdirected-Directed w c x s.dispatch_context p
]

is_version_lem : (n : ℕ) (o : Option ℤ) → is_version n o ≡ true → o ≡ some (pos n)
is_version_lem n none h = cc
is_version_lem n (some (pos m)) h = ground (arith, h)
is_version_lem n (some (negsuc m)) h = cc

module _ (workflow_id command_id execution_id : String) where
  -- What is returned as authoritative is the admission of that very command in the workflow's
  -- instance, for that execution. The binding and its record have the instance's version, the record
  -- says the same binding, and either the workflow runs and the record is Committed, GatewayAccepted
  -- or Settling, or the workflow is completed and the record is Reconciled. While the engine
  -- dispatches a command, it is that very command. Such a dispatch is always recognised as the
  -- engine's own.
  pub admission-Authoritative :
      (b : Fields) (s : Engine)
      → authoritative_ai_admission workflow_id command_id execution_id s ≡ some b
      → Authoritative workflow_id command_id execution_id b s
        × (owns_ai_dispatch (some workflow_id) command_id s ≡ true)
  unfolding authoritative_ai_admission is_authoritative owns_ai_dispatch
  admission-Authoritative b s h = elim (Option-cases (get workflow_id s.instances)) [
    | inl p ↦ absurd (ground arith)
    | inr (i, p) ↦ elim (Option-cases (get command_id i.ai_admissions)) [
      | inl q ↦ absurd (ground arith)
      | inr (d, q) ↦ elim (Option-cases (get command_id i.ai_admission_states)) [
        | inl r ↦ absurd (ground arith)
        | inr (e, r) ↦
            let sure : (is_authoritative i d e execution_id ≡ true) × (d ≡ b) = ground arith in
            let bound : is_binding d (lookup "Binding" e) ≡ true = ground (arith, sure.0) in
            (
              record {
                directed = admission-Directed workflow_id command_id execution_id b s h;
                instance_ = i;
                found = p;
                admitted = rw (sym sure.1) q;
                recorded = e;
                found_record = r;
                counts = counts-states i i.state e refl (ground (arith, sure.0));
                version_bound = rw (sym sure.1) (
                    is_version_lem i.transition_version
                      (as_integer (lookup "WorkflowAdmissionStateVersion" d))
                      (ground (arith, sure.0)));
                version_recorded = ground (arith, sure.0);
                bound = rw (sym sure.1) (is_binding-eq d (lookup "Binding" e) bound);
                execution =
                    rw (sym sure.1)
                      (is_text_lem execution_id (lookup "ExecutionId" d) (ground (arith, sure.0)));
              },
              ground arith,
            )
      ]
    ]
  ]

-- A command that is begun and then completed leaves one complete receipt with its result, and every
-- other receipt as it was.
pub complete-begin :
    (c : CommandEnvelope) (r : ResultEnvelope) (w : String) (e : Option ErrorEnvelope) (s : Engine)
    (id : String)
    → let t = (begin_command c r w e s).1 in
      ((complete_command c.command_id t).0 ≡ ok r)
      × (receipt_for_command id (complete_command c.command_id t).1 ≡ (
          if c.command_id == id
          then some (record (new_receipt c r w e) { state = processed })
          else receipt_for_command id s))
unfolding begin_command complete_command receipt_for_command put_receipt
complete-begin c r w e s id = ground (
  arith,
  get-put_self c.command_id (new_receipt c r w e) s.command_receipts,
  get-put c.command_id id (new_receipt c r w e) s.command_receipts,
  get-put c.command_id id (record (new_receipt c r w e) { state = processed })
      (put c.command_id (new_receipt c r w e) s.command_receipts),
)
