-- ===== src/Workflow/Attempt/Ceiling.antt =====
-- About the admissions that `_create_attempt_command` (engine.py) makes.
use aieos.Base.{
  ℕ, ◌+◌, ◌≤◌, String, true, false, some, [], ◌∷◌, ◌==◌, string_eq, Result, ok, Fields, ◌≡◌, arith,
  inl, inr, Bool-cases, Option-cases, Result-cases,
}
use aieos.Base.Dict.{Dict, get, put, values, get-put_self}
use aieos.Contracts.Commands.{CommandEnvelope}
use aieos.Domain.{Services, new, now}
use aieos.Security.{ScopeAuthorizer, require}
use aieos.Workflow.Governance.{WorkflowAiBudgetEnvelope, lookup}
use aieos.Workflow.Governance.Format.RoundTrip.{scale6-micro_text}
use aieos.Workflow.Governance.Admission.{Handoff, binding_of, admission_binding}
use aieos.Workflow.Instance.{WorkflowInstance, Engine}
use aieos.Workflow.Repository.{put_instance}
use aieos.Workflow.Cancel.{is_refused}
use aieos.Workflow.Payload.{Library}
use aieos.Workflow.Attempt.{
  exposure, used_exposure, amount_of, budgeted_envelope, authorized_envelope, requested, committed,
  handoff_of, admit_step, begin_attempt, create_governed, create_attempt_command, calls_model,
  admitted_command, attempt_exposure,
}
use aieos.Workflow.Command.{attempt_command}
use aieos.Workflow.Command.Admission.{command_at-admission}

-- what a binding commits
abbrev pub committed_by : Fields → Result ℕ
committed_by b = exposure (lookup "CommittedExposure" b)

binding-exposure :
    (e : WorkflowAiBudgetEnvelope) (h : Handoff) (version : ℕ)
    → committed_by (binding_of e h version attempt_exposure) ≡ ok 10_000
unfolding binding_of exposure amount_of lookup
binding-exposure e h version = scale6-micro_text 10_000 (omega arith) (omega arith)

-- A new admission adds at most its own exposure, also where it takes another's place.
put-used_exposure :
    (k : String) (b : Fields) (m : ℕ) (d : Dict String Fields) (n : ℕ)
    → committed_by b ≡ ok m
    → used_exposure (values d) ≡ ok n
    → (t : ℕ) × (used_exposure (values (put k b d)) ≡ ok t) × (t ≤ n + m)
unfolding used_exposure put
put-used_exposure k b m [] n h p = (m, ground (arith, h), ground (arith, p))
put-used_exposure k b m ((j, c) ∷ d) n h p = elim (Result-cases (committed_by c)) [
  | inr (x, q) ↦ absurd (ground (arith, q, p))
  | inl (o, q) ↦ elim (Result-cases (used_exposure (values d))) [
    | inr (x, r) ↦ absurd (ground (arith, q, r, p))
    | inl (u, r) ↦
        let same : n ≡ o + u = ground (arith, q, r, p) in
        elim (Bool-cases (j == k)) [
          | inl w ↦ (m + u, ground (arith, w, h, r), omega (arith, same))
          | inr w ↦
              let (t, v, l) = put-used_exposure k b m d u h r in
              (o + t, ground (arith, w, q, v), omega (arith, same, l))
        ]
  ]
]

module _ (a : ScopeAuthorizer) where
  -- what the checks before the admission found
  pub record Budgeted (i : WorkflowInstance) (e : WorkflowAiBudgetEnvelope) : Type 0 where
    pub envelope : i.ai_budget_envelope ≡ some e
    pub permitted :
        is_refused (require a i.authorization "ai.invoke" i.tenant_id i.workspace_id) ≡ false
    pub used : ℕ
    pub counted : used_exposure (values i.ai_admissions) ≡ ok used
    pub within : used + 10_000 ≤ e.ceiling_microusd

  budgeted :
      (i : WorkflowInstance) (e : WorkflowAiBudgetEnvelope)
      → budgeted_envelope a i ≡ ok e
      → Budgeted i e
  unfolding budgeted_envelope authorized_envelope
  budgeted i e h = elim (Result-cases (authorized_envelope a i i.ai_budget_envelope)) [
    | inr (x, p) ↦ absurd (ground (arith, p, h))
    | inl (b, p) ↦ elim (Result-cases (used_exposure (values i.ai_admissions))) [
      | inr (x, q) ↦ absurd (ground (arith, p, q, h))
      | inl (n, q) ↦ elim (Option-cases i.ai_budget_envelope) [
        | inl r ↦ absurd (ground (arith, p, r))
        | inr (c, r) ↦ record {
          envelope = ground (arith, p, q, r, h);
          permitted = ground (arith, p, q, r, h);
          used = n;
          counted = q;
          within = ground (arith, p, q, r, h);
        }
      ]
    ]
  ]

module _ (lib : Library) where
  module _ (sv : Services) (a : ScopeAuthorizer) where
    -- what the instance and the command are once the command is created
    abbrev pub Covered :
        WorkflowInstance → WorkflowAiBudgetEnvelope → CommandEnvelope → Engine → Type 0
    Covered i e c t =
        (j : WorkflowInstance) × (b : Fields) × (n : ℕ) × (get i.workflow_id t.instances ≡ some j)
        × (used_exposure (values j.ai_admissions) ≡ ok n)
        × (n ≤ e.ceiling_microusd)
        × (get c.command_id j.ai_admissions ≡ some b)
        × (c.metadata.workflow_ai_budget_admission ≡ some b)
        × (committed_by b ≡ ok 10_000)

    covers :
        (i : WorkflowInstance) (e : WorkflowAiBudgetEnvelope) (cause id execution_id : String)
        (used : ℕ) (s : Engine) (c : CommandEnvelope)
        → used_exposure (values i.ai_admissions) ≡ ok used
        → used + 10_000 ≤ e.ceiling_microusd
        → (admitted_command lib sv cause e (i, (id, execution_id)) s).0 ≡ ok c
        → Covered i e c (admitted_command lib sv cause e (i, (id, execution_id)) s).1
    unfolding admit_step admission_binding attempt_command put_instance requested committed now
    covers i e cause id execution_id used s c u l h =
        let j : WorkflowInstance = requested i id execution_id in
        let b : Fields =
          binding_of e (handoff_of j id execution_id) j.transition_version attempt_exposure in
        let k : WorkflowInstance = committed j id execution_id b in
        let (n, p, q) =
          put-used_exposure id b 10_000 i.ai_admissions used
            (binding-exposure e (handoff_of j id execution_id) j.transition_version) u in
        let (x, y) = command_at-admission lib k cause id execution_id (some b) _ c h in
        (
          k,
          b,
          n,
          get-put_self i.workflow_id k (put i.workflow_id j s.instances),
          p,
          omega (arith, q, l),
          rw x (get-put_self id b i.ai_admissions),
          y,
          binding-exposure e (handoff_of j id execution_id) j.transition_version,
        )

    -- An attempt that calls a model is created only while the caller may invoke models and the
    -- accepted envelope has room. Afterwards what all admissions of the workflow commit together is
    -- within the envelope's ceiling, and the command carries the admission that the workflow keeps
    -- under the command's identifier, a commitment of 10,000 micro-dollars.
    pub create_attempt_command-ceiling :
        (i : WorkflowInstance) (cause : String) (s : Engine) (c : CommandEnvelope)
        → calls_model i ≡ true
        → (create_attempt_command lib sv a i cause s).0 ≡ ok c
        → (e : WorkflowAiBudgetEnvelope) × (i.ai_budget_envelope ≡ some e)
          × (is_refused (require a i.authorization "ai.invoke" i.tenant_id i.workspace_id) ≡ false)
          × Covered i e c (create_attempt_command lib sv a i cause s).1
    unfolding create_attempt_command create_governed begin_attempt new
    create_attempt_command-ceiling i cause s c m h = elim (Result-cases (budgeted_envelope a i)) [
      | inr (x, p) ↦ absurd (ground (arith, m, p, h))
      | inl (e, p) ↦
          let k = budgeted a i e p in
          (
            e,
            k.envelope,
            k.permitted,
            rw (m, p) (covers _ e cause _ _ k.used _ c k.counted k.within (rw (m, p) at h)),
          )
    ]
