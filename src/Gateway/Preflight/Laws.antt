-- ===== src/Gateway/Preflight/Laws.antt =====
-- About `_preflight` (gateway.py) of a request that the Workflow Engine owns (engine.py).
use aieos.Base.{
  String, true, Option, some, none, string_eq, Result, ok, err, ◌≡◌, refl, ap, arith, Fields, str,
  ◌>>◌,
}
use aieos.Gateway.Types.{AiInvocationRequest}
use aieos.Gateway.Preflight.{
  AdmissionAuthority, is_given, confirm, identities_agree, validate_workflow_admission,
  workflow_owned, admission, preflight,
}
use aieos.Security.{ScopeAuthorizer}
use aieos.Workflow.Governance.{lookup}
use aieos.Workflow.Governance.Text.{is_text_lem}
use aieos.Workflow.Instance.{Engine}
use aieos.Workflow.Repository.{authoritative_ai_admission, owns_ai_dispatch, fields_eq}
use aieos.Workflow.Repository.Laws.{Authoritative, admission-Authoritative}

-- the engine's repository as the authority on admissions
abbrev pub authority_of : Engine → AdmissionAuthority
authority_of s = record {
  owns_dispatch = λ w c x. owns_ai_dispatch w c s;
  authoritative = λ w c x. authoritative_ai_admission w c x s;
}

-- The admission that a request carries is the one that the engine stands by, and is bound to the
-- scope, the policy version and the idempotency key of the request.
pub record Admitted (s : Engine) (r : AiInvocationRequest) : Type 0 where
  pub workflow : String
  pub binding : Fields
  pub of_workflow : r.workflow_id ≡ some workflow
  pub carried : r.workflow_ai_budget_admission ≡ some binding
  pub stands : Authoritative workflow r.command_id r.execution_id binding s
  pub tenant : lookup "TenantId" binding ≡ some (str r.tenant_id)
  pub workspace : lookup "WorkspaceId" binding ≡ some (str r.workspace_id)
  pub policy : lookup "PolicyId" binding ≡ some (str r.authorization.policy_id)
  pub policy_version :
      lookup "PolicyVersionId" binding ≡ some (str r.authorization.policy_version_id)
  pub key : lookup "GatewayIdempotencyKey" binding ≡ some (str r.idempotency_key)

is_given-eq : (b : Fields) (o : Option Fields) → is_given b o ≡ true → o ≡ some b
unfolding is_given
is_given-eq b none h = cc
is_given-eq b (some x) h = ap some ((fields_eq.beq_iff x b).0 h)

confirm-given :
    (s : Engine) (r : AiInvocationRequest) (b : Fields) (w : Option String)
    → confirm (some (authority_of s)) r b w ≡ ok tt
    → (x : String) × (w ≡ some x)
      × (authoritative_ai_admission x r.command_id r.execution_id s ≡ some b)
unfolding confirm
confirm-given s r b none h = cc
confirm-given s r b (some x) h =
    let o : Option Fields = authoritative_ai_admission x r.command_id r.execution_id s in
    (x, refl, is_given-eq b o (ground (arith, h)))

validated-confirm :
    (g : Option AdmissionAuthority) (r : AiInvocationRequest) (b : Fields)
    → validate_workflow_admission g r b ≡ ok tt
    → (identities_agree r b ≡ true) × (confirm g r b r.workflow_id ≡ ok tt)
unfolding validate_workflow_admission
validated-confirm g r b h = ground (arith, h)

validated-Admitted :
    (s : Engine) (r : AiInvocationRequest) (b : Fields)
    → r.workflow_ai_budget_admission ≡ some b
    → validate_workflow_admission (some (authority_of s)) r b ≡ ok tt
    → Admitted s r
unfolding identities_agree
validated-Admitted s r b c h =
    let (i, k) = validated-confirm (some (authority_of s)) r b h in
    let (w, e, q) = confirm-given s r b r.workflow_id k in
    record {
      workflow = w;
      binding = b;
      of_workflow = e;
      carried = c;
      stands = (admission-Authoritative w r.command_id r.execution_id b s q).0;
      tenant = is_text_lem r.tenant_id (lookup "TenantId" b) (ground (arith, i));
      workspace = is_text_lem r.workspace_id (lookup "WorkspaceId" b) (ground (arith, i));
      policy = is_text_lem r.authorization.policy_id (lookup "PolicyId" b) (ground (arith, i));
      policy_version =
          is_text_lem r.authorization.policy_version_id (lookup "PolicyVersionId" b)
            (ground (arith, i));
      key = is_text_lem r.idempotency_key (lookup "GatewayIdempotencyKey" b) (ground (arith, i));
    }

admission-Admitted :
    (s : Engine) (r : AiInvocationRequest) (o : Option Fields)
    → r.workflow_ai_budget_admission ≡ o
    → admission (some (authority_of s)) r o ≡ ok tt
    → owns_ai_dispatch r.workflow_id r.command_id s ≡ true
    → Admitted s r
unfolding admission workflow_owned
admission-Admitted s r none c h own = absurd (ground (arith, h, own))
admission-Admitted s r (some b) c h own = validated-Admitted s r b c h

last_check : (m : Result (Unit {0})) {n : Result (Unit {0})} → (m >> n) ≡ ok tt → n ≡ ok tt
last_check (ok tt) h = h
last_check (err x) h = cc

preflight-admission :
    (a : ScopeAuthorizer) (g : Option AdmissionAuthority) (r : AiInvocationRequest)
    → preflight a g r ≡ ok tt
    → admission g r r.workflow_ai_budget_admission ≡ ok tt
unfolding preflight
preflight-admission a g r h = ground (arith, h)

-- A request for a dispatch that the engine owns passes the Gateway's preflight only if it carries a
-- binding which is the admission that the engine stands by at that moment, for that very command and
-- execution, and which names the tenant, the workspace, the policy version and the idempotency key
-- of the request.
pub preflight-Admitted :
    (a : ScopeAuthorizer) (s : Engine) (r : AiInvocationRequest)
    → preflight a (some (authority_of s)) r ≡ ok tt
    → owns_ai_dispatch r.workflow_id r.command_id s ≡ true
    → Admitted s r
preflight-Admitted a s r h own =
    admission-Admitted s r r.workflow_ai_budget_admission refl
      (preflight-admission a (some (authority_of s)) r h) own
