-- ===== src/Security/Laws.antt =====
-- About `require` and `revoke` of ScopeAuthorizer (authorization.py).
use aieos.Base.{
  String, true, false, ◌&&◌, ◌==◌, string_eq, pair_eq, any, ok, err, ◌≡◌, arith,
  authorization_failure, if◌then◌else◌, string_beq_iff, ◌↔◌,
}
use aieos.Contracts.Common.{AuthorizationContext}
use aieos.Security.{ScopeAuthorizer, member, policy_key, revoke, inactive, require}

-- What a request needs to be let through.
pub record Granted (a : ScopeAuthorizer) (c : AuthorizationContext) (permission t w : String)
    : Type 0 where
  pub tenant : c.tenant_id ≡ t
  pub workspace : c.workspace_id ≡ w
  pub permitted : any (λ p. p == permission) c.permissions ≡ true
  pub policy :
      permission ≡ "ai.invoke"
      → (member (policy_key c) a.revoked_policy_versions ≡ false)
        × (inactive a.active_policy_versions (policy_key c) ≡ false)

module _ (a : ScopeAuthorizer) (c : AuthorizationContext) (permission t w : String) where
  require-Granted : require a c permission t w ≡ ok tt → Granted a c permission t w
  unfolding require
  require-Granted h = ground (
    arith,
    string_beq_iff c.tenant_id t,
    string_beq_iff c.workspace_id w,
    string_beq_iff permission "ai.invoke",
  )

  Granted-require : Granted a c permission t w → require a c permission t w ≡ ok tt
  unfolding require
  Granted-require g = ground (
    arith,
    string_beq_iff c.tenant_id t,
    string_beq_iff c.workspace_id w,
    string_beq_iff permission "ai.invoke",
  )

  -- `require` returns exactly when the context has the scope and the permission, and for
  -- "ai.invoke" a policy version that is active and not revoked. Otherwise it raises.
  pub require_iff : (require a c permission t w ≡ ok tt) ↔ Granted a c permission t w
  require_iff = (require-Granted, Granted-require)

-- After a revocation an "ai.invoke" in its own scope is refused if its tenant, workspace, policy
-- and policy version are the four that were revoked; every other decision stays as it was.
pub require-revoke :
    (a : ScopeAuthorizer) (c d : AuthorizationContext) (permission t w : String)
    → require (revoke c a) d permission t w ≡ (
        if d.tenant_id == t
          && d.workspace_id == w
          && permission == "ai.invoke"
          && c.tenant_id == d.tenant_id
          && c.workspace_id == d.workspace_id
          && c.policy_id == d.policy_id
          && c.policy_version_id == d.policy_version_id
        then err (authorization_failure "authorization policy version is revoked")
        else require a d permission t w)
unfolding require revoke policy_key
require-revoke a c d permission t w = ground arith
