-- ===== src/Security.antt =====
-- packages/security_support/src/aieos/security_support/authorization.py: ScopeAuthorizer
pub mod Laws
use aieos.Base.{
  String, Bool, true, false, not, ◌||◌, ◌&&◌, Option, some, none, List, [], ◌∷◌, ◌==◌, string_eq,
  pair_eq, any, is_some, Result, ok, err, authorization_failure, raise_if, ◌>>◌, if◌then◌else◌, Eq,
}
use aieos.Contracts.Common.{AuthorizationContext}

-- (tenant, workspace, policy, policy version)
abbrev pub PolicyKey : Type 0
PolicyKey = (String × String) × (String × String)

-- `none` as the active versions: every version that is not revoked
pub record ScopeAuthorizer : Type 0 where
  pub active_policy_versions : Option (List PolicyKey)
  pub revoked_policy_versions : List PolicyKey

abbrev pub member : PolicyKey → List PolicyKey → Bool
member k = any (λ j. j == k)

unfoldable pub policy_key : AuthorizationContext → PolicyKey
policy_key c = ((c.tenant_id, c.workspace_id), (c.policy_id, c.policy_version_id))

unfoldable pub revoke : AuthorizationContext → ScopeAuthorizer → ScopeAuthorizer
unfolding policy_key
revoke c a = record a { revoked_policy_versions = policy_key c ∷ a.revoked_policy_versions }

abbrev inactive : Option (List PolicyKey) → PolicyKey → Bool
inactive none k = false
inactive (some active) k = not (member k active)

-- the two checks of an "ai.invoke"
require_policy : ScopeAuthorizer → PolicyKey → Result (Unit {0})
require_policy a k = do
  raise_if (member k a.revoked_policy_versions)
      (authorization_failure "authorization policy version is revoked")
  raise_if (inactive a.active_policy_versions k)
      (authorization_failure "authorization policy version is unknown or incompatible")

unfoldable pub require :
    ScopeAuthorizer → AuthorizationContext → String → String → String → Result (Unit {0})
unfolding require_policy policy_key
require a c permission tenant_id workspace_id = do
  raise_if (not (c.tenant_id == tenant_id) || not (c.workspace_id == workspace_id))
      (authorization_failure "authorization scope does not match target scope")
  if permission == "ai.invoke" then require_policy a (policy_key c) else ok tt
  raise_if (not (any (λ p. p == permission) c.permissions))
      (authorization_failure "missing required permission")
