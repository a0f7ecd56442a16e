-- ===== src/Contracts/Common.antt =====
-- packages/contracts/src/aieos/contracts/common.py
use aieos.Base.{
  String, Bool, List, [], ◌∷◌, ◌==◌, string_eq, String-discrete, any, Result, ok, err, value_error,
  if◌then◌else◌,
}

-- `permissions` is a frozenset: a list in one fixed order, so that equal sets are equal lists.
pub record AuthorizationContext : Type 0 where
  pub actor_id : String
  pub permissions : List String
  pub tenant_id : String
  pub workspace_id : String
  pub policy_id : String
  pub policy_version_id : String

pub AuthorizationContext-discrete : Discrete AuthorizationContext
AuthorizationContext-discrete = hlevel String-discrete

-- `not text`
abbrev pub is_empty : String → Bool
is_empty s = s == ""

-- `not all(texts)`
abbrev pub any_empty : List String → Bool
any_empty = any is_empty

-- AuthorizationContext.__post_init__
unfoldable pub checked_authorization : AuthorizationContext → Result AuthorizationContext
checked_authorization a =
    if any_empty
      (a.actor_id ∷ a.tenant_id ∷ a.workspace_id ∷ a.policy_id ∷ a.policy_version_id ∷ [])
    then err (value_error "authorization context fields must be non-empty")
    else ok a
