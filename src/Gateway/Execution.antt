-- ===== src/Gateway/Execution.antt =====
-- Execution ownership in ReferenceGatewayStore: leases with fencing generations.
pub mod Fencing
use aieos.Base.{
  ℕ, ◌+◌, String, Bool, true, false, not, ◌&&◌, ◌||◌, Option, some, none, ◌==◌, string_eq, nat_eq,
  ok, err, key_error, ownership_lost, is_some, leb, ltb, if◌then◌else◌,
}
use aieos.Base.Exec.{Exec, pure, gets, modify, guard_not, ◌>>=◌, ◌>>◌}
use aieos.Gateway.Types.{GatewayInvocation, AiInvocationResponse, optional_response_eq}
use aieos.Gateway.Store.{ReferenceGatewayStore, load, put_invocation}

-- `owner == invocation.execution_owner`
abbrev pub is_owner : String → GatewayInvocation → Bool
is_owner owner v = elim v.execution_owner [ none ↦ false | some o ↦ o == owner ]

-- `execution_lease_expires_at is not None and execution_lease_expires_at > now`
abbrev pub lease_runs : ℕ → GatewayInvocation → Bool
lease_runs now v = elim v.execution_lease_expires_at [ none ↦ false | some t ↦ ltb now t ]

-- another worker owns the invocation and its lease has not expired
unfoldable pub held_by_another : String → ℕ → GatewayInvocation → Bool
held_by_another owner now v =
    is_some v.execution_owner && not (is_owner owner v) && lease_runs now v

unfoldable pub claimed : String → ℕ → ℕ → GatewayInvocation → GatewayInvocation
claimed owner now lease v = record v {
  execution_owner = some owner;
  execution_lease_expires_at = some (now + lease);
  claim_generation = v.claim_generation + 1;
  recovery_phase = "claimed";
}

claim_loaded : String → String → ℕ → ℕ → GatewayInvocation → Exec ReferenceGatewayStore (Option ℕ)
unfolding held_by_another claimed put_invocation
claim_loaded id owner now lease v s =
    if is_some v.terminal
    then (ok none, s)
    else if held_by_another owner now v
    then (ok none, s)
    else (ok (some (v.claim_generation + 1)), put_invocation id (claimed owner now lease v) s)

unfoldable pub claim_execution : String → String → ℕ → ℕ → Exec ReferenceGatewayStore (Option ℕ)
unfolding claim_loaded load
claim_execution id owner now lease = do v ← load id; claim_loaded id owner now lease v

unfoldable pub owns : String → ℕ → GatewayInvocation → Bool
owns owner generation v = is_owner owner v && v.claim_generation == generation

release_loaded : String → String → ℕ → GatewayInvocation → Exec ReferenceGatewayStore (Unit {0})
unfolding owns put_invocation
release_loaded id owner generation v s = (
  ok tt,
  if owns owner generation v
      then put_invocation id
          (record v { execution_owner = none; execution_lease_expires_at = none }) s
      else s,
)

unfoldable pub release_execution : String → String → ℕ → Exec ReferenceGatewayStore (Unit {0})
unfolding release_loaded load
release_execution id owner generation = do v ← load id; release_loaded id owner generation v

renew_loaded : String → String → ℕ → ℕ → ℕ → GatewayInvocation → Exec ReferenceGatewayStore Bool
unfolding owns put_invocation
renew_loaded id owner generation now lease v s =
    if is_some v.terminal || not (owns owner generation v) then (ok false, s) else (
      ok true,
      put_invocation id (record v { execution_lease_expires_at = some (now + lease) }) s,
    )

unfoldable pub renew_execution : String → String → ℕ → ℕ → ℕ → Exec ReferenceGatewayStore Bool
unfolding renew_loaded load
renew_execution id owner generation now lease = do
  v ← load id
  renew_loaded id owner generation now lease v

unfoldable pub assert_execution_owner : String → String → ℕ → Exec ReferenceGatewayStore (Unit {0})
unfolding owns load
assert_execution_owner id owner generation = do
  v ← load id
  guard_not (not (owns owner generation v))
      (ownership_lost "AI Gateway execution ownership was lost")

intent_conflicts : GatewayInvocation → GatewayInvocation → Bool
intent_conflicts current v =
    is_some current.terminal_intent && not (current.terminal_intent == v.terminal_intent)

checkpoint_as : String → GatewayInvocation → Exec ReferenceGatewayStore (Unit {0})
unfolding intent_conflicts load put_invocation
checkpoint_as owner v = do
  assert_execution_owner v.invocation_id owner v.claim_generation
  current ← load v.invocation_id
  guard_not (intent_conflicts current v) (ownership_lost "immutable terminal intent already exists")
  modify (put_invocation v.invocation_id v)

unfoldable pub checkpoint_terminal_intent :
    GatewayInvocation → Exec ReferenceGatewayStore (Unit {0})
unfolding checkpoint_as
checkpoint_terminal_intent v s = elim v.execution_owner [
  | none ↦ (err (ownership_lost "terminal intent requires execution ownership"), s)
  | some owner ↦
      if leb v.claim_generation 0
      then (err (ownership_lost "terminal intent requires execution ownership"), s)
      else checkpoint_as owner v s
]
