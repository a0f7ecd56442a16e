-- ===== src/Gateway/Budget/Revival.antt =====
-- About `reserve`, `release_expired` and `reconcile` of ReferenceGatewayStore (gateway.py) in turn.
use aieos.Base.{ℕ, ◌+◌, ◌≤◌, ◌<◌, String, none, string_eq, string_beq_iff, ◌≢◌, arith}
use aieos.Base.Dict.{get, put}
use aieos.Gateway.Types.{AiUsage}
use aieos.Gateway.Store.{ReferenceGatewayStore, new_store}
use aieos.Gateway.Budget.{
  total, of_tenant, reservation_lifetime, reserve, reconcile, release_expired,
}

-- one invocation reserves, its reservation expires, another reserves, and the first one's cost
-- is recorded
unfoldable pub overlapping :
    (first second t w : String) (a b now later actual : ℕ) (usage : AiUsage)
    → ReferenceGatewayStore
    → ReferenceGatewayStore
overlapping first second t w a b now later actual usage s =
    let s1 = (reserve first t w a now s).1 in
    let s2 = (release_expired later s1).1 in
    let s3 = (reserve second t w b later s2).1 in (reconcile first actual usage none none s3).1

-- Two invocations whose amounts fit one by one, but not together, hold reservations beyond the
-- tenant's hard budget, when the first reservation has expired before the second is made and the
-- first invocation's cost is recorded after that.
pub overlapping_overspends :
    (first second t w : String) (a b now later actual limit : ℕ) (usage : AiUsage)
    → first ≢ second
    → a ≤ limit
    → b ≤ limit
    → limit < a + b
    → now + reservation_lifetime ≤ later
    → let s = overlapping first second t w a b now later actual usage (new_store limit none) in
      s.tenant_limit < total (of_tenant t) s.reservations
unfolding overlapping reserve release_expired reconcile new_store total get put
overlapping_overspends first second t w a b now later actual limit usage ne ha hb hab hl = ground (
  arith,
  string_beq_iff first second,
  string_beq_iff t t,
  string_beq_iff w w,
  string_beq_iff first first,
  string_beq_iff second second,
  string_beq_iff second first,
)
