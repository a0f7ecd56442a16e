-- ===== src/Gateway/Budget.antt =====
-- Budget reservations in ReferenceGatewayStore
pub mod Totals
pub mod Limits
pub mod Reachable
pub mod Revival
use aieos.Base.{
  ℕ, ◌+◌, String, Bool, true, false, not, ◌&&◌, ◌||◌, Option, some, none, List, [], ◌∷◌, ◌==◌,
  string_eq, Result, ok, err, value_error, key_error, leb, ltb, map, if◌then◌else◌,
}
use aieos.Base.Dict.{Dict, get, put}
use aieos.Base.Exec.{Exec, pure, modify, guard_not, or_raise, ◌>>=◌, ◌>>◌}
use aieos.Gateway.Types.{
  GatewayReservation, AiUsage, ReservationState, pending, committed, usage_pending, released, other,
}
use aieos.Gateway.Store.{ReferenceGatewayStore}
use aieos.Gateway.Execution.{assert_execution_owner}

-- timedelta(minutes=5), in microseconds
abbrev pub reservation_lifetime : ℕ
reservation_lifetime = 300_000_000

-- state in {"pending", "committed", "usage_pending"}
abbrev pub is_live : ReservationState → Bool
is_live pending = true
is_live committed = true
is_live usage_pending = true
is_live _ = false

abbrev is_pending : ReservationState → Bool
is_pending pending = true
is_pending _ = false

abbrev pub of_tenant : String → GatewayReservation → Bool
of_tenant t r = is_live r.state && r.tenant_id == t

abbrev pub of_workspace : String → String → GatewayReservation → Bool
of_workspace t w r = is_live r.state && r.tenant_id == t && r.workspace_id == w

abbrev pub weight : (GatewayReservation → Bool) → GatewayReservation → ℕ
weight p r = if p r then r.amount else 0

-- the sum of the amounts of the reservations that pass the test
unfoldable pub total : (GatewayReservation → Bool) → Dict String GatewayReservation → ℕ
total p [] = 0
total p ((k, r) ∷ d) = weight p r + total p d

abbrev pub fresh_reservation : String → String → String → ℕ → ℕ → GatewayReservation
fresh_reservation id t w amount now = record {
  invocation_id = id;
  tenant_id = t;
  workspace_id = w;
  amount = amount;
  state = pending;
  expires_at = now + reservation_lifetime;
  actual = none;
}

unfoldable pub put_reservation :
    String → GatewayReservation → ReferenceGatewayStore → ReferenceGatewayStore
put_reservation id r s = record s { reservations = put id r s.reservations }

reserve_new : String → String → String → ℕ → ℕ → Exec ReferenceGatewayStore GatewayReservation
unfolding put_reservation
reserve_new id t w amount now s =
    if ltb s.tenant_limit (total (of_tenant t) s.reservations + amount)
    then (err (value_error "hard budget exceeded"), s)
    else if ltb s.workspace_limit (total (of_workspace t w) s.reservations + amount)
    then (err (value_error "workspace hard budget exceeded"), s)
    else (
      ok (fresh_reservation id t w amount now),
      put_reservation id (fresh_reservation id t w amount now) s,
    )

unfoldable pub reserve :
    String → String → String → ℕ → ℕ → Exec ReferenceGatewayStore GatewayReservation
unfolding reserve_new
reserve id t w amount now s = elim (get id s.reservations) [
  | some current ↦ (ok current, s)
  | none ↦ reserve_new id t w amount now s
]

-- `if owner is not None and generation is not None: await self.assert_execution_owner(...)`
unfoldable pub fence : String → Option String → Option ℕ → Exec ReferenceGatewayStore (Unit {0})
fence id (some owner) (some generation) = assert_execution_owner id owner generation
fence id (some owner) none = pure tt
fence id none generation = pure tt

abbrev pub settled : ℕ → GatewayReservation → GatewayReservation
settled actual r = record r { state = committed; actual = some actual }

settle_found :
    String → ℕ → AiUsage → Option GatewayReservation → Exec ReferenceGatewayStore (Unit {0})
unfolding put_reservation
settle_found id actual usage none s = (err key_error, s)
settle_found id actual usage (some r) s =
    (ok tt, record (put_reservation id (settled actual r) s) { usage = put id usage s.usage })

unfoldable pub settle : String → ℕ → AiUsage → Exec ReferenceGatewayStore (Unit {0})
unfolding settle_found
settle id actual usage s = settle_found id actual usage (get id s.reservations) s

unfoldable pub reconcile :
    String → ℕ → AiUsage → Option String → Option ℕ → Exec ReferenceGatewayStore (Unit {0})
unfolding settle fence
reconcile id actual usage owner generation = do fence id owner generation; settle id actual usage

is_expired : ℕ → GatewayReservation → Bool
is_expired now r = is_pending r.state && leb r.expires_at now

unfoldable pub expire : ℕ → GatewayReservation → GatewayReservation
unfolding is_expired
expire now r = if is_expired now r then record r { state = released } else r

expired_ids : ℕ → Dict String GatewayReservation → List String
unfolding is_expired
expired_ids now [] = []
expired_ids now ((k, r) ∷ d) =
    let rest = expired_ids now d in if is_expired now r then r.invocation_id ∷ rest else rest

unfoldable pub expire_all : ℕ → Dict String GatewayReservation → Dict String GatewayReservation
unfolding expire
expire_all now [] = []
expire_all now ((k, r) ∷ d) = (k, expire now r) ∷ expire_all now d

unfoldable pub release_expired : ℕ → Exec ReferenceGatewayStore (List String)
unfolding expired_ids expire_all
release_expired now s =
    (ok (expired_ids now s.reservations), record s { reservations = expire_all now s.reservations })

release_found :
    String → ReservationState → Option GatewayReservation → Exec ReferenceGatewayStore (Unit {0})
unfolding put_reservation
release_found id state none s = (ok tt, s)
release_found id state (some r) s =
    (ok tt, if is_pending r.state then put_reservation id (record r { state = state }) s else s)

unfoldable pub release : String → ReservationState → Exec ReferenceGatewayStore (Unit {0})
unfolding release_found
release id state s = release_found id state (get id s.reservations) s
