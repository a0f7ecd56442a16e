-- ===== src/Gateway/Budget/Reachable.antt =====
-- About the budget methods of ReferenceGatewayStore (gateway.py), in sequence.
use aieos.Base.{ℕ, String, Bool, Option, string_eq, arith}
use aieos.Gateway.Types.{AiUsage, ReservationState}
use aieos.Gateway.Store.{ReferenceGatewayStore, new_store}
use aieos.Gateway.Budget.{total, reserve, reconcile, release_expired, release}
use aieos.Gateway.Usage.{record_usage}
use aieos.Gateway.Budget.Limits.{
  WithinBudget, Live, reserve-WithinBudget, reconcile-WithinBudget, record_usage-WithinBudget,
  release-WithinBudget, release_expired-WithinBudget,
}

-- A call of one of the store's budget methods. The two that record a cost act on an invocation
-- whose reservation was not released.
pub data BudgetStep : ReferenceGatewayStore → ReferenceGatewayStore → Type 0 where
  reserving :
      (id t w : String) (amount now : ℕ) (s : ReferenceGatewayStore)
      → BudgetStep s (reserve id t w amount now s).1
  reconciling :
      (id : String) (actual : ℕ) (usage : AiUsage) (owner : Option String) (g : Option ℕ)
      (s : ReferenceGatewayStore)
      → Live id s
      → BudgetStep s (reconcile id actual usage owner g s).1
  metering :
      (id : String) (u : AiUsage) (c : ℕ) (key kind : String) (final : Bool) (owner : Option String)
      (g : Option ℕ) (s : ReferenceGatewayStore)
      → Live id s
      → BudgetStep s (record_usage id u c key kind final owner g s).1
  releasing :
      (id : String) (state : ReservationState) (s : ReferenceGatewayStore)
      → BudgetStep s (release id state s).1
  expiring : (now : ℕ) (s : ReferenceGatewayStore) → BudgetStep s (release_expired now s).1

pub data BudgetReach (s : ReferenceGatewayStore) : ReferenceGatewayStore → Type 0 where
  here : BudgetReach s s
  next : {t u : ReferenceGatewayStore} → BudgetReach s t → BudgetStep t u → BudgetReach s u

BudgetStep-WithinBudget :
    {s t : ReferenceGatewayStore} → BudgetStep s t → WithinBudget s → WithinBudget t
BudgetStep-WithinBudget (reserving id t w a now s) h = reserve-WithinBudget id t w a now s h
BudgetStep-WithinBudget (reconciling id a u o g s l) h = reconcile-WithinBudget id a u o g s l h
BudgetStep-WithinBudget (metering id u c key kind final o g s l) h =
    record_usage-WithinBudget id u c key kind final o g s l h
BudgetStep-WithinBudget (releasing id state s) h = release-WithinBudget id state s h
BudgetStep-WithinBudget (expiring now s) h = release_expired-WithinBudget now s h

new_store-WithinBudget :
    (tenant : ℕ) (workspace : Option ℕ) → WithinBudget (new_store tenant workspace)
unfolding new_store total
new_store-WithinBudget tenant workspace = record {
  tenant = λ t. omega arith;
  workspace = λ t w. omega arith;
}

-- From a new store, whatever the calls and their order, the live reservations of each tenant and
-- of each workspace stay within their limits, as long as no cost is recorded for an invocation
-- whose reservation was released.
pub reached-WithinBudget :
    (tenant : ℕ) (workspace : Option ℕ) {s : ReferenceGatewayStore}
    → BudgetReach (new_store tenant workspace) s
    → WithinBudget s
reached-WithinBudget tenant workspace here = new_store-WithinBudget tenant workspace
reached-WithinBudget tenant workspace (next r st) =
    BudgetStep-WithinBudget st (reached-WithinBudget tenant workspace r)
