-- ===== src/Gateway/Budget/Limits.antt =====
-- About the budget methods of ReferenceGatewayStore (gateway.py), one by one.
use aieos.Base.{
  ℕ, ◌≤◌, String, Bool, true, Option, some, none, string_eq, string_beq_iff, Result, ok, err, ◌≡◌,
  refl, arith, inl, inr, Option-cases,
}
use aieos.Base.Dict.{get}
use aieos.Base.Exec.{Exec, ◌>>◌}
use aieos.Gateway.Types.{GatewayReservation, AiUsage, ReservationState}
use aieos.Gateway.Store.{ReferenceGatewayStore}
use aieos.Gateway.Execution.{assert_execution_owner}
use aieos.Gateway.Budget.{
  total, weight, of_tenant, of_workspace, is_live, expire, fresh_reservation, settled,
  put_reservation, fence, reserve, settle, reconcile, release_expired, release,
}
use aieos.Gateway.Budget.Totals.{total-put_new, total-put_old, total-expire_all}
use aieos.Gateway.Usage.{metered, meter, record_usage, cumulative_cost, add_event, events_of}

-- No tenant and no workspace has reserved more than its limit.
pub record WithinBudget (s : ReferenceGatewayStore) : Type 0 where
  pub tenant : (t : String) → total (of_tenant t) s.reservations ≤ s.tenant_limit
  pub workspace : (t w : String) → total (of_workspace t w) s.reservations ≤ s.workspace_limit

abbrev LiveFound : Option GatewayReservation → Type 0
LiveFound none = Unit
LiveFound (some r) = is_live r.state ≡ true

-- the reservation of the invocation, if there is one, was not released
abbrev pub Live : String → ReferenceGatewayStore → Type 0
Live id s = LiveFound (get id s.reservations)

pub reserve-WithinBudget :
    (id t w : String) (amount now : ℕ) (s : ReferenceGatewayStore)
    → WithinBudget s
    → WithinBudget (reserve id t w amount now s).1
unfolding reserve
reserve-WithinBudget id t w amount now s h = elim (Option-cases (get id s.reservations)) [
  | inl p ↦
      rw (p, reserve)
        (record {
          tenant = λ t'. ground (
            arith,
            h.tenant t',
            total-put_new (of_tenant t') id (fresh_reservation id t w amount now) s.reservations p,
            string_beq_iff t t',
          );
          workspace = λ t' w'. ground (
            arith,
            h.workspace t' w',
            total-put_new (of_workspace t' w') id (fresh_reservation id t w amount now)
                s.reservations p,
            string_beq_iff t t',
            string_beq_iff w w',
          );
        })
  | inr (r, p) ↦ rw (p, reserve) h
]

-- a change of one reservation that adds no weight
change-WithinBudget :
    (id : String) (r old : GatewayReservation) (s : ReferenceGatewayStore)
    → get id s.reservations ≡ some old
    → ((t : String) → weight (of_tenant t) r ≤ weight (of_tenant t) old)
    → ((t w : String) → weight (of_workspace t w) r ≤ weight (of_workspace t w) old)
    → WithinBudget s
    → WithinBudget (put_reservation id r s)
unfolding put_reservation
change-WithinBudget id r old s p f g h = record {
  tenant =
      λ t. omega (arith, h.tenant t, f t, total-put_old (of_tenant t) id r old s.reservations p);
  workspace = λ t w.
      omega
        (arith, h.workspace t w, g t w, total-put_old (of_workspace t w) id r old s.reservations p);
}

settle-WithinBudget :
    (id : String) (actual : ℕ) (usage : AiUsage) (s : ReferenceGatewayStore)
    → Live id s
    → WithinBudget s
    → WithinBudget (settle id actual usage s).1
unfolding settle
settle-WithinBudget id actual usage s l h = elim (Option-cases (get id s.reservations)) [
  | inl p ↦ rw (p, settle) h
  | inr (r, p) ↦
      let lv : is_live r.state ≡ true = rw p at l in
      let w : WithinBudget (put_reservation id (settled actual r) s) =
        change-WithinBudget id (settled actual r) r s p (λ t. ground arith) (λ t w. ground arith)
          h in
      rw (p, settle) (record { tenant = w.tenant; workspace = w.workspace })
]

-- The fence raises or returns, and changes nothing.
fence_keeps :
    (id : String) (owner : Option String) (g : Option ℕ) (s : ReferenceGatewayStore)
    → (fence id owner g s).1 ≡ s
unfolding fence assert_execution_owner
fence_keeps id none none s = refl
fence_keeps id none (some g) s = refl
fence_keeps id (some o) none s = refl
fence_keeps id (some o) (some g) s = ground arith

fenced :
    (p : Result (Unit {0}) × ReferenceGatewayStore) (m : Exec ReferenceGatewayStore (Unit {0}))
    (s : ReferenceGatewayStore)
    → p.1 ≡ s
    → WithinBudget s
    → WithinBudget (m s).1
    → WithinBudget (((λ _. p) >> m) s).1
fenced (ok u, t) m s e h k = rw e k
fenced (err x, t) m s e h k = rw e h

pub reconcile-WithinBudget :
    (id : String) (actual : ℕ) (usage : AiUsage) (owner : Option String) (g : Option ℕ)
    (s : ReferenceGatewayStore)
    → Live id s
    → WithinBudget s
    → WithinBudget (reconcile id actual usage owner g s).1
unfolding reconcile
reconcile-WithinBudget id actual usage owner g s l h =
    fenced (fence id owner g s) (settle id actual usage) s (fence_keeps id owner g s) h
      (settle-WithinBudget id actual usage s l h)

meter-WithinBudget :
    (id : String) (u : AiUsage) (c : ℕ) (key kind : String) (final : Bool)
    (s : ReferenceGatewayStore)
    → Live id s
    → WithinBudget s
    → WithinBudget (meter id u c key kind final s).1
unfolding meter
meter-WithinBudget id u c key kind final s l h = elim (Option-cases (get id s.reservations)) [
  | inl p ↦ rw (p, meter) (record { tenant = h.tenant; workspace = h.workspace })
  | inr (r, p) ↦
      let m : GatewayReservation =
        metered (cumulative_cost (add_event key u c kind (events_of id s))) final r in
      let lv : is_live r.state ≡ true = rw p at l in
      let w : WithinBudget (put_reservation id m s) =
        change-WithinBudget id m r s p (λ t. ground arith) (λ t w. ground arith) h in
      rw (p, meter) (record { tenant = w.tenant; workspace = w.workspace })
]

pub record_usage-WithinBudget :
    (id : String) (u : AiUsage) (c : ℕ) (key kind : String) (final : Bool) (owner : Option String)
    (g : Option ℕ) (s : ReferenceGatewayStore)
    → Live id s
    → WithinBudget s
    → WithinBudget (record_usage id u c key kind final owner g s).1
unfolding record_usage
record_usage-WithinBudget id u c key kind final owner g s l h =
    fenced (fence id owner g s) (meter id u c key kind final) s (fence_keeps id owner g s) h
      (meter-WithinBudget id u c key kind final s l h)

pub release-WithinBudget :
    (id : String) (state : ReservationState) (s : ReferenceGatewayStore)
    → WithinBudget s
    → WithinBudget (release id state s).1
unfolding release
release-WithinBudget id state s h = elim (Option-cases (get id s.reservations)) [
  | inl p ↦ rw (p, release) h
  | inr (r, p) ↦ ground (arith, change-WithinBudget id (record r { state = state }) r s p)
]

expire-lighter :
    (t : String) (now : ℕ) (r : GatewayReservation)
    → weight (of_tenant t) (expire now r) ≤ weight (of_tenant t) r
unfolding expire
expire-lighter t now r = ground arith

expire-lighter_workspace :
    (t w : String) (now : ℕ) (r : GatewayReservation)
    → weight (of_workspace t w) (expire now r) ≤ weight (of_workspace t w) r
unfolding expire
expire-lighter_workspace t w now r = ground arith

pub release_expired-WithinBudget :
    (now : ℕ) (s : ReferenceGatewayStore) → WithinBudget s → WithinBudget (release_expired now s).1
unfolding release_expired
release_expired-WithinBudget now s h = record {
  tenant = λ t.
      omega (
        arith,
        h.tenant t,
        total-expire_all (of_tenant t) now s.reservations (expire-lighter t now),
      );
  workspace = λ t w. omega (
    arith,
    h.workspace t w,
    total-expire_all (of_workspace t w) now s.reservations (expire-lighter_workspace t w now),
  );
}
