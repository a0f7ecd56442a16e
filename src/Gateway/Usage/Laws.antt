-- ===== src/Gateway/Usage/Laws.antt =====
-- About `record_usage` of ReferenceGatewayStore (gateway.py).
use aieos.Base.{
  ℕ, ◌+◌, String, Bool, Option, some, none, [], ◌∷◌, ◌==◌, string_eq, nat_eq, ok, ap, refl, ◌≡◌,
  arith, inl, inr, Option-cases, leb, if◌then◌else◌, is_some, err, Bool-cases, ◌⊎◌, Exception,
  key_error, ownership_lost,
}
use aieos.Base.Dict.{get, put, set_default, get-put_self}
use aieos.Gateway.Types.{GatewayReservation, AiUsage}
use aieos.Gateway.Store.{ReferenceGatewayStore}
use aieos.Gateway.Budget.{fence}
use aieos.Gateway.Execution.{assert_execution_owner, owns}
use aieos.Gateway.Usage.{
  Events, events_of, cumulative_cost, event_cost, add_event, metered, meter, record_usage,
}

cost-put_new :
    (k : String) (u : AiUsage) (c : ℕ) (d : Events)
    → get k d ≡ none
    → cumulative_cost (put k (u, c) d) ≡ cumulative_cost d + c
unfolding cumulative_cost get put
cost-put_new k u c [] h = ground arith
cost-put_new k u c ((j, (v, b)) ∷ d) h = ground (arith, cost-put_new k u c d)

-- The cost after an event: unchanged under a key that was used, the greater of the two under a new
-- key of a partial report, and the sum under a new key of any other kind.
pub cumulative_cost-add_event :
    (key : String) (u : AiUsage) (cost : ℕ) (kind : String) (d : Events)
    → cumulative_cost (add_event key u cost kind d) ≡ (
        if is_some (get key d)
        then cumulative_cost d
        else if kind == "provider_partial"
        then if leb cost (cumulative_cost d) then cumulative_cost d else cost
        else cumulative_cost d + cost)
unfolding add_event event_cost set_default
cumulative_cost-add_event key u cost kind d =
    ground (arith, cost-put_new key u (event_cost kind cost d) d)

add_event_again :
    (key : String) (u v : AiUsage) (c b : ℕ) (kind other : String) (d : Events)
    → add_event key v b other (add_event key u c kind d) ≡ add_event key u c kind d
unfolding add_event set_default
add_event_again key u v c b kind other d =
    ground (arith, get-put_self key (u, event_cost kind c d) d)

-- what the reservation of an invocation says was spent
abbrev pub spent : String → ReferenceGatewayStore → Option ℕ
spent id s = elim (get id s.reservations) [ none ↦ none | some r ↦ r.actual ]

meter_once :
    (id : String) (u v : AiUsage) (c b : ℕ) (key kind other : String) (final again : Bool)
    (s : ReferenceGatewayStore)
    → (meter id u c key kind final s).0 ≡ ok tt
    → let t = (meter id u c key kind final s).1 in
      (spent id t ≡ some (cumulative_cost (add_event key u c kind (events_of id s))))
      × (spent id (meter id v b key other again t).1 ≡ spent id t)
unfolding meter
meter_once id u v c b key kind other final again s h = elim (Option-cases (get id s.reservations)) [
  | inl p ↦ absurd (ground arith)
  | inr (r, p) ↦
      let es : Events = add_event key u c kind (events_of id s) in
      let m : GatewayReservation = metered (cumulative_cost es) final r in
      (
        ground (arith, get-put_self id m s.reservations),
        ground (
          arith,
          get-put_self id m s.reservations,
          get-put_self id es s.usage_events,
          add_event_again key u v c b kind other (events_of id s),
          get-put_self id (metered (cumulative_cost es) again m) (put id m s.reservations),
        ),
      )
]

-- The fence passes or raises, and changes nothing.
fence_cases :
    (id : String) (owner : Option String) (g : Option ℕ) (s : ReferenceGatewayStore)
    → (fence id owner g s ≡ (ok tt, s)) ⊎ ((z : Exception) × (fence id owner g s ≡ (err z, s)))
unfolding fence assert_execution_owner
fence_cases id (some o) (some g) s = elim (Option-cases (get id s.invocations)) [
  | inl p ↦ inr (key_error, ground arith)
  | inr (v, p) ↦ elim (Bool-cases (owns o g v)) [
    | inl q ↦ inl (ground arith)
    | inr q ↦ inr (ownership_lost "AI Gateway execution ownership was lost", ground arith)
  ]
]
fence_cases id (some o) none s = inl refl
fence_cases id none g s = inl refl

module _ (id : String) (u : AiUsage) (c : ℕ) (key kind : String) (final : Bool)
    (owner : Option String) (g : Option ℕ) (s : ReferenceGatewayStore) where
  -- A call that returns is the metering itself.
  record_usage-meter :
      (record_usage id u c key kind final owner g s).0 ≡ ok tt
      → record_usage id u c key kind final owner g s ≡ meter id u c key kind final s
  unfolding record_usage
  record_usage-meter h = elim (fence_cases id owner g s) [
    | inl p ↦ ground (arith, p)
    | inr (z, p) ↦ absurd (ground (arith, p, h))
  ]

  -- A call is the metering, or it is refused and changes nothing.
  record_usage_cases :
      (record_usage id u c key kind final owner g s ≡ meter id u c key kind final s)
      ⊎ ((record_usage id u c key kind final owner g s).1 ≡ s)
  unfolding record_usage
  record_usage_cases = elim (fence_cases id owner g s) [
    | inl p ↦ inl (ground (arith, p))
    | inr (z, p) ↦ inr (ground (arith, p))
  ]

-- A metering call that returns, with or without a fence, leaves the sum of the event costs as the
-- actual cost; one more call with the same event key, whatever it reports and under whatever fence,
-- does not change it.
pub record_usage_once :
    (id : String) (u v : AiUsage) (c b : ℕ) (key kind other : String) (final again : Bool)
    (owner owner' : Option String) (g g' : Option ℕ) (s : ReferenceGatewayStore)
    → (record_usage id u c key kind final owner g s).0 ≡ ok tt
    → let t = (record_usage id u c key kind final owner g s).1 in
      (spent id t ≡ some (cumulative_cost (add_event key u c kind (events_of id s))))
      × (spent id (record_usage id v b key other again owner' g' t).1 ≡ spent id t)
record_usage_once id u v c b key kind other final again owner owner' g g' s h =
    let e = record_usage-meter id u c key kind final owner g s h in
    let t = (record_usage id u c key kind final owner g s).1 in
    let (p, q) = meter_once id u v c b key kind other final again s (rw e at h) in
    elim (record_usage_cases id v b key other again owner' g' t) [
      | inl k ↦ (rw e p, ground (arith, e, k, q))
      | inr k ↦ (rw e p, ap (spent id) k)
    ]
