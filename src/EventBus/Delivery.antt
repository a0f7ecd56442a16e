-- ===== src/EventBus/Delivery.antt =====
-- About `publish` of InProcessEventBus (bus.py).
use aieos.Base.{
  String, true, false, ◌||◌, List, [], ◌∷◌, ◌==◌, string_eq, pair_eq, any-append, ok, ◌≡◌, refl,
  arith, inl, inr, Bool-cases, string_beq_iff, nat_eq,
}
use aieos.Contracts.Common.{is_empty}
use aieos.Contracts.Events.{EventEnvelope}
use aieos.EventBus.{
  Hub, Consumer, Consumers, has_receipt, is_listed, list_event, registrations, deliver_all, publish,
}
use aieos.EventBus.Grows.{Grows, AllOrderly, TableOrderly, deliver_all-Growing}

module _ {W : Type 0} where
  -- every one of the consumers has its receipt for the event
  abbrev pub AllReceived : EventEnvelope → List (String × Consumer W) → Hub W → Type 0
  AllReceived e [] s = Unit
  AllReceived e ((name, c) ∷ rest) s =
      (has_receipt (e.event_id, name) s ≡ true) × AllReceived e rest s

  pub AllReceived-Grows :
      (e : EventEnvelope) (cs : List (String × Consumer W)) {s t : Hub W}
      → Grows s t
      → AllReceived e cs s
      → AllReceived e cs t
  AllReceived-Grows e [] g h = tt
  AllReceived-Grows e ((name, c) ∷ rest) g h =
      (g.receipts (e.event_id, name) h.0, AllReceived-Grows e rest g h.1)

  deliver_all-AllReceived :
      (e : EventEnvelope) (cs : List (String × Consumer W)) (s : Hub W)
      → AllOrderly cs
      → (deliver_all e cs s).0 ≡ ok tt
      → AllReceived e cs (deliver_all e cs s).1
  unfolding deliver_all
  deliver_all-AllReceived e [] s o h = tt
  deliver_all-AllReceived e ((name, c) ∷ rest) s o h =
      elim (Bool-cases (has_receipt (e.event_id, name) s)) [
        | inl p ↦ ground (
          arith,
          (deliver_all-Growing e rest o.1 s).receipts (e.event_id, name),
          deliver_all-AllReceived e rest s o.1,
        )
        | inr p ↦
            let s1 : Hub W = (c e s).1 in
            let s2 : Hub W = record s1 { delivered = (e.event_id, name) ∷ s1.delivered } in
            ground (
              arith,
              (deliver_all-Growing e rest o.1 s2).receipts (e.event_id, name),
              deliver_all-AllReceived e rest s2 o.1,
              string_beq_iff e.event_id e.event_id,
              string_beq_iff name name,
            )
      ]

  deliver_all_again :
      (e : EventEnvelope) (cs : List (String × Consumer W)) (s : Hub W)
      → AllReceived e cs s
      → deliver_all e cs s ≡ (ok tt, s)
  unfolding deliver_all
  deliver_all_again e [] s h = refl
  deliver_all_again e ((name, c) ∷ rest) s h = ground (arith, deliver_all_again e rest s)

  list_event-is_listed :
      (e : EventEnvelope) (s : Hub W) → is_listed e.event_id (list_event e s) ≡ true
  unfolding list_event
  list_event-is_listed e s = ground (
    arith,
    any-append (λ item. item.event_id == e.event_id) s.published (e ∷ []),
    string_beq_iff e.event_id e.event_id,
  )

  module _ (t : Consumers W) (orderly : TableOrderly t) where
    -- A publish that returns has reached every subscriber of the event's type: each has its
    -- receipt.
    pub publish-AllReceived :
        (e : EventEnvelope) (s : Hub W)
        → (publish t e s).0 ≡ ok tt
        → AllReceived e (registrations e.event_type t) (publish t e s).1
    unfolding publish
    publish-AllReceived e s h = ground (
      arith,
      deliver_all-AllReceived e (registrations e.event_type t) (list_event e s)
          (orderly e.event_type),
    )

    publish_accepted :
        (e : EventEnvelope) (s : Hub W)
        → (publish t e s).0 ≡ ok tt
        → (is_empty e.event_id || is_empty e.producer) ≡ false
    unfolding publish
    publish_accepted e s h = ground arith

    publish-is_listed :
        (e : EventEnvelope) (s : Hub W)
        → (publish t e s).0 ≡ ok tt
        → is_listed e.event_id (publish t e s).1 ≡ true
    unfolding publish
    publish-is_listed e s h = ground (
      arith,
      list_event-is_listed e s,
      (deliver_all-Growing e (registrations e.event_type t) (orderly e.event_type)
            (list_event e s)).listed
          e.event_id,
    )

    publish_noop :
        (e : EventEnvelope) (s : Hub W)
        → (is_empty e.event_id || is_empty e.producer) ≡ false
        → is_listed e.event_id s ≡ true
        → AllReceived e (registrations e.event_type t) s
        → publish t e s ≡ (ok tt, s)
    unfolding publish list_event
    publish_noop e s a l r = ground (arith, deliver_all_again e (registrations e.event_type t) s r)

    -- Once a publish has returned, to publish the event again calls no consumer and changes
    -- nothing.
    pub publish_again :
        (e : EventEnvelope) (s : Hub W)
        → (publish t e s).0 ≡ ok tt
        → publish t e (publish t e s).1 ≡ (ok tt, (publish t e s).1)
    publish_again e s h =
        publish_noop e (publish t e s).1 (publish_accepted e s h) (publish-is_listed e s h)
          (publish-AllReceived e s h)
