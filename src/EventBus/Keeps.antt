-- ===== src/EventBus/Keeps.antt =====
-- About `publish` and `drain` (bus.py): what the consumers keep of their state, delivery keeps.
use aieos.Base.{
  ℕ, ◌+◌, String, List, [], ◌∷◌, string_eq, pair_eq, Result, ok, err, arith, inl, inr, Bool-cases,
  Option-cases,
}
use aieos.Base.Dict.{get}
use aieos.Base.Exec.{◌>>◌}
use aieos.Base.Exec.Keeps.{Keeps, bind-Keeps, value-Keeps}
use aieos.Contracts.Events.{EventEnvelope}
use aieos.EventBus.{
  OutboxEntry, Hub, Consumer, Consumers, has_receipt, list_event, registrations, add_receipt,
  deliver_all, publish,
}
use aieos.EventBus.Outbox.{
  record_event, change, claim, mark_published, release, claimed_entry, published_entry,
  released_entry, settle, relay_one, drain_loop, drain, pending,
}

module _ {W : Type 0} (P : W → Type 0) where
  abbrev pub Holds : Hub W → Type 0
  Holds s = P s.world

  abbrev pub AllKeep : List (String × Consumer W) → Type 0
  AllKeep [] = Unit
  AllKeep ((name, c) ∷ rest) = ((e : EventEnvelope) → Keeps Holds (c e)) × AllKeep rest

  -- every consumer keeps it
  abbrev pub TableKeeps : Consumers W → Type 0
  TableKeeps t = (event_type : String) → AllKeep (registrations event_type t)

  change-Keeps :
      (f : OutboxEntry → OutboxEntry) (id : String) → Keeps Holds {A = Unit} (change f id)
  unfolding change
  change-Keeps f id s h = elim (Option-cases (get id s.entries)) [
    | inl e ↦ rw (e, change) h
    | inr (x, e) ↦ rw (e, change) h
  ]

  deliver-Keeps :
      (e : EventEnvelope) (cs : List (String × Consumer W))
      → AllKeep cs
      → Keeps Holds (deliver_all e cs)
  unfolding deliver_all
  deliver-Keeps e [] k s h = h
  deliver-Keeps e ((name, c) ∷ rest) k s h = elim (Bool-cases (has_receipt (e.event_id, name) s)) [
    | inl p ↦ rw (p, deliver_all) (deliver-Keeps e rest k.1 s h)
    | inr p ↦
        rw (p, deliver_all)
          (bind-Keeps Holds (c e) (λ _. do add_receipt (e.event_id, name); deliver_all e rest)
            (k.0 e)
            (λ _.
              bind-Keeps Holds (add_receipt (e.event_id, name)) (λ _. deliver_all e rest) (λ u q. q)
                (λ _. deliver-Keeps e rest k.1))
            s h)
  ]

  list_event-Keeps : (e : EventEnvelope) (s : Hub W) → Holds s → Holds (list_event e s)
  unfolding list_event
  list_event-Keeps e s h = ground (arith, h)

  pub record-Keeps : (e : EventEnvelope) → Keeps Holds (record_event e)
  unfolding record_event
  record-Keeps e s h = ground (arith, h)

  settle-Keeps : (e : EventEnvelope) (r : Result (Unit {0})) → Keeps Holds (settle e r)
  unfolding settle mark_published release
  settle-Keeps e (ok _) = change-Keeps published_entry e.event_id
  settle-Keeps e (err x) =
      bind-Keeps Holds (release e.event_id) (λ _ s. (err x, s))
        (change-Keeps released_entry e.event_id) (λ _. value-Keeps Holds {A = Unit} (err x))

  module _ (t : Consumers W) (k : TableKeeps t) where
    publish-Keeps : (e : EventEnvelope) → Keeps Holds (publish t e)
    unfolding publish
    publish-Keeps e s h = ground (
      arith,
      h,
      deliver-Keeps e (registrations e.event_type t) (k e.event_type) (list_event e s)
          (list_event-Keeps e s h),
    )

    relay-Keeps : (e : EventEnvelope) → Keeps Holds (relay_one t e)
    unfolding relay_one claim
    relay-Keeps e =
        bind-Keeps Holds (claim e.event_id) (λ _ s. let (r, s') = publish t e s in settle e r s')
          (change-Keeps claimed_entry e.event_id)
          (λ _ s h. settle-Keeps e (publish t e s).0 (publish t e s).1 (publish-Keeps e s h))

    loop-Keeps : (xs : List OutboxEntry) (n : ℕ) → Keeps Holds (drain_loop t xs n)
    unfolding drain_loop
    loop-Keeps [] n s h = h
    loop-Keeps (x ∷ xs) n s h =
        bind-Keeps Holds (relay_one t x.event) (λ _. drain_loop t xs (n + 1)) (relay-Keeps x.event)
          (λ _. loop-Keeps xs (n + 1)) s h

    pub drain-Keeps : Keeps Holds (drain t)
    unfolding drain
    drain-Keeps s h = loop-Keeps (pending s) 0 s h
