-- ===== src/EventBus/Outbox.antt =====
-- InMemoryOutboxStore and OutboxRelay of bus.py
use aieos.Base.{
  ℕ, ◌+◌, String, Bool, true, false, not, ◌&&◌, Option, some, none, List, [], ◌∷◌, ◌==◌, keep, map,
  string_eq, Result, ok, err, value_error, key_error, if◌then◌else◌,
}
use aieos.Base.Dict.{get, put, set_default, values}
use aieos.Base.Exec.{Exec, ◌>>◌}
use aieos.Contracts.Events.{EventEnvelope, event_eq}
use aieos.EventBus.{OutboxEntry, Hub, Consumers, publish}

abbrev pub fresh : EventEnvelope → OutboxEntry
fresh e = record { event = e; published = false; claimed = false }

conflicts : Option OutboxEntry → EventEnvelope → Bool
conflicts none e = false
conflicts (some x) e = not (x.event == e)

abbrev pub is_pending : OutboxEntry → Bool
is_pending x = not x.published && not x.claimed

abbrev pub claimed_entry : OutboxEntry → OutboxEntry
claimed_entry x = record x { claimed = true }

abbrev pub published_entry : OutboxEntry → OutboxEntry
published_entry x = record x { published = true; claimed = false }

abbrev pub released_entry : OutboxEntry → OutboxEntry
released_entry x = record x { claimed = false }

unfoldable pub recovered_entry : OutboxEntry → OutboxEntry
recovered_entry x = if x.published then x else record x { claimed = false }

module _ {W : Type 0} where
  -- `record` of the store and of the relay
  unfoldable pub record_event : EventEnvelope → Exec (Hub W) (Unit {0})
  unfolding conflicts
  record_event e s =
      if conflicts (get e.event_id s.entries) e
      then (err (value_error "EventId cannot be reused with changed content"), s)
      else (ok tt, record s { entries = set_default e.event_id (fresh e) s.entries })

  unfoldable pub pending : Hub W → List OutboxEntry
  pending s = keep is_pending (values s.entries)

  change_found : (OutboxEntry → OutboxEntry) → String → Option OutboxEntry → Exec (Hub W) (Unit {0})
  change_found f id none s = (err key_error, s)
  change_found f id (some x) s = (ok tt, record s { entries = put id (f x) s.entries })

  -- self._entries[event_id], changed
  unfoldable pub change : (OutboxEntry → OutboxEntry) → String → Exec (Hub W) (Unit {0})
  unfolding change_found
  change f id s = change_found f id (get id s.entries) s

  unfoldable pub claim : String → Exec (Hub W) (Unit {0})
  unfolding change
  claim = change claimed_entry

  unfoldable pub mark_published : String → Exec (Hub W) (Unit {0})
  unfolding change
  mark_published = change published_entry

  unfoldable pub release : String → Exec (Hub W) (Unit {0})
  unfolding change
  release = change released_entry

  unfoldable pub recover_unpublished_claims : Hub W → Hub W
  unfolding recovered_entry
  recover_unpublished_claims s = record s {
    entries = map (λ p. (p.0, recovered_entry p.1)) s.entries;
  }

  -- the `except` and the `else` of the loop
  unfoldable pub settle : EventEnvelope → Result (Unit {0}) → Exec (Hub W) (Unit {0})
  settle e (ok _) = mark_published e.event_id
  settle e (err x) = do release e.event_id; (λ s. (err x, s))

  unfoldable pub relay_one : Consumers W → EventEnvelope → Exec (Hub W) (Unit {0})
  unfolding settle
  relay_one t e = do claim e.event_id; (λ s. let (r, s') = publish t e s in settle e r s')

  -- The loop runs over the snapshot that `pending` took.
  unfoldable pub drain_loop : Consumers W → List OutboxEntry → ℕ → Exec (Hub W) ℕ
  drain_loop t [] n s = (ok n, s)
  drain_loop t (x ∷ xs) n s = (do relay_one t x.event; drain_loop t xs (n + 1)) s

  unfoldable pub drain : Consumers W → Exec (Hub W) ℕ
  drain t s = drain_loop t (pending s) 0 s
