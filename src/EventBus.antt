-- ===== src/EventBus.antt =====
-- adapters/event_bus_in_process/src/aieos/adapters/event_bus_in_process/bus.py: InProcessEventBus.
-- A consumer may itself record, drain and publish, so it acts on the whole `Hub`: the outbox, the
-- bus and whatever else the process holds (`World`).
pub mod Outbox
pub mod Grows
pub mod Keeps
pub mod Delivery
pub mod Drain
pub mod Restart
use aieos.Base.{
  String, Bool, true, false, not, ◌||◌, Option, some, none, List, [], ◌∷◌, ◌++◌, ◌==◌, string_eq,
  pair_eq, any, all, Result, ok, err, value_error, lookup_error, raise_if, ◌>>◌ as ◌then◌, map,
  if◌then◌else◌,
}
use aieos.Base.Dict.{Dict, get, put}
use aieos.Base.Exec.{Exec, pure, modify, guard_not, ◌>>=◌, ◌>>◌}
use aieos.Contracts.Common.{is_empty}
use aieos.Contracts.Events.{EventEnvelope}

-- _OutboxEntry
pub record OutboxEntry : Type 0 where
  pub event : EventEnvelope
  pub published : Bool
  pub claimed : Bool

pub record Hub (World : Type 0) : Type 0 where
  pub entries : Dict String OutboxEntry  -- InMemoryOutboxStore._entries
  pub delivered : List (String × String)  -- InProcessEventBus._delivered: (event, consumer)
  pub published : List EventEnvelope  -- InProcessEventBus.published
  pub world : World

abbrev pub Consumer : Type 0 → Type 0
Consumer World = EventEnvelope → Exec (Hub World) (Unit {0})

-- InProcessEventBus._consumers. It is filled before the first event is published.
abbrev pub Consumers : Type 0 → Type 0
Consumers World = Dict String (List (String × Consumer World))

abbrev or_empty {ℓ} : {A : Type ℓ} → Option (List A) → List A
or_empty none = []
or_empty (some xs) = xs

-- self._consumers.get(event_type, ())
unfoldable pub registrations : {W : Type 0} → String → Consumers W → List (String × Consumer W)
registrations event_type t = or_empty (get event_type t)

module _ {W : Type 0} where
  unfoldable pub subscribe : String → String → Consumer W → Consumers W → Result (Consumers W)
  unfolding registrations
  subscribe event_type name consumer t =
      let rs = registrations event_type t in
      if any (λ r. r.0 == name) rs
      then err (value_error "duplicate Event consumer")
      else ok (put event_type (rs ++ (name, consumer) ∷ []) t)

  unfoldable pub consumer_names : String → Consumers W → List String
  unfolding registrations
  consumer_names event_type t = map (λ r. r.0) (registrations event_type t)

  abbrev pub has_receipt : String × String → Hub W → Bool
  has_receipt r s = any (λ q. q == r) s.delivered

  -- self._delivered.add(receipt)
  abbrev pub add_receipt : String × String → Exec (Hub W) (Unit {0})
  add_receipt r = modify (λ s. record s { delivered = r ∷ s.delivered })

  find_consumer : String → List (String × Consumer W) → Option (Consumer W)
  find_consumer name [] = none
  find_consumer name ((n, c) ∷ rs) = if n == name then some c else find_consumer name rs

  consume_once : EventEnvelope → String → Option (Consumer W) → Exec (Hub W) (Unit {0})
  consume_once e name none s = (err (lookup_error "Event consumer is not registered"), s)
  consume_once e name (some consumer) s =
      if has_receipt (e.event_id, name) s
      then (ok tt, s)
      else (do consumer e; add_receipt (e.event_id, name)) s

  unfoldable pub deliver_to : Consumers W → EventEnvelope → String → Exec (Hub W) (Unit {0})
  unfolding find_consumer consume_once registrations
  deliver_to t e name = consume_once e name (find_consumer name (registrations e.event_type t))

  -- the loop of `publish`
  unfoldable pub deliver_all : EventEnvelope → List (String × Consumer W) → Exec (Hub W) (Unit {0})
  deliver_all e [] s = (ok tt, s)
  deliver_all e ((name, consumer) ∷ rest) s = elim (has_receipt (e.event_id, name) s) [
    | true ↦ deliver_all e rest s
    | false ↦ (do consumer e; add_receipt (e.event_id, name); deliver_all e rest) s
  ]

  abbrev pub is_listed : String → Hub W → Bool
  is_listed id s = any (λ item. item.event_id == id) s.published

  unfoldable pub list_event : EventEnvelope → Hub W → Hub W
  list_event e s =
      if is_listed e.event_id s then s else record s { published = s.published ++ e ∷ [] }

  unfoldable pub publish : Consumers W → EventEnvelope → Exec (Hub W) (Unit {0})
  publish t e = do
    guard_not (is_empty e.event_id || is_empty e.producer)
        (value_error "Event transport envelope is incomplete")
    modify (list_event e)
    deliver_all e (registrations e.event_type t)
