-- ===== src/Tests/Bus.antt =====
-- The event bus and the outbox.
use aieos.Base.{
  ℕ, ◌+◌, [], ◌∷◌, ok, err, value_error, ◌≡◌, refl, keep, ◌==◌, string_eq, inl, inr, Bool-cases,
  arith, map, length,
}
use aieos.Base.Dict.{get, put, values}
use aieos.Tests.Samples.{an_event}
use aieos.EventBus.{Hub, Consumer, Consumers, registrations, publish, deliver_all, list_event}
use aieos.EventBus.Outbox.{
  pending, drain, drain_loop, relay_one, claim, mark_published, release, recovered_entry,
  recover_unpublished_claims, fresh,
}
use aieos.EventBus.Grows.{Orderly, TableOrderly}
use aieos.EventBus.Delivery.{AllReceived, publish-AllReceived, publish_again}
use aieos.EventBus.Drain.{AllDone, drain-AllDone}
use aieos.EventBus.Restart.{StoppedAt, drain-StoppedAt, pending-recover, unpublished}

-- a consumer that counts, and one that always raises
abbrev counts : Consumer ℕ
counts e s = (ok tt, record s { world = s.world + 1 })

abbrev fails : Consumer ℕ
fails e s = (err (value_error "projection is down"), s)

abbrev counting : Consumers ℕ
counting = ("ExecutionAttemptSucceeded", ("engine", counts) ∷ []) ∷ []

abbrev failing : Consumers ℕ
failing = ("ExecutionAttemptSucceeded", ("engine", fails) ∷ []) ∷ []

abbrev waiting : Hub ℕ
waiting = record {
  entries = ("event_1", fresh (an_event "event_1")) ∷ ("event_2", fresh (an_event "event_2")) ∷ [];
  delivered = [];
  published = [];
  world = 0;
}

counts-Orderly : Orderly counts
counts-Orderly e s = record {
  receipts = λ q h. h;
  listed = λ id h. h;
  entries = λ id x h. ground arith;
}

fails-Orderly : Orderly fails
fails-Orderly e s = record {
  receipts = λ q h. h;
  listed = λ id h. h;
  entries = λ id x h. ground arith;
}

counting-TableOrderly : TableOrderly counting
unfolding registrations get
counting-TableOrderly k = elim (Bool-cases ("ExecutionAttemptSucceeded" == k)) [
  | inl p ↦ rw p (counts-Orderly, tt)
  | inr p ↦ rw p tt
]

failing-TableOrderly : TableOrderly failing
unfolding registrations get
failing-TableOrderly k = elim (Bool-cases ("ExecutionAttemptSucceeded" == k)) [
  | inl p ↦ rw p (fails-Orderly, tt)
  | inr p ↦ rw p tt
]

publish-AllReceived_example :
    AllReceived
      (an_event "event_1")
      (registrations "ExecutionAttemptSucceeded" counting)
      (publish counting (an_event "event_1") waiting).1
unfolding publish deliver_all registrations get list_event
publish-AllReceived_example =
    publish-AllReceived counting counting-TableOrderly (an_event "event_1") waiting refl

publish_again_example :
    let s = (publish counting (an_event "event_1") waiting).1 in
    publish counting (an_event "event_1") s ≡ (ok tt, s)
unfolding publish deliver_all registrations get list_event
publish_again_example =
    publish_again counting counting-TableOrderly (an_event "event_1") waiting refl

drain-AllDone_example :
    AllDone counting counting-TableOrderly (pending waiting) (drain counting waiting).1
    × (2 ≡ length (pending waiting))
unfolding drain drain_loop pending relay_one claim get publish deliver_all registrations list_event
    mark_published put
drain-AllDone_example = drain-AllDone counting counting-TableOrderly 2 waiting refl

drain-StoppedAt_example :
    StoppedAt failing failing-TableOrderly
      (value_error "projection is down")
      (pending waiting)
      waiting
      (drain failing waiting).1
unfolding drain drain_loop pending relay_one claim get publish deliver_all registrations list_event
    release put
drain-StoppedAt_example =
    drain-StoppedAt failing failing-TableOrderly waiting {x = value_error "projection is down"} refl

pending-recover_example :
    pending (recover_unpublished_claims waiting)
    ≡ map recovered_entry (keep unpublished (values waiting.entries))
pending-recover_example = pending-recover waiting
