-- ===== src/EventBus/Drain.antt =====
-- About `drain` of OutboxRelay (bus.py).
use aieos.Base.{
  ℕ, ◌+◌, String, true, Option, some, none, List, [], ◌∷◌, string_eq, Result, ok, err, ◌≡◌, refl,
  arith, inl, inr, length, Option-cases,
}
use aieos.Base.Dict.{get, get-put_self}
use aieos.Base.Exec.{bind-ok}
use aieos.Contracts.Events.{EventEnvelope}
use aieos.EventBus.{OutboxEntry, Hub, Consumers, registrations, publish}
use aieos.EventBus.Outbox.{
  pending, claim, mark_published, release, settle, relay_one, drain_loop, drain, published_entry,
}
use aieos.EventBus.Grows.{
  Later, Grows, Growing, TableOrderly, publish-Growing, Grows-trans, Grows-refl, claim-Growing,
  mark_published-Growing, release-Growing, Growing-bind,
}
use aieos.EventBus.Delivery.{AllReceived, AllReceived-Grows, publish-AllReceived}

-- the entry of an identifier is published
abbrev pub IsPublished : Option OutboxEntry → Type 0
IsPublished none = ⊥
IsPublished (some x) = x.published ≡ true

IsPublished-Later :
    (x : OutboxEntry) (o : Option OutboxEntry) → Later x o → x.published ≡ true → IsPublished o
IsPublished-Later x none h p = h
IsPublished-Later x (some y) h p = h.1 p

mark_published-IsPublished :
    {W : Type 0} (id : String) (s : Hub W)
    → (mark_published id s).0 ≡ ok tt
    → IsPublished (get id (mark_published id s).1.entries)
unfolding mark_published
mark_published-IsPublished id s h = elim (Option-cases (get id s.entries)) [
  | inl p ↦ ground arith
  | inr (x, p) ↦ ground (arith, get-put_self id (published_entry x) s.entries)
]

module _ {W : Type 0} (t : Consumers W) (orderly : TableOrderly t) where
  -- published, and received by every subscriber
  abbrev pub IsDone : EventEnvelope → Hub W → Type 0
  IsDone e s =
      IsPublished (get e.event_id s.entries) × AllReceived e (registrations e.event_type t) s

  pub IsDone-Grows : (e : EventEnvelope) {s u : Hub W} → Grows s u → IsDone e s → IsDone e u
  IsDone-Grows e {s} {u} g h = elim (Option-cases (get e.event_id s.entries)) [
    | inl p ↦ absurd (rw p at h.0)
    | inr (x, p) ↦ (
      IsPublished-Later x (get e.event_id u.entries) (g.entries e.event_id x p) (rw p at h.0),
      AllReceived-Grows e (registrations e.event_type t) g h.1,
    )
  ]

  settle-Growing : (e : EventEnvelope) (r : Result (Unit {0})) → Growing {W = W} (settle e r)
  unfolding settle
  settle-Growing e (ok _) = mark_published-Growing e.event_id
  settle-Growing e (err x) =
      Growing-bind (release e.event_id) (λ _ s. (err x, s)) (release-Growing e.event_id)
        (λ _ s. Grows-refl s)

  relay_one-Growing : (e : EventEnvelope) → Growing (relay_one t e)
  unfolding relay_one
  relay_one-Growing e =
      Growing-bind (claim e.event_id) (λ _ s. let (r, s') = publish t e s in settle e r s')
        (claim-Growing e.event_id)
        (λ _ s.
          Grows-trans (publish-Growing t orderly e s)
            (settle-Growing e (publish t e s).0 (publish t e s).1))

  pub drain_loop-Growing : (xs : List OutboxEntry) (n : ℕ) → Growing (drain_loop t xs n)
  unfolding drain_loop
  drain_loop-Growing [] n s = Grows-refl s
  drain_loop-Growing (x ∷ xs) n s =
      Growing-bind (relay_one t x.event) (λ _. drain_loop t xs (n + 1)) (relay_one-Growing x.event)
        (λ _. drain_loop-Growing xs (n + 1)) s

  settle_ok :
      (e : EventEnvelope) (r : Result (Unit {0})) (s : Hub W)
      → (settle e r s).0 ≡ ok tt
      → (r ≡ ok tt) × IsPublished (get e.event_id (settle e r s).1.entries)
  unfolding settle
  settle_ok e (ok tt) s h = (refl, mark_published-IsPublished e.event_id s h)
  settle_ok e (err x) s h = ground arith

  settle-IsDone :
      (e : EventEnvelope) (s : Hub W)
      → (settle e (publish t e s).0 (publish t e s).1).0 ≡ ok tt
      → IsDone e (settle e (publish t e s).0 (publish t e s).1).1
  settle-IsDone e s h =
      let (p, q) = settle_ok e (publish t e s).0 (publish t e s).1 h in
      (
        q,
        AllReceived-Grows e (registrations e.event_type t)
            (settle-Growing e (publish t e s).0 (publish t e s).1)
            (publish-AllReceived t orderly e s p),
      )

  -- A relay step that returns has published the event and reached its subscribers.
  pub relay_one-IsDone :
      (e : EventEnvelope) (s : Hub W) → (relay_one t e s).0 ≡ ok tt → IsDone e (relay_one t e s).1
  unfolding relay_one
  relay_one-IsDone e s h = ground (arith, settle-IsDone e (claim e.event_id s).1)

  -- each of the entries is done
  abbrev pub AllDone : List OutboxEntry → Hub W → Type 0
  AllDone [] s = Unit
  AllDone (x ∷ xs) s = IsDone x.event s × AllDone xs s

  drain_loop-AllDone :
      (xs : List OutboxEntry) (n m : ℕ) (s : Hub W)
      → (drain_loop t xs n s).0 ≡ ok m
      → AllDone xs (drain_loop t xs n s).1 × (m ≡ n + length xs)
  unfolding drain_loop
  drain_loop-AllDone [] n m s h = (tt, ground arith)
  drain_loop-AllDone (x ∷ xs) n m s h =
      let u : Hub W = (relay_one t x.event s).1 in
      let (_, p, q) = bind-ok (relay_one t x.event) (λ _. drain_loop t xs (n + 1)) s h in
      let (done, counted) = drain_loop-AllDone xs (n + 1) m u (rw q at h) in
      rw q (
        (
          IsDone-Grows x.event (drain_loop-Growing xs (n + 1) u) (relay_one-IsDone x.event s p),
          done,
        ),
        omega (arith, counted),
      )

  -- A drain that returns has published every entry that was pending when it began, each has
  -- reached every subscriber of its type, and the result counts them.
  pub drain-AllDone :
      (n : ℕ) (s : Hub W)
      → (drain t s).0 ≡ ok n
      → AllDone (pending s) (drain t s).1 × (n ≡ length (pending s))
  unfolding drain
  drain-AllDone n s h =
      let (done, counted) = drain_loop-AllDone (pending s) 0 n s h in (done, omega (arith, counted))
