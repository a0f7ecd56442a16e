-- ===== src/EventBus/Restart.antt =====
-- About a `drain` that raises and `recover_unpublished_claims` (bus.py).
use aieos.Base.{
  ℕ, ◌+◌, String, Bool, false, not, Option, some, none, List, [], ◌∷◌, string_eq, Result, ok, err,
  Exception, ◌≡◌, refl, arith, inl, inr, ◌⊎◌, map, keep, Option-cases, Result-cases,
}
use aieos.Base.Dict.{Dict, get, values, get-put_self}
use aieos.Contracts.Events.{EventEnvelope}
use aieos.EventBus.{OutboxEntry, Hub, Consumers, publish}
use aieos.EventBus.Outbox.{
  is_pending, pending, change, claim, mark_published, release, settle, relay_one, drain_loop, drain,
  published_entry, released_entry, recovered_entry, recover_unpublished_claims,
}
use aieos.EventBus.Grows.{TableOrderly}
use aieos.EventBus.Drain.{IsDone, IsDone-Grows, relay_one-IsDone, drain_loop-Growing}

abbrev pub Unclaimed : Option OutboxEntry → Type 0
Unclaimed none = Unit
Unclaimed (some x) = x.claimed ≡ false

abbrev pub is_published : Option OutboxEntry → Bool
is_published none = false
is_published (some x) = x.published

module _ {W : Type 0} where
  change-Unclaimed :
      (f : OutboxEntry → OutboxEntry) (id : String) (s : Hub W)
      → ((x : OutboxEntry) → (f x).claimed ≡ false)
      → Unclaimed (get id (change f id s).1.entries)
  unfolding change
  change-Unclaimed f id s k = elim (Option-cases (get id s.entries)) [
    | inl p ↦ ground arith
    | inr (x, p) ↦ ground (arith, get-put_self id (f x) s.entries, k x)
  ]

  settle-Unclaimed :
      (e : EventEnvelope) (r : Result (Unit {0})) (s : Hub W)
      → Unclaimed (get e.event_id (settle e r s).1.entries)
  unfolding settle mark_published release
  settle-Unclaimed e (ok _) s = change-Unclaimed published_entry e.event_id s (λ x. refl)
  settle-Unclaimed e (err x) s =
      ground (arith, change-Unclaimed released_entry e.event_id s (λ x. refl))

  claim_missing :
      (id : String) (s : Hub W) (x : Exception)
      → (claim id s).0 ≡ err x
      → Unclaimed (get id (claim id s).1.entries)
  unfolding claim
  claim_missing id s x h = elim (Option-cases (get id s.entries)) [
    | inl p ↦ ground arith
    | inr (y, p) ↦ ground arith
  ]

  -- However a relay step ends, it leaves no claim behind.
  relay_one-Unclaimed :
      (t : Consumers W) (e : EventEnvelope) (s : Hub W)
      → Unclaimed (get e.event_id (relay_one t e s).1.entries)
  unfolding relay_one
  relay_one-Unclaimed t e s = elim (Result-cases (claim e.event_id s).0) [
    | inl (u, h) ↦
        let s1 : Hub W = (claim e.event_id s).1 in
        ground (arith, settle-Unclaimed e (publish t e s1).0 (publish t e s1).1)
    | inr (x, h) ↦ ground (arith, claim_missing e.event_id s x h)
  ]

  release-is_published :
      (id : String) (s : Hub W)
      → is_published (get id (release id s).1.entries) ≡ is_published (get id s.entries)
  unfolding release change
  release-is_published id s = elim (Option-cases (get id s.entries)) [
    | inl p ↦ ground arith
    | inr (x, p) ↦ ground (arith, get-put_self id (released_entry x) s.entries)
  ]

  settle-is_published :
      (e : EventEnvelope) (x : Exception) (s : Hub W)
      → is_published (get e.event_id (settle e (err x) s).1.entries)
        ≡ is_published (get e.event_id s.entries)
  unfolding settle
  settle-is_published e x s = ground (arith, release-is_published e.event_id s)

  settle_raises :
      (e : EventEnvelope) (r : Result (Unit {0})) (s : Hub W) (z : Exception)
      → (settle e r s).0 ≡ err z
      → is_published (get e.event_id (settle e r s).1.entries)
        ≡ is_published (get e.event_id s.entries)
  unfolding settle mark_published change
  settle_raises e (err x) s z h = settle-is_published e x s
  settle_raises e (ok _) s z h = elim (Option-cases (get e.event_id s.entries)) [
    | inl p ↦ ground arith
    | inr (x, p) ↦ absurd (ground (arith, p, h))
  ]

  -- A relay step that raises leaves the flag as the delivery left it.
  relay_one_raises :
      (t : Consumers W) (e : EventEnvelope) (u : Hub W) (z : Exception)
      → (relay_one t e u).0 ≡ err z
      → (get e.event_id u.entries ≡ none)
        ⊎ (is_published (get e.event_id (relay_one t e u).1.entries)
            ≡ is_published (get e.event_id (publish t e (claim e.event_id u).1).1.entries))
  unfolding relay_one claim change
  relay_one_raises t e u z h = elim (Option-cases (get e.event_id u.entries)) [
    | inl p ↦ inl p
    | inr (x, p) ↦
        let s : Hub W = (claim e.event_id u).1 in
        inr (ground (arith, p, h, settle_raises e (publish t e s).0 (publish t e s).1 z))
  ]

module _ {W : Type 0} (t : Consumers W) (orderly : TableOrderly t) where
  -- From `u`, the entries before one of them were relayed and are done in the last state `s`; the
  -- relay of that one raised `z` and led to `s`. There it holds no claim, and it is published exactly
  -- if it was when its delivery had raised, or it had no entry to claim.
  abbrev pub StoppedAt : Exception → List OutboxEntry → Hub W → Hub W → Type 0
  StoppedAt z [] u s = ⊥
  StoppedAt z (x ∷ xs) u s =
      ((relay_one t x.event u ≡ (err z, s))
        × Unclaimed (get x.event.event_id s.entries)
        × ((get x.event.event_id u.entries ≡ none)
            ⊎ (is_published (get x.event.event_id s.entries)
                ≡ is_published (
                    get x.event.event_id
                      (publish t x.event (claim x.event.event_id u).1).1.entries))))
      ⊎ (((relay_one t x.event u).0 ≡ ok tt)
          × IsDone t orderly x.event s
          × StoppedAt z xs (relay_one t x.event u).1 s)

  drain_loop_ok :
      (x : OutboxEntry) (xs : List OutboxEntry) (n : ℕ) (s : Hub W)
      → (relay_one t x.event s).0 ≡ ok tt
      → drain_loop t (x ∷ xs) n s ≡ drain_loop t xs (n + 1) (relay_one t x.event s).1
  unfolding drain_loop
  drain_loop_ok x xs n s p = ground arith

  drain_loop_err :
      (x : OutboxEntry) (xs : List OutboxEntry) (n : ℕ) (s : Hub W) {z : Exception}
      → (relay_one t x.event s).0 ≡ err z
      → drain_loop t (x ∷ xs) n s ≡ (err z, (relay_one t x.event s).1)
  unfolding drain_loop
  drain_loop_err x xs n s p = ground arith

  drain_loop-StoppedAt :
      (xs : List OutboxEntry) (n : ℕ) (s : Hub W) {x : Exception}
      → (drain_loop t xs n s).0 ≡ err x
      → StoppedAt x xs s (drain_loop t xs n s).1
  unfolding drain_loop
  drain_loop-StoppedAt [] n s h = cc
  drain_loop-StoppedAt (x ∷ xs) n s {x = y} h = elim (Result-cases (relay_one t x.event s).0) [
    | inl (u, p) ↦
        let v : Hub W = (relay_one t x.event s).1 in
        let q = drain_loop_ok x xs n s p in
        rw q (
          inr (
            p,
            IsDone-Grows t orderly x.event (drain_loop-Growing t orderly xs (n + 1) v)
                (relay_one-IsDone t orderly x.event s p),
            drain_loop-StoppedAt xs (n + 1) v (rw q at h),
          ))
    | inr (z, p) ↦
        let q = drain_loop_err x xs n s p in
        let e : (relay_one t x.event s).0 ≡ err y = ground (arith, p, rw q at h) in
        rw q (
          inl
            (ground (arith, e), relay_one-Unclaimed t x.event s, relay_one_raises t x.event s y e))
  ]

  -- A drain that raises stops at one of the entries that were pending: the relay of that entry
  -- raised the drain's exception and led to the drain's last state, where the entry holds no claim
  -- and is published only if the delivery itself left it so. Every entry before it was relayed, is
  -- published and reached its subscribers.
  pub drain-StoppedAt :
      (s : Hub W) {x : Exception} → (drain t s).0 ≡ err x → StoppedAt x (pending s) s (drain t s).1
  unfolding drain
  drain-StoppedAt s h = drain_loop-StoppedAt (pending s) 0 s h

pub unpublished : OutboxEntry → Bool
unpublished x = not x.published

pending_recovered :
    (d : Dict String OutboxEntry)
    → keep is_pending (values (map (λ p. (p.0, recovered_entry p.1)) d))
      ≡ map recovered_entry (keep unpublished (values d))
unfolding recovered_entry unpublished
pending_recovered [] = refl
pending_recovered ((k, x) ∷ d) = ground (arith, pending_recovered d)

-- A relay that starts over a store recovers: what is pending is then every entry that is not
-- published, claimed before or not, with its claim taken back.
pub pending-recover :
    {W : Type 0} (s : Hub W)
    → pending (recover_unpublished_claims s)
      ≡ map recovered_entry (keep unpublished (values s.entries))
unfolding pending recover_unpublished_claims
pending-recover s = pending_recovered s.entries
