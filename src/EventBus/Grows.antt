-- ===== src/EventBus/Grows.antt =====
-- About `publish` of InProcessEventBus and `record` of InMemoryOutboxStore (bus.py).
use aieos.Base.{
  String, true, Option, some, none, List, [], ◌∷◌, ◌==◌, string_eq, pair_eq, Result, ok, err, ◌≡◌,
  refl, ◌∙◌, arith, inl, inr, string_beq_iff, Bool-cases, Option-cases, any-append,
}
use aieos.Base.Dict.{get, set_default, get-put}
use aieos.Base.Exec.{Exec, ◌>>=◌, ◌>>◌}
use aieos.Contracts.Events.{EventEnvelope}
use aieos.EventBus.{
  OutboxEntry, Hub, Consumer, Consumers, has_receipt, is_listed, list_event, registrations,
  add_receipt, deliver_all, publish,
}
use aieos.EventBus.Outbox.{
  fresh, record_event, change, claim, mark_published, release, claimed_entry, published_entry,
  released_entry,
}

-- The entry of an event later on: the same event, and published if it was.
abbrev pub Later : OutboxEntry → Option OutboxEntry → Type 0
Later x none = ⊥
Later x (some y) = (y.event ≡ x.event) × (x.published ≡ true → y.published ≡ true)

pub record Grows {W : Type 0} (s t : Hub W) : Type 0 where
  pub receipts : (r : String × String) → has_receipt r s ≡ true → has_receipt r t ≡ true
  pub listed : (id : String) → is_listed id s ≡ true → is_listed id t ≡ true
  pub entries :
      (id : String) (x : OutboxEntry) → get id s.entries ≡ some x → Later x (get id t.entries)

Later-trans :
    (x y : OutboxEntry) (o : Option OutboxEntry) → Later x (some y) → Later y o → Later x o
Later-trans x y none h k = k
Later-trans x y (some z) h k = (k.0 ∙ h.0, λ p. k.1 (h.1 p))

module _ {W : Type 0} where
  pub Grows-refl : (s : Hub W) → Grows s s
  Grows-refl s = record {
    receipts = λ r h. h;
    listed = λ id h. h;
    entries = λ id x h. ground arith;
  }

  pub Grows-trans : {s t u : Hub W} → Grows s t → Grows t u → Grows s u
  Grows-trans {s} {t} {u} g h = record {
    receipts = λ r p. h.receipts r (g.receipts r p);
    listed = λ id p. h.listed id (g.listed id p);
    entries = λ id x p. elim (Option-cases (get id t.entries)) [
      | inl e ↦ absurd (rw e at (g.entries id x p))
      | inr (y, e) ↦
          Later-trans x y (get id u.entries) (rw e at (g.entries id x p)) (h.entries id y e)
    ];
  }

  -- A consumer that works on the hub through its operations.
  abbrev pub Orderly : Consumer W → Type 0
  Orderly c = (e : EventEnvelope) (s : Hub W) → Grows s (c e s).1

  abbrev pub AllOrderly : List (String × Consumer W) → Type 0
  AllOrderly [] = Unit
  AllOrderly ((name, c) ∷ rest) = Orderly c × AllOrderly rest

  pub add_receipt-Grows :
      (r : String × String) (s : Hub W) → Grows s (record s { delivered = r ∷ s.delivered })
  add_receipt-Grows r s = record {
    receipts = λ q h. ground arith;
    listed = λ id h. h;
    entries = λ id x h. ground arith;
  }

  -- an action after which the hub has only grown
  abbrev pub Growing : {A : Type 0} → Exec (Hub W) A → Type 0
  Growing m = (s : Hub W) → Grows s (m s).1

  after :
      {A B : Type 0} (s t : Hub W) (r : Result A) (f : A → Exec (Hub W) B)
      → Grows s t
      → ((a : A) → Growing (f a))
      → Grows s (((λ u. (r, u)) >>= f) t).1
  after s t (ok a) f g h = Grows-trans g (h a t)
  after s t (err x) f g h = g

  pub Growing-bind :
      {A B : Type 0} (m : Exec (Hub W) A) (f : A → Exec (Hub W) B)
      → Growing m
      → ((a : A) → Growing (f a))
      → Growing (m >>= f)
  Growing-bind m f g h s = let (r, t) = m s in after s t r f (g s) h

  pub deliver_all-Growing :
      (e : EventEnvelope) (cs : List (String × Consumer W))
      → AllOrderly cs
      → Growing (deliver_all e cs)
  unfolding deliver_all
  deliver_all-Growing e [] h s = Grows-refl s
  deliver_all-Growing e ((name, c) ∷ rest) h s =
      elim (Bool-cases (has_receipt (e.event_id, name) s)) [
        | inl p ↦ rw (p, deliver_all) (deliver_all-Growing e rest h.1 s)
        | inr p ↦
            rw (p, deliver_all)
              (Growing-bind (c e) (λ _. do add_receipt (e.event_id, name); deliver_all e rest)
                (h.0 e)
                (λ _.
                  Growing-bind (add_receipt (e.event_id, name)) (λ _. deliver_all e rest)
                    (add_receipt-Grows (e.event_id, name)) (λ _. deliver_all-Growing e rest h.1))
                s)
      ]

  change-Growing :
      (f : OutboxEntry → OutboxEntry) (id : String)
      → ((x : OutboxEntry) → Later x (some (f x)))
      → Growing (change f id)
  unfolding change
  change-Growing f id k s = elim (Option-cases (get id s.entries)) [
    | inl e ↦ rw (e, change) (Grows-refl s)
    | inr (x, e) ↦
        rw (e, change)
          (record {
            receipts = λ q h. h;
            listed = λ id h. h;
            entries =
                λ j y h. ground (arith, get-put id j (f x) s.entries, string_beq_iff id j, k x);
          })
  ]

  list_event-Grows : (e : EventEnvelope) (s : Hub W) → Grows s (list_event e s)
  unfolding list_event
  list_event-Grows e s = record {
    receipts = λ q h. ground arith;
    listed = λ id h. ground (arith, any-append (λ item. item.event_id == id) s.published (e ∷ []));
    entries = λ id x h. ground arith;
  }

  pub claim-Growing : (id : String) → Growing {A = Unit} (claim id)
  unfolding claim
  claim-Growing id = change-Growing claimed_entry id (λ x. (refl, λ p. p))

  pub mark_published-Growing : (id : String) → Growing {A = Unit} (mark_published id)
  unfolding mark_published
  mark_published-Growing id = change-Growing published_entry id (λ x. (refl, λ p. refl))

  pub release-Growing : (id : String) → Growing {A = Unit} (release id)
  unfolding release
  release-Growing id = change-Growing released_entry id (λ x. (refl, λ p. p))

  -- Recording an event takes nothing back: no entry gets another event or becomes unpublished.
  pub record_event-Growing : (e : EventEnvelope) → Growing (record_event e)
  unfolding record_event set_default
  record_event-Growing e s = record {
    receipts = λ q h. ground arith;
    listed = λ id h. ground arith;
    entries = λ id x h.
        ground (arith, get-put e.event_id id (fresh e) s.entries, string_beq_iff e.event_id id);
  }

  module _ (t : Consumers W) where
    -- every consumer of every event type works through the hub's operations
    abbrev pub TableOrderly : Type 0
    TableOrderly = (event_type : String) → AllOrderly (registrations event_type t)

    -- Delivery takes nothing back, whether it succeeds or a consumer raises.
    pub publish-Growing : TableOrderly → (e : EventEnvelope) → Growing (publish t e)
    unfolding publish
    publish-Growing h e s = ground (
      arith,
      Grows-refl s,
      Grows-trans (list_event-Grows e s)
          (deliver_all-Growing e (registrations e.event_type t) (h e.event_type) (list_event e s)),
    )
