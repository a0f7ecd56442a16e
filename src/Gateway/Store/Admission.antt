-- ===== src/Gateway/Store/Admission.antt =====
-- About `accept` of ReferenceGatewayStore (gateway.py).
use aieos.Base.{
  ℕ, String, true, some, ◌==◌, string_eq, pair_eq, ok, err, value_error, ◌≡◌, arith, inl, inr,
  Option-cases, string_beq_iff, if◌then◌else◌,
}
use aieos.Base.Dict.{get, get-put_self}
use aieos.Contracts.Results.{ResultEnvelope}
use aieos.Gateway.Types.{AiInvocationRequest, Acceptance, GatewayInvocation}
use aieos.Gateway.Store.{
  ReferenceGatewayStore, new_invocation, admission_key, replay, admit, accept,
}

module _ (digest : AiInvocationRequest → String) where
  -- what the store holds for a key, once a request was admitted under it
  record Admitted (key : (String × String) × String) (d : String) (a : Acceptance)
      (s : ReferenceGatewayStore) : Type 0 where
    entry : get key s.admission ≡ some (a.ai_invocation_id, d)
    held : GatewayInvocation
    found : get a.ai_invocation_id s.invocations ≡ some held
    acknowledged : held.acknowledgement ≡ a.acknowledgement

  admit-Admitted :
      (r : AiInvocationRequest) (id : String) (ack : ResultEnvelope) (now : ℕ) (a : Acceptance)
      (s : ReferenceGatewayStore)
      → (admit digest r id ack now s).0 ≡ ok a
      → Admitted (admission_key r) (digest r) a (admit digest r id ack now s).1
  unfolding admit
  admit-Admitted r id ack now a s h = record {
    entry = ground (arith, get-put_self (admission_key r) (id, digest r) s.admission);
    held = new_invocation r id ack now;
    found = ground (arith, get-put_self id (new_invocation r id ack now) s.invocations);
    acknowledged = ground arith;
  }

  replay-Admitted :
      (key : (String × String) × String) (e : String × String) (d : String) (a : Acceptance)
      (s : ReferenceGatewayStore)
      → get key s.admission ≡ some e
      → (replay digest e d s).0 ≡ ok a
      → Admitted key d a (replay digest e d s).1
  unfolding replay
  replay-Admitted key (id, old) d a s p h = elim (Option-cases (get id s.invocations)) [
    | inl q ↦ absurd (ground (arith, string_beq_iff old d))
    | inr (v, q) ↦ record {
      entry = ground (arith, string_beq_iff old d);
      held = v;
      found = ground (arith, string_beq_iff old d);
      acknowledged = ground (arith, string_beq_iff old d);
    }
  ]

  accept-Admitted :
      (r : AiInvocationRequest) (id : String) (ack : ResultEnvelope) (now : ℕ) (a : Acceptance)
      (s : ReferenceGatewayStore)
      → (accept digest r id ack now s).0 ≡ ok a
      → Admitted (admission_key r) (digest r) a (accept digest r id ack now s).1
  unfolding accept
  accept-Admitted r id ack now a s h = elim (Option-cases (get (admission_key r) s.admission)) [
    | inl p ↦ rw (p, accept) (admit-Admitted r id ack now a s (rw (p, accept) at h))
    | inr (e, p) ↦
        rw (p, accept) (replay-Admitted (admission_key r) e (digest r) a s p (rw (p, accept) at h))
  ]

  Admitted-accept :
      (r : AiInvocationRequest) (id : String) (ack : ResultEnvelope) (now : ℕ) (a : Acceptance)
      (d : String) (s : ReferenceGatewayStore)
      → Admitted (admission_key r) d a s
      → accept digest r id ack now s ≡ (
        if d == digest r
            then ok (record a { replay = true })
            else err (value_error "IdempotencyKey payload conflict"),
        s,
      )
  unfolding accept
  Admitted-accept r id ack now a d s h = ground (arith, h.entry, h.found, h.acknowledged)

  -- After a request was accepted, a request with the same scope and idempotency key gets the same
  -- invocation and acknowledgement, marked as a replay, if its digest is the same, and is refused
  -- if it is not. Either way the store stays as it was.
  pub accept_again :
      (r r' : AiInvocationRequest) (id id' : String) (ack ack' : ResultEnvelope) (now now' : ℕ)
      (a : Acceptance) (s : ReferenceGatewayStore)
      → (accept digest r id ack now s).0 ≡ ok a
      → admission_key r' ≡ admission_key r
      → let t = (accept digest r id ack now s).1 in
        accept digest r' id' ack' now' t ≡ (
          if digest r == digest r'
              then ok (record a { replay = true })
              else err (value_error "IdempotencyKey payload conflict"),
          t,
        )
  accept_again r r' id id' ack ack' now now' a s h k =
      Admitted-accept r' id' ack' now' a (digest r) (accept digest r id ack now s).1
        (rw k (accept-Admitted r id ack now a s h))
