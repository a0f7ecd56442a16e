-- ===== src/Gateway/Execution/Fencing.antt =====
-- About the leases of ReferenceGatewayStore (gateway.py).
use aieos.Base.{
  ℕ, ◌+◌, ◌≤◌, ◌<◌, String, true, false, Option, some, none, string_eq, nat_eq, ok, err,
  ownership_lost, ◌≡◌, refl, arith, inl, inr, Option-cases, Bool-cases, string_beq_iff, is_some,
}
use aieos.Base.Dict.{get, put, get-put, get-put_self}
use aieos.Gateway.Types.{GatewayInvocation}
use aieos.Gateway.Store.{ReferenceGatewayStore, checkpoint}
use aieos.Gateway.Execution.{
  claim_execution, release_execution, renew_execution, assert_execution_owner,
  checkpoint_terminal_intent, checkpoint_as, intent_conflicts, owns, held_by_another, claimed,
}

-- A worker's claim that is gone: the worker is not the owner at this generation, which has been
-- reached.
abbrev pub LostBy : String → ℕ → Option GatewayInvocation → Type 0
LostBy owner generation none = ⊥
LostBy owner generation (some v) =
    (owns owner generation v ≡ false) × (generation ≤ v.claim_generation)

abbrev pub Lost : String → String → ℕ → ReferenceGatewayStore → Type 0
Lost id owner generation s = LostBy owner generation (get id s.invocations)

-- A worker's call on any invocation. A checkpoint writes an object whose owner and generation are
-- those that the store holds: `load` hands out the stored object itself, which a claim and a release
-- change in place, so in this store the object of a worker that was overtaken is up to date in them.
pub data Step : ReferenceGatewayStore → ReferenceGatewayStore → Type 0 where
  claim :
      (id owner : String) (now lease : ℕ) (s : ReferenceGatewayStore)
      → Step s (claim_execution id owner now lease s).1
  release :
      (id owner : String) (generation : ℕ) (s : ReferenceGatewayStore)
      → Step s (release_execution id owner generation s).1
  renew :
      (id owner : String) (generation now lease : ℕ) (s : ReferenceGatewayStore)
      → Step s (renew_execution id owner generation now lease s).1
  save :
      (v w : GatewayInvocation) (s : ReferenceGatewayStore)
      → get v.invocation_id s.invocations ≡ some w
      → v.execution_owner ≡ w.execution_owner
      → v.claim_generation ≡ w.claim_generation
      → Step s (checkpoint v s).1
  save_intent :
      (v : GatewayInvocation) (s : ReferenceGatewayStore)
      → Step s (checkpoint_terminal_intent v s).1

pub data Reach (s : ReferenceGatewayStore) : ReferenceGatewayStore → Type 0 where
  here : Reach s s
  next : {t u : ReferenceGatewayStore} → Reach s t → Step t u → Reach s u

module _ (id owner : String) (generation : ℕ) where
  claim-Lost :
      (j o : String) (now lease : ℕ) (s : ReferenceGatewayStore)
      → Lost id owner generation s
      → Lost id owner generation (claim_execution j o now lease s).1
  unfolding claim_execution owns
  claim-Lost j o now lease s h = elim (Option-cases (get j s.invocations)) [
    | inl p ↦ ground arith
    | inr (v, p) ↦
        ground (arith, get-put j id (claimed o now lease v) s.invocations, string_beq_iff j id)
  ]

  release-Lost :
      (j o : String) (g : ℕ) (s : ReferenceGatewayStore)
      → Lost id owner generation s
      → Lost id owner generation (release_execution j o g s).1
  unfolding release_execution
  release-Lost j o g s h = elim (Option-cases (get j s.invocations)) [
    | inl p ↦ ground arith
    | inr (v, p) ↦ ground (
      arith,
      string_beq_iff j id,
      get-put j id (record v { execution_owner = none; execution_lease_expires_at = none })
          s.invocations,
    )
  ]

  renew-Lost :
      (j o : String) (g now lease : ℕ) (s : ReferenceGatewayStore)
      → Lost id owner generation s
      → Lost id owner generation (renew_execution j o g now lease s).1
  unfolding renew_execution
  renew-Lost j o g now lease s h = elim (Option-cases (get j s.invocations)) [
    | inl p ↦ ground arith
    | inr (v, p) ↦ ground (
      arith,
      string_beq_iff j id,
      get-put j id (record v { execution_lease_expires_at = some (now + lease) }) s.invocations,
    )
  ]

  checkpoint-Lost :
      (v w : GatewayInvocation) (s : ReferenceGatewayStore)
      → get v.invocation_id s.invocations ≡ some w
      → v.execution_owner ≡ w.execution_owner
      → v.claim_generation ≡ w.claim_generation
      → Lost id owner generation s
      → Lost id owner generation (checkpoint v s).1
  unfolding checkpoint owns
  checkpoint-Lost v w s p q r h =
      ground (arith, get-put v.invocation_id id v s.invocations, string_beq_iff v.invocation_id id)

  owns-claims :
      (o : String) (v w : GatewayInvocation)
      → owns o v.claim_generation w ≡ true
      → v.execution_owner ≡ some o
      → (v.execution_owner ≡ w.execution_owner) × (v.claim_generation ≡ w.claim_generation)
  unfolding owns
  owns-claims o v w k q = elim (Option-cases w.execution_owner) [
    | inl p ↦ absurd (ground (arith, p))
    | inr (x, p) ↦ ground (arith, p, q, string_beq_iff x o, string_beq_iff o x)
  ]

  -- A value with the stored owner and generation, put in its place.
  stored-Lost :
      (o : String) (v w : GatewayInvocation) (s : ReferenceGatewayStore)
      → get v.invocation_id s.invocations ≡ some w
      → (v.execution_owner ≡ w.execution_owner) × (v.claim_generation ≡ w.claim_generation)
      → Lost id owner generation s
      → LostBy owner generation (get id (put v.invocation_id v s.invocations))
  unfolding owns
  stored-Lost o v w s p k h =
      ground (arith, string_beq_iff v.invocation_id id, get-put v.invocation_id id v s.invocations)

  checkpoint_as-Lost :
      (o : String) (v : GatewayInvocation) (s : ReferenceGatewayStore)
      → v.execution_owner ≡ some o
      → Lost id owner generation s
      → Lost id owner generation (checkpoint_as o v s).1
  unfolding checkpoint_as assert_execution_owner
  checkpoint_as-Lost o v s q h = elim (Option-cases (get v.invocation_id s.invocations)) [
    | inl p ↦ ground (arith, p, h)
    | inr (w, p) ↦ elim (Bool-cases (owns o v.claim_generation w)) [
      | inl k ↦ elim (Bool-cases (intent_conflicts w v)) [
        | inl c ↦ ground (arith, p, k, c, h)
        | inr c ↦ ground (arith, p, k, c, stored-Lost o v w s p (owns-claims o v w k q) h)
      ]
      | inr k ↦ ground (arith, p, k, h)
    ]
  ]

  intent-Lost :
      (x : Option String) (v : GatewayInvocation) (s : ReferenceGatewayStore)
      → v.execution_owner ≡ x
      → Lost id owner generation s
      → Lost id owner generation (checkpoint_terminal_intent v s).1
  unfolding checkpoint_terminal_intent
  intent-Lost none v s q h = ground (arith, q, h)
  intent-Lost (some o) v s q h = ground (arith, q, h, checkpoint_as-Lost o v s q h)

  Step-Lost :
      {s t : ReferenceGatewayStore}
      → Step s t
      → Lost id owner generation s
      → Lost id owner generation t
  Step-Lost (claim j o now lease s) h = claim-Lost j o now lease s h
  Step-Lost (release j o g s) h = release-Lost j o g s h
  Step-Lost (renew j o g now lease s) h = renew-Lost j o g now lease s h
  Step-Lost (save v w s p q r) h = checkpoint-Lost v w s p q r h
  Step-Lost (save_intent v s) h = intent-Lost v.execution_owner v s refl h

  Reach-Lost :
      {s t : ReferenceGatewayStore}
      → Reach s t
      → Lost id owner generation s
      → Lost id owner generation t
  Reach-Lost here h = h
  Reach-Lost (next r st) h = Step-Lost st (Reach-Lost r h)

  Lost-assert :
      (s : ReferenceGatewayStore)
      → Lost id owner generation s
      → assert_execution_owner id owner generation s
        ≡ (err (ownership_lost "AI Gateway execution ownership was lost"), s)
  unfolding assert_execution_owner
  Lost-assert s h = elim (Option-cases (get id s.invocations)) [
    | inl p ↦ ground arith
    | inr (v, p) ↦ ground arith
  ]

  -- A worker that has lost an invocation, by another claim, its own new one or a release, is
  -- refused by the ownership check after any sequence of claims, releases, renewals, terminal intents
  -- and checkpoints, where a checkpoint writes the owner and the generation that the store holds.
  pub Lost-for_ever :
      {s t : ReferenceGatewayStore}
      → Lost id owner generation s
      → Reach s t
      → assert_execution_owner id owner generation t
        ≡ (err (ownership_lost "AI Gateway execution ownership was lost"), t)
  Lost-for_ever {t = t} h r = Lost-assert t (Reach-Lost r h)

-- A claim that succeeded: what was there, and what it changed.
pub record Claims (id owner : String) (now g : ℕ) (s t : ReferenceGatewayStore) : Type 0 where
  pub before : GatewayInvocation
  pub found : get id s.invocations ≡ some before
  pub open_ended : is_some before.terminal ≡ false
  pub free : held_by_another owner now before ≡ false
  pub newer : before.claim_generation < g
  pub owned : assert_execution_owner id owner g t ≡ (ok tt, t)
  pub taken : (o : String) (k : ℕ) → (assert_execution_owner id o k s).0 ≡ ok tt → Lost id o k t

claim_takes :
    (id owner o : String) (now lease g k : ℕ) (s : ReferenceGatewayStore)
    → (claim_execution id owner now lease s).0 ≡ ok (some g)
    → (assert_execution_owner id o k s).0 ≡ ok tt
    → Lost id o k (claim_execution id owner now lease s).1
unfolding claim_execution assert_execution_owner
claim_takes id owner o now lease g k s h a = elim (Option-cases (get id s.invocations)) [
  | inl p ↦ absurd (ground arith)
  | inr (v, p) ↦ ground (arith, get-put_self id (claimed owner now lease v) s.invocations)
]

-- A claim that succeeds makes the caller the owner, at a generation above the one before, and
-- whoever passed the ownership check before has lost the invocation. It succeeds only if there is
-- no terminal outcome and no running lease of another worker.
pub claim-Claims :
    (id owner : String) (now lease g : ℕ) (s : ReferenceGatewayStore)
    → (claim_execution id owner now lease s).0 ≡ ok (some g)
    → Claims id owner now g s (claim_execution id owner now lease s).1
unfolding claim_execution assert_execution_owner
claim-Claims id owner now lease g s h = elim (Option-cases (get id s.invocations)) [
  | inl p ↦ absurd (ground arith)
  | inr (v, p) ↦ record {
    before = v;
    found = p;
    open_ended = ground arith;
    free = ground arith;
    newer = ground arith;
    owned = ground (
      arith,
      get-put_self id (claimed owner now lease v) s.invocations,
      string_beq_iff owner owner,
    );
    taken = λ o k a. claim_takes id owner o now lease g k s h a;
  }
]
