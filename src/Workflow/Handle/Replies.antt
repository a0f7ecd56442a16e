-- ===== src/Workflow/Handle/Replies.antt =====
-- About what a method of WorkflowEngine (engine.py) returns and the receipt of its command.
use aieos.Base.{
  Bool, true, false, sym, string_eq, ok, Exception, if◌then◌else◌, ◌≡◌, refl, arith, Option-cases,
  inl, inr,
}
use mathlib.Core.Path.{subst}
use aieos.Base.Dict.{get, get-put_self}
use aieos.Base.Exec.{Exec, raise, ◌>>=◌, bind-ok}
use aieos.Contracts.Commands.{CommandEnvelope, command_eq}
use aieos.Contracts.Results.{ResultEnvelope}
use aieos.Workflow.Instance.{processed, Engine}
use aieos.Workflow.Repository.{receipt_for_command, complete_command}
use aieos.Workflow.Cancel.Answers.{Remembered, Answers, own}
use aieos.Workflow.System.{System, engine_of, on_engine}
use aieos.Workflow.Receipt.{Named, KeepsNamed}

-- What the method returns is remembered for the command, if nothing else was stored for it before.
abbrev pub Replies : {W : Type 0} → CommandEnvelope → Exec (System W) ResultEnvelope → Type 0
Replies c m =
    (s : System _) (r : ResultEnvelope)
    → Named c (engine_of s)
    → (m s).0 ≡ ok r
    → Remembered c r (engine_of (m s).1)

-- The same for a method of the engine alone.
abbrev pub EngineReplies : CommandEnvelope → Exec Engine ResultEnvelope → Type 0
EngineReplies c m =
    (s : Engine) (r : ResultEnvelope) → Named c s → (m s).0 ≡ ok r → Remembered c r (m s).1

module _ (c : CommandEnvelope) where
  pub complete-Replies : EngineReplies c (complete_command c.command_id)
  unfolding complete_command receipt_for_command
  complete-Replies s r n h = elim (Option-cases (get c.command_id s.command_receipts)) [
    | inl p ↦ absurd (ground (arith, p, h))
    | inr (rc, p) ↦
        let e : rc.command ≡ c = rw p at n in
        (
          record rc { state = processed },
          ground (
            arith,
            p,
            get-put_self c.command_id (record rc { state = processed }) s.command_receipts,
          ),
          e,
          refl,
          ground (arith, p, h),
        )
  ]

  module _ {W : Type 0} where
    pub engine-Replies :
        (m : Exec Engine ResultEnvelope) → EngineReplies c m → Replies c (on_engine {W = W} m)
    unfolding on_engine
    engine-Replies m k s r n h = k (engine_of s) r n h

    pub answer-Replies :
        (m : Exec Engine ResultEnvelope) → Answers own c m → Replies c (on_engine {W = W} m)
    unfolding on_engine
    answer-Replies m k s r n h = k (engine_of s) r h

    pub bind-Replies_if :
        {A : Type 0} (P : A → Type 0) (m : Exec (System W) A)
        (f : A → Exec (System W) ResultEnvelope)
        → KeepsNamed c m
        → ((s : System W) (x : A) → (m s).0 ≡ ok x → P x)
        → ((x : A) → P x → Replies c (f x))
        → Replies c (m >>= f)
    bind-Replies_if P m f k l g s r n h =
        let (x, p, e) = bind-ok m f s h in
        subst (λ q. Remembered c r (engine_of q.1)) (sym e)
          (g x (l s x p) (m s).1 r (k s n) (subst (λ q. q.0 ≡ ok r) e h))

    pub bind-Replies :
        {A : Type 0} (m : Exec (System W) A) (f : A → Exec (System W) ResultEnvelope)
        → KeepsNamed c m
        → ((x : A) → Replies c (f x))
        → Replies c (m >>= f)
    bind-Replies m f k g = bind-Replies_if (λ _. Unit) m f k (λ _ _ _. tt) (λ x _. g x)

    pub if_Replies :
        (b : Bool) (m n : Exec (System W) ResultEnvelope)
        → Replies c m
        → Replies c n
        → Replies c (if b then m else n)
    if_Replies true m n h k = h
    if_Replies false m n h k = k

    pub raise-Replies : (x : Exception) → Replies c (raise {S = System W} x)
    raise-Replies x s r n h = cc
