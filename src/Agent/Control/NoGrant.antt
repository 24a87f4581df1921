-- ===== src/Agent/Control/NoGrant.antt =====
-- An agent can ask for approvals and spend them, and grants none
-- (src/dsa_operator/agent/control.py).
use dsa110_operator.Prelude.{ℕ, String, ◌≡◌, refl, sym, subst, ◌⊎◌, inl, inr, List, [], ◌∷◌}
use dsa110_operator.Prelude.Int.{ℤ}
use dsa110_operator.Prelude.Assoc.{Assoc, Every, insert-Every, remove-Every}
use dsa110_operator.Platform.{Platform}
use dsa110_operator.Control.Approvals.{
  Approval, ApprovalStore, Request, request, new_approval, consume,
}
use dsa110_operator.Control.Engine.{Engine, Attempt, Evaluation}
use dsa110_operator.Control.Engine.Safety.{evaluate-AllAllowed}
use dsa110_operator.Control.Executor.Confined.{AllAllowed}
use dsa110_operator.Control.Engine.Outcomes.{
  IsSpent, crash, refused, free_of_charge, spent, evaluate-IsSpent,
}
use dsa110_operator.Observing.Session.{ModeApplier}
use dsa110_operator.Agent.Chat.{AgentControl}
use dsa110_operator.Agent.Control.Calls.{Call, chat}
use dsa110_operator.Agent.Control.Keeps.{IsKept, chat_keeps}

-- The approval is one of those in the store.
abbrev pub Stored : ApprovalStore → Approval → Type 0
Stored [] ap = ⊥
Stored ((id, x) ∷ rest) ap = (ap ≡ x) ⊎ Stored rest ap

-- No grant was added: nobody has granted the approval, or it stood there before, as it is.
abbrev pub IsOld : ApprovalStore → Approval → Type 0
IsOld before ap = (ap.granted_by ≡ []) ⊎ Stored before ap

pub all-Stored :
    (before rest : ApprovalStore)
    → ((ap : Approval) → Stored rest ap → Stored before ap)
    → Every (IsOld before) rest
all-Stored before [] sub = tt
all-Stored before ((id, x) ∷ rest) sub =
    (inr (sub x (inl refl)), all-Stored before rest (λ ap h. sub ap (inr h)))

module _ (p : Platform) (before : ApprovalStore) where
  abbrev pub NoNewGrant : Engine → Type 0
  NoNewGrant w = Every (IsOld before) w.approvals

  IsSpent-NoNewGrant :
      (a : Attempt) (w : Engine) {r : Evaluation × Engine}
      → IsSpent p a w r
      → NoNewGrant w
      → NoNewGrant r.1
  unfolding consume
  IsSpent-NoNewGrant a w (crash e) h = subst (Every (IsOld before)) (sym e) h
  IsSpent-NoNewGrant a w (refused n e) h = subst (Every (IsOld before)) (sym e) h
  IsSpent-NoNewGrant a w (free_of_charge y n e) h = subst (Every (IsOld before)) (sym e) h
  IsSpent-NoNewGrant a w (spent y g ap f e) h = subst (Every (IsOld before)) (sym e) (taken ap.id)
    where
      taken : (id : String) → Every (IsOld before) (consume id w.approvals)
      taken id = remove-Every (IsOld before) id w.approvals h

  asked-NoNewGrant :
      (id : String) (r : Request) (w : Engine)
      → NoNewGrant w
      → Every (IsOld before) (request p id w.store.now r w.approvals).1
  unfolding request
  asked-NoNewGrant id r w h =
      insert-Every (IsOld before) id (new_approval p id w.store.now r) w.approvals (inl refl) h

  pub NoNewGrant-IsKept : (user : String) → IsKept p user NoNewGrant
  NoNewGrant-IsKept user = record {
    evaluated = λ a w h. IsSpent-NoNewGrant a w (evaluate-IsSpent p a w) h;
    noted = λ row w h. h;
    stored = λ b w h. h;
    requested = λ id action params w h. asked-NoNewGrant id _ w h;
  }

pub Sent-IsKept : (p : Platform) (user : String) → IsKept p user (λ w. AllAllowed w.sent)
Sent-IsKept p user = record {
  evaluated = evaluate-AllAllowed p;
  noted = λ row w h. h;
  stored = λ b w h. h;
  requested = λ id action params w h. h;
}

module _ (p : Platform) (a : AgentControl) (appliers : Assoc ModeApplier)
    (round_start round_dec : ℤ → ℤ) (calls : List (ℕ × Call)) (w : Engine) where
  -- No chat grants an approval: after any calls of the agent's control tools, whatever they reply or
  -- raise, each stored approval has been granted by nobody or stood in the store before the chat,
  -- with the same grants.
  pub chat-NoNewGrant :
      Every (IsOld w.approvals) (chat p a appliers round_start round_dec calls w).approvals
  chat-NoNewGrant =
      chat_keeps p a (NoNewGrant p w.approvals) (NoNewGrant-IsKept p w.approvals a.actor) appliers
        round_start round_dec calls w (all-Stored w.approvals w.approvals (λ ap h. h))

  -- Whatever the agent calls, what is sent to the observatory are posts to `/control/` routes of the
  -- dashboard and puts under `/cmd/ant/` only.
  pub chat-AllAllowed :
      AllAllowed w.sent → AllAllowed (chat p a appliers round_start round_dec calls w).sent
  chat-AllAllowed =
      chat_keeps p a (λ v. AllAllowed v.sent) (Sent-IsKept p a.actor) appliers round_start round_dec
        calls w
