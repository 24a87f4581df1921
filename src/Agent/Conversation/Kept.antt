-- ===== src/Agent/Conversation/Kept.antt =====
-- What a chat with a model keeps of the engine (src/dsa_operator/agent/claude.py).
use dsa110_operator.Prelude.{
  ℕ, zero, suc, String, ◌≡◌, Option, some, List, [], ◌∷◌, ◌++◌, if-cases, elim-cases, Option-cases,
  inl, inr,
}
use dsa110_operator.Prelude.Assoc.{Every}
use dsa110_operator.Platform.{Platform}
use dsa110_operator.Control.Engine.{Engine}
use dsa110_operator.Control.Executor.Confined.{AllAllowed}
use dsa110_operator.Agent.Chat.{AgentControl}
use dsa110_operator.Agent.Control.Calls.{Call, chat}
use dsa110_operator.Agent.Control.Keeps.{IsKept, chat_keeps}
use dsa110_operator.Agent.Control.NoGrant.{
  IsOld, all-Stored, NoNewGrant, NoNewGrant-IsKept, Sent-IsKept,
}
use dsa110_operator.Agent.Conversation.{
  Block, text_block, use_block, Use, read_use, control_use, unknown, Response, Message, user,
  assistant, results, Payload, World, Outcome, Setting, max_tool_iters, run_tool, run_tools, turns,
  converse, control_call,
}

module _ (p : Platform) (s : Setting) (I : Engine → Type 0)
    (keep : (a : AgentControl) → s.control ≡ some a → IsKept p a.actor I) where
  call_keeps :
      (wait : ℕ) (c : Call) (w : World) (a : AgentControl)
      → s.control ≡ some a
      → I w.engine
      → I (control_call p s wait c w a).1.engine
  unfolding chat
  call_keeps wait c w a own h =
      chat_keeps p a I (keep a own) s.appliers s.round_start s.round_dec ((wait, c) ∷ []) w.engine h

  run_tool_keeps : (u : Use) (w : World) → I w.engine → I (run_tool p s u w).1.engine
  unfolding run_tool
  run_tool_keeps (read_use t tool) w h = h
  run_tool_keeps (control_use wait c) w h = elim (Option-cases s.control) [
    | inl e ↦ rw e h
    | inr (a, e) ↦ rw e (call_keeps wait c w a e h)
  ]
  run_tool_keeps unknown w h = h

  run_tools_keeps :
      (blocks : List Block) (w : World) → I w.engine → I (run_tools p s blocks w).2.engine
  unfolding run_tools
  run_tools_keeps [] w h = h
  run_tools_keeps (text_block text ∷ blocks) w h = run_tools_keeps blocks w h
  run_tools_keeps (use_block id u ∷ blocks) w h =
      run_tools_keeps blocks (run_tool p s u w).1 (run_tool_keeps u w h)

  abbrev IsKeptBy : Outcome × List Message × World → Type 0
  IsKeptBy x = I x.2.engine

  turns_keeps :
      (model : List Message → Option Response) (n : ℕ) (messages : List Message)
      (calls : List Payload) (w : World)
      → I w.engine
      → IsKeptBy (turns p s model n messages calls w)
  unfolding turns
  turns_keeps model zero messages calls w h = h
  turns_keeps model (suc n) messages calls w h = elim-cases IsKeptBy (model messages) h (λ r.
      let ran = run_tools p s r.content w in
      let told = assistant r.content ∷ results ran.0 ∷ [] in
      if-cases IsKeptBy r.uses_tools
        (λ _.
          turns_keeps model n (messages ++ told) (calls ++ ran.1) ran.2
            (run_tools_keeps r.content w h))
        (λ _. h))

module _ (p : Platform) (s : Setting) (model : List Message → Option Response) (message : String)
    (w : World) where
  -- Whatever the model answers to whatever message, a chat adds posts to `/control/` routes of the
  -- dashboard and puts under `/cmd/ant/` only to what was sent, and each approval in the store after
  -- it has been granted by nobody or stood there before the chat with the same grants.
  pub converse-IsConfined :
      AllAllowed w.engine.sent
      → let after = (converse p s model message w).2.engine in
        AllAllowed after.sent × Every (IsOld w.engine.approvals) after.approvals
  unfolding converse
  converse-IsConfined h =
      let before = w.engine.approvals in
      let start = user message ∷ [] in
      (
        turns_keeps p s (λ v. AllAllowed v.sent) (λ a e. Sent-IsKept p a.actor) model max_tool_iters
            start [] w h,
        turns_keeps p s (NoNewGrant p before) (λ a e. NoNewGrant-IsKept p before a.actor) model
            max_tool_iters start [] w (all-Stored before before (λ ap k. k)),
      )
