-- ===== src/Agent/Conversation/Answered.antt =====
-- The messages of a chat (src/dsa_operator/agent/claude.py).
use dsa110_operator.Prelude.{
  ℕ, zero, suc, ◌+◌, ◌*◌, ◌≤◌, String, ◌≡◌, refl, ap, Option, List, [], ◌∷◌, ◌++◌, arith, length,
  length-append, map, if-cases, elim-cases,
}
use dsa110_operator.Platform.{Platform}
use dsa110_operator.Agent.Conversation.{
  Block, text_block, use_block, Response, ToolResult, Message, user, assistant, results, Payload,
  World, Outcome, Setting, max_tool_iters, run_tool, run_tools, turns, converse,
}

abbrev pub use_ids : List Block → List String
use_ids [] = []
use_ids (text_block text ∷ blocks) = use_ids blocks
use_ids (use_block id u ∷ blocks) = id ∷ use_ids blocks

abbrev pub result_ids : List ToolResult → List String
result_ids rs = map (λ r. r.tool_use_id) rs

-- Each message of the assistant is followed by the results of its uses of tools: one for each, in
-- order, and no others.
abbrev pub IsAnswered : List Message → Type 0
IsAnswered [] = Unit
IsAnswered (user text ∷ messages) = IsAnswered messages
IsAnswered (assistant blocks ∷ results rs ∷ messages) =
    (result_ids rs ≡ use_ids blocks) × IsAnswered messages
IsAnswered (assistant blocks ∷ messages) = ⊥
IsAnswered (results rs ∷ messages) = ⊥

IsAnswered-append : (ms ns : List Message) → IsAnswered ms → IsAnswered ns → IsAnswered (ms ++ ns)
IsAnswered-append [] ns h k = k
IsAnswered-append (user text ∷ ms) ns h k = IsAnswered-append ms ns h k
IsAnswered-append (assistant blocks ∷ results rs ∷ ms) ns (e, h) k =
    (e, IsAnswered-append ms ns h k)
IsAnswered-append (assistant blocks ∷ []) ns h k = absurd h
IsAnswered-append (assistant blocks ∷ user text ∷ ms) ns h k = absurd h
IsAnswered-append (assistant blocks ∷ assistant bs ∷ ms) ns h k = absurd h
IsAnswered-append (results rs ∷ ms) ns h k = absurd h

module _ (p : Platform) (s : Setting) where
  result_ids-run_tools :
      (blocks : List Block) (w : World) → result_ids (run_tools p s blocks w).0 ≡ use_ids blocks
  unfolding run_tools
  result_ids-run_tools [] w = refl
  result_ids-run_tools (text_block text ∷ blocks) w = result_ids-run_tools blocks w
  result_ids-run_tools (use_block id u ∷ blocks) w =
      ap (λ ids. id ∷ ids) (result_ids-run_tools blocks (run_tool p s u w).1)

  abbrev IsTold : ℕ → List Message → Outcome × List Message × World → Type 0
  IsTold n messages x = IsAnswered x.1 × (length x.1 ≤ length messages + n * 2)

  turns-IsTold :
      (model : List Message → Option Response) (n : ℕ) (messages : List Message)
      (calls : List Payload) (w : World)
      → IsAnswered messages
      → IsTold n messages (turns p s model n messages calls w)
  unfolding turns
  turns-IsTold model zero messages calls w h = (h, omega arith)
  turns-IsTold model (suc n) messages calls w h =
      elim-cases (IsTold (suc n) messages) (model messages) (h, omega arith)
        (λ r.
          let ran = run_tools p s r.content w in
          let told = assistant r.content ∷ results ran.0 ∷ [] in
          let answered = IsAnswered-append messages told h (result_ids-run_tools r.content w, tt) in
          let (a, b) = turns-IsTold model n (messages ++ told) (calls ++ ran.1) ran.2 answered in
          let more = length-append messages told in
          if-cases (IsTold (suc n) messages) r.uses_tools (λ _. (a, omega arith))
            (λ _. (h, omega arith)))

  -- Whatever the model answers, at the end of a chat each message of the assistant that uses tools is
  -- followed by one result for each use, under its id and in order, and the chat is at most
  -- thirteen messages long, the user's included.
  pub converse-IsAnswered :
      (model : List Message → Option Response) (message : String) (w : World)
      → let messages = (converse p s model message w).1 in
        IsAnswered messages × (length messages ≤ 13)
  unfolding converse
  converse-IsAnswered model message w =
      let (a, b) = turns-IsTold model max_tool_iters (user message ∷ []) [] w tt in (a, omega arith)
