-- ===== src/Agent/Conversation.antt =====
-- The tool-use loop of a chat (src/dsa_operator/agent/claude.py, `ClaudeAgent.chat`). The model, behind
-- the Messages API, is a function of the messages so far, `none` where the call raises; it may answer
-- anything. A tool's use is told by what its arguments decode to, with what the tools read at that
-- time. The prompt and the schemas of the tools are texts and left out.
pub mod Answered
pub mod Kept
use dsa110_operator.Prelude.{
  ℕ, zero, suc, String, Bool, true, false, not, Option, none, some, List, [], ◌∷◌, ◌++◌,
  if◌then◌else◌,
}
use dsa110_operator.Prelude.Int.{ℤ}
use dsa110_operator.Prelude.Assoc.{Assoc}
use dsa110_operator.Platform.{Platform}
use dsa110_operator.Etcd.Backend.{advance}
use dsa110_operator.Control.Engine.{Engine}
use dsa110_operator.Observing.Session.{ModeApplier}
use dsa110_operator.Agent.Chat.{AgentControl, Reply, Result}
use dsa110_operator.Agent.Control.Calls
use dsa110_operator.Agent.Control.Calls.{Call}
use dsa110_operator.Tools.{Toolbox, Answer, answer, tool_error, raises, Trail}
use dsa110_operator.Tools.Calls as Reads
use dsa110_operator.Tools.Calls.{Tool}

-- A tool that the model uses: a read-only tool, a control tool so many seconds after the last one, or a
-- name or arguments that no tool takes.
pub data Use : Type 0 where
  read_use : Toolbox → Tool → Use
  control_use : ℕ → Call → Use
  unknown : Use

pub data Block : Type 0 where
  text_block : String → Block
  -- the block's id
  use_block : String → Use → Block

pub record Response : Type 0 where
  -- stop_reason == "tool_use"
  pub uses_tools : Bool
  pub content : List Block

pub record ToolResult : Type 0 where
  pub tool_use_id : String
  pub content : String
  pub is_error : Bool

pub data Message : Type 0 where
  user : String → Message
  assistant : List Block → Message
  results : List ToolResult → Message

-- What a tool comes to.
pub data Payload : Type 0 where
  read_answer : Answer → Payload
  control_reply : Option Reply → Payload
  unknown_tool : Payload

abbrev pub is_ok : Payload → Bool
is_ok (read_answer (answer v)) = true
is_ok (read_answer tool_error) = false
is_ok (read_answer raises) = false
is_ok (control_reply (some r)) = true
is_ok (control_reply none) = false
is_ok unknown_tool = false

-- What the tools change: the engine, and the trail of the reads.
pub record World : Type 0 where
  pub engine : Engine
  pub trail : Trail

-- AgentResponse, or the exception of the model's client.
pub data Outcome : Type 0 where
  replied : List Block → List Payload → Outcome
  limit_reached : List Payload → Outcome
  client_raised : Outcome

abbrev pub max_tool_iters : ℕ
max_tool_iters = 6

-- What a chat is given, beside the model and the message.
pub record Setting : Type 0 where
  -- the control tools, where the chat has them
  pub control : Option AgentControl
  pub appliers : Assoc ModeApplier
  pub round_start : ℤ → ℤ
  pub round_dec : ℤ → ℤ
  pub has_dots : String → Bool
  pub is_path : String → Bool
  pub fixed : ℤ → String
  -- json.dumps(payload, default=str)[:6000]
  pub shown : Payload → String

abbrev read_with : World → Answer × Trail → Payload × World
read_with w (a, trail) = (read_answer a, record w { trail = trail })

abbrev control_with : World → Result → Payload × World
control_with w (r, engine) = (control_reply r, record w { engine = engine })

abbrev pub result_of : (Payload → String) → String → Payload → ToolResult
result_of shown id payload = record {
  tool_use_id = id;
  content = shown payload;
  is_error = not (is_ok payload);
}

-- The results of a message with the payloads of its calls and the world after them.
abbrev pub Ran : Type 0
Ran = List ToolResult × List Payload × World

module _ (p : Platform) (s : Setting) where
  abbrev pub control_call : ℕ → Call → World → AgentControl → Payload × World
  control_call wait c w a =
      let engine = record w.engine { store = advance wait w.engine.store } in
      control_with w (Calls.call p a s.appliers s.round_start s.round_dec c engine)

  unfoldable pub run_tool : Use → World → Payload × World
  run_tool (read_use t tool) w =
      read_with w (Reads.call p s.has_dots s.is_path s.fixed t tool w.trail)
  run_tool (control_use wait c) w = elim s.control [
    | none ↦ (unknown_tool, w)
    | some a ↦ control_call wait c w a
  ]
  run_tool unknown w = (unknown_tool, w)

  abbrev ran_with : String → Payload → Ran → Ran
  ran_with id payload (rs, ps, w) = (result_of s.shown id payload ∷ rs, payload ∷ ps, w)

  -- The tools of a response, in order.
  unfoldable pub run_tools : List Block → World → Ran
  run_tools [] w = ([], [], w)
  run_tools (text_block text ∷ blocks) w = run_tools blocks w
  run_tools (use_block id u ∷ blocks) w =
      let (payload, after) = run_tool u w in ran_with id payload (run_tools blocks after)

  -- The turns that are left, the messages and the payloads of the calls so far.
  unfoldable pub turns :
      (List Message → Option Response)
      → ℕ
      → List Message
      → List Payload
      → World
      → Outcome × List Message × World
  turns model zero messages calls w = (limit_reached calls, messages, w)
  turns model (suc n) messages calls w = elim (model messages) [
    | none ↦ (client_raised, messages, w)
    | some r ↦
        let (rs, ps, after) = run_tools r.content w in
        let rest =
          turns model n (messages ++ assistant r.content ∷ results rs ∷ []) (calls ++ ps) after in
        if r.uses_tools then rest else (replied r.content calls, messages, w)
  ]

  unfoldable pub converse :
      (List Message → Option Response) → String → World → Outcome × List Message × World
  unfolding turns
  converse model message w = turns model max_tool_iters (user message ∷ []) [] w
