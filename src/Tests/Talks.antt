-- ===== src/Tests/Talks.antt =====
-- A chat of which the model uses tools.
use dsa110_operator.Prelude.{◌≤◌, true, false, Option, some, List, [], ◌∷◌, length}
use dsa110_operator.Prelude.Assoc.{Every}
use dsa110_operator.Value.{end}
use dsa110_operator.Control.Executor.Confined.{AllAllowed}
use dsa110_operator.Agent.Control.Calls.{ask, propose}
use dsa110_operator.Agent.Control.NoGrant.{IsOld}
use dsa110_operator.Agent.Conversation.{
  Response, Message, user, World, Setting, text_block, use_block, read_use, control_use, unknown,
  converse,
}
use dsa110_operator.Agent.Conversation.Answered.{IsAnswered, converse-IsAnswered}
use dsa110_operator.Agent.Conversation.Kept.{converse-IsConfined}
use dsa110_operator.Tools.Calls.{fleet_status}
use dsa110_operator.Tests.{platform, engine}
use dsa110_operator.Tests.Chat.{agent, as_is}
use dsa110_operator.Tests.Readings.{toolbox, no, as_text}

-- It reads, asks for an approval, uses it at once and names a tool that there is not; then it replies.
abbrev model : List Message → Option Response
model (user text ∷ []) = some (record {
  uses_tools = true;
  content =
      text_block "looking"
      ∷ use_block "u1" (read_use toolbox fleet_status)
      ∷ use_block "u2" (control_use 1 (ask "r1" "stop_fleet" end))
      ∷ use_block "u3" (control_use 2 (propose "stop_fleet" end))
      ∷ use_block "u4" unknown
      ∷ [];
})
model messages = some (record { uses_tools = false; content = text_block "asked" ∷ [] })

abbrev setting : Setting
setting = record {
  control = some agent;
  appliers = [];
  round_start = as_is;
  round_dec = as_is;
  has_dots = no;
  is_path = no;
  fixed = as_text;
  shown = λ payload. "{}";
}

abbrev world : World
world = record { engine = engine; trail = [] }

converse-IsAnswered_example :
    IsAnswered (converse platform setting model "stop the fleet" world).1
    × (length (converse platform setting model "stop the fleet" world).1 ≤ 13)
converse-IsAnswered_example = converse-IsAnswered platform setting model "stop the fleet" world

converse-IsConfined_example :
    AllAllowed (converse platform setting model "stop the fleet" world).2.engine.sent
    × Every
        (IsOld engine.approvals)
        (converse platform setting model "stop the fleet" world).2.engine.approvals
converse-IsConfined_example = converse-IsConfined platform setting model "stop the fleet" world tt
