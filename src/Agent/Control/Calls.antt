-- ===== src/Agent/Control/Calls.antt =====
-- The calls of a chat, one after the other (src/dsa_operator/agent/control.py,
-- `CONTROL_TOOL_SPECS`), and what all of them keep.
use dsa110_operator.Prelude.{ℕ, String, Bool, Option, List, [], ◌∷◌}
use dsa110_operator.Prelude.Int.{ℤ}
use dsa110_operator.Prelude.Assoc.{Assoc}
use dsa110_operator.Value.{Items, Fields}
use dsa110_operator.Platform.{Platform}
use dsa110_operator.Etcd.Backend.{advance}
use dsa110_operator.Control.Engine.{Engine}
use dsa110_operator.Observing.Session.{Site, ModeApplier}
use dsa110_operator.Agent.Control
use dsa110_operator.Agent.Chat.{AgentControl, Result}

pub data Call : Type 0 where
  propose : String → Fields → Call
  ask : String → String → Fields → Call
  set_plan : (ℤ → ℤ → ℤ) → Items → Items → ℤ → String → Call
  observe : ℤ → String → Option ℤ → Option ℤ → String → Call
  arm disarm tick : Call
  step : (ℕ → Site) → Call
  clear : Bool → Call

module _ (p : Platform) (a : AgentControl) (appliers : Assoc ModeApplier)
    (round_start round_dec : ℤ → ℤ) where
  unfoldable pub call : Call → Engine → Result
  call (propose action params) w = Control.propose_action p a action params w
  call (ask id action params) w = Control.request_approval p a id action params w
  call (set_plan next_transit sources segments window_min note) w =
      Control.set_observing_plan p a next_transit sources segments window_min note w
  call (observe dec label start end_unix note) w =
      Control.observe_at_dec p a dec label start end_unix note w
  call arm w = Control.arm_observing_plan p a w
  call disarm w = Control.disarm_observing_plan p a w
  call tick w = Control.tick_plan p a w
  call (step sites) w = Control.run_observing_step p a appliers round_start round_dec sites w
  call (clear delete_raises) w = Control.clear_plan p a delete_raises w

  -- A chat: each call some seconds after the one before, whatever it replies or raises.
  unfoldable pub chat : List (ℕ × Call) → Engine → Engine
  chat [] w = w
  chat ((wait, c) ∷ rest) w = chat rest (call c (record w { store = advance wait w.store })).1
