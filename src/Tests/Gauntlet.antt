-- ===== src/Tests/Gauntlet.antt =====
-- The engine, with an executor that holds the lease and a promoted action.
use dsa110_operator.Prelude.{◌≡◌, ◌≢◌, refl, false, some}
use dsa110_operator.Value.{Fields, obj, bool, str, field, end}
use dsa110_operator.Etcd.Backend
use dsa110_operator.Etcd.Backend.{Backend, put}
use dsa110_operator.Control.Lease.{lease_key, holder}
use dsa110_operator.Control.Authority.{Authority, default_authority, got, read_authority}
use dsa110_operator.Control.Executor.Confined.{AllAllowed}
use dsa110_operator.Control.Engine.{Engine, Attempt, answer, deny, Reason, pause, resume, is_paused}
use dsa110_operator.Control.Engine.Gauntlet.{evaluate, authority}
use dsa110_operator.Control.Engine
use dsa110_operator.Convert.{to_text}
use dsa110_operator.Policy.{is_control_action, gate_for}
use dsa110_operator.Control.Verbs.Builders.{get_verb, utc_stop}
use dsa110_operator.Control.Executor.{execute, do_step, dashboard_post, check_dashboard_result}
use dsa110_operator.Control.Engine.Safety.{PassedGauntlet, sent_needs_gauntlet, evaluate-AllAllowed}
use dsa110_operator.Control.Engine.Audit.{IsRecorded, evaluate-IsRecorded}
use dsa110_operator.Control.Engine.Outcomes.{IsSpent, evaluate-IsSpent, later, pause_stops}
use dsa110_operator.Tests.{platform, engine, attempt, no_keys, no_keys-IsWellFormed, cons≢nil}

abbrev pub ana : Fields
ana = field "actor" (str "ana") (field "session_id" (str "s1") end)

-- The session s1 holds the lease.
abbrev pub ready : Engine
ready = record engine { store = put lease_key (obj ana) 0 no_keys }

sent_ready : (evaluate platform (attempt "utc_stop") ready).1.sent ≢ ready.sent
unfolding evaluate put Backend.get is_control_action is_paused
    dsa110_operator.Control.Engine.Gauntlet.check_authority authority read_authority
    dsa110_operator.Control.Engine.Gauntlet.check_lease holder Engine.pinned_away
    dsa110_operator.Control.Engine.Gauntlet.check_gate gate_for
    dsa110_operator.Control.Engine.Gauntlet.check_params get_verb
    dsa110_operator.Control.Engine.Gauntlet.with_plan utc_stop
    dsa110_operator.Control.Engine.Gauntlet.act execute do_step dashboard_post
    check_dashboard_result Engine.report_live
sent_ready e = cons≢nil e

sent_needs_gauntlet_example : PassedGauntlet platform (attempt "utc_stop") ready
sent_needs_gauntlet_example = sent_needs_gauntlet platform (attempt "utc_stop") ready sent_ready

evaluate-AllAllowed_example : AllAllowed (evaluate platform (attempt "utc_stop") ready).1.sent
evaluate-AllAllowed_example = evaluate-AllAllowed platform (attempt "utc_stop") ready tt

evaluate-IsRecorded_example :
    IsRecorded (attempt "utc_stop") ready (evaluate platform (attempt "utc_stop") ready)
evaluate-IsRecorded_example = evaluate-IsRecorded (attempt "utc_stop") ready platform

evaluate-IsSpent_example :
    IsSpent platform (attempt "utc_stop") ready (evaluate platform (attempt "utc_stop") ready)
evaluate-IsSpent_example = evaluate-IsSpent platform (attempt "utc_stop") ready

pause_stops_example :
    evaluate platform (attempt "utc_stop") (later 500 (pause "bo" "wind" engine).1)
    ≡ answer (deny Reason.paused "" (attempt "utc_stop") (later 500 (pause "bo" "wind" engine).1))
unfolding pause is_control_action
pause_stops_example =
    pause_stops "bo" "wind" engine no_keys-IsWellFormed 500 platform (attempt "utc_stop") refl

abbrev locked : Engine
locked = record ready { read = some (λ k. got (obj (field "agents_enabled" (bool false) end))) }

abbrev lockout : Authority
lockout = record default_authority { agents_enabled = false }

locked_out : authority platform locked ≡ some lockout
unfolding authority read_authority to_text
locked_out = refl
