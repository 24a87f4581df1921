-- ===== src/Monitor/Supervisor/Gated.antt =====
-- The gate in front of the acting loops (src/dsa_operator/monitor/supervisor.py).
use dsa110_operator.Prelude.{
  String, ◌≡◌, ◌≢◌, ◌⊎◌, refl, ap, ◌∙◌, sym, subst, inl, inr, true, false, some, List, arith,
  if-cases, Bool-cases,
}
use dsa110_operator.Prelude.Int.{ℤ}
use dsa110_operator.Prelude.Assoc.{Assoc}
use dsa110_operator.Platform.{Platform}
use dsa110_operator.Control.Lease.{held_by}
use dsa110_operator.Control.Authority.{Authority}
use dsa110_operator.Control.Engine.{Engine, AuditRecord, is_paused, log}
use dsa110_operator.Control.Engine.Gauntlet.{authority}
use dsa110_operator.Observing.Session.{ModeApplier}
use dsa110_operator.Monitor.Findings.{HealthFinding, Tools, report_level, codes}
use dsa110_operator.Monitor.Watch.{
  Supervisor, SupervisorTick, Answers, GateReason, open_gate, dashboard_lockout, e_stop_engaged,
  no_lease, audit_health, same_state, due, new_tick, clock,
}
use dsa110_operator.Monitor.Supervisor.{
  Turn, mutation_gate, health_turn, act_behind_gate, enabled_tick, tick, finish,
}

-- The engine is as it was, but for at most one more row of the health monitor.
pub data Quiet (w : Engine) : Engine → Type 0 where
  same : {v : Engine} → v ≡ w → Quiet w v
  health_row :
      {v : Engine} (row : AuditRecord) → row.action ≡ "health_monitor" → v ≡ log row w → Quiet w v

audit_health-Quiet :
    (t : ℤ) (fs : List HealthFinding) (s : Supervisor) (w : Engine)
    → ((audit_health t fs s w).0.session_id ≡ s.session_id) × Quiet w (audit_health t fs s w).1
unfolding audit_health
audit_health-Quiet t fs s w =
    elim (Bool-cases (same_state s.last_health_state (report_level fs) (codes fs))) [
      | inl e ↦ rw e (refl, same refl)
      | inr e ↦ rw e (refl, health_row _ refl refl)
    ]

module _ (p : Platform) (s : Supervisor) (w : Engine) where
  -- What the gate asks for.
  pub record MayAct : Type 0 where
    pub enabled : s.config.enabled ≡ true
    pub lease : held_by s.session_id w.store ≡ true
    pub no_e_stop : is_paused w ≡ false
    pub agents_enabled : (auth : Authority) → authority p w ≡ some auth → auth.agents_enabled ≡ true

  gate-MayAct : s.config.enabled ≡ true → mutation_gate p s.session_id w ≡ open_gate → MayAct
  unfolding mutation_gate
  gate-MayAct e h = record {
    enabled = e;
    lease = ground arith;
    no_e_stop = ground arith;
    agents_enabled = λ auth f. ground arith;
  }

-- A row of the audit trail does not move the gate.
gate-log :
    (p : Platform) (session : String) (w : Engine) (row : AuditRecord)
    → mutation_gate p session (log row w) ≡ mutation_gate p session w
unfolding mutation_gate authority is_paused
gate-log p session w row = refl

gate-Quiet :
    (p : Platform) (session : String) {w v : Engine}
    → Quiet w v
    → mutation_gate p session v ≡ mutation_gate p session w
gate-Quiet p session (same e) = ap (mutation_gate p session) e
gate-Quiet p session {w} (health_row row f e) =
    ap (mutation_gate p session) e ∙ gate-log p session w row

module _ (p : Platform) (tools : Tools) (k : SupervisorTick) (s : Supervisor) (w : Engine) where
  pub health_turn-Quiet :
      ((health_turn p tools k s w).1.session_id ≡ s.session_id)
      × Quiet w (health_turn p tools k s w).2
  unfolding health_turn
  health_turn-Quiet = elim (Bool-cases (due "health" s.config.health_s k.ts s)) [
    | inl e ↦ rw e (audit_health-Quiet _ _ _ w)
    | inr e ↦ rw e (refl, same refl)
  ]

module _ (p : Platform) (appliers : Assoc ModeApplier) (round_start round_dec : ℤ → ℤ) where
  refused-Quiet :
      (a : Answers) (g : GateReason) (k : SupervisorTick) (s : Supervisor) (w : Engine)
      → g ≢ open_gate
      → (act_behind_gate p appliers round_start round_dec a g k s w).2 ≡ w
  unfolding act_behind_gate
  refused-Quiet a open_gate k s w h = absurd (h refl)
  refused-Quiet a dashboard_lockout k s w h = refl
  refused-Quiet a e_stop_engaged k s w h = refl
  refused-Quiet a no_lease k s w h = refl

  is_open : (g : GateReason) → (g ≡ open_gate) ⊎ (g ≢ open_gate)
  is_open open_gate = inl refl
  is_open dashboard_lockout = inr (λ e. cc)
  is_open e_stop_engaged = inr (λ e. cc)
  is_open no_lease = inr (λ e. cc)

  enabled_tick-MayAct :
      (a : Answers) (s : Supervisor) (w : Engine)
      → s.config.enabled ≡ true
      → Quiet w (enabled_tick p appliers round_start round_dec a s w).2 ⊎ MayAct p s w
  unfolding enabled_tick
  enabled_tick-MayAct a s w e =
      let (k, s', w') = health_turn p a.tools (new_tick (clock w)) s w in
      let q = health_turn-Quiet p a.tools (new_tick (clock w)) s w in
      elim (is_open (mutation_gate p s.session_id w)) [
        | inl o ↦ inr (gate-MayAct p s w e o)
        | inr n ↦
            let shut : mutation_gate p s'.session_id w' ≢ open_gate = λ h. n (
              ap (λ i. mutation_gate p i w) (sym q.0) ∙ sym (gate-Quiet p s'.session_id q.1) ∙ h) in
            inl (subst (Quiet w) (sym (refused-Quiet a _ k s' w' shut)) q.1)
      ]

  pub tick-MayAct :
      (a : Answers) (s : Supervisor) (w : Engine)
      → Quiet w (tick p appliers round_start round_dec a s w).2 ⊎ MayAct p s w
  unfolding tick finish
  tick-MayAct a s w =
      if-cases (λ (r : Turn). Quiet w r.2 ⊎ MayAct p s w) s.config.enabled
        (enabled_tick-MayAct a s w) (λ _. inl (same refl))
