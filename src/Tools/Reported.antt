-- ===== src/Tools/Reported.antt =====
-- What the health report (src/dsa_operator/monitor/health.py) makes of the answers of the fleet and
-- capture tools (src/dsa_operator/tools/readonly.py).
use dsa110_operator.Prelude.{
  ℕ, zero, suc, String, ◌≡◌, refl, ◌∙◌, Bool, true, false, not, ◌&&◌, some, List, [], ◌∷◌, arith,
  length, str_eq, any, ◌+◌, ◌==◌, Option-cases, inl, inr, if◌then◌else◌,
}
use dsa110_operator.Prelude.Int.{pos, leb_ℤ}
use dsa110_operator.Value.{Value, Fields, int, null, get_or, truthy}
use dsa110_operator.Convert.{to_int}
use dsa110_operator.Platform.{Platform}
use dsa110_operator.Control.Authority.{got}
use dsa110_operator.Monitor.Findings.{report_level, level_alert, default_thresholds}
use dsa110_operator.Monitor.Health.{
  dict_or_empty, fleet_of, fleet_findings, reporting, capture_of, capture_findings, drops_of,
}
use dsa110_operator.Monitor.Health.Levels.{is_alert}
use dsa110_operator.Monitor.Health.Alerts.{report_level-alert}
use dsa110_operator.Tools.{Toolbox, result, told}
use dsa110_operator.Tools.Fleet.{
  Node, Stream, corr_cns, search_cns, n_alive, down, number, group, fleet_json, read_nodes,
  get_fleet_status, read_streams, get_capture_health, where_true, capture_json,
}

abbrev pub is_empty {ℓ} : {A : Type ℓ} → List A → Bool
is_empty [] = true
is_empty (x ∷ xs) = false

-- A node is alive or down, and none is both.
alive_down : (nodes : List Node) → n_alive nodes + length (down nodes) ≡ length nodes
unfolding n_alive down
alive_down [] = refl
alive_down ((cn, v) ∷ nodes) = ground (arith, alive_down nodes)

empty-length : (xs : List ℕ) (n k : ℕ) → n + length xs ≡ k → leb_ℤ (pos k) (pos n) ≡ is_empty xs
empty-length [] n k e = ground arith
empty-length (x ∷ xs) n k e = ground arith

down_empty :
    (nodes : List Node) (k : ℕ)
    → length nodes ≡ k
    → leb_ℤ (pos k) (pos (n_alive nodes)) ≡ is_empty (down nodes)
down_empty nodes k e = empty-length (down nodes) (n_alive nodes) k (alive_down nodes ∙ e)

abbrev pub is_true : String → Stream → Bool
is_true key s = truthy (get_or key null s.values)

zero-where_true :
    (key : String) (rows : List Stream)
    → length (where_true key rows) == 0 ≡ not (any (is_true key) rows)
unfolding where_true
zero-where_true key [] = refl
zero-where_true key (s ∷ rows) = ground (arith, zero-where_true key rows)

counted :
    (p : Platform) (n : ℕ)
    → (if truthy (number n) then to_int p (number n) else some (pos 0)) ≡ some (pos n)
unfolding to_int
counted p n = ground arith

drops-alert :
    (p : Platform) (v : Value) {d : Fields} (n : ℕ)
    → dict_or_empty v ≡ some d
    → get_or "n_kernel_dropping" (int (pos 0)) d ≡ number n
    → any is_alert (capture_of p (some (got v))) ≡ not (n == 0)
unfolding capture_of drops_of to_int capture_findings
drops-alert p v zero e g = rw (capture_of, e, drops_of, g) (ground arith)
drops-alert p v (suc n) e g =
    let a = counted p (suc n) in rw (capture_of, e, drops_of, g, a, capture_findings) (ground arith)

module _ (p : Platform) (t : Toolbox) where
  length-read_nodes :
      (before after : String) (cns : List ℕ) (nodes : List Node)
      → read_nodes p t before after cns ≡ some nodes
      → length nodes ≡ length cns
  unfolding read_nodes
  length-read_nodes before after [] nodes e = ground (arith)
  length-read_nodes before after (cn ∷ cns) nodes e =
      elim (Option-cases (read_nodes p t before after cns)) [
        | inl n ↦ ground arith
        | inr (rest, r) ↦ ground (arith, length-read_nodes before after cns rest r)
      ]

  -- Where the nodes' keys can be read, get_fleet_status answers, and the health report of its answer is
  -- at alert, by the default thresholds, exactly where it lists a node of either kind as down.
  pub get_fleet_status-alert :
      (corr search_ : List Node)
      → read_nodes p t "/mon/service/corr_rt/" "" corr_cns ≡ some corr
      → read_nodes p t "/mon/service/search_rt/" "" search_cns ≡ some search_
      → (get_fleet_status p t ≡ result (fleet_json corr search_ (told t "/control/system_state")))
        × (str_eq
              (report_level (
                fleet_of p default_thresholds
                  (got (fleet_json corr search_ (told t "/control/system_state")))))
              level_alert
            ≡ not (is_empty (down corr) && is_empty (down search_)))
  unfolding get_fleet_status fleet_of fleet_findings reporting to_int group
  get_fleet_status-alert corr search_ a b =
      let c = down_empty corr 16 (length-read_nodes "/mon/service/corr_rt/" "" corr_cns corr a) in
      let s =
        down_empty search_ 4
          (length-read_nodes "/mon/service/search_rt/" "" search_cns search_ b) in
      (rw (a, b) refl, rw (report_level-alert, c, s) (ground arith))

  -- Where the streams' keys can be read, get_capture_health answers, and the health report of its answer
  -- is at alert exactly where a stream's rate of packets dropped in the kernel is truthy.
  get_capture_health-alert :
      (rows : List Stream)
      → read_streams p t corr_cns ≡ some rows
      → (get_capture_health p t ≡ result (capture_json p t rows))
        × (str_eq (report_level (capture_of p (some (got (capture_json p t rows))))) level_alert
            ≡ any (is_true "rate_kernel_drop_pps") rows)
  unfolding get_capture_health capture_json
  get_capture_health-alert rows e =
      let n = length (where_true "rate_kernel_drop_pps" rows) in
      let d = drops-alert p (capture_json p t rows) n refl refl in
      (
        rw e refl,
        rw (report_level-alert, d, zero-where_true "rate_kernel_drop_pps" rows) (ground arith),
      )
