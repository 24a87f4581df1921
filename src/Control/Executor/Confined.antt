-- ===== src/Control/Executor/Confined.antt =====
-- What the executor of src/dsa_operator/control/executors.py can touch.
use dsa110_operator.Prelude.{
  String, ◌≡◌, Bool, true, false, ◌&&◌, ◌||◌, Option, none, some, List, [], ◌∷◌, ◌++◌, arith,
  starts_with, str_eq, eq_iff, All, All-append, Bool-cases, inl, inr,
}
use dsa110_operator.Prelude.Int.{ℤ}
use dsa110_operator.Platform.{Platform}
use dsa110_operator.Value.{Fields, get_field}
use dsa110_operator.Control.Verbs.{Step, Plan}
use dsa110_operator.Control.Verbs.Laws.{is_known_step}
use dsa110_operator.Control.Executor.{
  Effect, post, put, LiveExecutor, Run, ◌|>◌, check_control_key, put_dict, dashboard_post, put_all,
  put_antennas, antenna_list, antenna_key, etcd_put, do_step, do_steps, execute, move_payload,
}

-- A post to a `/control/` route of the dashboard, or a put under `/cmd/ant/`.
abbrev pub is_allowed : Effect → Bool
is_allowed (post target form) = starts_with target "/control/"
is_allowed (put key value) = check_control_key key

abbrev pub AllAllowed : List Effect → Type 0
AllAllowed sent = All (λ e. is_allowed e ≡ true) sent

|>-AllAllowed :
    (m : Run) (f : List Effect → Run)
    → AllAllowed m.1
    → ((sent : List Effect) → AllAllowed sent → AllAllowed (f sent).1)
    → AllAllowed (m |> f).1
|>-AllAllowed (true, sent) f h k = k sent h
|>-AllAllowed (false, sent) f h k = h

add-AllAllowed :
    (sent : List Effect) (e : Effect)
    → AllAllowed sent
    → is_allowed e ≡ true
    → AllAllowed (sent ++ e ∷ [])
add-AllAllowed sent e h a = All-append (λ x. is_allowed x ≡ true) sent (e ∷ []) h (a, tt)

known_post :
    (s : Step)
    → str_eq s.kind "dashboard_post" ≡ true
    → is_known_step s ≡ true
    → starts_with s.target "/control/" ≡ true
known_post s e h =
    let is_post : s.kind ≡ "dashboard_post" = (eq_iff s.kind "dashboard_post").0 e in
    first_of_three (starts_with s.target "/control/") (rw is_post at h)
  where
    first_of_three :
        (b : Bool)
        → (true && b)
            || (false && str_eq s.target "/cmd/ant/<all>")
            || (false && str_eq s.target "config/policy.yaml")
          ≡ true
        → b ≡ true
    first_of_three b q = ground arith

module _ (p : Platform) (x : LiveExecutor) where
  put_dict-AllAllowed :
      (key : String) (value : Fields) (sent : List Effect)
      → AllAllowed sent
      → AllAllowed (put_dict p x key value sent).1
  unfolding put_dict
  put_dict-AllAllowed key value sent h = ground (arith, add-AllAllowed sent (put key value) h)

  put_all-AllAllowed :
      (ants : List ℤ) (payload : Fields) (sent : List Effect)
      → AllAllowed sent
      → AllAllowed (put_all p x ants payload sent).1
  unfolding put_all
  put_all-AllAllowed [] payload sent h = h
  put_all-AllAllowed (ant ∷ ants) payload sent h =
      |>-AllAllowed (put_dict p x (antenna_key p x ant) payload sent) _
        (put_dict-AllAllowed (antenna_key p x ant) payload sent h)
        (λ sent' h'. put_all-AllAllowed ants payload sent' h')

  etcd_put-AllAllowed :
      (step : Step) (sent : List Effect) → AllAllowed sent → AllAllowed (etcd_put p x step sent).1
  unfolding etcd_put
  etcd_put-AllAllowed step sent h = elim (Bool-cases (str_eq step.target "/cmd/ant/<all>")) [
    | inl e ↦ rw e (antennas (antenna_list p x (get_field "refants" step.payload)))
    | inr e ↦ rw e (put_dict-AllAllowed step.target step.payload sent h)
  ]
    where
      antennas :
          (o : Option (List ℤ))
          → AllAllowed (put_antennas p x o (move_payload p x step.payload) sent).1
      antennas none = h
      antennas (some ants) = put_all-AllAllowed ants (move_payload p x step.payload) sent h

  do_step-AllAllowed :
      (actor : String) (step : Step) (sent : List Effect)
      → is_known_step step ≡ true
      → AllAllowed sent
      → AllAllowed (do_step p x actor step sent).1
  unfolding do_step dashboard_post
  do_step-AllAllowed actor step sent k h = elim (Bool-cases (str_eq step.kind "dashboard_post")) [
    | inl e ↦ rw e (add-AllAllowed sent _ h (known_post step e k))
    | inr e ↦ rw e (ground (arith, etcd_put-AllAllowed step sent h))
  ]

  do_steps-AllAllowed :
      (actor : String) (steps : List Step) (sent : List Effect)
      → All (λ s. is_known_step s ≡ true) steps
      → AllAllowed sent
      → AllAllowed (do_steps p x actor steps sent).1
  unfolding do_steps
  do_steps-AllAllowed actor [] sent k h = h
  do_steps-AllAllowed actor (step ∷ steps) sent k h =
      |>-AllAllowed (do_step p x actor step sent) _ (do_step-AllAllowed actor step sent k.0 h)
        (λ sent' h'. do_steps-AllAllowed actor steps sent' k.1 h')

  -- A run of a plan of known steps sends allowed effects only, whatever the dashboard replies and
  -- wherever an exception ends it: posts to `/control/` routes and puts under `/cmd/ant/`.
  pub execute-AllAllowed :
      (actor : String) (plan : Plan) (sent : List Effect)
      → All (λ s. is_known_step s ≡ true) plan.steps
      → AllAllowed sent
      → AllAllowed (execute p x actor plan sent).1
  unfolding execute
  execute-AllAllowed actor plan sent k h = do_steps-AllAllowed actor plan.steps sent k h
