-- ===== src/Monitor/Config.antt =====
-- The `autonomy:` block of the policy read as the configuration of the supervisor
-- (src/dsa_operator/monitor/supervisor.py) and as the thresholds of the health checks
-- (src/dsa_operator/monitor/health.py). `none` is the exception of a conversion. A block that is not
-- empty is a mapping: `dict` would also take a list of pairs.
use dsa110_operator.Prelude.{String, ◌≡◌, false, Option, none, some, arith, Bool}
use dsa110_operator.Prelude.Int.{ℤ, pos}
use dsa110_operator.Value.{bool, int, float, obj, Fields, end, get_or, truthy, unit}
use dsa110_operator.Convert.{to_float, to_int}
use dsa110_operator.Platform.{Platform}
use dsa110_operator.Monitor.Findings.{HealthThresholds}
use dsa110_operator.Monitor.Health.{dict_or_empty}
use dsa110_operator.Monitor.Watch.{AutonomyConfig}

infixl 5 ◌>>=◌
unfoldable pub ◌>>=◌ {ℓ κ} : {A : Type ℓ} {B : Type κ} → Option A → (A → Option B) → Option B
◌>>=◌ none f = none
◌>>=◌ (some a) f = f a

bind_keeps {ℓ κ ρ} :
    {A : Type ℓ} {B : Type κ} (P : B → Type ρ) (o : Option A) (f : A → Option B) {b : B}
    → (o >>= f) ≡ some b
    → ((a : A) → f a ≡ some b → P b)
    → P b
unfolding ◌>>=◌
bind_keeps P none f h keep = absurd (ground arith)
bind_keeps P (some a) f h keep = keep a h

abbrev pub flag : String → Fields → Bool
flag key a = truthy (get_or key (bool false) a)

module _ (p : Platform) where
  -- float(block.get(key, seconds)), int(block.get(key, n))
  abbrev float_at : String → ℤ → Fields → Option ℤ
  float_at key default block = to_float p (get_or key (float default) block)

  abbrev int_at : String → ℤ → Fields → Option ℤ
  int_at key default block = to_int p (get_or key (int default) block)

  -- dict(block.get(key, {}) or {})
  abbrev sub_block : String → Fields → Option Fields
  sub_block key a = dict_or_empty (get_or key (obj end) a)

  unfoldable pub config_from_policy : Fields → Option AutonomyConfig
  config_from_policy a = do
    iv ← sub_block "intervals" a
    th ← sub_block "thresholds" a
    health_s ← float_at "health_s" (unit (pos 60)) iv
    injection_s ← float_at "injection_s" (unit (pos 3600)) iv
    plan_s ← float_at "plan_s" (unit (pos 30)) iv
    verify_after_s ← float_at "injection_verify_after_s" (unit (pos 180)) th
    some (record {
      enabled = flag "enabled" a;
      auto_recover = flag "auto_recover" a;
      injection_health_check = flag "injection_health_check" a;
      run_plan = flag "run_plan" a;
      health_s = health_s;
      injection_s = injection_s;
      plan_s = plan_s;
      verify_after_s = verify_after_s;
    })

  unfoldable pub thresholds_from_policy : Fields → Option HealthThresholds
  thresholds_from_policy a = do
    t ← sub_block "thresholds" a
    corr ← int_at "fleet_min_corr" (pos 16) t
    search_ ← int_at "fleet_min_search" (pos 4) t
    sky_age ← float_at "sky_frame_max_age_s" (unit (pos 300)) t
    sefd_age ← float_at "sefd_max_age_s" (unit (pos 3600)) t
    rfi_warn ← float_at "rfi_flag_fraction_warn" (pos 4000) t
    rfi_alert ← float_at "rfi_flag_fraction_alert" (pos 7000) t
    sefd_jy ← float_at "sefd_max_jy" (unit (pos 5000)) t
    some (record {
      fleet_min_corr = corr;
      fleet_min_search = search_;
      sky_frame_max_age_s = sky_age;
      sefd_max_age_s = sefd_age;
      rfi_flag_fraction_warn = rfi_warn;
      rfi_flag_fraction_alert = rfi_alert;
      sefd_max_jy = sefd_jy;
    })

  -- The loops that are on are those that the policy turns on.
  abbrev pub HasFlagsOf : Fields → AutonomyConfig → Type 0
  HasFlagsOf a c =
      (c.enabled ≡ flag "enabled" a)
      × (c.auto_recover ≡ flag "auto_recover" a)
      × (c.injection_health_check ≡ flag "injection_health_check" a)
      × (c.run_plan ≡ flag "run_plan" a)

  pub config-HasFlagsOf :
      (a : Fields) (c : AutonomyConfig) → config_from_policy a ≡ some c → HasFlagsOf a c
  unfolding config_from_policy
  config-HasFlagsOf a c h =
      let P = HasFlagsOf a in
      bind_keeps P _ _ h (λ iv h1. bind_keeps P _ _ h1 (λ th h2. bind_keeps P _ _ h2 (λ health h3.
        bind_keeps P _ _ h3 (λ injection h4.
          bind_keeps P _ _ h4 (λ plan h5. bind_keeps P _ _ h5 (λ verify e. ground arith))))))
