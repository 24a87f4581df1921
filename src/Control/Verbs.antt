-- ===== src/Control/Verbs.antt =====
-- Control verbs: validated parameters and a declarative plan
-- (src/dsa_operator/control/verbs.py). A step's `note` and a plan's `summary`, texts for display,
-- are left out. `refused` is VerbError; `raised` is any other exception that leaves the builder.
-- Degrees are in units of 0.0001, so `round(el, 4)` changes nothing.
pub mod Builders
pub mod Laws
use Prim.Native.Char.{code}
use dsa110_operator.Prelude.{
  ℕ, String, Bool, true, false, not, ◌&&◌, ◌||◌, Option, none, some, List, [], ◌∷◌, str_eq, ◌==◌,
  any, if◌then◌else◌,
}
use dsa110_operator.Prelude.Int.{ℤ, pos, ◌-ℤ◌, leb_ℤ}
use dsa110_operator.Prelude.Assoc.{Assoc, lookup}
use dsa110_operator.Value.{
  Value, null, bool, int, float, str, arr, obj, Items, nil, item, Fields, end, field, get_field,
  set_field, get_or, truthy,
}
use dsa110_operator.Convert.{to_float, to_int, to_text}
use dsa110_operator.Platform.{Platform}
use dsa110_operator.Policy.{Policy, Pointing}

pub record Step : Type 0 where
  pub kind : String
  pub target : String
  pub payload : Fields
  pub unverified : Bool

pub record Plan : Type 0 where
  pub action : String
  pub steps : List Step

unfoldable pub has_unverified : Plan → Bool
has_unverified plan = any (λ s. s.unverified) plan.steps

pub data Planned : Type 0 where
  planned : Plan → Planned
  refused : Planned
  raised : Planned

-- A value, a VerbError, or another exception.
pub data Parsed {ℓ} (A : Type ℓ) : Type ℓ where
  ok : A → Parsed A
  bad : Parsed A
  crash : Parsed A

infixl 5 ◌>>=◌
abbrev pub ◌>>=◌ {ℓ} : {A : Type ℓ} → Parsed A → (A → Planned) → Planned
ok a >>= f = f a
bad >>= f = refused
crash >>= f = raised

-- A conversion whose failure the builder turns into a VerbError, and one that it does not wrap.
abbrev pub wrapped {ℓ} : {A : Type ℓ} → Option A → Parsed A
wrapped none = bad
wrapped (some a) = ok a

abbrev pub unwrapped {ℓ} : {A : Type ℓ} → Option A → Parsed A
unwrapped none = crash
unwrapped (some a) = ok a

abbrev pub one_step : String → String → String → Fields → Planned
one_step action kind target payload = planned (record {
  action = action;
  steps = record { kind = kind; target = target; payload = payload; unverified = false } ∷ [];
})

abbrev pub dashboard : String → String → Fields → Planned
dashboard action target payload = one_step action "dashboard_post" target payload

-- `for k in keys: if k in params: form[k] = params[k]`
unfoldable pub copy_keys : List String → Fields → Fields → Fields
copy_keys [] params form = form
copy_keys (k ∷ ks) params form =
    copy_keys ks params (elim (get_field k params) [ none ↦ form | some v ↦ set_field k v form ])

unfoldable pub dec_to_el : ℤ → ℤ → ℤ
dec_to_el dec lat = pos 900000 -ℤ (lat -ℤ dec)

abbrev pub or_default : ℤ → Option ℤ → ℤ
or_default x none = x
or_default x (some y) = y

abbrev pub lat_of : Pointing → ℤ
lat_of pt = or_default (pos 372300) pt.lat_ovro_deg

abbrev pub el_min_of : Pointing → ℤ
el_min_of pt = or_default (pos 300000) pt.el_min_deg

abbrev pub el_max_of : Pointing → ℤ
el_max_of pt = or_default (pos 1250000) pt.el_max_deg

-- '/' in s
unfoldable pub has_slash : String → Bool
has_slash String.[] = false
has_slash (String.◌∷◌ c s) = code c == b'/' || has_slash s

abbrev pub lit : String → Value
lit s = str s

abbrev pub one_field : String → Value → Fields
one_field k v = field k v end

abbrev pub injection_keys : List String
injection_keys =
    "dm_pc_cm3" ∷ "l_rad" ∷ "m_rad" ∷ "width_samples" ∷ "fluence_jy_ms" ∷ "target_snr" ∷ "profile"
    ∷ "chgroups" ∷ "margin_blocks" ∷ []

abbrev pub calibration_keys : List String
calibration_keys =
    "dm_pc_cm3" ∷ "l_rad" ∷ "m_rad" ∷ "width_samples" ∷ "fluence_jy_ms" ∷ "profile" ∷ "chgroups"
    ∷ "use_ladder" ∷ "fluence_ladder" ∷ "health_check" ∷ []

abbrev pub update_keys : List String
update_keys = "branch" ∷ "hosts" ∷ []
