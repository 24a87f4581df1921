-- ===== src/Prelude/Assoc.antt =====
-- Python's `dict` with string keys as an association list in insertion order.
use dsa110_operator.Prelude.Tests.{if◌then◌else◌, Bool-cases}
use Prim.Native.String.{String}
use mathlib.Core.Path.{◌≡◌, refl, subst, subst₂}
use mathlib.Core.Logic.{inl, inr}
use mathlib.Core.Option.{Option, none, some}
use mathlib.Core.List.{List, [], ◌∷◌}
use native.Mathlib.Omega.{arith}
use text.Mathlib.Text.{◌==◌ as str_eq}
use text.Mathlib.TextEquality.{eq_iff}

abbrev pub Assoc {ℓ} : Type ℓ → Type ℓ
Assoc V = List (String × V)

module _ {ℓ} {V : Type ℓ} where
  -- d.get(k)
  unfoldable pub lookup : String → Assoc V → Option V
  lookup k [] = none
  lookup k ((j, v) ∷ d) = if str_eq j k then some v else lookup k d

  -- d[k] = v: a new key goes to the end.
  unfoldable pub insert : String → V → Assoc V → Assoc V
  insert k v [] = (k, v) ∷ []
  insert k v ((j, w) ∷ d) = if str_eq j k then (j, v) ∷ d else (j, w) ∷ insert k v d

  -- d.pop(k, None)
  unfoldable pub remove : String → Assoc V → Assoc V
  remove k [] = []
  remove k ((j, v) ∷ d) = let rest = remove k d in if str_eq j k then rest else (j, v) ∷ rest

  pub lookup-insert :
      (k j : String) (v : V) (d : Assoc V)
      → lookup j (insert k v d) ≡ (if str_eq k j then some v else lookup j d)
  unfolding lookup insert
  lookup-insert k j v [] = refl
  lookup-insert k j v ((i, w) ∷ d) =
      ground (arith, eq_iff k j, eq_iff i k, eq_iff i j, lookup-insert k j v d)

  pub lookup-remove :
      (k j : String) (d : Assoc V)
      → lookup j (remove k d) ≡ (if str_eq k j then none else lookup j d)
  unfolding lookup remove
  lookup-remove k j [] = ground arith
  lookup-remove k j ((i, w) ∷ d) =
      ground (arith, eq_iff k j, eq_iff i k, eq_iff i j, lookup-remove k j d)

-- A predicate of every value.
abbrev pub Every {ℓ κ} : {V : Type ℓ} → (V → Type κ) → Assoc V → Type κ
Every P [] = Unit
Every P ((k, v) ∷ d) = P v × Every P d

module _ {ℓ κ} {V : Type ℓ} (P : V → Type κ) where
  pub lookup-Every : (k : String) (d : Assoc V) {v : V} → Every P d → lookup k d ≡ some v → P v
  unfolding lookup
  lookup-Every k [] h e = cc
  lookup-Every k ((j, w) ∷ d) {v} h e = elim (Bool-cases (str_eq j k)) [
    | inl p ↦ let same : w ≡ v = ground arith in subst P same h.0
    | inr p ↦ lookup-Every k d h.1 (rw p at e)
  ]

  pub insert-Every : (k : String) (v : V) (d : Assoc V) → P v → Every P d → Every P (insert k v d)
  unfolding insert
  insert-Every k v [] p h = (p, tt)
  insert-Every k v ((j, w) ∷ d) p h = elim (Bool-cases (str_eq j k)) [
    | inl e ↦ rw e (p, h.1)
    | inr e ↦ rw e (h.0, insert-Every k v d p h.1)
  ]

  pub remove-Every : (k : String) (d : Assoc V) → Every P d → Every P (remove k d)
  unfolding remove
  remove-Every k [] h = tt
  remove-Every k ((j, w) ∷ d) h = elim (Bool-cases (str_eq j k)) [
    | inl e ↦ rw e (remove-Every k d h.1)
    | inr e ↦ rw e (h.0, remove-Every k d h.1)
  ]

-- A predicate of every key with its value.
abbrev pub EveryEntry {ℓ κ} : {V : Type ℓ} → (String → V → Type κ) → Assoc V → Type κ
EveryEntry P [] = Unit
EveryEntry P ((k, v) ∷ d) = P k v × EveryEntry P d

pub lookup-EveryEntry {ℓ κ} :
    {V : Type ℓ} (P : String → V → Type κ) (k : String) (d : Assoc V) {v : V}
    → EveryEntry P d
    → lookup k d ≡ some v
    → P k v
unfolding lookup
lookup-EveryEntry P k [] h e = cc
lookup-EveryEntry P k ((j, w) ∷ d) {v} h e = elim (Bool-cases (str_eq j k)) [
  | inl p ↦ let same : w ≡ v = ground arith in subst₂ P ((eq_iff j k).0 p) same h.0
  | inr p ↦ lookup-EveryEntry P k d h.1 (rw p at e)
]
