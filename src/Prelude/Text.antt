-- ===== src/Prelude/Text.antt =====
-- Dictionaries with string keys.
use Prim.Native.String.{String}
use mathlib.Core.Path.{◌≡◌, subst}
use mathlib.Core.Logic.{inl, inr}
use mathlib.Core.Option.{Option, none, some, some-injective}
use mathlib.Core.Bool.{false}
use mathlib.Core.List.{List, [], ◌∷◌}
use text.Mathlib.Text.{◌==◌ as str_eq}
use text.Mathlib.TextEquality.{eq_iff}
use native.Mathlib.Omega.{arith}
use syn_koala.Prelude.Tests.{if◌then◌else◌, Bool-cases}
use syn_koala.Prelude.Lists.{All}

pub str_ne_sym : (s t : String) → str_eq s t ≡ false → str_eq t s ≡ false
str_ne_sym s t h = ground (arith, eq_iff s t, eq_iff t s)

module _ {ℓ} {V : Type ℓ} where
  -- `d.get(k)`
  abbrev pub lookup : List (String × V) → String → Option V
  lookup [] k = none
  lookup ((j, v) ∷ d) k = if str_eq j k then some v else lookup d k

  pub lookup-All {κ} :
      (P : V → Type κ) (d : List (String × V)) (k : String) (v : V)
      → All (λ e. P e.1) d
      → lookup d k ≡ some v
      → P v
  lookup-All P [] k v all h = cc
  lookup-All P ((j, w) ∷ d) k v all h = elim (Bool-cases (str_eq j k)) [
    | inl same ↦ subst P (some-injective w v (rw same at h)) all.0
    | inr other ↦ lookup-All P d k v all.1 (rw other at h)
  ]

  -- `d.get(k, default)`
  abbrev pub lookup_or : List (String × V) → String → V → V
  lookup_or d k default = elim (lookup d k) [ none ↦ default | some v ↦ v ]

-- `if text:` on an optional string
abbrev pub nonempty : Option String → Option String
nonempty none = none
nonempty (some s) = if str_eq s "" then none else some s
