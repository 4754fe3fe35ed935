-- ===== src/Prelude/Sets.antt =====
-- Python's `set`, as a list: `dedup` is `set(xs)`, whose length is the set's `len`.
use Prim.Native.Nat.{ℕ, ◌≤◌}
use Prim.Native.String.{String}
use mathlib.Core.Bool.{Bool, true, false, ◌&&◌}
use mathlib.Core.List.{List, [], ◌∷◌, ◌++◌}
use native.Mathlib.Omega.{arith}
use text.Mathlib.Text.{◌==◌ as str_eq}
use syn_koala.Prelude.Tests.{◌==◌, if◌then◌else◌}
use syn_koala.Prelude.Lists.{length, select, any}

pub record Eq {ℓ} (A : Type ℓ) : Type ℓ where
  pub beq : A → A → Bool

instance abbrev pub nat_eq : Eq ℕ
nat_eq = record { beq = ◌==◌ }

instance abbrev pub string_eq : Eq String
string_eq = record { beq = str_eq }

pub codes_beq : List ℕ → List ℕ → Bool
codes_beq [] [] = true
codes_beq (a ∷ as') (b ∷ bs) = (a == b) && codes_beq as' bs
codes_beq _ _ = false

instance abbrev pub codes_eq : Eq (List ℕ)
codes_eq = record { beq = codes_beq }

module _ {ℓ} {A : Type ℓ} ⦃e : Eq A⦄ where
  abbrev pub contains : List A → A → Bool
  contains xs a = any (λ x. e.beq x a) xs

  abbrev pub dedup : List A → List A
  dedup [] = []
  dedup (x ∷ xs) = let rest = dedup xs in if contains rest x then rest else x ∷ rest

  -- `xs | ys` and `xs & ys`
  abbrev pub union : List A → List A → List A
  union xs ys = dedup (xs ++ ys)

  abbrev pub inter : List A → List A → List A
  inter xs ys = select (contains ys) xs

  pub length-inter-le : (xs ys : List A) → length (inter xs ys) ≤ length xs
  length-inter-le [] ys = omega arith
  length-inter-le (x ∷ xs) ys = ground (arith, length-inter-le xs ys)

module _ {ℓ} {A : Type ℓ} where
  -- `bool(xs)`
  abbrev pub is_nonempty : List A → Bool
  is_nonempty [] = false
  is_nonempty (x ∷ xs) = true
