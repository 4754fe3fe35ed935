-- ===== src/Platform.antt =====
-- What the program takes from Python's floats and from its `random`, `str` and `datetime` modules.
-- A record of operations: the definitions take it as a parameter, so nothing is computed with an
-- invented rounding. The laws that a theorem needs of it are named in `FloatLaws`.
use syn_koala.Prelude.{ℕ, String, ◌≡◌, Bool, true, false, List, ℤ, if◌then◌else◌}

pub record Platform : Type 1 where
  infixl 65 ◌⊕◌ ◌⊖◌
  infixl 70 ◌⊗◌ ◌⊘◌
  pub F : Type 0
  -- the literal n / 100
  pub lit : ℕ → F
  pub of_int : ℤ → F
  pub ◌⊕◌ : F → F → F
  pub ◌⊖◌ : F → F → F
  pub ◌⊗◌ : F → F → F
  pub ◌⊘◌ : F → F → F
  -- `sum` of floats, which compensates
  pub sum : List F → F
  pub exp : F → F
  pub abs : F → F
  pub lt : F → F → Bool
  pub le : F → F → Bool
  -- `int(x)`
  pub trunc : F → ℤ
  -- `random.Random`: a generator is threaded through its draws
  pub Random : Type 0
  pub seeded : String → Random
  pub random : Random → F × Random
  pub uniform : F → F → Random → F × Random
  -- `str.lower`, as code points
  pub lower : String → List ℕ

-- Facts of IEEE comparison that hold with NaN among the values too.
pub record FloatLaws (p : Platform) : Type 0 where
  pub lt_irrefl : (a : p.F) → p.lt a a ≡ false
  pub lt_asymm : (a b : p.F) → p.lt a b ≡ true → p.lt b a ≡ false
  pub lt_trans : (a b c : p.F) → p.lt a b ≡ true → p.lt b c ≡ true → p.lt a c ≡ true
  pub lt→not_le : (a b : p.F) → p.lt a b ≡ true → p.le b a ≡ false
  -- A value that is not above a number below `c` does not reach `c`, NaN included.
  pub not_lt→not_le : (a b c : p.F) → p.lt a b ≡ false → p.lt a c ≡ true → p.le c b ≡ false
  pub zero_lt_one : p.lt (p.lit 0) (p.lit 100) ≡ true
  pub ninety_lt_one : p.lt (p.lit 90) (p.lit 100) ≡ true
  pub ninety_nine_lt_one : p.lt (p.lit 99) (p.lit 100) ≡ true

module _ (p : Platform) where
  open p use {F, lt}

  -- `max(a, b)` and `min(a, b)`: the first argument, unless the second is strictly beyond it.
  unfoldable pub py_max : F → F → F
  py_max a b = if lt a b then b else a

  unfoldable pub py_min : F → F → F
  py_min a b = if lt b a then b else a
