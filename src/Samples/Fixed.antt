-- ===== src/Samples/Fixed.antt =====
-- A platform over integers in units of 1/100, whose generator is a counter, and an executor that
-- runs a graph by recursion on its limit. The examples apply the theorems at them.
use syn_koala.Prelude.{
  ℕ, zero, suc, ◌+◌, ◌*◌, ◌≡◌, refl, arith, ℤ, pos, negsuc, pos_part, neg_part, sub_ℕ, ◌+ℤ◌, ◌-ℤ◌,
  ◌*ℤ◌, ltb_ℤ, Bool, true, false, not, List, [], ◌∷◌, if◌then◌else◌, Result, ok, err,
}
use Prim.Native.Nat.{◌/◌, ◌%◌}
use syn_koala.Platform.{Platform, FloatLaws}
use syn_koala.Simulation.{NodeError}
use syn_koala.Simulation.Flow.{Executor, RunError, raised, recursion_limit_reached}

-- Division towards zero by a number.
shrink : ℤ → ℕ → ℤ
shrink z n = sub_ℕ (pos_part z / n) (neg_part z / n)

total : List ℤ → ℤ
total [] = pos 0
total (x ∷ xs) = x +ℤ total xs

quotient : ℤ → ℤ → ℤ
unfolding shrink ◌*ℤ◌
quotient a (pos n) = shrink (a *ℤ pos 100) n
quotient a (negsuc n) = shrink (a *ℤ negsuc 99) (suc n)

unfoldable pub fixed : Platform
unfolding shrink total quotient ◌+ℤ◌ ◌-ℤ◌ ◌*ℤ◌
fixed = record {
  F = ℤ;
  lit = pos;
  of_int = λ z. z *ℤ pos 100;
  ◌⊕◌ = ◌+ℤ◌;
  ◌⊖◌ = ◌-ℤ◌;
  ◌⊗◌ = λ a b. shrink (a *ℤ b) 100;
  ◌⊘◌ = quotient;
  sum = total;
  exp = λ x. if ltb_ℤ (pos 100 +ℤ x) (pos 1) then pos 1 else pos 100 +ℤ x;
  abs = λ z. pos (pos_part z + neg_part z);
  lt = ltb_ℤ;
  le = λ a b. not (ltb_ℤ b a);
  trunc = λ z. shrink z 100;
  Random = ℕ;
  seeded = λ seed. 7;
  random = λ n. (pos (n * 37 % 100), n + 1);
  uniform = λ a b n. (a, n + 1);
  lower = λ s. [];
}

pub fixed_laws : FloatLaws fixed
unfolding fixed
fixed_laws = record {
  lt_irrefl = λ a. irrefl a;
  lt_asymm = λ a b h. asymm a b h;
  lt_trans = λ a b c h k. trans a b c h k;
  lt→not_le = λ a b h. above a b h;
  not_lt→not_le = λ a b c h k. reaches a b c h k;
  zero_lt_one = refl;
  ninety_lt_one = refl;
  ninety_nine_lt_one = refl;
}
  where
    trans : (a b c : ℤ) → ltb_ℤ a b ≡ true → ltb_ℤ b c ≡ true → ltb_ℤ a c ≡ true
    trans a b c h k = ground arith

    above : (a b : ℤ) → ltb_ℤ a b ≡ true → not (ltb_ℤ a b) ≡ false
    above a b h = rw h refl

    reaches : (a b c : ℤ) → ltb_ℤ a b ≡ false → ltb_ℤ a c ≡ true → not (ltb_ℤ b c) ≡ false
    reaches a b c h k = ground arith

    irrefl : (a : ℤ) → ltb_ℤ a a ≡ false
    irrefl a = ground arith

    asymm : (a b : ℤ) → ltb_ℤ a b ≡ true → ltb_ℤ b a ≡ false
    asymm a b h = ground arith

module _ {C : Type 0} where
  unfoldable pub invoke_by_limit : (C → Bool) → (C → Result NodeError C) → ℕ → C → Result RunError C
  invoke_by_limit halted step zero c = if halted c then ok c else err recursion_limit_reached
  invoke_by_limit halted step (suc limit) c =
      let rest : Result NodeError C → Result RunError C = elim [
        | ok d ↦ invoke_by_limit halted step limit d
        | err e ↦ err (raised e)
      ] in
      if halted c then ok c else rest (step c)

  module _ (halted : C → Bool) (step : C → Result NodeError C) where
    pub at_end : (limit : ℕ) (c : C) → halted c ≡ true → invoke_by_limit halted step limit c ≡ ok c
    unfolding invoke_by_limit
    at_end zero c h = rw h
    at_end (suc limit) c h = rw h

    pub at_node :
        (limit : ℕ) (c d : C)
        → halted c ≡ false
        → step c ≡ ok d
        → invoke_by_limit halted step (suc limit) c ≡ invoke_by_limit halted step limit d
    unfolding invoke_by_limit
    at_node limit c d h e = rw h (rw e)

    pub at_raise :
        (limit : ℕ) (c : C) (e : NodeError)
        → halted c ≡ false
        → step c ≡ err e
        → invoke_by_limit halted step (suc limit) c ≡ err (raised e)
    unfolding invoke_by_limit
    at_raise limit c e h r = rw h (rw r)

    pub at_limit :
        (c : C)
        → halted c ≡ false
        → invoke_by_limit halted step zero c ≡ err recursion_limit_reached
    unfolding invoke_by_limit
    at_limit c h = rw h

  unfoldable pub executor : Executor C
  unfolding invoke_by_limit
  executor = record {
    invoke = invoke_by_limit;
    at_end = at_end;
    at_node = at_node;
    at_raise = at_raise;
    at_limit = at_limit;
  }
