-- ===== src/Prelude/Lists.antt =====
-- Lists measured by native numbers, and the searches that the program writes as generators.
use Prim.Native.Nat.{ℕ, zero, suc, ◌+◌, ◌≤◌}
use mathlib.Core.Path.{◌≡◌, refl, subst}
use mathlib.Core.Logic.{◌≢◌, inl, inr}
use mathlib.Core.Bool.{Bool, true, false, ◌||◌}
use mathlib.Core.List.{List, [], ◌∷◌, ◌++◌}
use mathlib.Core.Option.{Option, none, some, some-injective}
use native.Mathlib.Omega.{arith}
use syn_koala.Prelude.Tests.{if◌then◌else◌, ◌==◌, Bool-cases}

module _ {ℓ} {A : Type ℓ} where
  abbrev pub length : List A → ℕ
  length [] = 0
  length (x ∷ xs) = suc (length xs)

  abbrev pub take : ℕ → List A → List A
  take zero xs = []
  take (suc n) [] = []
  take (suc n) (x ∷ xs) = x ∷ take n xs

  -- `next((x for x in xs if p(x)), None)`
  abbrev pub find_first : (A → Bool) → List A → Option A
  find_first p [] = none
  find_first p (x ∷ xs) = if p x then some x else find_first p xs

  -- `any(p(x) for x in xs)`
  abbrev pub any : (A → Bool) → List A → Bool
  any p [] = false
  any p (x ∷ xs) = p x || any p xs

  -- `[x for x in xs if p(x)]`
  abbrev pub select : (A → Bool) → List A → List A
  select p [] = []
  select p (x ∷ xs) = let rest = select p xs in if p x then x ∷ rest else rest

  -- `sum(1 for x in xs if p(x))`
  abbrev pub count_if : (A → Bool) → List A → ℕ
  count_if p [] = 0
  count_if p (x ∷ xs) = let rest = count_if p xs in if p x then suc rest else rest

  pub cons_of_ne : (xs : List A) → xs ≢ [] → (x : A) × (rest : List A) × (xs ≡ x ∷ rest)
  cons_of_ne [] h = absurd (h refl)
  cons_of_ne (x ∷ xs) h = (x, xs, refl)

  pub length-append : (xs ys : List A) → length (xs ++ ys) ≡ length xs + length ys
  length-append [] ys = omega arith
  length-append (x ∷ xs) ys = omega (arith, length-append xs ys)

  pub count_if-le_length : (p : A → Bool) (xs : List A) → count_if p xs ≤ length xs
  count_if-le_length p [] = omega arith
  count_if-le_length p (x ∷ xs) = ground (arith, count_if-le_length p xs)

  abbrev pub All {κ} : (A → Type κ) → List A → Type κ
  All P (item ∷ items) = P item × All P items
  All P [] = Unit

  pub All-cons_if {κ} :
      (P : A → Type κ) (test : Bool) (x : A) (xs : List A)
      → P x
      → All P xs
      → All P (if test then x ∷ xs else xs)
  All-cons_if P true x xs h all = (h, all)
  All-cons_if P false x xs h all = all

  pub All-append {κ} :
      (P : A → Type κ) (front back : List A) → All P front → All P back → All P (front ++ back)
  All-append P (item ∷ front) back (first, others) last =
      (first, All-append P front back others last)
  All-append P [] back none_in_front last = last

  -- What `find_first` returns passes the test and has every property of the list.
  pub find_first-All {κ} :
      (P : A → Type κ) (p : A → Bool) (xs : List A) (a : A)
      → All P xs
      → find_first p xs ≡ some a
      → P a
  find_first-All P p [] a all h = cc
  find_first-All P p (x ∷ xs) a all h = elim (Bool-cases (p x)) [
    | inl e ↦ subst P (some-injective x a (rw e at h)) all.0
    | inr e ↦ find_first-All P p xs a all.1 (rw e at h)
  ]

-- `xs or []`
abbrev pub list_or_empty {ℓ} : {A : Type ℓ} → Option (List A) → List A
list_or_empty none = []
list_or_empty (some xs) = xs

-- A dictionary with UUID keys, in insertion order.
module _ {ℓ} {V : Type ℓ} where
  abbrev pub get : List (ℕ × V) → ℕ → Option V
  get [] k = none
  get ((j, v) ∷ d) k = if j == k then some v else get d k

  -- `d[k] = v`: a new key goes to the end.
  abbrev pub put : List (ℕ × V) → ℕ → V → List (ℕ × V)
  put [] k v = (k, v) ∷ []
  put ((j, w) ∷ d) k v = if j == k then (j, v) ∷ d else (j, w) ∷ put d k v

  pub get-put :
      (d : List (ℕ × V)) (k j : ℕ) (v : V)
      → get (put d k v) j ≡ (if k == j then some v else get d j)
  get-put [] k j v = refl
  get-put ((i, w) ∷ d) k j v = ground (arith, get-put d k j v)

-- A dictionary that a comprehension builds, read at a key: the last entry that has it.
abbrev pub find_last {ℓ} : {A : Type ℓ} → (A → Bool) → List A → Option A
find_last p [] = none
find_last p (x ∷ xs) = elim (find_last p xs) [
  | some later ↦ some later
  | none ↦ if p x then some x else none
]
