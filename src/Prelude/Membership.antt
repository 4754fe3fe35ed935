-- ===== src/Prelude/Membership.antt =====
-- Membership in a list, as a predicate by recursion, and what `All`, `select` and `map` do to it.
use Prim.Native.Nat.{suc}
use mathlib.Core.Path.{◌≡◌, refl, sym, ap, ◌∙◌, subst}
use mathlib.Core.Logic.{◌⊎◌, inl, inr}
use mathlib.Core.Bool.{Bool, true, false}
use mathlib.Core.List.{List, [], ◌∷◌, ◌++◌, map}
use mathlib.Core.Option.{some, some-injective}
use native.Mathlib.Omega.{arith}
use syn_koala.Prelude.Tests.{Bool-cases, Option-cases}
use syn_koala.Prelude.Lists.{All, select, length, count_if, find_first, find_last}

module _ {A : Type 0} where
  abbrev pub In : A → List A → Type 0
  In a [] = true ≡ false
  In a (x ∷ xs) = (a ≡ x) ⊎ In a xs

  pub select-All :
      (P Q : A → Type 0) (p : A → Bool)
      → ((x : A) → P x → p x ≡ true → Q x)
      → (xs : List A) → All P xs
      → All Q (select p xs)
  select-All P Q p f [] all = tt
  select-All P Q p f (x ∷ xs) all = elim (Bool-cases (p x)) [
    | inl e ↦ rw e (f x all.0 e, select-All P Q p f xs all.1)
    | inr e ↦ rw e (select-All P Q p f xs all.1)
  ]

  pub All-map : (P Q : A → Type 0) → ((x : A) → P x → Q x) → (xs : List A) → All P xs → All Q xs
  All-map P Q f [] all = tt
  All-map P Q f (x ∷ xs) all = (f x all.0, All-map P Q f xs all.1)

  pub All-In : (xs : List A) → All (λ x. In x xs) xs
  All-In [] = tt
  All-In (x ∷ xs) =
      (inl refl, All-map (λ y. In y xs) (λ y. In y (x ∷ xs)) (λ y i. inr i) xs (All-In xs))

pub In-append_left : {A : Type 0} (a : A) (xs ys : List A) → In a xs → In a (xs ++ ys)
In-append_left a [] ys i = cc
In-append_left a (x ∷ xs) ys (inl e) = inl e
In-append_left a (x ∷ xs) ys (inr i) = inr (In-append_left a xs ys i)

pub In-append_right : {A : Type 0} (a : A) (xs ys : List A) → In a ys → In a (xs ++ ys)
In-append_right a [] ys i = i
In-append_right a (x ∷ xs) ys i = inr (In-append_right a xs ys i)

pub In-select :
    {A : Type 0} (p : A → Bool) (a : A) (xs : List A) → In a xs → p a ≡ true → In a (select p xs)
In-select p a [] i e = cc
In-select p a (x ∷ xs) (inl same) e = rw (ap p (sym same) ∙ e) (inl same)
In-select p a (x ∷ xs) (inr i) e = elim (Bool-cases (p x)) [
  | inl kept ↦ rw kept (inr (In-select p a xs i e))
  | inr left ↦ rw left (In-select p a xs i e)
]

pub map-All :
    {A B : Type 0} (P : A → Type 0) (Q : B → Type 0) (f : A → B)
    → ((a : A) → P a → Q (f a))
    → (xs : List A) → All P xs
    → All Q (map f xs)
map-All P Q f h [] all = tt
map-All P Q f h (x ∷ xs) all = (h x all.0, map-All P Q f h xs all.1)

pub count_if-select :
    {A : Type 0} (p : A → Bool) (xs : List A) → count_if p xs ≡ length (select p xs)
count_if-select p [] = refl
count_if-select p (x ∷ xs) = ground (arith, count_if-select p xs)

pub length-map : {A B : Type 0} (f : A → B) (xs : List A) → length (map f xs) ≡ length xs
length-map f [] = refl
length-map f (x ∷ xs) = ap suc (length-map f xs)

pub List-cases :
    {A : Type 0} (xs : List A) → (xs ≡ []) ⊎ ((x : A) × (rest : List A) × (xs ≡ x ∷ rest))
List-cases [] = inl refl
List-cases (x ∷ xs) = inr (x, xs, refl)

pub find_first-In :
    {A : Type 0} (p : A → Bool) (xs : List A) (a : A) → find_first p xs ≡ some a → In a xs
find_first-In p [] a h = cc
find_first-In p (x ∷ xs) a h = elim (Bool-cases (p x)) [
  | inl e ↦ inl (sym (some-injective x a (rw e at h)))
  | inr e ↦ inr (find_first-In p xs a (rw e at h))
]

pub In-of-All : {A : Type 0} (P : A → Type 0) (xs : List A) (a : A) → All P xs → In a xs → P a
In-of-All P [] a all i = cc
In-of-All P (x ∷ xs) a all (inl e) = subst P (sym e) all.0
In-of-All P (x ∷ xs) a all (inr i) = In-of-All P xs a all.1 i

pub find_last-In :
    {A : Type 0} (p : A → Bool) (xs : List A) (a : A)
    → find_last p xs ≡ some a
    → In a xs × (p a ≡ true)
find_last-In p [] a h = cc
find_last-In p (x ∷ xs) a h = elim (Option-cases (find_last p xs)) [
  | inr (b, e) ↦
      let same : b ≡ a = some-injective b a (rw (e, find_last) at h) in
      let (i, t) = find_last-In p xs b e in
      (inr (subst (λ y. In y xs) same i), subst (λ y. p y ≡ true) same t)
  | inl e ↦ elim (Bool-cases (p x)) [
    | inl t ↦
        let same : x ≡ a = some-injective x a (rw t at (rw (e, find_last) at h)) in
        (inl (sym same), subst (λ y. p y ≡ true) same t)
    | inr f ↦ cc (rw f at (rw (e, find_last) at h))
  ]
]

module _ {A : Type 0} where
  pub select-append :
      (p : A → Bool) (xs ys : List A) → select p (xs ++ ys) ≡ select p xs ++ select p ys
  select-append p [] ys = refl
  select-append p (x ∷ xs) ys = elim (Bool-cases (p x)) [
    | inl e ↦ rw e (ap (λ zs. x ∷ zs) (select-append p xs ys))
    | inr e ↦ rw e (select-append p xs ys)
  ]

  pub select-none : (p : A → Bool) (xs : List A) → All (λ x. p x ≡ false) xs → select p xs ≡ []
  select-none p [] all = refl
  select-none p (x ∷ xs) (e, all) = rw e (select-none p xs all)

  pub select-all : (p : A → Bool) (xs : List A) → All (λ x. p x ≡ true) xs → select p xs ≡ xs
  select-all p [] all = refl
  select-all p (x ∷ xs) (e, all) = rw e (ap (λ zs. x ∷ zs) (select-all p xs all))

  pub select-passes : (p : A → Bool) (xs : List A) → All (λ x. p x ≡ true) (select p xs)
  select-passes p [] = tt
  select-passes p (x ∷ xs) = elim (Bool-cases (p x)) [
    | inl e ↦ rw e (e, select-passes p xs)
    | inr e ↦ rw e (select-passes p xs)
  ]
