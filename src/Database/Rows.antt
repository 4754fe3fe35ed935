-- ===== src/Database/Rows.antt =====
-- `UPDATE ... WHERE`, and what it leaves.
use mathlib.Core.Option.{some-injective}
use syn_koala.Prelude.{
  ◌↔◌, ℕ, suc, ◌+◌, ◌≤◌, ◌≡◌, refl, ap, subst, Bool, true, false, ◌&&◌, some, List, [], ◌∷◌, ◌++◌,
  if◌then◌else◌, Bool-cases, inl, inr, count_if, find_first, length, arith, All,
}

module _ {A : Type 0} where
  -- `UPDATE table SET change WHERE test`
  abbrev pub amend : (A → Bool) → (A → A) → List A → List A
  amend test change [] = []
  amend test change (row ∷ rows) = (if test row then change row else row) ∷ amend test change rows

  pub length-amend :
      (test : A → Bool) (change : A → A) (rows : List A)
      → length (amend test change rows) ≡ length rows
  length-amend test change [] = refl
  length-amend test change (row ∷ rows) = ap suc (length-amend test change rows)

  -- A count that the change does not touch.
  pub count_if-amend :
      (p test : A → Bool) (change : A → A) (rows : List A)
      → ((row : A) → test row ≡ true → p (change row) ≡ p row)
      → count_if p (amend test change rows) ≡ count_if p rows
  count_if-amend p test change [] same = refl
  count_if-amend p test change (row ∷ rows) same =
      let ih = count_if-amend p test change rows same in
      elim (Bool-cases (test row)) [
        | inl e ↦ rw e (rw (same row e) (rw ih refl))
        | inr e ↦ rw e (rw ih refl)
      ]

  -- An update that only changes rows of which a property holds after the change as before.
  pub amend-All :
      (P : A → Type 0) (test : A → Bool) (change : A → A) (rows : List A)
      → ((row : A) → test row ≡ true → P row → P (change row))
      → All P rows
      → All P (amend test change rows)
  amend-All P test change [] keeps all = tt
  amend-All P test change (row ∷ rows) keeps (first, others) = elim (Bool-cases (test row)) [
    | inl e ↦ rw e (keeps row e first, amend-All P test change rows keeps others)
    | inr e ↦ rw e (first, amend-All P test change rows keeps others)
  ]

  -- An update whose change fails the test leaves no row that passes it.
  pub amend-clears :
      (test : A → Bool) (change : A → A) (rows : List A)
      → ((row : A) → test row ≡ true → test (change row) ≡ false)
      → All (λ row. test row ≡ false) (amend test change rows)
  amend-clears test change [] fails = tt
  amend-clears test change (row ∷ rows) fails = elim (Bool-cases (test row)) [
    | inl e ↦ rw e (fails row e, amend-clears test change rows fails)
    | inr e ↦ rw e (e, amend-clears test change rows fails)
  ]

  pub count_if-append :
      (p : A → Bool) (front back : List A)
      → count_if p (front ++ back) ≡ count_if p front + count_if p back
  count_if-append p [] back = omega arith
  count_if-append p (row ∷ front) back = ground (arith, count_if-append p front back)

  pub find_first-passes :
      (p : A → Bool) (rows : List A) (row : A) → find_first p rows ≡ some row → p row ≡ true
  find_first-passes p [] row h = cc
  find_first-passes p (r ∷ rows) row h = elim (Bool-cases (p r)) [
    | inl e ↦ subst (λ x. p x ≡ true) (some-injective r row (rw e at h)) e
    | inr e ↦ find_first-passes p rows row (rw e at h)
  ]

  -- The row that an update by key changed is found under that key, changed.
  pub find_first-amend :
      (p : A → Bool) (change : A → A) (rows : List A) (row : A)
      → ((r : A) → p r ≡ true → p (change r) ≡ true)
      → find_first p rows ≡ some row
      → find_first p (amend p change rows) ≡ some (change row)
  find_first-amend p change [] row keeps h = cc
  find_first-amend p change (r ∷ rows) row keeps h = elim (Bool-cases (p r)) [
    | inl e ↦ rw e (rw (keeps r e) (ap (λ x. some (change x)) (some-injective r row (rw e at h))))
    | inr e ↦ rw e (rw e (find_first-amend p change rows row keeps (rw e at h)))
  ]

  pub count_if-both_le :
      (p q : A → Bool) (rows : List A) → count_if (λ r. p r && q r) rows ≤ count_if p rows
  count_if-both_le p q [] = omega arith
  count_if-both_le p q (r ∷ rows) = ground (arith, count_if-both_le p q rows)

  -- Two counts agree exactly where every row that passes the one test passes the other.
  pub count_if-both_iff :
      (p q : A → Bool) (rows : List A)
      → (count_if (λ r. p r && q r) rows ≡ count_if p rows)
        ↔ All (λ r. p r ≡ true → q r ≡ true) rows
  count_if-both_iff p q rows = (to rows, from rows)
    where
      suc-injective : {m n : ℕ} → suc m ≡ suc n → m ≡ n
      suc-injective h = omega arith

      too_many : {m n : ℕ} → m ≡ suc n → m ≤ n → ⊥
      too_many h k = omega arith

      to :
          (rows : List A)
          → count_if (λ r. p r && q r) rows ≡ count_if p rows
          → All (λ r. p r ≡ true → q r ≡ true) rows
      to [] h = tt
      to (r ∷ rows) h = elim (Bool-cases (p r)) [
        | inl e ↦ elim (Bool-cases (q r)) [
          | inl f ↦ ((λ _. f), to rows (suc-injective (rw f at (rw e at h))))
          | inr f ↦ absurd (too_many (rw f at (rw e at h)) (count_if-both_le p q rows))
        ]
        | inr e ↦ ((λ passes. cc), to rows (rw e at h))
      ]

      from :
          (rows : List A)
          → All (λ r. p r ≡ true → q r ≡ true) rows
          → count_if (λ r. p r && q r) rows ≡ count_if p rows
      from [] all = refl
      from (r ∷ rows) (first, others) = elim (Bool-cases (p r)) [
        | inl e ↦ rw e (rw (first e) (ap suc (from rows others)))
        | inr e ↦ rw e (from rows others)
      ]
