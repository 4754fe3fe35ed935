-- ===== src/Analytics/Groups.antt =====
-- The sets by key that app/services/analytics_engine.py counts: what adding to one does to what they hold.
use syn_koala.Prelude.{
  ℕ, suc, ◌≤◌, ◌≡◌, ◌⊎◌, refl, sym, subst, ◌∙◌, arith, true, false, not, List, [], ◌∷◌, ◌++◌, ◌==◌,
  ==_iff, select, length, contains, nat_eq, get-put, Bool-cases, inl, inr,
}
use syn_koala.Analytics.Metrics.{Groups, members, add_to, note}

abbrev pub HasNoRepeat : List ℕ → Type 0
HasNoRepeat [] = Unit
HasNoRepeat (x ∷ xs) = (contains xs x ≡ false) × HasNoRepeat xs

others : ℕ → List ℕ → List ℕ
others x xs = select (λ y. not (y == x)) xs

others-le : (x : ℕ) (xs : List ℕ) → length (others x xs) ≤ length xs
unfolding others
others-le x [] = omega arith
others-le x (y ∷ xs) = ground (arith, others-le x xs)

others-lt : (x : ℕ) (xs : List ℕ) → contains xs x ≡ true → suc (length (others x xs)) ≤ length xs
unfolding others
others-lt x [] h = cc
others-lt x (y ∷ xs) h = elim (Bool-cases (y == x)) [
  | inl e ↦ rw e (omega (arith, others-le x xs))
  | inr e ↦ let rest = others-lt x xs (rw e at h) in rw e (omega (arith, rest))
]

contains-others :
    (x y : ℕ) (xs : List ℕ)
    → (x == y) ≡ false
    → contains xs y ≡ true
    → contains (others x xs) y ≡ true
unfolding others
contains-others x y [] ne h = cc
contains-others x y (z ∷ xs) ne h = elim (Bool-cases (z == x)) [
  | inl e ↦
      let differs : (z == y) ≡ false = subst (λ w. (w == y) ≡ false) (sym ((==_iff z x).0 e)) ne in
      rw e (contains-others x y xs ne (rw differs at h))
  | inr e ↦ elim (Bool-cases (z == y)) [
    | inl t ↦ rw e (rw t refl)
    | inr f ↦ rw e (rw f (contains-others x y xs ne (rw f at h)))
  ]
]

contains-ne :
    (x y : ℕ) (xs : List ℕ) → contains xs x ≡ false → contains xs y ≡ true → (x == y) ≡ false
contains-ne x y xs absent present = elim (Bool-cases (x == y)) [
  | inr e ↦ e
  | inl e ↦ cc (subst (λ w. contains xs w ≡ true) (sym ((==_iff x y).0 e)) present ∙ refl, absent)
]

-- A list without repetitions is no longer than a list that has all of it.
pub HasNoRepeat-le :
    (xs ys : List ℕ)
    → HasNoRepeat xs
    → ((x : ℕ) → contains xs x ≡ true → contains ys x ≡ true)
    → length xs ≤ length ys
HasNoRepeat-le [] ys once sub = omega arith
HasNoRepeat-le (x ∷ xs) ys (new, once) sub =
    let here : contains (x ∷ xs) x ≡ true = ground arith in
    let rest = HasNoRepeat-le xs (others x ys) once (λ y i.
      let ne = contains-ne x y xs new i in
      let there : contains (x ∷ xs) y ≡ true = rw ne i in
      contains-others x y ys ne (sub y there)) in
    omega (arith, rest, others-lt x ys (sub x here))

contains-append_old :
    (x y : ℕ) (xs : List ℕ) → contains xs y ≡ true → contains (xs ++ x ∷ []) y ≡ true
contains-append_old x y [] h = cc
contains-append_old x y (z ∷ xs) h = ground (arith, contains-append_old x y xs)

contains-append_new : (x : ℕ) (xs : List ℕ) → contains (xs ++ x ∷ []) x ≡ true
contains-append_new x [] = ground arith
contains-append_new x (z ∷ xs) = ground (arith, contains-append_new x xs)

contains-append_cases :
    (x y : ℕ) (xs : List ℕ) → contains (xs ++ x ∷ []) y ≡ true → (contains xs y ≡ true) ⊎ (x ≡ y)
contains-append_cases x y [] h = elim (Bool-cases (x == y)) [
  | inl e ↦ inr ((==_iff x y).0 e)
  | inr e ↦ cc (rw e at h)
]
contains-append_cases x y (z ∷ xs) h = elim (Bool-cases (z == y)) [
  | inl e ↦ inl (rw e refl)
  | inr e ↦ rw e (contains-append_cases x y xs (rw e at h))
]

HasNoRepeat-append :
    (x : ℕ) (xs : List ℕ) → HasNoRepeat xs → contains xs x ≡ false → HasNoRepeat (xs ++ x ∷ [])
HasNoRepeat-append x [] once new = (refl, tt)
HasNoRepeat-append x (z ∷ xs) (first, once) new = elim (Bool-cases (z == x)) [
  | inl e ↦ cc (rw e at new)
  | inr e ↦
      (absent (Bool-cases (contains (xs ++ x ∷ []) z)), HasNoRepeat-append x xs once (rw e at new))
]
  where
    absent :
        (contains (xs ++ x ∷ []) z ≡ true) ⊎ (contains (xs ++ x ∷ []) z ≡ false)
        → contains (xs ++ x ∷ []) z ≡ false
    absent (inr f) = f
    absent (inl t) = elim (contains-append_cases x z xs t) [
      | inl old ↦ cc (sym old ∙ first)
      | inr same ↦ let met : (z == x) ≡ true = (==_iff z x).1 (sym same) in cc (rw met at new)
    ]

add_to-HasNoRepeat : (x : ℕ) (xs : List ℕ) → HasNoRepeat xs → HasNoRepeat (add_to xs x)
add_to-HasNoRepeat x xs once = elim (Bool-cases (contains xs x)) [
  | inl e ↦ rw e once
  | inr e ↦ rw e (HasNoRepeat-append x xs once e)
]

module _ (groups : Groups) (k x : ℕ) where
  members-note :
      (j : ℕ) → (k == j) ≡ true → members (note groups k x) j ≡ add_to (members groups k) x
  unfolding note
  members-note j e =
      rw (get-put groups k j (add_to (members groups k) x), members) (rw (e, members) refl)

  members-note_other : (j : ℕ) → (k == j) ≡ false → members (note groups k x) j ≡ members groups j
  unfolding note
  members-note_other j e =
      rw (get-put groups k j (add_to (members groups k) x), members) (rw (e, members) refl)

  pub note-keeps :
      (j y : ℕ)
      → contains (members groups j) y ≡ true
      → contains (members (note groups k x) j) y ≡ true
  note-keeps j y h = elim (Bool-cases (k == j)) [
    | inr e ↦ subst (λ ids. contains ids y ≡ true) (sym (members-note_other j e)) h
    | inl e ↦
        let here : contains (members groups k) y ≡ true =
          subst (λ i. contains (members groups i) y ≡ true) (sym ((==_iff k j).0 e)) h in
        subst (λ ids. contains ids y ≡ true) (sym (members-note j e))
          (elim (Bool-cases (contains (members groups k) x)) [
            | inl had ↦ rw had here
            | inr new ↦ rw new (contains-append_old x y (members groups k) here)
          ])
  ]

  pub note-adds : contains (members (note groups k x) k) x ≡ true
  note-adds =
      let same : (k == k) ≡ true = (==_iff k k).1 refl in
      subst (λ ids. contains ids x ≡ true) (sym (members-note k same))
        (elim (Bool-cases (contains (members groups k) x)) [
          | inl had ↦ rw had had
          | inr new ↦ rw new (contains-append_new x (members groups k))
        ])

  pub note-cases :
      (j y : ℕ)
      → contains (members (note groups k x) j) y ≡ true
      → (contains (members groups j) y ≡ true) ⊎ ((k ≡ j) × (x ≡ y))
  note-cases j y h = elim (Bool-cases (k == j)) [
    | inr e ↦ inl (subst (λ ids. contains ids y ≡ true) (members-note_other j e) h)
    | inl e ↦
        let same = (==_iff k j).0 e in
        let inside = subst (λ ids. contains ids y ≡ true) (members-note j e) h in
        elim (Bool-cases (contains (members groups k) x)) [
          | inl had ↦
              inl (subst (λ i. contains (members groups i) y ≡ true) same (rw had at inside))
          | inr new ↦ elim (contains-append_cases x y (members groups k) (rw new at inside)) [
            | inl old ↦ inl (subst (λ i. contains (members groups i) y ≡ true) same old)
            | inr met ↦ inr (same, met)
          ]
        ]
  ]

  pub note-HasNoRepeat :
      ((j : ℕ) → HasNoRepeat (members groups j))
      → (j : ℕ) → HasNoRepeat (members (note groups k x) j)
  note-HasNoRepeat once j = elim (Bool-cases (k == j)) [
    | inl e ↦
        subst HasNoRepeat (sym (members-note j e))
          (add_to-HasNoRepeat x (members groups k) (once k))
    | inr e ↦ subst HasNoRepeat (sym (members-note_other j e)) (once j)
  ]
