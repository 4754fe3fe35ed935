-- ===== src/Stimuli/Keys.antt =====
-- `_unique_screen_key` of app/services/stimulus_service.py.
use text.Mathlib.TextLemmas.{append_cancel_left}
use Prim.Native.String.{◌++◌ as ◌<>◌}
use syn_koala.Prelude.{
  ℕ, zero, suc, ◌+◌, ◌≤◌, ◌<◌, ◌≡◌, ◌⊎◌, refl, sym, subst, ◌∙◌, arith, String, true, false, not,
  some, List, [], ◌∷◌, str_eq, eq_iff, map, select, length, contains, string_eq, Bool-cases, inl,
  inr,
}
use syn_koala.Stimuli.{Assets, list_screens_for_study, free_suffix, unique_screen_key}

without : String → List String → List String
without key xs = select (λ x. not (str_eq x key)) xs

length-without : (key : String) (xs : List String) → length (without key xs) ≤ length xs
unfolding without
length-without key [] = omega arith
length-without key (x ∷ xs) = ground (arith, length-without key xs)

length-without-lt :
    (key : String) (xs : List String)
    → contains xs key ≡ true
    → suc (length (without key xs)) ≤ length xs
unfolding without
length-without-lt key [] h = cc
length-without-lt key (x ∷ xs) h = elim (Bool-cases (str_eq x key)) [
  | inl e ↦ rw e (omega (arith, length-without key xs))
  | inr e ↦ let rest = length-without-lt key xs (rw e at h) in rw e (omega (arith, rest))
]

contains-without :
    (key other : String) (xs : List String)
    → str_eq key other ≡ false
    → contains xs other ≡ true
    → contains (without key xs) other ≡ true
unfolding without
contains-without key other [] ne h = cc
contains-without key other (x ∷ xs) ne h = elim (Bool-cases (str_eq x key)) [
  | inl e ↦
      let differs : str_eq x other ≡ false =
        subst (λ y. str_eq y other ≡ false) (sym ((eq_iff x key).0 e)) ne in
      rw e (contains-without key other xs ne (rw differs at h))
  | inr e ↦ elim (Bool-cases (str_eq x other)) [
    | inl t ↦ rw e (rw t refl)
    | inr f ↦ rw e (rw f (contains-without key other xs ne (rw f at h)))
  ]
]

module _ (show : ℕ → String) (show-injective : (m n : ℕ) → show m ≡ show n → m ≡ n)
    (base_key : String) where
  numbered : ℕ → String
  numbered suffix = base_key <> ("_" <> show suffix)

  numbered-differs : (m n : ℕ) → m < n → str_eq (numbered m) (numbered n) ≡ false
  unfolding numbered
  numbered-differs m n lt = elim (Bool-cases (str_eq (numbered m) (numbered n))) [
    | inr e ↦ e
    | inl e ↦
        let same = show-injective m n (
          append_cancel_left "_" (show m) (show n) (
            append_cancel_left base_key ("_" <> show m) ("_" <> show n)
              ((eq_iff (numbered m) (numbered n)).0 e))) in
        absurd (omega (arith, lt, same))
  ]

  -- The suffixes from one on, as many as the fuel, are all taken.
  AreTaken : (fuel suffix : ℕ) → List String → Type 0
  AreTaken zero suffix xs = Unit
  AreTaken (suc fuel) suffix xs =
      (contains xs (numbered suffix) ≡ true) × AreTaken fuel (suffix + 1) xs

  without-AreTaken :
      (fuel first suffix : ℕ) (xs : List String)
      → first < suffix
      → AreTaken fuel suffix xs
      → AreTaken fuel suffix (without (numbered first) xs)
  unfolding AreTaken
  without-AreTaken zero first suffix xs lt taken = tt
  without-AreTaken (suc fuel) first suffix xs lt (here, taken) = (
    contains-without (numbered first) (numbered suffix) xs (numbered-differs first suffix lt) here,
    without-AreTaken fuel first (suffix + 1) xs (omega (arith, lt)) taken,
  )

  AreTaken-le : (fuel suffix : ℕ) (xs : List String) → AreTaken fuel suffix xs → fuel ≤ length xs
  unfolding AreTaken
  AreTaken-le zero suffix xs taken = omega arith
  AreTaken-le (suc fuel) suffix xs (here, taken) =
      let shorter = length-without-lt (numbered suffix) xs here in
      let rest =
        AreTaken-le fuel (suffix + 1) (without (numbered suffix) xs)
          (without-AreTaken fuel suffix (suffix + 1) xs (omega arith) taken) in
      omega (arith, shorter, rest)

  -- The loop ends with a key that is free, or every suffix that it tried is taken.
  free_suffix-cases :
      (existing : List String) (fuel suffix : ℕ)
      → ((key : String) × (free_suffix show existing base_key fuel suffix ≡ some key)
          × (contains existing key ≡ false))
        ⊎ AreTaken fuel suffix existing
  unfolding free_suffix numbered AreTaken
  free_suffix-cases existing zero suffix = inr tt
  free_suffix-cases existing (suc fuel) suffix =
      elim (Bool-cases (contains existing (numbered suffix))) [
        | inr e ↦ inl (numbered suffix, rw (e, free_suffix) refl, e)
        | inl e ↦ elim (free_suffix-cases existing fuel (suffix + 1)) [
          | inl (key, returned, free) ↦ inl (key, rw (e, free_suffix) returned, free)
          | inr taken ↦ inr (e, taken)
        ]
      ]

  free_suffix-IsFree :
      (existing : List String)
      → (key : String) × (free_suffix show existing base_key (suc (length existing)) 2 ≡ some key)
        × (contains existing key ≡ false)
  free_suffix-IsFree existing = elim (free_suffix-cases existing (suc (length existing)) 2) [
    | inl found ↦ found
    | inr taken ↦
        let full = AreTaken-le (suc (length existing)) 2 existing taken in
        absurd (omega (arith, full))
  ]

abbrev pub keys_of : ℕ → Assets → List String
keys_of study_id a = map (λ screen. screen.screen_key) (list_screens_for_study study_id a)

-- `_unique_screen_key` always ends, with one turn of its loop for each screen of the study and one more,
-- and returns a key that no screen of the study has, where `str` gives different numbers different texts;
-- it is the base key itself where no screen has that.
pub unique_screen_key-IsFree :
    (show : ℕ → String)
    → ((m n : ℕ) → show m ≡ show n → m ≡ n)
    → (study_id : ℕ) (base_key : String) (a : Assets)
    → (key : String) × (unique_screen_key show study_id base_key a ≡ some key)
      × (contains (keys_of study_id a) key ≡ false)
      × (contains (keys_of study_id a) base_key ≡ false → key ≡ base_key)
unfolding unique_screen_key
unique_screen_key-IsFree show injective study_id base_key a =
    elim (Bool-cases (contains (keys_of study_id a) base_key)) [
      | inr e ↦ (base_key, rw e refl, e, λ f. refl)
      | inl e ↦
          let (key, returned, free) =
            free_suffix-IsFree show injective base_key (keys_of study_id a) in
          (key, rw e returned, free, λ f. cc (sym e ∙ f))
    ]
