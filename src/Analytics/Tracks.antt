-- ===== src/Analytics/Tracks.antt =====
-- Of two families of sets that app/services/analytics_engine.py keeps, one within the other.
use syn_koala.Prelude.{
  ℕ, ◌≤◌, ◌≡◌, refl, sym, subst, ◌∙◌, arith, String, true, false, Option, none, some, List, [], ◌∷◌,
  ◌==◌, ==_iff, length, contains, nat_eq, get, put, get-put, All, All-In, All-map, In, Bool-cases,
  inl, inr,
}
use syn_koala.Platform.{Platform}
use syn_koala.Analytics.Metrics.{Groups, MetricRow, members, note, ratio, rate_row, group_rates}
use syn_koala.Analytics.Groups.{
  HasNoRepeat, HasNoRepeat-le, note-keeps, note-cases, note-HasNoRepeat,
}

-- No key stands twice in the dictionary.
abbrev pub HasKeysOnce : {V : Type 0} → List (ℕ × V) → Type 0
HasKeysOnce [] = Unit
HasKeysOnce ((k, v) ∷ d) = (get d k ≡ none) × HasKeysOnce d

pub put-HasKeysOnce :
    {V : Type 0} (d : List (ℕ × V)) (k : ℕ) (v : V) → HasKeysOnce d → HasKeysOnce (put d k v)
put-HasKeysOnce [] k v once = (refl, tt)
put-HasKeysOnce ((j, w) ∷ d) k v (first, once) = elim (Bool-cases (j == k)) [
  | inl e ↦ rw e (first, once)
  | inr e ↦
      let other : (k == j) ≡ false = ground (arith, e) in
      rw e (get-put d k j v ∙ rw other first, put-HasKeysOnce d k v once)
]

get-entry :
    {V : Type 0} (d : List (ℕ × V)) (e : ℕ × V) → HasKeysOnce d → In e d → get d e.0 ≡ some e.1
get-entry [] e once i = cc
get-entry ((k, v) ∷ d) e (first, once) (inl same) =
    subst (λ x. get ((k, v) ∷ d) x.0 ≡ some x.1) (sym same) (rw ((==_iff k k).1 refl) refl)
get-entry ((k, v) ∷ d) e (first, once) (inr i) =
    let there = get-entry d e once i in
    elim (Bool-cases (k == e.0)) [
      | inl same ↦ cc (sym (subst (λ j. get d j ≡ none) ((==_iff k e.0).0 same) first) ∙ there)
      | inr ne ↦ rw ne there
    ]

-- Every member of the first is a member of the second, under the same key.
pub record Tracks (part whole : Groups) : Type 0 where
  pub sub : (k x : ℕ) → contains (members part k) x ≡ true → contains (members whole k) x ≡ true
  pub once : (k : ℕ) → HasNoRepeat (members part k)

pub Tracks-grows :
    (part whole : Groups) (k x : ℕ) → Tracks part whole → Tracks part (note whole k x)
Tracks-grows part whole k x t = record {
  sub = λ j y i. note-keeps whole k x j y (t.sub j y i);
  once = t.once;
}

pub note-Tracks :
    (part whole : Groups) (k x : ℕ)
    → contains (members whole k) x ≡ true
    → Tracks part whole
    → Tracks (note part k x) whole
note-Tracks part whole k x there t = record {
  sub = λ j y i. elim (note-cases part k x j y i) [
    | inl old ↦ t.sub j y old
    | inr (key, id) ↦
        subst (λ n. contains (members whole n) y ≡ true) key
          (subst (λ n. contains (members whole k) n ≡ true) id there)
  ];
  once = note-HasNoRepeat part k x t.once;
}

pub note-HasKeysOnce : (d : Groups) (k x : ℕ) → HasKeysOnce d → HasKeysOnce (note d k x)
unfolding note
note-HasKeysOnce d k x once = put-HasKeysOnce d k _ once

pub Tracks-le :
    (part whole : Groups)
    → HasKeysOnce whole
    → Tracks part whole
    → All (λ e. length (members part e.0) ≤ length e.1) whole
Tracks-le part whole once t =
    All-map (λ e. In e whole) (λ e. length (members part e.0) ≤ length e.1)
      (λ e i.
        let there : members whole e.0 ≡ e.1 = rw (get-entry whole e once i, members) refl in
        HasNoRepeat-le (members part e.0) e.1 (t.once e.0)
          (λ x h. subst (λ ids. contains ids x ≡ true) there (t.sub e.0 x h)))
      whole (All-In whole)

module _ (p : Platform) where
  -- A number of participants among those who count, of whom there is one.
  abbrev pub IsRate : MetricRow p.F → Type 0
  IsRate row =
      (count n : ℕ) × (row.value ≡ ratio p count n) × (row.sample_size ≡ n) × (count ≤ n) × (1 ≤ n)

  pub rate_row-IsRate :
      (level metric : String) (count n : ℕ) (element_id screen_id : Option ℕ)
      → count ≤ n
      → 1 ≤ n
      → IsRate (rate_row p level metric count n element_id screen_id)
  unfolding rate_row
  rate_row-IsRate level metric count n element_id screen_id le one = (count, n, refl, refl, le, one)

  pub group_rates-IsRate :
      (row : ℕ → ℕ → ℕ → MetricRow p.F) (part whole : Groups)
      → ((count n key : ℕ) → count ≤ n → 1 ≤ n → IsRate (row count n key))
      → All (λ e. length (members part e.0) ≤ length e.1) whole
      → All IsRate (group_rates p row part whole)
  unfolding group_rates
  group_rates-IsRate row part [] rate all = tt
  group_rates-IsRate row part ((key, ids) ∷ whole) rate (le, all) =
      elim (Bool-cases (length ids == 0)) [
        | inl e ↦ rw (e, group_rates) (group_rates-IsRate row part whole rate all)
        | inr e ↦
            let one : 1 ≤ length ids = ground (arith, e) in
            rw (e, group_rates)
              (
                rate (length (members part key)) (length ids) key le one,
                group_rates-IsRate row part whole rate all,
              )
      ]
