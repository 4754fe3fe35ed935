-- ===== src/Jobs/Queue.antt =====
-- The table of jobs as a queue: its keys are unique, and what an update leaves.
use mathlib.Core.Option.{some-injective}
use syn_koala.Prelude.{
  ℕ, suc, ◌≤◌, ◌<◌, ◌≡◌, refl, ap, sym, subst, ◌∙◌, arith, Bool, true, false, some, List, [], ◌∷◌,
  ◌++◌, ◌==◌, ==_iff, find_first, Bool-cases, inl, inr, All,
}
use syn_koala.Database.{Job, JobStatus, job_failed}
use syn_koala.Database.Rows.{amend}
use syn_koala.Jobs.{max_attempts}

-- The ids ascend from `lo` and stay below `hi`: a primary key, in the order of creation.
abbrev pub Ascending : ℕ → ℕ → List Job → Type 0
Ascending lo hi [] = lo ≤ hi
Ascending lo hi (j ∷ js) = (lo ≤ j.id) × Ascending (suc j.id) hi js

-- A job is FAILED exactly where its attempts are used up.
abbrev pub Kept : JobStatus → ℕ → Type 0
Kept job_failed attempts = attempts ≡ max_attempts
Kept _ attempts = attempts < max_attempts

abbrev pub IsKept : Job → Type 0
IsKept j = Kept j.status j.attempts

abbrev pub at_id : ℕ → Job → Bool
at_id id j = j.id == id

at_own_id : (id : ℕ) → (id == id) ≡ true
at_own_id id = (==_iff id id).1 refl

Ascending-weaken :
    (lo lo' hi : ℕ) (js : List Job) → lo ≤ lo' → Ascending lo' hi js → Ascending lo hi js
Ascending-weaken lo lo' hi [] h a = omega arith
Ascending-weaken lo lo' hi (j ∷ js) h a = (omega (arith, a.0), a.1)

pub Ascending-append :
    (lo mid hi : ℕ) (js ks : List Job)
    → Ascending lo mid js
    → Ascending mid hi ks
    → Ascending lo hi (js ++ ks)
Ascending-append lo mid hi [] ks a b = Ascending-weaken lo mid hi ks a b
Ascending-append lo mid hi (j ∷ js) ks a b = (a.0, Ascending-append (suc j.id) mid hi js ks a.1 b)

pub Ascending-amend :
    (test : Job → Bool) (change : Job → Job) (lo hi : ℕ) (js : List Job)
    → ((j : Job) → (change j).id ≡ j.id)
    → Ascending lo hi js
    → Ascending lo hi (amend test change js)
Ascending-amend test change lo hi [] same a = a
Ascending-amend test change lo hi (j ∷ js) same a =
    let rest = Ascending-amend test change (suc j.id) hi js same a.1 in
    elim (Bool-cases (test j)) [ inl e ↦ rw e (rw (same j) (a.0, rest)) | inr e ↦ rw e (a.0, rest) ]

found_above :
    (p : Job → Bool) (lo hi : ℕ) (js : List Job) (j : Job)
    → Ascending lo hi js
    → find_first p js ≡ some j
    → lo ≤ j.id
found_above p lo hi [] j a h = cc
found_above p lo hi (r ∷ js) j a h = elim (Bool-cases (p r)) [
  | inl e ↦ subst (λ x. lo ≤ x.id) (some-injective r j (rw e at h)) a.0
  | inr e ↦
      let above = found_above p (suc r.id) hi js j a.1 (rw e at h) in omega (arith, a.0, above)
]

-- What a query finds is what its key finds.
pub found_by_id :
    (p : Job → Bool) (lo hi : ℕ) (js : List Job) (j : Job)
    → Ascending lo hi js
    → find_first p js ≡ some j
    → find_first (at_id j.id) js ≡ some j
found_by_id p lo hi [] j a h = cc
found_by_id p lo hi (r ∷ js) j a h = elim (Bool-cases (p r)) [
  | inl e ↦
      let same = some-injective r j (rw e at h) in
      subst (λ x. find_first (at_id x.id) (r ∷ js) ≡ some x) same (rw (at_own_id r.id) refl)
  | inr e ↦
      let later : find_first p js ≡ some j = rw e at h in
      let above = found_above p (suc r.id) hi js j a.1 later in
      rw (differs r.id j.id above) (found_by_id p (suc r.id) hi js j a.1 later)
]
  where
    differs : (m n : ℕ) → suc m ≤ n → (m == n) ≡ false
    differs m n h = ground arith

above_untouched :
    (id lo hi : ℕ) (change : Job → Job) (js : List Job)
    → id < lo
    → Ascending lo hi js
    → amend (at_id id) change js ≡ js
above_untouched id lo hi change [] h a = refl
above_untouched id lo hi change (r ∷ js) h a =
    rw (other id r.id (omega (arith, a.0)))
      (ap (λ rest. r ∷ rest) (above_untouched id (suc r.id) hi change js (omega (arith, a.0)) a.1))
  where
    other : (m n : ℕ) → m < n → (n == m) ≡ false
    other m n h = ground arith

-- An update by key changes the one row that the key finds.
pub amend_one-All :
    (P : Job → Type 0) (id lo hi : ℕ) (change : Job → Job) (js : List Job) (j : Job)
    → Ascending lo hi js
    → find_first (at_id id) js ≡ some j
    → P (change j)
    → All P js
    → All P (amend (at_id id) change js)
amend_one-All P id lo hi change [] j a h new all = tt
amend_one-All P id lo hi change (r ∷ js) j a h new all = elim (Bool-cases (r.id == id)) [
  | inl e ↦
      let same = some-injective r j (rw e at h) in
      let untouched = above_untouched id (suc r.id) hi change js (below e) a.1 in
      rw e (rw untouched (subst (λ x. P (change x)) (sym same) new, all.1))
  | inr e ↦ rw e (all.0, amend_one-All P id (suc r.id) hi change js j a.1 (rw e at h) new all.1)
]
  where
    below : {m n : ℕ} → (m == n) ≡ true → n < suc m
    below h = ground arith

-- An update leaves a row that it does not select, and a key that it keeps finds it still.
pub found_after_amend :
    (id : ℕ) (test : Job → Bool) (change : Job → Job) (js : List Job) (j : Job)
    → ((r : Job) → (change r).id ≡ r.id)
    → find_first (at_id id) js ≡ some j
    → test j ≡ false
    → find_first (at_id id) (amend test change js) ≡ some j
found_after_amend id test change [] j same h out = cc
found_after_amend id test change (r ∷ js) j same h out = elim (Bool-cases (r.id == id)) [
  | inl e ↦
      let found = some-injective r j (rw e at h) in
      let unselected : test r ≡ false = ap test found ∙ out in rw unselected (rw e (ap some found))
  | inr e ↦
      let rest = found_after_amend id test change js j same (rw e at h) out in
      elim (Bool-cases (test r)) [
        | inl t ↦ rw t (rw (ap (λ n. n == id) (same r) ∙ e) rest)
        | inr t ↦ rw t (rw e rest)
      ]
]

pub found_after_append :
    (p : Job → Bool) (js ks : List Job) (j : Job)
    → find_first p js ≡ some j
    → find_first p (js ++ ks) ≡ some j
found_after_append p [] ks j h = cc
found_after_append p (r ∷ js) ks j h = elim (Bool-cases (p r)) [
  | inl e ↦ rw e (rw e at h)
  | inr e ↦ rw e (found_after_append p js ks j (rw e at h))
]
