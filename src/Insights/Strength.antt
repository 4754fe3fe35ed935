-- ===== src/Insights/Strength.antt =====
-- `InsightEngine.compute_evidence_strength` of app/services/insight_engine.py: what the rating HIGH takes.
use mathlib.Core.List.{foldl}
use syn_koala.Prelude.{
  ℕ, ◌≤◌, ◌≡◌, refl, sym, ap, ◌∙◌, arith, Bool, true, false, not, some, List, [], ◌∷◌, ◌++◌, leb,
  min, any, All, In, In-of-All, Bool-cases, Option-cases, inl, inr,
}
use syn_koala.Platform.{Platform}
use syn_koala.Insights.{
  Rounding, MetricRecord, SegmentRecord, ValidationFact, EvidenceLink, ValidatedInsight, Level, low,
  medium, high, level_eq,
}
use syn_koala.Insights.Engine.{
  bucket_by, size_of, sizes_of, least_of, smallest_sample, effect_of, bucket, level_list,
  overall_of, compute_evidence_strength,
}

overall_of-All :
    (p : Platform) (d : Rounding p.F) (levels : List Level)
    → overall_of p d levels ≡ high
    → All (λ l. l ≡ high) levels
unfolding overall_of
overall_of-All p d levels h = elim (Bool-cases (any (level_eq low) levels)) [
  | inl some_low ↦ cc (rw some_low at h)
  | inr no_low ↦ elim (Bool-cases (any (λ l. not (level_eq l high)) levels)) [
    | inl some_less ↦ cc (rw some_less at (rw no_low at h))
    | inr no_less ↦ all_high levels no_less
  ]
]
  where
    all_high :
        (ls : List Level) → any (λ l. not (level_eq l high)) ls ≡ false → All (λ l. l ≡ high) ls
    all_high [] h = tt
    all_high (high ∷ ls) h = (refl, all_high ls h)
    all_high (low ∷ ls) h = cc
    all_high (medium ∷ ls) h = cc

bucket_by-high :
    {A : Type 0} (at_most : A → A → Bool) (value high_from medium_from : A)
    → bucket_by at_most value high_from medium_from ≡ high
    → at_most high_from value ≡ true
bucket_by-high at_most value high_from medium_from h = elim (Bool-cases (at_most high_from value)) [
  | inl e ↦ e
  | inr e ↦ elim (Bool-cases (at_most medium_from value)) [
    | inl f ↦ cc (rw f at (rw e at h))
    | inr f ↦ cc (rw f at (rw e at h))
  ]
]

foldl-min-le : (sizes : List ℕ) (least : ℕ) → foldl min least sizes ≤ least
foldl-min-le [] least = omega arith
foldl-min-le (n ∷ sizes) least = omega (arith, foldl-min-le sizes (min least n))

foldl-min-All : (sizes : List ℕ) (least : ℕ) → All (λ n. foldl min least sizes ≤ n) sizes
foldl-min-All [] least = tt
foldl-min-All (n ∷ sizes) least =
    (omega (arith, foldl-min-le sizes (min least n)), foldl-min-All sizes (min least n))

module _ (p : Platform) (d : Rounding p.F) (metrics : List (MetricRecord p.F))
    (segments : List (SegmentRecord p.F)) where
  least_of-All : (sizes : List ℕ) → All (λ n. least_of p d sizes ≤ n) sizes
  least_of-All [] = tt
  least_of-All (n ∷ sizes) = (foldl-min-le sizes n, foldl-min-All sizes n)

  size_of-In :
      (links : List (EvidenceLink p.F)) (link : EvidenceLink p.F) (n : ℕ)
      → In link links
      → size_of p d metrics segments link ≡ some n
      → In n (sizes_of p d metrics segments links)
  unfolding sizes_of
  size_of-In [] link n i h = cc
  size_of-In (l ∷ links) link n (inl e) h =
      rw (sym (ap (size_of p d metrics segments) e) ∙ h, sizes_of) (inl refl)
  size_of-In (l ∷ links) link n (inr i) h = elim (Option-cases (size_of p d metrics segments l)) [
    | inl e ↦ rw (e, sizes_of) (size_of-In links link n i h)
    | inr (k, e) ↦ rw (e, sizes_of) (inr (size_of-In links link n i h))
  ]

  -- No sample that a link's row has is below the smallest.
  smallest_sample-le :
      (v : ValidatedInsight p.F) (link : EvidenceLink p.F) (n : ℕ)
      → In link v.evidence_links
      → size_of p d metrics segments link ≡ some n
      → smallest_sample p d v metrics segments ≤ n
  unfolding smallest_sample
  smallest_sample-le v link n i h =
      In-of-All (λ k. least_of p d (sizes_of p d metrics segments v.evidence_links) ≤ k)
        (sizes_of p d metrics segments v.evidence_links) n
        (least_of-All (sizes_of p d metrics segments v.evidence_links))
        (size_of-In v.evidence_links link n i h)

  -- What holds of an insight that is rated HIGH.
  pub record IsStrong (v : ValidatedInsight p.F) (facts : List (ValidationFact p.F)) (n : ℕ)
      : Type 0 where
    pub sampled : 100 ≤ n
    pub strong : p.le (p.lit 30) (effect_of p d v.evidence_links) ≡ true
    pub consistent :
        All
          (λ l. l ≡ high)
          (level_list p d
            (compute_evidence_strength p d v metrics segments facts).segment_consistency)
    pub stable :
        All
          (λ l. l ≡ high)
          (level_list p d (compute_evidence_strength p d v metrics segments facts).run_stability)

  front : (P : Level → Type 0) (xs ys : List Level) → All P (xs ++ ys) → All P xs
  front P [] ys all = tt
  front P (x ∷ xs) ys (h, all) = (h, front P xs ys all)

  back : (P : Level → Type 0) (xs ys : List Level) → All P (xs ++ ys) → All P ys
  back P [] ys all = all
  back P (x ∷ xs) ys (h, all) = back P xs ys all

  -- An insight is rated HIGH only where every row that it cites has a sample of at least a hundred, its
  -- strongest cited value is at least 0.3, and the agreement of segments and the stability of runs, as far
  -- as they were measured, are HIGH too.
  pub compute_evidence_strength-IsStrong :
      (v : ValidatedInsight p.F) (facts : List (ValidationFact p.F)) (link : EvidenceLink p.F)
      (n : ℕ)
      → (compute_evidence_strength p d v metrics segments facts).overall ≡ high
      → In link v.evidence_links
      → size_of p d metrics segments link ≡ some n
      → IsStrong v facts n
  unfolding compute_evidence_strength
  compute_evidence_strength-IsStrong v facts link n rated i h =
      let strength = compute_evidence_strength p d v metrics segments facts in
      let smallest = smallest_sample p d v metrics segments in
      let biggest = effect_of p d v.evidence_links in
      let levels : List Level =
        bucket_by leb smallest 100 30
        ∷ bucket p d biggest (p.lit 30) (p.lit 10)
        ∷ (level_list p d strength.segment_consistency ++ level_list p d strength.run_stability) in
      let all : All (λ l. l ≡ high) levels = overall_of-All p d levels rated in
      let large = bucket_by-high leb (smallest_sample p d v metrics segments) 100 30 all.0 in
      let least = smallest_sample-le v link n i h in
      let enough : 100 ≤ smallest_sample p d v metrics segments = ground (arith, large) in
      record {
        sampled = omega (arith, enough, least);
        strong = bucket_by-high p.le (effect_of p d v.evidence_links) (p.lit 30) (p.lit 10) all.1.0;
        consistent =
            front (λ l. l ≡ high) (level_list p d strength.segment_consistency)
              (level_list p d strength.run_stability) all.1.1;
        stable =
            back (λ l. l ≡ high) (level_list p d strength.segment_consistency)
              (level_list p d strength.run_stability) all.1.1;
      }
