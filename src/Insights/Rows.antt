-- ===== src/Insights/Rows.antt =====
-- The records of app/workers/jobs/generate_insights.py stand on rows of the aggregates.
use syn_koala.Prelude.{
  ℕ, ◌≤◌, ◌≡◌, ◌⊎◌, refl, sym, ap, ◌∙◌, String, some, List, [], ◌∷◌, In, Option-cases, inl, inr,
}
use syn_koala.Insights.{MetricRecord, SegmentRecord, min_sample_size}
use syn_koala.Insights.Report.{
  MetricModel, SegmentResultModel, InsightEvidence, metric_records, segment_records,
}

module _ {F : Type 0} where
  -- A row of the run's metrics or segments, with a sample of at least twenty, that has the value.
  abbrev pub IsReal :
      List (MetricModel F) → List (SegmentResultModel F) → InsightEvidence F → Type 0
  IsReal metrics segments e =
      ((m : MetricModel F) × (n : ℕ) × In m metrics
        × (e.metric_id ≡ some m.id)
        × (m.value ≡ some e.value)
        × (m.sample_size ≡ some n)
        × (min_sample_size ≤ n))
      ⊎ ((s : SegmentResultModel F) × (n : ℕ) × In s segments
          × (e.segment_result_id ≡ some s.id)
          × (s.value ≡ some e.value)
          × (s.sample_size ≡ some n)
          × (min_sample_size ≤ n))

  pub metric_records-In :
      (element_keys screen_keys : List (ℕ × String)) (rows : List (MetricModel F))
      (r : MetricRecord F)
      → In r (metric_records element_keys screen_keys rows)
      → (m : MetricModel F) × In m rows
        × (m.id ≡ r.id)
        × (m.value ≡ some r.value)
        × (m.sample_size ≡ some r.sample_size)
  unfolding metric_records
  metric_records-In ek sk [] r i = cc
  metric_records-In ek sk (m ∷ rows) r i = elim (Option-cases m.value) [
    | inl e ↦
        let (x, j, a, b, c) = metric_records-In ek sk rows r (rw (e, metric_records) at i) in
        (x, inr j, a, b, c)
    | inr (value, e) ↦ elim (Option-cases m.sample_size) [
      | inl f ↦
          let (x, j, a, b, c) =
            metric_records-In ek sk rows r
              (rw (f, metric_records) at (rw (e, metric_records) at i)) in
          (x, inr j, a, b, c)
      | inr (size, f) ↦ elim (rw (f, metric_records) at (rw (e, metric_records) at i)) [
        | inl same ↦ (
          m,
          inl refl,
          sym (ap (λ x. x.id) same),
          e ∙ ap some (sym (ap (λ x. x.value) same)),
          f ∙ ap some (sym (ap (λ x. x.sample_size) same)),
        )
        | inr j ↦ let (x, k, a, b, c) = metric_records-In ek sk rows r j in (x, inr k, a, b, c)
      ]
    ]
  ]

  pub segment_records-In :
      (rows : List (SegmentResultModel F)) (r : SegmentRecord F)
      → In r (segment_records rows)
      → (s : SegmentResultModel F) × In s rows
        × (s.id ≡ r.id)
        × (s.value ≡ some r.value)
        × (s.sample_size ≡ some r.sample_size)
  unfolding segment_records
  segment_records-In [] r i = cc
  segment_records-In (s ∷ rows) r i = elim (Option-cases s.value) [
    | inl e ↦
        let (x, j, a, b, c) = segment_records-In rows r (rw (e, segment_records) at i) in
        (x, inr j, a, b, c)
    | inr (value, e) ↦ elim (Option-cases s.sample_size) [
      | inl f ↦
          let (x, j, a, b, c) =
            segment_records-In rows r (rw (f, segment_records) at (rw (e, segment_records) at i)) in
          (x, inr j, a, b, c)
      | inr (size, f) ↦ elim (rw (f, segment_records) at (rw (e, segment_records) at i)) [
        | inl same ↦ (
          s,
          inl refl,
          sym (ap (λ x. x.id) same),
          e ∙ ap some (sym (ap (λ x. x.value) same)),
          f ∙ ap some (sym (ap (λ x. x.sample_size) same)),
        )
        | inr j ↦ let (x, k, a, b, c) = segment_records-In rows r j in (x, inr k, a, b, c)
      ]
    ]
  ]
