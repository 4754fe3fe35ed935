-- ===== src/Insights/Engine.antt =====
-- `InsightEngine` of app/services/insight_engine.py.
use syn_koala.Prelude.{
  ℕ, String, Bool, true, false, not, ◌&&◌, Option, none, some, List, [], ◌∷◌, ◌++◌, if◌then◌else◌,
  ◌==◌, leb, ltb, min, str_eq, map, any, find_first, find_last, is_nonempty, contains, string_eq,
}
use mathlib.Core.List.{foldl}
use syn_koala.Platform.{Platform, py_max}
use syn_koala.Insights.{
  Rounding, Level, low, medium, high, level_eq, MetricFact, SegmentFact, ValidationFact,
  PatternFact, EvidencePackage, EvidenceRef, InsightDraft, MetricRecord, SegmentRecord, Kind,
  of_metric, of_segment, EvidenceLink, ValidatedInsight, EvidenceStrength,
}

abbrev metric_fact : {F : Type 0} → MetricRecord F → MetricFact F
metric_fact m = record {
  level = m.level;
  metric = m.metric;
  element = m.element;
  screen = m.screen;
  value = m.value;
  sample_size = m.sample_size;
}

abbrev segment_fact : {F : Type 0} → SegmentRecord F → SegmentFact F
segment_fact s = record {
  segment = s.segment;
  metric = s.metric;
  value = s.value;
  sample_size = s.sample_size;
}

unfoldable pub build_evidence_package :
    {F Payload : Type 0}
    → String
    → String
    → List (MetricRecord F)
    → List (SegmentRecord F)
    → List (ValidationFact F)
    → List (PatternFact Payload)
    → EvidencePackage F Payload
build_evidence_package study_name task_instruction metrics segments validation patterns = record {
  study_name = study_name;
  task_instruction = task_instruction;
  metrics = map metric_fact metrics;
  segments = map segment_fact segments;
  validation = validation;
  patterns = patterns;
}

abbrev pub option_eq : Option String → Option String → Bool
option_eq none none = true
option_eq (some s) (some t) = str_eq s t
option_eq _ _ = false

-- The test of `metric_index[(metric, element, screen)]` and of `segment_index[(segment, metric)]`
abbrev pub has_metric_key : {F : Type 0} → EvidenceRef F → MetricRecord F → Bool
has_metric_key ref m =
    str_eq m.metric ref.metric && (option_eq m.element ref.element && option_eq m.screen ref.screen)

abbrev pub has_segment_key : {F : Type 0} → String → EvidenceRef F → SegmentRecord F → Bool
has_segment_key name ref s = str_eq s.segment name && str_eq s.metric ref.metric

-- `>=` against two thresholds, for a sample size and for a float
abbrev pub bucket_by :
    {A : Type 0} → (at_most : A → A → Bool) → (value high_from medium_from : A) → Level
bucket_by at_most value high_from medium_from =
    if at_most high_from value then high else if at_most medium_from value then medium else low

module _ (p : Platform) (d : Rounding p.F) where
  open p use {F, lit, abs, le}

  -- The checks on a row that a citation was found to mean, and the link to it.
  unfoldable pub check_row : ℕ → EvidenceRef F → Kind → ℕ → F → ℕ → Option (EvidenceLink F)
  check_row least ref kind row_id value sample_size =
      if not (d.equals (d.round value 6) (d.round ref.value 6))
      then none
      else if ltb sample_size least
      then none
      else some (record { kind = kind; row_id = row_id; value = value })

  -- One turn of the loop over the citations.
  unfoldable pub link_of :
      List (MetricRecord F) → List (SegmentRecord F) → ℕ → EvidenceRef F → Option (EvidenceLink F)
  unfolding check_row
  link_of metrics segments least ref = elim ref.segment [
    | some name ↦ elim (find_last (has_segment_key name ref) segments) [
      | none ↦ none
      | some s ↦ check_row least ref of_segment s.id s.value s.sample_size
    ]
    | none ↦ elim (find_last (has_metric_key ref) metrics) [
      | none ↦ none
      | some m ↦ check_row least ref of_metric m.id m.value m.sample_size
    ]
  ]

  unfoldable pub links_of :
      List (MetricRecord F)
      → List (SegmentRecord F)
      → ℕ
      → List (EvidenceRef F)
      → Option (List (EvidenceLink F))
  unfolding link_of
  links_of metrics segments least [] = some []
  links_of metrics segments least (ref ∷ refs) = elim (link_of metrics segments least ref) [
    | none ↦ none
    | some link ↦ elim (links_of metrics segments least refs) [
      | none ↦ none
      | some links ↦ some (link ∷ links)
    ]
  ]

  abbrev pub is_known : List (SegmentRecord F) → String → Bool
  is_known segments name = any (λ s. str_eq s.segment name) segments

  unfoldable pub validate :
      InsightDraft F
      → List (MetricRecord F)
      → List (SegmentRecord F)
      → ℕ
      → Option (ValidatedInsight F)
  unfolding links_of
  validate draft metrics segments least =
      if not (is_nonempty draft.evidence)
      then none
      else if any (λ name. not (is_known segments name)) draft.affected_segments
      then none
      else elim (links_of metrics segments least draft.evidence) [
        | none ↦ none
        | some links ↦ some (record { draft = draft; evidence_links = links })
      ]

  -- `record.sample_size` of the row that a link means, in dictionaries by id
  unfoldable pub size_of :
      List (MetricRecord F) → List (SegmentRecord F) → EvidenceLink F → Option ℕ
  size_of metrics segments link = elim link.kind [
    | of_metric ↦ elim (find_last (λ m. m.id == link.row_id) metrics) [
      | none ↦ none
      | some m ↦ some m.sample_size
    ]
    | of_segment ↦ elim (find_last (λ s. s.id == link.row_id) segments) [
      | none ↦ none
      | some s ↦ some s.sample_size
    ]
  ]

  unfoldable pub sizes_of :
      List (MetricRecord F) → List (SegmentRecord F) → List (EvidenceLink F) → List ℕ
  unfolding size_of
  sizes_of metrics segments [] = []
  sizes_of metrics segments (link ∷ links) =
      let rest = sizes_of metrics segments links in
      elim (size_of metrics segments link) [ none ↦ rest | some size ↦ size ∷ rest ]

  -- `min(sizes) if sizes else 0`
  abbrev pub least_of : List ℕ → ℕ
  least_of [] = 0
  least_of (size ∷ sizes) = foldl min size sizes

  -- `_min_sample_size`
  unfoldable pub smallest_sample :
      ValidatedInsight F → List (MetricRecord F) → List (SegmentRecord F) → ℕ
  unfolding sizes_of
  smallest_sample validated metrics segments =
      least_of (sizes_of metrics segments validated.evidence_links)

  unfoldable pub effect_of : List (EvidenceLink F) → F
  unfolding py_max
  effect_of [] = lit 0
  effect_of (link ∷ links) = foldl (λ best l. py_max p best (abs l.value)) (abs link.value) links

  abbrev pub bucket : F → F → F → Level
  bucket value high_from medium_from = bucket_by le value high_from medium_from

  abbrev pub bucket_inverse : F → F → F → Level
  bucket_inverse value low_to medium_to =
      if le value medium_to then high else if le value low_to then medium else low

  -- The first of the facts that a comparison made of a metric.
  abbrev pub fact_of : String → (String → Bool) → List (ValidationFact F) → Option F
  fact_of comparison is_metric facts =
      elim (find_first (λ v. is_metric v.metric && str_eq v.comparison comparison) facts) [
        | none ↦ none
        | some v ↦ some v.value
      ]

  abbrev pub map_level : (F → Level) → Option F → Option Level
  map_level f none = none
  map_level f (some x) = some (f x)

  abbrev pub level_list : Option Level → List Level
  level_list none = []
  level_list (some l) = l ∷ []

  unfoldable pub overall_of : List Level → Level
  overall_of levels =
      if any (level_eq low) levels
      then low
      else if any (λ l. not (level_eq l high)) levels
      then medium
      else high

  unfoldable pub compute_evidence_strength :
      ValidatedInsight F
      → List (MetricRecord F)
      → List (SegmentRecord F)
      → List (ValidationFact F)
      → EvidenceStrength F
  unfolding smallest_sample effect_of overall_of
  compute_evidence_strength validated metrics segments validation =
      let size = smallest_sample validated metrics segments in
      let effect = effect_of validated.evidence_links in
      let cited = map (λ ref. ref.metric) validated.draft.evidence in
      let consistency =
        map_level (λ v. bucket v (lit 70) (lit 40))
          (fact_of "human_benchmark" (λ m. str_eq m "segment_directional_agreement") validation) in
      let stability =
        map_level (λ v. bucket_inverse v (lit 35) (lit 15))
          (fact_of "stability" (λ m. str_eq m "run_stability_cv") validation) in
      record {
        sample_size = size;
        effect_size = d.round effect 4;
        segment_consistency = consistency;
        run_stability = stability;
        human_benchmark_agreement = fact_of "human_benchmark" (λ m. contains cited m) validation;
        overall = overall_of (
            bucket_by leb size 100 30
            ∷ bucket effect (lit 30) (lit 10)
            ∷ (level_list consistency ++ level_list stability));
      }
