-- ===== src/Insights/Report.antt =====
-- app/workers/jobs/generate_insights.py: the job that stores the insights of a run.
use syn_koala.Prelude.{
  ℕ, ◌+◌, String, not, ◌&&◌, Option, none, some, List, [], ◌∷◌, ◌++◌, ◌==◌, map, any, select, get,
  Result,
}
use syn_koala.Platform.{Platform}
use syn_koala.Database.Session.{Tx, ServiceError, ◌>>=◌, ◌>>◌, found_or, write, not_found}
use syn_koala.Stimuli.Service.{lift}
use syn_koala.Insights.{
  Rounding, Level, ValidationFact, PatternFact, EvidencePackage, InsightDraft, MetricRecord,
  SegmentRecord, Kind, of_metric, of_segment, EvidenceLink, ValidatedInsight, EvidenceStrength,
  min_sample_size,
}
use syn_koala.Insights.Engine.{build_evidence_package, validate, compute_evidence_strength}

-- A row of `metrics`, as `get_metrics` returns it, and rows of the other aggregates; a value may be null.
pub record MetricModel (F : Type 0) : Type 0 where
  pub id : ℕ
  pub level : String
  pub metric : String
  pub element_id : Option ℕ
  pub screen_id : Option ℕ
  pub value : Option F
  pub sample_size : Option ℕ

pub record SegmentResultModel (F : Type 0) : Type 0 where
  pub id : ℕ
  pub segment : String
  pub metric : String
  pub value : Option F
  pub sample_size : Option ℕ

pub record ValidationResultModel (F : Type 0) : Type 0 where
  pub metric : String
  pub comparison : String
  pub value : Option F
  pub sample_size : Option ℕ

-- What the job reads of a run: `get_metrics` level by level, the other results, the names of its study and
-- task, and the keys of the study's elements and screens.
pub record RunResults (F Payload : Type 0) : Type 0 where
  pub study_name : String
  pub task_instruction : Option String
  pub element_key_by_id : List (ℕ × String)
  pub screen_key_by_id : List (ℕ × String)
  pub metrics_by_level : List (String × List (MetricModel F))
  pub segment_results : List (SegmentResultModel F)
  pub validation_results : List (ValidationResultModel F)
  pub patterns : List (PatternFact Payload)

pub record Insight (F : Type 0) : Type 0 where
  pub id : ℕ
  pub simulation_run_id : ℕ
  pub title : String
  pub severity : Level
  pub summary : String
  pub affected_segments : List String
  pub recommendation : String
  pub evidence_strength : EvidenceStrength F

pub record InsightEvidence (F : Type 0) : Type 0 where
  pub insight_id : ℕ
  pub metric_id : Option ℕ
  pub segment_result_id : Option ℕ
  pub value : F

pub record Findings (F : Type 0) : Type 0 where
  pub insights : List (Insight F)
  pub insight_evidence : List (InsightEvidence F)
  pub next_id : ℕ

-- `keys.get(id) if id else None`
abbrev pub key_at : List (ℕ × String) → Option ℕ → Option String
key_at keys none = none
key_at keys (some id) = get keys id

abbrev pub metric_id_of : Kind → ℕ → Option ℕ
metric_id_of of_metric id = some id
metric_id_of of_segment id = none

abbrev pub segment_id_of : Kind → ℕ → Option ℕ
segment_id_of of_metric id = none
segment_id_of of_segment id = some id

abbrev pub instruction_of : Option String → String
instruction_of none = "(no task on record for this run)"
instruction_of (some instruction) = instruction

module _ {F : Type 0} where
  unfoldable pub metric_records :
      List (ℕ × String) → List (ℕ × String) → List (MetricModel F) → List (MetricRecord F)
  metric_records element_keys screen_keys [] = []
  metric_records element_keys screen_keys (m ∷ ms) =
      let rest = metric_records element_keys screen_keys ms in
      elim m.value [
        | none ↦ rest
        | some value ↦ elim m.sample_size [
          | none ↦ rest
          | some sample_size ↦
              record {
                id = m.id;
                level = m.level;
                metric = m.metric;
                element = key_at element_keys m.element_id;
                screen = key_at screen_keys m.screen_id;
                value = value;
                sample_size = sample_size;
              }
              ∷ rest
        ]
      ]

  abbrev pub all_rows : List (String × List (MetricModel F)) → List (MetricModel F)
  all_rows [] = []
  all_rows ((level, rows) ∷ levels) = rows ++ all_rows levels

  unfoldable pub segment_records : List (SegmentResultModel F) → List (SegmentRecord F)
  segment_records [] = []
  segment_records (s ∷ ss) =
      let rest = segment_records ss in
      elim s.value [
        | none ↦ rest
        | some value ↦ elim s.sample_size [
          | none ↦ rest
          | some sample_size ↦
              record {
                id = s.id;
                segment = s.segment;
                metric = s.metric;
                value = value;
                sample_size = sample_size;
              }
              ∷ rest
        ]
      ]

  unfoldable pub validation_facts : List (ValidationResultModel F) → List (ValidationFact F)
  validation_facts [] = []
  validation_facts (v ∷ vs) =
      let rest = validation_facts vs in
      elim v.value [
        | none ↦ rest
        | some value ↦ elim v.sample_size [
          | none ↦ rest
          | some sample_size ↦
              record {
                metric = v.metric;
                comparison = v.comparison;
                value = value;
                sample_size = sample_size;
              }
              ∷ rest
        ]
      ]

  unfoldable pub evidence_row : ℕ → EvidenceLink F → InsightEvidence F
  evidence_row insight_id link = record {
    insight_id = insight_id;
    metric_id = metric_id_of link.kind link.row_id;
    segment_result_id = segment_id_of link.kind link.row_id;
    value = link.value;
  }

  -- The evidence of the run's insights goes first, then the insights.
  unfoldable pub clear_insights : ℕ → Findings F → Findings F
  clear_insights run_id db = record db {
    insight_evidence =
        select
          (λ e.
            not (any (λ i. (i.id == e.insight_id) && (i.simulation_run_id == run_id)) db.insights))
          db.insight_evidence;
    insights = select (λ i. not (i.simulation_run_id == run_id)) db.insights;
  }

module _ (p : Platform) (d : Rounding p.F) where
  unfoldable pub insight_row : ℕ → ℕ → ValidatedInsight p.F → EvidenceStrength p.F → Insight p.F
  insight_row id run_id validated strength = record {
    id = id;
    simulation_run_id = run_id;
    title = validated.draft.title;
    severity = validated.draft.severity;
    summary = validated.draft.summary;
    affected_segments = validated.draft.affected_segments;
    recommendation = validated.draft.recommendation;
    evidence_strength = strength;
  }

  -- An insight that was validated, and its evidence.
  unfoldable pub add_insight :
      ℕ → ValidatedInsight p.F → EvidenceStrength p.F → Findings p.F → Findings p.F
  unfolding insight_row evidence_row
  add_insight run_id validated strength db = record db {
    insights = db.insights ++ insight_row db.next_id run_id validated strength ∷ [];
    insight_evidence =
        db.insight_evidence ++ map (evidence_row db.next_id) validated.evidence_links;
    next_id = db.next_id + 1;
  }

  module _ (run_id : ℕ) (metrics : List (MetricRecord p.F)) (segments : List (SegmentRecord p.F))
      (facts : List (ValidationFact p.F)) where
    unfoldable pub save_draft : InsightDraft p.F → Findings p.F → Findings p.F
    unfolding validate compute_evidence_strength add_insight
    save_draft draft db = elim (validate p d draft metrics segments min_sample_size) [
      | none ↦ db
      | some validated ↦
          add_insight run_id validated
            (compute_evidence_strength p d validated metrics segments facts) db
    ]

    unfoldable pub save_drafts : List (InsightDraft p.F) → Findings p.F → Findings p.F
    unfolding save_draft
    save_drafts [] db = db
    save_drafts (draft ∷ drafts) db = save_drafts drafts (save_draft draft db)

  -- The results of a run, and what the provider concludes from the evidence, are parameters.
  module _ {Payload : Type 0} (results : ℕ → Option (RunResults p.F Payload))
      (synthesize : EvidencePackage p.F Payload
        → Result ServiceError (List (InsightDraft p.F))) where
    unfoldable pub handle_generate_insights : ℕ → Tx (Findings p.F) (Unit {0})
    unfolding metric_records segment_records validation_facts build_evidence_package clear_insights
        save_drafts
    handle_generate_insights run_id = do
      run ← found_or not_found (results run_id)
      let metrics =
          metric_records run.element_key_by_id run.screen_key_by_id (all_rows run.metrics_by_level)
      let segments = segment_records run.segment_results
      let facts = validation_facts run.validation_results
      drafts ← lift (
          synthesize (
            build_evidence_package run.study_name (instruction_of run.task_instruction) metrics
              segments facts run.patterns))
      write (clear_insights run_id)
      write (save_drafts run_id metrics segments facts drafts)
