-- ===== src/Insights.antt =====
-- app/services/insight_engine.py: what a language model concludes from a run's aggregates
-- (app/agents/providers/insight_provider.py), checked against the rows that it cites.
pub mod Engine
pub mod Report
pub mod Supported
pub mod Strength
pub mod Rows
pub mod Delta
use syn_koala.Prelude.{
  ℕ, String, Bool, true, false, not, ◌&&◌, Option, none, some, List, [], ◌∷◌, ◌++◌, if◌then◌else◌,
  ◌==◌, leb, ltb, min, str_eq, map, any, select, find_first, find_last, is_nonempty, contains,
  string_eq,
}
use mathlib.Core.List.{foldl}
use syn_koala.Platform.{Platform, py_max}

-- `round(x, digits)` and `==` of Python's floats
pub record Rounding (F : Type 0) : Type 0 where
  pub round : F → ℕ → F
  pub equals : F → F → Bool

pub data Level : Type 0 where
  low medium high : Level

abbrev pub level_eq : Level → Level → Bool
level_eq low low = true
level_eq medium medium = true
level_eq high high = true
level_eq _ _ = false

pub record MetricFact (F : Type 0) : Type 0 where
  pub level : String
  pub metric : String
  pub element : Option String
  pub screen : Option String
  pub value : F
  pub sample_size : ℕ

pub record SegmentFact (F : Type 0) : Type 0 where
  pub segment : String
  pub metric : String
  pub value : F
  pub sample_size : ℕ

pub record ValidationFact (F : Type 0) : Type 0 where
  pub metric : String
  pub comparison : String
  pub value : F
  pub sample_size : ℕ

-- `Payload` is what a pattern holds, which nothing here looks at.
pub record PatternFact (Payload : Type 0) : Type 0 where
  pub pattern_type : String
  pub payload : Payload

pub record EvidencePackage (F Payload : Type 0) : Type 0 where
  pub study_name : String
  pub task_instruction : String
  pub metrics : List (MetricFact F)
  pub segments : List (SegmentFact F)
  pub validation : List (ValidationFact F)
  pub patterns : List (PatternFact Payload)

pub record EvidenceRef (F : Type 0) : Type 0 where
  pub metric : String
  pub element : Option String
  pub screen : Option String
  pub segment : Option String
  pub value : F

pub record InsightDraft (F : Type 0) : Type 0 where
  pub title : String
  pub severity : Level
  pub summary : String
  pub evidence : List (EvidenceRef F)
  pub affected_segments : List String
  pub recommendation : String

pub record MetricRecord (F : Type 0) : Type 0 where
  pub id : ℕ
  pub level : String
  pub metric : String
  pub element : Option String
  pub screen : Option String
  pub value : F
  pub sample_size : ℕ

pub record SegmentRecord (F : Type 0) : Type 0 where
  pub id : ℕ
  pub segment : String
  pub metric : String
  pub value : F
  pub sample_size : ℕ

pub data Kind : Type 0 where
  of_metric of_segment : Kind

pub record EvidenceLink (F : Type 0) : Type 0 where
  pub kind : Kind
  pub row_id : ℕ
  pub value : F

pub record ValidatedInsight (F : Type 0) : Type 0 where
  pub draft : InsightDraft F
  pub evidence_links : List (EvidenceLink F)

pub record EvidenceStrength (F : Type 0) : Type 0 where
  pub sample_size : ℕ
  pub effect_size : F
  pub segment_consistency : Option Level
  pub run_stability : Option Level
  pub human_benchmark_agreement : Option F
  pub overall : Level

abbrev pub min_sample_size : ℕ
min_sample_size = 20
