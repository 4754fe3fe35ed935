-- ===== src/Samples/Evidence.antt =====
-- Aggregates of a run, and insights that cite them, on the platform of integers.
use syn_koala.Prelude.{
  ℕ, pos, eq_ℤ, none, some, List, [], ◌∷◌, Option, if◌then◌else◌, ◌==◌, ok, Result,
}
use syn_koala.Samples.Fixed.{fixed}
use syn_koala.Database.Session.{ServiceError}
use syn_koala.Insights.{
  Rounding, MetricRecord, EvidencePackage, EvidenceRef, InsightDraft, high, of_metric,
  ValidatedInsight,
}
use syn_koala.Insights.Report.{MetricModel, RunResults, Findings}

unfoldable pub exact : Rounding fixed.F
unfolding fixed
exact = record { round = λ x digits. x; equals = eq_ℤ }

unfoldable pub completion_row : MetricModel fixed.F
unfolding fixed
completion_row = record {
  id = 1;
  level = "task";
  metric = "completion_rate";
  element_id = none;
  screen_id = none;
  value = some (pos 62);
  sample_size = some 120;
}

unfoldable pub completion : MetricRecord fixed.F
unfolding fixed
completion = record {
  id = 1;
  level = "task";
  metric = "completion_rate";
  element = none;
  screen = none;
  value = pos 62;
  sample_size = 120;
}

unfoldable pub citation : EvidenceRef fixed.F
unfolding fixed
citation = record {
  metric = "completion_rate";
  element = none;
  screen = none;
  segment = none;
  value = pos 62;
}

unfoldable pub honest : InsightDraft fixed.F
unfolding fixed citation
honest = record {
  title = "Most finish";
  severity = high;
  summary = "";
  evidence = citation ∷ [];
  affected_segments = [];
  recommendation = "";
}

-- A value that no row has.
unfoldable pub invented : InsightDraft fixed.F
unfolding fixed citation honest
invented = record honest { evidence = record citation { value = pos 99 } ∷ [] }

unfoldable pub honest_validated : ValidatedInsight fixed.F
unfolding fixed honest
honest_validated = record {
  draft = honest;
  evidence_links = record { kind = of_metric; row_id = 1; value = pos 62 } ∷ [];
}

unfoldable pub run_results : RunResults fixed.F ℕ
unfolding fixed completion_row
run_results = record {
  study_name = "Sign-up";
  task_instruction = none;
  element_key_by_id = [];
  screen_key_by_id = [];
  metrics_by_level = ("task", completion_row ∷ []) ∷ [];
  segment_results = [];
  validation_results = [];
  patterns = [];
}

unfoldable pub results_of : ℕ → Option (RunResults fixed.F ℕ)
unfolding fixed run_results
results_of id = if id == 4 then some run_results else none

unfoldable pub two_drafts :
    EvidencePackage fixed.F ℕ → Result ServiceError (List (InsightDraft fixed.F))
unfolding fixed honest invented
two_drafts shown = ok (honest ∷ invented ∷ [])

unfoldable pub no_findings : Findings fixed.F
unfolding fixed
no_findings = record { insights = []; insight_evidence = []; next_id = 30 }
