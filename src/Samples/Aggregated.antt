-- ===== src/Samples/Aggregated.antt =====
-- The sample run with a metric row of an earlier attempt and one of another run.
use syn_koala.Prelude.{ℕ, ℤ, pos, none, [], ◌∷◌, List}
use syn_koala.Database.{run_completed, participant_completed, participant_abandoned}
use syn_koala.Analytics.Metrics.{MetricRow}
use syn_koala.Analytics.Aggregate.{Aggregates}
use syn_koala.Samples.Fixed.{fixed}
use syn_koala.Samples.Records.{database}

abbrev stale : MetricRow ℤ
stale = record {
  level = "task_success";
  metric = "completion_rate";
  value = pos 100;
  sample_size = 1;
  element_id = none;
  screen_id = none;
}

unfoldable pub aggregates : Aggregates fixed.F
unfolding fixed
aggregates = record {
  db = database run_completed participant_completed participant_abandoned;
  metrics = (10, stale) ∷ (99, stale) ∷ [];
  segment_results = [];
  insight_evidence = 99 ∷ [];
}

unfoldable pub milliseconds : ℕ → ℕ → fixed.F
unfolding fixed
milliseconds started completed = pos completed

unfoldable pub first_float : List fixed.F → fixed.F
unfolding fixed
first_float [] = pos 0
first_float (x ∷ xs) = x
