-- ===== src/Examples/Rates.antt =====
-- The metrics of two participants, and the job that stores a run's.
use syn_koala.Prelude.{◌≡◌, ◌⊎◌, refl, some, [], ◌∷◌, All, ok, err}
use syn_koala.Database.{run_completed}
use syn_koala.Database.Session.{not_found, integrity_error}
use syn_koala.Analytics.Aggregate.{handle_aggregate_run}
use syn_koala.Analytics.Replaced.{
  TaskGone, Cited, IsAggregated, handle_aggregate_run-IsAggregated, handle_aggregate_run_again,
}
use syn_koala.Samples.Records.{catalog, run_with}
use syn_koala.Samples.Aggregated.{aggregates, milliseconds, first_float}
use syn_koala.Analytics.Rows.{compute_metrics}
use syn_koala.Analytics.Rates.{IsAccounted, compute_metrics-IsAccounted}
use syn_koala.Samples.Fixed.{fixed}
use syn_koala.Samples.Observed.{finished, gave_up, first_value}

compute_metrics-IsAccounted_example :
    All
      (IsAccounted fixed first_value)
      (compute_metrics fixed first_value (finished ∷ gave_up ∷ []) (some (2, 1)))
compute_metrics-IsAccounted_example =
    compute_metrics-IsAccounted fixed first_value (finished ∷ gave_up ∷ []) (some (2, 1))

handle_aggregate_run-IsAggregated_example :
    let after =
      handle_aggregate_run fixed milliseconds first_value first_float catalog 10 aggregates in
    ((after.1 ≡ err not_found)
      × TaskGone fixed milliseconds first_value first_float catalog (run_with run_completed).task_id
      × (after.0 ≡ aggregates))
    ⊎ ((after.1 ≡ err integrity_error)
        × Cited fixed milliseconds first_value first_float catalog 10 aggregates
        × (after.0 ≡ aggregates))
    ⊎ ((after.1 ≡ ok tt)
        × ¬ Cited fixed milliseconds first_value first_float catalog 10 aggregates
        × IsAggregated fixed milliseconds first_value first_float catalog 10
            (run_with run_completed)
            aggregates
            after.0)
unfolding aggregates
handle_aggregate_run-IsAggregated_example =
    handle_aggregate_run-IsAggregated fixed milliseconds first_value first_float catalog 10
      (run_with run_completed) aggregates refl

handle_aggregate_run_again_example :
    let once =
      (handle_aggregate_run fixed milliseconds first_value first_float catalog 10 aggregates).0 in
    let twice =
      (handle_aggregate_run fixed milliseconds first_value first_float catalog 10 once).0 in
    (twice.metrics ≡ once.metrics) × (twice.segment_results ≡ once.segment_results)
unfolding aggregates
handle_aggregate_run_again_example =
    handle_aggregate_run_again fixed milliseconds first_value first_float catalog 10
      (run_with run_completed) aggregates refl
