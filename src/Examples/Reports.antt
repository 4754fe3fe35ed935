-- ===== src/Examples/Reports.antt =====
-- The insights of a run with one metric.
use syn_koala.Prelude.{◌≡◌, ◌⊎◌, refl, inl, pos, none, some, ok, err, [], ◌∷◌, length}
use syn_koala.Database.Session.{ServiceError}
use syn_koala.Insights.{of_metric}
use syn_koala.Insights.Engine.{
  validate, check_row, link_of, links_of, compute_evidence_strength, smallest_sample, sizes_of,
  size_of, effect_of, overall_of,
}
use syn_koala.Insights.Supported.{IsSupported, validate-IsSupported}
use syn_koala.Insights.Strength.{IsStrong, compute_evidence_strength-IsStrong}
use syn_koala.Insights.Report.{
  all_rows, handle_generate_insights, metric_records, segment_records, validation_facts,
  save_drafts, save_draft, add_insight, clear_insights,
}
use syn_koala.Insights.Delta.{IsReported, handle_generate_insights-IsReported}
use syn_koala.Samples.Fixed.{fixed}
use syn_koala.Samples.Evidence.{
  exact, completion, honest, invented, honest_validated, citation, completion_row, run_results,
  results_of, two_drafts, no_findings,
}

honest_accepted : validate fixed exact honest (completion ∷ []) [] 20 ≡ some honest_validated
unfolding fixed exact completion citation honest invented honest_validated validate links_of link_of
    check_row
honest_accepted = refl

invented_rejected : validate fixed exact invented (completion ∷ []) [] 20 ≡ none
unfolding fixed exact completion citation honest invented honest_validated validate links_of link_of
    check_row
invented_rejected = refl

one_of_two :
    length (handle_generate_insights fixed exact results_of two_drafts 4 no_findings).0.insights ≡ 1
unfolding fixed exact completion citation honest invented honest_validated completion_row
    run_results results_of two_drafts no_findings handle_generate_insights metric_records
    segment_records validation_facts save_drafts save_draft add_insight clear_insights validate
    links_of link_of check_row
one_of_two = refl

validate-IsSupported_example :
    (validate fixed exact honest (completion ∷ []) [] 20 ≡ some honest_validated
      → IsSupported fixed exact (completion ∷ []) [] 20 honest honest_validated)
    × (IsSupported fixed exact (completion ∷ []) [] 20 honest honest_validated
        → validate fixed exact honest (completion ∷ []) [] 20 ≡ some honest_validated)
validate-IsSupported_example =
    validate-IsSupported fixed exact (completion ∷ []) [] 20 honest honest_validated

compute_evidence_strength-IsStrong_example :
    IsStrong fixed exact (completion ∷ []) [] honest_validated [] 120
unfolding fixed exact completion citation honest invented honest_validated compute_evidence_strength
    smallest_sample sizes_of size_of effect_of overall_of
compute_evidence_strength-IsStrong_example =
    compute_evidence_strength-IsStrong fixed exact (completion ∷ []) [] honest_validated []
      (record { kind = of_metric; row_id = 1; value = pos 62 }) 120 refl (inl refl) refl

handle_generate_insights-IsReported_example :
    ((e : ServiceError) × ((handle_generate_insights fixed exact results_of two_drafts 4
          no_findings).1
        ≡ err e)
      × ((handle_generate_insights fixed exact results_of two_drafts 4 no_findings).0
          ≡ no_findings))
    ⊎ (((handle_generate_insights fixed exact results_of two_drafts 4 no_findings).1 ≡ ok tt)
        × IsReported 4
            (all_rows run_results.metrics_by_level)
            run_results.segment_results
            no_findings
            (handle_generate_insights fixed exact results_of two_drafts 4 no_findings).0)
unfolding fixed results_of no_findings
handle_generate_insights-IsReported_example =
    handle_generate_insights-IsReported fixed exact results_of two_drafts 4 run_results no_findings
      refl
