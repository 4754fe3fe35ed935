-- ===== src/Analytics/Rows.antt =====
-- The rows that `_element_interaction_metrics`, `_excess_actions_and_screens` and `compute_metrics` of
-- app/services/analytics_engine.py make. `mean` of Python's integers is a parameter.
use syn_koala.Prelude.{
  ℕ, String, ℤ, pos, ◌-ℤ◌, Bool, Option, none, some, List, [], ◌∷◌, ◌++◌, if◌then◌else◌, ◌==◌,
  str_eq, map, count_if, length, is_nonempty, string_eq, nat_eq,
}
use syn_koala.Platform.{Platform}
use syn_koala.Analytics.Metrics.{
  is_action, ObservationRow, ParticipantRunData, MetricRow, Groups, members, rate_row, group_rates,
  completion_rate, abandonment_rate, backtrack_rate, dead_end_rates,
}
use syn_koala.Analytics.Elements.{count_first, scan_runs, empty_scan}

module _ (p : Platform) (mean : List ℤ → p.F) where
  open p use {F, ◌⊘◌, lit, lt}

  -- Two rows for each element that was exposed.
  unfoldable pub exposed_rates : Groups → Groups → Groups → List (MetricRow F)
  unfolding rate_row
  exposed_rates interacted interacted_2plus [] = []
  exposed_rates interacted interacted_2plus ((element_id, ids) ∷ exposed) =
      let rest = exposed_rates interacted interacted_2plus exposed in
      if length ids == 0
      then rest
      else rate_row p "discoverability" "click_rate" (length (members interacted element_id))
          (length ids) (some element_id) none
        ∷ rate_row p "friction" "repeated_interaction_rate"
            (length (members interacted_2plus element_id)) (length ids) (some element_id) none
        ∷ rest

  abbrev pub first_rates : ℕ → List (ℕ × ℕ) → List (MetricRow F)
  first_rates n [] = []
  first_rates n ((element_id, count) ∷ counts) =
      rate_row p "discoverability" "first_attention_rate" count n (some element_id) none
      ∷ first_rates n counts

  unfoldable pub attention_shares : ℕ → F → List (ℕ × F) → List (MetricRow F)
  attention_shares n total dwells =
      if lt (lit 0) total
      then map
          (λ e. record {
            level = "discoverability";
            metric = "attention_share";
            value = e.1 ⊘ total;
            sample_size = n;
            element_id = some e.0;
            screen_id = none;
          })
          dwells
      else []

  unfoldable pub hesitation_times : List (ℕ × List ℤ) → List (MetricRow F)
  hesitation_times [] = []
  hesitation_times ((element_id, samples) ∷ rest) =
      let others = hesitation_times rest in
      if is_nonempty samples
      then record {
        level = "friction";
        metric = "hesitation_time";
        value = mean samples;
        sample_size = length samples;
        element_id = some element_id;
        screen_id = none;
      }
        ∷ others
      else others

  unfoldable pub element_interaction_metrics : List (ParticipantRunData F) → List (MetricRow F)
  unfolding scan_runs exposed_rates group_rates rate_row count_first attention_shares
      hesitation_times
  element_interaction_metrics runs =
      let s = scan_runs p (empty_scan p) runs in
      exposed_rates s.interacted s.interacted_2plus s.exposed
      ++ (group_rates p
            (λ count n element_id.
              rate_row p "discoverability" "revisit_rate" count n (some element_id) none)
            s.gazed_2plus s.gazed
          ++ (attention_shares (length runs) s.grand_total_dwell s.total_dwell
              ++ (first_rates (length runs) (count_first s.first_gaze [])
                  ++ hesitation_times s.hesitation_samples)))

  -- `sum(...) - baseline` for each participant
  abbrev pub excess : (ObservationRow → Bool) → ℕ → List (ParticipantRunData F) → List ℤ
  excess counted baseline runs =
      map (λ r. pos (count_if counted r.observations) -ℤ pos baseline) runs

  abbrev pub mean_row : String → List ℤ → MetricRow F
  mean_row metric values = record {
    level = "friction";
    metric = metric;
    value = mean values;
    sample_size = length values;
    element_id = none;
    screen_id = none;
  }

  unfoldable pub excess_actions_and_screens :
      List (ParticipantRunData F) → Option (ℕ × ℕ) → List (MetricRow F)
  unfolding is_action ◌-ℤ◌
  excess_actions_and_screens runs none = []
  excess_actions_and_screens runs (some (baseline_actions, baseline_screens)) =
      mean_row "excess_actions" (excess (λ o. is_action o.type) baseline_actions runs)
      ∷ mean_row "excess_screens" (excess (λ o. str_eq o.type "SCREEN_ENTER") baseline_screens runs)
      ∷ []

  unfoldable pub compute_metrics : List (ParticipantRunData F) → Option (ℕ × ℕ) → List (MetricRow F)
  unfolding completion_rate abandonment_rate backtrack_rate dead_end_rates
      element_interaction_metrics excess_actions_and_screens
  compute_metrics [] baseline = []
  compute_metrics (r ∷ rest) baseline =
      let runs = r ∷ rest in
      completion_rate p runs
      ∷ abandonment_rate p runs
      ∷ backtrack_rate p runs
      ∷ (dead_end_rates p runs
          ++ (element_interaction_metrics runs ++ excess_actions_and_screens runs baseline))
