-- ===== src/Analytics/Rates.antt =====
-- `compute_metrics` of app/services/analytics_engine.py: its rates are parts of a whole.
use syn_koala.Prelude.{
  ℕ, ◌+◌, ◌≤◌, ◌≡◌, ◌⊎◌, refl, arith, String, ℤ, true, Option, none, some, List, [], ◌∷◌, ◌==◌,
  contains, string_eq, length, count_if-le_length, is_nonempty, map, All, All-append, All-map,
  Bool-cases, inl, inr,
}
use syn_koala.Platform.{Platform}
use syn_koala.Analytics.Metrics.{
  ParticipantRunData, MetricRow, Groups, members, rate_row, has_status, went_back, completion_rate,
  abandonment_rate, backtrack_rate,
}
use syn_koala.Analytics.Tracks.{Tracks, Tracks-le, IsRate, rate_row-IsRate, group_rates-IsRate}
use syn_koala.Analytics.DeadEnds.{dead_end_rates-IsRate}
use syn_koala.Analytics.Elements.{count_first, scan_runs, empty_scan}
use syn_koala.Analytics.Rows.{
  exposed_rates, first_rates, attention_shares, hesitation_times, element_interaction_metrics,
  excess_actions_and_screens, compute_metrics,
}
use syn_koala.Analytics.Settled.{count_first-le, scan_runs-IsSettled}

module _ (p : Platform) (mean : List ℤ → p.F) where
  abbrev averages : List String
  averages = "attention_share" ∷ "hesitation_time" ∷ "excess_actions" ∷ "excess_screens" ∷ []

  -- A rate, or one of the four metrics that are no rates.
  abbrev pub IsAccounted : MetricRow p.F → Type 0
  IsAccounted row = IsRate p row ⊎ (contains averages row.metric ≡ true)

  rates : (rows : List (MetricRow p.F)) → All (IsRate p) rows → All IsAccounted rows
  rates rows all = All-map (IsRate p) IsAccounted (λ row h. inl h) rows all

  exposed_rates-IsRate :
      (clicks repeats exposed : Groups)
      → All (λ e. length (members clicks e.0) ≤ length e.1) exposed
      → All (λ e. length (members repeats e.0) ≤ length e.1) exposed
      → All (IsRate p) (exposed_rates p mean clicks repeats exposed)
  unfolding exposed_rates
  exposed_rates-IsRate clicks repeats [] all all' = tt
  exposed_rates-IsRate clicks repeats ((k, ids) ∷ exposed) (le, all) (le', all') =
      let rest = exposed_rates-IsRate clicks repeats exposed all all' in
      elim (Bool-cases (length ids == 0)) [
        | inl e ↦ rw (e, exposed_rates) rest
        | inr e ↦
            let one : 1 ≤ length ids = ground (arith, e) in
            rw (e, exposed_rates)
              (
                rate_row-IsRate p "discoverability" "click_rate" _ _ (some k) none le one,
                (
                  rate_row-IsRate p "friction" "repeated_interaction_rate" _ _ (some k) none le'
                      one,
                  rest,
                ),
              )
      ]

  first_rates-IsRate :
      (n : ℕ) (counts : List (ℕ × ℕ))
      → 1 ≤ n
      → All (λ e. e.1 ≤ n) counts
      → All (IsRate p) (first_rates p mean n counts)
  first_rates-IsRate n [] one all = tt
  first_rates-IsRate n ((k, count) ∷ counts) one (le, all) = (
    rate_row-IsRate p "discoverability" "first_attention_rate" count n (some k) none le one,
    first_rates-IsRate n counts one all,
  )

  shared :
      (n : ℕ) (total : p.F) (dwells : List (ℕ × p.F))
      → All IsAccounted (attention_shares p mean n total dwells)
  unfolding attention_shares
  shared n total dwells = elim (Bool-cases (p.lt (p.lit 0) total)) [
    | inl e ↦ rw e (rows dwells)
    | inr e ↦ rw e tt
  ]
    where
      rows :
          (ds : List (ℕ × p.F))
          → All IsAccounted (
              map
                (λ e. record {
                  level = "discoverability";
                  metric = "attention_share";
                  value = p.◌⊘◌ e.1 total;
                  sample_size = n;
                  element_id = some e.0;
                  screen_id = none;
                })
                ds)
      rows [] = tt
      rows (d ∷ ds) = (inr refl, rows ds)

  hesitated : (samples : List (ℕ × List ℤ)) → All IsAccounted (hesitation_times p mean samples)
  unfolding hesitation_times
  hesitated [] = tt
  hesitated ((k, values) ∷ samples) = elim (Bool-cases (is_nonempty values)) [
    | inl e ↦ rw (e, hesitation_times) (inr refl, hesitated samples)
    | inr e ↦ rw (e, hesitation_times) (hesitated samples)
  ]

  exceeded :
      (runs : List (ParticipantRunData p.F)) (baseline : Option (ℕ × ℕ))
      → All IsAccounted (excess_actions_and_screens p mean runs baseline)
  unfolding excess_actions_and_screens
  exceeded runs none = tt
  exceeded runs (some (actions, screens)) = (inr refl, (inr refl, tt))

  elements-IsAccounted :
      (runs : List (ParticipantRunData p.F))
      → 1 ≤ length runs
      → All IsAccounted (element_interaction_metrics p mean runs)
  unfolding element_interaction_metrics
  elements-IsAccounted runs one =
      let nothing : Tracks [] [] = record { sub = λ k x i. i; once = λ k. tt } in
      let s = scan_runs p (empty_scan p) runs in
      let h = scan_runs-IsSettled p runs 0 (empty_scan p) (record {
        clicks = nothing;
        repeats = nothing;
        revisits = nothing;
        exposed_keys = tt;
        gazed_keys = tt;
        first = omega arith;
      }) in
      let counts =
        All-map (λ e. e.1 ≤ 0 + length s.first_gaze) (λ e. e.1 ≤ length runs)
          (λ e le. omega (arith, le, h.first)) (count_first s.first_gaze [])
          (count_first-le s.first_gaze 0 [] tt) in
      All-append IsAccounted _ _
        (rates _ (
          exposed_rates-IsRate s.interacted s.interacted_2plus s.exposed
            (Tracks-le s.interacted s.exposed h.exposed_keys h.clicks)
            (Tracks-le s.interacted_2plus s.exposed h.exposed_keys h.repeats)))
        (All-append IsAccounted _ _
          (rates _ (
            group_rates-IsRate p
              (λ count n k. rate_row p "discoverability" "revisit_rate" count n (some k) none)
              s.gazed_2plus s.gazed
              (λ count n k le at_least.
                rate_row-IsRate p "discoverability" "revisit_rate" count n (some k) none le
                  at_least)
              (Tracks-le s.gazed_2plus s.gazed h.gazed_keys h.revisits)))
          (All-append IsAccounted _ _ (shared (length runs) s.grand_total_dwell s.total_dwell) (
            All-append IsAccounted _ _
              (rates _ (first_rates-IsRate (length runs) (count_first s.first_gaze []) one counts))
              (hesitated s.hesitation_samples))))

  -- Every row that `compute_metrics` returns, except for attention shares, hesitation times and the two
  -- excesses, is a rate: the count of some participants over the count of all those that it is about, of
  -- whom there is at least one, with the second as its sample size and the first no greater.
  pub compute_metrics-IsAccounted :
      (runs : List (ParticipantRunData p.F)) (baseline : Option (ℕ × ℕ))
      → All IsAccounted (compute_metrics p mean runs baseline)
  unfolding compute_metrics completion_rate abandonment_rate backtrack_rate
  compute_metrics-IsAccounted [] baseline = tt
  compute_metrics-IsAccounted (r ∷ rest) baseline =
      let runs = r ∷ rest in
      let one : 1 ≤ length runs = omega arith in
      (
        inl (
            rate_row-IsRate p "task_success" "completion_rate" _ _ none none
              (count_if-le_length (has_status p "COMPLETED") runs) one),
        (
          inl (
              rate_row-IsRate p "task_success" "abandonment_rate" _ _ none none
                (count_if-le_length (has_status p "ABANDONED") runs) one),
          (
            inl (
                rate_row-IsRate p "friction" "backtrack_rate" _ _ none none
                  (count_if-le_length (went_back p) runs) one),
            All-append IsAccounted _ _ (rates _ (dead_end_rates-IsRate p runs)) (
                All-append IsAccounted _ _ (elements-IsAccounted runs one)
                  (exceeded runs baseline)),
          ),
        ),
      )
