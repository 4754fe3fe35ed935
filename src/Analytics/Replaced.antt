-- ===== src/Analytics/Replaced.antt =====
-- What app/workers/jobs/aggregate_run.py leaves in its two tables, at the first attempt and at a retry.
use mathlib.Core.List.{append-nil}
use syn_koala.Prelude.{
  ℕ, ◌≡◌, ◌≢◌, ◌⊎◌, refl, sym, ap, subst, ◌∙◌, arith, ℤ, Bool, true, false, not, Option, none, some,
  List, [], ◌∷◌, ◌++◌, ◌==◌, ==_iff, map, select, find_first, All, All-map, map-All, select-append,
  select-none, select-all, select-passes, any, In, Bool-cases, Option-cases, inl, inr, ok, err,
}
use syn_koala.Platform.{Platform}
use syn_koala.Database.{Database, SimulationRun, uuid}
use syn_koala.Database.Session.{not_found, integrity_error}
use syn_koala.Studies.{TaskModel, Catalog}
use syn_koala.Runs.{get_by_id}
use syn_koala.Jobs.{enqueue}
use syn_koala.Analytics.Metrics.{MetricRow}
use syn_koala.Analytics.Rows.{compute_metrics}
use syn_koala.Analytics.Rates.{IsAccounted, compute_metrics-IsAccounted}
use syn_koala.Analytics.Segments.{SegmentRow, compute_segments}
use syn_koala.Analytics.Aggregate.{
  Aggregates, find_task, run_data, task_measures, is_cited, replace_rows, handle_aggregate_run,
}

module _ {A : Type 0} (run_id : ℕ) where
  abbrev is_of : ℕ × A → Bool
  is_of e = e.0 == run_id

  owned : List A → List (ℕ × A)
  owned rows = map (λ row. (run_id, row)) rows

  owned-All : (rows : List A) → All (λ e. is_of e ≡ true) (owned rows)
  unfolding owned
  owned-All [] = tt
  owned-All (row ∷ rows) = ((==_iff run_id run_id).1 refl, owned-All rows)

  -- The rows of other runs, before and after a replacement.
  others_stay :
      (table : List (ℕ × A)) (rows : List A)
      → select (λ e. not (is_of e)) (select (λ e. not (is_of e)) table ++ owned rows)
        ≡ select (λ e. not (is_of e)) table
  others_stay table rows =
      select-append (λ e. not (is_of e)) (select (λ e. not (is_of e)) table) (owned rows)
      ∙ rw
          (select-all (λ e. not (is_of e)) (select (λ e. not (is_of e)) table)
            (select-passes (λ e. not (is_of e)) table))
          (rw
            (select-none (λ e. not (is_of e)) (owned rows)
              (All-map (λ e. is_of e ≡ true) (λ e. not (is_of e) ≡ false) (λ e h. rw h refl)
                (owned rows) (owned-All rows)))
            (append-nil (select (λ e. not (is_of e)) table)))

  own_rows :
      (table : List (ℕ × A)) (rows : List A)
      → select is_of (select (λ e. not (is_of e)) table ++ owned rows) ≡ owned rows
  own_rows table rows =
      select-append is_of (select (λ e. not (is_of e)) table) (owned rows)
      ∙ rw
          (select-none is_of (select (λ e. not (is_of e)) table) (
            All-map (λ e. not (is_of e) ≡ true) (λ e. is_of e ≡ false) (λ e h. ground (arith, h))
              (select (λ e. not (is_of e)) table) (select-passes (λ e. not (is_of e)) table)))
          (select-all is_of (owned rows) (owned-All rows))

module _ (run_id : ℕ) where
  cited_In : (cited : List ℕ) → any (λ c. c == run_id) cited ≡ true → In run_id cited
  cited_In [] h = cc
  cited_In (c ∷ cited) h = elim (Bool-cases (c == run_id)) [
    | inl e ↦ inl (sym ((==_iff c run_id).0 e))
    | inr e ↦ inr (cited_In cited (rw e at h))
  ]

  In-cited : (cited : List ℕ) → In run_id cited → any (λ c. c == run_id) cited ≢ false
  In-cited [] i h = cc
  In-cited (c ∷ cited) (inl e) h =
      let same : (c == run_id) ≡ true = (==_iff c run_id).1 (sym e) in cc (rw same at h)
  In-cited (c ∷ cited) (inr i) h = elim (Bool-cases (c == run_id)) [
    | inl e ↦ cc (rw e at h)
    | inr e ↦ In-cited cited i (rw e at h)
  ]

module _ (p : Platform) (elapsed_ms : ℕ → ℕ → p.F) (mean_int : List ℤ → p.F)
    (mean_float : List p.F → p.F) (catalog : Catalog p.F) where
  metric_rows :
      (run_id : ℕ) → SimulationRun → Option TaskModel → Database p.F → List (MetricRow p.F)
  metric_rows run_id run task db =
      compute_metrics p mean_int (run_data p elapsed_ms mean_int mean_float catalog run_id db)
        (task_measures p elapsed_ms mean_int mean_float catalog run.study_id task).1

  segment_rows_of :
      (run_id : ℕ) → SimulationRun → Option TaskModel → Database p.F → List (SegmentRow p.F)
  segment_rows_of run_id run task db =
      compute_segments p mean_float (run_data p elapsed_ms mean_int mean_float catalog run_id db)
        (task_measures p elapsed_ms mean_int mean_float catalog run.study_id task).0

  -- The state that the job leaves, where the run and its task are there.
  aggregated : ℕ → SimulationRun → Option TaskModel → Aggregates p.F → Aggregates p.F
  aggregated run_id run task s =
      record (replace_rows p elapsed_ms mean_int mean_float catalog run_id
        (metric_rows run_id run task s.db) (segment_rows_of run_id run task s.db) s) {
          db = enqueue "validate_run" (("simulation_run_id", uuid run_id) ∷ []) s.db;
        }

  handle_aggregate_run_steps :
      (run_id : ℕ) (run : SimulationRun) (task : Option TaskModel) (s : Aggregates p.F)
      → find_first (λ r. r.id == run_id) s.db.runs ≡ some run
      → find_task p elapsed_ms mean_int mean_float catalog run.task_id s ≡ (s, ok task)
      → is_cited p elapsed_ms mean_int mean_float catalog run_id s ≡ false
      → handle_aggregate_run p elapsed_ms mean_int mean_float catalog run_id s
        ≡ (aggregated run_id run task s, ok tt)
  unfolding handle_aggregate_run get_by_id aggregated metric_rows segment_rows_of replace_rows
  handle_aggregate_run_steps run_id run task s found has_task free =
      rw (found, handle_aggregate_run)
        (rw (has_task, handle_aggregate_run) (rw (free, handle_aggregate_run) refl))

  -- To replace rows that evidence refers to raises.
  handle_aggregate_run_cited :
      (run_id : ℕ) (run : SimulationRun) (task : Option TaskModel) (s : Aggregates p.F)
      → find_first (λ r. r.id == run_id) s.db.runs ≡ some run
      → find_task p elapsed_ms mean_int mean_float catalog run.task_id s ≡ (s, ok task)
      → is_cited p elapsed_ms mean_int mean_float catalog run_id s ≡ true
      → handle_aggregate_run p elapsed_ms mean_int mean_float catalog run_id s
        ≡ (s, err integrity_error)
  unfolding handle_aggregate_run get_by_id
  handle_aggregate_run_cited run_id run task s found has_task cited =
      rw (found, handle_aggregate_run)
        (rw (has_task, handle_aggregate_run) (rw (cited, handle_aggregate_run) refl))

  -- The run names a task that is not there.
  abbrev pub TaskGone : Option ℕ → Type 0
  TaskGone o = (id : ℕ) × (o ≡ some id) × (catalog.get_task id ≡ none)

  -- The task that the run names, if it names one.
  abbrev pub TaskOf : Option ℕ → Option TaskModel → Type 0
  TaskOf o none = o ≡ none
  TaskOf o (some task) = (id : ℕ) × (o ≡ some id) × (catalog.get_task id ≡ some task)

  find_task-cases :
      (o : Option ℕ)
      → ((task : Option TaskModel) × TaskOf o task
          × ((s : Aggregates p.F)
              → find_task p elapsed_ms mean_int mean_float catalog o s ≡ (s, ok task)))
        ⊎ (TaskGone o
            × ((s : Aggregates p.F)
                → find_task p elapsed_ms mean_int mean_float catalog o s ≡ (s, err not_found)))
  find_task-cases none = inl (none, refl, λ s. refl)
  find_task-cases (some id) = elim (Option-cases (catalog.get_task id)) [
    | inl e ↦ inr ((id, refl, e), λ s. rw (e, find_task) refl)
    | inr (task, e) ↦ inl (some task, (id, refl, e), λ s. rw (e, find_task) refl)
  ]

  handle_aggregate_run_fails :
      (run_id : ℕ) (run : SimulationRun) (s : Aggregates p.F)
      → find_first (λ r. r.id == run_id) s.db.runs ≡ some run
      → find_task p elapsed_ms mean_int mean_float catalog run.task_id s ≡ (s, err not_found)
      → handle_aggregate_run p elapsed_ms mean_int mean_float catalog run_id s ≡ (s, err not_found)
  unfolding handle_aggregate_run get_by_id
  handle_aggregate_run_fails run_id run s found missing =
      rw (found, handle_aggregate_run) (rw (missing, handle_aggregate_run) refl)

  -- Evidence refers to a row of the run.
  abbrev pub Cited : ℕ → Aggregates p.F → Type 0
  Cited run_id s = In run_id s.insight_evidence

  -- What the job does to the tables and to the queue.
  pub record IsAggregated (run_id : ℕ) (run : SimulationRun) (before after : Aggregates p.F)
      : Type 0 where
    pub metrics_kept :
        select (λ e. not (e.0 == run_id)) after.metrics
        ≡ select (λ e. not (e.0 == run_id)) before.metrics
    pub segments_kept :
        select (λ e. not (e.0 == run_id)) after.segment_results
        ≡ select (λ e. not (e.0 == run_id)) before.segment_results
    pub task : Option TaskModel
    pub of_run : TaskOf run.task_id task
    pub metrics :
        select (λ e. e.0 == run_id) after.metrics
        ≡ map
            (λ row. (run_id, row))
            (compute_metrics p mean_int
              (run_data p elapsed_ms mean_int mean_float catalog run_id before.db)
              (task_measures p elapsed_ms mean_int mean_float catalog run.study_id task).1)
    pub segments :
        select (λ e. e.0 == run_id) after.segment_results
        ≡ map
            (λ row. (run_id, row))
            (compute_segments p mean_float
              (run_data p elapsed_ms mean_int mean_float catalog run_id before.db)
              (task_measures p elapsed_ms mean_int mean_float catalog run.study_id task).0)
    pub evidence : after.insight_evidence ≡ before.insight_evidence
    pub rates : All (λ e. IsAccounted p mean_int e.1) (select (λ e. e.0 == run_id) after.metrics)
    pub queued :
        after.db ≡ enqueue "validate_run" (("simulation_run_id", uuid run_id) ∷ []) before.db

  -- For a run that there is, the job changes nothing and raises, as the run's task is gone, or as evidence
  -- of an insight refers to a row of the run; or it returns, with no evidence on the run's rows. Then the
  -- rows of other runs stay as they were, the run's metrics and segment results are the rows that are
  -- computed from what its participants did and its task, and no others, every metric that is meant as a
  -- rate is one, with at least one participant, and one validate_run job is queued.
  pub handle_aggregate_run-IsAggregated :
      (run_id : ℕ) (run : SimulationRun) (s : Aggregates p.F)
      → find_first (λ r. r.id == run_id) s.db.runs ≡ some run
      → let after = handle_aggregate_run p elapsed_ms mean_int mean_float catalog run_id s in
        ((after.1 ≡ err not_found) × TaskGone run.task_id × (after.0 ≡ s))
        ⊎ ((after.1 ≡ err integrity_error) × Cited run_id s × (after.0 ≡ s))
        ⊎ ((after.1 ≡ ok tt) × ¬ Cited run_id s × IsAggregated run_id run s after.0)
  unfolding aggregated replace_rows owned metric_rows segment_rows_of is_cited
  handle_aggregate_run-IsAggregated run_id run s found = elim (find_task-cases run.task_id) [
    | inr (gone, missing) ↦
        let failed = handle_aggregate_run_fails run_id run s found (missing s) in
        inl (ap (λ r. r.1) failed, gone, ap (λ r. r.0) failed)
    | inl (task, of_run, has_task) ↦ elim (Bool-cases (any (λ c. c == run_id) s.insight_evidence)) [
      | inl cited ↦
          let failed = handle_aggregate_run_cited run_id run task s found (has_task s) cited in
          inr (
            inl (
              ap (λ r. r.1) failed,
              cited_In run_id s.insight_evidence cited,
              ap (λ r. r.0) failed,
            ))
      | inr free ↦
          let done = handle_aggregate_run_steps run_id run task s found (has_task s) free in
          let rows = metric_rows run_id run task s.db in
          inr (
            inr (
              ap (λ r. r.1) done,
              (λ i. In-cited run_id s.insight_evidence i free),
              subst (λ r. IsAggregated run_id run s r.0) (sym done)
                  (record {
                    metrics_kept = others_stay run_id s.metrics rows;
                    segments_kept =
                        others_stay run_id s.segment_results (segment_rows_of run_id run task s.db);
                    task = task;
                    of_run = of_run;
                    metrics = own_rows run_id s.metrics rows;
                    segments =
                        own_rows run_id s.segment_results (segment_rows_of run_id run task s.db);
                    evidence = refl;
                    rates =
                        subst (λ es. All (λ e. IsAccounted p mean_int e.1) es)
                          (sym (own_rows run_id s.metrics rows))
                          (map-All (IsAccounted p mean_int) (λ e. IsAccounted p mean_int e.1)
                            (λ row. (run_id, row)) (λ row h. h) rows
                            (compute_metrics-IsAccounted p mean_int
                              (run_data p elapsed_ms mean_int mean_float catalog run_id s.db)
                              (task_measures p elapsed_ms mean_int mean_float catalog run.study_id
                                task).1));
                    queued = refl;
                  }),
            ))
    ]
  ]

  -- For a run that there is, and whether the job returns or raises, a retry of it leaves both tables with the
  -- rows that the first attempt left, their keys aside.
  pub handle_aggregate_run_again :
      (run_id : ℕ) (run : SimulationRun) (s : Aggregates p.F)
      → find_first (λ r. r.id == run_id) s.db.runs ≡ some run
      → let once = (handle_aggregate_run p elapsed_ms mean_int mean_float catalog run_id s).0 in
        let twice = (handle_aggregate_run p elapsed_ms mean_int mean_float catalog run_id once).0 in
        (twice.metrics ≡ once.metrics) × (twice.segment_results ≡ once.segment_results)
  unfolding aggregated replace_rows owned metric_rows segment_rows_of run_data enqueue is_cited
  handle_aggregate_run_again run_id run s found = elim (find_task-cases run.task_id) [
    | inr (gone, missing) ↦
        let failed = handle_aggregate_run_fails run_id run s found (missing s) in
        rw failed (rw failed (refl, refl))
    | inl (task, _, has_task) ↦
        elim (Bool-cases (is_cited p elapsed_ms mean_int mean_float catalog run_id s)) [
          | inl cited ↦
              let failed = handle_aggregate_run_cited run_id run task s found (has_task s) cited in
              rw failed (rw failed (refl, refl))
          | inr free ↦
              let done = handle_aggregate_run_steps run_id run task s found (has_task s) free in
              let after = aggregated run_id run task s in
              let again =
                handle_aggregate_run_steps run_id run task after found (has_task after) free in
              rw done (
                rw again (
                  ap (λ kept. kept ++ owned run_id (metric_rows run_id run task s.db))
                      (others_stay run_id s.metrics (metric_rows run_id run task s.db)),
                  ap (λ kept. kept ++ owned run_id (segment_rows_of run_id run task s.db))
                      (others_stay run_id s.segment_results (segment_rows_of run_id run task s.db)),
                ))
        ]
  ]
