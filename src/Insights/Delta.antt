-- ===== src/Insights/Delta.antt =====
-- What app/workers/jobs/generate_insights.py changes: only rows of the aggregates stand behind an insight.
use mathlib.Core.List.{append_assoc, append-nil}
use syn_koala.Prelude.{
  ℕ, Bool, not, any, select, ◌&&◌, ◌==◌, ◌≡◌, ◌⊎◌, refl, sym, ap, subst, ◌∙◌, String, true, Option,
  none, some, List, [], ◌∷◌, ◌++◌, map, is_nonempty, find_last-In, All, All-append, All-map,
  map-All, In, In-append_left, In-append_right, Result-cases, inl, inr, Result, ok, err,
}
use syn_koala.Platform.{Platform}
use syn_koala.Database.Session.{ServiceError}
use syn_koala.Insights.{
  Rounding, EvidencePackage, EvidenceRef, InsightDraft, MetricRecord, SegmentRecord, ValidationFact,
  EvidenceLink, ValidatedInsight, min_sample_size,
}
use syn_koala.Insights.Engine.{
  has_metric_key, has_segment_key, validate, compute_evidence_strength, build_evidence_package,
}
use syn_koala.Insights.Supported.{CitesIn, CitesAll, IsSupported, validate-IsSupported}
use syn_koala.Insights.Rows.{IsReal, metric_records-In, segment_records-In}
use syn_koala.Insights.Report.{
  MetricModel, SegmentResultModel, RunResults, Insight, InsightEvidence, Findings, all_rows,
  metric_records, segment_records, validation_facts, evidence_row, clear_insights, instruction_of,
  insight_row, add_insight, save_draft, save_drafts, handle_generate_insights,
}

module _ {F : Type 0} where
  -- Evidence that stands behind no insight of the run.
  abbrev pub of_other : ℕ → Findings F → InsightEvidence F → Bool
  of_other run_id db e =
      not (any (λ i. (i.id == e.insight_id) && (i.simulation_run_id == run_id)) db.insights)

  -- The tables after the job: what belongs to other runs, and after it the insights that were added, each
  -- with evidence, and that evidence.
  pub record IsReported (run_id : ℕ) (metrics : List (MetricModel F))
      (segments : List (SegmentResultModel F)) (db after : Findings F) : Type 0 where
    pub added : List (Insight F)
    pub evidence : List (InsightEvidence F)
    pub insights :
        after.insights ≡ select (λ i. not (i.simulation_run_id == run_id)) db.insights ++ added
    pub kept_evidence :
        after.insight_evidence ≡ select (of_other run_id db) db.insight_evidence ++ evidence
    pub of_run : All (λ i. i.simulation_run_id ≡ run_id) added
    pub real : All (IsReal metrics segments) evidence
    pub evident : All (λ i. (e : InsightEvidence F) × In e evidence × (e.insight_id ≡ i.id)) added

  map-IsReal :
      (metrics : List (MetricModel F)) (segments : List (SegmentResultModel F)) (id : ℕ)
      (links : List (EvidenceLink F))
      → All (λ link. IsReal metrics segments (evidence_row id link)) links
      → All (IsReal metrics segments) (map (evidence_row id) links)
  map-IsReal metrics segments id links all =
      map-All (λ link. IsReal metrics segments (evidence_row id link)) (IsReal metrics segments)
        (evidence_row id) (λ link h. h) links all

module _ (p : Platform) (d : Rounding p.F) (element_keys screen_keys : List (ℕ × String))
    (metric_rows : List (MetricModel p.F)) (segment_rows : List (SegmentResultModel p.F)) where
  records : List (MetricRecord p.F)
  records = metric_records element_keys screen_keys metric_rows

  segments : List (SegmentRecord p.F)
  segments = segment_records segment_rows

  -- A link to a record is a link to the row that it was made of.
  CitesIn-IsReal :
      (name : Option String) (ref : EvidenceRef p.F) (link : EvidenceLink p.F) (id : ℕ)
      → CitesIn p d records segments min_sample_size name ref link
      → IsReal metric_rows segment_rows (evidence_row id link)
  unfolding records segments evidence_row
  CitesIn-IsReal none ref link id (r, found, (same, enough), linked) =
      let (m, i, named, valued, sized) =
        metric_records-In element_keys screen_keys metric_rows r
          (find_last-In (has_metric_key ref) records r found).0 in
      subst (λ l. IsReal metric_rows segment_rows (evidence_row id l)) linked
        (inl (m, r.sample_size, i, ap some (sym named), valued, sized, enough))
  CitesIn-IsReal (some name) ref link id (r, found, (same, enough), linked) =
      let (s, i, named, valued, sized) =
        segment_records-In segment_rows r
          (find_last-In (has_segment_key name ref) segments r found).0 in
      subst (λ l. IsReal metric_rows segment_rows (evidence_row id l)) linked
        (inr (s, r.sample_size, i, ap some (sym named), valued, sized, enough))

  CitesAll-IsReal :
      (refs : List (EvidenceRef p.F)) (links : List (EvidenceLink p.F)) (id : ℕ)
      → CitesAll p d records segments min_sample_size refs links
      → All (λ link. IsReal metric_rows segment_rows (evidence_row id link)) links
  CitesAll-IsReal [] [] id h = tt
  CitesAll-IsReal [] (link ∷ links) id h = cc
  CitesAll-IsReal (ref ∷ refs) [] id h = cc
  CitesAll-IsReal (ref ∷ refs) (link ∷ links) id (here, there) =
      (CitesIn-IsReal ref.segment ref link id here, CitesAll-IsReal refs links id there)

  CitesAll-nonempty :
      (refs : List (EvidenceRef p.F)) (links : List (EvidenceLink p.F))
      → is_nonempty refs ≡ true
      → CitesAll p d records segments min_sample_size refs links
      → (link : EvidenceLink p.F) × In link links
  CitesAll-nonempty [] links given h = cc
  CitesAll-nonempty (ref ∷ refs) [] given h = cc
  CitesAll-nonempty (ref ∷ refs) (link ∷ links) given h = (link, inl refl)

  map-In :
      (id : ℕ) (link : EvidenceLink p.F) (links : List (EvidenceLink p.F))
      → In link links
      → In (evidence_row id link) (map (evidence_row id) links)
  map-In id link [] i = cc
  map-In id link (l ∷ links) (inl e) = inl (ap (evidence_row id) e)
  map-In id link (l ∷ links) (inr i) = inr (map-In id link links i)

  module _ (run_id : ℕ) (facts : List (ValidationFact p.F)) (db : Findings p.F) where
    add_insight-IsReported :
        (draft : InsightDraft p.F) (v : ValidatedInsight p.F) (after : Findings p.F)
        → IsSupported p d records segments min_sample_size draft v
        → IsReported run_id metric_rows segment_rows db after
        → IsReported run_id metric_rows segment_rows db (
            add_insight p d run_id v (compute_evidence_strength p d v records segments facts) after)
    unfolding add_insight insight_row evidence_row
    add_insight-IsReported draft v after supported r =
        let strength = compute_evidence_strength p d v records segments facts in
        let row = insight_row p d after.next_id run_id v strength in
        let rows = map (evidence_row after.next_id) v.evidence_links in
        let (link, i) =
          CitesAll-nonempty draft.evidence v.evidence_links supported.evident supported.cited in
        record {
          added = r.added ++ row ∷ [];
          evidence = r.evidence ++ rows;
          insights =
              ap (λ xs. xs ++ row ∷ []) r.insights
              ∙ append_assoc (select (λ i. not (i.simulation_run_id == run_id)) db.insights) r.added
                  (row ∷ []);
          kept_evidence =
              ap (λ xs. xs ++ rows) r.kept_evidence
              ∙ append_assoc (select (of_other run_id db) db.insight_evidence) r.evidence rows;
          of_run =
              All-append (λ x. x.simulation_run_id ≡ run_id) r.added (row ∷ []) r.of_run (refl, tt);
          real = All-append (IsReal metric_rows segment_rows) r.evidence rows r.real (
              map-IsReal metric_rows segment_rows after.next_id v.evidence_links
                (CitesAll-IsReal draft.evidence v.evidence_links after.next_id supported.cited));
          evident =
              All-append
                (λ x. (e : InsightEvidence p.F) × In e (r.evidence ++ rows) × (e.insight_id ≡ x.id))
                r.added (row ∷ [])
                (All-map (λ x. (e : InsightEvidence p.F) × In e r.evidence × (e.insight_id ≡ x.id))
                  (λ x.
                    (e : InsightEvidence p.F) × In e (r.evidence ++ rows) × (e.insight_id ≡ x.id))
                  (λ x h. (h.0, In-append_left h.0 r.evidence rows h.1, h.2)) r.added r.evident)
                (
                  (
                    evidence_row after.next_id link,
                    In-append_right (evidence_row after.next_id link) r.evidence rows
                        (map-In after.next_id link v.evidence_links i),
                    refl,
                  ),
                  tt,
                );
        }

    save_drafts-IsReported :
        (drafts : List (InsightDraft p.F)) (after : Findings p.F)
        → IsReported run_id metric_rows segment_rows db after
        → IsReported run_id metric_rows segment_rows db
            (save_drafts p d run_id records segments facts drafts after)
    unfolding save_drafts save_draft
    save_drafts-IsReported [] after r = r
    save_drafts-IsReported (draft ∷ drafts) after r =
        save_drafts-IsReported drafts _
          (saved (validate p d draft records segments min_sample_size) refl)
      where
        saved :
            (o : Option (ValidatedInsight p.F))
            → validate p d draft records segments min_sample_size ≡ o
            → IsReported run_id metric_rows segment_rows db (elim o [
              | none ↦ after
              | some v ↦
                  add_insight p d run_id v
                    (compute_evidence_strength p d v records segments facts)
                    after
            ])
        saved none e = r
        saved (some v) e =
            add_insight-IsReported draft v after
              ((validate-IsSupported p d records segments min_sample_size draft v).0 e) r

module _ {Payload : Type 0} (p : Platform) (d : Rounding p.F)
    (results : ℕ → Option (RunResults p.F Payload))
    (synthesize : EvidencePackage p.F Payload → Result ServiceError (List (InsightDraft p.F))) where
  -- The job, for a run that there is, either fails and leaves the tables as they were, or returns, and then
  -- the insights are those of other runs, as they were and in their order, and after them insights of this
  -- run, each with evidence, so that none that the run had before is left; and the evidence is what stood
  -- behind no insight of the run, as it was, and after it rows on the run's own metrics and segments, with
  -- their value and a sample of at least twenty, whatever the model wrote.
  pub handle_generate_insights-IsReported :
      (run_id : ℕ) (run : RunResults p.F Payload) (db : Findings p.F)
      → results run_id ≡ some run
      → let after = handle_generate_insights p d results synthesize run_id db in
        ((e : ServiceError) × (after.1 ≡ err e) × (after.0 ≡ db))
        ⊎ ((after.1 ≡ ok tt)
            × IsReported run_id (all_rows run.metrics_by_level) run.segment_results db after.0)
  unfolding handle_generate_insights records segments clear_insights
  handle_generate_insights-IsReported run_id run db found =
      elim (Result-cases (
        synthesize (
          build_evidence_package run.study_name (instruction_of run.task_instruction)
            (metric_records run.element_key_by_id run.screen_key_by_id
              (all_rows run.metrics_by_level))
            (segment_records run.segment_results) (validation_facts run.validation_results)
            run.patterns))) [
              | inr (e, failed) ↦ inl (
                e,
                rw (found, handle_generate_insights) (rw (failed, handle_generate_insights) refl),
                rw (found, handle_generate_insights) (rw (failed, handle_generate_insights) refl),
              )
              | inl (drafts, returned) ↦ inr (
                rw (found, handle_generate_insights) (rw (returned, handle_generate_insights) refl),
                rw (found, handle_generate_insights)
                    (rw (returned, handle_generate_insights)
                      (save_drafts-IsReported p d run.element_key_by_id run.screen_key_by_id
                        (all_rows run.metrics_by_level) run.segment_results run_id
                        (validation_facts run.validation_results) db drafts
                        (clear_insights run_id db)
                        (record {
                          added = [];
                          evidence = [];
                          insights = sym (
                              append-nil
                                (select (λ i. not (i.simulation_run_id == run_id)) db.insights));
                          kept_evidence =
                              sym (append-nil (select (of_other run_id db) db.insight_evidence));
                          of_run = tt;
                          real = tt;
                          evident = tt;
                        }))),
              )
            ]
