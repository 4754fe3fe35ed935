-- ===== src/Analytics/Settled.antt =====
-- The scan of `_element_interaction_metrics` of app/services/analytics_engine.py, participant by participant.
use syn_koala.Prelude.{
  ℕ, ◌+◌, ◌≤◌, subst, arith, List, [], ◌∷◌, ◌==◌, string_eq, length, All, All-map, Bool-cases, inl,
  inr,
}
use syn_koala.Platform.{Platform}
use syn_koala.Analytics.Metrics.{ParticipantRunData}
use syn_koala.Analytics.Tracks.{HasKeysOnce, Tracks}
use syn_koala.Analytics.Elements.{
  RunScan, Scan, FirstGaze, count_up, count_first, no_run_scan, scan_observations, end_run,
  scan_runs,
}
use syn_koala.Analytics.Scans.{
  IsScanned, scan_observations-IsScanned, note_keys-Tracks, note_repeated-Tracks,
}

count_up-le :
    (m : ℕ) (counts : List (ℕ × ℕ)) (k : ℕ)
    → All (λ e. e.1 ≤ m) counts
    → All (λ e. e.1 ≤ m + 1) (count_up counts k)
count_up-le m [] k all = (omega arith, tt)
count_up-le m ((j, n) ∷ counts) k (le, all) = elim (Bool-cases (j == k)) [
  | inl e ↦ rw e (
    omega (arith, le),
    All-map (λ x. x.1 ≤ m) (λ x. x.1 ≤ m + 1) (λ x h. omega (arith, h)) counts all,
  )
  | inr e ↦ rw e (omega (arith, le), count_up-le m counts k all)
]

pub count_first-le :
    (firsts : List (ℕ × FirstGaze)) (m : ℕ) (counts : List (ℕ × ℕ))
    → All (λ e. e.1 ≤ m) counts
    → All (λ e. e.1 ≤ m + length firsts) (count_first firsts counts)
unfolding count_first
count_first-le [] m counts all =
    All-map (λ x. x.1 ≤ m) (λ x. x.1 ≤ m + 0) (λ x h. omega (arith, h)) counts all
count_first-le ((run_id, first) ∷ firsts) m counts all =
    let done = count_up counts first.element_id in
    All-map (λ x. x.1 ≤ (m + 1) + length firsts) (λ x. x.1 ≤ m + length ((run_id, first) ∷ firsts))
      (λ x h. omega (arith, h)) (count_first firsts done)
      (count_first-le firsts (m + 1) done (count_up-le m counts first.element_id all))

module _ (p : Platform) where
  -- What holds between two participants, of whom there were so many.
  pub record IsSettled (n : ℕ) (s : Scan p.F) : Type 0 where
    pub clicks : Tracks s.interacted s.exposed
    pub repeats : Tracks s.interacted_2plus s.exposed
    pub revisits : Tracks s.gazed_2plus s.gazed
    pub exposed_keys : HasKeysOnce s.exposed
    pub gazed_keys : HasKeysOnce s.gazed
    pub first : length s.first_gaze ≤ n

  start_run : (run_id n : ℕ) (s : Scan p.F) → IsSettled n s → IsScanned p run_id n (no_run_scan p) s
  start_run run_id n s h = record {
    clicks = h.clicks;
    repeats = h.repeats;
    revisits = h.revisits;
    exposed_keys = h.exposed_keys;
    gazed_keys = h.gazed_keys;
    acted = tt;
    looked = tt;
    first = inl h.first;
  }

  end_run-IsSettled :
      (run_id n : ℕ) (r : RunScan) (s : Scan p.F)
      → IsScanned p run_id n r s
      → IsSettled (n + 1) (end_run p run_id (r, s))
  unfolding end_run
  end_run-IsSettled run_id n r s h = record {
    clicks = note_keys-Tracks s.exposed run_id r.interaction_counts s.interacted h.acted h.clicks;
    repeats =
        note_repeated-Tracks s.exposed run_id r.interaction_counts s.interacted_2plus h.acted
          h.repeats;
    revisits = note_repeated-Tracks s.gazed run_id r.gaze_counts s.gazed_2plus h.looked h.revisits;
    exposed_keys = h.exposed_keys;
    gazed_keys = h.gazed_keys;
    first = elim h.first [ inl le ↦ omega (arith, le) | inr both ↦ both.0 ];
  }

  pub scan_runs-IsSettled :
      (runs : List (ParticipantRunData p.F)) (n : ℕ) (s : Scan p.F)
      → IsSettled n s
      → IsSettled (n + length runs) (scan_runs p s runs)
  unfolding scan_runs
  scan_runs-IsSettled [] n s h = subst (λ k. IsSettled k s) (omega arith) h
  scan_runs-IsSettled (r ∷ runs) n s h =
      let scanned =
        scan_observations-IsScanned p r.id n r.observations (no_run_scan p) s
          (start_run r.id n s h) in
      let after = scan_observations p r.id (no_run_scan p, s) r.observations in
      subst (λ k. IsSettled k (scan_runs p (end_run p r.id after) runs)) (omega arith)
        (scan_runs-IsSettled runs (n + 1) (end_run p r.id after)
          (end_run-IsSettled r.id n after.0 after.1 scanned))
