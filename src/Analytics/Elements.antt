-- ===== src/Analytics/Elements.antt =====
-- The scan of `_element_interaction_metrics` of app/services/analytics_engine.py.
use syn_koala.Prelude.{
  ℕ, ◌+◌, ℤ, pos, ltb_ℤ, ◌+ℤ◌, none, some, List, [], ◌∷◌, ◌++◌, if◌then◌else◌, leb, str_eq,
  string_eq, nat_eq, get, put,
}
use syn_koala.Platform.{Platform}
use syn_koala.Analytics.Metrics.{is_action, ObservationRow, ParticipantRunData, Groups, note}

-- What the scan of one participant's observations gathers for that participant alone.
pub record RunScan : Type 0 where
  pub interaction_counts : List (ℕ × ℕ)
  pub gaze_counts : List (ℕ × ℕ)
  pub first_action_seq : List (ℕ × ℤ)
  pub gaze_before : List (ℕ × List (ℤ × ℤ))

pub record FirstGaze : Type 0 where
  pub seq : ℤ
  pub element_id : ℕ

-- What it gathers over all participants; `first_gaze` is `first_gaze_seq` with `first_gaze_element`.
pub record Scan (F : Type 0) : Type 0 where
  pub exposed : Groups
  pub interacted : Groups
  pub interacted_2plus : Groups
  pub gazed : Groups
  pub gazed_2plus : Groups
  pub total_dwell : List (ℕ × F)
  pub hesitation_samples : List (ℕ × List ℤ)
  pub first_gaze : List (ℕ × FirstGaze)
  pub grand_total_dwell : F

-- `counts[key] += 1`
abbrev pub count_up : List (ℕ × ℕ) → ℕ → List (ℕ × ℕ)
count_up counts key = put counts key (elim (get counts key) [ none ↦ 1 | some n ↦ n + 1 ])

-- `lists[key].append(x)`
abbrev pub append_to : {A : Type 0} → List (ℕ × List A) → ℕ → A → List (ℕ × List A)
append_to lists key x =
    put lists key (elim (get lists key) [ none ↦ x ∷ [] | some xs ↦ xs ++ x ∷ [] ])

-- `duration_ms or 0`
abbrev pub dwell_of : ObservationRow → ℤ
dwell_of obs = elim obs.duration_ms [ none ↦ pos 0 | some d ↦ d ]

-- The earliest gaze of a participant, of which the first in the list stands.
unfoldable pub earliest : List (ℕ × FirstGaze) → ℕ → ℤ → ℕ → List (ℕ × FirstGaze)
earliest first_gaze run_id seq element_id = elim (get first_gaze run_id) [
  | none ↦ put first_gaze run_id (record { seq = seq; element_id = element_id })
  | some best ↦
      if ltb_ℤ seq best.seq
      then put first_gaze run_id (record { seq = seq; element_id = element_id })
      else first_gaze
]

unfoldable pub set_first : List (ℕ × ℤ) → ℕ → ℤ → List (ℕ × ℤ)
set_first seqs element_id seq = elim (get seqs element_id) [
  | some earlier ↦ seqs
  | none ↦ put seqs element_id seq
]

unfoldable pub dwell_before : List (ℤ × ℤ) → ℤ → ℤ
unfolding ◌+ℤ◌
dwell_before [] first_seq = pos 0
dwell_before ((seq, dwell) ∷ gazes) first_seq =
    let rest = dwell_before gazes first_seq in if ltb_ℤ seq first_seq then dwell +ℤ rest else rest

-- `for key, count in counts.items(): once[key].add(id)`, and `twice` where the count is two or more
unfoldable pub note_keys : ℕ → List (ℕ × ℕ) → Groups → Groups
unfolding note
note_keys id [] groups = groups
note_keys id ((key, count) ∷ counts) groups = note_keys id counts (note groups key id)

unfoldable pub note_repeated : ℕ → List (ℕ × ℕ) → Groups → Groups
unfolding note
note_repeated id [] groups = groups
note_repeated id ((key, count) ∷ counts) groups =
    note_repeated id counts (if leb 2 count then note groups key id else groups)

abbrev gazes_at : List (ℕ × List (ℤ × ℤ)) → ℕ → List (ℤ × ℤ)
gazes_at gaze_before element_id = elim (get gaze_before element_id) [ none ↦ [] | some gs ↦ gs ]

unfoldable pub hesitate :
    List (ℕ × List (ℤ × ℤ)) → List (ℕ × ℤ) → List (ℕ × List ℤ) → List (ℕ × List ℤ)
unfolding dwell_before
hesitate gaze_before [] samples = samples
hesitate gaze_before ((element_id, first_seq) ∷ seqs) samples =
    hesitate gaze_before seqs
      (append_to samples element_id (dwell_before (gazes_at gaze_before element_id) first_seq))

unfoldable pub count_first : List (ℕ × FirstGaze) → List (ℕ × ℕ) → List (ℕ × ℕ)
count_first [] counts = counts
count_first ((run_id, first) ∷ first_gaze) counts =
    count_first first_gaze (count_up counts first.element_id)

module _ (p : Platform) where
  open p use {F, ◌⊕◌, ◌⊘◌, of_int, lit, lt}

  abbrev pub dwell_so_far : List (ℕ × F) → ℕ → F
  dwell_so_far dwells element_id = elim (get dwells element_id) [ none ↦ lit 0 | some x ↦ x ]

  -- A gaze on an element.
  unfoldable pub scan_gaze : ℕ → ℕ → ObservationRow → RunScan × Scan F → RunScan × Scan F
  unfolding note earliest
  scan_gaze run_id element_id obs (r, s) = (
    record r {
      gaze_counts = count_up r.gaze_counts element_id;
      gaze_before = append_to r.gaze_before element_id (obs.sequence_no, dwell_of obs);
    },
    record s {
      total_dwell =
          put s.total_dwell element_id
            (dwell_so_far s.total_dwell element_id ⊕ of_int (dwell_of obs));
      grand_total_dwell = s.grand_total_dwell ⊕ of_int (dwell_of obs);
      gazed = note s.gazed element_id run_id;
      first_gaze = earliest s.first_gaze run_id obs.sequence_no element_id;
    },
  )

  unfoldable pub scan_action : ℕ → ObservationRow → RunScan × Scan F → RunScan × Scan F
  unfolding set_first
  scan_action element_id obs (r, s) = (
    record r {
      interaction_counts = count_up r.interaction_counts element_id;
      first_action_seq = set_first r.first_action_seq element_id obs.sequence_no;
    },
    s,
  )

  -- One turn of the loop over a participant's observations.
  unfoldable pub scan_observation : ℕ → RunScan × Scan F → ObservationRow → RunScan × Scan F
  unfolding scan_gaze scan_action note is_action
  scan_observation run_id (r, s) obs = elim obs.element_id [
    | none ↦ (r, s)
    | some element_id ↦
        let seen : RunScan × Scan F =
          (r, record s { exposed = note s.exposed element_id run_id }) in
        if str_eq obs.type "GAZE"
        then scan_gaze run_id element_id obs seen
        else if is_action obs.type
        then scan_action element_id obs seen
        else seen
  ]

  unfoldable pub scan_observations : ℕ → RunScan × Scan F → List ObservationRow → RunScan × Scan F
  unfolding scan_observation
  scan_observations run_id s [] = s
  scan_observations run_id s (obs ∷ rest) =
      scan_observations run_id (scan_observation run_id s obs) rest

  abbrev pub no_run_scan : RunScan
  no_run_scan = record {
    interaction_counts = [];
    gaze_counts = [];
    first_action_seq = [];
    gaze_before = [];
  }

  -- The three loops at the end of a participant.
  unfoldable pub end_run : ℕ → RunScan × Scan F → Scan F
  unfolding note_keys note_repeated hesitate
  end_run run_id (r, s) = record s {
    interacted = note_keys run_id r.interaction_counts s.interacted;
    interacted_2plus = note_repeated run_id r.interaction_counts s.interacted_2plus;
    gazed_2plus = note_repeated run_id r.gaze_counts s.gazed_2plus;
    hesitation_samples = hesitate r.gaze_before r.first_action_seq s.hesitation_samples;
  }

  unfoldable pub scan_runs : Scan F → List (ParticipantRunData F) → Scan F
  unfolding scan_observations end_run
  scan_runs s [] = s
  scan_runs s (r ∷ runs) =
      scan_runs (end_run r.id (scan_observations r.id (no_run_scan, s) r.observations)) runs

  abbrev pub empty_scan : Scan F
  empty_scan = record {
    exposed = [];
    interacted = [];
    interacted_2plus = [];
    gazed = [];
    gazed_2plus = [];
    total_dwell = [];
    hesitation_samples = [];
    first_gaze = [];
    grand_total_dwell = lit 0;
  }
