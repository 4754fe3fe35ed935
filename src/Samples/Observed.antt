-- ===== src/Samples/Observed.antt =====
-- What two participants did on the sign-up flow, one of whom finished, on the platform of integers.
use syn_koala.Prelude.{ℕ, String, ℤ, pos, none, some, List, [], ◌∷◌}
use syn_koala.Analytics.Metrics.{ObservationRow, ParticipantRunData}
use syn_koala.Samples.Fixed.{fixed}

abbrev observed : String → ℕ → ObservationRow
observed type sequence_no = record {
  type = type;
  screen_id = some 1;
  element_id = some 11;
  duration_ms = some (pos 250);
  sequence_no = pos sequence_no;
}

unfoldable pub finished : ParticipantRunData fixed.F
unfolding fixed
finished = record {
  id = 60;
  status = "COMPLETED";
  task_time_ms = some (pos 900);
  traits = some (("patience", pos 80) ∷ []);
  observations = observed "SCREEN_ENTER" 1 ∷ observed "GAZE" 2 ∷ observed "CLICK" 3 ∷ [];
}

unfoldable pub gave_up : ParticipantRunData fixed.F
unfolding fixed
gave_up = record {
  id = 61;
  status = "ABANDONED";
  task_time_ms = none;
  traits = some (("patience", pos 20) ∷ []);
  observations = observed "SCREEN_ENTER" 1 ∷ observed "BACK" 2 ∷ [];
}

-- A stand-in for the mean of integers: the first of them.
unfoldable pub first_value : List ℤ → fixed.F
unfolding fixed
first_value [] = pos 0
first_value (x ∷ xs) = x
