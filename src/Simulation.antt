-- ===== src/Simulation.antt =====
-- app/agents/graphs/simulation_graph.py: the state of one participant's run, and its events.
pub mod Sampling
pub mod Conditions
pub mod Nodes
pub mod Actions
pub mod Flow
pub mod Measure
pub mod Navigation
pub mod Progress
pub mod Chosen
pub mod Termination
pub mod Invariant
pub mod EventLog
pub mod FinishLine
pub mod NoFinishLine
pub mod Backtracks
pub mod Steps
use syn_koala.Prelude.{ℕ, ◌+◌, String, Option, none, List, [], ◌∷◌, ◌++◌, ℤ, Bool, true, false}
use syn_koala.Platform.{Platform}
use syn_koala.Graph.{ScreenView, ScreenGraph, ParticipantDraft, TaskContext}
use syn_koala.Participant.{
  ActionType, ActionEntry, AttentionDecision, ActionCandidate, ParticipantState, SimulationContext,
  ParticipantModel,
}

pub data Outcome : Type 0 where
  in_progress completed failed abandoned : Outcome

abbrev pub is_in_progress : Outcome → Bool
is_in_progress in_progress = true
is_in_progress _ = false

-- An event carries the type of the participant's action, or one of the engine's own.
pub data EventType : Type 0 where
  screen_enter screen_exit gaze abandon task_progress_event task_success task_failure : EventType
  acted : ActionType → EventType

pub data Payload (F : Type 0) : Type 0 where
  gazed : (attention_score : F) (scan_number : ℕ) → Payload F
  performed : (confidence utility : F) → Payload F
  progressed : (progress : F) → Payload F
  reason : String → Payload F
  reason_after_scans : String → (scans : ℕ) → Payload F

pub record Event (F : Type 0) : Type 0 where
  pub sequence_no : ℕ
  pub type : EventType
  pub screen_id : Option ℕ
  pub element_id : Option ℕ
  pub x : Option F
  pub y : Option F
  pub duration_ms : Option ℤ
  pub payload : Option (Payload F)

-- `_make_event` with its defaults; a caller gives the other fields by a record update.
unfoldable pub make_event : {F : Type 0} → ℕ → EventType → Event F
make_event sequence_no type = record {
  sequence_no = sequence_no;
  type = type;
  screen_id = none;
  element_id = none;
  x = none;
  y = none;
  duration_ms = none;
  payload = none;
}

pub record SimulationState (F : Type 0) : Type 0 where
  pub participant : ParticipantDraft F
  pub task : TaskContext
  pub screen_graph : ScreenGraph
  pub current_screen_id : ℕ
  pub screen_history : List ℕ
  pub task_progress : F
  pub confidence : F
  pub uncertainty : F
  pub attention_target : Option ℕ
  pub element_visit_counts : List (ℕ × ℕ)
  pub action_history : List ActionEntry
  pub dead_end_count : ℕ
  pub backtrack_count : ℕ
  pub attention : Option (AttentionDecision F)
  pub action : Option (ActionCandidate F)
  pub events : List (Event F)
  pub sequence_no : ℕ
  pub step : ℕ
  pub outcome : Outcome
  pub failure_reason : Option String
  pub scan_count : ℕ
  pub intended_element_id : Option ℕ
  pub found_intended_action : Bool

-- The generator of `SimulationDeps` changes with each draw, so it stands beside the state.
pub record SimulationDeps (F : Type 0) : Type 0 where
  pub participant_model : ParticipantModel F
  pub max_steps : ℕ
  pub max_scan_attempts : ℕ

abbrev pub max_scan_attempts_default : ℕ
max_scan_attempts_default = 10

-- What a node can raise: a missing screen, or an attribute of `None`.
pub data NodeError : Type 0 where
  key_error attribute_error : NodeError

unfoldable pub build_context : {F : Type 0} → SimulationState F → ScreenView → SimulationContext F
build_context state screen = record {
  participant = state.participant;
  task = state.task;
  screen = screen;
  state = record {
    current_screen_id = state.current_screen_id;
    task_progress = state.task_progress;
    confidence = state.confidence;
    uncertainty = state.uncertainty;
    attention_target = state.attention_target;
    element_visit_counts = state.element_visit_counts;
    action_history = state.action_history;
    dead_end_count = state.dead_end_count;
    backtrack_count = state.backtrack_count;
  };
  attention = state.attention;
}

-- `events.append(event)` and `sequence_no += 1`, for an event that takes the next number.
unfoldable pub emit : {F : Type 0} → (ℕ → Event F) → SimulationState F → SimulationState F
emit event state = record state {
  events = state.events ++ event state.sequence_no ∷ [];
  sequence_no = state.sequence_no + 1;
}
