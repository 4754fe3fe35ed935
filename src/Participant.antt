-- ===== src/Participant.antt =====
-- app/agents/providers/participant_model.py: candidates, decisions, the context that a model sees
-- and the `ParticipantModel` protocol. Its implementations stand in the modules below.
pub mod Scores
pub mod Heuristic
pub mod Baselines
pub mod Choices
use syn_koala.Prelude.{
  ℕ, String, Bool, true, false, Option, none, some, List, [], ◌∷◌, ◌==◌, ◌≢◌, str_eq, ◌||◌,
  if◌then◌else◌,
}
use syn_koala.Graph.{ElementView, ScreenView, ParticipantDraft, TaskContext}

-- The literal `ActionType`.
pub data ActionType : Type 0 where
  click scroll back open_action select_option type_text : ActionType

pub record AttentionCandidate (F : Type 0) : Type 0 where
  pub element_id : ℕ
  pub visual_saliency : F
  pub task_relevance : F
  pub persona_relevance : F
  pub state_relevance : F
  pub attention_score : F

pub record AttentionDecision (F : Type 0) : Type 0 where
  pub candidates : List (AttentionCandidate F)

-- A target is the `str` of an element's UUID, which `uuid.UUID` reads back: the model keeps the UUID.
pub record ActionCandidate (F : Type 0) : Type 0 where
  pub action : ActionType
  pub target : Option ℕ
  pub utility : F
  pub confidence : F

pub record ActionDecision (F : Type 0) : Type 0 where
  pub candidates : List (ActionCandidate F)

-- An entry of `action_history`.
pub record ActionEntry : Type 0 where
  pub action : ActionType
  pub target : Option ℕ
  pub step : ℕ

pub record ParticipantState (F : Type 0) : Type 0 where
  pub current_screen_id : ℕ
  pub task_progress : F
  pub confidence : F
  pub uncertainty : F
  pub attention_target : Option ℕ
  pub element_visit_counts : List (ℕ × ℕ)
  pub action_history : List ActionEntry
  pub dead_end_count : ℕ
  pub backtrack_count : ℕ

pub record SimulationContext (F : Type 0) : Type 0 where
  pub participant : ParticipantDraft F
  pub task : TaskContext
  pub screen : ScreenView
  pub state : ParticipantState F
  pub attention : Option (AttentionDecision F)

pub record ParticipantModel (F : Type 0) : Type 0 where
  pub select_attention : SimulationContext F → AttentionDecision F
  pub select_action : SimulationContext F → ActionDecision F

-- `element.semantic_role == role`
abbrev pub has_role : ElementView → String → Bool
has_role e role = elim e.semantic_role [ none ↦ false | some r ↦ str_eq r role ]

unfoldable pub default_action_for : ElementView → ActionType
default_action_for e =
    if str_eq e.type "input"
    then type_text
    else if str_eq e.type "select" || (has_role e "select" || has_role e "option")
    then select_option
    else click

-- `target == str(element.id)`, and `element_id == target`
abbrev pub targets : Option ℕ → ℕ → Bool
targets none element_id = false
targets (some t) element_id = t == element_id

abbrev pub action_beq : ActionType → ActionType → Bool
action_beq click click = true
action_beq scroll scroll = true
action_beq back back = true
action_beq open_action open_action = true
action_beq select_option select_option = true
action_beq type_text type_text = true
action_beq _ _ = false

-- A model that offers an action on every context.
abbrev pub Offers : {F : Type 0} → ParticipantModel F → Type 0
Offers {F} m = (c : SimulationContext F) → (m.select_action c).candidates ≢ []
