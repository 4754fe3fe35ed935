-- ===== src/Participant/Heuristic.antt =====
-- `HeuristicParticipantModel` of app/agents/providers/participant_model.py.
use mathlib.Core.List.{foldl}
use syn_koala.Prelude.{
  ℕ, Option, none, some, List, [], ◌∷◌, ◌++◌, ◌&&◌, map, if◌then◌else◌, get, put, ltb, is_nonempty,
}
use syn_koala.Platform.{Platform}
use syn_koala.Graph.{ElementView}
use syn_koala.Participant.{
  scroll, back, AttentionCandidate, AttentionDecision, ActionCandidate, ActionDecision,
  SimulationContext, ParticipantModel, default_action_for,
}
use syn_koala.Participant.Scores.{
  clip, visual_saliency, task_relevance, persona_relevance, state_relevance, attention_weights,
  repeat_penalty, action_utility, action_confidence, scroll_utility, back_utility,
}

module _ (p : Platform) where
  open p use {F, lit, ◌⊕◌, ◌⊗◌}

  -- The body of the loop of `select_attention`.
  attention_candidate : SimulationContext F → ElementView → AttentionCandidate F
  attention_candidate context e =
      let weights = attention_weights p context.participant.traits in
      let visual = visual_saliency p e context.screen in
      let task = task_relevance p e context.task in
      let persona = persona_relevance p e context.participant.traits in
      let state = state_relevance p e context.state in
      record {
        element_id = e.id;
        visual_saliency = visual;
        task_relevance = task;
        persona_relevance = persona;
        state_relevance = state;
        attention_score = clip p (
            weights.visual ⊗ visual ⊕ weights.task ⊗ task ⊕ weights.persona ⊗ persona
            ⊕ weights.state ⊗ state);
      }

  pub select_attention : SimulationContext F → AttentionDecision F
  unfolding attention_candidate
  select_attention context = record {
    candidates = map (attention_candidate context) context.screen.elements;
  }

  -- `{c.element_id: c for c in context.attention.candidates}`: the last of two with one id wins.
  pub by_element : Option (AttentionDecision F) → List (ℕ × AttentionCandidate F)
  by_element none = []
  by_element (some d) = foldl (λ m c. put m c.element_id c) [] d.candidates

  -- The attention score and the task relevance of an element, attended or not.
  attended_scores : SimulationContext F → ElementView → F × F
  unfolding by_element
  attended_scores context e = elim (get (by_element context.attention) e.id) [
    | none ↦ (lit 30, task_relevance p e context.task)
    | some c ↦ (c.attention_score, c.task_relevance)
  ]

  -- The body of the loop of `select_action`, at an interactable element.
  unfoldable pub element_candidate : SimulationContext F → ElementView → ActionCandidate F
  unfolding attended_scores
  element_candidate context e =
      let action = default_action_for e in
      let (attention_score, task) = attended_scores context e in
      let penalty = repeat_penalty p context.state action e.id in
      record {
        action = action;
        target = some e.id;
        utility =
            action_utility p action attention_score task context.participant.traits context.state
              penalty;
        confidence = action_confidence p context.participant.traits context.state task;
      }

  unfoldable pub element_candidates :
      SimulationContext F → List ElementView → List (ActionCandidate F)
  unfolding element_candidate
  element_candidates context [] = []
  element_candidates context (e ∷ es) =
      let rest = element_candidates context es in
      if e.interactable then element_candidate context e ∷ rest else rest

  scroll_candidate : SimulationContext F → ActionCandidate F
  scroll_candidate context = record {
    action = scroll;
    target = none;
    utility = scroll_utility p context;
    confidence = lit 40;
  }

  unfoldable pub back_candidates : SimulationContext F → List (ActionCandidate F)
  back_candidates context =
      if is_nonempty context.state.action_history && ltb context.state.backtrack_count 3
      then record {
        action = back;
        target = none;
        utility = back_utility p context;
        confidence = lit 40;
      }
        ∷ []
      else []

  pub select_action : SimulationContext F → ActionDecision F
  unfolding scroll_candidate
  select_action context = record {
    candidates =
        element_candidates context context.screen.elements
        ++ (scroll_candidate context ∷ back_candidates context);
  }

  unfoldable pub heuristic : ParticipantModel F
  unfolding select_attention select_action
  heuristic = record { select_attention = select_attention; select_action = select_action }
