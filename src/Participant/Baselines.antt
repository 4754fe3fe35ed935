-- ===== src/Participant/Baselines.antt =====
-- The baseline models of app/agents/providers/participant_model.py, and `get_participant_model`.
use mathlib.Core.List.{foldl}
use syn_koala.Prelude.{
  ℕ, ◌≡◌, refl, String, Option, none, some, List, [], ◌∷◌, ◌++◌, map, if◌then◌else◌, get, put,
  nonempty, lookup, lookup-All,
}
use syn_koala.Platform.{Platform}
use syn_koala.Graph.{ElementView}
use syn_koala.Participant.{
  scroll, AttentionDecision, ActionCandidate, ActionDecision, SimulationContext, ParticipantModel,
  default_action_for,
}
use syn_koala.Participant.Scores.{visual_saliency, task_relevance}
use syn_koala.Participant.Heuristic.{heuristic}

module _ (p : Platform) where
  open p use {F, lit}

  -- `[candidate(e) for e in elements if e.interactable]`, each with a confidence of 0.5
  unfoldable pub interactable_candidates :
      (ElementView → F) → List ElementView → List (ActionCandidate F)
  interactable_candidates utility [] = []
  interactable_candidates utility (e ∷ es) =
      let rest = interactable_candidates utility es in
      let candidate : ActionCandidate F = record {
        action = default_action_for e;
        target = some e.id;
        utility = utility e;
        confidence = lit 50;
      } in
      if e.interactable then candidate ∷ rest else rest

  scroll_with : F → ActionCandidate F
  scroll_with utility = record {
    action = scroll;
    target = none;
    utility = utility;
    confidence = lit 50;
  }

  random_attention : SimulationContext F → AttentionDecision F
  random_attention context = record {
    candidates =
        map
          (λ e. record {
            element_id = e.id;
            visual_saliency = lit 0;
            task_relevance = lit 0;
            persona_relevance = lit 0;
            state_relevance = lit 0;
            attention_score = lit 50;
          })
          context.screen.elements;
  }

  random_action : SimulationContext F → ActionDecision F
  unfolding scroll_with
  random_action context = record {
    candidates =
        interactable_candidates (λ e. lit 50) context.screen.elements ++ scroll_with (lit 50) ∷ [];
  }

  saliency_only_attention : SimulationContext F → AttentionDecision F
  saliency_only_attention context = record {
    candidates =
        map
          (λ e. record {
            element_id = e.id;
            visual_saliency = visual_saliency p e context.screen;
            task_relevance = lit 0;
            persona_relevance = lit 0;
            state_relevance = lit 0;
            attention_score = visual_saliency p e context.screen;
          })
          context.screen.elements;
  }

  -- `{c.element_id: c.attention_score for c in ...}`
  score_by_element : Option (AttentionDecision F) → List (ℕ × F)
  score_by_element none = []
  score_by_element (some d) = foldl (λ m c. put m c.element_id c.attention_score) [] d.candidates

  score_of : SimulationContext F → ElementView → F
  unfolding score_by_element
  score_of context e = elim (get (score_by_element context.attention) e.id) [
    | none ↦ lit 30
    | some score ↦ score
  ]

  saliency_only_action : SimulationContext F → ActionDecision F
  unfolding scroll_with score_of
  saliency_only_action context = record {
    candidates =
        interactable_candidates (score_of context) context.screen.elements
        ++ scroll_with (lit 30) ∷ [];
  }

  task_only_attention : SimulationContext F → AttentionDecision F
  task_only_attention context = record {
    candidates =
        map
          (λ e. record {
            element_id = e.id;
            visual_saliency = lit 0;
            task_relevance = task_relevance p e context.task;
            persona_relevance = lit 0;
            state_relevance = lit 0;
            attention_score = task_relevance p e context.task;
          })
          context.screen.elements;
  }

  task_only_action : SimulationContext F → ActionDecision F
  unfolding scroll_with
  task_only_action context = record {
    candidates =
        interactable_candidates (λ e. task_relevance p e context.task) context.screen.elements
        ++ scroll_with (lit 20) ∷ [];
  }

  unfoldable pub random_model : ParticipantModel F
  unfolding random_attention random_action
  random_model = record { select_attention = random_attention; select_action = random_action }

  unfoldable pub saliency_only : ParticipantModel F
  unfolding saliency_only_attention saliency_only_action
  saliency_only = record {
    select_attention = saliency_only_attention;
    select_action = saliency_only_action;
  }

  unfoldable pub task_only : ParticipantModel F
  unfolding task_only_attention task_only_action
  task_only = record { select_attention = task_only_attention; select_action = task_only_action }

  participant_models : List (String × ParticipantModel F)
  participant_models =
      ("heuristic", heuristic p)
      ∷ ("random", random_model)
      ∷ ("saliency_only", saliency_only)
      ∷ ("task_only", task_only)
      ∷ []

  pub model_named : Option String → Option (ParticipantModel F)
  unfolding participant_models
  model_named none = none
  model_named (some key) = lookup participant_models key

  abbrev pub model_or_heuristic : Option (ParticipantModel F) → ParticipantModel F
  model_or_heuristic none = heuristic p
  model_or_heuristic (some m) = m

  -- An unknown name, `None` and the empty name get the heuristic model.
  unfoldable pub get_participant_model : Option String → ParticipantModel F
  get_participant_model name = model_or_heuristic (model_named (nonempty name))

  module _ (P : ParticipantModel F → Type 0) (h : P (heuristic p)) (r : P random_model)
      (s : P saliency_only) (t : P task_only) where
    named_ind : (key : Option String) (m : ParticipantModel F) → model_named key ≡ some m → P m
    unfolding model_named
    named_ind none m e = cc
    named_ind (some key) m e = lookup-All P participant_models key m (h, (r, (s, (t, tt)))) e

    model_ind :
        (key : Option String) (m : Option (ParticipantModel F))
        → model_named key ≡ m
        → P (model_or_heuristic m)
    model_ind key none e = h
    model_ind key (some m) e = named_ind key m e

    -- What holds of the four models holds of the one that a name selects.
    pub models_ind : (name : Option String) → P (get_participant_model name)
    unfolding get_participant_model
    models_ind name = model_ind (nonempty name) (model_named (nonempty name)) refl
