-- ===== src/Participant/Choices.antt =====
-- What the participant models offer: always an action, and BACK only within its budget.
use syn_koala.Prelude.{
  ℕ, ◌<◌, ◌≡◌, ◌≢◌, refl, String, Bool, true, false, Option, List, [], ◌∷◌, ◌++◌, All, All-append,
  All-cons_if, ltb→lt, if◌then◌else◌, arith, ltb, is_nonempty, ◌&&◌,
}
use syn_koala.Platform.{Platform}
use syn_koala.Graph.{ElementView}
use syn_koala.Participant.{Offers, back, SimulationContext, ParticipantModel, default_action_for}
use syn_koala.Participant.Heuristic.{
  heuristic, element_candidate, element_candidates, back_candidates,
}
use syn_koala.Participant.Baselines.{
  get_participant_model, random_model, saliency_only, task_only, models_ind,
  interactable_candidates,
}

append_cons-ne_nil : {A : Type 0} (xs : List A) (y : A) (ys : List A) → xs ++ (y ∷ ys) ≢ []
append_cons-ne_nil [] y ys h = cc
append_cons-ne_nil (x ∷ xs) y ys h = cc

All-if_both :
    {A : Type 0} (P : A → Type 0) (b c : Bool) (x : A)
    → (c ≡ true → P x)
    → All P (if b && c then x ∷ [] else [])
All-if_both P true true x h = (h refl, tt)
All-if_both P true false x h = tt
All-if_both P false c x h = tt

-- BACK may be taken only below this count of backtracks.
abbrev pub back_budget : ℕ
back_budget = 3

abbrev pub KeepsBudget : {F : Type 0} → ParticipantModel F → Type 0
KeepsBudget {F} m =
    (c : SimulationContext F)
    → All (λ a. a.action ≡ back → c.state.backtrack_count < back_budget)
        (m.select_action c).candidates

module _ (p : Platform) where
  heuristic-Offers : Offers (heuristic p)
  unfolding heuristic
  heuristic-Offers c = append_cons-ne_nil _ _ _

  random-Offers : Offers (random_model p)
  unfolding random_model
  random-Offers c = append_cons-ne_nil _ _ _

  saliency_only-Offers : Offers (saliency_only p)
  unfolding saliency_only
  saliency_only-Offers c = append_cons-ne_nil _ _ _

  task_only-Offers : Offers (task_only p)
  unfolding task_only
  task_only-Offers c = append_cons-ne_nil _ _ _

  -- Under any name, known or not, the selected model offers an action on every context.
  pub get_participant_model-Offers : (name : Option String) → Offers (get_participant_model p name)
  get_participant_model-Offers =
      models_ind p Offers heuristic-Offers random-Offers saliency_only-Offers task_only-Offers

  -- No element's default action is BACK.
  pub default_action_for-ne-back : (e : ElementView) → default_action_for e ≢ back
  unfolding default_action_for
  default_action_for-ne-back e h = ground arith

  elements_keep :
      (budget : Type 0) (c : SimulationContext p.F) (es : List ElementView)
      → All (λ a. a.action ≡ back → budget) (element_candidates p c es)
  unfolding element_candidates
  elements_keep budget c [] = tt
  elements_keep budget c (e ∷ es) =
      All-cons_if (λ a. a.action ≡ back → budget) e.interactable (element_candidate p c e)
        (element_candidates p c es) (λ h. absurd (default_action_for-ne-back e h))
        (elements_keep budget c es)

  interactables_keep :
      (budget : Type 0) (utility : ElementView → p.F) (es : List ElementView)
      → All (λ a. a.action ≡ back → budget) (interactable_candidates p utility es)
  unfolding interactable_candidates
  interactables_keep budget utility [] = tt
  interactables_keep budget utility (e ∷ es) =
      All-cons_if (λ a. a.action ≡ back → budget) e.interactable _
        (interactable_candidates p utility es) (λ h. absurd (default_action_for-ne-back e h))
        (interactables_keep budget utility es)

  back_kept :
      (c : SimulationContext p.F)
      → All (λ a. a.action ≡ back → c.state.backtrack_count < back_budget) (back_candidates p c)
  unfolding back_candidates
  back_kept c =
      All-if_both _ (is_nonempty c.state.action_history) (ltb c.state.backtrack_count 3) _
        (λ room _. ltb→lt _ _ room)

  heuristic_keeps : KeepsBudget (heuristic p)
  unfolding heuristic
  heuristic_keeps c =
      All-append _ (element_candidates p c c.screen.elements) _
        (elements_keep (c.state.backtrack_count < back_budget) c c.screen.elements)
        ((λ h. cc), back_kept c)

  random_keeps : KeepsBudget (random_model p)
  unfolding random_model
  random_keeps c =
      All-append _ (interactable_candidates p _ c.screen.elements) _
        (interactables_keep _ _ c.screen.elements) ((λ h. cc), tt)

  saliency_only_keeps : KeepsBudget (saliency_only p)
  unfolding saliency_only
  saliency_only_keeps c =
      All-append _ (interactable_candidates p _ c.screen.elements) _
        (interactables_keep _ _ c.screen.elements) ((λ h. cc), tt)

  task_only_keeps : KeepsBudget (task_only p)
  unfolding task_only
  task_only_keeps c =
      All-append _ (interactable_candidates p _ c.screen.elements) _
        (interactables_keep _ _ c.screen.elements) ((λ h. cc), tt)

  -- Under any name, the selected model offers BACK only while fewer than three backtracks were made.
  pub get_participant_model-KeepsBudget :
      (name : Option String) → KeepsBudget (get_participant_model p name)
  get_participant_model-KeepsBudget =
      models_ind p KeepsBudget heuristic_keeps random_keeps saliency_only_keeps task_only_keeps
