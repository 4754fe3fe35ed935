-- ===== src/Vision/Drawn.antt =====
-- The job of app/workers/jobs/analyze_stimulus.py keeps the graph of its study closed.
use syn_koala.Prelude.{
  ℕ, zero, suc, ◌≡◌, refl, subst, ◌∙◌, String, Bool, true, false, Result-cases, Option, none, some,
  List, [], ◌∷◌, if◌then◌else◌, ◌==◌, is_nonempty, All, lookup, nonempty, Bool-cases, Option-cases,
  inl, inr, Result, ok, err, ok-injective,
}
use syn_koala.Graph.{TransitionView}
use syn_koala.Database.Session.{ServiceError, resume-keeps, return}
use syn_koala.Stimuli.{Screen, Assets}
use syn_koala.Stimuli.Nulls.{Document, Members}
use syn_koala.Stimuli.Screens.{
  ElementDraft, set_screen, save_screen_analysis, save_screen_roles, save_role, analyzed,
}
use syn_koala.Vision.Edges.{InferredTransition, resolve_transitions}
use syn_koala.Vision.Backed.{IsBacked, HasOneDestination, resolve_transitions-IsBacked}
use syn_koala.Vision.Closed.{SamePlaces, amend-places}
use syn_koala.Vision.Analyze.{
  Vision, ScreenAnalysis, Best, is_better, keep_best, connects, reached_ids,
  max_transition_inference_attempts, infer_once, infer_attempts, infer_best_transitions,
  analyze_one, analyze_screens,
}

module _ (study_id : ℕ) where
  SamePlaces-set_screen :
      (a b : Assets) (id : ℕ) (change : Screen → Screen)
      → ((s : Screen) → ((change s).id ≡ s.id) × ((change s).stimulus_id ≡ s.stimulus_id))
      → SamePlaces study_id a b
      → SamePlaces study_id a (set_screen id change b)
  unfolding set_screen
  SamePlaces-set_screen a b id change same h = record {
    stimuli = h.stimuli;
    transitions = h.transitions;
    places = amend-places study_id (λ s. s.id == id) change b.screens same ∙ h.places;
  }

  save_screen_analysis-SamePlaces :
      (a b : Assets) (id : ℕ) (elements : List ElementDraft) (raw : Members)
      → SamePlaces study_id a b
      → SamePlaces study_id a (save_screen_analysis id elements raw b)
  unfolding save_screen_analysis analyzed
  save_screen_analysis-SamePlaces a b id elements raw h =
      let set = SamePlaces-set_screen a b id (analyzed raw _) (λ s. (refl, refl)) h in
      record { stimuli = set.stimuli; transitions = set.transitions; places = set.places }

  pub save_screen_roles-SamePlaces :
      (screens : List Screen) (roles : List (String × Document)) (a b : Assets)
      → SamePlaces study_id a b
      → SamePlaces study_id a (save_screen_roles screens roles b)
  unfolding save_screen_roles save_role
  save_screen_roles-SamePlaces [] roles a b h = h
  save_screen_roles-SamePlaces (s ∷ screens) roles a b h =
      elim (Option-cases (lookup roles s.screen_key)) [
        | inl e ↦ rw (e, save_screen_roles) (save_screen_roles-SamePlaces screens roles a b h)
        | inr (role, e) ↦
            rw (e, save_screen_roles)
              (save_screen_roles-SamePlaces screens roles a _
                (SamePlaces-set_screen a b s.id (save_role role) (λ x. (refl, refl)) h))
      ]

  module _ (vision : Vision) where
    analyze_one-SamePlaces :
        (screen : Screen) (a b : Assets)
        → SamePlaces study_id a b
        → SamePlaces study_id a (analyze_one vision screen b).0
    unfolding analyze_one
    analyze_one-SamePlaces screen a b h = elim (Option-cases (nonempty screen.image_url)) [
      | inl e ↦ rw (e, analyze_one) h
      | inr (url, e) ↦
          rw (e, analyze_one)
            (resume-keeps {A = ScreenAnalysis} {B = Unit {0}} (SamePlaces study_id a) _ _ h
              (λ x c k. save_screen_analysis-SamePlaces a c screen.id x.elements x.dumped k))
    ]

    pub analyze_screens-SamePlaces :
        (screens : List Screen) (a b : Assets)
        → SamePlaces study_id a b
        → SamePlaces study_id a (analyze_screens vision screens b).0
    unfolding analyze_screens
    analyze_screens-SamePlaces [] a b h = h
    analyze_screens-SamePlaces (s ∷ screens) a b h =
        resume-keeps (SamePlaces study_id a)
          ((if is_nonempty s.elements then return tt else analyze_one vision s) b)
          (λ x. analyze_screens vision screens) (first (is_nonempty s.elements))
          (λ x c k. analyze_screens-SamePlaces screens a c k)
      where
        first :
            (test : Bool)
            → SamePlaces study_id a ((if test then return tt else analyze_one vision s) b).0
        first true = h
        first false = analyze_one-SamePlaces s a b h

-- Transitions that stand on the rows of the screens, with one destination for each trigger.
abbrev pub Good : List Screen → List TransitionView → Type 0
Good screens ts = All (IsBacked screens) ts × HasOneDestination ts

module _ (vision : Vision) (screens surviving : List Screen)
    (canonical : List (String × String)) where
  infer_once-Good :
      (attempt : ℕ) (ts : List TransitionView)
      → infer_once vision screens surviving canonical attempt ≡ ok ts
      → Good screens ts
  unfolding infer_once
  infer_once-Good attempt ts h = inferred (vision.infer_transitions attempt _) h
    where
      inferred :
          (r : Result ServiceError (List InferredTransition))
          → elim r [ err e ↦ err e | ok edges ↦ ok (resolve_transitions screens canonical edges) ]
            ≡ ok ts
          → Good screens ts
      inferred (err e) h = cc
      inferred (ok edges) h =
          subst (Good screens) (ok-injective _ ts h)
            (resolve_transitions-IsBacked screens canonical edges)

  keep_best-Good :
      (best : Best) (ts : List TransitionView) (reached : ℕ)
      → Good screens best.transitions
      → Good screens ts
      → Good screens (keep_best best ts reached).transitions
  unfolding keep_best
  keep_best-Good best ts reached h k = elim (Bool-cases (is_better best.reached reached)) [
    | inl e ↦ rw e k
    | inr e ↦ rw e h
  ]

  infer_attempts-Good :
      (entry_key : String) (success_key : Option String) (left attempt : ℕ) (best : Best)
      (ts : List TransitionView)
      → Good screens best.transitions
      → infer_attempts vision screens surviving canonical entry_key success_key left attempt best
        ≡ ok ts
      → Good screens ts
  unfolding infer_attempts
  infer_attempts-Good entry_key success_key zero attempt best ts g h =
      subst (Good screens) (ok-injective _ ts h) g
  infer_attempts-Good entry_key success_key (suc left) attempt best ts g h =
      elim (Result-cases (infer_once vision screens surviving canonical attempt)) [
        | inr (e, failed) ↦ cc (rw (failed, infer_attempts) at h)
        | inl (answer, returned) ↦
            let kept = keep_best-Good best answer _ g (infer_once-Good attempt answer returned) in
            elim (Bool-cases
              (connects screens success_key (reached_ids screens answer entry_key))) [
                | inl e ↦
                    subst (Good screens)
                      (ok-injective _ ts (rw e at (rw (returned, infer_attempts) at h))) kept
                | inr e ↦
                    infer_attempts-Good entry_key success_key left _ _ ts kept
                      (rw e at (rw (returned, infer_attempts) at h))
              ]
      ]

  pub infer_best_transitions-Good :
      (entry_key success_key : Option String) (ts : List TransitionView)
      → infer_best_transitions vision screens surviving canonical entry_key success_key ≡ ok ts
      → Good screens ts
  unfolding infer_best_transitions
  infer_best_transitions-Good none success_key ts h = infer_once-Good 0 ts h
  infer_best_transitions-Good (some entry_key) success_key ts h =
      infer_attempts-Good entry_key success_key max_transition_inference_attempts 0
        (record { transitions = []; reached = none }) ts (tt, tt) h
