-- ===== src/Vision/Keeps.antt =====
-- The job of app/workers/jobs/analyze_stimulus.py from a sound graph to a sound graph.
use syn_koala.Prelude.{
  ℕ, ◌≡◌, refl, sym, ◌∙◌, String, some, List, ◌==◌, map, select, any, find_first, length, ltb,
  Bool-cases, inl, inr, Result, ok, err,
}
use syn_koala.Graph.{TransitionView}
use syn_koala.Database.Session.{
  ServiceError, resume, found_or, value_error, resume-leads, found_or-keeps,
}
use syn_koala.Stimuli.{Screen, Stimulus, Assets, list_screens_for_study}
use syn_koala.Stimuli.Service.{get_with_screens}
use syn_koala.Stimuli.Screens.{replace_transitions_for_study, save_screen_roles}
use syn_koala.Vision.{entry, success, Roles, resolve_screen_roles, canonical_screen_keys}
use syn_koala.Vision.Closed.{ids_of, study_ids, SamePlaces, same_ids}
use syn_koala.Vision.Drawn.{
  Good, save_screen_roles-SamePlaces, analyze_screens-SamePlaces, infer_best_transitions-Good,
}
use syn_koala.Vision.Sound.{IsSoundGraph, SamePlaces-IsSoundGraph, replace-IsSoundGraph}
use syn_koala.Vision.Analyze.{
  Vision, analyze_screens, is_missing, is_surviving, key_with, screen_summary, role_document,
  draw_transitions, draw_roles, redraw, redraw_if_ready, handle_analyze_stimulus,
}

module _ (vision : Vision) (study_id : ℕ) where
  module _ (screens : List Screen) (a : Assets) (ids : ids_of screens ≡ study_ids study_id a)
      (g : IsSoundGraph study_id a) where
    stop : (b : Assets) → SamePlaces study_id a b → IsSoundGraph study_id b
    stop b h = SamePlaces-IsSoundGraph study_id a b h g

    draw_transitions-IsSoundGraph :
        (roles : Roles) (canonical : List (String × String)) (b : Assets)
        → SamePlaces study_id a b
        → IsSoundGraph study_id (draw_transitions vision study_id screens roles canonical b).0
    unfolding draw_transitions
    draw_transitions-IsSoundGraph roles canonical b h = saved _ (
        infer_best_transitions-Good vision screens (select (is_surviving canonical) screens)
          canonical (key_with entry roles) (key_with success roles))
      where
        saved :
            (r : Result ServiceError (List TransitionView))
            → ((ts : List TransitionView) → r ≡ ok ts → Good screens ts)
            → IsSoundGraph study_id
                (resume (b, r) (λ ts c. (replace_transitions_for_study study_id ts c, ok tt))).0
        saved (err e) good = stop b h
        saved (ok ts) good =
            replace-IsSoundGraph study_id b screens ts (ids ∙ sym (same_ids study_id a b h))
              (good ts refl)

    draw_roles-IsSoundGraph :
        (roles : Roles) (b : Assets)
        → SamePlaces study_id a b
        → IsSoundGraph study_id (draw_roles vision study_id screens roles b).0
    unfolding draw_roles
    draw_roles-IsSoundGraph roles b h =
        let saved = save_screen_roles screens (map role_document roles) b in
        let found = canonical_screen_keys roles in
        resume-leads (SamePlaces study_id a) (IsSoundGraph study_id)
          (found_or value_error found saved) (draw_transitions vision study_id screens roles) stop
          (found_or-keeps (SamePlaces study_id a) value_error found saved
            (save_screen_roles-SamePlaces study_id screens (map role_document roles) a b h))
          (draw_transitions-IsSoundGraph roles)

    redraw-IsSoundGraph : IsSoundGraph study_id (redraw vision study_id screens a).0
    unfolding redraw
    redraw-IsSoundGraph =
        resume-leads (SamePlaces study_id a) (IsSoundGraph study_id)
          (a, vision.classify_screens (map screen_summary screens))
          (λ inferred. draw_roles vision study_id screens (resolve_screen_roles screens inferred))
          stop (record { stimuli = refl; transitions = refl; places = refl })
          (λ inferred b h. draw_roles-IsSoundGraph (resolve_screen_roles screens inferred) b h)

  redraw_if_ready-IsSoundGraph :
      (screens : List Screen) (a : Assets)
      → ids_of screens ≡ study_ids study_id a
      → IsSoundGraph study_id a
      → IsSoundGraph study_id (redraw_if_ready vision study_id screens a).0
  unfolding redraw_if_ready
  redraw_if_ready-IsSoundGraph screens a ids g =
      elim (Bool-cases (any (λ s. is_missing s.analysis) screens)) [
        | inl e ↦ rw (e, redraw_if_ready) g
        | inr e ↦ elim (Bool-cases (ltb (length screens) 2)) [
          | inl few ↦ rw (e, redraw_if_ready) (rw (few, redraw_if_ready) g)
          | inr enough ↦
              rw (e, redraw_if_ready)
                (rw (enough, redraw_if_ready) (redraw-IsSoundGraph screens a ids g))
        ]
      ]

-- The job, whatever the model answers and wherever it stops, leaves the study a graph whose transitions
-- end at screens of the study and have one destination for each trigger, if it had such a graph before.
pub handle_analyze_stimulus-IsSoundGraph :
    (vision : Vision) (stimulus_id : ℕ) (stimulus : Stimulus) (a : Assets)
    → find_first (λ s. s.id == stimulus_id) a.stimuli ≡ some stimulus
    → IsSoundGraph stimulus.study_id a
    → IsSoundGraph stimulus.study_id (handle_analyze_stimulus vision stimulus_id a).0
unfolding handle_analyze_stimulus get_with_screens
handle_analyze_stimulus-IsSoundGraph vision stimulus_id stimulus a found g =
    let study_id = stimulus.study_id in
    rw (found, handle_analyze_stimulus)
      (resume-leads {A = Unit {0}} {B = Unit {0}} (SamePlaces study_id a) (IsSoundGraph study_id)
        (analyze_screens vision (select (λ s. s.stimulus_id == stimulus_id) a.screens) a)
        (λ _ b. redraw_if_ready vision study_id (list_screens_for_study study_id b) b)
        (λ b h. SamePlaces-IsSoundGraph study_id a b h g)
        (analyze_screens-SamePlaces study_id vision
          (select (λ s. s.stimulus_id == stimulus_id) a.screens) a a
          (record { stimuli = refl; transitions = refl; places = refl }))
        (λ x b h.
          redraw_if_ready-IsSoundGraph vision study_id (list_screens_for_study study_id b) b refl
            (SamePlaces-IsSoundGraph study_id a b h g)))
