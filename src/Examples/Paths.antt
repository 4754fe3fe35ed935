-- ===== src/Examples/Paths.antt =====
-- The baseline of the sign-up flow, with a milestone on its second screen.
use syn_koala.Prelude.{ℕ, ◌≡◌, refl, Option, none, some, [], ◌∷◌, dedup, list_or_empty, string_eq}
use syn_koala.Graph.{ScreenGraph, transitions_from}
use syn_koala.Simulation.Conditions.{element_names}
use syn_koala.Analytics.{has_critical, visit, search, shortest_path_baseline}
use syn_koala.Analytics.Baseline.{IsAttained}
use syn_koala.Analytics.Levels.{IsLeast, shortest_path_baseline-IsLeast}
use syn_koala.Samples.Signup.{sign_up_graph, sign_up_button, form_screen, done_screen}

abbrev welcome_graph : ScreenGraph
welcome_graph = record sign_up_graph {
  screens =
      (1, form_screen)
      ∷ (
        2,
        record done_screen { elements = record sign_up_button { element_key = "welcome" } ∷ [] },
      )
      ∷ [];
}

one_transition_away :
    shortest_path_baseline welcome_graph 1 (some ("welcome" ∷ [])) ≡ some (some (2, 1))
unfolding shortest_path_baseline search visit has_critical element_names transitions_from
one_transition_away = refl

out_of_reach : shortest_path_baseline welcome_graph 1 (some ("elsewhere" ∷ [])) ≡ some none
unfolding shortest_path_baseline search visit has_critical element_names transitions_from
out_of_reach = refl

shortest_path_baseline-IsLeast_example :
    (answer : Option (ℕ × ℕ)) × (shortest_path_baseline welcome_graph 1 (some ("welcome" ∷ []))
      ≡ some answer)
    × IsAttained welcome_graph 1 (dedup (list_or_empty (some ("welcome" ∷ [])))) answer
    × IsLeast welcome_graph (dedup (list_or_empty (some ("welcome" ∷ [])))) 1 answer
shortest_path_baseline-IsLeast_example =
    shortest_path_baseline-IsLeast welcome_graph 1 (some ("welcome" ∷ [])) form_screen refl
