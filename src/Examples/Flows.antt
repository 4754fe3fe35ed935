-- ===== src/Examples/Flows.antt =====
-- The analysis of the sign-up flow, and the upload of another screen.
use syn_koala.Prelude.{ℕ, any, is_nonempty, ok}
use syn_koala.Graph.{resolve_starting_screen}
use syn_koala.Simulation.{is_in_progress}
use syn_koala.Simulation.Nodes.{Sim}
use syn_koala.Simulation.Flow.{run_simulation}
use syn_koala.Simulation.Navigation.{IsNavigable}
use syn_koala.Stimuli.{screens_by_id, screen_view, element_view, infer_interactable}
use syn_koala.Stimuli.Nulls.{strip_members, without_nulls}
use syn_koala.Stimuli.Service.{get_with_screens}
use syn_koala.Stimuli.Screens.{
  save_screen_analysis, set_screen, analyzed, new_elements, new_element, strip_draft,
  save_screen_roles, save_role, with_member, replace_transitions_for_study,
}
use syn_koala.Vision.{
  admit_role, order_from, earlier_duplicate, keep_one, winner, canonical_of, root_of,
}
use syn_koala.Vision.Edges.{adjacency_of, reach_from, enqueue_new}
use syn_koala.Vision.Analyze.{
  analyze_screens, analyze_one, redraw_if_ready, redraw, draw_roles, draw_transitions,
  screen_summary, role_document, infer_best_transitions, infer_attempts, infer_once, keep_best,
  connects,
}
use syn_koala.Vision.Runnable.{handle_analyze_stimulus-IsNavigable}
use syn_koala.Samples.Fixed.{fixed, executor}
use syn_koala.Samples.Signup.{sign_up_task, tester, sign_up_deps}
use syn_koala.Examples.{sign_up-Offers}
use syn_koala.Prelude.{
  ◌≡◌, ◌↔◌, refl, arith, String, true, false, none, some, List, [], ◌∷◌, map, All, contains,
  string_eq, nat_eq,
}
use syn_koala.Graph.{TransitionView}
use syn_koala.Stimuli.{
  list_screens_for_study, in_study, list_transitions_for_study, leaves_study, unique_screen_key,
  get_screen_graph,
}
use syn_koala.Stimuli.Nulls.{
  text, object, member, end, strip, IsStorable, HasCleanKeys, strip-IsStorable,
}
use syn_koala.Stimuli.Keys.{keys_of, unique_screen_key-IsFree}
use syn_koala.Stimuli.Distinct.{IsTidy, create_with_asset-IsTidy}
use syn_koala.Stimuli.Service.{create_with_asset}
use syn_koala.Vision.{resolve_screen_roles, canonical_screen_keys}
use syn_koala.Vision.Roles.{IsFlow, resolve_screen_roles-IsFlow}
use syn_koala.Vision.Roots.{CollapsesTo, canonical_screen_keys-CollapsesTo}
use syn_koala.Vision.Edges.{
  screen_by_key, resolve_transitions, resolve_edge, element_by_key, accept_edge, is_seen,
  reachable_screen_ids,
}
use syn_koala.Vision.Backed.{IsBacked, HasOneDestination, resolve_transitions-IsBacked}
use syn_koala.Vision.Reach.{Reaches, reachable_screen_ids-Reaches}
use syn_koala.Vision.Analyze.{handle_analyze_stimulus}
use syn_koala.Vision.Sound.{IsSoundGraph}
use syn_koala.Vision.Keeps.{handle_analyze_stimulus-IsSoundGraph}
use syn_koala.Samples.Flow.{
  sign_up_rows, form_row, sign_up_assets, done_upload, reported_edges, reported_roles, fixed_vision,
  tally, tally-injective, tally_media,
}

abbrev sign_up_edge : TransitionView
sign_up_edge = record {
  from_screen_id = 1;
  trigger_element_id = 11;
  action = "TAP";
  to_screen_id = 2;
}

one_edge_of_four : resolve_transitions sign_up_rows [] reported_edges ≡ sign_up_edge ∷ []
unfolding resolve_transitions resolve_edge screen_by_key element_by_key accept_edge is_seen
one_edge_of_four = refl

strip-IsStorable_example :
    (IsStorable (strip (object (member "a" (text "b") end)))
      ↔ HasCleanKeys (object (member "a" (text "b") end)))
    × (IsStorable (object (member "a" (text "b") end))
        → strip (object (member "a" (text "b") end)) ≡ object (member "a" (text "b") end))
strip-IsStorable_example = strip-IsStorable (object (member "a" (text "b") end))

resolve_screen_roles-IsFlow_example :
    IsFlow sign_up_rows (resolve_screen_roles sign_up_rows reported_roles)
resolve_screen_roles-IsFlow_example = resolve_screen_roles-IsFlow sign_up_rows reported_roles

canonical_screen_keys-CollapsesTo_example :
    (canonical : List (String × String)) × (canonical_screen_keys
        (resolve_screen_roles sign_up_rows reported_roles)
      ≡ some canonical)
    × (map (λ e. e.0) canonical ≡ map (λ e. e.0) (resolve_screen_roles sign_up_rows reported_roles))
    × All
        (CollapsesTo sign_up_rows
          (resolve_screen_roles sign_up_rows reported_roles)
          resolve_screen_roles-IsFlow_example)
        canonical
canonical_screen_keys-CollapsesTo_example =
    canonical_screen_keys-CollapsesTo sign_up_rows
      (resolve_screen_roles sign_up_rows reported_roles)
      (resolve_screen_roles-IsFlow sign_up_rows reported_roles)

resolve_transitions-IsBacked_example :
    All (IsBacked sign_up_rows) (resolve_transitions sign_up_rows [] reported_edges)
    × HasOneDestination (resolve_transitions sign_up_rows [] reported_edges)
resolve_transitions-IsBacked_example = resolve_transitions-IsBacked sign_up_rows [] reported_edges

form_known : screen_by_key sign_up_rows "form" ≡ some form_row
unfolding screen_by_key
form_known = refl

reachable_screen_ids-Reaches_example :
    (ids : List _) × (reachable_screen_ids sign_up_rows (sign_up_edge ∷ []) "form" ≡ some ids)
    × ((s : _) → contains ids s ≡ true → Reaches (sign_up_edge ∷ []) 1 s)
    × ((s : _) → Reaches (sign_up_edge ∷ []) 1 s → contains ids s ≡ true)
reachable_screen_ids-Reaches_example =
    reachable_screen_ids-Reaches sign_up_rows (sign_up_edge ∷ []) "form" form_row form_known

sign_up_assets-IsSoundGraph : IsSoundGraph 7 sign_up_assets
unfolding get_screen_graph list_transitions_for_study leaves_study list_screens_for_study in_study
sign_up_assets-IsSoundGraph = record { closed = tt; one = tt }

handle_analyze_stimulus-IsSoundGraph_example :
    IsSoundGraph 7 (handle_analyze_stimulus fixed_vision 51 sign_up_assets).0
handle_analyze_stimulus-IsSoundGraph_example =
    handle_analyze_stimulus-IsSoundGraph fixed_vision 51 done_upload sign_up_assets refl
      sign_up_assets-IsSoundGraph

unique_screen_key-IsFree_example :
    (key : String) × (unique_screen_key tally 7 "form" sign_up_assets ≡ some key)
    × (contains (keys_of 7 sign_up_assets) key ≡ false)
    × (contains (keys_of 7 sign_up_assets) "form" ≡ false → key ≡ "form")
unique_screen_key-IsFree_example =
    unique_screen_key-IsFree tally tally-injective 7 "form" sign_up_assets

pub sign_up_assets-IsTidy : IsTidy 7 sign_up_assets
unfolding list_screens_for_study in_study
sign_up_assets-IsTidy = record {
  owners = (omega arith, (omega arith, tt));
  distinct = (refl, (refl, tt));
}

create_with_asset-IsTidy_example :
    IsTidy 7
      (create_with_asset tally_media 7 "image" none
        (some 3)
        none
        (some "form.png")
        sign_up_assets).0
create_with_asset-IsTidy_example =
    create_with_asset-IsTidy tally_media tally-injective 7 "image" none (some 3) none
      (some "form.png") sign_up_assets sign_up_assets-IsTidy

analyzed_graph :
    any
      (λ s. is_nonempty s.1.elements)
      (get_screen_graph 7 (handle_analyze_stimulus fixed_vision 51 sign_up_assets).0).screens
    ≡ true
unfolding handle_analyze_stimulus get_with_screens analyze_screens analyze_one save_screen_analysis
    set_screen analyzed new_elements new_element strip_draft without_nulls strip_members
    redraw_if_ready redraw draw_roles draw_transitions screen_summary role_document
    resolve_screen_roles admit_role order_from earlier_duplicate keep_one winner
    canonical_screen_keys canonical_of root_of save_screen_roles save_role with_member strip
    infer_best_transitions infer_attempts infer_once keep_best connects resolve_transitions
    resolve_edge screen_by_key element_by_key accept_edge is_seen reachable_screen_ids adjacency_of
    reach_from enqueue_new replace_transitions_for_study leaves_study get_screen_graph screens_by_id
    screen_view element_view infer_interactable list_screens_for_study in_study
    list_transitions_for_study
analyzed_graph = refl

handle_analyze_stimulus-IsNavigable_example :
    let graph = get_screen_graph 7 (handle_analyze_stimulus fixed_vision 51 sign_up_assets).0 in
    (start : ℕ) × (resolve_starting_screen graph sign_up_task.starting_point ≡ some start)
    × (final : Sim fixed) × (run_simulation fixed executor sign_up_deps tester sign_up_task graph
          start "7:9"
        ≡ ok final)
    × (is_in_progress final.outcome ≡ false)
    × IsNavigable final
unfolding fixed sign_up_deps
handle_analyze_stimulus-IsNavigable_example =
    handle_analyze_stimulus-IsNavigable fixed_vision 51 done_upload sign_up_assets fixed executor
      sign_up_deps tester sign_up_task "7:9" refl sign_up_assets-IsSoundGraph analyzed_graph
      sign_up-Offers (omega arith)
