-- ===== src/Analytics/Metrics.antt =====
-- `AnalyticsEngine.compute_metrics` of app/services/analytics_engine.py, but for the metrics of elements.
use syn_koala.Prelude.{
  ℕ, String, ℤ, pos, negsuc, ltb_ℤ, Bool, not, Option, none, some, List, [], ◌∷◌, ◌++◌,
  if◌then◌else◌, ◌==◌, str_eq, any, count_if, length, contains, string_eq, nat_eq, get, put,
}
use syn_koala.Platform.{Platform}

-- `ACTION_TYPES`
unfoldable pub is_action : String → Bool
is_action type =
    contains ("CLICK" ∷ "TAP" ∷ "SCROLL" ∷ "BACK" ∷ "OPEN" ∷ "SELECT" ∷ "TYPE" ∷ []) type

pub record ObservationRow : Type 0 where
  pub type : String
  pub screen_id : Option ℕ
  pub element_id : Option ℕ
  pub duration_ms : Option ℤ
  pub sequence_no : ℤ

-- One participant's run, as the aggregation gets it.
pub record ParticipantRunData (F : Type 0) : Type 0 where
  pub id : ℕ
  pub status : String
  pub task_time_ms : Option F
  pub traits : Option (List (String × F))
  pub observations : List ObservationRow

pub record MetricRow (F : Type 0) : Type 0 where
  pub level : String
  pub metric : String
  pub value : F
  pub sample_size : ℕ
  pub element_id : Option ℕ
  pub screen_id : Option ℕ

-- `dict[UUID, set[UUID]]`, in the order of insertion; a set is a list without repetitions.
abbrev pub Groups : Type 0
Groups = List (ℕ × List ℕ)

-- `groups.get(key, set())`
abbrev pub members : Groups → ℕ → List ℕ
members groups key = elim (get groups key) [ none ↦ [] | some ids ↦ ids ]

abbrev pub add_to : List ℕ → ℕ → List ℕ
add_to ids id = if contains ids id then ids else ids ++ id ∷ []

-- `groups[key].add(id)`
unfoldable pub note : Groups → ℕ → ℕ → Groups
note groups key id = put groups key (add_to (members groups key) id)

-- The screens that participants entered, those where they were left, and the last that the participant at
-- hand entered, with its number.
pub record Reached : Type 0 where
  pub reached : Groups
  pub stuck : Groups

pub record LastScreen : Type 0 where
  pub groups : Groups
  pub last_seq : ℤ
  pub last_screen : Option ℕ

unfoldable pub enter : ℕ → LastScreen → ObservationRow → LastScreen
unfolding note
enter run_id s obs = if not (str_eq obs.type "SCREEN_ENTER") then s else elim obs.screen_id [
  | none ↦ s
  | some screen_id ↦
      if ltb_ℤ s.last_seq obs.sequence_no
      then record {
        groups = note s.groups screen_id run_id;
        last_seq = obs.sequence_no;
        last_screen = some screen_id;
      }
      else record s { groups = note s.groups screen_id run_id }
]

unfoldable pub enter_all : ℕ → LastScreen → List ObservationRow → LastScreen
unfolding enter
enter_all run_id s [] = s
enter_all run_id s (obs ∷ rest) = enter_all run_id (enter run_id s obs) rest

module _ (p : Platform) where
  open p use {F, ◌⊘◌, of_int, lit, lt}

  -- `count / n` of Python's integers
  abbrev pub ratio : ℕ → ℕ → F
  ratio count n = of_int (pos count) ⊘ of_int (pos n)

  unfoldable pub rate_row : String → String → ℕ → ℕ → Option ℕ → Option ℕ → MetricRow F
  rate_row level metric count n element_id screen_id = record {
    level = level;
    metric = metric;
    value = ratio count n;
    sample_size = n;
    element_id = element_id;
    screen_id = screen_id;
  }

  abbrev pub has_status : String → ParticipantRunData F → Bool
  has_status status r = str_eq r.status status

  abbrev pub went_back : ParticipantRunData F → Bool
  went_back r = any (λ o. str_eq o.type "BACK") r.observations

  unfoldable pub completion_rate : List (ParticipantRunData F) → MetricRow F
  unfolding rate_row
  completion_rate runs =
      rate_row "task_success" "completion_rate" (count_if (has_status "COMPLETED") runs)
        (length runs) none none

  unfoldable pub abandonment_rate : List (ParticipantRunData F) → MetricRow F
  unfolding rate_row
  abandonment_rate runs =
      rate_row "task_success" "abandonment_rate" (count_if (has_status "ABANDONED") runs)
        (length runs) none none

  unfoldable pub backtrack_rate : List (ParticipantRunData F) → MetricRow F
  unfolding rate_row
  backtrack_rate runs =
      rate_row "friction" "backtrack_rate" (count_if went_back runs) (length runs) none none

  -- One participant in the loop of `_dead_end_rates`.
  unfoldable pub reach_run : Reached → ParticipantRunData F → Reached
  unfolding enter_all note
  reach_run s r =
      let last =
        enter_all r.id (record { groups = s.reached; last_seq = negsuc 0; last_screen = none })
          r.observations in
      record {
        reached = last.groups;
        stuck = elim last.last_screen [
          | none ↦ s.stuck
          | some screen_id ↦
              if has_status "COMPLETED" r then s.stuck else note s.stuck screen_id r.id
        ];
      }

  unfoldable pub reach_runs : Reached → List (ParticipantRunData F) → Reached
  unfolding reach_run
  reach_runs s [] = s
  reach_runs s (r ∷ runs) = reach_runs (reach_run s r) runs

  -- A rate for each key of `whole` that has members: those of `part` among them.
  unfoldable pub group_rates : (ℕ → ℕ → ℕ → MetricRow F) → Groups → Groups → List (MetricRow F)
  group_rates row part [] = []
  group_rates row part ((key, ids) ∷ whole) =
      let rest = group_rates row part whole in
      if length ids == 0 then rest else row (length (members part key)) (length ids) key ∷ rest

  unfoldable pub dead_end_rates : List (ParticipantRunData F) → List (MetricRow F)
  unfolding reach_runs group_rates rate_row
  dead_end_rates runs =
      let s = reach_runs (record { reached = []; stuck = [] }) runs in
      group_rates
        (λ count n screen_id. rate_row "friction" "dead_end_rate" count n none (some screen_id))
        s.stuck s.reached
