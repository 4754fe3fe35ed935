-- ===== src/Participant/Scores.antt =====
-- The score functions of app/agents/providers/participant_model.py.
use mathlib.Core.List.{foldl, reverse}
use syn_koala.Prelude.{
  ℕ, String, Bool, false, true, Option, none, some, List, [], ◌∷◌, ◌++◌, ◌&&◌, ◌||◌, leb, ltb_ℤ,
  if◌then◌else◌, length, get, ℤ, pos, ◌-ℤ◌, ◌+ℤ◌, ◌*ℤ◌, lookup_or, union, inter, dedup, is_nonempty,
  select, suc, map, eq_ℤ, list_or_empty, codes_eq,
}
use syn_koala.Platform.{Platform, py_max, py_min}
use syn_koala.Graph.{ElementView, ScreenView, TaskContext}
use syn_koala.Participant.{
  ActionType, type_text, ActionEntry, ParticipantState, AttentionDecision, SimulationContext,
  has_role, targets, action_beq,
}

-- `re.split(r"[^a-z0-9]+", text)`: the runs of letters and digits. The empty runs are dropped below.
is_token_char : ℕ → Bool
is_token_char c = (leb b'a' c && leb c b'z') || (leb b'0' c && leb c b'9')

pub split_tokens : List ℕ → List ℕ → List (List ℕ)
unfolding is_token_char
split_tokens run [] = run ∷ []
split_tokens run (c ∷ cs) = elim (is_token_char c) [
  | true ↦ split_tokens (run ++ c ∷ []) cs
  | false ↦ run ∷ split_tokens [] cs
]

-- `value or default`
abbrev pub or_default : Option ℤ → ℤ → ℤ
or_default none d = d
or_default (some n) d = if eq_ℤ n (pos 0) then d else n

-- `max(1, n)`
abbrev at_least_one : ℤ → ℤ
at_least_one n = if ltb_ℤ (pos 1) n then n else pos 1

type_bonuses : List (String × ℕ)
type_bonuses = ("button", 15) ∷ ("image", 10) ∷ ("input", 5) ∷ []

-- `reversed(action_history)`: the newest entries that repeat this action, newest first.
leading_repeats : ActionType → ℕ → List ActionEntry → ℕ
leading_repeats a element_id [] = 0
leading_repeats a element_id (entry ∷ older) =
    let more = leading_repeats a element_id older in
    if action_beq entry.action a && targets entry.target element_id then suc more else 0

module _ (p : Platform) where
  open p use {F, lit, of_int, ◌⊕◌, ◌⊖◌, ◌⊗◌, ◌⊘◌, lower}

  pub clip : F → F
  unfolding py_max py_min
  clip value = py_max p (lit 0) (py_min p (lit 100) value)

  tokenize : Option String → List (List ℕ)
  unfolding split_tokens
  tokenize none = []
  tokenize (some text) = dedup (select is_nonempty (split_tokens [] (lower text)))

  pub visual_saliency : ElementView → ScreenView → F
  visual_saliency e screen =
      let (x1, y1, x2, y2) = e.bbox in
      let area = at_least_one ((x2 -ℤ x1) *ℤ (y2 -ℤ y1)) in
      let viewport_area =
        at_least_one (or_default screen.width (pos 390) *ℤ or_default screen.height (pos 844)) in
      let area_ratio = py_min p (lit 100) (of_int area ⊘ of_int viewport_area) in
      let vertical_center = of_int (y1 +ℤ y2) ⊘ of_int (pos 2) in
      let fold_bias =
        lit 100
        ⊖ lit 40
        ⊗ py_min p (lit 100)
            (vertical_center ⊘ of_int (at_least_one (or_default screen.height (pos 844)))) in
      let type_bonus = lit (lookup_or type_bonuses e.type 0) in
      let role_bonus = if has_role e "primary_action" then lit 15 else lit 0 in
      clip ((lit 25 ⊕ lit 50 ⊗ area_ratio ⊕ type_bonus ⊕ role_bonus) ⊗ fold_bias)

  -- `len(a & b) / len(a)`
  overlap : List (List ℕ) → List (List ℕ) → F
  overlap tokens wanted = of_int (pos (length (inter tokens wanted))) ⊘ of_int (pos (length tokens))

  critical_tokens : List String → List (List ℕ)
  critical_tokens [] = []
  critical_tokens (action ∷ actions) = union (tokenize (some action)) (critical_tokens actions)

  element_tokens : ElementView → List (List ℕ)
  element_tokens e =
      union (union (tokenize e.text) (tokenize e.semantic_role)) (tokenize (some e.element_key))

  pub task_relevance : ElementView → TaskContext → F
  task_relevance e task =
      let tokens = element_tokens e in
      let critical = critical_tokens (list_or_empty task.expected_critical_actions) in
      let instruction_overlap = overlap tokens (tokenize (some task.instruction)) in
      let critical_overlap = if is_nonempty critical then overlap tokens critical else lit 0 in
      let role_bonus = if has_role e "primary_action" then lit 25 else lit 0 in
      if is_nonempty tokens
      then clip (lit 15 ⊕ lit 35 ⊗ instruction_overlap ⊕ lit 50 ⊗ critical_overlap ⊕ role_bonus)
      else lit 10

  pub trait : List (String × F) → String → F
  trait traits key = lookup_or traits key (lit 50)

  pub persona_relevance : ElementView → List (String × F) → F
  persona_relevance e traits =
      let exploration = trait traits "exploration" in
      let goal_directedness = trait traits "goal_directedness" in
      let familiarity = trait traits "product_familiarity" in
      clip (
        if has_role e "primary_action"
        then lit 40 ⊕ lit 50 ⊗ goal_directedness
        else if has_role e "navigation" || (has_role e "help" || has_role e "info")
        then lit 50 ⊗ exploration ⊗ (lit 100 ⊖ lit 50 ⊗ familiarity) ⊕ lit 15
        else lit 30 ⊕ lit 40 ⊗ exploration)

  pub state_relevance : ElementView → ParticipantState F → F
  state_relevance e state =
      let visits : ℕ = elim (get state.element_visit_counts e.id) [ none ↦ 0 | some n ↦ n ] in
      let habituation_penalty = py_min p (lit 60) (lit 20 ⊗ of_int (pos visits)) in
      let continuity_bonus = if targets state.attention_target e.id then lit 20 else lit 0 in
      clip (lit 50 ⊕ continuity_bonus ⊖ habituation_penalty)

  pub record AttentionWeights : Type 0 where
    pub visual : F
    pub task : F
    pub persona : F
    pub state : F

  pub attention_weights : List (String × F) → AttentionWeights
  attention_weights traits = record {
    visual = lit 25 ⊕ lit 15 ⊗ trait traits "exploration";
    task = lit 25 ⊕ lit 35 ⊗ trait traits "goal_directedness";
    persona = lit 20;
    state = lit 15;
  }

  pub repeat_penalty : ParticipantState F → ActionType → ℕ → F
  repeat_penalty state a element_id =
      py_min p (lit 60)
        (lit 25 ⊗ of_int (pos (leading_repeats a element_id (reverse state.action_history))))

  pub action_utility : ActionType → F → F → List (String × F) → ParticipantState F → F → F
  action_utility a attention_score task_score traits state penalty =
      let base =
        lit 40
        ⊗ attention_score
        ⊕ lit 50
        ⊗ task_score
        ⊕ lit 10
        ⊗ (of_int (pos 1) ⊖ state.uncertainty) in
      let base' = if action_beq a type_text then base ⊕ lit 10 else base in
      let urgency =
        lit 20
        ⊗ trait traits "goal_directedness"
        ⊖ lit 10
        ⊗ (of_int (pos 1) ⊖ trait traits "patience") in
      clip (base' ⊕ urgency ⊖ penalty)

  pub action_confidence : List (String × F) → ParticipantState F → F → F
  action_confidence traits state task_score = clip (
      lit 30
      ⊕ lit 40
      ⊗ trait traits "digital_confidence"
      ⊕ lit 30
      ⊗ task_score
      ⊖ lit 20
      ⊗ state.uncertainty)

  -- `max(scores, default=0.0)`
  max_attention : Option (AttentionDecision F) → F
  max_attention none = lit 0
  max_attention (some d) = max_or (lit 0) (map (λ c. c.attention_score) d.candidates)
    where
      max_or : F → List F → F
      max_or default [] = default
      max_or default (x ∷ xs) = foldl (py_max p) x xs

  pub scroll_utility : SimulationContext F → F
  scroll_utility context = clip (
      lit 50
      ⊗ trait context.participant.traits "exploration"
      ⊕ lit 30
      ⊗ (of_int (pos 1) ⊖ max_attention context.attention)
      ⊕ lit 20
      ⊗ context.state.uncertainty)

  pub back_utility : SimulationContext F → F
  back_utility context =
      let dead_end_pressure =
        py_min p (lit 100) (of_int (pos context.state.dead_end_count) ⊘ of_int (pos 3)) in
      clip (
        lit 20
        ⊕ lit 40
        ⊗ context.state.uncertainty
        ⊕ lit 20
        ⊗ (of_int (pos 1) ⊖ trait context.participant.traits "patience")
        ⊕ lit 10
        ⊗ dead_end_pressure)
