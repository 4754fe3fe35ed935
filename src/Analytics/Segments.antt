-- ===== src/Analytics/Segments.antt =====
-- `AnalyticsEngine.compute_segments` of app/services/analytics_engine.py. `mean` of Python's floats is a
-- parameter.
use Prim.Native.String.{◌++◌ as ◌<>◌}
use Prim.Native.Char.{code}
use syn_koala.Prelude.{
  ℕ, String, ℤ, pos, ltb_ℤ, ◌+ℤ◌, Bool, true, false, not, ◌&&◌, Option, none, some, List, [], ◌∷◌,
  ◌++◌, if◌then◌else◌, ltb, str_eq, map, any, select, count_if, length, is_nonempty, contains,
  string_eq, nat_eq, lookup, dedup,
}
use syn_koala.Platform.{Platform}
use syn_koala.Analytics.Metrics.{
  is_action, ObservationRow, ParticipantRunData, ratio, has_status, went_back,
}
use syn_koala.Analytics.Elements.{FirstGaze, dwell_of}

pub record SegmentRow (F : Type 0) : Type 0 where
  pub segment : String
  pub metric : String
  pub value : F
  pub sample_size : ℕ

-- `sorted` on texts, which compares code points
abbrev is_before : String → String → Bool
is_before String.[] t = true
is_before (String.◌∷◌ c s) String.[] = false
is_before (String.◌∷◌ c s) (String.◌∷◌ d t) =
    let rest = is_before s t in
    if ltb (code c) (code d) then true else if ltb (code d) (code c) then false else rest

abbrev insert : String → List String → List String
insert s [] = s ∷ []
insert s (t ∷ ts) = let rest = insert s ts in if is_before s t then s ∷ t ∷ ts else t ∷ rest

unfoldable pub sorted : List String → List String
sorted [] = []
sorted (s ∷ ss) = insert s (sorted ss)

-- `_first_gaze_element`
unfoldable pub first_gaze : Option FirstGaze → List ObservationRow → Option FirstGaze
first_gaze best [] = best
first_gaze best (obs ∷ rest) =
    if not (str_eq obs.type "GAZE") then first_gaze best rest else elim obs.element_id [
      | none ↦ first_gaze best rest
      | some element_id ↦
          let here : FirstGaze = record { seq = obs.sequence_no; element_id = element_id } in
          elim best [
            | none ↦ first_gaze (some here) rest
            | some first ↦
                if ltb_ℤ obs.sequence_no first.seq
                then first_gaze (some here) rest
                else first_gaze (some first) rest
          ]
    ]

abbrev pub gazes_first_on : {F : Type 0} → List ℕ → ParticipantRunData F → Bool
gazes_first_on critical r = elim (first_gaze none r.observations) [
  | none ↦ false
  | some first ↦ contains critical first.element_id
]

module _ (p : Platform) (mean : List p.F → p.F) where
  open p use {F, ◌⊘◌, of_int, lit, lt, le}

  abbrev has_click : ParticipantRunData F → Bool
  has_click r =
      any (λ o. is_action o.type && elim o.element_id [ none ↦ false | some e ↦ true ])
        r.observations

  abbrev pub task_times : List (ParticipantRunData F) → List F
  task_times [] = []
  task_times (r ∷ runs) =
      let rest = task_times runs in elim r.task_time_ms [ none ↦ rest | some t ↦ t ∷ rest ]

  dwell_in : List ObservationRow → ℤ
  unfolding ◌+ℤ◌
  dwell_in [] = pos 0
  dwell_in (o ∷ os) =
      let rest = dwell_in os in if str_eq o.type "GAZE" then dwell_of o +ℤ rest else rest

  dwell_of_all : List (ParticipantRunData F) → ℤ
  unfolding dwell_in ◌+ℤ◌
  dwell_of_all [] = pos 0
  dwell_of_all (r ∷ runs) = dwell_in r.observations +ℤ dwell_of_all runs

  -- The rows that a segment always has.
  unfoldable pub rate_values : String → List (ParticipantRunData F) → List (SegmentRow F)
  unfolding is_action
  rate_values label runs =
      let n = length runs in
      map
        (λ (e : String × ℕ). record {
          segment = label;
          metric = e.0;
          value = ratio p e.1 n;
          sample_size = n;
        })
        (("completion_rate", count_if (has_status p "COMPLETED") runs)
          ∷ ("abandonment_rate", count_if (has_status p "ABANDONED") runs)
          ∷ ("backtrack_rate", count_if (went_back p) runs)
          ∷ ("click_rate", count_if has_click runs)
          ∷ [])

  unfoldable pub time_values : String → List F → List (SegmentRow F)
  time_values label [] = []
  time_values label (t ∷ ts) =
      record {
        segment = label;
        metric = "task_time_ms";
        value = mean (t ∷ ts);
        sample_size = length (t ∷ ts);
      }
      ∷ []

  unfoldable pub dwell_values : String → ℕ → ℤ → List (SegmentRow F)
  dwell_values label n total =
      if ltb_ℤ (pos 0) total
      then record {
        segment = label;
        metric = "attention_dwell_ms";
        value = of_int total ⊘ of_int (pos n);
        sample_size = n;
      }
        ∷ []
      else []

  unfoldable pub first_values : String → List ℕ → List (ParticipantRunData F) → List (SegmentRow F)
  unfolding first_gaze
  first_values label [] runs = []
  first_values label (c ∷ critical) runs =
      record {
        segment = label;
        metric = "first_attention_rate";
        value = ratio p (count_if (gazes_first_on (c ∷ critical)) runs) (length runs);
        sample_size = length runs;
      }
      ∷ []

  -- `_segment_aggregate_values`, with the label of the segment
  unfoldable pub segment_aggregate_values :
      String → List (ParticipantRunData F) → List ℕ → List (SegmentRow F)
  unfolding rate_values time_values dwell_values first_values dwell_of_all
  segment_aggregate_values label runs critical =
      rate_values label runs
      ++ (time_values label (task_times runs)
          ++ (dwell_values label (length runs) (dwell_of_all runs)
              ++ first_values label critical runs))

  abbrev pub trait_of : String → List (String × F) → F
  trait_of trait traits = elim (lookup traits trait) [ none ↦ lit 0 | some x ↦ x ]

  -- `r.traits and r.traits.get(trait, 0.0) < SEGMENT_THRESHOLD`, and `>=`
  abbrev traits_or_none : ParticipantRunData F → List (String × F)
  traits_or_none r = elim r.traits [ none ↦ [] | some traits ↦ traits ]

  abbrev pub is_low : String → ParticipantRunData F → Bool
  is_low trait r = is_nonempty (traits_or_none r) && lt (trait_of trait (traits_or_none r)) (lit 50)

  abbrev pub is_high : String → ParticipantRunData F → Bool
  is_high trait r =
      is_nonempty (traits_or_none r) && le (lit 50) (trait_of trait (traits_or_none r))

  unfoldable pub segment_rows : String → List (ParticipantRunData F) → List ℕ → List (SegmentRow F)
  unfolding segment_aggregate_values
  segment_rows label [] critical = []
  segment_rows label (r ∷ runs) critical = segment_aggregate_values label (r ∷ runs) critical

  unfoldable pub trait_segments :
      List (ParticipantRunData F) → List ℕ → List String → List (SegmentRow F)
  unfolding segment_rows
  trait_segments runs critical [] = []
  trait_segments runs critical (trait ∷ traits) =
      segment_rows (trait <> "_low") (select (is_low trait) runs) critical
      ++ (segment_rows (trait <> "_high") (select (is_high trait) runs) critical
          ++ trait_segments runs critical traits)

  abbrev trait_keys : List (ParticipantRunData F) → List String
  trait_keys [] = []
  trait_keys (r ∷ runs) = map (λ e. e.0) (traits_or_none r) ++ trait_keys runs

  unfoldable pub compute_segments : List (ParticipantRunData F) → List ℕ → List (SegmentRow F)
  unfolding trait_segments sorted
  compute_segments runs critical = trait_segments runs critical (sorted (dedup (trait_keys runs)))
