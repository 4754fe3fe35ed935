-- ===== src/Analytics/DeadEnds.antt =====
-- `_dead_end_rates` of app/services/analytics_engine.py: the participants who were left on a screen are
-- among those who reached it.
use mathlib.Core.Option.{some-injective}
use syn_koala.Prelude.{
  ℕ, ◌≡◌, refl, subst, negsuc, ltb_ℤ, true, Option, none, some, List, [], ◌∷◌, if◌then◌else◌,
  str_eq, contains, nat_eq, All, Bool-cases, Option-cases, inl, inr,
}
use syn_koala.Platform.{Platform}
use syn_koala.Analytics.Metrics.{
  ObservationRow, ParticipantRunData, Groups, members, note, Reached, LastScreen, enter, enter_all,
  has_status, reach_run, reach_runs, rate_row, dead_end_rates,
}
use syn_koala.Analytics.Groups.{note-keeps, note-adds}
use syn_koala.Analytics.Tracks.{
  HasKeysOnce, Tracks, Tracks-grows, note-Tracks, note-HasKeysOnce, Tracks-le, IsRate,
  rate_row-IsRate, group_rates-IsRate,
}

module _ (stuck : Groups) (run_id : ℕ) where
  record IsEntered (s : LastScreen) : Type 0 where
    tracks : Tracks stuck s.groups
    keys : HasKeysOnce s.groups
    last : (k : ℕ) → s.last_screen ≡ some k → contains (members s.groups k) run_id ≡ true

  enter-IsEntered :
      (s : LastScreen) (obs : ObservationRow) → IsEntered s → IsEntered (enter run_id s obs)
  unfolding enter
  enter-IsEntered s obs h = elim (Bool-cases (str_eq obs.type "SCREEN_ENTER")) [
    | inr e ↦ rw e h
    | inl e ↦ elim (Option-cases obs.screen_id) [
      | inl nowhere ↦ rw e (rw (nowhere, enter) h)
      | inr (k, at) ↦ elim (Bool-cases (ltb_ℤ s.last_seq obs.sequence_no)) [
        | inl later ↦ rw e (
            rw (at, enter)
              (rw later (record {
                tracks = Tracks-grows stuck s.groups k run_id h.tracks;
                keys = note-HasKeysOnce s.groups k run_id h.keys;
                last = λ j same.
                    subst (λ i. contains (members (note s.groups k run_id) i) run_id ≡ true)
                      (some-injective k j same) (note-adds s.groups k run_id);
              })))
        | inr earlier ↦ rw e (
            rw (at, enter)
              (rw earlier (record {
                tracks = Tracks-grows stuck s.groups k run_id h.tracks;
                keys = note-HasKeysOnce s.groups k run_id h.keys;
                last = λ j same. note-keeps s.groups k run_id j run_id (h.last j same);
              })))
      ]
    ]
  ]

  enter_all-IsEntered :
      (s : LastScreen) (observations : List ObservationRow)
      → IsEntered s
      → IsEntered (enter_all run_id s observations)
  unfolding enter_all
  enter_all-IsEntered s [] h = h
  enter_all-IsEntered s (obs ∷ rest) h =
      enter_all-IsEntered (enter run_id s obs) rest (enter-IsEntered s obs h)

module _ (p : Platform) where
  record IsReached (s : Reached) : Type 0 where
    tracks : Tracks s.stuck s.reached
    keys : HasKeysOnce s.reached

  reach_run-IsReached :
      (s : Reached) (r : ParticipantRunData p.F) → IsReached s → IsReached (reach_run p s r)
  unfolding reach_run
  reach_run-IsReached s r h = left last_of.last_screen (λ k e. entered.last k e)
    where
      start : LastScreen
      start = record { groups = s.reached; last_seq = negsuc 0; last_screen = none }

      last_of : LastScreen
      last_of = enter_all r.id start r.observations

      entered : IsEntered s.stuck r.id last_of
      entered =
          enter_all-IsEntered s.stuck r.id start r.observations
            (record { tracks = h.tracks; keys = h.keys; last = λ k e. cc })

      left :
          (o : Option ℕ)
          → ((k : ℕ) → o ≡ some k → contains (members last_of.groups k) r.id ≡ true)
          → IsReached (record {
            reached = last_of.groups;
            stuck = elim o [
              | none ↦ s.stuck
              | some screen_id ↦
                  if has_status p "COMPLETED" r then s.stuck else note s.stuck screen_id r.id
            ];
          })
      left none there = record { tracks = entered.tracks; keys = entered.keys }
      left (some k) there = elim (Bool-cases (has_status p "COMPLETED" r)) [
        | inl e ↦ rw e (record { tracks = entered.tracks; keys = entered.keys })
        | inr e ↦ rw e (record {
          tracks = note-Tracks s.stuck last_of.groups k r.id (there k refl) entered.tracks;
          keys = entered.keys;
        })
      ]

  reach_runs-IsReached :
      (s : Reached) (runs : List (ParticipantRunData p.F))
      → IsReached s
      → IsReached (reach_runs p s runs)
  unfolding reach_runs
  reach_runs-IsReached s [] h = h
  reach_runs-IsReached s (r ∷ runs) h =
      reach_runs-IsReached (reach_run p s r) runs (reach_run-IsReached s r h)

  pub dead_end_rates-IsRate :
      (runs : List (ParticipantRunData p.F)) → All (IsRate p) (dead_end_rates p runs)
  unfolding dead_end_rates
  dead_end_rates-IsRate runs =
      let h =
        reach_runs-IsReached (record { reached = []; stuck = [] }) runs
          (record { tracks = record { sub = λ k x i. i; once = λ k. tt }; keys = tt }) in
      group_rates-IsRate p
        (λ count n screen_id. rate_row p "friction" "dead_end_rate" count n none (some screen_id)) _
        _
        (λ count n key le one.
          rate_row-IsRate p "friction" "dead_end_rate" count n none (some key) le one)
        (Tracks-le _ _ h.keys h.tracks)
