-- ===== src/Analytics/Scans.antt =====
-- The scan of `_element_interaction_metrics` of app/services/analytics_engine.py: the participants that it
-- counts are among those that it counts them against.
use syn_koala.Prelude.{
  ℕ, ◌+◌, ◌≤◌, ◌≡◌, ◌⊎◌, refl, sym, ◌∙◌, arith, ℤ, ltb_ℤ, true, some, List, [], ◌∷◌, ◌==◌, ==_iff,
  leb, str_eq, contains, nat_eq, length, get, put, get-put, All, All-map, Bool-cases, Option-cases,
  inl, inr,
}
use syn_koala.Platform.{Platform}
use syn_koala.Analytics.Metrics.{is_action, ObservationRow, Groups, members, note}
use syn_koala.Analytics.Groups.{note-keeps, note-adds}
use syn_koala.Analytics.Tracks.{HasKeysOnce, Tracks, Tracks-grows, note-Tracks, note-HasKeysOnce}
use syn_koala.Analytics.Elements.{
  RunScan, Scan, FirstGaze, earliest, note_keys, note_repeated, scan_gaze, scan_action,
  scan_observation, scan_observations,
}

put-All :
    {V : Type 0} (P : ℕ → Type 0) (d : List (ℕ × V)) (k : ℕ) (v : V)
    → All (λ e. P e.0) d
    → P k
    → All (λ e. P e.0) (put d k v)
put-All P [] k v all h = (h, tt)
put-All P ((j, w) ∷ d) k v (first, all) h = elim (Bool-cases (j == k)) [
  | inl e ↦ rw e (first, all)
  | inr e ↦ rw e (first, put-All P d k v all h)
]

length-put-le : {V : Type 0} (d : List (ℕ × V)) (k : ℕ) (v : V) → length (put d k v) ≤ length d + 1
length-put-le [] k v = omega arith
length-put-le ((j, w) ∷ d) k v = ground (arith, length-put-le d k v)

length-put_old :
    {V : Type 0} (d : List (ℕ × V)) (k : ℕ) (v w : V)
    → get d k ≡ some w
    → length (put d k v) ≡ length d
length-put_old [] k v w h = cc
length-put_old ((j, x) ∷ d) k v w h = elim (Bool-cases (j == k)) [
  | inl e ↦ rw e refl
  | inr e ↦ let rest = length-put_old d k v w (rw e at h) in rw e (omega (arith, rest))
]

-- One entry for each participant so far, and perhaps one for the participant at hand.
abbrev pub IsCounted : ℕ → ℕ → List (ℕ × FirstGaze) → Type 0
IsCounted run_id n firsts =
    (length firsts ≤ n) ⊎ ((length firsts ≤ n + 1) × (g : FirstGaze) × (get firsts run_id ≡ some g))

earliest-IsCounted :
    (run_id n : ℕ) (firsts : List (ℕ × FirstGaze)) (seq : ℤ) (element_id : ℕ)
    → IsCounted run_id n firsts
    → IsCounted run_id n (earliest firsts run_id seq element_id)
unfolding earliest
earliest-IsCounted run_id n firsts seq element_id h = elim (Option-cases (get firsts run_id)) [
  | inl e ↦
      rw (e, earliest)
        (elim h [
          | inl le ↦ inr (
            omega (arith, le, length-put-le firsts run_id g),
            g,
            get-put firsts run_id run_id g ∙ rw ((==_iff run_id run_id).1 refl) refl,
          )
          | inr (le, old, there) ↦ cc (sym e ∙ there)
        ])
  | inr (best, e) ↦ elim (Bool-cases (ltb_ℤ seq best.seq)) [
    | inr later ↦ rw (e, earliest) (rw later h)
    | inl earlier ↦
        rw (e, earliest)
          (rw earlier (elim h [
            | inl le ↦ inl (omega (arith, le, length-put_old firsts run_id g best e))
            | inr (le, old, there) ↦ inr (
              omega (arith, le, length-put_old firsts run_id g best e),
              g,
              get-put firsts run_id run_id g ∙ rw ((==_iff run_id run_id).1 refl) refl,
            )
          ]))
  ]
]
  where
    g : FirstGaze
    g = record { seq = seq; element_id = element_id }

module _ (whole : Groups) (id : ℕ) where
  abbrev IsIn : ℕ → Type 0
  IsIn k = contains (members whole k) id ≡ true

  pub note_keys-Tracks :
      (counts : List (ℕ × ℕ)) (part : Groups)
      → All (λ e. IsIn e.0) counts
      → Tracks part whole
      → Tracks (note_keys id counts part) whole
  unfolding note_keys
  note_keys-Tracks [] part all t = t
  note_keys-Tracks ((k, n) ∷ counts) part (here, all) t =
      note_keys-Tracks counts (note part k id) all (note-Tracks part whole k id here t)

  pub note_repeated-Tracks :
      (counts : List (ℕ × ℕ)) (part : Groups)
      → All (λ e. IsIn e.0) counts
      → Tracks part whole
      → Tracks (note_repeated id counts part) whole
  unfolding note_repeated
  note_repeated-Tracks [] part all t = t
  note_repeated-Tracks ((k, n) ∷ counts) part (here, all) t = elim (Bool-cases (leb 2 n)) [
    | inl e ↦
        rw (e, note_repeated)
          (note_repeated-Tracks counts (note part k id) all (note-Tracks part whole k id here t))
    | inr e ↦ rw (e, note_repeated) (note_repeated-Tracks counts part all t)
  ]

module _ (p : Platform) where
  -- What holds after every observation: of the families, and of the participant at hand.
  pub record IsScanned (run_id n : ℕ) (r : RunScan) (s : Scan p.F) : Type 0 where
    pub clicks : Tracks s.interacted s.exposed
    pub repeats : Tracks s.interacted_2plus s.exposed
    pub revisits : Tracks s.gazed_2plus s.gazed
    pub exposed_keys : HasKeysOnce s.exposed
    pub gazed_keys : HasKeysOnce s.gazed
    pub acted : All (λ e. contains (members s.exposed e.0) run_id ≡ true) r.interaction_counts
    pub looked : All (λ e. contains (members s.gazed e.0) run_id ≡ true) r.gaze_counts
    pub first : IsCounted run_id n s.first_gaze

  module _ (run_id n : ℕ) where
    expose-IsScanned :
        (element_id : ℕ) (r : RunScan) (s : Scan p.F)
        → IsScanned run_id n r s
        → IsScanned run_id n r (record s { exposed = note s.exposed element_id run_id })
    expose-IsScanned element_id r s h = record {
      clicks = Tracks-grows s.interacted s.exposed element_id run_id h.clicks;
      repeats = Tracks-grows s.interacted_2plus s.exposed element_id run_id h.repeats;
      revisits = h.revisits;
      exposed_keys = note-HasKeysOnce s.exposed element_id run_id h.exposed_keys;
      gazed_keys = h.gazed_keys;
      acted =
          All-map (λ e. contains (members s.exposed e.0) run_id ≡ true)
            (λ e. contains (members (note s.exposed element_id run_id) e.0) run_id ≡ true)
            (λ e i. note-keeps s.exposed element_id run_id e.0 run_id i) r.interaction_counts
            h.acted;
      looked = h.looked;
      first = h.first;
    }

    scan_gaze-IsScanned :
        (element_id : ℕ) (obs : ObservationRow) (r : RunScan) (s : Scan p.F)
        → IsScanned run_id n r s
        → let next = scan_gaze p run_id element_id obs (r, s) in IsScanned run_id n next.0 next.1
    unfolding scan_gaze
    scan_gaze-IsScanned element_id obs r s h = record {
      clicks = h.clicks;
      repeats = h.repeats;
      revisits = Tracks-grows s.gazed_2plus s.gazed element_id run_id h.revisits;
      exposed_keys = h.exposed_keys;
      gazed_keys = note-HasKeysOnce s.gazed element_id run_id h.gazed_keys;
      acted = h.acted;
      looked =
          put-All (λ k. contains (members (note s.gazed element_id run_id) k) run_id ≡ true)
            r.gaze_counts element_id _
            (All-map (λ e. contains (members s.gazed e.0) run_id ≡ true)
              (λ e. contains (members (note s.gazed element_id run_id) e.0) run_id ≡ true)
              (λ e i. note-keeps s.gazed element_id run_id e.0 run_id i) r.gaze_counts h.looked)
            (note-adds s.gazed element_id run_id);
      first = earliest-IsCounted run_id n s.first_gaze obs.sequence_no element_id h.first;
    }

    scan_action-IsScanned :
        (element_id : ℕ) (obs : ObservationRow) (r : RunScan) (s : Scan p.F)
        → contains (members s.exposed element_id) run_id ≡ true
        → IsScanned run_id n r s
        → let next = scan_action p element_id obs (r, s) in IsScanned run_id n next.0 next.1
    unfolding scan_action
    scan_action-IsScanned element_id obs r s there h = record {
      clicks = h.clicks;
      repeats = h.repeats;
      revisits = h.revisits;
      exposed_keys = h.exposed_keys;
      gazed_keys = h.gazed_keys;
      acted =
          put-All (λ k. contains (members s.exposed k) run_id ≡ true) r.interaction_counts
            element_id _ h.acted there;
      looked = h.looked;
      first = h.first;
    }

    scan_observation-IsScanned :
        (obs : ObservationRow) (r : RunScan) (s : Scan p.F)
        → IsScanned run_id n r s
        → let next = scan_observation p run_id (r, s) obs in IsScanned run_id n next.0 next.1
    unfolding scan_observation
    scan_observation-IsScanned obs r s h = elim (Option-cases obs.element_id) [
      | inl nowhere ↦ rw (nowhere, scan_observation) h
      | inr (element_id, at) ↦
          let seen = record s { exposed = note s.exposed element_id run_id } in
          let h' = expose-IsScanned element_id r s h in
          elim (Bool-cases (str_eq obs.type "GAZE")) [
            | inl gaze ↦
                rw (at, scan_observation) (rw gaze (scan_gaze-IsScanned element_id obs r seen h'))
            | inr other ↦ elim (Bool-cases (is_action obs.type)) [
              | inl action ↦
                  rw (at, scan_observation)
                    (rw other (
                      rw action (
                        scan_action-IsScanned element_id obs r seen
                          (note-adds s.exposed element_id run_id) h')))
              | inr neither ↦ rw (at, scan_observation) (rw other (rw neither h'))
            ]
          ]
    ]

    pub scan_observations-IsScanned :
        (observations : List ObservationRow) (r : RunScan) (s : Scan p.F)
        → IsScanned run_id n r s
        → let end = scan_observations p run_id (r, s) observations in IsScanned run_id n end.0 end.1
    unfolding scan_observations
    scan_observations-IsScanned [] r s h = h
    scan_observations-IsScanned (obs ∷ rest) r s h =
        scan_observations-IsScanned rest _ _ (scan_observation-IsScanned obs r s h)
