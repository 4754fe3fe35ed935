-- ===== src/Vision/Reach.antt =====
-- `_reachable_screen_ids` of app/workers/jobs/analyze_stimulus.py against the walks along the
-- transitions.
use syn_koala.Prelude.{
  ℕ, zero, suc, ◌+◌, ◌≤◌, ◌≡◌, ◌⊎◌, refl, sym, ap, subst, arith, String, true, some, List, [], ◌∷◌,
  ◌++◌, ◌==◌, ==_iff, map, All, In, In-append_left, In-append_right, In-select, length, contains,
  nat_eq, select, count_if-le_length, not, Bool-cases, inl, inr,
}
use syn_koala.Graph.{ScreenGraph, TransitionView}
use syn_koala.Stimuli.{Screen}
use syn_koala.Analytics.Baseline.{Walk, here, along, unvisited}
use syn_koala.Vision.Edges.{
  screen_by_key, adjacency_of, enqueue_new, reach_from, reachable_screen_ids,
}
use syn_koala.Vision.Enqueue.{
  targets, neighbours-targets, Added, contains-cons, enqueue_new-Added, enqueue_new-le,
}

module _ (ts : List TransitionView) (start : ℕ) where
  abbrev along_transitions : ScreenGraph
  along_transitions = record { screens = []; transitions = ts }

  -- A walk along the transitions leads from the start to the screen.
  abbrev pub Reaches : ℕ → Type 0
  Reaches s = (n : ℕ) × Walk along_transitions start n s

  -- Every screen that is seen is reached, and waits in the queue or has its targets seen.
  record IsSearch (seen queue : List ℕ) : Type 0 where
    started : contains seen start ≡ true
    waiting : (s : ℕ) → In s queue → contains seen s ≡ true
    sound : (s : ℕ) → contains seen s ≡ true → Reaches s
    closed :
        (s : ℕ)
        → contains seen s ≡ true
        → In s queue ⊎ ((x : ℕ) → In x (targets ts s ts) → contains seen x ≡ true)

  target-Reaches :
      (edges : List TransitionView) (s x : ℕ)
      → ((t : TransitionView) → In t edges → In t ts)
      → Reaches s
      → In x (targets ts s edges)
      → Reaches x
  target-Reaches [] s x sub r i = cc
  target-Reaches (t ∷ edges) s x sub (n, w) i = elim (Bool-cases (t.from_screen_id == s)) [
    | inr other ↦ target-Reaches edges s x (λ u j. sub u (inr j)) (n, w) (rw other at i)
    | inl leaves ↦
        let from = (==_iff t.from_screen_id s).0 leaves in
        let j : In x (t.to_screen_id ∷ targets ts s edges) = rw leaves at i in
        elim j [
          | inl e ↦ (
            n + 1,
            subst (Walk along_transitions start (n + 1)) (sym e)
                (along n s t w (sub t (inl refl)) from),
          )
          | inr k ↦ target-Reaches edges s x (λ u l. sub u (inr l)) (n, w) k
        ]
  ]

  pop :
      (id : ℕ) (seen queue seen' queue' : List ℕ)
      → IsSearch seen (id ∷ queue)
      → (a : Added (targets ts id ts) seen queue seen' queue') → IsSearch seen' queue'
  pop id seen queue seen' queue' h a = record {
    started = a.grows start h.started;
    waiting = λ s i. waits s (subst (In s) a.queued i);
    sound = λ s old. elim (a.fresh s old) [
      | inl before ↦ h.sound s before
      | inr i ↦
          target-Reaches ts id s (λ t j. j) (h.sound id (h.waiting id (inl refl))) (a.from_ids s i)
    ];
    closed = λ s old. elim (a.fresh s old) [
      | inr i ↦ inl (subst (In s) (sym a.queued) (In-append_right s queue a.new i))
      | inl before ↦ elim (h.closed s before) [
        | inl (inl e) ↦ inr (λ x i. a.reached x (subst (λ y. In x (targets ts y ts)) e i))
        | inl (inr i) ↦ inl (subst (In s) (sym a.queued) (In-append_left s queue a.new i))
        | inr c ↦ inr (λ x i. a.grows x (c x i))
      ]
    ];
  }
    where
      append-cases : (s : ℕ) (xs ys : List ℕ) → In s (xs ++ ys) → In s xs ⊎ In s ys
      append-cases s [] ys i = inr i
      append-cases s (x ∷ xs) ys (inl e) = inl (inl e)
      append-cases s (x ∷ xs) ys (inr i) = elim (append-cases s xs ys i) [
        | inl j ↦ inl (inr j)
        | inr j ↦ inr j
      ]

      waits : (s : ℕ) → In s (queue ++ a.new) → contains seen' s ≡ true
      waits s i = elim (append-cases s queue a.new i) [
        | inl j ↦ a.grows s (h.waiting s (inr j))
        | inr j ↦ a.are_seen s j
      ]

  targets_are_targets :
      (id : ℕ) (edges : List TransitionView)
      → ((t : TransitionView) → In t edges → In t ts)
      → All (λ x. (t : TransitionView) × In t ts × (t.to_screen_id ≡ x)) (targets ts id edges)
  targets_are_targets id [] sub = tt
  targets_are_targets id (t ∷ edges) sub = elim (Bool-cases (t.from_screen_id == id)) [
    | inl e ↦
        rw e ((t, sub t (inl refl), refl), targets_are_targets id edges (λ u i. sub u (inr i)))
    | inr e ↦ rw e (targets_are_targets id edges (λ u i. sub u (inr i)))
  ]

  reach_from-IsSearch :
      (fuel : ℕ) (seen queue : List ℕ)
      → IsSearch seen queue
      → length queue + unvisited seen ts ≤ fuel
      → (ids : List ℕ) × (reach_from (adjacency_of [] ts) fuel seen queue ≡ some ids)
        × IsSearch ids []
  unfolding reach_from
  reach_from-IsSearch fuel seen [] h room = (seen, refl, h)
  reach_from-IsSearch zero seen (id ∷ queue) h room = absurd (omega (arith, room))
  reach_from-IsSearch (suc fuel) seen (id ∷ queue) h room =
      let adjacent = neighbours-targets ts ts [] id in
      let next = enqueue_new (targets ts id ts) seen queue in
      let (ids, found, done) =
        reach_from-IsSearch fuel next.0 next.1
          (pop id seen queue next.0 next.1 h (enqueue_new-Added (targets ts id ts) seen queue))
          (omega (
            arith,
            room,
            enqueue_new-le (targets ts id ts) seen queue ts (targets_are_targets id ts (λ t i. i)),
          )) in
      (
        ids,
        subst
            (λ xs.
              reach_from (adjacency_of [] ts) fuel (enqueue_new xs seen queue).0
                (enqueue_new xs seen queue).1
              ≡ some ids)
            (sym adjacent) found,
        done,
      )

  complete :
      (ids : List ℕ)
      → IsSearch ids []
      → (n s : ℕ) → Walk along_transitions start n s
      → contains ids s ≡ true
  complete ids h n s here = h.started
  complete ids h n s (along m a t w i from) = elim (h.closed a (complete ids h m a w)) [
    | inl waits ↦ cc
    | inr c ↦ c t.to_screen_id (
        In-map (λ u. u.to_screen_id) t (select (λ u. u.from_screen_id == a) ts)
          (In-select (λ u. u.from_screen_id == a) t ts i ((==_iff t.from_screen_id a).1 from)))
  ]
    where
      In-map :
          (f : TransitionView → ℕ) (u : TransitionView) (xs : List TransitionView)
          → In u xs
          → In (f u) (map f xs)
      In-map f u [] i = cc
      In-map f u (x ∷ xs) (inl e) = inl (ap f e)
      In-map f u (x ∷ xs) (inr i) = inr (In-map f u xs i)

-- Where a screen has the starting key, `_reachable_screen_ids` ends, with one turn of its loop for each
-- transition and one for the start, and what it returns holds exactly the screens that a walk along the
-- transitions leads to from there.
pub reachable_screen_ids-Reaches :
    (screens : List Screen) (ts : List TransitionView) (start_key : String) (start : Screen)
    → screen_by_key screens start_key ≡ some start
    → (ids : List ℕ) × (reachable_screen_ids screens ts start_key ≡ some ids)
      × ((s : ℕ) → contains ids s ≡ true → Reaches ts start.id s)
      × ((s : ℕ) → Reaches ts start.id s → contains ids s ≡ true)
unfolding reachable_screen_ids
reachable_screen_ids-Reaches screens ts start_key start known =
    let seen : contains (start.id ∷ []) start.id ≡ true = ground arith in
    let (ids, found, h) =
      reach_from-IsSearch ts start.id (suc (length ts)) (start.id ∷ []) (start.id ∷ [])
        (record {
          started = seen;
          waiting = λ s i. elim i [
            | inl e ↦ subst (λ u. contains (start.id ∷ []) u ≡ true) (sym e) seen
            | inr j ↦ cc
          ];
          sound = λ s old. elim (contains-cons start.id s [] old) [
            | inl e ↦ (0, subst (Walk (along_transitions ts start.id) start.id 0) e here)
            | inr none_seen ↦ cc
          ];
          closed = λ s old. elim (contains-cons start.id s [] old) [
            | inl e ↦ inl (inl (sym e))
            | inr none_seen ↦ cc
          ];
        })
        (omega
          (arith, count_if-le_length (λ t. not (contains (start.id ∷ []) t.to_screen_id)) ts)) in
    (
      ids,
      rw (known, reachable_screen_ids) found,
      h.sound,
      λ s (n, w). complete ts start.id ids h n s w,
    )
