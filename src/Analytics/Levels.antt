-- ===== src/Analytics/Levels.antt =====
-- The levels of the breadth-first search of app/services/analytics_engine.py: the queue holds screens
-- of one distance, then of the next.
use syn_koala.Prelude.{
  ℕ, zero, suc, ◌+◌, ◌≤◌, ◌≡◌, ◌⊎◌, refl, sym, ap, subst, ◌∙◌, arith, String, Bool, true, false,
  Option, none, some, List, [], ◌∷◌, ◌++◌, contains, nat_eq, Bool-cases, inl, inr, ◌==◌, ==_iff,
  leb, leb→le, dedup, list_or_empty, string_eq, get, is_nonempty, any, inter, length, Option-cases,
  In, In-append_left, In-append_right, In-select,
}
use mathlib.Core.List.{append_assoc, map-append, append-nil}
use mathlib.Core.Option.{some-injective}
use syn_koala.Graph.{ScreenGraph, ScreenView, TransitionView, transitions_from}
use syn_koala.Simulation.Conditions.{element_names}
use syn_koala.Analytics.{Visit, hit, onward, has_critical, search, shortest_path_baseline}
use syn_koala.Analytics.Baseline.{Walk, here, along, IsAttained, shortest_path_baseline-IsAttained}
use syn_koala.Analytics.Shortest.{tagged, Grown, Grows, visit-Grows}

le_or_gt : (m h : ℕ) → (m ≤ h) ⊎ (h + 1 ≤ m)
le_or_gt m h = elim (Bool-cases (leb m h)) [
  | inl e ↦ inl (leb→le m h e)
  | inr e ↦ inr (ground arith)
]

module _ (graph : ScreenGraph) (critical : List String) (start : ℕ) where
  -- Every transition of the screen leads to a visited screen.
  abbrev IsClosed : List ℕ → ℕ → Type 0
  IsClosed visited s =
      (t : TransitionView)
      → In t graph.transitions
      → t.from_screen_id ≡ s
      → contains visited t.to_screen_id ≡ true

  -- The queue is `front`, at a distance of `hops`, and then `back`, one further.
  record Level (hops : ℕ) (visited front back : List ℕ) : Type 0 where
    plain : (s : ℕ) → contains visited s ≡ true → has_critical graph critical s ≡ false
    open_or_closed :
        (s : ℕ) → contains visited s ≡ true → IsClosed visited s ⊎ (In s front ⊎ In s back)
    covers :
        (m s : ℕ)
        → Walk graph start m s
        → m ≤ hops
        → (contains visited s ≡ true) × (IsClosed visited s ⊎ In s front)

  -- The screens at the front are done, and the next level is covered.
  shift :
      (hops : ℕ) (visited back : List ℕ)
      → Level hops visited [] back
      → Level (hops + 1) visited back []
  shift hops visited back l = record {
    plain = l.plain;
    open_or_closed = λ s h. elim (l.open_or_closed s h) [
      | inl c ↦ inl c
      | inr (inl i) ↦ cc
      | inr (inr i) ↦ inr (inl i)
    ];
    covers = covered;
  }
    where
      waits :
          (s : ℕ)
          → contains visited s ≡ true
          → (contains visited s ≡ true) × (IsClosed visited s ⊎ In s back)
      waits s h = (
        h,
        elim (l.open_or_closed s h) [ inl c ↦ inl c | inr (inl i) ↦ cc | inr (inr i) ↦ inr i ],
      )

      covered :
          (m s : ℕ)
          → Walk graph start m s
          → m ≤ hops + 1
          → (contains visited s ≡ true) × (IsClosed visited s ⊎ In s back)
      covered m s here h = waits s (l.covers 0 start here (omega arith)).0
      covered m s (along n a t w i from) h = elim (l.covers n a w (omega (arith, h))).1 [
        | inl c ↦ waits t.to_screen_id (c t i from)
        | inr i' ↦ cc
      ]

  -- One turn of the loop takes the first screen of the front.
  pop :
      (hops s₀ : ℕ) (visited front back : List ℕ) (queue : List (ℕ × ℕ)) (visited' : List ℕ)
      (queue' : List (ℕ × ℕ))
      → Level hops visited (s₀ ∷ front) back
      → (g : Grown graph critical
          (hops + 1)
          (transitions_from graph s₀)
          visited
          queue
          visited'
          queue')
      → Level hops visited' front (back ++ g.new)
  unfolding transitions_from
  pop hops s₀ visited front back queue visited' queue' l g = record {
    plain = λ s h. elim (g.plain s h) [ inl old ↦ l.plain s old | inr e ↦ e ];
    open_or_closed = λ s h. elim (g.fresh s h) [
      | inr i ↦ inr (inr (In-append_right s back g.new i))
      | inl old ↦ elim (l.open_or_closed s old) [
        | inl c ↦ inl (still s c)
        | inr (inl (inl same)) ↦ inl (done s same)
        | inr (inl (inr i)) ↦ inr (inl i)
        | inr (inr i) ↦ inr (inr (In-append_left s back g.new i))
      ]
    ];
    covers = λ m s w h. (
      g.grows s (l.covers m s w h).0,
      elim (l.covers m s w h).1 [
        | inl c ↦ inl (still s c)
        | inr (inl same) ↦ inl (done s same)
        | inr (inr i) ↦ inr i
      ],
    );
  }
    where
      still : (s : ℕ) → IsClosed visited s → IsClosed visited' s
      still s c t i from = g.grows t.to_screen_id (c t i from)

      done : (s : ℕ) → s ≡ s₀ → IsClosed visited' s
      done s same t i from = g.reached t (
          In-select (λ u. u.from_screen_id == s₀) t graph.transitions i
            ((==_iff t.from_screen_id s₀).1 (from ∙ same)))

  -- No walk to a critical action is shorter than the answer; where there is none, no walk leads to one.
  abbrev pub IsLeast : Option (ℕ × ℕ) → Type 0
  IsLeast none = (m s : ℕ) → Walk graph start m s → has_critical graph critical s ≡ false
  IsLeast (some (actions, screens)) =
      (m s : ℕ) → Walk graph start m s → has_critical graph critical s ≡ true → screens ≤ m

  unreachable : (hops : ℕ) (visited : List ℕ) → Level hops visited [] [] → IsLeast none
  unreachable hops visited l m s w = l.plain s (seen m s w)
    where
      seen : (m s : ℕ) → Walk graph start m s → contains visited s ≡ true
      seen m s here = (l.covers 0 start here (omega arith)).0
      seen m s (along n a t w i from) = elim (l.open_or_closed a (seen n a w)) [
        | inl c ↦ c t i from
        | inr (inl i') ↦ cc
        | inr (inr i') ↦ cc
      ]

  nearest :
      (hops : ℕ) (visited front back : List ℕ) (m s : ℕ)
      → Level hops visited front back
      → Walk graph start m s
      → has_critical graph critical s ≡ true
      → hops + 1 ≤ m
  nearest hops visited front back m s l w e = elim (le_or_gt m hops) [
    | inr far ↦ far
    | inl near ↦ cc (l.plain s (l.covers m s w near).0)
  ]

  abbrev Finds : ℕ → Option (ℕ × ℕ) → Visit → Type 0
  Finds fuel answer o =
      elim o [
        | hit next_hops ↦ some (some (next_hops + 1, next_hops))
        | onward visited' queue' ↦ search graph critical fuel visited' queue'
      ]
      ≡ some answer

  requeue :
      (hops : ℕ) (front back new : List ℕ)
      → (tagged hops front ++ tagged (hops + 1) back) ++ tagged (hops + 1) new
        ≡ tagged hops front ++ tagged (hops + 1) (back ++ new)
  requeue hops front back new =
      append_assoc (tagged hops front) _ _
      ∙ ap (λ xs. tagged hops front ++ xs) (sym (map-append (λ s. (s, hops + 1)) back new))

  -- One turn, given the rest of the search.
  turn-IsLeast :
      (fuel hops s : ℕ) (visited front back : List ℕ) (answer : Option (ℕ × ℕ))
      → ((visited' back' : List ℕ)
          → Level hops visited' front back'
          → search graph critical fuel visited' (tagged hops front ++ tagged (hops + 1) back')
            ≡ some answer
          → IsLeast answer)
      → Level hops visited (s ∷ front) back
      → (o : Visit)
      → Grows graph critical
          (hops + 1)
          (transitions_from graph s)
          visited
          (tagged hops front ++ tagged (hops + 1) back)
          o
      → Finds fuel answer o
      → IsLeast answer
  unfolding Grows
  turn-IsLeast fuel hops s visited front back answer rest l (hit n) g h =
      subst IsLeast (some-injective _ answer h)
        (λ m x w e. omega (arith, g, nearest hops visited _ back m x l w e))
  turn-IsLeast fuel hops s visited front back answer rest l (onward visited' queue') g h =
      rest visited' (back ++ g.new) (pop hops s visited front back _ visited' queue' l g) (
        subst (λ q. search graph critical fuel visited' q ≡ some answer)
          (g.queued ∙ requeue hops front back g.new) h)

  search-IsLeast :
      (fuel hops : ℕ) (visited front back : List ℕ) (answer : Option (ℕ × ℕ))
      → Level hops visited front back
      → search graph critical fuel visited (tagged hops front ++ tagged (hops + 1) back)
        ≡ some answer
      → IsLeast answer
  unfolding search
  search-IsLeast fuel hops visited [] [] answer l h =
      subst IsLeast (some-injective none answer h) (unreachable hops visited l)
  search-IsLeast zero hops visited (s ∷ front) back answer l h = cc
  search-IsLeast zero hops visited [] (s ∷ back) answer l h = cc
  search-IsLeast (suc fuel) hops visited (s ∷ front) back answer l h =
      turn-IsLeast fuel hops s visited front back answer
        (λ visited' back'. search-IsLeast fuel hops visited' front back' answer) l _
        (visit-Grows graph critical (hops + 1) (transitions_from graph s) visited _) h
  search-IsLeast (suc fuel) hops visited [] (s ∷ back) answer l h =
      turn-IsLeast fuel (hops + 1) s visited back [] answer
        (λ visited' back'. search-IsLeast fuel (hops + 1) visited' back back' answer)
        (shift hops visited (s ∷ back) l) _
        (visit-Grows graph critical (hops + 1 + 1) (transitions_from graph s) visited _)
        (subst (λ q. search graph critical (suc fuel) visited ((s, hops + 1) ∷ q) ≡ some answer)
          (sym (append-nil (tagged (hops + 1) back))) h)

  started : has_critical graph critical start ≡ false → Level 0 (start ∷ []) (start ∷ []) []
  started h = record {
    plain = λ s seen. subst (λ x. has_critical graph critical x ≡ false) (only s seen) h;
    open_or_closed = λ s seen. inr (inl (inl (sym (only s seen))));
    covers = at_start;
  }
    where
      only : (s : ℕ) → contains (start ∷ []) s ≡ true → start ≡ s
      only s seen = ground arith

      at_start :
          (m s : ℕ)
          → Walk graph start m s
          → m ≤ 0
          → (contains (start ∷ []) s ≡ true) × (IsClosed (start ∷ []) s ⊎ In s (start ∷ []))
      at_start m s here near = (ground arith, inr (inl refl))
      at_start m s (along n a t w i from) near = absurd (omega (arith, near))

any-none : {A : Type 0} (p : A → Bool) (xs : List A) → ((x : A) → p x ≡ false) → any p xs ≡ false
any-none p [] h = refl
any-none p (x ∷ xs) h = rw (h x) (any-none p xs h)

inter-none : (names : List String) → is_nonempty (inter names []) ≡ false
inter-none [] = refl
inter-none (name ∷ names) = inter-none names

nothing_critical :
    (graph : ScreenGraph) (critical : List String) (s : ℕ)
    → is_nonempty critical ≡ false
    → has_critical graph critical s ≡ false
unfolding has_critical
nothing_critical graph (c ∷ critical) s h = cc
nothing_critical graph [] s h = elim (Option-cases (get graph.screens s)) [
  | inl absent ↦ rw absent refl
  | inr (screen, shown) ↦ rw shown (any-none _ screen.elements (λ e. inter-none (element_names e)))
]

answer-IsLeast :
    (graph : ScreenGraph) (start : ℕ) (critical_actions : Option (List String))
    (screen : ScreenView) (answer : Option (ℕ × ℕ))
    → get graph.screens start ≡ some screen
    → shortest_path_baseline graph start critical_actions ≡ some answer
    → IsLeast graph (dedup (list_or_empty critical_actions)) start answer
unfolding shortest_path_baseline
answer-IsLeast graph start critical_actions screen answer shown found =
    let critical = dedup (list_or_empty critical_actions) in
    elim (Bool-cases (is_nonempty critical)) [
      | inr nothing ↦
          subst (IsLeast graph critical start) (some-injective none answer (rw nothing at found))
            (λ m s w. nothing_critical graph critical s nothing)
      | inl something ↦ elim (Bool-cases (has_critical graph critical start)) [
        | inl e ↦
            subst (IsLeast graph critical start)
              (some-injective (some (1, 0)) answer (rw e at (rw shown at (rw something at found))))
              (λ m s w h. omega arith)
        | inr e ↦
            search-IsLeast graph critical start (suc (length graph.transitions)) 0 (start ∷ [])
              (start ∷ []) [] answer (started graph critical start e)
              (rw e at (rw shown at (rw something at found)))
      ]
    ]

-- Where the starting screen is a screen of the graph, `shortest_path_baseline` answers (n + 1, n) for
-- the least number n of transitions along which a walk leads to a screen that shows a critical action,
-- and `None` exactly where no walk leads to one.
pub shortest_path_baseline-IsLeast :
    (graph : ScreenGraph) (start : ℕ) (critical_actions : Option (List String))
    (screen : ScreenView)
    → get graph.screens start ≡ some screen
    → (answer : Option (ℕ × ℕ)) × (shortest_path_baseline graph start critical_actions
        ≡ some answer)
      × IsAttained graph start (dedup (list_or_empty critical_actions)) answer
      × IsLeast graph (dedup (list_or_empty critical_actions)) start answer
unfolding shortest_path_baseline
shortest_path_baseline-IsLeast graph start critical_actions screen shown =
    let critical = dedup (list_or_empty critical_actions) in
    let (answer, found, attained) =
      shortest_path_baseline-IsAttained graph start critical_actions in
    (answer, found, attained, answer-IsLeast graph start critical_actions screen answer shown found)
