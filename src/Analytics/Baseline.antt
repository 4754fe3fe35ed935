-- ===== src/Analytics/Baseline.antt =====
-- The search of `shortest_path_baseline` in app/services/analytics_engine.py ends, and what it finds
-- is there.
use syn_koala.Prelude.{
  ℕ, zero, suc, ◌+◌, ◌≤◌, ◌≡◌, refl, sym, ap, subst, arith, String, true, false, not, Option, none,
  some, List, [], ◌∷◌, ◌++◌, length, length-append, contains, count_if, count_if-le_length, All,
  All-append, dedup, is_nonempty, list_or_empty, get, nat_eq, string_eq, Bool-cases, Option-cases,
  inl, inr, ◌==◌, ==_iff, In, select-All, All-In,
}
use syn_koala.Graph.{ScreenGraph, TransitionView, transitions_from}
use syn_koala.Analytics.{Visit, hit, onward, has_critical, visit, search, shortest_path_baseline}

-- The transitions that lead to a screen that was not visited.
abbrev pub unvisited : List ℕ → List TransitionView → ℕ
unvisited visited ts = count_if (λ t. not (contains visited t.to_screen_id)) ts

unvisited-le :
    (b : ℕ) (visited : List ℕ) (ts : List TransitionView)
    → unvisited (b ∷ visited) ts ≤ unvisited visited ts
unvisited-le b visited [] = omega arith
unvisited-le b visited (t ∷ ts) = ground (arith, unvisited-le b visited ts)

pub unvisited-lt :
    (t : TransitionView) (visited : List ℕ) (ts : List TransitionView)
    → In t ts
    → contains visited t.to_screen_id ≡ false
    → suc (unvisited (t.to_screen_id ∷ visited) ts) ≤ unvisited visited ts
unvisited-lt t visited [] i new = cc
unvisited-lt t visited (x ∷ ts) (inl same) new =
    let seen : (t.to_screen_id == x.to_screen_id) ≡ true =
      (==_iff t.to_screen_id x.to_screen_id).1 (ap (λ y. y.to_screen_id) same) in
    let unseen = subst (λ y. contains visited y.to_screen_id ≡ false) same new in
    rw seen (rw unseen (omega (arith, unvisited-le t.to_screen_id visited ts)))
unvisited-lt t visited (x ∷ ts) (inr later) new =
    ground (arith, unvisited-lt t visited ts later new)

module _ (graph : ScreenGraph) (start : ℕ) where
  -- A walk from the starting screen along that many transitions.
  pub data Walk : ℕ → ℕ → Type 0 where
    here : Walk 0 start
    along :
        (n a : ℕ) (t : TransitionView)
        → Walk n a
        → In t graph.transitions
        → t.from_screen_id ≡ a
        → Walk (n + 1) t.to_screen_id

  -- A screen that shows a critical action, at the end of a walk along that many transitions.
  abbrev pub Attains : List String → ℕ → Type 0
  Attains critical n = (s : ℕ) × Walk n s × (has_critical graph critical s ≡ true)

  AllWalks : List (ℕ × ℕ) → Type 0
  AllWalks queue = All (λ entry. Walk entry.1 entry.0) queue

  -- The loop over one screen's transitions returns at such a screen, or goes on with no more work.
  Visits : List String → (next_hops work : ℕ) → Visit → Type 0
  unfolding AllWalks
  Visits critical next_hops work (hit n) = (n ≡ next_hops) × Attains critical next_hops
  Visits critical next_hops work (onward visited queue) =
      AllWalks queue × (length queue + unvisited visited graph.transitions ≤ work)

  pub visit_new :
      (critical : List String) (next_hops : ℕ) (t : TransitionView) (ts : List TransitionView)
      (visited : List ℕ) (queue : List (ℕ × ℕ))
      → contains visited t.to_screen_id ≡ false
      → has_critical graph critical t.to_screen_id ≡ false
      → visit graph critical next_hops (t ∷ ts) visited queue
        ≡ visit graph critical next_hops ts
            (t.to_screen_id ∷ visited)
            (queue ++ (t.to_screen_id, next_hops) ∷ [])
  unfolding visit
  visit_new critical next_hops t ts visited queue new plain = simp (new, plain, visit)

  pub visit_hit :
      (critical : List String) (next_hops : ℕ) (t : TransitionView) (ts : List TransitionView)
      (visited : List ℕ) (queue : List (ℕ × ℕ))
      → contains visited t.to_screen_id ≡ false
      → has_critical graph critical t.to_screen_id ≡ true
      → visit graph critical next_hops (t ∷ ts) visited queue ≡ hit next_hops
  unfolding visit
  visit_hit critical next_hops t ts visited queue new shown = simp (new, shown, visit)

  pub visit_seen :
      (critical : List String) (next_hops : ℕ) (t : TransitionView) (ts : List TransitionView)
      (visited : List ℕ) (queue : List (ℕ × ℕ))
      → contains visited t.to_screen_id ≡ true
      → visit graph critical next_hops (t ∷ ts) visited queue
        ≡ visit graph critical next_hops ts visited queue
  unfolding visit
  visit_seen critical next_hops t ts visited queue seen = simp (seen, visit)

  visit-Visits :
      (critical : List String) (next_hops work : ℕ) (ts : List TransitionView) (visited : List ℕ)
      (queue : List (ℕ × ℕ))
      → All (λ t. Walk next_hops t.to_screen_id × In t graph.transitions) ts
      → AllWalks queue
      → length queue + unvisited visited graph.transitions ≤ work
      → Visits critical next_hops work (visit graph critical next_hops ts visited queue)
  unfolding visit Visits AllWalks
  visit-Visits critical next_hops work [] visited queue links walks room = (walks, room)
  visit-Visits critical next_hops work (t ∷ ts) visited queue links walks room =
      elim (Bool-cases (contains visited t.to_screen_id)) [
        | inl seen ↦
            subst (Visits critical next_hops work)
              (sym (visit_seen critical next_hops t ts visited queue seen))
              (visit-Visits critical next_hops work ts visited queue links.1 walks room)
        | inr new ↦ elim (Bool-cases (has_critical graph critical t.to_screen_id)) [
          | inl shown ↦
              subst (Visits critical next_hops work)
                (sym (visit_hit critical next_hops t ts visited queue new shown))
                (refl, (t.to_screen_id, links.0.0, shown))
          | inr plain ↦
              subst (Visits critical next_hops work)
                (sym (visit_new critical next_hops t ts visited queue new plain))
                (visit-Visits critical next_hops work ts (t.to_screen_id ∷ visited) _ links.1
                  (All-append (λ entry. Walk entry.1 entry.0) queue _ walks (links.0.0, tt))
                  (omega (
                    arith,
                    room,
                    length-append queue ((t.to_screen_id, next_hops) ∷ []),
                    unvisited-lt t visited graph.transitions links.0.1 new,
                  )))
        ]
      ]

  -- An answer of (a, n): n transitions attain a critical action, and a counts the action itself.
  abbrev pub IsAttained : List String → Option (ℕ × ℕ) → Type 0
  IsAttained critical none = Unit
  IsAttained critical (some (actions, screens)) = (actions ≡ screens + 1) × Attains critical screens

  Answers : List String → Option (Option (ℕ × ℕ)) → Type 0
  Answers critical found =
      (answer : Option (ℕ × ℕ)) × (found ≡ some answer) × IsAttained critical answer

  links :
      (hops screen_id : ℕ)
      → Walk hops screen_id
      → All
          (λ t. Walk (hops + 1) t.to_screen_id × In t graph.transitions)
          (transitions_from graph screen_id)
  unfolding transitions_from
  links hops screen_id walk =
      select-All (λ t. In t graph.transitions) _ (λ t. t.from_screen_id == screen_id)
        (λ t i from.
          (along hops screen_id t walk i ((==_iff t.from_screen_id screen_id).0 from), i))
        graph.transitions (All-In graph.transitions)

  search-Answers :
      (critical : List String) (fuel : ℕ) (visited : List ℕ) (queue : List (ℕ × ℕ))
      → AllWalks queue
      → length queue + unvisited visited graph.transitions ≤ fuel
      → Answers critical (search graph critical fuel visited queue)
  unfolding search AllWalks Visits Answers
  search-Answers critical fuel visited [] walks room = (none, refl, tt)
  search-Answers critical zero visited (entry ∷ queue) walks room = absurd (omega (arith, room))
  search-Answers critical (suc fuel) visited ((screen_id, hops) ∷ queue) (walk, walks) room =
      let work = length queue + unvisited visited graph.transitions in
      let visits : Visits critical (hops + 1) work
          (visit graph critical (hops + 1) (transitions_from graph screen_id) visited queue) =
        visit-Visits critical (hops + 1) work (transitions_from graph screen_id) visited queue
          (links hops screen_id walk) walks (omega arith) in
      (elim (visit graph critical (hops + 1) (transitions_from graph screen_id) visited queue)
          as (λ o.
            Visits critical (hops + 1) work o
            → Answers critical (elim o [
              | hit next_hops ↦ some (some (next_hops + 1, next_hops))
              | onward visited' queue' ↦ search graph critical fuel visited' queue'
            ])) [
              | hit next_hops ↦ λ (same, attained). (
                some (next_hops + 1, next_hops),
                refl,
                (refl, subst (Attains critical) (sym same) attained),
              )
              | onward visited' queue' ↦ λ (walks', room').
                  search-Answers critical fuel visited' queue' walks' (omega (arith, room, room'))
            ])
        visits

-- `shortest_path_baseline` always ends, with one turn of its loop for each transition and one for the
-- start; and where it answers (a, n), a is n + 1 and a walk along n transitions of the graph leads from
-- the starting screen to a screen that shows one of the task's critical actions.
pub shortest_path_baseline-IsAttained :
    (graph : ScreenGraph) (start : ℕ) (critical_actions : Option (List String))
    → (answer : Option (ℕ × ℕ)) × (shortest_path_baseline graph start critical_actions
        ≡ some answer)
      × IsAttained graph start (dedup (list_or_empty critical_actions)) answer
unfolding shortest_path_baseline Answers AllWalks
shortest_path_baseline-IsAttained graph start critical_actions =
    let critical = dedup (list_or_empty critical_actions) in
    elim (Bool-cases (is_nonempty critical)) [
      | inr nothing ↦ (none, rw nothing refl, tt)
      | inl something ↦ elim (Option-cases (get graph.screens start)) [
        | inl absent ↦ (none, rw something (rw absent refl), tt)
        | inr (screen, shown) ↦ elim (Bool-cases (has_critical graph critical start)) [
          | inl e ↦ (some (1, 0), rw something (rw shown (rw e refl)), (refl, (start, here, e)))
          | inr e ↦
              let (answer, found, attained) =
                search-Answers graph start critical (suc (length graph.transitions)) (start ∷ [])
                  ((start, 0) ∷ []) (here, tt)
                  (omega (
                    arith,
                    count_if-le_length (λ t. not (contains (start ∷ []) t.to_screen_id))
                        graph.transitions,
                  )) in
              (answer, rw something (rw shown (rw e found)), attained)
        ]
      ]
    ]
