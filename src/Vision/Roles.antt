-- ===== src/Vision/Roles.antt =====
-- `_resolve_screen_roles` of app/workers/jobs/analyze_stimulus.py: what it keeps of a classification.
use mathlib.Core.List.{foldl}
use syn_koala.Prelude.{
  ℕ, ◌≤◌, ◌<◌, ◌≡◌, ◌⊎◌, refl, sym, ap, subst, arith, String, Bool, false, not, ◌&&◌, Option, none,
  some, List, [], ◌∷◌, ltb, leb, str_eq, eq_iff, str_ne_sym, map, select, length, count_if, All,
  Bool-cases, Option-cases, inl, inr, map-All, count_if-select, length-map, List-cases,
}
use syn_koala.Stimuli.{Screen}
use syn_koala.Vision.{
  FlowRole, entry, step, success, role_eq, ScreenRole, Role, Roles, assign, order_of,
  earlier_duplicate, admit_role, winner, claims, demote, keep_one, resolve_screen_roles,
}

module _ {V : Type 0} where
  -- No two entries of the dictionary have the same key.
  abbrev pub DistinctKeys : List (String × V) → Type 0
  DistinctKeys [] = Unit
  DistinctKeys ((key, value) ∷ d) = All (λ e. str_eq e.0 key ≡ false) d × DistinctKeys d

  assign-All :
      (P : String × V → Type 0) (d : List (String × V)) (key : String) (value : V)
      → All P d
      → P (key, value)
      → All P (assign d key value)
  assign-All P [] key value all h = (h, tt)
  assign-All P ((j, w) ∷ d) key value all h = elim (Bool-cases (str_eq j key)) [
    | inl e ↦ rw e (subst (λ k. P (k, value)) (sym ((eq_iff j key).0 e)) h, all.1)
    | inr e ↦ rw e (all.0, assign-All P d key value all.1 h)
  ]

  assign-DistinctKeys :
      (d : List (String × V)) (key : String) (value : V)
      → DistinctKeys d
      → DistinctKeys (assign d key value)
  assign-DistinctKeys [] key value h = (tt, tt)
  assign-DistinctKeys ((j, w) ∷ d) key value h = elim (Bool-cases (str_eq j key)) [
    | inl e ↦ rw e h
    | inr e ↦ rw e (
      assign-All (λ x. str_eq x.0 j ≡ false) d key value h.0 (str_ne_sym j key e),
      assign-DistinctKeys d key value h.1,
    )
  ]

module _ (screens : List Screen) where
  -- The screen that a role duplicates stands before the given index.
  abbrev pub IsEarlier : ℕ → Option String → Type 0
  IsEarlier index none = Unit
  IsEarlier index (some key) = (j : ℕ) × (order_of screens key ≡ some j) × (j < index)

  -- The key of a screen, with a duplicate that stands before it.
  abbrev pub IsPlaced : String × Role → Type 0
  IsPlaced (key, role) = (i : ℕ) × (order_of screens key ≡ some i) × IsEarlier i role.duplicate_of

  earlier_duplicate-IsEarlier :
      (index : ℕ) (o : Option String) → IsEarlier index (earlier_duplicate screens index o)
  unfolding earlier_duplicate
  earlier_duplicate-IsEarlier index none = tt
  earlier_duplicate-IsEarlier index (some key) = elim (Option-cases (order_of screens key)) [
    | inl e ↦ rw (e, IsEarlier, earlier_duplicate) tt
    | inr (j, e) ↦ elim (Bool-cases (leb index j)) [
      | inl late ↦ rw (e, IsEarlier, earlier_duplicate) (rw late tt)
      | inr early ↦ rw (e, IsEarlier, earlier_duplicate) (rw early (j, e, ground arith))
    ]
  ]

  record IsAdmitted (roles : Roles) : Type 0 where
    placed : All IsPlaced roles
    distinct : DistinctKeys roles

  admit_role-IsAdmitted :
      (roles : Roles) (reported : ScreenRole)
      → IsAdmitted roles
      → IsAdmitted (admit_role screens roles reported)
  unfolding admit_role
  admit_role-IsAdmitted roles reported h =
      elim (Option-cases (order_of screens reported.screen_key)) [
        | inl e ↦ rw (e, admit_role) h
        | inr (i, e) ↦
            rw (e, admit_role)
              (record {
                placed =
                    assign-All IsPlaced roles reported.screen_key _ h.placed
                      (i, e, earlier_duplicate-IsEarlier i reported.duplicate_of);
                distinct = assign-DistinctKeys roles reported.screen_key _ h.distinct;
              })
      ]

  admitted :
      (inferred : List ScreenRole) (roles : Roles)
      → IsAdmitted roles
      → IsAdmitted (foldl (admit_role screens) roles inferred)
  admitted [] roles h = h
  admitted (r ∷ inferred) roles h =
      admitted inferred (admit_role screens roles r) (admit_role-IsAdmitted roles r h)

  demote-IsPlaced :
      (role : FlowRole) (kept : String) (e : String × Role)
      → IsPlaced e
      → IsPlaced (demote role kept e)
  demote-IsPlaced role kept (key, r) h =
      elim (Bool-cases (role_eq r.role role && not (str_eq key kept))) [
        | inl c ↦ rw c h
        | inr c ↦ rw c h
      ]

demoted-DistinctKeys :
    (role : FlowRole) (kept : String) (roles : Roles)
    → DistinctKeys roles
    → DistinctKeys (map (demote role kept) roles)
demoted-DistinctKeys role kept [] h = tt
demoted-DistinctKeys role kept ((key, r) ∷ roles) h = (
  map-All (λ e. str_eq e.0 key ≡ false) (λ e. str_eq e.0 key ≡ false) (demote role kept)
      (λ e ne. ne) roles h.0,
  demoted-DistinctKeys role kept roles h.1,
)

-- Where no key is the kept one, no claimant is left.
none_left :
    (role : FlowRole) (kept : String) (roles : Roles)
    → role_eq step role ≡ false
    → All (λ e. str_eq e.0 kept ≡ false) roles
    → count_if (claims role) (map (demote role kept) roles) ≡ 0
none_left role kept [] h all = refl
none_left role kept ((key, r) ∷ roles) h (ne, all) = elim (Bool-cases (role_eq r.role role)) [
  | inl c ↦ rw c (rw ne (rw h (none_left role kept roles h all)))
  | inr c ↦ rw c (rw c (none_left role kept roles h all))
]

one_left :
    (role : FlowRole) (kept : String) (roles : Roles)
    → role_eq step role ≡ false
    → DistinctKeys roles
    → count_if (claims role) (map (demote role kept) roles) ≤ 1
one_left role kept [] h distinct = omega arith
one_left role kept ((key, r) ∷ roles) h (others, distinct) =
    elim (Bool-cases (role_eq r.role role)) [
      | inl c ↦ elim (Bool-cases (str_eq key kept)) [
        | inl e ↦
            let gone =
              none_left role kept roles h (
                subst (λ k. All (λ x. str_eq x.0 k ≡ false) roles) ((eq_iff key kept).0 e)
                  others) in
            rw c (rw e (rw c (omega (arith, gone))))
        | inr e ↦ rw c (rw e (rw h (one_left role kept roles h distinct)))
      ]
      | inr c ↦ rw c (rw c (one_left role kept roles h distinct))
    ]

-- Another role gains no claimant.
no_more :
    (a b : FlowRole) (kept : String) (roles : Roles)
    → role_eq step a ≡ false
    → count_if (claims a) (map (demote b kept) roles) ≤ count_if (claims a) roles
no_more a b kept [] h = omega arith
no_more a b kept ((key, r) ∷ roles) h = ground (arith, no_more a b kept roles h)

module _ (screens : List Screen) (before : ℕ → ℕ → Bool) where
  -- `keep_one` leaves the roles, or demotes all claimants but one.
  keep_one-cases :
      (role : FlowRole) (roles : Roles)
      → ((keep_one before role screens roles ≡ roles) × (count_if (claims role) roles ≤ 1))
        ⊎ ((kept : String) × (keep_one before role screens roles ≡ map (demote role kept) roles))
  unfolding keep_one
  keep_one-cases role roles =
      let keys = map (λ e. e.0) (select (claims role) roles) in
      let counted = count_if-select (claims role) roles in
      let keyed = length-map (λ e. e.0) (select (claims role) roles) in
      elim (List-cases keys) [
        | inl e ↦ inl (rw (e, keep_one) refl, omega (arith, ap length e, counted, keyed))
        | inr (key, rest, e) ↦ elim (Bool-cases (ltb 0 (length rest))) [
          | inl many ↦ inr (winner before screens key rest, rw (e, keep_one) (rw many refl))
          | inr one ↦
              inl (rw (e, keep_one) (rw one refl), ground (arith, ap length e, counted, keyed, one))
        ]
      ]

  keep_one-le_one :
      (role : FlowRole) (roles : Roles)
      → role_eq step role ≡ false
      → DistinctKeys roles
      → count_if (claims role) (keep_one before role screens roles) ≤ 1
  keep_one-le_one role roles h distinct = elim (keep_one-cases role roles) [
    | inl (same, few) ↦ rw same few
    | inr (kept, e) ↦ rw e (one_left role kept roles h distinct)
  ]

  keep_one-le :
      (a role : FlowRole) (roles : Roles)
      → role_eq step a ≡ false
      → count_if (claims a) (keep_one before role screens roles) ≤ count_if (claims a) roles
  keep_one-le a role roles h = elim (keep_one-cases role roles) [
    | inl (same, few) ↦ rw same (omega arith)
    | inr (kept, e) ↦ rw e (no_more a role kept roles h)
  ]

  keep_one-IsAdmitted :
      (role : FlowRole) (roles : Roles)
      → IsAdmitted screens roles
      → IsAdmitted screens (keep_one before role screens roles)
  keep_one-IsAdmitted role roles h = elim (keep_one-cases role roles) [
    | inl (same, few) ↦ rw same h
    | inr (kept, e) ↦ rw e (record {
      placed =
          map-All (IsPlaced screens) (IsPlaced screens) (demote role kept)
            (demote-IsPlaced screens role kept) roles h.placed;
      distinct = demoted-DistinctKeys role kept roles h.distinct;
    })
  ]

-- What is kept of a classification of the screens.
pub record IsFlow (screens : List Screen) (roles : Roles) : Type 0 where
  pub placed : All (IsPlaced screens) roles
  pub distinct : DistinctKeys roles
  pub one_entry : count_if (claims entry) roles ≤ 1
  pub one_success : count_if (claims success) roles ≤ 1

-- Whatever the model reports, `_resolve_screen_roles` keeps one role for each key, of screens that
-- exist; a `duplicate_of` names a screen that exists and stands strictly earlier; and at most one
-- screen is the entry, and at most one the success, of the flow.
pub resolve_screen_roles-IsFlow :
    (screens : List Screen) (inferred : List ScreenRole)
    → IsFlow screens (resolve_screen_roles screens inferred)
unfolding resolve_screen_roles
resolve_screen_roles-IsFlow screens inferred =
    let start = admitted screens inferred [] (record { placed = tt; distinct = tt }) in
    let first = keep_one-IsAdmitted screens ltb entry _ start in
    let second = keep_one-IsAdmitted screens (λ a b. ltb b a) success _ first in
    record {
      placed = second.placed;
      distinct = second.distinct;
      one_entry = omega (
        arith,
        keep_one-le screens (λ a b. ltb b a) entry success _ refl,
        keep_one-le_one screens ltb entry _ refl start.distinct,
      );
      one_success = keep_one-le_one screens (λ a b. ltb b a) success _ refl first.distinct;
    }
