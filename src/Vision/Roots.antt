-- ===== src/Vision/Roots.antt =====
-- `_canonical_screen_keys` of app/workers/jobs/analyze_stimulus.py: the chains of duplicates end.
use mathlib.Core.Option.{some-injective}
use syn_koala.Prelude.{
  ℕ, zero, suc, ◌+◌, ◌≤◌, ◌<◌, ◌≡◌, ◌⊎◌, refl, sym, ap, subst, ◌∙◌, arith, String, true, false, not,
  Option, none, some, List, [], ◌∷◌, str_eq, eq_iff, map, length, count_if, contains, string_eq,
  lookup, nonempty, All, Bool-cases, Option-cases, inl, inr,
}
use syn_koala.Stimuli.{Screen}
use syn_koala.Vision.{
  Role, Roles, order_of, parent_of, root_of, canonical_of, canonical_screen_keys,
}
use syn_koala.Vision.Roles.{IsEarlier, IsPlaced, IsFlow}

-- The keys that the loop has not seen.
abbrev unseen : List String → Roles → ℕ
unseen seen roles = count_if (λ e. not (contains seen e.0)) roles

unseen-le :
    (p : String) (seen : List String) (roles : Roles) → unseen (p ∷ seen) roles ≤ unseen seen roles
unseen-le p seen [] = omega arith
unseen-le p seen (e ∷ roles) = ground (arith, unseen-le p seen roles)

unseen-le_length : (seen : List String) (roles : Roles) → unseen seen roles ≤ length roles
unseen-le_length seen [] = omega arith
unseen-le_length seen (e ∷ roles) = ground (arith, unseen-le_length seen roles)

unseen-lt :
    (p : String) (r : Role) (seen : List String) (roles : Roles)
    → lookup roles p ≡ some r
    → contains seen p ≡ false
    → suc (unseen (p ∷ seen) roles) ≤ unseen seen roles
unseen-lt p r seen [] h new = cc
unseen-lt p r seen ((key, role) ∷ roles) h new = elim (Bool-cases (str_eq key p)) [
  | inl e ↦
      let unseen_key : contains seen key ≡ false =
        subst (λ k. contains seen k ≡ false) (sym ((eq_iff key p).0 e)) new in
      let same : str_eq p key ≡ true = (eq_iff p key).1 (sym ((eq_iff key p).0 e)) in
      rw same (rw unseen_key (omega (arith, unseen-le p seen roles)))
  | inr e ↦ ground (arith, unseen-lt p r seen roles (rw e at h) new)
]

module _ (screens : List Screen) (roles : Roles) (flow : IsFlow screens roles) where
  lookup-IsPlaced :
      (d : Roles) (key : String) (r : Role)
      → All (IsPlaced screens) d
      → lookup d key ≡ some r
      → IsPlaced screens (key, r)
  lookup-IsPlaced [] key r all h = cc
  lookup-IsPlaced ((j, w) ∷ d) key r all h = elim (Bool-cases (str_eq j key)) [
    | inl e ↦
        subst (λ k. IsPlaced screens (k, r)) ((eq_iff j key).0 e)
          (subst (λ x. IsPlaced screens (j, x)) (some-injective w r (rw e at h)) all.0)
    | inr e ↦ lookup-IsPlaced d key r all.1 (rw e at h)
  ]

  -- The screen stands at that index or before it.
  abbrev StandsBy : ℕ → String → Type 0
  StandsBy index key = (i : ℕ) × (order_of screens key ≡ some i) × (i ≤ index)

  -- The key of a screen that duplicates no other.
  abbrev pub IsRoot : String → Type 0
  IsRoot key = parent_of roles key ≡ none

  nonempty-eq : (o : Option String) (p : String) → nonempty o ≡ some p → o ≡ some p
  nonempty-eq none p h = cc
  nonempty-eq (some s) p h = elim (Bool-cases (str_eq s "")) [
    | inl e ↦ cc (rw e at h)
    | inr e ↦ rw e at h
  ]

  -- A parent stands strictly before its child, and its child has a role.
  parent :
      (current p : String) (i : ℕ)
      → order_of screens current ≡ some i
      → parent_of roles current ≡ some p
      → ((r : Role) × (lookup roles current ≡ some r))
        × ((j : ℕ) × (order_of screens p ≡ some j) × (j < i))
  parent current p i at h = elim (Option-cases (lookup roles current)) [
    | inl e ↦ cc (rw (e, parent_of) at h)
    | inr (r, e) ↦
        let (i', at', earlier) = lookup-IsPlaced roles current r flow.placed e in
        let named = nonempty-eq r.duplicate_of p (rw (e, parent_of) at h) in
        let (j, there, lt) = subst (IsEarlier screens i') named earlier in
        ((r, e), (j, there, omega (arith, lt, some-injective i' i (sym at' ∙ at))))
  ]

  AllBehind : ℕ → List String → Type 0
  AllBehind i seen =
      (s : String) → contains seen s ≡ true → (j : ℕ) × (order_of screens s ≡ some j) × (i ≤ j)

  -- One turn for each unseen key, one for this key, and one to see that the chain ends.
  IsEnough : ℕ → String → List String → Type 0
  IsEnough fuel current seen = (unseen seen roles + 2 ≤ fuel) ⊎ (IsRoot current × (1 ≤ fuel))

  Settles : ℕ → Option String → Type 0
  Settles i o = (root : String) × (o ≡ some root) × IsRoot root × StandsBy i root

  room_left :
      (fuel : ℕ) (current p : String) (seen : List String)
      → IsEnough (suc fuel) current seen
      → parent_of roles current ≡ some p
      → contains seen p ≡ false
      → IsEnough fuel p (p ∷ seen)
  unfolding IsEnough
  room_left fuel current p seen (inr (root, h)) has new = cc
  room_left fuel current p seen (inl h) has new = elim (Option-cases (lookup roles p)) [
    | inl e ↦ inr (rw (e, parent_of) refl, omega (arith, h))
    | inr (r, e) ↦ inl (omega (arith, h, unseen-lt p r seen roles e new))
  ]

  behind :
      (i j : ℕ) (p : String) (seen : List String)
      → order_of screens p ≡ some j
      → j < i
      → AllBehind i seen
      → AllBehind j (p ∷ seen)
  unfolding AllBehind
  behind i j p seen at lt all s h = elim (Bool-cases (str_eq p s)) [
    | inl e ↦ (j, subst (λ x. order_of screens x ≡ some j) ((eq_iff p s).0 e) at, omega arith)
    | inr e ↦ let (k, there, le) = all s (rw e at h) in (k, there, omega (arith, le, lt))
  ]

  is_new :
      (i j : ℕ) (p : String) (seen : List String)
      → order_of screens p ≡ some j
      → j < i
      → AllBehind i seen
      → contains seen p ≡ false
  unfolding AllBehind
  is_new i j p seen at lt all = elim (Bool-cases (contains seen p)) [
    | inr new ↦ new
    | inl old ↦
        let (k, there, le) = all p old in
        absurd (omega (arith, lt, le, some-injective k j (sym there ∙ at)))
  ]

  root_of-Settles :
      (fuel i : ℕ) (current : String) (seen : List String)
      → order_of screens current ≡ some i
      → AllBehind i seen
      → IsEnough fuel current seen
      → Settles i (root_of roles fuel current seen)
  unfolding root_of Settles IsEnough
  root_of-Settles zero i current seen at all (inl h) = absurd (omega (arith, h))
  root_of-Settles zero i current seen at all (inr h) = absurd (omega (arith, h.1))
  root_of-Settles (suc fuel) i current seen at all enough =
      elim (Option-cases (parent_of roles current)) [
        | inl e ↦ (current, rw (e, root_of) refl, e, (i, at, omega arith))
        | inr (p, e) ↦
            let (_, (j, there, lt)) = parent current p i at e in
            let new = is_new i j p seen there lt all in
            let (root, found, is_root, (k, stands, le)) =
              root_of-Settles fuel j p (p ∷ seen) there (behind i j p seen there lt all)
                (room_left fuel current p seen enough e new) in
            (root, rw (e, root_of) (rw new found), is_root, (k, stands, omega (arith, le, lt)))
      ]

  -- A root that stands at the screen of the key or before it.
  abbrev pub CollapsesTo : String × String → Type 0
  CollapsesTo (key, root) =
      IsRoot root
      × (i : ℕ) × (j : ℕ) × (order_of screens root ≡ some i)
      × (order_of screens key ≡ some j)
      × (i ≤ j)

  -- The key of one of the roles.
  IsKey : String → Type 0
  IsKey key = (r : Role) × (lookup roles key ≡ some r)

  collapse :
      (key : String)
      → IsKey key
      → (root : String) × (root_of roles (suc (length roles)) key (key ∷ []) ≡ some root)
        × CollapsesTo (key, root)
  unfolding IsKey Settles AllBehind IsEnough
  collapse key (r, e) =
      let (i, at, _) = lookup-IsPlaced roles key r flow.placed e in
      let few = unseen-lt key r [] roles e refl in
      let (root, found, is_root, (k, stands, le)) =
        root_of-Settles (suc (length roles)) i key (key ∷ []) at (behind_itself key i at)
          (inl (omega (arith, few, unseen-le_length [] roles))) in
      (root, found, (is_root, k, i, stands, at, le))
    where
      behind_itself :
          (key : String) (i : ℕ)
          → order_of screens key ≡ some i
          → (s : String) → contains (key ∷ []) s ≡ true
          → (j : ℕ) × (order_of screens s ≡ some j) × (i ≤ j)
      behind_itself key i at s h = elim (Bool-cases (str_eq key s)) [
        | inl e ↦ (i, subst (λ x. order_of screens x ≡ some i) ((eq_iff key s).0 e) at, omega arith)
        | inr e ↦ cc (rw e at h)
      ]

  canonical_of-CollapsesTo :
      (keys : List String)
      → All IsKey keys
      → (canonical : List (String × String)) × (canonical_of roles keys ≡ some canonical)
        × (map (λ e. e.0) canonical ≡ keys)
        × All CollapsesTo canonical
  unfolding canonical_of
  canonical_of-CollapsesTo [] all = ([], refl, refl, tt)
  canonical_of-CollapsesTo (key ∷ keys) (first, others) =
      let (root, found, collapses) = collapse key first in
      let (rest, rest_found, same, all) = canonical_of-CollapsesTo keys others in
      (
        (key, root) ∷ rest,
        rw (found, canonical_of) (rw rest_found refl),
        ap (λ ks. key ∷ ks) same,
        (collapses, all),
      )

lookup-some : (d : Roles) → All (λ key. (r : Role) × (lookup d key ≡ some r)) (map (λ e. e.0) d)
lookup-some [] = tt
lookup-some ((key, r) ∷ d) =
    ((r, rw ((eq_iff key key).1 refl) refl), weaken key r d (map (λ e. e.0) d) (lookup-some d))
  where
    weaken :
        (key : String) (r : Role) (d : Roles) (keys : List String)
        → All (λ k. (x : Role) × (lookup d k ≡ some x)) keys
        → All (λ k. (x : Role) × (lookup ((key, r) ∷ d) k ≡ some x)) keys
    weaken key r d [] all = tt
    weaken key r d (k ∷ keys) ((x, e), all) = (
      elim (Bool-cases (str_eq key k)) [
        | inl same ↦ (r, rw same refl)
        | inr other ↦ (x, rw other e)
      ],
      weaken key r d keys all,
    )

-- For the roles that `_resolve_screen_roles` keeps, `_canonical_screen_keys` ends, with one turn of its
-- loop for each role and one more; it maps each key of a role, in order, to the key of a screen that
-- duplicates no other and stands at the same place or earlier.
pub canonical_screen_keys-CollapsesTo :
    (screens : List Screen) (roles : Roles) (flow : IsFlow screens roles)
    → (canonical : List (String × String)) × (canonical_screen_keys roles ≡ some canonical)
      × (map (λ e. e.0) canonical ≡ map (λ e. e.0) roles)
      × All (CollapsesTo screens roles flow) canonical
unfolding canonical_screen_keys IsKey
canonical_screen_keys-CollapsesTo screens roles flow =
    canonical_of-CollapsesTo screens roles flow (map (λ e. e.0) roles) (lookup-some roles)
