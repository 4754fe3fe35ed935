-- ===== src/Vision.antt =====
-- app/workers/jobs/analyze_stimulus.py: the flow of a study's screens, from what a vision model says of
-- them (app/agents/providers/vision_provider.py) and never beyond the screens that exist.
pub mod Edges
pub mod Roles
pub mod Roots
pub mod Backed
pub mod Enqueue
pub mod Reach
pub mod Analyze
pub mod Closed
pub mod Drawn
pub mod Sound
pub mod Keeps
pub mod Runnable
use mathlib.Core.List.{foldl}
use syn_koala.Prelude.{
  ℕ, zero, suc, String, Bool, true, false, not, ◌&&◌, Option, none, some, List, [], ◌∷◌, ◌++◌,
  if◌then◌else◌, ◌==◌, ltb, leb, str_eq, map, select, length, lookup, nonempty, contains, string_eq,
}
use syn_koala.Stimuli.{Screen}

pub data FlowRole : Type 0 where
  entry step success error_role other_role : FlowRole

abbrev pub role_eq : FlowRole → FlowRole → Bool
role_eq entry entry = true
role_eq step step = true
role_eq success success = true
role_eq error_role error_role = true
role_eq other_role other_role = true
role_eq _ _ = false

-- What `classify_screens` reports of one screen.
pub record ScreenRole : Type 0 where
  pub screen_key : String
  pub summary : String
  pub role : FlowRole
  pub duplicate_of : Option String

-- The value that is kept of it, under the key of the screen.
pub record Role : Type 0 where
  pub summary : String
  pub role : FlowRole
  pub duplicate_of : Option String

abbrev pub Roles : Type 0
Roles = List (String × Role)

-- `roles[key] = value`
abbrev pub assign {ℓ} : {V : Type ℓ} → List (String × V) → String → V → List (String × V)
assign [] key value = (key, value) ∷ []
assign ((j, w) ∷ d) key value = if str_eq j key then (j, value) ∷ d else (j, w) ∷ assign d key value

-- `{screen.screen_key: index for index, screen in enumerate(screens)}`, read at a key: the last index
-- of a screen with that key.
unfoldable pub order_from : ℕ → List Screen → String → Option ℕ
order_from index [] key = none
order_from index (screen ∷ screens) key = elim (order_from (suc index) screens key) [
  | some later ↦ some later
  | none ↦ if str_eq screen.screen_key key then some index else none
]

abbrev pub order_of : List Screen → String → Option ℕ
order_of screens key = order_from 0 screens key

-- `duplicate_of` is kept where it names an earlier screen than the one at `index`.
unfoldable pub earlier_duplicate : List Screen → ℕ → Option String → Option String
unfolding order_from
earlier_duplicate screens index none = none
earlier_duplicate screens index (some key) = elim (order_of screens key) [
  | none ↦ none
  | some position ↦ if leb index position then none else some key
]

unfoldable pub admit_role : List Screen → Roles → ScreenRole → Roles
unfolding order_from earlier_duplicate
admit_role screens roles reported = elim (order_of screens reported.screen_key) [
  | none ↦ roles
  | some index ↦ assign roles reported.screen_key (record {
    summary = reported.summary;
    role = reported.role;
    duplicate_of = earlier_duplicate screens index reported.duplicate_of;
  })
]

-- `order[key]`, of a key that is there
abbrev pub position : List Screen → String → ℕ
position screens key = elim (order_of screens key) [ some index ↦ index | none ↦ 0 ]

-- `min` and `max` by `key`: the first claimant that no other is strictly before.
unfoldable pub winner : (ℕ → ℕ → Bool) → List Screen → String → List String → String
unfolding order_from
winner before screens best [] = best
winner before screens best (key ∷ keys) =
    winner before screens
      (if before (position screens key) (position screens best) then key else best) keys

abbrev pub claims : FlowRole → String × Role → Bool
claims role reported = role_eq reported.1.role role

abbrev pub demote : FlowRole → String → String × Role → String × Role
demote role kept (key, r) =
    (key, if role_eq r.role role && not (str_eq key kept) then record r { role = step } else r)

unfoldable pub keep_one : (ℕ → ℕ → Bool) → FlowRole → List Screen → Roles → Roles
unfolding winner
keep_one before role screens roles = elim (map (λ e. e.0) (select (claims role) roles)) [
  | [] ↦ roles
  | key ∷ keys ↦
      if ltb 0 (length keys)
      then map (demote role (winner before screens key keys)) roles
      else roles
]

unfoldable pub resolve_screen_roles : List Screen → List ScreenRole → Roles
unfolding admit_role keep_one
resolve_screen_roles screens inferred =
    keep_one (λ a b. ltb b a) success screens
      (keep_one ltb entry screens (foldl (admit_role screens) [] inferred))

-- `roles.get(current, {}).get("duplicate_of")`, where it is no empty text
abbrev pub parent_of : Roles → String → Option String
parent_of roles current = elim (lookup roles current) [
  | none ↦ none
  | some role ↦ nonempty role.duplicate_of
]

-- The `while` loop of `_canonical_screen_keys`, on fuel; `none` is a loop that has run out of it.
unfoldable pub root_of : Roles → ℕ → String → List String → Option String
root_of roles zero current seen = none
root_of roles (suc fuel) current seen = elim (parent_of roles current) [
  | none ↦ some current
  | some parent ↦ elim (contains seen parent) [
    | true ↦ some current
    | false ↦ root_of roles fuel parent (parent ∷ seen)
  ]
]

-- One turn for each key that a turn can leave, and one to see that there is no other.
unfoldable pub canonical_of : Roles → List String → Option (List (String × String))
unfolding root_of
canonical_of roles [] = some []
canonical_of roles (key ∷ keys) = elim (root_of roles (suc (length roles)) key (key ∷ [])) [
  | none ↦ none
  | some root ↦ elim (canonical_of roles keys) [
    | none ↦ none
    | some rest ↦ some ((key, root) ∷ rest)
  ]
]

unfoldable pub canonical_screen_keys : Roles → Option (List (String × String))
unfolding canonical_of
canonical_screen_keys roles = canonical_of roles (map (λ e. e.0) roles)
