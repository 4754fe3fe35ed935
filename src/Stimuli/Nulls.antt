-- ===== src/Stimuli/Nulls.antt =====
-- `_strip_null_bytes` of app/services/stimulus_service.py, on the JSON that a vision model returned.
use syn_koala.Prelude.{◌≡◌, ◌↔◌, refl, ap, String, false, ◌==◌, if◌then◌else◌, Bool-cases, inl, inr}
use Prim.Native.Char.{code}

mutual
  -- A JSON value: a scalar is a number, a truth value or null.
  pub data Document : Type 0 where
    scalar : Document
    text : String → Document
    object : Members → Document
    array : Items → Document

  pub data Members : Type 0 where
    end : Members
    member : String → Document → Members → Members

  pub data Items : Type 0 where
    nil : Items
    item : Document → Items → Items

-- `value.replace("\x00", "")`
unfoldable pub without_nulls : String → String
without_nulls String.[] = String.[]
without_nulls (String.◌∷◌ c s) =
    let rest = without_nulls s in if code c == 0 then rest else String.◌∷◌ c rest

unfoldable mutual
  unfolding without_nulls

  pub strip : Document → Document
  strip scalar = scalar
  strip (text s) = text (without_nulls s)
  strip (object ms) = object (strip_members ms)
  strip (array is) = array (strip_items is)

  pub strip_members : Members → Members
  strip_members end = end
  strip_members (member key value ms) = member key (strip value) (strip_members ms)

  pub strip_items : Items → Items
  strip_items nil = nil
  strip_items (item value is) = item (strip value) (strip_items is)

abbrev pub HasNoNull : String → Type 0
HasNoNull String.[] = Unit
HasNoNull (String.◌∷◌ c s) = ((code c == 0) ≡ false) × HasNoNull s

mutual
  -- No text of the value has a null byte, and no key of an object.
  pub IsStorable : Document → Type 0
  IsStorable scalar = Unit
  IsStorable (text s) = HasNoNull s
  IsStorable (object ms) = AreStorable ms
  IsStorable (array is) = ItemsAreStorable is

  pub AreStorable : Members → Type 0
  AreStorable end = Unit
  AreStorable (member key value ms) = HasNoNull key × IsStorable value × AreStorable ms

  pub ItemsAreStorable : Items → Type 0
  ItemsAreStorable nil = Unit
  ItemsAreStorable (item value is) = IsStorable value × ItemsAreStorable is

mutual
  -- No key of an object, at any depth, has a null byte.
  pub HasCleanKeys : Document → Type 0
  HasCleanKeys scalar = Unit
  HasCleanKeys (text s) = Unit
  HasCleanKeys (object ms) = MembersHaveCleanKeys ms
  HasCleanKeys (array is) = ItemsHaveCleanKeys is

  pub MembersHaveCleanKeys : Members → Type 0
  MembersHaveCleanKeys end = Unit
  MembersHaveCleanKeys (member key value ms) =
      HasNoNull key × HasCleanKeys value × MembersHaveCleanKeys ms

  pub ItemsHaveCleanKeys : Items → Type 0
  ItemsHaveCleanKeys nil = Unit
  ItemsHaveCleanKeys (item value is) = HasCleanKeys value × ItemsHaveCleanKeys is

without_nulls-HasNoNull : (s : String) → HasNoNull (without_nulls s)
unfolding without_nulls
without_nulls-HasNoNull String.[] = tt
without_nulls-HasNoNull (String.◌∷◌ c s) = elim (Bool-cases (code c == 0)) [
  | inl e ↦ rw e (without_nulls-HasNoNull s)
  | inr e ↦ rw e (e, without_nulls-HasNoNull s)
]

without_nulls-same : (s : String) → HasNoNull s → without_nulls s ≡ s
unfolding without_nulls
without_nulls-same String.[] h = refl
without_nulls-same (String.◌∷◌ c s) (e, h) = rw e (ap (String.◌∷◌ c) (without_nulls-same s h))

mutual
  unfolding strip strip_members strip_items IsStorable AreStorable ItemsAreStorable HasCleanKeys
      MembersHaveCleanKeys ItemsHaveCleanKeys

  stripped : (d : Document) → HasCleanKeys d → IsStorable (strip d)
  stripped scalar h = tt
  stripped (text s) h = without_nulls-HasNoNull s
  stripped (object ms) h = stripped_members ms h
  stripped (array is) h = stripped_items is h

  stripped_members : (ms : Members) → MembersHaveCleanKeys ms → AreStorable (strip_members ms)
  stripped_members end h = tt
  stripped_members (member key value ms) (k, h, hs) = (k, stripped value h, stripped_members ms hs)

  stripped_items : (is : Items) → ItemsHaveCleanKeys is → ItemsAreStorable (strip_items is)
  stripped_items nil h = tt
  stripped_items (item value is) (h, hs) = (stripped value h, stripped_items is hs)

mutual
  unfolding strip strip_members strip_items IsStorable AreStorable ItemsAreStorable HasCleanKeys
      MembersHaveCleanKeys ItemsHaveCleanKeys

  keys_stay : (d : Document) → IsStorable (strip d) → HasCleanKeys d
  keys_stay scalar h = tt
  keys_stay (text s) h = tt
  keys_stay (object ms) h = member_keys_stay ms h
  keys_stay (array is) h = item_keys_stay is h

  member_keys_stay : (ms : Members) → AreStorable (strip_members ms) → MembersHaveCleanKeys ms
  member_keys_stay end h = tt
  member_keys_stay (member key value ms) (k, h, hs) = (k, keys_stay value h, member_keys_stay ms hs)

  item_keys_stay : (is : Items) → ItemsAreStorable (strip_items is) → ItemsHaveCleanKeys is
  item_keys_stay nil h = tt
  item_keys_stay (item value is) (h, hs) = (keys_stay value h, item_keys_stay is hs)

mutual
  unfolding strip strip_members strip_items IsStorable AreStorable ItemsAreStorable

  kept : (d : Document) → IsStorable d → strip d ≡ d
  kept scalar h = refl
  kept (text s) h = ap text (without_nulls-same s h)
  kept (object ms) h = ap object (kept_members ms h)
  kept (array is) h = ap array (kept_items is h)

  kept_members : (ms : Members) → AreStorable ms → strip_members ms ≡ ms
  kept_members end h = refl
  kept_members (member key value ms) (_, h, hs) = rw (kept value h) (rw (kept_members ms hs) refl)

  kept_items : (is : Items) → ItemsAreStorable is → strip_items is ≡ is
  kept_items nil h = refl
  kept_items (item value is) (h, hs) = rw (kept value h) (rw (kept_items is hs) refl)

-- What `_strip_null_bytes` returns has no null byte in any text and any key of an object, at any depth,
-- exactly where the keys of the objects had none, as it leaves them alone; and a value that has no null
-- byte at all is returned as it is.
pub strip-IsStorable :
    (d : Document) → (IsStorable (strip d) ↔ HasCleanKeys d) × (IsStorable d → strip d ≡ d)
strip-IsStorable d = ((keys_stay d, stripped d), kept d)
