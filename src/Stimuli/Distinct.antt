-- ===== src/Stimuli/Distinct.antt =====
-- `create_with_asset` of app/services/stimulus_service.py: the keys of a study's screens stay distinct.
use mathlib.Core.Path.{fun_ext}
use mathlib.Core.Option.{some-injective}
use syn_koala.Prelude.{
  ℕ, ◌+◌, ◌<◌, ◌≡◌, ◌⊎◌, refl, sym, ap, subst, ◌∙◌, arith, String, Bool, false, ◌||◌, ◌&&◌, ◌==◌,
  Option, none, some, List, [], ◌∷◌, ◌++◌, str_eq, str_ne_sym, map, select, any, All, All-map,
  All-append, contains, string_eq, Bool-cases, inl, inr, ok,
}
use syn_koala.Database.Rows.{amend}
use syn_koala.Database.Session.{
  resume, value_error, not_found, found_or, resume-leads, resume-keeps, found_or-keeps,
}
use syn_koala.Stimuli.{
  Screen, Stimulus, Assets, in_study, list_screens_for_study, unique_screen_key,
}
use syn_koala.Stimuli.Nulls.{Members}
use syn_koala.Stimuli.Keys.{keys_of, unique_screen_key-IsFree}
use syn_koala.Stimuli.Service.{
  Media, slugify_filename, or_screen, new_stimulus, get_with_screens, uploaded_screen, save_upload,
  add_asset, create_with_asset,
}

-- No two of the texts are the same.
abbrev pub AreDistinct : List String → Type 0
AreDistinct [] = Unit
AreDistinct (key ∷ keys) = (contains keys key ≡ false) × AreDistinct keys

contains-append_one :
    (key other : String) (keys : List String)
    → contains keys other ≡ false
    → str_eq key other ≡ false
    → contains (keys ++ key ∷ []) other ≡ false
contains-append_one key other [] h ne = rw ne refl
contains-append_one key other (k ∷ keys) h ne = elim (Bool-cases (str_eq k other)) [
  | inl e ↦ cc (rw e at h)
  | inr e ↦ rw e (contains-append_one key other keys (rw e at h) ne)
]

AreDistinct-append :
    (keys : List String) (key : String)
    → AreDistinct keys
    → contains keys key ≡ false
    → AreDistinct (keys ++ key ∷ [])
AreDistinct-append [] key distinct new = (refl, tt)
AreDistinct-append (k ∷ keys) key (first, distinct) new = elim (Bool-cases (str_eq k key)) [
  | inl e ↦ cc (rw e at new)
  | inr e ↦ (
    contains-append_one key k keys first (str_ne_sym k key e),
    AreDistinct-append keys key distinct (rw e at new),
  )
]

-- Every screen is of a stimulus that was there.
abbrev pub HasOwners : Assets → Type 0
HasOwners a = All (λ s. s.stimulus_id < a.next_id) a.screens

-- What the service keeps of the screens of a study.
pub record IsTidy (study_id : ℕ) (a : Assets) : Type 0 where
  pub owners : HasOwners a
  pub distinct : AreDistinct (keys_of study_id a)

later :
    (screens : List Screen) (bound : ℕ)
    → All (λ s. s.stimulus_id < bound) screens
    → All (λ s. s.stimulus_id < bound + 1) screens
later screens bound all =
    All-map (λ s. s.stimulus_id < bound) (λ s. s.stimulus_id < bound + 1)
      (λ s lt. omega (arith, lt)) screens all

module _ (study_id : ℕ) where
  key_of : Screen → String
  key_of s = s.screen_key

  owns : ℕ → Stimulus → Bool
  owns id s = (s.id == id) && (s.study_id == study_id)

  any-owns_new :
      (id : ℕ) (old : List Stimulus) (new : Stimulus)
      → id < new.id
      → any (owns id) (old ++ new ∷ []) ≡ any (owns id) old
  unfolding owns
  any-owns_new id [] new lt = ground (arith, lt)
  any-owns_new id (s ∷ old) new lt = ap (λ b. owns id s || b) (any-owns_new id old new lt)

  any-owns-amend :
      (id : ℕ) (test : Stimulus → Bool) (change : Stimulus → Stimulus) (old : List Stimulus)
      → ((s : Stimulus) → ((change s).id ≡ s.id) × ((change s).study_id ≡ s.study_id))
      → any (owns id) (amend test change old) ≡ any (owns id) old
  unfolding owns
  any-owns-amend id test change [] same = refl
  any-owns-amend id test change (s ∷ old) same =
      let rest = any-owns-amend id test change old same in
      elim (Bool-cases (test s)) [
        | inl e ↦ rw e (rw (same s).0 (rw (same s).1 (ap (λ b. owns id s || b) rest)))
        | inr e ↦ rw e (ap (λ b. owns id s || b) rest)
      ]

  -- Two tests that agree on the owners of the screens list the same keys.
  same_keys :
      (p q : ℕ → Bool) (bound : ℕ) (screens : List Screen)
      → ((id : ℕ) → id < bound → p id ≡ q id)
      → All (λ s. s.stimulus_id < bound) screens
      → map key_of (select (λ s. p s.stimulus_id) screens)
        ≡ map key_of (select (λ s. q s.stimulus_id) screens)
  same_keys p q bound [] same all = refl
  same_keys p q bound (s ∷ screens) same (lt, all) =
      let rest = same_keys p q bound screens same all in
      elim (Bool-cases (q s.stimulus_id)) [
        | inl e ↦ rw e (rw (same s.stimulus_id lt ∙ e) (ap (λ ks. key_of s ∷ ks) rest))
        | inr e ↦ rw e (rw (same s.stimulus_id lt ∙ e) rest)
      ]

  keys-append :
      (p : ℕ → Bool) (screens : List Screen) (new : Screen)
      → (map key_of (select (λ s. p s.stimulus_id) (screens ++ new ∷ []))
          ≡ map key_of (select (λ s. p s.stimulus_id) screens) ++ key_of new ∷ [])
        ⊎ (map key_of (select (λ s. p s.stimulus_id) (screens ++ new ∷ []))
            ≡ map key_of (select (λ s. p s.stimulus_id) screens))
  keys-append p [] new = elim (Bool-cases (p new.stimulus_id)) [
    | inl e ↦ inl (rw e refl)
    | inr e ↦ inr (rw e refl)
  ]
  keys-append p (s ∷ screens) new = elim (Bool-cases (p s.stimulus_id)) [
    | inl e ↦ rw e (elim (keys-append p screens new) [
      | inl more ↦ inl (ap (λ ks. key_of s ∷ ks) more)
      | inr same ↦ inr (ap (λ ks. key_of s ∷ ks) same)
    ])
    | inr e ↦ rw e (keys-append p screens new)
  ]

module _ (m : Media) (study_id : ℕ) where
  amend-keys :
      (a : Assets) (test : Stimulus → Bool) (path : String)
      → keys_of study_id
          (record a { stimuli = amend test (λ s. record s { source_url = some path }) a.stimuli })
        ≡ keys_of study_id a
  unfolding list_screens_for_study in_study owns key_of
  amend-keys a test path =
      ap (λ p. map (key_of study_id) (select (λ s. p s.stimulus_id) a.screens))
        (fun_ext (λ id.
          any-owns-amend study_id id test (λ s. record s { source_url = some path }) a.stimuli
            (λ s. (refl, refl))))

  added-AreDistinct :
      (a : Assets) (new : Screen)
      → AreDistinct (keys_of study_id a)
      → contains (keys_of study_id a) new.screen_key ≡ false
      → AreDistinct
          (keys_of study_id (record a { screens = a.screens ++ new ∷ []; next_id = a.next_id + 1 }))
  unfolding list_screens_for_study in_study key_of
  added-AreDistinct a new distinct free =
      elim (keys-append study_id (in_study a study_id) a.screens new) [
        | inl more ↦
            subst AreDistinct (sym more)
              (AreDistinct-append (keys_of study_id a) new.screen_key distinct free)
        | inr same ↦ subst AreDistinct (sym same) distinct
      ]

  module _ (injective : (i j : ℕ) → m.show i ≡ m.show j → i ≡ j) where
    save_upload-IsTidy :
        (stimulus : Stimulus) (file : m.File) (filename : Option String) (path : String)
        (a : Assets)
        → stimulus.id < a.next_id
        → IsTidy study_id a
        → IsTidy study_id (save_upload m study_id stimulus file filename path a).0
    unfolding save_upload
    save_upload-IsTidy stimulus file filename path a known tidy =
        placed (unique_screen_key m.show study_id base_key b) (λ key returned.
          let (free_key, found, free, named) =
            unique_screen_key-IsFree m.show injective study_id base_key b in
          subst (λ k. contains (keys_of study_id b) k ≡ false)
            (some-injective free_key key (sym found ∙ returned)) free)
      where
        base_key : String
        base_key = or_screen (slugify_filename m filename)

        is_stimulus : Stimulus → Bool
        is_stimulus s = s.id == stimulus.id

        b : Assets
        b = record a {
          stimuli = amend is_stimulus (λ s. record s { source_url = some path }) a.stimuli;
        }

        before : AreDistinct (keys_of study_id b)
        before = subst AreDistinct (sym (amend-keys a is_stimulus path)) tidy.distinct

        placed :
            (found : Option String)
            → ((key : String) → found ≡ some key → contains (keys_of study_id b) key ≡ false)
            → IsTidy study_id
                (resume (found_or value_error found b) (λ key c. (
                  record c {
                    screens =
                        c.screens ++ uploaded_screen m c.next_id stimulus.id key path file ∷ [];
                    next_id = c.next_id + 1;
                  },
                  ok tt,
                ))).0
        placed none free = record { owners = tidy.owners; distinct = before }
        placed (some key) free = record {
          owners =
              All-append (λ s. s.stimulus_id < b.next_id + 1) a.screens _
                (later a.screens a.next_id tidy.owners) (omega (arith, known), tt);
          distinct =
              added-AreDistinct b (uploaded_screen m b.next_id stimulus.id key path file) before
                (free key refl);
        }

    add_asset-IsTidy :
        (stimulus : Stimulus) (file : Option m.File) (filename : Option String) (a : Assets)
        → stimulus.id < a.next_id
        → IsTidy study_id a
        → IsTidy study_id (add_asset m study_id stimulus file filename a).0
    unfolding add_asset
    add_asset-IsTidy stimulus none filename a known tidy = tidy
    add_asset-IsTidy stimulus (some file) filename a known tidy =
        resume-leads (λ b. (stimulus.id < b.next_id) × IsTidy study_id b) (IsTidy study_id)
          (a, m.upload_object stimulus.id file) (save_upload m study_id stimulus file filename)
          (λ b h. h.1) (known, tidy)
          (λ path b h. save_upload-IsTidy stimulus file filename path b h.0 h.1)

-- `create_with_asset`, with or without a file, and whatever comes of the upload, keeps two things: every
-- screen is of a stimulus whose id was given out, and no two screens of the study have the same key; where
-- `str` gives different numbers different texts.
pub create_with_asset-IsTidy :
    (m : Media)
    → ((i j : ℕ) → m.show i ≡ m.show j → i ≡ j)
    → (study_id : ℕ) (stimulus_type : String) (source_url : Option String) (file : Option m.File)
      (metadata : Option Members) (filename : Option String) (a : Assets)
    → IsTidy study_id a
    → IsTidy study_id
        (create_with_asset m study_id stimulus_type source_url file metadata filename a).0
unfolding create_with_asset new_stimulus get_with_screens list_screens_for_study in_study owns
    key_of
create_with_asset-IsTidy m injective study_id stimulus_type source_url file metadata filename a
      tidy =
    let stimulus = new_stimulus study_id stimulus_type source_url metadata a in
    let b : Assets = record a { stimuli = a.stimuli ++ stimulus ∷ []; next_id = a.next_id + 1 } in
    let same =
      same_keys study_id (in_study b study_id) (in_study a study_id) a.next_id a.screens
        (λ id lt. any-owns_new study_id id a.stimuli stimulus lt) tidy.owners in
    let before : IsTidy study_id b = record {
      owners = later a.screens a.next_id tidy.owners;
      distinct = subst AreDistinct (sym same) tidy.distinct;
    } in
    resume-keeps (IsTidy study_id) (add_asset m study_id stimulus file filename b)
      (λ _. get_with_screens stimulus.id)
      (add_asset-IsTidy m study_id injective stimulus file filename b (omega arith) before)
      (λ x c h. found_or-keeps (IsTidy study_id) not_found _ c h)
