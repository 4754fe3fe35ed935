-- ===== src/Stimuli/Service.antt =====
-- What app/services/stimulus_service.py writes. The storage and the image library are parameters.
use syn_koala.Prelude.{
  ℕ, ◌+◌, String, ℤ, Bool, true, false, ◌||◌, ◌&&◌, Option, none, some, List, [], ◌∷◌, ◌++◌,
  if◌then◌else◌, ◌==◌, leb, find_first, is_nonempty, Result, nonempty,
}
use mathlib.Core.Option
use Prim.Native.Char.{code}
use syn_koala.Database.Session.{
  Tx, ServiceError, ◌>>=◌, ◌>>◌, return, found_or, read, write, not_found, value_error,
}
use syn_koala.Database.Rows.{amend}
use syn_koala.Stimuli.{Screen, Stimulus, Assets, unique_screen_key}
use syn_koala.Stimuli.Nulls.{Members}

-- What the service calls: the bucket, the header of an image, and `str` of a number; `File` is what is
-- uploaded.
pub record Media : Type 1 where
  pub File : Type 0
  pub upload_object : ℕ → File → Result ServiceError String
  pub image_dimensions : File → Option (ℤ × ℤ)
  pub show : ℕ → String
  -- `str.lower`, and the text of code points
  pub lower : String → List ℕ
  pub of_codes : List ℕ → String

-- `filename.rsplit(".", 1)[0]`
abbrev pub has_dot : String → Bool
has_dot String.[] = false
has_dot (String.◌∷◌ c s) = (code c == b'.') || has_dot s

unfoldable pub stem : String → String
stem String.[] = String.[]
stem (String.◌∷◌ c s) =
    let rest = stem s in
    if has_dot s then String.◌∷◌ c rest else (if code c == b'.' then String.[] else String.◌∷◌ c s)

is_slug_char : ℕ → Bool
is_slug_char c = (leb b'a' c && leb c b'z') || (leb b'0' c && leb c b'9')

-- `re.sub(r"[^a-z0-9]+", "_", text).strip("_")`: `gap` says that other characters were read since the
-- last letter or digit, and `out` is what is kept so far.
unfoldable pub slug : (gap : Bool) → (out rest : List ℕ) → List ℕ
unfolding is_slug_char
slug gap out [] = out
slug gap out (c ∷ rest) = elim (is_slug_char c) [
  | true ↦ slug false ((if gap && is_nonempty out then out ++ b'_' ∷ [] else out) ++ c ∷ []) rest
  | false ↦ slug true out rest
]

-- What a called library returned or raised.
abbrev pub lift : {D A : Type 0} → Result ServiceError A → Tx D A
lift r db = (db, r)

abbrev pub or_screen : Option String → String
or_screen none = "screen"
or_screen (some key) = key

unfoldable pub new_stimulus : ℕ → String → Option String → Option Members → Assets → Stimulus
new_stimulus study_id stimulus_type source_url metadata a = record {
  id = a.next_id;
  study_id = study_id;
  type = stimulus_type;
  source_url = source_url;
  metadata = metadata;
}

unfoldable pub get_with_screens : ℕ → Tx Assets Stimulus
get_with_screens stimulus_id assets =
    found_or not_found (find_first (λ s. s.id == stimulus_id) assets.stimuli) assets

module _ (m : Media) where
  open m use {File, upload_object, image_dimensions, show, lower, of_codes}

  unfoldable pub slugify_filename : Option String → Option String
  unfolding stem slug
  slugify_filename filename = elim (nonempty filename) [
    | none ↦ none
    | some name ↦
        let key = slug false [] (lower (stem name)) in
        if is_nonempty key then some (of_codes key) else none
  ]

  -- The row that an upload adds to `screens`.
  unfoldable pub uploaded_screen : ℕ → ℕ → String → String → File → Screen
  uploaded_screen id stimulus_id screen_key stored_path file = record {
    id = id;
    stimulus_id = stimulus_id;
    screen_key = screen_key;
    image_url = some stored_path;
    width = Option.map (λ size. size.0) (image_dimensions file);
    height = Option.map (λ size. size.1) (image_dimensions file);
    analysis = none;
    elements = [];
  }

  -- What `create_with_asset` writes of an uploaded file: where it is, and a screen under a key of its own.
  unfoldable pub save_upload :
      ℕ → Stimulus → File → Option String → (stored_path : String) → Tx Assets (Unit {0})
  unfolding slugify_filename uploaded_screen unique_screen_key
  save_upload study_id stimulus file filename stored_path = do
    write (λ a. record a {
      stimuli =
          amend (λ s. s.id == stimulus.id) (λ s. record s { source_url = some stored_path })
            a.stimuli;
    })
    key ← read (unique_screen_key show study_id (or_screen (slugify_filename filename)))
    screen_key ← found_or value_error key
    write (λ a. record a {
      screens = a.screens ++ uploaded_screen a.next_id stimulus.id screen_key stored_path file ∷ [];
      next_id = a.next_id + 1;
    })

  unfoldable pub add_asset : ℕ → Stimulus → Option File → Option String → Tx Assets (Unit {0})
  unfolding save_upload
  add_asset study_id stimulus none filename = return tt
  add_asset study_id stimulus (some file) filename =
      lift (upload_object stimulus.id file) >>= save_upload study_id stimulus file filename

  unfoldable pub create_with_asset :
      ℕ → String → Option String → Option File → Option Members → Option String → Tx Assets Stimulus
  unfolding new_stimulus add_asset get_with_screens
  create_with_asset study_id stimulus_type source_url file metadata original_filename = do
    stimulus ← read (new_stimulus study_id stimulus_type source_url metadata)
    write (λ a. record a { stimuli = a.stimuli ++ stimulus ∷ []; next_id = a.next_id + 1 })
    add_asset study_id stimulus file original_filename
    get_with_screens stimulus.id
