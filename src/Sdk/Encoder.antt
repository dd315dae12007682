-- ===== src/Sdk/Encoder.antt =====
-- packages/nouns-sdk/src/image/png-collection-encoder.ts: a collection of encoded images in folders.
-- Writing the collection to a file is left out.
use composable_nouns_monorep.Common.{
  ℕ, suc, Bool, true, false, Option, none, some, List, [], ◌∷◌, ◌++◌, map, if◌then◌else◌, String,
  str_eq,
}
use composable_nouns_monorep.Sdk.Hex.{Text}
use composable_nouns_monorep.Sdk.Image.{RgbaColor, new_image, Colors, set_color, to_rle}

pub record PngImage : Type 0 where
  pub width : ℕ
  pub height : ℕ
  pub rgba_at : ℕ → ℕ → RgbaColor

-- A Map, or an object, with texts for keys, in the order of insertion.
abbrev pub Dictionary {ℓ} : Type ℓ → Type ℓ
Dictionary V = List (String × V)

module _ {ℓ} {V : Type ℓ} where
  unfoldable pub get : Dictionary V → String → Option V
  get [] k = none
  get ((j, v) ∷ m) k = if str_eq j k then some v else get m k

  unfoldable pub set : Dictionary V → String → V → Dictionary V
  set [] k v = (k, v) ∷ []
  set ((j, w) ∷ m) k v = if str_eq j k then (j, v) ∷ m else (j, w) ∷ set m k v

  unfoldable pub delete : Dictionary V → String → Dictionary V
  delete [] k = []
  delete ((j, v) ∷ m) k = if str_eq j k then m else (j, v) ∷ delete m k

pub record Encoder : Type 0 where
  pub colors : Colors
  pub images : Dictionary Text
  pub folders : Dictionary (List String)

-- The palette that is given, on top of the transparent color.
abbrev pub set_colors : ℕ → List Text → Colors → Colors
set_colors index [] colors = colors
set_colors index (c ∷ cs) colors = set_colors (suc index) cs (set_color colors c index)

unfoldable pub new_encoder : List Text → Encoder
new_encoder palette = record {
  colors = set_colors 0 palette (([], 0) ∷ []);
  images = [];
  folders = [];
}

-- `(this._folders[folder] ||= []).push(name)`.
abbrev pub add_to_folder : String → String → Dictionary (List String) → Dictionary (List String)
add_to_folder folder name folders = elim (get folders folder) [
  | none ↦ set folders folder (name ∷ [])
  | some names ↦ set folders folder (names ++ (name ∷ []))
]

-- An empty folder name is none.
abbrev pub file_in : Option String → String → Dictionary (List String) → Dictionary (List String)
file_in none name folders = folders
file_in (some folder) name folders =
    if str_eq folder "" then folders else add_to_folder folder name folders

unfoldable pub encode_image : String → PngImage → Option String → Encoder → Text × Encoder
encode_image name png folder e =
    let (rle, image, colors) = to_rle (new_image png.width png.height png.rgba_at) e.colors in
    (
      rle,
      record {
        colors = colors;
        images = set e.images name rle;
        folders = file_in folder name e.folders;
      },
    )

pub record EncodedImage : Type 0 where
  pub filename : String
  -- `none`: a file that was in another folder, too, and is gone from the map.
  pub payload : Option Text

-- The files of one folder, which leave the map.
unfoldable pub take_files : List String → Dictionary Text → List EncodedImage × Dictionary Text
unfolding get delete
take_files [] images = ([], images)
take_files (f ∷ files) images =
    let (rest, images') = take_files files (delete images f) in
    (record { filename = f; payload = get images f } ∷ rest, images')

unfoldable pub take_folders :
    Dictionary (List String) → Dictionary Text → Dictionary (List EncodedImage) × Dictionary Text
unfolding take_files
take_folders [] images = ([], images)
take_folders ((folder, files) ∷ rest) images =
    let (taken, images') = take_files files images in
    let (more, images'') = take_folders rest images' in ((folder, taken) ∷ more, images'')

abbrev pub all_files : Dictionary Text → List EncodedImage
all_files images = map (λ x. record { filename = x.0; payload = some x.1 }) images

-- `data.root = ...` replaces a folder of that name.
abbrev pub with_root :
    Dictionary Text → Dictionary (List EncodedImage) → Dictionary (List EncodedImage)
with_root [] folders = folders
with_root (x ∷ images) folders = set folders "root" (all_files (x ∷ images))

unfoldable pub format : Bool → Encoder → Dictionary (List EncodedImage)
unfolding take_folders set
format true e = with_root e.images []
format false e = let (folders, left) = take_folders e.folders e.images in with_root left folders
