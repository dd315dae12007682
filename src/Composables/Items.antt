-- ===== src/Composables/Items.antt =====
-- composablesWrapper.ts: items and their palettes; pages/Collection/index.tsx: the palette that is
-- saved. A palette, as the contract has it, is a text of character codes.
pub mod Palettes
use composable_nouns_monorep.Common.{
  ℕ, zero, suc, ◌+◌, Bool, true, false, ◌&&◌, ◌||◌, Option, none, some, List, [], ◌∷◌, ◌++◌, ◌==◌,
  length, take, drop, replicate, if◌then◌else◌, String, str_eq, ◌<>◌, filter,
}
use composable_nouns_monorep.Sdk.Hex.{Text}

pub record ComposableEncodedImage : Type 0 where
  pub filename : String
  -- The name `data` is a keyword.
  pub image_data : String
  pub palette : List Text

-- The JSON of an item, with the two fields that are added to it.
pub record Meta : Type 0 where
  pub name : String
  pub category : String
  pub creator : String

pub record ComposableItem : Type 0 where
  pub collection : String
  pub meta : Meta
  pub image : ComposableEncodedImage
  pub token_address : String
  pub token_id : ℕ

-- `text.match(/.{1,6}/g)` for a text without line breaks: six characters at a time, and null for
-- the empty text. Each match takes a character at least: the length is the fuel.
abbrev pub chunks : ℕ → Text → List Text
chunks zero cs = []
chunks (suc fuel) [] = []
chunks (suc fuel) (c ∷ cs) = take 6 (c ∷ cs) ∷ chunks fuel (drop 6 (c ∷ cs))

abbrev pub match_chunks : Text → Option (List Text)
match_chunks [] = none
match_chunks (c ∷ cs) = some (chunks (length (c ∷ cs)) (c ∷ cs))

-- The colors of a palette, behind "0x"; `none` is an exception.
unfoldable pub palette_of : Text → Option (List Text)
palette_of raw = match_chunks (drop 2 raw)

-- `JSON.parse("{" + text + "}")` with the name and the first two attributes; `none` is an
-- exception.
module _ (parse_meta : String → Option Meta) where
  unfoldable pub prepare_composable_item :
      String → ℕ → String → Text → String → String → Option ComposableItem
  unfolding palette_of
  prepare_composable_item address id collection raw bytes generated = elim (palette_of raw) [
    | none ↦ none
    | some palette ↦ elim (parse_meta generated) [
      | none ↦ none
      | some meta ↦ some (record {
        collection = collection;
        meta = meta;
        image = record {
          filename = meta.creator <> "-" <> meta.category <> "-" <> meta.name;
          image_data = bytes;
          palette = palette;
        };
        token_address = address;
        token_id = id;
      })
    ]
  ]

  -- The items of a collection, from the i-th on; an item without a text is left out.
  unfoldable pub get_items_from :
      (ℕ → String) → (ℕ → String) → String → String → Text → ℕ → ℕ → Option (List ComposableItem)
  unfolding prepare_composable_item
  get_items_from bytes generated address collection raw zero i = some []
  get_items_from bytes generated address collection raw (suc n) i =
      let rest = get_items_from bytes generated address collection raw n (i + 1) in
      let item = prepare_composable_item address i collection raw (bytes i) (generated i) in
      if str_eq (bytes i) "" || str_eq (generated i) ""
      then rest
      else elim item [ none ↦ none | some x ↦ elim rest [ none ↦ none | some xs ↦ some (x ∷ xs) ] ]

-- `palette.join('')`.
abbrev pub join : List Text → Text
join [] = []
join (c ∷ cs) = c ++ join cs

abbrev pub text_eq : Text → Text → Bool
text_eq [] [] = true
text_eq [] (d ∷ ds) = false
text_eq (c ∷ cs) [] = false
text_eq (c ∷ cs) (d ∷ ds) = c == d && text_eq cs ds

-- "000000", the transparent color of a contract.
abbrev pub spacer : Text
spacer = replicate 6 b'0'

-- pages/Collection/index.tsx, `validateAndSetCustomTrait`: the palette that the encoder starts with.
unfoldable pub clear_spacer : List Text → List Text
clear_spacer [] = []
clear_spacer (c ∷ cs) = if text_eq c spacer then [] ∷ cs else c ∷ cs

-- `saveForm`: the text that goes to the contract.
unfoldable pub palette_string : List Text → Text
palette_string palette = b'0' ∷ b'x' ∷ (spacer ++ join palette)
