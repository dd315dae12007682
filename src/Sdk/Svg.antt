-- ===== src/Sdk/Svg.antt =====
-- packages/nouns-sdk/src/image/svg-builder.ts: an encoded image as SVG rectangles.
pub mod Rows
pub mod Painting
pub mod Drawing
pub mod Opaque
pub mod Spots
use composable_nouns_monorep.Common.{
  ℕ, zero, suc, ◌+◌, ◌-◌, ◌&&◌, Option, none, some, List, [], ◌∷◌, ◌++◌, leb, ltb, ◌==◌,
  if◌then◌else◌, get_elem?, take, drop, String,
}
use composable_nouns_monorep.Sdk.Hex.{Text, parse_int}

-- `none` is NaN.
pub record DecodedBounds : Type 0 where
  pub top : Option ℕ
  pub right : Option ℕ
  pub bottom : Option ℕ
  pub left : Option ℕ

pub record DecodedImage : Type 0 where
  pub palette_index : Option ℕ
  pub bounds : DecodedBounds
  pub rects : List (Option ℕ × Option ℕ)

-- `text.substring(from, to)`.
abbrev pub substring : ℕ → ℕ → Text → Text
substring start end text = take (end - start) (drop start text)

-- `image.replace(/^0x/, '')`.
abbrev pub without_prefix : Text → Text
without_prefix (c ∷ d ∷ text) = if (c == b'0') && (d == b'x') then text else c ∷ d ∷ text
without_prefix text = text

-- `rects.match(/.{1,4}/g)`, each piece read as two numbers.
abbrev pub rects_of : Text → List (Option ℕ × Option ℕ)
rects_of [] = []
rects_of (a ∷ []) = (parse_int (a ∷ []), none) ∷ []
rects_of (a ∷ b ∷ []) = (parse_int (a ∷ b ∷ []), none) ∷ []
rects_of (a ∷ b ∷ c ∷ []) = (parse_int (a ∷ b ∷ []), parse_int (c ∷ [])) ∷ []
rects_of (a ∷ b ∷ c ∷ d ∷ rest) = (parse_int (a ∷ b ∷ []), parse_int (c ∷ d ∷ [])) ∷ rects_of rest

unfoldable pub decode_image : Text → DecodedImage
decode_image image =
    let text = without_prefix image in
    record {
      palette_index = parse_int (substring 0 2 text);
      bounds = record {
        top = parse_int (substring 2 4 text);
        right = parse_int (substring 4 6 text);
        bottom = parse_int (substring 6 8 text);
        left = parse_int (substring 8 10 text);
      };
      rects = rects_of (drop 10 text);
    }

-- Right of the bound the source's length is negative; it is tested only for being positive, and
-- zero serves for it.
unfoldable pub get_rect_length : ℕ → ℕ → ℕ → ℕ
get_rect_length current_x draw_length right_bound =
    let remaining = right_bound - current_x in
    if leb draw_length remaining then draw_length else remaining

-- An SVG rectangle, in pixels of the image: the source prints each number times 10.
pub record SvgRect : Type 0 where
  pub length : ℕ
  pub x : ℕ
  pub y : ℕ
  pub fill : Option String

-- The loop over one run. `none`: the fuel is spent.
unfoldable pub draw_run : ℕ → ℕ → ℕ → ℕ → Option String → ℕ → ℕ → ℕ → Option (List SvgRect × ℕ × ℕ)
draw_run zero left right color fill draw x y = none
draw_run (suc fuel) left right color fill draw x y =
    let length = get_rect_length x draw right in
    let ends = x + length == right in
    let rest =
      draw_run fuel left right color fill (draw - length) (if ends then left else x + length)
        (if ends then suc y else y) in
    if ltb 0 length
    then elim rest [
      | none ↦ none
      | some (rects, x', y') ↦ some (
        if color == 0 then rects else record { length = length; x = x; y = y; fill = fill } ∷ rects,
        x',
        y',
      )
    ]
    else some ([], x, y)

-- The loop over the runs, with the fuel that a run's length gives.
unfoldable pub draw_runs :
    ℕ → ℕ → List String → List (ℕ × ℕ) → ℕ → ℕ → Option (List SvgRect × ℕ × ℕ)
draw_runs left right palette [] x y = some ([], x, y)
draw_runs left right palette ((draw, color) ∷ runs) x y =
    elim (draw_run (suc draw) left right color (get_elem? palette color) draw x y) [
      | none ↦ none
      | some (rects, x', y') ↦ elim (draw_runs left right palette runs x' y') [
        | none ↦ none
        | some (more, x'', y'') ↦ some (rects ++ more, x'', y'')
      ]
    ]
