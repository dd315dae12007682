-- ===== src/Sdk/Tests.antt =====
-- The theorems on the image encoding at a concrete image.
use composable_nouns_monorep.Common.{
  ℕ, suc, ◌-◌, ◌<◌, ◌≤◌, ◌≡◌, refl, sym, ap, some, some_path, List, [], ◌∷◌, ◌==◌, ◌&&◌,
  if◌then◌else◌, arith, String, get_elem?, inl, inr, Bool-cases,
}
use composable_nouns_monorep.Sdk.Hex.{Text, to_padded_hex, rgb_to_hex}
use composable_nouns_monorep.Sdk.Image.{
  Image, new_image, RgbaColor, Colors, calc_bounds, scan, positions, to_rle, get_color, set_color,
  color_index, text_eq, is_transparent_row, is_transparent_column,
}
use composable_nouns_monorep.Sdk.Image.Bounds.{calc_bounds_lem}
use composable_nouns_monorep.Sdk.Image.Runs.{
  runs, numbers, expand, IsEncodable, decode_image-to_rle,
}
use composable_nouns_monorep.Sdk.Svg.{decode_image, SvgRect, draw_runs}
use composable_nouns_monorep.Sdk.Svg.Rows.{pixels_of}
use composable_nouns_monorep.Sdk.Svg.Opaque.{HasTransparent}
use composable_nouns_monorep.Sdk.Svg.Spots.{image_rows}
use composable_nouns_monorep.Sdk.Svg.Drawing.{draw_runs-to_rle}

-- Red at (1, 1) of two by two pixels, and nothing else.
abbrev color_at : ℕ → ℕ → RgbaColor
color_at x y =
    let opaque = if (x == 1) && (y == 1) then 255 else 0 in
    record { r = opaque; g = 0; b = 0; a = opaque }

abbrev dot : Image
dot = new_image 2 2 color_at

abbrev palette : Colors
palette = ([], 0) ∷ []

calc_bounds_example :
    let b = calc_bounds dot in
    (b.top ≤ 1) × (1 ≤ b.bottom) × (b.bottom < 2) × (b.left ≤ 1) × (1 < b.right) × (b.right ≤ 2)
calc_bounds_example = calc_bounds_lem dot 1 1 (omega arith) (omega arith) (omega arith)

dot-IsEncodable : IsEncodable dot palette
unfolding calc_bounds is_transparent_row is_transparent_column scan get_color rgb_to_hex
    to_padded_hex
dot-IsEncodable = record {
  top = omega arith;
  right = omega arith;
  bottom = omega arith;
  left = omega arith;
  pixels = (omega arith, tt);
}

decode_image-to_rle_example :
    let decoded = decode_image (to_rle dot palette).0 in
    let b = calc_bounds dot in
    let pixels = (scan dot (positions b) palette).0 in
    (decoded.palette_index ≡ some 0)
    × (decoded.bounds ≡ record {
      top = some b.top;
      right = some b.right;
      bottom = some b.bottom;
      left = some b.left;
    })
    × (decoded.rects ≡ numbers (runs pixels))
    × (expand (runs pixels) ≡ pixels)
decode_image-to_rle_example = decode_image-to_rle dot palette dot-IsEncodable

dot-wide : (calc_bounds dot).left < (calc_bounds dot).right
unfolding calc_bounds is_transparent_row is_transparent_column
dot-wide = omega arith

abbrev name : Text → String
name [] = ""
name (c ∷ text) = "ff0000"

abbrev names : List String
names = "" ∷ "ff0000" ∷ []

only_empty : (k : Text) → get_color palette k ≡ some 0 → k ≡ []
unfolding get_color
only_empty [] h = refl
only_empty (c ∷ k) h = absurd (cc)

palette-HasTransparent : HasTransparent palette
palette-HasTransparent = (omega arith, only_empty)

names-Lists :
    (k : Text) (n : ℕ)
    → get_color (to_rle dot palette).2 k ≡ some n
    → get_elem? names n ≡ some (name k)
unfolding get_color to_rle calc_bounds is_transparent_row is_transparent_column scan rgb_to_hex
    to_padded_hex set_color color_index
names-Lists [] n = λ h. ap (get_elem? names) (sym (some_path h))
names-Lists (c ∷ k) n = elim (Bool-cases (text_eq (rgb_to_hex 255 0 0) (c ∷ k))) [
  | inl t ↦ rw t (λ h. ap (get_elem? names) (sym (some_path h)))
  | inr f ↦ rw f (λ h. absurd (cc))
]

draw_runs-to_rle_example :
    let b = calc_bounds dot in
    (rs : List (ℕ × ℕ)) × (rects : List SvgRect) × (end_x end_y : ℕ) × ((decode_image
        (to_rle dot palette).0).rects
      ≡ numbers rs)
    × (draw_runs b.left b.right names rs b.left b.top ≡ some (rects, end_x, end_y))
    × (pixels_of rects ≡ image_rows dot name b.left b.top (b.right - b.left) (suc b.bottom - b.top))
draw_runs-to_rle_example =
    draw_runs-to_rle dot palette name names dot-IsEncodable dot-wide palette-HasTransparent
      names-Lists
