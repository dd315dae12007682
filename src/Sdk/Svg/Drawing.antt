-- ===== src/Sdk/Svg/Drawing.antt =====
-- An image that is encoded, decoded and drawn.
use composable_nouns_monorep.Common.{ℕ, suc, ◌-◌, ◌<◌, ◌≡◌, ◌∙◌, ap, some, List, String}
use composable_nouns_monorep.Sdk.Image.{Image, Colors, calc_bounds, scan, positions, to_rle}
use composable_nouns_monorep.Sdk.Image.Runs.{IsEncodable, numbers, runs, decode_image-to_rle}
use composable_nouns_monorep.Sdk.Svg.{SvgRect, decode_image, draw_runs}
use composable_nouns_monorep.Sdk.Svg.Painting.{draw_runs_lem}
use composable_nouns_monorep.Sdk.Hex.{Text}
use composable_nouns_monorep.Sdk.Svg.Opaque.{HasTransparent}
use composable_nouns_monorep.Sdk.Svg.Spots.{Lists, image_rows, paint-positions}
use composable_nouns_monorep.Sdk.Svg.Rows.{pixels_of, paint}

-- An image whose color indexes and bounds are bytes, whose bounds are not empty, and whose colors
-- start with a transparent one at index 0, is encoded by `toRLE` to runs of which `draw_runs` makes
-- rectangles that cover, row by row, exactly the pixels of the image inside its bounds whose alpha is
-- not 0, each in its own color, if the palette that they are drawn with lists the colors at the
-- indexes that `toRLE` leaves them.
pub draw_runs-to_rle :
    (i : Image) (colors : Colors) (name : Text → String) (palette : List String)
    → IsEncodable i colors
    → (calc_bounds i).left < (calc_bounds i).right
    → HasTransparent colors
    → Lists palette name (to_rle i colors).2
    → let b = calc_bounds i in
      (rs : List (ℕ × ℕ)) × (rects : List SvgRect) × (end_x end_y : ℕ) × ((decode_image
          (to_rle i colors).0).rects
        ≡ numbers rs)
      × (draw_runs b.left b.right palette rs b.left b.top ≡ some (rects, end_x, end_y))
      × (pixels_of rects ≡ image_rows i name b.left b.top (b.right - b.left) (suc b.bottom - b.top))
unfolding to_rle
draw_runs-to_rle i colors name palette h wide taken lists =
    let b = calc_bounds i in
    let rs = runs (scan i (positions b) colors).0 in
    let (_, _, decoded, back) = decode_image-to_rle i colors h in
    let (rects, x, y, drawn, covered) =
      draw_runs_lem b.left b.right palette rs b.left b.top wide wide in
    (
      rs,
      rects,
      x,
      y,
      decoded,
      drawn,
      covered
          ∙ ap (λ cs. paint b.left b.right palette cs b.left b.top) back
          ∙ paint-positions i name palette b colors taken lists wide,
    )
