-- ===== src/Sdk/Image.antt =====
-- packages/nouns-sdk/src/image/image.ts and types.ts: an image, the bounds of its opaque part and
-- its run-length encoding.
pub mod Bounds
pub mod Runs
use composable_nouns_monorep.Common.{
  ℕ, zero, suc, ◌+◌, ◌-◌, ◌<◌, ◌≤◌, ◌≡◌, refl, Bool, true, false, not, ◌&&◌, ◌||◌, Option, none,
  some, List, [], ◌∷◌, ◌++◌, map, leb, ltb, ◌==◌, if◌then◌else◌, length,
}
use composable_nouns_monorep.Sdk.Hex.{Text, to_padded_hex, rgb_to_hex}

pub record ImageBounds : Type 0 where
  pub top : ℕ
  pub right : ℕ
  pub bottom : ℕ
  pub left : ℕ

pub record RgbaColor : Type 0 where
  pub r : ℕ
  pub g : ℕ
  pub b : ℕ
  pub a : ℕ

pub record Image : Type 0 where
  pub width : ℕ
  pub height : ℕ
  pub bounds : ImageBounds
  pub tuples : List (ℕ × ℕ)
  pub get_rgba_at : ℕ → ℕ → RgbaColor

-- The constructor.
abbrev pub new_image : ℕ → ℕ → (ℕ → ℕ → RgbaColor) → Image
new_image width height get_rgba_at = record {
  width = width;
  height = height;
  bounds = record { top = 0; right = 0; bottom = 0; left = 0 };
  tuples = [];
  get_rgba_at = get_rgba_at;
}

-- Whether a test holds at all numbers below a bound, as a loop that stops at the first failure.
abbrev pub all_below : ℕ → (ℕ → Bool) → Bool
all_below zero p = true
all_below (suc n) p = all_below n p && p n

unfoldable pub is_transparent_column : Image → ℕ → Bool
is_transparent_column i column = all_below i.height (λ row. (i.get_rgba_at column row).a == 0)

unfoldable pub is_transparent_row : Image → ℕ → Bool
is_transparent_row i row = all_below i.width (λ column. (i.get_rgba_at column row).a == 0)

-- `while (bottom > 0 && blank(bottom)) bottom--`.
abbrev pub lower : (ℕ → Bool) → ℕ → ℕ
lower blank zero = zero
lower blank (suc b) = let lowered = lower blank b in if blank (suc b) then lowered else suc b

-- `while (n > 0 && blank(n - 1)) n--`: the loop of the right bound, whose variable is one less.
abbrev pub trim : (ℕ → Bool) → ℕ → ℕ
trim blank zero = zero
trim blank (suc n) = let trimmed = trim blank n in if blank n then trimmed else suc n

-- `while (t < limit && blank(t)) t++`, with `limit - t` passes left.
abbrev pub raise : (ℕ → Bool) → ℕ → ℕ → ℕ
raise blank zero t = t
raise blank (suc passes) t =
    let raised = raise blank passes (suc t) in if blank t then raised else t

-- A PNG has a row and a column at least; `right` is one more than the source's variable until it
-- returns.
unfoldable pub calc_bounds : Image → ImageBounds
calc_bounds i =
    let bottom = lower (is_transparent_row i) (i.height - 1) in
    let top = raise (is_transparent_row i) bottom 0 in
    let right = trim (is_transparent_column i) i.width in
    let left = raise (is_transparent_column i) (right - 1) 0 in
    record { top = top; right = right; bottom = bottom; left = left }

-- The palette, a Map in the order of insertion.
abbrev pub Colors : Type 0
Colors = List (Text × ℕ)

abbrev pub text_eq : Text → Text → Bool
text_eq [] [] = true
text_eq [] (d ∷ t) = false
text_eq (c ∷ s) [] = false
text_eq (c ∷ s) (d ∷ t) = (c == d) && text_eq s t

unfoldable pub get_color : Colors → Text → Option ℕ
get_color [] k = none
get_color ((j, v) ∷ m) k = if text_eq j k then some v else get_color m k

unfoldable pub set_color : Colors → Text → ℕ → Colors
set_color [] k v = (k, v) ∷ []
set_color ((j, w) ∷ m) k v = if text_eq j k then (j, v) ∷ m else (j, w) ∷ set_color m k v

-- The numbers from `start`, as many as given.
abbrev pub count_up : ℕ → ℕ → List ℕ
count_up start zero = []
count_up start (suc n) = start ∷ count_up (suc start) n

-- The pixels of one row, and of the rows, in the order of the two loops of `toRLE`.
abbrev pub row_positions : ImageBounds → ℕ → List (ℕ × ℕ)
row_positions b y = map (λ x. (x, y)) (count_up b.left (b.right - b.left))

abbrev pub row_all : ImageBounds → List ℕ → List (ℕ × ℕ)
row_all b [] = []
row_all b (y ∷ ys) = row_positions b y ++ row_all b ys

abbrev pub positions : ImageBounds → List (ℕ × ℕ)
positions b = row_all b (count_up b.top (suc b.bottom - b.top))

-- The color of a pixel in the palette, which the pixel extends if it is new.
unfoldable pub color_index : RgbaColor → Colors → ℕ × Colors
unfolding get_color set_color rgb_to_hex
color_index c colors =
    let hex = rgb_to_hex c.r c.g c.b in
    elim (get_color colors hex) [
      | some index ↦ (if c.a == 0 then 0 else index, colors)
      | none ↦ (if c.a == 0 then 0 else length colors, set_color colors hex (length colors))
    ]

unfoldable pub scan : Image → List (ℕ × ℕ) → Colors → List ℕ × Colors
unfolding color_index
scan i [] colors = ([], colors)
scan i ((x, y) ∷ rest) colors =
    let (index, colors') = color_index (i.get_rgba_at x y) colors in
    let (indexes, colors'') = scan i rest colors' in (index ∷ indexes, colors'')

-- One run: its length and its color.
abbrev pub hex_pair : ℕ → ℕ → Text
hex_pair count previous = to_padded_hex count ++ to_padded_hex previous

-- The loop of `encode`, with the run it is in: the text, and what it pushes to `tuples`.
unfoldable pub encode_from : ℕ → ℕ → List ℕ → Text × List (ℕ × ℕ)
encode_from count previous [] = (hex_pair count previous, [])
encode_from count previous (d ∷ data') =
    let ends = not (d == previous) || (count == 255) in
    let (text, tuples) =
      encode_from (if ends then 1 else suc count) (if ends then d else previous) data' in
    if ends then (hex_pair count previous ++ text, (count, previous) ∷ tuples) else (text, tuples)

unfoldable pub encode : List ℕ → Text × List (ℕ × ℕ)
unfolding encode_from
encode [] = ([], [])
encode (d ∷ data') = encode_from 1 d data'

-- The metadata: palette index, top, right, bottom, left.
abbrev pub metadata : ImageBounds → Text
metadata b =
    to_padded_hex 0
    ++ to_padded_hex b.top
    ++ to_padded_hex b.right
    ++ to_padded_hex b.bottom
    ++ to_padded_hex b.left

unfoldable pub to_rle : Image → Colors → Text × Image × Colors
to_rle i colors =
    let b = calc_bounds i in
    let (indexes, colors') = scan i (positions b) colors in
    let (text, tuples) = encode indexes in
    (
      b'0' ∷ b'x' ∷ (metadata b ++ text),
      record i { bounds = b; tuples = i.tuples ++ tuples },
      colors',
    )
